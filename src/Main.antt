-- ===== src/Main.antt =====
-- src/main.rs: the routes of the HTTP server and the dispatch by method.
pub mod Route
pub mod Boot
use eleel.Common.{String, str_eq, List, [], ◌∷◌, Result, ok, err, Bool, false, ◌||◌, if◌then◌else◌}
use eleel.External.Lru.{Lru}
use eleel.External.Primitives.{Primitives}
use eleel.External.Lighthouse.{Lighthouse}
use eleel.External.Jwt.{JwtApi}
use eleel.Types.{
  Request, Requests, Response, ErrorResponse, MaybeErrorResponse, error_response, Responses,
  maybe_error, unsupported_method, parse_error_generic,
}
use eleel.Fcu.Handlers.{handle_fcu, handle_controller_fcu}
use eleel.Jwt.{KeyCollection, verify, verify_single_token}
use eleel.Meta.{handle_syncing, handle_chain_id, handle_engine_capabilities, proxy_directly}
use eleel.Multiplexer.{Settings}
use eleel.NewPayload.Handlers.{handle_new_payload, handle_controller_new_payload}
use eleel.PayloadBuilder.Methods.{handle_get_payload}
use eleel.Prog.{Prog, ret, ◌>>=◌}

abbrev pub is_one_of : List String → String → Bool
is_one_of [] method = false
is_one_of (m ∷ l) method = str_eq method m || is_one_of l method

-- The alternatives of one arm of the `match` on the method, which both dispatchers have.
module _ ⦃p : Primitives⦄ ⦃x : Lighthouse⦄ where
  open x.methods use {
    engine_forkchoice_updated_v1, engine_forkchoice_updated_v2, engine_forkchoice_updated_v3,
    engine_new_payload_v1, engine_new_payload_v2, engine_new_payload_v3, engine_new_payload_v4,
    engine_get_payload_v1, engine_get_payload_v2, engine_get_payload_v3, engine_get_payload_v4,
    engine_get_payload_bodies_by_hash_v1, engine_get_payload_bodies_by_range_v1,
    engine_get_client_version_v1,
  }

  abbrev pub fcu_methods : List String
  fcu_methods =
      engine_forkchoice_updated_v1 ∷ engine_forkchoice_updated_v2 ∷ engine_forkchoice_updated_v3
      ∷ []

  abbrev pub new_payload_methods : List String
  new_payload_methods =
      engine_new_payload_v1 ∷ engine_new_payload_v2 ∷ engine_new_payload_v3 ∷ engine_new_payload_v4
      ∷ []

  abbrev pub proxied_methods : List String
  proxied_methods =
      "engine_getBlobsV1" ∷ "eth_getBlockByNumber" ∷ "eth_getBlockByHash" ∷ "eth_getLogs"
      ∷ "eth_call" ∷ "eth_blockNumber" ∷ engine_get_payload_bodies_by_hash_v1
      ∷ engine_get_payload_bodies_by_range_v1 ∷ engine_get_client_version_v1 ∷ []

  abbrev pub get_payload_methods : List String
  get_payload_methods =
      engine_get_payload_v1 ∷ engine_get_payload_v2 ∷ engine_get_payload_v3 ∷ engine_get_payload_v4
      ∷ []

module _ ⦃p : Primitives⦄ ⦃lru : Lru⦄ ⦃x : Lighthouse⦄ (self : Settings) where
  unfoldable pub process_client_request : Request → Prog (Result Response ErrorResponse)
  process_client_request request =
      if is_one_of fcu_methods request.method
      then handle_fcu self request
      else if is_one_of new_payload_methods request.method
      then handle_new_payload self request
      else if str_eq request.method x.methods.eth_syncing
      then handle_syncing request
      else if str_eq request.method "eth_chainId"
      then handle_chain_id request
      else if str_eq request.method x.methods.engine_exchange_capabilities
      then handle_engine_capabilities request
      else if is_one_of proxied_methods request.method
      then proxy_directly request
      else if is_one_of get_payload_methods request.method
      then handle_get_payload request
      else ret (err (unsupported_method request.id request.method))

  -- `results.push(process_client_request(…).await.into())`, one after the other.
  unfoldable pub process_all : List Request → Prog (List MaybeErrorResponse)
  process_all [] = ret []
  process_all (request ∷ requests) = do
    result ← process_client_request request
    results ← process_all requests
    ret (maybe_error result ∷ results)

  unfoldable pub process_requests : Requests → Prog Responses
  process_requests (Requests.single request) = do
    result ← process_client_request request
    ret (Responses.single (maybe_error result))
  process_requests (Requests.multiple requests) = do
    results ← process_all requests
    ret (Responses.multiple results)

  unfoldable pub process_controller_request : Request → Prog (Result Response ErrorResponse)
  process_controller_request request =
      if is_one_of fcu_methods request.method
      then handle_controller_fcu self request
      else if is_one_of new_payload_methods request.method
      then handle_controller_new_payload self request
      else if str_eq request.method x.methods.eth_syncing
      then handle_syncing request
      else if str_eq request.method "eth_chainId"
      then handle_chain_id request
      else if str_eq request.method x.methods.engine_exchange_capabilities
      then handle_engine_capabilities request
      else if is_one_of proxied_methods request.method
      then proxy_directly request
      else if is_one_of get_payload_methods request.method
      then handle_get_payload request
      else ret (err (unsupported_method request.id request.method))

module _ ⦃p : Primitives⦄ where
  -- The answer to a request that is refused before it is dispatched: its id is `json!(0)`.
  unfoldable pub refusal : String → ErrorResponse
  refusal message = parse_error_generic p.zero_value message

module _ ⦃p : Primitives⦄ ⦃lru : Lru⦄ ⦃x : Lighthouse⦄ ⦃j : JwtApi⦄ where
  pub record AppState : Type 0 where
    pub controller_jwt_secret : j.Secret
    pub client_jwt_collection : KeyCollection
    pub multiplexer : Settings

  -- The body as the JSON extractor gave it: a rejection by its text.
  unfoldable pub handle_client_json_rpc :
      AppState → String → Result Requests String → Prog Responses
  handle_client_json_rpc state jwt_token maybe_requests =
      elim (verify state.client_jwt_collection jwt_token) [
        | err e ↦ ret (Responses.single (error_response (refusal e)))
        | ok _ ↦ elim maybe_requests [
          | err body_text ↦ ret (Responses.single (error_response (refusal body_text)))
          | ok requests ↦ process_requests state.multiplexer requests
        ]
      ]

  unfoldable pub handle_controller_json_rpc :
      AppState → String → Result Request String → Prog (Result Response ErrorResponse)
  handle_controller_json_rpc state jwt_token maybe_request =
      elim (verify_single_token jwt_token state.controller_jwt_secret) [
        | err e ↦ ret (err (refusal e))
        | ok _ ↦ elim maybe_request [
          | err body_text ↦ ret (err (refusal body_text))
          | ok request ↦ process_controller_request state.multiplexer request
        ]
      ]
