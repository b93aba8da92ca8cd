-- ===== src/Effects/Shared.antt =====
-- src/meta.rs and `handle_get_payload`: the handlers that clients and the controller share.
use mathlib.Core.List.{Memᴰ}
use eleel.Common.{String, ◌∙◌, ◌≢◌, none, ◌≡◌, refl, sym, true, List, ◌∷◌, Result, ok, err}
use eleel.External.Lru.{Lru}
use eleel.External.Primitives.{Primitives}
use eleel.External.Lighthouse.{Lighthouse}
use eleel.Types.{
  ErrorCode, parse_error_code, unknown_payload, unsupported_method, Request, Response,
  ErrorResponse, parse_as, JsonExecutionPayload, json_v1, json_v2, json_v3, json_v4, json_v5,
  json_version, v5, payload_version, ExecutionPayload, PayloadId,
}
use eleel.Effects.Answers.{
  Answers, Yields, IsAny, Yields-err, Yields-map_err, generic-IsRefusal, new_response-Answers,
  parse_as-Yields, Does-Yields,
}
use eleel.Effects.Kinds.{client_codes, for_client, get_payload_locked-KeepsContents}
use eleel.Main.{is_one_of, proxied_methods}
use eleel.Main.Route.{syncing, chain_id, capabilities, proxied, built, unsupported}
use eleel.Meta.{
  engine_result, handle_syncing, handle_chain_id, handle_engine_capabilities, proxy_directly,
}
use eleel.Effects.Contents.{contents}
use eleel.Provenance.Builder.{found_of_ok}
use eleel.PayloadBuilder.Build.{payload_response, payload_id_discrete}
use eleel.PayloadBuilder.Methods.{get_payload, get_payload_locked, handle_get_payload}
use eleel.Prog.{Prog, Call, try}
use eleel.Prog.Does.{Does, Does-ret, Does-bind, Does-locked, Does-lift, Does-Result, Does-call}

module _ ⦃p : Primitives⦄ ⦃lru : Lru⦄ ⦃x : Lighthouse⦄ (request : Request) where
  -- A handler that parses its parameters first, for the codes that begin with the parse error.
  pub Does-parsed :
      {T : Type 0} {codes : List ErrorCode} (from_value : p.Json → Result T p.SerdeError)
      (k : p.Json × T → Prog (Result Response ErrorResponse))
      → ((params : T)
          → Does for_client
              (Answers request.id (parse_error_code ∷ codes))
              (k (request.id, params)))
      → Does for_client
          (Answers request.id (parse_error_code ∷ codes))
          (try (parse_as from_value request) k)
  Does-parsed {codes} from_value k h =
      Does-Yields (parse_as-Yields codes from_value request)
        (λ (id, params) same. rw same (h params))

  engine_result-Yields :
      {T : Type 0} (r : Result T p.EngineError)
      → Yields request.id (client_codes syncing) IsAny (engine_result request.id r)
  unfolding engine_result
  engine_result-Yields r = Yields-map_err _ r (λ e. generic-IsRefusal request.id _)

  pub handle_syncing-Does :
      Does for_client (Answers request.id (client_codes syncing)) (handle_syncing request)
  unfolding handle_syncing
  handle_syncing-Does =
      Does-parsed x.serde.decode_units _ (λ _. Does-ret (new_response-Answers request.id _ _))

  pub handle_chain_id-Does :
      Does for_client (Answers request.id (client_codes chain_id)) (handle_chain_id request)
  unfolding handle_chain_id
  handle_chain_id-Does = Does-parsed x.serde.decode_units _ (λ _.
      Does-bind (Does-call (Call.get_chain_id 1000) {Q = IsAny} tt (λ _. tt)) (λ reply _.
        Does-Yields (engine_result-Yields reply)
          (λ _ _. Does-ret (new_response-Answers request.id _ _))))

  pub handle_engine_capabilities-Does :
      Does for_client
        (Answers request.id (client_codes capabilities))
        (handle_engine_capabilities request)
  unfolding handle_engine_capabilities
  handle_engine_capabilities-Does = Does-parsed x.serde.decode_strings _ (λ _.
      Does-bind (Does-call (Call.get_engine_capabilities _) {Q = IsAny} tt (λ _. tt)) (λ reply _.
        Does-Yields (engine_result-Yields reply)
          (λ _ _. Does-ret (new_response-Answers request.id _ _))))

  pub proxy_directly-Does :
      is_one_of proxied_methods request.method ≡ true
      → Does for_client (Answers request.id (client_codes proxied)) (proxy_directly request)
  unfolding proxy_directly
  proxy_directly-Does listed =
      Does-bind
        (Does-call (Call.rpc_request request.method request.params 12000) {Q = IsAny} listed
          (λ _. tt))
        (λ reply _.
          Does-Yields (engine_result-Yields reply)
            (λ _ _. Does-ret (new_response-Answers request.id _ _)))

  -- The match on the payload's version panics on Fulu alone.
  response-none : (j : JsonExecutionPayload) → payload_response j ≡ none → json_version j ≡ v5
  unfolding payload_response
  response-none (json_v1 j) e = absurd (cc)
  response-none (json_v2 j) e = absurd (cc)
  response-none (json_v3 j) e = absurd (cc)
  response-none (json_v4 j) e = absurd (cc)
  response-none (json_v5 j) e = refl

  abbrev Fetched : Result ExecutionPayload String → Type 0
  Fetched result = (stored : ExecutionPayload) → result ≡ ok stored → payload_version stored ≢ v5

  get_payload-Does : (payload_id : PayloadId) → Does for_client Fetched (get_payload payload_id)
  unfolding get_payload get_payload_locked contents
  get_payload-Does payload_id =
      Does-locked _ (get_payload_locked-KeepsContents payload_id) (λ s servable stored e.
        servable payload_id stored (
          sym (lru.get_value payload_id_discrete payload_id s.payload_builder.payloads)
          ∙ found_of_ok _ _ stored e))

  pub handle_get_payload-Does :
      Does for_client (Answers request.id (client_codes built)) (handle_get_payload request)
  unfolding handle_get_payload unknown_payload
  handle_get_payload-Does = Does-parsed x.serde.decode_payload_id _ (λ payload_id.
      Does-bind (get_payload-Does payload_id) (λ found served.
        Does-Result found
          (λ stored got.
            Does-bind
              (Does-lift {Q = IsAny} _
                (λ e.
                  served stored got (sym (x.version-to_json_payload stored) ∙ response-none _ e))
                (λ _ _. tt))
              (λ response _. Does-ret (new_response-Answers request.id _ response)))
          (λ message _. Does-ret (
            Yields-err (record { jsonrpc = refl; id = refl; code = Memᴰ.tail (Memᴰ.head refl) })))))

module _ ⦃p : Primitives⦄ ⦃lru : Lru⦄ ⦃x : Lighthouse⦄ where
  pub unsupported-Answers :
      (request : Request)
      → Answers request.id
          (client_codes unsupported)
          (err (unsupported_method request.id request.method))
  unfolding unsupported_method
  unsupported-Answers request =
      Yields-err (record { jsonrpc = refl; id = refl; code = Memᴰ.head refl })
