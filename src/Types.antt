-- ===== src/Types.antt =====
-- src/types.rs: JSON-RPC requests, responses and errors, and the fork choice state.
mod Payload
pub mod Laws
pub mod Codes
unfoldable pub use Payload.*
use eleel.Common.{ℕ, String, ◌+s◌, List, Result, ok, err}
use eleel.External.Primitives.{Primitives}

pub data ErrorCode : Type 0 where
  parse_error_code invalid_request_code method_not_found invalid_params internal_error : ErrorCode
  server_error unknown_payload_code invalid_fork_choice_state : ErrorCode
  invalid_payload_attributes_code too_large_request : ErrorCode

pub record JsonError : Type 0 where
  pub code : ErrorCode
  pub message : String

-- `#[serde(transparent)]` over a u64.
pub record QuantityU64 : Type 0 where
  pub value : ℕ

module _ ⦃p : Primitives⦄ where
  open p use {Json, empty_array, SerdeError, debug_serde_error, BlockHash}

  pub record Request : Type 0 where
    pub jsonrpc : String
    pub method : String
    pub params : Json
    pub id : Json

  pub data Requests : Type 0 where
    single : Request → Requests
    multiple : List Request → Requests

  pub record Response : Type 0 where
    pub jsonrpc : String
    pub id : Json
    pub result : Json

  pub record ErrorResponse : Type 0 where
    pub jsonrpc : String
    pub id : Json
    pub error : JsonError

  pub data MaybeErrorResponse : Type 0 where
    response : Response → MaybeErrorResponse
    error_response : ErrorResponse → MaybeErrorResponse

  pub data Responses : Type 0 where
    single : MaybeErrorResponse → Responses
    multiple : List MaybeErrorResponse → Responses

  -- `From<Result<Response, ErrorResponse>>`
  unfoldable pub maybe_error : Result Response ErrorResponse → MaybeErrorResponse
  maybe_error (ok r) = response r
  maybe_error (err e) = error_response e

  unfoldable pub empty_params : Json
  empty_params = empty_array

  error_with : ErrorCode → Json → String → ErrorResponse
  error_with code id message = record {
    jsonrpc = "2.0";
    id = id;
    error = record { code = code; message = message };
  }

  unfoldable pub unsupported_method : Json → String → ErrorResponse
  unfolding error_with
  unsupported_method id method =
      error_with method_not_found id ("method `" +s method +s "` not supported")

  unfoldable pub parse_error_generic : Json → String → ErrorResponse
  unfolding error_with
  parse_error_generic id message = error_with parse_error_code id message

  unfoldable pub parse_error : Json → SerdeError → ErrorResponse
  unfolding parse_error_generic
  parse_error id error = parse_error_generic id ("parse error: " +s debug_serde_error error)

  unfoldable pub invalid_request : Json → String → ErrorResponse
  unfolding error_with
  invalid_request id message = error_with invalid_request_code id message

  unfoldable pub invalid_payload_attributes : Json → String → ErrorResponse
  unfolding error_with
  invalid_payload_attributes id message = error_with invalid_payload_attributes_code id message

  unfoldable pub unknown_payload : Json → String → ErrorResponse
  unfolding error_with
  unknown_payload id message = error_with unknown_payload_code id message

  -- `Request::parse_as::<T>`; the decoder of `T` is `serde_json::from_value`.
  unfoldable pub parse_as :
      {T : Type 0} → (Json → Result T SerdeError) → Request → Result (Json × T) ErrorResponse
  unfolding parse_error
  parse_as from_value request = elim (from_value request.params) [
    | ok params ↦ ok (request.id, params)
    | err e ↦ err (parse_error request.id e)
  ]

  -- `Response::new`; the encoder is `serde_json::to_value`.
  unfoldable pub new_response :
      {T : Type 0} → (T → Result Json SerdeError) → Json → T → Result Response ErrorResponse
  unfolding parse_error
  new_response to_value id result = elim (to_value result) [
    | ok value ↦ ok (record { jsonrpc = "2.0"; id = id; result = value })
    | err e ↦ err (parse_error id e)
  ]

  pub record JsonForkchoiceStateV1 : Type 0 where
    pub head_block_hash : BlockHash
    pub safe_block_hash : BlockHash
    pub finalized_block_hash : BlockHash

  -- Lighthouse's struct, as the conversions below take it apart and build it.
  pub record ForkchoiceState : Type 0 where
    pub head_block_hash : BlockHash
    pub safe_block_hash : BlockHash
    pub finalized_block_hash : BlockHash

  unfoldable pub json_forkchoice_state : ForkchoiceState → JsonForkchoiceStateV1
  json_forkchoice_state f = record {
    head_block_hash = f.head_block_hash;
    safe_block_hash = f.safe_block_hash;
    finalized_block_hash = f.finalized_block_hash;
  }

  unfoldable pub forkchoice_state : JsonForkchoiceStateV1 → ForkchoiceState
  forkchoice_state j = record {
    head_block_hash = j.head_block_hash;
    safe_block_hash = j.safe_block_hash;
    finalized_block_hash = j.finalized_block_hash;
  }

  unfoldable pub forkchoice_state_discrete : Discrete JsonForkchoiceStateV1
  forkchoice_state_discrete = hlevel p.block_hash_discrete
