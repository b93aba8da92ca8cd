-- ===== src/External/Lighthouse.antt =====
-- The functions of `serde_json` and Lighthouse that the program calls, with what it relies on.
use eleel.Common.{ℕ, String, ◌≡◌, ◌≢◌, ◌≤◌, List, Option, none, length, Bool, Result}
use eleel.External.Primitives.{Primitives}
use eleel.External.Uint256.{Uint256}
use eleel.Types.{
  JsonForkchoiceStateV1, JsonPayloadStatusV1, JsonForkchoiceUpdatedV1Response, ExecutionPayload,
  JsonExecutionPayload, NewPayloadRequest, JsonPayloadAttributes, GetPayloadResponse, QuantityU64,
  ForkName, PayloadId, json_version, payload_version,
}

-- `serde_json::from_value` and `to_value` at the types that the handlers ask for.
pub record Serde ⦃p : Primitives⦄ : Type 0 where
  pub decode_values : p.Json → Result (List p.Json) p.SerdeError
  pub decode_units : p.Json → Result (List (Unit {0})) p.SerdeError
  pub decode_strings : p.Json → Result (List String) p.SerdeError
  pub decode_payload_id : p.Json → Result PayloadId p.SerdeError
  pub decode_controller_fcu : p.Json → Result (JsonForkchoiceStateV1 × Option p.Json) p.SerdeError
  pub decode_client_fcu :
      p.Json → Result (JsonForkchoiceStateV1 × Option p.AttributesV2) p.SerdeError
  pub decode_attributes_v2 : p.Json → Result p.AttributesV2 p.SerdeError
  pub decode_attributes_v3 : p.Json → Result p.AttributesV3 p.SerdeError
  pub decode_versioned_hashes : p.Json → Result (List p.VersionedHash) p.SerdeError
  pub decode_hash256 : p.Json → Result p.Hash256 p.SerdeError
  pub decode_requests : p.Json → Result p.JsonExecutionRequests p.SerdeError
  pub decode_quantity : p.Json → Result QuantityU64 p.SerdeError
  pub decode_payload_v1 : p.Json → Result p.JsonPayloadV1 p.SerdeError
  pub decode_payload_v2 : p.Json → Result p.JsonPayloadV2 p.SerdeError
  pub decode_payload_v3 : p.Json → Result p.JsonPayloadV3 p.SerdeError
  pub decode_payload_v4 : p.Json → Result p.JsonPayloadV4 p.SerdeError
  pub encode_status : JsonPayloadStatusV1 → Result p.Json p.SerdeError
  pub encode_fcu_response : JsonForkchoiceUpdatedV1Response → Result p.Json p.SerdeError
  pub encode_payload_response : GetPayloadResponse → Result p.Json p.SerdeError
  pub encode_bool : Bool → Result p.Json p.SerdeError
  pub encode_quantity : QuantityU64 → Result p.Json p.SerdeError
  pub encode_capabilities : p.Capabilities → Result p.Json p.SerdeError
  pub encode_value : p.Json → Result p.Json p.SerdeError

-- The names of the engine API's methods: the constants of `execution_layer::http`.
pub record Methods : Type 0 where
  pub engine_forkchoice_updated_v1 : String
  pub engine_forkchoice_updated_v2 : String
  pub engine_forkchoice_updated_v3 : String
  pub engine_new_payload_v1 : String
  pub engine_new_payload_v2 : String
  pub engine_new_payload_v3 : String
  pub engine_new_payload_v4 : String
  pub engine_get_payload_v1 : String
  pub engine_get_payload_v2 : String
  pub engine_get_payload_v3 : String
  pub engine_get_payload_v4 : String
  pub engine_get_payload_bodies_by_hash_v1 : String
  pub engine_get_payload_bodies_by_range_v1 : String
  pub engine_get_client_version_v1 : String
  pub engine_exchange_capabilities : String
  pub eth_syncing : String

pub record Lighthouse ⦃p : Primitives⦄ : Type 0 where
  pub serde : Serde
  pub methods : Methods
  pub uint256 : Uint256
  -- `From` conversions; a payload keeps its version both ways.
  pub from_json_payload : JsonExecutionPayload → ExecutionPayload
  pub to_json_payload : ExecutionPayload → JsonExecutionPayload
  pub version-from_json_payload :
      (j : JsonExecutionPayload) → payload_version (from_json_payload j) ≡ json_version j
  pub version-to_json_payload :
      (e : ExecutionPayload) → json_version (to_json_payload e) ≡ payload_version e
  pub display_fork_name : ForkName → String
  pub attributes_from_json : JsonPayloadAttributes → p.PayloadAttributes
  pub requests_from_json : p.JsonExecutionRequests → Result p.ExecutionRequests p.RequestsError
  -- The checks of a `NewPayloadRequest`; the error is its `Debug` text.
  pub verify_payload_block_hash : NewPayloadRequest → Result (Unit {0}) String
  pub verify_versioned_hashes : NewPayloadRequest → Result (Unit {0}) String
  pub calculate_execution_block_hash :
      ExecutionPayload → Option p.Hash256 → Option p.ExecutionRequests → p.BlockHash
  -- `VariableList::new` at `MaxExtraDataBytes`: `none` is its error, for a list that is too long.
  pub max_extra_data_bytes : ℕ
  pub new_extra_data : List ℕ → Option p.ExtraData
  pub new_extra_data_fits :
      (bytes : List ℕ) → length bytes ≤ max_extra_data_bytes → new_extra_data bytes ≢ none
