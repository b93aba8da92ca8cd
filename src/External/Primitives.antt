-- ===== src/External/Primitives.antt =====
-- Types of `serde_json` and of Lighthouse that the program moves about without looking inside,
-- and the functions on them alone.
use eleel.Common.{ℕ, String, Option}

pub record Primitives : Type 1 where
  -- `serde_json::Value`, `json!(0)`, `Value::get` and the texts of an error
  pub Json : Type 0
  pub empty_array : Json
  pub zero_value : Json
  pub get_field : String → Json → Option Json
  pub SerdeError : Type 0
  pub debug_serde_error : SerdeError → String
  pub display_serde_error : SerdeError → String
  -- what the execution engine's client reports
  pub EngineError : Type 0
  pub debug_engine_error : EngineError → String
  pub Capabilities : Type 0
  -- `ExecutionBlockHash`, `Hash256` and the parts of an execution payload
  pub BlockHash : Type 0
  pub block_hash_discrete : Discrete BlockHash
  pub zero_block_hash : BlockHash
  pub debug_block_hash : BlockHash → String
  pub Hash256 : Type 0
  pub default_hash256 : Hash256
  pub keccak_empty_list_rlp : Hash256
  pub VersionedHash : Type 0
  pub Address : Type 0
  pub LogsBloom : Type 0
  pub default_logs_bloom : LogsBloom
  pub Transactions : Type 0
  pub no_transactions : Transactions
  pub Withdrawals : Type 0
  pub ExtraData : Type 0
  pub JsonExecutionRequests : Type 0
  pub default_json_execution_requests : JsonExecutionRequests
  pub ExecutionRequests : Type 0
  pub default_execution_requests : ExecutionRequests
  pub RequestsError : Type 0
  pub debug_requests_error : RequestsError → String
  -- what a Fulu payload has beside the fields that all payloads share
  pub FuluRest : Type 0
  -- the structs inside `JsonExecutionPayload`
  pub JsonPayloadV1 : Type 0
  pub JsonPayloadV2 : Type 0
  pub JsonPayloadV3 : Type 0
  pub JsonPayloadV4 : Type 0
  pub JsonPayloadV5 : Type 0
  pub BlobsBundle : Type 0
  pub default_blobs_bundle : BlobsBundle
  -- `PayloadAttributes` and its getters; `none` is the error of a variant without the field
  pub PayloadAttributes : Type 0
  pub attributes_discrete : Discrete PayloadAttributes
  pub timestamp : PayloadAttributes → ℕ
  pub suggested_fee_recipient : PayloadAttributes → Address
  pub prev_randao : PayloadAttributes → Hash256
  pub withdrawals : PayloadAttributes → Option Withdrawals
  pub parent_beacon_block_root : PayloadAttributes → Option Hash256
  pub AttributesV2 : Type 0
  pub AttributesV3 : Type 0
