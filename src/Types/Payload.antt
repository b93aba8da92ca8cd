-- ===== src/Types/Payload.antt =====
-- The types of Lighthouse's `execution_layer` that the program takes apart or builds, with the
-- constructors and fields that src/fcu.rs, src/new_payload.rs and src/payload_builder.rs name.
use eleel.Common.{ℕ, String, Bool, Option, List}
use eleel.External.Primitives.{Primitives}

-- The cases of the match in `register_attributes`.
pub data ForkName : Type 0 where
  base altair bellatrix_fork capella_fork deneb_fork electra_fork fulu_fork : ForkName

-- The cases of the match in `is_definite`.
pub data StatusV1 : Type 0 where
  valid invalid invalid_block_hash accepted syncing : StatusV1

unfoldable pub status_discrete : Discrete StatusV1
status_discrete = hlevel

unfoldable pub fork_name_discrete : Discrete ForkName
fork_name_discrete = hlevel

-- What the program reads of Lighthouse's `ChainSpec`.
pub record ChainSpec : Type 0 where
  pub seconds_per_slot : ℕ
  pub fork_name_at_slot : ℕ → ForkName

-- Eight bytes, big-endian.
abbrev pub PayloadId : Type 0
PayloadId = List ℕ

pub data Version : Type 0 where
  v1 v2 v3 v4 v5 : Version

module _ ⦃p : Primitives⦄ where
  open p use {
    BlockHash, Hash256, VersionedHash, Address, LogsBloom, Transactions, Withdrawals, ExtraData,
    ExecutionRequests, JsonExecutionRequests, FuluRest, JsonPayloadV1, JsonPayloadV2, JsonPayloadV3,
    JsonPayloadV4, JsonPayloadV5, BlobsBundle, AttributesV2, AttributesV3,
  }

  pub record JsonPayloadStatusV1 : Type 0 where
    pub status : StatusV1
    pub latest_valid_hash : Option BlockHash
    pub validation_error : Option String

  pub record JsonForkchoiceUpdatedV1Response : Type 0 where
    pub payload_status : JsonPayloadStatusV1
    pub payload_id : Option PayloadId

  -- The fields of `ExecutionPayloadBellatrix`, which the later forks have too.
  pub record PayloadFields : Type 0 where
    pub parent_hash : BlockHash
    pub fee_recipient : Address
    pub state_root : Hash256
    pub receipts_root : Hash256
    pub logs_bloom : LogsBloom
    pub prev_randao : Hash256
    pub block_number : ℕ
    pub gas_limit : ℕ
    pub gas_used : ℕ
    pub timestamp : ℕ
    pub extra_data : ExtraData
    pub base_fee_per_gas : ℕ
    pub block_hash : BlockHash
    pub transactions : Transactions

  pub data ExecutionPayload : Type 0 where
    bellatrix : PayloadFields → ExecutionPayload
    capella : PayloadFields → Withdrawals → ExecutionPayload
    deneb : PayloadFields → Withdrawals → (blob_gas_used excess_blob_gas : ℕ) → ExecutionPayload
    electra : PayloadFields → Withdrawals → (blob_gas_used excess_blob_gas : ℕ) → ExecutionPayload
    fulu : PayloadFields → FuluRest → ExecutionPayload

  -- The getters `block_hash()`, `block_number()` and so on are the fields of this record.
  abbrev pub fields : ExecutionPayload → PayloadFields
  fields (bellatrix f) = f
  fields (capella f w) = f
  fields (deneb f w b e) = f
  fields (electra f w b e) = f
  fields (fulu f r) = f

  -- `*payload.block_hash_mut() = hash`
  abbrev pub set_block_hash : BlockHash → ExecutionPayload → ExecutionPayload
  set_block_hash h (bellatrix f) = bellatrix (record f { block_hash = h })
  set_block_hash h (capella f w) = capella (record f { block_hash = h }) w
  set_block_hash h (deneb f w b e) = deneb (record f { block_hash = h }) w b e
  set_block_hash h (electra f w b e) = electra (record f { block_hash = h }) w b e
  set_block_hash h (fulu f r) = fulu (record f { block_hash = h }) r

  pub data JsonExecutionPayload : Type 0 where
    json_v1 : JsonPayloadV1 → JsonExecutionPayload
    json_v2 : JsonPayloadV2 → JsonExecutionPayload
    json_v3 : JsonPayloadV3 → JsonExecutionPayload
    json_v4 : JsonPayloadV4 → JsonExecutionPayload
    json_v5 : JsonPayloadV5 → JsonExecutionPayload

  abbrev pub json_version : JsonExecutionPayload → Version
  json_version (json_v1 _) = v1
  json_version (json_v2 _) = v2
  json_version (json_v3 _) = v3
  json_version (json_v4 _) = v4
  json_version (json_v5 _) = v5

  abbrev pub payload_version : ExecutionPayload → Version
  payload_version (bellatrix _) = v1
  payload_version (capella _ _) = v2
  payload_version (deneb _ _ _ _) = v3
  payload_version (electra _ _ _ _) = v4
  payload_version (fulu _ _) = v5

  pub data NewPayloadRequest : Type 0 where
    request_bellatrix : ExecutionPayload → NewPayloadRequest
    request_capella : ExecutionPayload → NewPayloadRequest
    request_deneb : ExecutionPayload → List VersionedHash → Hash256 → NewPayloadRequest
    request_electra :
        ExecutionPayload → List VersionedHash → Hash256 → ExecutionRequests → NewPayloadRequest

  abbrev pub request_payload : NewPayloadRequest → ExecutionPayload
  request_payload (request_bellatrix e) = e
  request_payload (request_capella e) = e
  request_payload (request_deneb e _ _) = e
  request_payload (request_electra e _ _ _) = e

  -- The two variants that the program builds.
  pub data JsonPayloadAttributes : Type 0 where
    attributes_v2 : AttributesV2 → JsonPayloadAttributes
    attributes_v3 : AttributesV3 → JsonPayloadAttributes

  -- `JsonGetPayloadResponseV1` to `V4`.
  pub data GetPayloadResponse : Type 0 where
    get_v1 : JsonPayloadV1 → (block_value : ℕ) → GetPayloadResponse
    get_v2 : JsonPayloadV2 → (block_value : ℕ) → GetPayloadResponse
    get_v3 :
        JsonPayloadV3
        → (block_value : ℕ) → BlobsBundle
        → (should_override_builder : Bool) → GetPayloadResponse
    get_v4 :
        JsonPayloadV4
        → (block_value : ℕ) → BlobsBundle
        → (should_override_builder : Bool) → JsonExecutionRequests
        → GetPayloadResponse
