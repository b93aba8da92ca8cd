-- ===== src/Tests/Sample/Json.antt =====
-- JSON and the types that the program moves about, on small data.
use eleel.Common.{ℕ, String, decimal, List, Option, none, some, Bool, ℕ_discrete}
use eleel.External.Primitives.{Primitives}
use eleel.Types.{StatusV1, PayloadId}

-- A block by its hash, number and timestamp.
abbrev pub Block : Type 0
Block = ℕ × ℕ × ℕ

pub data Doc : Type 0 where
  null : Doc
  number : ℕ → Doc
  flag : Bool → Doc
  cons : Doc → Doc → Doc
  state : (head safe finalized : ℕ) → Doc
  block : Block → Doc
  id_doc : PayloadId → Doc
  told : StatusV1 → Doc
  answer : StatusV1 → Option PayloadId → Doc

instance abbrev pub sample_primitives : Primitives
sample_primitives = record {
  Json = Doc;
  empty_array = null;
  zero_value = number 0;
  get_field = λ key doc. elim doc as (λ _. Option Doc) [ block b ↦ some (number b.2) | _ ↦ none ];
  SerdeError = String;
  debug_serde_error = λ e. e;
  display_serde_error = λ e. e;
  EngineError = String;
  debug_engine_error = λ e. e;
  Capabilities = List String;
  BlockHash = ℕ;
  block_hash_discrete = ℕ_discrete;
  zero_block_hash = 0;
  debug_block_hash = λ h. decimal h;
  Hash256 = ℕ;
  default_hash256 = 0;
  keccak_empty_list_rlp = 0;
  VersionedHash = ℕ;
  Address = ℕ;
  LogsBloom = Unit {0};
  default_logs_bloom = tt;
  Transactions = Unit {0};
  no_transactions = tt;
  Withdrawals = ℕ;
  ExtraData = List ℕ;
  JsonExecutionRequests = Unit {0};
  default_json_execution_requests = tt;
  ExecutionRequests = Unit {0};
  default_execution_requests = tt;
  RequestsError = String;
  debug_requests_error = λ e. e;
  FuluRest = Unit {0};
  JsonPayloadV1 = Block;
  JsonPayloadV2 = Block;
  JsonPayloadV3 = Block;
  JsonPayloadV4 = Block;
  JsonPayloadV5 = Block;
  BlobsBundle = Unit {0};
  default_blobs_bundle = tt;
  PayloadAttributes = ℕ;
  attributes_discrete = ℕ_discrete;
  timestamp = λ t. t;
  suggested_fee_recipient = λ t. 0;
  prev_randao = λ t. 0;
  withdrawals = λ t. some 0;
  parent_beacon_block_root = λ t. none;
  AttributesV2 = ℕ;
  AttributesV3 = ℕ;
}
