-- ===== src/Tests/Sample.antt =====
-- JSON, the engine API and the crate `jwt` on small data: a hash is a number, payload attributes
-- are their timestamp, a token is the name of its secret.
mod Json
unfoldable pub use Json.*
use eleel.Common.{
  ℕ, ◌+◌, ◌*◌, ◌≡◌, ◌≢◌, refl, String, str_eq, decimal, List, [], ◌∷◌, Option, none, some, Result,
  ok, err, Bool, ℕ_discrete, if◌then◌else◌,
}
use eleel.Common.Outcome.{◌>>=◌}
use eleel.External.Jwt.{JwtApi}
use eleel.External.Lighthouse.{Lighthouse, Serde, Methods}
use eleel.External.Primitives.{Primitives}
use eleel.External.Uint256.{Uint256}
use eleel.Types.{
  StatusV1, PayloadId, JsonForkchoiceStateV1, PayloadFields, ExecutionPayload, bellatrix, capella,
  deneb, electra, fulu, fields, JsonExecutionPayload, json_v1, json_v2, json_v3, json_v4, json_v5,
  json_version, payload_version, JsonPayloadAttributes, attributes_v2, attributes_v3,
  GetPayloadResponse, get_v1, get_v2, get_v3, get_v4,
}

abbrev decode_state : Doc → Result JsonForkchoiceStateV1 String
decode_state (state h s f) =
    ok (record { head_block_hash = h; safe_block_hash = s; finalized_block_hash = f })
decode_state _ = err "not a fork choice state"

abbrev decode_number : Doc → Result ℕ String
decode_number (number n) = ok n
decode_number _ = err "not a number"

abbrev decode_list : Doc → Result (List Doc) String
decode_list null = ok []
decode_list (cons a l) = decode_list l >>= λ rest. ok (a ∷ rest)
decode_list _ = err "not a list"

abbrev decode_block : Doc → Result Block String
decode_block (block b) = ok b
decode_block _ = err "not a block"

abbrev optional_number : Doc → Result (Option ℕ) String
optional_number null = ok none
optional_number (cons (number n) null) = ok (some n)
optional_number _ = err "not attributes"

abbrev decode_client_fcu : Doc → Result (JsonForkchoiceStateV1 × Option ℕ) String
decode_client_fcu (cons a l) = decode_state a >>= λ s. optional_number l >>= λ t. ok (s, t)
decode_client_fcu _ = err "not a client's forkchoiceUpdated"

abbrev optional_doc : Doc → Result (Option Doc) String
optional_doc null = ok none
optional_doc (cons d null) = ok (some d)
optional_doc _ = err "too many parameters"

abbrev decode_controller_fcu : Doc → Result (JsonForkchoiceStateV1 × Option Doc) String
decode_controller_fcu (cons a l) = decode_state a >>= λ s. optional_doc l >>= λ t. ok (s, t)
decode_controller_fcu _ = err "not a forkchoiceUpdated"

abbrev block_of_response : GetPayloadResponse → Block
block_of_response (get_v1 b _) = b
block_of_response (get_v2 b _) = b
block_of_response (get_v3 b _ _ _) = b
block_of_response (get_v4 b _ _ _ _) = b

abbrev pub fields_of_block : Block → PayloadFields
fields_of_block (h, n, t) = record {
  parent_hash = 0;
  fee_recipient = 0;
  state_root = 0;
  receipts_root = 0;
  logs_bloom = tt;
  prev_randao = 0;
  block_number = n;
  gas_limit = 20;
  gas_used = 10;
  timestamp = t;
  extra_data = [];
  base_fee_per_gas = 7;
  block_hash = h;
  transactions = tt;
}

abbrev block_of_payload : ExecutionPayload → Block
block_of_payload payload = let f = fields payload in (f.block_hash, f.block_number, f.timestamp)

abbrev from_json : JsonExecutionPayload → ExecutionPayload
from_json (json_v1 b) = bellatrix (fields_of_block b)
from_json (json_v2 b) = capella (fields_of_block b) 0
from_json (json_v3 b) = deneb (fields_of_block b) 0 0 0
from_json (json_v4 b) = electra (fields_of_block b) 0 0 0
from_json (json_v5 b) = fulu (fields_of_block b) tt

abbrev to_json : ExecutionPayload → JsonExecutionPayload
to_json (bellatrix f) = json_v1 (block_of_payload (bellatrix f))
to_json (capella f w) = json_v2 (block_of_payload (capella f w))
to_json (deneb f w b e) = json_v3 (block_of_payload (deneb f w b e))
to_json (electra f w b e) = json_v4 (block_of_payload (electra f w b e))
to_json (fulu f r) = json_v5 (block_of_payload (fulu f r))

pub version-from_json : (d : JsonExecutionPayload) → payload_version (from_json d) ≡ json_version d
version-from_json (json_v1 b) = refl
version-from_json (json_v2 b) = refl
version-from_json (json_v3 b) = refl
version-from_json (json_v4 b) = refl
version-from_json (json_v5 b) = refl

pub version-to_json : (e : ExecutionPayload) → json_version (to_json e) ≡ payload_version e
version-to_json (bellatrix f) = refl
version-to_json (capella f w) = refl
version-to_json (deneb f w b e) = refl
version-to_json (electra f w b e) = refl
version-to_json (fulu f r) = refl

abbrev attributes_of : JsonPayloadAttributes → ℕ
attributes_of (attributes_v2 t) = t
attributes_of (attributes_v3 t) = t

abbrev pub exact_uint256 : Uint256
exact_uint256 = record {
  mul = λ a b. a * b;
  add = λ a b. a + b;
  mul_exact = λ a b h. refl;
  add_exact = λ a b h. refl;
}

abbrev decode_id : Doc → Result PayloadId String
decode_id (cons (id_doc bytes) null) = ok bytes
decode_id _ = err "not a payload id"

abbrev sample_serde : Serde
sample_serde = record {
  decode_values = λ d. decode_list d;
  decode_units = λ d. ok [];
  decode_strings = λ d. ok [];
  decode_payload_id = λ d. decode_id d;
  decode_controller_fcu = λ d. decode_controller_fcu d;
  decode_client_fcu = λ d. decode_client_fcu d;
  decode_attributes_v2 = λ d. decode_number d;
  decode_attributes_v3 = λ d. decode_number d;
  decode_versioned_hashes = λ d. ok [];
  decode_hash256 = λ d. decode_number d;
  decode_requests = λ d. ok tt;
  decode_quantity = λ d. decode_number d >>= λ n. ok (record { value = n });
  decode_payload_v1 = λ d. decode_block d;
  decode_payload_v2 = λ d. decode_block d;
  decode_payload_v3 = λ d. decode_block d;
  decode_payload_v4 = λ d. decode_block d;
  encode_status = λ s. ok (told s.status);
  encode_fcu_response = λ r. ok (answer r.payload_status.status r.payload_id);
  encode_payload_response = λ r. ok (block (block_of_response r));
  encode_bool = λ b. ok (flag b);
  encode_quantity = λ q. ok (number q.value);
  encode_capabilities = λ c. ok null;
  encode_value = λ d. ok d;
}

abbrev sample_methods : Methods
sample_methods = record {
  engine_forkchoice_updated_v1 = "engine_forkchoiceUpdatedV1";
  engine_forkchoice_updated_v2 = "engine_forkchoiceUpdatedV2";
  engine_forkchoice_updated_v3 = "engine_forkchoiceUpdatedV3";
  engine_new_payload_v1 = "engine_newPayloadV1";
  engine_new_payload_v2 = "engine_newPayloadV2";
  engine_new_payload_v3 = "engine_newPayloadV3";
  engine_new_payload_v4 = "engine_newPayloadV4";
  engine_get_payload_v1 = "engine_getPayloadV1";
  engine_get_payload_v2 = "engine_getPayloadV2";
  engine_get_payload_v3 = "engine_getPayloadV3";
  engine_get_payload_v4 = "engine_getPayloadV4";
  engine_get_payload_bodies_by_hash_v1 = "engine_getPayloadBodiesByHashV1";
  engine_get_payload_bodies_by_range_v1 = "engine_getPayloadBodiesByRangeV1";
  engine_get_client_version_v1 = "engine_getClientVersionV1";
  engine_exchange_capabilities = "engine_exchangeCapabilities";
  eth_syncing = "eth_syncing";
}

pub some_fits : (l : List ℕ) → some l ≢ none
some_fits l e = cc

-- A hash is sealed as 1000 more than the block's number.
instance abbrev pub sample_lighthouse : Lighthouse
sample_lighthouse = record {
  serde = sample_serde;
  methods = sample_methods;
  uint256 = exact_uint256;
  from_json_payload = λ d. from_json d;
  to_json_payload = λ e. to_json e;
  version-from_json_payload = version-from_json;
  version-to_json_payload = version-to_json;
  display_fork_name = λ f. "fork";
  attributes_from_json = λ a. attributes_of a;
  requests_from_json = λ r. ok tt;
  verify_payload_block_hash = λ r. ok tt;
  verify_versioned_hashes = λ r. ok tt;
  calculate_execution_block_hash = λ e root requests. 1000 + (fields e).block_number;
  max_extra_data_bytes = 32;
  new_extra_data = λ l. some l;
  new_extra_data_fits = λ l h. some_fits l;
}

abbrev check_secret : String → String → Result (Unit {0}) String
check_secret token secret = if str_eq token secret then ok tt else err "invalid signature"

pub same_check :
    (token parsed secret : String)
    → ◌≡◌ {A = Result String String} (ok token) (ok parsed)
    → check_secret token secret ≡ check_secret parsed secret
same_check token parsed secret e = let same : token ≡ parsed = cc in rw same refl

-- A token holds for the secret of its own name, and claims the id `a`.
instance abbrev pub sample_jwt : JwtApi
sample_jwt = record {
  Secret = String;
  UnverifiedToken = String;
  VerifiedToken = Unit {0};
  parse_unverified = λ token. ok token;
  claims = λ token. record { iat = 0; id = some "a"; clv = none };
  verify_with_key = λ token secret. check_secret token secret;
  verify_parsed_with_key = λ token secret. check_secret token secret;
  new_from_slice = λ bytes. ok "s";
  hex_decode = λ s. ok [];
  verify_parsed = λ token secret e. same_check token _ secret e;
}
