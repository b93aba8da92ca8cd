-- ===== src/NewPayload/Decode.antt =====
-- src/new_payload.rs, `decode_new_payload` and `new_payload_request_from_parts`.
use eleel.Common.{
  ℕ, String, ◌+s◌, str_eq, decimal, length, Option, none, some, List, [], ◌∷◌, Result, ok, err,
  map_err, map_ok, Bool, decide, ◌||◌, if◌then◌else◌,
}
use eleel.Common.Outcome.{◌>>=◌}
use eleel.External.Primitives.{Primitives}
use eleel.External.Lighthouse.{Lighthouse}
use eleel.Types.{
  ForkName, fork_name_discrete, bellatrix_fork, capella_fork, deneb_fork, ExecutionPayload,
  bellatrix, capella, deneb, electra, fulu, JsonExecutionPayload, json_v1, json_v2, json_v3,
  json_v4, NewPayloadRequest, request_bellatrix, request_capella, request_deneb, request_electra,
  Request, ErrorResponse, parse_as, parse_error, parse_error_generic,
}
use eleel.Multiplexer.{Settings}
use eleel.Slot.{timestamp_to_slot}

module _ ⦃p : Primitives⦄ where
  open p use {Json, Hash256, VersionedHash, ExecutionRequests}

  -- What the parameters hold beside the payload, by the method's version.
  pub record Extras : Type 0 where
    pub payload_json : Json
    pub versioned_hashes : Option (List VersionedHash)
    pub parent_beacon_block_root : Option Hash256
    pub execution_requests : Option ExecutionRequests

  pub record Decoded : Type 0 where
    pub id : Json
    pub payload : JsonExecutionPayload
    pub versioned_hashes : Option (List VersionedHash)
    pub parent_beacon_block_root : Option Hash256
    pub execution_requests : Option ExecutionRequests

  -- `unwrap_or_default` on a list
  abbrev list_or_empty : Option (List VersionedHash) → List VersionedHash
  list_or_empty none = []
  list_or_empty (some l) = l

  abbrev root_or_default : Option Hash256 → Hash256
  root_or_default none = p.default_hash256
  root_or_default (some root) = root

  -- `none` is a panic: of `execution_requests.unwrap()`, or of `todo!("Fulu")`.
  unfoldable pub new_payload_request_from_parts :
      ExecutionPayload
      → Option (List VersionedHash)
      → Option Hash256
      → Option ExecutionRequests
      → Option NewPayloadRequest
  new_payload_request_from_parts (bellatrix f) hashes root requests =
      some (request_bellatrix (bellatrix f))
  new_payload_request_from_parts (capella f w) hashes root requests =
      some (request_capella (capella f w))
  new_payload_request_from_parts (deneb f w b e) hashes root requests =
      some (request_deneb (deneb f w b e) (list_or_empty hashes) (root_or_default root))
  new_payload_request_from_parts (electra f w b e) hashes root none = none
  new_payload_request_from_parts (electra f w b e) hashes root (some requests) =
      some
        (request_electra (electra f w b e) (list_or_empty hashes) (root_or_default root) requests)
  new_payload_request_from_parts (fulu f r) hashes root requests = none

  module _ ⦃x : Lighthouse⦄ where
    -- The branch of engine_newPayloadV4. (The message names V3, as in the source.)
    unfoldable pub extras_v4 : Json → List Json → Result Extras ErrorResponse
    extras_v4 id (payload ∷ hashes ∷ root ∷ requests ∷ []) = do
      versioned_hashes ← map_err (parse_error id) (x.serde.decode_versioned_hashes hashes)
      parent_beacon_block_root ← map_err (parse_error id) (x.serde.decode_hash256 root)
      json_execution_requests ← map_err (parse_error id) (x.serde.decode_requests requests)
      execution_requests ←
          map_err
            (λ e.
              parse_error_generic id ("invalid execution requests: " +s p.debug_requests_error e))
            (x.requests_from_json json_execution_requests)
      ok (record {
        payload_json = payload;
        versioned_hashes = some versioned_hashes;
        parent_beacon_block_root = some parent_beacon_block_root;
        execution_requests = some execution_requests;
      })
    extras_v4 id _ = err (parse_error_generic id "wrong number of parameters for newPayloadV3")

    unfoldable pub extras_v3 : Json → List Json → Result Extras ErrorResponse
    extras_v3 id (payload ∷ hashes ∷ root ∷ []) = do
      versioned_hashes ← map_err (parse_error id) (x.serde.decode_versioned_hashes hashes)
      parent_beacon_block_root ← map_err (parse_error id) (x.serde.decode_hash256 root)
      ok (record {
        payload_json = payload;
        versioned_hashes = some versioned_hashes;
        parent_beacon_block_root = some parent_beacon_block_root;
        execution_requests = none;
      })
    extras_v3 id _ = err (parse_error_generic id "wrong number of parameters for newPayloadV3")

    unfoldable pub extras_before_v3 : String → Json → List Json → Result Extras ErrorResponse
    extras_before_v3 method id (payload ∷ []) = ok (record {
      payload_json = payload;
      versioned_hashes = none;
      parent_beacon_block_root = none;
      execution_requests = none;
    })
    extras_before_v3 method id params = err (
        parse_error_generic id
          ("wrong number of parameters for " +s method +s ": " +s decimal (length params)))

    unfoldable pub decode_extras : String → Json → List Json → Result Extras ErrorResponse
    decode_extras method id params =
        if str_eq method x.methods.engine_new_payload_v4
        then extras_v4 id params
        else if str_eq method x.methods.engine_new_payload_v3
        then extras_v3 id params
        else extras_before_v3 method id params

    unfoldable pub is_fork : ForkName → ForkName → Bool
    unfolding fork_name_discrete
    is_fork a b = decide (fork_name_discrete a b)

    -- The payload in the version that the method or else the fork asks for.
    unfoldable pub decode_payload :
        String → ForkName → Json → Json → Result JsonExecutionPayload ErrorResponse
    decode_payload method fork_name id json = map_err (parse_error id) (
        if str_eq method x.methods.engine_new_payload_v1 || is_fork fork_name bellatrix_fork
        then map_ok json_v1 (x.serde.decode_payload_v1 json)
        else if str_eq method x.methods.engine_new_payload_v2 || is_fork fork_name capella_fork
        then map_ok json_v2 (x.serde.decode_payload_v2 json)
        else if str_eq method x.methods.engine_new_payload_v3 || is_fork fork_name deneb_fork
        then map_ok json_v3 (x.serde.decode_payload_v3 json)
        else map_ok json_v4 (x.serde.decode_payload_v4 json))

    unfoldable pub decode_timestamp : Json → Json → Result ℕ ErrorResponse
    decode_timestamp id payload_json = elim (p.get_field "timestamp" payload_json) [
      | none ↦ err (parse_error_generic id "timestamp value missing")
      | some json ↦ map_ok (λ q. q.value) (map_err (parse_error id) (x.serde.decode_quantity json))
    ]

    -- `self.timestamp_to_slot(timestamp).ok_or_else(…)`
    unfoldable pub decode_slot : Settings → Json → ℕ → Result ℕ ErrorResponse
    decode_slot self id timestamp = elim (timestamp_to_slot self timestamp) [
      | none ↦ err (parse_error_generic id ("invalid timestamp: " +s decimal timestamp))
      | some slot ↦ ok slot
    ]

    unfoldable pub decode_new_payload : Settings → Request → Result Decoded ErrorResponse
    decode_new_payload self request = do
      (id, params) ← parse_as x.serde.decode_values request
      extras ← decode_extras request.method id params
      timestamp ← decode_timestamp id extras.payload_json
      slot ← decode_slot self id timestamp
      payload ←
          decode_payload request.method (self.spec.fork_name_at_slot slot) id extras.payload_json
      ok (record {
        id = id;
        payload = payload;
        versioned_hashes = extras.versioned_hashes;
        parent_beacon_block_root = extras.parent_beacon_block_root;
        execution_requests = extras.execution_requests;
      })
