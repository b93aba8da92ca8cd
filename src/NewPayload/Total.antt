-- ===== src/NewPayload/Total.antt =====
-- src/new_payload.rs: the `unwrap` and the `todo!` in `new_payload_request_from_parts` are never
-- reached from the dispatched methods.
use eleel.Common.{
  ◌≡◌, ◌≢◌, refl, sym, ◌∙◌, ap, String, str_eq, List, [], ◌∷◌, Option, none, some, Bool, true,
  false, ◌||◌, Result, ok, map_err, map_ok, arith, if◌then◌else◌,
}
use eleel.Common.Outcome.{ok_inj, >>=-eq-ok, map_err-eq-ok}
use eleel.External.Primitives.{Primitives}
use eleel.External.Lighthouse.{Lighthouse}
use eleel.Types.{
  ForkName, bellatrix_fork, capella_fork, deneb_fork, ExecutionPayload, bellatrix, capella, deneb,
  electra, fulu, JsonExecutionPayload, json_v1, json_v2, json_v3, json_v4, json_version,
  payload_version, v4, v5, NewPayloadRequest, Request, parse_as,
}
use eleel.Main.{is_one_of, new_payload_methods}
use eleel.Multiplexer.{Settings}
use eleel.NewPayload.Decode.{
  Extras, Decoded, new_payload_request_from_parts, extras_v4, decode_extras, is_fork,
  decode_payload, decode_timestamp, decode_slot, decode_new_payload,
}

module _ ⦃p : Primitives⦄ where
  from_parts-some :
      (payload : ExecutionPayload) (hashes : Option (List p.VersionedHash))
      (root : Option p.Hash256) (requests : Option p.ExecutionRequests)
      → payload_version payload ≢ v5
      → (payload_version payload ≡ v4 → (r : p.ExecutionRequests) × (requests ≡ some r))
      → (request : NewPayloadRequest) × (new_payload_request_from_parts payload hashes root requests
          ≡ some request)
  unfolding new_payload_request_from_parts
  from_parts-some (bellatrix f) hashes root requests h k = (_, refl)
  from_parts-some (capella f w) hashes root requests h k = (_, refl)
  from_parts-some (deneb f w b e) hashes root requests h k = (_, refl)
  from_parts-some (electra f w b e) hashes root (some r) h k = (_, refl)
  from_parts-some (electra f w b e) hashes root none h k = let (r, never) = k refl in absurd (cc)
  from_parts-some (fulu f r) hashes root requests h k = absurd (h refl)

  module _ ⦃x : Lighthouse⦄ where
    extras_v4-some :
        (id : p.Json) (params : List p.Json) (extras : Extras)
        → extras_v4 id params ≡ ok extras
        → (r : p.ExecutionRequests) × (extras.execution_requests ≡ some r)
    unfolding extras_v4
    extras_v4-some id (payload ∷ hashes ∷ root ∷ requests ∷ []) extras e =
        let (a, _, e1) = >>=-eq-ok (map_err _ (x.serde.decode_versioned_hashes hashes)) _ e in
        let (b, _, e2) = >>=-eq-ok (map_err _ (x.serde.decode_hash256 root)) _ e1 in
        let (c, _, e3) = >>=-eq-ok (map_err _ (x.serde.decode_requests requests)) _ e2 in
        let (d, _, e4) = >>=-eq-ok (map_err _ (x.requests_from_json c)) _ e3 in
        (d, sym (ap (λ t. t.execution_requests) (ok_inj e4)))
    extras_v4-some id _ extras e = absurd (ground arith)

    version_test :
        (is_v1 is_v2 is_v3 is_v4 at_bellatrix at_capella at_deneb : Bool)
        (r1 : Result p.JsonPayloadV1 p.SerdeError) (r2 : Result p.JsonPayloadV2 p.SerdeError)
        (r3 : Result p.JsonPayloadV3 p.SerdeError) (r4 : Result p.JsonPayloadV4 p.SerdeError)
        (payload : JsonExecutionPayload)
        → (if is_v1 || at_bellatrix
            then map_ok json_v1 r1
            else if is_v2 || at_capella
            then map_ok json_v2 r2
            else if is_v3 || at_deneb
            then map_ok json_v3 r3
            else map_ok json_v4 r4)
          ≡ ok payload
        → (is_v1 || (is_v2 || (is_v3 || (is_v4 || false)))) ≡ true
        → (json_version payload ≢ v5) × (json_version payload ≡ v4 → is_v4 ≡ true)
    version_test is_v1 is_v2 is_v3 is_v4 at_bellatrix at_capella at_deneb r1 r2 r3 r4 payload e
          known =
        ground arith

    -- Only engine_newPayloadV4 reads a payload of Electra, and none reads one of Fulu.
    decode_payload-version :
        (method : String) (fork : ForkName) (id json : p.Json) (payload : JsonExecutionPayload)
        → decode_payload method fork id json ≡ ok payload
        → is_one_of new_payload_methods method ≡ true
        → (json_version payload ≢ v5)
          × (json_version payload ≡ v4 → str_eq method x.methods.engine_new_payload_v4 ≡ true)
    unfolding decode_payload
    decode_payload-version method fork id json payload e known =
        version_test (str_eq method x.methods.engine_new_payload_v1)
          (str_eq method x.methods.engine_new_payload_v2)
          (str_eq method x.methods.engine_new_payload_v3)
          (str_eq method x.methods.engine_new_payload_v4) (is_fork fork bellatrix_fork)
          (is_fork fork capella_fork) (is_fork fork deneb_fork) (x.serde.decode_payload_v1 json)
          (x.serde.decode_payload_v2 json) (x.serde.decode_payload_v3 json)
          (x.serde.decode_payload_v4 json) payload (map_err-eq-ok _ _ e) known

    pub decode_new_payload-eq-ok :
        (self : Settings) (request : Request) (decoded : Decoded)
        → decode_new_payload self request ≡ ok decoded
        → (id : p.Json) × (params : List p.Json) × (extras : Extras) × (fork : ForkName)
          × (decode_extras request.method id params ≡ ok extras)
          × (decode_payload request.method fork id extras.payload_json ≡ ok decoded.payload)
          × (extras.execution_requests ≡ decoded.execution_requests)
    unfolding decode_new_payload
    decode_new_payload-eq-ok self request decoded e =
        let ((id, params), _, e1) = >>=-eq-ok (parse_as x.serde.decode_values request) _ e in
        let (extras, fine, e2) = >>=-eq-ok (decode_extras request.method id params) _ e1 in
        let (timestamp, _, e3) = >>=-eq-ok (decode_timestamp id extras.payload_json) _ e2 in
        let (slot, _, e4) = >>=-eq-ok (decode_slot self id timestamp) _ e3 in
        let (payload, read, e5) =
          >>=-eq-ok
            (decode_payload request.method (self.spec.fork_name_at_slot slot) id
              extras.payload_json)
            _ e4 in
        (
          id,
          params,
          extras,
          self.spec.fork_name_at_slot slot,
          fine,
          read ∙ ap (λ t. ok t.payload) (ok_inj e5),
          ap (λ t. t.execution_requests) (ok_inj e5),
        )

    decode_extras-some :
        (method : String) (id : p.Json) (params : List p.Json) (extras : Extras)
        → decode_extras method id params ≡ ok extras
        → str_eq method x.methods.engine_new_payload_v4 ≡ true
        → (r : p.ExecutionRequests) × (extras.execution_requests ≡ some r)
    unfolding decode_extras
    decode_extras-some method id params extras e is_v4 =
        extras_v4-some id params extras (rw (is_v4, decode_extras) at e)

    -- A request by one of the dispatched newPayload methods that decodes gives a request for the
    -- engine: neither the `unwrap` of the execution requests nor the `todo!` for Fulu is reached.
    pub new_payload_request-some :
        (self : Settings) (request : Request) (decoded : Decoded)
        → is_one_of new_payload_methods request.method ≡ true
        → decode_new_payload self request ≡ ok decoded
        → (engine_request : NewPayloadRequest) × (new_payload_request_from_parts
              (x.from_json_payload decoded.payload)
              decoded.versioned_hashes
              decoded.parent_beacon_block_root
              decoded.execution_requests
            ≡ some engine_request)
    new_payload_request-some self request decoded known e =
        let (id, params, extras, fork, fine, read, same) =
          decode_new_payload-eq-ok self request decoded e in
        let (not_v5, only_v4) =
          decode_payload-version request.method fork id extras.payload_json decoded.payload read
            known in
        let version = x.version-from_json_payload decoded.payload in
        from_parts-some (x.from_json_payload decoded.payload) _ _ _
          (λ fulu_read. not_v5 (sym version ∙ fulu_read))
          (λ electra_read.
            let (r, given) =
              decode_extras-some request.method id params extras fine
                (only_v4 (sym version ∙ electra_read)) in
            (r, sym same ∙ given))
