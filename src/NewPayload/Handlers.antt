-- ===== src/NewPayload/Handlers.antt =====
-- src/new_payload.rs: the handlers, the cache of statuses and the test for a recent payload.
use eleel.Common.{
  ℕ, zero, suc, ◌+◌, ◌-◌, ◌/◌, max, String, ◌+s◌, ltb, leb, Option, none, some, List, [], ◌∷◌,
  Result, ok, err, Bool, true, false, not, ◌||◌, if◌then◌else◌,
}
use eleel.External.Lru.{Lru}
use eleel.External.Primitives.{Primitives}
use eleel.External.Lighthouse.{Lighthouse}
use eleel.Types.{
  JsonPayloadStatusV1, ExecutionPayload, fields, NewPayloadRequest, Request, Response,
  ErrorResponse, new_response, invalid_request,
}
use eleel.Fcu.Status.{is_definite, syncing_status}
use eleel.Multiplexer.{Settings, NewPayloadCacheEntry, Caches}
use eleel.NewPayload.Decode.{decode_new_payload, new_payload_request_from_parts}
use eleel.PayloadBuilder.Methods.{register_canonical_payload}
use eleel.Prog.{
  Prog, ret, fault, out_of_rounds, now, sleep, new_payload, locked, update, call, lift, try, ◌>>=◌,
  ◌>>◌,
}

-- A wait of 50 ms in each round: with so many rounds `elapsed` has reached the limit.
abbrev pub rounds : ℕ → ℕ
rounds wait_millis = wait_millis / 50 + 2

module _ ⦃p : Primitives⦄ ⦃lru : Lru⦄ where
  open p use {BlockHash}

  unfoldable pub cached_status : BlockHash → Bool → Caches → Option JsonPayloadStatusV1 × Caches
  cached_status block_hash definite_only s =
      let (found, cache') = lru.get p.block_hash_discrete block_hash s.new_payload_cache in
      (
        elim found [
          | none ↦ none
          | some entry ↦
              if not definite_only || is_definite entry.status then some entry.status else none
        ],
        record s { new_payload_cache = cache' },
      )

  unfoldable pub get_cached_payload_status :
      BlockHash → (definite_only : Bool) → Prog (Option JsonPayloadStatusV1)
  get_cached_payload_status block_hash definite_only =
      locked (cached_status block_hash definite_only)

  unfoldable pub highest_number : List (BlockHash × NewPayloadCacheEntry) → ℕ
  highest_number [] = 0
  highest_number ((_, entry) ∷ l) = max entry.block_number (highest_number l)

  unfoldable pub highest_cached_payload_number : Prog ℕ
  highest_cached_payload_number = locked (λ s. (highest_number (lru.iter s.new_payload_cache), s))

  unfoldable pub is_recent_payload : Settings → (block_number : ℕ) → Prog Bool
  is_recent_payload self block_number = do
    highest ← highest_cached_payload_number
    ret (leb (highest - self.config.new_payload_wait_cutoff) block_number)

  -- The `while` loop of `handle_new_payload`: a definite status, or none when the time is up.
  unfoldable pub wait_for_status :
      Settings → BlockHash → (start : ℕ) → ℕ → Prog (Option JsonPayloadStatusV1)
  wait_for_status self block_hash start zero = fault out_of_rounds
  wait_for_status self block_hash start (suc n) = do
    time ← call now
    elim (ltb (time - start) self.config.new_payload_wait_millis) [
      | false ↦ ret none
      | true ↦ do
        found ← get_cached_payload_status block_hash true
        elim found [
          | some status ↦ ret (some status)
          | none ↦ do call (sleep 50); wait_for_status self block_hash start n
        ]
    ]

  module _ ⦃x : Lighthouse⦄ where
    -- The answer of the engine goes into the cache and to the payload builder.
    unfoldable pub record_status : ExecutionPayload → JsonPayloadStatusV1 → Prog JsonPayloadStatusV1
    record_status payload json_status = do
      update (λ s. record s {
        new_payload_cache =
            lru.put p.block_hash_discrete (fields payload).block_hash
              (record { status = json_status; block_number = (fields payload).block_number })
              s.new_payload_cache;
      })
      register_canonical_payload payload json_status.status
      ret json_status

    unfoldable pub handle_controller_new_payload :
        Settings → Request → Prog (Result Response ErrorResponse)
    handle_controller_new_payload self request = try (decode_new_payload self request) λ decoded. do
      let execution_payload = x.from_json_payload decoded.payload
      let block_hash = (fields execution_payload).block_hash
      new_payload_request ← lift (
          new_payload_request_from_parts execution_payload decoded.versioned_hashes
            decoded.parent_beacon_block_root decoded.execution_requests)
      cached ← get_cached_payload_status block_hash true
      elim cached [
        | some status ↦ ret (new_response x.serde.encode_status decoded.id status)
        | none ↦ do
          reply ← call (new_payload new_payload_request)
          elim reply [
            | ok status ↦ do
              json_status ← record_status execution_payload status
              ret (new_response x.serde.encode_status decoded.id json_status)
            | err e ↦
                ret (err (invalid_request decoded.id "payload verification failed: see eleel logs"))
          ]
      ]

    -- The wait for a recent payload.
    unfoldable pub wait_if_recent : Settings → BlockHash → Bool → Prog (Option JsonPayloadStatusV1)
    wait_if_recent self block_hash false = ret none
    wait_if_recent self block_hash true = do
      start ← call now
      wait_for_status self block_hash start (rounds self.config.new_payload_wait_millis)

    -- After the wait: any cached status, or SYNCING once the versioned hashes are checked.
    unfoldable pub settle : BlockHash → NewPayloadRequest → Prog (Result JsonPayloadStatusV1 String)
    settle block_hash new_payload_request = do
      cached ← get_cached_payload_status block_hash false
      elim cached [
        | some status ↦ ret (ok status)
        | none ↦ elim (x.verify_versioned_hashes new_payload_request) [
          | err e ↦ ret (err "incorrect versioned hashes")
          | ok _ ↦ ret (ok syncing_status)
        ]
      ]

    unfoldable pub handle_new_payload : Settings → Request → Prog (Result Response ErrorResponse)
    handle_new_payload self request = try (decode_new_payload self request) λ decoded. do
      let execution_payload = x.from_json_payload decoded.payload
      let block_hash = (fields execution_payload).block_hash
      new_payload_request ← lift (
          new_payload_request_from_parts execution_payload decoded.versioned_hashes
            decoded.parent_beacon_block_root decoded.execution_requests)
      elim (x.verify_payload_block_hash new_payload_request) [
        | err e ↦ ret (
            err (
              invalid_request decoded.id
                ("incorrect block hash " +s p.debug_block_hash block_hash)))
        | ok _ ↦ do
          is_recent ← is_recent_payload self (fields execution_payload).block_number
          definite ← wait_if_recent self block_hash is_recent
          elim definite [
            | some status ↦ ret (new_response x.serde.encode_status decoded.id status)
            | none ↦ do
              settled ← settle block_hash new_payload_request
              elim settled [
                | err message ↦ ret (err (invalid_request decoded.id message))
                | ok status ↦ ret (new_response x.serde.encode_status decoded.id status)
              ]
          ]
      ]
