-- ===== src/Provenance/NewPayload.antt =====
-- src/new_payload.rs among other handlers: what is stored, and what a client is answered.
use eleel.Common.{
  ℕ, zero, suc, ◌-◌, ◌≡◌, refl, ◌∙◌, ◌⊎◌, inl, inr, Option, none, some, List, ok, Bool, true, false,
  not, ◌||◌, if◌then◌else◌, ltb, subst, arith,
}
use eleel.External.Lru.{Lru}
use eleel.External.Primitives.{Primitives}
use eleel.External.Lighthouse.{Lighthouse}
use eleel.Types.{
  JsonPayloadStatusV1, ExecutionPayload, fields, bellatrix, capella, deneb, electra, fulu,
  NewPayloadRequest, request_payload,
}
use eleel.Entries.{Entries-get, get_entry, Entries-put}
use eleel.Fcu.Status.{is_definite, syncing_status}
use eleel.Multiplexer.{Settings, NewPayloadCacheEntry}
use eleel.NewPayload.Decode.{new_payload_request_from_parts}
use eleel.NewPayload.Handlers.{
  cached_status, get_cached_payload_status, highest_cached_payload_number, is_recent_payload,
  wait_for_status, record_status, wait_if_recent, settle,
}
use eleel.Prog.{now, sleep}
use eleel.Prog.Safe.{
  Log, Safe, Anything, Safe-bind, Safe-locked, Safe-update, Safe-call, Safe-ret, Safe-fault,
  Safe-Bool, Safe-Option, Safe-Result,
}
use eleel.Provenance.Builder.{register_canonical_payload-Safe}
use eleel.Provenance.Invariant.{
  PayloadSaid, PayloadSaid-mono, EntrySaid, IsSound, with_new_payload_cache,
}

module _ ⦃p : Primitives⦄ where
  -- The engine answered a payload of this hash with this status.
  pub record HashSaid (l : Log) (block : p.BlockHash) (status : JsonPayloadStatusV1) : Type 0 where
    pub payload : ExecutionPayload
    pub said : PayloadSaid l payload status
    pub hash : (fields payload).block_hash ≡ block

  -- The request for the engine carries the payload.
  pub request_payload_lem :
      (payload : ExecutionPayload) (hashes : Option (List p.VersionedHash))
      (root : Option p.Hash256) (requests : Option p.ExecutionRequests)
      (request : NewPayloadRequest)
      → new_payload_request_from_parts payload hashes root requests ≡ some request
      → request_payload request ≡ payload
  unfolding new_payload_request_from_parts
  request_payload_lem (bellatrix f) hashes root requests request e = ground arith
  request_payload_lem (capella f w) hashes root requests request e = ground arith
  request_payload_lem (deneb f w b c) hashes root requests request e = ground arith
  request_payload_lem (electra f w b c) hashes root (some r) request e = ground arith
  request_payload_lem (electra f w b c) hashes root none request e = absurd (cc)
  request_payload_lem (fulu f r) hashes root requests request e = absurd (cc)

module _ ⦃p : Primitives⦄ ⦃lru : Lru⦄ where
  abbrev pub CachedStatus : p.BlockHash → Bool → Log → Option JsonPayloadStatusV1 → Type 0
  CachedStatus block definite_only l found =
      (status : JsonPayloadStatusV1)
      → found ≡ some status
      → HashSaid l block status × (definite_only ≡ true → is_definite status ≡ true)

  entry_test :
      (found : Option NewPayloadCacheEntry) (definite_only : Bool) (status : JsonPayloadStatusV1)
      → elim found as (λ _. Option JsonPayloadStatusV1) [
        | none ↦ none
        | some entry ↦
            if not definite_only || is_definite entry.status then some entry.status else none
      ]
        ≡ some status
      → (entry : NewPayloadCacheEntry) × (found ≡ some entry)
        × (entry.status ≡ status)
        × (definite_only ≡ true → is_definite status ≡ true)
  entry_test none definite_only status e = absurd (cc)
  entry_test (some entry) definite_only status e = (entry, refl, ground arith, ground arith)

  pub get_cached_payload_status-Safe :
      (block : p.BlockHash) (definite_only : Bool) (l : Log)
      → Safe IsSound
          (CachedStatus block definite_only)
          l
          (get_cached_payload_status block definite_only)
  unfolding get_cached_payload_status cached_status
  get_cached_payload_status-Safe block definite_only l = Safe-locked _ (λ l' e s i. (
    with_new_payload_cache i _
        (Entries-get _ p.block_hash_discrete block s.new_payload_cache i.new_payload),
    λ status got.
        let (entry, found, same, definite) =
          entry_test (lru.get p.block_hash_discrete block s.new_payload_cache).0 definite_only
            status got in
        let here =
          get_entry (λ e. EntrySaid l' e.0 e.1) p.block_hash_discrete block s.new_payload_cache
            i.new_payload found in
        (
          record {
            payload = here.payload;
            said = subst (λ t. PayloadSaid l' here.payload t) same here.said;
            hash = here.hash;
          },
          definite,
        ),
  ))

  pub wait_for_status-Safe :
      (self : Settings) (block : p.BlockHash) (start n : ℕ) (l : Log)
      → Safe IsSound (CachedStatus block true) l (wait_for_status self block start n)
  unfolding wait_for_status
  wait_for_status-Safe self block start zero l = Safe-fault _
  wait_for_status-Safe self block start (suc n) l = Safe-bind (Safe-call now) (λ l' e time _.
      Safe-Bool (ltb (time - start) self.config.new_payload_wait_millis)
        (λ _. Safe-bind (get_cached_payload_status-Safe block true l') (λ l'' e' found q.
          Safe-Option found
            (λ _.
              Safe-bind (Safe-call (sleep 50))
                (λ m _ _ _. wait_for_status-Safe self block start n m))
            (λ status there. Safe-ret (λ other same. q other (there ∙ same)))))
        (λ _. Safe-ret (λ status never. absurd (cc))))

  pub is_recent_payload-Safe :
      (self : Settings) (n : ℕ) (l : Log) → Safe IsSound Anything l (is_recent_payload self n)
  unfolding is_recent_payload highest_cached_payload_number
  is_recent_payload-Safe self n l =
      Safe-bind {Q = Anything} (Safe-locked _ (λ l' e s i. (i, tt))) (λ _ _ _ _. Safe-ret tt)

  module _ ⦃x : Lighthouse⦄ where
    pub record_status-Safe :
        (payload : ExecutionPayload) (status : JsonPayloadStatusV1) (l : Log)
        → PayloadSaid l payload status
        → Safe IsSound (λ _ out. out ≡ status) l (record_status payload status)
    unfolding record_status
    record_status-Safe payload status l said =
        Safe-bind
          (Safe-update _ (λ l' e s i. with_new_payload_cache i _ (
            Entries-put (λ y. EntrySaid l' y.0 y.1) p.block_hash_discrete
              (fields payload).block_hash _ s.new_payload_cache i.new_payload
              (record {
                payload = payload;
                said = PayloadSaid-mono e said;
                hash = refl;
                number = refl;
              }))))
          (λ l' e _ _.
            Safe-bind (register_canonical_payload-Safe payload status l' (PayloadSaid-mono e said))
              (λ _ _ _ _. Safe-ret refl))

    pub wait_if_recent-Safe :
        (self : Settings) (block : p.BlockHash) (recent : Bool) (l : Log)
        → Safe IsSound (CachedStatus block true) l (wait_if_recent self block recent)
    unfolding wait_if_recent
    wait_if_recent-Safe self block false l = Safe-ret (λ status never. absurd (cc))
    wait_if_recent-Safe self block true l =
        Safe-bind (Safe-call now) (λ l' _ start _. wait_for_status-Safe self block start _ l')

    -- What a client is told of a payload: SYNCING made up on the spot, once the versioned hashes
    -- are verified, or a status that the engine gave to a payload with the hash.
    abbrev pub Heard : NewPayloadRequest → p.BlockHash → Log → JsonPayloadStatusV1 → Type 0
    Heard request block l status =
        ((status ≡ syncing_status) × (x.verify_versioned_hashes request ≡ ok tt))
        ⊎ HashSaid l block status

    pub settle-Safe :
        (block : p.BlockHash) (request : NewPayloadRequest) (l : Log)
        → Safe IsSound
            (λ l' result.
              (status : JsonPayloadStatusV1) → result ≡ ok status → Heard request block l' status)
            l
            (settle block request)
    unfolding settle
    settle-Safe block request l =
        Safe-bind (get_cached_payload_status-Safe block false l) (λ l' e cached q.
          Safe-Option cached
            (λ _.
              Safe-Result (x.verify_versioned_hashes request)
                (λ _ verified. Safe-ret (λ status same. inl (cc, verified)))
                (λ _ _. Safe-ret (λ status never. absurd (cc))))
            (λ status there. Safe-ret (λ other same. inr (q other (there ∙ cc)).0)))
