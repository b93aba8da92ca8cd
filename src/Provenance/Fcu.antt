-- ===== src/Provenance/Fcu.antt =====
-- src/fcu.rs among other handlers: what is stored, and what a client is answered.
use eleel.Common.{
  ◌≡◌, refl, Option, none, some, Bool, true, false, ◌&&◌, ◌||◌, not, List, [], ◌∷◌, All, if_neg,
  arith, if◌then◌else◌, subst,
}
use eleel.Config.{FcuMatching, exact, loose, head_only}
use eleel.External.Lru.{Lru}
use eleel.External.Primitives.{Primitives}
use eleel.Types.{JsonForkchoiceStateV1, forkchoice_state_discrete, JsonPayloadStatusV1}
use eleel.Entries.{Entries-get, get_entry, contains_entry}
use eleel.Fcu.Handlers.{find_head, existing_status, just_and_fin_ok, get_cached_fcu}
use eleel.Fcu.Status.{is_definite}
use eleel.Multiplexer.{Settings, Caches}
use eleel.Prog.{ret, locked}
use eleel.Prog.Safe.{Log, ◌⊑◌, Safe, Safe-bind, Safe-locked, Safe-ret, Safe-Option}
use eleel.Provenance.Invariant.{
  FcuSaid, SafeSaid, FinalizedSaid, FcuSaid-mono, SafeSaid-mono, FinalizedSaid-mono, IsSound,
  with_fcu_cache,
}

module _ ⦃p : Primitives⦄ where
  -- The engine answered a fork choice state with this head.
  pub record HeadSaid (l : Log) (fcu : JsonForkchoiceStateV1) (status : JsonPayloadStatusV1)
      : Type 0 where
    pub cached : JsonForkchoiceStateV1
    pub said : FcuSaid l cached status
    pub same : cached.head_block_hash ≡ fcu.head_block_hash

  -- What each way of matching asks of a status before a client gets it.
  abbrev pub Matched : FcuMatching → Log → JsonForkchoiceStateV1 → JsonPayloadStatusV1 → Type 0
  Matched exact l fcu status = FcuSaid l fcu status
  Matched head_only l fcu status = HeadSaid l fcu status
  Matched loose l fcu status =
      HeadSaid l fcu status
      × SafeSaid l fcu.safe_block_hash
      × FinalizedSaid l fcu.finalized_block_hash

  HeadSaid-mono :
      {l l' : Log} {fcu : JsonForkchoiceStateV1} {status : JsonPayloadStatusV1}
      → l ⊑ l'
      → HeadSaid l fcu status
      → HeadSaid l' fcu status
  HeadSaid-mono e h = record { cached = h.cached; said = FcuSaid-mono e h.said; same = h.same }

module _ ⦃p : Primitives⦄ ⦃lru : Lru⦄ where
  find_head-HeadSaid :
      (l : Log) (fcu : JsonForkchoiceStateV1)
      (entries : List (JsonForkchoiceStateV1 × JsonPayloadStatusV1)) (status : JsonPayloadStatusV1)
      → All (λ e. FcuSaid l e.0 e.1) entries
      → find_head fcu.head_block_hash entries ≡ some status
      → HeadSaid l fcu status
  unfolding find_head
  find_head-HeadSaid l fcu [] status h e = absurd (ground arith)
  find_head-HeadSaid l fcu ((cached, found) ∷ rest) status (said, h) e =
      elim (p.block_hash_discrete cached.head_block_hash fcu.head_block_hash) [
        | yes same ↦
            let found_it : found ≡ status = ground arith in
            record {
              cached = cached;
              said = subst (λ t. FcuSaid l cached t) found_it said;
              same = same;
            }
        | no other ↦ find_head-HeadSaid l fcu rest status h (rw (if_neg _ other) at e)
      ]

  -- The first match of `get_cached_fcu`.
  abbrev FoundBy : FcuMatching → Log → JsonForkchoiceStateV1 → JsonPayloadStatusV1 → Type 0
  FoundBy exact l fcu status = FcuSaid l fcu status
  FoundBy _ l fcu status = HeadSaid l fcu status

  existing_status-IsSound :
      (mode : FcuMatching) (fcu : JsonForkchoiceStateV1) (l : Log) (s : Caches)
      → IsSound l s
      → IsSound l (existing_status mode fcu s).1
  unfolding existing_status
  existing_status-IsSound exact fcu l s h =
      with_fcu_cache h _ (Entries-get _ forkchoice_state_discrete fcu s.fcu_cache h.fcu)
  existing_status-IsSound _ fcu l s h = h

  existing_status-FoundBy :
      (mode : FcuMatching) (fcu : JsonForkchoiceStateV1) (l : Log) (s : Caches)
      (status : JsonPayloadStatusV1)
      → IsSound l s
      → (existing_status mode fcu s).0 ≡ some status
      → FoundBy mode l fcu status
  unfolding existing_status
  existing_status-FoundBy exact fcu l s status h e =
      get_entry (λ e. FcuSaid l e.0 e.1) forkchoice_state_discrete fcu s.fcu_cache h.fcu e
  existing_status-FoundBy loose fcu l s status h e =
      find_head-HeadSaid l fcu (lru.iter s.fcu_cache) status h.fcu e
  existing_status-FoundBy head_only fcu l s status h e =
      find_head-HeadSaid l fcu (lru.iter s.fcu_cache) status h.fcu e

  abbrev JustFin : FcuMatching → Log → JsonForkchoiceStateV1 → Type 0
  JustFin loose l fcu = SafeSaid l fcu.safe_block_hash × FinalizedSaid l fcu.finalized_block_hash
  JustFin _ l fcu = Unit

  SafeSaid-of_contains :
      (l : Log) (s : Caches) (block : p.BlockHash)
      → IsSound l s
      → lru.contains p.block_hash_discrete block s.justified_block_cache ≡ true
      → SafeSaid l block
  SafeSaid-of_contains l s block h e =
      (contains_entry (λ e. SafeSaid l e.0) p.block_hash_discrete block s.justified_block_cache
        h.justified e).1

  FinalizedSaid-of_contains :
      (l : Log) (s : Caches) (block : p.BlockHash)
      → IsSound l s
      → lru.contains p.block_hash_discrete block s.finalized_block_cache ≡ true
      → FinalizedSaid l block
  FinalizedSaid-of_contains l s block h e =
      (contains_entry (λ e. FinalizedSaid l e.0) p.block_hash_discrete block s.finalized_block_cache
        h.finalized e).1

  pub just_and_fin_ok-Safe :
      (mode : FcuMatching) (fcu : JsonForkchoiceStateV1) (l : Log)
      → Safe IsSound (λ l' b. b ≡ true → JustFin mode l' fcu) l (just_and_fin_ok mode fcu)
  unfolding just_and_fin_ok
  just_and_fin_ok-Safe exact fcu l = Safe-ret (λ _. tt)
  just_and_fin_ok-Safe head_only fcu l = Safe-ret (λ _. tt)
  just_and_fin_ok-Safe loose fcu l =
      Safe-bind
        (Safe-locked {Q = λ l' b. b ≡ true → SafeSaid l' fcu.safe_block_hash} _
          (λ l' e s i. (i, λ known. SafeSaid-of_contains l' s fcu.safe_block_hash i known)))
        (elim_known l)
    where
      elim_known :
          (l l' : Log)
          → l ⊑ l'
          → (b : Bool) → (b ≡ true → SafeSaid l' fcu.safe_block_hash)
          → Safe IsSound
              (λ l'' b. b ≡ true → JustFin loose l'' fcu)
              l'
              (elim b [
                | false ↦ ret false
                | true ↦ locked (λ s. (
                  lru.contains p.block_hash_discrete fcu.finalized_block_hash
                      s.finalized_block_cache,
                  s,
                ))
              ])
      elim_known l l' e false h = Safe-ret (λ never. absurd (cc))
      elim_known l l' e true h = Safe-locked _ (λ l'' e' s i. (
        i,
        λ known. (
          SafeSaid-mono e' (h refl),
          FinalizedSaid-of_contains l'' s fcu.finalized_block_hash i known,
        ),
      ))

  abbrev pub CachedFcu :
      FcuMatching → JsonForkchoiceStateV1 → Bool → Log → Option JsonPayloadStatusV1 → Type 0
  CachedFcu mode fcu definite_only l found =
      (status : JsonPayloadStatusV1)
      → found ≡ some status
      → Matched mode l fcu status × (definite_only ≡ true → is_definite status ≡ true)

  FoundBy-mono :
      (mode : FcuMatching) (fcu : JsonForkchoiceStateV1) (status : JsonPayloadStatusV1) {l l' : Log}
      → l ⊑ l'
      → FoundBy mode l fcu status
      → FoundBy mode l' fcu status
  FoundBy-mono exact fcu status e h = FcuSaid-mono e h
  FoundBy-mono _ fcu status e h = HeadSaid-mono e h

  found_test :
      (known definite_only definite : Bool) (status found : JsonPayloadStatusV1)
      → (if known && (not definite_only || definite) then some status else none) ≡ some found
      → (known ≡ true) × (status ≡ found) × (definite_only ≡ true → definite ≡ true)
  found_test known definite_only definite status found e = ground arith

  Matched-of_found :
      (mode : FcuMatching) (fcu : JsonForkchoiceStateV1) (l : Log) (status : JsonPayloadStatusV1)
      → FoundBy mode l fcu status
      → JustFin mode l fcu
      → Matched mode l fcu status
  Matched-of_found exact fcu l status h k = h
  Matched-of_found head_only fcu l status h k = h
  Matched-of_found loose fcu l status h k = (h, k.0, k.1)

  CachedFcu-of_found :
      (mode : FcuMatching) (fcu : JsonForkchoiceStateV1) (definite_only : Bool) (l : Log)
      (status : JsonPayloadStatusV1) (known : Bool)
      → FoundBy mode l fcu status
      → (known ≡ true → JustFin mode l fcu)
      → CachedFcu mode fcu definite_only l
          (if known && (not definite_only || is_definite status) then some status else none)
  CachedFcu-of_found mode fcu definite_only l status known h fine found e =
      let (yes_known, same, definite) =
        found_test known definite_only (is_definite status) status found e in
      (
        subst (λ t. Matched mode l fcu t) same
            (Matched-of_found mode fcu l status h (fine yes_known)),
        subst (λ t. definite_only ≡ true → is_definite t ≡ true) same definite,
      )

  pub get_cached_fcu-Safe :
      (self : Settings) (fcu : JsonForkchoiceStateV1) (definite_only : Bool) (l : Log)
      → Safe IsSound
          (CachedFcu self.config.fcu_matching fcu definite_only)
          l
          (get_cached_fcu self fcu definite_only)
  unfolding get_cached_fcu
  get_cached_fcu-Safe self fcu definite_only l =
      let mode = self.config.fcu_matching in
      Safe-bind
        (Safe-locked
          {Q = λ l' found.
            (status : JsonPayloadStatusV1) → found ≡ some status → FoundBy mode l' fcu status}
          _
          (λ l' e s i. (
            existing_status-IsSound mode fcu l' s i,
            λ status. existing_status-FoundBy mode fcu l' s status i,
          )))
        (λ l' e existing found.
          Safe-Option existing (λ _. Safe-ret (λ status never. absurd (cc)))
            (λ status there. Safe-bind (just_and_fin_ok-Safe mode fcu l') (λ l'' e' known fine.
              Safe-ret (
                CachedFcu-of_found mode fcu definite_only l'' status known
                  (FoundBy-mono mode fcu status e' (found status there)) fine))))

  pub Matched-mono :
      (mode : FcuMatching) (fcu : JsonForkchoiceStateV1) (status : JsonPayloadStatusV1) {l l' : Log}
      → l ⊑ l'
      → Matched mode l fcu status
      → Matched mode l' fcu status
  Matched-mono exact fcu status e h = FcuSaid-mono e h
  Matched-mono head_only fcu status e h = HeadSaid-mono e h
  Matched-mono loose fcu status e h =
      (HeadSaid-mono e h.0, SafeSaid-mono e h.1, FinalizedSaid-mono e h.2)
