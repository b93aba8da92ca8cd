-- ===== src/Provenance/FcuHandlers.antt =====
-- src/fcu.rs among other handlers: the controller's writes and the client's wait.
use mathlib.Core.Bool.{decide_iff}
use eleel.Common.{
  ℕ, zero, suc, ◌≡◌, refl, ◌⊎◌, inl, inr, Option, none, some, Bool, true, false, ◌&&◌, Bool-cases,
  arith, if◌then◌else◌, ltb, ◌∙◌, ◌-◌,
}
use eleel.External.Lru.{Lru}
use eleel.External.Primitives.{Primitives}
use eleel.Types.{
  JsonForkchoiceStateV1, forkchoice_state_discrete, JsonPayloadStatusV1, StatusV1, valid,
  status_discrete,
}
use eleel.Entries.{Entries-put, Entries-get_mut}
use eleel.Fcu.Handlers.{
  store_fcu, note_checkpoints, record_fcu, wait_for_fcu, client_status, is_valid,
}
use eleel.Fcu.Status.{is_definite, syncing_status}
use eleel.Multiplexer.{Settings, Caches}
use eleel.Prog.{now, sleep}
use eleel.Prog.Safe.{
  ◌⊑◌, Log, ⊑-trans, Safe, Anything, Safe-bind, Safe-locked, Safe-update, Safe-call, Safe-ret,
  Safe-fault, Safe-if, Safe-Bool, Safe-Option,
}
use eleel.Provenance.Invariant.{
  FcuSaid, SafeSaid, FinalizedSaid, FcuSaid-mono, IsSound, with_fcu_cache, with_justified,
  with_finalized,
}
use eleel.Provenance.Fcu.{Matched-mono, Matched, CachedFcu, get_cached_fcu-Safe}

module _ ⦃p : Primitives⦄ ⦃lru : Lru⦄ where
  store_fcu-IsSound :
      (fcu : JsonForkchoiceStateV1) (status : JsonPayloadStatusV1) (l : Log) (s : Caches)
      → FcuSaid l fcu status
      → IsSound l s
      → IsSound l (store_fcu fcu status s).1
  unfolding store_fcu
  store_fcu-IsSound fcu status l s said h =
      go (lru.get_mut forkchoice_state_discrete fcu s.fcu_cache) refl
    where
      go :
          (found : Option (
            JsonPayloadStatusV1
            × (JsonPayloadStatusV1 → lru.LruCache JsonForkchoiceStateV1 JsonPayloadStatusV1)))
          → lru.get_mut forkchoice_state_discrete fcu s.fcu_cache ≡ found
          → IsSound l
              (elim found as (λ _. Bool × Caches) [
                | none ↦ (
                  true,
                  record s { fcu_cache = lru.put forkchoice_state_discrete fcu status s.fcu_cache },
                )
                | some (existing, write) ↦
                    if is_definite existing
                    then (false, record s { fcu_cache = write existing })
                    else (true, record s { fcu_cache = write status })
              ]).1
      go none e =
          with_fcu_cache h _
            (Entries-put _ forkchoice_state_discrete fcu status s.fcu_cache h.fcu said)
      go (some (existing, write)) e =
          let (old, keeps) =
            Entries-get_mut (λ e. FcuSaid l e.0 e.1) forkchoice_state_discrete fcu s.fcu_cache h.fcu
              e in
          elim (Bool-cases (is_definite existing)) [
            | inl definite ↦ rw definite (with_fcu_cache h (write existing) (keeps existing old))
            | inr open_ ↦ rw open_ (with_fcu_cache h (write status) (keeps status said))
          ]

  is_valid_lem : (status : StatusV1) → is_valid status ≡ true → status ≡ valid
  unfolding is_valid
  is_valid_lem status e = (decide_iff (status_discrete status valid)).0 e

  pub note_checkpoints-Safe :
      (fcu : JsonForkchoiceStateV1) (status : JsonPayloadStatusV1) (l : Log)
      → FcuSaid l fcu status
      → status.status ≡ valid
      → Safe IsSound Anything l (note_checkpoints fcu)
  unfolding note_checkpoints
  note_checkpoints-Safe fcu status l said fine =
      Safe-bind
        (Safe-update _ (λ l' e s i. with_justified i _ (
          Entries-put (λ x. SafeSaid l' x.0) p.block_hash_discrete fcu.safe_block_hash tt
            s.justified_block_cache i.justified
            (record {
              fcu = fcu;
              status = status;
              said = FcuSaid-mono e said;
              called_valid = fine;
              same = refl;
            }))))
        (λ l' e _ _. Safe-update _ (λ l'' e' s i. with_finalized i _ (
          Entries-put (λ x. FinalizedSaid l'' x.0) p.block_hash_discrete fcu.finalized_block_hash tt
            s.finalized_block_cache i.finalized
            (record {
              fcu = fcu;
              status = status;
              said = FcuSaid-mono (⊑-trans e e') said;
              called_valid = fine;
              same = refl;
            }))))

  pub record_fcu-Safe :
      (fcu : JsonForkchoiceStateV1) (status : JsonPayloadStatusV1) (l : Log)
      → FcuSaid l fcu status
      → Safe IsSound Anything l (record_fcu fcu status)
  unfolding record_fcu
  record_fcu-Safe fcu status l said =
      Safe-bind {Q = Anything}
        (Safe-locked _
          (λ l' e s i. (store_fcu-IsSound fcu status l' s (FcuSaid-mono e said) i, tt)))
        (λ l' e cached _.
          Safe-if (cached && is_valid status.status)
            (λ noted.
              note_checkpoints-Safe fcu status l' (FcuSaid-mono e said)
                (is_valid_lem status.status (ground arith)))
            (λ _. Safe-ret tt))

  -- The loop: whatever it returns is definite and was matched when it was read.
  pub wait_for_fcu-Safe :
      (self : Settings) (fcu : JsonForkchoiceStateV1) (start n : ℕ) (l : Log)
      → Safe IsSound (CachedFcu self.config.fcu_matching fcu true) l (wait_for_fcu self fcu start n)
  unfolding wait_for_fcu
  wait_for_fcu-Safe self fcu start zero l = Safe-fault _
  wait_for_fcu-Safe self fcu start (suc n) l = Safe-bind (Safe-call now) (λ l' e time _.
      Safe-Bool (ltb (time - start) self.config.fcu_wait_millis)
        (λ _. Safe-bind (get_cached_fcu-Safe self fcu true l') (λ l'' e' found q.
          Safe-Option found
            (λ _.
              Safe-bind (Safe-call (sleep 50)) (λ m _ _ _. wait_for_fcu-Safe self fcu start n m))
            (λ status there. Safe-ret (λ other same. q other (there ∙ same)))))
        (λ _. Safe-ret (λ status never. absurd (cc))))

  -- What a client is told of a fork choice state: SYNCING made up on the spot, or a status that
  -- the engine gave to a fork choice state that matches.
  abbrev pub Told : Settings → JsonForkchoiceStateV1 → Log → JsonPayloadStatusV1 → Type 0
  Told self fcu l status = (status ≡ syncing_status) ⊎ Matched self.config.fcu_matching l fcu status

  pub client_status-Safe :
      (self : Settings) (fcu : JsonForkchoiceStateV1) (l : Log)
      → Safe IsSound (Told self fcu) l (client_status self fcu)
  unfolding client_status
  client_status-Safe self fcu l = Safe-bind (Safe-call now) (λ l1 _ start _.
      Safe-bind (wait_for_fcu-Safe self fcu start _ l1) (λ l2 _ definite q.
        Safe-Option definite
          (λ _. Safe-bind (get_cached_fcu-Safe self fcu false l2) (λ l3 _ cached r.
            Safe-Option cached (λ _. Safe-ret (inl refl))
              (λ status there. Safe-ret (inr (r status there).0))))
          (λ status there. Safe-ret (inr (q status there).0))))

  pub Told-mono :
      (self : Settings) (fcu : JsonForkchoiceStateV1) (status : JsonPayloadStatusV1) {l l' : Log}
      → l ⊑ l'
      → Told self fcu l status
      → Told self fcu l' status
  Told-mono self fcu status e (inl made_up) = inl made_up
  Told-mono self fcu status e (inr said) =
      inr (Matched-mono self.config.fcu_matching fcu status e said)
