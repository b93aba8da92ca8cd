-- ===== src/Fcu/Stores.antt =====
-- src/fcu.rs, `handle_controller_fcu`: what a write to the cache of fork choice states does.
use mathlib.Core.Logic.{if_pos}
use eleel.Common.{
  none, take, remove, ◌∷◌, ℕ, zero, suc, ◌<◌, ◌≡◌, refl, sym, ap, ◌∙◌, ◌⊎◌, inl, inr, Option, some,
  Option-cases, Bool, true, false, Bool-cases, List, find, arith,
}
use eleel.External.Lru.{Lru, insert}
use eleel.External.Primitives.{Primitives}
use eleel.Types.{JsonForkchoiceStateV1, JsonPayloadStatusV1, forkchoice_state_discrete}
use eleel.Fcu.Handlers.{store_fcu}
use eleel.Fcu.Status.{is_definite}
use eleel.Multiplexer.{Caches}

-- What was written first is found, if there is room for it.
pub find-insert :
    {K V : Type 0} (dec : Discrete K) (cap : ℕ) (k : K) (v : V) (l : List (K × V))
    → 0 < cap
    → find dec k (insert dec cap k v l) ≡ some v
find-insert dec zero k v l room = absurd (omega arith)
find-insert dec (suc n) k v l room = rw (if_pos (dec k k) refl) refl

module _ ⦃p : Primitives⦄ ⦃lru : Lru⦄ where
  -- The status in the cache of fork choice states, without a promotion.
  abbrev pub held : JsonForkchoiceStateV1 → Caches → Option JsonPayloadStatusV1
  held fcu s = find forkchoice_state_discrete fcu (lru.iter s.fcu_cache)

  -- The cache of fork choice states is written, and nothing else.
  pub record Wrote (l : List (JsonForkchoiceStateV1 × JsonPayloadStatusV1)) (s after : Caches)
      : Type 0 where
    pub entries : lru.iter after.fcu_cache ≡ l
    pub size : lru.cap after.fcu_cache ≡ lru.cap s.fcu_cache
    pub others : after ≡ record s { fcu_cache = after.fcu_cache }

  abbrev pub in_front :
      JsonForkchoiceStateV1
      → JsonPayloadStatusV1
      → Caches
      → List (JsonForkchoiceStateV1 × JsonPayloadStatusV1)
  in_front fcu status s =
      (fcu, status) ∷ remove forkchoice_state_discrete fcu (lru.iter s.fcu_cache)

  -- The three ways of a write, by what is held.
  pub data Way (fcu : JsonForkchoiceStateV1) (status : JsonPayloadStatusV1) (s : Caches)
      (cached : Bool) (after : Caches) : Type 0 where
    unknown :
        held fcu s ≡ none
        → cached ≡ true
        → Wrote (take (lru.cap s.fcu_cache) (in_front fcu status s)) s after
        → Way fcu status s cached after
    kept :
        (existing : JsonPayloadStatusV1)
        → held fcu s ≡ some existing
        → is_definite existing ≡ true
        → cached ≡ false
        → Wrote (in_front fcu existing s) s after
        → Way fcu status s cached after
    replaced :
        (existing : JsonPayloadStatusV1)
        → held fcu s ≡ some existing
        → is_definite existing ≡ false
        → cached ≡ true
        → Wrote (in_front fcu status s) s after
        → Way fcu status s cached after

  pub store_fcu-Way :
      (fcu : JsonForkchoiceStateV1) (status : JsonPayloadStatusV1) (s : Caches)
      → Way fcu status s (store_fcu fcu status s).0 (store_fcu fcu status s).1
  unfolding store_fcu
  store_fcu-Way fcu status s = elim (Option-cases (held fcu s)) [
    | inl missing ↦
        rw (lru.get_mut_miss forkchoice_state_discrete fcu s.fcu_cache missing, store_fcu)
          (unknown missing refl (record {
            entries = lru.iter-put forkchoice_state_discrete fcu status s.fcu_cache;
            size = lru.cap-put forkchoice_state_discrete fcu status s.fcu_cache;
            others = refl;
          }))
    | inr (existing, there) ↦
        let (write, lent, left) =
          lru.get_mut_hit forkchoice_state_discrete fcu s.fcu_cache existing there in
        let wrote : (w : JsonPayloadStatusV1)
            → Wrote (in_front fcu w s) s (record s { fcu_cache = write w }) =
          λ w. record { entries = (left w).0; size = (left w).1; others = refl } in
        elim (Bool-cases (is_definite existing)) [
          | inl definite ↦
              rw (lent, store_fcu, definite) (kept existing there definite refl (wrote existing))
          | inr open_ ↦
              rw (lent, store_fcu, open_) (replaced existing there open_ refl (wrote status))
        ]
  ]

  -- The entry in front is held.
  front-held :
      (fcu : JsonForkchoiceStateV1) (status : JsonPayloadStatusV1) (s after : Caches)
      → Wrote (in_front fcu status s) s after
      → held fcu after ≡ some status
  front-held fcu status s after wrote =
      ap (find forkchoice_state_discrete fcu) wrote.entries
      ∙ if_pos (forkchoice_state_discrete fcu fcu) refl _ _

  abbrev pub Stored : JsonForkchoiceStateV1 → JsonPayloadStatusV1 → Caches → Bool × Caches → Type 0
  Stored fcu status s after =
      ((existing : JsonPayloadStatusV1) × (held fcu s ≡ some existing)
        × (is_definite existing ≡ true)
        × (after.0 ≡ false)
        × (held fcu after.1 ≡ some existing))
      ⊎ (((existing : JsonPayloadStatusV1)
            → held fcu s ≡ some existing
            → is_definite existing ≡ false)
          × (after.0 ≡ true)
          × (held fcu after.1 ≡ some status))

  -- In a cache of positive capacity, the controller's write of an engine's answer leaves a definite
  -- status of the fork choice state as it is and reports that nothing was written; it replaces any
  -- other status, or none, by the new one and reports the write.
  pub store_fcu-Stored :
      (fcu : JsonForkchoiceStateV1) (status : JsonPayloadStatusV1) (s : Caches)
      → 0 < lru.cap s.fcu_cache
      → Stored fcu status s (store_fcu fcu status s)
  store_fcu-Stored fcu status s room = elim (store_fcu-Way fcu status s) [
    | unknown missing cached wrote ↦ inr (
      λ existing e. absurd (cc),
      cached,
      ap (find forkchoice_state_discrete fcu) wrote.entries
          ∙ find-insert forkchoice_state_discrete _ fcu status (lru.iter s.fcu_cache) room,
    )
    | kept existing there definite cached wrote ↦
        inl (existing, there, definite, cached, front-held fcu existing s _ wrote)
    | replaced existing there open_ cached wrote ↦ inr (
      λ other e. rw (same existing other (sym there ∙ e)) at open_,
      cached,
      front-held fcu status s _ wrote,
    )
  ]
    where
      same : (a b : JsonPayloadStatusV1) → some a ≡ some b → a ≡ b
      same a b e = cc
