-- ===== src/Fcu/Keeps.antt =====
-- src/fcu.rs: how long a status stays in the cache of fork choice states.
use eleel.Common.{
  ℕ, ◌<◌, ◌≡◌, ◌≢◌, refl, ap, ◌∙◌, inl, if_neg, Option-cases, List, [], ◌∷◌, find, remove, length,
  length-remove-le, take_of_length-le, arith, ◌≤◌, inr, some,
}
use eleel.External.Lru.{Lru, promote, insert}
use eleel.External.Primitives.{Primitives}
use eleel.Types.{JsonForkchoiceStateV1, JsonPayloadStatusV1, forkchoice_state_discrete}
use eleel.Fcu.Handlers.{store_fcu}
use eleel.Fcu.Stores.{held, unknown, kept, replaced, store_fcu-Way}
use eleel.Multiplexer.{Caches}

module _ {K V : Type 0} (dec : Discrete K) where
  pub length-remove-lt :
      (k : K) (v : V) (l : List (K × V))
      → find dec k l ≡ some v
      → length (remove dec k l) < length l
  length-remove-lt k v [] e = absurd (ground arith)
  length-remove-lt k v ((j, w) ∷ l) e =
      ground (arith, length-remove-le dec k l, length-remove-lt k v l)

  pub length-promote-le : (k : K) (l : List (K × V)) → length (promote dec k l) ≤ length l
  length-promote-le k l = elim (Option-cases (find dec k l)) [
    | inl e ↦ rw (e, promote) (omega arith)
    | inr (v, e) ↦ rw (e, promote) (omega (arith, length-remove-lt k v l e))
  ]

  find_other : (k j : K) (l : List (K × V)) → k ≢ j → find dec j (remove dec k l) ≡ find dec j l
  find_other k j [] apart = refl
  find_other k j ((i, v) ∷ l) apart = ground (arith, find_other k j l apart)

  pub find_behind :
      (k j : K) (v : V) (l : List (K × V))
      → k ≢ j
      → find dec j ((k, v) ∷ remove dec k l) ≡ find dec j l
  find_behind k j v l apart = if_neg (dec k j) apart _ _ ∙ find_other k j l apart

  find-insert_other :
      (cap : ℕ) (k j : K) (v : V) (l : List (K × V))
      → k ≢ j
      → length l < cap
      → find dec j (insert dec cap k v l) ≡ find dec j l
  find-insert_other cap k j v l apart room =
      ap (find dec j)
        (take_of_length-le cap ((k, v) ∷ remove dec k l) (omega (arith, length-remove-le dec k l)))
      ∙ find_behind k j v l apart

module _ ⦃p : Primitives⦄ ⦃lru : Lru⦄ where
  -- While the cache is not full, the controller's write for one fork choice state changes the
  -- status that is held of no other fork choice state.
  pub held-store_fcu :
      (fcu other : JsonForkchoiceStateV1) (status : JsonPayloadStatusV1) (s : Caches)
      → fcu ≢ other
      → length (lru.iter s.fcu_cache) < lru.cap s.fcu_cache
      → held other (store_fcu fcu status s).1 ≡ held other s
  held-store_fcu fcu other status s apart room = elim (store_fcu-Way fcu status s) [
    | unknown missing cached wrote ↦
        ap (find forkchoice_state_discrete other) wrote.entries
        ∙ find-insert_other forkchoice_state_discrete _ fcu other status (lru.iter s.fcu_cache)
            apart room
    | kept existing there definite cached wrote ↦
        ap (find forkchoice_state_discrete other) wrote.entries
        ∙ find_behind forkchoice_state_discrete fcu other existing (lru.iter s.fcu_cache) apart
    | replaced existing there open_ cached wrote ↦
        ap (find forkchoice_state_discrete other) wrote.entries
        ∙ find_behind forkchoice_state_discrete fcu other status (lru.iter s.fcu_cache) apart
  ]
