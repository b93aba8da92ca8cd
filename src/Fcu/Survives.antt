-- ===== src/Fcu/Survives.antt =====
-- src/fcu.rs: how long a status survives in a cache of fork choice states that may be full.
use eleel.Common.{
  ℕ, zero, suc, ◌+◌, ◌≤◌, ◌<◌, ◌≡◌, ◌≢◌, refl, sym, ap, ◌∙◌, inl, inr, if_pos, if_neg, true, false,
  some, Option-cases, List, [], ◌∷◌, length, take, find, remove, arith,
}
use eleel.External.Lru.{Lru, promote, insert}
use eleel.External.Primitives.{Primitives}
use eleel.Types.{JsonForkchoiceStateV1, JsonPayloadStatusV1, forkchoice_state_discrete}
use eleel.Effects.Contents.{find-take}
use eleel.Fcu.Board.{Use, write, read, use_cache, uses_cache, store_fcu-size, read-size}
use eleel.Fcu.Handlers.{existing_status, store_fcu}
use eleel.Fcu.Status.{is_definite}
use eleel.Fcu.Stores.{held, in_front, unknown, kept, replaced, store_fcu-Way}
use eleel.Multiplexer.{Caches}

module _ {K V : Type 0} (dec : Discrete K) where
  -- Among the n entries that were used last.
  abbrev pub Recent : K → V → ℕ → List (K × V) → Type 0
  Recent k v n l = find dec k (take n l) ≡ some v

  Recent-suc : (k : K) (v : V) (n : ℕ) (l : List (K × V)) → Recent k v n l → Recent k v (suc n) l
  Recent-suc k v zero l h = absurd (cc)
  Recent-suc k v (suc n) [] h = absurd (cc)
  Recent-suc k v (suc n) ((i, w) ∷ l) h = elim (dec i k) [
    | yes same ↦ if_pos (dec i k) same _ _ ∙ sym (if_pos (dec i k) same _ _) ∙ h
    | no apart ↦
        if_neg (dec i k) apart _ _ ∙ Recent-suc k v n l (sym (if_neg (dec i k) apart _ _) ∙ h)
  ]

  Recent-remove :
      (k j : K) (v : V) (n : ℕ) (l : List (K × V))
      → j ≢ k
      → Recent k v n l
      → Recent k v n (remove dec j l)
  Recent-remove k j v zero l apart h = absurd (cc)
  Recent-remove k j v (suc n) [] apart h = absurd (cc)
  Recent-remove k j v (suc n) ((i, w) ∷ l) apart h = elim (dec i j) [
    | yes same ↦
        let behind = sym (if_neg (dec i k) (λ e. apart (sym same ∙ e)) _ _) ∙ h in
        rw (if_pos (dec i j) same)
          (Recent-suc k v n (remove dec j l) (Recent-remove k j v n l apart behind))
    | no other ↦ rw (if_neg (dec i j) other) (elim (dec i k) [
      | yes mine ↦ if_pos (dec i k) mine _ _ ∙ sym (if_pos (dec i k) mine _ _) ∙ h
      | no away ↦
          if_neg (dec i k) away _ _
          ∙ Recent-remove k j v n l apart (sym (if_neg (dec i k) away _ _) ∙ h)
    ])
  ]

  -- Another entry comes to the front.
  Recent-behind :
      (k j : K) (v w : V) (n : ℕ) (l : List (K × V))
      → j ≢ k
      → Recent k v n l
      → Recent k v (suc n) ((j, w) ∷ remove dec j l)
  Recent-behind k j v w n l apart h = if_neg (dec j k) apart _ _ ∙ Recent-remove k j v n l apart h

  take-take : (n m : ℕ) (l : List (K × V)) → n ≤ m → take n (take m l) ≡ take n l
  take-take zero m l h = refl
  take-take (suc n) zero l h = absurd (omega (arith, h))
  take-take (suc n) (suc m) [] h = refl
  take-take (suc n) (suc m) (e ∷ l) h = ap (λ r. e ∷ r) (take-take n m l (omega (arith, h)))

  Recent-insert :
      (cap : ℕ) (k j : K) (v w : V) (n : ℕ) (l : List (K × V))
      → j ≢ k
      → suc n ≤ cap
      → Recent k v n l
      → Recent k v (suc n) (insert dec cap j w l)
  Recent-insert cap k j v w n l apart room h =
      ap (find dec k) (take-take (suc n) cap ((j, w) ∷ remove dec j l) room)
      ∙ Recent-behind k j v w n l apart h

  Recent-promote :
      (k j : K) (v : V) (n : ℕ) (l : List (K × V))
      → Recent k v n l
      → Recent k v (suc n) (promote dec j l)
  Recent-promote k j v n l h = elim (Option-cases (find dec j l)) [
    | inl missing ↦ rw (missing, promote) (Recent-suc k v n l h)
    | inr (w, there) ↦
        rw (there, promote)
          (elim (dec j k) [
            | yes same ↦
                if_pos (dec j k) same _ _
                ∙ sym there
                ∙ ap (λ i. find dec i l) same
                ∙ find-take dec n k l v h
            | no apart ↦ Recent-behind k j v w n l apart h
          ])
  ]

module _ ⦃p : Primitives⦄ ⦃lru : Lru⦄ (fcu : JsonForkchoiceStateV1) (status : JsonPayloadStatusV1)
    (definite : is_definite status ≡ true) where
  abbrev RecentIn : ℕ → Caches → Type 0
  RecentIn n s = Recent forkchoice_state_discrete fcu status n (lru.iter s.fcu_cache)

  write-RecentIn :
      (other : JsonForkchoiceStateV1) (new : JsonPayloadStatusV1) (n : ℕ) (s : Caches)
      → suc n ≤ lru.cap s.fcu_cache
      → RecentIn n s
      → RecentIn (suc n) (store_fcu other new s).1
  write-RecentIn other new n s room h =
      let entries = lru.iter s.fcu_cache in
      let found = find-take forkchoice_state_discrete n fcu entries status h in
      let back : (w : JsonPayloadStatusV1)
          → (other ≡ fcu → w ≡ status)
          → Recent forkchoice_state_discrete fcu status (suc n) (in_front other w s) =
        λ w own. elim (forkchoice_state_discrete other fcu) [
          | yes same ↦
              if_pos (forkchoice_state_discrete other fcu) same _ _ ∙ ap (λ a. some a) (own same)
          | no apart ↦ Recent-behind forkchoice_state_discrete fcu other status w n entries apart h
        ] in
      elim (store_fcu-Way other new s) [
        | unknown missing cached wrote ↦
            let apart : other ≢ fcu = λ e. absurd (cc (missing, found)) in
            rw (wrote.entries) (
              Recent-insert forkchoice_state_discrete (lru.cap s.fcu_cache) fcu other status new n
                entries apart room h)
        | kept existing there done cached wrote ↦
            rw (wrote.entries) (back existing (λ e. cc (there, found)))
        | replaced existing there open_ cached wrote ↦
            let itself : other ≡ fcu → existing ≡ status = λ e. cc (there, found) in
            rw (wrote.entries)
              (back new (λ e. absurd (cc (ap is_definite (itself e), open_, definite))))
      ]

  use-RecentIn :
      (u : Use) (n : ℕ) (s : Caches)
      → suc n ≤ lru.cap s.fcu_cache
      → RecentIn n s
      → RecentIn (suc n) (use_cache u s).1
        × (lru.cap (use_cache u s).1.fcu_cache ≡ lru.cap s.fcu_cache)
  unfolding existing_status
  use-RecentIn (write other new) n s room h =
      (write-RecentIn other new n s room h, (store_fcu-size other new s).1)
  use-RecentIn (read other) n s room h = (
    rw (lru.iter-get forkchoice_state_discrete other s.fcu_cache)
        (Recent-promote forkchoice_state_discrete fcu other status n (lru.iter s.fcu_cache) h),
    (read-size other s).1,
  )

  uses-RecentIn :
      (uses : List Use) (n : ℕ) (s : Caches)
      → n + length uses ≤ lru.cap s.fcu_cache
      → RecentIn n s
      → held fcu (uses_cache uses s).1 ≡ some status
  uses-RecentIn [] n s room h =
      find-take forkchoice_state_discrete n fcu (lru.iter s.fcu_cache) status h
  uses-RecentIn (u ∷ uses) n s room h =
      let (next, same) = use-RecentIn u n s (omega (arith, room)) h in
      uses-RecentIn uses (suc n) (use_cache u s).1 (omega (arith, room, same)) next

  -- In front after its own write.
  written-RecentIn :
      (s : Caches)
      → 0 < lru.cap s.fcu_cache
      → ((existing : JsonPayloadStatusV1)
          → held fcu s ≡ some existing
          → is_definite existing ≡ false)
      → RecentIn 1 (store_fcu fcu status s).1
  written-RecentIn s room open_ = elim (store_fcu-Way fcu status s) [
    | unknown missing cached wrote ↦ rw (wrote.entries) (
        ap (find forkchoice_state_discrete fcu)
          (take-take forkchoice_state_discrete 1 (lru.cap s.fcu_cache) (in_front fcu status s) room)
        ∙ if_pos (forkchoice_state_discrete fcu fcu) refl _ _)
    | kept existing there done cached wrote ↦ absurd (cc (open_ existing there, done))
    | replaced existing there opened cached wrote ↦
        rw (wrote.entries) (if_pos (forkchoice_state_discrete fcu fcu) refl _ _)
  ]

  -- In a cache that holds no definite status of a fork choice state, and that may be full: a
  -- definite status that is stored for it is still held after any writes, of any states and
  -- statuses, and any exact reads, if they are fewer than the capacity of the cache.
  pub store_fcu-then-uses :
      (uses : List Use) (s : Caches)
      → length uses < lru.cap s.fcu_cache
      → ((existing : JsonPayloadStatusV1)
          → held fcu s ≡ some existing
          → is_definite existing ≡ false)
      → held fcu (uses_cache uses (store_fcu fcu status s).1).1 ≡ some status
  store_fcu-then-uses uses s room open_ =
      uses-RecentIn uses 1 (store_fcu fcu status s).1
        (omega (arith, room, (store_fcu-size fcu status s).1))
        (written-RecentIn s (omega (arith, room)) open_)
