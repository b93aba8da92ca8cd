-- ===== src/NewPayload/Recent.antt =====
-- src/new_payload.rs: which payloads are recent enough to wait for.
use eleel.Common.{
  ℕ, ◌+◌, ◌-◌, ◌≤◌, ◌≡◌, ◌↔◌, ◌⊎◌, inl, refl, sym, ap, ◌∙◌, List, [], ◌∷◌, All, Bool, true, leb,
  arith,
}
use eleel.External.Lru.{Lru}
use eleel.External.Primitives.{Primitives}
use eleel.Multiplexer.{Settings, Caches, NewPayloadCacheEntry}
use eleel.NewPayload.Handlers.{highest_number, highest_cached_payload_number, is_recent_payload}
use eleel.Prog.{Call, Reply, Fault, locked, ◌>>=◌}
use eleel.Prog.Run.{run}

module _ ⦃p : Primitives⦄ ⦃lru : Lru⦄ where
  -- The entry's block is at most so high.
  abbrev pub AtMost : ℕ → p.BlockHash × NewPayloadCacheEntry → Type 0
  AtMost n entry = entry.1.block_number ≤ n

  highest_number-le_iff :
      (n : ℕ) (l : List (p.BlockHash × NewPayloadCacheEntry))
      → (highest_number l ≤ n) ↔ All (AtMost n) l
  unfolding highest_number
  highest_number-le_iff n [] = (λ _. tt, λ _. omega arith)
  highest_number-le_iff n (entry ∷ l) =
      let (to, from) = highest_number-le_iff n l in
      (λ h. (omega (arith, h), to (omega (arith, h))), λ (h, k). omega (arith, h, from k))

  recent_test : (cutoff n highest : ℕ) → (leb (highest - cutoff) n ≡ true) ↔ (highest ≤ n + cutoff)
  recent_test cutoff n highest = ground arith

  recent_run :
      (engine : (c : Call) → Reply c) (time : ℕ) (self : Settings) (n : ℕ) (s : Caches)
      → run engine time s (is_recent_payload self n)
        ≡ inl (
          leb
              (highest_number (lru.iter s.new_payload_cache) - self.config.new_payload_wait_cutoff)
              n,
          s,
          time,
        )
  unfolding run is_recent_payload highest_cached_payload_number locked ◌>>=◌
  recent_run engine time self n s = refl

  -- Run alone, the test for a recent payload leaves the caches as they are and answers yes exactly
  -- if no cached payload is higher than its block number by more than the cutoff.
  pub is_recent_payload_iff :
      (engine : (c : Call) → Reply c) (time : ℕ) (self : Settings) (n : ℕ) (s : Caches)
      → (run engine time s (is_recent_payload self n) ≡ inl (true, s, time))
        ↔ All (AtMost (n + self.config.new_payload_wait_cutoff)) (lru.iter s.new_payload_cache)
  is_recent_payload_iff engine time self n s =
      let highest = highest_number (lru.iter s.new_payload_cache) in
      let (low, high) = recent_test self.config.new_payload_wait_cutoff n highest in
      let (to, from) =
        highest_number-le_iff (n + self.config.new_payload_wait_cutoff)
          (lru.iter s.new_payload_cache) in
      (
        λ e. to (low (value _ _ _ _ (sym (recent_run engine time self n s) ∙ e))),
        λ h. recent_run engine time self n s ∙ ap (λ b. inl (b, s, time)) (high (from h)),
      )
    where
      value :
          (a b : Bool) (s : Caches) (time : ℕ)
          → ◌≡◌ {A = (Bool × Caches × ℕ) ⊎ Fault} (inl (a, s, time)) (inl (b, s, time))
          → a ≡ b
      value a b s time e = cc
