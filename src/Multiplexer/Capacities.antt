-- ===== src/Multiplexer/Capacities.antt =====
-- src/multiplexer.rs, `Multiplexer::new`: when it succeeds, and the caches that it builds.
use eleel.Common.{
  ℕ, zero, suc, ◌<◌, ◌≤◌, ◌≡◌, ◌⊎◌, inl, inr, refl, List, some, Option-cases, ok, err, min, length,
  take, length-take, arith, subst,
}
use eleel.External.Lru.{Lru}
use eleel.External.Primitives.{Primitives}
use eleel.External.Lighthouse.{Lighthouse}
use eleel.Config.{Config}
use eleel.Multiplexer.{PayloadBuilder, Caches, new_payload_builder, non_zero, new_caches}

module _ ⦃p : Primitives⦄ ⦃lru : Lru⦄ ⦃x : Lighthouse⦄ where
  non_zero-cases :
      (n : ℕ)
      → ((0 < n) × (non_zero n ≡ ok n)) ⊎ ((n ≡ 0) × (non_zero n ≡ err "invalid cache size"))
  unfolding non_zero
  non_zero-cases zero = inr (refl, refl)
  non_zero-cases (suc n) = inl (omega arith, refl)

  -- A new builder: no id given out, no entries, and the three caches of one size.
  pub record IsNewBuilder (size : ℕ) (b : PayloadBuilder) : Type 0 where
    pub next_payload_id : b.next_payload_id ≡ 0
    pub payload_attributes : b.payload_attributes ≡ lru.new size
    pub payload_info : b.payload_info ≡ lru.new size
    pub payloads : b.payloads ≡ lru.new size

  -- New caches, each of its configured size; the finalized blocks have the size of the justified
  -- ones.
  pub record IsNew (config : Config) (s : Caches) : Type 0 where
    pub fcu : s.fcu_cache ≡ lru.new config.fcu_cache_size
    pub new_payload : s.new_payload_cache ≡ lru.new config.new_payload_cache_size
    pub justified : s.justified_block_cache ≡ lru.new config.justified_block_cache_size
    pub finalized : s.finalized_block_cache ≡ lru.new config.justified_block_cache_size
    pub builder : IsNewBuilder config.payload_builder_cache_size s.payload_builder

  -- The sizes that `new` reads.
  pub record IsSized (config : Config) : Type 0 where
    pub fcu : 0 < config.fcu_cache_size
    pub new_payload : 0 < config.new_payload_cache_size
    pub justified : 0 < config.justified_block_cache_size
    pub builder : 0 < config.payload_builder_cache_size

  pub new_payload_builder-IsNewBuilder :
      (size : ℕ) (bytes : List ℕ)
      → (b : PayloadBuilder) × (new_payload_builder size bytes ≡ some b) × IsNewBuilder size b
  unfolding new_payload_builder
  new_payload_builder-IsNewBuilder size bytes =
      elim (Option-cases
        (x.new_extra_data (take (min (length bytes) x.max_extra_data_bytes) bytes))) [
          | inl none_fits ↦ absurd (x.new_extra_data_fits _ (fits bytes) none_fits)
          | inr (extra, made) ↦
              rw (made, new_payload_builder)
                (
                  _,
                  refl,
                  record {
                    next_payload_id = refl;
                    payload_attributes = refl;
                    payload_info = refl;
                    payloads = refl;
                  },
                )
        ]
    where
      fits :
          (l : List ℕ)
          → length (take (min (length l) x.max_extra_data_bytes) l) ≤ x.max_extra_data_bytes
      fits l = omega (arith, length-take (min (length l) x.max_extra_data_bytes) l)

  not_sized :
      (config : Config)
      → config.fcu_cache_size ≡ 0
        ⊎ ((config.new_payload_cache_size ≡ 0)
            ⊎ ((config.justified_block_cache_size ≡ 0) ⊎ (config.payload_builder_cache_size ≡ 0)))
      → IsSized config
      → ⊥
  not_sized config h i = ground (arith, i.fcu, i.new_payload, i.justified, i.builder)

  -- If the sizes that are read are positive, the caches are built without a panic, all empty: each
  -- of its configured size, but that of the finalized blocks of the size of the justified ones.
  -- Otherwise an invalid cache size is reported.
  pub new_caches-cases :
      (config : Config)
      → (IsSized config × ((s : Caches) × (new_caches config ≡ ok (some s)) × IsNew config s))
        ⊎ ((IsSized config → ⊥) × (new_caches config ≡ err "invalid cache size"))
  unfolding new_caches
  new_caches-cases config = elim (non_zero-cases config.fcu_cache_size) [
    | inr (h, e) ↦ rw e (inr (not_sized config (inl h), refl))
    | inl (fcu, e) ↦ rw e (elim (non_zero-cases config.new_payload_cache_size) [
      | inr (h, e) ↦ rw e (inr (not_sized config (inr (inl h)), refl))
      | inl (new_payload, e) ↦ rw e (elim (non_zero-cases config.justified_block_cache_size) [
        | inr (h, e) ↦ rw e (inr (not_sized config (inr (inr (inl h))), refl))
        | inl (justified, e) ↦ rw e (elim (non_zero-cases config.payload_builder_cache_size) [
          | inr (h, e) ↦ rw e (inr (not_sized config (inr (inr (inr h))), refl))
          | inl (builder, e) ↦
              let (b, made, new) =
                new_payload_builder-IsNewBuilder config.payload_builder_cache_size
                  config.payload_builder_extra_data in
              rw (e, made)
                (inl (
                  record {
                    fcu = fcu;
                    new_payload = new_payload;
                    justified = justified;
                    builder = builder;
                  },
                  (
                    _,
                    refl,
                    record {
                      fcu = refl;
                      new_payload = refl;
                      justified = refl;
                      finalized = refl;
                      builder = new;
                    },
                  ),
                ))
        ])
      ])
    ])
  ]

  pub new_caches-IsNew :
      (config : Config) (s : Caches) → new_caches config ≡ ok (some s) → IsNew config s
  new_caches-IsNew config s built = elim (new_caches-cases config) [
    | inl (sized, (t, made, new)) ↦ subst (λ c. IsNew config c) (cc) new
    | inr (zero_size, failed) ↦ absurd (cc)
  ]
