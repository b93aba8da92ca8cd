-- ===== src/Effects/Builder.antt =====
-- src/payload_builder.rs: what a registration leaves of the capacities, and that it stores no payload
-- of Fulu.
use eleel.Common.{
  ℕ, ◌≢◌, subst, find, ◌∙◌, ◌≡◌, refl, inl, inr, String, Option, none, some, Option-cases, Result,
  ok, err,
}
use eleel.External.Lru.{Lru}
use eleel.External.Primitives.{Primitives}
use eleel.External.Lighthouse.{Lighthouse}
use eleel.Types.{ExecutionPayload, PayloadId, payload_version, v5}
use eleel.Effects.Contents.{find-insert-some}
use eleel.Multiplexer.{Settings, PayloadBuilder}
use eleel.PayloadBuilder.Build.{attributes_key_discrete, payload_id_discrete}
use eleel.PayloadBuilder.Methods.{store_payload, finish, register_locked}
use eleel.PayloadBuilder.Shape.{build_payload-version}

module _ ⦃p : Primitives⦄ ⦃lru : Lru⦄ ⦃x : Lighthouse⦄ where
  -- The capacities of the payload builder's caches.
  abbrev pub builder_capacities : PayloadBuilder → ℕ × ℕ × ℕ
  builder_capacities b = (lru.cap b.payload_attributes, lru.cap b.payload_info, lru.cap b.payloads)

  finish-capacities :
      (key : p.BlockHash × p.PayloadAttributes) (o : Option (Result ExecutionPayload String))
      (builder : PayloadBuilder)
      → builder_capacities (finish key o builder).1 ≡ builder_capacities builder
  unfolding finish store_payload
  finish-capacities key none builder = refl
  finish-capacities key (some (err message)) builder = refl
  finish-capacities key (some (ok new)) builder =
      rw
        (
          lru.cap-put attributes_key_discrete key _ builder.payload_attributes,
          lru.cap-put payload_id_discrete _ new builder.payloads,
        )
        refl

  pub register_locked-capacities :
      (self : Settings) (slot : ℕ) (parent : p.BlockHash) (attributes : p.PayloadAttributes)
      (builder : PayloadBuilder)
      → builder_capacities (register_locked self slot parent attributes builder).1
        ≡ builder_capacities builder
  unfolding register_locked
  register_locked-capacities self slot parent attributes builder =
      let key : p.BlockHash × p.PayloadAttributes = (parent, attributes) in
      let ids = lru.cap-get attributes_key_discrete key builder.payload_attributes in
      let infos = lru.cap-get p.block_hash_discrete parent builder.payload_info in
      elim (Option-cases (lru.get attributes_key_discrete key builder.payload_attributes).0) [
        | inr (id, e) ↦ rw (e, register_locked) (rw ids refl)
        | inl e ↦
            elim (Option-cases (lru.get p.block_hash_discrete parent builder.payload_info).0) [
              | inl g ↦ rw (e, g, register_locked) (rw (ids, infos) refl)
              | inr (info, g) ↦
                  rw (e, g, register_locked) (finish-capacities key _ _ ∙ rw (ids, infos) refl)
            ]
      ]

  -- No payload of the builder is Fulu's.
  abbrev pub Servable : PayloadBuilder → Type 0
  Servable b =
      (id : PayloadId) (stored : ExecutionPayload)
      → find payload_id_discrete id (lru.iter b.payloads) ≡ some stored
      → payload_version stored ≢ v5

  finish-Servable :
      (key : p.BlockHash × p.PayloadAttributes) (o : Option (Result ExecutionPayload String))
      (builder : PayloadBuilder)
      → ((new : ExecutionPayload) → o ≡ some (ok new) → payload_version new ≢ v5)
      → Servable builder
      → Servable (finish key o builder).1
  unfolding finish store_payload
  finish-Servable key none builder fine h = h
  finish-Servable key (some (err message)) builder fine h = h
  finish-Servable key (some (ok new)) builder fine h = λ id stored e.
      elim (find-insert-some payload_id_discrete _ _ id new stored (lru.iter builder.payloads)
        (rw (lru.iter-put) at e)) [
          | inl (_, same) ↦ subst (λ w. payload_version w ≢ v5) same (fine new refl)
          | inr (_, before) ↦ h id stored before
        ]

  pub register_locked-Servable :
      (self : Settings) (slot : ℕ) (parent : p.BlockHash) (attributes : p.PayloadAttributes)
      (builder : PayloadBuilder)
      → Servable builder
      → Servable (register_locked self slot parent attributes builder).1
  unfolding register_locked
  register_locked-Servable self slot parent attributes builder h =
      let key : p.BlockHash × p.PayloadAttributes = (parent, attributes) in
      elim (Option-cases (lru.get attributes_key_discrete key builder.payload_attributes).0) [
        | inr (id, e) ↦ rw (e, register_locked) h
        | inl e ↦
            elim (Option-cases (lru.get p.block_hash_discrete parent builder.payload_info).0) [
              | inl g ↦ rw (e, g, register_locked) h
              | inr (info, g) ↦
                  rw (e, g, register_locked)
                    (finish-Servable key _ _
                      (λ new built.
                        build_payload-version self slot parent attributes info _ new built)
                      h)
            ]
      ]
