-- ===== src/PayloadBuilder/Panics.antt =====
-- src/payload_builder.rs, `register_attributes`: exactly when it panics.
use mathlib.Core.Option
use eleel.Common.{
  ℕ, ◌<◌, ◌≡◌, refl, sym, ap, ◌∙◌, inl, inr, ◌↔◌, String, Option, none, some, Option-cases, Result,
  ok, err, find,
}
use eleel.BaseFee.Reference.{expected-eq-none_iff}
use eleel.External.Lru.{Lru}
use eleel.External.Primitives.{Primitives}
use eleel.External.Lighthouse.{Lighthouse}
use eleel.Types.{ExecutionPayload, PayloadId}
use eleel.Multiplexer.{Settings, PayloadInfo, PayloadBuilder}
use eleel.PayloadBuilder.Build.{attributes_key_discrete}
use eleel.PayloadBuilder.Methods.{build_payload, finish, register_locked}
use eleel.PayloadBuilder.Registers.{register_known, register_orphan, register_built}

module _ ⦃p : Primitives⦄ ⦃lru : Lru⦄ ⦃x : Lighthouse⦄ where
  finish-none :
      (key : p.BlockHash × p.PayloadAttributes) (o : Option (Result ExecutionPayload String))
      (builder : PayloadBuilder)
      → ((finish key o builder).0 ≡ none) ↔ (o ≡ none)
  unfolding finish
  finish-none key none builder = (λ e. refl, λ e. refl)
  finish-none key (some (err message)) builder = (λ e. absurd (cc), λ e. absurd (cc))
  finish-none key (some (ok new)) builder = (λ e. absurd (cc), λ e. absurd (cc))

  module _ (self : Settings) (slot : ℕ) (parent : p.BlockHash) (attributes : p.PayloadAttributes)
      (builder : PayloadBuilder) where
    -- A new payload is asked for on a parent for which there is no base fee.
    pub record HasNoFee : Type 0 where
      pub info : PayloadInfo
      pub unknown :
          find attributes_key_discrete (parent, attributes) (lru.iter builder.payload_attributes)
          ≡ none
      pub known_parent :
          find p.block_hash_discrete parent (lru.iter builder.payload_info) ≡ some info
      pub limit : info.gas_limit < 2
      pub used : 0 < info.gas_used

    build_payload-none :
        (info : PayloadInfo) (b : PayloadBuilder)
        → (build_payload self slot parent attributes info b ≡ none)
          ↔ ((info.gas_limit < 2) × (0 < info.gas_used))
    unfolding build_payload
    build_payload-none info b =
        let (there, back) =
          expected-eq-none_iff x.uint256 info.base_fee_per_gas info.gas_used info.gas_limit in
        (
          λ e. there ((Option.map-eq-none_iff _ _).0 e),
          λ h. (Option.map-eq-none_iff _ _).1 (back h),
        )

    abbrev ids : Option PayloadId
    ids = find attributes_key_discrete (parent, attributes) (lru.iter builder.payload_attributes)

    abbrev infos : Option PayloadInfo
    infos = find p.block_hash_discrete parent (lru.iter builder.payload_info)

    -- A registration of new attributes on a known parent panics just if it has no base fee.
    built-none :
        (info : PayloadInfo)
        → ids ≡ none
        → infos ≡ some info
        → ((register_locked self slot parent attributes builder).0 ≡ none)
          ↔ ((info.gas_limit < 2) × (0 < info.gas_used))
    built-none info unknown known =
        let as_built =
          ap (λ r. r.0)
            (register_built self slot parent attributes builder info
              (lru.get_value attributes_key_discrete (parent, attributes) builder.payload_attributes
                ∙ unknown)
              (lru.get_value p.block_hash_discrete parent builder.payload_info ∙ known)) in
        let (there, back) = finish-none (parent, attributes) _ _ in
        let (down, up) = build_payload-none info _ in
        (λ e. down (there (sym as_built ∙ e)), λ h. as_built ∙ back (up h))

    -- A registration panics if and only if the attributes have no id yet, the parent is known, and
    -- the parent's gas limit is below two while it used gas.
    pub register_locked-eq-none_iff :
        ((register_locked self slot parent attributes builder).0 ≡ none) ↔ HasNoFee
    register_locked-eq-none_iff = (only_if, if_so)
      where
        only_if : (register_locked self slot parent attributes builder).0 ≡ none → HasNoFee
        only_if e = elim (Option-cases ids) [
          | inr (id, known) ↦ absurd (
              cc (
                ap (λ r. r.0)
                    (register_known self slot parent attributes builder id (
                      lru.get_value attributes_key_discrete (parent, attributes)
                        builder.payload_attributes
                      ∙ known)),
                e,
              ))
          | inl unknown ↦ elim (Option-cases infos) [
            | inl orphan ↦ absurd (
                cc (
                  ap (λ r. r.0)
                      (register_orphan self slot parent attributes builder
                        (lru.get_value attributes_key_discrete (parent, attributes)
                            builder.payload_attributes
                          ∙ unknown)
                        (lru.get_value p.block_hash_discrete parent builder.payload_info ∙ orphan)),
                  e,
                ))
            | inr (info, known) ↦
                let (limit, used) = (built-none info unknown known).0 e in
                record {
                  info = info;
                  unknown = unknown;
                  known_parent = known;
                  limit = limit;
                  used = used;
                }
          ]
        ]

        if_so : HasNoFee → (register_locked self slot parent attributes builder).0 ≡ none
        if_so h = (built-none h.info h.unknown h.known_parent).1 (h.limit, h.used)
