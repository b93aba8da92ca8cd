-- ===== src/PayloadBuilder/Laws.antt =====
-- src/payload_builder.rs: the payload that `register_attributes` builds.
use mathlib.Core.Option
use eleel.Common.{ℕ, ◌+◌, ◌%◌, ◌^◌, ◌≡◌, refl, ◌∙◌, ap, sym, Option, some, ok, arith}
use eleel.Common.Outcome.{map_ok-eq-ok}
use eleel.External.Lru.{Lru}
use eleel.External.Primitives.{Primitives}
use eleel.External.Lighthouse.{Lighthouse}
use eleel.Types.{
  ForkName, bellatrix_fork, capella_fork, deneb_fork, electra_fork, PayloadFields, ExecutionPayload,
  bellatrix, capella, deneb, electra, fulu, fields, set_block_hash,
}
use eleel.BaseFee.{expected_base_fee_per_gas}
use eleel.Multiplexer.{Settings, PayloadInfo, PayloadBuilder}
use eleel.PayloadBuilder.Build.{payload_fields, payload_for_fork, seal}
use eleel.PayloadBuilder.Methods.{build_payload}

module _ ⦃p : Primitives⦄ where
  pub fields-set_block_hash :
      (h : p.BlockHash) (payload : ExecutionPayload)
      → fields (set_block_hash h payload) ≡ record (fields payload) { block_hash = h }
  fields-set_block_hash h (bellatrix f) = refl
  fields-set_block_hash h (capella f w) = refl
  fields-set_block_hash h (deneb f w b e) = refl
  fields-set_block_hash h (electra f w b e) = refl
  fields-set_block_hash h (fulu f r) = refl

module _ ⦃p : Primitives⦄ ⦃x : Lighthouse⦄ where
  pub fields-payload_for_fork :
      (fork : ForkName) (f : PayloadFields) (w : Option p.Withdrawals) (payload : ExecutionPayload)
      → payload_for_fork fork f w ≡ ok payload
      → fields payload ≡ f
  unfolding payload_for_fork
  fields-payload_for_fork bellatrix_fork f w payload e = ground arith
  fields-payload_for_fork capella_fork f (some w) payload e = ground arith
  fields-payload_for_fork deneb_fork f (some w) payload e = ground arith
  fields-payload_for_fork electra_fork f (some w) payload e = ground arith
  fields-payload_for_fork _ f w payload e = absurd (ground arith)

  module _ ⦃lru : Lru⦄ where
    pub build_payload-eq-ok :
        (self : Settings) (slot : ℕ) (parent_hash : p.BlockHash) (attributes : p.PayloadAttributes)
        (parent_info : PayloadInfo) (builder : PayloadBuilder) (payload : ExecutionPayload)
        → build_payload self slot parent_hash attributes parent_info builder ≡ some (ok payload)
        → (fee : ℕ) × (unsealed : ExecutionPayload) × (expected_base_fee_per_gas x.uint256
              parent_info.base_fee_per_gas parent_info.gas_used parent_info.gas_limit
            ≡ some fee)
          × (payload_for_fork
                (self.spec.fork_name_at_slot slot)
                (payload_fields parent_hash attributes parent_info builder.extra_data fee)
                (p.withdrawals attributes)
              ≡ ok unsealed)
          × (payload
              ≡ seal
                  (self.spec.fork_name_at_slot slot)
                  (p.parent_beacon_block_root attributes)
                  unsealed)
    unfolding build_payload
    build_payload-eq-ok self slot parent_hash attributes parent_info builder payload e =
        let (fee, charged, built) = (Option.map-eq-some_iff _ _).0 e in
        let (unsealed, chosen, same) = map_ok-eq-ok _ _ built in
        (fee, unsealed, charged, chosen, sym same)

    -- The payload's fields are those of the parent and the attributes, but for the hash.
    pub build_payload-fields :
        (self : Settings) (slot : ℕ) (parent_hash : p.BlockHash) (attributes : p.PayloadAttributes)
        (parent_info : PayloadInfo) (builder : PayloadBuilder) (payload : ExecutionPayload)
        → build_payload self slot parent_hash attributes parent_info builder ≡ some (ok payload)
        → ((fields payload).parent_hash ≡ parent_hash)
          × ((fields payload).block_number ≡ (parent_info.block_number + 1) % 2 ^ 64)
    unfolding seal payload_fields
    build_payload-fields self slot parent_hash attributes parent_info builder payload e =
        let (fee, unsealed, charged, chosen, same) =
          build_payload-eq-ok self slot parent_hash attributes parent_info builder payload e in
        let inner = fields-payload_for_fork _ _ _ unsealed chosen in
        let outer = ap fields same ∙ fields-set_block_hash _ unsealed in
        (
          ap (λ f. f.parent_hash) outer ∙ ap (λ f. f.parent_hash) inner,
          ap (λ f. f.block_number) outer ∙ ap (λ f. f.block_number) inner,
        )
