-- ===== src/PayloadBuilder/Shape.antt =====
-- src/payload_builder.rs: the whole shape of the payload that `register_attributes` builds.
use eleel.Common.{ℕ, ◌+◌, ◌%◌, ◌^◌, ◌≡◌, ◌≢◌, refl, ap, ◌∙◌, Option, none, some, ok, subst, arith}
use eleel.Common.Outcome.{ok_inj}
use eleel.External.Lru.{Lru}
use eleel.External.Primitives.{Primitives}
use eleel.External.Lighthouse.{Lighthouse}
use eleel.Types.{
  ForkName, bellatrix_fork, capella_fork, deneb_fork, electra_fork, PayloadFields, ExecutionPayload,
  fields, v5, payload_version, set_block_hash, bellatrix, capella, deneb, electra,
}
use eleel.BaseFee.{expected_base_fee_per_gas}
use eleel.Multiplexer.{Settings, PayloadInfo, PayloadBuilder}
use eleel.PayloadBuilder.Build.{
  payload_fields, payload_for_fork, require_withdrawals, requests_for_fork, seal,
}
use eleel.PayloadBuilder.Laws.{fields-set_block_hash, build_payload-eq-ok}
use eleel.PayloadBuilder.Methods.{build_payload}

module _ ⦃p : Primitives⦄ where
  open p use {BlockHash, Withdrawals, PayloadAttributes, ExtraData, ExecutionRequests}

  -- The payload of a fork, on its fields and the withdrawals that the attributes give. There is none
  -- before the merge, and Fulu is not built.
  pub data IsOfFork (f : PayloadFields)
      : ForkName → Option Withdrawals → ExecutionPayload → Type 0 where
    of_bellatrix : (w : Option Withdrawals) → IsOfFork f bellatrix_fork w (bellatrix f)
    of_capella : (w : Withdrawals) → IsOfFork f capella_fork (some w) (capella f w)
    of_deneb : (w : Withdrawals) → IsOfFork f deneb_fork (some w) (deneb f w 0 0)
    of_electra : (w : Withdrawals) → IsOfFork f electra_fork (some w) (electra f w 0 0)

  -- The fields that a new payload has before it is sealed.
  pub record HasFields (parent : BlockHash) (attributes : PayloadAttributes)
      (parent_info : PayloadInfo) (extra : ExtraData) (fee : ℕ) (f : PayloadFields) : Type 0 where
    pub parent_hash : f.parent_hash ≡ parent
    pub fee_recipient : f.fee_recipient ≡ p.suggested_fee_recipient attributes
    pub state_root : f.state_root ≡ parent_info.state_root
    pub receipts_root : f.receipts_root ≡ p.keccak_empty_list_rlp
    pub logs_bloom : f.logs_bloom ≡ p.default_logs_bloom
    pub prev_randao : f.prev_randao ≡ p.prev_randao attributes
    pub block_number : f.block_number ≡ (parent_info.block_number + 1) % 2 ^ 64
    pub gas_limit : f.gas_limit ≡ 30_000_000
    pub gas_used : f.gas_used ≡ 0
    pub timestamp : f.timestamp ≡ p.timestamp attributes
    pub extra_data : f.extra_data ≡ extra
    pub base_fee_per_gas : f.base_fee_per_gas ≡ fee
    pub block_hash : f.block_hash ≡ p.zero_block_hash
    pub transactions : f.transactions ≡ p.no_transactions

  -- Electra's payloads are hashed with empty execution requests, and the others with none.
  abbrev pub AreRequests : ForkName → Option ExecutionRequests → Type 0
  AreRequests electra_fork requests = requests ≡ some p.default_execution_requests
  AreRequests _ requests = requests ≡ none

  fields_of_fork :
      {f : PayloadFields} {fork : ForkName} {w : Option Withdrawals} {payload : ExecutionPayload}
      → IsOfFork f fork w payload
      → fields payload ≡ f
  fields_of_fork (of_bellatrix w) = refl
  fields_of_fork (of_capella w) = refl
  fields_of_fork (of_deneb w) = refl
  fields_of_fork (of_electra w) = refl

  version_of_fork :
      {f : PayloadFields} {fork : ForkName} {w : Option Withdrawals} {payload : ExecutionPayload}
      → IsOfFork f fork w payload
      → (h : BlockHash) → payload_version (set_block_hash h payload) ≢ v5
  version_of_fork (of_bellatrix w) h e = absurd (cc)
  version_of_fork (of_capella w) h e = absurd (cc)
  version_of_fork (of_deneb w) h e = absurd (cc)
  version_of_fork (of_electra w) h e = absurd (cc)

module _ ⦃p : Primitives⦄ ⦃x : Lighthouse⦄ where
  -- A payload as its fork, its parent and its attributes ask for it: its hash is that of the whole
  -- payload before it was sealed.
  pub record IsBuilt ⦃lru : Lru⦄ (self : Settings) (slot : ℕ) (parent_hash : p.BlockHash)
      (attributes : p.PayloadAttributes) (parent_info : PayloadInfo) (builder : PayloadBuilder)
      (payload : ExecutionPayload) : Type 0 where
    pub fee : ℕ
    pub before : PayloadFields
    pub unsealed : ExecutionPayload
    pub requests : Option p.ExecutionRequests
    pub charged :
        expected_base_fee_per_gas x.uint256 parent_info.base_fee_per_gas parent_info.gas_used
          parent_info.gas_limit
        ≡ some fee
    pub asked : HasFields parent_hash attributes parent_info builder.extra_data fee before
    pub shape :
        IsOfFork before (self.spec.fork_name_at_slot slot) (p.withdrawals attributes) unsealed
    pub hashed_with : AreRequests (self.spec.fork_name_at_slot slot) requests
    pub sealed :
        payload
        ≡ set_block_hash
            (x.calculate_execution_block_hash unsealed
              (p.parent_beacon_block_root attributes)
              requests)
            unsealed

  payload_for_fork-IsOfFork :
      (fork : ForkName) (f : PayloadFields) (w : Option p.Withdrawals) (payload : ExecutionPayload)
      → payload_for_fork fork f w ≡ ok payload
      → IsOfFork f fork w payload
  unfolding payload_for_fork require_withdrawals
  payload_for_fork-IsOfFork bellatrix_fork f w payload e =
      subst (IsOfFork f bellatrix_fork w) (ok_inj e) (of_bellatrix w)
  payload_for_fork-IsOfFork capella_fork f (some w) payload e =
      subst (IsOfFork f capella_fork (some w)) (ok_inj e) (of_capella w)
  payload_for_fork-IsOfFork deneb_fork f (some w) payload e =
      subst (IsOfFork f deneb_fork (some w)) (ok_inj e) (of_deneb w)
  payload_for_fork-IsOfFork electra_fork f (some w) payload e =
      subst (IsOfFork f electra_fork (some w)) (ok_inj e) (of_electra w)
  payload_for_fork-IsOfFork _ f w payload e = absurd (ground arith)

  requests_for_fork-AreRequests : (fork : ForkName) → AreRequests fork (requests_for_fork fork)
  unfolding requests_for_fork
  requests_for_fork-AreRequests electra_fork = refl
  requests_for_fork-AreRequests _ = refl

  payload_fields-HasFields :
      (parent_hash : p.BlockHash) (attributes : p.PayloadAttributes) (parent_info : PayloadInfo)
      (extra_data : p.ExtraData) (fee : ℕ)
      → HasFields parent_hash attributes parent_info extra_data fee
          (payload_fields parent_hash attributes parent_info extra_data fee)
  unfolding payload_fields
  payload_fields-HasFields parent_hash attributes parent_info extra_data fee = record {
    parent_hash = refl;
    fee_recipient = refl;
    state_root = refl;
    receipts_root = refl;
    logs_bloom = refl;
    prev_randao = refl;
    block_number = refl;
    gas_limit = refl;
    gas_used = refl;
    timestamp = refl;
    extra_data = refl;
    base_fee_per_gas = refl;
    block_hash = refl;
    transactions = refl;
  }

  module _ ⦃lru : Lru⦄ (self : Settings) (slot : ℕ) (parent_hash : p.BlockHash)
      (attributes : p.PayloadAttributes) (parent_info : PayloadInfo) (builder : PayloadBuilder)
      (payload : ExecutionPayload) where
    -- A payload that is built is Bellatrix's, Capella's, Deneb's or Electra's as the slot's fork
    -- is, with the withdrawals of the attributes from Capella on and no blob gas from Deneb on. Its
    -- fields are the parent's hash and state root, the attributes' recipient, randomness and
    -- timestamp, the number after the parent's modulo 2 ^ 64, a gas limit of 30000000 of which none
    -- is used, the expected base fee, the builder's extra data, no transactions, and the empty
    -- receipts and bloom. Its hash is the one that is calculated of this whole payload with a zero
    -- hash, with the attributes' beacon root and, for Electra alone, with empty execution requests.
    pub build_payload-IsBuilt :
        build_payload self slot parent_hash attributes parent_info builder ≡ some (ok payload)
        → IsBuilt self slot parent_hash attributes parent_info builder payload
    unfolding seal
    build_payload-IsBuilt e =
        let (fee, unsealed, charged, chosen, same) =
          build_payload-eq-ok self slot parent_hash attributes parent_info builder payload e in
        record {
          fee = fee;
          before = payload_fields parent_hash attributes parent_info builder.extra_data fee;
          unsealed = unsealed;
          requests = requests_for_fork (self.spec.fork_name_at_slot slot);
          charged = charged;
          asked =
              payload_fields-HasFields parent_hash attributes parent_info builder.extra_data fee;
          shape = payload_for_fork-IsOfFork _ _ _ unsealed chosen;
          hashed_with = requests_for_fork-AreRequests (self.spec.fork_name_at_slot slot);
          sealed = same;
        }

    -- The fields of the sealed payload, but for the hash.
    pub IsBuilt-fields :
        (built : IsBuilt self slot parent_hash attributes parent_info builder payload)
        → (h : p.BlockHash) × (fields payload ≡ record built.before { block_hash = h })
    IsBuilt-fields built =
        let h : p.BlockHash =
          x.calculate_execution_block_hash built.unsealed (p.parent_beacon_block_root attributes)
            built.requests in
        (
          h,
          ap fields built.sealed
              ∙ fields-set_block_hash h built.unsealed
              ∙ ap {A = PayloadFields} (λ f. record f { block_hash = h })
                  (fields_of_fork built.shape),
        )

    -- A payload that is built is never Fulu's.
    pub build_payload-version :
        build_payload self slot parent_hash attributes parent_info builder ≡ some (ok payload)
        → payload_version payload ≢ v5
    build_payload-version e =
        let built = build_payload-IsBuilt e in rw built.sealed (version_of_fork built.shape _)
