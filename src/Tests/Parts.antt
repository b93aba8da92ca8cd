-- ===== src/Tests/Parts.antt =====
-- The theorems on the parts, at concrete inputs.
use mathlib.Core.List.{Memᴰ}
use eleel.Common.{
  sym, ◌∙◌, inr, Bool-cases, str_eq, List, String, ◌≢◌, eq_iff, ℕ, ◌+◌, ◌*◌, ◌≤◌, ◌<◌, ◌≡◌, ◌↔◌,
  ◌⊎◌, refl, [], ◌∷◌, All, none, some, ok, err, true, inl, arith, ℕ_discrete,
}
use eleel.BaseFee.{expected_base_fee_per_gas}
use eleel.BaseFee.Reference.{IsInRange, expected-IsInRange, expected_mono}
use eleel.Jwt.{
  load, load_from, insert, KeyCollection, verify, verify_single_token, claimed_secret, lookup,
  verify_any,
}
use eleel.Jwt.Order.{Accepts, load-Accepts, verify-eq-ok_iff}
use eleel.Jwt.Loads.{IsDecoded, load-lookup}
use eleel.Jwt.Accepts.{IsSignedBy, verify-IsSignedBy, verify_of_unnamed}
use eleel.Multiplexer.{Caches, PayloadInfo, PayloadBuilder, new_caches}
use eleel.Multiplexer.Capacities.{IsSized, IsNew, new_caches-cases}
use eleel.NewPayload.Handlers.{is_recent_payload}
use eleel.NewPayload.Recent.{AtMost, is_recent_payload_iff}
use eleel.PayloadBuilder.Build.{
  payload_fields, require_withdrawals, payload_for_fork, requests_for_fork, seal,
}
use eleel.PayloadBuilder.Bytes.{to_be_bytes}
use eleel.PayloadBuilder.Methods.{build_payload, store_payload, finish, register_locked}
use eleel.PayloadBuilder.Registers.{Registered, register_locked-Registered}
use eleel.PayloadBuilder.Shape.{IsBuilt, build_payload-IsBuilt}
use eleel.Prog.Run.{run}
use eleel.Slot.{timestamp_to_slot}
use eleel.Slot.Bounds.{timestamp_to_slot-bounds}
use eleel.Types.{deneb, PayloadFields}
use eleel.Tests.Runs.{config, settings, caches, engine}
use eleel.Tests.Sample.{exact_uint256, sample_primitives, sample_lighthouse, sample_jwt}
use eleel.Tests.SampleLru.{sample_lru}

expected-IsInRange_example :
    (fee : ℕ) × (expected_base_fee_per_gas exact_uint256 1000 20 20 ≡ some fee)
    × IsInRange 1000 20 10 fee
expected-IsInRange_example =
    expected-IsInRange exact_uint256 1000 20 20 (omega arith) (omega arith) (omega arith)
      (omega arith) (omega arith)

expected_mono_example :
    (fee higher : ℕ) × (expected_base_fee_per_gas exact_uint256 1000 5 20 ≡ some fee)
    × (expected_base_fee_per_gas exact_uint256 1000 15 20 ≡ some higher)
    × (fee ≤ higher)
expected_mono_example =
    expected_mono exact_uint256 1000 5 15 20 (omega arith) (omega arith) (omega arith) (omega arith)
      (omega arith)

slot_of_125 : timestamp_to_slot settings 125 ≡ some 2
unfolding timestamp_to_slot
slot_of_125 = refl

timestamp_to_slot-bounds_example : (100 + 2 * 12 ≤ 125) × (125 < 100 + (2 + 1) * 12)
timestamp_to_slot-bounds_example = timestamp_to_slot-bounds settings 125 2 slot_of_125

is_recent_payload_iff_example :
    (run (engine 0) 0 caches (is_recent_payload settings 7) ≡ inl (true, caches, 0))
    ↔ All (AtMost (7 + 2)) []
is_recent_payload_iff_example = is_recent_payload_iff (engine 0) 0 settings 7 caches

new_caches-cases_example :
    (IsSized config × ((s : Caches) × (new_caches config ≡ ok (some s)) × IsNew config s))
    ⊎ ((IsSized config → ⊥) × (new_caches config ≡ err "invalid cache size"))
new_caches-cases_example = new_caches-cases config

-- Secrets: the token `t` holds for the secret `t`, and claims the id `a`.
abbrev keys : KeyCollection
keys = record { secrets = ("b", "t") ∷ ("c", "u") ∷ [] }

-- The token `u` claims the id `a`, and holds for the secret of `b` alone.
abbrev two_named : KeyCollection
two_named = record { secrets = ("a", "t") ∷ ("b", "u") ∷ [] }

accepted : verify keys "u" ≡ ok tt
unfolding verify claimed_secret lookup verify_any verify_single_token
accepted = refl

no_claim : claimed_secret keys "u" ≡ none
unfolding claimed_secret lookup
no_claim = refl

verify-IsSignedBy_example : IsSignedBy keys "u" tt
verify-IsSignedBy_example = verify-IsSignedBy keys "u" tt accepted

verify_of_unnamed_example : (v : Unit {0}) × (verify keys "u" ≡ ok v)
verify_of_unnamed_example =
    verify_of_unnamed keys "u" "u" tt refl no_claim (verify-IsSignedBy keys "u" tt accepted)

verify-eq-ok_iff_example :
    (verify two_named "u" ≡ ok tt) ↔ (sample_jwt.verify_with_key "u" "t" ≡ ok tt)
verify-eq-ok_iff_example =
    verify-eq-ok_iff two_named "u" "a" "u" "t" tt ((other_id, tt), (tt, tt)) refl refl
      (Memᴰ.head refl)
  where
    other_id : ◌≢◌ {A = String} "b" "a"
    other_id e = cc ((eq_iff "b" "a").1 e)

-- A builder that knows the block 5.
abbrev parent : PayloadInfo
parent = record {
  block_number = 6;
  state_root = 1;
  base_fee_per_gas = 7;
  gas_used = 10;
  gas_limit = 20;
}

abbrev builder : PayloadBuilder
builder = record {
  next_payload_id = 0;
  payload_attributes = (4, []);
  payload_info = (4, (5, parent) ∷ []);
  payloads = (4, []);
  extra_data = 69 ∷ [];
}

abbrev built_fields : PayloadFields
built_fields = record {
  parent_hash = 5;
  fee_recipient = 0;
  state_root = 1;
  receipts_root = 0;
  logs_bloom = tt;
  prev_randao = 0;
  block_number = 7;
  gas_limit = 30000000;
  gas_used = 0;
  timestamp = 112;
  extra_data = 69 ∷ [];
  base_fee_per_gas = 7;
  block_hash = 1007;
  transactions = tt;
}

is_built : build_payload settings 1 5 112 parent builder ≡ some (ok (deneb built_fields 0 0 0))
unfolding build_payload payload_for_fork require_withdrawals seal requests_for_fork payload_fields
    expected_base_fee_per_gas
is_built = refl

build_payload-IsBuilt_example : IsBuilt settings 1 5 112 parent builder (deneb built_fields 0 0 0)
build_payload-IsBuilt_example =
    build_payload-IsBuilt settings 1 5 112 parent builder (deneb built_fields 0 0 0) is_built

abbrev registered_builder : PayloadBuilder
registered_builder = record {
  next_payload_id = 1;
  payload_attributes = (4, ((5, 112), 0 ∷ 0 ∷ 0 ∷ 0 ∷ 0 ∷ 0 ∷ 0 ∷ 0 ∷ []) ∷ []);
  payload_info = (4, (5, parent) ∷ []);
  payloads = (4, (0 ∷ 0 ∷ 0 ∷ 0 ∷ 0 ∷ 0 ∷ 0 ∷ 0 ∷ [], deneb built_fields 0 0 0) ∷ []);
  extra_data = 69 ∷ [];
}

is_registered :
    register_locked settings 1 5 112 builder
    ≡ (some (ok (0 ∷ 0 ∷ 0 ∷ 0 ∷ 0 ∷ 0 ∷ 0 ∷ 0 ∷ [])), registered_builder)
unfolding register_locked finish store_payload to_be_bytes build_payload payload_for_fork
    require_withdrawals seal requests_for_fork payload_fields expected_base_fee_per_gas ℕ_discrete
is_registered = refl

register_locked-Registered_example :
    Registered settings 1 5 112 builder (0 ∷ 0 ∷ 0 ∷ 0 ∷ 0 ∷ 0 ∷ 0 ∷ 0 ∷ []) registered_builder
register_locked-Registered_example =
    register_locked-Registered settings 1 5 112 builder _ registered_builder (omega arith)
      (omega arith) is_registered

abbrev loaded : KeyCollection
loaded = record { secrets = ("a", "s") ∷ ("b", "s") ∷ [] }

is_loaded : load (ok (("a", "00") ∷ ("b", "01") ∷ [])) ≡ ok loaded
unfolding load load_from insert
is_loaded = refl

apart : ◌≢◌ {A = String} "b" "a"
apart e = cc ((eq_iff "b" "a").1 e)

load-lookup_example :
    (secret : String) × IsDecoded "00" secret × (lookup "a" loaded.secrets ≡ some secret)
load-lookup_example = load-lookup [] (("b", "01") ∷ []) "a" "00" loaded is_loaded (apart, tt)

abbrev raw : List (String × String)
raw = ("a", "00") ∷ ("b", "01") ∷ []

abbrev reordered : List (String × String)
reordered = ("b", "01") ∷ ("a", "00") ∷ []

same_map : (id : String) → lookup id raw ≡ lookup id reordered
unfolding lookup
same_map id = elim (Bool-cases (str_eq "a" id)) [
  | inr miss ↦ rw (miss, lookup) refl
  | inl hit ↦ elim (Bool-cases (str_eq "b" id)) [
    | inr miss ↦ rw (hit, miss, lookup) refl
    | inl twice ↦ absurd (apart ((eq_iff "b" id).0 twice ∙ sym ((eq_iff "a" id).0 hit)))
  ]
]

load-Accepts_example :
    (keys : KeyCollection) × (load (ok reordered) ≡ ok keys)
    × ((token : String) → Accepts loaded token ↔ Accepts keys token)
load-Accepts_example =
    load-Accepts raw reordered loaded ((apart, tt), (tt, tt)) ((other_apart, tt), (tt, tt)) same_map
      is_loaded
  where
    other_apart : ◌≢◌ {A = String} "a" "b"
    other_apart e = apart (sym e)
