-- ===== src/PayloadBuilder/Build.antt =====
-- src/payload_builder.rs, the parts of `register_attributes` and `handle_get_payload` that touch
-- no cache: the fields of the dummy payload, its variant by fork, its hash, and the response.
use eleel.Common.{
  ℕ, ◌+◌, ◌%◌, ◌^◌, String, ◌+s◌, Option, none, some, Result, ok, err, map_ok, Bool, true, false,
  ite, ℕ_discrete,
}
use eleel.External.Primitives.{Primitives}
use eleel.External.Lighthouse.{Lighthouse}
use eleel.Types.{
  StatusV1, status_discrete, invalid, invalid_block_hash, ForkName, base, altair, bellatrix_fork,
  capella_fork, deneb_fork, electra_fork, fulu_fork, PayloadId, PayloadFields, ExecutionPayload,
  bellatrix, capella, deneb, electra, fields, set_block_hash, JsonExecutionPayload, json_v1,
  json_v2, json_v3, json_v4, json_v5, GetPayloadResponse, get_v1, get_v2, get_v3, get_v4,
}
use eleel.Multiplexer.{PayloadInfo}

unfoldable pub payload_id_discrete : Discrete PayloadId
payload_id_discrete = hlevel ℕ_discrete

-- `status == Invalid || status == InvalidBlockHash`
unfoldable pub is_rejected : StatusV1 → Bool
unfolding status_discrete
is_rejected status =
    ite (status_discrete status invalid) true
      (ite (status_discrete status invalid_block_hash) true false)

module _ ⦃p : Primitives⦄ where
  open p use {BlockHash, Hash256, Withdrawals, PayloadAttributes, ExecutionRequests, ExtraData}

  unfoldable pub attributes_key_discrete : Discrete (BlockHash × PayloadAttributes)
  attributes_key_discrete = hlevel (p.block_hash_discrete, p.attributes_discrete)

  -- The fields that every fork's payload has. `parent_info.block_number + 1` wraps at 2 ^ 64.
  unfoldable pub payload_fields :
      BlockHash
      → PayloadAttributes
      → PayloadInfo
      → ExtraData
      → (base_fee_per_gas : ℕ) → PayloadFields
  payload_fields parent_hash attributes parent_info extra_data base_fee_per_gas = record {
    parent_hash = parent_hash;
    fee_recipient = p.suggested_fee_recipient attributes;
    state_root = parent_info.state_root;
    receipts_root = p.keccak_empty_list_rlp;
    logs_bloom = p.default_logs_bloom;
    prev_randao = p.prev_randao attributes;
    block_number = (parent_info.block_number + 1) % 2 ^ 64;
    gas_limit = 30_000_000;
    gas_used = 0;
    timestamp = p.timestamp attributes;
    extra_data = extra_data;
    base_fee_per_gas = base_fee_per_gas;
    block_hash = p.zero_block_hash;
    transactions = p.no_transactions;
  }

  unfoldable pub require_withdrawals : Option Withdrawals → Result Withdrawals String
  require_withdrawals none = err "no withdrawals"
  require_withdrawals (some w) = ok w

  unfoldable pub requests_for_fork : ForkName → Option ExecutionRequests
  requests_for_fork electra_fork = some p.default_execution_requests
  requests_for_fork _ = none

  unfoldable pub payload_info_of : ExecutionPayload → PayloadInfo
  payload_info_of payload = record {
    block_number = (fields payload).block_number;
    state_root = (fields payload).state_root;
    base_fee_per_gas = (fields payload).base_fee_per_gas;
    gas_used = (fields payload).gas_used;
    gas_limit = (fields payload).gas_limit;
  }

  -- The match of `handle_get_payload`; `none` is its panic.
  unfoldable pub payload_response : JsonExecutionPayload → Option GetPayloadResponse
  payload_response (json_v1 j) = some (get_v1 j 0)
  payload_response (json_v2 j) = some (get_v2 j 0)
  payload_response (json_v3 j) = some (get_v3 j 0 p.default_blobs_bundle false)
  payload_response (json_v4 j) =
      some (get_v4 j 0 p.default_blobs_bundle false p.default_json_execution_requests)
  payload_response (json_v5 j) = none

module _ ⦃p : Primitives⦄ ⦃x : Lighthouse⦄ where
  open p use {Hash256, Withdrawals}

  -- The match on the fork's name.
  unfoldable pub payload_for_fork :
      ForkName → PayloadFields → Option Withdrawals → Result ExecutionPayload String
  unfolding require_withdrawals
  payload_for_fork bellatrix_fork f w = ok (bellatrix f)
  payload_for_fork capella_fork f w = map_ok (λ w. capella f w) (require_withdrawals w)
  payload_for_fork deneb_fork f w = map_ok (λ w. deneb f w 0 0) (require_withdrawals w)
  payload_for_fork electra_fork f w = map_ok (λ w. electra f w 0 0) (require_withdrawals w)
  payload_for_fork fulu_fork f w = err "Fulu not supported"
  payload_for_fork base f w = err ("invalid fork: " +s x.display_fork_name base)
  payload_for_fork altair f w = err ("invalid fork: " +s x.display_fork_name altair)

  -- `*payload.block_hash_mut() = calculate_execution_block_hash(…)`
  unfoldable pub seal : ForkName → Option Hash256 → ExecutionPayload → ExecutionPayload
  unfolding requests_for_fork
  seal fork_name parent_beacon_block_root payload =
      set_block_hash
        (x.calculate_execution_block_hash payload parent_beacon_block_root
          (requests_for_fork fork_name))
        payload
