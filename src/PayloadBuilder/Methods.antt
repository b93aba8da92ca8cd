-- ===== src/PayloadBuilder/Methods.antt =====
-- src/payload_builder.rs: the methods. Each holds the builder's lock from its first read to its
-- end, so it is one atomic step.
use mathlib.Core.Option
use eleel.Common.{
  ℕ, ◌+◌, ◌%◌, ◌^◌, String, ◌+s◌, decimal, Option, none, some, Result, ok, err, map_ok,
  if◌then◌else◌,
}
use eleel.External.Lru.{Lru}
use eleel.External.Primitives.{Primitives}
use eleel.External.Lighthouse.{Lighthouse}
use eleel.Types.{
  StatusV1, PayloadId, ExecutionPayload, fields, Request, Response, ErrorResponse, parse_as,
  new_response, unknown_payload,
}
use eleel.BaseFee.{expected_base_fee_per_gas}
use eleel.Multiplexer.{Settings, PayloadInfo, PayloadBuilder, Caches}
use eleel.Prog.{Prog, ret, locked, update, lift, try, ◌>>=◌}
use eleel.Slot.{timestamp_to_slot}
use eleel.PayloadBuilder.Bytes.{to_be_bytes, from_be_bytes}
use eleel.PayloadBuilder.Build.{
  payload_id_discrete, attributes_key_discrete, payload_fields, payload_for_fork, seal,
  payload_info_of, payload_response, is_rejected,
}

module _ ⦃p : Primitives⦄ ⦃lru : Lru⦄ ⦃x : Lighthouse⦄ where
  open p use {BlockHash, Hash256, PayloadAttributes}

  -- The end of `register_attributes`: the payload is stored under a new id.
  unfoldable pub store_payload :
      BlockHash × PayloadAttributes → ExecutionPayload → PayloadBuilder → PayloadId × PayloadBuilder
  store_payload attributes_key payload builder =
      let id = to_be_bytes builder.next_payload_id in
      (
        id,
        record builder {
          payload_attributes =
              lru.put attributes_key_discrete attributes_key id builder.payload_attributes;
          payloads = lru.put payload_id_discrete id payload builder.payloads;
          next_payload_id = (builder.next_payload_id + 1) % 2 ^ 64;
        },
      )

  -- From the known parent on; the outer `none` is a panic of the base fee.
  unfoldable pub build_payload :
      Settings
      → (slot : ℕ) → BlockHash
      → PayloadAttributes
      → PayloadInfo
      → PayloadBuilder
      → Option (Result ExecutionPayload String)
  build_payload self slot parent_hash attributes parent_info builder =
      let fork_name = self.spec.fork_name_at_slot slot in
      Option.map
        (λ base_fee_per_gas. map_ok (seal fork_name (p.parent_beacon_block_root attributes)) (
          payload_for_fork fork_name
            (payload_fields parent_hash attributes parent_info builder.extra_data base_fee_per_gas)
            (p.withdrawals attributes)))
        (expected_base_fee_per_gas x.uint256 parent_info.base_fee_per_gas parent_info.gas_used
          parent_info.gas_limit)

  unfoldable pub finish :
      BlockHash × PayloadAttributes
      → Option (Result ExecutionPayload String)
      → PayloadBuilder
      → Option (Result PayloadId String) × PayloadBuilder
  finish key none builder = (none, builder)
  finish key (some (err message)) builder = (some (err message), builder)
  finish key (some (ok payload)) builder =
      let (id, builder') = store_payload key payload builder in (some (ok id), builder')

  -- `register_attributes` under the lock. The reads promote what they find.
  unfoldable pub register_locked :
      Settings
      → (slot : ℕ) → BlockHash
      → PayloadAttributes
      → PayloadBuilder
      → Option (Result PayloadId String) × PayloadBuilder
  register_locked self slot parent_hash attributes builder =
      let key : BlockHash × PayloadAttributes = (parent_hash, attributes) in
      let (known, attributes') = lru.get attributes_key_discrete key builder.payload_attributes in
      let seen : PayloadBuilder = record builder { payload_attributes = attributes' } in
      elim known [
        | some id ↦ (some (ok id), seen)
        | none ↦
            let (parent, info') = lru.get p.block_hash_discrete parent_hash seen.payload_info in
            let read : PayloadBuilder = record seen { payload_info = info' } in
            elim parent [
              | none ↦ (some (err ("unknown parent: " +s p.debug_block_hash parent_hash)), read)
              | some parent_info ↦
                  finish key (build_payload self slot parent_hash attributes parent_info read) read
            ]
      ]

  abbrev pub on_builder : {A : Type 0} → (PayloadBuilder → A × PayloadBuilder) → Caches → A × Caches
  on_builder f s =
      let (a, builder) = f s.payload_builder in (a, record s { payload_builder = builder })

  unfoldable pub register_attributes :
      Settings → BlockHash → PayloadAttributes → Prog (Result PayloadId String)
  register_attributes self parent_hash attributes =
      elim (timestamp_to_slot self (p.timestamp attributes)) [
        | none ↦ ret (err ("invalid timestamp " +s decimal (p.timestamp attributes)))
        | some slot ↦ do
          result ← locked (on_builder (register_locked self slot parent_hash attributes))
          lift result
      ]

  unfoldable pub get_id_locked :
      BlockHash → PayloadAttributes → PayloadBuilder → Result PayloadId String × PayloadBuilder
  get_id_locked parent_hash attributes builder =
      let (found, attributes') =
        lru.get attributes_key_discrete (parent_hash, attributes) builder.payload_attributes in
      (
        elim found [
          | some id ↦ ok id
          | none ↦ err ("no payload ID known for parent " +s p.debug_block_hash parent_hash)
        ],
        record builder { payload_attributes = attributes' },
      )

  unfoldable pub get_existing_payload_id :
      BlockHash → PayloadAttributes → Prog (Result PayloadId String)
  get_existing_payload_id parent_hash attributes =
      locked (on_builder (get_id_locked parent_hash attributes))

  unfoldable pub track_payload : ExecutionPayload → PayloadBuilder → PayloadBuilder
  track_payload payload builder = record builder {
    payload_info =
        lru.get_or_insert p.block_hash_discrete (fields payload).block_hash
          (payload_info_of payload) builder.payload_info;
  }

  unfoldable pub register_canonical_payload : ExecutionPayload → StatusV1 → Prog (Unit {0})
  register_canonical_payload payload status =
      if is_rejected status
      then ret tt
      else update (λ s. record s { payload_builder = track_payload payload s.payload_builder })

  unfoldable pub get_payload_locked :
      PayloadId → PayloadBuilder → Result ExecutionPayload String × PayloadBuilder
  get_payload_locked payload_id builder =
      let (found, payloads') = lru.get payload_id_discrete payload_id builder.payloads in
      (
        elim found [
          | some payload ↦ ok payload
          | none ↦ err ("unknown payload ID: " +s decimal (from_be_bytes payload_id))
        ],
        record builder { payloads = payloads' },
      )

  unfoldable pub get_payload : PayloadId → Prog (Result ExecutionPayload String)
  get_payload payload_id = locked (on_builder (get_payload_locked payload_id))

  unfoldable pub handle_get_payload : Request → Prog (Result Response ErrorResponse)
  handle_get_payload request = try (parse_as x.serde.decode_payload_id request) λ (id, payload_id).
      do
        found ← get_payload payload_id
        elim found [
          | err message ↦ ret (err (unknown_payload id message))
          | ok payload ↦ do
            response ← lift (payload_response (x.to_json_payload payload))
            ret (new_response x.serde.encode_payload_response id response)
        ]
