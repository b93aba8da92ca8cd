-- ===== src/Fcu/Handlers.antt =====
-- src/fcu.rs: the handlers and the cache of fork choice states.
use eleel.Common.{
  ℕ, zero, suc, ◌-◌, String, ◌+s◌, str_eq, ltb, Option, none, some, List, [], ◌∷◌, Result, ok, err,
  map_err, map_ok, Bool, true, false, not, decide, ◌&&◌, ◌||◌, ite, if◌then◌else◌,
}
use eleel.External.Lru.{Lru}
use eleel.External.Primitives.{Primitives}
use eleel.External.Lighthouse.{Lighthouse}
use eleel.Config.{FcuMatching, exact, loose, head_only}
use eleel.Types.{
  JsonForkchoiceStateV1, forkchoice_state, forkchoice_state_discrete, JsonPayloadStatusV1,
  JsonPayloadAttributes, attributes_v2, attributes_v3, StatusV1, status_discrete, valid, PayloadId,
  Request, Response, ErrorResponse, parse_as, new_response, parse_error_generic, invalid_request,
  invalid_payload_attributes,
}
use eleel.Fcu.Status.{is_definite, syncing_status}
use eleel.Multiplexer.{Settings, Caches}
use eleel.NewPayload.Handlers.{rounds}
use eleel.PayloadBuilder.Methods.{register_attributes, get_existing_payload_id}
use eleel.Prog.{
  Prog, ret, fault, out_of_rounds, now, sleep, notify_forkchoice_updated, locked, update, call, try,
  ◌>>=◌, ◌>>◌,
}

module _ ⦃p : Primitives⦄ ⦃lru : Lru⦄ where
  open p use {BlockHash, Json}

  -- `iter().find_map(…)`: the most recently used entry with the head.
  unfoldable pub find_head :
      BlockHash → List (JsonForkchoiceStateV1 × JsonPayloadStatusV1) → Option JsonPayloadStatusV1
  find_head head [] = none
  find_head head ((cached_fcu, status) ∷ l) =
      ite (p.block_hash_discrete cached_fcu.head_block_hash head) (some status) (find_head head l)

  -- The first match of `get_cached_fcu`.
  unfoldable pub existing_status :
      FcuMatching → JsonForkchoiceStateV1 → Caches → Option JsonPayloadStatusV1 × Caches
  existing_status exact fcu s =
      let (found, cache') = lru.get forkchoice_state_discrete fcu s.fcu_cache in
      (found, record s { fcu_cache = cache' })
  existing_status _ fcu s = (find_head fcu.head_block_hash (lru.iter s.fcu_cache), s)

  -- The second match: `Loose` asks for a known justified and a known finalized block.
  unfoldable pub just_and_fin_ok : FcuMatching → JsonForkchoiceStateV1 → Prog Bool
  just_and_fin_ok exact fcu = ret true
  just_and_fin_ok head_only fcu = ret true
  just_and_fin_ok loose fcu = do
    justified ←
        locked
          (λ s. (lru.contains p.block_hash_discrete fcu.safe_block_hash s.justified_block_cache, s))
    elim justified [
      | false ↦ ret false
      | true ↦ locked (λ s.
          (lru.contains p.block_hash_discrete fcu.finalized_block_hash s.finalized_block_cache, s))
    ]

  -- The source keeps the first lock until it returns; here others may come in between the reads.
  unfoldable pub get_cached_fcu :
      Settings → JsonForkchoiceStateV1 → (definite_only : Bool) → Prog (Option JsonPayloadStatusV1)
  get_cached_fcu self fcu definite_only = do
    existing ← locked (existing_status self.config.fcu_matching fcu)
    elim existing [
      | none ↦ ret none
      | some status ↦ do
        known ← just_and_fin_ok self.config.fcu_matching fcu
        ret (if known && (not definite_only || is_definite status) then some status else none)
    ]

  -- The engine's answer goes into the cache unless a definite one is there; says whether it did.
  unfoldable pub store_fcu : JsonForkchoiceStateV1 → JsonPayloadStatusV1 → Caches → Bool × Caches
  store_fcu fcu status s = elim (lru.get_mut forkchoice_state_discrete fcu s.fcu_cache) [
    | none ↦
        (true, record s { fcu_cache = lru.put forkchoice_state_discrete fcu status s.fcu_cache })
    | some (existing, write) ↦
        if is_definite existing
        then (false, record s { fcu_cache = write existing })
        else (true, record s { fcu_cache = write status })
  ]

  unfoldable pub is_valid : StatusV1 → Bool
  unfolding status_discrete
  is_valid status = decide (status_discrete status valid)

  -- The justified and the finalized block of a fork choice state that is valid.
  unfoldable pub note_checkpoints : JsonForkchoiceStateV1 → Prog (Unit {0})
  note_checkpoints fcu = do
    update (λ s. record s {
      justified_block_cache =
          lru.put p.block_hash_discrete fcu.safe_block_hash tt s.justified_block_cache;
    })
    update (λ s. record s {
      finalized_block_cache =
          lru.put p.block_hash_discrete fcu.finalized_block_hash tt s.finalized_block_cache;
    })

  unfoldable pub record_fcu : JsonForkchoiceStateV1 → JsonPayloadStatusV1 → Prog (Unit {0})
  record_fcu fcu status = do
    cached ← locked (store_fcu fcu status)
    if cached && is_valid status.status then note_checkpoints fcu else ret tt

  -- The `while` loop of `handle_fcu`.
  unfoldable pub wait_for_fcu :
      Settings → JsonForkchoiceStateV1 → (start : ℕ) → ℕ → Prog (Option JsonPayloadStatusV1)
  wait_for_fcu self fcu start zero = fault out_of_rounds
  wait_for_fcu self fcu start (suc n) = do
    time ← call now
    elim (ltb (time - start) self.config.fcu_wait_millis) [
      | false ↦ ret none
      | true ↦ do
        found ← get_cached_fcu self fcu true
        elim found [
          | some status ↦ ret (some status)
          | none ↦ do call (sleep 50); wait_for_fcu self fcu start n
        ]
    ]

  -- The status for a client: a definite one, any cached one, or SYNCING.
  unfoldable pub client_status : Settings → JsonForkchoiceStateV1 → Prog JsonPayloadStatusV1
  client_status self fcu = do
    start ← call now
    definite ← wait_for_fcu self fcu start (rounds self.config.fcu_wait_millis)
    elim definite [
      | some status ↦ ret status
      | none ↦ do
        cached ← get_cached_fcu self fcu false
        elim cached [ some status ↦ ret status | none ↦ ret syncing_status ]
    ]

  module _ ⦃x : Lighthouse⦄ where
    -- `json_payload_attributes.map(from_value).transpose().map_err(…)?.map(V2 or V3)`
    unfoldable pub decode_attributes :
        String → Json → Option Json → Result (Option JsonPayloadAttributes) ErrorResponse
    decode_attributes method id none = ok none
    decode_attributes method id (some json) =
        map_err
          (λ e. parse_error_generic id ("invalid payload attributes: " +s p.display_serde_error e))
          (if str_eq method x.methods.engine_forkchoice_updated_v2
            then map_ok (λ a. some (attributes_v2 a)) (x.serde.decode_attributes_v2 json)
            else map_ok (λ a. some (attributes_v3 a)) (x.serde.decode_attributes_v3 json))

    -- The cached definite status, or else the engine's.
    unfoldable pub controller_status :
        Settings → Json → JsonForkchoiceStateV1 → Prog (Result JsonPayloadStatusV1 ErrorResponse)
    controller_status self id fcu = do
      cached ← get_cached_fcu self fcu true
      elim cached [
        | some status ↦ ret (ok status)
        | none ↦ do
          reply ← call (notify_forkchoice_updated (forkchoice_state fcu) none)
          elim reply [
            | ok response ↦ do
              record_fcu fcu response.payload_status
              ret (ok response.payload_status)
            | err e ↦ ret (err (invalid_request id "forkchoice update failed: see eleel logs"))
          ]
      ]

    unfoldable pub controller_payload_id :
        Settings
        → Json
        → BlockHash
        → Option JsonPayloadAttributes
        → Prog (Result (Option PayloadId) ErrorResponse)
    controller_payload_id self id head_hash none = ret (ok none)
    controller_payload_id self id head_hash (some attributes) = do
      registered ← register_attributes self head_hash (x.attributes_from_json attributes)
      elim registered [
        | ok payload_id ↦ ret (ok (some payload_id))
        | err message ↦ ret (err (invalid_payload_attributes id message))
      ]

    unfoldable pub handle_controller_fcu : Settings → Request → Prog (Result Response ErrorResponse)
    handle_controller_fcu self request =
        try (parse_as x.serde.decode_controller_fcu request) λ (id, params).
          let (fcu, json_attributes) = params in
          try (decode_attributes request.method id json_attributes) λ opt_payload_attributes. do
            status ← controller_status self id fcu
            try status λ payload_status. do
              built ← controller_payload_id self id fcu.head_block_hash opt_payload_attributes
              try built λ payload_id. ret (
                  new_response x.serde.encode_fcu_response id
                    (record { payload_status = payload_status; payload_id = payload_id }))

    -- A client gets the id that the controller's attributes registered, if there is one.
    unfoldable pub client_payload_id : BlockHash → Option p.AttributesV2 → Prog (Option PayloadId)
    client_payload_id head_hash none = ret none
    client_payload_id head_hash (some attributes) = do
      found ← get_existing_payload_id head_hash (x.attributes_from_json (attributes_v2 attributes))
      elim found [ ok payload_id ↦ ret (some payload_id) | err message ↦ ret none ]

    unfoldable pub handle_fcu : Settings → Request → Prog (Result Response ErrorResponse)
    handle_fcu self request = try (parse_as x.serde.decode_client_fcu request) λ (id, params). do
      let (fcu, opt_payload_attributes) = params
      payload_status ← client_status self fcu
      payload_id ← client_payload_id fcu.head_block_hash opt_payload_attributes
      ret (
          new_response x.serde.encode_fcu_response id
            (record { payload_status = payload_status; payload_id = payload_id }))
