-- ===== src/Effects/Sizes.antt =====
-- src/fcu.rs and src/payload_builder.rs: what the controller's requests write to the caches, and that
-- no write changes a cache's capacity.
use eleel.Common.{List, ℕ, suc, ◌≤◌, arith, subst, find, ◌∙◌, ◌≡◌, refl, ap, sym, some, ◌&&◌}
use eleel.External.Lru.{Lru}
use eleel.External.Primitives.{Primitives}
use eleel.External.Lighthouse.{Lighthouse}
use eleel.Types.{JsonForkchoiceStateV1, JsonPayloadStatusV1, ExecutionPayload, PayloadId}
use eleel.Effects.Answers.{IsAny}
use eleel.Effects.Contents.{contents, capacities, view}
use eleel.Effects.Builder.{register_locked-capacities, register_locked-Servable}
use eleel.Effects.Kinds.{
  for_client, for_controller, IsTidy, ClientCall, ClientFault, ControllerFault, IsServable,
  IsAgreed, ControllerCall,
}
use eleel.Fcu.Handlers.{store_fcu, is_valid, note_checkpoints, record_fcu}
use eleel.Fcu.Stores.{Wrote, unknown, kept, replaced, store_fcu-Way}
use eleel.Main.Route.{Route, fork_choice}
use eleel.Multiplexer.{Settings, Caches, PayloadBuilder}
use eleel.PayloadBuilder.Build.{attributes_key_discrete, payload_id_discrete}
use eleel.PayloadBuilder.Methods.{on_builder, register_locked, register_attributes}
use eleel.Prog.{Call, Prog, Fault, panicked, out_of_rounds}
use eleel.Effects.Ids.{Agrees, register_locked-Issues}
use eleel.Prog.Does.{
  IsKindOf, Does, Does-weaken, Does-ret, Does-bind, Does-locked, Does-update, Does-lift, Does-if,
  Does-Option,
}
use eleel.Slot.{timestamp_to_slot}

module _ ⦃p : Primitives⦄ ⦃lru : Lru⦄ where
  -- What a write of an id or a payload changes.
  abbrev pub issued :
      PayloadBuilder
      → ℕ
        × lru.LruCache (p.BlockHash × p.PayloadAttributes) PayloadId
        × lru.LruCache PayloadId ExecutionPayload
  issued b = (b.next_payload_id, b.payload_attributes, b.payloads)

  -- A write that leaves the ids and the payloads of the builder alone.
  pub sized :
      {change : Caches → Caches}
      → ((s : Caches) → capacities (contents (change s)) ≡ capacities (contents s))
      → ((s : Caches) → issued (change s).payload_builder ≡ issued s.payload_builder)
      → IsTidy change
  unfolding contents
  sized sizes same = record {
    sizes = sizes;
    servable = λ s servable id stored e.
        servable id stored
          (subst (λ t. find payload_id_discrete id (lru.iter t.2) ≡ some stored) (same s) e);
    issues = λ s small agreed. (
      subst (λ t. Agrees t.0 (view attributes_key_discrete t.1) (view payload_id_discrete t.2))
          (sym (same s)) agreed,
      subst (λ t. t.0 ≤ suc s.payload_builder.next_payload_id) (sym (same s)) (omega arith),
    );
  }

  store_fcu-others :
      (fcu : JsonForkchoiceStateV1) (status : JsonPayloadStatusV1) (s : Caches)
      → (l : List (JsonForkchoiceStateV1 × JsonPayloadStatusV1)) × Wrote l s
          (store_fcu fcu status s).1
  store_fcu-others fcu status s = elim (store_fcu-Way fcu status s) [
    | unknown missing cached wrote ↦ (_, wrote)
    | kept existing there definite cached wrote ↦ (_, wrote)
    | replaced existing there open_ cached wrote ↦ (_, wrote)
  ]

  store_fcu-IsTidy :
      (fcu : JsonForkchoiceStateV1) (status : JsonPayloadStatusV1)
      → IsTidy (λ s. (store_fcu fcu status s).1)
  unfolding contents
  store_fcu-IsTidy fcu status =
      sized
        (λ s.
          let (l, wrote) = store_fcu-others fcu status s in
          ap (λ t. capacities (contents t)) wrote.others
          ∙ ap (λ n. record (capacities (contents s)) { fcu = n }) wrote.size)
        (λ s. ap (λ t. issued t.payload_builder) (store_fcu-others fcu status s).1.others)

  module _ ⦃x : Lighthouse⦄ where
    register-IsTidy :
        (self : Settings) (slot : ℕ) (parent : p.BlockHash) (attributes : p.PayloadAttributes)
        → IsTidy (λ s. (on_builder (register_locked self slot parent attributes) s).1)
    unfolding contents
    register-IsTidy self slot parent attributes = record {
      sizes = λ s.
          ap
            (λ (a, i, n). record (capacities (contents s)) {
              payload_attributes = a;
              payload_info = i;
              payloads = n;
            })
            (register_locked-capacities self slot parent attributes s.payload_builder);
      servable = λ s h. register_locked-Servable self slot parent attributes s.payload_builder h;
      issues = λ s small agreed.
          register_locked-Issues self slot parent attributes s.payload_builder small agreed;
    }

    -- A client's part of the controller's handler.
    pub client_as_controller : (way : Route) → IsKindOf for_client (for_controller way)
    client_as_controller way = record {
      inv = λ s h. h;
      write = λ change kept. record {
        sizes = λ s. ap capacities (kept s);
        servable = λ s h. subst IsServable (sym (kept s)) h;
        issues = λ s small agreed. (
          subst IsAgreed (sym (kept s)) agreed,
          subst (λ c. c.next_payload_id ≤ suc (contents s).next_payload_id) (sym (kept s))
              (omega arith),
        );
      };
      calls = calls way;
      faults = faults way;
    }
      where
        calls : (way : Route) (c : Call) → ClientCall c → ControllerCall way c
        calls way (Call.notify_forkchoice_updated f a) h = absurd h
        calls way (Call.new_payload r) h = absurd h
        calls way (Call.get_chain_id t) h = tt
        calls way (Call.get_engine_capabilities t) h = tt
        calls way (Call.rpc_request m j t) h = h
        calls way Call.now h = tt
        calls way (Call.sleep t) h = tt

        faults : (way : Route) (e : Fault) → ClientFault e → ControllerFault way e
        faults way panicked h = absurd h
        faults way out_of_rounds h = tt

    pub as_controller :
        (way : Route) {A : Type 0} {Q : A → Type 0} {m : Prog A}
        → Does for_client Q m
        → Does (for_controller way) Q m
    as_controller way h = Does-weaken (client_as_controller way) (λ a q. q) h

    pub record_fcu-Does :
        (fcu : JsonForkchoiceStateV1) (status : JsonPayloadStatusV1)
        → Does (for_controller fork_choice) IsAny (record_fcu fcu status)
    unfolding record_fcu note_checkpoints contents
    record_fcu-Does fcu status =
        Does-bind (Does-locked {Q = IsAny} _ (store_fcu-IsTidy fcu status) (λ _ _. tt)) (λ cached _.
          Does-if (cached && is_valid status.status)
            (λ _.
              Does-bind
                (Does-update {Q = IsAny} _
                  (sized
                    (λ s.
                      ap (λ n. record (capacities (contents s)) { justified = n })
                        (lru.cap-put p.block_hash_discrete fcu.safe_block_hash tt
                          s.justified_block_cache))
                    (λ s. refl))
                  tt)
                (λ _ _.
                  Does-update _
                    (sized
                      (λ s.
                        ap (λ n. record (capacities (contents s)) { finalized = n })
                          (lru.cap-put p.block_hash_discrete fcu.finalized_block_hash tt
                            s.finalized_block_cache))
                      (λ s. refl))
                    tt))
            (λ _. Does-ret tt))

    pub register_attributes-Does :
        (self : Settings) (parent : p.BlockHash) (attributes : p.PayloadAttributes)
        → Does (for_controller fork_choice) IsAny (register_attributes self parent attributes)
    unfolding register_attributes
    register_attributes-Does self parent attributes =
        Does-Option (timestamp_to_slot self (p.timestamp attributes)) (Does-ret tt) (λ slot.
          Does-bind
            (Does-locked {Q = IsAny} _ (register-IsTidy self slot parent attributes) (λ _ _. tt))
            (λ result _. Does-lift result (λ _. refl) (λ _ _. tt)))
