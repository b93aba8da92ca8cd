-- ===== src/Effects/Controller.antt =====
-- src/fcu.rs and src/new_payload.rs, the controller's handlers: the engine is asked with no payload
-- attributes, and the answers are in form.
use mathlib.Core.List.{Memᴰ}
use eleel.Common.{◌≡◌, refl, ap, sym, true, String, Option, none, some}
use eleel.External.Lru.{Lru}
use eleel.External.Primitives.{Primitives}
use eleel.External.Lighthouse.{Lighthouse}
use eleel.Types.{
  JsonForkchoiceStateV1, JsonPayloadStatusV1, forkchoice_state, invalid_request,
  invalid_payload_attributes, Request, fields, ExecutionPayload, StatusV1, JsonPayloadAttributes,
}
use eleel.Effects.Answers.{
  Answers, IsAny, Yields-from, Yields, Yields-err, Yields-map_err, generic-IsRefusal,
  new_response-Answers, Does-Yields, parse_as-Yields, Yields-ok,
}
use eleel.Effects.Client.{get_cached_fcu-Does, get_cached_payload_status-Does, invalid-Answers}
use eleel.Effects.Contents.{contents, capacities}
use eleel.Effects.Decodes.{decode_new_payload-Yields}
use eleel.Effects.Kinds.{client_codes, controller_codes, for_controller}
use eleel.Effects.Sizes.{sized, as_controller, record_fcu-Does, register_attributes-Does}
use eleel.Fcu.Handlers.{
  decode_attributes, controller_status, controller_payload_id, handle_controller_fcu,
}
use eleel.Main.Route.{fork_choice, payload}
use eleel.Main.{is_one_of, new_payload_methods}
use eleel.NewPayload.Total.{new_payload_request-some}
use eleel.Multiplexer.{Settings}
use eleel.NewPayload.Handlers.{record_status, handle_controller_new_payload}
use eleel.PayloadBuilder.Build.{is_rejected}
use eleel.PayloadBuilder.Methods.{track_payload, register_canonical_payload}
use eleel.Prog.{Call}
use eleel.Prog.Does.{
  Does, Does-ret, Does-bind, Does-update, Does-lift, Does-if, Does-Option, Does-Result, Does-call,
}

module _ ⦃p : Primitives⦄ ⦃lru : Lru⦄ ⦃x : Lighthouse⦄ where
  decode_attributes-Yields :
      (method : String) (id : p.Json) (json : Option p.Json)
      → Yields id (controller_codes fork_choice) IsAny (decode_attributes method id json)
  unfolding decode_attributes
  decode_attributes-Yields method id none = Yields-ok tt
  decode_attributes-Yields method id (some json) = Yields-map_err _ _ (λ e. generic-IsRefusal id _)

  controller_status-Does :
      (self : Settings) (id : p.Json) (fcu : JsonForkchoiceStateV1)
      → Does
          (for_controller fork_choice)
          (λ r. Yields id (controller_codes fork_choice) IsAny r)
          (controller_status self id fcu)
  unfolding controller_status invalid_request
  controller_status-Does self id fcu =
      Does-bind (as_controller fork_choice (get_cached_fcu-Does self fcu true)) (λ cached _.
        Does-Option cached
          (Does-bind
            (Does-call (Call.notify_forkchoice_updated (forkchoice_state fcu) none) {Q = IsAny}
              (refl, refl) (λ _. tt))
            (λ reply _.
              Does-Result reply
                (λ response _.
                  Does-bind (record_fcu-Does fcu response.payload_status)
                    (λ _ _. Does-ret (Yields-ok tt)))
                (λ e _. Does-ret (
                  Yields-err
                    (record { jsonrpc = refl; id = refl; code = Memᴰ.tail (Memᴰ.head refl) })))))
          (λ status. Does-ret (Yields-ok tt)))

  controller_payload_id-Does :
      (self : Settings) (id : p.Json) (head : p.BlockHash)
      (attributes : Option JsonPayloadAttributes)
      → Does
          (for_controller fork_choice)
          (λ r. Yields id (controller_codes fork_choice) IsAny r)
          (controller_payload_id self id head attributes)
  unfolding controller_payload_id invalid_payload_attributes
  controller_payload_id-Does self id head none = Does-ret (Yields-ok tt)
  controller_payload_id-Does self id head (some attributes) =
      Does-bind (register_attributes-Does self head (x.attributes_from_json attributes))
        (λ registered _.
          Does-Result registered (λ payload_id _. Does-ret (Yields-ok tt))
            (λ message _. Does-ret (
              Yields-err (record {
                jsonrpc = refl;
                id = refl;
                code = Memᴰ.tail (Memᴰ.tail (Memᴰ.head refl));
              }))))

  pub handle_controller_fcu-Does :
      (self : Settings) (request : Request)
      → Does
          (for_controller fork_choice)
          (Answers request.id (controller_codes fork_choice))
          (handle_controller_fcu self request)
  unfolding handle_controller_fcu
  handle_controller_fcu-Does self request =
      Does-Yields (parse_as-Yields _ x.serde.decode_controller_fcu request) (λ (id, params) same.
        let (fcu, json) = params in
        rw (sym same) (
          Does-Yields (decode_attributes-Yields request.method id json) (λ attributes _.
            Does-bind (controller_status-Does self id fcu) (λ status good.
              Does-Yields good (λ payload_status _.
                Does-bind (controller_payload_id-Does self id fcu.head_block_hash attributes)
                  (λ registered fine.
                    Does-Yields fine (λ payload_id _. Does-ret (new_response-Answers id _ _))))))))

  register_canonical_payload-Does :
      (new : ExecutionPayload) (status : StatusV1)
      → Does (for_controller payload) IsAny (register_canonical_payload new status)
  unfolding register_canonical_payload track_payload contents
  register_canonical_payload-Does new status =
      Does-if (is_rejected status) (λ _. Does-ret tt)
        (λ _.
          Does-update _
            (sized
              (λ s.
                ap (λ n. record (capacities (contents s)) { payload_info = n })
                  (lru.cap-get_or_insert p.block_hash_discrete _ _ s.payload_builder.payload_info))
              (λ s. refl))
            tt)

  record_status-Does :
      (new : ExecutionPayload) (status : JsonPayloadStatusV1)
      → Does (for_controller payload) IsAny (record_status new status)
  unfolding record_status contents
  record_status-Does new status =
      Does-bind
        (Does-update {Q = IsAny} _
          (sized
            (λ s.
              ap (λ n. record (capacities (contents s)) { new_payload = n })
                (lru.cap-put p.block_hash_discrete _ _ s.new_payload_cache))
            (λ s. refl))
          tt)
        (λ _ _. Does-bind (register_canonical_payload-Does new status.status) (λ _ _. Does-ret tt))

  pub handle_controller_new_payload-Does :
      (self : Settings) (request : Request)
      → is_one_of new_payload_methods request.method ≡ true
      → Does
          (for_controller payload)
          (Answers request.id (client_codes payload))
          (handle_controller_new_payload self request)
  unfolding handle_controller_new_payload
  handle_controller_new_payload-Does self request known =
      Does-Yields (Yields-from (decode_new_payload-Yields _ self request))
        (λ decoded (parsed, same).
          let (ready, formed) = new_payload_request-some self request decoded known parsed in
          let new = x.from_json_payload decoded.payload in
          let block = (fields new).block_hash in
          rw (sym same) (
            Does-bind (Does-lift {Q = IsAny} _ (λ e. absurd (cc (formed, e))) (λ _ _. tt))
              (λ engine_request _.
                Does-bind (as_controller payload (get_cached_payload_status-Does block true))
                  (λ cached _.
                    Does-Option cached
                      (Does-bind
                        (Does-call (Call.new_payload engine_request) {Q = IsAny} refl (λ _. tt))
                        (λ reply _.
                          Does-Result reply
                            (λ status _.
                              Does-bind (record_status-Does new status)
                                (λ told _. Does-ret (new_response-Answers decoded.id _ told)))
                            (λ e _. Does-ret (invalid-Answers decoded.id _))))
                      (λ status. Does-ret (new_response-Answers decoded.id _ status))))))
