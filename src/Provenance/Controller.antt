-- ===== src/Provenance/Controller.antt =====
-- The controller's handlers of src/fcu.rs and src/new_payload.rs among other handlers.
use mathlib.Core.List.{Memᴰ}
use eleel.Common.{◌≡◌, refl, ◌∙◌, ◌⊎◌, inl, inr, Option, none, some, Result, ok, true, subst}
use eleel.External.Lru.{Lru}
use eleel.External.Primitives.{Primitives}
use eleel.External.Lighthouse.{Lighthouse}
use eleel.Types.{
  JsonForkchoiceStateV1, JsonPayloadStatusV1, JsonPayloadAttributes, PayloadId, fields, Request,
  Response, ErrorResponse, parse_as, new_response, forkchoice_state,
}
use eleel.Types.Laws.{parse_as-eq-ok, new_response-eq-ok}
use eleel.Fcu.Handlers.{
  decode_attributes, controller_status, controller_payload_id, handle_controller_fcu,
}
use eleel.Multiplexer.{Settings}
use eleel.NewPayload.Decode.{Decoded, decode_new_payload, new_payload_request_from_parts}
use eleel.NewPayload.Handlers.{handle_controller_new_payload}
use eleel.Prog.{notify_forkchoice_updated, new_payload}
use eleel.Prog.Safe.{
  Event, Log, Safe, Anything, Safe-bind, Safe-call, Safe-ret, Safe-Option, Safe-Result, Safe-lift,
  Safe-try,
}
use eleel.Provenance.Answers.{OnOk}
use eleel.Provenance.Builder.{register_attributes-Safe}
use eleel.Provenance.Fcu.{Matched, Matched-mono, get_cached_fcu-Safe}
use eleel.Provenance.FcuHandlers.{record_fcu-Safe}
use eleel.Provenance.Invariant.{FcuSaid, FcuSaid-mono, PayloadSaid, PayloadSaid-mono, IsSound}
use eleel.Provenance.NewPayload.{
  HashSaid, request_payload_lem, get_cached_payload_status-Safe, record_status-Safe,
}

module _ ⦃p : Primitives⦄ ⦃lru : Lru⦄ ⦃x : Lighthouse⦄ where
  -- What the controller is told of a fork choice state: what the engine said of it, or of one that
  -- matches.
  abbrev pub ControllerTold : Settings → JsonForkchoiceStateV1 → Log → JsonPayloadStatusV1 → Type 0
  ControllerTold self fcu l status =
      FcuSaid l fcu status ⊎ Matched self.config.fcu_matching l fcu status

  pub ControllerTold-mono :
      (self : Settings) (fcu : JsonForkchoiceStateV1) (status : JsonPayloadStatusV1) {m m' : Log}
      → ((e : Event) → Memᴰ e m → Memᴰ e m')
      → ControllerTold self fcu m status
      → ControllerTold self fcu m' status
  ControllerTold-mono self fcu status e (inl said) = inl (FcuSaid-mono e said)
  ControllerTold-mono self fcu status e (inr said) =
      inr (Matched-mono self.config.fcu_matching fcu status e said)

  -- The controller's forkchoiceUpdated is answered with a status that it may be told of the state
  -- that the request's parameters are.
  pub record ControllerFcuAnswered (self : Settings) (request : Request) (l : Log)
      (response : Response) : Type 0 where
    pub fcu : JsonForkchoiceStateV1
    pub attributes : Option p.Json
    pub status : JsonPayloadStatusV1
    pub payload_id : Option PayloadId
    pub parsed : x.serde.decode_controller_fcu request.params ≡ ok (fcu, attributes)
    pub encoded :
        x.serde.encode_fcu_response (record { payload_status = status; payload_id = payload_id })
        ≡ ok response.result
    pub same_id : response.id ≡ request.id
    pub told : ControllerTold self fcu l status

  -- The controller's newPayload is answered with what the engine said of a payload of its hash.
  pub record ControllerPayloadAnswered (self : Settings) (request : Request) (l : Log)
      (response : Response) : Type 0 where
    pub decoded : Decoded
    pub status : JsonPayloadStatusV1
    pub parsed : decode_new_payload self request ≡ ok decoded
    pub encoded : x.serde.encode_status status ≡ ok response.result
    pub said : HashSaid l (fields (x.from_json_payload decoded.payload)).block_hash status

  answered_same :
      (a b : JsonPayloadStatusV1)
      → ◌≡◌ {A = Result JsonPayloadStatusV1 ErrorResponse} (ok a) (ok b)
      → a ≡ b
  answered_same a b e = cc

  controller_status-Safe :
      (self : Settings) (id : p.Json) (fcu : JsonForkchoiceStateV1) (l : Log)
      → Safe IsSound
          (λ l' result.
            (status : JsonPayloadStatusV1) → result ≡ ok status → ControllerTold self fcu l' status)
          l
          (controller_status self id fcu)
  unfolding controller_status
  controller_status-Safe self id fcu l =
      Safe-bind (get_cached_fcu-Safe self fcu true l) (λ l1 _ cached q.
        Safe-Option cached
          (λ _.
            Safe-bind (Safe-call (notify_forkchoice_updated (forkchoice_state fcu) none))
              (λ l2 _ reply logged.
                Safe-Result
                  {Q = λ l' result.
                    (status : JsonPayloadStatusV1)
                    → result ≡ ok status
                    → ControllerTold self fcu l' status}
                  reply
                  (λ response answered.
                    let said : FcuSaid l2 fcu response.payload_status = record {
                      answer = response;
                      said = rw answered at logged;
                      same = refl;
                    } in
                    Safe-bind (record_fcu-Safe fcu response.payload_status l2 said) (λ l3 e _ _.
                      Safe-ret (λ status same. inl (
                        subst (λ t. FcuSaid l3 fcu t) (answered_same _ _ same)
                          (FcuSaid-mono e said)))))
                  (λ _ _. Safe-ret (λ status never. absurd (cc)))))
          (λ status there. Safe-ret (λ other same. inr (q other (there ∙ cc)).0)))

  controller_payload_id-Safe :
      (self : Settings) (id : p.Json) (head : p.BlockHash)
      (attributes : Option JsonPayloadAttributes) (l : Log)
      → Safe IsSound Anything l (controller_payload_id self id head attributes)
  unfolding controller_payload_id
  controller_payload_id-Safe self id head none l = Safe-ret tt
  controller_payload_id-Safe self id head (some attributes) l =
      Safe-bind (register_attributes-Safe self head (x.attributes_from_json attributes) l)
        (λ l' _ registered _. Safe-Result registered (λ _ _. Safe-ret tt) (λ _ _. Safe-ret tt))

  -- Among any other handlers that keep the caches sound, the controller's forkchoiceUpdated keeps
  -- them sound; a response has the request's id and tells what the engine said of the fork choice
  -- state that the request's parameters decode to, or of one that matches it.
  pub handle_controller_fcu-Safe :
      (self : Settings) (request : Request) (l : Log)
      → Safe IsSound
          (OnOk (ControllerFcuAnswered self request))
          l
          (handle_controller_fcu self request)
  unfolding handle_controller_fcu
  handle_controller_fcu-Safe self request l =
      Safe-try (parse_as x.serde.decode_controller_fcu request)
        (λ (id, params) parse.
          let (fcu, json_attributes) = params in
          let (same_id, parsed) = parse_as-eq-ok _ request _ parse in
          Safe-try (decode_attributes request.method id json_attributes)
            (λ attributes _. Safe-bind (controller_status-Safe self id fcu l) (λ l1 _ settled told.
              Safe-try settled
                (λ status got.
                  Safe-bind (controller_payload_id-Safe self id fcu.head_block_hash attributes l1)
                    (λ l2 e built _.
                      Safe-try built
                        (λ payload_id _. Safe-ret (λ response made.
                          let (made_id, encoded) = new_response-eq-ok _ id _ response made in
                          record {
                            fcu = fcu;
                            attributes = json_attributes;
                            status = status;
                            payload_id = payload_id;
                            parsed = parsed;
                            encoded = encoded;
                            same_id = made_id ∙ same_id;
                            told = ControllerTold-mono self fcu status e (told status got);
                          }))
                        (λ _ response never. absurd (cc))))
                (λ _ response never. absurd (cc))))
            (λ _ response never. absurd (cc)))
        (λ _ response never. absurd (cc))

  -- Among any other handlers that keep the caches sound, the controller's newPayload keeps them
  -- sound, and a response tells what the engine said of a payload of its block hash.
  pub handle_controller_new_payload-Safe :
      (self : Settings) (request : Request) (l : Log)
      → Safe IsSound
          (OnOk (ControllerPayloadAnswered self request))
          l
          (handle_controller_new_payload self request)
  unfolding handle_controller_new_payload
  handle_controller_new_payload-Safe self request l =
      Safe-try (decode_new_payload self request)
        (λ decoded parsed.
          let payload = x.from_json_payload decoded.payload in
          let block = (fields payload).block_hash in
          Safe-bind
            (Safe-lift
              {Q = λ _ engine_request.
                new_payload_request_from_parts payload decoded.versioned_hashes
                  decoded.parent_beacon_block_root decoded.execution_requests
                ≡ some engine_request}
              _ (λ engine_request formed. formed))
            (λ l1 _ engine_request formed.
              Safe-bind (get_cached_payload_status-Safe block true l1) (λ l2 _ cached q.
                Safe-Option cached
                  (λ _. Safe-bind (Safe-call (new_payload engine_request)) (λ l3 _ reply logged.
                    Safe-Result {Q = OnOk (ControllerPayloadAnswered self request)} reply
                      (λ status answered.
                        let said : PayloadSaid l3 payload status = record {
                          request = engine_request;
                          said = rw answered at logged;
                          same = request_payload_lem payload _ _ _ engine_request formed;
                        } in
                        Safe-bind (record_status-Safe payload status l3 said) (λ l4 e out same.
                          Safe-ret (
                            answer self request decoded status out parsed same (record {
                              payload = payload;
                              said = PayloadSaid-mono e said;
                              hash = refl;
                            }))))
                      (λ _ _. Safe-ret (λ response never. absurd (cc)))))
                  (λ status got.
                    Safe-ret
                      (answer self request decoded status status parsed refl (q status got).0)))))
        (λ _ response never. absurd (cc))
    where
      answer :
          {m : Log} (self : Settings) (request : Request) (decoded : Decoded)
          (status out : JsonPayloadStatusV1)
          → decode_new_payload self request ≡ ok decoded
          → out ≡ status
          → HashSaid m (fields (x.from_json_payload decoded.payload)).block_hash status
          → OnOk
              (ControllerPayloadAnswered self request)
              m
              (new_response x.serde.encode_status decoded.id out)
      answer self request decoded status out parsed same said = λ response made. record {
        decoded = decoded;
        status = status;
        parsed = parsed;
        encoded = rw same at (new_response-eq-ok _ decoded.id _ response made).1;
        said = said;
      }
