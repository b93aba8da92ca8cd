-- ===== src/Effects/Client.antt =====
-- src/main.rs, `process_client_request` and the batches: a client changes nothing that the caches
-- hold, and is answered in form.
use mathlib.Core.List.{Memᴰ}
use eleel.Common.{
  String, ℕ, zero, suc, ◌-◌, ◌≡◌, refl, sym, true, false, Bool, ltb, Option, none, some, err,
}
use eleel.Config.{FcuMatching, exact, loose, head_only}
use eleel.External.Lru.{Lru}
use eleel.External.Primitives.{Primitives}
use eleel.External.Lighthouse.{Lighthouse}
use eleel.Types.{JsonForkchoiceStateV1, NewPayloadRequest, invalid_request, Request, fields}
use eleel.Effects.Answers.{
  Answers, IsAny, Yields-from, Yields-err, new_response-Answers, Does-Yields,
}
use eleel.Effects.Decodes.{decode_new_payload-Yields}
use eleel.Effects.Kinds.{
  client_codes, for_client, existing_status-KeepsContents, cached_status-KeepsContents,
  get_id_locked-KeepsContents,
}
use eleel.Effects.Shared.{Does-parsed}
use eleel.Fcu.Handlers.{
  just_and_fin_ok, get_cached_fcu, wait_for_fcu, client_status, client_payload_id, handle_fcu,
}
use eleel.Main.Route.{fork_choice, payload}
use eleel.Main.{is_one_of, new_payload_methods}
use eleel.NewPayload.Total.{new_payload_request-some}
use eleel.Multiplexer.{Settings}
use eleel.NewPayload.Handlers.{
  get_cached_payload_status, highest_cached_payload_number, is_recent_payload, wait_for_status,
  wait_if_recent, settle, handle_new_payload,
}
use eleel.PayloadBuilder.Methods.{get_existing_payload_id}
use eleel.Prog.{Call}
use eleel.Prog.Does.{
  Does, Does-ret, Does-fault, Does-bind, Does-locked, Does-lift, Does-Bool, Does-Option,
  Does-Result, Does-call,
}

module _ ⦃p : Primitives⦄ ⦃lru : Lru⦄ ⦃x : Lighthouse⦄ where
  just_and_fin_ok-Does :
      (mode : FcuMatching) (fcu : JsonForkchoiceStateV1)
      → Does for_client IsAny (just_and_fin_ok mode fcu)
  unfolding just_and_fin_ok
  just_and_fin_ok-Does exact fcu = Does-ret tt
  just_and_fin_ok-Does head_only fcu = Does-ret tt
  just_and_fin_ok-Does loose fcu =
      Does-bind (Does-locked {Q = IsAny} _ (λ s. refl) (λ _ _. tt))
        (λ known _. Does-Bool known (Does-locked _ (λ s. refl) (λ _ _. tt)) (Does-ret tt))

  pub get_cached_fcu-Does :
      (self : Settings) (fcu : JsonForkchoiceStateV1) (definite_only : Bool)
      → Does for_client IsAny (get_cached_fcu self fcu definite_only)
  unfolding get_cached_fcu
  get_cached_fcu-Does self fcu definite_only =
      Does-bind
        (Does-locked {Q = IsAny} _ (existing_status-KeepsContents self.config.fcu_matching fcu)
          (λ _ _. tt))
        (λ existing _. Does-Option existing (Does-ret tt) (λ status.
          Does-bind (just_and_fin_ok-Does self.config.fcu_matching fcu) (λ _ _. Does-ret tt)))

  wait_for_fcu-Does :
      (self : Settings) (fcu : JsonForkchoiceStateV1) (start n : ℕ)
      → Does for_client IsAny (wait_for_fcu self fcu start n)
  unfolding wait_for_fcu
  wait_for_fcu-Does self fcu start zero = Does-fault _ tt
  wait_for_fcu-Does self fcu start (suc n) =
      Does-bind (Does-call Call.now {Q = IsAny} tt (λ _. tt)) (λ time _.
        Does-Bool (ltb (time - start) self.config.fcu_wait_millis)
          (Does-bind (get_cached_fcu-Does self fcu true) (λ found _.
            Does-Option found
              (Does-bind (Does-call (Call.sleep 50) {Q = IsAny} tt (λ _. tt))
                (λ _ _. wait_for_fcu-Does self fcu start n))
              (λ status. Does-ret tt)))
          (Does-ret tt))

  client_status-Does :
      (self : Settings) (fcu : JsonForkchoiceStateV1)
      → Does for_client IsAny (client_status self fcu)
  unfolding client_status
  client_status-Does self fcu = Does-bind (Does-call Call.now {Q = IsAny} tt (λ _. tt)) (λ start _.
      Does-bind (wait_for_fcu-Does self fcu start _) (λ definite _.
        Does-Option definite
          (Does-bind (get_cached_fcu-Does self fcu false)
            (λ cached _. Does-Option cached (Does-ret tt) (λ _. Does-ret tt)))
          (λ status. Does-ret tt)))

  client_payload_id-Does :
      (head : p.BlockHash) (attributes : Option p.AttributesV2)
      → Does for_client IsAny (client_payload_id head attributes)
  unfolding client_payload_id get_existing_payload_id
  client_payload_id-Does head none = Does-ret tt
  client_payload_id-Does head (some attributes) =
      Does-bind (Does-locked {Q = IsAny} _ (get_id_locked-KeepsContents head _) (λ _ _. tt))
        (λ found _. Does-Result found (λ _ _. Does-ret tt) (λ _ _. Does-ret tt))

  pub handle_fcu-Does :
      (self : Settings) (request : Request)
      → Does for_client (Answers request.id (client_codes fork_choice)) (handle_fcu self request)
  unfolding handle_fcu
  handle_fcu-Does self request =
      Does-parsed request x.serde.decode_client_fcu _ (λ (fcu, attributes).
        Does-bind (client_status-Does self fcu) (λ status _.
          Does-bind (client_payload_id-Does fcu.head_block_hash attributes)
            (λ payload_id _. Does-ret (new_response-Answers request.id _ _))))

  pub get_cached_payload_status-Does :
      (block : p.BlockHash) (definite_only : Bool)
      → Does for_client IsAny (get_cached_payload_status block definite_only)
  unfolding get_cached_payload_status
  get_cached_payload_status-Does block definite_only =
      Does-locked _ (cached_status-KeepsContents block definite_only) (λ _ _. tt)

  is_recent_payload-Does :
      (self : Settings) (n : ℕ) → Does for_client IsAny (is_recent_payload self n)
  unfolding is_recent_payload highest_cached_payload_number
  is_recent_payload-Does self n =
      Does-bind (Does-locked {Q = IsAny} _ (λ s. refl) (λ _ _. tt)) (λ _ _. Does-ret tt)

  wait_for_status-Does :
      (self : Settings) (block : p.BlockHash) (start n : ℕ)
      → Does for_client IsAny (wait_for_status self block start n)
  unfolding wait_for_status
  wait_for_status-Does self block start zero = Does-fault _ tt
  wait_for_status-Does self block start (suc n) =
      Does-bind (Does-call Call.now {Q = IsAny} tt (λ _. tt)) (λ time _.
        Does-Bool (ltb (time - start) self.config.new_payload_wait_millis)
          (Does-bind (get_cached_payload_status-Does block true) (λ found _.
            Does-Option found
              (Does-bind (Does-call (Call.sleep 50) {Q = IsAny} tt (λ _. tt))
                (λ _ _. wait_for_status-Does self block start n))
              (λ status. Does-ret tt)))
          (Does-ret tt))

  wait_if_recent-Does :
      (self : Settings) (block : p.BlockHash) (recent : Bool)
      → Does for_client IsAny (wait_if_recent self block recent)
  unfolding wait_if_recent
  wait_if_recent-Does self block false = Does-ret tt
  wait_if_recent-Does self block true =
      Does-bind (Does-call Call.now {Q = IsAny} tt (λ _. tt))
        (λ start _. wait_for_status-Does self block start _)

  settle-Does :
      (block : p.BlockHash) (request : NewPayloadRequest)
      → Does for_client IsAny (settle block request)
  unfolding settle
  settle-Does block request = Does-bind (get_cached_payload_status-Does block false) (λ cached _.
      Does-Option cached
        (Does-Result (x.verify_versioned_hashes request) (λ _ _. Does-ret tt) (λ _ _. Does-ret tt))
        (λ status. Does-ret tt))

  pub invalid-Answers :
      (id : p.Json) (message : String)
      → Answers id (client_codes payload) (err (invalid_request id message))
  unfolding invalid_request
  invalid-Answers id message =
      Yields-err (record { jsonrpc = refl; id = refl; code = Memᴰ.tail (Memᴰ.head refl) })

  pub handle_new_payload-Does :
      (self : Settings) (request : Request)
      → is_one_of new_payload_methods request.method ≡ true
      → Does for_client
          (Answers request.id (client_codes payload))
          (handle_new_payload self request)
  unfolding handle_new_payload
  handle_new_payload-Does self request known =
      Does-Yields (Yields-from (decode_new_payload-Yields _ self request))
        (λ decoded (parsed, same).
          let (ready, formed) = new_payload_request-some self request decoded known parsed in
          let block = (fields (x.from_json_payload decoded.payload)).block_hash in
          rw (sym same) (
            Does-bind (Does-lift {Q = IsAny} _ (λ e. absurd (cc (formed, e))) (λ _ _. tt))
              (λ engine_request _.
                Does-Result (x.verify_payload_block_hash engine_request)
                  (λ _ _. Does-bind (is_recent_payload-Does self _) (λ recent _.
                    Does-bind (wait_if_recent-Does self block recent) (λ definite _.
                      Does-Option definite
                        (Does-bind (settle-Does block engine_request) (λ settled _.
                          Does-Result settled
                            (λ status _. Does-ret (new_response-Answers decoded.id _ status))
                            (λ message _. Does-ret (invalid-Answers decoded.id message))))
                        (λ status. Does-ret (new_response-Answers decoded.id _ status)))))
                  (λ _ _. Does-ret (invalid-Answers decoded.id _)))))
