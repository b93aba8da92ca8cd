-- ===== src/NewPayload/Waits.antt =====
-- src/new_payload.rs, `handle_new_payload`: it comes to an answer.
use eleel.Common.{ℕ, zero, suc, ◌+◌, ◌-◌, ◌*◌, ◌≤◌, ◌<◌, ◌≡◌, Bool, true, false, ltb, ltb→lt, arith}
use eleel.External.Lru.{Lru}
use eleel.External.Primitives.{Primitives}
use eleel.External.Lighthouse.{Lighthouse}
use eleel.Types.{NewPayloadRequest, Request, fields}
use eleel.Main.{is_one_of, new_payload_methods}
use eleel.Multiplexer.{Settings}
use eleel.NewPayload.Decode.{decode_new_payload}
use eleel.NewPayload.Handlers.{
  rounds, get_cached_payload_status, highest_cached_payload_number, is_recent_payload,
  wait_for_status, wait_if_recent, settle, handle_new_payload,
}
use eleel.NewPayload.Total.{new_payload_request-some}
use eleel.Prog.Ends.{
  AnyResult, Ends, Ends-ret, Ends-bind, Ends-locked, Ends-Bool, Ends-Option, Ends-Result, Ends-lift,
  Ends-try, Ends-now, Ends-sleep,
}

module _ ⦃p : Primitives⦄ ⦃lru : Lru⦄ where
  get_cached_payload_status-Ends :
      (block : p.BlockHash) (definite_only : Bool) (time : ℕ)
      → Ends AnyResult time (get_cached_payload_status block definite_only)
  unfolding get_cached_payload_status
  get_cached_payload_status-Ends block definite_only time = Ends-locked _ (λ _. tt)

  wait_for_status-Ends :
      (self : Settings) (block : p.BlockHash) (start n time : ℕ)
      → 0 < n
      → start ≤ time
      → self.config.new_payload_wait_millis + 50 ≤ time - start + n * 50
      → Ends AnyResult time (wait_for_status self block start n)
  unfolding wait_for_status
  wait_for_status-Ends self block start zero time some_left begun enough = absurd (omega arith)
  wait_for_status-Ends self block start (suc n) time some_left begun enough = Ends-now (λ t1 e1.
      Ends-Bool (ltb (t1 - start) self.config.new_payload_wait_millis)
        (λ early.
          let open_ : t1 - start < self.config.new_payload_wait_millis = ltb→lt _ _ early in
          Ends-bind (get_cached_payload_status-Ends block true t1) (λ t2 e2 found _.
            Ends-Option found
              (Ends-sleep 50 (λ t3 e3.
                wait_for_status-Ends self block start n t3 (omega (arith, e1, e2, e3))
                  (omega (arith, e1, e2, e3)) (omega (arith, e1, e2, e3))))
              (λ status. Ends-ret tt)))
        (λ _. Ends-ret tt))

  is_recent_payload-Ends :
      (self : Settings) (n time : ℕ) → Ends AnyResult time (is_recent_payload self n)
  unfolding is_recent_payload highest_cached_payload_number
  is_recent_payload-Ends self n time =
      Ends-bind {Q = AnyResult} (Ends-locked _ (λ _. tt)) (λ _ _ _ _. Ends-ret tt)

  module _ ⦃x : Lighthouse⦄ where
    wait_if_recent-Ends :
        (self : Settings) (block : p.BlockHash) (recent : Bool) (time : ℕ)
        → Ends AnyResult time (wait_if_recent self block recent)
    unfolding wait_if_recent
    wait_if_recent-Ends self block false time = Ends-ret tt
    wait_if_recent-Ends self block true time = Ends-now (λ start e.
        wait_for_status-Ends self block start (rounds self.config.new_payload_wait_millis) start
          (omega arith) (omega arith) (omega arith))

    settle-Ends :
        (block : p.BlockHash) (request : NewPayloadRequest) (time : ℕ)
        → Ends AnyResult time (settle block request)
    unfolding settle
    settle-Ends block request time =
        Ends-bind (get_cached_payload_status-Ends block false time) (λ _ _ cached _.
          Ends-Option cached
            (Ends-Result (x.verify_versioned_hashes request) (λ _ _. Ends-ret tt)
              (λ _ _. Ends-ret tt))
            (λ _. Ends-ret tt))

    -- Under the same clock, a client's newPayload, by any of the methods that are dispatched to it,
    -- comes to a result: it does not panic, and the rounds that the model gives its wait are
    -- enough.
    pub handle_new_payload-Ends :
        (self : Settings) (request : Request) (time : ℕ)
        → is_one_of new_payload_methods request.method ≡ true
        → Ends AnyResult time (handle_new_payload self request)
    unfolding handle_new_payload
    handle_new_payload-Ends self request time known =
        Ends-try (decode_new_payload self request)
          (λ decoded parsed.
            let payload = x.from_json_payload decoded.payload in
            let block = (fields payload).block_hash in
            let (engine_request, formed) =
              new_payload_request-some self request decoded known parsed in
            Ends-bind {Q = AnyResult} (Ends-lift formed tt) (λ t1 _ engine_request _.
              Ends-Result (x.verify_payload_block_hash engine_request)
                (λ _ _.
                  Ends-bind (is_recent_payload-Ends self (fields payload).block_number t1)
                    (λ t2 _ recent _.
                      Ends-bind (wait_if_recent-Ends self block recent t2) (λ t3 _ definite _.
                        Ends-Option definite
                          (Ends-bind (settle-Ends block engine_request t3) (λ _ _ settled _.
                            Ends-Result settled (λ _ _. Ends-ret tt) (λ _ _. Ends-ret tt)))
                          (λ _. Ends-ret tt))))
                (λ _ _. Ends-ret tt)))
          (λ _. tt)
