-- ===== src/Fcu/Waits.antt =====
-- src/fcu.rs, `handle_fcu`: the wait ends, and never by the bound on its rounds.
use eleel.Common.{
  ℕ, zero, suc, ◌+◌, ◌-◌, ◌*◌, ◌≤◌, ◌<◌, Option, none, some, Bool, true, false, ltb, ltb→lt, arith,
}
use eleel.Config.{FcuMatching, exact, loose, head_only}
use eleel.External.Lru.{Lru}
use eleel.External.Primitives.{Primitives}
use eleel.External.Lighthouse.{Lighthouse}
use eleel.Types.{JsonForkchoiceStateV1, Request, parse_as}
use eleel.Fcu.Handlers.{
  client_payload_id, handle_fcu, just_and_fin_ok, get_cached_fcu, wait_for_fcu, client_status,
}
use eleel.PayloadBuilder.Methods.{get_existing_payload_id}
use eleel.Multiplexer.{Settings}
use eleel.NewPayload.Handlers.{rounds}
use eleel.Prog.Ends.{
  AnyResult, Ends-try, Ends-Result, Ends, Ends-ret, Ends-bind, Ends-locked, Ends-Bool, Ends-Option,
  Ends-now, Ends-sleep,
}

module _ ⦃p : Primitives⦄ ⦃lru : Lru⦄ where
  just_and_fin_ok-Ends :
      (mode : FcuMatching) (fcu : JsonForkchoiceStateV1) (time : ℕ)
      → Ends AnyResult time (just_and_fin_ok mode fcu)
  unfolding just_and_fin_ok
  just_and_fin_ok-Ends exact fcu time = Ends-ret tt
  just_and_fin_ok-Ends head_only fcu time = Ends-ret tt
  just_and_fin_ok-Ends loose fcu time =
      Ends-bind {Q = AnyResult} (Ends-locked _ (λ _. tt))
        (λ later _ known _. Ends-Bool known (λ _. Ends-locked _ (λ _. tt)) (λ _. Ends-ret tt))

  get_cached_fcu-Ends :
      (self : Settings) (fcu : JsonForkchoiceStateV1) (definite_only : Bool) (time : ℕ)
      → Ends AnyResult time (get_cached_fcu self fcu definite_only)
  unfolding get_cached_fcu
  get_cached_fcu-Ends self fcu definite_only time =
      Ends-bind {Q = AnyResult} (Ends-locked _ (λ _. tt)) (λ later _ existing _.
        Ends-Option existing (Ends-ret tt) (λ status.
          Ends-bind (just_and_fin_ok-Ends self.config.fcu_matching fcu later)
            (λ _ _ _ _. Ends-ret tt)))

  wait_for_fcu-Ends :
      (self : Settings) (fcu : JsonForkchoiceStateV1) (start n time : ℕ)
      → 0 < n
      → start ≤ time
      → self.config.fcu_wait_millis + 50 ≤ time - start + n * 50
      → Ends AnyResult time (wait_for_fcu self fcu start n)
  unfolding wait_for_fcu
  wait_for_fcu-Ends self fcu start zero time some_left begun enough = absurd (omega arith)
  wait_for_fcu-Ends self fcu start (suc n) time some_left begun enough = Ends-now (λ t1 e1.
      Ends-Bool (ltb (t1 - start) self.config.fcu_wait_millis)
        (λ early.
          let open_ : t1 - start < self.config.fcu_wait_millis = ltb→lt _ _ early in
          Ends-bind (get_cached_fcu-Ends self fcu true t1) (λ t2 e2 found _.
            Ends-Option found
              (Ends-sleep 50 (λ t3 e3.
                wait_for_fcu-Ends self fcu start n t3 (omega (arith, e1, e2, e3))
                  (omega (arith, e1, e2, e3)) (omega (arith, e1, e2, e3))))
              (λ status. Ends-ret tt)))
        (λ _. Ends-ret tt))

  client_status-Ends :
      (self : Settings) (fcu : JsonForkchoiceStateV1) (time : ℕ)
      → Ends AnyResult time (client_status self fcu)
  unfolding client_status
  client_status-Ends self fcu time = Ends-now (λ start e.
      Ends-bind
        (wait_for_fcu-Ends self fcu start (rounds self.config.fcu_wait_millis) start (omega arith)
          (omega arith) (omega arith))
        (λ t1 _ definite _.
          Ends-Option definite
            (Ends-bind (get_cached_fcu-Ends self fcu false t1)
              (λ t2 _ cached _. Ends-Option cached (Ends-ret tt) (λ status. Ends-ret tt)))
            (λ status. Ends-ret tt)))

  module _ ⦃x : Lighthouse⦄ where
    client_payload_id-Ends :
        (head : p.BlockHash) (attributes : Option p.AttributesV2) (time : ℕ)
        → Ends AnyResult time (client_payload_id head attributes)
    unfolding client_payload_id get_existing_payload_id
    client_payload_id-Ends head none time = Ends-ret tt
    client_payload_id-Ends head (some attributes) time =
        Ends-bind {Q = AnyResult} (Ends-locked _ (λ _. tt))
          (λ _ _ found _. Ends-Result found (λ _ _. Ends-ret tt) (λ _ _. Ends-ret tt))

    -- Whatever the other handlers do to the caches and the engine answers, under a clock that does
    -- not run back and by which a sleep takes at least its time, a client's forkchoiceUpdated comes
    -- to a result: it does not panic, and the rounds that the model gives its wait are enough.
    pub handle_fcu-Ends :
        (self : Settings) (request : Request) (time : ℕ)
        → Ends AnyResult time (handle_fcu self request)
    unfolding handle_fcu
    handle_fcu-Ends self request time =
        Ends-try (parse_as x.serde.decode_client_fcu request)
          (λ (id, params) _.
            let (fcu, attributes) = params in
            Ends-bind (client_status-Ends self fcu time) (λ t1 _ status _.
              Ends-bind (client_payload_id-Ends fcu.head_block_hash attributes t1)
                (λ _ _ _ _. Ends-ret tt)))
          (λ _. tt)
