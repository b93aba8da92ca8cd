-- ===== src/Fcu/Serves.antt =====
-- src/fcu.rs: a client gets the status that is in the cache. (Without this, telling SYNCING to
-- everyone would be right.)
use eleel.Common.{
  ℕ, suc, ◌+◌, ◌-◌, ◌/◌, ◌<◌, ◌≡◌, refl, ap, ◌∙◌, inl, none, some, true, false, ◌&&◌, ◌||◌, not,
  ltb, if◌then◌else◌, arith,
}
use eleel.Config.{exact}
use eleel.External.Lru.{Lru}
use eleel.External.Primitives.{Primitives}
use eleel.Types.{JsonForkchoiceStateV1, JsonPayloadStatusV1, forkchoice_state_discrete}
use eleel.Fcu.Handlers.{
  existing_status, just_and_fin_ok, get_cached_fcu, wait_for_fcu, client_status,
}
use eleel.Fcu.Status.{is_definite}
use eleel.Fcu.Stores.{held}
use eleel.Multiplexer.{Settings, Caches}
use eleel.NewPayload.Handlers.{rounds}
use eleel.Prog.{Call, Reply, Prog, ret, now, locked, call, ◌>>=◌}
use eleel.Prog.Run.{run, run-bind}

module _ ⦃p : Primitives⦄ ⦃lru : Lru⦄ (engine : (c : Call) → Reply c) (time : ℕ) where
  -- The caches after a client has read the status of its fork choice state.
  abbrev pub read_fcu : JsonForkchoiceStateV1 → Caches → Caches
  read_fcu fcu s = record s { fcu_cache = (lru.get forkchoice_state_discrete fcu s.fcu_cache).1 }

  module _ (self : Settings) (fcu : JsonForkchoiceStateV1) (s : Caches)
      (status : JsonPayloadStatusV1) where
    run-locked :
        {A : Type 0} (f : Caches → A × Caches)
        → run engine time s (locked f) ≡ inl ((f s).0, (f s).1, time)
    unfolding run locked
    run-locked f = refl

    run_ret : {A : Type 0} (a : A) (t : Caches) → run engine time t (ret a) ≡ inl (a, t, time)
    unfolding run
    run_ret a t = refl

    run_now :
        {A : Type 0} (f : ℕ → Prog A)
        → run engine time s (call now >>= f) ≡ run engine time s (f time)
    unfolding run call ◌>>=◌
    run_now f = refl

    -- A read that finds the status and leaves `after`, where the checkpoints are accepted.
    pub record IsReady (after : Caches) : Type 0 where
      pub finds : existing_status self.config.fcu_matching fcu s ≡ (some status, after)
      pub knows :
          run engine time after (just_and_fin_ok self.config.fcu_matching fcu)
          ≡ inl (true, after, time)

    module _ (after : Caches) (ready : IsReady after) (definite : is_definite status ≡ true) where
      run_get_cached :
          run engine time s (get_cached_fcu self fcu true) ≡ inl (some status, after, time)
      unfolding get_cached_fcu
      run_get_cached =
          run-bind engine time s (locked (existing_status self.config.fcu_matching fcu)) _
            (some status) after time
            (run-locked (existing_status self.config.fcu_matching fcu)
              ∙ ap (λ r. inl (r.0, r.1, time)) ready.finds)
          ∙ run-bind engine time after (just_and_fin_ok self.config.fcu_matching fcu) _ true after
              time ready.knows
          ∙ ends
        where
          ends :
              run engine time after
                (ret (if true && (not true || is_definite status) then some status else none))
              ≡ inl (some status, after, time)
          ends =
              ap (λ b. run engine time after (ret (if b then some status else none))) definite
              ∙ run_ret (some status) after

      run_wait :
          (n : ℕ)
          → 0 < self.config.fcu_wait_millis
          → run engine time s (wait_for_fcu self fcu time (suc n)) ≡ inl (some status, after, time)
      unfolding wait_for_fcu
      run_wait n waits =
          run_now _
          ∙ ap
              (λ b. run engine time s (elim b [
                | false ↦ ret none
                | true ↦ get_cached_fcu self fcu true >>= λ found. elim found [
                  | some st ↦ ret (some st)
                  | none ↦ call (Call.sleep 50) >>= λ _. wait_for_fcu self fcu time n
                ]
              ]))
              (early self.config.fcu_wait_millis waits)
          ∙ run-bind engine time s (get_cached_fcu self fcu true) _ (some status) after time
              run_get_cached
          ∙ run_ret (some status) after
        where
          early : (wait : ℕ) → 0 < wait → ltb (time - time) wait ≡ true
          early wait h = ground arith

      -- With some time to wait, a client whose read finds a definite status gets it at once.
      pub client_status_of_ready :
          0 < self.config.fcu_wait_millis
          → run engine time s (client_status self fcu) ≡ inl (status, after, time)
      unfolding client_status
      client_status_of_ready waits =
          run_now _
          ∙ run-bind engine time s (wait_for_fcu self fcu time (rounds self.config.fcu_wait_millis))
              _ (some status) after time
              (ap (λ n. run engine time s (wait_for_fcu self fcu time n)) more ∙ run_wait _ waits)
          ∙ run_ret status after
        where
          more : rounds self.config.fcu_wait_millis ≡ suc (self.config.fcu_wait_millis / 50 + 1)
          more = omega arith

    exact-IsReady :
        self.config.fcu_matching ≡ exact → held fcu s ≡ some status → IsReady (read_fcu fcu s)
    unfolding existing_status run just_and_fin_ok
    exact-IsReady mode there = record {
      finds =
          ap (λ m. existing_status m fcu s) mode
          ∙ ap (λ o. (o, read_fcu fcu s))
              (lru.get_value forkchoice_state_discrete fcu s.fcu_cache ∙ there);
      knows = ap (λ m. run engine time (read_fcu fcu s) (just_and_fin_ok m fcu)) mode;
    }

    -- With Exact matching and some time to wait, a client whose fork choice state has a definite
    -- status in the cache gets that status at once, and the entry becomes the most recently used.
    pub client_status_of_held :
        0 < self.config.fcu_wait_millis
        → self.config.fcu_matching ≡ exact
        → held fcu s ≡ some status
        → is_definite status ≡ true
        → run engine time s (client_status self fcu) ≡ inl (status, read_fcu fcu s, time)
    client_status_of_held waits mode there definite =
        client_status_of_ready (read_fcu fcu s) (exact-IsReady mode there) definite waits
