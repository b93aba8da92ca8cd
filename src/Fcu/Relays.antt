-- ===== src/Fcu/Relays.antt =====
-- src/fcu.rs: what the engine says to the controller reaches the clients.
use eleel.Common.{ℕ, ◌<◌, ◌≡◌, refl, ◌∙◌, inl, inr, some, Bool, true, false, ◌&&◌, if◌then◌else◌}
use eleel.Config.{exact}
use eleel.External.Lru.{Lru}
use eleel.External.Primitives.{Primitives}
use eleel.Types.{JsonForkchoiceStateV1, JsonPayloadStatusV1}
use eleel.Fcu.Handlers.{store_fcu, is_valid, note_checkpoints, record_fcu, client_status}
use eleel.Fcu.Serves.{client_status_of_held}
use eleel.Fcu.Status.{is_definite}
use eleel.Fcu.Stores.{held, store_fcu-Stored}
use eleel.Multiplexer.{Settings, Caches}
use eleel.Prog.{Call, Reply, ret, locked, update, ◌>>=◌}
use eleel.Prog.Run.{run, run-bind}

module _ ⦃p : Primitives⦄ ⦃lru : Lru⦄ (engine : (c : Call) → Reply c) (time : ℕ) (self : Settings)
    (fcu : JsonForkchoiceStateV1) (status : JsonPayloadStatusV1) (s : Caches) where
  held_after_store :
      0 < lru.cap s.fcu_cache
      → ((existing : JsonPayloadStatusV1)
          → held fcu s ≡ some existing
          → is_definite existing ≡ false)
      → held fcu (store_fcu fcu status s).1 ≡ some status
  held_after_store room open_ = elim (store_fcu-Stored fcu status s room) [
    | inl (existing, there, definite, _, _) ↦ absurd (cc (open_ existing there))
    | inr (_, _, stored) ↦ stored
  ]

  run_store :
      run engine time s (locked (store_fcu fcu status))
      ≡ inl ((store_fcu fcu status s).0, (store_fcu fcu status s).1, time)
  unfolding run locked
  run_store = refl

  run_note :
      (b : Bool) (t : Caches)
      → held fcu t ≡ some status
      → (u : Caches) × (run engine time t (if b then note_checkpoints fcu else ret tt)
          ≡ inl (tt, u, time))
        × (held fcu u ≡ some status)
  unfolding run note_checkpoints update ◌>>=◌
  run_note true t there = (_, refl, there)
  run_note false t there = (t, refl, there)

  run_record :
      0 < lru.cap s.fcu_cache
      → ((existing : JsonPayloadStatusV1)
          → held fcu s ≡ some existing
          → is_definite existing ≡ false)
      → (u : Caches) × (run engine time s (record_fcu fcu status) ≡ inl (tt, u, time))
        × (held fcu u ≡ some status)
  unfolding record_fcu
  run_record room open_ =
      let (cached, t) = store_fcu fcu status s in
      let (u, noted, there) =
        run_note (cached && is_valid status.status) t (held_after_store room open_) in
      (
        u,
        run-bind engine time s (locked (store_fcu fcu status)) _ cached t time run_store ∙ noted,
        there,
      )

  -- With Exact matching, some time to wait and a cache of positive capacity that holds no definite
  -- status of the fork choice state: if a definite status of the engine is recorded and a client
  -- asks for the state next, the client is told that status, at once.
  pub record_fcu-then-client_status :
      0 < self.config.fcu_wait_millis
      → self.config.fcu_matching ≡ exact
      → 0 < lru.cap s.fcu_cache
      → is_definite status ≡ true
      → ((existing : JsonPayloadStatusV1)
          → held fcu s ≡ some existing
          → is_definite existing ≡ false)
      → (t : Caches) × (run engine time s (record_fcu fcu status >>= λ _. client_status self fcu)
          ≡ inl (status, t, time))
  record_fcu-then-client_status waits mode room definite open_ =
      let (u, recorded, there) = run_record room open_ in
      (
        _,
        run-bind engine time s (record_fcu fcu status) _ tt u time recorded
            ∙ client_status_of_held engine time self fcu u status waits mode there definite,
      )
