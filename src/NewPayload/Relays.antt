-- ===== src/NewPayload/Relays.antt =====
-- src/new_payload.rs: what the engine says to the controller of a payload reaches the clients.
use eleel.Common.{
  ℕ, ◌<◌, ◌≡◌, refl, ap, ◌∙◌, inl, inr, Option, none, some, Result, false, find, Bool-cases,
}
use eleel.External.Lru.{Lru}
use eleel.External.Primitives.{Primitives}
use eleel.External.Lighthouse.{Lighthouse}
use eleel.Types.{JsonPayloadStatusV1, ExecutionPayload, fields, NewPayloadRequest}
use eleel.Fcu.Stores.{find-insert}
use eleel.Multiplexer.{NewPayloadCacheEntry, Caches}
use eleel.NewPayload.Handlers.{cached_status, get_cached_payload_status, record_status, settle}
use eleel.PayloadBuilder.Build.{is_rejected}
use eleel.PayloadBuilder.Methods.{register_canonical_payload}
use eleel.Prog.{Call, Reply, ret, locked, update, ◌>>=◌}
use eleel.Prog.Run.{run, run-bind}

module _ ⦃p : Primitives⦄ ⦃lru : Lru⦄ ⦃x : Lighthouse⦄ (engine : (c : Call) → Reply c) (time : ℕ)
    (payload : ExecutionPayload) (status : JsonPayloadStatusV1) (s : Caches) where
  abbrev block : p.BlockHash
  block = (fields payload).block_hash

  -- The entry in the cache of statuses, without a promotion.
  abbrev pub held_entry : Caches → Option NewPayloadCacheEntry
  held_entry t = find p.block_hash_discrete block (lru.iter t.new_payload_cache)

  abbrev entry : NewPayloadCacheEntry
  entry = record { status = status; block_number = (fields payload).block_number }

  abbrev written : Caches
  written = record s {
    new_payload_cache = lru.put p.block_hash_discrete block entry s.new_payload_cache;
  }

  run_register :
      (u : Caches) × (run engine time written (register_canonical_payload payload status.status)
        ≡ inl (tt, u, time))
      × (held_entry u ≡ held_entry written)
  unfolding run register_canonical_payload update
  run_register = elim (Bool-cases (is_rejected status.status)) [
    | inl rejected ↦ rw rejected (written, refl, refl)
    | inr kept ↦ rw kept (_, refl, refl)
  ]

  abbrev read_status : Caches → Caches
  read_status u = record u {
    new_payload_cache = (lru.get p.block_hash_discrete block u.new_payload_cache).1;
  }

  run_status :
      (u : Caches)
      → held_entry u ≡ some entry
      → run engine time u (get_cached_payload_status block false)
        ≡ inl (some status, read_status u, time)
  unfolding run get_cached_payload_status cached_status locked
  run_status u there =
      ap
        (λ o. inl (
          elim o as (λ _. Option JsonPayloadStatusV1) [ none ↦ none | some e ↦ some e.status ],
          read_status u,
          time,
        ))
        (lru.get_value p.block_hash_discrete block u.new_payload_cache ∙ there)

  run-update :
      run engine time s (
        update (λ t. record t {
          new_payload_cache = lru.put p.block_hash_discrete block entry t.new_payload_cache;
        }))
      ≡ inl (tt, written, time)
  unfolding run update
  run-update = refl

  run_ret : {A : Type 0} (a : A) (t : Caches) → run engine time t (ret a) ≡ inl (a, t, time)
  unfolding run
  run_ret a t = refl

  held_written : 0 < lru.cap s.new_payload_cache → held_entry written ≡ some entry
  held_written room =
      ap (find p.block_hash_discrete block)
        (lru.iter-put p.block_hash_discrete block entry s.new_payload_cache)
      ∙ find-insert p.block_hash_discrete _ block entry _ room

  run_record :
      0 < lru.cap s.new_payload_cache
      → (u : Caches) × (run engine time s (record_status payload status) ≡ inl (status, u, time))
        × (held_entry u ≡ some entry)
  unfolding record_status
  run_record room =
      let (u, registered, same) = run_register in
      (
        u,
        run-bind engine time s (update _) _ tt written time run-update
            ∙ run-bind engine time written (register_canonical_payload payload status.status) _ tt u
                time registered
            ∙ run_ret status u,
        same ∙ held_written room,
      )

  -- In a cache of positive capacity: if a status of the engine is recorded for a payload and a
  -- client that has waited for its block hash is settled next, the client is told that status,
  -- whatever its request's versioned hashes.
  pub record_status-then-settle :
      (request : NewPayloadRequest)
      → 0 < lru.cap s.new_payload_cache
      → (t : Caches) × (run engine time s
            (record_status payload status >>= λ _. settle block request)
          ≡ inl (Result.ok status, t, time))
  unfolding settle
  record_status-then-settle request room =
      let (u, recorded, there) = run_record room in
      (
        read_status u,
        run-bind engine time s (record_status payload status) _ status u time recorded
            ∙ run-bind engine time u (get_cached_payload_status block false) _ (some status)
                (read_status u) time (run_status u there)
            ∙ run_ret (Result.ok status) (read_status u),
      )
