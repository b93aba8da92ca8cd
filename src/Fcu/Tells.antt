-- ===== src/Fcu/Tells.antt =====
-- src/fcu.rs: a VALID answer to the controller reaches the clients, whatever the way to match.
use mathlib.Core.Bool.{decide}
use eleel.Common.{
  ℕ, zero, suc, ◌<◌, ◌≡◌, refl, ap, ◌∙◌, inl, if_pos, some, true, false, List, ◌∷◌, ◌&&◌,
  if◌then◌else◌, find, is_some, arith, decide,
}
use eleel.Config.{FcuMatching, exact, loose, head_only}
use eleel.External.Lru.{Lru, insert}
use eleel.External.Primitives.{Primitives}
use eleel.Types.{
  JsonForkchoiceStateV1, JsonPayloadStatusV1, forkchoice_state_discrete, status_discrete, valid,
}
use eleel.Fcu.Handlers.{
  find_head, existing_status, just_and_fin_ok, store_fcu, is_valid, note_checkpoints, record_fcu,
  client_status,
}
use eleel.Fcu.Serves.{IsReady, client_status_of_ready, read_fcu}
use eleel.Fcu.Status.{is_definite}
use eleel.Fcu.Stores.{held, find-insert, unknown, kept, replaced, store_fcu-Way}
use eleel.Multiplexer.{Settings, Caches}
use eleel.Prog.{Call, Reply, ret, locked, update, ◌>>=◌}
use eleel.Prog.Run.{run, run-bind}

module _ ⦃p : Primitives⦄ ⦃lru : Lru⦄ where
  -- The entry that was written last, first in the order of use.
  abbrev InFront : JsonForkchoiceStateV1 → JsonPayloadStatusV1 → Caches → Type 0
  InFront fcu status s =
      (rest : List (JsonForkchoiceStateV1 × JsonPayloadStatusV1)) × (lru.iter s.fcu_cache
        ≡ (fcu, status) ∷ rest)

  insert-front :
      (cap : ℕ) (fcu : JsonForkchoiceStateV1) (status : JsonPayloadStatusV1)
      (l : List (JsonForkchoiceStateV1 × JsonPayloadStatusV1))
      → 0 < cap
      → (rest : List (JsonForkchoiceStateV1 × JsonPayloadStatusV1)) × (insert
            forkchoice_state_discrete cap fcu status l
          ≡ (fcu, status) ∷ rest)
  insert-front zero fcu status l room = absurd (omega (arith, room))
  insert-front (suc n) fcu status l room = (_, refl)

  store_fcu-front :
      (fcu : JsonForkchoiceStateV1) (status : JsonPayloadStatusV1) (s : Caches)
      → 0 < lru.cap s.fcu_cache
      → ((existing : JsonPayloadStatusV1)
          → held fcu s ≡ some existing
          → is_definite existing ≡ false)
      → (c : lru.LruCache JsonForkchoiceStateV1 JsonPayloadStatusV1) × (store_fcu fcu status s
          ≡ (true, record s { fcu_cache = c }))
        × InFront fcu status (record s { fcu_cache = c })
  store_fcu-front fcu status s room open_ = elim (store_fcu-Way fcu status s) [
    | unknown missing cached wrote ↦
        let (rest, front) =
          insert-front (lru.cap s.fcu_cache) fcu status (lru.iter s.fcu_cache) room in
        (_, cc (cached, wrote.others), (rest, wrote.entries ∙ front))
    | kept existing there definite cached wrote ↦ absurd (cc (open_ existing there, definite))
    | replaced existing there opened cached wrote ↦
        (_, cc (cached, wrote.others), (_, wrote.entries))
  ]

  -- A state whose checkpoints are known, with its status in front.
  record IsTold (fcu : JsonForkchoiceStateV1) (status : JsonPayloadStatusV1) (s : Caches)
      : Type 0 where
    front : InFront fcu status s
    justified :
        lru.contains p.block_hash_discrete fcu.safe_block_hash s.justified_block_cache ≡ true
    finalized :
        lru.contains p.block_hash_discrete fcu.finalized_block_hash s.finalized_block_cache ≡ true

  contains-put :
      (block : p.BlockHash) (c : lru.LruCache p.BlockHash (Unit {0}))
      → 0 < lru.cap c
      → lru.contains p.block_hash_discrete block (lru.put p.block_hash_discrete block tt c) ≡ true
  contains-put block c room =
      lru.contains_lem p.block_hash_discrete block (lru.put p.block_hash_discrete block tt c)
      ∙ ap is_some (
          ap (find p.block_hash_discrete block) (lru.iter-put p.block_hash_discrete block tt c)
          ∙ find-insert p.block_hash_discrete (lru.cap c) block tt (lru.iter c) room)

  valid-is_valid :
      (status : JsonPayloadStatusV1) → status.status ≡ valid → is_valid status.status ≡ true
  unfolding is_valid status_discrete decide
  valid-is_valid status e = rw e refl

  valid-is_definite :
      (status : JsonPayloadStatusV1) → status.status ≡ valid → is_definite status ≡ true
  unfolding is_definite
  valid-is_definite status e = rw e refl

  module _ (engine : (c : Call) → Reply c) (time : ℕ) (self : Settings)
      (fcu : JsonForkchoiceStateV1) (status : JsonPayloadStatusV1) where
    run_record :
        (s : Caches)
        → status.status ≡ valid
        → 0 < lru.cap s.fcu_cache
        → 0 < lru.cap s.justified_block_cache
        → 0 < lru.cap s.finalized_block_cache
        → ((existing : JsonPayloadStatusV1)
            → held fcu s ≡ some existing
            → is_definite existing ≡ false)
        → (t : Caches) × (run engine time s (record_fcu fcu status) ≡ inl (tt, t, time))
          × IsTold fcu status t
    unfolding record_fcu note_checkpoints run locked update ◌>>=◌
    run_record s called room room_j room_f open_ =
        let (c, stored, front) = store_fcu-front fcu status s room open_ in
        let written : Caches = record s { fcu_cache = c } in
        let wrote : run engine time s (locked (store_fcu fcu status)) ≡ inl (true, written, time) =
          ap (λ r. inl (r.0, r.1, time)) stored in
        (
          _,
          run-bind engine time s (locked (store_fcu fcu status))
                (λ cached.
                  if cached && is_valid status.status then note_checkpoints fcu else ret tt)
                true written time wrote
              ∙ ap
                  (λ b.
                    run engine time written (if true && b then note_checkpoints fcu else ret tt))
                  (valid-is_valid status called),
          record {
            front = front;
            justified = contains-put fcu.safe_block_hash s.justified_block_cache room_j;
            finalized = contains-put fcu.finalized_block_hash s.finalized_block_cache room_f;
          },
        )

    found_front :
        (t : Caches)
        → IsTold fcu status t
        → find_head fcu.head_block_hash (lru.iter t.fcu_cache) ≡ some status
    unfolding find_head
    found_front t told =
        let (rest, front) = told.front in
        ap (find_head fcu.head_block_hash) front
        ∙ if_pos (p.block_hash_discrete fcu.head_block_hash fcu.head_block_hash) refl _ _

    held_front : (t : Caches) → IsTold fcu status t → held fcu t ≡ some status
    held_front t told =
        let (rest, front) = told.front in
        ap (find forkchoice_state_discrete fcu) front
        ∙ if_pos (forkchoice_state_discrete fcu fcu) refl _ _

    found :
        (mode : FcuMatching) (t : Caches)
        → IsTold fcu status t
        → (after : Caches) × (existing_status mode fcu t ≡ (some status, after))
          × (run engine time after (just_and_fin_ok mode fcu) ≡ inl (true, after, time))
    unfolding existing_status just_and_fin_ok run locked ◌>>=◌
    found exact t told = (
      read_fcu engine time fcu t,
      ap (λ o. (o, read_fcu engine time fcu t))
          (lru.get_value forkchoice_state_discrete fcu t.fcu_cache ∙ held_front t told),
      refl,
    )
    found head_only t told = (t, ap (λ o. (o, t)) (found_front t told), refl)
    found loose t told = (
      t,
      ap (λ o. (o, t)) (found_front t told),
      rw (just_and_fin_ok, told.justified) (rw told.finalized refl),
    )

    told-IsReady :
        (t : Caches)
        → IsTold fcu status t
        → (after : Caches) × IsReady engine time self fcu t status after
    told-IsReady t told =
        let (after, finds, knows) = found self.config.fcu_matching t told in
        (after, record { finds = finds; knows = knows })

    -- With any way to match, some time to wait, and caches of fork choice states, justified and
    -- finalized blocks of positive capacity of which the first holds no definite status of the
    -- state: if a VALID status of the engine is recorded and a client asks for the state next, the
    -- client is told that status, at once.
    pub record_fcu-then-any_client :
        (s : Caches)
        → 0 < self.config.fcu_wait_millis
        → status.status ≡ valid
        → 0 < lru.cap s.fcu_cache
        → 0 < lru.cap s.justified_block_cache
        → 0 < lru.cap s.finalized_block_cache
        → ((existing : JsonPayloadStatusV1)
            → held fcu s ≡ some existing
            → is_definite existing ≡ false)
        → (t : Caches) × (run engine time s (record_fcu fcu status >>= λ _. client_status self fcu)
            ≡ inl (status, t, time))
    record_fcu-then-any_client s waits called room room_j room_f open_ =
        let (t, recorded, told) = run_record s called room room_j room_f open_ in
        let (after, ready) = told-IsReady t told in
        (
          after,
          run-bind engine time s (record_fcu fcu status) _ tt t time recorded
              ∙ client_status_of_ready engine time self fcu t status after ready
                  (valid-is_definite status called) waits,
        )
