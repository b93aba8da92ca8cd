-- ===== src/Provenance/Builder.antt =====
-- src/payload_builder.rs among other handlers: dummy payloads stand on blocks that the engine did
-- not reject.
use eleel.Common.{
  ℕ, ◌≡◌, refl, sym, String, Option, none, some, inl, inr, Result, ok, err, Option-cases, subst,
}
use eleel.External.Lru.{Lru}
use eleel.External.Primitives.{Primitives}
use eleel.External.Lighthouse.{Lighthouse}
use eleel.Types.{PayloadId, ExecutionPayload, fields, JsonPayloadStatusV1}
use eleel.Entries.{Entries, Entries-get, get_entry, Entries-put, Entries-get_or_insert}
use eleel.Multiplexer.{Settings, PayloadInfo, PayloadBuilder, Caches}
use eleel.PayloadBuilder.Build.{
  payload_id_discrete, attributes_key_discrete, payload_info_of, is_rejected,
}
use eleel.PayloadBuilder.Laws.{build_payload-fields}
use eleel.PayloadBuilder.Methods.{
  build_payload, store_payload, finish, register_locked, on_builder, register_attributes,
  get_id_locked, get_existing_payload_id, track_payload, register_canonical_payload,
  get_payload_locked, get_payload,
}
use eleel.Prog.Safe.{
  Log, Safe, Anything, Safe-bind, Safe-locked, Safe-update, Safe-ret, Safe-if, Safe-Option,
  Safe-lift,
}
use eleel.Provenance.Invariant.{
  PayloadSaid, PayloadSaid-mono, InfoSaid, BuiltOn, IsSound, with_builder,
}
use eleel.Slot.{timestamp_to_slot}

pub found_of_ok :
    {A : Type 0} (o : Option A) (message : String) (a : A)
    → elim o as (λ _. Result A String) [ none ↦ err message | some b ↦ ok b ] ≡ ok a
    → o ≡ some a
found_of_ok none message a e = absurd (cc)
found_of_ok (some b) message a e = cc

module _ ⦃p : Primitives⦄ ⦃lru : Lru⦄ where
  record IsBuilder (l : Log) (b : PayloadBuilder) : Type 0 where
    info : Entries (λ e. InfoSaid l e.0 e.1) b.payload_info
    payloads : Entries (λ e. BuiltOn l e.1) b.payloads

  module _ ⦃x : Lighthouse⦄ where
    on_builder-IsSound :
        {A : Type 0} (f : PayloadBuilder → A × PayloadBuilder) (l : Log) (s : Caches)
        → ((b : PayloadBuilder) → IsBuilder l b → IsBuilder l (f b).1)
        → IsSound l s
        → IsSound l (on_builder f s).1
    on_builder-IsSound f l s keeps h =
        let after = keeps s.payload_builder (record { info = h.info; payloads = h.payloads }) in
        with_builder h (f s.payload_builder).1 after.info after.payloads

    finish-IsBuilder :
        (key : p.BlockHash × p.PayloadAttributes) (built : Option (Result ExecutionPayload String))
        (l : Log) (b : PayloadBuilder)
        → ((payload : ExecutionPayload) → built ≡ some (ok payload) → BuiltOn l payload)
        → IsBuilder l b
        → IsBuilder l (finish key built b).1
    unfolding finish store_payload
    finish-IsBuilder key none l b q h = h
    finish-IsBuilder key (some (err message)) l b q h = h
    finish-IsBuilder key (some (ok payload)) l b q h = record {
      info = h.info;
      payloads = Entries-put _ payload_id_discrete _ payload b.payloads h.payloads (q payload refl);
    }

    build_payload-BuiltOn :
        (self : Settings) (slot : ℕ) (parent_hash : p.BlockHash) (attributes : p.PayloadAttributes)
        (parent_info : PayloadInfo) (b : PayloadBuilder) (l : Log) (payload : ExecutionPayload)
        → InfoSaid l parent_hash parent_info
        → build_payload self slot parent_hash attributes parent_info b ≡ some (ok payload)
        → BuiltOn l payload
    build_payload-BuiltOn self slot parent_hash attributes parent_info b l payload said e =
        let (parent, number) =
          build_payload-fields self slot parent_hash attributes parent_info b payload e in
        record {
          parent = parent_info;
          said = subst (λ h. InfoSaid l h parent_info) (sym parent) said;
          number = number;
        }

    register_locked-IsBuilder :
        (self : Settings) (slot : ℕ) (parent_hash : p.BlockHash) (attributes : p.PayloadAttributes)
        (l : Log) (b : PayloadBuilder)
        → IsBuilder l b
        → IsBuilder l (register_locked self slot parent_hash attributes b).1
    unfolding register_locked
    register_locked-IsBuilder self slot parent_hash attributes l b h =
        elim (Option-cases
          (lru.get attributes_key_discrete (parent_hash, attributes) b.payload_attributes).0) [
            | inr (id, known) ↦
                rw (known, register_locked) (record { info = h.info; payloads = h.payloads })
            | inl unknown ↦
                rw (unknown, register_locked)
                  (elim (Option-cases
                    (lru.get p.block_hash_discrete parent_hash b.payload_info).0) [
                      | inl orphan ↦ rw orphan (record {
                        info =
                            Entries-get _ p.block_hash_discrete parent_hash b.payload_info h.info;
                        payloads = h.payloads;
                      })
                      | inr (parent_info, found) ↦ rw found (
                          finish-IsBuilder _ _ l _
                            (λ payload built.
                              build_payload-BuiltOn self slot parent_hash attributes parent_info _ l
                                payload
                                (get_entry (λ e. InfoSaid l e.0 e.1) p.block_hash_discrete
                                  parent_hash b.payload_info h.info found)
                                built)
                            (record {
                              info =
                                  Entries-get _ p.block_hash_discrete parent_hash b.payload_info
                                    h.info;
                              payloads = h.payloads;
                            }))
                    ])
          ]

    pub register_attributes-Safe :
        (self : Settings) (parent_hash : p.BlockHash) (attributes : p.PayloadAttributes) (l : Log)
        → Safe IsSound Anything l (register_attributes self parent_hash attributes)
    unfolding register_attributes
    register_attributes-Safe self parent_hash attributes l =
        Safe-Option (timestamp_to_slot self (p.timestamp attributes)) (λ _. Safe-ret tt)
          (λ slot _.
            Safe-bind {Q = Anything}
              (Safe-locked _ (λ l' e s i. (
                on_builder-IsSound (register_locked self slot parent_hash attributes) l' s
                    (register_locked-IsBuilder self slot parent_hash attributes l') i,
                tt,
              )))
              (λ l' e result _. Safe-lift result (λ _ _. tt)))

    pub get_existing_payload_id-Safe :
        (parent_hash : p.BlockHash) (attributes : p.PayloadAttributes) (l : Log)
        → Safe IsSound Anything l (get_existing_payload_id parent_hash attributes)
    unfolding get_existing_payload_id get_id_locked
    get_existing_payload_id-Safe parent_hash attributes l = Safe-locked _ (λ l' e s i. (
      on_builder-IsSound (get_id_locked parent_hash attributes) l' s
          (λ b h. record { info = h.info; payloads = h.payloads }) i,
      tt,
    ))

    pub register_canonical_payload-Safe :
        (payload : ExecutionPayload) (status : JsonPayloadStatusV1) (l : Log)
        → PayloadSaid l payload status
        → Safe IsSound Anything l (register_canonical_payload payload status.status)
    unfolding register_canonical_payload track_payload
    register_canonical_payload-Safe payload status l said =
        Safe-if (is_rejected status.status) (λ _. Safe-ret tt)
          (λ kept. Safe-update _ (λ l' e s i.
            with_builder i _
              (Entries-get_or_insert (λ x. InfoSaid l' x.0 x.1) p.block_hash_discrete
                (fields payload).block_hash (payload_info_of payload) s.payload_builder.payload_info
                i.info
                (record {
                  payload = payload;
                  status = status;
                  said = PayloadSaid-mono e said;
                  kept = kept;
                  hash = refl;
                  figures = refl;
                }))
              i.payloads))

    -- A payload that a client fetches stands on a block that the engine did not reject.
    pub get_payload-Safe :
        (payload_id : PayloadId) (l : Log)
        → Safe IsSound
            (λ l' result. (payload : ExecutionPayload) → result ≡ ok payload → BuiltOn l' payload)
            l
            (get_payload payload_id)
    unfolding get_payload get_payload_locked
    get_payload-Safe payload_id l = Safe-locked _ (λ l' e s i. (
      on_builder-IsSound (get_payload_locked payload_id) l' s
          (λ b h. record {
            info = h.info;
            payloads = Entries-get _ payload_id_discrete payload_id b.payloads h.payloads;
          })
          i,
      λ payload got.
          get_entry (λ x. BuiltOn l' x.1) payload_id_discrete payload_id s.payload_builder.payloads
            i.payloads
            (found_of_ok (lru.get payload_id_discrete payload_id s.payload_builder.payloads).0 _
              payload got),
    ))
