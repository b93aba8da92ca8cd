-- ===== src/PayloadBuilder/Registers.antt =====
-- src/payload_builder.rs: what `register_attributes` leaves for the clients to fetch.
use mathlib.Core.Path.{subst₂}
use mathlib.Core.Logic.{if_pos}
use eleel.Common.{
  ℕ, ◌+◌, ◌%◌, ◌^◌, ◌<◌, ◌≡◌, refl, sym, ap, ◌∙◌, ◌⊎◌, inl, inr, String, ◌+s◌, Option, none, some,
  Option-cases, Result, ok, err, List, find, subst,
}
use eleel.External.Lru.{Lru, promote}
use eleel.External.Primitives.{Primitives}
use eleel.External.Lighthouse.{Lighthouse}
use eleel.Types.{PayloadId, ExecutionPayload}
use eleel.Fcu.Stores.{find-insert}
use eleel.Multiplexer.{Settings, PayloadInfo, PayloadBuilder}
use eleel.PayloadBuilder.Build.{payload_id_discrete, attributes_key_discrete}
use eleel.PayloadBuilder.Bytes.{to_be_bytes}
use eleel.PayloadBuilder.Methods.{
  build_payload, store_payload, finish, register_locked, get_id_locked, get_payload_locked,
}
use eleel.PayloadBuilder.Shape.{IsBuilt, build_payload-IsBuilt}

find-promote :
    {K V : Type 0} (dec : Discrete K) (k : K) (v : V) (l : List (K × V))
    → find dec k l ≡ some v
    → find dec k (promote dec k l) ≡ some v
find-promote dec k v l e = rw (e, promote) (if_pos (dec k k) refl _ _)

module _ ⦃p : Primitives⦄ ⦃lru : Lru⦄ ⦃x : Lighthouse⦄ where
  -- A new payload: it is as its parent and its attributes ask for it, it has the next id, and it
  -- is what that id fetches.
  pub record IsNewPayload (self : Settings) (slot : ℕ) (parent_hash : p.BlockHash)
      (attributes : p.PayloadAttributes) (builder after : PayloadBuilder) (id : PayloadId)
      : Type 0 where
    pub parent_info : PayloadInfo
    pub payload : ExecutionPayload
    pub known_parent :
        find p.block_hash_discrete parent_hash (lru.iter builder.payload_info) ≡ some parent_info
    pub built : IsBuilt self slot parent_hash attributes parent_info builder payload
    pub next : id ≡ to_be_bytes builder.next_payload_id
    pub counted : after.next_payload_id ≡ (builder.next_payload_id + 1) % 2 ^ 64
    pub fetched : (get_payload_locked id after).0 ≡ ok payload

  module _ (self : Settings) (slot : ℕ) (parent_hash : p.BlockHash)
      (attributes : p.PayloadAttributes) (builder : PayloadBuilder) where
    abbrev pub key : p.BlockHash × p.PayloadAttributes
    key = (parent_hash, attributes)

    abbrev pub seen : PayloadBuilder
    seen = record builder {
      payload_attributes = (lru.get attributes_key_discrete key builder.payload_attributes).1;
    }

    abbrev pub read : PayloadBuilder
    read = record seen {
      payload_info = (lru.get p.block_hash_discrete parent_hash builder.payload_info).1;
    }

    pub register_known :
        (id : PayloadId)
        → (lru.get attributes_key_discrete key builder.payload_attributes).0 ≡ some id
        → register_locked self slot parent_hash attributes builder ≡ (some (ok id), seen)
    unfolding register_locked
    register_known id e = rw (e, register_locked) refl

    pub register_orphan :
        (lru.get attributes_key_discrete key builder.payload_attributes).0 ≡ none
        → (lru.get p.block_hash_discrete parent_hash builder.payload_info).0 ≡ none
        → register_locked self slot parent_hash attributes builder
          ≡ (some (err ("unknown parent: " +s p.debug_block_hash parent_hash)), read)
    unfolding register_locked
    register_orphan e g = rw (e, g, register_locked) refl

    pub register_built :
        (parent_info : PayloadInfo)
        → (lru.get attributes_key_discrete key builder.payload_attributes).0 ≡ none
        → (lru.get p.block_hash_discrete parent_hash builder.payload_info).0 ≡ some parent_info
        → register_locked self slot parent_hash attributes builder
          ≡ finish key (build_payload self slot parent_hash attributes parent_info read) read
    unfolding register_locked
    register_built parent_info e g = rw (e, g, register_locked) refl

    -- A registration that succeeds.
    abbrev pub Registered : PayloadId → PayloadBuilder → Type 0
    Registered id after =
        ((get_id_locked parent_hash attributes after).0 ≡ ok id)
        × ((find attributes_key_discrete key (lru.iter builder.payload_attributes) ≡ some id)
            ⊎ IsNewPayload self slot parent_hash attributes builder after id)

    get_id_lem :
        (id : PayloadId) (b : PayloadBuilder)
        → find attributes_key_discrete key (lru.iter b.payload_attributes) ≡ some id
        → (get_id_locked parent_hash attributes b).0 ≡ ok id
    unfolding get_id_locked
    get_id_lem id b e =
        rw (lru.get_value attributes_key_discrete key b.payload_attributes ∙ e, get_id_locked) refl

    get_payload_lem :
        (id : PayloadId) (payload : ExecutionPayload) (b : PayloadBuilder)
        → find payload_id_discrete id (lru.iter b.payloads) ≡ some payload
        → (get_payload_locked id b).0 ≡ ok payload
    unfolding get_payload_locked
    get_payload_lem id payload b e =
        rw (lru.get_value payload_id_discrete id b.payloads ∙ e, get_payload_locked) refl

    Registered-known :
        (id : PayloadId)
        → (lru.get attributes_key_discrete key builder.payload_attributes).0 ≡ some id
        → Registered id seen
    Registered-known id e =
        let here = sym (lru.get_value attributes_key_discrete key builder.payload_attributes) ∙ e in
        (
          get_id_lem id seen (
              ap (find attributes_key_discrete key)
                (lru.iter-get attributes_key_discrete key builder.payload_attributes)
              ∙ find-promote attributes_key_discrete key id _ here),
          inl here,
        )

    -- The builder after the reads builds as the builder before them.
    build_payload-read :
        (parent_info : PayloadInfo)
        → build_payload self slot parent_hash attributes parent_info read
          ≡ build_payload self slot parent_hash attributes parent_info builder
    unfolding build_payload
    build_payload-read parent_info = refl

    Registered-new :
        (parent_info : PayloadInfo) (payload : ExecutionPayload)
        → 0 < lru.cap builder.payload_attributes
        → 0 < lru.cap builder.payloads
        → (lru.get p.block_hash_discrete parent_hash builder.payload_info).0 ≡ some parent_info
        → build_payload self slot parent_hash attributes parent_info builder ≡ some (ok payload)
        → Registered (store_payload key payload read).0 (store_payload key payload read).1
    unfolding store_payload
    Registered-new parent_info payload room room' g built = (
      get_id_lem _ (store_payload key payload read).1 (
          ap (find attributes_key_discrete key)
            (lru.iter-put attributes_key_discrete key _ seen.payload_attributes)
          ∙ find-insert attributes_key_discrete _ key _ _ (
              subst (λ n. 0 < n)
                (sym (lru.cap-get attributes_key_discrete key builder.payload_attributes)) room)),
      inr (record {
        parent_info = parent_info;
        payload = payload;
        known_parent =
            sym (lru.get_value p.block_hash_discrete parent_hash builder.payload_info) ∙ g;
        built =
            build_payload-IsBuilt self slot parent_hash attributes parent_info builder payload
              built;
        next = refl;
        counted = refl;
        fetched = get_payload_lem _ payload (store_payload key payload read).1 (
            ap (find payload_id_discrete _)
              (lru.iter-put payload_id_discrete _ payload builder.payloads)
            ∙ find-insert payload_id_discrete _ _ payload _ room');
      }),
    )

    finished :
        (parent_info : PayloadInfo) (built : Option (Result ExecutionPayload String))
        (id : PayloadId) (after : PayloadBuilder)
        → ((payload : ExecutionPayload)
            → built ≡ some (ok payload)
            → Registered (store_payload key payload read).0 (store_payload key payload read).1)
        → finish key built read ≡ (some (ok id), after)
        → Registered id after
    unfolding finish
    finished parent_info none id after h e = absurd (cc (ap (λ r. r.0) e))
    finished parent_info (some (err message)) id after h e = absurd (cc (ap (λ r. r.0) e))
    finished parent_info (some (ok payload)) id after h e =
        let same_id : (store_payload key payload read).0 ≡ id = cc (ap (λ r. r.0) e) in
        subst₂ (λ i b. Registered i b) same_id (ap (λ r. r.1) e) (h payload refl)

    -- With caches of positive capacity, after a registration that succeeds the same parent and
    -- attributes give its id. The id was known before, or it is the bytes of the next number, which
    -- goes up by one modulo 2 ^ 64, and fetches a new payload as the known parent and the
    -- attributes ask for it.
    pub register_locked-Registered :
        (id : PayloadId) (after : PayloadBuilder)
        → 0 < lru.cap builder.payload_attributes
        → 0 < lru.cap builder.payloads
        → register_locked self slot parent_hash attributes builder ≡ (some (ok id), after)
        → Registered id after
    register_locked-Registered id after room room' e =
        elim (Option-cases (lru.get attributes_key_discrete key builder.payload_attributes).0) [
          | inr (old, known) ↦
              let step = sym (register_known old known) ∙ e in
              subst₂ (λ i b. Registered i b) (cc (ap (λ r. r.0) step)) (ap (λ r. r.1) step)
                (Registered-known old known)
          | inl unknown ↦
              elim (Option-cases
                (lru.get p.block_hash_discrete parent_hash builder.payload_info).0) [
                  | inl orphan ↦
                      absurd (cc (ap (λ r. r.0) (sym (register_orphan unknown orphan) ∙ e)))
                  | inr (parent_info, found) ↦
                      finished parent_info
                        (build_payload self slot parent_hash attributes parent_info read) id after
                        (λ payload built.
                          Registered-new parent_info payload room room' found
                            (sym (build_payload-read parent_info) ∙ built))
                        (sym (register_built parent_info unknown found) ∙ e)
                ]
        ]
