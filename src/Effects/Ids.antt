-- ===== src/Effects/Ids.antt =====
-- src/payload_builder.rs: the ids that are given out and the payloads that they stand for.
use eleel.Common.{
  ℕ, suc, ◌+◌, ◌%◌, ◌^◌, ◌<◌, ◌≤◌, ◌≡◌, ◌≢◌, refl, sym, ap, ◌∙◌, inl, inr, subst, ◌⊎◌, String,
  Option, none, some, Option-cases, Result, ok, err, find, arith,
}
use eleel.External.Lru.{Lru}
use eleel.External.Primitives.{Primitives}
use eleel.External.Lighthouse.{Lighthouse}
use eleel.Types.{PayloadId, ExecutionPayload, fields}
use eleel.Effects.Contents.{View, view, view-get, find-insert-some}
use eleel.Multiplexer.{Settings, PayloadInfo, PayloadBuilder}
use eleel.PayloadBuilder.Build.{payload_id_discrete, attributes_key_discrete, payload_fields}
use eleel.PayloadBuilder.Bytes.{to_be_bytes, from_be_bytes, from_be_bytes-to_be_bytes}
use eleel.PayloadBuilder.Methods.{build_payload, store_payload, finish, register_locked}
use eleel.PayloadBuilder.Shape.{build_payload-IsBuilt, IsBuilt-fields}

to_be_bytes-inj : (m n : ℕ) → m < 2 ^ 64 → n < 2 ^ 64 → to_be_bytes m ≡ to_be_bytes n → m ≡ n
to_be_bytes-inj m n h k e =
    sym (from_be_bytes-to_be_bytes m h) ∙ ap from_be_bytes e ∙ from_be_bytes-to_be_bytes n k

module _ ⦃p : Primitives⦄ where
  open p use {BlockHash, PayloadAttributes}

  -- An id that was given out before the next number.
  abbrev pub IsIssued : ℕ → PayloadId → Type 0
  IsIssued next id = (n : ℕ) × (n < next) × (id ≡ to_be_bytes n)

  -- A payload for a parent and attributes.
  pub record IsFor (parent : BlockHash) (attributes : PayloadAttributes)
      (payload : ExecutionPayload) : Type 0 where
    pub parent_hash : (fields payload).parent_hash ≡ parent
    pub timestamp : (fields payload).timestamp ≡ p.timestamp attributes
    pub prev_randao : (fields payload).prev_randao ≡ p.prev_randao attributes
    pub fee_recipient : (fields payload).fee_recipient ≡ p.suggested_fee_recipient attributes

  -- The next number, the ids of parents and attributes, and the payloads of ids: the id that is
  -- given for a parent and attributes fetches a payload for them.
  pub record Agrees ⦃lru : Lru⦄ (next : ℕ) (ids : View (BlockHash × PayloadAttributes) PayloadId)
      (payloads : View PayloadId ExecutionPayload) : Type 0 where
    pub given :
        (key : BlockHash × PayloadAttributes) (id : PayloadId)
        → ids.found key ≡ some id
        → IsIssued next id
    pub stored :
        (id : PayloadId) (payload : ExecutionPayload)
        → payloads.found id ≡ some payload
        → IsIssued next id
    pub fetched :
        (parent : BlockHash) (attributes : PayloadAttributes) (id : PayloadId)
        (payload : ExecutionPayload)
        → ids.found (parent, attributes) ≡ some id
        → payloads.found id ≡ some payload
        → IsFor parent attributes payload

module _ ⦃p : Primitives⦄ ⦃lru : Lru⦄ where
  abbrev pub BuilderAgrees : PayloadBuilder → Type 0
  BuilderAgrees b =
      Agrees b.next_payload_id (view attributes_key_discrete b.payload_attributes)
        (view payload_id_discrete b.payloads)

  IsIssued-suc : (n : ℕ) (id : PayloadId) → IsIssued n id → IsIssued (suc n) id
  IsIssued-suc n id (k, before, same) = (k, omega (arith, before), same)

  -- The next id was given to nothing.
  fresh : (n : ℕ) → n < 2 ^ 64 → IsIssued n (to_be_bytes n) → ⊥
  fresh n small (k, before, same) =
      let twin : n ≡ k = to_be_bytes-inj n k small (omega (arith, before, small)) same in
      omega (arith, before, twin)

  module _ ⦃x : Lighthouse⦄ (parent : p.BlockHash) (attributes : p.PayloadAttributes)
      (new : ExecutionPayload) (b : PayloadBuilder) where
    abbrev key : p.BlockHash × p.PayloadAttributes
    key = (parent, attributes)

    abbrev n0 : ℕ
    n0 = b.next_payload_id

    abbrev ids' : lru.LruCache (p.BlockHash × p.PayloadAttributes) PayloadId
    ids' = lru.put attributes_key_discrete key (to_be_bytes n0) b.payload_attributes

    abbrev payloads' : lru.LruCache PayloadId ExecutionPayload
    payloads' = lru.put payload_id_discrete (to_be_bytes n0) new b.payloads

    now-IsIssued : IsIssued (suc n0) (to_be_bytes n0)
    now-IsIssued = (n0, omega arith, refl)

    given_after :
        BuilderAgrees b
        → (k : p.BlockHash × p.PayloadAttributes) (id : PayloadId)
        → find attributes_key_discrete k (lru.iter ids') ≡ some id
        → ((key ≡ k) × (to_be_bytes n0 ≡ id))
          ⊎ (find attributes_key_discrete k (lru.iter b.payload_attributes) ≡ some id)
    given_after h k id e =
        elim (find-insert-some attributes_key_discrete _ key k (to_be_bytes n0) id _
          (rw (lru.iter-put) at e)) [ inl same ↦ inl same | inr (apart, before) ↦ inr before ]

    stored_after :
        BuilderAgrees b
        → (id : PayloadId) (payload : ExecutionPayload)
        → find payload_id_discrete id (lru.iter payloads') ≡ some payload
        → ((to_be_bytes n0 ≡ id) × (new ≡ payload))
          ⊎ ((to_be_bytes n0 ≢ id)
              × (find payload_id_discrete id (lru.iter b.payloads) ≡ some payload))
    stored_after h id payload e =
        find-insert-some payload_id_discrete _ (to_be_bytes n0) id new payload _
          (rw (lru.iter-put) at e)

    fetched_after :
        n0 + 1 < 2 ^ 64
        → IsFor parent attributes new
        → BuilderAgrees b
        → (parent' : p.BlockHash) (attributes' : p.PayloadAttributes) (id : PayloadId)
          (payload : ExecutionPayload)
        → find attributes_key_discrete (parent', attributes') (lru.iter ids') ≡ some id
        → find payload_id_discrete id (lru.iter payloads') ≡ some payload
        → IsFor parent' attributes' payload
    fetched_after small is_for h parent' attributes' id payload e d =
        elim (given_after h (parent', attributes') id e) [
          | inl (key_same, id_same) ↦ elim (stored_after h id payload d) [
            | inl (_, same) ↦
                subst (λ k. IsFor k.0 k.1 payload) key_same
                  (subst (IsFor parent attributes) same is_for)
            | inr (apart, _) ↦ absurd (apart id_same)
          ]
          | inr given ↦ elim (stored_after h id payload d) [
            | inl (id_same, _) ↦ absurd (
                fresh n0 (omega (arith, small))
                  (subst (IsIssued n0) (sym id_same) (h.given (parent', attributes') id given)))
            | inr (_, stored) ↦ h.fetched parent' attributes' id payload given stored
          ]
        ]

    store_payload-Agrees :
        n0 + 1 < 2 ^ 64
        → IsFor parent attributes new
        → BuilderAgrees b
        → BuilderAgrees (store_payload key new b).1
          × ((store_payload key new b).1.next_payload_id ≡ suc n0)
    unfolding store_payload
    store_payload-Agrees small is_for h =
        let counted : (n0 + 1) % 2 ^ 64 ≡ suc n0 = omega (arith, small) in
        (
          subst
              (λ n.
                Agrees n (view attributes_key_discrete ids') (view payload_id_discrete payloads'))
              (sym counted)
              (record {
                given = λ k id e. elim (given_after h k id e) [
                  | inl (_, same) ↦ subst (IsIssued (suc n0)) same now-IsIssued
                  | inr before ↦ IsIssued-suc n0 id (h.given k id before)
                ];
                stored = λ id payload e. elim (stored_after h id payload e) [
                  | inl (same, _) ↦ subst (IsIssued (suc n0)) same now-IsIssued
                  | inr (_, before) ↦ IsIssued-suc n0 id (h.stored id payload before)
                ];
                fetched = fetched_after small is_for h;
              }),
          counted,
        )

module _ ⦃p : Primitives⦄ ⦃lru : Lru⦄ ⦃x : Lighthouse⦄ where
  -- At most one id is given out, and the builder agrees as before.
  abbrev pub Issues : PayloadBuilder → PayloadBuilder → Type 0
  Issues b after =
      b.next_payload_id + 1 < 2 ^ 64
      → BuilderAgrees b
      → BuilderAgrees after × (after.next_payload_id ≤ suc b.next_payload_id)

  build_payload-IsFor :
      (self : Settings) (slot : ℕ) (parent : p.BlockHash) (attributes : p.PayloadAttributes)
      (info : PayloadInfo) (b : PayloadBuilder) (new : ExecutionPayload)
      → build_payload self slot parent attributes info b ≡ some (ok new)
      → IsFor parent attributes new
  unfolding payload_fields
  build_payload-IsFor self slot parent attributes info b new e =
      let built = build_payload-IsBuilt self slot parent attributes info b new e in
      let (h, same) = IsBuilt-fields self slot parent attributes info b new built in
      record {
        parent_hash = ap (λ f. f.parent_hash) same ∙ built.asked.parent_hash;
        timestamp = ap (λ f. f.timestamp) same ∙ built.asked.timestamp;
        prev_randao = ap (λ f. f.prev_randao) same ∙ built.asked.prev_randao;
        fee_recipient = ap (λ f. f.fee_recipient) same ∙ built.asked.fee_recipient;
      }

  finish-Issues :
      (parent : p.BlockHash) (attributes : p.PayloadAttributes)
      (o : Option (Result ExecutionPayload String)) (b : PayloadBuilder)
      → ((new : ExecutionPayload) → o ≡ some (ok new) → IsFor parent attributes new)
      → Issues b (finish (parent, attributes) o b).1
  unfolding finish
  finish-Issues parent attributes none b is_for small h = (h, omega arith)
  finish-Issues parent attributes (some (err message)) b is_for small h = (h, omega arith)
  finish-Issues parent attributes (some (ok new)) b is_for small h =
      let (agrees, counted) =
        store_payload-Agrees parent attributes new b small (is_for new refl) h in
      (agrees, omega (arith, counted))

  pub register_locked-Issues :
      (self : Settings) (slot : ℕ) (parent : p.BlockHash) (attributes : p.PayloadAttributes)
      (b : PayloadBuilder)
      → Issues b (register_locked self slot parent attributes b).1
  unfolding register_locked
  register_locked-Issues self slot parent attributes b small h =
      let key : p.BlockHash × p.PayloadAttributes = (parent, attributes) in
      let read =
        subst (λ v. Agrees b.next_payload_id v (view payload_id_discrete b.payloads))
          (sym (view-get attributes_key_discrete key b.payload_attributes)) h in
      elim (Option-cases (lru.get attributes_key_discrete key b.payload_attributes).0) [
        | inr (id, e) ↦ rw (e, register_locked) (read, omega arith)
        | inl e ↦ elim (Option-cases (lru.get p.block_hash_discrete parent b.payload_info).0) [
          | inl g ↦ rw (e, g, register_locked) (read, omega arith)
          | inr (info, g) ↦
              rw (e, g, register_locked)
                (finish-Issues parent attributes _ _
                  (λ new built. build_payload-IsFor self slot parent attributes info _ new built)
                  small read)
        ]
      ]
