-- ===== src/Effects/Contents.antt =====
-- src/multiplexer.rs: the caches as what they hold and how much they may hold. The order of use,
-- which a read changes, is forgotten.
use eleel.Common.{
  ℕ, ◌≡◌, refl, sym, ap, ◌∙◌, fun_ext, inl, inr, ◌⊎◌, ◌≢◌, zero, suc, [], ◌∷◌, take, if_neg, if_pos,
  Option, some, Option-cases, List, find, remove,
}
use eleel.External.Lru.{Lru, promote, insert}
use eleel.External.Primitives.{Primitives}
use eleel.Types.{
  JsonForkchoiceStateV1, JsonPayloadStatusV1, forkchoice_state_discrete, PayloadId,
  ExecutionPayload,
}
use eleel.Fcu.Keeps.{find_behind}
use eleel.Multiplexer.{NewPayloadCacheEntry, PayloadInfo, Caches}
use eleel.PayloadBuilder.Build.{payload_id_discrete, attributes_key_discrete}

-- A read moves an entry to the front, and every key is found as before.
pub find-promote_any :
    {K V : Type 0} (dec : Discrete K) (k j : K) (l : List (K × V))
    → find dec j (promote dec k l) ≡ find dec j l
find-promote_any dec k j l = elim (Option-cases (find dec k l)) [
  | inl missing ↦ rw (missing, promote) refl
  | inr (v, there) ↦
      rw (there, promote)
        (elim (dec k j) [
          | yes same ↦
              if_pos (dec k j) same (some v) (find dec j (remove dec k l))
              ∙ sym there
              ∙ ap (λ i. find dec i l) same
          | no apart ↦ find_behind dec k j v l apart
        ])
]

pub find-take :
    {K V : Type 0} (dec : Discrete K) (n : ℕ) (j : K) (l : List (K × V)) (w : V)
    → find dec j (take n l) ≡ some w
    → find dec j l ≡ some w
find-take dec zero j l w e = absurd (cc)
find-take dec (suc n) j [] w e = absurd (cc)
find-take dec (suc n) j ((k, v) ∷ l) w e = elim (dec k j) [
  | yes same ↦ if_pos (dec k j) same _ _ ∙ sym (if_pos (dec k j) same _ _) ∙ e
  | no apart ↦
      if_neg (dec k j) apart _ _ ∙ find-take dec n j l w (sym (if_neg (dec k j) apart _ _) ∙ e)
]

-- What is found after a write was written, or was found before.
pub find-insert-some :
    {K V : Type 0} (dec : Discrete K) (cap : ℕ) (k j : K) (v w : V) (l : List (K × V))
    → find dec j (insert dec cap k v l) ≡ some w
    → ((k ≡ j) × (v ≡ w)) ⊎ ((k ≢ j) × (find dec j l ≡ some w))
find-insert-some dec cap k j v w l e =
    let here = find-take dec cap j ((k, v) ∷ remove dec k l) w e in
    elim (dec k j) [
      | yes same ↦ inl (same, some_inj (sym (if_pos (dec k j) same _ _) ∙ here))
      | no apart ↦ inr (apart, sym (find_behind dec k j v l apart) ∙ here)
    ]
  where
    some_inj : {A : Type 0} {a b : A} → some a ≡ some b → a ≡ b
    some_inj e = cc

module _ ⦃lru : Lru⦄ where
  -- A capacity, and what is found of each key.
  pub record View (K V : Type 0) : Type 0 where
    pub capacity : ℕ
    pub found : K → Option V

  abbrev pub view : {K V : Type 0} → Discrete K → lru.LruCache K V → View K V
  view dec c = record { capacity = lru.cap c; found = λ k. find dec k (lru.iter c) }

  pub view-get :
      {K V : Type 0} (dec : Discrete K) (k : K) (c : lru.LruCache K V)
      → view dec (lru.get dec k c).1 ≡ view dec c
  view-get {K} {V} dec k c =
      ap (λ n. record { capacity = n; found = λ j. find dec j (lru.iter (lru.get dec k c).1) })
        (lru.cap-get dec k c)
      ∙ ap (λ f. record { capacity = lru.cap c; found = f })
          (fun_ext
            (λ j. ap (find dec j) (lru.iter-get dec k c) ∙ find-promote_any dec k j (lru.iter c)))

module _ ⦃p : Primitives⦄ where
  open p use {BlockHash, PayloadAttributes, ExtraData}

  module _ ⦃lru : Lru⦄ where
    pub record Contents : Type 0 where
      pub fcu : View JsonForkchoiceStateV1 JsonPayloadStatusV1
      pub new_payload : View BlockHash NewPayloadCacheEntry
      pub justified : View BlockHash (Unit {0})
      pub finalized : View BlockHash (Unit {0})
      pub next_payload_id : ℕ
      pub payload_attributes : View (BlockHash × PayloadAttributes) PayloadId
      pub payload_info : View BlockHash PayloadInfo
      pub payloads : View PayloadId ExecutionPayload
      pub extra_data : ExtraData

    unfoldable pub contents : Caches → Contents
    contents s = record {
      fcu = view forkchoice_state_discrete s.fcu_cache;
      new_payload = view p.block_hash_discrete s.new_payload_cache;
      justified = view p.block_hash_discrete s.justified_block_cache;
      finalized = view p.block_hash_discrete s.finalized_block_cache;
      next_payload_id = s.payload_builder.next_payload_id;
      payload_attributes = view attributes_key_discrete s.payload_builder.payload_attributes;
      payload_info = view p.block_hash_discrete s.payload_builder.payload_info;
      payloads = view payload_id_discrete s.payload_builder.payloads;
      extra_data = s.payload_builder.extra_data;
    }

    pub record Capacities : Type 0 where
      pub fcu : ℕ
      pub new_payload : ℕ
      pub justified : ℕ
      pub finalized : ℕ
      pub payload_attributes : ℕ
      pub payload_info : ℕ
      pub payloads : ℕ

    abbrev pub capacities : Contents → Capacities
    capacities c = record {
      fcu = c.fcu.capacity;
      new_payload = c.new_payload.capacity;
      justified = c.justified.capacity;
      finalized = c.finalized.capacity;
      payload_attributes = c.payload_attributes.capacity;
      payload_info = c.payload_info.capacity;
      payloads = c.payloads.capacity;
    }
