-- ===== src/Entries.antt =====
-- Properties of every entry of a cache: each operation of `LruCache` keeps what holds of all the
-- entries that it starts from and of the entry that it writes.
use eleel.Common.{
  ℕ, ◌≡◌, some, true, List, ◌∷◌, All, All-take, All-remove, All-find, find, remove, Option-cases,
  inl, inr, is_some, ap, subst,
}
use eleel.External.Lru.{Lru, promote, insert}

module _ {K V : Type 0} (dec : Discrete K) (P : K × V → Type 0) where
  All-promote : (k : K) (l : List (K × V)) → All P l → All P (promote dec k l)
  All-promote k l h = elim (Option-cases (find dec k l)) [
    | inl e ↦ rw (e, promote) h
    | inr (v, e) ↦ rw (e, promote) (All-find dec P k l h e, All-remove dec P k l h)
  ]

  All-insert :
      (n : ℕ) (k : K) (v : V) (l : List (K × V)) → All P l → P (k, v) → All P (insert dec n k v l)
  All-insert n k v l h q = All-take P n ((k, v) ∷ remove dec k l) (q, All-remove dec P k l h)

module _ ⦃lru : Lru⦄ {K V : Type 0} (P : K × V → Type 0) where
  open lru use {LruCache, iter, get, get_mut, put, new, contains, get_or_insert}

  abbrev pub Entries : LruCache K V → Type 0
  Entries c = All P (iter c)

  pub Entries-new : (n : ℕ) → Entries (new n)
  Entries-new n = rw lru.iter-new tt

  module _ (dec : Discrete K) where
    pub Entries-get : (k : K) (c : LruCache K V) → Entries c → Entries (get dec k c).1
    Entries-get k c h = rw lru.iter-get (All-promote dec P k (iter c) h)

    -- What a read returns is an entry.
    pub get_entry :
        (k : K) (c : LruCache K V) {v : V} → Entries c → (get dec k c).0 ≡ some v → P (k, v)
    get_entry k c h e = All-find dec P k (iter c) h (rw lru.get_value at e)

    pub Entries-put :
        (k : K) (v : V) (c : LruCache K V) → Entries c → P (k, v) → Entries (put dec k v c)
    Entries-put k v c h q = rw lru.iter-put (All-insert dec P (lru.cap c) k v (iter c) h q)

    pub Entries-get_or_insert :
        (k : K) (v : V) (c : LruCache K V)
        → Entries c
        → P (k, v)
        → Entries (get_or_insert dec k v c)
    Entries-get_or_insert k v c h q = elim (Option-cases (find dec k (iter c))) [
      | inl e ↦ rw (lru.iter-get_or_insert, e) (All-insert dec P (lru.cap c) k v (iter c) h q)
      | inr (w, e) ↦ rw (lru.iter-get_or_insert, e) (All-promote dec P k (iter c) h)
    ]

    -- A write through `get_mut`: the entry read was there, and the one written takes its place.
    pub Entries-get_mut :
        (k : K) (c : LruCache K V) {v : V} {write : V → LruCache K V}
        → Entries c
        → get_mut dec k c ≡ some (v, write)
        → P (k, v) × ((w : V) → P (k, w) → Entries (write w))
    Entries-get_mut k c {v} {write} h e = elim (Option-cases (find dec k (iter c))) [
      | inl missing ↦ absurd (cc (lru.get_mut_miss dec k c missing))
      | inr (w, hit) ↦
          let (write', taken, left) = lru.get_mut_hit dec k c w hit in
          let same : write' ≡ write = cc in
          let here : P (k, w) = All-find dec P k (iter c) h hit in
          (
            subst (λ a. P (k, a)) (cc) here,
            λ a q.
                subst (λ f. Entries (f a)) same
                  (rw ((left a).0) (q, All-remove dec P k (iter c) h)),
          )
    ]

    -- `contains` finds only keys of entries.
    pub contains_entry :
        (k : K) (c : LruCache K V) → Entries c → contains dec k c ≡ true → (v : V) × P (k, v)
    contains_entry k c h e = elim (Option-cases (find dec k (iter c))) [
      | inl missing ↦ absurd (cc (lru.contains_lem dec k c, ap is_some missing))
      | inr (v, hit) ↦ (v, All-find dec P k (iter c) h hit)
    ]
