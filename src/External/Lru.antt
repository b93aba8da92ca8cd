-- ===== src/External/Lru.antt =====
-- The crate `lru`: what the program calls of `LruCache`, with its documented behaviour stated on
-- `iter`, which visits the entries in most-recently used order.
use eleel.Common.{
  ℕ, ◌≤◌, ◌≡◌, Bool, Option, none, some, List, [], ◌∷◌, length, take, is_some, find, remove,
}

-- The order after a read of the key: a hit comes to the front.
abbrev pub promote : {K V : Type 0} → Discrete K → K → List (K × V) → List (K × V)
promote dec k l = elim (find dec k l) [ none ↦ l | some v ↦ (k, v) ∷ remove dec k l ]

-- The order after a write: the entry comes to the front, and the oldest one beyond the capacity
-- is dropped.
abbrev pub insert : {K V : Type 0} → Discrete K → ℕ → K → V → List (K × V) → List (K × V)
insert dec cap k v l = take cap ((k, v) ∷ remove dec k l)

-- `get_mut` lends the value: the second part is the cache when the loan ends, by what was left.
pub record Lru : Type 1 where
  pub LruCache : Type 0 → Type 0 → Type 0
  pub new : {K V : Type 0} → ℕ → LruCache K V
  pub cap : {K V : Type 0} → LruCache K V → ℕ
  pub iter : {K V : Type 0} → LruCache K V → List (K × V)
  pub get : {K V : Type 0} → Discrete K → K → LruCache K V → Option V × LruCache K V
  pub get_mut : {K V : Type 0} → Discrete K → K → LruCache K V → Option (V × (V → LruCache K V))
  pub put : {K V : Type 0} → Discrete K → K → V → LruCache K V → LruCache K V
  pub contains : {K V : Type 0} → Discrete K → K → LruCache K V → Bool
  pub get_or_insert : {K V : Type 0} → Discrete K → K → V → LruCache K V → LruCache K V
  -- The documented behaviour. `put` inserts or replaces; `contains` does not promote.
  pub cap-new : {K V : Type 0} (n : ℕ) → cap {K = K} {V = V} (new n) ≡ n
  pub iter-new : {K V : Type 0} (n : ℕ) → iter {K = K} {V = V} (new n) ≡ []
  pub length-iter-le : {K V : Type 0} (c : LruCache K V) → length (iter c) ≤ cap c
  pub get_value :
      {K V : Type 0} (dec : Discrete K) (k : K) (c : LruCache K V)
      → (get dec k c).0 ≡ find dec k (iter c)
  pub iter-get :
      {K V : Type 0} (dec : Discrete K) (k : K) (c : LruCache K V)
      → iter (get dec k c).1 ≡ promote dec k (iter c)
  pub cap-get :
      {K V : Type 0} (dec : Discrete K) (k : K) (c : LruCache K V) → cap (get dec k c).1 ≡ cap c
  pub get_mut_miss :
      {K V : Type 0} (dec : Discrete K) (k : K) (c : LruCache K V)
      → find dec k (iter c) ≡ none
      → get_mut dec k c ≡ none
  pub get_mut_hit :
      {K V : Type 0} (dec : Discrete K) (k : K) (c : LruCache K V) (v : V)
      → find dec k (iter c) ≡ some v
      → (write : V → LruCache K V) × (get_mut dec k c ≡ some (v, write))
        × ((w : V) → (iter (write w) ≡ (k, w) ∷ remove dec k (iter c)) × (cap (write w) ≡ cap c))
  pub iter-put :
      {K V : Type 0} (dec : Discrete K) (k : K) (v : V) (c : LruCache K V)
      → iter (put dec k v c) ≡ insert dec (cap c) k v (iter c)
  pub cap-put :
      {K V : Type 0} (dec : Discrete K) (k : K) (v : V) (c : LruCache K V)
      → cap (put dec k v c) ≡ cap c
  pub contains_lem :
      {K V : Type 0} (dec : Discrete K) (k : K) (c : LruCache K V)
      → contains dec k c ≡ is_some (find dec k (iter c))
  pub iter-get_or_insert :
      {K V : Type 0} (dec : Discrete K) (k : K) (v : V) (c : LruCache K V)
      → iter (get_or_insert dec k v c) ≡ elim (find dec k (iter c)) [
        | none ↦ insert dec (cap c) k v (iter c)
        | some w ↦ promote dec k (iter c)
      ]
  pub cap-get_or_insert :
      {K V : Type 0} (dec : Discrete K) (k : K) (v : V) (c : LruCache K V)
      → cap (get_or_insert dec k v c) ≡ cap c
