-- ===== src/Tests/SampleLru.antt =====
-- A least-recently-used cache as a capacity and a list, the most recent entry first.
use eleel.Common.{
  ℕ, ◌≤◌, ◌≡◌, refl, Option, none, some, List, [], ◌∷◌, length, length-take, take,
  take_of_length-le, is_some, find, remove, Option-cases, inl, inr, arith,
}
use eleel.External.Lru.{Lru, promote, insert}
use eleel.Fcu.Keeps.{length-remove-lt, length-promote-le}

abbrev Cache : Type 0 → Type 0 → Type 0
Cache K V = ℕ × List (K × V)

module _ {K V : Type 0} where
  abbrev entries : Cache K V → List (K × V)
  entries c = take c.0 c.1

  module _ (dec : Discrete K) where
    length-entries-le : (c : Cache K V) → length (entries c) ≤ c.0
    length-entries-le c = omega (arith, length-take c.0 c.1)

    abbrev get_sample : K → Cache K V → Option V × Cache K V
    get_sample k c = (find dec k (entries c), (c.0, promote dec k (entries c)))

    pub entries-get :
        (k : K) (c : Cache K V) → entries (get_sample k c).1 ≡ promote dec k (entries c)
    entries-get k c =
        take_of_length-le c.0 (promote dec k (entries c))
          (omega (arith, length-promote-le dec k (entries c), length-entries-le c))

    abbrev put_sample : K → V → Cache K V → Cache K V
    put_sample k v c = (c.0, insert dec c.0 k v (entries c))

    pub entries-put :
        (k : K) (v : V) (c : Cache K V)
        → entries (put_sample k v c) ≡ insert dec c.0 k v (entries c)
    entries-put k v c =
        take_of_length-le c.0 (insert dec c.0 k v (entries c))
          (omega (arith, length-take c.0 ((k, v) ∷ remove dec k (entries c))))

    abbrev get_mut_sample : K → Cache K V → Option (V × (V → Cache K V))
    get_mut_sample k c = elim (find dec k (entries c)) [
      | none ↦ none
      | some v ↦ some (v, λ w. (c.0, (k, w) ∷ remove dec k (entries c)))
    ]

    pub get_mut_sample_hit :
        (k : K) (c : Cache K V) (v : V)
        → find dec k (entries c) ≡ some v
        → (write : V → Cache K V) × (get_mut_sample k c ≡ some (v, write))
          × ((w : V)
              → (entries (write w) ≡ (k, w) ∷ remove dec k (entries c)) × ((write w).0 ≡ c.0))
    get_mut_sample_hit k c v e =
        rw (e, get_mut_sample)
          (
            _,
            refl,
            λ w. (
              take_of_length-le c.0 ((k, w) ∷ remove dec k (entries c))
                  (omega (arith, length-remove-lt dec k v (entries c) e, length-entries-le c)),
              refl,
            ),
          )

    abbrev get_or_insert_sample : K → V → Cache K V → Cache K V
    get_or_insert_sample k v c = elim (find dec k (entries c)) [
      | none ↦ put_sample k v c
      | some w ↦ (get_sample k c).1
    ]

    pub entries-get_or_insert :
        (k : K) (v : V) (c : Cache K V)
        → entries (get_or_insert_sample k v c) ≡ elim (find dec k (entries c)) [
          | none ↦ insert dec c.0 k v (entries c)
          | some w ↦ promote dec k (entries c)
        ]
    entries-get_or_insert k v c = elim (Option-cases (find dec k (entries c))) [
      | inl e ↦ rw (e, get_or_insert_sample) (entries-put k v c)
      | inr (w, e) ↦ rw (e, get_or_insert_sample) (entries-get k c)
    ]

    pub cap-get_or_insert : (k : K) (v : V) (c : Cache K V) → (get_or_insert_sample k v c).0 ≡ c.0
    cap-get_or_insert k v c = elim (Option-cases (find dec k (entries c))) [
      | inl e ↦ rw (e, get_or_insert_sample) refl
      | inr (w, e) ↦ rw (e, get_or_insert_sample) refl
    ]

pub take_nil : {A : Type 0} (n : ℕ) → take {A = A} n [] ≡ []
take_nil n = take_of_length-le n [] (omega arith)

instance abbrev pub sample_lru : Lru
sample_lru = record {
  LruCache = Cache;
  new = λ n. (n, []);
  cap = λ c. c.0;
  iter = λ c. entries c;
  get = λ dec. get_sample dec;
  get_mut = λ dec. get_mut_sample dec;
  put = λ dec. put_sample dec;
  contains = λ dec k c. is_some (find dec k (entries c));
  get_or_insert = λ dec. get_or_insert_sample dec;
  cap-new = λ n. refl;
  iter-new = λ n. take_nil n;
  length-iter-le = λ c. omega (arith, length-take c.0 c.1);
  get_value = λ dec k c. refl;
  iter-get = λ dec. entries-get dec;
  cap-get = λ dec k c. refl;
  get_mut_miss = λ dec k c e. rw (e, get_mut_sample) refl;
  get_mut_hit = λ dec. get_mut_sample_hit dec;
  iter-put = λ dec. entries-put dec;
  cap-put = λ dec k v c. refl;
  contains_lem = λ dec k c. refl;
  iter-get_or_insert = λ dec. entries-get_or_insert dec;
  cap-get_or_insert = λ dec. cap-get_or_insert dec;
}
