-- ===== src/Common/Lists.antt =====
-- Lists measured and cut by native numbers, under the library's names, and membership.
use Prim.Native.Nat.{ℕ, zero, suc, ◌≤◌, min}
use mathlib.Core.Path.{◌≡◌, refl, ap}
use mathlib.Core.List.{List, [], ◌∷◌}
use native.Mathlib.Omega.{arith}

module _ {ℓ} {A : Type ℓ} where
  abbrev pub length : List A → ℕ
  length [] = 0
  length (x ∷ xs) = suc (length xs)

  abbrev pub take : ℕ → List A → List A
  take zero xs = []
  take (suc n) [] = []
  take (suc n) (x ∷ xs) = x ∷ take n xs

  pub length-take : (n : ℕ) (xs : List A) → length (take n xs) ≡ min n (length xs)
  length-take zero xs = omega arith
  length-take (suc n) [] = omega arith
  length-take (suc n) (x ∷ xs) = omega (arith, length-take n xs)

  -- A list that fits is not cut.
  pub take_of_length-le : (n : ℕ) (l : List A) → length l ≤ n → take n l ≡ l
  take_of_length-le (suc n) (a ∷ rest) fits =
      let whole : take n rest ≡ rest = take_of_length-le n rest (omega (arith, fits)) in
      ap (λ t. a ∷ t) whole
  take_of_length-le zero (a ∷ rest) fits = absurd (omega (arith, fits))
  take_of_length-le zero [] fits = refl
  take_of_length-le (suc n) [] fits = refl

module _ {ℓ κ} {A : Type ℓ} where
  abbrev pub All : (A → Type κ) → List A → Type κ
  All P [] = Unit
  All P (x ∷ xs) = P x × All P xs

  pub All-take : (P : A → Type κ) (n : ℕ) (xs : List A) → All P xs → All P (take n xs)
  All-take P zero xs h = tt
  All-take P (suc n) [] h = tt
  All-take P (suc n) (x ∷ xs) (p, h) = (p, All-take P n xs h)

  pub All-mono : (P Q : A → Type κ) (xs : List A) → ((x : A) → P x → Q x) → All P xs → All Q xs
  All-mono P Q [] f h = tt
  All-mono P Q (x ∷ xs) f (p, h) = (f x p, All-mono P Q xs f h)
