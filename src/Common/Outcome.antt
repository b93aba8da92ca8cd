-- ===== src/Common/Outcome.antt =====
-- Rust's `Result`, and `?` on it.
use mathlib.Core.Path.{◌≡◌, refl}
use mathlib.Core.Logic.{◌⊎◌, inl, inr}

pub data Result (A E : Type 0) : Type 0 where
  ok : A → Result A E
  err : E → Result A E

pub Result-cases :
    {A E : Type 0} (r : Result A E) → ((a : A) × (r ≡ ok a)) ⊎ ((e : E) × (r ≡ err e))
Result-cases (ok a) = inl (a, refl)
Result-cases (err e) = inr (e, refl)

pub ok_inj : {A E : Type 0} {a b : A} → ◌≡◌ {A = Result A E} (ok a) (ok b) → a ≡ b
ok_inj e = cc

-- `r.map_err(f)`
abbrev pub map_err : {A E F : Type 0} → (E → F) → Result A E → Result A F
map_err f (ok a) = ok a
map_err f (err e) = err (f e)

infixl 5 ◌>>=◌
abbrev pub ◌>>=◌ : {A B E : Type 0} → Result A E → (A → Result B E) → Result B E
ok a >>= f = f a
err e >>= f = err e

-- `r.map(f)`
abbrev pub map_ok : {A B E : Type 0} → (A → B) → Result A E → Result B E
map_ok f (ok a) = ok (f a)
map_ok f (err e) = err e

pub map_ok-eq-ok :
    {A B E : Type 0} (f : A → B) (r : Result A E) {b : B}
    → map_ok f r ≡ ok b
    → (a : A) × (r ≡ ok a) × (f a ≡ b)
map_ok-eq-ok f (ok a) e = (a, refl, cc)
map_ok-eq-ok f (err x) e = absurd (cc)

-- Inversion of `?`.
pub >>=-eq-ok :
    {A B E : Type 0} (r : Result A E) (f : A → Result B E) {b : B}
    → (r >>= f) ≡ ok b
    → (a : A) × (r ≡ ok a) × (f a ≡ ok b)
>>=-eq-ok (ok a) f e = (a, refl, e)
>>=-eq-ok (err x) f e = absurd (cc)

pub map_err-eq-ok :
    {A E F : Type 0} (f : E → F) (r : Result A E) {a : A} → map_err f r ≡ ok a → r ≡ ok a
map_err-eq-ok f (ok a) e = cc
map_err-eq-ok f (err x) e = absurd (cc)
