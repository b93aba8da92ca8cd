-- ===== src/Common/Assoc.antt =====
-- Association lists over keys with decidable equality: what a cache is seen to hold.
use Prim.Native.Nat.{◌≤◌}
use mathlib.Core.Path.{◌≡◌, subst₂}
use mathlib.Core.Logic.{ite, if_pos, if_neg}
use mathlib.Core.List.{List, [], ◌∷◌}
use mathlib.Core.Option.{Option, none, some}
use native.Mathlib.Omega.{arith}
use eleel.Common.Lists.{length, All}

module _ {ℓ} {K V : Type ℓ} (dec : Discrete K) where
  abbrev pub find : K → List (K × V) → Option V
  find k [] = none
  find k ((j, v) ∷ l) = ite (dec j k) (some v) (find k l)

  -- Without any entry for the key.
  abbrev pub remove : K → List (K × V) → List (K × V)
  remove k [] = []
  remove k ((j, v) ∷ l) = let rest = remove k l in ite (dec j k) rest ((j, v) ∷ rest)

  pub length-remove-le : (k : K) (l : List (K × V)) → length (remove k l) ≤ length l
  length-remove-le k [] = omega arith
  length-remove-le k ((i, v) ∷ l) = ground (arith, length-remove-le k l)

module _ {ℓ} {K V : Type ℓ} (dec : Discrete K) (P : K × V → Type ℓ) where
  pub All-remove : (k : K) (l : List (K × V)) → All P l → All P (remove dec k l)
  All-remove k [] h = tt
  All-remove k ((j, v) ∷ l) (p, h) = elim (dec j k) [
    | yes e ↦ rw (if_pos _ e) (All-remove k l h)
    | no n ↦ rw (if_neg _ n) (p, All-remove k l h)
  ]

  pub All-find : (k : K) (l : List (K × V)) {v : V} → All P l → find dec k l ≡ some v → P (k, v)
  All-find k [] h e = absurd (ground arith)
  All-find k ((j, w) ∷ l) {v} (p, h) e = elim (dec j k) [
    | yes same ↦ let found : w ≡ v = ground arith in subst₂ (λ i x. P (i, x)) same found p
    | no other ↦ All-find k l h (rw (if_neg _ other) at e)
  ]
