-- ===== src/Config/Names.antt =====
-- src/config.rs: the names of the ways to match a fork choice state.
use eleel.Common.{
  ◌≡◌, refl, ap, ◌∙◌, inl, inr, String, str_eq, eq_iff, Option, some, Bool-cases, ◌↔◌,
}
use eleel.Config.{FcuMatching, exact, loose, head_only, static_str, matching_of_str}

-- A name is read as the way to match that it is printed for, and as no other.
pub matching_of_str_iff :
    (s : String) (m : FcuMatching) → (matching_of_str s ≡ some m) ↔ (s ≡ static_str m)
unfolding matching_of_str static_str
matching_of_str_iff s m = (read s m, λ e. rw e (printed m))
  where
    printed : (m : FcuMatching) → matching_of_str (static_str m) ≡ some m
    printed exact = refl
    printed loose = refl
    printed head_only = refl

    named :
        (s : String) (n m : FcuMatching)
        → ◌≡◌ {A = Option FcuMatching} (some n) (some m)
        → s ≡ static_str n
        → s ≡ static_str m
    named s n m e same = same ∙ ap static_str (cc)

    read : (s : String) (m : FcuMatching) → matching_of_str s ≡ some m → s ≡ static_str m
    read s m e = elim (Bool-cases (str_eq s "exact")) [
      | inl same ↦ named s exact m (rw (same, matching_of_str) at e) ((eq_iff s _).0 same)
      | inr a ↦ elim (Bool-cases (str_eq s "loose")) [
        | inl same ↦ named s loose m (rw (a, matching_of_str, same) at e) ((eq_iff s _).0 same)
        | inr b ↦ elim (Bool-cases (str_eq s "head-only")) [
          | inl same ↦
              named s head_only m (rw (a, matching_of_str, b, same) at e) ((eq_iff s _).0 same)
          | inr c ↦ absurd (cc (rw (a, matching_of_str, b, c) at e))
        ]
      ]
    ]
