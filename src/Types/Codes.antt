-- ===== src/Types/Codes.antt =====
-- src/types.rs, `ErrorCode`: the numbers of the codes on the wire (`Serialize_repr` and
-- `Deserialize_repr` over an i32).
use mathlib.Core.Bool.{decide}
use eleel.Common.{
  ℕ, ◌-◌, ◌≡◌, ◌↔◌, refl, sym, ap, ◌∙◌, List, [], ◌∷◌, Option, none, some, ite, if_pos, if_neg,
  ℕ_discrete,
}
use eleel.Types.{
  ErrorCode, parse_error_code, invalid_request_code, method_not_found, invalid_params,
  internal_error, server_error, unknown_payload_code, invalid_fork_choice_state,
  invalid_payload_attributes_code, too_large_request,
}

-- The library's integers, over the native ℕ: `negsuc n` is - (n + 1).
pub data ℤ : Type 0 where
  pos negsuc : ℕ → ℤ

unfoldable pub ℤ_discrete : Discrete ℤ
ℤ_discrete = hlevel ℕ_discrete

abbrev minus : ℕ → ℤ
minus n = negsuc (n - 1)

unfoldable pub code_number : ErrorCode → ℤ
code_number parse_error_code = minus 32700
code_number invalid_request_code = minus 32600
code_number method_not_found = minus 32601
code_number invalid_params = minus 32602
code_number internal_error = minus 32603
code_number server_error = minus 32000
code_number unknown_payload_code = minus 38001
code_number invalid_fork_choice_state = minus 38002
code_number invalid_payload_attributes_code = minus 38003
code_number too_large_request = minus 38004

-- The variants in the order of their declaration.
abbrev all_codes : List ErrorCode
all_codes =
    parse_error_code ∷ invalid_request_code ∷ method_not_found ∷ invalid_params ∷ internal_error
    ∷ server_error ∷ unknown_payload_code ∷ invalid_fork_choice_state
    ∷ invalid_payload_attributes_code ∷ too_large_request ∷ []

first_with : ℤ → List ErrorCode → Option ErrorCode
unfolding ℤ_discrete code_number
first_with n [] = none
first_with n (c ∷ codes) = ite (ℤ_discrete (code_number c) n) (some c) (first_with n codes)

-- The variant with a number.
unfoldable pub code_of_number : ℤ → Option ErrorCode
unfolding first_with
code_of_number n = first_with n all_codes

read_printed : (c : ErrorCode) → code_of_number (code_number c) ≡ some c
unfolding code_of_number code_number decide ℕ_discrete
read_printed parse_error_code = refl
read_printed invalid_request_code = refl
read_printed method_not_found = refl
read_printed invalid_params = refl
read_printed internal_error = refl
read_printed server_error = refl
read_printed unknown_payload_code = refl
read_printed invalid_fork_choice_state = refl
read_printed invalid_payload_attributes_code = refl
read_printed too_large_request = refl

some_inj : {A : Type 0} {a b : A} → some a ≡ some b → a ≡ b
some_inj e = cc

first_with-some :
    (n : ℤ) (codes : List ErrorCode) (c : ErrorCode)
    → first_with n codes ≡ some c
    → code_number c ≡ n
unfolding first_with ℤ_discrete code_number
first_with-some n [] c e = absurd (cc)
first_with-some n (d ∷ codes) c e = elim (ℤ_discrete (code_number d) n) [
  | yes same ↦
      sym (
        ap code_number (
          some_inj
            (sym (if_pos (ℤ_discrete (code_number d) n) same (some d) (first_with n codes)) ∙ e)))
      ∙ same
  | no apart ↦
      first_with-some n codes c
        (sym (if_neg (ℤ_discrete (code_number d) n) apart (some d) (first_with n codes)) ∙ e)
]

-- A number is read as the error code that it is the number of, and as no other.
pub code_of_number_iff : (n : ℤ) (c : ErrorCode) → (code_of_number n ≡ some c) ↔ (n ≡ code_number c)
unfolding code_of_number
code_of_number_iff n c = (λ e. sym (first_with-some n all_codes c e), λ e. rw e (read_printed c))
