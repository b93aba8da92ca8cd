-- ===== src/Jwt.antt =====
-- src/jwt.rs: authentication by one of several secrets.
pub mod Accepts
pub mod Loads
pub mod Maps
pub mod Order
use eleel.Common.{
  String, ◌+s◌, str_eq, List, [], ◌∷◌, Option, none, some, Result, ok, err, map_err, if◌then◌else◌,
}
use eleel.Common.Outcome.{◌>>=◌}
use eleel.External.Jwt.{JwtApi, Claims}

-- A `HashMap` with string keys: the entries in the order of its iteration.
module _ {V : Type 0} where
  unfoldable pub lookup : String → List (String × V) → Option V
  lookup key [] = none
  lookup key ((k, v) ∷ l) = if str_eq k key then some v else lookup key l

  unfoldable pub insert : String → V → List (String × V) → List (String × V)
  insert key v [] = (key, v) ∷ []
  insert key v ((k, w) ∷ l) = if str_eq k key then (key, v) ∷ l else (k, w) ∷ insert key v l

module _ ⦃j : JwtApi⦄ where
  open j use {Secret, UnverifiedToken, VerifiedToken}

  pub record KeyCollection : Type 0 where
    pub secrets : List (String × Secret)

  unfoldable pub convert_err : String → String
  convert_err e = "JWT verification error: " +s e

  unfoldable pub verify_single_token : String → Secret → Result VerifiedToken String
  verify_single_token token secret = map_err convert_err (j.verify_with_key token secret)

  unfoldable pub verify_parsed_token : UnverifiedToken → Secret → Result VerifiedToken String
  verify_parsed_token token secret = map_err convert_err (j.verify_parsed_with_key token secret)

  -- The loop over all secrets.
  unfoldable pub verify_any : String → List (String × Secret) → Result VerifiedToken String
  verify_any token [] = err "No matching JWT secret found"
  verify_any token ((id, secret) ∷ l) = elim (verify_single_token token secret) [
    | ok verified ↦ ok verified
    | err _ ↦ verify_any token l
  ]

  -- The secret under the id that the claims name.
  unfoldable pub claimed_secret : KeyCollection → UnverifiedToken → Option Secret
  claimed_secret keys parsed = elim ((j.claims parsed).id) [
    | none ↦ none
    | some id ↦ lookup id keys.secrets
  ]

  unfoldable pub verify : KeyCollection → String → Result VerifiedToken String
  verify keys token = do
    parsed ← map_err convert_err (j.parse_unverified token)
    elim (claimed_secret keys parsed) [
      | some secret ↦ verify_parsed_token parsed secret
      | none ↦ verify_any token keys.secrets
    ]

  unfoldable pub load_from :
      List (String × Secret) → List (String × String) → Result (List (String × Secret)) String
  load_from secrets [] = ok secrets
  load_from secrets ((id, hex_secret) ∷ raw) = do
    byte_secret ← map_err (λ e. "Invalid JWT secret: " +s e) (j.hex_decode hex_secret)
    secret ← map_err (λ e. "Invalid JWT secret: " +s e) (j.new_from_slice byte_secret)
    load_from (insert id secret secrets) raw

  -- `KeyCollection::load`, from what reading and parsing the file gave.
  unfoldable pub load : Result (List (String × String)) String → Result KeyCollection String
  load file = do raw ← file; secrets ← load_from [] raw; ok (record { secrets = secrets })

  -- From what reading the file gave.
  unfoldable pub jwt_secret_from_path : String → Result String String → Result Secret String
  jwt_secret_from_path path contents =
      map_err (λ e. "Invalid JWT secret at path " +s path +s ": " +s e)
        (do
          hex_secret ← contents
          byte_secret ← j.hex_decode hex_secret
          j.new_from_slice byte_secret)
