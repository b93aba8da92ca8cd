-- ===== src/External/Jwt.antt =====
-- The crates `jwt`, `hmac` and `hex`: what src/jwt.rs calls of them. Their errors are given by the
-- texts that the program puts into its messages: one text for an error of `hex`, which src/jwt.rs
-- prints by Display for the controller's secret and by Debug for the clients'.
use eleel.Common.{ℕ, String, List, Option, ◌≡◌, Result, ok}

pub record Claims : Type 0 where
  pub iat : ℕ
  pub id : Option String
  pub clv : Option String

pub record JwtApi : Type 1 where
  pub Secret : Type 0
  pub UnverifiedToken : Type 0
  pub VerifiedToken : Type 0
  pub parse_unverified : String → Result UnverifiedToken String
  pub claims : UnverifiedToken → Claims
  pub verify_with_key : String → Secret → Result VerifiedToken String
  pub verify_parsed_with_key : UnverifiedToken → Secret → Result VerifiedToken String
  pub new_from_slice : List ℕ → Result Secret String
  pub hex_decode : String → Result (List ℕ) String
  -- To verify a text is to parse it and to verify what was parsed.
  pub verify_parsed :
      (token : String) {parsed : UnverifiedToken} (secret : Secret)
      → parse_unverified token ≡ ok parsed
      → verify_with_key token secret ≡ verify_parsed_with_key parsed secret
