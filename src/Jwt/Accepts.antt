-- ===== src/Jwt/Accepts.antt =====
-- src/jwt.rs: which tokens a collection of secrets accepts.
use mathlib.Core.List.{Memᴰ}
use eleel.Common.{
  ◌≡◌, refl, sym, ◌∙◌, ap, inl, inr, String, str_eq, eq_iff, List, [], ◌∷◌, Option, none, some,
  Option-cases, Bool-cases, Result, ok, Result-cases, map_err, subst, arith,
}
use eleel.Common.Outcome.{map_err-eq-ok}
use eleel.External.Jwt.{JwtApi}
use eleel.Jwt.{
  lookup, KeyCollection, convert_err, verify_single_token, verify_parsed_token, verify_any,
  claimed_secret, verify,
}

module _ {V : Type 0} where
  pub lookup_mem :
      (key : String) (l : List (String × V)) (v : V)
      → lookup key l ≡ some v
      → Memᴰ {A = String × V} (key, v) l
  unfolding lookup
  lookup_mem key [] v e = absurd (cc)
  lookup_mem key ((k, w) ∷ l) v e = elim (Bool-cases (str_eq k key)) [
    | inl hit ↦
        let same : k ≡ key = (eq_iff k key).0 hit in
        let value : w ≡ v = ground arith in Memᴰ.head (cc)
    | inr miss ↦ Memᴰ.tail (lookup_mem key l v (rw miss at e))
  ]

module _ ⦃j : JwtApi⦄ where
  open j use {Secret, VerifiedToken}

  -- The secret is in the collection, and the token holds for it.
  pub record IsSignedBy (keys : KeyCollection) (token : String) (verified : VerifiedToken)
      : Type 0 where
    pub id : String
    pub secret : Secret
    pub known : Memᴰ {A = String × Secret} (id, secret) keys.secrets
    pub holds : j.verify_with_key token secret ≡ ok verified

  verify_any-eq-ok :
      (token : String) (l : List (String × Secret)) (verified : VerifiedToken)
      → verify_any token l ≡ ok verified
      → (id : String) × (secret : Secret) × Memᴰ {A = String × Secret} (id, secret) l
        × (j.verify_with_key token secret ≡ ok verified)
  unfolding verify_any verify_single_token
  verify_any-eq-ok token [] verified e = absurd (cc)
  verify_any-eq-ok token ((id, secret) ∷ l) verified e =
      elim (Result-cases (j.verify_with_key token secret)) [
        | inl (v, good) ↦
            (id, secret, Memᴰ.head refl, good ∙ (rw (good, verify_any, verify_single_token) at e))
        | inr (message, bad) ↦
            let (id', secret', here, holds) =
              verify_any-eq-ok token l verified (rw (bad, verify_any, verify_single_token) at e) in
            (id', secret', Memᴰ.tail here, holds)
      ]

  verify_any_of_mem :
      (token id : String) (secret : Secret) (l : List (String × Secret)) (verified : VerifiedToken)
      → Memᴰ {A = String × Secret} (id, secret) l
      → j.verify_with_key token secret ≡ ok verified
      → (v : VerifiedToken) × (verify_any token l ≡ ok v)
  unfolding verify_any verify_single_token
  verify_any_of_mem token id secret [] verified here holds = elim here [ ]
  verify_any_of_mem token id secret ((i, s) ∷ l) verified (Memᴰ.head same) holds =
      let mine : j.verify_with_key token s ≡ ok verified =
        subst (λ t. j.verify_with_key token t ≡ ok verified) (ap (λ e. e.1) same) holds in
      (verified, rw (mine, verify_any, verify_single_token) refl)
  verify_any_of_mem token id secret ((i, s) ∷ l) verified (Memᴰ.tail here) holds =
      elim (Result-cases (j.verify_with_key token s)) [
        | inl (v, good) ↦ (v, rw (good, verify_any, verify_single_token) refl)
        | inr (message, bad) ↦
            rw (bad, verify_any, verify_single_token)
              (verify_any_of_mem token id secret l verified here holds)
      ]

  claimed_secret_mem :
      (keys : KeyCollection) (parsed : j.UnverifiedToken) (secret : Secret)
      → claimed_secret keys parsed ≡ some secret
      → (id : String) × Memᴰ {A = String × Secret} (id, secret) keys.secrets
  unfolding claimed_secret
  claimed_secret_mem keys parsed secret e = elim (Option-cases (j.claims parsed).id) [
    | inl nameless ↦ absurd (cc (rw (nameless, claimed_secret) at e))
    | inr (id, named) ↦ (id, lookup_mem id keys.secrets secret (rw (named, claimed_secret) at e))
  ]

  -- How a parsed token is judged, by the secret that it names.
  judged : KeyCollection → String → j.UnverifiedToken → Option Secret → Result VerifiedToken String
  judged keys token parsed none = verify_any token keys.secrets
  judged keys token parsed (some secret) = verify_parsed_token parsed secret

  verify_of_parsed :
      (keys : KeyCollection) (token : String) (parsed : j.UnverifiedToken)
      → j.parse_unverified token ≡ ok parsed
      → verify keys token ≡ judged keys token parsed (claimed_secret keys parsed)
  unfolding verify judged
  verify_of_parsed keys token parsed parse = rw (parse, verify) (ends (claimed_secret keys parsed))
    where
      ends :
          (o : Option Secret)
          → elim o as (λ _. Result VerifiedToken String) [
            | some secret ↦ verify_parsed_token parsed secret
            | none ↦ verify_any token keys.secrets
          ]
            ≡ judged keys token parsed o
      ends none = refl
      ends (some secret) = refl

  pub parse_of_verify :
      (keys : KeyCollection) (token : String) (verified : VerifiedToken)
      → verify keys token ≡ ok verified
      → (parsed : j.UnverifiedToken) × (j.parse_unverified token ≡ ok parsed)
  unfolding verify
  parse_of_verify keys token verified e = elim (Result-cases (j.parse_unverified token)) [
    | inl parsed ↦ parsed
    | inr (message, bad) ↦ absurd (cc (rw (bad, verify) at e))
  ]

  -- A token that the collection accepts holds for a secret of the collection, with the same result.
  pub verify-IsSignedBy :
      (keys : KeyCollection) (token : String) (verified : VerifiedToken)
      → verify keys token ≡ ok verified
      → IsSignedBy keys token verified
  unfolding judged verify_parsed_token
  verify-IsSignedBy keys token verified e =
      let (parsed, parse) = parse_of_verify keys token verified e in
      let good : judged keys token parsed (claimed_secret keys parsed) ≡ ok verified =
        sym (verify_of_parsed keys token parsed parse) ∙ e in
      elim (Option-cases (claimed_secret keys parsed)) [
        | inl unknown ↦
            let any : verify_any token keys.secrets ≡ ok verified = rw unknown at good in
            let (id, secret, known, holds) = verify_any-eq-ok token keys.secrets verified any in
            record { id = id; secret = secret; known = known; holds = holds }
        | inr (secret, named) ↦
            let (id, known) = claimed_secret_mem keys parsed secret named in
            let one : map_err convert_err (j.verify_parsed_with_key parsed secret) ≡ ok verified =
              rw named at good in
            record {
              id = id;
              secret = secret;
              known = known;
              holds = j.verify_parsed token secret parse ∙ map_err-eq-ok convert_err _ one;
            }
      ]

  -- A token that parses and names no id of the collection is accepted if it holds for any secret of
  -- the collection.
  pub verify_of_unnamed :
      (keys : KeyCollection) (token : String) (parsed : j.UnverifiedToken)
      (verified : VerifiedToken)
      → j.parse_unverified token ≡ ok parsed
      → claimed_secret keys parsed ≡ none
      → IsSignedBy keys token verified
      → (v : VerifiedToken) × (verify keys token ≡ ok v)
  unfolding judged
  verify_of_unnamed keys token parsed verified parse unnamed signed =
      let (v, accepted) =
        verify_any_of_mem token signed.id signed.secret keys.secrets verified signed.known
          signed.holds in
      (
        v,
        verify_of_parsed keys token parsed parse ∙ ap (judged keys token parsed) unnamed ∙ accepted,
      )

  -- A token that parses and names an id of the collection is judged as by that id's secret alone.
  pub verify_of_named :
      (keys : KeyCollection) (token : String) (parsed : j.UnverifiedToken) (secret : Secret)
      → j.parse_unverified token ≡ ok parsed
      → claimed_secret keys parsed ≡ some secret
      → verify keys token ≡ verify_single_token token secret
  unfolding judged verify_single_token verify_parsed_token
  verify_of_named keys token parsed secret parse named =
      verify_of_parsed keys token parsed parse
      ∙ ap (judged keys token parsed) named
      ∙ ap (λ r. map_err convert_err r) (sym (j.verify_parsed token secret parse))
