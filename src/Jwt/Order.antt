-- ===== src/Jwt/Order.antt =====
-- src/jwt.rs: the `HashMap`s of ids and secrets are iterated in any order.
use mathlib.Core.List.{Memᴰ}
use eleel.Common.{
  ◌≡◌, refl, sym, ◌∙◌, inl, inr, ◌↔◌, String, List, [], Option-cases, ok, some, ap, map_err,
}
use eleel.Common.Outcome.{map_err-eq-ok}
use eleel.External.Jwt.{JwtApi}
use eleel.Jwt.{
  KeyCollection, lookup, load, verify, claimed_secret, verify_single_token, convert_err,
}
use eleel.Jwt.Accepts.{
  lookup_mem, parse_of_verify, verify-IsSignedBy, verify_of_unnamed, verify_of_named,
}
use eleel.Jwt.Maps.{
  IsMap, lookup_of_mem, load_from-IsMap, load_from-Loaded, Loaded-same, IsDecoded-of_mem,
  load_from_of_decoded, load_parts,
}

module _ ⦃j : JwtApi⦄ where
  open j use {Secret, VerifiedToken}

  -- Some result.
  abbrev pub Accepts : KeyCollection → String → Type 0
  Accepts keys token = (verified : VerifiedToken) × (verify keys token ≡ ok verified)

  abbrev Agrees : KeyCollection → KeyCollection → Type 0
  Agrees keys keys' = (id : String) → lookup id keys.secrets ≡ lookup id keys'.secrets

  claimed_secret-Agrees :
      (keys keys' : KeyCollection) (parsed : j.UnverifiedToken)
      → Agrees keys keys'
      → claimed_secret keys parsed ≡ claimed_secret keys' parsed
  unfolding claimed_secret
  claimed_secret-Agrees keys keys' parsed same = elim (Option-cases (j.claims parsed).id) [
    | inl nameless ↦ rw (nameless, claimed_secret) refl
    | inr (id, named) ↦ rw (named, claimed_secret) (same id)
  ]

  Accepts-Agrees :
      (keys keys' : KeyCollection) (token : String)
      → IsMap keys.secrets
      → Agrees keys keys'
      → Accepts keys token
      → Accepts keys' token
  Accepts-Agrees keys keys' token h same (verified, e) =
      let (parsed, parse) = parse_of_verify keys token verified e in
      let claim = claimed_secret-Agrees keys keys' parsed same in
      elim (Option-cases (claimed_secret keys parsed)) [
        | inl unnamed ↦
            let signed = verify-IsSignedBy keys token verified e in
            let found = lookup_of_mem signed.id signed.secret keys.secrets h signed.known in
            verify_of_unnamed keys' token parsed verified parse (sym claim ∙ unnamed) (record {
              id = signed.id;
              secret = signed.secret;
              known =
                  lookup_mem signed.id keys'.secrets signed.secret (sym (same signed.id) ∙ found);
              holds = signed.holds;
            })
        | inr (secret, named) ↦ (
          verified,
          verify_of_named keys' token parsed secret parse (sym claim ∙ named)
              ∙ sym (verify_of_named keys token parsed secret parse named)
              ∙ e,
        )
      ]

  -- If the entries of the secrets' file load in one order of iteration, they load in any other, and
  -- the two collections accept the same tokens. An order is given by a list of entries in which no
  -- two have one id; two orders are of one map if every id has the same entry in both.
  pub load-Accepts :
      (raw raw' : List (String × String)) (keys : KeyCollection)
      → IsMap raw
      → IsMap raw'
      → ((id : String) → lookup id raw ≡ lookup id raw')
      → load (ok raw) ≡ ok keys
      → (keys' : KeyCollection) × (load (ok raw') ≡ ok keys')
        × ((token : String) → Accepts keys token ↔ Accepts keys' token)
  unfolding load
  load-Accepts raw raw' keys h h' same e =
      let loaded = load_parts raw keys e in
      let (secrets', loaded') = load_from_of_decoded [] raw' (λ id text here.
        IsDecoded-of_mem [] keys.secrets raw id text loaded
          (lookup_mem id raw text (same id ∙ lookup_of_mem id text raw' h' here))) in
      let keys' : KeyCollection = record { secrets = secrets' } in
      let agrees : Agrees keys keys' = λ id.
        Loaded-same id raw raw' keys.secrets secrets' (same id)
          (load_from-Loaded id [] keys.secrets raw h loaded)
          (load_from-Loaded id [] secrets' raw' h' loaded') in
      (
        keys',
        rw (loaded', load) refl,
        λ token. (
          Accepts-Agrees keys keys' token (load_from-IsMap [] keys.secrets raw tt loaded) agrees,
          Accepts-Agrees keys' keys token (load_from-IsMap [] secrets' raw' tt loaded')
              (λ id. sym (agrees id)),
        ),
      )

  -- In a collection in which no two entries have one id: a token that parses and whose claims name
  -- the id of an entry is accepted, with a result, exactly if it holds for the secret of that
  -- entry, with the same result.
  pub verify-eq-ok_iff :
      (keys : KeyCollection) (token id : String) (parsed : j.UnverifiedToken) (secret : Secret)
      (verified : VerifiedToken)
      → IsMap keys.secrets
      → j.parse_unverified token ≡ ok parsed
      → (j.claims parsed).id ≡ some id
      → Memᴰ {A = String × Secret} (id, secret) keys.secrets
      → (verify keys token ≡ ok verified) ↔ (j.verify_with_key token secret ≡ ok verified)
  unfolding claimed_secret verify_single_token
  verify-eq-ok_iff keys token id parsed secret verified distinct parse named known =
      let claim : claimed_secret keys parsed ≡ some secret =
        rw (named, claimed_secret) (lookup_of_mem id secret keys.secrets distinct known) in
      let alone = verify_of_named keys token parsed secret parse claim in
      (
        λ e. map_err-eq-ok convert_err _ (sym alone ∙ e),
        λ e. alone ∙ ap (λ r. map_err convert_err r) e,
      )
