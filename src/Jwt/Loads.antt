-- ===== src/Jwt/Loads.antt =====
-- src/jwt.rs, `KeyCollection::load`: what a loaded collection holds.
use eleel.Common.{
  ◌≡◌, ◌≢◌, refl, sym, ap, ◌∙◌, inl, inr, String, str_eq, eq_iff, List, [], ◌∷◌, ◌++◌, All, some,
  true, false, Bool-cases, ℕ, ok, Result-cases,
}
use eleel.Common.Outcome.{ok_inj}
use eleel.External.Jwt.{JwtApi}
use eleel.Jwt.{KeyCollection, lookup, insert, load_from, load}

pub str_eq_self : (k : String) → str_eq k k ≡ true
str_eq_self k = (eq_iff k k).1 refl

pub str_eq_other : (j k : String) → j ≢ k → str_eq j k ≡ false
str_eq_other j k apart = elim (Bool-cases (str_eq j k)) [
  | inl same ↦ absurd (apart ((eq_iff j k).0 same))
  | inr other ↦ other
]

module _ {V : Type 0} where
  pub lookup-insert_self :
      (k : String) (v : V) (l : List (String × V)) → lookup k (insert k v l) ≡ some v
  unfolding lookup insert
  lookup-insert_self k v [] = rw (str_eq_self k) refl
  lookup-insert_self k v ((j, w) ∷ l) = elim (Bool-cases (str_eq j k)) [
    | inl same ↦ rw (same, insert, lookup, str_eq_self k) refl
    | inr other ↦ rw (other, insert, lookup) (rw other (lookup-insert_self k v l))
  ]

  pub lookup-insert_other :
      (j k : String) (v : V) (l : List (String × V)) → k ≢ j → lookup j (insert k v l) ≡ lookup j l
  unfolding lookup insert
  lookup-insert_other j k v [] apart = rw (str_eq_other k j apart) refl
  lookup-insert_other j k v ((i, w) ∷ l) apart = elim (Bool-cases (str_eq i k)) [
    | inl same ↦
        let here : i ≡ k = (eq_iff i k).0 same in
        let away : str_eq i j ≡ false = str_eq_other i j (λ e. apart (sym here ∙ e)) in
        rw (same, insert, lookup, away, str_eq_other k j apart) refl
    | inr other ↦ elim (Bool-cases (str_eq i j)) [
      | inl hit ↦ rw (other, insert, lookup, hit) refl
      | inr miss ↦ rw (other, insert, lookup, miss) (lookup-insert_other j k v l apart)
    ]
  ]

module _ ⦃j : JwtApi⦄ where
  open j use {Secret}

  -- The secret that a text of hexadecimal digits is decoded to.
  pub record IsDecoded (hex_secret : String) (secret : Secret) : Type 0 where
    pub bytes : List ℕ
    pub decoded : j.hex_decode hex_secret ≡ ok bytes
    pub made : j.new_from_slice bytes ≡ ok secret

  pub load_step :
      (acc secrets : List (String × Secret)) (id hex_secret : String) (raw : List (String × String))
      → load_from acc ((id, hex_secret) ∷ raw) ≡ ok secrets
      → (secret : Secret) × IsDecoded hex_secret secret
        × (load_from (insert id secret acc) raw ≡ ok secrets)
  unfolding load_from
  load_step acc secrets id hex_secret raw e = elim (Result-cases (j.hex_decode hex_secret)) [
    | inr (message, bad) ↦ absurd (cc (rw (bad, load_from) at e))
    | inl (bytes, good) ↦ elim (Result-cases (j.new_from_slice bytes)) [
      | inr (message, bad) ↦ absurd (cc (rw (good, load_from, bad) at e))
      | inl (secret, fine) ↦ (
        secret,
        record { bytes = bytes; decoded = good; made = fine },
        rw (good, load_from, fine) at e,
      )
    ]
  ]

  pub load_from-keeps :
      (acc secrets : List (String × Secret)) (id : String) (raw : List (String × String))
      → load_from acc raw ≡ ok secrets
      → All (λ e. e.0 ≢ id) raw
      → lookup id secrets ≡ lookup id acc
  unfolding load_from
  load_from-keeps acc secrets id [] e h = ap (lookup id) (cc)
  load_from-keeps acc secrets id ((k, hex_secret) ∷ raw) e (apart, h) =
      let (secret, decoded, rest) = load_step acc secrets k hex_secret raw e in
      load_from-keeps (insert k secret acc) secrets id raw rest h
      ∙ lookup-insert_other id k secret acc apart

  load_from-last :
      (acc secrets : List (String × Secret)) (before after : List (String × String))
      (id hex_secret : String)
      → load_from acc (before ++ (id, hex_secret) ∷ after) ≡ ok secrets
      → All (λ e. e.0 ≢ id) after
      → (secret : Secret) × IsDecoded hex_secret secret × (lookup id secrets ≡ some secret)
  load_from-last acc secrets [] after id hex_secret e h =
      let (secret, decoded, rest) = load_step acc secrets id hex_secret after e in
      (
        secret,
        decoded,
        load_from-keeps (insert id secret acc) secrets id after rest h
            ∙ lookup-insert_self id secret acc,
      )
  load_from-last acc secrets ((k, text) ∷ before) after id hex_secret e h =
      let (secret, decoded, rest) =
        load_step acc secrets k text (before ++ (id, hex_secret) ∷ after) e in
      load_from-last (insert k secret acc) secrets before after id hex_secret rest h

  -- If a file's entries load, the collection holds under an id the secret that the id's text is
  -- decoded to, where the entry is the last one with that id.
  pub load-lookup :
      (before after : List (String × String)) (id hex_secret : String) (keys : KeyCollection)
      → load (ok (before ++ (id, hex_secret) ∷ after)) ≡ ok keys
      → All (λ e. e.0 ≢ id) after
      → (secret : Secret) × IsDecoded hex_secret secret × (lookup id keys.secrets ≡ some secret)
  unfolding load
  load-lookup before after id hex_secret keys e h =
      elim (Result-cases (load_from [] (before ++ (id, hex_secret) ∷ after))) [
        | inr (message, bad) ↦ absurd (cc (rw (bad, load) at e))
        | inl (secrets, good) ↦
            let same : secrets ≡ keys.secrets =
              ap (λ k. k.secrets) (ok_inj (rw (good, load) at e)) in
            load_from-last [] keys.secrets before after id hex_secret (good ∙ ap (λ s. ok s) same) h
      ]
