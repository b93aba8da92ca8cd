-- ===== src/Jwt/Maps.antt =====
-- src/jwt.rs, `KeyCollection::load`: the file's entries and the secrets as maps.
use mathlib.Core.List.{Memᴰ}
use eleel.Common.{
  ◌≡◌, ◌≢◌, refl, sym, ap, ◌∙◌, inl, inr, ◌⊎◌, String, str_eq, eq_iff, List, [], ◌∷◌, All, some,
  none, Bool-cases, ok, Result-cases, subst, true,
}
use eleel.Common.Outcome.{ok_inj}
use eleel.External.Jwt.{JwtApi}
use eleel.Jwt.{KeyCollection, lookup, insert, load_from, load}
use eleel.Jwt.Loads.{
  str_eq_other, lookup-insert_self, lookup-insert_other, IsDecoded, load_step, load_from-keeps,
}

module _ {V : Type 0} where
  -- The entries of a map: no two have one key.
  abbrev pub IsMap : List (String × V) → Type 0
  IsMap [] = Unit
  IsMap ((k, v) ∷ l) = All (λ e. e.0 ≢ k) l × IsMap l

  All-ne_mem :
      (key k : String) (v : V) (l : List (String × V))
      → All (λ e. e.0 ≢ k) l
      → Memᴰ {A = String × V} (key, v) l
      → key ≢ k
  All-ne_mem key k v [] h here = elim here [ ]
  All-ne_mem key k v (e ∷ l) (apart, h) (Memᴰ.head same) =
      λ twin. apart (sym (ap (λ x. x.0) same) ∙ twin)
  All-ne_mem key k v (e ∷ l) (apart, h) (Memᴰ.tail here) = All-ne_mem key k v l h here

  pub lookup_of_mem :
      (key : String) (v : V) (l : List (String × V))
      → IsMap l
      → Memᴰ {A = String × V} (key, v) l
      → lookup key l ≡ some v
  unfolding lookup
  lookup_of_mem key v [] h here = elim here [ ]
  lookup_of_mem key v ((k, w) ∷ l) (apart, h) (Memᴰ.head same) =
      let hit : str_eq k key ≡ true = (eq_iff k key).1 (sym (ap (λ x. x.0) same)) in
      rw hit (ap (λ x. some x.1) (sym same))
  lookup_of_mem key v ((k, w) ∷ l) (apart, h) (Memᴰ.tail here) =
      let other = str_eq_other k key (λ e. All-ne_mem key k v l apart here (sym e)) in
      rw other (lookup_of_mem key v l h here)

  insert-All :
      (j key : String) (v : V) (l : List (String × V))
      → key ≢ j
      → All (λ e. e.0 ≢ j) l
      → All (λ e. e.0 ≢ j) (insert key v l)
  unfolding insert
  insert-All j key v [] apart h = (apart, tt)
  insert-All j key v ((k, w) ∷ l) apart (first, h) = elim (Bool-cases (str_eq k key)) [
    | inl same ↦ rw (same, insert) (apart, h)
    | inr other ↦ rw (other, insert) (first, insert-All j key v l apart h)
  ]

  insert-IsMap : (key : String) (v : V) (l : List (String × V)) → IsMap l → IsMap (insert key v l)
  unfolding insert
  insert-IsMap key v [] h = (tt, tt)
  insert-IsMap key v ((k, w) ∷ l) (apart, h) = elim (Bool-cases (str_eq k key)) [
    | inl same ↦
        rw (same, insert) (subst (λ i. All (λ e. e.0 ≢ i) l) ((eq_iff k key).0 same) apart, h)
    | inr other ↦
        let away : key ≢ k = λ e. absurd (cc (other, (eq_iff k key).1 (sym e))) in
        rw (other, insert) (insert-All k key v l away apart, insert-IsMap key v l h)
  ]

module _ ⦃j : JwtApi⦄ where
  open j use {Secret, VerifiedToken}

  pub load_from-IsMap :
      (acc secrets : List (String × Secret)) (raw : List (String × String))
      → IsMap acc
      → load_from acc raw ≡ ok secrets
      → IsMap secrets
  unfolding load_from
  load_from-IsMap acc secrets [] h e = subst IsMap (ok_inj e) h
  load_from-IsMap acc secrets ((id, hex_secret) ∷ raw) h e =
      let (secret, decoded, rest) = load_step acc secrets id hex_secret raw e in
      load_from-IsMap (insert id secret acc) secrets raw (insert-IsMap id secret acc h) rest

  -- What loading leaves under an id: the decoded secret of its entry, or what was there.
  abbrev pub Loaded :
      String → List (String × String) → (acc secrets : List (String × Secret)) → Type 0
  Loaded id raw acc secrets =
      ((hex_secret : String) × (secret : Secret) × (lookup id raw ≡ some hex_secret)
        × IsDecoded hex_secret secret
        × (lookup id secrets ≡ some secret))
      ⊎ ((lookup id raw ≡ none) × (lookup id secrets ≡ lookup id acc))

  pub load_from-Loaded :
      (id : String) (acc secrets : List (String × Secret)) (raw : List (String × String))
      → IsMap raw
      → load_from acc raw ≡ ok secrets
      → Loaded id raw acc secrets
  unfolding load_from lookup
  load_from-Loaded id acc secrets [] h e = inr (refl, ap (lookup id) (sym (ok_inj e)))
  load_from-Loaded id acc secrets ((k, hex_secret) ∷ raw) (apart, h) e =
      let (secret, decoded, rest) = load_step acc secrets k hex_secret raw e in
      elim (Bool-cases (str_eq k id)) [
        | inl same ↦
            let here : k ≡ id = (eq_iff k id).0 same in
            inl (
              hex_secret,
              secret,
              rw (same, lookup) refl,
              decoded,
              subst (λ i. lookup i secrets ≡ some secret) here
                  (load_from-keeps (insert k secret acc) secrets k raw rest apart
                    ∙ lookup-insert_self k secret acc),
            )
        | inr other ↦
            let away : k ≢ id = λ e. absurd (cc (other, (eq_iff k id).1 e)) in
            elim (load_from-Loaded id (insert k secret acc) secrets raw h rest) [
              | inl (text, found, there, good, held) ↦
                  inl (text, found, rw (other, lookup) there, good, held)
              | inr (missing, kept) ↦
                  inr (rw (other, lookup) missing, kept ∙ lookup-insert_other id k secret acc away)
            ]
      ]

  IsDecoded-unique :
      (hex_secret : String) (s t : Secret) → IsDecoded hex_secret s → IsDecoded hex_secret t → s ≡ t
  IsDecoded-unique hex_secret s t a b =
      let same : a.bytes ≡ b.bytes = ok_inj (sym a.decoded ∙ b.decoded) in
      ok_inj (sym a.made ∙ ap j.new_from_slice same ∙ b.made)

  -- Two loads of one map hold the same secrets.
  pub Loaded-same :
      (id : String) (raw raw' : List (String × String)) (secrets secrets' : List (String × Secret))
      → lookup id raw ≡ lookup id raw'
      → Loaded id raw [] secrets
      → Loaded id raw' [] secrets'
      → lookup id secrets ≡ lookup id secrets'
  Loaded-same id raw raw' secrets secrets' e (inl (t, s, there, good, held))
        (inl (t', s', there', good', held')) =
      let text : t ≡ t' = cc in
      let one : s ≡ s' =
        IsDecoded-unique t s s' good (subst (λ h. IsDecoded h s') (sym text) good') in
      cc
  Loaded-same id raw raw' secrets secrets' e (inr (missing, kept)) (inr (missing', kept')) =
      kept ∙ sym kept'
  Loaded-same id raw raw' secrets secrets' e (inl (t, s, there, good, held))
        (inr (missing', kept')) =
      absurd (cc)
  Loaded-same id raw raw' secrets secrets' e (inr (missing, kept))
        (inl (t', s', there', good', held')) =
      absurd (cc)

  pub IsDecoded-of_mem :
      (acc secrets : List (String × Secret)) (raw : List (String × String)) (id hex_secret : String)
      → load_from acc raw ≡ ok secrets
      → Memᴰ {A = String × String} (id, hex_secret) raw
      → (secret : Secret) × IsDecoded hex_secret secret
  IsDecoded-of_mem acc secrets [] id hex_secret e here = elim here [ ]
  IsDecoded-of_mem acc secrets ((k, text) ∷ raw) id hex_secret e (Memᴰ.head same) =
      let (secret, decoded, rest) = load_step acc secrets k text raw e in
      (secret, subst (λ t. IsDecoded t secret) (ap (λ x. x.1) (sym same)) decoded)
  IsDecoded-of_mem acc secrets ((k, text) ∷ raw) id hex_secret e (Memᴰ.tail here) =
      let (secret, decoded, rest) = load_step acc secrets k text raw e in
      IsDecoded-of_mem (insert k secret acc) secrets raw id hex_secret rest here

  pub load_from_of_decoded :
      (acc : List (String × Secret)) (raw : List (String × String))
      → ((id hex_secret : String)
          → Memᴰ {A = String × String} (id, hex_secret) raw
          → (secret : Secret) × IsDecoded hex_secret secret)
      → (secrets : List (String × Secret)) × (load_from acc raw ≡ ok secrets)
  unfolding load_from
  load_from_of_decoded acc [] h = (acc, refl)
  load_from_of_decoded acc ((id, hex_secret) ∷ raw) h =
      let (secret, good) = h id hex_secret (Memᴰ.head refl) in
      let (secrets, rest) =
        load_from_of_decoded (insert id secret acc) raw (λ i t here. h i t (Memᴰ.tail here)) in
      (secrets, rw (good.decoded, load_from, good.made) rest)

  pub load_parts :
      (raw : List (String × String)) (keys : KeyCollection)
      → load (ok raw) ≡ ok keys
      → load_from [] raw ≡ ok keys.secrets
  unfolding load
  load_parts raw keys e = elim (Result-cases (load_from [] raw)) [
    | inr (message, bad) ↦ absurd (cc (rw (bad, load) at e))
    | inl (secrets, good) ↦ good ∙ ap (λ k. ok k.secrets) (ok_inj (rw (good, load) at e))
  ]
