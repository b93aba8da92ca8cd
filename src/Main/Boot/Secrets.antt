-- ===== src/Main/Boot/Secrets.antt =====
-- src/main.rs, `main`: the secrets that the server starts with, by the files that hold them.
use mathlib.Core.List.{Memᴰ}
use eleel.Common.{◌≡◌, refl, inl, inr, String, List, [], Result, ok, subst}
use eleel.Common.Outcome.{>>=-eq-ok, map_err-eq-ok}
use eleel.Config.{from_file}
use eleel.External.Environment.{Environment}
use eleel.External.Jwt.{JwtApi}
use eleel.Jwt.{KeyCollection, lookup, load, jwt_secret_from_path}
use eleel.Jwt.Accepts.{lookup_mem}
use eleel.Jwt.Loads.{IsDecoded}
use eleel.Jwt.Maps.{
  IsMap, lookup_of_mem, load_from-IsMap, load_from-Loaded, load_from_of_decoded, load_parts,
}

module _ ⦃j : JwtApi⦄ where
  open j use {Secret}

  secret_from-IsDecoded :
      (path : String) (contents : Result String String) (secret : Secret)
      → jwt_secret_from_path path contents ≡ ok secret
      → (text : String) × (contents ≡ ok text) × IsDecoded text secret
  unfolding jwt_secret_from_path
  secret_from-IsDecoded path contents secret e =
      let inner = map_err-eq-ok _ _ e in
      let (text, read, e1) = >>=-eq-ok contents _ inner in
      let (bytes, decoded, made) = >>=-eq-ok (j.hex_decode text) _ e1 in
      (text, read, record { bytes = bytes; decoded = decoded; made = made })

  secret_from_of_IsDecoded :
      (path text : String) (secret : Secret)
      → IsDecoded text secret
      → jwt_secret_from_path path (ok text) ≡ ok secret
  unfolding jwt_secret_from_path
  secret_from_of_IsDecoded path text secret h = rw (h.decoded, jwt_secret_from_path, h.made) refl

  -- The collection holds, under the ids of the file, what their texts are decoded to, and no more.
  pub record IsLoaded (raw : List (String × String)) (keys : KeyCollection) : Type 0 where
    pub held :
        (id hex_secret : String)
        → Memᴰ {A = String × String} (id, hex_secret) raw
        → (secret : Secret) × IsDecoded hex_secret secret
          × Memᴰ {A = String × Secret} (id, secret) keys.secrets
    pub only :
        (id : String) (secret : Secret)
        → Memᴰ {A = String × Secret} (id, secret) keys.secrets
        → (hex_secret : String) × Memᴰ {A = String × String} (id, hex_secret) raw
          × IsDecoded hex_secret secret

  load-IsLoaded :
      (raw : List (String × String)) (keys : KeyCollection)
      → IsMap raw
      → load (ok raw) ≡ ok keys
      → IsLoaded raw keys
  unfolding lookup
  load-IsLoaded raw keys distinct e =
      let loaded = load_parts raw keys e in
      let keys_distinct = load_from-IsMap [] keys.secrets raw tt loaded in
      record {
        held = λ id hex_secret here.
            let there = lookup_of_mem id hex_secret raw distinct here in
            elim (load_from-Loaded id [] keys.secrets raw distinct loaded) [
              | inl (text, secret, found, good, known) ↦ (
                secret,
                subst (λ t. IsDecoded t secret) (cc (found, there)) good,
                lookup_mem id keys.secrets secret known,
              )
              | inr (missing, _) ↦ absurd (cc (missing, there))
            ];
        only = λ id secret here.
            let there = lookup_of_mem id secret keys.secrets keys_distinct here in
            elim (load_from-Loaded id [] keys.secrets raw distinct loaded) [
              | inl (text, other, found, good, known) ↦ (
                text,
                lookup_mem id raw text found,
                subst (λ s. IsDecoded text s) (cc (known, there)) good,
              )
              | inr (_, kept) ↦ absurd (cc (kept, there))
            ];
      }

  module _ ⦃env : Environment⦄ where
    pub record HasController (path : String) (secret : Secret) : Type 0 where
      pub text : String
      pub read : env.read_to_string path ≡ ok text
      pub decoded : IsDecoded text secret

    pub record HasClients (path : String) (keys : KeyCollection) : Type 0 where
      pub text : String
      pub raw : List (String × String)
      pub read : env.read_to_string path ≡ ok text
      pub parsed : env.toml_secrets text ≡ ok raw
      pub loaded : IsLoaded raw keys

    -- What a file must be for its secrets to load.
    pub record CanLoad (path : String) : Type 0 where
      pub text : String
      pub raw : List (String × String)
      pub read : env.read_to_string path ≡ ok text
      pub parsed : env.toml_secrets text ≡ ok raw
      pub decoded :
          (id hex_secret : String)
          → Memᴰ {A = String × String} (id, hex_secret) raw
          → (secret : Secret) × IsDecoded hex_secret secret

    -- The secrets of a TOML table: no two have one id.
    abbrev pub TomlIsMap : Type 0
    TomlIsMap =
        (text : String) (raw : List (String × String)) → env.toml_secrets text ≡ ok raw → IsMap raw

    pub controller-HasController :
        (path : String) (secret : Secret)
        → jwt_secret_from_path path (env.read_to_string path) ≡ ok secret
        → HasController path secret
    controller-HasController path secret e =
        let (text, read, decoded) = secret_from-IsDecoded path _ secret e in
        record { text = text; read = read; decoded = decoded }

    pub controller_of_HasController :
        (path : String) (secret : Secret)
        → HasController path secret
        → jwt_secret_from_path path (env.read_to_string path) ≡ ok secret
    controller_of_HasController path secret h =
        rw (h.read) (secret_from_of_IsDecoded path h.text secret h.decoded)

    pub clients-HasClients :
        (path : String) (keys : KeyCollection)
        → TomlIsMap
        → load (from_file path) ≡ ok keys
        → HasClients path keys
    unfolding load from_file
    clients-HasClients path keys toml e =
        let (raw, came, rest) = >>=-eq-ok (from_file path) _ e in
        let (text, read, table) = >>=-eq-ok _ _ came in
        let parsed = map_err-eq-ok _ _ table in
        record {
          text = text;
          raw = raw;
          read = map_err-eq-ok _ _ read;
          parsed = parsed;
          loaded = load-IsLoaded raw keys (toml text raw parsed) rest;
        }

    pub clients_of_CanLoad :
        (path : String) → CanLoad path → (keys : KeyCollection) × (load (from_file path) ≡ ok keys)
    unfolding load from_file
    clients_of_CanLoad path h =
        let (secrets, loaded) = load_from_of_decoded [] h.raw h.decoded in
        let came : from_file path ≡ ok h.raw = rw (h.read, from_file, h.parsed) refl in
        (record { secrets = secrets }, rw (came, load, loaded) refl)
