-- ===== src/Main/Boot/Starts.antt =====
-- src/main.rs, `main`: when the server starts, and the state that it starts from.
use eleel.Common.{
  inl, inr, subst, [], ◌∷◌, ℕ, ◌*◌, ◌%◌, ◌^◌, ◌≡◌, refl, sym, ap, ◌∙◌, ◌↔◌, String, Option, none,
  some, Result, ok, err,
}
use eleel.Common.Outcome.{>>=-eq-ok, ok_inj}
use eleel.Config.{Config, from_file}
use eleel.External.Environment.{Environment}
use eleel.External.Lru.{Lru}
use eleel.External.Primitives.{Primitives}
use eleel.External.Lighthouse.{Lighthouse}
use eleel.External.Jwt.{JwtApi}
use eleel.Jwt.{load}
use eleel.Multiplexer.Capacities.{IsSized, IsNew, new_caches-IsNew, new_caches-cases}
use eleel.Main.Boot.Secrets.{
  HasController, HasClients, CanLoad, TomlIsMap, controller-HasController,
  controller_of_HasController, clients-HasClients, clients_of_CanLoad,
}
use eleel.Main.Boot.{
  client_json_rpc, controller_json_rpc, health, get, post, ◌>>=◌, unwrap, unwrap_built, Server,
  routes, controller_secret, built_multiplexer, boot,
}
use eleel.Multiplexer.{Settings, Caches, new_caches, missing_genesis, new_multiplexer}
use eleel.Types.{ChainSpec}

some_inj : {A : Type 0} {a b : A} → some a ≡ some b → a ≡ b
some_inj e = cc

unwrap-eq-some : {A : Type 0} (r : Result A String) {a : A} → unwrap r ≡ some a → r ≡ ok a
unwrap-eq-some (ok b) e = ap (λ b. ok b) (some_inj e)
unwrap-eq-some (err text) e = absurd (cc)

unwrap_built-eq-some :
    {A : Type 0} (r : Result (Option A) String) {a : A} → unwrap_built r ≡ some a → r ≡ ok (some a)
unwrap_built-eq-some (ok o) e = ap (λ o. ok o) e
unwrap_built-eq-some (err text) e = absurd (cc)

after-eq-some :
    {A B : Type 0} (o : Option A) (f : A → Option B) {b : B}
    → (o >>= f) ≡ some b
    → (a : A) × (o ≡ some a) × (f a ≡ some b)
after-eq-some none f e = absurd (cc)
after-eq-some (some a) f e = (a, refl, e)

module _ ⦃p : Primitives⦄ ⦃lru : Lru⦄ ⦃x : Lighthouse⦄ where
  -- The parts that `Multiplexer::new` is made of.
  pub record IsMultiplexer (given : Config) (engine : Result (Unit {0}) String)
      (chain_spec : Result ChainSpec String) (genesis_state : Result (Option ℕ) String)
      (self : Settings) (s : Caches) : Type 0 where
    pub connected : engine ≡ ok tt
    pub caches : new_caches given ≡ ok (some s)
    pub spec : chain_spec ≡ ok self.spec
    pub genesis : genesis_state ≡ ok (some self.genesis_time)
    pub config : self.config ≡ given

  missing_genesis-ok :
      (found : Option ℕ) (time : ℕ) → missing_genesis found ≡ ok time → found ≡ some time
  unfolding missing_genesis
  missing_genesis-ok none time e = absurd (cc)
  missing_genesis-ok (some t) time e = ap (λ t. some t) (ok_inj e)

  new_multiplexer-IsMultiplexer :
      (config : Config) (engine : Result (Unit {0}) String) (chain_spec : Result ChainSpec String)
      (genesis_state : Result (Option ℕ) String) (self : Settings) (s : Caches)
      → new_multiplexer config engine chain_spec genesis_state ≡ ok (some (self, s))
      → IsMultiplexer config engine chain_spec genesis_state self s
  unfolding new_multiplexer
  new_multiplexer-IsMultiplexer config engine chain_spec genesis_state self s e =
      let (unit, connected, e1) = >>=-eq-ok engine _ e in
      let (built, made, e2) = >>=-eq-ok (new_caches config) _ e1 in
      let (spec, known, e3) = >>=-eq-ok chain_spec _ e2 in
      let (found, came, e4) = >>=-eq-ok genesis_state _ e3 in
      let (time, there, e5) = >>=-eq-ok (missing_genesis found) _ e4 in
      parts built spec time made connected known
        (came ∙ ap (λ o. ok o) (missing_genesis-ok found time there)) (ok_inj e5)
    where
      parts :
          (built : Option Caches) (spec : ChainSpec) (time : ℕ)
          → new_caches config ≡ ok built
          → engine ≡ ok tt
          → chain_spec ≡ ok spec
          → genesis_state ≡ ok (some time)
          → elim built as (λ _. Option (Settings × Caches)) [
            | none ↦ none
            | some caches ↦
                some (record { genesis_time = time; spec = spec; config = config }, caches)
          ]
            ≡ some (self, s)
          → IsMultiplexer config engine chain_spec genesis_state self s
      parts none spec time made connected known came e = absurd (cc)
      parts (some caches) spec time made connected known came e =
          let same = some_inj e in
          record {
            connected = connected;
            caches = made ∙ ap (λ r. ok (some r.1)) same;
            spec = known ∙ ap (λ r. ok r.0.spec) same;
            genesis = came ∙ ap (λ r. ok (some r.0.genesis_time)) same;
            config = sym (ap (λ r. r.0.config) same);
          }

  IsMultiplexer-new :
      (config : Config) (engine : Result (Unit {0}) String) (chain_spec : Result ChainSpec String)
      (genesis_state : Result (Option ℕ) String) (self : Settings) (s : Caches)
      → IsMultiplexer config engine chain_spec genesis_state self s
      → new_multiplexer config engine chain_spec genesis_state ≡ ok (some (self, s))
  unfolding new_multiplexer missing_genesis
  IsMultiplexer-new config engine chain_spec genesis_state self s h =
      rw (h.connected, h.caches, h.spec, h.genesis)
        (ap (λ c. ok (some (record self { config = c }, s))) (sym h.config))

  new_caches-IsSized :
      (config : Config) (s : Caches) → new_caches config ≡ ok (some s) → IsSized config
  new_caches-IsSized config s built = elim (new_caches-cases config) [
    | inl (sized, _) ↦ sized
    | inr (zero_size, failed) ↦ absurd (cc)
  ]

  new_caches_of_IsSized :
      (config : Config) → IsSized config → (s : Caches) × (new_caches config ≡ ok (some s))
  new_caches_of_IsSized config sized = elim (new_caches-cases config) [
    | inl (_, (s, made, _)) ↦ (s, made)
    | inr (zero_size, failed) ↦ absurd (zero_size sized)
  ]

  module _ ⦃j : JwtApi⦄ ⦃env : Environment⦄ (config : Config) (network : env.NetworkConfig) where
    -- What the server serves, by the options, the files and the network.
    pub record IsServed (server : Server) : Type 0 where
      pub controller :
          HasController config.controller_jwt_secret server.app_state.controller_jwt_secret
      pub clients : HasClients config.client_jwt_secrets server.app_state.client_jwt_collection
      pub caches : IsNew config server.caches
      pub spec : env.chain_spec network ≡ ok server.app_state.multiplexer.spec
      pub genesis : env.genesis_time network ≡ ok (some server.app_state.multiplexer.genesis_time)
      pub options : server.app_state.multiplexer.config ≡ config
      pub router :
          server.router
          ≡ ("/", post, client_json_rpc)
            ∷ ("/canonical", post, controller_json_rpc)
            ∷ ("/health", get, health)
            ∷ []
      pub body_limit : server.body_limit ≡ config.body_limit_mb * 1_048_576 % 2 ^ 64
      pub listen_address : server.listen_address ≡ config.listen_address
      pub listen_port : server.listen_port ≡ config.listen_port

    -- What it needs.
    pub record CanServe : Type 0 where
      pub secret : j.Secret
      pub controller : HasController config.controller_jwt_secret secret
      pub clients : CanLoad config.client_jwt_secrets
      pub connected : env.new_engine config.ee_url config.ee_jwt_secret ≡ ok tt
      pub sized : IsSized config
      pub spec : ChainSpec
      pub known : env.chain_spec network ≡ ok spec
      pub genesis_time : ℕ
      pub genesis : env.genesis_time network ≡ ok (some genesis_time)

    -- The server that `boot` gives, taken apart.
    served :
        (server : Server)
        → TomlIsMap
        → boot config network ≡ some server
        → IsServed server × CanServe
    unfolding boot routes
    served server toml e =
        let (secret, read, e1) = after-eq-some (unwrap (controller_secret config)) _ e in
        let (keys, loaded, e2) =
          after-eq-some (unwrap (load (from_file config.client_jwt_secrets))) _ e1 in
        let ((multiplexer, s), made, e3) =
          after-eq-some (unwrap_built (built_multiplexer config network)) _ e2 in
        let same = some_inj e3 in
        let first = controller-HasController _ secret (unwrap-eq-some _ read) in
        let clients = clients-HasClients _ keys toml (unwrap-eq-some _ loaded) in
        let parts =
          new_multiplexer-IsMultiplexer config _ _ _ multiplexer s (unwrap_built-eq-some _ made) in
        (
          subst IsServed same (record {
            controller = first;
            clients = clients;
            caches = new_caches-IsNew config s parts.caches;
            spec = parts.spec;
            genesis = parts.genesis;
            options = parts.config;
            router = refl;
            body_limit = refl;
            listen_address = refl;
            listen_port = refl;
          }),
          record {
            secret = secret;
            controller = first;
            clients = record {
              text = clients.text;
              raw = clients.raw;
              read = clients.read;
              parsed = clients.parsed;
              decoded = λ id hex_secret here.
                  let (one, good, _) = clients.loaded.held id hex_secret here in (one, good);
            };
            connected = parts.connected;
            sized = new_caches-IsSized config s parts.caches;
            spec = multiplexer.spec;
            known = parts.spec;
            genesis_time = multiplexer.genesis_time;
            genesis = parts.genesis;
          },
        )

    boot_of_CanServe : CanServe → (server : Server) × (boot config network ≡ some server)
    unfolding boot
    boot_of_CanServe h =
        let (keys, loaded) = clients_of_CanLoad config.client_jwt_secrets h.clients in
        let (s, made) = new_caches_of_IsSized config h.sized in
        let self : Settings = record {
          genesis_time = h.genesis_time;
          spec = h.spec;
          config = config;
        } in
        let built = IsMultiplexer-new config _ _ _ self s (record {
          connected = h.connected;
          caches = made;
          spec = h.known;
          genesis = h.genesis;
          config = refl;
        }) in
        rw
          (
            controller_of_HasController config.controller_jwt_secret h.secret h.controller,
            boot,
            loaded,
            built,
          )
          (_, refl)

    -- If a TOML table never gives one id twice: a server that `main` comes to serve has the
    -- controller's secret that the text of its file is decoded to; for each id of the clients' file
    -- the secret that its text is decoded to, and no other; empty caches of the sizes that are
    -- read, that of the finalized blocks being the justified ones'; the network's specification and
    -- genesis time; the clients' handler behind a POST of `/`, the controller's behind a POST of
    -- `/canonical`, and the health check behind a GET of `/health`; the limit of a body in units of
    -- 1048576 bytes, modulo 2 ^ 64; and the address of the options. And `main` comes to serve, and
    -- does not panic, exactly if the two files can be read, parsed and decoded, the engine's client
    -- can be made, the sizes that are read are positive, and the specification and the genesis time
    -- are there.
    pub boot-IsServed :
        TomlIsMap
        → ((server : Server) → boot config network ≡ some server → IsServed server)
          × (((server : Server) × (boot config network ≡ some server)) ↔ CanServe)
    boot-IsServed toml = (
      λ server e. (served server toml e).0,
      (λ (server, e). (served server toml e).1, boot_of_CanServe),
    )
