-- ===== src/Main/Boot.antt =====
-- src/main.rs, `main`: from the options to the server that listens. A run of `main` that panics, by
-- one of its `unwrap`s, is `none`.
pub mod Secrets
pub mod Starts
use eleel.Common.{ℕ, ◌*◌, ◌%◌, ◌^◌, String, List, [], ◌∷◌, Option, none, some, Result, ok, err}
use eleel.Config.{Config, from_file}
use eleel.External.Environment.{Environment}
use eleel.External.Lru.{Lru}
use eleel.External.Primitives.{Primitives}
use eleel.External.Lighthouse.{Lighthouse}
use eleel.External.Jwt.{JwtApi}
use eleel.Jwt.{load, jwt_secret_from_path}
use eleel.Main.{AppState}
use eleel.Multiplexer.{Settings, Caches, new_multiplexer}

-- `const MEGABYTE`
abbrev pub megabyte : ℕ
megabyte = 1024 * 1024

-- The handlers behind the routes, and the methods by which they are routed.
pub data Endpoint : Type 0 where
  client_json_rpc controller_json_rpc health : Endpoint

pub data Verb : Type 0 where
  get post : Verb

-- `Router::new().route(…)`
unfoldable pub routes : List (String × Verb × Endpoint)
routes =
    ("/", post, client_json_rpc)
    ∷ ("/canonical", post, controller_json_rpc)
    ∷ ("/health", get, health)
    ∷ []

-- `StatusCode::OK`
unfoldable pub handle_health : ℕ
handle_health = 200

-- `Result::unwrap`
abbrev unwrap : {A : Type 0} → Result A String → Option A
unwrap (ok a) = some a
unwrap (err e) = none

-- The same on a result that a panic may have kept from coming.
abbrev unwrap_built : {A : Type 0} → Result (Option A) String → Option A
unwrap_built (ok o) = o
unwrap_built (err e) = none

infixl 5 ◌>>=◌
abbrev ◌>>=◌ : {A B : Type 0} → Option A → (A → Option B) → Option B
none >>= f = none
some a >>= f = f a

module _ ⦃p : Primitives⦄ ⦃lru : Lru⦄ ⦃x : Lighthouse⦄ ⦃j : JwtApi⦄ ⦃env : Environment⦄ where
  -- What is served: the state of the handlers, the routes, the limit of a body, and the address.
  pub record Server : Type 0 where
    pub app_state : AppState
    pub caches : Caches
    pub router : List (String × Verb × Endpoint)
    pub body_limit : ℕ
    pub listen_address : String
    pub listen_port : ℕ

  abbrev built_multiplexer : Config → env.NetworkConfig → Result (Option (Settings × Caches)) String
  built_multiplexer config network =
      new_multiplexer config (env.new_engine config.ee_url config.ee_jwt_secret)
        (env.chain_spec network) (env.genesis_time network)

  abbrev controller_secret : Config → Result j.Secret String
  controller_secret config =
      jwt_secret_from_path config.controller_jwt_secret
        (env.read_to_string config.controller_jwt_secret)

  -- The network is what clap read its name as. A `usize` has 64 bits.
  unfoldable pub boot : Config → env.NetworkConfig → Option Server
  boot config network = do
    controller_jwt_secret ← unwrap (controller_secret config)
    client_jwt_collection ← unwrap (load (from_file config.client_jwt_secrets))
    (multiplexer, caches) ← unwrap_built (built_multiplexer config network)
    some (record {
      app_state = record {
        controller_jwt_secret = controller_jwt_secret;
        client_jwt_collection = client_jwt_collection;
        multiplexer = multiplexer;
      };
      caches = caches;
      router = routes;
      body_limit = config.body_limit_mb * megabyte % 2 ^ 64;
      listen_address = config.listen_address;
      listen_port = config.listen_port;
    })
