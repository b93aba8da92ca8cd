-- ===== src/Config.antt =====
-- src/config.rs: the options of the command line, and the files and names that they stand for.
pub mod Names
use eleel.Common.{
  ℕ, String, ◌+s◌, str_eq, List, [], ◌∷◌, Option, none, some, Result, ok, err, map_err, ite,
  if◌then◌else◌,
}
use eleel.Common.Outcome.{◌>>=◌}
use eleel.External.Environment.{Environment}

pub data FcuMatching : Type 0 where
  exact loose head_only : FcuMatching

-- An address or a path by its text, and `payload_builder_extra_data` by its bytes (`as_bytes` is
-- all that is read of it). The network that the name was read as is given beside the options.
pub record Config : Type 0 where
  pub listen_address : String
  pub listen_port : ℕ
  pub ee_url : String
  pub ee_jwt_secret : String
  pub controller_jwt_secret : String
  pub client_jwt_secrets : String
  pub new_payload_cache_size : ℕ
  pub fcu_cache_size : ℕ
  pub payload_builder_cache_size : ℕ
  pub payload_builder_extra_data : List ℕ
  pub justified_block_cache_size : ℕ
  pub finalized_block_cache_size : ℕ
  pub fcu_matching : FcuMatching
  pub new_payload_wait_millis : ℕ
  pub new_payload_wait_cutoff : ℕ
  pub fcu_wait_millis : ℕ
  pub body_limit_mb : ℕ

-- `value_variants`
unfoldable pub value_variants : List FcuMatching
value_variants = FcuMatching.exact ∷ FcuMatching.loose ∷ FcuMatching.head_only ∷ []

-- `IntoStaticStr` and `EnumString` in kebab case.
unfoldable pub static_str : FcuMatching → String
static_str FcuMatching.exact = "exact"
static_str FcuMatching.loose = "loose"
static_str FcuMatching.head_only = "head-only"

unfoldable pub matching_of_str : String → Option FcuMatching
matching_of_str s =
    if str_eq s "exact"
    then some FcuMatching.exact
    else if str_eq s "loose"
    then some FcuMatching.loose
    else if str_eq s "head-only"
    then some FcuMatching.head_only
    else none

-- `PossibleValue::new(s).help(…)`
pub record PossibleValue : Type 0 where
  pub name : String
  pub help : String

matching_help : FcuMatching → String
matching_help FcuMatching.exact = "match head/safe/finalized from controller exactly"
matching_help FcuMatching.loose = "match head and sanity check safe/finalized"
matching_help FcuMatching.head_only = "match head and ignore safe/finalized (dangerous)"

unfoldable pub to_possible_value : FcuMatching → Option PossibleValue
unfolding matching_help
to_possible_value m = some (record { name = static_str m; help = matching_help m })

module _ ⦃env : Environment⦄ where
  -- `ClientJwtSecrets::from_file`: the secrets by their ids, as the file has them.
  unfoldable pub from_file : (path : String) → Result (List (String × String)) String
  from_file path = do
    secrets_str ←
        map_err (λ e. "IO error reading secrets from " +s path +s ": " +s e)
          (env.read_to_string path)
    map_err (λ e. "Parse error reading secrets from " +s path +s ": " +s e)
        (env.toml_secrets secrets_str)

  known_network : String → Option env.NetworkConfig → Result env.NetworkConfig String
  known_network s none = err ("unknown network: " +s s)
  known_network s (some network) = ok network

  -- `Network::from_str`
  unfoldable pub network_of_str : String → Result env.NetworkConfig String
  unfolding known_network
  network_of_str s = do found ← env.network_constant s; known_network s found
