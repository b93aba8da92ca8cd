-- ===== src/External/Environment.antt =====
-- What the program meets when it starts: the file system and the crates `toml`, `url` and
-- `eth2_network_config`. Errors are given by the texts that the program puts into its messages.
use eleel.Common.{ℕ, String, List, Option, Result}
use eleel.Types.{ChainSpec}

pub record Environment : Type 1 where
  -- `std::fs::read_to_string` and `toml::from_str` at `ClientJwtSecrets`
  pub read_to_string : String → Result String String
  pub toml_secrets : String → Result (List (String × String)) String
  -- `Eth2NetworkConfig`, `constant`, its specification and the time of its genesis state
  pub NetworkConfig : Type 0
  pub network_constant : String → Result (Option NetworkConfig) String
  pub chain_spec : NetworkConfig → Result ChainSpec String
  pub genesis_time : NetworkConfig → Result (Option ℕ) String
  -- The client of the engine, by its URL and the path of its secret.
  pub new_engine : String → String → Result (Unit {0}) String
