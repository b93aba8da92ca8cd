-- ===== src/Multiplexer.antt =====
-- src/multiplexer.rs: the state that the handlers share, and how it is built.
-- `Settings` is what no handler changes; `Caches` is what stands behind a `Mutex`.
pub mod Capacities
use eleel.Common.{
  ℕ, zero, suc, min, String, List, [], ◌∷◌, length, take, Option, none, some, Result, ok, err,
  map_err,
}
use eleel.Common.Outcome.{◌>>=◌}
use eleel.External.Lru.{Lru}
use eleel.External.Primitives.{Primitives}
use eleel.External.Lighthouse.{Lighthouse}
use eleel.Config.{Config}
use eleel.Types.{ChainSpec, JsonForkchoiceStateV1, JsonPayloadStatusV1, PayloadId, ExecutionPayload}

pub record Settings : Type 0 where
  pub genesis_time : ℕ
  pub spec : ChainSpec
  pub config : Config

module _ ⦃p : Primitives⦄ where
  open p use {BlockHash, Hash256, ExtraData, PayloadAttributes}

  pub record NewPayloadCacheEntry : Type 0 where
    pub status : JsonPayloadStatusV1
    pub block_number : ℕ

  pub record PayloadInfo : Type 0 where
    pub block_number : ℕ
    pub state_root : Hash256
    pub base_fee_per_gas : ℕ
    pub gas_used : ℕ
    pub gas_limit : ℕ

  module _ ⦃lru : Lru⦄ where
    open lru use {LruCache}

    pub record PayloadBuilder : Type 0 where
      pub next_payload_id : ℕ
      pub payload_attributes : LruCache (BlockHash × PayloadAttributes) PayloadId
      pub payload_info : LruCache BlockHash PayloadInfo
      pub payloads : LruCache PayloadId ExecutionPayload
      pub extra_data : ExtraData

    pub record Caches : Type 0 where
      pub fcu_cache : LruCache JsonForkchoiceStateV1 JsonPayloadStatusV1
      pub new_payload_cache : LruCache BlockHash NewPayloadCacheEntry
      pub justified_block_cache : LruCache BlockHash (Unit {0})
      pub finalized_block_cache : LruCache BlockHash (Unit {0})
      pub payload_builder : PayloadBuilder

    module _ ⦃x : Lighthouse⦄ where
      -- `PayloadBuilder::new`; `none` is the panic of its `unwrap`.
      unfoldable pub new_payload_builder : ℕ → List ℕ → Option PayloadBuilder
      new_payload_builder cache_size extra_data_bytes =
          let len = min (length extra_data_bytes) x.max_extra_data_bytes in
          elim (x.new_extra_data (take len extra_data_bytes)) [
            | none ↦ none
            | some extra_data ↦ some (record {
              next_payload_id = 0;
              payload_attributes = lru.new cache_size;
              payload_info = lru.new cache_size;
              payloads = lru.new cache_size;
              extra_data = extra_data;
            })
          ]

      -- `NonZeroUsize::new(n).ok_or("invalid cache size")`
      unfoldable pub non_zero : ℕ → Result ℕ String
      non_zero zero = err "invalid cache size"
      non_zero (suc n) = ok (suc n)

      -- The caches in the order in which `new` builds them; `none` is a panic.
      unfoldable pub new_caches : Config → Result (Option Caches) String
      new_caches config = do
        fcu_size ← non_zero config.fcu_cache_size
        new_payload_size ← non_zero config.new_payload_cache_size
        justified_size ← non_zero config.justified_block_cache_size
        finalized_size ← non_zero config.justified_block_cache_size
        builder_size ← non_zero config.payload_builder_cache_size
        ok (elim (new_payload_builder builder_size config.payload_builder_extra_data) [
          | none ↦ none
          | some builder ↦ some (record {
            fcu_cache = lru.new fcu_size;
            new_payload_cache = lru.new new_payload_size;
            justified_block_cache = lru.new justified_size;
            finalized_block_cache = lru.new finalized_size;
            payload_builder = builder;
          })
        ])

      unfoldable pub missing_genesis : Option ℕ → Result ℕ String
      missing_genesis none = err "no genesis state"
      missing_genesis (some time) = ok time

      -- `Multiplexer::new`. The engine's client, the chain's specification and the genesis state
      -- (by its time) come from Lighthouse: they are given by what those calls return.
      unfoldable pub new_multiplexer :
          Config
          → (engine : Result (Unit {0}) String) (chain_spec : Result ChainSpec String)
            (genesis_state : Result (Option ℕ) String)
          → Result (Option (Settings × Caches)) String
      new_multiplexer config engine chain_spec genesis_state = do
        _ ← engine
        built ← new_caches config
        spec ← chain_spec
        found ← genesis_state
        genesis_time ← missing_genesis found
        ok (elim built [
          | none ↦ none
          | some caches ↦
              some (record { genesis_time = genesis_time; spec = spec; config = config }, caches)
        ])
