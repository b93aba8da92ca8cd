-- ===== src/Provenance/Invariant.antt =====
-- The invariant of the caches over the log of the engine's answers.
use mathlib.Core.List.{Memᴰ}
use eleel.Common.{◌+◌, ◌%◌, ◌^◌, ◌≡◌, none, false, ok, All-mono}
use eleel.External.Lru.{Lru}
use eleel.External.Primitives.{Primitives}
use eleel.Types.{
  JsonForkchoiceStateV1, forkchoice_state, JsonPayloadStatusV1, JsonForkchoiceUpdatedV1Response,
  valid, ExecutionPayload, fields, NewPayloadRequest, request_payload,
}
use eleel.Entries.{Entries}
use eleel.Multiplexer.{NewPayloadCacheEntry, PayloadInfo, PayloadBuilder, Caches}
use eleel.PayloadBuilder.Build.{payload_info_of, is_rejected}
use eleel.Prog.{notify_forkchoice_updated, new_payload}
use eleel.Prog.Safe.{Event, Log, ◌⊑◌}

module _ ⦃p : Primitives⦄ where
  open p use {BlockHash}

  -- The engine answered this fork choice state with this status.
  pub record FcuSaid (l : Log) (fcu : JsonForkchoiceStateV1) (status : JsonPayloadStatusV1)
      : Type 0 where
    pub answer : JsonForkchoiceUpdatedV1Response
    pub said : Memᴰ {A = Event} (notify_forkchoice_updated (forkchoice_state fcu) none, ok answer) l
    pub same : answer.payload_status ≡ status

  -- The engine called a fork choice state valid in which the block is the safe one.
  pub record SafeSaid (l : Log) (block : BlockHash) : Type 0 where
    pub fcu : JsonForkchoiceStateV1
    pub status : JsonPayloadStatusV1
    pub said : FcuSaid l fcu status
    pub called_valid : status.status ≡ valid
    pub same : fcu.safe_block_hash ≡ block

  pub record FinalizedSaid (l : Log) (block : BlockHash) : Type 0 where
    pub fcu : JsonForkchoiceStateV1
    pub status : JsonPayloadStatusV1
    pub said : FcuSaid l fcu status
    pub called_valid : status.status ≡ valid
    pub same : fcu.finalized_block_hash ≡ block

  -- The engine answered a payload with this status.
  pub record PayloadSaid (l : Log) (payload : ExecutionPayload) (status : JsonPayloadStatusV1)
      : Type 0 where
    pub request : NewPayloadRequest
    pub said : Memᴰ {A = Event} (new_payload request, ok status) l
    pub same : request_payload request ≡ payload

  pub record EntrySaid (l : Log) (block : BlockHash) (entry : NewPayloadCacheEntry) : Type 0 where
    pub payload : ExecutionPayload
    pub said : PayloadSaid l payload entry.status
    pub hash : (fields payload).block_hash ≡ block
    pub number : (fields payload).block_number ≡ entry.block_number

  -- The engine did not reject a payload with this hash and these figures.
  pub record InfoSaid (l : Log) (block : BlockHash) (info : PayloadInfo) : Type 0 where
    pub payload : ExecutionPayload
    pub status : JsonPayloadStatusV1
    pub said : PayloadSaid l payload status
    pub kept : is_rejected status.status ≡ false
    pub hash : (fields payload).block_hash ≡ block
    pub figures : payload_info_of payload ≡ info

  -- A dummy payload stands on a block that the engine did not reject.
  pub record BuiltOn (l : Log) (payload : ExecutionPayload) : Type 0 where
    pub parent : PayloadInfo
    pub said : InfoSaid l (fields payload).parent_hash parent
    pub number : (fields payload).block_number ≡ (parent.block_number + 1) % 2 ^ 64

  module _ {l l' : Log} (e : l ⊑ l') where
    pub FcuSaid-mono :
        {fcu : JsonForkchoiceStateV1} {status : JsonPayloadStatusV1}
        → FcuSaid l fcu status
        → FcuSaid l' fcu status
    FcuSaid-mono h = record { answer = h.answer; said = e _ h.said; same = h.same }

    pub SafeSaid-mono : {block : BlockHash} → SafeSaid l block → SafeSaid l' block
    SafeSaid-mono h = record {
      fcu = h.fcu;
      status = h.status;
      said = FcuSaid-mono h.said;
      called_valid = h.called_valid;
      same = h.same;
    }

    pub FinalizedSaid-mono : {block : BlockHash} → FinalizedSaid l block → FinalizedSaid l' block
    FinalizedSaid-mono h = record {
      fcu = h.fcu;
      status = h.status;
      said = FcuSaid-mono h.said;
      called_valid = h.called_valid;
      same = h.same;
    }

    pub PayloadSaid-mono :
        {payload : ExecutionPayload} {status : JsonPayloadStatusV1}
        → PayloadSaid l payload status
        → PayloadSaid l' payload status
    PayloadSaid-mono h = record { request = h.request; said = e _ h.said; same = h.same }

    pub EntrySaid-mono :
        {block : BlockHash} {entry : NewPayloadCacheEntry}
        → EntrySaid l block entry
        → EntrySaid l' block entry
    EntrySaid-mono h = record {
      payload = h.payload;
      said = PayloadSaid-mono h.said;
      hash = h.hash;
      number = h.number;
    }

    pub InfoSaid-mono :
        {block : BlockHash} {info : PayloadInfo} → InfoSaid l block info → InfoSaid l' block info
    InfoSaid-mono h = record {
      payload = h.payload;
      status = h.status;
      said = PayloadSaid-mono h.said;
      kept = h.kept;
      hash = h.hash;
      figures = h.figures;
    }

    pub BuiltOn-mono : {payload : ExecutionPayload} → BuiltOn l payload → BuiltOn l' payload
    BuiltOn-mono h = record { parent = h.parent; said = InfoSaid-mono h.said; number = h.number }

module _ ⦃p : Primitives⦄ ⦃lru : Lru⦄ where
  -- Every entry of every cache was said by the engine.
  pub record IsSound (l : Log) (s : Caches) : Type 0 where
    pub fcu : Entries (λ e. FcuSaid l e.0 e.1) s.fcu_cache
    pub new_payload : Entries (λ e. EntrySaid l e.0 e.1) s.new_payload_cache
    pub justified : Entries (λ e. SafeSaid l e.0) s.justified_block_cache
    pub finalized : Entries (λ e. FinalizedSaid l e.0) s.finalized_block_cache
    pub info : Entries (λ e. InfoSaid l e.0 e.1) s.payload_builder.payload_info
    pub payloads : Entries (λ e. BuiltOn l e.1) s.payload_builder.payloads

  pub IsSound-mono : {l l' : Log} {s : Caches} → l ⊑ l' → IsSound l s → IsSound l' s
  IsSound-mono e h = record {
    fcu = All-mono _ _ _ (λ _ q. FcuSaid-mono e q) h.fcu;
    new_payload = All-mono _ _ _ (λ _ q. EntrySaid-mono e q) h.new_payload;
    justified = All-mono _ _ _ (λ _ q. SafeSaid-mono e q) h.justified;
    finalized = All-mono _ _ _ (λ _ q. FinalizedSaid-mono e q) h.finalized;
    info = All-mono _ _ _ (λ _ q. InfoSaid-mono e q) h.info;
    payloads = All-mono _ _ _ (λ _ q. BuiltOn-mono e q) h.payloads;
  }

-- A write to one cache.
module _ ⦃p : Primitives⦄ ⦃lru : Lru⦄ {l : Log} {s : Caches} (h : IsSound l s) where
  pub with_fcu_cache :
      (c : lru.LruCache JsonForkchoiceStateV1 JsonPayloadStatusV1)
      → Entries (λ e. FcuSaid l e.0 e.1) c
      → IsSound l (record s { fcu_cache = c })
  with_fcu_cache c q = record {
    fcu = q;
    new_payload = h.new_payload;
    justified = h.justified;
    finalized = h.finalized;
    info = h.info;
    payloads = h.payloads;
  }

  pub with_new_payload_cache :
      (c : lru.LruCache p.BlockHash NewPayloadCacheEntry)
      → Entries (λ e. EntrySaid l e.0 e.1) c
      → IsSound l (record s { new_payload_cache = c })
  with_new_payload_cache c q = record {
    fcu = h.fcu;
    new_payload = q;
    justified = h.justified;
    finalized = h.finalized;
    info = h.info;
    payloads = h.payloads;
  }

  pub with_justified :
      (c : lru.LruCache p.BlockHash (Unit {0}))
      → Entries (λ e. SafeSaid l e.0) c
      → IsSound l (record s { justified_block_cache = c })
  with_justified c q = record {
    fcu = h.fcu;
    new_payload = h.new_payload;
    justified = q;
    finalized = h.finalized;
    info = h.info;
    payloads = h.payloads;
  }

  pub with_finalized :
      (c : lru.LruCache p.BlockHash (Unit {0}))
      → Entries (λ e. FinalizedSaid l e.0) c
      → IsSound l (record s { finalized_block_cache = c })
  with_finalized c q = record {
    fcu = h.fcu;
    new_payload = h.new_payload;
    justified = h.justified;
    finalized = q;
    info = h.info;
    payloads = h.payloads;
  }

  pub with_builder :
      (b : PayloadBuilder)
      → Entries (λ e. InfoSaid l e.0 e.1) b.payload_info
      → Entries (λ e. BuiltOn l e.1) b.payloads
      → IsSound l (record s { payload_builder = b })
  with_builder b i q = record {
    fcu = h.fcu;
    new_payload = h.new_payload;
    justified = h.justified;
    finalized = h.finalized;
    info = i;
    payloads = q;
  }
