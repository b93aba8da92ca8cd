-- ===== src/Prog.antt =====
-- An async handler as a tree of atomic steps: between two of them any other handler may run.
-- A step is one critical section of a `Mutex`, or an `await` on the engine or the clock.
pub mod Safe
pub mod Run
pub mod Ends
pub mod Does
use eleel.Common.{ℕ, String, Option, Result}
use eleel.External.Lru.{Lru}
use eleel.External.Primitives.{Primitives}
use eleel.Types.{
  ForkchoiceState, JsonPayloadStatusV1, JsonForkchoiceUpdatedV1Response, NewPayloadRequest,
}
use eleel.Multiplexer.{Caches}

module _ ⦃p : Primitives⦄ where
  -- What a handler awaits: the calls of `self.engine`, `Instant::now` and `tokio::time::sleep`.
  -- A duration is in milliseconds.
  pub data Call : Type 0 where
    notify_forkchoice_updated : ForkchoiceState → Option p.PayloadAttributes → Call
    new_payload : NewPayloadRequest → Call
    get_chain_id : (timeout : ℕ) → Call
    get_engine_capabilities : (max_age : ℕ) → Call
    rpc_request : String → p.Json → (timeout : ℕ) → Call
    now : Call
    sleep : ℕ → Call

  -- The engine's statuses are given as Lighthouse's `From` converts them for JSON.
  abbrev pub Reply : Call → Type 0
  Reply (notify_forkchoice_updated f a) = Result JsonForkchoiceUpdatedV1Response p.EngineError
  Reply (new_payload r) = Result JsonPayloadStatusV1 p.EngineError
  Reply (get_chain_id t) = Result ℕ p.EngineError
  Reply (get_engine_capabilities t) = Result p.Capabilities p.EngineError
  Reply (rpc_request m j t) = Result p.Json p.EngineError
  Reply now = ℕ
  Reply (sleep t) = Unit {0}

-- How a handler can stop without a result: by a panic, or because a loop of the model met the
-- bound on its rounds.
pub data Fault : Type 0 where
  panicked out_of_rounds : Fault

module _ ⦃p : Primitives⦄ ⦃lru : Lru⦄ where
  pub data Prog (A : Type 0) : Type 0 where
    ret : A → Prog A
    fault : Fault → Prog A
    -- one critical section: the new caches, and what goes on from the old ones
    atomic : (Caches → Caches) → (Caches → Prog A) → Prog A
    await : (c : Call) → (Reply c → Prog A) → Prog A

  module _ {A B : Type 0} where
    infixl 5 ◌>>=◌ ◌>>◌
    unfoldable pub ◌>>=◌ : Prog A → (A → Prog B) → Prog B
    ret a >>= f = f a
    fault e >>= f = fault e
    atomic change k >>= f = atomic change (λ s. k s >>= f)
    await c k >>= f = await c (λ r. k r >>= f)

    abbrev pub ◌>>◌ : Prog A → Prog B → Prog B
    m >> n = m >>= λ _. n

  -- A critical section that returns a value and the caches that it leaves.
  unfoldable pub locked : {A : Type 0} → (Caches → A × Caches) → Prog A
  locked f = atomic (λ s. (f s).1) (λ s. ret (f s).0)

  unfoldable pub update : (Caches → Caches) → Prog (Unit {0})
  update f = atomic f (λ s. ret tt)

  unfoldable pub call : (c : Call) → Prog (Reply c)
  call c = await c (λ r. ret r)

  -- `unwrap`
  unfoldable pub lift : {A : Type 0} → Option A → Prog A
  lift o = elim o [ Option.none ↦ fault panicked | Option.some a ↦ ret a ]

  -- `?` in a handler: an error is its result.
  unfoldable pub try : {T A E : Type 0} → Result T E → (T → Prog (Result A E)) → Prog (Result A E)
  try r k = elim r [ Result.ok a ↦ k a | Result.err e ↦ ret (Result.err e) ]
