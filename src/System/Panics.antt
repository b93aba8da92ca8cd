-- ===== src/System/Panics.antt =====
-- src/main.rs as a whole: where a handler may panic, and what the payloads behind the ids are for.
use eleel.Common.{◌^◌, ◌<◌, length, ◌≡◌, subst, List, All, All-mono, some, ok, err}
use eleel.External.Lru.{Lru}
use eleel.External.Primitives.{Primitives}
use eleel.External.Lighthouse.{Lighthouse}
use eleel.External.Jwt.{JwtApi}
use eleel.Config.{Config}
use eleel.Effects.Answers.{IsAny}
use eleel.Effects.Contents.{contents}
use eleel.Effects.Kinds.{IsAgreed}
use eleel.Main.{AppState}
use eleel.Main.Route.{fork_choice, route}
use eleel.Multiplexer.{Caches, new_caches}
use eleel.Prog.{fault, panicked}
use eleel.Prog.Does.{Does}
use eleel.System.{Job, to_client, to_controller, Task, Move, play, start}
use eleel.System.Holds.{for_job, play-Holds}

module _ ⦃p : Primitives⦄ ⦃lru : Lru⦄ ⦃x : Lighthouse⦄ where
  -- A job whose handler may panic: the controller's forkchoiceUpdated.
  abbrev pub MayPanic : Job → Type 0
  MayPanic (to_client token body) = ⊥
  MayPanic (to_controller token (ok request)) = route request.method ≡ fork_choice
  MayPanic (to_controller token (err text)) = ⊥

  abbrev pub Unpanicked : Task → Type 0
  Unpanicked task = task.rest ≡ fault panicked → MayPanic task.job

  Unpanicked-of_Does : (task : Task) → Does (for_job task.job) IsAny task.rest → Unpanicked task
  Unpanicked-of_Does task h e =
      faulted task.job (subst (λ m. Does (for_job task.job) IsAny m) e h).at
    where
      faulted : (job : Job) → (for_job job).Faults panicked → MayPanic job
      faulted (to_client token body) never = absurd never
      faulted (to_controller token (ok request)) way = way
      faulted (to_controller token (err text)) never = absurd (cc)

module _ ⦃p : Primitives⦄ ⦃lru : Lru⦄ ⦃x : Lighthouse⦄ ⦃j : JwtApi⦄ (state : AppState) where
  -- From the caches that the multiplexer builds on, for any requests to the two routes, any order
  -- of steps and any answers of the engine: no handler of a client's request has panicked, and a
  -- handler of the controller's has only if its request's body was accepted and its method is a
  -- forkchoiceUpdated.
  pub play-panics :
      (config : Config) (s : Caches) (moves : List Move)
      → new_caches config ≡ ok (some s)
      → All Unpanicked (play state moves (start s)).tasks
  play-panics config s moves built =
      All-mono _ Unpanicked _ Unpanicked-of_Does (play-Holds state config s moves built).0

  -- From the caches that the multiplexer builds on, for any requests, order of steps and answers of
  -- the engine, in fewer than 2 ^ 64 moves: every id that is held is of a number below the next
  -- one, and the id that is held for a parent and attributes stands, if it fetches a payload, for
  -- one with that parent hash and with the timestamp, the randomness and the fee recipient of the
  -- attributes.
  pub play-IsAgreed :
      (config : Config) (s : Caches) (moves : List Move)
      → length moves < 2 ^ 64
      → new_caches config ≡ ok (some s)
      → IsAgreed (contents (play state moves (start s)).caches)
  play-IsAgreed config s moves few built = ((play-Holds state config s moves built).1.agreed few).0
