-- ===== src/System.antt =====
-- src/main.rs as a whole: the HTTP requests that the server handles at the same time, as tasks
-- that take their atomic steps in any order. A run is a list of moves, and any list is a run: it
-- is as general as the scheduler of the runtime and as the execution engine.
pub mod Sound
pub mod Keeps
pub mod Isolation
pub mod Holds
pub mod Panics
pub mod Refused
use eleel.Common.{ℕ, zero, suc, String, List, [], ◌∷◌, Result}
use eleel.External.Lru.{Lru}
use eleel.External.Primitives.{Primitives}
use eleel.External.Lighthouse.{Lighthouse}
use eleel.External.Jwt.{JwtApi}
use eleel.Types.{Request, Requests, Response, ErrorResponse, Responses}
use eleel.Main.{AppState, handle_client_json_rpc, handle_controller_json_rpc}
use eleel.Multiplexer.{Caches}
use eleel.Prog.{Call, Reply, Prog, ret, fault, atomic, await}
use eleel.Prog.Safe.{Event, Log}

module _ ⦃p : Primitives⦄ ⦃lru : Lru⦄ where
  -- A POST to one of the two routes, by its token and its body.
  pub data Job : Type 0 where
    to_client : String → Result Requests String → Job
    to_controller : String → Result Request String → Job

  abbrev pub Answer : Job → Type 0
  Answer (to_client token body) = Responses
  Answer (to_controller token body) = Result Response ErrorResponse

  -- What is left to do of a job; at the end, its answer.
  pub record Task : Type 0 where
    pub job : Job
    pub rest : Prog (Answer job)

  pub record System : Type 0 where
    pub caches : Caches
    -- what the engine answered so far
    pub log : Log
    pub tasks : List Task

  module _ ⦃x : Lighthouse⦄ ⦃j : JwtApi⦄ where
    abbrev pub handler : AppState → (job : Job) → Prog (Answer job)
    handler state (to_client token body) = handle_client_json_rpc state token body
    handler state (to_controller token body) = handle_controller_json_rpc state token body

  -- A request arrives, or the task at a place takes its next step, an await with any reply.
  pub data Move : Type 0 where
    arrive : Job → Move
    step : ℕ → ((c : Call) → Reply c) → Move

  unfoldable pub step_prog :
      {A : Type 0} → ((c : Call) → Reply c) → Prog A → Caches → Log → Prog A × Caches × Log
  step_prog reply (ret a) s l = (ret a, s, l)
  step_prog reply (fault e) s l = (fault e, s, l)
  step_prog reply (atomic change k) s l = (k s, change s, l)
  step_prog reply (await c k) s l = (k (reply c), s, (c, reply c) ∷ l)

  unfoldable pub step_tasks :
      ℕ → ((c : Call) → Reply c) → List Task → Caches → Log → List Task × Caches × Log
  unfolding step_prog
  step_tasks n reply [] s l = ([], s, l)
  step_tasks zero reply (task ∷ tasks) s l =
      let (rest, s', l') = step_prog reply task.rest s l in
      (record { job = task.job; rest = rest } ∷ tasks, s', l')
  step_tasks (suc n) reply (task ∷ tasks) s l =
      let (tasks', s', l') = step_tasks n reply tasks s l in (task ∷ tasks', s', l')

  module _ ⦃x : Lighthouse⦄ ⦃j : JwtApi⦄ where
    unfoldable pub move : AppState → Move → System → System
    unfolding step_tasks
    move state (arrive job) sys = record sys {
      tasks = record { job = job; rest = handler state job } ∷ sys.tasks;
    }
    move state (step n reply) sys =
        let (tasks, s, l) = step_tasks n reply sys.tasks sys.caches sys.log in
        record { caches = s; log = l; tasks = tasks }

    unfoldable pub play : AppState → List Move → System → System
    unfolding move
    play state [] sys = sys
    play state (m ∷ moves) sys = play state moves (move state m sys)

  -- The server as it starts.
  abbrev pub start : Caches → System
  start s = record { caches = s; log = []; tasks = [] }
