-- ===== src/System/Sound.antt =====
-- Every state that the server reaches is sound, and so is every answer that it gives.
use eleel.Common.{◌≡◌, String, Result, ok, err, All, ◌⊎◌}
use eleel.External.Lru.{Lru}
use eleel.External.Primitives.{Primitives}
use eleel.External.Lighthouse.{Lighthouse}
use eleel.External.Jwt.{JwtApi}
use eleel.Types.{Response, ErrorResponse, Responses, error_response}
use eleel.Config.{Config}
use eleel.Jwt.{verify, verify_single_token}
use eleel.Main.{AppState, refusal}
use eleel.Main.Route.{route}
use eleel.Prog.{Prog, ret}
use eleel.Prog.Safe.{Log, Safe}
use eleel.Provenance.Answers.{OnOk}
use eleel.Provenance.Invariant.{IsSound}
use eleel.Provenance.Responses.{BatchAnswered, ControllerAnswered}
use eleel.System.{Job, to_client, to_controller, Answer, Task, System}

module _ ⦃p : Primitives⦄ ⦃lru : Lru⦄ ⦃x : Lighthouse⦄ ⦃j : JwtApi⦄ (state : AppState) where
  -- A request is refused for its token, or for its body, or dispatched with both accepted.
  abbrev Handled :
      {V T A : Type 0}
      → (String → A)
      → Result V String
      → Result T String
      → (T → A → Type 0)
      → A
      → Type 0
  Handled {V} {T} refused token body Dispatched answer =
      ((message : String) × (token ≡ err message) × (answer ≡ refused message))
      ⊎ ((verified : V) × (token ≡ ok verified)
          × (((message : String) × (body ≡ err message) × (answer ≡ refused message))
              ⊎ ((request : T) × (body ≡ ok request) × Dispatched request answer)))

  abbrev refuse_client : String → Responses
  refuse_client message = Responses.single (error_response (refusal message))

  abbrev refuse_controller : String → Result Response ErrorResponse
  refuse_controller message = err (refusal message)

  abbrev pub JobAnswered : (job : Job) → Log → Answer job → Type 0
  JobAnswered (to_client token body) l answer =
      Handled refuse_client (verify state.client_jwt_collection token) body
        (λ requests rs. BatchAnswered state.multiplexer requests l rs) answer
  JobAnswered (to_controller token body) l answer =
      Handled refuse_controller (verify_single_token token state.controller_jwt_secret) body
        (λ request result.
          OnOk (ControllerAnswered state.multiplexer (route request.method) request) l result)
        answer

  abbrev TaskSafe : Log → Task → Type 0
  TaskSafe l task = Safe IsSound (JobAnswered task.job) l task.rest

  record IsSafe (sys : System) : Type 0 where
    caches : IsSound sys.log sys.caches
    tasks : All (TaskSafe sys.log) sys.tasks

  -- What a state of the server promises: its caches are sound, and each task that has finished
  -- has an answer that its job may be given.
  abbrev pub Finished : Log → Task → Type 0
  Finished l task =
      (answer : Answer task.job) → task.rest ≡ ret answer → JobAnswered task.job l answer

  pub record IsFaithful (sys : System) : Type 0 where
    pub caches : IsSound sys.log sys.caches
    pub answers : All (Finished sys.log) sys.tasks
