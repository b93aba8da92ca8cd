-- ===== src/System/Refused.antt =====
-- Runs of the server with requests whose token is refused: what they leave to the others.
use mathlib.Core.Option
use eleel.Common.{
  ℕ, zero, suc, ◌≡◌, refl, sym, ap, ◌∙◌, inl, inr, Bool, true, false, Bool-cases, Option, none,
  some, List, [], ◌∷◌, All, Result, ok, err, Result-cases, if◌then◌else◌,
}
use eleel.External.Lru.{Lru}
use eleel.External.Primitives.{Primitives}
use eleel.External.Lighthouse.{Lighthouse}
use eleel.External.Jwt.{JwtApi}
use eleel.Jwt.{verify, verify_single_token}
use eleel.Main.{AppState, handle_client_json_rpc, handle_controller_json_rpc}
use eleel.Multiplexer.{Caches}
use eleel.Prog.{Call, Reply, Prog, ret}
use eleel.Prog.Safe.{Log}
use eleel.System.{
  Job, to_client, to_controller, Answer, Task, System, handler, Move, arrive, step, step_prog,
  step_tasks, move, play, start,
}

abbrev is_ok : {A E : Type 0} → Result A E → Bool
is_ok (ok a) = true
is_ok (err e) = false

module _ ⦃p : Primitives⦄ ⦃lru : Lru⦄ where
  abbrev jobs : List Task → List Job
  jobs [] = []
  jobs (task ∷ tasks) = task.job ∷ jobs tasks

  -- The n-th task, or nothing, takes a step.
  abbrev step_place :
      Option ℕ → ((c : Call) → Reply c) → List Task → Caches → Log → List Task × Caches × Log
  step_place none reply tasks s l = (tasks, s, l)
  step_place (some n) reply tasks s l = step_tasks n reply tasks s l

module _ ⦃p : Primitives⦄ ⦃lru : Lru⦄ ⦃x : Lighthouse⦄ ⦃j : JwtApi⦄ (state : AppState) where
  -- The token verifies for the route.
  abbrev pub is_accepted : Job → Bool
  is_accepted (to_client token body) = is_ok (verify state.client_jwt_collection token)
  is_accepted (to_controller token body) =
      is_ok (verify_single_token token state.controller_jwt_secret)

  abbrev pub accepted_tasks : List Task → List Task
  accepted_tasks [] = []
  accepted_tasks (task ∷ tasks) =
      let rest = accepted_tasks tasks in if is_accepted task.job then task ∷ rest else rest

  -- The server without the tasks of refused requests.
  abbrev pub only_accepted : System → System
  only_accepted sys = record sys { tasks = accepted_tasks sys.tasks }

  -- Where the n-th job stands among the accepted ones.
  abbrev pub place_among : ℕ → List Job → Option ℕ
  place_among n [] = none
  place_among zero (job ∷ l) = if is_accepted job then some zero else none
  place_among (suc n) (job ∷ l) =
      let rest = place_among n l in if is_accepted job then Option.map suc rest else rest

  -- The moves without the refused requests and their steps, after the given jobs arrived.
  abbrev pub accepted_moves : List Job → List Move → List Move
  accepted_moves l [] = []
  accepted_moves l (arrive job ∷ moves) =
      let rest = accepted_moves (job ∷ l) moves in
      if is_accepted job then arrive job ∷ rest else rest
  accepted_moves l (step n reply ∷ moves) =
      let rest = accepted_moves l moves in
      elim (place_among n l) [ none ↦ rest | some k ↦ step k reply ∷ rest ]

  -- The task of a refused request has finished.
  abbrev Settled : Task → Type 0
  Settled task = is_accepted task.job ≡ false → (a : Answer task.job) × (task.rest ≡ ret a)

  refused : (job : Job) → is_accepted job ≡ false → (a : Answer job) × (handler state job ≡ ret a)
  unfolding handle_client_json_rpc handle_controller_json_rpc
  refused (to_client token body) e =
      elim (Result-cases (verify state.client_jwt_collection token)) [
        | inl (v, good) ↦ absurd (cc (good, e))
        | inr (message, bad) ↦ rw (bad, handle_client_json_rpc) (_, refl)
      ]
  refused (to_controller token body) e =
      elim (Result-cases (verify_single_token token state.controller_jwt_secret)) [
        | inl (v, good) ↦ absurd (cc (good, e))
        | inr (message, bad) ↦ rw (bad, handle_controller_json_rpc) (_, refl)
      ]

  step_prog-ret :
      {A : Type 0} (reply : (c : Call) → Reply c) (m : Prog A) (a : A) (s : Caches) (l : Log)
      → m ≡ ret a
      → step_prog reply m s l ≡ (m, s, l)
  unfolding step_prog
  step_prog-ret reply m a s l e = rw e refl

  step_place-suc :
      (task : Task) (o : Option ℕ) (reply : (c : Call) → Reply c) (tasks : List Task) (s : Caches)
      (l : Log)
      → step_place (Option.map suc o) reply (task ∷ tasks) s l ≡ (
        task ∷ (step_place o reply tasks s l).0,
        (step_place o reply tasks s l).1,
        (step_place o reply tasks s l).2,
      )
  unfolding step_tasks
  step_place-suc task none reply tasks s l = refl
  step_place-suc task (some n) reply tasks s l = refl

  -- A step of the task among the accepted ones, beside its step among all.
  accepted-step_tasks :
      (n : ℕ) (reply : (c : Call) → Reply c) (tasks : List Task) (s : Caches) (l : Log)
      → All Settled tasks
      → step_place (place_among n (jobs tasks)) reply (accepted_tasks tasks) s l ≡ (
        accepted_tasks (step_tasks n reply tasks s l).0,
        (step_tasks n reply tasks s l).1,
        (step_tasks n reply tasks s l).2,
      )
  unfolding step_tasks
  accepted-step_tasks n reply [] s l h = refl
  accepted-step_tasks zero reply (task ∷ tasks) s l (h, k) =
      elim (Bool-cases (is_accepted task.job)) [
        | inl yes_accepted ↦ rw yes_accepted refl
        | inr no_accepted ↦
            let (a, done) = h no_accepted in
            let still = step_prog-ret reply task.rest a s l done in rw (no_accepted, still) refl
      ]
  accepted-step_tasks (suc n) reply (task ∷ tasks) s l (h, k) =
      let behind = accepted-step_tasks n reply tasks s l k in
      elim (Bool-cases (is_accepted task.job)) [
        | inl yes_accepted ↦ rw yes_accepted (
            step_place-suc task (place_among n (jobs tasks)) reply (accepted_tasks tasks) s l
            ∙ ap (λ r. (task ∷ r.0, r.1, r.2)) behind)
        | inr no_accepted ↦ rw no_accepted behind
      ]

  jobs-step_tasks :
      (n : ℕ) (reply : (c : Call) → Reply c) (tasks : List Task) (s : Caches) (l : Log)
      → jobs (step_tasks n reply tasks s l).0 ≡ jobs tasks
  unfolding step_tasks
  jobs-step_tasks n reply [] s l = refl
  jobs-step_tasks zero reply (task ∷ tasks) s l = refl
  jobs-step_tasks (suc n) reply (task ∷ tasks) s l =
      ap (λ k. task.job ∷ k) (jobs-step_tasks n reply tasks s l)

  Settled-step_tasks :
      (n : ℕ) (reply : (c : Call) → Reply c) (tasks : List Task) (s : Caches) (l : Log)
      → All Settled tasks
      → All Settled (step_tasks n reply tasks s l).0
  unfolding step_tasks
  Settled-step_tasks n reply [] s l h = tt
  Settled-step_tasks zero reply (task ∷ tasks) s l (h, k) = (
    λ no_accepted.
        let (a, done) = h no_accepted in
        (a, ap (λ r. r.0) (step_prog-ret reply task.rest a s l done) ∙ done),
    k,
  )
  Settled-step_tasks (suc n) reply (task ∷ tasks) s l (h, k) =
      (h, Settled-step_tasks n reply tasks s l k)

  abbrev system_of : List Task × Caches × Log → System
  system_of (tasks, s, l) = record { caches = s; log = l; tasks = tasks }

  play_place :
      (o : Option ℕ) (reply : (c : Call) → Reply c) (moves : List Move) (sys : System)
      → play state (elim o [ none ↦ moves | some k ↦ step k reply ∷ moves ]) sys
        ≡ play state moves (system_of (step_place o reply sys.tasks sys.caches sys.log))
  unfolding play move
  play_place none reply moves sys = refl
  play_place (some n) reply moves sys = refl

  play-only_accepted :
      (moves : List Move) (sys : System)
      → All Settled sys.tasks
      → only_accepted (play state moves sys)
        ≡ play state (accepted_moves (jobs sys.tasks) moves) (only_accepted sys)
  unfolding play move
  play-only_accepted [] sys h = refl
  play-only_accepted (arrive job ∷ moves) sys h =
      let behind = play-only_accepted moves (move state (arrive job) sys) (refused job, h) in
      elim (Bool-cases (is_accepted job)) [
        | inl yes_accepted ↦ rw yes_accepted (rw yes_accepted at behind)
        | inr no_accepted ↦ rw no_accepted (rw no_accepted at behind)
      ]
  play-only_accepted (step n reply ∷ moves) sys h =
      let after = Settled-step_tasks n reply sys.tasks sys.caches sys.log h in
      play-only_accepted moves (move state (step n reply) sys) after
      ∙ ap
          (λ l. play state (accepted_moves l moves) (only_accepted (move state (step n reply) sys)))
          (jobs-step_tasks n reply sys.tasks sys.caches sys.log)
      ∙ ap (λ r. play state (accepted_moves (jobs sys.tasks) moves) (system_of r))
          (sym (accepted-step_tasks n reply sys.tasks sys.caches sys.log h))
      ∙ sym (
          play_place (place_among n (jobs sys.tasks)) reply (accepted_moves (jobs sys.tasks) moves)
            (only_accepted sys))

  -- For any requests to the two routes, any order of the steps of their handlers and any answers of
  -- the engine: if the requests whose token does not verify for their route are taken out of a run,
  -- with their handlers' steps, the run ends with the same caches, the same log of what the engine
  -- answered and the same tasks of the other requests.
  pub play-accepted_moves :
      (s : Caches) (moves : List Move)
      → only_accepted (play state moves (start s)) ≡ play state (accepted_moves [] moves) (start s)
  play-accepted_moves s moves = play-only_accepted moves (start s) tt
