-- ===== src/System/Keeps.antt =====
-- What a run of the server keeps: a property of the caches that each write of its handlers keeps.
use eleel.Common.{length, ◌+◌, subst, arith, ℕ, zero, suc, List, [], ◌∷◌, All}
use eleel.External.Lru.{Lru}
use eleel.External.Primitives.{Primitives}
use eleel.External.Lighthouse.{Lighthouse}
use eleel.External.Jwt.{JwtApi}
use eleel.Effects.Answers.{IsAny}
use eleel.Main.{AppState}
use eleel.Multiplexer.{Caches}
use eleel.Prog.{Call, Reply, Prog, ret, fault, atomic, await}
use eleel.Prog.Does.{Kinds, Does}
use eleel.Prog.Safe.{Log}
use eleel.System.{Job, Task, System, handler, Move, arrive, step, step_prog, step_tasks, move, play}

module _ ⦃p : Primitives⦄ ⦃lru : Lru⦄ where
  -- A move by which no other job arrives.
  abbrev pub Arriving : (Job → Type 0) → Move → Type 0
  Arriving Allowed (arrive job) = Allowed job
  Arriving Allowed (step n reply) = Unit

  -- A property of the caches after so many moves, which the handlers of some jobs rely on and keep.
  pub record IsKept (kind : Job → Kinds) (P : ℕ → Caches → Type 0) : Type 0 where
    pub relies : (job : Job) (n : ℕ) (s : Caches) → P n s → (kind job).Inv s
    pub keeps :
        (job : Job) (change : Caches → Caches)
        → (kind job).Write change
        → (n : ℕ) (s : Caches) → P n s
        → P (suc n) (change s)
    pub passes : (n : ℕ) (s : Caches) → P n s → P (suc n) s

module _ ⦃p : Primitives⦄ ⦃lru : Lru⦄ ⦃x : Lighthouse⦄ ⦃j : JwtApi⦄ (state : AppState)
    (kind : Job → Kinds) (P : ℕ → Caches → Type 0) (kept : IsKept kind P) (Allowed : Job → Type 0)
    (allowed : (job : Job) → Allowed job → Does (kind job) IsAny (handler state job)) where
  abbrev pub TaskDoes : Task → Type 0
  TaskDoes task = Does (kind task.job) IsAny task.rest

  step_prog-Does :
      {A : Type 0} (job : Job) (reply : (c : Call) → Reply c) (m : Prog A) (n : ℕ) (s : Caches)
      (l : Log)
      → Does (kind job) IsAny m
      → P n s
      → Does (kind job) IsAny (step_prog reply m s l).0 × P (suc n) (step_prog reply m s l).1
  unfolding step_prog
  step_prog-Does job reply (ret a) n s l h i = (h, kept.passes n s i)
  step_prog-Does job reply (fault e) n s l h i = (h, kept.passes n s i)
  step_prog-Does job reply (atomic change k) n s l h i =
      (record { at = h.at.1 s (kept.relies job n s i) }, kept.keeps job change h.at.0 n s i)
  step_prog-Does job reply (await c k) n s l h i =
      (record { at = h.at.1 (reply c) }, kept.passes n s i)

  step_tasks-Does :
      (place : ℕ) (reply : (c : Call) → Reply c) (tasks : List Task) (n : ℕ) (s : Caches) (l : Log)
      → All TaskDoes tasks
      → P n s
      → All TaskDoes (step_tasks place reply tasks s l).0
        × P (suc n) (step_tasks place reply tasks s l).1
  unfolding step_tasks
  step_tasks-Does place reply [] n s l h i = (tt, kept.passes n s i)
  step_tasks-Does zero reply (task ∷ tasks) n s l (h, k) i =
      let (rest, after) = step_prog-Does task.job reply task.rest n s l h i in ((rest, k), after)
  step_tasks-Does (suc place) reply (task ∷ tasks) n s l (h, k) i =
      let (rest, after) = step_tasks-Does place reply tasks n s l k i in ((h, rest), after)

  pub play-Does :
      (moves : List Move) (n : ℕ) (sys : System)
      → All (Arriving Allowed) moves
      → All TaskDoes sys.tasks
      → P n sys.caches
      → All TaskDoes (play state moves sys).tasks
        × P (length moves + n) (play state moves sys).caches
  unfolding play move
  play-Does [] n sys a h i = (h, subst (λ k. P k sys.caches) (omega arith) i)
  play-Does (arrive job ∷ moves) n sys (a, b) h i =
      let (tasks, after) =
        play-Does moves (suc n) (move state (arrive job) sys) b (allowed job a, h)
          (kept.passes n sys.caches i) in
      (
        tasks,
        subst (λ k. P k (play state moves (move state (arrive job) sys)).caches) (omega arith)
            after,
      )
  play-Does (step place reply ∷ moves) n sys (a, b) h i =
      let (rest, after) = step_tasks-Does place reply sys.tasks n sys.caches sys.log h i in
      let (tasks, last) =
        play-Does moves (suc n) (move state (step place reply) sys) b rest after in
      (
        tasks,
        subst (λ k. P k (play state moves (move state (step place reply) sys)).caches) (omega arith)
            last,
      )
