-- ===== src/Prog/Ends.antt =====
-- Handlers that come to their end, whatever the other handlers and the engine do, under a clock
-- that never runs back and by which a sleep takes at least its time.
use eleel.Common.{
  ℕ, ◌+◌, ◌≤◌, ◌≡◌, refl, Option, none, some, Result, ok, err, Bool, true, false, arith,
}
use eleel.External.Lru.{Lru}
use eleel.External.Primitives.{Primitives}
use eleel.Multiplexer.{Caches}
use eleel.Prog.{
  Call, now, sleep, Reply, Prog, ret, fault, atomic, await, locked, call, lift, try, ◌>>=◌, ◌>>◌,
}

module _ ⦃p : Primitives⦄ ⦃lru : Lru⦄ where
  abbrev pub AnyResult : {A : Type 0} → A → Type 0
  AnyResult a = Unit

  -- From a time on, the handler meets no fault, and its result has a property.
  abbrev EndsFrom : {A : Type 0} → (A → Type 0) → ℕ → Prog A → Type 0
  EndsFrom Q time (ret a) = Q a
  EndsFrom Q time (fault e) = ⊥
  EndsFrom Q time (atomic change k) = (s : Caches) → EndsFrom Q time (k s)
  EndsFrom Q time (await now k) = (later : ℕ) → time ≤ later → EndsFrom Q later (k later)
  EndsFrom Q time (await (sleep d) k) = (later : ℕ) → time + d ≤ later → EndsFrom Q later (k tt)
  EndsFrom Q time (await c k) = (r : Reply c) → EndsFrom Q time (k r)

  pub record Ends {A : Type 0} (Q : A → Type 0) (time : ℕ) (m : Prog A) : Type 0 where
    pub at : EndsFrom Q time m

  EndsFrom-bind :
      {A B : Type 0} (Q : A → Type 0) (R : B → Type 0) (m : Prog A) (f : A → Prog B) (time : ℕ)
      → EndsFrom Q time m
      → ((later : ℕ) → time ≤ later → (a : A) → Q a → EndsFrom R later (f a))
      → EndsFrom R time (m >>= f)
  unfolding ◌>>=◌
  EndsFrom-bind Q R (ret a) f time h k = k time (omega arith) a h
  EndsFrom-bind Q R (fault e) f time h k = absurd h
  EndsFrom-bind Q R (atomic change next) f time h k = λ s. EndsFrom-bind Q R (next s) f time (h s) k
  EndsFrom-bind Q R (await now next) f time h k =
      λ later e. EndsFrom-bind Q R (next later) f later (h later e) (λ t g. k t (omega arith))
  EndsFrom-bind Q R (await (sleep d) next) f time h k =
      λ later e. EndsFrom-bind Q R (next tt) f later (h later e) (λ t g. k t (omega arith))
  EndsFrom-bind Q R (await (Call.notify_forkchoice_updated a b) next) f time h k =
      λ r. EndsFrom-bind Q R (next r) f time (h r) k
  EndsFrom-bind Q R (await (Call.new_payload a) next) f time h k =
      λ r. EndsFrom-bind Q R (next r) f time (h r) k
  EndsFrom-bind Q R (await (Call.get_chain_id a) next) f time h k =
      λ r. EndsFrom-bind Q R (next r) f time (h r) k
  EndsFrom-bind Q R (await (Call.get_engine_capabilities a) next) f time h k =
      λ r. EndsFrom-bind Q R (next r) f time (h r) k
  EndsFrom-bind Q R (await (Call.rpc_request a b c) next) f time h k =
      λ r. EndsFrom-bind Q R (next r) f time (h r) k

  module _ {A : Type 0} {Q : A → Type 0} {time : ℕ} where
    pub Ends-ret : {a : A} → Q a → Ends Q time (ret a)
    Ends-ret h = record { at = h }

    pub Ends-bind :
        {B : Type 0} {R : B → Type 0} {m : Prog A} {f : A → Prog B}
        → Ends Q time m
        → ((later : ℕ) → time ≤ later → (a : A) → Q a → Ends R later (f a))
        → Ends R time (m >>= f)
    Ends-bind {R} {m} {f} h k = record {
      at = EndsFrom-bind Q R m f time h.at (λ l e a q. (k l e a q).at);
    }

    pub Ends-locked :
        (f : Caches → A × Caches) → ((s : Caches) → Q (f s).0) → Ends Q time (locked f)
    unfolding locked
    Ends-locked f h = record { at = h }

    pub Ends-Bool :
        (b : Bool) {m n : Prog A}
        → (b ≡ true → Ends Q time m)
        → (b ≡ false → Ends Q time n)
        → Ends Q time (elim b [ true ↦ m | false ↦ n ])
    Ends-Bool true h k = h refl
    Ends-Bool false h k = k refl

    pub Ends-Option :
        {T : Type 0} (o : Option T) {f : T → Prog A} {n : Prog A}
        → Ends Q time n
        → ((a : T) → Ends Q time (f a))
        → Ends Q time (elim o [ none ↦ n | some a ↦ f a ])
    Ends-Option none h k = h
    Ends-Option (some a) h k = k a

    pub Ends-Result :
        {T E : Type 0} (r : Result T E) {f : T → Prog A} {g : E → Prog A}
        → ((a : T) → r ≡ ok a → Ends Q time (f a))
        → ((e : E) → r ≡ err e → Ends Q time (g e))
        → Ends Q time (elim r [ ok a ↦ f a | err e ↦ g e ])
    Ends-Result (ok a) h k = h a refl
    Ends-Result (err e) h k = k e refl

    -- An `unwrap` of a value that is there.
    pub Ends-lift : {o : Option A} {a : A} → o ≡ some a → Q a → Ends Q time (lift o)
    unfolding lift
    Ends-lift e h = rw (e, lift) (Ends-ret h)

  pub Ends-try :
      {T A E : Type 0} {Q : Result A E → Type 0} {time : ℕ} (r : Result T E)
      {k : T → Prog (Result A E)}
      → ((a : T) → r ≡ ok a → Ends Q time (k a))
      → ((e : E) → Q (err e))
      → Ends Q time (try r k)
  unfolding try
  Ends-try (ok a) h f = h a refl
  Ends-try (err e) h f = record { at = f e }

  -- Reading the clock gives a time from then on, and it is the time that the handler goes on from.
  pub Ends-now :
      {A : Type 0} {Q : A → Type 0} {time : ℕ} {f : ℕ → Prog A}
      → ((later : ℕ) → time ≤ later → Ends Q later (f later))
      → Ends Q time (call now >>= f)
  unfolding call ◌>>=◌
  Ends-now k = record { at = λ later e. (k later e).at }

  pub Ends-sleep :
      {A : Type 0} {Q : A → Type 0} {time : ℕ} (d : ℕ) {m : Prog A}
      → ((later : ℕ) → time + d ≤ later → Ends Q later m)
      → Ends Q time (call (sleep d) >> m)
  unfolding call ◌>>=◌
  Ends-sleep d k = record { at = λ later e. (k later e).at }
