-- ===== src/Prog/Does.antt =====
-- What a handler does at its steps, whatever the other handlers and the engine do: each critical
-- section is a write of some kind, each await a call of some kind, and a result has a property.
use eleel.Common.{◌≡◌, refl, Option, none, some, Result, ok, err, Bool, true, false, if◌then◌else◌}
use eleel.External.Lru.{Lru}
use eleel.External.Primitives.{Primitives}
use eleel.Multiplexer.{Caches}
use eleel.Prog.{
  Call, Reply, Fault, panicked, Prog, ret, fault, atomic, await, locked, update, call, lift, try,
  ◌>>=◌,
}

module _ ⦃p : Primitives⦄ ⦃lru : Lru⦄ where
  pub record Kinds : Type 1 where
    -- what a critical section relies on, and every write keeps
    pub Inv : Caches → Type 0
    pub Write : (Caches → Caches) → Type 0
    pub Calls : Call → Type 0
    -- how the handler may stop without a result
    pub Faults : Fault → Type 0

  abbrev DoesAll : {A : Type 0} → Kinds → (A → Type 0) → Prog A → Type 0
  DoesAll K Q (ret a) = Q a
  DoesAll K Q (fault e) = K.Faults e
  DoesAll K Q (atomic change k) = K.Write change × ((s : Caches) → K.Inv s → DoesAll K Q (k s))
  DoesAll K Q (await c k) = K.Calls c × ((r : Reply c) → DoesAll K Q (k r))

  pub record Does (K : Kinds) {A : Type 0} (Q : A → Type 0) (m : Prog A) : Type 0 where
    pub at : DoesAll K Q m

  DoesAll-bind :
      {A B : Type 0} (K : Kinds) (Q : A → Type 0) (R : B → Type 0) (m : Prog A) (f : A → Prog B)
      → DoesAll K Q m
      → ((a : A) → Q a → DoesAll K R (f a))
      → DoesAll K R (m >>= f)
  unfolding ◌>>=◌
  DoesAll-bind K Q R (ret a) f h k = k a h
  DoesAll-bind K Q R (fault e) f h k = h
  DoesAll-bind K Q R (atomic change next) f (w, h) k =
      (w, λ s i. DoesAll-bind K Q R (next s) f (h s i) k)
  DoesAll-bind K Q R (await c next) f (w, h) k = (w, λ r. DoesAll-bind K Q R (next r) f (h r) k)

  -- What a handler of one kind does is of another kind.
  pub record IsKindOf (K L : Kinds) : Type 0 where
    pub inv : (s : Caches) → L.Inv s → K.Inv s
    pub write : (change : Caches → Caches) → K.Write change → L.Write change
    pub calls : (c : Call) → K.Calls c → L.Calls c
    pub faults : (e : Fault) → K.Faults e → L.Faults e

  pub IsKindOf-refl : (K : Kinds) → IsKindOf K K
  IsKindOf-refl K = record {
    inv = λ s h. h;
    write = λ change h. h;
    calls = λ c h. h;
    faults = λ e h. h;
  }

  DoesAll-weaken :
      {A : Type 0} (K L : Kinds) (Q R : A → Type 0) (m : Prog A)
      → IsKindOf K L
      → ((a : A) → Q a → R a)
      → DoesAll K Q m
      → DoesAll L R m
  DoesAll-weaken K L Q R (ret a) w f h = f a h
  DoesAll-weaken K L Q R (fault e) w f h = w.faults e h
  DoesAll-weaken K L Q R (atomic change next) w f (v, h) =
      (w.write change v, λ s i. DoesAll-weaken K L Q R (next s) w f (h s (w.inv s i)))
  DoesAll-weaken K L Q R (await c next) w f (v, h) =
      (w.calls c v, λ r. DoesAll-weaken K L Q R (next r) w f (h r))

module _ ⦃p : Primitives⦄ ⦃lru : Lru⦄ {K : Kinds} where
  pub Does-weaken :
      {L : Kinds} {A : Type 0} {Q R : A → Type 0} {m : Prog A}
      → IsKindOf K L
      → ((a : A) → Q a → R a)
      → Does K Q m
      → Does L R m
  Does-weaken {L} {Q} {R} {m} w f h = record { at = DoesAll-weaken K L Q R m w f h.at }

  module _ {A : Type 0} {Q : A → Type 0} where
    pub Does-ret : {a : A} → Q a → Does K Q (ret a)
    Does-ret h = record { at = h }

    pub Does-fault : (e : Fault) → K.Faults e → Does K Q (fault e)
    Does-fault e h = record { at = h }

    pub Does-bind :
        {B : Type 0} {R : B → Type 0} {m : Prog A} {f : A → Prog B}
        → Does K Q m
        → ((a : A) → Q a → Does K R (f a))
        → Does K R (m >>= f)
    Does-bind {R} {m} {f} h k = record { at = DoesAll-bind K Q R m f h.at (λ a q. (k a q).at) }

    pub Does-locked :
        (f : Caches → A × Caches)
        → K.Write (λ s. (f s).1)
        → ((s : Caches) → K.Inv s → Q (f s).0)
        → Does K Q (locked f)
    unfolding locked
    Does-locked f w h = record { at = (w, h) }

    pub Does-lift :
        (o : Option A)
        → (o ≡ none → K.Faults panicked)
        → ((a : A) → o ≡ some a → Q a)
        → Does K Q (lift o)
    unfolding lift
    Does-lift none f h = record { at = f refl }
    Does-lift (some a) f h = record { at = h a refl }

    pub Does-if :
        (b : Bool) {m n : Prog A}
        → (b ≡ true → Does K Q m)
        → (b ≡ false → Does K Q n)
        → Does K Q (if b then m else n)
    Does-if true h k = h refl
    Does-if false h k = k refl

    pub Does-Bool :
        (b : Bool) {m n : Prog A}
        → Does K Q m
        → Does K Q n
        → Does K Q (elim b [ true ↦ m | false ↦ n ])
    Does-Bool true h k = h
    Does-Bool false h k = k

    pub Does-Option :
        {T : Type 0} (o : Option T) {f : T → Prog A} {n : Prog A}
        → Does K Q n
        → ((a : T) → Does K Q (f a))
        → Does K Q (elim o [ none ↦ n | some a ↦ f a ])
    Does-Option none h k = h
    Does-Option (some a) h k = k a

    pub Does-Result :
        {T E : Type 0} (r : Result T E) {f : T → Prog A} {g : E → Prog A}
        → ((a : T) → r ≡ ok a → Does K Q (f a))
        → ((e : E) → r ≡ err e → Does K Q (g e))
        → Does K Q (elim r [ ok a ↦ f a | err e ↦ g e ])
    Does-Result (ok a) h k = h a refl
    Does-Result (err e) h k = k e refl

  pub Does-update :
      {Q : Unit {0} → Type 0} (f : Caches → Caches) → K.Write f → Q tt → Does K Q (update f)
  unfolding update
  Does-update f w q = record { at = (w, λ s i. q) }

  pub Does-call :
      (c : Call) {Q : Reply c → Type 0} → K.Calls c → ((r : Reply c) → Q r) → Does K Q (call c)
  unfolding call
  Does-call c w q = record { at = (w, q) }

  pub Does-try :
      {T A E : Type 0} {Q : Result A E → Type 0} (r : Result T E) {k : T → Prog (Result A E)}
      → ((a : T) → r ≡ ok a → Does K Q (k a))
      → ((e : E) → r ≡ err e → Q (err e))
      → Does K Q (try r k)
  unfolding try
  Does-try (ok a) h f = h a refl
  Does-try (err e) h f = record { at = f e refl }
