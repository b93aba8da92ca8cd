-- ===== src/Prog/Safe.antt =====
-- Reasoning about a handler among others: what it relies on and guarantees at each atomic step.
-- The log holds what the engine answered so far, in any handler; it only grows.
use mathlib.Core.List.{Memᴰ}
use eleel.Common.{
  refl, ◌≡◌, Option, none, some, Result, ok, err, Bool, true, false, if◌then◌else◌, List, ◌∷◌,
}
use eleel.External.Lru.{Lru}
use eleel.External.Primitives.{Primitives}
use eleel.Multiplexer.{Caches}
use eleel.Prog.{
  Call, Reply, Fault, Prog, ret, fault, atomic, await, locked, update, call, lift, try, ◌>>=◌,
}

module _ ⦃p : Primitives⦄ where
  abbrev pub Event : Type 0
  Event = (c : Call) × Reply c

  abbrev pub Log : Type 0
  Log = List Event

  infix 50 ◌⊑◌
  abbrev pub ◌⊑◌ : Log → Log → Type 0
  l ⊑ l' = (e : Event) → Memᴰ e l → Memᴰ e l'

  pub ⊑-refl : {l : Log} → l ⊑ l
  ⊑-refl e m = m

  pub ⊑-trans : {l m n : Log} → l ⊑ m → m ⊑ n → l ⊑ n
  ⊑-trans f g e h = g e (f e h)

  pub ⊑-cons : {l : Log} (e : Event) → l ⊑ (e ∷ l)
  ⊑-cons e d m = Memᴰ.tail m

module _ ⦃p : Primitives⦄ where
  abbrev pub Grows : {A : Type 0} → (Log → A → Type 0) → Type 0
  Grows {A} Q = (l l' : Log) (a : A) → l ⊑ l' → Q l a → Q l' a

  abbrev pub Anything : {A : Type 0} → Log → A → Type 0
  Anything l a = Unit

module _ ⦃p : Primitives⦄ ⦃lru : Lru⦄ (I : Log → Caches → Type 0) where
  abbrev SafeFrom : {A : Type 0} → (Log → A → Type 0) → Log → Prog A → Type 0
  SafeFrom Q l (ret a) = Q l a
  SafeFrom Q l (fault e) = Unit
  SafeFrom Q l (atomic change k) =
      (l' : Log) → l ⊑ l' → (s : Caches) → I l' s → I l' (change s) × SafeFrom Q l' (k s)
  SafeFrom Q l (await c k) = (l' : Log) → l ⊑ l' → (r : Reply c) → SafeFrom Q ((c, r) ∷ l') (k r)

  -- From the log `l` on, whatever the others do under the invariant `I`, every step keeps the
  -- invariant, and a result has the property `Q` of the log at that time.
  pub record Safe {A : Type 0} (Q : Log → A → Type 0) (l : Log) (m : Prog A) : Type 0 where
    pub at : SafeFrom Q l m

  SafeFrom-mono :
      {A : Type 0} (Q : Log → A → Type 0) (m : Prog A) (l l' : Log)
      → Grows Q
      → l ⊑ l'
      → SafeFrom Q l m
      → SafeFrom Q l' m
  SafeFrom-mono Q (ret a) l l' grows e h = grows l l' a e h
  SafeFrom-mono Q (fault _) l l' grows e h = tt
  SafeFrom-mono Q (atomic change k) l l' grows e h = λ l'' e' s i. h l'' (⊑-trans e e') s i
  SafeFrom-mono Q (await c k) l l' grows e h = λ l'' e' r. h l'' (⊑-trans e e') r

  SafeFrom-weaken :
      {A : Type 0} (Q R : Log → A → Type 0) (m : Prog A) (l : Log)
      → ((l' : Log) (a : A) → Q l' a → R l' a)
      → SafeFrom Q l m
      → SafeFrom R l m
  SafeFrom-weaken Q R (ret a) l f h = f l a h
  SafeFrom-weaken Q R (fault _) l f h = tt
  SafeFrom-weaken Q R (atomic change k) l f h =
      λ l' e s i. let (kept, rest) = h l' e s i in (kept, SafeFrom-weaken Q R (k s) l' f rest)
  SafeFrom-weaken Q R (await c k) l f h =
      λ l' e r. SafeFrom-weaken Q R (k r) ((c, r) ∷ l') f (h l' e r)

  SafeFrom-bind :
      {A B : Type 0} (Q : Log → A → Type 0) (R : Log → B → Type 0) (m : Prog A) (f : A → Prog B)
      (l : Log)
      → SafeFrom Q l m
      → ((l' : Log) → l ⊑ l' → (a : A) → Q l' a → SafeFrom R l' (f a))
      → SafeFrom R l (m >>= f)
  unfolding ◌>>=◌
  SafeFrom-bind Q R (ret a) f l h k = k l ⊑-refl a h
  SafeFrom-bind Q R (fault e) f l h k = tt
  SafeFrom-bind Q R (atomic change next) f l h k = λ l' e s i.
      let (kept, rest) = h l' e s i in
      (kept, SafeFrom-bind Q R (next s) f l' rest (λ l'' e' a q. k l'' (⊑-trans e e') a q))
  SafeFrom-bind Q R (await c next) f l h k = λ l' e r.
      SafeFrom-bind Q R (next r) f ((c, r) ∷ l') (h l' e r)
        (λ l'' e' a q. k l'' (⊑-trans e (⊑-trans (⊑-cons (c, r)) e')) a q)

module _ ⦃p : Primitives⦄ ⦃lru : Lru⦄ {I : Log → Caches → Type 0} where
  module _ {A : Type 0} {Q : Log → A → Type 0} where
    pub Safe-mono : {l l' : Log} {m : Prog A} → Grows Q → l ⊑ l' → Safe I Q l m → Safe I Q l' m
    Safe-mono {l} {l'} {m} grows e h = record { at = SafeFrom-mono I Q m l l' grows e h.at }

    -- A weaker property of the result.
    pub Safe-weaken :
        {R : Log → A → Type 0} {l : Log} {m : Prog A}
        → ((l' : Log) (a : A) → Q l' a → R l' a)
        → Safe I Q l m
        → Safe I R l m
    Safe-weaken {R} {l} {m} f h = record { at = SafeFrom-weaken I Q R m l f h.at }

    pub Safe-ret : {l : Log} {a : A} → Q l a → Safe I Q l (ret a)
    Safe-ret h = record { at = h }

    pub Safe-fault : {l : Log} (e : Fault) → Safe I Q l (fault e)
    Safe-fault e = record { at = tt }

    pub Safe-bind :
        {B : Type 0} {R : Log → B → Type 0} {l : Log} {m : Prog A} {f : A → Prog B}
        → Safe I Q l m
        → ((l' : Log) → l ⊑ l' → (a : A) → Q l' a → Safe I R l' (f a))
        → Safe I R l (m >>= f)
    Safe-bind {R} {l} {m} {f} h k = record {
      at = SafeFrom-bind I Q R m f l h.at (λ l' e a q. (k l' e a q).at);
    }

    pub Safe-locked :
        {l : Log} (f : Caches → A × Caches)
        → ((l' : Log) → l ⊑ l' → (s : Caches) → I l' s → I l' (f s).1 × Q l' (f s).0)
        → Safe I Q l (locked f)
    unfolding locked
    Safe-locked f h = record { at = h }

    pub Safe-lift : {l : Log} (o : Option A) → ((a : A) → o ≡ some a → Q l a) → Safe I Q l (lift o)
    unfolding lift
    Safe-lift none h = record { at = tt }
    Safe-lift (some a) h = record { at = h a refl }

    pub Safe-if :
        {l : Log} (b : Bool) {m n : Prog A}
        → (b ≡ true → Safe I Q l m)
        → (b ≡ false → Safe I Q l n)
        → Safe I Q l (if b then m else n)
    Safe-if true h k = h refl
    Safe-if false h k = k refl

    pub Safe-Bool :
        {l : Log} (b : Bool) {m n : Prog A}
        → (b ≡ true → Safe I Q l m)
        → (b ≡ false → Safe I Q l n)
        → Safe I Q l (elim b [ true ↦ m | false ↦ n ])
    Safe-Bool true h k = h refl
    Safe-Bool false h k = k refl

    pub Safe-Option :
        {T : Type 0} {l : Log} (o : Option T) {f : T → Prog A} {n : Prog A}
        → (o ≡ none → Safe I Q l n)
        → ((a : T) → o ≡ some a → Safe I Q l (f a))
        → Safe I Q l (elim o [ none ↦ n | some a ↦ f a ])
    Safe-Option none h k = h refl
    Safe-Option (some a) h k = k a refl

    pub Safe-Result :
        {T E : Type 0} {l : Log} (r : Result T E) {f : T → Prog A} {g : E → Prog A}
        → ((a : T) → r ≡ ok a → Safe I Q l (f a))
        → ((e : E) → r ≡ err e → Safe I Q l (g e))
        → Safe I Q l (elim r [ ok a ↦ f a | err e ↦ g e ])
    Safe-Result (ok a) h k = h a refl
    Safe-Result (err e) h k = k e refl

  pub Safe-update :
      {l : Log} (f : Caches → Caches)
      → ((l' : Log) → l ⊑ l' → (s : Caches) → I l' s → I l' (f s))
      → Safe I Anything l (update f)
  unfolding update
  Safe-update f h = record { at = λ l' e s i. (h l' e s i, tt) }

  -- An answer is in the log from then on.
  pub Safe-call : {l : Log} (c : Call) → Safe I (λ l' r. Memᴰ {A = Event} (c, r) l') l (call c)
  unfolding call
  Safe-call c = record { at = λ l' e r. Memᴰ.head refl }

  pub Safe-try :
      {T A E : Type 0} {Q : Log → Result A E → Type 0} {l : Log} (r : Result T E)
      {k : T → Prog (Result A E)}
      → ((a : T) → r ≡ ok a → Safe I Q l (k a))
      → ((e : E) → Q l (err e))
      → Safe I Q l (try r k)
  unfolding try
  Safe-try (ok a) h f = h a refl
  Safe-try (err e) h f = record { at = f e }
