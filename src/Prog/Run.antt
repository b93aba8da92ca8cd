-- ===== src/Prog/Run.antt =====
-- A handler that runs alone, against an engine that answers by a function and a clock that moves
-- only while the handler sleeps. The result comes with the caches and the time at the end.
use eleel.Common.{ℕ, ◌+◌, ◌≡◌, ◌⊎◌, inl, inr}
use eleel.External.Lru.{Lru}
use eleel.External.Primitives.{Primitives}
use eleel.Multiplexer.{Caches}
use eleel.Prog.{Call, now, sleep, Reply, Fault, Prog, ret, fault, atomic, await, ◌>>=◌}

module _ ⦃p : Primitives⦄ ⦃lru : Lru⦄ where
  unfoldable pub run :
      {A : Type 0}
      → ((c : Call) → Reply c)
      → (time : ℕ) → Caches
      → Prog A
      → (A × Caches × ℕ) ⊎ Fault
  run engine time s (ret a) = inl (a, s, time)
  run engine time s (fault e) = inr e
  run engine time s (atomic change k) = run engine time (change s) (k s)
  run engine time s (await now k) = run engine time s (k time)
  run engine time s (await (sleep d) k) = run engine (time + d) s (k tt)
  run engine time s (await c k) = run engine time s (k (engine c))

  -- What follows goes on from where the first part ended.
  pub run-bind :
      {A B : Type 0} (engine : (c : Call) → Reply c) (time : ℕ) (s : Caches) (m : Prog A)
      (f : A → Prog B) (a : A) (s' : Caches) (time' : ℕ)
      → run engine time s m ≡ inl (a, s', time')
      → run engine time s (m >>= f) ≡ run engine time' s' (f a)
  unfolding run ◌>>=◌
  run-bind engine time s (ret b) f a s' time' e =
      ended (λ b s time. run engine time s (f b)) b a s s' time time' e
    where
      ended :
          {A C : Type 0} (g : A → Caches → ℕ → C) (b a : A) (s s' : Caches) (t t' : ℕ)
          → ◌≡◌ {A = (A × Caches × ℕ) ⊎ Fault} (inl (b, s, t)) (inl (a, s', t'))
          → g b s t ≡ g a s' t'
      ended g b a s s' t t' e = cc
  run-bind engine time s (fault x) f a s' time' e = absurd (cc)
  run-bind engine time s (atomic change k) f a s' time' e =
      run-bind engine time (change s) (k s) f a s' time' e
  run-bind engine time s (await now k) f a s' time' e =
      run-bind engine time s (k time) f a s' time' e
  run-bind engine time s (await (sleep d) k) f a s' time' e =
      run-bind engine (time + d) s (k tt) f a s' time' e
  run-bind engine time s (await (Call.notify_forkchoice_updated x y) k) f a s' time' e =
      run-bind engine time s (k (engine (Call.notify_forkchoice_updated x y))) f a s' time' e
  run-bind engine time s (await (Call.new_payload x) k) f a s' time' e =
      run-bind engine time s (k (engine (Call.new_payload x))) f a s' time' e
  run-bind engine time s (await (Call.get_chain_id x) k) f a s' time' e =
      run-bind engine time s (k (engine (Call.get_chain_id x))) f a s' time' e
  run-bind engine time s (await (Call.get_engine_capabilities x) k) f a s' time' e =
      run-bind engine time s (k (engine (Call.get_engine_capabilities x))) f a s' time' e
  run-bind engine time s (await (Call.rpc_request x y z) k) f a s' time' e =
      run-bind engine time s (k (engine (Call.rpc_request x y z))) f a s' time' e
