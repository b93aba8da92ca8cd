-- ===== src/System/Holds.antt =====
-- src/main.rs as a whole: what holds of the caches in any run.
use eleel.Common.{
  ℕ, suc, ◌^◌, ◌<◌, ◌≤◌, length, arith, ◌≡◌, ◌∙◌, subst, List, [], ◌∷◌, All, some, ok, err,
}
use eleel.External.Lru.{Lru}
use eleel.External.Primitives.{Primitives}
use eleel.External.Lighthouse.{Lighthouse}
use eleel.External.Jwt.{JwtApi}
use eleel.Config.{Config}
use eleel.Effects.Answers.{IsAny}
use eleel.Effects.Contents.{Capacities, contents, capacities}
use eleel.Effects.Dispatch.{process_controller_request-Does}
use eleel.Effects.Kinds.{IsServable, IsAgreed, IsTidy, for_client, for_controller}
use eleel.Effects.Sizes.{client_as_controller}
use eleel.Jwt.{verify_single_token}
use eleel.Main.{AppState, handle_controller_json_rpc}
use eleel.Main.Route.{unsupported, route}
use eleel.Multiplexer.{Caches, new_caches}
use eleel.Multiplexer.Capacities.{new_caches-IsNew}
use eleel.Prog.Does.{Kinds, Does, IsKindOf-refl, Does-ret, Does-Result, Does-weaken}
use eleel.System.{Job, to_client, to_controller, handler, Move, arrive, step, play, start}
use eleel.System.Keeps.{Arriving, IsKept, play-Does}
use eleel.System.Isolation.{client_job-Does}

module _ ⦃p : Primitives⦄ ⦃lru : Lru⦄ ⦃x : Lighthouse⦄ where
  -- What the handler of a job may do. A body that is refused does as little as an unknown method.
  abbrev pub for_job : Job → Kinds
  for_job (to_client token body) = for_client
  for_job (to_controller token (ok request)) = for_controller (route request.method)
  for_job (to_controller token (err text)) = for_controller unsupported

  -- The capacities that `Multiplexer::new` gives: the finalized blocks have that of the justified.
  abbrev pub configured : Config → Capacities
  configured config = record {
    fcu = config.fcu_cache_size;
    new_payload = config.new_payload_cache_size;
    justified = config.justified_block_cache_size;
    finalized = config.justified_block_cache_size;
    payload_attributes = config.payload_builder_cache_size;
    payload_info = config.payload_builder_cache_size;
    payloads = config.payload_builder_cache_size;
  }

  new_caches-configured :
      (config : Config) (s : Caches)
      → new_caches config ≡ ok (some s)
      → capacities (contents s) ≡ configured config
  unfolding contents
  new_caches-configured config s built =
      let new = new_caches-IsNew config s built in
      rw
        (
          new.fcu, new.new_payload, new.justified, new.finalized, new.builder.payload_attributes,
          new.builder.payload_info, new.builder.payloads,
        )
        (simp (lru.cap-new))

  new_caches-IsServable :
      (config : Config) (s : Caches) → new_caches config ≡ ok (some s) → IsServable (contents s)
  unfolding contents
  new_caches-IsServable config s built id stored e =
      let new = new_caches-IsNew config s built in
      absurd (cc (rw (new.builder.payloads, lru.iter-new) at e))

  -- What holds after so many moves: fewer than 2 ^ 64 give out as many ids at most.
  pub record Holds (config : Config) (n : ℕ) (s : Caches) : Type 0 where
    pub servable : IsServable (contents s)
    pub sizes : capacities (contents s) ≡ configured config
    pub agreed : n < 2 ^ 64 → IsAgreed (contents s) × ((contents s).next_payload_id ≤ n)

  writes_keep :
      (config : Config) (change : Caches → Caches)
      → IsTidy change
      → (n : ℕ) (s : Caches) → Holds config n s
      → Holds config (suc n) (change s)
  writes_keep config change kept n s h = record {
    servable = kept.servable s h.servable;
    sizes = kept.sizes s ∙ h.sizes;
    agreed = λ few.
        let (agreed, given) = h.agreed (omega (arith, few)) in
        let (after, more) = kept.issues s (omega (arith, few, given)) agreed in
        (after, omega (arith, more, given));
  }

  Holds-IsKept : (config : Config) → IsKept for_job (Holds config)
  Holds-IsKept config = record { relies = relies; keeps = keeps; passes = passes }
    where
      relies : (job : Job) (n : ℕ) (s : Caches) → Holds config n s → (for_job job).Inv s
      relies (to_client token body) n s h = h.servable
      relies (to_controller token (ok request)) n s h = h.servable
      relies (to_controller token (err text)) n s h = h.servable

      keeps :
          (job : Job) (change : Caches → Caches)
          → (for_job job).Write change
          → (n : ℕ) (s : Caches) → Holds config n s
          → Holds config (suc n) (change s)
      keeps (to_client token body) change kept n s h =
          writes_keep config change ((client_as_controller unsupported).write change kept) n s h
      keeps (to_controller token (ok request)) change kept n s h =
          writes_keep config change kept n s h
      keeps (to_controller token (err text)) change kept n s h =
          writes_keep config change kept n s h

      passes : (n : ℕ) (s : Caches) → Holds config n s → Holds config (suc n) s
      passes n s h = record {
        servable = h.servable;
        sizes = h.sizes;
        agreed = λ few.
            let (agreed, given) = h.agreed (omega (arith, few)) in (agreed, omega (arith, given));
      }

  new_caches-Holds :
      (config : Config) (s : Caches) → new_caches config ≡ ok (some s) → Holds config 0 s
  unfolding contents
  new_caches-Holds config s built =
      let new = new_caches-IsNew config s built in
      record {
        servable = new_caches-IsServable config s built;
        sizes = new_caches-configured config s built;
        agreed = λ few. (
          record {
            given =
                λ key id e. absurd (cc (rw (new.builder.payload_attributes, lru.iter-new) at e));
            stored = λ id payload e. absurd (cc (rw (new.builder.payloads, lru.iter-new) at e));
            fetched = λ parent attributes id payload e d.
                absurd (cc (rw (new.builder.payloads, lru.iter-new) at d));
          },
          rw (new.builder.next_payload_id) (omega arith),
        );
      }

module _ ⦃p : Primitives⦄ ⦃lru : Lru⦄ ⦃x : Lighthouse⦄ ⦃j : JwtApi⦄ (state : AppState) where
  job-Does : (job : Job) → Does (for_job job) IsAny (handler state job)
  unfolding handle_controller_json_rpc
  job-Does (to_client token body) = client_job-Does state token body
  job-Does (to_controller token (err text)) =
      Does-Result (verify_single_token token state.controller_jwt_secret) (λ _ _. Does-ret tt)
        (λ _ _. Does-ret tt)
  job-Does (to_controller token (ok request)) =
      Does-Result (verify_single_token token state.controller_jwt_secret)
        (λ _ _.
          Does-weaken (IsKindOf-refl (for_controller (route request.method))) (λ _ _. tt)
            (process_controller_request-Does state.multiplexer request))
        (λ _ _. Does-ret tt)

  IsAny-arrives : (moves : List Move) → All (Arriving IsAny) moves
  IsAny-arrives [] = tt
  IsAny-arrives (arrive job ∷ moves) = (tt, IsAny-arrives moves)
  IsAny-arrives (step n reply ∷ moves) = (tt, IsAny-arrives moves)

  pub play-Holds :
      (config : Config) (s : Caches) (moves : List Move)
      → new_caches config ≡ ok (some s)
      → All (λ task. Does (for_job task.job) IsAny task.rest) (play state moves (start s)).tasks
        × Holds config (length moves) (play state moves (start s)).caches
  play-Holds config s moves built =
      let (tasks, after) =
        play-Does state for_job (Holds config) (Holds-IsKept config) IsAny (λ job _. job-Does job)
          moves 0 (start s) (IsAny-arrives moves) tt (new_caches-Holds config s built) in
      (tasks, subst (λ n. Holds config n (play state moves (start s)).caches) (omega arith) after)
