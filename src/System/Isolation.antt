-- ===== src/System/Isolation.antt =====
-- Runs of the server in which only clients ask.
use eleel.Common.{String, ◌≡◌, refl, sym, ◌∙◌, subst, List, All, Result}
use eleel.External.Lru.{Lru}
use eleel.External.Primitives.{Primitives}
use eleel.External.Lighthouse.{Lighthouse}
use eleel.External.Jwt.{JwtApi}
use eleel.Types.{Requests}
use eleel.Effects.Answers.{IsAny}
use eleel.Effects.Contents.{contents}
use eleel.Effects.Dispatch.{process_requests-Does}
use eleel.Effects.Kinds.{IsServable, for_client}
use eleel.Jwt.{verify}
use eleel.Main.{AppState, handle_client_json_rpc}
use eleel.Multiplexer.{Caches}
use eleel.Prog.Does.{Does, IsKindOf-refl, Does-ret, Does-Result, Does-weaken}
use eleel.System.{Job, to_client, to_controller, handler, Move, play, start}
use eleel.System.Keeps.{Arriving, play-Does}

module _ ⦃p : Primitives⦄ ⦃lru : Lru⦄ where
  abbrev pub IsClient : Job → Type 0
  IsClient (to_client token body) = Unit
  IsClient (to_controller token body) = ⊥

module _ ⦃p : Primitives⦄ ⦃lru : Lru⦄ ⦃x : Lighthouse⦄ ⦃j : JwtApi⦄ (state : AppState) where
  pub client_job-Does :
      (token : String) (body : Result Requests String)
      → Does for_client IsAny (handler state (to_client token body))
  unfolding handle_client_json_rpc
  client_job-Does token body =
      Does-Result (verify state.client_jwt_collection token)
        (λ _ _.
          Does-Result body
            (λ requests _.
              Does-weaken (IsKindOf-refl for_client) (λ _ _. tt)
                (process_requests-Does state.multiplexer requests))
            (λ _ _. Does-ret tt))
        (λ _ _. Does-ret tt)

  clients_only : (job : Job) → IsClient job → Does for_client IsAny (handler state job)
  clients_only (to_client token body) h = client_job-Does token body
  clients_only (to_controller token body) h = absurd h

  -- From caches whose stored payloads are none of Fulu's, for any requests to the clients' route
  -- alone, any order of the steps of their handlers and any answers of the engine: every cache has
  -- the capacity that it had and finds of every key what it found, and the next payload id and the
  -- extra data are as they were. Only the order of use may have changed.
  pub play-contents :
      (s : Caches) (moves : List Move)
      → IsServable (contents s)
      → All (Arriving IsClient) moves
      → contents (play state moves (start s)).caches ≡ contents s
  play-contents s moves servable clients =
      (play-Does state (λ job. for_client) (λ n t. contents t ≡ contents s)
        (record {
          relies = λ job n t e. subst IsServable (sym e) servable;
          keeps = λ job change kept n t e. kept t ∙ e;
          passes = λ n t e. e;
        })
        IsClient clients_only moves 0 (start s) clients tt refl).1
