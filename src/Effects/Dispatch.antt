-- ===== src/Effects/Dispatch.antt =====
-- src/main.rs: what a request does and how it is answered, by the route of its method; batches
-- element by element.
use eleel.Common.{◌≡◌, refl, List, [], ◌∷◌, Result, ok, err}
use eleel.External.Lru.{Lru}
use eleel.External.Primitives.{Primitives}
use eleel.External.Lighthouse.{Lighthouse}
use eleel.Types.{
  Request, Requests, Response, ErrorResponse, Responses, MaybeErrorResponse, response,
  error_response, maybe_error,
}
use eleel.Effects.Answers.{Answers, IsReply, IsRefusal}
use eleel.Effects.Client.{handle_fcu-Does, handle_new_payload-Does}
use eleel.Effects.Controller.{handle_controller_fcu-Does, handle_controller_new_payload-Does}
use eleel.Effects.Kinds.{client_codes, controller_codes, for_client, for_controller}
use eleel.Effects.Shared.{
  handle_syncing-Does, handle_chain_id-Does, handle_engine_capabilities-Does, proxy_directly-Does,
  handle_get_payload-Does, unsupported-Answers,
}
use eleel.Effects.Sizes.{as_controller}
use eleel.Main.{process_client_request, process_all, process_requests, process_controller_request}
use eleel.Main.Route.{
  Route, fork_choice, payload, syncing, chain_id, capabilities, proxied, built, unsupported, route,
  listed_of_route, new_payload_of_route, on_client, on_controller, process_client_request_lem,
  process_controller_request_lem,
}
use eleel.Multiplexer.{Settings}
use eleel.Prog.Does.{Does, Does-ret, Does-bind}

module _ ⦃p : Primitives⦄ ⦃lru : Lru⦄ ⦃x : Lighthouse⦄ (self : Settings) where
  client-Does :
      (request : Request) (way : Route)
      → route request.method ≡ way
      → Does for_client (Answers request.id (client_codes way)) (on_client self way request)
  client-Does request fork_choice e = handle_fcu-Does self request
  client-Does request payload e =
      handle_new_payload-Does self request (new_payload_of_route request.method e)
  client-Does request syncing e = handle_syncing-Does request
  client-Does request chain_id e = handle_chain_id-Does request
  client-Does request capabilities e = handle_engine_capabilities-Does request
  client-Does request proxied e = proxy_directly-Does request (listed_of_route request.method e)
  client-Does request built e = handle_get_payload-Does request
  client-Does request unsupported e = Does-ret (unsupported-Answers request)

  controller-Does :
      (request : Request) (way : Route)
      → route request.method ≡ way
      → Does
          (for_controller way)
          (Answers request.id (controller_codes way))
          (on_controller self way request)
  controller-Does request fork_choice e = handle_controller_fcu-Does self request
  controller-Does request payload e =
      handle_controller_new_payload-Does self request (new_payload_of_route request.method e)
  controller-Does request syncing e = as_controller syncing (client-Does request syncing e)
  controller-Does request chain_id e = as_controller chain_id (client-Does request chain_id e)
  controller-Does request capabilities e =
      as_controller capabilities (client-Does request capabilities e)
  controller-Does request proxied e = as_controller proxied (client-Does request proxied e)
  controller-Does request built e = as_controller built (client-Does request built e)
  controller-Does request unsupported e =
      as_controller unsupported (client-Does request unsupported e)

  -- Among any other handlers that keep the stored payloads servable, a client's request leaves
  -- every cache as it was but for the order of use, calls the engine for nothing but the chain id,
  -- its capabilities and the methods that are passed on, and does not panic. Its answer is of
  -- version 2.0 and has the request's id, and an error has one of the codes of the route of its
  -- method.
  pub process_client_request-Does :
      (request : Request)
      → Does for_client
          (Answers request.id (client_codes (route request.method)))
          (process_client_request self request)
  process_client_request-Does request =
      rw (process_client_request_lem self request) (client-Does request (route request.method) refl)

  -- Among any other handlers that keep the stored payloads servable, a request of the controller
  -- keeps them so and changes no cache's capacity. It sends a fork choice state to the engine for
  -- forkchoiceUpdated alone and never with payload attributes, and a new payload for newPayload
  -- alone; it panics for forkchoiceUpdated at most. Its answer is of version 2.0 and has the
  -- request's id, and an error has one of the codes of the route of its method.
  pub process_controller_request-Does :
      (request : Request)
      → Does
          (for_controller (route request.method))
          (Answers request.id (controller_codes (route request.method)))
          (process_controller_request self request)
  process_controller_request-Does request =
      rw (process_controller_request_lem self request)
        (controller-Does request (route request.method) refl)

  -- An element of a client's answer, and the elements of a batch in their order.
  abbrev pub IsAnswerTo : Request → MaybeErrorResponse → Type 0
  IsAnswerTo request (response r) = IsReply request.id r
  IsAnswerTo request (error_response e) =
      IsRefusal request.id (client_codes (route request.method)) e

  abbrev pub AreAnswersTo : List Request → List MaybeErrorResponse → Type 0
  AreAnswersTo [] [] = Unit
  AreAnswersTo (request ∷ requests) (r ∷ rs) = IsAnswerTo request r × AreAnswersTo requests rs
  AreAnswersTo [] (r ∷ rs) = ⊥
  AreAnswersTo (request ∷ requests) [] = ⊥

  abbrev pub IsAnswered : Requests → Responses → Type 0
  IsAnswered (Requests.single request) (Responses.single r) = IsAnswerTo request r
  IsAnswered (Requests.multiple requests) (Responses.multiple rs) = AreAnswersTo requests rs
  IsAnswered _ _ = ⊥

  maybe_error-IsAnswerTo :
      (request : Request) (r : Result Response ErrorResponse)
      → Answers request.id (client_codes (route request.method)) r
      → IsAnswerTo request (maybe_error r)
  unfolding maybe_error
  maybe_error-IsAnswerTo request (ok r) h = h.at
  maybe_error-IsAnswerTo request (err e) h = h.at

  process_all-Does :
      (requests : List Request)
      → Does for_client (AreAnswersTo requests) (process_all self requests)
  unfolding process_all
  process_all-Does [] = Does-ret tt
  process_all-Does (request ∷ requests) =
      Does-bind (process_client_request-Does request) (λ result h.
        Does-bind (process_all-Does requests)
          (λ results k. Does-ret (maybe_error-IsAnswerTo request result h, k)))

  -- A client's body is answered as it is made: one request by one answer, a batch by as many
  -- answers in its order. Each answer is of version 2.0, has the id of its request and, for an
  -- error, one of the codes of its route; and the batch does only what a client's requests may do.
  pub process_requests-Does :
      (requests : Requests) → Does for_client (IsAnswered requests) (process_requests self requests)
  unfolding process_requests
  process_requests-Does (Requests.single request) =
      Does-bind (process_client_request-Does request)
        (λ result h. Does-ret (maybe_error-IsAnswerTo request result h))
  process_requests-Does (Requests.multiple requests) =
      Does-bind (process_all-Does requests) (λ results h. Does-ret h)
