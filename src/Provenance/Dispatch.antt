-- ===== src/Provenance/Dispatch.antt =====
-- src/main.rs among other handlers: what the requests of a client and of the controller are
-- answered, by method, and through the HTTP routes.
use eleel.Common.{refl, List, [], ◌∷◌, Result, ok, err}
use eleel.External.Lru.{Lru}
use eleel.External.Primitives.{Primitives}
use eleel.External.Lighthouse.{Lighthouse}
use eleel.Types.{Request, Requests, Response, ErrorResponse, maybe_error, parse_as}
use eleel.Main.{process_client_request, process_all, process_requests, process_controller_request}
use eleel.Meta.{
  engine_result, handle_syncing, handle_chain_id, handle_engine_capabilities, proxy_directly,
}
use eleel.Main.Route.{
  Route, fork_choice, payload, syncing, chain_id, capabilities, proxied, built, unsupported, route,
  on_shared, on_client, on_controller, process_client_request_lem, process_controller_request_lem,
}
use eleel.Multiplexer.{Settings}
use eleel.Prog.{get_chain_id, get_engine_capabilities, rpc_request}
use eleel.Prog.Safe.{Log, Safe, Anything, Safe-weaken, Safe-bind, Safe-call, Safe-ret, Safe-try}
use eleel.Provenance.Answers.{
  OnOk, handle_fcu-Safe, handle_new_payload-Safe, handle_get_payload-Safe,
}
use eleel.Provenance.Responses.{
  SharedAnswered, ClientAnswered, ControllerAnswered, OneAnswered, OneAnswered-mono, EachAnswered,
  BatchAnswered,
}
use eleel.Provenance.Controller.{handle_controller_fcu-Safe, handle_controller_new_payload-Safe}
use eleel.Provenance.Invariant.{IsSound}

module _ ⦃p : Primitives⦄ ⦃lru : Lru⦄ ⦃x : Lighthouse⦄ where
  pub handle_syncing-Safe :
      (request : Request) (l : Log) → Safe IsSound Anything l (handle_syncing request)
  unfolding handle_syncing
  handle_syncing-Safe request l =
      Safe-try (parse_as x.serde.decode_units request) (λ _ _. Safe-ret tt) (λ _. tt)

  pub handle_chain_id-Safe :
      (request : Request) (l : Log) → Safe IsSound Anything l (handle_chain_id request)
  unfolding handle_chain_id
  handle_chain_id-Safe request l =
      Safe-try (parse_as x.serde.decode_units request)
        (λ (id, _) _.
          Safe-bind (Safe-call (get_chain_id 1000))
            (λ _ _ reply _. Safe-try (engine_result id reply) (λ _ _. Safe-ret tt) (λ _. tt)))
        (λ _. tt)

  pub handle_engine_capabilities-Safe :
      (request : Request) (l : Log) → Safe IsSound Anything l (handle_engine_capabilities request)
  unfolding handle_engine_capabilities
  handle_engine_capabilities-Safe request l =
      Safe-try (parse_as x.serde.decode_strings request)
        (λ (id, _) _.
          Safe-bind (Safe-call (get_engine_capabilities _))
            (λ _ _ reply _. Safe-try (engine_result id reply) (λ _ _. Safe-ret tt) (λ _. tt)))
        (λ _. tt)

  pub proxy_directly-Safe :
      (request : Request) (l : Log) → Safe IsSound Anything l (proxy_directly request)
  unfolding proxy_directly
  proxy_directly-Safe request l =
      Safe-bind (Safe-call (rpc_request request.method request.params 12000))
        (λ _ _ reply _. Safe-try (engine_result request.id reply) (λ _ _. Safe-ret tt) (λ _. tt))

  shared-Safe :
      (way : Route) (request : Request) (l : Log)
      → Safe IsSound (OnOk (SharedAnswered way request)) l (on_shared way request)
  shared-Safe syncing request l = Safe-weaken (λ _ _ _ _ _. tt) (handle_syncing-Safe request l)
  shared-Safe chain_id request l = Safe-weaken (λ _ _ _ _ _. tt) (handle_chain_id-Safe request l)
  shared-Safe capabilities request l =
      Safe-weaken (λ _ _ _ _ _. tt) (handle_engine_capabilities-Safe request l)
  shared-Safe proxied request l = Safe-weaken (λ _ _ _ _ _. tt) (proxy_directly-Safe request l)
  shared-Safe built request l = handle_get_payload-Safe request l
  shared-Safe fork_choice request l = Safe-ret (λ _ _. tt)
  shared-Safe payload request l = Safe-ret (λ _ _. tt)
  shared-Safe unsupported request l = Safe-ret (λ _ _. tt)

  client-Safe :
      (self : Settings) (way : Route) (request : Request) (l : Log)
      → Safe IsSound (OnOk (ClientAnswered self way request)) l (on_client self way request)
  client-Safe self fork_choice request l = handle_fcu-Safe self request l
  client-Safe self payload request l = handle_new_payload-Safe self request l
  client-Safe self syncing request l = shared-Safe syncing request l
  client-Safe self chain_id request l = shared-Safe chain_id request l
  client-Safe self capabilities request l = shared-Safe capabilities request l
  client-Safe self proxied request l = shared-Safe proxied request l
  client-Safe self built request l = shared-Safe built request l
  client-Safe self unsupported request l = shared-Safe unsupported request l

  controller-Safe :
      (self : Settings) (way : Route) (request : Request) (l : Log)
      → Safe IsSound (OnOk (ControllerAnswered self way request)) l (on_controller self way request)
  controller-Safe self fork_choice request l = handle_controller_fcu-Safe self request l
  controller-Safe self payload request l = handle_controller_new_payload-Safe self request l
  controller-Safe self syncing request l = shared-Safe syncing request l
  controller-Safe self chain_id request l = shared-Safe chain_id request l
  controller-Safe self capabilities request l = shared-Safe capabilities request l
  controller-Safe self proxied request l = shared-Safe proxied request l
  controller-Safe self built request l = shared-Safe built request l
  controller-Safe self unsupported request l = shared-Safe unsupported request l

  module _ (self : Settings) where
    pub process_client_request-Safe :
        (request : Request) (l : Log)
        → Safe IsSound
            (OnOk (ClientAnswered self (route request.method) request))
            l
            (process_client_request self request)
    process_client_request-Safe request l =
        rw (process_client_request_lem self request)
          (client-Safe self (route request.method) request l)

    pub process_controller_request-Safe :
        (request : Request) (l : Log)
        → Safe IsSound
            (OnOk (ControllerAnswered self (route request.method) request))
            l
            (process_controller_request self request)
    process_controller_request-Safe request l =
        rw (process_controller_request_lem self request)
          (controller-Safe self (route request.method) request l)

    Each-maybe_error :
        (request : Request) (l : Log) (result : Result Response ErrorResponse)
        → OnOk (ClientAnswered self (route request.method) request) l result
        → OneAnswered self request l (maybe_error result)
    unfolding maybe_error
    Each-maybe_error request l (ok r) h = h r refl
    Each-maybe_error request l (err e) h = tt

    process_all-Safe :
        (requests : List Request) (l : Log)
        → Safe IsSound (EachAnswered self requests) l (process_all self requests)
    unfolding process_all
    process_all-Safe [] l = Safe-ret tt
    process_all-Safe (request ∷ requests) l =
        Safe-bind (process_client_request-Safe request l) (λ l1 _ result q.
          Safe-bind (process_all-Safe requests l1) (λ l2 e results r. Safe-ret (
            OneAnswered-mono self request (maybe_error result) e
                (Each-maybe_error request l1 result q),
            r,
          )))

    pub process_requests-Safe :
        (requests : Requests) (l : Log)
        → Safe IsSound (BatchAnswered self requests) l (process_requests self requests)
    unfolding process_requests
    process_requests-Safe (Requests.single request) l =
        Safe-bind (process_client_request-Safe request l)
          (λ l1 _ result q. Safe-ret (Each-maybe_error request l1 result q))
    process_requests-Safe (Requests.multiple requests) l =
        Safe-bind (process_all-Safe requests l) (λ l1 _ results q. Safe-ret q)
