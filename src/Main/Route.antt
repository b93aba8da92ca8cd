-- ===== src/Main/Route.antt =====
-- The dispatch of src/main.rs as a function of the method's name alone.
use eleel.Common.{
  ◌≡◌, refl, ◌∙◌, sym, ◌≢◌, String, str_eq, Bool, true, false, Result, err, if◌then◌else◌,
}
use eleel.External.Lru.{Lru}
use eleel.External.Primitives.{Primitives}
use eleel.External.Lighthouse.{Lighthouse}
use eleel.Types.{Request, Response, ErrorResponse, unsupported_method}
use eleel.Fcu.Handlers.{handle_fcu, handle_controller_fcu}
use eleel.Main.{
  is_one_of, fcu_methods, new_payload_methods, proxied_methods, get_payload_methods,
  process_client_request, process_controller_request,
}
use eleel.Meta.{handle_syncing, handle_chain_id, handle_engine_capabilities, proxy_directly}
use eleel.Multiplexer.{Settings}
use eleel.NewPayload.Handlers.{handle_new_payload, handle_controller_new_payload}
use eleel.PayloadBuilder.Methods.{handle_get_payload}
use eleel.Prog.{Prog, ret}

pub data Route : Type 0 where
  fork_choice payload syncing chain_id capabilities proxied built unsupported : Route

-- A chain of seven tests, and a function of its result.
abbrev chain : {A : Type 0} → (a b c d e f g : Bool) → (s t u v w x y z : A) → A
chain a b c d e f g s t u v w x y z =
    if a
    then s
    else if b
    then t
    else if c
    then u
    else if d
    then v
    else if e
    then w
    else if f
    then x
    else if g
    then y
    else z

chain-ap :
    {A : Type 0} (h : Route → A) (a b c d e f g : Bool)
    → h (
        chain a b c d e f g fork_choice payload syncing chain_id capabilities proxied built
          unsupported)
      ≡ chain a b c d e f g
          (h fork_choice)
          (h payload)
          (h syncing)
          (h chain_id)
          (h capabilities)
          (h proxied)
          (h built)
          (h unsupported)
chain-ap h true b c d e f g = refl
chain-ap h false true c d e f g = refl
chain-ap h false false true d e f g = refl
chain-ap h false false false true e f g = refl
chain-ap h false false false false true f g = refl
chain-ap h false false false false false true g = refl
chain-ap h false false false false false false true = refl
chain-ap h false false false false false false false = refl

chain-proxied :
    (a b c d e f g : Bool)
    → chain a b c d e f g fork_choice payload syncing chain_id capabilities proxied built
        unsupported
      ≡ proxied
    → f ≡ true
chain-proxied true b c d e f g h = absurd (cc)
chain-proxied false true c d e f g h = absurd (cc)
chain-proxied false false true d e f g h = absurd (cc)
chain-proxied false false false true e f g h = absurd (cc)
chain-proxied false false false false true f g h = absurd (cc)
chain-proxied false false false false false true g h = refl
chain-proxied false false false false false false true h = absurd (cc)
chain-proxied false false false false false false false h = absurd (cc)

chain-payload :
    (a b c d e f g : Bool)
    → chain a b c d e f g fork_choice payload syncing chain_id capabilities proxied built
        unsupported
      ≡ payload
    → b ≡ true
chain-payload true b c d e f g h = absurd (cc)
chain-payload false true c d e f g h = refl
chain-payload false false true d e f g h = absurd (cc)
chain-payload false false false true e f g h = absurd (cc)
chain-payload false false false false true f g h = absurd (cc)
chain-payload false false false false false true g h = absurd (cc)
chain-payload false false false false false false true h = absurd (cc)
chain-payload false false false false false false false h = absurd (cc)

module _ ⦃p : Primitives⦄ ⦃lru : Lru⦄ ⦃x : Lighthouse⦄ where
  unfoldable pub route : String → Route
  route method =
      if is_one_of fcu_methods method
      then fork_choice
      else if is_one_of new_payload_methods method
      then payload
      else if str_eq method x.methods.eth_syncing
      then syncing
      else if str_eq method "eth_chainId"
      then chain_id
      else if str_eq method x.methods.engine_exchange_capabilities
      then capabilities
      else if is_one_of proxied_methods method
      then proxied
      else if is_one_of get_payload_methods method
      then built
      else unsupported

  -- What depends on the route is a chain of the dispatcher's tests.
  through :
      {A : Type 0} (f : Route → A) (method : String)
      → f (route method)
        ≡ chain
            (is_one_of fcu_methods method)
            (is_one_of new_payload_methods method)
            (str_eq method x.methods.eth_syncing)
            (str_eq method "eth_chainId")
            (str_eq method x.methods.engine_exchange_capabilities)
            (is_one_of proxied_methods method)
            (is_one_of get_payload_methods method)
            (f fork_choice)
            (f payload)
            (f syncing)
            (f chain_id)
            (f capabilities)
            (f proxied)
            (f built)
            (f unsupported)
  unfolding route
  through f method =
      chain-ap f (is_one_of fcu_methods method) (is_one_of new_payload_methods method)
        (str_eq method x.methods.eth_syncing) (str_eq method "eth_chainId")
        (str_eq method x.methods.engine_exchange_capabilities) (is_one_of proxied_methods method)
        (is_one_of get_payload_methods method)

  -- What is passed on to the engine is one of the listed methods.
  pub listed_of_route :
      (method : String) → route method ≡ proxied → is_one_of proxied_methods method ≡ true
  unfolding route
  listed_of_route method e = chain-proxied _ _ _ _ _ _ _ e

  pub new_payload_of_route :
      (method : String) → route method ≡ payload → is_one_of new_payload_methods method ≡ true
  unfolding route
  new_payload_of_route method e = chain-payload _ _ _ _ _ _ _ e

  -- The handlers of the methods that change no cache for the controller alone.
  abbrev pub on_shared : Route → Request → Prog (Result Response ErrorResponse)
  on_shared syncing request = handle_syncing request
  on_shared chain_id request = handle_chain_id request
  on_shared capabilities request = handle_engine_capabilities request
  on_shared proxied request = proxy_directly request
  on_shared built request = handle_get_payload request
  on_shared _ request = ret (err (unsupported_method request.id request.method))

  module _ (self : Settings) where
    abbrev pub on_client : Route → Request → Prog (Result Response ErrorResponse)
    on_client fork_choice request = handle_fcu self request
    on_client payload request = handle_new_payload self request
    on_client way request = on_shared way request

    abbrev pub on_controller : Route → Request → Prog (Result Response ErrorResponse)
    on_controller fork_choice request = handle_controller_fcu self request
    on_controller payload request = handle_controller_new_payload self request
    on_controller way request = on_shared way request

    -- A client's request is handled as the route of its method says.
    pub process_client_request_lem :
        (request : Request)
        → process_client_request self request ≡ on_client (route request.method) request
    unfolding process_client_request
    process_client_request_lem request = sym (through (λ way. on_client way request) request.method)

    -- The controller's request is handled as the route of its method says.
    pub process_controller_request_lem :
        (request : Request)
        → process_controller_request self request ≡ on_controller (route request.method) request
    unfolding process_controller_request
    process_controller_request_lem request =
        sym (through (λ way. on_controller way request) request.method)

    -- A request by a method that is dispatched neither to forkchoiceUpdated nor to newPayload is
    -- handled alike for the controller and for the clients.
    pub process_requests_agree :
        (request : Request)
        → route request.method ≢ fork_choice
        → route request.method ≢ payload
        → process_controller_request self request ≡ process_client_request self request
    process_requests_agree request h k =
        process_controller_request_lem request
        ∙ same (route request.method) h k
        ∙ sym (process_client_request_lem request)
      where
        same :
            (way : Route)
            → way ≢ fork_choice
            → way ≢ payload
            → on_controller way request ≡ on_client way request
        same fork_choice h k = absurd (h refl)
        same payload h k = absurd (k refl)
        same _ h k = refl
