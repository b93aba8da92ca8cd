-- ===== src/Effects/Kinds.antt =====
-- What a client's request, and the controller's, may do to the caches and ask of the engine.
use eleel.Common.{
  suc, ◌+◌, ◌^◌, ◌<◌, ◌≤◌, ◌≡◌, refl, ap, ◌≢◌, true, Bool, List, [], ◌∷◌, none, some,
}
use eleel.Config.{FcuMatching, exact, loose, head_only}
use eleel.External.Lru.{Lru}
use eleel.External.Primitives.{Primitives}
use eleel.External.Lighthouse.{Lighthouse}
use eleel.Types.{
  ErrorCode, parse_error_code, invalid_request_code, method_not_found, unknown_payload_code,
  invalid_payload_attributes_code, JsonForkchoiceStateV1, PayloadId, ExecutionPayload,
  payload_version, v5, forkchoice_state_discrete,
}
use eleel.Effects.Contents.{Contents, contents, capacities, view-get}
use eleel.Effects.Ids.{Agrees}
use eleel.Fcu.Handlers.{existing_status}
use eleel.Main.{is_one_of, proxied_methods}
use eleel.Main.Route.{Route, fork_choice, payload, built, unsupported}
use eleel.Multiplexer.{Caches}
use eleel.NewPayload.Handlers.{cached_status}
use eleel.PayloadBuilder.Build.{payload_id_discrete, attributes_key_discrete}
use eleel.PayloadBuilder.Methods.{on_builder, get_id_locked, get_payload_locked}
use eleel.Prog.{
  Call, notify_forkchoice_updated, new_payload, rpc_request, Fault, panicked, out_of_rounds,
}
use eleel.Prog.Does.{Kinds}

-- The codes of the errors that a client may be given, by the route of its method.
abbrev pub client_codes : Route → List ErrorCode
client_codes payload = parse_error_code ∷ invalid_request_code ∷ []
client_codes built = parse_error_code ∷ unknown_payload_code ∷ []
client_codes unsupported = method_not_found ∷ []
client_codes _ = parse_error_code ∷ []

abbrev pub controller_codes : Route → List ErrorCode
controller_codes fork_choice =
    parse_error_code ∷ invalid_request_code ∷ invalid_payload_attributes_code ∷ []
controller_codes way = client_codes way

module _ ⦃p : Primitives⦄ ⦃lru : Lru⦄ where
  -- A critical section after which the caches hold what they held.
  abbrev pub KeepsContents : (Caches → Caches) → Type 0
  KeepsContents change = (s : Caches) → contents (change s) ≡ contents s

  -- Every stored payload is of a fork that getPayload has an answer for.
  abbrev pub IsServable : Contents → Type 0
  IsServable c =
      (id : PayloadId) (stored : ExecutionPayload)
      → c.payloads.found id ≡ some stored
      → payload_version stored ≢ v5

  -- The id that is given for a parent and attributes fetches a payload for them.
  abbrev pub IsAgreed : Contents → Type 0
  IsAgreed c = Agrees c.next_payload_id c.payload_attributes c.payloads

  -- A critical section that changes no cache's capacity, keeps the payloads servable, and gives out
  -- at most one id, which is the next.
  pub record IsTidy (change : Caches → Caches) : Type 0 where
    pub sizes : (s : Caches) → capacities (contents (change s)) ≡ capacities (contents s)
    pub servable : (s : Caches) → IsServable (contents s) → IsServable (contents (change s))
    pub issues :
        (s : Caches)
        → (contents s).next_payload_id + 1 < 2 ^ 64
        → IsAgreed (contents s)
        → IsAgreed (contents (change s))
          × ((contents (change s)).next_payload_id ≤ suc (contents s).next_payload_id)

  module _ ⦃x : Lighthouse⦄ where
    -- No new payload and no fork choice state goes to the engine for a client; what is passed on
    -- to it is one of the listed methods.
    abbrev pub ClientCall : Call → Type 0
    ClientCall (notify_forkchoice_updated f a) = ⊥
    ClientCall (new_payload r) = ⊥
    ClientCall (rpc_request method params timeout) = is_one_of proxied_methods method ≡ true
    ClientCall _ = Unit

    -- The controller's calls, by the route of its method. Payload attributes never go to the
    -- engine.
    abbrev pub ControllerCall : Route → Call → Type 0
    ControllerCall way (notify_forkchoice_updated f a) = (way ≡ fork_choice) × (a ≡ none)
    ControllerCall way (new_payload r) = way ≡ payload
    ControllerCall way c = ClientCall c

    -- A client's handler never panics.
    abbrev pub ClientFault : Fault → Type 0
    ClientFault panicked = ⊥
    ClientFault out_of_rounds = Unit

    -- The controller's may panic in forkchoiceUpdated alone: the base fee of a new payload.
    abbrev pub ControllerFault : Route → Fault → Type 0
    ControllerFault way panicked = way ≡ fork_choice
    ControllerFault way out_of_rounds = Unit

    abbrev pub for_client : Kinds
    for_client = record {
      Inv = λ s. IsServable (contents s);
      Write = KeepsContents;
      Calls = ClientCall;
      Faults = ClientFault;
    }

    abbrev pub for_controller : Route → Kinds
    for_controller way = record {
      Inv = λ s. IsServable (contents s);
      Write = IsTidy;
      Calls = ControllerCall way;
      Faults = ControllerFault way;
    }

  pub existing_status-KeepsContents :
      (mode : FcuMatching) (fcu : JsonForkchoiceStateV1)
      → KeepsContents (λ s. (existing_status mode fcu s).1)
  unfolding existing_status contents
  existing_status-KeepsContents exact fcu s =
      ap (λ v. record (contents s) { fcu = v }) (view-get forkchoice_state_discrete fcu s.fcu_cache)
  existing_status-KeepsContents loose fcu s = refl
  existing_status-KeepsContents head_only fcu s = refl

  pub cached_status-KeepsContents :
      (block : p.BlockHash) (definite_only : Bool)
      → KeepsContents (λ s. (cached_status block definite_only s).1)
  unfolding cached_status contents
  cached_status-KeepsContents block definite_only s =
      ap (λ v. record (contents s) { new_payload = v })
        (view-get p.block_hash_discrete block s.new_payload_cache)

  pub get_id_locked-KeepsContents :
      ⦃x : Lighthouse⦄ (parent : p.BlockHash) (attributes : p.PayloadAttributes)
      → KeepsContents (λ s. (on_builder (get_id_locked parent attributes) s).1)
  unfolding get_id_locked contents
  get_id_locked-KeepsContents parent attributes s =
      ap (λ v. record (contents s) { payload_attributes = v })
        (view-get attributes_key_discrete (parent, attributes) s.payload_builder.payload_attributes)

  pub get_payload_locked-KeepsContents :
      ⦃x : Lighthouse⦄ (payload_id : PayloadId)
      → KeepsContents (λ s. (on_builder (get_payload_locked payload_id) s).1)
  unfolding get_payload_locked contents
  get_payload_locked-KeepsContents payload_id s =
      ap (λ v. record (contents s) { payloads = v })
        (view-get payload_id_discrete payload_id s.payload_builder.payloads)
