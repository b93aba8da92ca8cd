-- ===== src/Provenance/Responses.antt =====
-- What the responses of src/main.rs may say, by the route of the request. The log of the engine's
-- answers only grows, and a response that was right stays right.
use eleel.Common.{inl, inr, List, [], ◌∷◌}
use eleel.External.Lru.{Lru}
use eleel.External.Primitives.{Primitives}
use eleel.External.Lighthouse.{Lighthouse}
use eleel.Types.{
  Request, Requests, Response, MaybeErrorResponse, response, error_response, Responses,
  JsonPayloadStatusV1, NewPayloadRequest,
}
use eleel.Main.Route.{Route, fork_choice, payload, built, route}
use eleel.Multiplexer.{Settings}
use eleel.Prog.Safe.{Log, ◌⊑◌}
use eleel.Provenance.Answers.{FcuAnswered, PayloadAnswered, GetAnswered}
use eleel.Provenance.Controller.{
  ControllerFcuAnswered, ControllerPayloadAnswered, ControllerTold-mono,
}
use eleel.Provenance.FcuHandlers.{Told-mono}
use eleel.Provenance.Invariant.{PayloadSaid-mono, BuiltOn-mono}
use eleel.Provenance.NewPayload.{HashSaid, Heard}

module _ ⦃p : Primitives⦄ ⦃lru : Lru⦄ ⦃x : Lighthouse⦄ where
  abbrev pub SharedAnswered : Route → Request → Log → Response → Type 0
  SharedAnswered built request = GetAnswered request
  SharedAnswered _ request = λ _ _. Unit

  abbrev pub ClientAnswered : Settings → Route → Request → Log → Response → Type 0
  ClientAnswered self fork_choice request = FcuAnswered self request
  ClientAnswered self payload request = PayloadAnswered self request
  ClientAnswered self way request = SharedAnswered way request

  abbrev pub ControllerAnswered : Settings → Route → Request → Log → Response → Type 0
  ControllerAnswered self fork_choice request = ControllerFcuAnswered self request
  ControllerAnswered self payload request = ControllerPayloadAnswered self request
  ControllerAnswered self way request = SharedAnswered way request

  -- One element of a client's answer: an error says nothing.
  abbrev pub OneAnswered : Settings → Request → Log → MaybeErrorResponse → Type 0
  OneAnswered self request l (response r) = ClientAnswered self (route request.method) request l r
  OneAnswered self request l (error_response e) = Unit

  -- A batch is answered element by element, in its order.
  abbrev pub EachAnswered : Settings → List Request → Log → List MaybeErrorResponse → Type 0
  EachAnswered self [] l [] = Unit
  EachAnswered self (request ∷ requests) l (r ∷ rs) =
      OneAnswered self request l r × EachAnswered self requests l rs
  EachAnswered self [] l (r ∷ rs) = ⊥
  EachAnswered self (request ∷ requests) l [] = ⊥

  abbrev pub BatchAnswered : Settings → Requests → Log → Responses → Type 0
  BatchAnswered self (Requests.single request) l (Responses.single r) = OneAnswered self request l r
  BatchAnswered self (Requests.multiple requests) l (Responses.multiple rs) =
      EachAnswered self requests l rs
  BatchAnswered self _ l _ = ⊥

module _ ⦃p : Primitives⦄ {l l' : Log} (e : l ⊑ l') where
  HashSaid-mono :
      {block : p.BlockHash} {status : JsonPayloadStatusV1}
      → HashSaid l block status
      → HashSaid l' block status
  HashSaid-mono h = record { payload = h.payload; said = PayloadSaid-mono e h.said; hash = h.hash }

  module _ ⦃lru : Lru⦄ ⦃x : Lighthouse⦄ where
    Heard-mono :
        (request : NewPayloadRequest) (block : p.BlockHash) (status : JsonPayloadStatusV1)
        → Heard request block l status
        → Heard request block l' status
    Heard-mono request block status (inl made_up) = inl made_up
    Heard-mono request block status (inr said) = inr (HashSaid-mono said)

    module _ (self : Settings) (request : Request) (r : Response) where
      FcuAnswered-mono : FcuAnswered self request l r → FcuAnswered self request l' r
      FcuAnswered-mono h = record {
        fcu = h.fcu;
        attributes = h.attributes;
        status = h.status;
        payload_id = h.payload_id;
        parsed = h.parsed;
        encoded = h.encoded;
        same_id = h.same_id;
        told = Told-mono self h.fcu h.status e h.told;
      }

      PayloadAnswered-mono : PayloadAnswered self request l r → PayloadAnswered self request l' r
      PayloadAnswered-mono h = record {
        decoded = h.decoded;
        engine_request = h.engine_request;
        status = h.status;
        parsed = h.parsed;
        formed = h.formed;
        verified = h.verified;
        encoded = h.encoded;
        heard = Heard-mono h.engine_request _ h.status h.heard;
      }

      GetAnswered-mono : GetAnswered request l r → GetAnswered request l' r
      GetAnswered-mono h = record {
        payload_id = h.payload_id;
        payload = h.payload;
        contents = h.contents;
        parsed = h.parsed;
        built = BuiltOn-mono e h.built;
        formed = h.formed;
        encoded = h.encoded;
      }

      ControllerFcuAnswered-mono :
          ControllerFcuAnswered self request l r → ControllerFcuAnswered self request l' r
      ControllerFcuAnswered-mono h = record {
        fcu = h.fcu;
        attributes = h.attributes;
        status = h.status;
        payload_id = h.payload_id;
        parsed = h.parsed;
        encoded = h.encoded;
        same_id = h.same_id;
        told = ControllerTold-mono self h.fcu h.status e h.told;
      }

      ControllerPayloadAnswered-mono :
          ControllerPayloadAnswered self request l r → ControllerPayloadAnswered self request l' r
      ControllerPayloadAnswered-mono h = record {
        decoded = h.decoded;
        status = h.status;
        parsed = h.parsed;
        encoded = h.encoded;
        said = HashSaid-mono h.said;
      }

      ClientAnswered-mono :
          (way : Route) → ClientAnswered self way request l r → ClientAnswered self way request l' r
      ClientAnswered-mono fork_choice h = FcuAnswered-mono h
      ClientAnswered-mono payload h = PayloadAnswered-mono h
      ClientAnswered-mono built h = GetAnswered-mono h
      ClientAnswered-mono _ h = tt

      pub ControllerAnswered-mono :
          (way : Route)
          → ControllerAnswered self way request l r
          → ControllerAnswered self way request l' r
      ControllerAnswered-mono fork_choice h = ControllerFcuAnswered-mono h
      ControllerAnswered-mono payload h = ControllerPayloadAnswered-mono h
      ControllerAnswered-mono built h = GetAnswered-mono h
      ControllerAnswered-mono _ h = tt

module _ ⦃p : Primitives⦄ ⦃lru : Lru⦄ ⦃x : Lighthouse⦄ (self : Settings) where
  pub OneAnswered-mono :
      (request : Request) (r : MaybeErrorResponse) {l l' : Log}
      → l ⊑ l'
      → OneAnswered self request l r
      → OneAnswered self request l' r
  OneAnswered-mono request (response r) e h =
      ClientAnswered-mono e self request r (route request.method) h
  OneAnswered-mono request (error_response r) e h = tt

  EachAnswered-mono :
      (requests : List Request) (rs : List MaybeErrorResponse) {l l' : Log}
      → l ⊑ l'
      → EachAnswered self requests l rs
      → EachAnswered self requests l' rs
  EachAnswered-mono [] [] e h = tt
  EachAnswered-mono (request ∷ requests) (r ∷ rs) e (h, k) =
      (OneAnswered-mono request r e h, EachAnswered-mono requests rs e k)
  EachAnswered-mono [] (r ∷ rs) e h = absurd h
  EachAnswered-mono (request ∷ requests) [] e h = absurd h

  pub BatchAnswered-mono :
      (requests : Requests) (rs : Responses) {l l' : Log}
      → l ⊑ l'
      → BatchAnswered self requests l rs
      → BatchAnswered self requests l' rs
  BatchAnswered-mono (Requests.single request) (Responses.single r) e h =
      OneAnswered-mono request r e h
  BatchAnswered-mono (Requests.multiple requests) (Responses.multiple rs) e h =
      EachAnswered-mono requests rs e h
  BatchAnswered-mono (Requests.single request) (Responses.multiple rs) e h = absurd h
  BatchAnswered-mono (Requests.multiple requests) (Responses.single r) e h = absurd h
