-- ===== src/Provenance/Answers.antt =====
-- What the answers of src/fcu.rs, src/new_payload.rs and src/payload_builder.rs to a client hold.
use eleel.Common.{◌≡◌, ◌∙◌, Option, none, some, Result, ok, inr}
use eleel.External.Lru.{Lru}
use eleel.External.Primitives.{Primitives}
use eleel.External.Lighthouse.{Lighthouse}
use eleel.Types.{
  JsonForkchoiceStateV1, JsonPayloadStatusV1, PayloadId, ExecutionPayload, fields,
  NewPayloadRequest, GetPayloadResponse, attributes_v2, Request, Response, ErrorResponse, parse_as,
  new_response,
}
use eleel.Types.Laws.{parse_as-eq-ok, new_response-eq-ok}
use eleel.Fcu.Handlers.{client_payload_id, handle_fcu}
use eleel.Multiplexer.{Settings}
use eleel.NewPayload.Decode.{Decoded, decode_new_payload, new_payload_request_from_parts}
use eleel.NewPayload.Handlers.{handle_new_payload}
use eleel.PayloadBuilder.Build.{payload_response}
use eleel.PayloadBuilder.Methods.{handle_get_payload}
use eleel.Prog.Safe.{
  Log, Safe, Anything, Safe-bind, Safe-ret, Safe-Option, Safe-Result, Safe-lift, Safe-try,
}
use eleel.Provenance.Builder.{get_existing_payload_id-Safe, get_payload-Safe}
use eleel.Provenance.FcuHandlers.{Told, Told-mono, client_status-Safe}
use eleel.Provenance.Invariant.{BuiltOn, BuiltOn-mono, IsSound}
use eleel.Provenance.NewPayload.{Heard, is_recent_payload-Safe, wait_if_recent-Safe, settle-Safe}

module _ ⦃p : Primitives⦄ where
  -- The property of a response, of a handler's result.
  abbrev pub OnOk : (Log → Response → Type 0) → Log → Result Response ErrorResponse → Type 0
  OnOk P l result = (response : Response) → result ≡ ok response → P l response

module _ ⦃p : Primitives⦄ ⦃lru : Lru⦄ ⦃x : Lighthouse⦄ where
  -- A client's forkchoiceUpdated is answered with a status that it may be told.
  pub record FcuAnswered (self : Settings) (request : Request) (l : Log) (response : Response)
      : Type 0 where
    pub fcu : JsonForkchoiceStateV1
    pub attributes : Option p.AttributesV2
    pub status : JsonPayloadStatusV1
    pub payload_id : Option PayloadId
    pub parsed : x.serde.decode_client_fcu request.params ≡ ok (fcu, attributes)
    pub encoded :
        x.serde.encode_fcu_response (record { payload_status = status; payload_id = payload_id })
        ≡ ok response.result
    pub same_id : response.id ≡ request.id
    pub told : Told self fcu l status

  -- A client's newPayload is answered with a status that it may be told, after its block hash is
  -- verified.
  pub record PayloadAnswered (self : Settings) (request : Request) (l : Log) (response : Response)
      : Type 0 where
    pub decoded : Decoded
    pub engine_request : NewPayloadRequest
    pub status : JsonPayloadStatusV1
    pub parsed : decode_new_payload self request ≡ ok decoded
    pub formed :
        new_payload_request_from_parts
          (x.from_json_payload decoded.payload)
          decoded.versioned_hashes
          decoded.parent_beacon_block_root
          decoded.execution_requests
        ≡ some engine_request
    pub verified : x.verify_payload_block_hash engine_request ≡ ok tt
    pub encoded : x.serde.encode_status status ≡ ok response.result
    pub heard :
        Heard engine_request (fields (x.from_json_payload decoded.payload)).block_hash l status

  -- A getPayload is answered with a dummy payload on a block that the engine did not reject.
  pub record GetAnswered (request : Request) (l : Log) (response : Response) : Type 0 where
    pub payload_id : PayloadId
    pub payload : ExecutionPayload
    pub contents : GetPayloadResponse
    pub parsed : x.serde.decode_payload_id request.params ≡ ok payload_id
    pub built : BuiltOn l payload
    pub formed : payload_response (x.to_json_payload payload) ≡ some contents
    pub encoded : x.serde.encode_payload_response contents ≡ ok response.result

  pub client_payload_id-Safe :
      (head : p.BlockHash) (attributes : Option p.AttributesV2) (l : Log)
      → Safe IsSound Anything l (client_payload_id head attributes)
  unfolding client_payload_id
  client_payload_id-Safe head none l = Safe-ret tt
  client_payload_id-Safe head (some attributes) l =
      Safe-bind
        (get_existing_payload_id-Safe head (x.attributes_from_json (attributes_v2 attributes)) l)
        (λ l' _ found _. Safe-Result found (λ _ _. Safe-ret tt) (λ _ _. Safe-ret tt))

  -- Among any other handlers that keep the caches sound, a client's forkchoiceUpdated keeps them
  -- sound; a response has the request's id and tells SYNCING, or a status that the engine gave to a
  -- fork choice state that matches the client's: the same one, or one with its head, where Loose
  -- asks as well that its safe and its finalized block are those of states that the engine called
  -- valid.
  pub handle_fcu-Safe :
      (self : Settings) (request : Request) (l : Log)
      → Safe IsSound (OnOk (FcuAnswered self request)) l (handle_fcu self request)
  unfolding handle_fcu
  handle_fcu-Safe self request l =
      Safe-try (parse_as x.serde.decode_client_fcu request)
        (λ (id, params) parse.
          let (fcu, attributes) = params in
          let (same_id, parsed) = parse_as-eq-ok _ request _ parse in
          Safe-bind (client_status-Safe self fcu l) (λ l1 _ status told.
            Safe-bind (client_payload_id-Safe fcu.head_block_hash attributes l1)
              (λ l2 e payload_id _. Safe-ret (λ response made.
                let (made_id, encoded) = new_response-eq-ok _ id _ response made in
                record {
                  fcu = fcu;
                  attributes = attributes;
                  status = status;
                  payload_id = payload_id;
                  parsed = parsed;
                  encoded = encoded;
                  same_id = made_id ∙ same_id;
                  told = Told-mono self fcu status e told;
                }))))
        (λ e response never. absurd (cc))

  answer :
      (self : Settings) (request : Request) (l : Log) (decoded : Decoded)
      (engine_request : NewPayloadRequest) (status : JsonPayloadStatusV1)
      → decode_new_payload self request ≡ ok decoded
      → new_payload_request_from_parts
          (x.from_json_payload decoded.payload)
          decoded.versioned_hashes
          decoded.parent_beacon_block_root
          decoded.execution_requests
        ≡ some engine_request
      → x.verify_payload_block_hash engine_request ≡ ok tt
      → Heard engine_request (fields (x.from_json_payload decoded.payload)).block_hash l status
      → OnOk (PayloadAnswered self request) l (new_response x.serde.encode_status decoded.id status)
  answer self request l decoded engine_request status parsed formed verified heard =
      λ response made. record {
        decoded = decoded;
        engine_request = engine_request;
        status = status;
        parsed = parsed;
        formed = formed;
        verified = verified;
        encoded = (new_response-eq-ok _ decoded.id _ response made).1;
        heard = heard;
      }

  -- Among any other handlers that keep the caches sound, a client's newPayload keeps them sound; a
  -- response is given only after the block hash is verified, and it tells a status that the engine
  -- gave to a payload of that hash, or SYNCING after the versioned hashes are verified.
  pub handle_new_payload-Safe :
      (self : Settings) (request : Request) (l : Log)
      → Safe IsSound (OnOk (PayloadAnswered self request)) l (handle_new_payload self request)
  unfolding handle_new_payload
  handle_new_payload-Safe self request l =
      Safe-try (decode_new_payload self request)
        (λ decoded parsed.
          let payload = x.from_json_payload decoded.payload in
          let block = (fields payload).block_hash in
          Safe-bind
            (Safe-lift
              {Q = λ _ engine_request.
                new_payload_request_from_parts payload decoded.versioned_hashes
                  decoded.parent_beacon_block_root decoded.execution_requests
                ≡ some engine_request}
              _ (λ engine_request formed. formed))
            (λ l1 _ engine_request formed.
              let answered =
                λ (m : Log) (status : JsonPayloadStatusV1)
                    (verified : x.verify_payload_block_hash engine_request ≡ ok tt)
                    (heard : Heard engine_request block m status).
                  answer self request m decoded engine_request status parsed formed verified
                    heard in
              Safe-Result (x.verify_payload_block_hash engine_request)
                (λ _ verified.
                  Safe-bind (is_recent_payload-Safe self (fields payload).block_number l1)
                    (λ l2 _ recent _.
                      Safe-bind (wait_if_recent-Safe self block recent l2) (λ l3 _ definite q.
                        Safe-Option definite
                          (λ _. Safe-bind (settle-Safe block engine_request l3) (λ l4 _ settled r.
                            Safe-Result settled
                              (λ status got. Safe-ret (answered l4 status verified (r status got)))
                              (λ message _. Safe-ret (λ response never. absurd (cc)))))
                          (λ status got.
                            Safe-ret (answered l3 status verified (inr (q status got).0))))))
                (λ _ _. Safe-ret (λ response never. absurd (cc)))))
        (λ e response never. absurd (cc))

  pub handle_get_payload-Safe :
      (request : Request) (l : Log)
      → Safe IsSound (OnOk (GetAnswered request)) l (handle_get_payload request)
  unfolding handle_get_payload
  handle_get_payload-Safe request l =
      Safe-try (parse_as x.serde.decode_payload_id request)
        (λ (id, payload_id) parse.
          let (same_id, parsed) = parse_as-eq-ok _ request _ parse in
          Safe-bind (get_payload-Safe payload_id l) (λ l1 _ found q.
            Safe-Result found
              (λ payload got.
                Safe-bind
                  (Safe-lift
                    {Q = λ m contents. payload_response (x.to_json_payload payload) ≡ some contents}
                    _ (λ contents formed. formed))
                  (λ l2 e contents formed. Safe-ret (λ response made. record {
                    payload_id = payload_id;
                    payload = payload;
                    contents = contents;
                    parsed = parsed;
                    built = BuiltOn-mono e (q payload got);
                    formed = formed;
                    encoded = (new_response-eq-ok _ id _ response made).1;
                  })))
              (λ message _. Safe-ret (λ response never. absurd (cc)))))
        (λ e response never. absurd (cc))
