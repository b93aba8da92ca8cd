-- ===== src/Tests/Serving.antt =====
-- The theorems on the handlers, at the sample's requests.
use mathlib.Core.Bool.{decide}
use eleel.Common.{true, false, inl, arith, ◌≡◌, ◌≢◌, refl, [], ◌∷◌, none, some, ok}
use eleel.Config.{exact}
use eleel.Fcu.Relays.{record_fcu-then-client_status}
use eleel.Fcu.Status.{is_definite}
use eleel.Multiplexer.{Settings, Caches}
use eleel.NewPayload.Relays.{record_status-then-settle}
use eleel.Prog.{◌>>=◌}
use eleel.Prog.Run.{run}
use eleel.Fcu.Handlers.{record_fcu, client_status, handle_fcu, handle_controller_fcu, store_fcu}
use eleel.Fcu.Stores.{held, Stored, store_fcu-Stored}
use eleel.Fcu.Waits.{handle_fcu-Ends}
use eleel.Main.{process_client_request, process_controller_request}
use eleel.Main.Route.{route, fork_choice, payload, process_requests_agree}
use eleel.NewPayload.Decode.{
  Decoded, extras_v3, decode_extras, is_fork, decode_payload, decode_timestamp, decode_slot,
  decode_new_payload, new_payload_request_from_parts,
}
use eleel.NewPayload.Handlers.{
  record_status, settle, handle_new_payload, handle_controller_new_payload,
}
use eleel.NewPayload.Total.{new_payload_request-some}
use eleel.NewPayload.Waits.{handle_new_payload-Ends}
use eleel.Prog.Ends.{Ends, AnyResult}
use eleel.Prog.Safe.{Safe}
use eleel.Provenance.Answers.{
  OnOk, FcuAnswered, PayloadAnswered, handle_fcu-Safe, handle_new_payload-Safe,
}
use eleel.Provenance.Controller.{
  ControllerFcuAnswered, ControllerPayloadAnswered, handle_controller_fcu-Safe,
  handle_controller_new_payload-Safe,
}
use eleel.Provenance.Invariant.{IsSound}
use eleel.Slot.{timestamp_to_slot}
use eleel.Types.{
  ExecutionPayload, deneb, request_deneb, Request, JsonForkchoiceStateV1, JsonPayloadStatusV1,
  NewPayloadRequest, json_v3, fork_name_discrete, parse_as, parse_error, valid,
}
use eleel.Tests.Runs.{
  engine, config, settings, caches, fcu_request, client_request, payload_request,
}
use eleel.Tests.Sample.{
  fields_of_block, null, number, cons, id_doc, sample_primitives, sample_lighthouse, sample_jwt,
}
use eleel.Tests.SampleLru.{sample_lru}

abbrev get_request : Request
get_request = record {
  jsonrpc = "2.0";
  method = "engine_getPayloadV3";
  params = cons (id_doc (0 ∷ [])) null;
  id = number 4;
}

abbrev decoded : Decoded
decoded = record {
  id = number 3;
  payload = json_v3 (5, 7, 112);
  versioned_hashes = some [];
  parent_beacon_block_root = some 9;
  execution_requests = none;
}

abbrev fcu : JsonForkchoiceStateV1
fcu = record { head_block_hash = 5; safe_block_hash = 4; finalized_block_hash = 3 }

abbrev status : JsonPayloadStatusV1
status = record { status = valid; latest_valid_hash = none; validation_error = none }

decoded_payload : decode_new_payload settings payload_request ≡ ok decoded
unfolding decode_new_payload parse_as parse_error decode_extras extras_v3 decode_timestamp
    decode_slot timestamp_to_slot decode_payload is_fork fork_name_discrete decide
decoded_payload = refl

handle_fcu-Safe_example :
    Safe IsSound
      (OnOk (FcuAnswered settings client_request))
      []
      (handle_fcu settings client_request)
handle_fcu-Safe_example = handle_fcu-Safe settings client_request []

handle_new_payload-Safe_example :
    Safe IsSound
      (OnOk (PayloadAnswered settings payload_request))
      []
      (handle_new_payload settings payload_request)
handle_new_payload-Safe_example = handle_new_payload-Safe settings payload_request []

handle_controller_fcu-Safe_example :
    Safe IsSound
      (OnOk (ControllerFcuAnswered settings fcu_request))
      []
      (handle_controller_fcu settings fcu_request)
handle_controller_fcu-Safe_example = handle_controller_fcu-Safe settings fcu_request []

handle_controller_new_payload-Safe_example :
    Safe IsSound
      (OnOk (ControllerPayloadAnswered settings payload_request))
      []
      (handle_controller_new_payload settings payload_request)
handle_controller_new_payload-Safe_example =
    handle_controller_new_payload-Safe settings payload_request []

handle_fcu-Ends_example : Ends AnyResult 1000 (handle_fcu settings client_request)
handle_fcu-Ends_example = handle_fcu-Ends settings client_request 1000

handle_new_payload-Ends_example : Ends AnyResult 1000 (handle_new_payload settings payload_request)
handle_new_payload-Ends_example = handle_new_payload-Ends settings payload_request 1000 refl

new_payload_request-some_example :
    (engine_request : NewPayloadRequest) × (new_payload_request_from_parts
        (sample_lighthouse.from_json_payload (json_v3 (5, 7, 112)))
        (some [])
        (some 9)
        none
      ≡ some engine_request)
new_payload_request-some_example =
    new_payload_request-some settings payload_request decoded refl decoded_payload

store_fcu-Stored_example : Stored fcu status caches (store_fcu fcu status caches)
store_fcu-Stored_example = store_fcu-Stored fcu status caches (omega arith)

not_fork_choice : route "eth_chainId" ≢ fork_choice
unfolding route
not_fork_choice e = cc

not_payload : route "eth_chainId" ≢ payload
unfolding route
not_payload e = cc

abbrev chain_id_request : Request
chain_id_request = record { jsonrpc = "2.0"; method = "eth_chainId"; params = null; id = number 5 }

process_requests_agree_example :
    process_controller_request settings chain_id_request
    ≡ process_client_request settings chain_id_request
process_requests_agree_example =
    process_requests_agree settings chain_id_request not_fork_choice not_payload

abbrev exact_settings : Settings
exact_settings = record settings { config = record config { fcu_matching = exact } }

valid_is_definite : is_definite status ≡ true
unfolding is_definite
valid_is_definite = refl

not_held :
    (existing : JsonPayloadStatusV1)
    → held fcu caches ≡ some existing
    → is_definite existing ≡ false
not_held existing e = absurd (cc)

record_fcu-then-client_status_example :
    (t : Caches) × (run
        (engine 0)
        1000
        caches
        (record_fcu fcu status >>= λ _. client_status exact_settings fcu)
      ≡ inl (status, t, 1000))
record_fcu-then-client_status_example =
    record_fcu-then-client_status (engine 0) 1000 exact_settings fcu status caches (omega arith)
      refl (omega arith) valid_is_definite not_held

abbrev engine_payload : ExecutionPayload
engine_payload = deneb (fields_of_block (5, 7, 112)) 0 0 0

record_status-then-settle_example :
    (t : Caches) × (run
        (engine 0)
        1000
        caches
        (record_status engine_payload status >>= λ _. settle 5 (request_deneb engine_payload [] 9))
      ≡ inl (ok status, t, 1000))
record_status-then-settle_example =
    record_status-then-settle (engine 0) 1000 engine_payload status caches
      (request_deneb engine_payload [] 9) (omega arith)
