-- ===== src/Tests/Runs.antt =====
-- Runs of the program on the sample.
use mathlib.Core.Bool.{decide}
use eleel.Common.{ℕ, ◌≡◌, ℕ_discrete, refl, zero, suc, map, List, [], ◌∷◌, Option, none, some, ok}
use eleel.Jwt.{
  lookup, convert_err, verify_single_token, verify_parsed_token, verify_any, claimed_secret, verify,
}
use eleel.Fcu.Handlers.{
  find_head, existing_status, just_and_fin_ok, get_cached_fcu, store_fcu, is_valid,
  note_checkpoints, record_fcu, wait_for_fcu, client_status, decode_attributes, controller_status,
  controller_payload_id, handle_controller_fcu, client_payload_id, handle_fcu,
}
use eleel.Fcu.Status.{is_definite}
use eleel.Config.{Config, loose}
use eleel.Multiplexer.{Settings, Caches, new_caches, non_zero, new_payload_builder}
use eleel.Main.{
  AppState, process_client_request, process_requests, process_controller_request, refusal,
  handle_client_json_rpc, handle_controller_json_rpc,
}
use eleel.Types.{
  Request, Requests, Responses, response, status_discrete, parse_as, parse_error,
  parse_error_generic, new_response, maybe_error, forkchoice_state, forkchoice_state_discrete,
  deneb_fork, valid, fork_name_discrete,
}
use eleel.Prog.{
  locked, update, call, lift, try, ◌>>=◌, Call, Reply, ret, Prog, notify_forkchoice_updated,
  new_payload, get_chain_id, get_engine_capabilities, rpc_request, now, sleep,
}
use eleel.NewPayload.Decode.{
  decode_new_payload, decode_extras, extras_v3, decode_timestamp, decode_slot, decode_payload,
  is_fork, new_payload_request_from_parts,
}
use eleel.Slot.{timestamp_to_slot}
use eleel.NewPayload.Handlers.{
  handle_controller_new_payload, get_cached_payload_status, cached_status, record_status,
}
use eleel.PayloadBuilder.Methods.{
  register_canonical_payload, track_payload, register_attributes, register_locked, finish,
  store_payload, build_payload,
}
use eleel.PayloadBuilder.Build.{
  payload_for_fork, require_withdrawals, seal, requests_for_fork, payload_fields, payload_info_of,
  is_rejected, payload_id_discrete, attributes_key_discrete,
}
use eleel.PayloadBuilder.Bytes.{to_be_bytes}
use eleel.BaseFee.{expected_base_fee_per_gas}
use eleel.System.{
  System, Job, to_client, to_controller, Move, Answer, arrive, step, step_prog, step_tasks, move,
  play, start,
}
use eleel.Tests.Sample.{
  Doc, null, number, cons, state, block, told, answer, sample_primitives, sample_lighthouse,
  sample_jwt,
}
use eleel.Tests.SampleLru.{sample_lru}

abbrev pub config : Config
config = record {
  listen_address = "127.0.0.1";
  listen_port = 8552;
  ee_url = "http://localhost";
  ee_jwt_secret = "s";
  controller_jwt_secret = "controller.hex";
  client_jwt_secrets = "secrets.toml";
  new_payload_cache_size = 4;
  fcu_cache_size = 4;
  payload_builder_cache_size = 4;
  payload_builder_extra_data = 69 ∷ [];
  justified_block_cache_size = 2;
  finalized_block_cache_size = 9;
  fcu_matching = loose;
  new_payload_wait_millis = 100;
  new_payload_wait_cutoff = 2;
  fcu_wait_millis = 100;
  body_limit_mb = 128;
}

abbrev pub settings : Settings
settings = record {
  genesis_time = 100;
  spec = record { seconds_per_slot = 12; fork_name_at_slot = λ slot. deneb_fork };
  config = config;
}

abbrev pub app : AppState
app = record {
  controller_jwt_secret = "c";
  client_jwt_collection = record { secrets = ("a", "t") ∷ [] };
  multiplexer = settings;
}

-- The engine calls everything valid; the time is the argument.
abbrev pub engine : ℕ → (c : Call) → Reply c
engine t (notify_forkchoice_updated f a) = ok (record {
  payload_status = record {
    status = valid;
    latest_valid_hash = some f.head_block_hash;
    validation_error = none;
  };
  payload_id = none;
})
engine t (new_payload r) =
    ok (record { status = valid; latest_valid_hash = none; validation_error = none })
engine t (get_chain_id _) = ok 1
engine t (get_engine_capabilities _) = ok []
engine t (rpc_request m d _) = ok null
engine t now = t
engine t (sleep d) = tt

abbrev pub fcu_request : Request
fcu_request = record {
  jsonrpc = "2.0";
  method = "engine_forkchoiceUpdatedV3";
  params = cons (state 5 4 3) null;
  id = number 1;
}

abbrev pub client_request : Request
client_request = record {
  jsonrpc = "2.0";
  method = "engine_forkchoiceUpdatedV3";
  params = cons (state 5 4 3) null;
  id = number 2;
}

abbrev pub steps : ℕ → ℕ → List Move → List Move
steps place zero l = l
steps place (suc n) l = step place (engine 0) ∷ steps place n l

-- The controller asks, the engine answers, and a client with the same state is told.
abbrev pub moves : List Move
moves =
    arrive (to_controller "c" (ok fcu_request))
    ∷ steps 0 6 (arrive (to_client "t" (ok (Requests.single client_request))) ∷ steps 0 8 [])

-- The controller sends a payload, and asks for one on top of it.
abbrev pub payload_request : Request
payload_request = record {
  jsonrpc = "2.0";
  method = "engine_newPayloadV3";
  params = cons (block (5, 7, 112)) (cons null (cons (number 9) null));
  id = number 3;
}

abbrev pub building_request : Request
building_request = record fcu_request { params = cons (state 5 4 3) (cons (number 124) null) }

abbrev pub building_moves : List Move
building_moves =
    arrive (to_controller "c" (ok payload_request))
    ∷ steps 0 12 (arrive (to_controller "c" (ok building_request)) ∷ steps 0 12 [])

abbrev pub caches : Caches
caches = record {
  fcu_cache = (4, []);
  new_payload_cache = (4, []);
  justified_block_cache = (2, []);
  finalized_block_cache = (2, []);
  payload_builder = record {
    next_payload_id = 0;
    payload_attributes = (4, []);
    payload_info = (4, []);
    payloads = (4, []);
    extra_data = 69 ∷ [];
  };
}

pub caches-new : new_caches config ≡ ok (some caches)
unfolding new_caches non_zero new_payload_builder
caches-new = refl

-- A test that runs the program unfolds this.
program : Unit {0}
unfolding is_definite status_discrete parse_as parse_error parse_error_generic new_response
    maybe_error forkchoice_state forkchoice_state_discrete lookup convert_err verify_single_token
    verify_parsed_token verify_any claimed_secret verify find_head existing_status just_and_fin_ok
    get_cached_fcu store_fcu is_valid note_checkpoints record_fcu wait_for_fcu client_status
    decode_attributes controller_status controller_payload_id handle_controller_fcu
    client_payload_id handle_fcu process_client_request process_requests process_controller_request
    refusal handle_client_json_rpc handle_controller_json_rpc locked update call lift try ◌>>=◌
    step_prog step_tasks move play
program = tt

abbrev result_of : (job : Job) → Prog (Answer job) → Option Doc
result_of (to_client token body) (ret (Responses.single (response r))) = some r.result
result_of (to_controller token body) (ret (ok r)) = some r.result
result_of _ _ = none

abbrev results : System → List (Option Doc)
results sys = map (λ task. result_of task.job task.rest) sys.tasks

-- Both get the engine's word.
both_told :
    results (play app moves (start caches))
    ≡ some (answer valid none) ∷ some (answer valid none) ∷ []
unfolding program decide ℕ_discrete
both_told = refl

-- A stranger's token is refused, whatever it asks.
refused :
    results
      (play app (arrive (to_client "u" (ok (Requests.single client_request))) ∷ []) (start caches))
    ≡ none ∷ []
unfolding program
refused = refl

-- The payload that the controller asked for has the first id.
id_given :
    results (play app building_moves (start caches))
    ≡ some (answer valid (some (0 ∷ 0 ∷ 0 ∷ 0 ∷ 0 ∷ 0 ∷ 0 ∷ 0 ∷ []))) ∷ some (told valid) ∷ []
unfolding program decide ℕ_discrete decode_new_payload decode_extras extras_v3 decode_timestamp
    decode_slot decode_payload is_fork new_payload_request_from_parts fork_name_discrete
    timestamp_to_slot handle_controller_new_payload get_cached_payload_status cached_status
    record_status register_canonical_payload track_payload register_attributes register_locked
    finish store_payload build_payload payload_for_fork require_withdrawals seal requests_for_fork
    payload_fields payload_info_of is_rejected to_be_bytes payload_id_discrete
    attributes_key_discrete expected_base_fee_per_gas
id_given = refl
