-- ===== src/Tests/Whole.antt =====
-- The theorems on the whole server, at the sample's requests.
use eleel.Common.{subst, arith, ℕ, false, refl, ◌≡◌, ◌↔◌, [], ◌∷◌, List, All, some, ok}
use eleel.Effects.Answers.{Answers}
use eleel.Effects.Contents.{contents}
use eleel.Effects.Dispatch.{
  IsAnswered, process_client_request-Does, process_controller_request-Does, process_requests-Does,
}
use eleel.Effects.Kinds.{
  client_codes, controller_codes, for_client, for_controller, IsServable, IsAgreed,
}
use eleel.External.Environment.{Environment}
use eleel.Main.{process_client_request, process_controller_request, process_requests}
use eleel.Main.Boot.{Server, boot}
use eleel.Common.Outcome.{ok_inj}
use eleel.Jwt.Maps.{IsMap}
use eleel.Main.Boot.Secrets.{TomlIsMap}
use eleel.Main.Boot.Starts.{IsServed, CanServe, boot-IsServed}
use eleel.Main.Route.{route}
use eleel.Prog.Does.{Does}
use eleel.System.{Move, arrive, to_client, play, start}
use eleel.System.Isolation.{IsClient, play-contents}
use eleel.System.Keeps.{Arriving}
use eleel.System.Panics.{Unpanicked, play-panics, play-IsAgreed}
use eleel.System.Refused.{is_accepted, only_accepted, accepted_moves, play-accepted_moves}
use eleel.Types.{Requests}
use eleel.Tests.Runs.{
  building_moves, app, caches, caches-new, client_request, config, fcu_request, moves, settings,
  steps,
}
use eleel.Tests.Sample.{sample_primitives, sample_lighthouse, sample_jwt}
use eleel.Tests.SampleLru.{sample_lru}

process_client_request-Does_example :
    Does for_client
      (Answers client_request.id (client_codes (route client_request.method)))
      (process_client_request settings client_request)
process_client_request-Does_example = process_client_request-Does settings client_request

process_controller_request-Does_example :
    Does
      (for_controller (route fcu_request.method))
      (Answers fcu_request.id (controller_codes (route fcu_request.method)))
      (process_controller_request settings fcu_request)
process_controller_request-Does_example = process_controller_request-Does settings fcu_request

abbrev batch : Requests
batch = Requests.multiple (client_request ∷ fcu_request ∷ [])

process_requests-Does_example :
    Does for_client (IsAnswered settings batch) (process_requests settings batch)
process_requests-Does_example = process_requests-Does settings batch

caches-IsServable : IsServable (contents caches)
unfolding contents
caches-IsServable id stored e = absurd (cc)

-- Two clients ask, and the first takes its steps.
abbrev client_moves : List Move
client_moves =
    arrive (to_client "t" (ok (Requests.single client_request)))
    ∷ arrive (to_client "u" (ok batch))
    ∷ steps 1 8 []

client_moves-arrive : All (Arriving IsClient) client_moves
client_moves-arrive = (tt, (tt, (tt, (tt, (tt, (tt, (tt, (tt, (tt, (tt, tt))))))))))

play-contents_example : contents (play app client_moves (start caches)).caches ≡ contents caches
play-contents_example = play-contents app caches client_moves caches-IsServable client_moves-arrive

play-panics_example : All Unpanicked (play app moves (start caches)).tasks
play-panics_example = play-panics app config caches moves caches-new

play-IsAgreed_example : IsAgreed (contents (play app building_moves (start caches)).caches)
play-IsAgreed_example = play-IsAgreed app config caches building_moves (omega arith) caches-new

-- A client with an unknown secret asks first.
abbrev refused_moves : List Move
refused_moves = arrive (to_client "bad" (ok batch)) ∷ steps 0 2 moves

play-accepted_moves_example :
    only_accepted app (play app refused_moves (start caches))
    ≡ play app (accepted_moves app [] refused_moves) (start caches)
play-accepted_moves_example = play-accepted_moves app caches refused_moves

is_refused : is_accepted app (to_client "bad" (ok batch)) ≡ false
unfolding eleel.Jwt.verify eleel.Jwt.claimed_secret eleel.Jwt.lookup eleel.Jwt.verify_parsed_token
    eleel.Jwt.convert_err
is_refused = refl

-- One network, and files that hold the secrets.
instance abbrev sample_environment : Environment
sample_environment = record {
  read_to_string = λ path. ok path;
  toml_secrets = λ text. ok (("a", "t") ∷ []);
  NetworkConfig = ℕ;
  network_constant = λ s. ok (some 100);
  chain_spec = λ network. ok settings.spec;
  genesis_time = λ network. ok (some network);
  new_engine = λ url path. ok tt;
}

toml_is_map : TomlIsMap
toml_is_map text raw e = let same : ("a", "t") ∷ [] ≡ raw = ok_inj e in subst IsMap same (tt, tt)

boot-IsServed_example :
    ((server : Server) → boot config 100 ≡ some server → IsServed config 100 server)
    × (((server : Server) × (boot config 100 ≡ some server)) ↔ CanServe config 100)
boot-IsServed_example = boot-IsServed config 100 toml_is_map

-- The sample's server can start.
can_serve : CanServe config 100
can_serve = record {
  secret = "s";
  controller = record {
    text = "controller.hex";
    read = refl;
    decoded = record { bytes = []; decoded = refl; made = refl };
  };
  clients = record {
    text = "secrets.toml";
    raw = ("a", "t") ∷ [];
    read = refl;
    parsed = refl;
    decoded = λ id hex_secret here. ("s", record { bytes = []; decoded = refl; made = refl });
  };
  connected = refl;
  sized = record {
    fcu = omega arith;
    new_payload = omega arith;
    justified = omega arith;
    builder = omega arith;
  };
  spec = settings.spec;
  known = refl;
  genesis_time = 100;
  genesis = refl;
}
