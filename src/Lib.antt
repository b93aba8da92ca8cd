-- ===== src/Lib.antt =====
-- Eleel, an execution engine multiplexer: one consensus client, the controller, drives an execution
-- engine, and many others, the clients, are answered from what the engine said to the controller.
--
-- The parts and their files
--   External    what is not the program's: the crates lru, jwt, serde_json and Lighthouse, as
--               records of operations with the documented laws that the program relies on
--               (External/Lru, Jwt, Primitives, Lighthouse, Uint256, and Environment for what the start
--               meets). The model takes them as
--               instance arguments; Tests/Sample and Tests/SampleLru fill them.
--   Types       src/types.rs (Request, Response, ErrorResponse, parse_as, the fork choice state),
--               in Types/Payload the types of Lighthouse that the program takes apart, and in
--               Types/Codes the numbers of the error codes.
--   Config      src/config.rs: the options, ClientJwtSecrets::from_file, Network::from_str and the
--               names of FcuMatching (Config/Names).
--   Multiplexer src/multiplexer.rs. `Settings` is what no handler changes, `Caches` what stands
--               behind a Mutex: fcu_cache, new_payload_cache, justified_block_cache,
--               finalized_block_cache and payload_builder. Multiplexer::new is new_multiplexer.
--   Prog        an async handler as a tree of atomic steps. A step is one critical section of a
--               Mutex (`locked`, `update`) or one await of the engine, the clock or a sleep
--               (`call`). Between two steps any other handler may run. `fault` is a panic, or the
--               end of the rounds of a loop. Prog/Safe reasons about a handler among others,
--               Prog/Ends about its coming to an end, Prog/Does about what each of its steps
--               writes and calls, and Prog/Run runs it alone.
--   Slot        timestamp_to_slot of src/new_payload.rs.
--   BaseFee     src/base_fee.rs.
--   PayloadBuilder  src/payload_builder.rs: Bytes (payload ids), Build (the payload of
--               register_attributes), Methods (the operations under the builder's lock and
--               handle_get_payload).
--   NewPayload  src/new_payload.rs: Decode (decode_new_payload, new_payload_request_from_parts) and
--               Handlers (handle_controller_new_payload, handle_new_payload and the cache).
--   Fcu         src/fcu.rs: Status (is_definite) and Handlers (handle_controller_fcu, handle_fcu,
--               get_cached_fcu). Fcu/Board is the abstract view of the cache of fork choice states.
--   Meta        src/meta.rs.
--   Jwt         src/jwt.rs: KeyCollection::verify and load, jwt_secret_from_path.
--   Main        src/main.rs: the two routes and the dispatch by method; Main/Route is the dispatch
--               as a function of the method's name, and Main/Boot is `main`, from the options to
--               the state that is served.
--   System      the server at work: tasks, one for each HTTP request, that take their steps in any
--               order, with the log of what the engine answered. Refused takes the requests with a
--               bad token out of a run.
--   Provenance  where the contents of the caches and of the answers come from, handler by handler.
--   Effects     what the requests do to the caches, seen as what they hold and how much they may
--               hold (Contents), what they ask of the engine (Kinds) and the form of their answers
--               (Answers), handler by handler.
--   Entries     properties of all the entries of a cache, which each operation of LruCache keeps.
--
-- Numbers. A u64 is a natural number. `+= 1` on a block number or a payload id wraps at 2 ^ 64, as
-- in a release build. Subtractions that saturate in the source stop at 0 here.
--
-- Bounds. The two waits of the clients are loops of rounds, each with a sleep of 50 ms, on
-- wait_millis / 50 + 2 rounds. A round begins only while less than wait_millis is over, and sleeps
-- at least 50 ms, so that the loop leaves before the rounds do.
--
-- Errors. The result of a handler is Ok or Err as in the source; Option marks a panic in pure code
-- (an unwrap, a division by zero), and `lift` makes it a fault of the handler.
--
-- Locks. get_cached_fcu keeps the lock of fcu_cache until it returns. The model lets other tasks in
-- between its up to three reads: it has every run of the source, and more.
--
-- Not modelled: src/logging.rs and the trace output; in src/main.rs the logger, the task executor,
-- binding the socket and the loop of the server; how clap reads the command line and its default
-- values; the engine's client, which is what `call` awaits, and its construction from the URL and
-- the secret, which External/Environment gives by its result.
pub mod Common
pub mod External
pub mod Types
pub mod BaseFee
pub mod Config
pub mod Multiplexer
pub mod Prog
pub mod Slot
pub mod PayloadBuilder
pub mod NewPayload
pub mod Fcu
pub mod Meta
pub mod Jwt
pub mod Main
pub mod System
pub mod Tests
pub mod Effects
pub mod Entries
pub mod Provenance
