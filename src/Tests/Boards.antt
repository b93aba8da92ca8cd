-- ===== src/Tests/Boards.antt =====
-- The theorems on the cache of fork choice states and on the builder's panic, at concrete inputs.
use eleel.Common.{inl, false, ◌≡◌, ◌↔◌, refl, [], ◌∷◌, List, none, some, true, arith}
use eleel.Fcu.Board.{Use, write, read, Board, Shows, uses_board, uses_cache, uses_cache-refines}
use eleel.Fcu.Handlers.{record_fcu, client_status, store_fcu}
use eleel.Fcu.Survives.{store_fcu-then-uses}
use eleel.Fcu.Tells.{record_fcu-then-any_client}
use eleel.Prog.{◌>>=◌}
use eleel.Prog.Run.{run}
use eleel.Fcu.Status.{is_definite}
use eleel.Fcu.Stores.{held}
use eleel.Multiplexer.{Caches}
use eleel.PayloadBuilder.Methods.{register_locked}
use eleel.PayloadBuilder.Panics.{HasNoFee, register_locked-eq-none_iff}
use eleel.Types.{JsonForkchoiceStateV1, JsonPayloadStatusV1, valid, syncing}
use eleel.Tests.Runs.{engine, caches, settings}
use eleel.Tests.Sample.{sample_primitives, sample_lighthouse}
use eleel.Tests.SampleLru.{sample_lru}

abbrev fcu : JsonForkchoiceStateV1
fcu = record { head_block_hash = 5; safe_block_hash = 4; finalized_block_hash = 3 }

abbrev valid_status : JsonPayloadStatusV1
valid_status = record { status = valid; latest_valid_hash = none; validation_error = none }

abbrev open_status : JsonPayloadStatusV1
open_status = record { status = syncing; latest_valid_hash = none; validation_error = none }

abbrev uses : List Use
uses = read fcu ∷ write fcu open_status ∷ write fcu valid_status ∷ read fcu ∷ []

abbrev empty_board : Board
empty_board = λ k. none

uses_cache-refines_example :
    ((uses_cache uses caches).0 ≡ (uses_board uses empty_board).0)
    × Shows (uses_cache uses caches).1 (uses_board uses empty_board).1
uses_cache-refines_example = uses_cache-refines uses caches empty_board (λ k. refl) (omega arith)

valid_is_definite : is_definite valid_status ≡ true
unfolding is_definite
valid_is_definite = refl

not_held :
    (existing : JsonPayloadStatusV1)
    → held fcu caches ≡ some existing
    → is_definite existing ≡ false
not_held existing e = absurd (cc)

abbrev later_uses : List Use
later_uses = read fcu ∷ write (record fcu { head_block_hash = 6 }) valid_status ∷ read fcu ∷ []

store_fcu-then-uses_example :
    held fcu (uses_cache later_uses (store_fcu fcu valid_status caches).1).1 ≡ some valid_status
store_fcu-then-uses_example =
    store_fcu-then-uses fcu valid_status valid_is_definite later_uses caches (omega arith) not_held

register_locked-eq-none_iff_example :
    ((register_locked settings 2 5 112 caches.payload_builder).0 ≡ none)
    ↔ HasNoFee settings 2 5 112 caches.payload_builder
register_locked-eq-none_iff_example =
    register_locked-eq-none_iff settings 2 5 112 caches.payload_builder

record_fcu-then-any_client_example :
    (t : Caches) × (run
        (engine 0)
        1000
        caches
        (record_fcu fcu valid_status >>= λ _. client_status settings fcu)
      ≡ inl (valid_status, t, 1000))
record_fcu-then-any_client_example =
    record_fcu-then-any_client (engine 0) 1000 settings fcu valid_status caches (omega arith) refl
      (omega arith) (omega arith) (omega arith) not_held
