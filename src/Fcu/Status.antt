-- ===== src/Fcu/Status.antt =====
-- src/fcu.rs, `is_definite`, and the synthetic status of both client handlers.
use eleel.Common.{Bool, true, false, none}
use eleel.External.Primitives.{Primitives}
use eleel.Types.{
  JsonPayloadStatusV1, StatusV1, valid, invalid, invalid_block_hash, accepted, syncing,
}

definite_status : StatusV1 → Bool
definite_status valid = true
definite_status invalid = true
definite_status invalid_block_hash = true
definite_status accepted = false
definite_status syncing = false

module _ ⦃p : Primitives⦄ where
  unfoldable pub is_definite : JsonPayloadStatusV1 → Bool
  unfolding definite_status
  is_definite status = definite_status status.status

  abbrev pub syncing_status : JsonPayloadStatusV1
  syncing_status = record { status = syncing; latest_valid_hash = none; validation_error = none }
