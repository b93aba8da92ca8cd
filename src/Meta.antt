-- ===== src/Meta.antt =====
-- src/meta.rs: methods about the execution engine itself. Durations are in milliseconds.
use eleel.Common.{◌*◌, false, Result, map_err}
use eleel.External.Lru.{Lru}
use eleel.External.Primitives.{Primitives}
use eleel.External.Lighthouse.{Lighthouse}
use eleel.Types.{Request, Response, ErrorResponse, parse_as, new_response, parse_error_generic}
use eleel.Prog.{Prog, ret, get_chain_id, get_engine_capabilities, rpc_request, call, try, ◌>>=◌}

module _ ⦃p : Primitives⦄ ⦃lru : Lru⦄ ⦃x : Lighthouse⦄ where
  open p use {Json, EngineError, debug_engine_error}

  -- `.map_err(|e| ErrorResponse::parse_error_generic(id.clone(), format!("{e:?}")))`
  unfoldable pub engine_result : {T : Type 0} → Json → Result T EngineError → Result T ErrorResponse
  engine_result id r = map_err (λ e. parse_error_generic id (debug_engine_error e)) r

  unfoldable pub handle_syncing : Request → Prog (Result Response ErrorResponse)
  handle_syncing request =
      try (parse_as x.serde.decode_units request)
        λ (id, _). ret (new_response x.serde.encode_bool id false)

  unfoldable pub handle_chain_id : Request → Prog (Result Response ErrorResponse)
  handle_chain_id request = try (parse_as x.serde.decode_units request) λ (id, _). do
    reply ← call (get_chain_id 1000)
    try (engine_result id reply)
        λ chain_id. ret (new_response x.serde.encode_quantity id (record { value = chain_id }))

  unfoldable pub handle_engine_capabilities : Request → Prog (Result Response ErrorResponse)
  handle_engine_capabilities request = try (parse_as x.serde.decode_strings request) λ (id, _). do
    reply ← call (get_engine_capabilities (15 * 60 * 1000))
    try (engine_result id reply)
        λ capabilities. ret (new_response x.serde.encode_capabilities id capabilities)

  unfoldable pub proxy_directly : Request → Prog (Result Response ErrorResponse)
  proxy_directly request = do
    reply ← call (rpc_request request.method request.params 12000)
    try (engine_result request.id reply)
        λ result. ret (new_response x.serde.encode_value request.id result)
