-- ===== src/Types/Laws.antt =====
-- src/types.rs: what a parsed request and a response hold.
use eleel.Common.{◌≡◌, Result, ok, arith}
use eleel.External.Primitives.{Primitives}
use eleel.Types.{Request, Response, parse_as, new_response}

module _ ⦃p : Primitives⦄ {T : Type 0} where
  -- Parsing keeps the request's id and decodes its parameters.
  pub parse_as-eq-ok :
      (from_value : p.Json → Result T p.SerdeError) (request : Request) (r : p.Json × T)
      → parse_as from_value request ≡ ok r
      → (r.0 ≡ request.id) × (from_value request.params ≡ ok r.1)
  unfolding parse_as
  parse_as-eq-ok from_value request r e = ground arith

  -- A response has the id that it is made with and the encoding of its result.
  pub new_response-eq-ok :
      (to_value : T → Result p.Json p.SerdeError) (id : p.Json) (t : T) (response : Response)
      → new_response to_value id t ≡ ok response
      → (response.id ≡ id) × (to_value t ≡ ok response.result)
  unfolding new_response
  new_response-eq-ok to_value id t response e = ground arith
