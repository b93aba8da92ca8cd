-- ===== src/Effects/Decodes.antt =====
-- src/new_payload.rs, `decode_new_payload`: its errors are parse errors that bear the request's
-- id, and so does what it decodes.
use eleel.Common.{String, ◌≡◌, refl, List, [], ◌∷◌, Result, map_err, Option-cases, inl, inr, ℕ, sym}
use eleel.External.Primitives.{Primitives}
use eleel.External.Lighthouse.{Lighthouse}
use eleel.Types.{ErrorCode, parse_error_code, Request, ErrorResponse, ForkName, parse_error}
use eleel.Effects.Answers.{
  Yields, IsAny, Yields-ok, Yields-err, Yields-map_ok, Yields-bind, Yields-if, Yields-map_err,
  generic-IsRefusal, parse_error-IsRefusal, parse_as-Yields,
}
use eleel.Multiplexer.{Settings}
use eleel.NewPayload.Decode.{
  extras_v4, extras_v3, extras_before_v3, decode_extras, decode_timestamp, decode_slot,
  decode_payload, decode_new_payload,
}
use eleel.Slot.{timestamp_to_slot}

module _ ⦃p : Primitives⦄ ⦃x : Lighthouse⦄ (codes : List ErrorCode) (id : p.Json) where
  open p use {Json}

  -- A parse error, whatever other codes may come.
  abbrev Parses : {T : Type 0} → Result T ErrorResponse → Type 0
  Parses r = Yields id (parse_error_code ∷ codes) IsAny r

  decoded-Parses : {T : Type 0} (r : Result T p.SerdeError) → Parses (map_err (parse_error id) r)
  decoded-Parses r = Yields-map_err (parse_error id) r (λ e. parse_error-IsRefusal id e)

  extras_v4-Parses : (params : List Json) → Parses (extras_v4 id params)
  unfolding extras_v4
  extras_v4-Parses (payload ∷ hashes ∷ root ∷ requests ∷ []) =
      Yields-bind (decoded-Parses (x.serde.decode_versioned_hashes hashes)) (λ _ _.
        Yields-bind (decoded-Parses (x.serde.decode_hash256 root)) (λ _ _.
          Yields-bind (decoded-Parses (x.serde.decode_requests requests)) (λ r _.
            Yields-bind (Yields-map_err _ (x.requests_from_json r) (λ e. generic-IsRefusal id _))
              (λ _ _. Yields-ok tt))))
  extras_v4-Parses _ = Yields-err (generic-IsRefusal id _)

  extras_v3-Parses : (params : List Json) → Parses (extras_v3 id params)
  unfolding extras_v3
  extras_v3-Parses (payload ∷ hashes ∷ root ∷ []) =
      Yields-bind (decoded-Parses (x.serde.decode_versioned_hashes hashes))
        (λ _ _. Yields-bind (decoded-Parses (x.serde.decode_hash256 root)) (λ _ _. Yields-ok tt))
  extras_v3-Parses _ = Yields-err (generic-IsRefusal id _)

  extras_before_v3-Parses :
      (method : String) (params : List Json) → Parses (extras_before_v3 method id params)
  unfolding extras_before_v3
  extras_before_v3-Parses method (payload ∷ []) = Yields-ok tt
  extras_before_v3-Parses method _ = Yields-err (generic-IsRefusal id _)

  decode_extras-Parses :
      (method : String) (params : List Json) → Parses (decode_extras method id params)
  unfolding decode_extras
  decode_extras-Parses method params =
      Yields-if _ (extras_v4-Parses params)
        (Yields-if _ (extras_v3-Parses params) (extras_before_v3-Parses method params))

  decode_timestamp-Parses : (json : Json) → Parses (decode_timestamp id json)
  unfolding decode_timestamp
  decode_timestamp-Parses json = elim (Option-cases (p.get_field "timestamp" json)) [
    | inl e ↦ rw (e, decode_timestamp) (Yields-err (generic-IsRefusal id _))
    | inr (value, e) ↦ rw (e, decode_timestamp) (Yields-map_ok _ (decoded-Parses _))
  ]

  decode_slot-Parses : (self : Settings) (timestamp : ℕ) → Parses (decode_slot self id timestamp)
  unfolding decode_slot
  decode_slot-Parses self timestamp = elim (Option-cases (timestamp_to_slot self timestamp)) [
    | inl e ↦ rw (e, decode_slot) (Yields-err (generic-IsRefusal id _))
    | inr (slot, e) ↦ rw (e, decode_slot) (Yields-ok tt)
  ]

  decode_payload-Parses :
      (method : String) (fork : ForkName) (json : Json)
      → Parses (decode_payload method fork id json)
  unfolding decode_payload
  decode_payload-Parses method fork json = decoded-Parses _

module _ ⦃p : Primitives⦄ ⦃x : Lighthouse⦄ where
  pub decode_new_payload-Yields :
      (codes : List ErrorCode) (self : Settings) (request : Request)
      → Yields request.id
          (parse_error_code ∷ codes)
          (λ decoded. decoded.id ≡ request.id)
          (decode_new_payload self request)
  unfolding decode_new_payload
  decode_new_payload-Yields codes self request =
      Yields-bind (parse_as-Yields codes x.serde.decode_values request) (λ (id, params) same.
        rw (sym same) (
          Yields-bind (decode_extras-Parses codes id request.method params) (λ extras _.
            Yields-bind (decode_timestamp-Parses codes id extras.payload_json) (λ timestamp _.
              Yields-bind (decode_slot-Parses codes id self timestamp) (λ slot _.
                Yields-bind (decode_payload-Parses codes id request.method _ extras.payload_json)
                  (λ _ _. Yields-ok refl))))))
