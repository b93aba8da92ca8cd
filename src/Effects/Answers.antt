-- ===== src/Effects/Answers.antt =====
-- The form of a JSON-RPC answer: the id of its request, the version 2.0, and for an error one of
-- the codes that src/types.rs gives to its kind.
use mathlib.Core.List.{Memᴰ}
use eleel.Common.{
  String, ◌≡◌, refl, inl, inr, List, ◌∷◌, Result, ok, err, Result-cases, map_err, map_ok, Bool,
  true, false, if◌then◌else◌,
}
use eleel.Common.Outcome.{◌>>=◌}
use eleel.External.Lru.{Lru}
use eleel.External.Primitives.{Primitives}
use eleel.Types.{
  ErrorCode, parse_error_code, Request, Response, ErrorResponse, parse_as, parse_error,
  parse_error_generic, new_response,
}
use eleel.Prog.{Prog, try}
use eleel.Prog.Does.{Kinds, Does, Does-try}

module _ ⦃p : Primitives⦄ where
  open p use {Json}

  pub record IsRefusal (asked : Json) (codes : List ErrorCode) (e : ErrorResponse) : Type 0 where
    pub jsonrpc : e.jsonrpc ≡ "2.0"
    pub id : e.id ≡ asked
    pub code : Memᴰ e.error.code codes

  pub record IsReply (asked : Json) (r : Response) : Type 0 where
    pub jsonrpc : r.jsonrpc ≡ "2.0"
    pub id : r.id ≡ asked

  abbrev YieldsAt :
      {T : Type 0} → Json → List ErrorCode → (T → Type 0) → Result T ErrorResponse → Type 0
  YieldsAt id codes Q (ok a) = Q a
  YieldsAt id codes Q (err e) = IsRefusal id codes e

  -- A part of the work on a request: a value with a property, or an error that is an answer to the
  -- request with the id, by one of the codes.
  pub record Yields {T : Type 0} (asked : Json) (codes : List ErrorCode) (Q : T → Type 0)
      (r : Result T ErrorResponse) : Type 0 where
    pub at : YieldsAt asked codes Q r

  abbrev pub Answers : Json → List ErrorCode → Result Response ErrorResponse → Type 0
  Answers id codes r = Yields id codes (IsReply id) r

  abbrev pub IsAny : {T : Type 0} → T → Type 0
  IsAny a = Unit

  module _ {id : Json} {codes : List ErrorCode} where
    pub Yields-ok : {T : Type 0} {Q : T → Type 0} {a : T} → Q a → Yields id codes Q (ok a)
    Yields-ok h = record { at = h }

    pub Yields-err :
        {T : Type 0} {Q : T → Type 0} {e : ErrorResponse}
        → IsRefusal id codes e
        → Yields id codes Q (err e)
    Yields-err h = record { at = h }

    pub Yields-bind :
        {T U : Type 0} {Q : T → Type 0} {R : U → Type 0} {r : Result T ErrorResponse}
        {f : T → Result U ErrorResponse}
        → Yields id codes Q r
        → ((a : T) → Q a → Yields id codes R (f a))
        → Yields id codes R (r >>= f)
    Yields-bind {Q} {R} {r} {f} h k = record { at = bound r f h.at k }
      where
        bound :
            {T U : Type 0} {Q : T → Type 0} {R : U → Type 0} (r : Result T ErrorResponse)
            (f : T → Result U ErrorResponse)
            → YieldsAt id codes Q r
            → ((a : T) → Q a → Yields id codes R (f a))
            → YieldsAt id codes R (r >>= f)
        bound (ok a) f h k = (k a h).at
        bound (err e) f h k = h

    pub Yields-if :
        {T : Type 0} {Q : T → Type 0} (b : Bool) {r s : Result T ErrorResponse}
        → Yields id codes Q r
        → Yields id codes Q s
        → Yields id codes Q (if b then r else s)
    Yields-if true h k = h
    Yields-if false h k = k

    pub Yields-map_err :
        {T E : Type 0} (f : E → ErrorResponse) (r : Result T E)
        → ((e : E) → IsRefusal id codes (f e))
        → Yields id codes IsAny (map_err f r)
    Yields-map_err f (ok a) h = Yields-ok tt
    Yields-map_err f (err e) h = Yields-err (h e)

    pub Yields-map_ok :
        {T U : Type 0} (f : T → U) {r : Result T ErrorResponse}
        → Yields id codes IsAny r
        → Yields id codes IsAny (map_ok f r)
    Yields-map_ok f {r} h = elim (Result-cases r) [
      | inl (a, e) ↦ rw e (Yields-ok tt)
      | inr (fail, e) ↦ rw e (Yields-err (rw e at h).at)
    ]

    -- A value comes with where it is from.
    pub Yields-from :
        {T : Type 0} {Q : T → Type 0} {r : Result T ErrorResponse}
        → Yields id codes Q r
        → Yields id codes (λ a. (r ≡ ok a) × Q a) r
    Yields-from {r} h = elim (Result-cases r) [
      | inl (a, e) ↦ rw e (Yields-ok (refl, (rw e at h).at))
      | inr (fail, e) ↦ rw e (Yields-err (rw e at h).at)
    ]

  module _ (id : Json) {codes : List ErrorCode} where
    pub generic-IsRefusal :
        (message : String)
        → IsRefusal id (parse_error_code ∷ codes) (parse_error_generic id message)
    unfolding parse_error_generic
    generic-IsRefusal message = record { jsonrpc = refl; id = refl; code = Memᴰ.head refl }

    pub parse_error-IsRefusal :
        (e : p.SerdeError) → IsRefusal id (parse_error_code ∷ codes) (parse_error id e)
    unfolding parse_error
    parse_error-IsRefusal e = generic-IsRefusal _

    pub new_response-Answers :
        {T : Type 0} (to_value : T → Result Json p.SerdeError) (t : T)
        → Answers id (parse_error_code ∷ codes) (new_response to_value id t)
    unfolding new_response
    new_response-Answers to_value t = elim (Result-cases (to_value t)) [
      | inl (value, e) ↦ rw (e, new_response) (Yields-ok (record { jsonrpc = refl; id = refl }))
      | inr (fail, e) ↦ rw (e, new_response) (Yields-err (parse_error-IsRefusal fail))
    ]

  pub parse_as-Yields :
      {T : Type 0} (codes : List ErrorCode) (from_value : Json → Result T p.SerdeError)
      (request : Request)
      → Yields request.id
          (parse_error_code ∷ codes)
          (λ r. r.0 ≡ request.id)
          (parse_as from_value request)
  unfolding parse_as
  parse_as-Yields codes from_value request = elim (Result-cases (from_value request.params)) [
    | inl (params, e) ↦ rw (e, parse_as) (Yields-ok refl)
    | inr (fail, e) ↦ rw (e, parse_as) (Yields-err (parse_error-IsRefusal request.id fail))
  ]

  -- `?` in a handler, on a part that yields.
  pub Does-Yields :
      ⦃lru : Lru⦄ {K : Kinds} {T : Type 0} {id : Json} {codes : List ErrorCode} {Q : T → Type 0}
      {r : Result T ErrorResponse} {k : T → Prog (Result Response ErrorResponse)}
      → Yields id codes Q r
      → ((a : T) → Q a → Does K (Answers id codes) (k a))
      → Does K (Answers id codes) (try r k)
  Does-Yields {r} h f = Does-try r (λ a e. f a (rw e at h).at) (λ fail e. Yields-err (rw e at h).at)
