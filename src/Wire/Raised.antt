-- ===== src/Wire/Raised.antt =====
-- app/privacy/wire.py: the exceptions that the guard lets pass.
use maskgate.Base.{
  Bool, Bool-cases, Error, Result, Text, any, err, false, if◌then◌else◌, inl, inr,
  json_decode_error, ok, refl, some, true, type_error, unicode_error, value_error, wire_violation,
  ◌≡◌,
}
use maskgate.Json.{Json}
use maskgate.Wire.{
  Codec, is_surrogate, encodable, unless_decode_error, not_canonical, violation, then_check,
}

-- The exceptions that `check` may raise: its own, and those that come from outside and that it does
-- not turn into its own.
pub data Raised (codec : Codec) : Error → Type 0 where
  own : Raised codec wire_violation
  -- of `stripped.encode("utf-8")`
  encoding : (t : Text) → any is_surrogate t ≡ true → Raised codec unicode_error
  -- of a text inside the body, unless it is caught there
  loading :
      {e : Error} (t : Text)
      → codec.loads t ≡ err e
      → unless_decode_error e ≡ err e
      → Raised codec e
  -- of the body as a whole, unless it becomes a violation
  reading : {e : Error} (t : Text) → codec.loads t ≡ err e → not_canonical e ≡ e → Raised codec e
  dumping : {e : Error} (v : Json) → codec.dumps v ≡ err e → not_canonical e ≡ e → Raised codec e
  detecting : {e : Error} (t : Text) → codec.detector_error t ≡ some e → Raised codec e

module _ (codec : Codec) where
  pub data IsCalm : Result (Unit {0}) → Type 0 where
    fine : IsCalm (ok tt)
    raises : {e : Error} → Raised codec e → IsCalm (err e)

  pub violation-IsCalm : (b : Bool) → IsCalm (violation b)
  violation-IsCalm true = raises own
  violation-IsCalm false = fine

  pub then_check-IsCalm : (a b : Result (Unit {0})) → IsCalm a → IsCalm b → IsCalm (then_check a b)
  then_check-IsCalm (err e) b ha hb = ha
  then_check-IsCalm (ok _) b ha hb = hb

  pub if-IsCalm : (b : Bool) (r : Result (Unit {0})) → IsCalm r → IsCalm (if b then r else ok tt)
  if-IsCalm true r h = h
  if-IsCalm false r h = fine

  pub unless-IsCalm :
      (b : Bool) (r : Result (Unit {0})) → IsCalm r → IsCalm (if b then ok tt else r)
  unless-IsCalm true r h = fine
  unless-IsCalm false r h = h

  pub encodable-IsCalm : (s : Text) → IsCalm (encodable s)
  unfolding encodable
  encodable-IsCalm s = elim (Bool-cases (any is_surrogate s)) [
    | inl e ↦ rw e (raises (encoding s e))
    | inr e ↦ rw e fine
  ]

  pub unless-Raised :
      (t : Text) (e : Error) → codec.loads t ≡ err e → IsCalm (unless_decode_error e)
  unless-Raised t json_decode_error h = fine
  unless-Raised t _ h = raises (loading t h refl)

  -- An exception that is not turned into the guard's own is raised as it is.
  pub not_canonical-Raised :
      (e : Error) → (not_canonical e ≡ e → Raised codec e) → Raised codec (not_canonical e)
  unfolding not_canonical
  not_canonical-Raised type_error r = own
  not_canonical-Raised value_error r = own
  not_canonical-Raised unicode_error r = own
  not_canonical-Raised json_decode_error r = own
  not_canonical-Raised _ r = r refl
