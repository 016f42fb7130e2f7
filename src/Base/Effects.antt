-- ===== src/Base/Effects.antt =====
-- Exceptions as values, and methods that change an object and may raise: what was written before a
-- raise stays written, so the object comes back beside the error too.
use mathlib.Core.List.{List}
use mathlib.Core.Path.{◌≡◌, refl}
use mathlib.Core.Logic.{◌⊎◌, inl, inr}
use maskgate.Base.Texts.{Text}

-- The exceptions that the modelled code raises.
pub data Error : Type 0 where
  -- `PolicyBlocked(entity_types)`
  policy_blocked : List Text → Error
  -- its subclasses `VaultCapacityExceeded`, `VaultCollision`, `ReservedTokenInjection`
  vault_capacity vault_collision reserved_token : Error
  -- `WirePrivacyViolation`
  wire_violation : Error
  -- `UnsafeProtocolString`
  unsafe_protocol : Error
  -- `ConversationCapacityExceeded`
  conversation_capacity : Error
  -- `CanonicalizationError`
  canonicalization : Error
  -- `_RequestBodyTooLarge`
  body_too_large : Error
  value_error type_error key_error : Error
  -- `JSONDecodeError`, a `ValueError`, and `UnicodeEncodeError`, another
  json_decode_error unicode_error : Error
  -- `UnsafeMediaBlocked(media_type)`
  unsafe_media : Text → Error
  -- `ProviderAdapterError`
  adapter_error : Error
  -- `LLMUpstreamError(error_type, message)`
  upstream_error : Text → Text → Error
  -- `ProviderOutputViolation(error_type)`
  invalid_output : Text → Error
  -- `GeneratorExit`: whoever reads a stream has gone.
  reader_gone : Error
  -- `RecursionError`
  recursion : Error
  -- The source of random bytes that the model hands to a call has run dry.
  no_entropy : Error

pub data Result (A : Type 0) : Type 0 where
  ok : A → Result A
  err : Error → Result A

pub Result-cases :
    {A : Type 0} (r : Result A) → ((a : A) × (r ≡ ok a)) ⊎ ((e : Error) × (r ≡ err e))
Result-cases (ok a) = inl (a, refl)
Result-cases (err e) = inr (e, refl)

-- A step that goes on with the value of the last one.
abbrev pub then_with : {A B : Type 0} → Result A → (A → Result B) → Result B
then_with (ok a) f = f a
then_with (err e) f = err e

pub then_with-ok :
    {A B : Type 0} (r : Result A) (f : A → Result B) {b : B}
    → then_with r f ≡ ok b
    → (a : A) × (r ≡ ok a) × (f a ≡ ok b)
then_with-ok (ok a) f h = (a, refl, h)
then_with-ok (err e) f h = absurd (cc)

-- A method of an object whose state is `S`.
abbrev pub Exec : Type 0 → Type 0 → Type 0
Exec S A = S → Result A × S

module _ {S A : Type 0} where
  abbrev pub pure : A → Exec S A
  pure a s = (ok a, s)

  abbrev pub raise : Error → Exec S A
  raise e s = (err e, s)

  abbrev pub lift : Result A → Exec S A
  lift r s = (r, s)

  abbrev pub gets : (S → A) → Exec S A
  gets f s = (ok (f s), s)

abbrev pub put_state : {S : Type 0} → S → Exec S Unit
put_state s' s = (ok tt, s')

infixl 5 ◌>>=◌ ◌>>◌
abbrev pub resume : {S A B : Type 0} → Result A → (A → Exec S B) → Exec S B
resume (ok a) f s = f a s
resume (err e) f s = (err e, s)

abbrev pub ◌>>=◌ : {S A B : Type 0} → Exec S A → (A → Exec S B) → Exec S B
◌>>=◌ m f s = let (r, s') = m s in resume r f s'

abbrev pub ◌>>◌ : {S A B : Type 0} → Exec S A → Exec S B → Exec S B
m >> k = m >>= λ _. k

-- What came before a result, and the object that the rest of a method starts from.
pub resume-ok :
    {S A B : Type 0} (r : Result A) (f : A → Exec S B) (s : S) {b : B}
    → (resume r f s).0 ≡ ok b
    → (a : A) × (r ≡ ok a) × ((f a s).0 ≡ ok b)
resume-ok (ok a) f s h = (a, refl, h)
resume-ok (err e) f s h = absurd (cc)

-- What holds between an object and itself, and between it and what the rest makes of it.
pub resume-relates :
    {S A B : Type 0} (R : S → Type 0) (r : Result A) (f : A → Exec S B) (s : S)
    → R s
    → ((a : A) → r ≡ ok a → R (f a s).1)
    → R (resume r f s).1
resume-relates R (ok a) f s here step = step a refl
resume-relates R (err e) f s here step = here

-- A result that is known to be there.
pub resume-of_ok :
    {S A B : Type 0} (P : S → Type 0) (r : Result A) (f : A → Exec S B) (s : S) {a : A}
    → r ≡ ok a
    → ((b : A) → P (f b s).1)
    → P (resume r f s).1
resume-of_ok P (ok b) f s h step = step b
resume-of_ok P (err e) f s h step = absurd (cc)

-- `m` keeps `P` of the object, whether it returns or raises.
pub record Keeps {S A : Type 0} (P : S → Type 0) (m : Exec S A) : Type 0 where
  pub at : (s : S) → P s → P (m s).1

pub Keeps-pure : {S A : Type 0} {P : S → Type 0} (a : A) → Keeps {A = A} P (pure a)
Keeps-pure a = record { at = λ s h. h }

pub Keeps-raise : {S A : Type 0} {P : S → Type 0} (e : Error) → Keeps {A = A} P (raise e)
Keeps-raise e = record { at = λ s h. h }

pub Keeps-lift : {S A : Type 0} {P : S → Type 0} (r : Result A) → Keeps {A = A} P (lift r)
Keeps-lift r = record { at = λ s h. h }

pub Keeps-gets : {S A : Type 0} {P : S → Type 0} (f : S → A) → Keeps {A = A} P (gets f)
Keeps-gets f = record { at = λ s h. h }

pub Keeps-resume :
    {S A B : Type 0} {P : S → Type 0} (r : Result A) (f : A → Exec S B)
    → ((a : A) → Keeps P (f a))
    → Keeps P (resume r f)
Keeps-resume (ok a) f k = record { at = (k a).at }
Keeps-resume (err e) f k = record { at = λ s h. h }

pub Keeps-bind :
    {S A B : Type 0} {P : S → Type 0} (m : Exec S A) (f : A → Exec S B)
    → Keeps P m
    → ((a : A) → Keeps P (f a))
    → Keeps P (m >>= f)
Keeps-bind m f k l = record {
  at = λ s h. let (r, s') = m s in (Keeps-resume r f l).at s' (k.at s h);
}
