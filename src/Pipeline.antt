-- ===== src/Pipeline.antt =====
-- app/privacy/pipeline.py: the way of a payload to the provider, and of its answer back.
pub mod Response
pub mod Laws
use maskgate.Base.{
  Bool, List, Option, Result, Text, [], adapter_error, codes, err, false, if◌then◌else◌,
  invalid_output, list_eq, ltb, map, nat_eq, none, not, ok, option_eq, pair_eq, select, some, true,
  wire_violation, ℕ, ◌++◌, ◌==◌,
}
use maskgate.Json.{Json, Items, Fields}
use maskgate.Unicode.{Unicode}
use maskgate.Pattern.{fullmatch}
use maskgate.Vault.{MappingItem}
use maskgate.Session.{Session, Entity, opaque_pattern}
use maskgate.Wire.{PrivacyCheckedPayload, Codec, check, payload_of}
use maskgate.OutputGuard.{process}
use maskgate.Pipeline.Response.{validate_chat_completion_response}

-- The two adapters, where both are there: `C` is a canonical request.
pub record Adapters (C : Type 0) : Type 0 where
  pub from_wire : Fields → Result C
  pub is_stream : C → Bool
  pub to_wire : C → Result Json
  pub egress_name : Text

-- `upstream`: `prepare_request` gives provider, target and wire payload, where it is there.
pub record Upstream : Type 0 where
  pub prepare_request : Option (Fields → Bool → Result (Text × Text × Json))
  pub accepts_checked_payload : Bool

-- What `upstream.complete` gets: the checked payload, or the dict that its body spells.
pub data Argument : Type 0 where
  checked_body : PrivacyCheckedPayload → Argument
  plain_dict : Json → Argument

-- A response of a provider.
pub record Reply : Type 0 where
  pub status_code : ℕ
  pub payload : Json

abbrev pub bool_eq : Bool → Bool → Bool
bool_eq true b = b
bool_eq false b = not b

-- The `except ProviderAdapterError` of `prepare`.
abbrev pub refused_by_adapter : {A : Type 0} → Result A → Result A
refused_by_adapter (err adapter_error) = err wire_violation
refused_by_adapter r = r

-- The `except ProviderAdapterError` of `complete`.
abbrev pub invalid_response : Result (Unit {0}) → Result (Unit {0})
invalid_response (err adapter_error) = err (invalid_output (codes "upstream_invalid_response"))
invalid_response r = r

-- `{item.replacement for item in session.items}`
abbrev pub replacements_of : Session → List Text
replacements_of s = map (λ (i : MappingItem). i.replacement) s.vault.items

abbrev pub is_token : Text → Bool
is_token = fullmatch opaque_pattern

abbrev pub approved_tokens : Session → List Text
approved_tokens s = select is_token (replacements_of s)

abbrev pub approved_values : Session → List Text → List Text
approved_values s allowed = select (λ r. not (is_token r)) (replacements_of s) ++ allowed

module _ {C : Type 0} (upstream : Upstream) (provider_name : Text)
    (adapters : Option (Adapters C)) where
  -- `elif hasattr(self.upstream, "prepare_request")` and the `else` behind it
  unfoldable pub from_upstream : Fields → Bool → Result (Text × Text × Json)
  from_upstream payload stream = elim upstream.prepare_request [
    | some prepare ↦ prepare payload stream
    | none ↦
        ok (if provider_name == [] then codes "custom" else provider_name, [], Json.object payload)
  ]

  abbrev pub target_of : Result (Text × Text × Json) → Result Text
  target_of (ok (provider, target, wire)) = ok target
  target_of (err e) = err e

  unfoldable pub adapter_target : Fields → Bool → Result Text
  adapter_target payload stream = elim upstream.prepare_request [
    | some prepare ↦ target_of (prepare payload stream)
    | none ↦ ok []
  ]

  abbrev pub with_target : Text → Json → Result Text → Result (Text × Text × Json)
  with_target name wire (ok target) = ok (name, target, wire)
  with_target name wire (err e) = err e

  abbrev pub serialized : Adapters C → Fields → Bool → Result Json → Result (Text × Text × Json)
  serialized a payload stream (ok wire) =
      with_target a.egress_name wire (adapter_target payload stream)
  serialized a payload stream (err e) = err e

  -- The first branch of `prepare`, behind `from_wire`.
  unfoldable pub from_canonical :
      Adapters C → Fields → Bool → Result C → Result (Text × Text × Json)
  unfolding adapter_target
  from_canonical a payload stream (err e) = err e
  from_canonical a payload stream (ok c) =
      if bool_eq (a.is_stream c) stream
      then serialized a payload stream (a.to_wire c)
      else err adapter_error

  -- The `try` of `prepare`: provider, target and wire payload.
  unfoldable pub to_provider : Fields → Bool → Result (Text × Text × Json)
  unfolding from_upstream from_canonical
  to_provider payload stream = elim adapters [
    | some a ↦ from_canonical a payload stream (a.from_wire payload)
    | none ↦ from_upstream payload stream
  ]

  module _ (u : Unicode) (codec : Codec) (detect : Text → List Entity) where
    abbrev pub guarded :
        Session → List Text → Result (Text × Text × Json) → Result PrivacyCheckedPayload
    guarded s allowed (err e) = err e
    guarded s allowed (ok (provider, target, wire)) =
        check u codec detect provider target wire (approved_tokens s) (approved_values s allowed)

    -- `prepare`
    unfoldable pub prepare : Fields → Session → List Text → Bool → Result PrivacyCheckedPayload
    unfolding to_provider
    prepare payload s allowed stream =
        guarded s allowed (refused_by_adapter (to_provider payload stream))

    -- The argument of `upstream.complete`
    unfoldable pub argument_of : PrivacyCheckedPayload → Result Argument
    argument_of c =
        if upstream.accepts_checked_payload
        then ok (checked_body c)
        else elim (payload_of u codec detect c) [ ok value ↦ ok (plain_dict value) | err e ↦ err e ]

    -- `complete`, behind the provider's answer
    unfoldable pub checked_reply : Reply → Result Reply
    checked_reply r =
        if ltb r.status_code 400
        then elim (invalid_response (validate_chat_completion_response r.payload)) [
          | ok _ ↦ ok r
          | err e ↦ err e
        ]
        else ok r

    -- `process_output`
    abbrev pub process_output : Json → List MappingItem → Result Json
    process_output payload mapping = process detect mapping payload
