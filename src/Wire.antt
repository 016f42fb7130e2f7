-- ===== src/Wire.antt =====
-- app/privacy/wire.py: the last check of the very body that is sent to a provider. The messages of
-- the exceptions, and the paths in them, are left out.
mod Syntax
pub mod Laws
pub mod Checked
pub mod Depth
pub mod Raised
use maskgate.Base.{
  Bool, Error, List, Option, Result, Text, [], any, codes, contains, err, false, if◌then◌else◌,
  is_substring, json_decode_error, leb, length, list_eq, ltb, map, nat_eq, none, not, ok, option_eq,
  pair_eq, recursion, replace, reverse, some, starts_with, suc, true, type_error, unicode_error,
  utf8_size, value_error, wire_violation, zero, ℕ, ◌&&◌, ◌*◌, ◌==◌, ◌||◌, ◌∷◌,
}
unfoldable pub use Syntax.*
use maskgate.Json.{Json, Items, Fields}
use maskgate.Unicode.{Unicode, strip}
use maskgate.Pattern.{fullmatch, find_all, search_in}
use maskgate.PolicyV2.{PathPart}
use maskgate.Session.{Entity, opaque_pattern}
use maskgate.OutputGuard.{path_keys}

-- `PrivacyCheckedPayload`. Its seal says that only `check` makes one.
pub record PrivacyCheckedPayload : Type 0 where
  pub provider : Text
  pub target : Text
  pub body : Text

abbrev pub common_chat : List (List Text)
common_chat =
    map (λ (k : Text). k ∷ [])
      (codes "frequency_penalty"
        ∷ codes "logprobs"
        ∷ codes "max_completion_tokens"
        ∷ codes "max_tokens"
        ∷ codes "n"
        ∷ codes "presence_penalty"
        ∷ codes "seed"
        ∷ codes "temperature"
        ∷ codes "top_logprobs"
        ∷ codes "top_p"
        ∷ [])

abbrev pub gemini : List (List Text)
gemini =
    map (λ (k : Text). codes "generationConfig" ∷ k ∷ [])
      (codes "candidateCount"
        ∷ codes "maxOutputTokens"
        ∷ codes "temperature"
        ∷ codes "topK"
        ∷ codes "topP"
        ∷ [])

-- `_is_safe_protocol_number`; paths are given from their end.
unfoldable pub is_safe_protocol_number : Text → List PathPart → Bool
is_safe_protocol_number provider path =
    let keys = path_keys (reverse path) in
    if contains provider (
      codes "openai-compatible-chat"
      ∷ codes "openai-chat"
      ∷ codes "openai-chat-completions"
      ∷ codes "mock"
      ∷ codes "custom"
      ∷ [])
    then contains keys common_chat
    else if provider == codes "gemini-generate-content"
    then contains keys gemini
    else false

-- The `for token in approved_tokens` that takes them out. The source runs through a set, whose order
-- Python leaves open; here it is that of the list.
unfoldable pub erase : List Text → Text → Text
erase [] text = text
erase (t ∷ ts) text = erase ts (replace t [] text)

-- `not path or path[-1] != "<key>"`
unfoldable pub is_name : List PathPart → Bool
is_name (PathPart.key k ∷ path) = k == codes "<key>"
is_name _ = false

-- `stripped[:1] in {"{", "["}`
unfoldable pub opens_json : Text → Bool
opens_json [] = false
opens_json (c ∷ s) = c == b'{' || c == b'['

-- `isinstance(value, (dict, list))`
unfoldable pub is_container : Json → Bool
is_container (Json.array xs) = true
is_container (Json.object fs) = true
is_container value = false

-- `len(stripped.encode("utf-8")) > MAX_ENCODED_TEXT_BYTES`, and the empty text
unfoldable pub is_passed_over : Text → Bool
is_passed_over stripped = stripped == [] || ltb (64 * 1024) (utf8_size stripped)

-- `target and (…)`
unfoldable pub is_unsafe_target : Text → Bool
is_unsafe_target target =
    not (target == [])
    && (not (starts_with (codes "/") target)
        || is_substring (codes "..") target
        || contains 13 target
        || contains 10 target
        || ltb 512 (length target))

abbrev pub violation : Bool → Result (Unit {0})
violation bad = if bad then err wire_violation else ok tt

abbrev pub then_check : Result (Unit {0}) → Result (Unit {0}) → Result (Unit {0})
then_check (err e) rest = err e
then_check (ok _) rest = rest

-- What comes from outside: `json.dumps` with the options of the source and the encoding of what it
-- returns, `json.loads`, `urllib.parse.unquote`, and the exception that the guard's detector raises
-- on a text, if it raises one.
pub record Codec : Type 0 where
  pub dumps : Json → Result Text
  pub loads : Text → Result Json
  pub unquote : Text → Text
  pub detector_error : Text → Option Error

-- Half of a surrogate pair, which no encoding takes. `json.loads` makes some from escapes.
abbrev pub is_surrogate : ℕ → Bool
is_surrogate c = leb 55296 c && leb c 57343

-- The exception of `stripped.encode("utf-8")`
unfoldable pub encodable : Text → Result (Unit {0})
encodable s = if any is_surrogate s then err unicode_error else ok tt

-- `except json.JSONDecodeError` lets other exceptions pass.
abbrev pub unless_decode_error : Error → Result (Unit {0})
unless_decode_error json_decode_error = ok tt
unless_decode_error e = err e

-- `except (TypeError, ValueError, UnicodeError, json.JSONDecodeError)`
unfoldable pub not_canonical : Error → Error
not_canonical type_error = wire_violation
not_canonical value_error = wire_violation
not_canonical unicode_error = wire_violation
not_canonical json_decode_error = wire_violation
not_canonical e = e

module _ (u : Unicode) (codec : Codec) (detect : Text → List Entity) where
  module _ (tokens values : List Text) where
    -- The two loops at the head of `_inspect`.
    abbrev pub is_foreign : Text → Bool
    is_foreign token = not (contains token tokens)

    abbrev pub is_unapproved : Entity → Bool
    is_unapproved e = not (contains e.text values)

    -- `for entity in self.detector.detect(text)`
    unfoldable pub vet : Text → Result (Unit {0})
    vet text = elim (codec.detector_error text) [
      | some e ↦ err e
      | none ↦ violation (any is_unapproved (detect text))
    ]

    unfoldable pub inspect_text : Text → Result (Unit {0})
    unfolding vet
    inspect_text text =
        then_check (violation (any is_foreign (find_all opaque_pattern text))) (vet text)

    -- The loop over `decoded_views`.
    unfoldable pub inspect_decoded : Text → Text → Result (Unit {0})
    unfolding vet
    inspect_decoded stripped decoded = if decoded == stripped then ok tt else vet decoded

    unfoldable pub inspect_percent : Text → Result (Unit {0})
    unfolding inspect_decoded
    inspect_percent stripped =
        if leb 2 (length (find_all percent_pattern stripped))
        then inspect_decoded stripped (codec.unquote stripped)
        else ok tt

    unfoldable pub inspect_escapes : Text → Result (Unit {0})
    unfolding inspect_decoded
    inspect_escapes stripped =
        if search_in unicode_escape_pattern stripped
        then inspect_decoded stripped (unescape stripped)
        else ok tt

    -- `nested` is the inspection of a JSON value that a text spells.
    module _ (nested : List PathPart → Json → Result (Unit {0})) where
      unfoldable pub inspect_json : Text → List PathPart → Result (Unit {0})
      inspect_json stripped path =
          if opens_json stripped
          then elim (codec.loads stripped) [
            | err e ↦ unless_decode_error e
            | ok value ↦
                if is_container value
                then nested (PathPart.key (codes "<encoded-json>") ∷ path) value
                else ok tt
          ]
          else ok tt

      -- `_inspect_encoded`
      unfoldable pub inspect_encoded : Text → List PathPart → Result (Unit {0})
      unfolding inspect_json inspect_percent inspect_escapes is_passed_over encodable
      inspect_encoded text path =
          let stripped = strip u text in
          then_check (encodable stripped) (
            if is_passed_over stripped
            then ok tt
            else then_check
                (violation (is_base64_content stripped || fullmatch hex_pattern stripped))
                (then_check (inspect_json stripped path)
                  (then_check (inspect_percent stripped) (inspect_escapes stripped))))

      unfoldable pub inspect_string : List PathPart → Text → Result (Unit {0})
      unfolding inspect_text inspect_encoded
      inspect_string path text =
          then_check (inspect_text text)
            (if is_name path then ok tt else inspect_encoded (erase tokens text) path)

      -- `_inspect` of one JSON value
      module _ (provider : Text) where
        unfoldable mutual
          unfolding inspect_string

          pub inspect_value : List PathPart → Json → Result (Unit {0})
          inspect_value path Json.null = ok tt
          inspect_value path (Json.boolean b) = ok tt
          inspect_value path (Json.integer n) =
              violation (not (is_safe_protocol_number provider path))
          inspect_value path (Json.float n) =
              violation (not (is_safe_protocol_number provider path))
          inspect_value path (Json.string s) = inspect_string path s
          inspect_value path (Json.array xs) = inspect_items path 0 xs
          inspect_value path (Json.object fs) = inspect_fields path fs

          pub inspect_items : List PathPart → ℕ → Items → Result (Unit {0})
          inspect_items path n Items.nil = ok tt
          inspect_items path n (Items.cons x xs) =
              then_check (inspect_value (PathPart.index n ∷ path) x) (inspect_items path (suc n) xs)

          pub inspect_fields : List PathPart → Fields → Result (Unit {0})
          inspect_fields path Fields.end = ok tt
          inspect_fields path (Fields.field k v fs) =
              then_check (inspect_string (PathPart.key (codes "<key>") ∷ path) k)
                (then_check (inspect_value (PathPart.key k ∷ path) v) (inspect_fields path fs))

    -- `_inspect`, through at most `depth` texts that spell JSON values, one inside the other.
    unfoldable pub inspect_wire : ℕ → Text → List PathPart → Json → Result (Unit {0})
    unfolding inspect_value
    inspect_wire zero provider = inspect_value (λ path value. err recursion) provider
    inspect_wire (suc depth) provider =
        inspect_value (inspect_wire depth (codes "encoded-json")) provider

  -- `check`, behind the two conversions.
  unfoldable pub check_actual :
      Text → Text → Text → List Text → List Text → Result Json → Result PrivacyCheckedPayload
  unfolding not_canonical
  check_actual provider target body tokens values (ok (Json.object fs)) =
      elim (inspect_wire tokens values (length body) provider [] (Json.object fs)) [
        | err e ↦ err e
        | ok _ ↦ ok (record { provider = provider; target = target; body = body })
      ]
  check_actual provider target body tokens values (ok value) = err wire_violation
  check_actual provider target body tokens values (err e) = err (not_canonical e)

  -- `FinalWirePrivacyGuard.check`
  unfoldable pub check : Text → Text → Json → List Text → List Text → Result PrivacyCheckedPayload
  unfolding check_actual is_unsafe_target not_canonical
  check provider target payload tokens values =
      if is_unsafe_target target then err wire_violation else elim (codec.dumps payload) [
        | err e ↦ err (not_canonical e)
        | ok body ↦ check_actual provider target body tokens values (codec.loads body)
      ]

  -- `PrivacyCheckedPayload.payload`
  unfoldable pub payload_of : PrivacyCheckedPayload → Result Json
  payload_of checked = elim (codec.loads checked.body) [
    | ok (Json.object fs) ↦ ok (Json.object fs)
    | ok value ↦ err type_error
    | err e ↦ err e
  ]
