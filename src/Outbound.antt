-- ===== src/Outbound.antt =====
-- app/proxy/outbound_sanitizer.py: every text of a payload is masked, but for the identifiers of the
-- protocol, which must come through unchanged.
pub mod Laws
pub mod Keys
pub mod Kept
use maskgate.Base.{
  Bool, Exec, List, Option, Result, Text, [], codes, contains, decimal, err, if◌then◌else◌, leb,
  length, lift, list_eq, nat_eq, none, not, ok, option_eq, pair_eq, pure, raise, recursion, reverse,
  some, suc, unsafe_protocol, zero, ℕ, ◌++◌, ◌==◌, ◌>>=◌, ◌||◌, ◌∷◌,
}
use Prim.Native.String.{String}
use maskgate.Json.{Json, Items, Fields, has_field, append_field}
use maskgate.Pattern.{Pattern, one, repeated, followed, fullmatch}
use maskgate.PolicyV2.{PathPart}
use maskgate.OutputGuard.{path_keys}
use maskgate.Wire.{is_alphanumeric}

-- `IDENTIFIER_PATTERN` and `MODEL_PATTERN`
abbrev pub is_identifier_char : ℕ → Bool
is_identifier_char c = is_alphanumeric c || c == b'.' || c == b'_' || c == b':' || c == b'-'

abbrev pub identifier_pattern : Pattern
identifier_pattern = followed (one is_alphanumeric) (repeated 0 (some 127) (one is_identifier_char))

abbrev pub model_pattern : Pattern
model_pattern =
    followed (one is_alphanumeric)
      (repeated 0 (some 255) (one (λ c. is_identifier_char c || c == b'/')))

-- A path of keys as the source writes it.
abbrev pub keys1 : String → List Text
keys1 a = codes a ∷ []

abbrev pub keys2 : String → String → List Text
keys2 a b = codes a ∷ codes b ∷ []

abbrev pub keys3 : String → String → String → List Text
keys3 a b c = codes a ∷ codes b ∷ codes c ∷ []

abbrev pub call_name : List Text
call_name = codes "messages" ∷ codes "tool_calls" ∷ codes "function" ∷ codes "name" ∷ []

-- `_is_protocol_string`, on the keys of the path
unfoldable pub is_protocol_string : List Text → Bool
is_protocol_string keys =
    keys == keys1 "model"
    || contains keys (
        keys1 "modalities"
        ∷ keys1 "reasoning_effort"
        ∷ keys1 "service_tier"
        ∷ keys2 "audio" "format"
        ∷ keys2 "audio" "voice"
        ∷ keys2 "response_format" "type"
        ∷ keys2 "messages" "role"
        ∷ keys2 "messages" "tool_call_id"
        ∷ keys3 "messages" "content" "type"
        ∷ keys3 "messages" "tool_calls" "id"
        ∷ keys3 "messages" "tool_calls" "type"
        ∷ call_name
        ∷ keys2 "tools" "type"
        ∷ keys3 "tools" "function" "name"
        ∷ keys2 "functions" "name"
        ∷ [])

-- `_is_valid_protocol_string`
unfoldable pub is_valid_protocol_string : List Text → Text → Bool
is_valid_protocol_string keys value =
    if keys == keys1 "model"
    then fullmatch model_pattern value
    else if keys == keys2 "messages" "role"
    then contains value (
        codes "assistant"
        ∷ codes "developer"
        ∷ codes "function"
        ∷ codes "system"
        ∷ codes "tool"
        ∷ codes "user"
        ∷ [])
    else if contains keys (keys3 "messages" "tool_calls" "type" ∷ keys2 "tools" "type" ∷ [])
    then value == codes "function"
    else if contains keys (
        keys2 "messages" "tool_call_id"
        ∷ keys3 "messages" "tool_calls" "id"
        ∷ call_name
        ∷ keys3 "tools" "function" "name"
        ∷ keys2 "functions" "name"
        ∷ [])
    then fullmatch identifier_pattern value
    else if keys == keys2 "response_format" "type"
    then contains value (codes "json_object" ∷ codes "json_schema" ∷ codes "text" ∷ [])
    else leb (length value) 256

-- `f"{base_key}__MGKEY_{suffix}"`
abbrev pub numbered_key : Text → ℕ → Text
numbered_key base suffix = base ++ (codes "__MGKEY_" ++ decimal suffix)

-- The `while` that looks for a free key, at most `fuel` times.
unfoldable pub free_key : ℕ → ℕ → Text → Fields → Option Text
free_key zero suffix base done = none
free_key (suc fuel) suffix base done =
    let rest = free_key fuel (suc suffix) base done in
    if has_field (numbered_key base suffix) done then rest else some (numbered_key base suffix)

-- `len(d)`
unfoldable pub field_count : Fields → ℕ
field_count Fields.end = 0
field_count (Fields.field k v fs) = suc (field_count fs)

-- The key under which a value is stored.
unfoldable pub stored_key : Text → Fields → Result Text
unfolding free_key field_count
stored_key key done =
    if has_field key done
    then elim (free_key (suc (field_count done)) 2 key done) [
      | none ↦ err recursion
      | some k ↦ ok k
    ]
    else ok key

-- `transform`, with paths from their end: `mask_text_at_path`, or `mask_text` whatever the path is.
module _ {S : Type 0} (mask : List PathPart → Text → Exec S Text) (validate : Bool) where
  unfoldable pub checked_string : List Text → Text → Text → Exec S Text
  checked_string keys value masked =
      if not validate
      then pure masked
      else if not (masked == value) || not (is_valid_protocol_string keys value)
      then raise unsafe_protocol
      else pure value

  unfoldable pub judged_string : List Text → Text → Text → Exec S Text
  unfolding checked_string
  judged_string keys value masked =
      if is_protocol_string keys then checked_string keys value masked else pure masked

  unfoldable pub sanitize_string : List PathPart → Text → Exec S Text
  unfolding judged_string
  sanitize_string path value = do
    masked ← mask path value
    judged_string (path_keys (reverse path)) value masked

  -- `_sanitize_value`; `done` is what the new dict holds so far.
  unfoldable mutual
    unfolding sanitize_string stored_key

    pub sanitize_value : List PathPart → Json → Exec S Json
    sanitize_value path (Json.string s) = do t ← sanitize_string path s; pure (Json.string t)
    sanitize_value path (Json.array xs) = do ys ← sanitize_items path 0 xs; pure (Json.array ys)
    sanitize_value path (Json.object fs) = do
      gs ← sanitize_fields path Fields.end fs
      pure (Json.object gs)
    sanitize_value path value = pure value

    pub sanitize_items : List PathPart → ℕ → Items → Exec S Items
    sanitize_items path n Items.nil = pure Items.nil
    sanitize_items path n (Items.cons x xs) = do
      y ← sanitize_value (PathPart.index n ∷ path) x
      ys ← sanitize_items path (suc n) xs
      pure (Items.cons y ys)

    pub sanitize_fields : List PathPart → Fields → Fields → Exec S Fields
    sanitize_fields path done Fields.end = pure done
    sanitize_fields path done (Fields.field k v fs) = do
      masked ← mask (PathPart.key (codes "<key>") ∷ path) k
      key ← lift (stored_key masked done)
      w ← sanitize_value (PathPart.key k ∷ path) v
      sanitize_fields path (append_field key w done) fs

  -- `sanitize_outbound_payload`: a payload is a dict.
  unfoldable pub sanitize_outbound_payload : Fields → Exec S Fields
  unfolding sanitize_fields
  sanitize_outbound_payload payload = sanitize_fields [] Fields.end payload
