-- ===== src/OutputGuard.antt =====
-- app/privacy/output_guard.py: what comes back from a provider is inspected, restored where that is
-- authorized, and inspected again.
pub mod Laws
use maskgate.Base.{
  Bool, List, Result, Text, [], codes, contains, err, if◌then◌else◌, list_eq, map, nat_eq, ok,
  option_eq, pair_eq, replace, reverse, select, suc, ℕ, ◌++◌, ◌∷◌,
}
use maskgate.Json.{Json, Items, Fields, append_field}
use maskgate.Pattern.{find_all}
use maskgate.PolicyV2.{PathPart}
use maskgate.Session.{Entity, Edit, apply_edits, opaque_pattern}
use maskgate.Rehydrate.{rehydrate, rehydrate_text, transform, cons_item, as_array, as_object}
use maskgate.Vault.{MappingItem}

abbrev pub provider_token : Text
provider_token = codes "[REDACTED_PROVIDER_TOKEN]"

-- `{item.replacement for item in mapping if item.restore}`, and the same of originals
abbrev pub approved_replacements : List MappingItem → List Text
approved_replacements mapping =
    map (λ (i : MappingItem). i.replacement) (select (λ i. i.restore) mapping)

abbrev pub approved_originals : List MappingItem → List Text
approved_originals mapping = map (λ (i : MappingItem). i.original) (select (λ i. i.restore) mapping)

-- `_redact_unrestored_tokens`. The source runs through a set, whose order Python leaves open; here it
-- is that of the mapping.
unfoldable pub redact_unrestored_tokens : List Text → Text → Text
redact_unrestored_tokens [] text = text
redact_unrestored_tokens (t ∷ ts) text = redact_unrestored_tokens ts (replace t provider_token text)

-- The loop of `_sanitize_provider_text`.
unfoldable pub redact_foreign : List Text → List Text → Text → Text
redact_foreign approved [] text = text
redact_foreign approved (t ∷ ts) text =
    redact_foreign approved ts (if contains t approved then text else replace t provider_token text)

-- `SAFE_PROTOCOL_LITERALS`
abbrev pub is_safe_literal : Text → Bool
is_safe_literal text = contains text (codes "chat.completion" ∷ codes "chat.completion.chunk" ∷ [])

-- The replacements of `_redact_detected`.
unfoldable pub redactions : List Text → List Entity → List Edit
redactions approved [] = []
redactions approved (e ∷ es) =
    let rest = redactions approved es in
    if contains e.text approved
    then rest
    else (e.start, e.stop, codes "[REDACTED_PROVIDER_" ++ e.entity_type ++ codes "]") ∷ rest

-- `_is_authorized_restore_path`, on the keys of the path
abbrev pub path_keys : List PathPart → List Text
path_keys [] = []
path_keys (PathPart.key k ∷ ps) = k ∷ path_keys ps
path_keys (PathPart.index n ∷ ps) = path_keys ps

unfoldable pub is_authorized_restore_path : List PathPart → Bool
is_authorized_restore_path path = contains (path_keys path) (
    (codes "choices" ∷ codes "message" ∷ codes "content" ∷ [])
    ∷ (codes "choices" ∷ codes "message" ∷ codes "function_call" ∷ codes "arguments" ∷ [])
    ∷ (codes "choices"
        ∷ codes "message"
        ∷ codes "tool_calls"
        ∷ codes "function"
        ∷ codes "arguments"
        ∷ [])
    ∷ (codes "output" ∷ codes "content" ∷ codes "text" ∷ [])
    ∷ (codes "content" ∷ codes "text" ∷ [])
    ∷ [])

abbrev pub cons_field : Text → Result Json → Result Fields → Result Fields
cons_field k (err e) rest = err e
cons_field k (ok v) (err e) = err e
cons_field k (ok v) (ok fs) = ok (Fields.field k v fs)

abbrev pub and_then : Result Json → (Json → Result Json) → Result Json
and_then (err e) f = err e
and_then (ok v) f = f v

-- `_restore_authorized`, the path given from its end.
unfoldable mutual
  pub restore_authorized : List MappingItem → List PathPart → Json → Result Json
  restore_authorized mapping path (Json.array xs) =
      let inside = restore_items mapping path 0 xs in
      if is_authorized_restore_path (reverse path)
      then rehydrate (Json.array xs) mapping
      else as_array inside
  restore_authorized mapping path (Json.object fs) =
      let inside = restore_fields mapping path fs in
      if is_authorized_restore_path (reverse path)
      then rehydrate (Json.object fs) mapping
      else as_object inside
  restore_authorized mapping path value =
      if is_authorized_restore_path (reverse path) then rehydrate value mapping else ok value

  pub restore_items : List MappingItem → List PathPart → ℕ → Items → Result Items
  restore_items mapping path n Items.nil = ok Items.nil
  restore_items mapping path n (Items.cons x xs) =
      cons_item (restore_authorized mapping (PathPart.index n ∷ path) x)
        (restore_items mapping path (suc n) xs)

  pub restore_fields : List MappingItem → List PathPart → Fields → Result Fields
  restore_fields mapping path Fields.end = ok Fields.end
  restore_fields mapping path (Fields.field k v fs) =
      cons_field k (restore_authorized mapping (PathPart.key k ∷ path) v)
        (restore_fields mapping path fs)

-- The guard's detector.
module _ (detect : Text → List Entity) where
  -- `_redact_detected`
  unfoldable pub redact_detected : List Text → Text → Text
  unfolding redactions
  redact_detected approved text =
      if is_safe_literal text
      then text
      else apply_edits (reverse (redactions approved (detect text))) text

  -- `_sanitize_provider_text`
  unfoldable pub sanitize_provider_text : List Text → Text → Text
  unfolding redact_foreign redact_detected
  sanitize_provider_text approved text =
      redact_detected approved (redact_foreign approved (find_all opaque_pattern text) text)

  -- `sanitize_for_history`
  unfoldable pub sanitize_for_history : List MappingItem → Json → Result Json
  unfolding sanitize_provider_text
  sanitize_for_history mapping value =
      transform (sanitize_provider_text (approved_replacements mapping)) value

  -- `process`; every step may raise.
  unfoldable pub process : List MappingItem → Json → Result Json
  unfolding sanitize_for_history restore_authorized
  process mapping value = and_then (sanitize_for_history mapping value) (λ sanitized.
      and_then (restore_authorized mapping [] sanitized) (λ restored.
        and_then (transform (redact_unrestored_tokens (approved_replacements mapping)) restored)
          (λ redacted. transform (redact_detected (approved_originals mapping)) redacted)))

  -- `process_authorized_text`
  unfoldable pub process_authorized_text : List MappingItem → Text → Text
  unfolding sanitize_provider_text
  process_authorized_text mapping text =
      redact_detected (approved_originals mapping)
        (rehydrate_text (sanitize_provider_text (approved_replacements mapping) text) mapping)
