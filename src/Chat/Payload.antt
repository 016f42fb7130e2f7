-- ===== src/Chat/Payload.antt =====
-- app/schemas.py, app/proxy/openai_compatible.py and app/masking/media_guard.py: the request as a
-- dict, the instruction that is added to it, and the refusal of media.
use maskgate.Base.{
  Bool, List, Option, Result, Text, [], codes, contains, dedupe, err, false, if◌then◌else◌, list_eq,
  map, nat_eq, none, not, ok, option_eq, pair_eq, select, some, suc, type_error, unsafe_media, zero,
  ℕ, ◌&&◌, ◌++◌, ◌==◌, ◌∷◌,
}
use maskgate.Json.{Json, Items, Fields, get_field}
use maskgate.Unicode.{Unicode}
use maskgate.Vault.{MappingItem}
use maskgate.PolicyV2.{PathPart}

-- `ChatMessage`, with the fields that the schema does not name
pub record ChatMessage : Type 0 where
  pub role : Text
  pub content : Json
  pub extra : Fields

-- `ChatCompletionRequest`
pub record ChatRequest : Type 0 where
  pub model : Text
  pub messages : List ChatMessage
  pub stream : Bool
  pub masking_mode : Option Text
  pub conversation_id : Option Text
  pub extra : Fields

abbrev pub text_or_null : Option Text → Json
text_or_null none = Json.null
text_or_null (some s) = Json.string s

unfoldable pub dump_message : ChatMessage → Json
dump_message m = Json.object (
    Fields.field (codes "role") (Json.string m.role)
      (Fields.field (codes "content") m.content m.extra))

unfoldable pub dump_messages : List ChatMessage → Items
unfolding dump_message
dump_messages [] = Items.nil
dump_messages (m ∷ ms) = Items.cons (dump_message m) (dump_messages ms)

-- `request_to_payload`
unfoldable pub request_to_payload : ChatRequest → Fields
unfolding dump_messages
request_to_payload r = Fields.field (codes "model") (Json.string r.model) (
    Fields.field (codes "messages") (Json.array (dump_messages r.messages)) (
      Fields.field (codes "stream") (Json.boolean r.stream) (
        Fields.field (codes "masking_mode") (text_or_null r.masking_mode)
          (Fields.field (codes "conversation_id") (text_or_null r.conversation_id) r.extra))))

-- `d.pop(key, None)`
unfoldable pub pop_field : Text → Fields → Fields
pop_field key Fields.end = Fields.end
pop_field key (Fields.field k v fs) =
    let rest = pop_field key fs in if k == key then rest else Fields.field k v rest

-- `d[key] = v`
unfoldable pub set_field : Text → Json → Fields → Fields
set_field key v Fields.end = Fields.field key v Fields.end
set_field key v (Fields.field k w fs) =
    let rest = set_field key v fs in if k == key then Fields.field k v fs else Fields.field k w rest

-- `d.update(changes)`
unfoldable pub update : Fields → Fields → Fields
unfolding set_field
update fs Fields.end = fs
update fs (Fields.field k v changes) = update (set_field k v fs) changes

-- The two `pop`s behind `request_to_payload`.
unfoldable pub local_free_payload : ChatRequest → Fields
unfolding request_to_payload pop_field
local_free_payload r =
    pop_field (codes "conversation_id") (pop_field (codes "masking_mode") (request_to_payload r))

-- `payload.get("messages", [])` where the messages are read as a list.
abbrev pub as_messages : Option Json → Result Items
as_messages none = ok Items.nil
as_messages (some (Json.array xs)) = ok xs
as_messages (some _) = err type_error

unfoldable pub messages_of : Fields → Result Items
messages_of payload = as_messages (get_field (codes "messages") payload)

module _ (u : Unicode) (str : Json → Text) where
  -- `str(part.get("type", ""))`; `str` is Python's, on values that are no texts.
  unfoldable pub part_type : Fields → Text
  part_type part = elim (get_field (codes "type") part) [
    | none ↦ []
    | some (Json.string s) ↦ s
    | some value ↦ str value
  ]

  unfoldable pub reject_part : Json → Result (Unit {0})
  unfolding part_type
  reject_part (Json.object part) =
      if contains (u.casefold (part_type part)) (
        codes "image"
        ∷ codes "image_url"
        ∷ codes "input_image"
        ∷ codes "screen"
        ∷ codes "screenshot"
        ∷ [])
      then err (unsafe_media (u.casefold (part_type part)))
      else ok tt
  reject_part _ = ok tt

  abbrev pub then_next : Result (Unit {0}) → Result (Unit {0}) → Result (Unit {0})
  then_next (err e) rest = err e
  then_next (ok _) rest = rest

  unfoldable pub reject_parts : Items → Result (Unit {0})
  unfolding reject_part
  reject_parts Items.nil = ok tt
  reject_parts (Items.cons part parts) = then_next (reject_part part) (reject_parts parts)

  unfoldable pub reject_content : Option Json → Result (Unit {0})
  unfolding reject_parts
  reject_content none = ok tt
  reject_content (some (Json.array parts)) = reject_parts parts
  reject_content (some value) = reject_part value

  unfoldable pub reject_messages : Items → Result (Unit {0})
  unfolding reject_content
  reject_messages Items.nil = ok tt
  reject_messages (Items.cons (Json.object message) rest) =
      then_next (reject_content (get_field (codes "content") message)) (reject_messages rest)
  reject_messages (Items.cons _ rest) = reject_messages rest

  -- `reject_unsanitized_media`
  unfoldable pub reject_unsanitized_media : Fields → Result (Unit {0})
  unfolding messages_of reject_messages
  reject_unsanitized_media payload = elim (messages_of payload) [
    | ok messages ↦ reject_messages messages
    | err e ↦ err e
  ]

-- The replacements that the instruction names.
unfoldable pub instructed : List MappingItem → List Text
instructed items = dedupe (
    map (λ (i : MappingItem). i.replacement)
      (select (λ (i : MappingItem). i.restore && not (i.replacement == [])) items))

-- `", ".join(replacements)`
unfoldable pub join_comma : List Text → Text
join_comma [] = []
join_comma (t ∷ []) = t
join_comma (t ∷ s ∷ ts) = t ++ (codes ", " ++ join_comma (s ∷ ts))

unfoldable pub instruction_text : List Text → Text
unfolding join_comma
instruction_text replacements =
    codes
      "MaskGate privacy instruction: the following tokens represent masked values from the user's request: "
    ++ (join_comma replacements
        ++ codes
            ". Preserve these tokens exactly when referring to the same values. Do not decode, reconstruct, or invent the original values, and do not change token spelling, case, digits, or punctuation.")

unfoldable pub instruction : List Text → Json
unfolding instruction_text
instruction replacements = Json.object (
    Fields.field (codes "role") (Json.string (codes "system"))
      (Fields.field (codes "content") (Json.string (instruction_text replacements)) Fields.end))

-- `message.get("role") == "system"`, for a message that is a dict
abbrev pub is_system_role : Option Json → Bool
is_system_role (some (Json.string r)) = r == codes "system"
is_system_role _ = false

-- The `while` and the `insert` behind it.
abbrev pub cons_result : Json → Result Items → Result Items
cons_result x (ok xs) = ok (Items.cons x xs)
cons_result x (err e) = err e

unfoldable pub insert_instruction : Json → Items → Result Items
insert_instruction new Items.nil = ok (Items.cons new Items.nil)
insert_instruction new (Items.cons (Json.object m) rest) =
    let later = cons_result (Json.object m) (insert_instruction new rest) in
    if is_system_role (get_field (codes "role") m)
    then later
    else ok (Items.cons new (Items.cons (Json.object m) rest))
insert_instruction new (Items.cons _ rest) = err type_error

abbrev pub with_messages : Fields → Result Items → Result Fields
with_messages payload (ok messages) =
    ok (set_field (codes "messages") (Json.array messages) payload)
with_messages payload (err e) = err e

abbrev pub inserted : Json → Result Items → Result Items
inserted new (ok messages) = insert_instruction new messages
inserted new (err e) = err e

-- `add_masking_instruction`
unfoldable pub add_masking_instruction : Fields → List MappingItem → Result Fields
unfolding instructed instruction insert_instruction messages_of set_field
add_masking_instruction payload items =
    if instructed items == []
    then ok payload
    else with_messages payload (inserted (instruction (instructed items)) (messages_of payload))

-- `_role_for_path`, on the path from its start.
abbrev pub item_of_list : ℕ → Items → Option Json
item_of_list n Items.nil = none
item_of_list zero (Items.cons x xs) = some x
item_of_list (suc n) (Items.cons x xs) = item_of_list n xs

abbrev pub role_of : Option Json → Option Text
role_of (some (Json.object m)) = elim (get_field (codes "role") m) [
  | some (Json.string r) ↦ some r
  | _ ↦ none
]
role_of _ = none

abbrev pub role_at : ℕ → Option Json → Option Text
role_at n (some (Json.array messages)) = role_of (item_of_list n messages)
role_at n _ = none

unfoldable pub role_for_path : Fields → List PathPart → Option Text
role_for_path payload (PathPart.key k ∷ PathPart.index n ∷ path) =
    if k == codes "messages" then role_at n (get_field (codes "messages") payload) else none
role_for_path payload _ = none
