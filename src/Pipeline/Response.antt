-- ===== src/Pipeline/Response.antt =====
-- app/providers/openai_chat.py: the shape of a successful response. The messages of the exception are
-- left out.
use maskgate.Base.{
  Bool, Result, adapter_error, codes, err, false, if◌then◌else◌, list_eq, nat_eq, none, not, ok,
  option_eq, pair_eq, some, true, ◌&&◌, ◌==◌, ◌||◌,
}
use Prim.Native.String.{String}
use maskgate.Json.{Json, Items, Fields, get_field}

abbrev pub refuse_unless : Bool → Result (Unit {0})
refuse_unless good = if good then ok tt else err adapter_error

abbrev pub and_also : Result (Unit {0}) → Result (Unit {0}) → Result (Unit {0})
and_also (err e) rest = err e
and_also (ok _) rest = rest

-- `d.get(key)`, where a missing key and a null value are one.
unfoldable pub entry_of : String → Fields → Json
entry_of key fs = elim (get_field (codes key) fs) [ none ↦ Json.null | some v ↦ v ]

abbrev pub is_null : Json → Bool
is_null Json.null = true
is_null _ = false

abbrev pub is_string : Json → Bool
is_string (Json.string s) = true
is_string _ = false

abbrev pub is_array : Json → Bool
is_array (Json.array xs) = true
is_array _ = false

abbrev pub equals_text : String → Json → Bool
equals_text s (Json.string t) = t == codes s
equals_text s _ = false

-- `expect_object` and `expect_list`, with what is done with the value.
abbrev pub with_object : (Fields → Result (Unit {0})) → Json → Result (Unit {0})
with_object f (Json.object fs) = f fs
with_object f _ = err adapter_error

abbrev pub with_list : (Items → Result (Unit {0})) → Json → Result (Unit {0})
with_list f (Json.array xs) = f xs
with_list f _ = err adapter_error

unfoldable pub check_each : (Json → Result (Unit {0})) → Items → Result (Unit {0})
check_each f Items.nil = ok tt
check_each f (Items.cons x xs) = and_also (f x) (check_each f xs)

-- `_validate_response_function`
unfoldable pub check_function : Json → Result (Unit {0})
unfolding entry_of
check_function =
    with_object
      λ fs. refuse_unless (is_string (entry_of "name" fs) && is_string (entry_of "arguments" fs))

unfoldable pub check_tool_call : Json → Result (Unit {0})
unfolding entry_of check_function
check_tool_call = with_object λ fs.
    and_also
      (refuse_unless (equals_text "function" (entry_of "type" fs) && is_string (entry_of "id" fs)))
      (check_function (entry_of "function" fs))

unfoldable pub check_message : Fields → Result (Unit {0})
unfolding entry_of check_function check_tool_call check_each
check_message fs =
    let content = entry_of "content" fs in
    let tool_calls = entry_of "tool_calls" fs in
    let function_call = entry_of "function_call" fs in
    let refusal = entry_of "refusal" fs in
    and_also (refuse_unless (equals_text "assistant" (entry_of "role" fs))) (
      and_also (refuse_unless (is_null content || is_string content || is_array content)) (
        and_also
          (refuse_unless (
            not
              (is_null content && is_null tool_calls && is_null function_call && is_null refusal)))
          (and_also (refuse_unless (is_null refusal || is_string refusal)) (
            and_also (if is_null function_call then ok tt else check_function function_call) (
              if is_null tool_calls
              then ok tt
              else with_list (check_each check_tool_call) tool_calls)))))

unfoldable pub check_choice : Json → Result (Unit {0})
unfolding entry_of check_message
check_choice = with_object λ fs. with_object check_message (entry_of "message" fs)

abbrev pub is_empty_list : Items → Bool
is_empty_list Items.nil = true
is_empty_list _ = false

-- `validate_chat_completion_response`
unfoldable pub validate_chat_completion_response : Json → Result (Unit {0})
unfolding entry_of check_choice check_each
validate_chat_completion_response = with_object λ fs.
    with_list
      (λ choices.
        if is_empty_list choices then err adapter_error else check_each check_choice choices)
      (entry_of "choices" fs)
