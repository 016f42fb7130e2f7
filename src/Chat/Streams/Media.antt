-- ===== src/Chat/Streams/Media.antt =====
-- app/masking/media_guard.py: the exceptions of `reject_unsanitized_media`.
use maskgate.Base.{
  Bool, Option, Result, Text, codes, err, false, if◌then◌else◌, none, ok, refl, some, true,
  unsafe_media, ◌≡◌,
}
use maskgate.Json.{Json, Items, Fields, get_field}
use maskgate.Unicode.{Unicode}
use maskgate.Chat.Payload.{
  then_next, part_type, reject_part, reject_parts, reject_content, reject_messages,
  reject_unsanitized_media, as_messages, messages_of,
}
use maskgate.Chat.Types.{blocked_types}

-- `reject_unsanitized_media` raises no `PolicyBlocked`.
abbrev pub IsOrdinary : Result (Unit {0}) → Type 0
IsOrdinary (ok _) = Unit {0}
IsOrdinary (err e) = blocked_types e ≡ none

kind-IsOrdinary :
    (b : Bool) (kind : Text) → IsOrdinary (if b then err (unsafe_media kind) else ok tt)
unfolding blocked_types
kind-IsOrdinary true kind = refl
kind-IsOrdinary false kind = tt

module _ (u : Unicode) (str : Json → Text) where
  then_next-IsOrdinary :
      (a b : Result (Unit {0})) → IsOrdinary a → IsOrdinary b → IsOrdinary (then_next u str a b)
  then_next-IsOrdinary (ok _) b i j = j
  then_next-IsOrdinary (err e) b i j = i

  part-IsOrdinary : (part : Json) → IsOrdinary (reject_part u str part)
  unfolding reject_part blocked_types
  part-IsOrdinary (Json.object part) = kind-IsOrdinary _ (u.casefold (part_type u str part))
  part-IsOrdinary _ = tt

  parts-IsOrdinary : (parts : Items) → IsOrdinary (reject_parts u str parts)
  unfolding reject_parts
  parts-IsOrdinary Items.nil = tt
  parts-IsOrdinary (Items.cons part parts) =
      then_next-IsOrdinary (reject_part u str part) (reject_parts u str parts)
        (part-IsOrdinary part) (parts-IsOrdinary parts)

  content-IsOrdinary : (content : Option Json) → IsOrdinary (reject_content u str content)
  unfolding reject_content
  content-IsOrdinary none = tt
  content-IsOrdinary (some (Json.array parts)) = parts-IsOrdinary parts
  content-IsOrdinary (some value) = part-IsOrdinary value

  messages-IsOrdinary : (messages : Items) → IsOrdinary (reject_messages u str messages)
  unfolding reject_messages
  messages-IsOrdinary Items.nil = tt
  messages-IsOrdinary (Items.cons (Json.object message) rest) =
      then_next-IsOrdinary (reject_content u str (get_field (codes "content") message))
        (reject_messages u str rest) (content-IsOrdinary (get_field (codes "content") message))
        (messages-IsOrdinary rest)
  messages-IsOrdinary (Items.cons _ rest) = messages-IsOrdinary rest

  read-IsOrdinary :
      (read : Option Json)
      → IsOrdinary
          (elim (as_messages read) [ ok messages ↦ reject_messages u str messages | err e ↦ err e ])
  unfolding blocked_types
  read-IsOrdinary none = messages-IsOrdinary Items.nil
  read-IsOrdinary (some (Json.array messages)) = messages-IsOrdinary messages
  read-IsOrdinary (some _) = refl

  pub payload-IsOrdinary : (payload : Fields) → IsOrdinary (reject_unsanitized_media u str payload)
  unfolding reject_unsanitized_media messages_of
  payload-IsOrdinary payload = read-IsOrdinary (get_field (codes "messages") payload)
