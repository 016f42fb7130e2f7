-- ===== src/Streaming.antt =====
-- app/proxy/streaming.py: `BufferedStreamingOutputGuard`, which holds the texts of a stream back until
-- it ends. Its `_last_event` is written and never read, and left out.
use maskgate.Base.{
  Bool, Dict, Eq, Exec, List, Option, Text, [], arith, codes, eq_iff, false, get, if◌then◌else◌,
  list_eq, nat_eq, none, option_eq, pair_eq, put, some, suc, true, zero, ℕ, ◌++◌, ◌==◌, ◌↔◌, ◌∷◌,
  ◌≡◌,
}
use maskgate.Json.{Json, pos, Items, Fields, get_field}
use maskgate.PolicyV2.{PathPart}
use maskgate.Vault.{MappingItem}
use maskgate.Session.{Entity}
use maskgate.OutputGuard.{process, process_authorized_text}

-- `StreamPath`, with the comparison of its parts
abbrev pub StreamPath : Type 0
StreamPath = List PathPart

abbrev pub part_beq : PathPart → PathPart → Bool
part_beq (PathPart.key a) (PathPart.key b) = a == b
part_beq (PathPart.index n) (PathPart.index m) = n == m
part_beq _ _ = false

pub part_beq_iff : (a b : PathPart) → (part_beq a b ≡ true) ↔ (a ≡ b)
part_beq_iff (PathPart.key a) (PathPart.key b) = ground (arith, eq_iff a b)
part_beq_iff (PathPart.index n) (PathPart.index m) = ground (arith, eq_iff n m)
part_beq_iff (PathPart.key a) (PathPart.index m) = ground arith
part_beq_iff (PathPart.index n) (PathPart.key b) = ground arith

instance abbrev pub part_eq : Eq PathPart
part_eq = record { equals = part_beq; equals_iff = part_beq_iff }

-- `_get`; `none` is the exception of a missing key or index.
abbrev pub item_in : ℕ → Items → Option Json
item_in n Items.nil = none
item_in zero (Items.cons x xs) = some x
item_in (suc n) (Items.cons x xs) = item_in n xs

unfoldable pub child_of : PathPart → Json → Option Json
child_of (PathPart.key k) (Json.object fs) = get_field k fs
child_of (PathPart.index n) (Json.array xs) = item_in n xs
child_of _ _ = none

unfoldable pub get_at : StreamPath → Option Json → Option Json
unfolding child_of
get_at [] v = v
get_at (p ∷ ps) none = none
get_at (p ∷ ps) (some v) = get_at ps (child_of p v)

-- `_set`, where the path leads to something.
abbrev pub set_item : ℕ → Json → Items → Items
set_item n v Items.nil = Items.nil
set_item zero v (Items.cons x xs) = Items.cons v xs
set_item (suc n) v (Items.cons x xs) = Items.cons x (set_item n v xs)

unfoldable pub set_member : Text → Json → Fields → Fields
set_member k v Fields.end = Fields.field k v Fields.end
set_member k v (Fields.field j w fs) =
    let rest = set_member k v fs in if j == k then Fields.field j v fs else Fields.field j w rest

unfoldable pub set_child : PathPart → Json → Json → Json
unfolding set_member
set_child (PathPart.key k) v (Json.object fs) = Json.object (set_member k v fs)
set_child (PathPart.index n) v (Json.array xs) = Json.array (set_item n v xs)
set_child _ v w = w

unfoldable pub set_at : StreamPath → Text → Json → Json
unfolding set_child child_of
set_at [] s v = Json.string s
set_at (p ∷ ps) s v = elim (child_of p v) [
  | none ↦ set_child p (Json.string s) v
  | some w ↦ let inner = set_at ps s w in set_child p inner v
]

-- The tests of `_text_paths`, each with the path that it adds.
abbrev pub choice_path : ℕ → List PathPart → StreamPath
choice_path n rest =
    PathPart.key (codes "choices") ∷ PathPart.index n ∷ PathPart.key (codes "delta") ∷ rest

abbrev pub if_text : Option Json → StreamPath → List StreamPath
if_text (some (Json.string s)) path = path ∷ []
if_text _ path = []

abbrev pub arguments_in : Option Json → StreamPath → List StreamPath
arguments_in (some (Json.object call)) path = if_text (get_field (codes "arguments") call) path
arguments_in _ path = []

abbrev pub function_in : Json → StreamPath → List StreamPath
function_in (Json.object tool) path = arguments_in (get_field (codes "function") tool) path
function_in _ path = []

unfoldable pub tool_paths : ℕ → ℕ → Items → List StreamPath
tool_paths choice n Items.nil = []
tool_paths choice n (Items.cons tool tools) =
    function_in tool (
      choice_path choice (
        PathPart.key (codes "tool_calls")
        ∷ PathPart.index n
        ∷ PathPart.key (codes "function")
        ∷ PathPart.key (codes "arguments")
        ∷ []))
    ++ tool_paths choice (suc n) tools

abbrev pub tools_in : ℕ → Option Json → List StreamPath
tools_in choice (some (Json.array tools)) = tool_paths choice 0 tools
tools_in choice _ = []

unfoldable pub delta_paths : ℕ → Fields → List StreamPath
unfolding tool_paths
delta_paths n delta =
    if_text (get_field (codes "content") delta)
      (choice_path n (PathPart.key (codes "content") ∷ []))
    ++ (if_text (get_field (codes "refusal") delta)
          (choice_path n (PathPart.key (codes "refusal") ∷ []))
        ++ (arguments_in (get_field (codes "function_call") delta) (
              choice_path n
                (PathPart.key (codes "function_call") ∷ PathPart.key (codes "arguments") ∷ []))
            ++ tools_in n (get_field (codes "tool_calls") delta)))

abbrev pub delta_in : ℕ → Option Json → List StreamPath
delta_in n (some (Json.object delta)) = delta_paths n delta
delta_in n _ = []

abbrev pub choice_paths : ℕ → Json → List StreamPath
choice_paths n (Json.object choice) = delta_in n (get_field (codes "delta") choice)
choice_paths n _ = []

unfoldable pub choices_paths : ℕ → Items → List StreamPath
unfolding delta_paths
choices_paths n Items.nil = []
choices_paths n (Items.cons choice choices) = choice_paths n choice ++ choices_paths (suc n) choices

abbrev pub paths_in : Option Json → List StreamPath
paths_in (some (Json.array choices)) = choices_paths 0 choices
paths_in _ = []

-- `_text_paths`
unfoldable pub text_paths : Fields → List StreamPath
unfolding choices_paths
text_paths event = paths_in (get_field (codes "choices") event)

abbrev pub Buffers : Type 0
Buffers = Dict StreamPath Text

abbrev pub or_empty : Option Text → Text
or_empty none = []
or_empty (some s) = s

-- One turn of the loop of `push`.
abbrev pub take_text : StreamPath → Option Json → Json → Buffers → Json × Buffers
take_text path (some (Json.string s)) updated buffers =
    (set_at path [] updated, put path (or_empty (get path buffers) ++ s) buffers)
take_text path _ updated buffers = (updated, buffers)

-- The loop of `push`
unfoldable pub take_texts : List StreamPath → Json × Buffers → Json × Buffers
unfolding get_at set_at
take_texts [] state = state
take_texts (path ∷ paths) (updated, buffers) =
    take_texts paths (take_text path (get_at path (some updated)) updated buffers)

-- `_empty_event_for`; a path always begins like those of `choice_path`.
unfoldable pub empty_calls : ℕ → ℕ → Items
empty_calls zero n = Items.nil
empty_calls (suc count) n =
    Items.cons
      (Json.object (
        Fields.field (codes "index") (Json.integer (pos n)) (
          Fields.field (codes "function")
            (Json.object (Fields.field (codes "arguments") (Json.string []) Fields.end))
            Fields.end)))
      (empty_calls count (suc n))

unfoldable pub empty_delta : StreamPath → Fields
unfolding empty_calls
empty_delta (PathPart.key k ∷ PathPart.index n ∷ rest) =
    Fields.field k (Json.array (empty_calls (suc n) 0)) Fields.end
empty_delta (PathPart.key k ∷ PathPart.key a ∷ rest) =
    Fields.field k (Json.object (Fields.field (codes "arguments") (Json.string []) Fields.end))
      Fields.end
empty_delta (PathPart.key k ∷ []) = Fields.field k (Json.string []) Fields.end
empty_delta _ = Fields.end

unfoldable pub empty_choices : ℕ → ℕ → Fields → Items
empty_choices zero n delta =
    Items.cons
      (Json.object (
        Fields.field (codes "index") (Json.integer (pos n)) (
          Fields.field (codes "delta") (Json.object delta)
            (Fields.field (codes "finish_reason") Json.null Fields.end))))
      Items.nil
empty_choices (suc before) n delta =
    Items.cons
      (Json.object (
        Fields.field (codes "index") (Json.integer (pos n)) (
          Fields.field (codes "delta") (Json.object Fields.end)
            (Fields.field (codes "finish_reason") Json.null Fields.end))))
      (empty_choices before (suc n) delta)

unfoldable pub empty_event_for : StreamPath → Json
unfolding empty_delta empty_choices
empty_event_for (choices ∷ PathPart.index n ∷ delta ∷ rest) = Json.object (
    Fields.field (codes "object") (Json.string (codes "chat.completion.chunk")) (
      Fields.field (codes "choices") (Json.array (empty_choices n 0 (empty_delta rest)))
        Fields.end))
empty_event_for _ = Json.null

-- `provider_text`
unfoldable pub provider_text : Buffers → Text
provider_text buffers = or_empty (get (choice_path 0 (PathPart.key (codes "content") ∷ [])) buffers)

module _ (detect : Text → List Entity) (mapping : List MappingItem) where
  -- `push`
  unfoldable pub push_event : Fields → Exec Buffers Json
  unfolding text_paths take_texts
  push_event event buffers =
      let (updated, kept) = take_texts (text_paths event) (Json.object event, buffers) in
      (process detect mapping updated, kept)

  -- `finish_events`
  unfoldable pub finish_events : Buffers → List Json
  unfolding empty_event_for
  finish_events [] = []
  finish_events ((path, text) ∷ buffers) =
      let rest = finish_events buffers in
      let safe = process_authorized_text detect mapping text in
      if safe == [] then rest else set_at path safe (empty_event_for path) ∷ rest
