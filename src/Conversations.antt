-- ===== src/Conversations.antt =====
-- app/storage/conversation_store.py: conversations in memory, each with its masking session. A method
-- holds the store's lock from its first access to its last, so it is one step.
pub mod Trim
pub mod Laws
pub mod Owners
use maskgate.Base.{
  Bool, Dict, Exec, List, Option, Result, Text, [], codes, conversation_capacity, drop, err, false,
  get, if◌then◌else◌, leb, length, list_eq, ltb, map, max, nat_eq, none, not, ok, option_eq,
  pair_eq, put, remove, select, some, suc, take, value_error, zero, ℕ, ◌&&◌, ◌++◌, ◌+◌, ◌-◌, ◌==◌,
  ◌∷◌,
}
use maskgate.Json.{Json, Items, Fields, get_field, from_list}
use maskgate.Pattern.{Pattern, one, repeated, fullmatch, is_upper_letter, is_lower_letter, is_digit}
use maskgate.Session.{Session, is_namespace_char, prune_session}

-- `validate_conversation_id`: an empty id counts as none.
unfoldable pub validate_conversation_id : Option Text → Result (Option Text)
validate_conversation_id none = ok none
validate_conversation_id (some []) = ok none
validate_conversation_id (some (c ∷ s)) =
    if fullmatch (repeated 8 (some 120) (one is_namespace_char)) (c ∷ s)
    then ok (some (c ∷ s))
    else err value_error

-- `ConversationState`. `handle` tells objects apart that were made for the same key: it stands for
-- the object's identity, which `is` compares. An instant is a number of ticks of the clock.
pub record Conversation : Type 0 where
  pub handle : ℕ
  pub conversation_id : Text
  pub owner_id : Text
  pub session : Session
  pub messages : List Fields
  pub created_at : ℕ
  pub last_access_at : ℕ

-- `message.get("role") == name`
unfoldable pub has_role : Text → Fields → Bool
has_role name message = elim (get_field (codes "role") message) [
  | some (Json.string r) ↦ r == name
  | _ ↦ false
]

-- `turn_count`
unfoldable pub turn_count : Conversation → ℕ
turn_count c = length (select (has_role (codes "user")) c.messages)

abbrev pub Key : Type 0
Key = Text × Text

-- `InMemoryConversationStore`, its limits as the constructor keeps them. `next_handle` is the
-- identity of the object that is made next.
pub record Store : Type 0 where
  pub ttl : ℕ
  pub max_messages : ℕ
  pub max_chars : ℕ
  pub max_conversations : ℕ
  pub conversations : Dict Key Conversation
  pub next_handle : ℕ

-- `InMemoryConversationStore.__init__`
unfoldable pub new_store : ℕ → ℕ → ℕ → ℕ → Store
new_store ttl max_messages max_chars max_conversations = record {
  ttl = max ttl 1;
  max_messages = max max_messages 4;
  max_chars = max max_chars 1000;
  max_conversations = max max_conversations 1;
  conversations = [];
  next_handle = 0;
}

abbrev pub is_live : Store → ℕ → Key × Conversation → Bool
is_live s now (k, c) = not (leb (c.last_access_at + s.ttl) now)

-- `_cleanup_locked`
unfoldable pub cleanup_locked : ℕ → Store → Store
cleanup_locked now s = record s { conversations = select (is_live s now) s.conversations }

abbrev pub new_conversation : Text → Text → Session → ℕ → ℕ → Conversation
new_conversation id owner fresh now handle = record {
  handle = handle;
  conversation_id = id;
  owner_id = owner;
  session = fresh;
  messages = [];
  created_at = now;
  last_access_at = now;
}

abbrev pub accessed : ℕ → Conversation → Conversation
accessed now c = record c { last_access_at = now }

abbrev pub store_at : Key → Conversation → Store → Store
store_at k c s = record s { conversations = put k c s.conversations }

-- The branches of `get_or_create` behind the cleanup and the lookup.
unfoldable pub found_or_new :
    Text → Text → Session → ℕ → Option Conversation → Exec Store Conversation
found_or_new id owner fresh now (some c) s =
    (ok (accessed now c), store_at (owner, id) (accessed now c) s)
found_or_new id owner fresh now none s =
    if leb s.max_conversations (length s.conversations)
    then (err conversation_capacity, s)
    else let made = new_conversation id owner fresh now s.next_handle in
      (ok made, record (store_at (owner, id) made s) { next_handle = suc s.next_handle })

-- `get_or_create`; `fresh` is what the session factory returns. Where it raises, the cleanup stays
-- done.
unfoldable pub get_or_create : Text → Text → Session → ℕ → Exec Store Conversation
get_or_create id owner fresh now s =
    let t = cleanup_locked now s in
    found_or_new id owner fresh now (get (owner, id) t.conversations) t

abbrev pub key_of : Conversation → Key
key_of c = (c.owner_id, c.conversation_id)

abbrev pub is_same : Conversation → Option Conversation → Bool
is_same c none = false
is_same c (some d) = d.handle == c.handle

-- `self._items.get(key) is state`
unfoldable pub is_current : Conversation → Store → Bool
is_current c s = is_same c (get (key_of c) s.conversations)

-- `size` inside `_trim_messages`; `str_length` is `len(str(value))` of a value that is no text.
abbrev pub content_length : (Json → ℕ) → Fields → ℕ
content_length str_length message = elim (get_field (codes "content") message) [
  | none ↦ 0
  | some (Json.string s) ↦ length s
  | some value ↦ str_length value
]

unfoldable pub total_chars : (Json → ℕ) → List Fields → ℕ
total_chars str_length [] = 0
total_chars str_length (m ∷ ms) = content_length str_length m + total_chars str_length ms

abbrev pub is_system : Fields → Bool
is_system m = has_role (codes "system") m

-- `copied.pop(index)` at the first message that is no system message; `none` where there is none.
unfoldable pub pop_plain : List Fields → Option (List Fields)
pop_plain [] = none
pop_plain (m ∷ ms) =
    let rest = pop_plain ms in
    if is_system m then elim rest [ none ↦ none | some r ↦ some (m ∷ r) ] else some ms

-- `copied.pop(removable_index)`
unfoldable pub pop_message : List Fields → List Fields
pop_message ms = elim (pop_plain ms) [ none ↦ drop 1 ms | some r ↦ r ]

-- The `while` of `_trim_messages`, at most `fuel` times.
unfoldable pub shrink : (Json → ℕ) → ℕ → ℕ → List Fields → List Fields
shrink str_length limit zero ms = ms
shrink str_length limit (suc fuel) ms =
    let rest = shrink str_length limit fuel (pop_message ms) in
    if ltb 1 (length ms) && ltb limit (total_chars str_length ms) then rest else ms

-- `items[-n:]` for n > 0
abbrev pub last_of : {A : Type 0} → ℕ → List A → List A
last_of n xs = drop (length xs - n) xs

-- The first `if` of `_trim_messages`.
unfoldable pub cap_count : ℕ → List Fields → List Fields
cap_count limit ms =
    if ltb limit (length ms)
    then take 2 (select is_system ms)
      ++ last_of (max (limit - 2) 2) (select (λ m. not (is_system m)) ms)
    else ms

-- `_trim_messages`
unfoldable pub trim_messages : (Json → ℕ) → Store → List Fields → List Fields
unfolding shrink cap_count
trim_messages str_length s ms =
    let capped = cap_count s.max_messages ms in shrink str_length s.max_chars (length capped) capped

-- `commit`: a state that the store no longer holds is passed over.
unfoldable pub commit : (Json → ℕ) → Conversation → Session → List Fields → ℕ → Store → Store
commit str_length c session messages now s =
    let trimmed = trim_messages str_length s messages in
    let stored : Conversation = record c {
      session = prune_session (from_list (map Json.object trimmed)) session;
      messages = trimmed;
      last_access_at = now;
    } in
    if is_current c s then store_at (key_of c) stored s else s

-- `delete`
unfoldable pub delete_conversation : Text → Text → Store → Store
delete_conversation id owner s = record s { conversations = remove (owner, id) s.conversations }

-- `touch`; the object that is touched is the stored one.
unfoldable pub touch_found : Conversation → ℕ → Option Conversation → Store → Store
touch_found c now none s = s
touch_found c now (some d) s =
    if d.handle == c.handle then store_at (key_of c) (accessed now d) s else s

unfoldable pub touch : Conversation → ℕ → Store → Store
touch c now s = touch_found c now (get (key_of c) s.conversations) s

-- `size` and `cleanup`, each with the store that it leaves.
unfoldable pub store_size : ℕ → Store → ℕ × Store
store_size now s = let t = cleanup_locked now s in (length t.conversations, t)

unfoldable pub cleanup : ℕ → Store → ℕ × Store
cleanup now s = let t = cleanup_locked now s in (length s.conversations - length t.conversations, t)
