-- ===== src/Tests/Storing.antt =====
-- The stores' theorems at a store with one conversation.
use maskgate.Base.{
  In, Text, [], arith, codes, false, get, length, list_beq, list_eq, nat_eq, none, ok, option_eq,
  pair_eq, put, refl, some, true, ℕ, ◌+◌, ◌<◌, ◌==◌, ◌↔◌, ◌∷◌, ◌≡◌, ◌≤◌, ◌⊎◌,
}
use maskgate.Json.{Json, Fields}
use maskgate.Session.{Session, Mode}
use maskgate.Conversations.{
  Conversation, Store, cleanup_locked, get_or_create, commit, delete_conversation, touch, key_of,
  trim_messages, total_chars, found_or_new,
}
use maskgate.Conversations.Trim.{trim_messages_lem}
use maskgate.Conversations.Laws.{IsValidStore, conversations_valid}
use maskgate.Conversations.Owners.{
  conversations_isolated, get_or_create_lem, commit_after_delete, answer, live_at,
}
use maskgate.Mappings.{MappingStore, put_mapping, get_mapping, delete_mapping}
use maskgate.Vault.{MappingItem}
use maskgate.Mappings.Laws.{put_mapping_lem}
use maskgate.Tests.Samples.{item_ann, fresh_vault, plain_policy}

abbrev session : Session
session = record {
  mode = Mode.placeholder;
  policy = plain_policy;
  token_namespace = codes "abcd";
  surrogates = [];
  vault = fresh_vault;
  placeholder_counters = [];
  draws = [];
}

-- The length of a value's text is not asked for here.
abbrev no_length : Json → ℕ
no_length value = 0

abbrev hello : Fields
hello = Fields.field (codes "role") (Json.string (codes "user")) Fields.end

abbrev empty_store : Store
empty_store = record {
  ttl = 60;
  max_messages = 4;
  max_chars = 1000;
  max_conversations = 2;
  conversations = [];
  next_handle = 0;
}

abbrev ann : Text
ann = codes "ann"

abbrev bob : Text
bob = codes "bob"

abbrev talk : Conversation
talk = record {
  handle = 0;
  conversation_id = codes "talk";
  owner_id = ann;
  session = session;
  messages = [];
  created_at = 5;
  last_access_at = 5;
}

abbrev one_talk : Store
one_talk = record empty_store { conversations = (key_of talk, talk) ∷ []; next_handle = 1 }

one_talk-IsValid : IsValidStore one_talk
one_talk-IsValid = record {
  filed = ((refl, omega arith), tt);
  distinct = (unfold get in refl, tt);
  bound = omega arith;
}

create_runs : (get_or_create (codes "talk") ann session 5 empty_store).1 ≡ one_talk
unfolding get_or_create found_or_new get cleanup_locked put
create_runs = refl

found_talk : get (key_of talk) one_talk.conversations ≡ some talk
unfolding get list_beq
found_talk = refl

trim_messages_lem_example :
    let trimmed = trim_messages no_length one_talk (hello ∷ hello ∷ []) in
    (length trimmed ≤ one_talk.max_messages)
    × ((length trimmed ≤ 1) ⊎ (total_chars no_length trimmed ≤ one_talk.max_chars))
    × ((m : Fields) → In m trimmed → In m (hello ∷ hello ∷ []))
trim_messages_lem_example = trim_messages_lem no_length one_talk (hello ∷ hello ∷ []) (omega arith)

conversations_valid_example :
    IsValidStore (get_or_create (codes "talk") bob session 6 one_talk).1
    × IsValidStore (commit no_length talk session (hello ∷ []) 6 one_talk)
    × IsValidStore (touch talk 6 one_talk)
    × IsValidStore (delete_conversation (codes "talk") bob one_talk)
    × IsValidStore (cleanup_locked 6 one_talk)
conversations_valid_example =
    conversations_valid one_talk no_length (codes "talk") bob session talk (hello ∷ []) 6
      one_talk-IsValid

abbrev bobs : Conversation
bobs = record talk { owner_id = bob }

conversations_isolated_example :
    (get (key_of talk) (get_or_create (codes "talk") bob session 6 one_talk).1.conversations
      ≡ some talk)
    × (get (key_of talk) (commit no_length bobs session (hello ∷ []) 6 one_talk).conversations
        ≡ some talk)
    × (get (key_of talk) (touch bobs 6 one_talk).conversations ≡ some talk)
    × (get (key_of talk) (delete_conversation (codes "talk") bob one_talk).conversations
        ≡ some talk)
conversations_isolated_example =
    conversations_isolated one_talk no_length (codes "talk") bob session bobs (hello ∷ []) 6
      (key_of talk) talk one_talk-IsValid found_talk refl (unfold list_beq in refl)
      (unfold list_beq in refl)

get_or_create_lem_example :
    let (r, t) = get_or_create (codes "talk") ann session 7 one_talk in
    (r
      ≡ answer
          (codes "talk")
          ann
          session
          7
          (cleanup_locked 7 one_talk)
          (live_at 7 one_talk (ann, codes "talk")))
    × ((c : Conversation) → r ≡ ok c → get (ann, codes "talk") t.conversations ≡ some c)
get_or_create_lem_example = get_or_create_lem (codes "talk") ann session 7 one_talk one_talk-IsValid

commit_after_delete_example :
    let deleted = delete_conversation talk.conversation_id talk.owner_id one_talk in
    let again = (get_or_create talk.conversation_id talk.owner_id session 8 deleted).1 in
    (commit no_length talk session (hello ∷ []) 9 deleted ≡ deleted)
    × (commit no_length talk session (hello ∷ []) 9 again ≡ again)
commit_after_delete_example =
    commit_after_delete one_talk no_length talk session session (hello ∷ []) 8 9 one_talk-IsValid
      found_talk

abbrev mappings : MappingStore
mappings = record { ttl = 30; mappings = [] }

put_mapping_lem_example :
    let (m, t) = put_mapping (codes "r") (item_ann ∷ []) 4 mappings in
    (10 < 4 + 30 → (get_mapping (codes "r") 10 t).0 ≡ some m)
    × (4 + 30 ≤ 10 → (get_mapping (codes "r") 10 t).0 ≡ none)
    × ((i : MappingItem) → In i m.items ↔ (In i (item_ann ∷ []) × (i.restore ≡ true)))
    × (4 ≤ 10
        → (codes "r" == codes "q") ≡ false
        → (get_mapping (codes "q") 10 t).0 ≡ (get_mapping (codes "q") 10 mappings).0)
    × ((get_mapping (codes "r") 10 (delete_mapping (codes "r") t)).0 ≡ none)
put_mapping_lem_example = put_mapping_lem (codes "r") (codes "q") (item_ann ∷ []) 4 10 mappings tt
