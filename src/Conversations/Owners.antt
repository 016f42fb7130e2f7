-- ===== src/Conversations/Owners.antt =====
-- app/storage/conversation_store.py: what one caller's calls do to the conversations of the others, and
-- what a lookup finds.
use maskgate.Base.{
  All-get, Bool-cases, List, Option, Result, Text, ap, arith, conversation_capacity, eq_self, err,
  false, get, get-put, get-remove, get-select, get-select-none, if◌then◌else◌, inl, inr, leb,
  length, list_eq, nat_eq, none, ok, option_eq, pair_eq, refl, some, true, ℕ, ◌<◌, ◌==◌, ◌∙◌, ◌≡◌,
}
use maskgate.Json.{Json, Fields}
use maskgate.Session.{Session}
use maskgate.Conversations.{
  Key, Conversation, Store, is_live, cleanup_locked, get_or_create, found_or_new, is_current,
  commit, delete_conversation, touch, touch_found, store_at, accessed, key_of, new_conversation,
}
use maskgate.Conversations.Laws.{IsValidStore, IsFiled}

-- What a cleanup leaves under a key.
abbrev pub live_at : ℕ → Store → Key → Option Conversation
live_at now s k = elim (get k s.conversations) [
  | none ↦ none
  | some c ↦ if is_live s now (k, c) then some c else none
]

get-cleanup_locked :
    (now : ℕ) (s : Store) (k : Key)
    → IsValidStore s
    → get k (cleanup_locked now s).conversations ≡ live_at now s k
unfolding cleanup_locked
get-cleanup_locked now s k h = get-select (is_live s now) k s.conversations h.distinct

get-store_at_self :
    (k : Key) (c : Conversation) (s : Store) → get k (store_at k c s).conversations ≡ some c
get-store_at_self k c s = ground (arith, get-put k k c s.conversations, eq_self k)

module _ (k : Key) where
  get-store_at :
      (j : Key) (c : Conversation) (s : Store)
      → (j == k) ≡ false
      → get k (store_at j c s).conversations ≡ get k s.conversations
  get-store_at j c s h = ground (arith, get-put j k c s.conversations)

  get-found_or_new :
      (id owner : Text) (fresh : Session) (now : ℕ) (s : Store) (o : Option Conversation)
      → ((owner, id) == k) ≡ false
      → get k (found_or_new id owner fresh now o s).1.conversations ≡ get k s.conversations
  unfolding found_or_new
  get-found_or_new id owner fresh now s (some c) h = get-store_at (owner, id) (accessed now c) s h
  get-found_or_new id owner fresh now s none h =
      elim (Bool-cases (leb s.max_conversations (length s.conversations))) [
        | inl full ↦ rw full refl
        | inr room ↦
            rw room
              (get-store_at (owner, id) (new_conversation id owner fresh now s.next_handle) s h)
      ]

  get-commit :
      (str_length : Json → ℕ) (c : Conversation) (session : Session) (messages : List Fields)
      (now : ℕ) (s : Store)
      → (key_of c == k) ≡ false
      → get k (commit str_length c session messages now s).conversations ≡ get k s.conversations
  unfolding commit
  get-commit str_length c session messages now s h = elim (Bool-cases (is_current c s)) [
    | inl e ↦ rw e (get-store_at (key_of c) _ s h)
    | inr e ↦ rw e refl
  ]

  get-touch :
      (c : Conversation) (now : ℕ) (s : Store) (o : Option Conversation)
      → (key_of c == k) ≡ false
      → get k (touch_found c now o s).conversations ≡ get k s.conversations
  unfolding touch_found
  get-touch c now s none h = refl
  get-touch c now s (some d) h = elim (Bool-cases (d.handle == c.handle)) [
    | inl e ↦ rw e (get-store_at (key_of c) (accessed now d) s h)
    | inr e ↦ rw e refl
  ]

-- In a valid store, whatever a caller does under its own key, a conversation under another key that
-- has not expired stays as it is.
pub conversations_isolated :
    (s : Store) (str_length : Json → ℕ) (id owner : Text) (session : Session) (c : Conversation)
    (messages : List Fields) (now : ℕ) (k : Key) (d : Conversation)
    → IsValidStore s
    → get k s.conversations ≡ some d
    → is_live s now (k, d) ≡ true
    → ((owner, id) == k) ≡ false
    → (key_of c == k) ≡ false
    → (get k (get_or_create id owner session now s).1.conversations ≡ some d)
      × (get k (commit str_length c session messages now s).conversations ≡ some d)
      × (get k (touch c now s).conversations ≡ some d)
      × (get k (delete_conversation id owner s).conversations ≡ some d)
unfolding get_or_create touch delete_conversation
conversations_isolated s str_length id owner session c messages now k d valid here live other
      foreign =
    let clean = cleanup_locked now s in
    (
      get-found_or_new k id owner session now clean (get (owner, id) clean.conversations) other
          ∙ get-cleanup_locked now s k valid
          ∙ ground arith,
      get-commit k str_length c session messages now s foreign ∙ here,
      get-touch k c now s (get (key_of c) s.conversations) foreign ∙ here,
      ground (arith, get-remove (owner, id) k s.conversations),
    )

-- What `get_or_create` answers when the live conversation under the key is `o`.
abbrev pub answer : Text → Text → Session → ℕ → Store → Option Conversation → Result Conversation
answer id owner fresh now clean (some c) = ok (accessed now c)
answer id owner fresh now clean none =
    if leb clean.max_conversations (length clean.conversations)
    then err conversation_capacity
    else ok (new_conversation id owner fresh now clean.next_handle)

found_or_new-answer :
    (id owner : Text) (fresh : Session) (now : ℕ) (s : Store) (o : Option Conversation)
    → let (r, t) = found_or_new id owner fresh now o s in
      (r ≡ answer id owner fresh now s o)
      × ((c : Conversation) → r ≡ ok c → get (owner, id) t.conversations ≡ some c)
unfolding found_or_new
found_or_new-answer id owner fresh now s (some c) =
    (refl, λ d e. ground (arith, get-store_at_self (owner, id) (accessed now c) s))
found_or_new-answer id owner fresh now s none =
    elim (Bool-cases (leb s.max_conversations (length s.conversations))) [
      | inl full ↦ rw full (refl, λ d e. cc)
      | inr room ↦
          let made = new_conversation id owner fresh now s.next_handle in
          rw room (refl, λ d e. ground (arith, get-store_at_self (owner, id) made s))
    ]

-- In a valid store, get_or_create answers with the conversation of this owner and id if it has not
-- expired, and otherwise with an empty one, unless the unexpired conversations fill the store; the
-- conversation that it answers with is the one that the store then holds.
pub get_or_create_lem :
    (id owner : Text) (fresh : Session) (now : ℕ) (s : Store)
    → IsValidStore s
    → let (r, t) = get_or_create id owner fresh now s in
      (r ≡ answer id owner fresh now (cleanup_locked now s) (live_at now s (owner, id)))
      × ((c : Conversation) → r ≡ ok c → get (owner, id) t.conversations ≡ some c)
unfolding get_or_create
get_or_create_lem id owner fresh now s valid =
    let clean = cleanup_locked now s in
    let facts =
      found_or_new-answer id owner fresh now clean (get (owner, id) clean.conversations) in
    (
      facts.0 ∙ ap (answer id owner fresh now clean) (get-cleanup_locked now s (owner, id) valid),
      facts.1,
    )

-- The handle that `found_or_new` files under an empty key is new.
handle-found_or_new :
    (id owner : Text) (fresh : Session) (now : ℕ) (s : Store) (c : Conversation)
    → get (owner, id) s.conversations ≡ none
    → c.handle < s.next_handle
    → key_of c ≡ (owner, id)
    → is_current c (found_or_new id owner fresh now none s).1 ≡ false
unfolding found_or_new is_current
handle-found_or_new id owner fresh now s c e old key =
    elim (Bool-cases (leb s.max_conversations (length s.conversations))) [
      | inl full ↦ rw (full, key, e) refl
      | inr room ↦
          let made = new_conversation id owner fresh now s.next_handle in
          rw (room, key, get-store_at_self (owner, id) made s) (ground arith)
    ]

-- In a valid store, a turn that was under way when its conversation was deleted changes nothing
-- when it ends, neither on the store as the deletion left it nor if a conversation has been made
-- anew under the same key.
pub commit_after_delete :
    (s : Store) (str_length : Json → ℕ) (c : Conversation) (fresh session : Session)
    (messages : List Fields) (now later : ℕ)
    → IsValidStore s
    → get (key_of c) s.conversations ≡ some c
    → let deleted = delete_conversation c.conversation_id c.owner_id s in
      let again = (get_or_create c.conversation_id c.owner_id fresh now deleted).1 in
      (commit str_length c session messages later deleted ≡ deleted)
      × (commit str_length c session messages later again ≡ again)
unfolding get_or_create delete_conversation commit cleanup_locked
commit_after_delete s str_length c fresh session messages now later valid here =
    let deleted = delete_conversation c.conversation_id c.owner_id s in
    let clean = cleanup_locked now deleted in
    let gone : get (key_of c) deleted.conversations ≡ none =
      rw (get-remove (key_of c) (key_of c) s.conversations, eq_self (key_of c)) refl in
    let absent : get (key_of c) clean.conversations ≡ none =
      get-select-none (is_live deleted now) (key_of c) deleted.conversations gone in
    let issued =
      (All-get (IsFiled s.next_handle) (key_of c) c s.conversations here valid.filed).1 in
    let stale =
      handle-found_or_new c.conversation_id c.owner_id fresh now clean c absent issued refl in
    (unfold is_current in rw gone refl, rw (absent, stale) refl)
