-- ===== src/Conversations/Laws.antt =====
-- app/storage/conversation_store.py: capacity, expiry, and owners that do not see one another.
use maskgate.Base.{
  All, All-get, All-put, All-remove, All-select, All_map, Bool-cases, IsDistinct, List, Option,
  Option-cases, Text, arith, get, inl, inr, leb, length, length-put-le, length-put_old,
  length-remove-le, length-select-le, list_eq, nat_eq, none, option_eq, pair_eq, put-IsDistinct,
  refl, remove-IsDistinct, select-IsDistinct, some, suc, sym, ℕ, ◌<◌, ◌==◌, ◌∙◌, ◌≡◌, ◌≤◌,
}
use maskgate.Json.{Json, Fields}
use maskgate.Session.{Session}
use maskgate.Conversations.{
  Key, Conversation, Store, new_store, is_live, cleanup_locked, get_or_create, found_or_new,
  is_current, commit, delete_conversation, touch, touch_found, store_at, accessed, key_of,
  new_conversation,
}

-- An entry stands under its own key, and its identity has been given out.
abbrev pub IsFiled : ℕ → Key × Conversation → Type 0
IsFiled next (k, c) = (k ≡ (c.owner_id, c.conversation_id)) × (c.handle < next)

pub record IsValidStore (s : Store) : Type 0 where
  pub filed : All (IsFiled s.next_handle) s.conversations
  pub distinct : IsDistinct s.conversations
  pub bound : length s.conversations ≤ s.max_conversations

pub IsValidStore-new :
    (ttl messages chars conversations : ℕ)
    → IsValidStore (new_store ttl messages chars conversations)
unfolding new_store
IsValidStore-new ttl messages chars conversations = record {
  filed = tt;
  distinct = tt;
  bound = omega arith;
}

IsValidStore-cleanup : (now : ℕ) (s : Store) → IsValidStore s → IsValidStore (cleanup_locked now s)
unfolding cleanup_locked
IsValidStore-cleanup now s h = record {
  filed = All-select (IsFiled s.next_handle) (is_live s now) s.conversations h.filed;
  distinct = select-IsDistinct (is_live s now) s.conversations h.distinct;
  bound = omega (arith, length-select-le (is_live s now) s.conversations, h.bound);
}

-- A stored conversation is replaced by one with the same key and identity.
IsValidStore-replace :
    (s : Store) (k : Key) (c d : Conversation)
    → IsValidStore s
    → get k s.conversations ≡ some c
    → d.handle ≡ c.handle
    → key_of d ≡ key_of c
    → IsValidStore (store_at k d s)
IsValidStore-replace s k c d h e same_handle same_key =
    let (key, issued) = All-get (IsFiled s.next_handle) k c s.conversations e h.filed in
    record {
      filed =
          All-put (IsFiled s.next_handle) k d s.conversations
            (key ∙ sym same_key, rw same_handle issued) h.filed;
      distinct = put-IsDistinct k d s.conversations h.distinct;
      bound = omega (arith, length-put_old k d c s.conversations e, h.bound);
    }

IsValidStore-found_or_new :
    (id owner : Text) (fresh : Session) (now : ℕ) (s : Store) (o : Option Conversation)
    → get (owner, id) s.conversations ≡ o
    → IsValidStore s
    → IsValidStore (found_or_new id owner fresh now o s).1
unfolding found_or_new
IsValidStore-found_or_new id owner fresh now s (some c) e h =
    IsValidStore-replace s (owner, id) c (accessed now c) h e refl refl
IsValidStore-found_or_new id owner fresh now s none e h =
    elim (Bool-cases (leb s.max_conversations (length s.conversations))) [
      | inl full ↦ rw full h
      | inr room ↦
          let made = new_conversation id owner fresh now s.next_handle in
          let further =
            All_map (IsFiled s.next_handle) (IsFiled (suc s.next_handle)) s.conversations
              (λ x k. (k.0, omega arith)) h.filed in
          rw room (record {
            filed =
                All-put (IsFiled (suc s.next_handle)) (owner, id) made s.conversations
                  (refl, omega arith) further;
            distinct = put-IsDistinct (owner, id) made s.conversations h.distinct;
            bound = ground (arith, length-put-le (owner, id) made s.conversations);
          })
    ]

module _ (s : Store) (valid : IsValidStore s) where
  IsValidStore-commit :
      (str_length : Json → ℕ) (c : Conversation) (session : Session) (messages : List Fields)
      (now : ℕ)
      → IsValidStore (commit str_length c session messages now s)
  unfolding commit is_current
  IsValidStore-commit str_length c session messages now =
      elim (Option-cases (get (key_of c) s.conversations)) [
        | inl e ↦ rw e valid
        | inr (d, e) ↦ elim (Bool-cases (d.handle == c.handle)) [
          | inr other ↦ rw (e, other) valid
          | inl same ↦
              rw (e, same)
                (IsValidStore-replace s (key_of c) d _ valid e (ground arith)
                  (All-get (IsFiled s.next_handle) (key_of c) d s.conversations e valid.filed).0)
        ]
      ]

  IsValidStore-touch : (c : Conversation) (now : ℕ) → IsValidStore (touch c now s)
  unfolding touch touch_found
  IsValidStore-touch c now = elim (Option-cases (get (key_of c) s.conversations)) [
    | inl e ↦ rw e valid
    | inr (d, e) ↦ elim (Bool-cases (d.handle == c.handle)) [
      | inr other ↦ rw (e, other) valid
      | inl same ↦
          rw (e, same) (IsValidStore-replace s (key_of c) d (accessed now d) valid e refl refl)
    ]
  ]

  IsValidStore-delete : (id owner : Text) → IsValidStore (delete_conversation id owner s)
  unfolding delete_conversation
  IsValidStore-delete id owner = record {
    filed = All-remove (IsFiled s.next_handle) (owner, id) s.conversations valid.filed;
    distinct = remove-IsDistinct (owner, id) s.conversations valid.distinct;
    bound = omega (arith, length-remove-le (owner, id) s.conversations, valid.bound);
  }

-- Every operation leaves a valid store valid: no more conversations than allowed, each under its
-- own key and with an identity that has been given out.
pub conversations_valid :
    (s : Store) (str_length : Json → ℕ) (id owner : Text) (session : Session) (c : Conversation)
    (messages : List Fields) (now : ℕ)
    → IsValidStore s
    → IsValidStore (get_or_create id owner session now s).1
      × IsValidStore (commit str_length c session messages now s)
      × IsValidStore (touch c now s)
      × IsValidStore (delete_conversation id owner s)
      × IsValidStore (cleanup_locked now s)
unfolding get_or_create
conversations_valid s str_length id owner session c messages now h =
    let clean = cleanup_locked now s in
    (
      IsValidStore-found_or_new id owner session now clean (get (owner, id) clean.conversations)
          refl (IsValidStore-cleanup now s h),
      IsValidStore-commit s h str_length c session messages now,
      IsValidStore-touch s h c now,
      IsValidStore-delete s h id owner,
      IsValidStore-cleanup now s h,
    )
