-- ===== src/Chat/Turns.antt =====
-- app/chat/orchestrator.py: `_execute_conversation_chat`, one turn of a conversation.
pub mod Sends
pub mod Cleared
pub mod Commits
pub mod Outcomes
use maskgate.Base.{
  Bool, Error, Exec, List, Option, Result, Text, [], codes, conversation_capacity, err, false,
  if◌then◌else◌, length, lift, list_eq, ltb, nat_eq, none, not, ok, option_eq, pair_eq, pure, some,
  type_error, unsafe_media, ℕ, ◌&&◌, ◌++◌, ◌+◌, ◌==◌, ◌>>=◌, ◌∷◌,
}
use Prim.Native.String.{String}
use maskgate.Policies.{PolicyEngine}
use maskgate.Json.{Json, Items, Fields, get_field, append_field, to_list}
use maskgate.Privacy.{Floats, TokenScope}
use maskgate.PolicyV2.{Platform}
use maskgate.Principal.{PrincipalContext, vault_namespace}
use maskgate.Session.{Session, Mode, new_session, clone}
use maskgate.Conversations.{
  Store, Conversation, get_or_create, commit, delete_conversation, turn_count, is_current,
  trim_messages,
}
use maskgate.Wire.{PrivacyCheckedPayload}
use maskgate.Pipeline.{Reply, process_output}
use maskgate.OutputGuard.{sanitize_for_history}
use maskgate.Chat.Payload.{
  ChatRequest, local_free_payload, reject_unsanitized_media, update, set_field, messages_of,
}
use maskgate.Chat.Types.{
  blocked_types, ChatExecution, World, Chat, ChatSettings, Occasion, text, number, texts, dict,
  failure, mode_beq,
}
use maskgate.Chat.Masking.{Masking, Prepared, start_masking, prepare_request, preview_request}
use maskgate.Chat.Answer.{
  Orchestrator, on_world, media_refusal, context_for, answer_refusal, complete, put_and_trace,
  rescue, finally_clear, local_preview, answered_trace,
}

-- `_assistant_message_from_response`: the keys of an assistant's message that are kept.
abbrev pub kept_keys : List Text
kept_keys = codes "content" ∷ codes "refusal" ∷ codes "function_call" ∷ codes "tool_calls" ∷ []

unfoldable pub keep_fields : List Text → Fields → Fields → Fields
keep_fields [] message kept = kept
keep_fields (k ∷ ks) message kept = elim (get_field k message) [
  | none ↦ keep_fields ks message kept
  | some v ↦ keep_fields ks message (append_field k v kept)
]

abbrev pub says_assistant : Option Json → Bool
says_assistant (some (Json.string r)) = r == codes "assistant"
says_assistant _ = false

abbrev pub more_than_role : Fields → Option Fields
more_than_role (Fields.field r role Fields.end) = none
more_than_role fs = some fs

unfoldable pub message_from_choice : Option Json → Option Fields
unfolding keep_fields
message_from_choice (some (Json.object message)) =
    if says_assistant (get_field (codes "role") message)
    then more_than_role (keep_fields kept_keys message (dict (("role", text "assistant") ∷ [])))
    else none
message_from_choice _ = none

abbrev pub first_choice : Option Json → Option Json
first_choice (some (Json.array (Items.cons (Json.object choice) rest))) =
    get_field (codes "message") choice
first_choice _ = none

unfoldable pub assistant_message : Json → Option Fields
unfolding message_from_choice
assistant_message (Json.object payload) =
    message_from_choice (first_choice (get_field (codes "choices") payload))
assistant_message _ = none

-- The messages of a history are dicts.
unfoldable pub as_dicts : Items → Result (List Fields)
as_dicts Items.nil = ok []
as_dicts (Items.cons (Json.object m) rest) = elim (as_dicts rest) [
  | ok ms ↦ ok (m ∷ ms)
  | err e ↦ err e
]
as_dicts (Items.cons _ rest) = err type_error

abbrev pub messages_in : Result Items → Result (List Fields)
messages_in (ok xs) = as_dicts xs
messages_in (err e) = err e

abbrev pub plus_message : Option Fields → List Fields → List Fields
plus_message none ms = ms
plus_message (some m) ms = ms ++ m ∷ []

-- `not state.messages and not state.session.items`
unfoldable pub is_unused : Conversation → Bool
is_unused c = length c.messages == 0 && length c.session.vault.items == 0

module _ (pf : Platform) (fl : Floats) {C : Type 0} (self : Orchestrator pf fl C)
    (principal : PrincipalContext) (o : Occasion) (request : ChatRequest)
    (id mode_name : Text) where
  abbrev pub owner : Text
  owner = vault_namespace principal

  abbrev pub short_trace : Fields
  short_trace =
      dict (("request_id", Json.string o.request_id) ∷ ("masking_mode", Json.string mode_name) ∷ [])

  abbrev pub turn_trace : Conversation → Fields
  turn_trace state = dict (
      ("request_id", Json.string o.request_id)
      ∷ ("masking_mode", Json.string mode_name)
      ∷ ("conversation_id", Json.string id)
      ∷ ("conversation_store", text "ram")
      ∷ ("conversation_turn", number (turn_count state + 1))
      ∷ ("detected_entity_types", texts [])
      ∷ ("detected_entities_count", number 0)
      ∷ ("allowlisted_entity_types", texts [])
      ∷ ("masked_request", Json.null)
      ∷ ("upstream_response", Json.null)
      ∷ [])

  abbrev pub delete_here : World → World
  delete_here w = record w { conversations = delete_conversation id owner w.conversations }

  -- A conversation that nothing has been said in is deleted when its turn is refused.
  unfoldable pub forget_unused : Conversation → Chat → Chat
  unfolding is_unused
  forget_unused state c = if is_unused state then on_world delete_here c else c

  module _ (state : Conversation) where
    -- The commit of an answered turn, and the entry of the trace that counts the messages stored.
    abbrev pub stored_count : List Fields → Store → ℕ
    stored_count messages store =
        if is_current state store
        then length (trim_messages (λ v. length (self.str v)) store messages)
        else length state.messages

    unfoldable pub commit_turn : Session → List Fields → Fields → Exec Chat Fields
    commit_turn s messages trace c =
        let store = c.world.conversations in
        (
          ok (
              set_field (codes "conversation_message_count") (number (stored_count messages store))
                trace),
          record c {
            world = record c.world {
              conversations = commit (λ v. length (self.str v)) state s messages o.closed store;
            };
          },
        )

    unfoldable pub store_turn : Masking → Fields → Reply → Fields → Exec Chat Fields
    unfolding commit_turn as_dicts messages_of
    store_turn m payload reply trace = do
      said ← lift (messages_in (messages_of payload))
      safe ← lift (sanitize_for_history self.detect m.session.vault.items reply.payload)
      commit_turn m.session (plus_message (assistant_message safe) (state.messages ++ said)) trace

    -- `if result.status_code < 400`
    unfoldable pub remember : Masking → Fields → Reply → Fields → Exec Chat Fields
    unfolding store_turn
    remember m payload reply trace =
        if ltb reply.status_code 400 then store_turn m payload reply trace else pure trace

    -- The provider's answer, with the conversation's memory of it.
    unfoldable pub reply_turn :
        Masking → Fields → Fields → PrivacyCheckedPayload → Exec Chat ChatExecution
    unfolding remember
    reply_turn m payload base checked = do
      reply ← complete pf fl self o checked
      out ← lift (
          process_output self.upstream self.provider_name self.adapters pf.unicode self.codec
            self.detect reply.payload m.session.vault.items)
      trace ← remember m payload reply (answered_trace pf fl self o m base reply)
      pure (record { status_code = reply.status_code; payload = out; trace = trace })

    -- The body of the second `try`; `allow_preview` is that of the caller.
    unfoldable pub answer_turn :
        Bool → Masking → Fields → Fields → PrivacyCheckedPayload → Exec Chat ChatExecution
    unfolding reply_turn
    answer_turn allow_preview m payload base checked =
        if self.provider_ready
        then reply_turn m payload base checked
        else if allow_preview
        then pure (local_preview pf fl self o m base request.model)
        else pure (
            failure 503 "The upstream provider is not configured" "provider_not_configured"
              (update base (dict (("provider_ready", Json.boolean false) ∷ []))))

    unfoldable pub guarded_turn :
        Bool → Masking → Fields → Fields → PrivacyCheckedPayload → Exec Chat ChatExecution
    unfolding answer_turn
    guarded_turn allow_preview m payload base checked c =
        finally_clear pf fl self o
          (rescue pf fl self o m base (answer_turn allow_preview m payload base checked c))

    -- The session of the preview: a copy of the conversation's with the policy of previews.
    abbrev pub turn_session : Option PolicyEngine → List ℕ → Session
    turn_session policy draws = record (clone policy state.session) { draws = draws }

    abbrev pub turn_preview : Fields → Result Fields
    turn_preview source =
        preview_request pf fl self.codec self.detect self.upstream self.provider_name self.adapters
          (some state.messages) source
          (turn_session (some self.settings.preview_policy) o.preview_draws)

    -- The answer to a turn that is refused; exceptions of other classes go on.
    abbrev pub refuse_as :
        Option (List Text) → Fields → Masking → Fields → Error → Exec Chat ChatExecution
    refuse_as none base m source e c = (err e, c)
    refuse_as (some types) base m source e c =
        (answer_refusal pf fl self base m (λ ts. []) (turn_preview source) e, forget_unused state c)

    unfoldable pub refuse_turn : Fields → Masking → Fields → Error → Exec Chat ChatExecution
    unfolding forget_unused
    refuse_turn base m source e = refuse_as (blocked_types e) base m source e

    unfoldable pub continue_turn :
        Bool → Fields → Fields → Result (Prepared pf fl) → Masking → Exec Chat ChatExecution
    unfolding guarded_turn refuse_turn
    continue_turn allow_preview base source (err e) m = refuse_turn base m source e
    continue_turn allow_preview base source (ok prepared) m = do
      traced ← put_and_trace pf fl self o m.session prepared.checked base
      guarded_turn allow_preview m prepared.payload traced prepared.checked

    abbrev pub turn_from :
        Bool → Fields → Fields → Result (Prepared pf fl) × Masking → Exec Chat ChatExecution
    turn_from allow_preview base source (r, m) = continue_turn allow_preview base source r m

    -- Behind `reject_unsanitized_media`.
    unfoldable pub media_turn : Bool → Fields → Fields → Result (Unit {0}) → Exec Chat ChatExecution
    unfolding continue_turn forget_unused
    media_turn allow_preview base source (err (unsafe_media kind)) c =
        (media_refusal base (unsafe_media kind), forget_unused state c)
    media_turn allow_preview base source (err e) c = (err e, c)
    media_turn allow_preview base source (ok _) c =
        turn_from allow_preview base source
          (prepare_request pf fl self.codec self.detect self.upstream self.provider_name
            self.adapters self.runtime principal
            (context_for pf fl self request.model TokenScope.conversation) (some state.messages)
            false source (start_masking (turn_session none o.draws)))
          c

    -- `async with state.lock`, with the object as it is then.
    unfoldable pub locked_turn : Bool → Fields → Exec Chat ChatExecution
    unfolding media_turn
    locked_turn allow_preview base =
        let source = local_free_payload request in
        media_turn allow_preview base source (reject_unsanitized_media pf.unicode self.str source)

  -- Behind `get_or_create`: the mode, the refusal of streams, and the wait for the lock.
  unfoldable pub opened_turn : Bool → Mode → Conversation → Exec Chat ChatExecution
  unfolding locked_turn
  opened_turn allow_preview mode state c =
      if not (mode_beq state.session.mode mode)
      then (
        ok (
            failure 409 "A conversation cannot change its masking mode" "conversation_mode_mismatch"
              short_trace),
        c,
      )
      else if request.stream
      then (
        ok (
            failure 400 "Streaming is not supported in the MVP version" "unsupported_feature"
              (turn_trace state)),
        c,
      )
      else locked_turn (o.at_lock state) allow_preview (turn_trace state) (on_world o.before_lock c)

  abbrev pub opened_from :
      Bool → Mode → Chat → Result Conversation × Store → Result ChatExecution × Chat
  opened_from allow_preview mode c (ok state, s) =
      opened_turn allow_preview mode state (on_world (λ w. record w { conversations = s }) c)
  opened_from allow_preview mode c (err conversation_capacity, s) = (
    ok (
        failure 503 "Conversation capacity is temporarily exhausted"
          "conversation_capacity_exceeded" short_trace),
    on_world (λ w. record w { conversations = s }) c,
  )
  opened_from allow_preview mode c (err e, s) =
      (err e, on_world (λ w. record w { conversations = s }) c)

  abbrev pub opened_with : Bool → Mode → Result Session → Exec Chat ChatExecution
  opened_with allow_preview mode (err e) c = (err e, c)
  opened_with allow_preview mode (ok fresh) c =
      opened_from allow_preview mode c (get_or_create id owner fresh o.opened c.world.conversations)

  -- `_execute_conversation_chat`
  unfoldable pub execute_turn : Bool → Mode → Exec Chat ChatExecution
  unfolding opened_turn
  execute_turn allow_preview mode =
      opened_with allow_preview mode
        (new_session mode self.settings.policy o.namespace self.settings.budget o.draws)
