-- ===== src/Chat/Streams.antt =====
-- app/chat/orchestrator.py: `stream_chat`.
pub mod Media
pub mod Locks
pub mod Sends
use maskgate.Base.{
  Bool, Error, Exec, List, Option, Result, Text, [], conversation_capacity, dedupe, err, false,
  if◌then◌else◌, list_eq, nat_eq, none, ok, option_eq, pair_eq, some, true, unsafe_media,
  wire_violation, ◌∷◌,
}
use Prim.Native.String.{String}
use maskgate.Json.{Json, Items, Fields}
use maskgate.Privacy.{Floats, TokenScope}
use maskgate.PolicyV2.{Platform}
use maskgate.Principal.{PrincipalContext, vault_namespace}
use maskgate.Session.{Session, Mode, new_session, clone}
use maskgate.Conversations.{
  Store, Conversation, get_or_create, commit, delete_conversation, touch, validate_conversation_id,
}
use maskgate.Wire.{PrivacyCheckedPayload}
use maskgate.Pipeline.{Argument, argument_of}
use maskgate.Streaming.{Buffers, push_event, finish_events, provider_text}
use maskgate.Chat.{or_text, requested_mode}
use maskgate.Chat.Payload.{ChatRequest, local_free_payload, reject_unsanitized_media, messages_of}
use maskgate.Chat.Types.{
  World, Chat, ChatSettings, Occasion, text, texts, dict, error_payload, mode_beq, parse_mode,
  blocked_types, upstream_failure,
}
use maskgate.Chat.Masking.{Masking, Prepared, start_masking, prepare_request}
use maskgate.Chat.Answer.{Orchestrator, on_world, put_items, delete_items, context_for}
use maskgate.Chat.Turns.{is_unused, messages_in}
use maskgate.Chat.Generator.{Stream, StreamCall, StreamReply, refuse_with, failed, serve_stream}

module _ (pf : Platform) (fl : Floats) {C : Type 0} (self : Orchestrator pf fl C)
    (principal : PrincipalContext) (o : Occasion) (call : StreamCall) (request : ChatRequest) where
  abbrev pub delete_state : Conversation → World → World
  delete_state c w = record w {
    conversations = delete_conversation c.conversation_id c.owner_id w.conversations;
  }

  -- What a refusal leaves: an unused conversation is deleted, and the lock released.
  unfoldable pub release_refused : Option Conversation → Stream → Stream
  release_refused none s = s
  release_refused (some state) s = record {
    chat = if is_unused state then on_world (delete_state state) s.chat else s.chat;
    held = false;
  }

  unfoldable pub refusal_reply : Error → Result StreamReply
  refusal_reply wire_violation = ok (
      refuse_with 400 "Final wire privacy validation rejected the provider request"
        "wire_privacy_violation")
  refusal_reply e = elim (blocked_types e) [
    | none ↦ err e
    | some types ↦ ok (
        failed 400 (
          error_payload (text "Request blocked because sensitive data was detected")
            (text "policy_block") (dict (("entities", texts (dedupe types)) ∷ []))))
  ]

  -- An exception of another class leaves the method, and the lock stays as it is.
  abbrev pub leave_refused :
      Option (List Text) → Option Conversation → Error → Exec Stream StreamReply
  leave_refused none state e s = (err e, s)
  leave_refused (some types) state e s = (refusal_reply e, release_refused state s)

  abbrev pub answered : StreamReply × Stream → Result StreamReply × Stream
  answered (reply, t) = (ok reply, t)

  unfoldable pub after_masking :
      Option Conversation → Result (Prepared pf fl) × Masking → Exec Stream StreamReply
  unfolding serve_stream refusal_reply release_refused
  after_masking state (err e, m) s = leave_refused (blocked_types e) state e s
  after_masking state (ok p, m) s =
      if call.supported
      then answered (
          serve_stream pf fl self o call state m p
            (record s { chat = on_world (put_items o m.session) s.chat }))
      else (
        ok (
            refuse_with 501 "The configured upstream does not support streaming"
              "unsupported_feature"),
        record s { held = false },
      )

  abbrev pub scope_of : Option Conversation → TokenScope
  scope_of none = TokenScope.request
  scope_of (some state) = TokenScope.conversation

  abbrev pub history_of : Option Conversation → Option (List Fields)
  history_of none = none
  history_of (some state) = some state.messages

  abbrev pub masked_stream : Option Conversation → Session → Result (Prepared pf fl) × Masking
  masked_stream state s =
      prepare_request pf fl self.codec self.detect self.upstream self.provider_name self.adapters
        self.runtime principal (context_for pf fl self request.model (scope_of state))
        (history_of state) true (local_free_payload request) (start_masking s)

  abbrev pub stream_session : Mode → Option Conversation → Result Session
  stream_session mode none =
      new_session mode self.settings.policy o.namespace self.settings.budget o.draws
  stream_session mode (some state) = ok (record (clone none state.session) { draws = o.draws })

  abbrev pub with_stream_session : Option Conversation → Result Session → Exec Stream StreamReply
  with_stream_session state (err e) s = (err e, s)
  with_stream_session state (ok session) s = after_masking state (masked_stream state session) s

  abbrev pub unsafe_kind : Error → Option Text
  unsafe_kind (unsafe_media kind) = some kind
  unsafe_kind _ = none

  abbrev pub refuse_media : Option Text → Option Conversation → Error → Exec Stream StreamReply
  refuse_media none state e s = (err e, s)
  refuse_media (some kind) state e s = (
    ok (
        failed 400 (
          error_payload
            (text
              "Image or screen content requires local OCR/redaction before it can be sent upstream")
            (text "media_not_sanitized") (dict (("media_type", Json.string kind) ∷ [])))),
    release_refused state s,
  )

  -- Behind `reject_unsanitized_media`
  unfoldable pub with_stream_media :
      Mode → Option Conversation → Result (Unit {0}) → Exec Stream StreamReply
  unfolding after_masking
  with_stream_media mode state (err e) s = refuse_media (unsafe_kind e) state e s
  with_stream_media mode state (ok _) s = with_stream_session state (stream_session mode state) s

  -- `stream_chat` with its state and, in a conversation, the lock.
  unfoldable pub stream_state : Mode → Option Conversation → Exec Stream StreamReply
  unfolding with_stream_media
  stream_state mode state =
      with_stream_media mode state
        (reject_unsanitized_media pf.unicode self.str (local_free_payload request))

  -- The comparison of modes and the wait for the lock.
  abbrev pub compare_modes : Mode → Conversation → Chat → Bool → Result StreamReply × Stream
  compare_modes mode state c true =
      stream_state mode (some (o.at_lock state))
        (record { chat = on_world o.before_lock c; held = true })
  compare_modes mode state c false = (
    ok (
        refuse_with 409 "A conversation cannot change its masking mode"
          "conversation_mode_mismatch"),
    record { chat = c; held = false },
  )

  abbrev pub capacity_reply : Error → Result StreamReply
  capacity_reply conversation_capacity = ok (
      refuse_with 503 "Conversation capacity is temporarily exhausted"
        "conversation_capacity_exceeded")
  capacity_reply e = err e

  -- Behind `get_or_create`
  unfoldable pub stream_opened :
      Mode → Chat → Result Conversation × Store → Result StreamReply × Stream
  unfolding stream_state
  stream_opened mode c (ok state, store) =
      compare_modes mode state (on_world (λ w. record w { conversations = store }) c)
        (mode_beq state.session.mode mode)
  stream_opened mode c (err e, store) = (
    capacity_reply e,
    record { chat = on_world (λ w. record w { conversations = store }) c; held = false },
  )

  abbrev pub stream_fresh : Mode → Text → Chat → Result Session → Result StreamReply × Stream
  stream_fresh mode id c (err e) = (err e, record { chat = c; held = false })
  stream_fresh mode id c (ok fresh) =
      stream_opened mode c
        (get_or_create id (vault_namespace principal) fresh o.opened c.world.conversations)

  abbrev pub stream_in : Mode → Result (Option Text) → Chat → Result StreamReply × Stream
  stream_in mode (err e) c = (
    ok (
        refuse_with 422 "conversation_id must contain 8-128 letters, digits, '_' or '-'"
          "invalid_conversation_id"),
    record { chat = c; held = false },
  )
  stream_in mode (ok none) c = stream_state mode none (record { chat = c; held = false })
  stream_in mode (ok (some id)) c =
      stream_fresh mode id c
        (new_session mode self.settings.policy o.namespace self.settings.budget o.draws)

  abbrev pub stream_mode : Option Mode → Result (Option Text) → Chat → Result StreamReply × Stream
  stream_mode none id c = (
    ok (refuse_with 422 "masking_mode is not supported" "invalid_masking_mode"),
    record { chat = c; held = false },
  )
  stream_mode (some mode) id c = stream_in mode id c

  -- `stream_chat`, and the run of the generator that it answers with.
  unfoldable pub stream_chat : Option Text → Bool → Chat → Result StreamReply × Stream
  unfolding stream_opened
  stream_chat override allow_mode_override c =
      if self.provider_ready
      then stream_mode
          (parse_mode
            (requested_mode allow_mode_override request.masking_mode self.settings.masking_mode))
          (validate_conversation_id (or_text override request.conversation_id)) c
      else (
        ok (refuse_with 503 "The upstream provider is not configured" "provider_not_configured"),
        record { chat = c; held = false },
      )
