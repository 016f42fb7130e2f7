-- ===== src/Chat/Streams/Sends.antt =====
-- app/chat/orchestrator.py: what `stream_chat` sends to the provider.
use maskgate.Base.{
  Bool, Error, List, Option, Result, Text, arith, err, false, if-holds, inl, inr, none, ok, refl,
  some, subst, true, ◌≡◌, ◌⊎◌,
}
use maskgate.Privacy.{Floats, TokenScope}
use maskgate.PolicyV2.{Platform}
use maskgate.Principal.{PrincipalContext, vault_namespace}
use maskgate.Session.{Session, Mode, new_session, clone}
use maskgate.Conversations.{Store, Conversation, get_or_create}
use maskgate.Pipeline.{Argument}
use maskgate.Chat.Turns.{is_unused}
use maskgate.Chat.Payload.{ChatRequest, local_free_payload, reject_unsanitized_media}
use maskgate.Chat.Types.{Chat, Occasion, World, blocked_types, mode_beq}
use maskgate.Chat.Masking.{Masking, Prepared}
use maskgate.Chat.Answer.{Orchestrator, on_world, put_items, context_for}
use maskgate.Chat.Laws.{IsPrepared, prepare_request-IsPrepared}
use maskgate.Chat.{or_text}
use maskgate.Conversations.{validate_conversation_id}
use maskgate.Chat.Sends.{
  SendsFrom, made_session, of_request, of_conversation, SendsPrepared, prepared-SendsPrepared,
}
use maskgate.Chat.Generator.{Stream, StreamCall, StreamReply}
use maskgate.Chat.Streams.{
  release_refused, leave_refused, refuse_media, unsafe_kind, after_masking, masked_stream,
  stream_session, with_stream_session, with_stream_media, stream_state, scope_of, history_of,
  compare_modes, stream_opened, stream_fresh, stream_in, stream_mode, stream_chat,
}
use maskgate.Chat.Generator.Sends.{serve_stream-SendsAtMost}

module _ (pf : Platform) (fl : Floats) {C : Type 0} (self : Orchestrator pf fl C)
    (principal : PrincipalContext) (o : Occasion) (call : StreamCall) (request : ChatRequest) where
  -- What is sent once the session is there.
  abbrev Prepares :
      Option Conversation → Session → List Argument → Result StreamReply × Stream → Type 0
  Prepares state session before t =
      SendsPrepared pf fl self true principal
        (context_for pf fl self request.model (scope_of pf fl self principal o call request state))
        (history_of pf fl self principal o call request state) (local_free_payload request) session
        before t.1.chat.sent

  release-sent :
      (state : Option Conversation) (s : Stream)
      → (release_refused pf fl self principal o call request state s).chat.sent ≡ s.chat.sent
  unfolding release_refused
  release-sent none s = refl
  release-sent (some state) s =
      if-holds (λ (c : Chat). c.sent ≡ s.chat.sent) (is_unused state) _ _ refl refl

  leave-sent :
      (types : Option (List Text)) (state : Option Conversation) (e : Error) (s : Stream)
      → (leave_refused pf fl self principal o call request types state e s).1.chat.sent
        ≡ s.chat.sent
  leave-sent none state e s = refl
  leave-sent (some types) state e s = release-sent state s

  masked-Prepares :
      (state : Option Conversation) (session : Session) (r : Result (Prepared pf fl)) (m : Masking)
      (s : Stream)
      → ((p : Prepared pf fl)
          → r ≡ ok p
          → IsPrepared pf fl self true principal
              (context_for pf fl self request.model
                (scope_of pf fl self principal o call request state))
              (history_of pf fl self principal o call request state)
              (local_free_payload request)
              session
              m
              p)
      → Prepares state session s.chat.sent
          (after_masking pf fl self principal o call request state (r, m) s)
  unfolding after_masking
  masked-Prepares state session (err e) m s given = inl (leave-sent (blocked_types e) state e s)
  masked-Prepares state session (ok p) m s given =
      if-holds (Prepares state session s.chat.sent) call.supported _ _
        (prepared-SendsPrepared pf fl self true principal _ _ _ session m p _ _ (given p refl) (
          serve_stream-SendsAtMost pf fl self o call state m p
            (record s { chat = on_world (put_items o m.session) s.chat })))
        (inl refl)

  module _ (mode : Mode) (state : Option Conversation) where
    -- What is sent with the state that is there, and the session of it.
    abbrev Opens : List Argument → Result StreamReply × Stream → Type 0
    Opens before t =
        (t.1.chat.sent ≡ before)
        ⊎ ((session : Session) × (stream_session pf fl self principal o call request mode state
              ≡ ok session)
            × Prepares state session before t)

    session-Opens :
        (r : Result Session) (s : Stream)
        → ((session : Session)
            → r ≡ ok session
            → stream_session pf fl self principal o call request mode state ≡ ok session)
        → Opens s.chat.sent (with_stream_session pf fl self principal o call request state r s)
    session-Opens (err e) s given = inl refl
    session-Opens (ok session) s given =
        let (r, m) = masked_stream pf fl self principal o call request state session in
        inr (
          session,
          given session refl,
          masked-Prepares state session r m s
              (λ p e. prepare_request-IsPrepared pf fl self true principal _ _ _ session p e),
        )

    refuse-sent :
        (kind : Option Text) (e : Error) (s : Stream)
        → (refuse_media pf fl self principal o call request kind state e s).1.chat.sent
          ≡ s.chat.sent
    refuse-sent none e s = refl
    refuse-sent (some kind) e s = release-sent state s

    media-Opens :
        (r : Result (Unit {0})) (s : Stream)
        → Opens s.chat.sent (with_stream_media pf fl self principal o call request mode state r s)
    unfolding with_stream_media
    media-Opens (err e) s =
        inl (refuse-sent (unsafe_kind pf fl self principal o call request e) e s)
    media-Opens (ok u) s =
        session-Opens (stream_session pf fl self principal o call request mode state) s
          (λ session e. e)

    state-Opens :
        (s : Stream)
        → Opens s.chat.sent (stream_state pf fl self principal o call request mode state s)
    unfolding stream_state
    state-Opens s =
        media-Opens (reject_unsanitized_media pf.unicode self.str (local_free_payload request)) s

  -- Of a streaming request with this conversation id.
  abbrev pub StreamSends : Result (Option Text) → Chat → Chat → Type 0
  StreamSends id before after =
      SendsFrom pf fl self principal o true request.model (local_free_payload request) id
        before.world.conversations before.sent after.sent

  abbrev After : Result (Option Text) → Chat → Result StreamReply × Stream → Type 0
  After id c t = StreamSends id c t.1.chat

  module _ (mode : Mode) (c : Chat) where
    request-After : After (ok none) c (
        stream_state pf fl self principal o call request mode none
          (record { chat = c; held = false }))
    request-After = elim (state-Opens mode none (record { chat = c; held = false })) [
      | inl same ↦ inl same
      | inr (session, e, sends) ↦
          inr (TokenScope.request, none, session, of_request mode refl e, sends)
    ]

    module _ (id : Text) (fresh : Session)
        (e : made_session pf fl self principal o mode ≡ ok fresh) where
      compare-After :
          (state : Conversation) (w : World) (same : Bool)
          → (get_or_create id (vault_namespace principal) fresh o.opened c.world.conversations).0
            ≡ ok state
          → After (ok (some id)) c (
              compare_modes pf fl self principal o call request mode state
                (on_world (λ _. w) c)
                same)
      compare-After state w false given = inl refl
      compare-After state w true given =
          let own = record (clone none (o.at_lock state).session) { draws = o.draws } in
          let s : Stream = record {
            chat = on_world o.before_lock (on_world (λ _. w) c);
            held = true;
          } in
          elim (state-Opens mode (some (o.at_lock state)) s) [
            | inl same ↦ inl same
            | inr (session, f, sends) ↦
                let is_own : session ≡ own = ground (arith, f) in
                inr (
                  TokenScope.conversation,
                  some (o.at_lock state).messages,
                  own,
                  of_conversation mode id fresh state refl e given,
                  subst
                      (λ (x : Session). Prepares (some (o.at_lock state)) x c.sent (
                        stream_state pf fl self principal o call request mode
                          (some (o.at_lock state)) s))
                      is_own sends,
                )
          ]

      opened-After :
          (r : Result Conversation × Store)
          → ((state : Conversation)
              → r.0 ≡ ok state
              → (get_or_create id
                  (vault_namespace principal)
                  fresh
                  o.opened
                  c.world.conversations).0
                ≡ ok state)
          → After (ok (some id)) c (stream_opened pf fl self principal o call request mode c r)
      unfolding stream_opened
      opened-After (err e, store) given = inl refl
      opened-After (ok state, store) given =
          compare-After state (record c.world { conversations = store })
            (mode_beq state.session.mode mode) (given state refl)

    fresh-After :
        (id : Text) (r : Result Session)
        → ((fresh : Session) → r ≡ ok fresh → made_session pf fl self principal o mode ≡ ok fresh)
        → After (ok (some id)) c (stream_fresh pf fl self principal o call request mode id c r)
    fresh-After id (err e) given = inl refl
    fresh-After id (ok fresh) given =
        opened-After id fresh (given fresh refl)
          (get_or_create id (vault_namespace principal) fresh o.opened c.world.conversations)
          (λ state e. e)

    in-After :
        (id : Result (Option Text))
        → After id c (stream_in pf fl self principal o call request mode id c)
    in-After (err e) = inl refl
    in-After (ok none) = request-After
    in-After (ok (some id)) =
        fresh-After id
          (new_session mode self.settings.policy o.namespace self.settings.budget o.draws)
          (λ fresh e. e)

  mode-After :
      (mode : Option Mode) (id : Result (Option Text)) (c : Chat)
      → After id c (stream_mode pf fl self principal o call request mode id c)
  mode-After none id c = inl refl
  mode-After (some mode) id c = in-After mode c id

  -- Whatever a streaming request holds, wherever the reader goes and whatever is raised: the
  -- provider gets nothing, or one argument. Then that is the checked payload of a preparation of
  -- this request from its origin on. The origin is a new session and no history if the request
  -- names no conversation, and otherwise the session and the history of the conversation that
  -- get_or_create gives to this principal under that id, as it is when its lock is taken. Masking
  -- the request from that session on yields the payload and the values: each text of the request,
  -- keys included, is masked in its place, protocol identifiers excepted, which masking leaves as
  -- they are, and every value is what a detection marks in some text for which the policy's
  -- decision, for this principal and request, is ALLOW. The history stands before the messages; and
  -- what became of that passed the guard with no tokens and values but the replacements of the
  -- session that the masking ended with, and those values.
  pub stream_chat-Sends :
      (override : Option Text) (allow_mode_override : Bool) (c : Chat)
      → StreamSends
          (validate_conversation_id (or_text override request.conversation_id))
          c
          (stream_chat pf fl self principal o call request override allow_mode_override c).1.chat
  unfolding stream_chat
  stream_chat-Sends override allow_mode_override c =
      if-holds (After (validate_conversation_id (or_text override request.conversation_id)) c)
        self.provider_ready _ _ (mode-After _ _ c) (inl refl)
