-- ===== src/Chat/Turns/Sends.antt =====
-- app/chat/orchestrator.py: what a turn of a conversation sends to the provider.
use maskgate.Base.{
  Bool, Error, Exec, List, Option, Result, Text, arith, conversation_capacity, err, false, if-holds,
  inl, inr, ltb, none, not, ok, refl, resume-relates, some, subst, sym, unsafe_media, ◌≡◌,
}
use maskgate.Json.{Fields}
use maskgate.Privacy.{Floats, TokenScope}
use maskgate.PolicyV2.{Platform}
use maskgate.Principal.{PrincipalContext, vault_namespace}
use maskgate.Session.{Session, Mode, new_session, clone}
use maskgate.Conversations.{Store, Conversation, get_or_create}
use maskgate.OutputGuard.{sanitize_for_history}
use maskgate.Wire.{PrivacyCheckedPayload}
use maskgate.Pipeline.{Argument, process_output, Reply}
use maskgate.Runtime.{RequestContext}
use maskgate.Chat.Payload.{ChatRequest, local_free_payload, reject_unsanitized_media, messages_of}
use maskgate.Chat.Types.{ChatExecution, Chat, Occasion, blocked_types, mode_beq}
use maskgate.Chat.Masking.{Masking, Prepared, start_masking, prepare_request}
use maskgate.Chat.Answer.{
  Orchestrator, complete, put_and_trace, context_for, on_world, answered_trace,
}
use maskgate.Chat.Laws.{IsPrepared, prepare_request-IsPrepared}
use maskgate.Chat.Sends.{
  SendsAtMost, SendsFrom, made_session, of_conversation, SendsPrepared, prepared-SendsPrepared,
  complete-SendsAtMost, put_and_trace-sent, rescue-state,
}
use maskgate.Chat.Turns.{
  owner, execute_turn, reply_turn, answer_turn, guarded_turn, continue_turn, media_turn,
  locked_turn, opened_turn, opened_from, opened_with, remember, store_turn, commit_turn,
  forget_unused, refuse_turn, refuse_as, messages_in, turn_session, turn_trace,
}

module _ (pf : Platform) (fl : Floats) {C : Type 0} (self : Orchestrator pf fl C)
    (principal : PrincipalContext) (o : Occasion) (request : ChatRequest)
    (id mode_name : Text) where
  abbrev AtMost : PrivacyCheckedPayload → Chat → Chat → Type 0
  AtMost checked c d = SendsAtMost pf fl self checked c.sent d.sent

  module _ (state : Conversation) where
    remember-sent :
        (m : Masking) (payload : Fields) (reply : Reply) (trace : Fields) (c : Chat)
        → (remember pf fl self principal o request id mode_name state m payload reply trace
            c).1.sent
          ≡ c.sent
    unfolding remember store_turn commit_turn
    remember-sent m payload reply trace c =
        if-holds (λ (x : Exec Chat Fields). (x c).1.sent ≡ c.sent) (ltb reply.status_code 400) _ _
          (resume-relates (λ (d : Chat). d.sent ≡ c.sent) (messages_in (messages_of payload)) _ c
            refl
            (λ said e.
              resume-relates (λ (d : Chat). d.sent ≡ c.sent)
                (sanitize_for_history self.detect m.session.vault.items reply.payload) _ c refl
                (λ safe f. refl)))
          refl

    reply_turn-AtMost :
        (m : Masking) (payload base : Fields) (checked : PrivacyCheckedPayload) (c : Chat)
        → AtMost checked c
            (reply_turn pf fl self principal o request id mode_name state m payload base checked
              c).1
    unfolding reply_turn
    reply_turn-AtMost m payload base checked c =
        let (r, d) = complete pf fl self o checked c in
        let sends = complete-SendsAtMost pf fl self o checked c in
        resume-relates (AtMost checked c) r _ d sends (λ reply e.
          resume-relates (AtMost checked c)
            (process_output self.upstream self.provider_name self.adapters pf.unicode self.codec
              self.detect reply.payload m.session.vault.items)
            _ d sends
            (λ out f.
              let trace = answered_trace pf fl self o m base reply in
              let (q, g) =
                remember pf fl self principal o request id mode_name state m payload reply trace
                  d in
              let same = remember-sent m payload reply trace d in
              let after =
                subst (λ (l : List Argument). SendsAtMost pf fl self checked c.sent l) (sym same)
                  sends in
              resume-relates (AtMost checked c) q _ g after (λ t h. after)))

    guarded_turn-AtMost :
        (allow_preview : Bool) (m : Masking) (payload base : Fields)
        (checked : PrivacyCheckedPayload) (c : Chat)
        → AtMost checked c
            (guarded_turn pf fl self principal o request id mode_name state allow_preview m payload
              base checked c).1
    unfolding guarded_turn answer_turn
    guarded_turn-AtMost allow_preview m payload base checked c =
        let body =
          answer_turn pf fl self principal o request id mode_name state allow_preview m payload base
            checked c in
        let same = rescue-state pf fl self o m base body in
        subst (λ (d : Chat). AtMost checked c d) (sym same)
          (if-holds (λ (x : Exec Chat ChatExecution). AtMost checked c (x c).1) self.provider_ready
            _ _ (reply_turn-AtMost m payload base checked c)
            (if-holds (λ (x : Exec Chat ChatExecution). AtMost checked c (x c).1) allow_preview _ _
              (inl refl) (inl refl)))

    forget_unused-sent :
        (c : Chat)
        → (forget_unused pf fl self principal o request id mode_name state c).sent ≡ c.sent
    unfolding forget_unused
    forget_unused-sent c = ground arith

    abbrev context : RequestContext
    context = context_for pf fl self request.model TokenScope.conversation

    abbrev source : Fields
    source = local_free_payload request

    abbrev own_session : Session
    own_session = turn_session pf fl self principal o request id mode_name state none o.draws

    abbrev Sends : Chat → Chat → Type 0
    Sends c d =
        SendsPrepared pf fl self false principal context (some state.messages) source own_session
          c.sent d.sent

    refuse-Sends :
        (types : Option (List Text)) (base : Fields) (m : Masking) (e : Error) (c : Chat)
        → Sends c
            (refuse_as pf fl self principal o request id mode_name state types base m source e c).1
    refuse-Sends none base m e c = inl refl
    refuse-Sends (some types) base m e c = inl (forget_unused-sent c)

    prepared-Sends :
        (allow_preview : Bool) (base : Fields) (r : Result (Prepared pf fl)) (m : Masking)
        (c : Chat)
        → ((p : Prepared pf fl)
            → r ≡ ok p
            → IsPrepared pf fl self false principal context
                (some state.messages)
                source
                own_session
                m
                p)
        → Sends c
            (continue_turn pf fl self principal o request id mode_name state allow_preview base
              source r m c).1
    unfolding continue_turn refuse_turn
    prepared-Sends allow_preview base (err e) m c given = refuse-Sends (blocked_types e) base m e c
    prepared-Sends allow_preview base (ok p) m c given =
        let (r, d) = put_and_trace pf fl self o m.session p.checked base c in
        let same = put_and_trace-sent pf fl self o m.session p.checked base c in
        resume-relates (Sends c) r _ d (inl same) (λ traced e.
          prepared-SendsPrepared pf fl self false principal context (some state.messages) source
            own_session m p c.sent _ (given p refl)
            (subst
              (λ (before : List Argument).
                SendsAtMost pf fl self p.checked before
                  (guarded_turn pf fl self principal o request id mode_name state allow_preview m
                    p.payload traced p.checked d).1.sent)
              same (guarded_turn-AtMost allow_preview m p.payload traced p.checked d)))

    media-Sends :
        (allow_preview : Bool) (base : Fields) (r : Result (Unit {0})) (c : Chat)
        → Sends c
            (media_turn pf fl self principal o request id mode_name state allow_preview base source
              r c).1
    unfolding media_turn
    media-Sends allow_preview base (ok _) c =
        let (r, m) =
          prepare_request pf fl self.codec self.detect self.upstream self.provider_name
            self.adapters self.runtime principal context (some state.messages) false source
            (start_masking own_session) in
        prepared-Sends allow_preview base r m c (λ p e.
          prepare_request-IsPrepared pf fl self false principal context (some state.messages) source
            own_session p e)
    media-Sends allow_preview base (err (unsafe_media kind)) c = inl (forget_unused-sent c)
    media-Sends allow_preview base (err _) c = inl refl

    locked-Sends :
        (allow_preview : Bool) (base : Fields) (c : Chat)
        → Sends c
            (locked_turn pf fl self principal o request id mode_name state allow_preview base c).1
    unfolding locked_turn
    locked-Sends allow_preview base c =
        media-Sends allow_preview base (reject_unsanitized_media pf.unicode self.str source) c

  -- From the state of this conversation when its lock is taken.
  abbrev FoundSends : Conversation → List Argument → List Argument → Type 0
  FoundSends found before after =
      SendsPrepared pf fl self false principal
        (context_for pf fl self request.model TokenScope.conversation)
        (some (o.at_lock found).messages) (local_free_payload request)
        (record (clone none (o.at_lock found).session) { draws = o.draws }) before after

  opened-FoundSends :
      (allow_preview : Bool) (mode : Mode) (state : Conversation) (c : Chat)
      → FoundSends state c.sent
          (opened_turn pf fl self principal o request id mode_name allow_preview mode state
            c).1.sent
  unfolding opened_turn
  opened-FoundSends allow_preview mode state c =
      let locked = o.at_lock state in
      let base = turn_trace pf fl self principal o request id mode_name state in
      if-holds (λ (x : Result ChatExecution × Chat). FoundSends state c.sent x.1.sent)
        (not (mode_beq state.session.mode mode)) _ _ (inl refl)
        (if-holds (λ (x : Result ChatExecution × Chat). FoundSends state c.sent x.1.sent)
          request.stream _ _ (inl refl)
          (locked-Sends locked allow_preview base (on_world o.before_lock c)))

  abbrev pub TurnSends : Chat → Chat → Type 0
  TurnSends c d =
      SendsFrom pf fl self principal o false request.model (local_free_payload request)
        (ok (some id)) c.world.conversations c.sent d.sent

  got-TurnSends :
      (allow_preview : Bool) (mode : Mode) (made : Session) (c : Chat)
      (x : Result Conversation × Store)
      → made_session pf fl self principal o mode ≡ ok made
      → ((found : Conversation)
          → x.0 ≡ ok found
          → (get_or_create id (vault_namespace principal) made o.opened c.world.conversations).0
            ≡ ok found)
      → TurnSends c
          (opened_from pf fl self principal o request id mode_name allow_preview mode c x).1
  got-TurnSends allow_preview mode made c (ok state, s) e given = inr (
    TokenScope.conversation,
    some (o.at_lock state).messages,
    record (clone none (o.at_lock state).session) { draws = o.draws },
    of_conversation mode id made state refl e (given state refl),
    opened-FoundSends allow_preview mode state (on_world (λ w. record w { conversations = s }) c),
  )
  got-TurnSends allow_preview mode made c (err conversation_capacity, s) e given = inl refl
  got-TurnSends allow_preview mode made c (err _, s) e given = inl refl

  new-TurnSends :
      (allow_preview : Bool) (mode : Mode) (r : Result Session) (c : Chat)
      → ((made : Session) → r ≡ ok made → made_session pf fl self principal o mode ≡ ok made)
      → TurnSends c
          (opened_with pf fl self principal o request id mode_name allow_preview mode r c).1
  new-TurnSends allow_preview mode (err e) c given = inl refl
  new-TurnSends allow_preview mode (ok made) c given =
      got-TurnSends allow_preview mode made c
        (get_or_create id (owner pf fl self principal o request id mode_name) made o.opened
          c.world.conversations)
        (given made refl) (λ found e. e)

  pub execute_turn-Sends :
      (allow_preview : Bool) (mode : Mode) (c : Chat)
      → TurnSends c
          (execute_turn pf fl self principal o request id mode_name allow_preview mode c).1
  unfolding execute_turn
  execute_turn-Sends allow_preview mode c =
      new-TurnSends allow_preview mode
        (new_session mode self.settings.policy o.namespace self.settings.budget o.draws) c
        (λ made e. e)
