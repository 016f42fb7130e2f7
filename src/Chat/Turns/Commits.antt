-- ===== src/Chat/Turns/Commits.antt =====
-- app/chat/orchestrator.py: when a turn changes the conversations that are stored, and to what.
use maskgate.Base.{
  Bool, Bool-cases, Exec, List, Result, Text, adapter_error, ap, arith, err, false, if-holds,
  if◌then◌else◌, inl, inr, length, lift, ltb, ok, pure, refl, resume, resume-ok, resume-relates,
  subst, sym, true, ◌++◌, ◌<◌, ◌∙◌, ◌≡◌, ◌⊎◌,
}
use maskgate.Json.{Json, Fields}
use maskgate.Privacy.{Floats}
use maskgate.PolicyV2.{Platform}
use maskgate.Principal.{PrincipalContext}
use maskgate.Conversations.{Store, Conversation, commit}
use maskgate.OutputGuard.{sanitize_for_history}
use maskgate.Pipeline.{Argument, checked_reply, process_output, Reply, invalid_response}
use maskgate.Pipeline.Response.{validate_chat_completion_response}
use maskgate.Chat.Payload.{ChatRequest, messages_of}
use maskgate.Chat.Types.{ChatExecution, Chat, Occasion}
use maskgate.Chat.Masking.{Masking, Prepared}
use maskgate.Chat.Answer.{Orchestrator, complete, send, answered_trace}
use maskgate.Chat.Sends.{argument_for, rescue-state}
use maskgate.Chat.Turns.{
  reply_turn, answer_turn, guarded_turn, remember, store_turn, commit_turn, messages_in,
  plus_message, assistant_message,
}

module _ (pf : Platform) (fl : Floats) {C : Type 0} (self : Orchestrator pf fl C)
    (principal : PrincipalContext) (o : Occasion) (request : ChatRequest) (id mode_name : Text)
    (state : Conversation) where
  abbrev pub conversations_of : Chat → Store
  conversations_of c = c.world.conversations

  -- The store that a turn commits: the conversation with the session of this turn and, behind its
  -- history, the masked messages and the answer as it is fit for the history.
  pub record IsCommit (m : Masking) (p : Prepared pf fl) (before after : Store) : Type 0 where
    pub argument : Argument
    pub sent : argument_for pf fl self p.checked ≡ ok argument
    pub reply : Reply
    pub received : o.reply argument ≡ ok reply
    pub succeeded : reply.status_code < 400
    pub valid : validate_chat_completion_response reply.payload ≡ ok tt
    pub said : List Fields
    pub masked : messages_in (messages_of p.payload) ≡ ok said
    pub safe : Json
    pub sanitized : sanitize_for_history self.detect m.session.vault.items reply.payload ≡ ok safe
    pub committed :
        after
        ≡ commit
            (λ v. length (self.str v))
            state
            m.session
            (plus_message (assistant_message safe) (state.messages ++ said))
            o.closed
            before

  -- What becomes of the store: it stays, or it is what others have made of it during the call, or the
  -- turn is committed on top of that.
  pub data Effect (m : Masking) (p : Prepared pf fl) (c d : Chat) : Type 0 where
    stays : conversations_of d ≡ conversations_of c → Effect m p c d
    waits : conversations_of d ≡ (o.during_call c.world).conversations → Effect m p c d
    commits :
        IsCommit m p (o.during_call c.world).conversations (conversations_of d) → Effect m p c d

  abbrev checked_of : Reply → Result Reply
  checked_of =
      checked_reply self.upstream self.provider_name self.adapters pf.unicode self.codec self.detect

  validated :
      (reply : Reply) (r : Result (Unit {0})) (s : Reply)
      → validate_chat_completion_response reply.payload ≡ r
      → elim (invalid_response r) [ ok _ ↦ ok reply | err e ↦ err e ] ≡ ok s
      → (reply ≡ s) × (validate_chat_completion_response reply.payload ≡ ok tt)
  validated reply (ok _) s e h = (ground arith, e)
  validated reply (err adapter_error) s e h = absurd (cc)
  validated reply (err _) s e h = absurd (cc)

  checked_of-ok :
      (reply s : Reply)
      → checked_of reply ≡ ok s
      → (reply ≡ s)
        × (reply.status_code < 400 → validate_chat_completion_response reply.payload ≡ ok tt)
  unfolding checked_reply
  checked_of-ok reply s h = elim (Bool-cases (ltb reply.status_code 400)) [
    | inl e ↦
        let (same, valid) =
          validated reply (validate_chat_completion_response reply.payload) s refl
            (ground (arith, h, e)) in
        (same, λ low. valid)
    | inr e ↦ (ground (arith, h, e), λ low. absurd (ground (arith, e, low)))
  ]

  -- Of an answer that has come: it was the provider's, and a success is well-formed.
  abbrev Answered : Prepared pf fl → Reply → Type 0
  Answered p reply =
      (a : Argument) × (argument_for pf fl self p.checked ≡ ok a)
      × (o.reply a ≡ ok reply)
      × (reply.status_code < 400 → validate_chat_completion_response reply.payload ≡ ok tt)

  abbrev Called : Prepared pf fl → Chat → Result Reply × Chat → Type 0
  Called p c (r, d) =
      ((conversations_of d ≡ conversations_of c)
        ⊎ (conversations_of d ≡ (o.during_call c.world).conversations))
      × ((reply : Reply)
          → r ≡ ok reply
          → (conversations_of d ≡ (o.during_call c.world).conversations) × Answered p reply)

  abbrev exchange : Argument → Exec Chat Reply
  exchange a c = resume (o.reply a) (λ reply. lift (checked_of reply)) (send pf fl self o a c).1

  exchanged :
      (p : Prepared pf fl) (a : Argument) (c : Chat)
      → argument_for pf fl self p.checked ≡ ok a
      → Called p c (exchange a c)
  unfolding send
  exchanged p a c e =
      let d = (send pf fl self o a c).1 in
      let after = (o.during_call c.world).conversations in
      let same =
        resume-relates (λ (x : Chat). conversations_of x ≡ after) (o.reply a)
          (λ reply. lift (checked_of reply)) d refl (λ reply f. refl) in
      (
        inr same,
        λ reply h.
            let (given, f, k) = resume-ok (o.reply a) (λ reply. lift (checked_of reply)) d h in
            let (equal, valid) = checked_of-ok given reply k in
            (same, subst (Answered p) equal (a, e, f, valid)),
      )

  Called-resume :
      (p : Prepared pf fl) (c : Chat) (r : Result Argument)
      → argument_for pf fl self p.checked ≡ r
      → Called p c (resume r exchange c)
  Called-resume p c (err e) h = (inl refl, λ reply k. absurd (cc))
  Called-resume p c (ok a) h = exchanged p a c h

  -- The call of the provider, with what it answers.
  called : (p : Prepared pf fl) (c : Chat) → Called p c (complete pf fl self o p.checked c)
  unfolding complete send
  called p c = Called-resume p c (argument_for pf fl self p.checked) refl

  module _ (m : Masking) (p : Prepared pf fl) (base : Fields) (c : Chat) where
    abbrev later : Store
    later = (o.during_call c.world).conversations

    module _ (reply : Reply) (trace : Fields) (d : Chat) (same : conversations_of d ≡ later)
        (answered : Answered p reply) where
      abbrev tell : Exec Chat Fields
      tell = store_turn pf fl self principal o request id mode_name state m p.payload reply trace

      stored-Effect : reply.status_code < 400 → Effect m p c (tell d).1
      unfolding store_turn commit_turn
      stored-Effect low =
          let (a, sent, received, valid) = answered in
          resume-relates (Effect m p c) (messages_in (messages_of p.payload)) _ d (waits same)
            (λ said e.
              resume-relates (Effect m p c)
                (sanitize_for_history self.detect m.session.vault.items reply.payload) _ d
                (waits same)
                (λ safe f. commits (record {
                  argument = a;
                  sent = sent;
                  reply = reply;
                  received = received;
                  succeeded = low;
                  valid = valid low;
                  said = said;
                  masked = e;
                  safe = safe;
                  sanitized = f;
                  committed =
                      ap
                        (λ (store : Store).
                          commit (λ v. length (self.str v)) state m.session
                            (plus_message (assistant_message safe) (state.messages ++ said))
                            o.closed store)
                        same;
                })))

      remembered-Effect :
          (b : Bool)
          → ltb reply.status_code 400 ≡ b
          → Effect m p c ((if b then tell else pure trace) d).1
      remembered-Effect true e = stored-Effect (ground (arith, e))
      remembered-Effect false e = waits same

      remember-Effect :
          Effect m p c
            (remember pf fl self principal o request id mode_name state m p.payload reply trace d).1
      unfolding remember
      remember-Effect = remembered-Effect (ltb reply.status_code 400) refl

    replied-Effect :
        Effect m p c
          (reply_turn pf fl self principal o request id mode_name state m p.payload base p.checked
            c).1
    unfolding reply_turn
    replied-Effect =
        let (r, d) = complete pf fl self o p.checked c in
        let (states, answers) = called p c in
        let before : Effect m p c d = elim states [ inl e ↦ stays e | inr e ↦ waits e ] in
        resume-relates (Effect m p c) r _ d before (λ reply e.
          let (same, answered) = answers reply e in
          resume-relates (Effect m p c)
            (process_output self.upstream self.provider_name self.adapters pf.unicode self.codec
              self.detect reply.payload m.session.vault.items)
            _ d (waits same)
            (λ out f.
              let trace = answered_trace pf fl self o m base reply in
              let (q, g) =
                remember pf fl self principal o request id mode_name state m p.payload reply trace
                  d in
              let kept = remember-Effect reply trace d same answered in
              resume-relates (Effect m p c) q _ g kept (λ t h. kept)))

    finished-Effect :
        (d e : Chat) → conversations_of e ≡ conversations_of d → Effect m p c d → Effect m p c e
    finished-Effect d e same (stays h) = stays (same ∙ h)
    finished-Effect d e same (waits h) = waits (same ∙ h)
    finished-Effect d e same (commits h) =
        commits (subst (λ (store : Store). IsCommit m p later store) (sym same) h)

    pub guarded-Effect :
        (allow_preview : Bool)
        → Effect m p c
            (guarded_turn pf fl self principal o request id mode_name state allow_preview m
              p.payload base p.checked c).1
    unfolding guarded_turn answer_turn
    guarded-Effect allow_preview =
        let body =
          answer_turn pf fl self principal o request id mode_name state allow_preview m p.payload
            base p.checked c in
        let same = rescue-state pf fl self o m base body in
        finished-Effect body.1 _ (ap (λ (d : Chat). conversations_of d) same) (
          if-holds (λ (x : Exec Chat ChatExecution). Effect m p c (x c).1) self.provider_ready _ _
            replied-Effect
            (if-holds (λ (x : Exec Chat ChatExecution). Effect m p c (x c).1) allow_preview _ _
              (stays refl) (stays refl)))
