-- ===== src/Chat/Stateless/Sends.antt =====
-- app/chat/orchestrator.py: what a request outside a conversation sends to the provider.
use maskgate.Base.{
  Bool-cases, Exec, List, Result, Text, err, false, if-holds, inl, inr, none, ok, refl,
  resume-relates, subst, sym, ◌≡◌,
}
use maskgate.Json.{Fields}
use maskgate.Privacy.{Floats, TokenScope}
use maskgate.PolicyV2.{Platform}
use maskgate.Principal.{PrincipalContext}
use maskgate.Session.{Session, Mode, new_session}
use maskgate.Wire.{PrivacyCheckedPayload}
use maskgate.Pipeline.{Argument, process_output}
use maskgate.Runtime.{RequestContext}
use maskgate.Chat.Payload.{ChatRequest, local_free_payload, reject_unsanitized_media}
use maskgate.Chat.Types.{ChatExecution, Chat, Occasion}
use maskgate.Chat.Masking.{Masking, Prepared, start_masking, prepare_request}
use maskgate.Chat.Answer.{Orchestrator, complete, put_and_trace, context_for}
use maskgate.Chat.Laws.{IsPrepared, prepare_request-IsPrepared}
use maskgate.Chat.Sends.{
  SendsAtMost, SendsFrom, made_session, of_request, SendsPrepared, prepared-SendsPrepared,
  complete-SendsAtMost, put_and_trace-sent, rescue-state,
}
use maskgate.Chat.Stateless.{
  execute_stateless, reply_to, answer_request, guarded_answer, after_preparation, with_session,
  with_media, with_new_session, base_trace,
}

module _ (pf : Platform) (fl : Floats) {C : Type 0} (self : Orchestrator pf fl C)
    (principal : PrincipalContext) (o : Occasion) (request : ChatRequest) where
  abbrev AtMost : PrivacyCheckedPayload → Chat → Chat → Type 0
  AtMost checked c d = SendsAtMost pf fl self checked c.sent d.sent

  reply_to-AtMost :
      (m : Masking) (base : Fields) (checked : PrivacyCheckedPayload) (c : Chat)
      → AtMost checked c (reply_to pf fl self principal o request m base checked c).1
  unfolding reply_to
  reply_to-AtMost m base checked c =
      let (r, d) = complete pf fl self o checked c in
      let sends = complete-SendsAtMost pf fl self o checked c in
      resume-relates (AtMost checked c) r _ d sends (λ reply e.
        resume-relates (AtMost checked c)
          (process_output self.upstream self.provider_name self.adapters pf.unicode self.codec
            self.detect reply.payload m.session.vault.items)
          _ d sends (λ out f. sends))

  answer_request-AtMost :
      (m : Masking) (base : Fields) (checked : PrivacyCheckedPayload) (c : Chat)
      → AtMost checked c (guarded_answer pf fl self principal o request m base checked c).1
  unfolding guarded_answer answer_request complete
  answer_request-AtMost m base checked c =
      let body = answer_request pf fl self principal o request m base checked c in
      let same = rescue-state pf fl self o m base body in
      subst (λ (d : Chat). AtMost checked c d) (sym same)
        (elim (Bool-cases self.provider_ready) [
          | inl e ↦ rw e (reply_to-AtMost m base checked c)
          | inr e ↦ rw e (inl refl)
        ])

  module _ (mode : Mode) (base : Fields) where
    abbrev context : RequestContext
    context = context_for pf fl self request.model TokenScope.request

    abbrev source : Fields
    source = local_free_payload request

    abbrev Sends : Session → Chat → Chat → Type 0
    Sends s c d = SendsPrepared pf fl self false principal context none source s c.sent d.sent

    prepared-Sends :
        (s : Session) (r : Result (Prepared pf fl)) (m : Masking) (c : Chat)
        → ((p : Prepared pf fl)
            → r ≡ ok p
            → IsPrepared pf fl self false principal context none source s m p)
        → Sends s c (after_preparation pf fl self principal o request mode base source r m c).1
    unfolding after_preparation
    prepared-Sends s (err e) m c given = inl refl
    prepared-Sends s (ok p) m c given =
        let (r, d) = put_and_trace pf fl self o m.session p.checked base c in
        let same = put_and_trace-sent pf fl self o m.session p.checked base c in
        resume-relates (Sends s c) r _ d (inl same) (λ traced e.
          prepared-SendsPrepared pf fl self false principal context none source s m p c.sent _
            (given p refl)
            (subst
              (λ (before : List Argument).
                SendsAtMost pf fl self p.checked before
                  (guarded_answer pf fl self principal o request m traced p.checked d).1.sent)
              same (answer_request-AtMost m traced p.checked d)))

    session-Sends :
        (s : Session) (c : Chat)
        → Sends s c (with_session pf fl self principal o request mode base source s c).1
    unfolding with_session
    session-Sends s c =
        let (r, m) =
          prepare_request pf fl self.codec self.detect self.upstream self.provider_name
            self.adapters self.runtime principal context none false source (start_masking s) in
        prepared-Sends s r m c
          (λ p e. prepare_request-IsPrepared pf fl self false principal context none source s p e)

    media-Sends :
        (s : Session) (r : Result (Unit {0})) (c : Chat)
        → Sends s c (with_media pf fl self principal o request mode base source s r c).1
    unfolding with_media
    media-Sends s (err e) c = inl refl
    media-Sends s (ok _) c =
        if-holds (λ (x : Exec Chat ChatExecution). Sends s c (x c).1) request.stream _ _ (inl refl)
          (session-Sends s c)

    abbrev From : Chat → Chat → Type 0
    From c d =
        SendsFrom pf fl self principal o false request.model source (ok none) c.world.conversations
          c.sent d.sent

    new_session-Sends :
        (r : Result Session) (c : Chat)
        → ((s : Session) → r ≡ ok s → made_session pf fl self principal o mode ≡ ok s)
        → From c (with_new_session pf fl self principal o request mode base source r c).1
    new_session-Sends (err e) c given = inl refl
    new_session-Sends (ok s) c given = inr (
      TokenScope.request,
      none,
      s,
      of_request mode refl (given s refl),
      media-Sends s (reject_unsanitized_media pf.unicode self.str source) c,
    )

  pub execute_stateless-Sends :
      (mode : Mode) (mode_name : Text) (c : Chat)
      → SendsFrom pf fl self principal o false request.model
          (local_free_payload request)
          (ok none)
          c.world.conversations
          c.sent
          (execute_stateless pf fl self principal o request mode mode_name c).1.sent
  unfolding execute_stateless
  execute_stateless-Sends mode mode_name c =
      new_session-Sends mode (base_trace o mode_name)
        (new_session mode self.settings.policy o.namespace self.settings.budget o.draws) c
        (λ s e. e)
