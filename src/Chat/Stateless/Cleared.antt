-- ===== src/Chat/Stateless/Cleared.antt =====
-- app/chat/orchestrator.py: a request outside a conversation leaves no mapping.
use maskgate.Base.{Exec, Result, Text, err, false, if-holds, none, ok, refl, ◌≡◌}
use maskgate.Json.{Fields}
use maskgate.Privacy.{Floats, TokenScope}
use maskgate.PolicyV2.{Platform}
use maskgate.Principal.{PrincipalContext}
use maskgate.Session.{Session, Mode, new_session}
use maskgate.Runtime.{RequestContext}
use maskgate.Chat.Payload.{ChatRequest, local_free_payload, reject_unsanitized_media}
use maskgate.Chat.Types.{ChatExecution, Chat, Occasion}
use maskgate.Chat.Masking.{Masking, Prepared, start_masking, prepare_request}
use maskgate.Chat.Answer.{Orchestrator, rescue, context_for}
use maskgate.Chat.Laws.{IsPrepared, prepare_request-IsPrepared}
use maskgate.Chat.Cleared.{IsClear, finally_clear-IsClear, put_then-IsClear}
use maskgate.Chat.Stateless.{
  execute_stateless, answer_request, guarded_answer, after_preparation, with_session, with_media,
  with_new_session, base_trace,
}

module _ (pf : Platform) (fl : Floats) {C : Type 0} (self : Orchestrator pf fl C)
    (principal : PrincipalContext) (o : Occasion) (request : ChatRequest) (mode : Mode) where
  abbrev context : RequestContext
  context = context_for pf fl self request.model TokenScope.request

  abbrev source : Fields
  source = local_free_payload request

  prepared-IsClear :
      (base : Fields) (s : Session) (r : Result (Prepared pf fl)) (m : Masking) (c : Chat)
      → ((p : Prepared pf fl)
          → r ≡ ok p
          → IsPrepared pf fl self false principal context none source s m p)
      → IsClear o c.world
      → IsClear o (after_preparation pf fl self principal o request mode base source r m c).1.world
  unfolding after_preparation guarded_answer
  prepared-IsClear base s (err e) m c given clear = clear
  prepared-IsClear base s (ok p) m c given clear =
      put_then-IsClear pf fl self o principal context none source s m p base
        (λ traced. guarded_answer pf fl self principal o request m traced p.checked) c
        (given p refl)
        (λ traced d. finally_clear-IsClear pf fl self o (
          rescue pf fl self o m traced
            (answer_request pf fl self principal o request m traced p.checked d)))

  media-IsClear :
      (base : Fields) (s : Session) (r : Result (Unit {0})) (c : Chat)
      → IsClear o c.world
      → IsClear o (with_media pf fl self principal o request mode base source s r c).1.world
  unfolding with_media with_session
  media-IsClear base s (err e) c clear = clear
  media-IsClear base s (ok _) c clear =
      let (r, m) =
        prepare_request pf fl self.codec self.detect self.upstream self.provider_name self.adapters
          self.runtime principal context none false source (start_masking s) in
      if-holds (λ (x : Exec Chat ChatExecution). IsClear o (x c).1.world) request.stream _ _ clear
        (prepared-IsClear base s r m c
          (λ p e. prepare_request-IsPrepared pf fl self false principal context none source s p e)
          clear)

  new_session-IsClear :
      (base : Fields) (r : Result Session) (c : Chat)
      → IsClear o c.world
      → IsClear o (with_new_session pf fl self principal o request mode base source r c).1.world
  new_session-IsClear base (err e) c clear = clear
  new_session-IsClear base (ok s) c clear =
      media-IsClear base s (reject_unsanitized_media pf.unicode self.str source) c clear

  pub execute_stateless-IsClear :
      (mode_name : Text) (c : Chat)
      → IsClear o c.world
      → IsClear o (execute_stateless pf fl self principal o request mode mode_name c).1.world
  unfolding execute_stateless
  execute_stateless-IsClear mode_name c clear =
      new_session-IsClear (base_trace o mode_name)
        (new_session mode self.settings.policy o.namespace self.settings.budget o.draws) c clear
