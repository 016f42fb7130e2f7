-- ===== src/Chat/Sends.antt =====
-- app/chat/orchestrator.py: the provider gets nothing, or one payload that has been masked and checked.
use maskgate.Base.{
  Bool, List, Option, Result, Text, [], arith, err, inl, inr, none, ok, refl, resume-relates, some,
  ◌++◌, ◌∷◌, ◌≡◌, ◌⊎◌,
}
use maskgate.Json.{Fields}
use maskgate.Privacy.{Floats, TokenScope}
use maskgate.PolicyV2.{Platform}
use maskgate.Principal.{PrincipalContext, vault_namespace}
use maskgate.Session.{Session, Mode, new_session, clone}
use maskgate.Wire.{PrivacyCheckedPayload}
use maskgate.Pipeline.{Argument, argument_of}
use maskgate.Runtime.{RequestContext}
use maskgate.Chat.Types.{ChatExecution, Chat, Occasion}
use maskgate.Chat.Masking.{Masking, Prepared}
use maskgate.Conversations.{Store, Conversation, get_or_create}
use maskgate.Chat.Answer.{context_for, Orchestrator, complete, send, put_and_trace, rescue}
use maskgate.Chat.Laws.{IsPrepared}

pub rescue-state :
    (pf : Platform) (fl : Floats) {C : Type 0} (self : Orchestrator pf fl C) (o : Occasion)
    (m : Masking) (base : Fields) (x : Result ChatExecution × Chat)
    → (rescue pf fl self o m base x).1 ≡ x.1
rescue-state pf fl self o m base (ok x, c) = refl
rescue-state pf fl self o m base (err e, c) = refl

module _ (pf : Platform) (fl : Floats) {C : Type 0} (self : Orchestrator pf fl C) where
  abbrev pub argument_for : PrivacyCheckedPayload → Result Argument
  argument_for =
      argument_of self.upstream self.provider_name self.adapters pf.unicode self.codec self.detect

  -- Nothing was sent, or this payload.
  abbrev pub SendsAtMost : PrivacyCheckedPayload → List Argument → List Argument → Type 0
  SendsAtMost checked before after =
      (after ≡ before)
      ⊎ ((a : Argument) × (argument_for checked ≡ ok a) × (after ≡ before ++ a ∷ []))

  -- Nothing was sent, or one payload that was prepared for this principal, context, history and
  -- request from this session on.
  abbrev pub SendsPrepared :
      Bool
      → PrincipalContext
      → RequestContext
      → Option (List Fields)
      → Fields
      → Session
      → List Argument
      → List Argument
      → Type 0
  SendsPrepared stream principal context history source s before after =
      (after ≡ before)
      ⊎ ((m : Masking) × (p : Prepared pf fl) × (a : Argument) × IsPrepared pf fl self stream
            principal context history source s m p
          × (argument_for p.checked ≡ ok a)
          × (after ≡ before ++ a ∷ []))

  pub prepared-SendsPrepared :
      (stream : Bool) (principal : PrincipalContext) (context : RequestContext)
      (history : Option (List Fields)) (source : Fields) (s : Session) (m : Masking)
      (p : Prepared pf fl) (before after : List Argument)
      → IsPrepared pf fl self stream principal context history source s m p
      → SendsAtMost p.checked before after
      → SendsPrepared stream principal context history source s before after
  prepared-SendsPrepared stream principal context history source s m p before after i (inl e) =
      inl e
  prepared-SendsPrepared stream principal context history source s m p before after i
        (inr (a, e, t)) =
      inr (m, p, a, i, e, t)

  module _ (principal : PrincipalContext) (o : Occasion) where
    abbrev pub made_session : Mode → Result Session
    made_session mode =
        new_session mode self.settings.policy o.namespace self.settings.budget o.draws

    -- The scope, the history and the session that a request with this conversation id starts from:
    -- outside conversations a new session, and otherwise those of the principal's conversation that
    -- `get_or_create` gave, as it is when its lock is taken.
    pub data Origin (id : Result (Option Text)) (store : Store)
        : TokenScope → Option (List Fields) → Session → Type 0 where
      of_request :
          {s : Session} (mode : Mode)
          → id ≡ ok none
          → made_session mode ≡ ok s
          → Origin id store TokenScope.request none s
      of_conversation :
          (mode : Mode) (i : Text) (made : Session) (found : Conversation)
          → id ≡ ok (some i)
          → made_session mode ≡ ok made
          → (get_or_create i (vault_namespace principal) made o.opened store).0 ≡ ok found
          → Origin id store TokenScope.conversation
              (some (o.at_lock found).messages)
              (record (clone none (o.at_lock found).session) { draws = o.draws })

    -- Nothing was sent, or one payload that was prepared for the request from its origin on.
    abbrev pub SendsFrom :
        Bool → Text → Fields → Result (Option Text) → Store → List Argument → List Argument → Type 0
    SendsFrom stream model source id store before after =
        (after ≡ before)
        ⊎ ((scope : TokenScope) × (history : Option (List Fields)) × (s : Session) × Origin id store
              scope history s
            × SendsPrepared stream principal (context_for pf fl self model scope) history source s
                before after)

  module _ (o : Occasion) where
    pub complete-SendsAtMost :
        (checked : PrivacyCheckedPayload) (c : Chat)
        → SendsAtMost checked c.sent (complete pf fl self o checked c).1.sent
    unfolding complete
    complete-SendsAtMost checked c =
        resume-relates (λ (d : Chat). SendsAtMost checked c.sent d.sent) (argument_for checked) _ c
          (inl refl)
          (λ a e.
            resume-relates (λ (d : Chat). SendsAtMost checked c.sent d.sent) (o.reply a) _
              (send pf fl self o a c).1 (inr (a, e, refl)) (λ reply f. inr (a, e, refl)))

    pub put_and_trace-sent :
        (s : Session) (checked : PrivacyCheckedPayload) (base : Fields) (c : Chat)
        → (put_and_trace pf fl self o s checked base c).1.sent ≡ c.sent
    unfolding put_and_trace
    put_and_trace-sent s checked base c = ground arith
