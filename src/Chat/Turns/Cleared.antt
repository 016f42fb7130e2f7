-- ===== src/Chat/Turns/Cleared.antt =====
-- app/chat/orchestrator.py: a turn of a conversation leaves no mapping of its request.
use maskgate.Base.{
  Bool, Error, List, Option, Result, Text, arith, conversation_capacity, err, false, if-holds, none,
  not, ok, refl, some, unsafe_media, ◌≡◌,
}
use maskgate.Json.{Fields}
use maskgate.Privacy.{Floats, TokenScope}
use maskgate.PolicyV2.{Platform}
use maskgate.Principal.{PrincipalContext}
use maskgate.Session.{Session, Mode, new_session}
use maskgate.Conversations.{Store, Conversation, get_or_create}
use maskgate.Runtime.{RequestContext}
use maskgate.Chat.Payload.{ChatRequest, local_free_payload, reject_unsanitized_media}
use maskgate.Chat.Types.{ChatExecution, World, Chat, Occasion, blocked_types, mode_beq}
use maskgate.Chat.Masking.{Masking, Prepared, start_masking, prepare_request}
use maskgate.Chat.Answer.{Orchestrator, rescue, context_for, on_world}
use maskgate.Chat.Laws.{IsPrepared, prepare_request-IsPrepared}
use maskgate.Chat.Cleared.{IsClear, finally_clear-IsClear, put_then-IsClear}
use maskgate.Chat.Turns.{
  owner, execute_turn, answer_turn, guarded_turn, continue_turn, media_turn, locked_turn,
  opened_turn, opened_from, opened_with, forget_unused, refuse_turn, refuse_as, turn_session,
  turn_trace,
}

module _ (pf : Platform) (fl : Floats) {C : Type 0} (self : Orchestrator pf fl C)
    (principal : PrincipalContext) (o : Occasion) (request : ChatRequest)
    (id mode_name : Text) where
  abbrev context : RequestContext
  context = context_for pf fl self request.model TokenScope.conversation

  abbrev source : Fields
  source = local_free_payload request

  module _ (state : Conversation) (allow_preview : Bool) (base : Fields) where
    forget-IsClear :
        (c : Chat)
        → IsClear o c.world
        → IsClear o (forget_unused pf fl self principal o request id mode_name state c).world
    unfolding forget_unused
    forget-IsClear c clear = ground (arith, clear)

    refuse-IsClear :
        (types : Option (List Text)) (m : Masking) (e : Error) (c : Chat)
        → IsClear o c.world
        → IsClear o
            (refuse_as pf fl self principal o request id mode_name state types base m source e
              c).1.world
    refuse-IsClear none m e c clear = clear
    refuse-IsClear (some types) m e c clear = forget-IsClear c clear

    prepared-IsClear :
        (s : Session) (r : Result (Prepared pf fl)) (m : Masking) (c : Chat)
        → ((p : Prepared pf fl)
            → r ≡ ok p
            → IsPrepared pf fl self false principal context (some state.messages) source s m p)
        → IsClear o c.world
        → IsClear o
            (continue_turn pf fl self principal o request id mode_name state allow_preview base
              source r m c).1.world
    unfolding continue_turn guarded_turn refuse_turn
    prepared-IsClear s (err e) m c given clear = refuse-IsClear (blocked_types e) m e c clear
    prepared-IsClear s (ok p) m c given clear =
        put_then-IsClear pf fl self o principal context (some state.messages) source s m p base
          (λ traced.
            guarded_turn pf fl self principal o request id mode_name state allow_preview m p.payload
              traced p.checked)
          c (given p refl)
          (λ traced d. finally_clear-IsClear pf fl self o (
            rescue pf fl self o m traced (
              answer_turn pf fl self principal o request id mode_name state allow_preview m
                p.payload traced p.checked d)))

    locked-IsClear :
        (r : Result (Unit {0})) (c : Chat)
        → IsClear o c.world
        → IsClear o
            (media_turn pf fl self principal o request id mode_name state allow_preview base source
              r c).1.world
    unfolding media_turn
    locked-IsClear (ok _) c clear =
        let s = turn_session pf fl self principal o request id mode_name state none o.draws in
        let (r, m) =
          prepare_request pf fl self.codec self.detect self.upstream self.provider_name
            self.adapters self.runtime principal context (some state.messages) false source
            (start_masking s) in
        prepared-IsClear s r m c
          (λ p e.
            prepare_request-IsPrepared pf fl self false principal context (some state.messages)
              source s p e)
          clear
    locked-IsClear (err (unsafe_media kind)) c clear = forget-IsClear c clear
    locked-IsClear (err _) c clear = clear

  -- What others do before the lock is had puts no mapping under the request's id.
  module _ (allow_preview : Bool) (mode : Mode)
      (foreign : (w : World) → IsClear o w → IsClear o (o.before_lock w)) where
    opened-IsClear :
        (state : Conversation) (c : Chat)
        → IsClear o c.world
        → IsClear o
            (opened_turn pf fl self principal o request id mode_name allow_preview mode state
              c).1.world
    unfolding opened_turn locked_turn
    opened-IsClear state c clear =
        let base = turn_trace pf fl self principal o request id mode_name state in
        if-holds (λ (x : Result ChatExecution × Chat). IsClear o x.1.world)
          (not (mode_beq state.session.mode mode)) _ _ clear
          (if-holds (λ (x : Result ChatExecution × Chat). IsClear o x.1.world) request.stream _ _
            clear
            (locked-IsClear (o.at_lock state) allow_preview base
              (reject_unsanitized_media pf.unicode self.str source) (on_world o.before_lock c)
              (foreign c.world clear)))

    got-IsClear :
        (c : Chat) (x : Result Conversation × Store)
        → IsClear o c.world
        → IsClear o
            (opened_from pf fl self principal o request id mode_name allow_preview mode c x).1.world
    got-IsClear c (ok state, s) clear =
        opened-IsClear state (on_world (λ w. record w { conversations = s }) c) clear
    got-IsClear c (err conversation_capacity, s) clear = clear
    got-IsClear c (err _, s) clear = clear

    new-IsClear :
        (r : Result Session) (c : Chat)
        → IsClear o c.world
        → IsClear o
            (opened_with pf fl self principal o request id mode_name allow_preview mode r c).1.world
    new-IsClear (err e) c clear = clear
    new-IsClear (ok fresh) c clear =
        got-IsClear c
          (get_or_create id (owner pf fl self principal o request id mode_name) fresh o.opened
            c.world.conversations)
          clear

    pub execute_turn-IsClear :
        (c : Chat)
        → IsClear o c.world
        → IsClear o
            (execute_turn pf fl self principal o request id mode_name allow_preview mode c).1.world
    unfolding execute_turn
    execute_turn-IsClear c clear =
        new-IsClear (new_session mode self.settings.policy o.namespace self.settings.budget o.draws)
          c clear
