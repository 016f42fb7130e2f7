-- ===== src/Chat/Turns/Outcomes.antt =====
-- app/chat/orchestrator.py: what a turn leaves of the conversations that are stored.
use maskgate.Base.{
  Bool, List, Option, Result, Text, err, false, none, ok, some, true, unsafe_media, ◌&&◌, ◌≡◌,
}
use maskgate.Json.{Fields}
use maskgate.Privacy.{Floats, TokenScope}
use maskgate.PolicyV2.{Platform}
use maskgate.Principal.{PrincipalContext}
use maskgate.Session.{Session}
use maskgate.Conversations.{Store, Conversation, delete_conversation}
use maskgate.Pipeline.{}
use maskgate.Runtime.{RequestContext}
use maskgate.Chat.Payload.{ChatRequest, local_free_payload, reject_unsanitized_media}
use maskgate.Chat.Types.{World, Chat, Occasion, blocked_types}
use maskgate.Chat.Masking.{Masking, Prepared, start_masking, prepare_request}
use maskgate.Chat.Answer.{Orchestrator, context_for}
use maskgate.Chat.Laws.{IsPrepared}
use maskgate.Chat.Turns.{owner, is_unused, turn_session}
use maskgate.Chat.Turns.Commits.{IsCommit}

module _ (pf : Platform) (fl : Floats) {C : Type 0} (self : Orchestrator pf fl C)
    (principal : PrincipalContext) (o : Occasion) (request : ChatRequest) (id mode_name : Text)
    (state : Conversation) where
  abbrev pub stored : Chat → Store
  stored c = c.world.conversations

  abbrev context : RequestContext
  context = context_for pf fl self request.model TokenScope.conversation

  abbrev source : Fields
  source = local_free_payload request

  abbrev own : Text
  own = owner pf fl self principal o request id mode_name

  -- The exceptions that a turn is refused for: `UnsafeMediaError`, and in the preparation all that
  -- are turned into a 403.
  abbrev pub has_types : Option (List Text) → Bool
  has_types none = false
  has_types (some types) = true

  abbrev pub is_refused : Result (Unit {0}) → Result (Prepared pf fl) → Bool
  is_refused (err (unsafe_media kind)) r = true
  is_refused (err _) r = false
  is_refused (ok _) (err e) = has_types (blocked_types e)
  is_refused (ok _) (ok p) = false

  -- The check of the media, and the preparation from the conversation's session on.
  abbrev pub media_checked : Result (Unit {0})
  media_checked = reject_unsanitized_media pf.unicode self.str source

  abbrev own_session : Session
  own_session = turn_session pf fl self principal o request id mode_name state none o.draws

  abbrev pub turn_prepared : Result (Prepared pf fl) × Masking
  turn_prepared =
      prepare_request pf fl self.codec self.detect self.upstream self.provider_name self.adapters
        self.runtime principal context (some state.messages) false source
        (start_masking own_session)

  -- What a turn leaves of the store, from where it has the lock on.
  pub data TurnEffect (media : Result (Unit {0})) (r : Result (Prepared pf fl)) (m : Masking)
      (c d : Chat) : Type 0 where
    untouched :
        is_refused media r && is_unused state ≡ false
        → stored d ≡ stored c
        → TurnEffect media r m c d
    -- The turn was refused and nothing had been said in the conversation.
    forgotten :
        is_refused media r && is_unused state ≡ true
        → stored d ≡ delete_conversation id own (stored c)
        → TurnEffect media r m c d
    -- The provider was called, and did not answer with a success.
    unanswered :
        (p : Prepared pf fl) (w : World)
        → media ≡ ok tt
        → r ≡ ok p
        → w.conversations ≡ stored c
        → stored d ≡ (o.during_call w).conversations
        → TurnEffect media r m c d
    committed :
        (p : Prepared pf fl) (w : World)
        → media ≡ ok tt
        → r ≡ ok p
        → IsPrepared pf fl self false principal context (some state.messages) source own_session m p
        → w.conversations ≡ stored c
        → IsCommit pf fl self principal o request id mode_name state m p
            (o.during_call w).conversations
            (stored d)
        → TurnEffect media r m c d
