-- ===== src/Chat/Executions.antt =====
-- app/chat/orchestrator.py: what `execute_chat` sends, whatever way it takes.
use maskgate.Base.{
  Bool, Option, Result, Text, err, false, if-holds, inl, none, not, ok, refl, some, ◌&&◌,
}
use maskgate.Privacy.{Floats}
use maskgate.PolicyV2.{Platform}
use maskgate.Principal.{PrincipalContext}
use maskgate.Session.{Mode}
use maskgate.Conversations.{validate_conversation_id}
use maskgate.Chat.{or_text, requested_mode, execute_in, execute_in_mode, execute_chat}
use maskgate.Chat.Payload.{ChatRequest, local_free_payload}
use maskgate.Chat.Cleared.{IsClear}
use maskgate.Chat.Stateless.Cleared.{execute_stateless-IsClear}
use maskgate.Chat.Turns.Cleared.{execute_turn-IsClear}
use maskgate.Chat.Types.{ChatExecution, World, Chat, Occasion, parse_mode}
use maskgate.Chat.Answer.{Orchestrator}
use maskgate.Chat.Sends.{SendsFrom}
use maskgate.Chat.Stateless.Sends.{execute_stateless-Sends}
use maskgate.Chat.Turns.Sends.{execute_turn-Sends}

module _ (pf : Platform) (fl : Floats) {C : Type 0} (self : Orchestrator pf fl C)
    (principal : PrincipalContext) (o : Occasion) (request : ChatRequest) where
  abbrev pub conversation_id : Option Text → Result (Option Text)
  conversation_id override = validate_conversation_id (or_text override request.conversation_id)

  -- Of a request with this conversation id.
  abbrev pub Sends : Result (Option Text) → Chat → Chat → Type 0
  Sends id before after =
      SendsFrom pf fl self principal o false request.model (local_free_payload request) id
        before.world.conversations before.sent after.sent

  in-Sends :
      (allow_preview : Bool) (mode_name : Text) (mode : Mode) (r : Result (Option Text)) (c : Chat)
      → Sends r c (execute_in pf fl self principal o request allow_preview mode_name mode r c).1
  unfolding execute_in
  in-Sends allow_preview mode_name mode (err e) c = inl refl
  in-Sends allow_preview mode_name mode (ok (some id)) c =
      execute_turn-Sends pf fl self principal o request id mode_name allow_preview mode c
  in-Sends allow_preview mode_name mode (ok none) c =
      execute_stateless-Sends pf fl self principal o request mode mode_name c

  in_mode-Sends :
      (override : Option Text) (allow_preview : Bool) (mode_name : Text) (mode : Option Mode)
      (c : Chat)
      → Sends
          (conversation_id override)
          c
          (execute_in_mode pf fl self principal o request override allow_preview mode_name mode c).1
  unfolding execute_in_mode
  in_mode-Sends override allow_preview mode_name none c = inl refl
  in_mode-Sends override allow_preview mode_name (some mode) c =
      if-holds (λ (x : Result ChatExecution × Chat). Sends (conversation_id override) c x.1)
        (not self.provider_ready && not allow_preview) _ _ (inl refl)
        (in-Sends allow_preview mode_name mode (conversation_id override) c)

  -- Whatever a chat request holds, and whether it is answered, refused or raises: the provider gets
  -- nothing, or one argument. Then that is the checked payload of a preparation of this request
  -- from its origin on. The origin is a new session and no history if the request names no
  -- conversation, and otherwise the session and the history of the conversation that get_or_create
  -- gives to this principal under that id, as it is when its lock is taken. Masking the request
  -- from that session on yields the payload and the values: each text of the request, keys
  -- included, is masked in its place, protocol identifiers excepted, which masking leaves as they
  -- are, and every value is what a detection marks in some text for which the policy's decision,
  -- for this principal and request, is ALLOW. The history stands before the messages; and what
  -- became of that passed the guard with no tokens and values but the replacements of the session
  -- that the masking ended with, and those values.
  pub execute_chat-Sends :
      (override : Option Text) (allow_preview : Bool) (c : Chat)
      → Sends
          (conversation_id override)
          c
          (execute_chat pf fl self principal o request override allow_preview c).1
  unfolding execute_chat
  execute_chat-Sends override allow_preview c =
      let name = requested_mode allow_preview request.masking_mode self.settings.masking_mode in
      in_mode-Sends override allow_preview name (parse_mode name) c

  module _ (foreign : (w : World) → IsClear o w → IsClear o (o.before_lock w))
      (override : Option Text) (allow_preview : Bool) where
    in-IsClear :
        (mode_name : Text) (mode : Mode) (r : Result (Option Text)) (c : Chat)
        → IsClear o c.world
        → IsClear o
            (execute_in pf fl self principal o request allow_preview mode_name mode r c).1.world
    unfolding execute_in
    in-IsClear mode_name mode (err e) c clear = clear
    in-IsClear mode_name mode (ok (some id)) c clear =
        execute_turn-IsClear pf fl self principal o request id mode_name allow_preview mode foreign
          c clear
    in-IsClear mode_name mode (ok none) c clear =
        execute_stateless-IsClear pf fl self principal o request mode mode_name c clear

    in_mode-IsClear :
        (mode_name : Text) (mode : Option Mode) (c : Chat)
        → IsClear o c.world
        → IsClear o
            (execute_in_mode pf fl self principal o request override allow_preview mode_name mode
              c).1.world
    unfolding execute_in_mode
    in_mode-IsClear mode_name none c clear = clear
    in_mode-IsClear mode_name (some mode) c clear =
        if-holds (λ (x : Result ChatExecution × Chat). IsClear o x.1.world)
          (not self.provider_ready && not allow_preview) _ _ clear
          (in-IsClear mode_name mode
            (validate_conversation_id (or_text override request.conversation_id)) c clear)

    -- If nothing stands under the request's id at the start and nobody puts anything there while it
    -- waits for a lock, then nothing stands there at the end, whether the request is answered,
    -- refused or raises.
    pub execute_chat-IsClear :
        (c : Chat)
        → IsClear o c.world
        → IsClear o (execute_chat pf fl self principal o request override allow_preview c).1.world
    unfolding execute_chat
    execute_chat-IsClear c clear =
        let name = requested_mode allow_preview request.masking_mode self.settings.masking_mode in
        in_mode-IsClear name (parse_mode name) c clear
