-- ===== src/Chat.antt =====
-- app/chat/orchestrator.py: `ChatOrchestrator.execute_chat` and `clear_conversation`. Logging is left
-- out.
pub mod Payload
pub mod Types
pub mod Masking
pub mod Allowed
pub mod Answer
pub mod Stateless
pub mod Turns
pub mod Laws
pub mod Sends
pub mod Executions
pub mod Generator
pub mod Streams
pub mod Cleared
use maskgate.Base.{
  Bool, Exec, Option, Result, Text, [], err, false, if◌then◌else◌, none, not, ok, some, true, ◌&&◌,
  ◌∷◌,
}
use maskgate.Json.{Json, Fields}
use maskgate.Privacy.{Floats}
use maskgate.PolicyV2.{Platform}
use maskgate.Principal.{PrincipalContext, vault_namespace}
use maskgate.Session.{Mode}
use maskgate.Conversations.{validate_conversation_id, delete_conversation}
use maskgate.Chat.Payload.{ChatRequest}
use maskgate.Chat.Types.{ChatExecution, World, Chat, Occasion, text, dict, failure, parse_mode}
use maskgate.Chat.Answer.{Orchestrator, on_world}
use maskgate.Chat.Stateless.{execute_stateless}
use maskgate.Chat.Turns.{execute_turn, short_trace}

-- `a or b` on optional texts
abbrev pub or_text : Option Text → Option Text → Option Text
or_text none b = b
or_text (some []) b = b
or_text (some (c ∷ s)) b = some (c ∷ s)

-- `request.masking_mode if allow and request.masking_mode else default`
abbrev pub requested_mode : Bool → Option Text → Text → Text
requested_mode true (some (c ∷ s)) default = c ∷ s
requested_mode _ _ default = default

module _ (pf : Platform) (fl : Floats) {C : Type 0} (self : Orchestrator pf fl C)
    (principal : PrincipalContext) (o : Occasion) where
  module _ (request : ChatRequest) (allow_preview : Bool) (mode_name : Text) (mode : Mode) where
    -- `execute_chat` behind `validate_conversation_id`.
    unfoldable pub execute_in : Result (Option Text) → Exec Chat ChatExecution
    execute_in (err e) c = (
      ok (
          failure 422 "conversation_id must contain 8-128 letters, digits, '_' or '-'"
            "invalid_conversation_id" (short_trace pf fl self principal o request [] mode_name)),
      c,
    )
    execute_in (ok (some id)) c =
        execute_turn pf fl self principal o request id mode_name allow_preview mode c
    execute_in (ok none) c = execute_stateless pf fl self principal o request mode mode_name c

  abbrev pub unready_trace : ChatRequest → Text → Fields
  unready_trace request mode_name = dict (
      ("request_id", Json.string o.request_id)
      ∷ ("masking_mode", Json.string mode_name)
      ∷ ("provider_ready", Json.boolean false)
      ∷ [])

  -- `execute_chat` with the mode that was asked for.
  unfoldable pub execute_in_mode :
      ChatRequest → Option Text → Bool → Text → Option Mode → Exec Chat ChatExecution
  unfolding execute_in
  execute_in_mode request override allow_preview mode_name none c = (
    ok (
        failure 422 "masking_mode is not supported" "invalid_masking_mode"
          (short_trace pf fl self principal o request [] mode_name)),
    c,
  )
  execute_in_mode request override allow_preview mode_name (some mode) c =
      if not self.provider_ready && not allow_preview
      then (
        ok (
            failure 503 "The upstream provider is not configured" "provider_not_configured"
              (unready_trace request mode_name)),
        c,
      )
      else execute_in request allow_preview mode_name mode
          (validate_conversation_id (or_text override request.conversation_id)) c

  -- `execute_chat`
  unfoldable pub execute_chat : ChatRequest → Option Text → Bool → Exec Chat ChatExecution
  unfolding execute_in_mode
  execute_chat request override allow_preview =
      let mode_name =
        requested_mode allow_preview request.masking_mode self.settings.masking_mode in
      execute_in_mode request override allow_preview mode_name (parse_mode mode_name)

  abbrev pub id_or : Text → Option Text → Text
  id_or id none = id
  id_or id (some valid) = valid

  -- `clear_conversation`
  unfoldable pub clear_conversation : Text → Exec Chat (Unit {0})
  clear_conversation id c = elim (validate_conversation_id (some id)) [
    | err e ↦ (err e, c)
    | ok valid ↦ (
      ok tt,
      on_world
          (λ w. record w {
            conversations =
                delete_conversation (id_or id valid) (vault_namespace principal) w.conversations;
          })
          c,
    )
  ]
