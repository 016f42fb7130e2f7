-- ===== src/Chat/Stateless.antt =====
-- app/chat/orchestrator.py: `execute_chat` for a request outside a conversation.
pub mod Sends
pub mod Cleared
use maskgate.Base.{
  Exec, List, Result, Text, [], dedupe, err, false, if◌then◌else◌, lift, list_eq, nat_eq, none, ok,
  option_eq, pair_eq, pure, raise, ◌*◌, ◌++◌, ◌>>=◌, ◌∷◌,
}
use Prim.Native.String.{String}
use maskgate.Json.{Json, Fields}
use maskgate.Privacy.{Floats, TokenScope}
use maskgate.PolicyV2.{Platform}
use maskgate.Principal.{PrincipalContext}
use maskgate.Session.{Session, Mode, new_session}
use maskgate.Wire.{PrivacyCheckedPayload}
use maskgate.Pipeline.{Reply, process_output}
use maskgate.Chat.Payload.{ChatRequest, local_free_payload, reject_unsanitized_media, update}
use maskgate.Chat.Types.{
  ChatExecution, World, Chat, ChatSettings, Occasion, text, number, texts, dict, failure,
}
use maskgate.Chat.Masking.{Masking, Prepared, start_masking, prepare_request, preview_request}
use maskgate.Chat.Answer.{
  Orchestrator, media_refusal, context_for, answer_refusal, complete, put_and_trace, rescue,
  finally_clear, local_preview, answered_trace, detections,
}

abbrev pub base_trace : Occasion → Text → Fields
base_trace o mode = dict (
    ("request_id", Json.string o.request_id)
    ∷ ("masking_mode", Json.string mode)
    ∷ ("detected_entity_types", texts [])
    ∷ ("detected_entities_count", number 0)
    ∷ ("allowlisted_entity_types", texts [])
    ∷ ("masked_request", Json.null)
    ∷ ("upstream_response", Json.null)
    ∷ [])

module _ (pf : Platform) (fl : Floats) {C : Type 0} (self : Orchestrator pf fl C)
    (principal : PrincipalContext) (o : Occasion) (request : ChatRequest) where
  -- The provider's answer.
  unfoldable pub reply_to : Masking → Fields → PrivacyCheckedPayload → Exec Chat ChatExecution
  reply_to m base checked = do
    reply ← complete pf fl self o checked
    out ← lift (
        process_output self.upstream self.provider_name self.adapters pf.unicode self.codec
          self.detect reply.payload m.session.vault.items)
    pure (record {
      status_code = reply.status_code;
      payload = out;
      trace = answered_trace pf fl self o m base reply;
    })

  -- The body of the second `try`.
  unfoldable pub answer_request : Masking → Fields → PrivacyCheckedPayload → Exec Chat ChatExecution
  unfolding reply_to
  answer_request m base checked =
      if self.provider_ready
      then reply_to m base checked
      else pure (local_preview pf fl self o m base request.model)

  -- The second `try` with its `except` and `finally`.
  unfoldable pub guarded_answer : Masking → Fields → PrivacyCheckedPayload → Exec Chat ChatExecution
  unfolding answer_request
  guarded_answer m base checked c =
      finally_clear pf fl self o (rescue pf fl self o m base (answer_request m base checked c))

  -- The trace of reserved syntax tells the types.
  abbrev pub with_types : Masking → List Text → List (String × Json)
  with_types m types = ("detected_entity_types", texts (dedupe (m.detected ++ types))) ∷ []

  -- A fresh session for the preview, with the default budget.
  unfoldable pub fresh_preview : Mode → Fields → Result Fields
  fresh_preview mode source =
      elim (new_session mode self.settings.preview_policy o.namespace
        (record { max_mappings = 5000; max_sensitive_bytes = 2 * 1024 * 1024 }) o.preview_draws) [
          | err e ↦ err e
          | ok s ↦
              preview_request pf fl self.codec self.detect self.upstream self.provider_name
                self.adapters none source s
        ]

  -- The two `try`s, from the outcome of the preparation on.
  unfoldable pub after_preparation :
      Mode → Fields → Fields → Result (Prepared pf fl) → Masking → Exec Chat ChatExecution
  unfolding guarded_answer fresh_preview
  after_preparation mode base source (err e) m =
      lift (answer_refusal pf fl self base m (with_types m) (fresh_preview mode source) e)
  after_preparation mode base source (ok prepared) m = do
    traced ← put_and_trace pf fl self o m.session prepared.checked base
    guarded_answer m traced prepared.checked

  abbrev pub prepared_from :
      Mode → Fields → Fields → Result (Prepared pf fl) × Masking → Exec Chat ChatExecution
  prepared_from mode base source (r, m) = after_preparation mode base source r m

  unfoldable pub with_session : Mode → Fields → Fields → Session → Exec Chat ChatExecution
  unfolding after_preparation
  with_session mode base source s = prepared_from mode base source (
      prepare_request pf fl self.codec self.detect self.upstream self.provider_name self.adapters
        self.runtime principal (context_for pf fl self request.model TokenScope.request) none false
        source (start_masking s))

  -- Behind `reject_unsanitized_media`.
  unfoldable pub with_media :
      Mode → Fields → Fields → Session → Result (Unit {0}) → Exec Chat ChatExecution
  unfolding with_session
  with_media mode base source s (err e) = lift (media_refusal base e)
  with_media mode base source s (ok _) =
      if request.stream
      then pure
          (failure 400 "Streaming is not supported in the MVP version" "unsupported_feature" base)
      else with_session mode base source s

  abbrev pub with_new_session : Mode → Fields → Fields → Result Session → Exec Chat ChatExecution
  with_new_session mode base source (err e) = raise e
  with_new_session mode base source (ok s) =
      with_media mode base source s (reject_unsanitized_media pf.unicode self.str source)

  -- `execute_chat` from `payload.pop("masking_mode", None)` on.
  unfoldable pub execute_stateless : Mode → Text → Exec Chat ChatExecution
  unfolding with_media
  execute_stateless mode mode_name =
      with_new_session mode (base_trace o mode_name) (local_free_payload request)
        (new_session mode self.settings.policy o.namespace self.settings.budget o.draws)
