-- ===== src/Chat/Answer.antt =====
-- app/chat/orchestrator.py: what both kinds of execution share: the answers to refused requests, the
-- call of the provider, and what comes of its failures.
use maskgate.Base.{
  Bool, Error, Exec, List, Option, Result, Text, [], codes, contains, dedupe, err, false,
  if◌then◌else◌, length, lift, list_eq, nat_eq, none, ok, option_eq, pair_eq, some, true,
  unsafe_media, wire_violation, ℕ, ◌++◌, ◌>>=◌, ◌∷◌,
}
use Prim.Native.String.{String}
use maskgate.Json.{Json, Fields}
use maskgate.Privacy.{Floats, TokenScope}
use maskgate.PolicyV2.{Platform}
use maskgate.Session.{Session, Entity}
use maskgate.Mappings.{put_mapping, delete_mapping}
use maskgate.Runtime.{PrivacyRuntime, RequestContext}
use maskgate.Wire.{Codec, PrivacyCheckedPayload, payload_of}
use maskgate.Pipeline.{Upstream, Adapters, Argument, Reply, argument_of, checked_reply}
use maskgate.Chat.Payload.{set_field, update}
use maskgate.Chat.Types.{
  preview_response, ChatExecution, World, Chat, ChatSettings, Occasion, text, number, texts, dict,
  error_payload, failure, blocked_types, upstream_failure,
}
use maskgate.Chat.Masking.{Masking}

-- `ChatOrchestrator`: what its constructor is given, but for the stores and the policy of sessions,
-- which stand in `Chat` and `ChatSettings`, and `str(value)` of Python with its length.
pub record Orchestrator (pf : Platform) (fl : Floats) (C : Type 0) : Type 0 where
  pub settings : ChatSettings
  pub runtime : PrivacyRuntime pf fl
  pub detect : Text → List Entity
  pub codec : Codec
  pub upstream : Upstream
  pub provider_name : Text
  pub provider_ready : Bool
  pub adapters : Option (Adapters C)
  pub str : Json → Text

abbrev pub on_world : (World → World) → Chat → Chat
on_world f c = record c { world = f c.world }

-- `self._mapping_store.put(request_id, session.items)` and its `delete`
abbrev pub put_items : Occasion → Session → World → World
put_items o s w = record w {
  mappings = (put_mapping o.request_id s.vault.items o.mapped w.mappings).1;
}

abbrev pub delete_items : Occasion → World → World
delete_items o w = record w { mappings = delete_mapping o.request_id w.mappings }

-- The three entries of a trace that tell of detections.
abbrev pub detections : List Text → List Text → ℕ → List (String × Json)
detections detected allowlisted count =
    ("detected_entity_types", texts (dedupe detected))
    ∷ ("detected_entities_count", number count)
    ∷ ("allowlisted_entity_types", texts (dedupe allowlisted))
    ∷ []

abbrev pub detections_of : Masking → List (String × Json)
detections_of m = detections m.detected m.allowlisted (length m.detected)

abbrev pub blocked_failure : String → List Text → Fields → ChatExecution
blocked_failure message types trace = record {
  status_code = 400;
  payload =
      error_payload (text message) (text "policy_block") (dict (("entities", texts types) ∷ []));
  trace = trace;
}

abbrev pub media_failure : Text → Fields → ChatExecution
media_failure kind trace = record {
  status_code = 400;
  payload =
      error_payload
        (text "Image or screen content requires local OCR/redaction before it can be sent upstream")
        (text "media_not_sanitized") (dict (("media_type", Json.string kind) ∷ []));
  trace = trace;
}

-- The trace of refused media, and the `except UnsafeMediaBlocked`.
abbrev pub blocked_media : Fields → Fields
blocked_media base =
    update base (dict (("blocked_media", Json.boolean true) ∷ ("masked_request", Json.null) ∷ []))

abbrev pub media_refusal : Fields → Error → Result ChatExecution
media_refusal base (unsafe_media kind) = ok (media_failure kind (blocked_media base))
media_refusal base e = err e

module _ (pf : Platform) (fl : Floats) {C : Type 0} (self : Orchestrator pf fl C) where
  -- `self._new_masking_session(mode)`
  unfoldable pub context_for : Text → TokenScope → RequestContext
  context_for model scope = record {
    route = codes "/v1/chat/completions";
    provider = self.provider_name;
    model = model;
    jurisdiction = self.settings.jurisdiction;
    purpose = self.settings.default_purpose;
    token_scope = scope;
  }

  abbrev pub previewed : Fields → Masking → List Text → Result Fields → Result ChatExecution
  previewed base m types (err e) = err e
  previewed base m types (ok masked) =
      let unique = dedupe (m.detected ++ types) in
      ok (
        blocked_failure "Request blocked because sensitive data was detected" (dedupe types) (
          update base (
            dict (
              detections unique m.allowlisted (length unique)
              ++ ("blocked_entities", texts (dedupe types))
                ∷ ("masked_request", Json.object masked)
                ∷ ("preview_only", Json.boolean true)
                ∷ []))))

  -- The `except WirePrivacyViolation` and `except PolicyBlocked` around the preparation. `reserved` is
  -- what the trace tells of the types where reserved syntax was found, `preview` the masked request of
  -- the preview.
  unfoldable pub answer_refusal :
      Fields
      → Masking
      → (List Text → List (String × Json))
      → Result Fields
      → Error
      → Result ChatExecution
  answer_refusal base m reserved preview wire_violation = ok (
      failure 400 "Final wire privacy validation rejected the provider request"
        "wire_privacy_violation"
        (update base
          (dict (("wire_rejected", Json.boolean true) ∷ ("masked_request", Json.null) ∷ []))))
  answer_refusal base m reserved preview e = elim (blocked_types e) [
    | none ↦ err e
    | some types ↦
        if contains (codes "RESERVED_TOKEN") types
        then ok (
            blocked_failure "Request blocked because reserved token syntax was detected" types (
              update base (
                dict (
                  reserved types
                  ++ ("blocked_entities", texts types)
                    ∷ ("masked_request", Json.null)
                    ∷ ("preview_only", Json.boolean true)
                    ∷ []))))
        else previewed base m types preview
  ]

  -- The provider is called: what it gets is noted, and other requests do what they do meanwhile.
  unfoldable pub send : Occasion → Argument → Exec Chat Reply
  send o argument c =
      (o.reply argument, record c { sent = c.sent ++ argument ∷ []; world = o.during_call c.world })

  -- `self._privacy_pipeline.complete(checked_payload)`
  unfoldable pub complete : Occasion → PrivacyCheckedPayload → Exec Chat Reply
  unfolding send
  complete o checked = do
    argument ← lift (
        argument_of self.upstream self.provider_name self.adapters pf.unicode self.codec self.detect
          checked)
    reply ← send o argument
    lift (
        checked_reply self.upstream self.provider_name self.adapters pf.unicode self.codec
          self.detect reply)

  -- `self._mapping_store.put(…)` and `base_trace["masked_request"] = checked_payload.payload`
  unfoldable pub put_and_trace :
      Occasion → Session → PrivacyCheckedPayload → Fields → Exec Chat Fields
  put_and_trace o s checked base c =
      let put = on_world (put_items o s) c in
      elim (payload_of pf.unicode self.codec self.detect checked) [
        | ok masked ↦ (ok (set_field (codes "masked_request") masked base), put)
        | err e ↦ (err e, put)
      ]

  -- The `except (LLMUpstreamError, ProviderOutputViolation)`.
  unfoldable pub rescued : Occasion → Masking → Fields → Error → Result ChatExecution
  rescued o m base e = elim (upstream_failure e) [
    | none ↦ err e
    | some (message, kind) ↦ ok (record {
      status_code = 502;
      payload = error_payload (Json.string message) (Json.string kind) Fields.end;
      trace = update base (
          dict (
            detections_of m
            ++ ("latency_ms", number o.latency) ∷ ("status_code", number 502) ∷ []));
    })
  ]

  abbrev pub rescue :
      Occasion → Masking → Fields → Result ChatExecution × Chat → Result ChatExecution × Chat
  rescue o m base (ok x, c) = (ok x, c)
  rescue o m base (err e, c) = (rescued o m base e, c)

  -- The `finally` of both executions.
  abbrev pub finally_clear : Occasion → Result ChatExecution × Chat → Result ChatExecution × Chat
  finally_clear o (r, c) = (r, on_world (delete_items o) c)

  -- The answer where the provider is not configured and a preview is allowed.
  unfoldable pub local_preview : Occasion → Masking → Fields → Text → ChatExecution
  local_preview o m base model = record {
    status_code = 200;
    payload = preview_response o model;
    trace = update base (
        dict (
          detections_of m
          ++ ("preview_only", Json.boolean true)
            ∷ ("preview_reason", text "provider_not_configured")
            ∷ ("provider_ready", Json.boolean false)
            ∷ ("latency_ms", number o.latency)
            ∷ ("status_code", number 200)
            ∷ []));
  }

  -- The trace of an answered request.
  abbrev pub answered_trace : Occasion → Masking → Fields → Reply → Fields
  answered_trace o m base reply = update base (
      dict (
        detections_of m
        ++ ("upstream_response", reply.payload)
          ∷ ("latency_ms", number o.latency)
          ∷ ("status_code", number reply.status_code)
          ∷ []))
