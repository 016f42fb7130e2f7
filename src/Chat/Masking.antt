-- ===== src/Chat/Masking.antt =====
-- app/chat/orchestrator.py: the masking of a request and the preparation of its payload.
use maskgate.Base.{
  Bool, Exec, List, Option, Result, Text, [], codes, err, false, if◌then◌else◌, map, none, ok,
  reverse, some, then_with, true, ◌++◌, ◌>>=◌, ◌∷◌,
}
use maskgate.Json.{Json, Items, Fields, from_list}
use maskgate.Privacy.{Floats, PrivacyDetection}
use maskgate.PolicyV2.{Platform, PathPart, PolicyDecision}
use maskgate.Principal.{PrincipalContext}
use maskgate.Session.{Session, Entity, is_allow, mask_text}
use maskgate.Runtime.{PrivacyRuntime, Call, RequestContext, TransformResult, transform_text}
use maskgate.Outbound.{sanitize_outbound_payload}
use maskgate.Wire.{Codec, PrivacyCheckedPayload}
use maskgate.Pipeline.{Upstream, Adapters, prepare}
use maskgate.Chat.Payload.{role_for_path, messages_of, set_field, add_masking_instruction}

-- The closure's session and lists.
pub record Masking : Type 0 where
  pub session : Session
  pub detected : List Text
  pub allowlisted : List Text
  pub values : List Text

abbrev pub start_masking : Session → Masking
start_masking s = record { session = s; detected = []; allowlisted = []; values = [] }

-- `outbound_payload["messages"] = state.messages + payload.get("messages", [])`, in a conversation
unfoldable pub append_items : Items → Items → Items
append_items Items.nil ys = ys
append_items (Items.cons x xs) ys = Items.cons x (append_items xs ys)

abbrev pub behind_history : Fields → List Fields → Result Items → Result Fields
behind_history payload history (ok messages) = ok (
    set_field (codes "messages")
      (Json.array (append_items (from_list (map Json.object history)) messages)) payload)
behind_history payload history (err e) = err e

unfoldable pub with_history : Option (List Fields) → Fields → Result Fields
unfolding messages_of set_field append_items
with_history none payload = ok payload
with_history (some history) payload = behind_history payload history (messages_of payload)

module _ (pf : Platform) (fl : Floats) where
  -- The types of the detections that the policy allows.
  unfoldable pub allowed_types : List (PrivacyDetection fl.Float) → List PolicyDecision → List Text
  allowed_types (d ∷ ds) (c ∷ cs) =
      let rest = allowed_types ds cs in if is_allow c.action then d.entity_type ∷ rest else rest
  allowed_types _ _ = []

  abbrev pub types_of : List (PrivacyDetection fl.Float) → List Text
  types_of ds = map (λ (d : PrivacyDetection fl.Float). d.entity_type) ds

  -- What the closure notes of a result.
  unfoldable pub note : Result (TransformResult fl.Float) → Exec Masking Text
  unfolding allowed_types
  note (err e) m = (err e, m)
  note (ok r) m = (
    ok r.text,
    record m {
      detected = m.detected ++ types_of r.detections;
      allowlisted = m.allowlisted ++ allowed_types r.detections r.decisions;
      values = m.values ++ r.approved_originals;
    },
  )

  -- `mask_message_at_path`; `source` is the payload before masking.
  unfoldable pub mask_message_at_path :
      PrivacyRuntime pf fl
      → PrincipalContext
      → RequestContext
      → Fields
      → List PathPart
      → Text
      → Exec Masking Text
  unfolding note
  mask_message_at_path rt principal request source path text m =
      let call : Call pf fl = record {
        principal = principal;
        request = request;
        json_path = reverse path;
        role = role_for_path source (reverse path);
      } in
      let (r, s) = transform_text pf fl rt call text m.session in note r (record m { session = s })

  -- A payload that is masked and checked.
  pub record Prepared : Type 0 where
    pub payload : Fields
    pub checked : PrivacyCheckedPayload

  module _ {C : Type 0} (codec : Codec) (detect : Text → List Entity) (upstream : Upstream)
      (provider_name : Text) (adapters : Option (Adapters C)) where
    -- From the sanitized payload to the checked one.
    unfoldable pub check_payload : Option (List Fields) → Bool → Fields → Masking → Result Prepared
    check_payload history stream payload m = then_with (with_history history payload) (λ behind.
        then_with (add_masking_instruction behind m.session.vault.items) (λ outbound.
          then_with
            (prepare upstream provider_name adapters pf.unicode codec detect outbound m.session
              m.values stream)
            (λ checked. ok (record { payload = payload; checked = checked }))))

    abbrev pub check_masked : Option (List Fields) → Bool → Fields → Exec Masking Prepared
    check_masked history stream payload m = (check_payload history stream payload m, m)

    -- The body of the `try` up to the checked payload.
    unfoldable pub prepare_request :
        PrivacyRuntime pf fl
        → PrincipalContext
        → RequestContext
        → Option (List Fields)
        → Bool
        → Fields
        → Exec Masking Prepared
    unfolding check_payload
    prepare_request rt principal request history stream source = do
      payload ←
          sanitize_outbound_payload (mask_message_at_path rt principal request source) true source
      check_masked history stream payload

    -- The local preview of a request that the policy blocks; it is never sent.
    unfoldable pub preview_request : Option (List Fields) → Fields → Session → Result Fields
    preview_request history source s =
        let (r, t) =
          sanitize_outbound_payload (λ path text. mask_text pf.unicode text (detect text)) false
            source s in
        elim r [
          | err e ↦ err e
          | ok payload ↦ elim (with_history history payload) [
            | err e ↦ err e
            | ok outbound ↦ add_masking_instruction outbound t.vault.items
          ]
        ]
