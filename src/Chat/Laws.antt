-- ===== src/Chat/Laws.antt =====
-- app/chat/orchestrator.py: what an execution sends to the provider.
use maskgate.Base.{
  All, Bool, Exec, List, Option, Result, Text, [], arith, err, ok, refl, resume, subst,
  then_with-ok, true, ◌≡◌,
}
use maskgate.Json.{Fields}
use maskgate.Privacy.{Floats}
use maskgate.PolicyV2.{Platform, PathPart}
use maskgate.Principal.{PrincipalContext}
use maskgate.Session.{Session}
use maskgate.Outbound.{sanitize_outbound_payload}
use maskgate.Outbound.Laws.{FieldImages, HasDistinctKeys, sanitize_lem}
use maskgate.Runtime.{RequestContext}
use maskgate.Wire.{PrivacyCheckedPayload}
use maskgate.Pipeline.{prepare}
use maskgate.Pipeline.Laws.{Passed, prepare-Passed}
use maskgate.Chat.Payload.{add_masking_instruction}
use maskgate.Chat.Masking.{
  Masking, Prepared, with_history, mask_message_at_path, check_payload, check_masked,
  prepare_request, start_masking,
}
use maskgate.Chat.Allowed.{Allowed, sanitize-Allowed}
use maskgate.Chat.Answer.{Orchestrator}

module _ (pf : Platform) (fl : Floats) {C : Type 0} (self : Orchestrator pf fl C) where
  abbrev pub Checked : Session → List Text → PrivacyCheckedPayload → Type 0
  Checked = Passed self.upstream self.provider_name self.adapters pf.unicode self.codec self.detect

  -- What is prepared: each text of the request is masked in its place, the history stands before its
  -- messages and the instruction among them, and the checked payload is what became of that.
  pub record IsPrepared (stream : Bool) (principal : PrincipalContext) (context : RequestContext)
      (history : Option (List Fields)) (source : Fields) (s : Session) (m : Masking)
      (p : Prepared pf fl) : Type 0 where
    -- Masking the request, from the session on, ended with this payload and these values.
    pub ran :
        sanitize_outbound_payload
          (mask_message_at_path pf fl self.runtime principal context source)
          true
          source
          (start_masking s)
        ≡ (ok p.payload, m)
    pub allowed : All (Allowed pf fl self.runtime principal context source) m.values
    pub masked :
        FieldImages
          (mask_message_at_path pf fl self.runtime principal context source)
          true
          []
          source
          p.payload
    pub distinct : HasDistinctKeys p.payload
    pub outbound : Fields
    pub instructed :
        (behind : Fields) × (with_history history p.payload ≡ ok behind)
        × (add_masking_instruction behind m.session.vault.items ≡ ok outbound)
    pub prepared :
        prepare self.upstream self.provider_name self.adapters pf.unicode self.codec self.detect
          outbound m.session m.values stream
        ≡ ok p.checked
    pub passed : Checked m.session m.values p.checked

  module _ (stream : Bool) (principal : PrincipalContext) (context : RequestContext)
      (history : Option (List Fields)) (source : Fields) (s : Session) where
    abbrev mask : List PathPart → Text → Exec Masking Text
    mask = mask_message_at_path pf fl self.runtime principal context source

    abbrev AllAllowed : Masking → Type 0
    AllAllowed m = All (Allowed pf fl self.runtime principal context source) m.values

    checked-IsPrepared :
        (payload : Fields) (m : Masking) (p : Prepared pf fl)
        → sanitize_outbound_payload mask true source (start_masking s) ≡ (ok payload, m)
        → AllAllowed m
        → FieldImages mask true [] source payload
        → HasDistinctKeys payload
        → check_payload pf fl self.codec self.detect self.upstream self.provider_name self.adapters
            history stream payload m
          ≡ ok p
        → IsPrepared stream principal context history source s m p
    unfolding check_payload
    checked-IsPrepared payload m p ran allowed masked distinct h =
        let (behind, e1, h1) = then_with-ok (with_history history payload) _ h in
        let (outbound, e2, h2) =
          then_with-ok (add_masking_instruction behind m.session.vault.items) _ h1 in
        let (checked, e3, h3) =
          then_with-ok
            (prepare self.upstream self.provider_name self.adapters pf.unicode self.codec
              self.detect outbound m.session m.values stream)
            _ h2 in
        let same : record { payload = payload; checked = checked } ≡ p = ground (arith, h3) in
        subst (IsPrepared stream principal context history source s m) same (record {
          ran = ran;
          allowed = allowed;
          masked = masked;
          distinct = distinct;
          outbound = outbound;
          instructed = (behind, e1, e2);
          prepared = e3;
          passed =
              prepare-Passed self.upstream self.provider_name self.adapters pf.unicode self.codec
                self.detect outbound m.session m.values stream checked e3;
        })

    abbrev check_rest : Fields → Exec Masking (Prepared pf fl)
    check_rest =
        check_masked pf fl self.codec self.detect self.upstream self.provider_name self.adapters
          history stream

    sanitized-IsPrepared :
        (r : Result Fields) (m : Masking) (p : Prepared pf fl)
        → sanitize_outbound_payload mask true source (start_masking s) ≡ (r, m)
        → AllAllowed m
        → ((payload : Fields)
            → r ≡ ok payload
            → FieldImages mask true [] source payload × HasDistinctKeys payload)
        → (resume r check_rest m).0 ≡ ok p
        → IsPrepared stream principal context history source s (resume r check_rest m).1 p
    sanitized-IsPrepared (err e) m p ran allowed sanitized h = absurd (cc)
    sanitized-IsPrepared (ok payload) m p ran allowed sanitized h =
        let (image, distinct) = sanitized payload refl in
        checked-IsPrepared payload m p ran allowed image distinct h

    -- The outcome of a preparation.
    pub prepare_request-IsPrepared :
        (p : Prepared pf fl)
        → let (r, m) =
            prepare_request pf fl self.codec self.detect self.upstream self.provider_name
              self.adapters self.runtime principal context history stream source
              (start_masking s) in
          r ≡ ok p → IsPrepared stream principal context history source s m p
    unfolding prepare_request
    prepare_request-IsPrepared p h =
        let (r, m) = sanitize_outbound_payload mask true source (start_masking s) in
        sanitized-IsPrepared r m p refl
          (sanitize-Allowed pf fl self.runtime principal context source true (start_masking s) tt)
          (λ payload e. sanitize_lem mask true source payload (start_masking s) e) h
