-- ===== src/Chat/Allowed.antt =====
-- app/chat/orchestrator.py and app/privacy/runtime.py: which originals a preparation approves.
use maskgate.Base.{
  All, All-append, Bool, Bool-cases, In, Keeps, List, Result, Text, [], arith, err, inl, inr, map,
  ok, refl, resume-ok, reverse, subst, suc, true, ℕ, ◌∷◌, ◌≡◌,
}
use maskgate.Json.{Fields}
use maskgate.Privacy.{Floats, PrivacyDetection}
use maskgate.PolicyV2.{Platform, PathPart, PolicyDecision}
use maskgate.Principal.{PrincipalContext}
use maskgate.Session.{Session, is_allow}
use maskgate.Risk.{assess}
use maskgate.Detection.{detect}
use maskgate.Runtime.{
  PrivacyRuntime, Call, RequestContext, TransformResult, transform_text, approved, decide_one,
  decide_all, decide_and_apply, apply_decisions, cons_decision, entity_of, value_of, actions_of,
}
use maskgate.Session.{mask_text_with_actions}
use maskgate.Outbound.{sanitize_outbound_payload}
use maskgate.Outbound.Kept.{sanitize-Keeps}
use maskgate.Chat.Payload.{role_for_path}
use maskgate.Chat.Masking.{Masking, note, mask_message_at_path}

module _ (pf : Platform) (fl : Floats) (rt : PrivacyRuntime pf fl) (principal : PrincipalContext)
    (request : RequestContext) (source : Fields) where
  abbrev call_at : List PathPart → Call pf fl
  call_at path = record {
    principal = principal;
    request = request;
    json_path = reverse path;
    role = role_for_path source (reverse path);
  }

  -- The value is what a detection in a text marks, and the policy's decision on that detection is ALLOW.
  pub record Allowed (v : Text) : Type 0 where
    pub path : List PathPart
    pub text : Text
    pub detections : List (PrivacyDetection fl.Float)
    pub number : ℕ
    pub detection : PrivacyDetection fl.Float
    pub decision : PolicyDecision
    pub detected : detect fl pf.unicode rt.least rt.profile rt.recognizers text ≡ ok detections
    pub found : In detection detections
    pub decided :
        decide_one pf fl rt (call_at path) text (assess fl detections) number detection
        ≡ ok decision
    pub permitted : is_allow decision.action ≡ true
    pub value : v ≡ value_of pf fl text detection

  cons_decision-ok :
      (a : Result PolicyDecision) (b : Result (List PolicyDecision)) (cs : List PolicyDecision)
      → cons_decision pf fl a b ≡ ok cs
      → (x : PolicyDecision) × (ys : List PolicyDecision) × (a ≡ ok x) × (b ≡ ok ys) × (x ∷ ys ≡ cs)
  cons_decision-ok (err e) b cs h = absurd (cc)
  cons_decision-ok (ok x) (err e) cs h = absurd (cc)
  cons_decision-ok (ok x) (ok ys) cs h = (x, ys, refl, refl, ground (arith, h))

  module _ (path : List PathPart) (text : Text) (ds : List (PrivacyDetection fl.Float))
      (detected : detect fl pf.unicode rt.least rt.profile rt.recognizers text ≡ ok ds) where
    approved-Allowed :
        (i : ℕ) (xs : List (PrivacyDetection fl.Float)) (cs : List PolicyDecision)
        → decide_all pf fl rt (call_at path) text (assess fl ds) i xs ≡ ok cs
        → ((d : PrivacyDetection fl.Float) → In d xs → In d ds)
        → All Allowed (approved (map (entity_of pf fl text) xs) cs)
    unfolding approved decide_all
    approved-Allowed i [] [] h within = tt
    approved-Allowed i [] (c ∷ cs) h within = tt
    approved-Allowed i (d ∷ xs) cs h within =
        let (x, ys, e, f, same) =
          cons_decision-ok (decide_one pf fl rt (call_at path) text (assess fl ds) i d)
            (decide_all pf fl rt (call_at path) text (assess fl ds) (suc i) xs) cs h in
        let rest = approved-Allowed (suc i) xs ys f (λ b m. within b (inr m)) in
        subst
          (λ (l : List PolicyDecision).
            All Allowed (approved (map (entity_of pf fl text) (d ∷ xs)) l))
          same
          (elim (Bool-cases (is_allow x.action)) [
            | inl g ↦ rw g (
              record {
                path = path;
                text = text;
                detections = ds;
                number = i;
                detection = d;
                decision = x;
                detected = detected;
                found = within d (inl refl);
                decided = e;
                permitted = g;
                value = refl;
              },
              rest,
            )
            | inr g ↦ rw g rest
          ])

  -- The values that `transform_text` approves.
  transform_text-Allowed :
      (path : List PathPart) (text : Text) (s : Session) (t : TransformResult fl.Float)
      → (transform_text pf fl rt (call_at path) text s).0 ≡ ok t
      → All Allowed t.approved_originals
  unfolding transform_text decide_and_apply apply_decisions
  transform_text-Allowed path text s t h =
      let (ds, e, h1) =
        resume-ok (detect fl pf.unicode rt.least rt.profile rt.recognizers text) _ s h in
      let (cs, f, h2) =
        resume-ok (decide_all pf fl rt (call_at path) text (assess fl ds) 0 ds) _ s h1 in
      let (out, g, h3) =
        resume-ok
          (mask_text_with_actions pf.unicode text (map (entity_of pf fl text) ds) (actions_of cs)
            s).0
          _
          (mask_text_with_actions pf.unicode text (map (entity_of pf fl text) ds) (actions_of cs)
            s).1
          h2 in
      let same : approved (map (entity_of pf fl text) ds) cs ≡ t.approved_originals =
        ground (arith, h3) in
      subst (All Allowed) same (approved-Allowed path text ds e 0 ds cs f (λ d m. m))

  -- All values noted are allowed.
  abbrev AllAllowed : Masking → Type 0
  AllAllowed m = All Allowed m.values

  note-Allowed :
      (r : Result (TransformResult fl.Float)) (m : Masking)
      → ((t : TransformResult fl.Float) → r ≡ ok t → All Allowed t.approved_originals)
      → AllAllowed m
      → AllAllowed (note pf fl r m).1
  unfolding note
  note-Allowed (err e) m given h = h
  note-Allowed (ok t) m given h = All-append Allowed m.values t.approved_originals h (given t refl)

  mask-Keeps :
      (path : List PathPart) (text : Text)
      → Keeps AllAllowed (mask_message_at_path pf fl rt principal request source path text)
  unfolding mask_message_at_path
  mask-Keeps path text = record {
    at = λ m h.
        let (r, s) = transform_text pf fl rt (call_at path) text m.session in
        note-Allowed r (record m { session = s })
          (λ t e. transform_text-Allowed path text m.session t e) h;
  }

  -- The values after sanitizing a payload.
  pub sanitize-Allowed :
      (validate : Bool) (m : Masking)
      → AllAllowed m
      → AllAllowed
          (sanitize_outbound_payload
            (mask_message_at_path pf fl rt principal request source)
            validate
            source
            m).1
  sanitize-Allowed validate m h =
      (sanitize-Keeps (mask_message_at_path pf fl rt principal request source) validate mask-Keeps
          source).at
        m h
