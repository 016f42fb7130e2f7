-- ===== src/Runtime.antt =====
-- app/privacy/runtime.py: one text from detection to its masked form. The metrics only count and
-- measure, and are left out.
pub mod Laws
use maskgate.Base.{
  Exec, List, Option, Result, Text, [], err, if◌then◌else◌, lift, map, ok, pure, slice, some, suc,
  ℕ, ◌>>=◌, ◌∷◌,
}
use maskgate.Unicode.{Unicode}
use maskgate.Privacy.{
  PrivacyDirection, TokenScope, PrivacyAction, Floats, PrivacyDetection, RiskAssessment,
  DetectorProfile,
}
use maskgate.PolicyV2.{
  Platform, PathPart, PolicyContext, PolicyDecision, PolicyDocument, check_context, decide,
}
use maskgate.Risk.{assess}
use maskgate.Detection.{Recognizer, MinConfidence, detect}
use maskgate.Principal.{PrincipalContext}
use maskgate.Session.{Session, Entity, is_allow, mask_text_with_actions}

-- `PrivacyRequestContext`
pub record RequestContext : Type 0 where
  pub route : Text
  pub provider : Text
  pub model : Text
  pub jurisdiction : Text
  pub purpose : Text
  pub token_scope : TokenScope

-- `PrivacyTransformResult`
pub record TransformResult (F : Type 0) : Type 0 where
  pub text : Text
  pub detections : List (PrivacyDetection F)
  pub decisions : List PolicyDecision
  pub risk : RiskAssessment
  pub approved_originals : List Text

-- The actions of decisions.
abbrev pub actions_of : List PolicyDecision → List PrivacyAction
actions_of ds = map (λ (d : PolicyDecision). d.action) ds

-- The texts of the entities whose decision is ALLOW.
unfoldable pub approved : List Entity → List PolicyDecision → List Text
approved (e ∷ es) (d ∷ ds) =
    let rest = approved es ds in if is_allow d.action then e.text ∷ rest else rest
approved _ _ = []

module _ (pf : Platform) (fl : Floats) where
  -- `PrivacyRuntime`: the detector's thresholds, profile and recognizers, and the policy with its
  -- clock. At the detection of a number the clock gives an instant or a time without a zone.
  pub record PrivacyRuntime : Type 0 where
    pub least : MinConfidence fl
    pub profile : DetectorProfile
    pub recognizers : List (Recognizer fl)
    pub policy : PolicyDocument fl.Float
    pub now : ℕ → Option ℕ

  -- `text[detection.start : detection.end]`
  abbrev pub value_of : Text → PrivacyDetection fl.Float → Text
  value_of text d = slice text d.start d.stop

  -- The entity of a detection, here and in app/privacy/detection/legacy_entity.py.
  abbrev pub entity_of : Text → PrivacyDetection fl.Float → Entity
  entity_of text d = record {
    entity_type = d.entity_type;
    text = value_of text d;
    start = d.start;
    stop = d.stop;
  }

  -- The arguments that all contexts of one call share.
  pub record Call : Type 0 where
    pub principal : PrincipalContext
    pub request : RequestContext
    pub json_path : List PathPart
    pub role : Option Text

  abbrev pub context_of : Call → RiskAssessment → PrivacyDetection fl.Float → PolicyContext fl.Float
  context_of c risk d = record {
    tenant = c.principal.tenant_id;
    application = c.principal.application_id;
    route = c.request.route;
    direction = PrivacyDirection.input;
    provider = c.request.provider;
    model = c.request.model;
    jurisdiction = c.request.jurisdiction;
    purpose = c.request.purpose;
    json_path = c.json_path;
    role = c.role;
    confidence = d.confidence;
    risk = risk;
    recognizer = d.recognizer;
    token_scope = c.request.token_scope;
  }

  -- One decision: the context is checked as it is made.
  unfoldable pub decide_one :
      PrivacyRuntime
      → Call
      → Text
      → RiskAssessment
      → ℕ
      → PrivacyDetection fl.Float
      → Result PolicyDecision
  decide_one rt c text risk i d = elim (check_context fl pf.unicode (context_of c risk d)) [
    | err e ↦ err e
    | ok context ↦ decide pf fl rt.policy (rt.now i) d context (some (value_of text d))
  ]

  abbrev pub cons_decision :
      Result PolicyDecision → Result (List PolicyDecision) → Result (List PolicyDecision)
  cons_decision (err e) rest = err e
  cons_decision (ok d) (err e) = err e
  cons_decision (ok d) (ok ds) = ok (d ∷ ds)

  -- The tuple of decisions, for the detections from number `i` on.
  unfoldable pub decide_all :
      PrivacyRuntime
      → Call
      → Text
      → RiskAssessment
      → ℕ
      → List (PrivacyDetection fl.Float)
      → Result (List PolicyDecision)
  decide_all rt c text risk i [] = ok []
  decide_all rt c text risk i (d ∷ ds) =
      cons_decision (decide_one rt c text risk i d) (decide_all rt c text risk (suc i) ds)

  -- The end of `transform_text`, from the decisions on.
  unfoldable pub apply_decisions :
      Text
      → List (PrivacyDetection fl.Float)
      → List PolicyDecision
      → RiskAssessment
      → Exec Session (TransformResult fl.Float)
  apply_decisions text ds decisions risk = do
    out ← mask_text_with_actions pf.unicode text (map (entity_of text) ds) (actions_of decisions)
    pure (record {
      text = out;
      detections = ds;
      decisions = decisions;
      risk = risk;
      approved_originals = approved (map (entity_of text) ds) decisions;
    })

  unfoldable pub decide_and_apply :
      PrivacyRuntime
      → Call
      → Text
      → List (PrivacyDetection fl.Float)
      → Exec Session (TransformResult fl.Float)
  decide_and_apply rt c text ds = do
    decisions ← lift (decide_all rt c text (assess fl ds) 0 ds)
    apply_decisions text ds decisions (assess fl ds)

  -- `transform_text`
  unfoldable pub transform_text :
      PrivacyRuntime → Call → Text → Exec Session (TransformResult fl.Float)
  transform_text rt c text = do
    ds ← lift (detect fl pf.unicode rt.least rt.profile rt.recognizers text)
    decide_and_apply rt c text ds
