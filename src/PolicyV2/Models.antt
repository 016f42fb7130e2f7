-- ===== src/PolicyV2/Models.antt =====
-- app/privacy/policy/models.py: contexts, rules, assertions and documents of the contextual policy.
use maskgate.Base.{
  List, Option, Result, Text, [], any, err, if◌then◌else◌, list_eq, nat_eq, ok, option_eq, pair_eq,
  value_error, ℕ, ◌&&◌, ◌==◌, ◌∷◌,
}
use maskgate.Unicode.{Unicode, strip}
use maskgate.Privacy.{
  DataClass, PrivacyDirection, TokenScope, PrivacyAction, RiskBucket, Floats, RiskAssessment,
}

-- A part of a JSON path: a key or an index.
pub data PathPart : Type 0 where
  key : Text → PathPart
  index : ℕ → PathPart

-- `PolicyContext`
pub record PolicyContext (F : Type 0) : Type 0 where
  pub tenant : Text
  pub application : Text
  pub route : Text
  pub direction : PrivacyDirection
  pub provider : Text
  pub model : Text
  pub jurisdiction : Text
  pub purpose : Text
  pub json_path : List PathPart
  pub role : Option Text
  pub confidence : F
  pub risk : RiskAssessment
  pub recognizer : Text
  pub token_scope : TokenScope

-- `PolicyDecision`
pub record PolicyDecision : Type 0 where
  pub action : PrivacyAction
  pub reason : Text
  pub policy_version : Text
  pub obligations : List Text
  pub rule_id : Option Text
  pub assertion_id : Option Text

-- `RuleConditions`: an empty set restricts nothing.
pub record RuleConditions (F : Type 0) : Type 0 where
  pub entity_types : List Text
  pub data_classes : List DataClass
  pub tenants : List Text
  pub applications : List Text
  pub routes : List Text
  pub directions : List PrivacyDirection
  pub providers : List Text
  pub models : List Text
  pub jurisdictions : List Text
  pub purposes : List Text
  pub json_paths : List Text
  pub roles : List Text
  pub recognizers : List Text
  pub token_scopes : List TokenScope
  pub risk_buckets : List RiskBucket
  pub min_confidence : Option F
  pub max_confidence : Option F
  pub min_risk_score : Option ℕ
  pub max_risk_score : Option ℕ

-- `PolicyRule`
pub record PolicyRule (F : Type 0) : Type 0 where
  pub rule_id : Text
  pub priority : ℕ
  pub action : PrivacyAction
  pub reason : Text
  pub obligations : List Text
  pub conditions : RuleConditions F

-- `PublicAssertionScope`
pub record PublicAssertionScope : Type 0 where
  pub tenants : List Text
  pub applications : List Text
  pub directions : List PrivacyDirection
  pub providers : List Text
  pub purposes : List Text
  pub routes : List Text
  pub models : List Text
  pub jurisdictions : List Text

-- `PublicDataAssertion`; an instant is a number of ticks of UTC.
pub record PublicDataAssertion : Type 0 where
  pub assertion_id : Text
  pub entity_type : Text
  pub value_sha256 : Text
  pub action : PrivacyAction
  pub reason : Text
  pub obligations : List Text
  pub scope : PublicAssertionScope
  pub expires_at : ℕ
  pub provenance : Text

-- `PolicyDocumentV2`
pub record PolicyDocument (F : Type 0) : Type 0 where
  pub version : Text
  pub default_action : PrivacyAction
  pub default_reason : Text
  pub default_obligations : List Text
  pub rules : List (PolicyRule F)
  pub public_data_assertions : List PublicDataAssertion

-- `PolicyContext.__post_init__`; the checks of the fields' classes hold by the types here.
unfoldable pub check_context :
    (fl : Floats) → Unicode → PolicyContext fl.Float → Result (PolicyContext fl.Float)
check_context fl u c =
    if any (λ s. strip u s == [])
      (c.tenant ∷ c.application ∷ c.route ∷ c.provider ∷ c.model ∷ c.jurisdiction ∷ c.purpose
        ∷ c.recognizer ∷ [])
    then err value_error
    else if fl.le_f fl.zero_f c.confidence && fl.le_f c.confidence fl.one_f
    then ok c
    else err value_error
