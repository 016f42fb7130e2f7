-- ===== src/PolicyV2.antt =====
-- app/privacy/policy/engine.py: contextual policy rules and public-data assertions.
mod Models
pub mod Glob
pub mod Laws
use maskgate.Base.{
  Bool, Eq, List, Option, Result, Text, [], all, any, codes, contains, decimal, err, false, first,
  if◌then◌else◌, leb, list_eq, ltb, nat_eq, none, ok, option_eq, pair_eq, some, true, value_error,
  ℕ, ◌&&◌, ◌*◌, ◌++◌, ◌==◌, ◌∷◌,
}
unfoldable pub use Models.*
use maskgate.Unicode.{Unicode, strip, fold_words}
use maskgate.Privacy.{
  DataClass, PrivacyDirection, TokenScope, PrivacyAction, RiskBucket, Floats, PrivacyDetection,
  RiskAssessment, class_eq, direction_eq, scope_eq, bucket_eq,
}
use maskgate.PolicyV2.Glob.{fnmatchcase}

-- `_matches_set`
abbrev pub matches_set : {A : Type 0} ⦃e : Eq A⦄ → List A → A → Bool
matches_set [] actual = true
matches_set (a ∷ as') actual = contains actual (a ∷ as')

-- `_matches_set` on a role, which may be `None` and then is in no set of strings.
abbrev pub matches_role : List Text → Option Text → Bool
matches_role [] role = true
matches_role (r ∷ rs) none = false
matches_role (r ∷ rs) (some role) = contains role (r ∷ rs)

-- `str(part)`
abbrev pub part_text : PathPart → Text
part_text (PathPart.key k) = k
part_text (PathPart.index i) = decimal i

-- `_json_path`
unfoldable pub json_path_text : List PathPart → Text
json_path_text [] = []
json_path_text (p ∷ []) = part_text p
json_path_text (p ∷ q ∷ ps) = part_text p ++ codes "." ++ json_path_text (q ∷ ps)

abbrev pub matches_path : List Text → List PathPart → Bool
matches_path [] path = true
matches_path (p ∷ ps) path = any (fnmatchcase (json_path_text path)) (p ∷ ps)

-- `bound is None or test(bound)`
abbrev pub at_bound : {A : Type 0} → Option A → (A → Bool) → Bool
at_bound none test = true
at_bound (some b) test = test b

-- What the engine takes from the standard library: Unicode tables and `hashlib.sha256(...).hexdigest()`
-- of a text's UTF-8 bytes.
pub record Platform : Type 0 where
  pub unicode : Unicode
  pub sha256 : Text → Text

module _ (pf : Platform) (fl : Floats) where
  open pf use {unicode}

  abbrev Detection : Type 0
  Detection = PrivacyDetection fl.Float

  abbrev Context : Type 0
  Context = PolicyContext fl.Float

  -- `_matches_conditions`, the checks in the order of the source.
  unfoldable pub matches_conditions :
      RuleConditions fl.Float → PrivacyDetection fl.Float → PolicyContext fl.Float → Bool
  matches_conditions c d x =
      all (λ (b : Bool). b)
        (matches_set c.entity_types (unicode.upper d.entity_type)
          ∷ matches_set c.data_classes d.data_class
          ∷ matches_set c.tenants x.tenant
          ∷ matches_set c.applications x.application
          ∷ matches_set c.routes x.route
          ∷ matches_set c.directions x.direction
          ∷ matches_set c.providers x.provider
          ∷ matches_set c.models x.model
          ∷ matches_set c.jurisdictions x.jurisdiction
          ∷ matches_set c.purposes x.purpose
          ∷ matches_role c.roles x.role
          ∷ matches_set c.recognizers x.recognizer
          ∷ matches_set c.token_scopes x.token_scope
          ∷ matches_set c.risk_buckets x.risk.bucket
          ∷ matches_path c.json_paths x.json_path
          ∷ at_bound c.min_confidence (λ b. fl.le_f b x.confidence)
          ∷ at_bound c.max_confidence (λ b. fl.le_f x.confidence b)
          ∷ at_bound c.min_risk_score (λ b. leb b x.risk.score)
          ∷ at_bound c.max_risk_score (λ b. leb x.risk.score b)
          ∷ [])

  -- `_matches_assertion_scope`
  unfoldable pub matches_assertion_scope : PublicAssertionScope → PolicyContext fl.Float → Bool
  matches_assertion_scope s x =
      all (λ (b : Bool). b)
        (contains x.tenant s.tenants
          ∷ contains x.application s.applications
          ∷ contains x.direction s.directions
          ∷ contains x.provider s.providers
          ∷ contains x.purpose s.purposes
          ∷ matches_set s.routes x.route
          ∷ matches_set s.models x.model
          ∷ matches_set s.jurisdictions x.jurisdiction
          ∷ [])

  -- `_normalize_public_value`
  unfoldable pub normalize_public_value : Text → Text → Text
  normalize_public_value entity value =
      if unicode.upper entity == codes "PERSON"
      then fold_words unicode value
      else unicode.casefold (strip unicode value)

  -- `hash_public_value`
  unfoldable pub hash_public_value : Text → Text → Text
  hash_public_value entity value =
      pf.sha256 (unicode.upper entity ++ 0 ∷ normalize_public_value entity value)

  -- The four tests of the loop of `_public_assertion`.
  unfoldable pub assertion_applies :
      ℕ → Text → PrivacyDetection fl.Float → PolicyContext fl.Float → PublicDataAssertion → Bool
  assertion_applies now digest d x a =
      ltb now a.expires_at
      && a.entity_type == unicode.upper d.entity_type
      && a.value_sha256 == digest
      && matches_assertion_scope a.scope x

  -- `_public_assertion`; the clock gives an instant, or `none` for a time without a zone.
  unfoldable pub public_assertion :
      PolicyDocument fl.Float
      → Option ℕ
      → PrivacyDetection fl.Float
      → PolicyContext fl.Float
      → Text
      → Result (Option PublicDataAssertion)
  public_assertion p none d x value = err value_error
  public_assertion p (some now) d x value = ok (
      first (assertion_applies now (hash_public_value d.entity_type value) d x)
        p.public_data_assertions)

  -- `_matching_rule`
  unfoldable pub matching_rule :
      PolicyDocument fl.Float
      → PrivacyDetection fl.Float
      → PolicyContext fl.Float
      → Option (PolicyRule fl.Float)
  matching_rule p d x = first (λ r. matches_conditions r.conditions d x) p.rules

  abbrev pub from_rule : PolicyDocument fl.Float → PolicyRule fl.Float → PolicyDecision
  from_rule p r = record {
    action = r.action;
    reason = r.reason;
    policy_version = p.version;
    obligations = r.obligations;
    rule_id = some r.rule_id;
    assertion_id = none;
  }

  abbrev pub from_assertion : PolicyDocument fl.Float → PublicDataAssertion → PolicyDecision
  from_assertion p a = record {
    action = a.action;
    reason = a.reason;
    policy_version = p.version;
    obligations = a.obligations;
    rule_id = none;
    assertion_id = some a.assertion_id;
  }

  abbrev pub from_default : PolicyDocument fl.Float → PolicyDecision
  from_default p = record {
    action = p.default_action;
    reason = p.default_reason;
    policy_version = p.version;
    obligations = p.default_obligations;
    rule_id = none;
    assertion_id = none;
  }

  -- BLOCK or REQUIRE_REVIEW
  abbrev pub is_prohibiting : PrivacyAction → Bool
  is_prohibiting PrivacyAction.block = true
  is_prohibiting PrivacyAction.require_review = true
  is_prohibiting _ = false

  -- The end of `decide`: the rule that matched, or the default.
  abbrev pub rule_or_default :
      PolicyDocument fl.Float → Option (PolicyRule fl.Float) → PolicyDecision
  rule_or_default p none = from_default p
  rule_or_default p (some r) = from_rule p r

  abbrev pub assertion_or :
      PolicyDocument fl.Float
      → Option (PolicyRule fl.Float)
      → Result (Option PublicDataAssertion)
      → Result PolicyDecision
  assertion_or p rule (err e) = err e
  assertion_or p rule (ok none) = ok (rule_or_default p rule)
  assertion_or p rule (ok (some a)) = ok (from_assertion p a)

  -- `decide` behind its first test.
  abbrev pub decide_unprohibited :
      PolicyDocument fl.Float
      → Option ℕ
      → PrivacyDetection fl.Float
      → PolicyContext fl.Float
      → Option Text
      → Option (PolicyRule fl.Float)
      → Result PolicyDecision
  decide_unprohibited p now d x none rule = ok (rule_or_default p rule)
  decide_unprohibited p now d x (some value) rule =
      assertion_or p rule (public_assertion p now d x value)

  abbrev pub decide_on :
      PolicyDocument fl.Float
      → Option ℕ
      → PrivacyDetection fl.Float
      → PolicyContext fl.Float
      → Option Text
      → Option (PolicyRule fl.Float)
      → Result PolicyDecision
  decide_on p now d x value none = decide_unprohibited p now d x value none
  decide_on p now d x value (some r) =
      if is_prohibiting r.action
      then ok (from_rule p r)
      else decide_unprohibited p now d x value (some r)

  -- `decide`
  unfoldable pub decide :
      PolicyDocument fl.Float
      → Option ℕ
      → PrivacyDetection fl.Float
      → PolicyContext fl.Float
      → Option Text
      → Result PolicyDecision
  decide p now d x value = decide_on p now d x value (matching_rule p d x)
