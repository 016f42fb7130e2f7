-- ===== src/LegacyPolicy.antt =====
-- app/privacy/policy/legacy.py: a map from entity types to the actions of app/policies as a document of
-- the contextual policy.
pub mod Laws
use maskgate.Base.{
  Bool, List, Option, Result, Text, [], codes, err, if◌then◌else◌, list_eq, nat_eq, none, ok,
  option_eq, pair_eq, replace, some, sort, suc, text_le, value_error, ℕ, ◌++◌, ◌-◌, ◌==◌, ◌∷◌,
}
use maskgate.Unicode.{Unicode, strip}
use maskgate.Privacy.{PrivacyAction}
use maskgate.PolicyV2.{PolicyRule, RuleConditions, PolicyDocument}

-- `_LEGACY_ACTIONS.get(name)`
unfoldable pub legacy_action : Text → Option PrivacyAction
legacy_action name =
    if name == codes "ALLOW"
    then some PrivacyAction.allow
    else if name == codes "MASK"
    then some PrivacyAction.tokenize
    else if name == codes "REDACT"
    then some PrivacyAction.redact
    else if name == codes "BLOCK"
    then some PrivacyAction.block
    else none

abbrev pub only_type : {F : Type 0} → Text → RuleConditions F
only_type entity = record {
  entity_types = entity ∷ [];
  data_classes = [];
  tenants = [];
  applications = [];
  routes = [];
  directions = [];
  providers = [];
  models = [];
  jurisdictions = [];
  purposes = [];
  json_paths = [];
  roles = [];
  recognizers = [];
  token_scopes = [];
  risk_buckets = [];
  min_confidence = none;
  max_confidence = none;
  min_risk_score = none;
  max_risk_score = none;
}

-- An entry of the map; its action is `none` where it is no string.
abbrev pub LegacyEntry : Type 0
LegacyEntry = Text × Option Text

-- `sorted(actions.items())`, whose keys are different.
abbrev pub entry_le : LegacyEntry → LegacyEntry → Bool
entry_le a b = text_le a.0 b.0

abbrev pub migration_obligations : List Text
migration_obligations = codes "audit_decision" ∷ codes "migrate_to_policy_v2" ∷ []

module _ (u : Unicode) where
  -- `entity_type.strip().upper()`
  abbrev pub normalized : Text → Text
  normalized entity = u.upper (strip u entity)

  -- The action of an entry, or the first error of its turn of the loop.
  unfoldable pub entry_action : LegacyEntry → Result PrivacyAction
  entry_action (entity, none) = err value_error
  entry_action (entity, some name) = elim (legacy_action (u.upper name)) [
    | none ↦ err value_error
    | some action ↦ if normalized entity == [] then err value_error else ok action
  ]

module _ {F : Type 0} where
  abbrev pub cons_rule : PolicyRule F → Result (List (PolicyRule F)) → Result (List (PolicyRule F))
  cons_rule r (err e) = err e
  cons_rule r (ok rs) = ok (r ∷ rs)

  abbrev pub legacy_document : List (PolicyRule F) → PolicyDocument F
  legacy_document rules = record {
    version = codes "2-legacy-adapter-1";
    default_action = PrivacyAction.block;
    default_reason = codes "legacy_policy_has_no_explicit_rule";
    default_obligations = migration_obligations;
    rules = rules;
    public_data_assertions = [];
  }

  abbrev pub with_rules : Result (List (PolicyRule F)) → Result (PolicyDocument F)
  with_rules (err e) = err e
  with_rules (ok rules) = ok (legacy_document rules)

module _ (u : Unicode) {F : Type 0} where
  abbrev pub legacy_rule : ℕ → Text → PrivacyAction → PolicyRule F
  legacy_rule index entity action = record {
    rule_id = codes "legacy-" ++ replace (codes "_") (codes "-") (u.casefold entity);
    priority = 100000 - index;
    action = action;
    reason = codes "adapted_legacy_policy_rule";
    obligations = migration_obligations;
    conditions = only_type entity;
  }

  -- The rest of the loop, for an entry with the action.
  abbrev pub add_rule :
      ℕ → Text → Result PrivacyAction → Result (List (PolicyRule F)) → Result (List (PolicyRule F))
  add_rule index entity (err e) rest = err e
  add_rule index entity (ok action) rest =
      cons_rule (legacy_rule index (normalized u entity) action) rest

  -- The loop of `adapt` from the index on.
  unfoldable pub adapt_entries : ℕ → List LegacyEntry → Result (List (PolicyRule F))
  adapt_entries index [] = ok []
  adapt_entries index (e ∷ es) =
      add_rule index e.0 (entry_action u e) (adapt_entries (suc index) es)

  -- `LegacyPolicyAdapter.adapt`
  unfoldable pub adapt : List LegacyEntry → Result (PolicyDocument F)
  unfolding adapt_entries
  adapt actions = with_rules (adapt_entries 0 (sort entry_le actions))
