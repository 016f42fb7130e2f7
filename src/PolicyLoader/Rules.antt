-- ===== src/PolicyLoader/Rules.antt =====
-- app/privacy/policy/loader.py: the rules of a policy file.
use maskgate.Base.{
  Bool, List, Option, Result, Text, all, codes, contains, dedupe, err, false, if◌then◌else◌, leb,
  length, list_eq, map, nat_eq, none, not, ok, option_eq, pair_eq, some, then_with, value_error,
  ◌&&◌, ◌==◌,
}
use Prim.Native.String.{String}
use maskgate.Unicode.{Unicode}
use maskgate.Privacy.{Floats, direction_eq}
use maskgate.PolicyV2.{RuleConditions, PolicyRule}
use maskgate.PolicyLoader.Values.{
  Yaml, each, require, as_mapping, value_at, reject_unknown, required_string, string_list,
  enum_value, natural_upto, fraction, named,
}
use maskgate.PolicyLoader.Tables.{
  known_entity_types, rule_keys, condition_keys, actions, data_classes, directions, token_scopes,
  risk_buckets,
}

module _ (fl : Floats) (u : Unicode) where
  abbrev pub Members : Type 0
  Members = List (Text × Yaml fl.Float)

  abbrev pub at : Members → String → Yaml fl.Float
  at ms key = value_at (codes key) ms

  abbrev pub strings_at : Bool → Members → String → Result (List Text)
  strings_at required ms key = string_list u required (at ms key)

  -- `_enum_set`, in the order of the file
  unfoldable pub enum_set : {A : Type 0} → List (String × A) → Members → String → Result (List A)
  enum_set members ms key =
      then_with (strings_at false ms key) (λ names. each (λ s. named s members) names)

  -- `_known_entities`
  unfoldable pub known_entities : Members → String → Result (List Text)
  known_entities ms key = then_with (strings_at false ms key) (λ raw.
      let entities = map u.upper raw in
      if length (dedupe entities) == length raw && all (λ e. contains e known_entity_types) entities
      then ok entities
      else err value_error)

  -- Neither bound is missing and the first is above the second.
  abbrev pub is_inverted : {A : Type 0} → (A → A → Bool) → Option A → Option A → Bool
  is_inverted le (some low) (some high) = not (le low high)
  is_inverted le _ _ = false

  -- `_parse_conditions`
  unfoldable pub parse_conditions : Yaml fl.Float → Result (RuleConditions fl.Float)
  unfolding enum_set known_entities
  parse_conditions raw = then_with (as_mapping raw) (λ ms.
      then_with (reject_unknown condition_keys ms) (λ _.
        then_with (fraction fl (at ms "min_confidence")) (λ min_confidence.
          then_with (fraction fl (at ms "max_confidence")) (λ max_confidence.
            then_with (natural_upto 100 (at ms "min_risk_score")) (λ min_risk.
              then_with (natural_upto 100 (at ms "max_risk_score")) (λ max_risk.
                then_with (require (not (is_inverted fl.le_f min_confidence max_confidence))) (λ _.
                  then_with (require (not (is_inverted leb min_risk max_risk))) (λ _.
                    then_with (known_entities ms "entity_types") (λ entity_types.
                      then_with (enum_set data_classes ms "data_classes") (λ classes.
                        then_with (strings_at false ms "tenants") (λ tenants.
                          then_with (strings_at false ms "applications") (λ applications.
                            then_with (strings_at false ms "routes") (λ routes.
                              then_with (enum_set directions ms "directions") (λ ways.
                                then_with (strings_at false ms "providers") (λ providers.
                                  then_with (strings_at false ms "models") (λ models.
                                    then_with (strings_at false ms "jurisdictions")
                                      (λ jurisdictions.
                                        then_with (strings_at false ms "purposes") (λ purposes.
                                          then_with (strings_at false ms "json_paths")
                                            (λ json_paths.
                                              then_with (strings_at false ms "roles") (λ roles.
                                                then_with (strings_at false ms "recognizers")
                                                  (λ recognizers.
                                                    then_with
                                                      (enum_set token_scopes ms "token_scopes")
                                                      (λ scopes.
                                                        then_with
                                                          (enum_set risk_buckets ms "risk_buckets")
                                                          (λ buckets. ok (record {
                                                            entity_types = entity_types;
                                                            data_classes = classes;
                                                            tenants = tenants;
                                                            applications = applications;
                                                            routes = routes;
                                                            directions = ways;
                                                            providers = providers;
                                                            models = models;
                                                            jurisdictions = jurisdictions;
                                                            purposes = purposes;
                                                            json_paths = json_paths;
                                                            roles = roles;
                                                            recognizers = recognizers;
                                                            token_scopes = scopes;
                                                            risk_buckets = buckets;
                                                            min_confidence = min_confidence;
                                                            max_confidence = max_confidence;
                                                            min_risk_score = min_risk;
                                                            max_risk_score = max_risk;
                                                          }))))))))))))))))))))))))

  abbrev pub present : {A : Type 0} → Option A → Result A
  present none = err value_error
  present (some a) = ok a

  -- `_parse_rule`
  unfoldable pub parse_rule : Yaml fl.Float → Result (PolicyRule fl.Float)
  unfolding parse_conditions
  parse_rule raw = then_with (as_mapping raw) (λ ms. then_with (reject_unknown rule_keys ms) (λ _.
      then_with (required_string u ms "id") (λ rule_id.
        then_with (natural_upto 1000000 (at ms "priority")) (λ given.
          then_with (present given) (λ priority.
            then_with (required_string u ms "reason") (λ reason.
              then_with (strings_at false ms "obligations") (λ obligations.
                then_with (parse_conditions (at ms "conditions")) (λ conditions.
                  then_with (enum_value actions (at ms "action")) (λ action. ok (record {
                    rule_id = rule_id;
                    priority = priority;
                    action = action;
                    reason = reason;
                    obligations = obligations;
                    conditions = conditions;
                  }))))))))))
