-- ===== src/PolicyLoader.antt =====
-- app/privacy/policy/loader.py: from a policy file to a document of the contextual policy.
pub mod Values
pub mod Tables
pub mod Rules
pub mod Checks
pub mod Laws
pub mod Documents
use maskgate.Base.{
  Bool, Eq, List, Option, Result, Text, [], all, any, codes, contains, err, false, if◌then◌else◌,
  leb, length, list_eq, map, nat_eq, none, ok, option_eq, pair_eq, some, sort, then_with, true,
  value_error, ℕ, ◌&&◌, ◌++◌, ◌==◌, ◌∷◌,
}
use Prim.Native.String.{String}
use maskgate.Unicode.{Unicode}
use maskgate.Privacy.{
  DataClass, PrivacyDirection, TokenScope, PrivacyAction, RiskBucket, Floats, direction_eq,
}
use maskgate.PolicyV2.{
  RuleConditions, PolicyRule, PublicAssertionScope, PublicDataAssertion, PolicyDocument,
}
use maskgate.PolicyLoader.Values.{
  Yaml, YamlItems, null, string, timestamp, sequence, integer, float, boolean, each, require,
  list_of, as_mapping, value_at, reject_unknown, required_string, string_list, enum_value,
  natural_upto, fraction, named,
}
use maskgate.PolicyLoader.Rules.{Members, at, strings_at, parse_rule}
use maskgate.PolicyLoader.Tables.{
  known_entity_types, public_assertion_entity_types, root_keys, default_keys, rule_keys,
  condition_keys, assertion_keys, assertion_scope_keys, actions, data_classes, directions,
  token_scopes, risk_buckets,
}
use maskgate.Json.{Integer, pos, negsuc}

-- `_ensure_unique`, on what stands for the values and how they compare.
unfoldable pub ensure_unique : {A : Type 0} → (A → A → Bool) → List A → List A → Result (Unit {0})
ensure_unique same seen [] = ok tt
ensure_unique same seen (x ∷ xs) =
    let rest = ensure_unique same (x ∷ seen) xs in
    if any (λ y. same y x) seen then err value_error else rest

-- Two frozensets are equal.
abbrev pub same_set : {A : Type 0} ⦃e : Eq A⦄ → List A → List A → Bool
same_set xs ys = all (λ x. contains x ys) xs && all (λ y. contains y xs) ys

-- Assertions for the same value in the same scope
abbrev pub same_scope : PublicAssertionScope → PublicAssertionScope → Bool
same_scope a b =
    same_set a.tenants b.tenants
    && same_set a.applications b.applications
    && same_set a.directions b.directions
    && same_set a.providers b.providers
    && same_set a.purposes b.purposes
    && same_set a.routes b.routes
    && same_set a.models b.models
    && same_set a.jurisdictions b.jurisdictions

abbrev pub same_target : PublicDataAssertion → PublicDataAssertion → Bool
same_target a b =
    a.entity_type == b.entity_type && a.value_sha256 == b.value_sha256 && same_scope a.scope b.scope

abbrev pub is_hex_digit : ℕ → Bool
is_hex_digit c = contains c (codes "0123456789abcdef")

-- What the loader takes from Python besides the Unicode tables: `str.lower`,
-- `datetime.fromisoformat`, where `some none` is a time without a zone, and `x == 2` on floats.
pub record Library (F : Type 0) : Type 0 where
  pub lower : Text → Text
  pub from_iso : Text → Option (Option ℕ)
  pub is_two : F → Bool

-- `value.replace("Z", "+00:00")`
unfoldable pub replace_zulu : Text → Text
replace_zulu [] = []
replace_zulu (c ∷ s) =
    let rest = replace_zulu s in if c == 90 then codes "+00:00" ++ rest else c ∷ rest

abbrev pub zoned : Option ℕ → Result ℕ
zoned none = err value_error
zoned (some t) = ok t

abbrev pub zoned_time : Option (Option ℕ) → Result ℕ
zoned_time none = err value_error
zoned_time (some t) = zoned t

module _ (fl : Floats) (u : Unicode) (lib : Library fl.Float) where
  -- `_parse_datetime`
  unfoldable pub parse_datetime : Yaml fl.Float → Result ℕ
  unfolding replace_zulu
  parse_datetime (timestamp t) = zoned t
  parse_datetime (string s) = zoned_time (lib.from_iso (replace_zulu s))
  parse_datetime _ = err value_error

  -- The scope of an assertion
  unfoldable pub parse_scope : Yaml fl.Float → Result PublicAssertionScope
  parse_scope raw = then_with (as_mapping raw) (λ ms.
      then_with (reject_unknown assertion_scope_keys ms) (λ _.
        then_with (strings_at fl u true ms "tenants") (λ tenants.
          then_with (strings_at fl u true ms "applications") (λ applications.
            then_with (strings_at fl u true ms "directions") (λ names.
              then_with (each (λ s. named s directions) names) (λ ways.
                then_with (strings_at fl u true ms "providers") (λ providers.
                  then_with (strings_at fl u true ms "purposes") (λ purposes.
                    then_with (strings_at fl u false ms "routes") (λ routes.
                      then_with (strings_at fl u false ms "models") (λ models.
                        then_with (strings_at fl u false ms "jurisdictions") (λ jurisdictions.
                          ok (record {
                            tenants = tenants;
                            applications = applications;
                            directions = ways;
                            providers = providers;
                            purposes = purposes;
                            routes = routes;
                            models = models;
                            jurisdictions = jurisdictions;
                          }))))))))))))

  abbrev pub only_allow : PrivacyAction → Bool
  only_allow PrivacyAction.allow = true
  only_allow _ = false

  -- `_parse_assertion`
  unfoldable pub parse_assertion : Yaml fl.Float → Result PublicDataAssertion
  unfolding parse_scope parse_datetime
  parse_assertion raw = then_with (as_mapping raw) (λ ms.
      then_with (reject_unknown assertion_keys ms) (λ _.
        then_with (required_string u ms "entity_type") (λ given.
          let entity_type = u.upper given in
          then_with (require (contains entity_type public_assertion_entity_types)) (λ _.
            then_with (required_string u ms "value_sha256") (λ digest.
              let value_sha256 = lib.lower digest in
              then_with (require (length value_sha256 == 64 && all is_hex_digit value_sha256)) (λ _.
                then_with (enum_value actions (at fl u ms "action")) (λ action.
                  then_with (require (only_allow action)) (λ _.
                    then_with (parse_scope (at fl u ms "scope")) (λ scope.
                      then_with (required_string u ms "id") (λ assertion_id.
                        then_with (required_string u ms "reason") (λ reason.
                          then_with (strings_at fl u false ms "obligations") (λ obligations.
                            then_with (parse_datetime (at fl u ms "expires_at")) (λ expires_at.
                              then_with (required_string u ms "provenance") (λ provenance.
                                ok (record {
                                  assertion_id = assertion_id;
                                  entity_type = entity_type;
                                  value_sha256 = value_sha256;
                                  action = action;
                                  reason = reason;
                                  obligations = obligations;
                                  scope = scope;
                                  expires_at = expires_at;
                                  provenance = provenance;
                                })))))))))))))))

  -- BLOCK or REQUIRE_REVIEW
  abbrev pub fails_closed : PrivacyAction → Bool
  fails_closed PrivacyAction.block = true
  fails_closed PrivacyAction.require_review = true
  fails_closed _ = false

  -- `version != 2`, where Python's 2.0 is 2 as well.
  abbrev pub is_version_two : Yaml fl.Float → Bool
  is_version_two (integer (pos n)) = n == 2
  is_version_two (float x) = lib.is_two x
  is_version_two _ = false

  -- `root.get(key, [])` where it has to be a list
  unfoldable pub list_at : Members fl u → String → Result (List (Yaml fl.Float))
  list_at ms key =
      if any (λ (m : Text × Yaml fl.Float). m.0 == codes key) ms
      then elim (at fl u ms key) [ sequence xs ↦ ok (list_of xs) | _ ↦ err value_error ]
      else ok []

  -- `load_policy_v2`, behind the reading of the file
  unfoldable pub load_policy_v2 : Yaml fl.Float → Result (PolicyDocument fl.Float)
  unfolding parse_rule parse_assertion list_at ensure_unique
  load_policy_v2 raw = then_with (as_mapping raw) (λ root.
      then_with (reject_unknown root_keys root) (λ _.
        then_with (require (is_version_two (at fl u root "version"))) (λ _.
          then_with (as_mapping (at fl u root "defaults")) (λ defaults.
            then_with (reject_unknown default_keys defaults) (λ _.
              then_with (enum_value actions (at fl u defaults "action")) (λ default_action.
                then_with (require (fails_closed default_action)) (λ _.
                  then_with (list_at root "rules") (λ raw_rules.
                    then_with (list_at root "public_data_assertions") (λ raw_assertions.
                      then_with (each (parse_rule fl u) raw_rules) (λ rules.
                        then_with (each parse_assertion raw_assertions) (λ assertions.
                          then_with
                            (ensure_unique (λ (a b : Text). a == b) []
                              (map (λ (r : PolicyRule fl.Float). r.rule_id) rules))
                            (λ _.
                              then_with
                                (ensure_unique (λ (a b : ℕ). a == b) []
                                  (map (λ (r : PolicyRule fl.Float). r.priority) rules))
                                (λ _.
                                  then_with
                                    (ensure_unique (λ (a b : Text). a == b) []
                                      (map (λ (a : PublicDataAssertion). a.assertion_id)
                                        assertions))
                                    (λ _. then_with (ensure_unique same_target [] assertions) (λ _.
                                      then_with (required_string u defaults "reason")
                                        (λ default_reason.
                                          then_with (strings_at fl u false defaults "obligations")
                                            (λ default_obligations. ok (record {
                                              version = codes "2";
                                              default_action = default_action;
                                              default_reason = default_reason;
                                              default_obligations = default_obligations;
                                              rules =
                                                  sort
                                                    (λ (a b : PolicyRule fl.Float).
                                                      leb b.priority a.priority)
                                                    rules;
                                              public_data_assertions = assertions;
                                            }))))))))))))))))))
