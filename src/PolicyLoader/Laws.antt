-- ===== src/PolicyLoader/Laws.antt =====
-- app/privacy/policy/loader.py: what a document holds that was loaded.
use maskgate.Base.{
  List, Option, Text, all, ap, arith, codes, contains, false, leb, length, list_eq, map, nat_eq,
  none, not, ok, option_eq, pair_eq, some, true, ℕ, ◌&&◌, ◌==◌, ◌∙◌, ◌≡◌,
}
use maskgate.Unicode.{Unicode}
use Prim.Native.String.{String}
use maskgate.Privacy.{PrivacyAction, Floats}
use maskgate.PolicyV2.{PolicyRule, PublicDataAssertion, RuleConditions}
use maskgate.Json.{pos, negsuc}
use maskgate.PolicyLoader.Checks.{Holds, Holds-ok, Holds-then, Holds-require, Holds-if}
use maskgate.PolicyLoader.Values.{
  Yaml, null, boolean, integer, float, not_a_number, string, timestamp, sequence, mapping,
  natural_upto, fraction, as_mapping, reject_unknown, required_string, value_at, string_list,
  enum_value,
}
use maskgate.PolicyLoader.Tables.{
  rule_keys, condition_keys, known_entity_types, data_classes, directions, token_scopes,
  risk_buckets, assertion_keys, actions, public_assertion_entity_types,
}
use maskgate.PolicyLoader.{
  Library, is_hex_digit, only_allow, parse_scope, parse_assertion, parse_datetime,
}
use maskgate.PolicyLoader.Rules.{
  parse_rule, is_inverted, known_entities, enum_set, parse_conditions, present,
}

natural_upto-le :
    {F : Type 0} (maximum : ℕ) (v : Yaml F) (n : ℕ)
    → natural_upto maximum v ≡ ok (some n)
    → leb n maximum ≡ true
unfolding natural_upto
natural_upto-le maximum (integer (pos k)) n h = ground (arith, h)
natural_upto-le maximum (integer (negsuc k)) n h = absurd (cc)
natural_upto-le maximum null n h = absurd (cc)
natural_upto-le maximum (boolean b) n h = absurd (cc)
natural_upto-le maximum (float x) n h = absurd (cc)
natural_upto-le maximum not_a_number n h = absurd (cc)
natural_upto-le maximum (string t) n h = absurd (cc)
natural_upto-le maximum (timestamp t) n h = absurd (cc)
natural_upto-le maximum (sequence xs) n h = absurd (cc)
natural_upto-le maximum (mapping ms) n h = absurd (cc)

module _ (fl : Floats) (u : Unicode) (lib : Library fl.Float) where
  pub record IsLoadedConditions (c : RuleConditions fl.Float) : Type 0 where
    pub known : all (λ e. contains e known_entity_types) c.entity_types ≡ true
    pub confidence : is_inverted fl u fl.le_f c.min_confidence c.max_confidence ≡ false
    pub risk : is_inverted fl u leb c.min_risk_score c.max_risk_score ≡ false

  -- What a rule of a loaded document is.
  pub record IsLoadedRule (r : PolicyRule fl.Float) : Type 0 where
    pub bounded : leb r.priority 1000000 ≡ true
    pub conditions : IsLoadedConditions r.conditions

  -- What an assertion of a loaded document is.
  pub record IsPublic (a : PublicDataAssertion) : Type 0 where
    pub eligible : contains a.entity_type public_assertion_entity_types ≡ true
    pub digest : (length a.value_sha256 ≡ 64) × (all is_hex_digit a.value_sha256 ≡ true)
    pub allows : a.action ≡ PrivacyAction.allow

  only_allow-ok :
      (action : PrivacyAction) → only_allow fl u lib action ≡ true → action ≡ PrivacyAction.allow
  only_allow-ok action h = ground (arith, h)

  present-ok : {A : Type 0} (given : Option A) (a : A) → present fl u given ≡ ok a → given ≡ some a
  present-ok none a h = absurd (cc)
  present-ok (some b) a h = ground (arith, h)

  known-Holds :
      (ms : List (Text × Yaml fl.Float)) (key : String)
      → Holds
          (λ (es : List Text). all (λ e. contains e known_entity_types) es ≡ true)
          (known_entities fl u ms key)
  unfolding known_entities
  known-Holds ms key =
      Holds-then (string_list u false (value_at (codes key) ms)) _
        (λ raw e1. Holds-if _ (map u.upper raw) (λ e. ground (arith, e)))

  conditions-Holds : (raw : Yaml fl.Float) → Holds IsLoadedConditions (parse_conditions fl u raw)
  unfolding parse_conditions
  conditions-Holds raw = Holds-then (as_mapping raw) _ (λ ms e1.
      Holds-then (reject_unknown condition_keys ms) _ (λ _ e2.
        Holds-then (fraction fl (value_at (codes "min_confidence") ms)) _ (λ least e3.
          Holds-then (fraction fl (value_at (codes "max_confidence") ms)) _ (λ most e4.
            Holds-then (natural_upto 100 (value_at (codes "min_risk_score") ms)) _ (λ low e5.
              Holds-then (natural_upto 100 (value_at (codes "max_risk_score") ms)) _ (λ high e6.
                Holds-require (not (is_inverted fl u fl.le_f least most)) _ (λ confidence.
                  Holds-require (not (is_inverted fl u leb low high)) _ (λ risk.
                    Holds-then (known_entities fl u ms "entity_types") _ (λ entities e7.
                      Holds-then (enum_set fl u data_classes ms "data_classes") _ (λ _ _.
                        Holds-then (string_list u false (value_at (codes "tenants") ms)) _ (λ _ _.
                          Holds-then (string_list u false (value_at (codes "applications") ms)) _
                            (λ _ _.
                              Holds-then (string_list u false (value_at (codes "routes") ms)) _
                                (λ _ _.
                                  Holds-then (enum_set fl u directions ms "directions") _ (λ _ _.
                                    Holds-then
                                      (string_list u false (value_at (codes "providers") ms)) _
                                      (λ _ _.
                                        Holds-then
                                          (string_list u false (value_at (codes "models") ms)) _
                                          (λ _ _.
                                            Holds-then
                                              (string_list u false
                                                (value_at (codes "jurisdictions") ms))
                                              _
                                              (λ _ _.
                                                Holds-then
                                                  (string_list u false
                                                    (value_at (codes "purposes") ms))
                                                  _
                                                  (λ _ _.
                                                    Holds-then
                                                      (string_list u false
                                                        (value_at (codes "json_paths") ms))
                                                      _
                                                      (λ _ _.
                                                        Holds-then
                                                          (string_list u false
                                                            (value_at (codes "roles") ms))
                                                          _
                                                          (λ _ _.
                                                            Holds-then
                                                            (string_list u false
                                                            (value_at (codes "recognizers") ms))
                                                            _
                                                            (λ _ _.
                                                            Holds-then
                                                            (enum_set fl u token_scopes ms
                                                            "token_scopes")
                                                            _
                                                            (λ _ _.
                                                            Holds-then
                                                            (enum_set fl u risk_buckets ms
                                                            "risk_buckets")
                                                            _
                                                            (λ _ _. Holds-ok _ (record {
                                                            known =
                                                            (known-Holds ms "entity_types").at
                                                            entities e7;
                                                            confidence = ground (arith, confidence);
                                                            risk = ground (arith, risk);
                                                            }))))))))))))))))))))))))

  pub rule-Holds : (raw : Yaml fl.Float) → Holds IsLoadedRule (parse_rule fl u raw)
  unfolding parse_rule
  rule-Holds raw = Holds-then (as_mapping raw) _ (λ ms e1.
      Holds-then (reject_unknown rule_keys ms) _ (λ _ e2.
        Holds-then (required_string u ms "id") _ (λ rule_id e3.
          Holds-then (natural_upto 1000000 (value_at (codes "priority") ms)) _ (λ given e4.
            Holds-then (present fl u given) _ (λ priority e5.
              Holds-then (required_string u ms "reason") _ (λ reason e6.
                Holds-then (string_list u false (value_at (codes "obligations") ms)) _
                  (λ obligations e7.
                    Holds-then (parse_conditions fl u (value_at (codes "conditions") ms)) _
                      (λ conditions e8.
                        Holds-then (enum_value actions (value_at (codes "action") ms)) _
                          (λ action e9. Holds-ok _ (record {
                            bounded =
                                natural_upto-le 1000000 (value_at (codes "priority") ms) priority
                                  (e4 ∙ ap ok (present-ok given priority e5));
                            conditions =
                                (conditions-Holds (value_at (codes "conditions") ms)).at conditions
                                  e8;
                          }))))))))))

  pub assertion-Holds : (raw : Yaml fl.Float) → Holds IsPublic (parse_assertion fl u lib raw)
  unfolding parse_assertion
  assertion-Holds raw = Holds-then (as_mapping raw) _ (λ ms e1.
      Holds-then (reject_unknown assertion_keys ms) _ (λ _ e2.
        Holds-then (required_string u ms "entity_type") _ (λ given e3.
          Holds-require (contains (u.upper given) public_assertion_entity_types) _ (λ eligible.
            Holds-then (required_string u ms "value_sha256") _ (λ digest e5.
              Holds-require (length (lib.lower digest) == 64 && all is_hex_digit (lib.lower digest))
                _
                (λ hex.
                  Holds-then (enum_value actions (value_at (codes "action") ms)) _ (λ action e7.
                    Holds-require (only_allow fl u lib action) _ (λ allowed.
                      Holds-then (parse_scope fl u lib (value_at (codes "scope") ms)) _ (λ scope e9.
                        Holds-then (required_string u ms "id") _ (λ assertion_id e10.
                          Holds-then (required_string u ms "reason") _ (λ reason e11.
                            Holds-then (string_list u false (value_at (codes "obligations") ms)) _
                              (λ obligations e12.
                                Holds-then
                                  (parse_datetime fl u lib (value_at (codes "expires_at") ms)) _
                                  (λ expires_at e13.
                                    Holds-then (required_string u ms "provenance") _
                                      (λ provenance e14. Holds-ok _ (record {
                                        eligible = eligible;
                                        digest = (ground (arith, hex), ground (arith, hex));
                                        allows = only_allow-ok action allowed;
                                      })))))))))))))))
