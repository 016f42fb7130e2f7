-- ===== src/PolicyLoader/Documents.antt =====
-- app/privacy/policy/loader.py: what `load_policy_v2` promises to the engine.
use maskgate.Base.{
  All, All-In, Bool, IsNodup, IsSorted, List, Option, Text, [], ap, arith, codes, contains, false,
  first, leb, list_eq, map, nat_eq, ok, option_eq, pair_eq, refl, sort, sort-IsSorted, true, ℕ,
  ◌==◌, ◌∙◌, ◌≡◌,
}
use maskgate.Unicode.{Unicode}
use maskgate.Privacy.{PrivacyAction, PrivacyDetection, Floats}
use maskgate.PolicyV2.{
  Platform, PolicyContext, PolicyDecision, PolicyRule, PublicDataAssertion, PolicyDocument,
  matches_conditions, from_rule, decide,
}
use maskgate.PolicyV2.Laws.{IsFirst, DecidedBy, by_rule, by_assertion, by_default, decide_sources}
use maskgate.PolicyLoader.Values.{
  Yaml, each, as_mapping, reject_unknown, required_string, value_at, string_list, enum_value,
}
use maskgate.PolicyLoader.Tables.{public_assertion_entity_types, root_keys, default_keys, actions}
use maskgate.PolicyLoader.{
  Library, ensure_unique, same_target, fails_closed, is_version_two, list_at, parse_assertion,
  load_policy_v2,
}
use maskgate.PolicyLoader.Rules.{parse_rule}
use maskgate.PolicyLoader.Checks.{
  Holds, Holds-ok, Holds-then, Holds-require, Holds-each, unique-fresh,
}
use maskgate.PolicyLoader.Laws.{IsLoadedRule, IsPublic, rule-Holds, assertion-Holds}

module _ (fl : Floats) (u : Unicode) (lib : Library fl.Float) where
  abbrev pub higher : PolicyRule fl.Float → PolicyRule fl.Float → Bool
  higher a b = leb b.priority a.priority

  abbrev pub priority_of : PolicyRule fl.Float → ℕ
  priority_of r = r.priority

  abbrev pub id_of : PolicyRule fl.Float → Text
  id_of r = r.rule_id

  abbrev pub assertion_id_of : PublicDataAssertion → Text
  assertion_id_of a = a.assertion_id

  -- What a document is that was loaded from a file: its rules are what each entry of the file's
  -- `rules` is parsed to, in the order of their priorities, and its assertions what each entry of
  -- `public_data_assertions` is parsed to.
  pub record IsLoaded (raw : Yaml fl.Float) (d : PolicyDocument fl.Float) : Type 0 where
    pub closed : fails_closed fl u lib d.default_action ≡ true
    pub root : List (Text × Yaml fl.Float)
    pub is_root : as_mapping raw ≡ ok root
    pub rule_entries : List (Yaml fl.Float)
    pub in_file : list_at fl u lib root "rules" ≡ ok rule_entries
    pub rules : List (PolicyRule fl.Float)
    pub parsed : each (parse_rule fl u) rule_entries ≡ ok rules
    pub assertion_entries : List (Yaml fl.Float)
    pub assertions_in_file : list_at fl u lib root "public_data_assertions" ≡ ok assertion_entries
    pub assertions_parsed :
        each (parse_assertion fl u lib) assertion_entries ≡ ok d.public_data_assertions
    pub sorted : d.rules ≡ sort higher rules
    pub falling : IsSorted higher d.rules
    pub ids : IsNodup (map id_of rules)
    pub priorities : IsNodup (map priority_of rules)
    pub each_rule : All (IsLoadedRule fl u lib) rules
    pub assertion_ids : IsNodup (map assertion_id_of d.public_data_assertions)
    pub each_assertion : All (IsPublic fl u lib) d.public_data_assertions

  falling-sort : (rules : List (PolicyRule fl.Float)) → IsSorted higher (sort higher rules)
  falling-sort rules = sort-IsSorted higher (λ x y. ground arith) (λ x y z h k. ground arith) rules

  document-Holds : (raw : Yaml fl.Float) → Holds (IsLoaded raw) (load_policy_v2 fl u lib raw)
  unfolding load_policy_v2
  document-Holds raw = Holds-then (as_mapping raw) _ (λ root e1.
      Holds-then (reject_unknown root_keys root) _ (λ _ e2.
        Holds-require (is_version_two fl u lib (value_at (codes "version") root)) _ (λ two.
          Holds-then (as_mapping (value_at (codes "defaults") root)) _ (λ ms e3.
            Holds-then (reject_unknown default_keys ms) _ (λ _ e4.
              Holds-then (enum_value actions (value_at (codes "action") ms)) _ (λ default_action e5.
                Holds-require (fails_closed fl u lib default_action) _ (λ closed.
                  Holds-then (list_at fl u lib root "rules") _ (λ raw_rules e6.
                    Holds-then (list_at fl u lib root "public_data_assertions") _
                      (λ raw_assertions e7.
                        Holds-then (each (parse_rule fl u) raw_rules) _ (λ rules e8.
                          Holds-then (each (parse_assertion fl u lib) raw_assertions) _
                            (λ assertions e9.
                              Holds-then
                                (ensure_unique (λ (a b : Text). a == b) [] (map id_of rules)) _
                                (λ _ e10.
                                  Holds-then
                                    (ensure_unique (λ (a b : ℕ). a == b) [] (map priority_of rules))
                                    _
                                    (λ _ e11.
                                      Holds-then
                                        (ensure_unique (λ (a b : Text). a == b) []
                                          (map assertion_id_of assertions))
                                        _
                                        (λ _ e12.
                                          Holds-then (ensure_unique same_target [] assertions) _
                                            (λ _ e13.
                                              Holds-then (required_string u ms "reason") _
                                                (λ reason e14.
                                                  Holds-then
                                                    (string_list u false
                                                      (value_at (codes "obligations") ms))
                                                    _
                                                    (λ obligations e15. Holds-ok _ (record {
                                                      closed = closed;
                                                      root = root;
                                                      is_root = e1;
                                                      rule_entries = raw_rules;
                                                      in_file = e6;
                                                      rules = rules;
                                                      parsed = e8;
                                                      assertion_entries = raw_assertions;
                                                      assertions_in_file = e7;
                                                      assertions_parsed = e9;
                                                      sorted = refl;
                                                      falling = falling-sort rules;
                                                      ids =
                                                          (unique-fresh [] (map id_of rules) e10).0;
                                                      priorities =
                                                          (unique-fresh [] (map priority_of rules)
                                                            e11).0;
                                                      each_rule =
                                                          (Holds-each (parse_rule fl u)
                                                            (rule-Holds fl u lib) raw_rules).at
                                                            rules e8;
                                                      assertion_ids =
                                                          (unique-fresh []
                                                            (map assertion_id_of assertions) e12).0;
                                                      each_assertion =
                                                          (Holds-each (parse_assertion fl u lib)
                                                            (assertion-Holds fl u lib)
                                                            raw_assertions).at
                                                            assertions e9;
                                                    }))))))))))))))))))

  -- A document that is loaded fails closed by default. Its rules are what the entries under rules
  -- in the file are parsed to, one for each, in the order of falling priorities; no id and no
  -- priority stands twice, every priority is at most a million, no range is inverted and every
  -- entity type is known. Its assertions are what the entries under public_data_assertions are
  -- parsed to, one for each; they have ids of their own, allow, are for types that may be public,
  -- and name a value by 64 hexadecimal digits.
  pub load_policy_v2-IsLoaded :
      (raw : Yaml fl.Float) (d : PolicyDocument fl.Float)
      → load_policy_v2 fl u lib raw ≡ ok d
      → IsLoaded raw d
  load_policy_v2-IsLoaded raw d h = (document-Holds raw).at d h

  module _ (pf : Platform) (d : PolicyDocument fl.Float) (now : Option ℕ)
      (x : PrivacyDetection fl.Float) (c : PolicyContext fl.Float) where
    -- Why a decision on a loaded document is what it is.
    pub data Reason (out : PolicyDecision) : Type 0 where
      ruled :
          (r : PolicyRule fl.Float)
          → IsFirst (λ q. matches_conditions pf fl q.conditions x c) d.rules r
          → out ≡ from_rule pf fl d r
          → Reason out
      asserted :
          contains (pf.unicode.upper x.entity_type) public_assertion_entity_types ≡ true
          → out.action ≡ PrivacyAction.allow
          → Reason out
      refused :
          All
            (λ (q : PolicyRule fl.Float). matches_conditions pf fl q.conditions x c ≡ false)
            d.rules
          → fails_closed fl u lib out.action ≡ true
          → Reason out

    reason_of :
        (raw : Yaml fl.Float) (value : Option Text) (out : PolicyDecision)
        → IsLoaded raw d
        → DecidedBy pf fl d now x c value out
        → Reason out
    reason_of raw value out loaded (by_rule r first rest e) = ruled r first e
    reason_of raw value out loaded (by_assertion a force permits e) =
        let public =
          All-In (IsPublic fl u lib) a d.public_data_assertions loaded.each_assertion
            force.listed in
        asserted (rw (← force.same_type) public.eligible)
          (ap (λ (o : PolicyDecision). o.action) e ∙ public.allows)
    reason_of raw value out loaded (by_default none_matches idle e) =
        refused none_matches
          (ap (λ (o : PolicyDecision). fails_closed fl u lib o.action) e ∙ loaded.closed)

    -- What the engine decides by a document that was loaded: the first rule to match decides; or
    -- the type of the detection is one of the six that may be public, and the action is ALLOW; or
    -- no rule matches, and the action is BLOCK or REQUIRE_REVIEW.
    pub loaded_decide_lem :
        (raw : Yaml fl.Float) (value : Option Text) (out : PolicyDecision)
        → load_policy_v2 fl u lib raw ≡ ok d
        → decide pf fl d now x c value ≡ ok out
        → Reason out
    loaded_decide_lem raw value out h e =
        reason_of raw value out (load_policy_v2-IsLoaded raw d h)
          (decide_sources pf fl d now x c value out e)
