-- ===== src/Policies/Laws.antt =====
-- app/policies/policy_engine.py: what the switches force, and what `inspect` reports.
use maskgate.Base.{
  Bool, true, false, not, ◌&&◌, ◌||◌, none, List, [], ◌∷◌, if◌then◌else◌, Text, codes, get, put,
  nat_eq, list_eq, contains, select, ◌≡◌, ◌↔◌, refl, arith, get-put, eq_iff, IsNodup, dedupe_lem,
  list_beq, ◌≢◌,
}
use maskgate.Unicode.{Unicode}
use maskgate.Policies.{
  PolicyAction, action_beq, RawRule, Settings, PolicyEngine, new_engine, apply_switches, load_rules,
  action_for, inspect, has_action, or_mask,
}

module _ (u : Unicode) where
  -- Whatever the file says, API keys are blocked exactly when both switches ask for it and masked
  -- otherwise, payment cards are blocked when their switch is on, and a type without a rule is
  -- masked.
  pub new_engine_switches :
      (c : Settings) (raw : List RawRule) (entity : Text)
      → let p = new_engine u c raw in
        (u.upper entity ≡ codes "API_KEY"
          → action_for u p entity ≡ (
              if c.block_api_keys && c.block_secrets
              then PolicyAction.block
              else PolicyAction.mask))
        × (u.upper entity ≡ codes "CARD_NUMBER"
            → c.block_credit_cards ≡ true
            → action_for u p entity ≡ PolicyAction.block)
        × (get (u.upper entity) p.rules ≡ none → action_for u p entity ≡ PolicyAction.mask)
  unfolding new_engine apply_switches action_for list_beq
  new_engine_switches c raw entity =
      let rules = load_rules u raw [] in
      let switched =
        if not c.block_api_keys || not c.block_secrets
        then PolicyAction.mask
        else PolicyAction.block in
      let keys = put (codes "API_KEY") switched rules in
      (
        λ e. ground (
          arith,
          get-put (codes "API_KEY") (u.upper entity) switched rules,
          get-put (codes "CARD_NUMBER") (u.upper entity) PolicyAction.block keys,
          eq_iff (codes "API_KEY") (u.upper entity),
        ),
        λ e on. ground (
          arith,
          get-put (codes "CARD_NUMBER") (u.upper entity) PolicyAction.block keys,
          eq_iff (codes "CARD_NUMBER") (u.upper entity),
        ),
        λ e. rw (e, or_mask),
      )

  any-select :
      (f : Text → Bool) (t : Text) (types : List Text)
      → contains t (select f types) ≡ (contains t types && f t)
  unfolding contains
  any-select f t [] = refl
  any-select f t (x ∷ types) = ground (arith, any-select f t types, eq_iff x t)

  -- inspect answers BLOCK exactly when some type is blocked, and then lists exactly the blocked
  -- types, each once; otherwise it lists none, and it answers ALLOW only if no type asks for more.
  pub inspect_lem :
      (p : PolicyEngine) (types : List Text)
      → let (answer, blocked) = inspect u p types in
        ((answer ≡ PolicyAction.block) ↔ (blocked ≢ []))
        × IsNodup blocked
        × ((t : Text)
            → contains t blocked
              ≡ (contains t types && action_beq (action_for u p t) PolicyAction.block))
        × (answer ≡ PolicyAction.allow
            → (has_action u p PolicyAction.redact types ≡ false)
              × (has_action u p PolicyAction.mask types ≡ false))
  unfolding inspect
  inspect_lem p types =
      let f = λ (t : Text). action_beq (action_for u p t) PolicyAction.block in
      let facts = dedupe_lem (select f types) in
      (
        (λ h. ground arith, λ h. ground arith),
        ground (arith, facts.0),
        λ t. ground (arith, facts.1 t, any-select f t types),
        λ h. ground arith,
      )
