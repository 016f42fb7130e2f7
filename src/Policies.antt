-- ===== src/Policies.antt =====
-- app/policies/policy_engine.py: the entity/action map with its public allowlists.
pub mod Laws
use maskgate.Base.{
  Bool, true, false, not, ◌&&◌, ◌||◌, Option, none, some, List, [], ◌∷◌, ◌++◌, map, if◌then◌else◌,
  Text, codes, Dict, get, put, ◌==◌, nat_eq, list_eq, contains, dedupe, select, any, ℕ,
}
use maskgate.Unicode.{Unicode, strip, fold_words}

-- `PolicyAction`
pub data PolicyAction : Type 0 where
  allow mask redact block : PolicyAction

abbrev pub action_beq : PolicyAction → PolicyAction → Bool
action_beq PolicyAction.allow PolicyAction.allow = true
action_beq PolicyAction.mask PolicyAction.mask = true
action_beq PolicyAction.redact PolicyAction.redact = true
action_beq PolicyAction.block PolicyAction.block = true
action_beq _ _ = false

-- `PolicyAction(name)`; `none` is the `ValueError`.
unfoldable pub parse_action : Text → Option PolicyAction
parse_action name =
    if name == codes "ALLOW"
    then some PolicyAction.allow
    else if name == codes "MASK"
    then some PolicyAction.mask
    else if name == codes "REDACT"
    then some PolicyAction.redact
    else if name == codes "BLOCK"
    then some PolicyAction.block
    else none

-- An entry of `rules` in the YAML file, its two keys as texts where they are present.
pub record RawRule : Type 0 where
  pub entity_type : Option Text
  pub action : Option Text

-- The keyword arguments of the constructor.
pub record Settings : Type 0 where
  pub block_api_keys : Bool
  pub block_secrets : Bool
  pub block_credit_cards : Bool
  pub public_emails : List Text
  pub public_domains : List Text
  pub public_persons : List Text

pub record PolicyEngine : Type 0 where
  pub rules : Dict Text PolicyAction
  pub public_email_allowlist : List Text
  pub public_email_domain_allowlist : List Text
  pub public_person_allowlist : List Text

-- `s.lstrip("@")`
unfoldable pub lstrip_at : Text → Text
lstrip_at [] = []
lstrip_at (c ∷ s) = let rest = lstrip_at s in if c == b'@' then rest else c ∷ s

-- The part behind the last `@`, if there is one: `rpartition("@")`.
unfoldable pub after_last_at : Text → Option Text
after_last_at [] = none
after_last_at (c ∷ s) =
    let later = after_last_at s in
    elim later [ some d ↦ some d | none ↦ if c == b'@' then some s else none ]

module _ (u : Unicode) where
  abbrev pub is_blank : Text → Bool
  is_blank s = strip u s == []

  -- One turn of the constructor's loop; a missing key or an unknown action is passed over.
  unfoldable pub load_rule : RawRule → Dict Text PolicyAction → Dict Text PolicyAction
  load_rule r rules = elim r.entity_type [
    | none ↦ rules
    | some entity ↦ elim r.action [
      | none ↦ rules
      | some name ↦ elim (parse_action (u.upper name)) [
        | none ↦ rules
        | some action ↦ put (u.upper entity) action rules
      ]
    ]
  ]

  unfoldable pub load_rules : List RawRule → Dict Text PolicyAction → Dict Text PolicyAction
  unfolding load_rule
  load_rules [] rules = rules
  load_rules (r ∷ rs) rules = load_rules rs (load_rule r rules)

  -- The last lines of the constructor.
  unfoldable pub apply_switches : Settings → Dict Text PolicyAction → Dict Text PolicyAction
  apply_switches c rules =
      let keys =
        put (codes "API_KEY")
          (if not c.block_api_keys || not c.block_secrets
            then PolicyAction.mask
            else PolicyAction.block)
          rules in
      if c.block_credit_cards then put (codes "CARD_NUMBER") PolicyAction.block keys else keys

  -- `PolicyEngine.__init__`
  unfoldable pub new_engine : Settings → List RawRule → PolicyEngine
  new_engine c raw = record {
    rules = apply_switches c (load_rules raw []);
    public_email_allowlist =
        map (λ v. u.casefold (strip u v)) (select (λ v. not (is_blank v)) c.public_emails);
    public_email_domain_allowlist =
        map (λ v. u.casefold (lstrip_at (strip u v)))
          (select (λ v. not (is_blank v)) c.public_domains);
    public_person_allowlist = map (fold_words u) (select (λ v. not (is_blank v)) c.public_persons);
  }

  abbrev pub or_mask : Option PolicyAction → PolicyAction
  or_mask none = PolicyAction.mask
  or_mask (some a) = a

  unfoldable pub action_for : PolicyEngine → Text → PolicyAction
  action_for p entity = or_mask (get (u.upper entity) p.rules)

  abbrev pub domain_listed : List Text → Option Text → Bool
  domain_listed domains none = false
  domain_listed domains (some d) = contains d domains

  unfoldable pub is_public_allowlisted : PolicyEngine → Text → Text → Bool
  is_public_allowlisted p entity value =
      if u.upper entity == codes "EMAIL"
      then (if contains (u.casefold (strip u value)) p.public_email_allowlist
          then true
          else domain_listed p.public_email_domain_allowlist
              (after_last_at (u.casefold (strip u value))))
      else if u.upper entity == codes "PERSON"
      then contains (fold_words u value) p.public_person_allowlist
      else false

  unfoldable pub action_for_entity : PolicyEngine → Text → Text → PolicyAction
  action_for_entity p entity value =
      if is_public_allowlisted p entity value then PolicyAction.allow else action_for p entity

  abbrev pub has_action : PolicyEngine → PolicyAction → List Text → Bool
  has_action p a types = any (λ t. action_beq (action_for p t) a) types

  unfoldable pub inspect : PolicyEngine → List Text → PolicyAction × List Text
  inspect p types =
      let blocked = dedupe (select (λ t. action_beq (action_for p t) PolicyAction.block) types) in
      elim blocked [
        | b ∷ bs ↦ (PolicyAction.block, b ∷ bs)
        | [] ↦
            if has_action p PolicyAction.redact types
            then (PolicyAction.redact, [])
            else if has_action p PolicyAction.mask types
            then (PolicyAction.mask, [])
            else (PolicyAction.allow, [])
      ]
