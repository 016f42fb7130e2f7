-- ===== src/Tests/Policy.antt =====
-- The policies on concrete documents.
use maskgate.Base.{
  IsNodup, List, Text, [], codes, contains, dedupe, false, get, list_beq, list_eq, nat_eq, none, ok,
  option_eq, pair_eq, put, refl, some, sort, text_le, true, ℕ, ◌&&◌, ◌↔◌, ◌∷◌, ◌≡◌, ◌≢◌,
}
use maskgate.Privacy.{
  PrivacyAction, PrivacyDirection, TokenScope, RiskBucket, DataClass, ValidationState,
}
use maskgate.Policies.{
  PolicyAction, Settings, RawRule, new_engine, action_for, action_beq, inspect, has_action,
  apply_switches, load_rules, load_rule, parse_action,
}
use maskgate.Policies.Laws.{inspect_lem}
use maskgate.PolicyV2.{
  PolicyContext, PolicyDocument, PolicyRule, RuleConditions, decide, from_rule, matches_conditions,
  PolicyDecision,
}
use maskgate.PolicyV2.Laws.{DecidedBy, decide_prohibited, decide_sources}
use maskgate.Risk.{Detection}
use maskgate.LegacyPolicy.{LegacyEntry, entry_le, legacy_rule, legacy_document, adapt}
use maskgate.LegacyPolicy.Laws.{listed_action, adapt_lem}
use maskgate.Tests.Samples.{hundredths, platform, ascii}

abbrev open_conditions : RuleConditions ℕ
open_conditions = record {
  entity_types = [];
  data_classes = [];
  tenants = [];
  applications = [];
  routes = [];
  directions = [];
  providers = [];
  models = [];
  jurisdictions = [];
  purposes = [];
  json_paths = [];
  roles = [];
  recognizers = [];
  token_scopes = [];
  risk_buckets = [];
  min_confidence = none;
  max_confidence = none;
  min_risk_score = none;
  max_risk_score = none;
}

abbrev block_cards : PolicyRule ℕ
block_cards = record {
  rule_id = codes "cards";
  priority = 10;
  action = PrivacyAction.block;
  reason = codes "card";
  obligations = [];
  conditions = record open_conditions { entity_types = codes "CARD_NUMBER" ∷ [] };
}

abbrev mask_all : PolicyRule ℕ
mask_all = record {
  rule_id = codes "all";
  priority = 1;
  action = PrivacyAction.tokenize;
  reason = codes "any";
  obligations = [];
  conditions = open_conditions;
}

abbrev document : PolicyDocument ℕ
document = record {
  version = codes "2";
  default_action = PrivacyAction.allow;
  default_reason = codes "default";
  default_obligations = [];
  rules = block_cards ∷ mask_all ∷ [];
  public_data_assertions = [];
}

abbrev card : Detection hundredths
card = record {
  entity_type = codes "card_number";
  data_class = DataClass.financial;
  start = 0;
  stop = 16;
  confidence = 90;
  recognizer = codes "card";
  validation_state = ValidationState.valid;
  evidence = [];
}

abbrev context : PolicyContext ℕ
context = record {
  tenant = codes "t";
  application = codes "a";
  route = codes "/v1";
  direction = PrivacyDirection.input;
  provider = codes "p";
  model = codes "m";
  jurisdiction = codes "eu";
  purpose = codes "chat";
  json_path = [];
  role = none;
  confidence = 90;
  risk = record { score = 75; bucket = RiskBucket.critical; signals = []; data_classes = [] };
  recognizer = codes "card";
  token_scope = TokenScope.request;
}

card_matches : matches_conditions platform hundredths block_cards.conditions card context ≡ true
unfolding matches_conditions list_beq contains
card_matches = refl

card_blocked :
    decide platform hundredths document (some 3) card context none
    ≡ ok (from_rule platform hundredths document block_cards)
card_blocked =
    decide_prohibited platform hundredths document (some 3) card context none block_cards []
      (mask_all ∷ []) refl tt card_matches refl

decide_sources_example :
    DecidedBy platform hundredths document
      (some 3)
      card
      context
      none
      (from_rule platform hundredths document block_cards)
decide_sources_example =
    decide_sources platform hundredths document (some 3) card context none
      (from_rule platform hundredths document block_cards) card_blocked

abbrev settings : Settings
settings = record {
  block_api_keys = true;
  block_secrets = true;
  block_credit_cards = true;
  public_emails = [];
  public_domains = [];
  public_persons = [];
}

abbrev api_key : Text
api_key = codes "api_key"

abbrev raw_rules : List RawRule
raw_rules = record { entity_type = some (codes "api_key"); action = some (codes "allow") } ∷ []

abbrev types : List Text
types = codes "EMAIL" ∷ codes "CARD_NUMBER" ∷ []

inspect_lem_example :
    let p = new_engine ascii settings raw_rules in
    let (answer, blocked) = inspect ascii p types in
    ((answer ≡ PolicyAction.block) ↔ (blocked ≢ []))
    × IsNodup blocked
    × ((t : Text)
        → contains t blocked
          ≡ (contains t types && action_beq (action_for ascii p t) PolicyAction.block))
    × (answer ≡ PolicyAction.allow
        → (has_action ascii p PolicyAction.redact types ≡ false)
          × (has_action ascii p PolicyAction.mask types ≡ false))
inspect_lem_example = inspect_lem ascii (new_engine ascii settings raw_rules) types

inspect_runs :
    inspect ascii (new_engine ascii settings raw_rules) types
    ≡ (PolicyAction.block, codes "CARD_NUMBER" ∷ [])
unfolding inspect new_engine apply_switches load_rules load_rule parse_action action_for dedupe
    list_beq get put
inspect_runs = refl

abbrev legacy_actions : List LegacyEntry
legacy_actions =
    (codes "email", some (codes "mask")) ∷ (codes "card_number", some (codes "block")) ∷ []

abbrev legacy_rules : List (PolicyRule ℕ)
legacy_rules =
    legacy_rule ascii 0 (codes "CARD_NUMBER") PrivacyAction.block
    ∷ legacy_rule ascii 1 (codes "EMAIL") PrivacyAction.tokenize
    ∷ []

adapt_runs : adapt ascii legacy_actions ≡ ok (legacy_document legacy_rules)
unfolding adapt sort text_le maskgate.LegacyPolicy.entry_action maskgate.LegacyPolicy.legacy_action
    list_beq maskgate.Unicode.strip
adapt_runs = refl

adapt_lem_example :
    (out : PolicyDecision) × (decide platform hundredths
        (legacy_document legacy_rules)
        (some 3)
        card
        context
        none
      ≡ ok out)
    × (listed_action platform hundredths card context (sort entry_le legacy_actions)
        ≡ ok out.action)
adapt_lem_example =
    adapt_lem platform hundredths legacy_actions (legacy_document legacy_rules) 3 card context none
      adapt_runs
