-- ===== src/Tests/Loading.antt =====
-- Runs of app/privacy/policy/loader.py, and of the engine on what it loads.
use maskgate.Base.{
  List, [], codes, contains, dedupe, dedupe_from, err, false, insert_sorted, list_beq, list_eq,
  nat_eq, none, ok, option_eq, pair_eq, refl, some, sort, value_error, ℕ, ◌∷◌, ◌≡◌,
}
use Prim.Native.String.{String}
use maskgate.Json.{pos}
use maskgate.Unicode.{strip, lstrip}
use maskgate.Privacy.{
  PrivacyAction, PrivacyDetection, PrivacyDirection, DataClass, ValidationState, RiskBucket,
  TokenScope,
}
use maskgate.PolicyV2.{
  PolicyDocument, PolicyContext, PolicyDecision, decide, matching_rule, matches_conditions,
}
use maskgate.PolicyLoader.Values.{
  fraction, Yaml, YamlEntries, string, integer, sequence, mapping, nil, cons, end, entry,
  enum_value, value_at, reject_unknown, members, as_mapping, named, each, string_list,
  required_string, stripped, natural_upto, list_of,
}
use maskgate.PolicyLoader.{Library, load_policy_v2, parse_assertion, list_at, ensure_unique}
use maskgate.PolicyLoader.Rules.{parse_rule, parse_conditions, enum_set, known_entities}
use maskgate.PolicyLoader.Documents.{IsLoaded, load_policy_v2-IsLoaded, Reason, loaded_decide_lem}
use maskgate.Tests.Samples.{hundredths, platform}

abbrev library : Library ℕ
library = record { lower = λ s. s; from_iso = λ s. none; is_two = λ x. false }

abbrev pairs : List (String × Yaml ℕ) → YamlEntries ℕ
pairs [] = end
pairs ((k, v) ∷ ps) = entry (some (codes k)) v (pairs ps)

abbrev word : String → Yaml ℕ
word s = string (codes s)

abbrev rule : Yaml ℕ
rule = mapping (
    pairs (
      ("id", word "any")
      ∷ ("priority", integer (pos 7))
      ∷ ("action", word "TOKENIZE")
      ∷ ("reason", word "sensitive")
      ∷ ("conditions", mapping (pairs (("entity_types", sequence (cons (word "EMAIL") nil)) ∷ [])))
      ∷ []))

abbrev file_with : String → Yaml ℕ
file_with action = mapping (
    pairs (
      ("version", integer (pos 2))
      ∷ ("defaults", mapping (pairs (("action", word action) ∷ ("reason", word "unknown") ∷ [])))
      ∷ ("rules", sequence (cons rule nil))
      ∷ []))

abbrev file : Yaml ℕ
file = file_with "BLOCK"

abbrev document : PolicyDocument ℕ
document = record {
  version = codes "2";
  default_action = PrivacyAction.block;
  default_reason = codes "unknown";
  default_obligations = [];
  rules =
      record {
        rule_id = codes "any";
        priority = 7;
        action = PrivacyAction.tokenize;
        reason = codes "sensitive";
        obligations = [];
        conditions = record {
          entity_types = codes "EMAIL" ∷ [];
          data_classes = [];
          tenants = [];
          applications = [];
          routes = [];
          directions = [];
          providers = [];
          models = [];
          jurisdictions = [];
          purposes = [];
          json_paths = [];
          roles = [];
          recognizers = [];
          token_scopes = [];
          risk_buckets = [];
          min_confidence = none;
          max_confidence = none;
          min_risk_score = none;
          max_risk_score = none;
        };
      }
      ∷ [];
  public_data_assertions = [];
}

loads : load_policy_v2 hundredths platform.unicode library file ≡ ok document
unfolding load_policy_v2 parse_rule parse_conditions parse_assertion list_at ensure_unique enum_set
    known_entities each string_list required_string stripped value_at reject_unknown members
    as_mapping natural_upto fraction enum_value named list_of contains dedupe dedupe_from strip
    lstrip list_beq sort insert_sorted
loads = refl

open_default :
    load_policy_v2 hundredths platform.unicode library (file_with "ALLOW") ≡ err value_error
unfolding load_policy_v2 enum_value value_at reject_unknown members as_mapping named contains
    list_beq
open_default = refl

load_policy_v2-IsLoaded_example : IsLoaded hundredths platform.unicode library file document
load_policy_v2-IsLoaded_example =
    load_policy_v2-IsLoaded hundredths platform.unicode library file document loads

abbrev address : PrivacyDetection ℕ
address = record {
  entity_type = codes "ADDRESS";
  data_class = DataClass.direct_pii;
  start = 0;
  stop = 4;
  confidence = 90;
  recognizer = codes "r";
  validation_state = ValidationState.valid;
  evidence = [];
}

abbrev context : PolicyContext ℕ
context = record {
  tenant = codes "t";
  application = codes "a";
  route = codes "/v1";
  direction = PrivacyDirection.input;
  provider = codes "p";
  model = codes "m";
  jurisdiction = codes "eu";
  purpose = codes "chat";
  json_path = [];
  role = none;
  confidence = 90;
  risk = record { score = 75; bucket = RiskBucket.critical; signals = []; data_classes = [] };
  recognizer = codes "r";
  token_scope = TokenScope.request;
}

abbrev refusal : PolicyDecision
refusal = record {
  action = PrivacyAction.block;
  reason = codes "unknown";
  policy_version = codes "2";
  obligations = [];
  rule_id = none;
  assertion_id = none;
}

refuses : decide platform hundredths document (some 3) address context none ≡ ok refusal
unfolding decide matching_rule matches_conditions contains list_beq
refuses = refl

loaded_decide_lem_example :
    Reason hundredths platform.unicode library platform document (some 3) address context refusal
loaded_decide_lem_example =
    loaded_decide_lem hundredths platform.unicode library platform document (some 3) address context
      file none refusal loads refuses
