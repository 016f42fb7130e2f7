-- ===== src/PolicyLoader/Tables.antt =====
-- app/privacy/policy/loader.py: its sets of keys and types, and the values of the enumerations of
-- app/privacy/models.py and app/masking/entity_types.py.
use maskgate.Base.{List, Text, [], codes, ◌∷◌}
use Prim.Native.String.{String}
use maskgate.Privacy.{DataClass, PrivacyDirection, TokenScope, PrivacyAction, RiskBucket}

abbrev pub known_entity_types : List Text
known_entity_types =
    codes "EMAIL"
    ∷ codes "PHONE"
    ∷ codes "IP_ADDRESS"
    ∷ codes "DOMAIN"
    ∷ codes "URL"
    ∷ codes "API_KEY"
    ∷ codes "FILE_PATH"
    ∷ codes "MONEY"
    ∷ codes "CARD_NUMBER"
    ∷ codes "PERSON"
    ∷ codes "ORG"
    ∷ codes "BANK"
    ∷ codes "INN"
    ∷ codes "SNILS"
    ∷ codes "PASSPORT"
    ∷ codes "LOCATION"
    ∷ codes "ACCOUNT_NUMBER"
    ∷ codes "ADDRESS"
    ∷ codes "BIC"
    ∷ codes "CONNECTION_STRING"
    ∷ codes "DATE_OF_BIRTH"
    ∷ codes "IBAN"
    ∷ codes "IPV6"
    ∷ codes "JWT"
    ∷ codes "PASSWORD"
    ∷ codes "PRIVATE_KEY"
    ∷ codes "SWIFT"
    ∷ []

abbrev pub public_assertion_entity_types : List Text
public_assertion_entity_types =
    codes "DOMAIN"
    ∷ codes "EMAIL"
    ∷ codes "LOCATION"
    ∷ codes "ORG"
    ∷ codes "PERSON"
    ∷ codes "URL"
    ∷ []

abbrev pub root_keys : List Text
root_keys = codes "version" ∷ codes "defaults" ∷ codes "rules" ∷ codes "public_data_assertions" ∷ []

abbrev pub default_keys : List Text
default_keys = codes "action" ∷ codes "reason" ∷ codes "obligations" ∷ []

abbrev pub rule_keys : List Text
rule_keys =
    codes "id"
    ∷ codes "priority"
    ∷ codes "action"
    ∷ codes "reason"
    ∷ codes "obligations"
    ∷ codes "conditions"
    ∷ []

abbrev pub condition_keys : List Text
condition_keys =
    codes "entity_types"
    ∷ codes "data_classes"
    ∷ codes "tenants"
    ∷ codes "applications"
    ∷ codes "routes"
    ∷ codes "directions"
    ∷ codes "providers"
    ∷ codes "models"
    ∷ codes "jurisdictions"
    ∷ codes "purposes"
    ∷ codes "json_paths"
    ∷ codes "roles"
    ∷ codes "recognizers"
    ∷ codes "token_scopes"
    ∷ codes "risk_buckets"
    ∷ codes "min_confidence"
    ∷ codes "max_confidence"
    ∷ codes "min_risk_score"
    ∷ codes "max_risk_score"
    ∷ []

abbrev pub assertion_keys : List Text
assertion_keys =
    codes "id"
    ∷ codes "entity_type"
    ∷ codes "value_sha256"
    ∷ codes "action"
    ∷ codes "reason"
    ∷ codes "obligations"
    ∷ codes "scope"
    ∷ codes "expires_at"
    ∷ codes "provenance"
    ∷ []

abbrev pub assertion_scope_keys : List Text
assertion_scope_keys =
    codes "tenants"
    ∷ codes "applications"
    ∷ codes "directions"
    ∷ codes "providers"
    ∷ codes "purposes"
    ∷ codes "routes"
    ∷ codes "models"
    ∷ codes "jurisdictions"
    ∷ []

abbrev pub actions : List (String × PrivacyAction)
actions =
    ("ALLOW", PrivacyAction.allow)
    ∷ ("TOKENIZE", PrivacyAction.tokenize)
    ∷ ("SURROGATE", PrivacyAction.surrogate)
    ∷ ("REDACT", PrivacyAction.redact)
    ∷ ("GENERALIZE", PrivacyAction.generalize)
    ∷ ("HASH", PrivacyAction.hash)
    ∷ ("BLOCK", PrivacyAction.block)
    ∷ ("REQUIRE_REVIEW", PrivacyAction.require_review)
    ∷ []

abbrev pub data_classes : List (String × DataClass)
data_classes =
    ("DIRECT_PII", DataClass.direct_pii)
    ∷ ("QUASI_IDENTIFIER", DataClass.quasi_identifier)
    ∷ ("FINANCIAL", DataClass.financial)
    ∷ ("AUTH_SECRET", DataClass.auth_secret)
    ∷ ("HEALTH", DataClass.health)
    ∷ ("LOCATION", DataClass.location)
    ∷ ("BUSINESS_CONFIDENTIAL", DataClass.business_confidential)
    ∷ ("PUBLIC_DATA", DataClass.public_data)
    ∷ []

abbrev pub directions : List (String × PrivacyDirection)
directions = ("INPUT", PrivacyDirection.input) ∷ ("OUTPUT", PrivacyDirection.output) ∷ []

abbrev pub token_scopes : List (String × TokenScope)
token_scopes =
    ("field", TokenScope.field_scope)
    ∷ ("request", TokenScope.request)
    ∷ ("turn", TokenScope.turn)
    ∷ ("conversation", TokenScope.conversation)
    ∷ ("tenant", TokenScope.tenant)
    ∷ []

abbrev pub risk_buckets : List (String × RiskBucket)
risk_buckets =
    ("LOW", RiskBucket.low)
    ∷ ("MEDIUM", RiskBucket.medium)
    ∷ ("HIGH", RiskBucket.high)
    ∷ ("CRITICAL", RiskBucket.critical)
    ∷ []
