-- ===== src/Tests/Running.antt =====
-- A text from detection to its masked form and back, on concrete inputs.
use maskgate.Base.{
  List, Text, [], arith, codes, contains, false, length, list_beq, list_eq, nat_eq, none, ok,
  option_eq, pair_eq, refl, replace, some, sort, true, ℕ, ◌++◌, ◌∷◌, ◌≡◌, ◌≢◌,
}
use maskgate.Privacy.{PrivacyAction, TokenScope, DataClass, ValidationState, DetectorProfile}
use maskgate.Detection.{Recognizer, Found}
use maskgate.PolicyV2.{PolicyDocument}
use maskgate.Vault
use maskgate.Vault.{MappingItem}
use maskgate.Vault.Invariant.{IsValid}
use maskgate.Session.{Session, Mode, Entity, Edit, mask_text}
use maskgate.Session.Splice.{render}
use maskgate.Session.Masks.{Masks, mask_text_lem}
use maskgate.Runtime.{PrivacyRuntime, Call, transform_text}
use maskgate.Runtime.Laws.{Outcome, transform_text_lem}
use maskgate.Rehydrate.{rehydrate_text}
use maskgate.Rehydrate.Stream.{new_rehydrator, push_all, joined, restored, finish}
use maskgate.Rehydrate.Stream.Held.{HoldsOf, push_all_lem}
use maskgate.OutputGuard.{redact_detected, is_safe_literal}
use maskgate.OutputGuard.Laws.{Redacts, redact_detected_lem}
use maskgate.Principal.{
  PrincipalContext, vault_namespace, resolve, secret_of, credential_principal, local_principal,
}
use maskgate.Principal.Laws.{resolve_lem}
use maskgate.Tests.Samples.{ascii, hundredths, platform, fresh_vault, plain_policy, item_ann}

abbrev session : Session
session = record {
  mode = Mode.semantic_placeholder;
  policy = plain_policy;
  token_namespace = codes "abcd";
  surrogates = [];
  vault = fresh_vault;
  placeholder_counters = [];
  draws = [];
}

abbrev letter : Text
letter = codes "Ann met Bob"

abbrev ann_found : Found hundredths
ann_found = record {
  entity_type = codes "PERSON";
  data_class = DataClass.direct_pii;
  start = 0;
  stop = 3;
  confidence = 90;
  recognizer = codes "names";
  validation_state = ValidationState.unvalidated;
  evidence = [];
}

abbrev names : Recognizer hundredths
names = record { serves = λ p. true; recognize = λ c. ann_found ∷ [] }

abbrev tokenize_all : PolicyDocument ℕ
tokenize_all = record {
  version = codes "2";
  default_action = PrivacyAction.tokenize;
  default_reason = codes "default";
  default_obligations = [];
  rules = [];
  public_data_assertions = [];
}

abbrev runtime : PrivacyRuntime platform hundredths
runtime = record {
  least = λ p. 65;
  profile = DetectorProfile.balanced;
  recognizers = names ∷ [];
  policy = tokenize_all;
  now = λ n. some 3;
}

abbrev call : Call platform hundredths
call = record {
  principal = record {
    tenant_id = codes "local";
    application_id = codes "maskgate";
    subject_id = codes "client:1";
    authentication_method = codes "local";
  };
  request = record {
    route = codes "/v1/chat";
    provider = codes "p";
    model = codes "m";
    jurisdiction = codes "eu";
    purpose = codes "chat";
    token_scope = TokenScope.request;
  };
  json_path = [];
  role = none;
}

transform_text_lem_example :
    Outcome platform hundredths runtime call letter session
      (transform_text platform hundredths runtime call letter session)
transform_text_lem_example =
    transform_text_lem platform hundredths runtime call letter session
      (λ k e. (((omega arith, omega arith), tt), tt))

abbrev people : List Entity
people =
    record { entity_type = codes "PERSON"; text = codes "Ann"; start = 0; stop = 3 }
    ∷ record { entity_type = codes "PERSON"; text = codes "Bob"; start = 8; stop = 11 }
    ∷ []

mask_text_lem_example :
    let (r, t) = mask_text ascii letter people session in
    (IsValid session.vault → IsValid t.vault)
    × ((k : Text) (i : MappingItem)
        → Vault.find_original k session.vault ≡ some i
        → Vault.find_original k t.vault ≡ some i)
    × ((out : Text)
        → r ≡ ok out
        → (edits : List Edit) × Masks ascii session.policy t people edits
          × (out ≡ render 0 letter edits))
mask_text_lem_example =
    mask_text_lem ascii letter people session
      (omega arith, omega arith, (omega arith, omega arith, omega arith))

restore_runs : rehydrate_text (codes "<MG_abcd_PERSON_1> met Bob") (item_ann ∷ []) ≡ letter
unfolding rehydrate_text sort replace
restore_runs = refl

abbrev restored_names : List MappingItem
restored_names = item_ann ∷ []

abbrev chunks : List Text
chunks = codes "to <MG_ab" ∷ codes "cd_PERSON_1>!" ∷ []

push_all_lem_example :
    let restorable = (new_rehydrator restored_names).mapping in
    let (outs, t) = push_all chunks (new_rehydrator restored_names) in
    (pieces : List Text) × (outs ≡ restored restorable pieces)
    × (joined pieces ++ t.buffer ≡ joined chunks)
    × HoldsOf restorable (joined chunks) t.buffer
    × ((finish t).0 ≡ rehydrate_text t.buffer restorable)
push_all_lem_example = push_all_lem chunks restored_names

stream_runs : (push_all chunks (new_rehydrator restored_names)).0 ≡ codes "to " ∷ codes "Ann!" ∷ []
unfolding new_rehydrator push_all maskgate.Rehydrate.Stream.push rehydrate_text sort replace
    maskgate.Rehydrate.Stream.safe_and_hold maskgate.Rehydrate.Stream.split_last
    maskgate.Rehydrate.Stream.is_partial list_beq
stream_runs = refl

abbrev find_people : Text → List Entity
find_people text = people

letter_unsafe : is_safe_literal letter ≡ false
unfolding contains list_beq
letter_unsafe = refl

redact_detected_lem_example :
    (edits : List Edit) × Redacts (codes "Ann" ∷ []) (find_people letter) edits
    × (redact_detected find_people (codes "Ann" ∷ []) letter ≡ render 0 letter edits)
redact_detected_lem_example =
    redact_detected_lem find_people (codes "Ann" ∷ []) letter
      (omega arith, omega arith, (omega arith, omega arith, omega arith)) letter_unsafe

-- A digest of 64 characters that keeps the first character.
abbrev flat_digest : Text → Text
flat_digest [] = codes "0000000000000000000000000000000000000000000000000000000000000000"
flat_digest (c ∷ s) = c ∷ codes "000000000000000000000000000000000000000000000000000000000000000"

long_digest : (x : Text) → length (flat_digest x) ≡ 64
long_digest [] = refl
long_digest (c ∷ s) = refl

abbrev proxy : Text
proxy = codes "maskgate"

abbrev first_caller : PrincipalContext
first_caller = credential_principal ascii flat_digest proxy (flat_digest (codes "abc"))

abbrev second_caller : PrincipalContext
second_caller = credential_principal ascii flat_digest proxy (flat_digest (codes "xyz"))

abbrev local_caller : PrincipalContext
local_caller = local_principal ascii flat_digest proxy none

first_resolved : resolve ascii flat_digest proxy (some (codes "Bearer abc")) none ≡ ok first_caller
unfolding resolve list_beq maskgate.Unicode.strip maskgate.Limits.bearer_token
    maskgate.Limits.partition_space
first_resolved = refl

second_resolved :
    resolve ascii flat_digest proxy (some (codes "bearer xyz")) none ≡ ok second_caller
unfolding resolve list_beq maskgate.Unicode.strip maskgate.Limits.bearer_token
    maskgate.Limits.partition_space
second_resolved = refl

local_resolved : resolve ascii flat_digest proxy none none ≡ ok local_caller
unfolding resolve list_beq maskgate.Unicode.strip
local_resolved = refl

resolve_lem_example :
    (vault_namespace first_caller ≡ vault_namespace second_caller
      → flat_digest (secret_of ascii flat_digest (codes "Bearer abc"))
        ≡ flat_digest (secret_of ascii flat_digest (codes "bearer xyz")))
    × (vault_namespace local_caller ≢ vault_namespace first_caller)
resolve_lem_example =
    resolve_lem ascii flat_digest proxy (codes "earer abc") (codes "earer xyz") b'B' b'b' none none
      first_caller second_caller local_caller long_digest first_resolved second_resolved
      local_resolved
