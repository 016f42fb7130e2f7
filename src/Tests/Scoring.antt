-- ===== src/Tests/Scoring.antt =====
-- The risk score on concrete detections.
use maskgate.Base.{[], codes, ok, refl, sort, true, ◌∷◌, ◌≡◌, ◌≤◌}
use maskgate.Privacy.{RiskBucket, check_risk, bucket_code, DataClass, ValidationState}
use maskgate.Risk.{
  Detection, assess, bucket_of, is_invalid, assess_sorted, raw_total, max_score, weighted_score,
  base_weight, effective, quasi_bonus, count_distinct, quasi_types, has_both, has_class,
}
use maskgate.Risk.Laws.{assess_lem, assess_invalid}
use maskgate.Tests.Samples.{hundredths}

abbrev mail : Detection hundredths
mail = record {
  entity_type = codes "EMAIL";
  data_class = DataClass.direct_pii;
  start = 0;
  stop = 5;
  confidence = 90;
  recognizer = codes "email";
  validation_state = ValidationState.valid;
  evidence = [];
}

abbrev bad_card : Detection hundredths
bad_card = record {
  entity_type = codes "CARD_NUMBER";
  data_class = DataClass.financial;
  start = 6;
  stop = 22;
  confidence = 90;
  recognizer = codes "card";
  validation_state = ValidationState.invalid;
  evidence = [];
}

assess_lem_example :
    let before = assess hundredths (mail ∷ []) in
    let behind = assess hundredths (bad_card ∷ mail ∷ []) in
    (check_risk before ≡ ok before)
    × (before.bucket ≡ bucket_of before.score)
    × (before.score ≤ behind.score)
    × (bucket_code before.bucket ≤ bucket_code behind.bucket)
assess_lem_example = assess_lem hundredths (mail ∷ []) bad_card

bad_card_invalid : is_invalid hundredths bad_card ≡ true
unfolding is_invalid
bad_card_invalid = refl

assess_invalid_example :
    ((assess hundredths (bad_card ∷ [])).score ≤ 25)
    × (bucket_code (assess hundredths (bad_card ∷ [])).bucket ≤ bucket_code RiskBucket.medium)
assess_invalid_example = assess_invalid hundredths (bad_card ∷ []) (bad_card_invalid, tt)

score_runs : (assess hundredths (mail ∷ [])).score ≡ 55
unfolding assess assess_sorted raw_total max_score weighted_score base_weight effective is_invalid
    quasi_bonus count_distinct quasi_types has_both has_class sort
score_runs = refl
