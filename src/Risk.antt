-- ===== src/Risk.antt =====
-- app/privacy/risk/engine.py: the deterministic risk score of the detections of one text.
mod Distinct
pub mod Counts
pub mod Laws
use maskgate.Base.{
  Bool, Eq, List, Text, [], any, codes, contains, decimal, dedupe, false, if◌then◌else◌, leb,
  length, list_eq, ltb, map, max, min, nat_eq, not, select, sort, suc, text_le, true, ℕ, ◌&&◌, ◌*◌,
  ◌++◌, ◌+◌, ◌-◌, ◌==◌, ◌∷◌,
}
use maskgate.Privacy.{
  DataClass, ValidationState, RiskBucket, RiskAssessment, PrivacyDetection, Floats, class_beq,
  class_eq,
}

-- `_BASE_WEIGHT`
unfoldable pub base_weight : DataClass → ℕ
base_weight DataClass.public_data = 5
base_weight DataClass.quasi_identifier = 30
base_weight DataClass.location = 35
base_weight DataClass.business_confidential = 45
base_weight DataClass.direct_pii = 55
base_weight DataClass.financial = 70
base_weight DataClass.health = 75
base_weight DataClass.auth_secret = 90

-- The value of the `StrEnum` member.
abbrev pub class_name : DataClass → Text
class_name DataClass.direct_pii = codes "DIRECT_PII"
class_name DataClass.quasi_identifier = codes "QUASI_IDENTIFIER"
class_name DataClass.financial = codes "FINANCIAL"
class_name DataClass.auth_secret = codes "AUTH_SECRET"
class_name DataClass.health = codes "HEALTH"
class_name DataClass.location = codes "LOCATION"
class_name DataClass.business_confidential = codes "BUSINESS_CONFIDENTIAL"
class_name DataClass.public_data = codes "PUBLIC_DATA"

-- `_bucket`
unfoldable pub bucket_of : ℕ → RiskBucket
bucket_of score =
    if leb 75 score
    then RiskBucket.critical
    else if leb 50 score
    then RiskBucket.high
    else if leb 25 score
    then RiskBucket.medium
    else RiskBucket.low

-- The order of a sort key's parts: the first in which they differ decides.
abbrev pub then_by : {A : Type 0} ⦃e : Eq A⦄ → A → A → Bool → Bool → Bool
then_by a b less rest = if a == b then rest else less

-- The size of a set of texts.
unfoldable pub count_distinct : List Text → ℕ
count_distinct [] = 0
count_distinct (t ∷ ts) = if contains t ts then count_distinct ts else suc (count_distinct ts)

-- A bonus with its signal, where the test holds.
abbrev pub bonus : Bool → ℕ → ℕ
bonus b n = if b then n else 0

abbrev pub signal : Bool → Text → List Text
signal b s = if b then s ∷ [] else []

unfoldable pub quasi_bonus : ℕ → ℕ
quasi_bonus n = if leb 3 n then 25 else if n == 2 then 12 else 0

unfoldable pub quasi_signal : ℕ → List Text
quasi_signal n =
    if leb 3 n
    then (codes "combination:quasi_identifiers:" ++ decimal n) ∷ []
    else if n == 2
    then codes "combination:quasi_identifiers:2" ∷ []
    else []

module _ (fl : Floats) where
  abbrev pub Detection : Type 0
  Detection = PrivacyDetection fl.Float

  -- The key of the first `sorted` of `assess`.
  unfoldable pub assess_le : Detection → Detection → Bool
  unfolding text_le
  assess_le a b =
      then_by (class_name a.data_class) (class_name b.data_class)
        (text_le (class_name a.data_class) (class_name b.data_class))
        (then_by a.entity_type b.entity_type (text_le a.entity_type b.entity_type) (
          then_by a.start b.start (ltb a.start b.start)
            (then_by a.stop b.stop (ltb a.stop b.stop) (text_le a.recognizer b.recognizer))))

  unfoldable pub is_invalid : Detection → Bool
  is_invalid d = elim d.validation_state [ ValidationState.invalid ↦ true | _ ↦ false ]

  -- The body of the loop: the weighted score of one detection.
  unfoldable pub weighted_score : Detection → ℕ
  unfolding base_weight
  weighted_score d =
      let score = fl.weigh (base_weight d.data_class) d.confidence in
      elim d.validation_state [
        | ValidationState.valid ↦ score + 5
        | ValidationState.invalid ↦ min score 15
        | ValidationState.ambiguous ↦ score + 5
        | ValidationState.unvalidated ↦ score
      ]

  -- The signal that the same turn of the loop adds.
  unfoldable pub state_signals : Detection → List Text
  state_signals d = elim d.validation_state [
    | ValidationState.valid ↦ []
    | ValidationState.invalid ↦ codes "validation:invalid" ∷ []
    | ValidationState.ambiguous ↦ codes "validation:ambiguous" ∷ []
    | ValidationState.unvalidated ↦ codes "validation:unvalidated" ∷ []
  ]

  -- `max(weighted_scores)`
  unfoldable pub max_score : List Detection → ℕ
  max_score [] = 0
  max_score (d ∷ ds) = max (weighted_score d) (max_score ds)

  unfoldable pub effective : List Detection → List Detection
  effective = select (λ d. not (is_invalid d))

  abbrev pub is_class : DataClass → Detection → Bool
  is_class c d = class_beq d.data_class c

  -- `DataClass.X in effective_classes`
  unfoldable pub has_class : DataClass → List Detection → Bool
  has_class c ds = any (is_class c) ds

  -- The entity types of the effective quasi-identifiers.
  unfoldable pub quasi_types : List Detection → List Text
  quasi_types ds =
      map (λ (d : Detection). d.entity_type) (select (is_class DataClass.quasi_identifier) ds)

  -- Both classes are there.
  unfoldable pub has_both : DataClass → DataClass → List Detection → Bool
  has_both c d ds = has_class c ds && has_class d ds

  -- The total before it is capped, for the sorted detections.
  unfoldable pub raw_total : List Detection → ℕ
  raw_total ds =
      let eff = effective ds in
      max_score ds
      + quasi_bonus (count_distinct (quasi_types eff))
      + bonus (has_both DataClass.direct_pii DataClass.quasi_identifier eff) 12
      + bonus (has_both DataClass.location DataClass.quasi_identifier eff) 10
      + bonus (has_both DataClass.financial DataClass.direct_pii eff) 10
      + bonus (ltb 1 (length ds)) (min 10 ((length ds - 1) * 2))

  unfoldable pub flat_signals : List Detection → List Text
  unfolding state_signals
  flat_signals [] = []
  flat_signals (d ∷ ds) = state_signals d ++ flat_signals ds

  -- The set of signals, listed in order.
  unfoldable pub all_signals : List Detection → List Text
  unfolding flat_signals effective quasi_types count_distinct quasi_signal has_both
  all_signals ds =
      let eff = effective ds in
      sort text_le (
        dedupe (
          map (λ (d : Detection). codes "class:" ++ class_name d.data_class) ds
          ++ flat_signals ds
          ++ quasi_signal (count_distinct (quasi_types eff))
          ++ signal (has_both DataClass.direct_pii DataClass.quasi_identifier eff)
              (codes "combination:direct_pii_plus_quasi")
          ++ signal (has_both DataClass.location DataClass.quasi_identifier eff)
              (codes "combination:location_plus_quasi")
          ++ signal (has_both DataClass.financial DataClass.direct_pii eff)
              (codes "combination:financial_plus_direct_pii")
          ++ signal (ltb 1 (length ds)) (codes "combination:multiple_detections")))

  -- `assess` behind the sort.
  unfoldable pub assess_sorted : List Detection → RiskAssessment
  assess_sorted [] = record {
    score = 0;
    bucket = RiskBucket.low;
    signals = codes "no_sensitive_signals" ∷ [];
    data_classes = [];
  }
  assess_sorted (d ∷ ds) =
      let total = min 100 (raw_total (d ∷ ds)) in
      record {
        score = total;
        bucket = bucket_of total;
        signals = all_signals (d ∷ ds);
        data_classes = dedupe (map (λ (x : Detection). x.data_class) (d ∷ ds));
      }

  -- `assess`
  unfoldable pub assess : List Detection → RiskAssessment
  assess ds = assess_sorted (sort assess_le ds)
