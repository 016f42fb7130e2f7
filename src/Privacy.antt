-- ===== src/Privacy.antt =====
-- app/privacy/models.py: the vocabulary of detection, risk and policy.
use maskgate.Base.{
  Bool, Eq, List, Result, Text, arith, err, false, if◌then◌else◌, leb, list_eq, nat_eq, ok,
  option_eq, pair_eq, true, value_error, ℕ, ◌&&◌, ◌==◌, ◌↔◌, ◌≡◌, ◌⊎◌,
}

-- `DataClass`
pub data DataClass : Type 0 where
  direct_pii quasi_identifier financial auth_secret health location business_confidential :
      DataClass
  public_data : DataClass

-- `ValidationState`
pub data ValidationState : Type 0 where
  valid invalid unvalidated ambiguous : ValidationState

-- `PrivacyDirection`
pub data PrivacyDirection : Type 0 where
  input output : PrivacyDirection

-- `DetectorProfile`
pub data DetectorProfile : Type 0 where
  fast balanced strict : DetectorProfile

-- `TokenScope`
pub data TokenScope : Type 0 where
  field_scope request turn conversation tenant : TokenScope

-- `PrivacyAction`
pub data PrivacyAction : Type 0 where
  allow tokenize surrogate redact generalize hash block require_review : PrivacyAction

-- `RiskBucket`
pub data RiskBucket : Type 0 where
  low medium high critical : RiskBucket

abbrev pub class_code : DataClass → ℕ
class_code DataClass.direct_pii = 0
class_code DataClass.quasi_identifier = 1
class_code DataClass.financial = 2
class_code DataClass.auth_secret = 3
class_code DataClass.health = 4
class_code DataClass.location = 5
class_code DataClass.business_confidential = 6
class_code DataClass.public_data = 7

abbrev pub class_beq : DataClass → DataClass → Bool
class_beq a b = class_code a == class_code b

pub class_beq_iff : (a b : DataClass) → (class_beq a b ≡ true) ↔ (a ≡ b)
class_beq_iff a b = ground arith

instance abbrev pub class_eq : Eq DataClass
class_eq = record { equals = class_beq; equals_iff = class_beq_iff }

abbrev pub direction_beq : PrivacyDirection → PrivacyDirection → Bool
direction_beq PrivacyDirection.input PrivacyDirection.input = true
direction_beq PrivacyDirection.output PrivacyDirection.output = true
direction_beq _ _ = false

pub direction_beq_iff : (a b : PrivacyDirection) → (direction_beq a b ≡ true) ↔ (a ≡ b)
direction_beq_iff a b = ground arith

instance abbrev pub direction_eq : Eq PrivacyDirection
direction_eq = record { equals = direction_beq; equals_iff = direction_beq_iff }

abbrev pub scope_code : TokenScope → ℕ
scope_code TokenScope.field_scope = 0
scope_code TokenScope.request = 1
scope_code TokenScope.turn = 2
scope_code TokenScope.conversation = 3
scope_code TokenScope.tenant = 4

abbrev pub scope_beq : TokenScope → TokenScope → Bool
scope_beq a b = scope_code a == scope_code b

pub scope_beq_iff : (a b : TokenScope) → (scope_beq a b ≡ true) ↔ (a ≡ b)
scope_beq_iff a b = ground arith

instance abbrev pub scope_eq : Eq TokenScope
scope_eq = record { equals = scope_beq; equals_iff = scope_beq_iff }

abbrev pub bucket_code : RiskBucket → ℕ
bucket_code RiskBucket.low = 0
bucket_code RiskBucket.medium = 1
bucket_code RiskBucket.high = 2
bucket_code RiskBucket.critical = 3

abbrev pub bucket_beq : RiskBucket → RiskBucket → Bool
bucket_beq a b = bucket_code a == bucket_code b

pub bucket_beq_iff : (a b : RiskBucket) → (bucket_beq a b ≡ true) ↔ (a ≡ b)
bucket_beq_iff a b = ground arith

instance abbrev pub bucket_eq : Eq RiskBucket
bucket_eq = record { equals = bucket_beq; equals_iff = bucket_beq_iff }

-- Python's floats as far as the program computes with them. `le_f` is `<=`; the laws hold of every
-- float that is not NaN, and the program admits a confidence only between 0.0 and 1.0.
pub record Floats : Type 1 where
  pub Float : Type 0
  pub le_f : Float → Float → Bool
  pub zero_f : Float
  pub one_f : Float
  -- `x + 0.02`
  pub nudge : Float → Float
  -- `round(base * max(0.25, x))`
  pub weigh : ℕ → Float → ℕ
  pub le_f_refl : (x : Float) → le_f x x ≡ true
  pub le_f_trans : (x y z : Float) → le_f x y ≡ true → le_f y z ≡ true → le_f x z ≡ true
  pub le_f_total : (x y : Float) → (le_f x y ≡ true) ⊎ (le_f y x ≡ true)

-- `PrivacyDetection`; the context score is not read by the modelled code.
pub record PrivacyDetection (F : Type 0) : Type 0 where
  pub entity_type : Text
  pub data_class : DataClass
  pub start : ℕ
  pub stop : ℕ
  pub confidence : F
  pub recognizer : Text
  pub validation_state : ValidationState
  pub evidence : List Text

-- `RiskAssessment`
pub record RiskAssessment : Type 0 where
  pub score : ℕ
  pub bucket : RiskBucket
  pub signals : List Text
  pub data_classes : List DataClass

-- `RiskAssessment.__post_init__`; a score below zero cannot be written here.
unfoldable pub check_risk : RiskAssessment → Result RiskAssessment
check_risk r = if leb r.score 100 then ok r else err value_error

-- `PrivacyDetection.__post_init__`
unfoldable pub check_detection :
    (fl : Floats) → PrivacyDetection fl.Float → Result (PrivacyDetection fl.Float)
check_detection fl d =
    if leb d.stop d.start
    then err value_error
    else if fl.le_f fl.zero_f d.confidence && fl.le_f d.confidence fl.one_f
    then ok d
    else err value_error
