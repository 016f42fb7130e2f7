-- ===== src/Risk/Laws.antt =====
-- app/privacy/risk/engine.py: bounds, monotonicity and the effect of failed validation.
use maskgate.Base.{
  All, List, [], ap, arith, length, ltb, min, ok, refl, sort, true, ℕ, ◌*◌, ◌+◌, ◌-◌, ◌∙◌, ◌∷◌, ◌≡◌,
  ◌≤◌,
}
use maskgate.Privacy.{RiskBucket, check_risk, bucket_code, Floats, DataClass}
use maskgate.Risk.{
  Detection, assess_le, is_invalid, weighted_score, max_score, effective, has_class, count_distinct,
  quasi_types, bonus, quasi_bonus, has_both, raw_total, assess, assess_sorted, bucket_of,
}
use maskgate.Risk.Counts.{raw_total-sort, raw_total_mono}

module _ (fl : Floats) where
  raw_total_nil : raw_total fl [] ≡ 0
  unfolding raw_total max_score quasi_types effective count_distinct quasi_bonus has_both has_class
  raw_total_nil = refl

  score-assess_sorted :
      (ds : List (Detection fl)) → (assess_sorted fl ds).score ≡ min 100 (raw_total fl ds)
  unfolding assess_sorted
  score-assess_sorted [] = rw raw_total_nil
  score-assess_sorted (d ∷ ds) = refl

  bucket-assess_sorted :
      (ds : List (Detection fl))
      → (assess_sorted fl ds).bucket ≡ bucket_of (assess_sorted fl ds).score
  unfolding assess_sorted bucket_of
  bucket-assess_sorted [] = refl
  bucket-assess_sorted (d ∷ ds) = refl

  -- The score does not see the order into which `assess` sorts.
  score-assess : (ds : List (Detection fl)) → (assess fl ds).score ≡ min 100 (raw_total fl ds)
  unfolding assess
  score-assess ds =
      score-assess_sorted (sort (assess_le fl) ds) ∙ ap (min 100) (raw_total-sort fl ds)

  bucket-assess :
      (ds : List (Detection fl)) → (assess fl ds).bucket ≡ bucket_of (assess fl ds).score
  unfolding assess
  bucket-assess ds = bucket-assess_sorted (sort (assess_le fl) ds)

  bucket_of_mono : (n m : ℕ) → n ≤ m → bucket_code (bucket_of n) ≤ bucket_code (bucket_of m)
  unfolding bucket_of
  bucket_of_mono n m h = ground arith

  -- An assessment passes the check of its class, its bucket is that of its score, and one detection
  -- more never lowers the score or the bucket.
  pub assess_lem :
      (ds : List (Detection fl)) (d : Detection fl)
      → (check_risk (assess fl ds) ≡ ok (assess fl ds))
        × ((assess fl ds).bucket ≡ bucket_of (assess fl ds).score)
        × ((assess fl ds).score ≤ (assess fl (d ∷ ds)).score)
        × (bucket_code (assess fl ds).bucket ≤ bucket_code (assess fl (d ∷ ds)).bucket)
  assess_lem ds d =
      let grows : (assess fl ds).score ≤ (assess fl (d ∷ ds)).score =
        omega (arith, score-assess ds, score-assess (d ∷ ds), raw_total_mono fl d ds) in
      (
        within ds,
        bucket-assess ds,
        grows,
        rw (bucket-assess ds, bucket-assess (d ∷ ds)) (bucket_of_mono _ _ grows),
      )
    where
      within : (es : List (Detection fl)) → check_risk (assess fl es) ≡ ok (assess fl es)
      within es = unfold check_risk in ground (arith, score-assess es)

  weighted_score_invalid : (d : Detection fl) → is_invalid fl d ≡ true → weighted_score fl d ≤ 15
  unfolding weighted_score is_invalid
  weighted_score_invalid d h = ground arith

  max_score_invalid :
      (ds : List (Detection fl)) → All (λ d. is_invalid fl d ≡ true) ds → max_score fl ds ≤ 15
  unfolding max_score
  max_score_invalid [] h = omega arith
  max_score_invalid (d ∷ ds) h =
      omega (arith, weighted_score_invalid d h.0, max_score_invalid ds h.1)

  effective_invalid :
      (ds : List (Detection fl)) → All (λ d. is_invalid fl d ≡ true) ds → effective fl ds ≡ []
  unfolding effective
  effective_invalid [] h = refl
  effective_invalid (d ∷ ds) h = rw h.0 (effective_invalid ds h.1)

  raw_total_invalid :
      (ds : List (Detection fl)) → All (λ d. is_invalid fl d ≡ true) ds → raw_total fl ds ≤ 25
  unfolding raw_total
  raw_total_invalid ds h = rw (effective_invalid ds h) (plain ds h)
    where
      plain :
          (es : List (Detection fl))
          → All (λ d. is_invalid fl d ≡ true) es
          → max_score fl es
              + quasi_bonus (count_distinct (quasi_types fl []))
              + bonus (has_both fl DataClass.direct_pii DataClass.quasi_identifier []) 12
              + bonus (has_both fl DataClass.location DataClass.quasi_identifier []) 10
              + bonus (has_both fl DataClass.financial DataClass.direct_pii []) 10
              + bonus (ltb 1 (length es)) (min 10 ((length es - 1) * 2))
            ≤ 25
      plain es k =
          unfold quasi_types count_distinct quasi_bonus has_both has_class in
          ground (arith, max_score_invalid es k)

  -- Detections whose validation has failed never reach more than the least score of the bucket
  -- MEDIUM, however many there are.
  pub assess_invalid :
      (ds : List (Detection fl))
      → All (λ d. is_invalid fl d ≡ true) ds
      → ((assess fl ds).score ≤ 25)
        × (bucket_code (assess fl ds).bucket ≤ bucket_code RiskBucket.medium)
  unfolding bucket_of
  assess_invalid ds h =
      let small : (assess fl ds).score ≤ 25 =
        omega (arith, score-assess ds, raw_total_invalid ds h) in
      (small, rw (bucket-assess ds) (bucket_of_mono _ 25 small))
