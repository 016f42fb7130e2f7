-- ===== src/Risk/Counts.antt =====
-- app/privacy/risk/engine.py: the parts of the total do not depend on the order of the detections,
-- and none of them falls when a detection is added.
use maskgate.Base.{
  Bool, Bool-cases, List, Text, [], any, any-sort, ap, arith, false, inl, inr, insert_sorted,
  length, length-sort, ltb, map, max, min, not, refl, select, sort, suc, sym, true, ℕ, ◌&&◌, ◌*◌,
  ◌-◌, ◌∙◌, ◌∷◌, ◌≡◌, ◌≤◌,
}
use maskgate.Privacy.{DataClass, Floats}
use maskgate.Risk.Distinct.{count-sort, count_mono}
use maskgate.Risk.{
  Detection, assess_le, is_invalid, weighted_score, max_score, effective, is_class, has_class,
  count_distinct, quasi_types, bonus, quasi_bonus, has_both, raw_total,
}

module _ (fl : Floats) where
  max_score-insert :
      (d : Detection fl) (ds : List (Detection fl))
      → max_score fl (insert_sorted (assess_le fl) d ds)
        ≡ max (weighted_score fl d) (max_score fl ds)
  unfolding max_score insert_sorted
  max_score-insert d [] = refl
  max_score-insert d (e ∷ ds) = elim (Bool-cases (assess_le fl d e)) [
    | inl h ↦ rw h
    | inr h ↦ rw h (omega (arith, max_score-insert d ds))
  ]

  pub max_score-sort :
      (ds : List (Detection fl)) → max_score fl (sort (assess_le fl) ds) ≡ max_score fl ds
  unfolding max_score sort
  max_score-sort [] = refl
  max_score-sort (d ∷ ds) =
      max_score-insert d (sort (assess_le fl) ds)
      ∙ ap (max (weighted_score fl d)) (max_score-sort ds)

  any-select :
      (p q : Detection fl → Bool) (ds : List (Detection fl))
      → any p (select q ds) ≡ any (λ d. q d && p d) ds
  any-select p q [] = refl
  any-select p q (d ∷ ds) = ground (arith, any-select p q ds)

  -- A class among the effective detections, as a test of all detections.
  has_class-effective :
      (c : DataClass) (ds : List (Detection fl))
      → has_class fl c (effective fl ds) ≡ any (λ d. not (is_invalid fl d) && is_class fl c d) ds
  unfolding has_class effective
  has_class-effective c ds = any-select (is_class fl c) (λ d. not (is_invalid fl d)) ds

  pub has_both-sort :
      (c e : DataClass) (ds : List (Detection fl))
      → has_both fl c e (effective fl (sort (assess_le fl) ds)) ≡ has_both fl c e (effective fl ds)
  unfolding has_both
  has_both-sort c e ds =
      let ds' = sort (assess_le fl) ds in
      ground (
        arith,
        has_class-effective c ds,
        has_class-effective e ds,
        has_class-effective c ds',
        has_class-effective e ds',
        any-sort (assess_le fl) (λ d. not (is_invalid fl d) && is_class fl c d) ds,
        any-sort (assess_le fl) (λ d. not (is_invalid fl d) && is_class fl e d) ds,
      )

  pub has_both_mono :
      (c e : DataClass) (d : Detection fl) (ds : List (Detection fl))
      → has_both fl c e (effective fl ds) ≡ true
      → has_both fl c e (effective fl (d ∷ ds)) ≡ true
  unfolding has_both
  has_both_mono c e d ds h = ground (
    arith,
    has_class-effective c ds,
    has_class-effective e ds,
    has_class-effective c (d ∷ ds),
    has_class-effective e (d ∷ ds),
  )

  abbrev counts : Detection fl → Bool
  counts d = not (is_invalid fl d) && is_class fl DataClass.quasi_identifier d

  abbrev types : List (Detection fl) → List Text
  types ds = map (λ (d : Detection fl). d.entity_type) (select counts ds)

  select-select :
      (p q : Detection fl → Bool) (ds : List (Detection fl))
      → select p (select q ds) ≡ select (λ d. q d && p d) ds
  select-select p q [] = refl
  select-select p q (d ∷ ds) = ground (arith, select-select p q ds)

  quasi_types-effective : (ds : List (Detection fl)) → quasi_types fl (effective fl ds) ≡ types ds
  unfolding quasi_types effective
  quasi_types-effective ds =
      ap (map (λ (d : Detection fl). d.entity_type))
        (select-select (is_class fl DataClass.quasi_identifier) (λ d. not (is_invalid fl d)) ds)

  pub quasi-sort :
      (ds : List (Detection fl))
      → count_distinct (quasi_types fl (effective fl (sort (assess_le fl) ds)))
        ≡ count_distinct (quasi_types fl (effective fl ds))
  quasi-sort ds =
      ap count_distinct (quasi_types-effective (sort (assess_le fl) ds))
      ∙ count-sort (assess_le fl) (λ d. d.entity_type) counts ds
      ∙ sym (ap count_distinct (quasi_types-effective ds))

  pub quasi_mono :
      (d : Detection fl) (ds : List (Detection fl))
      → count_distinct (quasi_types fl (effective fl ds))
        ≤ count_distinct (quasi_types fl (effective fl (d ∷ ds)))
  quasi_mono d ds =
      rw (quasi_types-effective ds, quasi_types-effective (d ∷ ds))
        (count_mono (assess_le fl) (λ d. d.entity_type) counts d ds)

quasi_bonus_mono : (n m : ℕ) → n ≤ m → quasi_bonus n ≤ quasi_bonus m
unfolding quasi_bonus
quasi_bonus_mono n m h = ground arith

bonus_mono : (a b : Bool) (n : ℕ) → (a ≡ true → b ≡ true) → bonus a n ≤ bonus b n
bonus_mono true b n h = ground (arith, h refl)
bonus_mono false b n h = omega arith

many_bonus_mono :
    (n : ℕ)
    → bonus (ltb 1 n) (min 10 ((n - 1) * 2)) ≤ bonus (ltb 1 (suc n)) (min 10 ((suc n - 1) * 2))
many_bonus_mono n = ground arith

module _ (fl : Floats) where
  pub raw_total-sort :
      (ds : List (Detection fl)) → raw_total fl (sort (assess_le fl) ds) ≡ raw_total fl ds
  unfolding raw_total
  raw_total-sort ds = rw (
    max_score-sort fl ds,
    quasi-sort fl ds,
    has_both-sort fl DataClass.direct_pii DataClass.quasi_identifier ds,
    has_both-sort fl DataClass.location DataClass.quasi_identifier ds,
    has_both-sort fl DataClass.financial DataClass.direct_pii ds,
    length-sort (assess_le fl) ds,
  )

  max_score_mono :
      (d : Detection fl) (ds : List (Detection fl)) → max_score fl ds ≤ max_score fl (d ∷ ds)
  unfolding max_score
  max_score_mono d ds = omega arith

  pub raw_total_mono :
      (d : Detection fl) (ds : List (Detection fl)) → raw_total fl ds ≤ raw_total fl (d ∷ ds)
  unfolding raw_total
  raw_total_mono d ds =
      let both = λ (c e : DataClass) (n : ℕ).
        bonus_mono (has_both fl c e (effective fl ds)) (has_both fl c e (effective fl (d ∷ ds))) n
          (has_both_mono fl c e d ds) in
      omega (
        arith,
        max_score_mono d ds,
        quasi_bonus_mono _ _ (quasi_mono fl d ds),
        both DataClass.direct_pii DataClass.quasi_identifier 12,
        both DataClass.location DataClass.quasi_identifier 10,
        both DataClass.financial DataClass.direct_pii 10,
        many_bonus_mono (length ds),
      )
