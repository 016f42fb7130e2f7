-- ===== src/Risk/Distinct.antt =====
-- app/privacy/risk/engine.py: the number of distinct names among the selected elements of a list,
-- under sorting and under one element more.
use maskgate.Base.{
  Bool, List, Text, [], arith, contains, eq_iff, insert_sorted, list_eq, map, nat_eq, refl, select,
  sort, ◌∷◌, ◌≡◌, ◌≤◌,
}
use maskgate.Risk.{count_distinct}

module _ {A : Type 0} (le : A → A → Bool) (f : A → Text) (p : A → Bool) where
  abbrev pub names : List A → List Text
  names xs = map f (select p xs)

  contains-insert :
      (t : Text) (x : A) (xs : List A)
      → contains t (names (insert_sorted le x xs)) ≡ contains t (names (x ∷ xs))
  unfolding contains insert_sorted
  contains-insert t x [] = refl
  contains-insert t x (y ∷ xs) = ground (arith, contains-insert t x xs)

  count-swap :
      (s t : Text) (ts : List Text) → count_distinct (s ∷ t ∷ ts) ≡ count_distinct (t ∷ s ∷ ts)
  unfolding count_distinct contains
  count-swap s t ts = ground (arith, eq_iff s t, eq_iff t s)

  -- Equal heads before lists with the same members and as many distinct ones.
  count-cons :
      (t : Text) (ss ts : List Text)
      → contains t ss ≡ contains t ts
      → count_distinct ss ≡ count_distinct ts
      → count_distinct (t ∷ ss) ≡ count_distinct (t ∷ ts)
  unfolding count_distinct
  count-cons t ss ts h k = ground arith

  count-cons-le : (t : Text) (ts : List Text) → count_distinct ts ≤ count_distinct (t ∷ ts)
  unfolding count_distinct
  count-cons-le t ts = ground arith

  count-insert :
      (x : A) (xs : List A)
      → count_distinct (names (insert_sorted le x xs)) ≡ count_distinct (names (x ∷ xs))
  unfolding insert_sorted
  count-insert x [] = refl
  count-insert x (y ∷ xs) = ground (
    arith,
    count-insert x xs,
    contains-insert (f y) x xs,
    count-swap (f x) (f y) (names xs),
    count-cons (f y) (names (insert_sorted le x xs)) (names (x ∷ xs)),
  )

  contains-sort : (t : Text) (xs : List A) → contains t (names (sort le xs)) ≡ contains t (names xs)
  unfolding sort contains
  contains-sort t [] = refl
  contains-sort t (x ∷ xs) = ground (arith, contains-insert t x (sort le xs), contains-sort t xs)

  pub count-sort : (xs : List A) → count_distinct (names (sort le xs)) ≡ count_distinct (names xs)
  unfolding sort
  count-sort [] = refl
  count-sort (x ∷ xs) = ground (
    arith,
    count-insert x (sort le xs),
    count-sort xs,
    contains-sort (f x) xs,
    count-cons (f x) (names (sort le xs)) (names xs),
  )

  pub count_mono :
      (x : A) (xs : List A) → count_distinct (names xs) ≤ count_distinct (names (x ∷ xs))
  count_mono x xs = ground (arith, count-cons-le (f x) (names xs))
