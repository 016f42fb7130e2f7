-- ===== src/Detection/Overlaps.antt =====
-- app/privacy/detection/ensemble.py: the selected spans are pairwise disjoint.
use maskgate.Base.{
  Bool, Bool-cases, In, In-append, In-append_left, In-append_right, List, [], any, arith, false,
  inl, inr, refl, true, ◌++◌, ◌<◌, ◌||◌, ◌∷◌, ◌≡◌, ◌⊎◌,
}
use maskgate.Privacy.{Floats}
use maskgate.Detection.{Found, overlap, select_disjoint}

module _ (fl : Floats) where
  abbrev pub IsSpan : Found fl → Type 0
  IsSpan d = d.start < d.stop

  -- No two of them overlap.
  abbrev pub AreDisjoint : List (Found fl) → Type 0
  AreDisjoint [] = Unit
  AreDisjoint (d ∷ ds) = (any (overlap fl d) ds ≡ false) × AreDisjoint ds

  any-append :
      (p : Found fl → Bool) (xs ys : List (Found fl)) → any p (xs ++ ys) ≡ (any p xs || any p ys)
  any-append p [] ys = refl
  any-append p (x ∷ xs) ys = ground (arith, any-append p xs ys)

  AreDisjoint-snoc :
      (c : Found fl) (ds : List (Found fl))
      → AreDisjoint ds
      → any (overlap fl c) ds ≡ false
      → AreDisjoint (ds ++ c ∷ [])
  AreDisjoint-snoc c [] h k = (refl, tt)
  AreDisjoint-snoc c (d ∷ ds) h k =
      ground (arith, AreDisjoint-snoc c ds h.1, any-append (overlap fl d) ds (c ∷ []))

  pub select_disjoint-AreDisjoint :
      (cs selected : List (Found fl))
      → AreDisjoint selected
      → AreDisjoint (select_disjoint fl selected cs)
  unfolding select_disjoint
  select_disjoint-AreDisjoint [] selected h = h
  select_disjoint-AreDisjoint (c ∷ cs) selected h =
      elim (Bool-cases (any (overlap fl c) selected)) [
        | inl e ↦ rw e (select_disjoint-AreDisjoint cs selected h)
        | inr e ↦
            rw e (
              select_disjoint-AreDisjoint cs (selected ++ c ∷ []) (AreDisjoint-snoc c selected h e))
      ]

  -- What was selected stays selected.
  pub selected_stays :
      (d : Found fl) (cs selected : List (Found fl))
      → In d selected
      → In d (select_disjoint fl selected cs)
  unfolding select_disjoint
  selected_stays d [] selected m = m
  selected_stays d (c ∷ cs) selected m = elim (Bool-cases (any (overlap fl c) selected)) [
    | inl e ↦ rw e (selected_stays d cs selected m)
    | inr e ↦ rw e (selected_stays d cs (selected ++ c ∷ []) (In-append_left d selected (c ∷ []) m))
  ]

  any_of_In :
      (p : Found fl → Bool) (d : Found fl) (ds : List (Found fl))
      → In d ds
      → p d ≡ true
      → any p ds ≡ true
  any_of_In p d [] m h = elim m [ ]
  any_of_In p d (e ∷ ds) (inl q) h = rw q (rw h)
  any_of_In p d (e ∷ ds) (inr m) h = ground (arith, any_of_In p d ds m h)

  pub In-of_any :
      (p : Found fl → Bool) (ds : List (Found fl))
      → any p ds ≡ true
      → (d : Found fl) × In d ds × (p d ≡ true)
  In-of_any p [] h = cc
  In-of_any p (d ∷ ds) h = elim (Bool-cases (p d)) [
    | inl e ↦ (d, inl refl, e)
    | inr e ↦ let (x, m, q) = In-of_any p ds (ground arith) in (x, inr m, q)
  ]

  -- A candidate is selected, or it overlaps one that is.
  pub covered :
      (d : Found fl) (cs selected : List (Found fl))
      → In d cs
      → In d (select_disjoint fl selected cs)
        ⊎ ((e : Found fl) × In e (select_disjoint fl selected cs) × (overlap fl d e ≡ true))
  unfolding select_disjoint
  covered d [] selected m = elim m [ ]
  covered d (c ∷ cs) selected (inr m) = covered d cs _ m
  covered d (c ∷ cs) selected (inl q) = elim (Bool-cases (any (overlap fl c) selected)) [
    | inl e ↦
        let (x, mx, o) = In-of_any (overlap fl c) selected e in
        rw e (inr (x, selected_stays x cs selected mx, rw (← q) o))
    | inr e ↦ rw e (
        inl
          (selected_stays d cs (selected ++ c ∷ []) (In-append_right d selected (c ∷ []) (inl q))))
  ]

  -- Only candidates are selected.
  pub selected_from :
      (d : Found fl) (cs selected : List (Found fl))
      → In d (select_disjoint fl selected cs)
      → In d selected ⊎ In d cs
  unfolding select_disjoint
  selected_from d [] selected m = inl m
  selected_from d (c ∷ cs) selected m = elim (Bool-cases (any (overlap fl c) selected)) [
    | inl e ↦ elim (selected_from d cs selected (rw e at m)) [ inl l ↦ inl l | inr r ↦ inr (inr r) ]
    | inr e ↦ elim (selected_from d cs (selected ++ c ∷ []) (rw e at m)) [
      | inl l ↦ elim (In-append d selected (c ∷ []) l) [
        | inl s ↦ inl s
        | inr (inl q) ↦ inr (inl q)
        | inr (inr z) ↦ absurd z
      ]
      | inr r ↦ inr (inr r)
    ]
  ]
