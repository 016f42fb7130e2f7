-- ===== src/Detection/Laws.antt =====
-- app/privacy/detection/ensemble.py: what `_resolve_overlaps` returns.
use maskgate.Base.{
  All, All-In, All_map, Bool, Bool-cases, In, In-append, In-append_left, In-append_right, In-sort,
  IsSorted, List, [], any, any-insert_sorted, any-sort, arith, false, if◌then◌else◌, inl, inr,
  insert_sorted, refl, sort, sort-IsSorted, true, ℕ, ◌++◌, ◌∷◌, ◌≡◌, ◌≤◌, ◌⊎◌,
}
use mathlib.Core.List.{append_assoc}
use maskgate.Privacy.{Floats}
use maskgate.Detection.{Found, overlap, select_disjoint, resolve_overlaps, rank_le, position_le}
use maskgate.Detection.Overlaps.{
  IsSpan, AreDisjoint, select_disjoint-AreDisjoint, selected_stays, In-of_any, selected_from,
}

module _ (fl : Floats) where
  -- The spans follow one another from `pos` on, inside a text of `size` characters.
  abbrev pub FoundOrdered : ℕ → ℕ → List (Found fl) → Type 0
  FoundOrdered pos size [] = pos ≤ size
  FoundOrdered pos size (d ∷ ds) =
      (pos ≤ d.start) × (d.start ≤ d.stop) × FoundOrdered d.stop size ds

  abbrev StartSorted : List (Found fl) → Type 0
  StartSorted [] = Unit
  StartSorted (d ∷ ds) = All (λ e. d.start ≤ e.start) ds × StartSorted ds

  position_le-start : (a b : Found fl) → position_le fl a b ≡ true → a.start ≤ b.start
  unfolding position_le
  position_le-start a b h = ground arith

  not-position_le-start : (a b : Found fl) → position_le fl a b ≡ false → b.start ≤ a.start
  unfolding position_le
  not-position_le-start a b h = ground arith

  All-insert :
      (P : Found fl → Type 0) (d : Found fl) (ds : List (Found fl))
      → P d
      → All P ds
      → All P (insert_sorted (position_le fl) d ds)
  unfolding insert_sorted
  All-insert P d [] h k = (h, tt)
  All-insert P d (e ∷ ds) h k = elim (Bool-cases (position_le fl d e)) [
    | inl q ↦ rw q (h, k)
    | inr q ↦ rw q (k.0, All-insert P d ds h k.1)
  ]

  StartSorted-insert :
      (d : Found fl) (ds : List (Found fl))
      → StartSorted ds
      → StartSorted (insert_sorted (position_le fl) d ds)
  unfolding insert_sorted
  StartSorted-insert d [] h = (tt, tt)
  StartSorted-insert d (e ∷ ds) h = elim (Bool-cases (position_le fl d e)) [
    | inl q ↦
        let first_le = position_le-start d e q in
        rw q (
          (
            first_le,
            All_map (λ x. e.start ≤ x.start) (λ x. d.start ≤ x.start) ds (λ x k. omega arith) h.0,
          ),
          h,
        )
    | inr q ↦ rw q (
      All-insert (λ x. e.start ≤ x.start) d ds (not-position_le-start d e q) h.0,
      StartSorted-insert d ds h.1,
    )
  ]

  AreDisjoint-insert :
      (d : Found fl) (ds : List (Found fl))
      → any (overlap fl d) ds ≡ false
      → AreDisjoint fl ds
      → AreDisjoint fl (insert_sorted (position_le fl) d ds)
  unfolding insert_sorted
  AreDisjoint-insert d [] h k = (refl, tt)
  AreDisjoint-insert d (e ∷ ds) h k =
      ground
        (arith, AreDisjoint-insert d ds, any-insert_sorted (position_le fl) (overlap fl e) d ds)

  sort-facts :
      (ds : List (Found fl))
      → AreDisjoint fl ds
      → StartSorted (sort (position_le fl) ds) × AreDisjoint fl (sort (position_le fl) ds)
  unfolding sort
  sort-facts [] h = (tt, tt)
  sort-facts (d ∷ ds) h =
      let (sorted, disjoint) = sort-facts ds h.1 in
      (
        StartSorted-insert d (sort (position_le fl) ds) sorted,
        AreDisjoint-insert d (sort (position_le fl) ds)
            (rw (any-sort (position_le fl) (overlap fl d) ds) h.0) disjoint,
      )

  after :
      (d : Found fl) (ds : List (Found fl))
      → All (IsSpan fl) ds
      → IsSpan fl d
      → All (λ e. d.start ≤ e.start) ds
      → any (overlap fl d) ds ≡ false
      → All (λ e. d.stop ≤ e.start) ds
  after d [] spans span starts apart = tt
  after d (e ∷ ds) spans span starts apart =
      (ground arith, after d ds spans.1 span starts.1 (ground arith))

  abbrev Inside : ℕ → Found fl → Type 0
  Inside size d = IsSpan fl d × (d.stop ≤ size)

  ordered_from :
      (pos size : ℕ) (ds : List (Found fl))
      → pos ≤ size
      → All (Inside size) ds
      → StartSorted ds
      → AreDisjoint fl ds
      → All (λ d. pos ≤ d.start) ds
      → FoundOrdered pos size ds
  ordered_from pos size [] h inside sorted apart later = h
  ordered_from pos size (d ∷ ds) h inside sorted apart later = (
    later.0,
    omega (arith, inside.0),
    ordered_from d.stop size ds inside.0.1 inside.1 sorted.1 apart.1 (
        after d ds (All_map (Inside size) (IsSpan fl) ds (λ x k. k.0) inside.1) inside.0.0 sorted.0
          apart.0),
  )

  rank_le-total : (a b : Found fl) → (rank_le fl a b ≡ true) ⊎ (rank_le fl b a ≡ true)
  unfolding rank_le
  rank_le-total a b = ground (arith, fl.le_f_total a.confidence b.confidence)

  rank_le_trans :
      (a b c : Found fl) → rank_le fl a b ≡ true → rank_le fl b c ≡ true → rank_le fl a c ≡ true
  unfolding rank_le
  rank_le_trans a b c h k =
      let t = fl.le_f_trans in
      let x = a.confidence in
      let y = b.confidence in
      let z = c.confidence in ground (arith, t x y z, t z y x, t y z x, t z x y, t y x z, t x z y)

  -- What stands before an element in a sorted list ranks no lower.
  earlier_ranks :
      (before after : List (Found fl)) (e d : Found fl)
      → IsSorted (rank_le fl) (before ++ after)
      → In e before
      → In d after
      → rank_le fl e d ≡ true
  earlier_ranks [] after e d s me md = elim me [ ]
  earlier_ranks (x ∷ before) after e d s (inl q) md = rw (← q) (
      All-In (λ y. rank_le fl x y ≡ true) d (before ++ after) s.0
        (In-append_right d before after md))
  earlier_ranks (x ∷ before) after e d s (inr me) md = earlier_ranks before after e d s.1 me md

  kept :
      (seen : List (Found fl)) (c : Found fl) (selected : List (Found fl)) (b : Bool)
      → ((e : Found fl) → In e selected → In e seen)
      → (e : Found fl) → In e (if b then selected else selected ++ c ∷ [])
      → In e (seen ++ c ∷ [])
  kept seen c selected true sub e m = In-append_left e seen (c ∷ []) (sub e m)
  kept seen c selected false sub e m = elim (In-append e selected (c ∷ []) m) [
    | inl l ↦ In-append_left e seen (c ∷ []) (sub e l)
    | inr r ↦ In-append_right e seen (c ∷ []) r
  ]

  -- A candidate of a ranked list is selected, or it overlaps a selected one that ranks no lower.
  outranked :
      (d : Found fl) (seen cs selected : List (Found fl))
      → IsSorted (rank_le fl) (seen ++ cs)
      → ((e : Found fl) → In e selected → In e seen)
      → In d cs
      → In d (select_disjoint fl selected cs)
        ⊎ ((e : Found fl) × In e (select_disjoint fl selected cs)
            × (overlap fl d e ≡ true)
            × (rank_le fl e d ≡ true))
  unfolding select_disjoint
  outranked d seen [] selected s sub m = elim m [ ]
  outranked d seen (c ∷ cs) selected s sub (inr m) =
      outranked d (seen ++ c ∷ []) cs
        (if any (overlap fl c) selected then selected else selected ++ c ∷ [])
        (rw (append_assoc seen (c ∷ []) cs) s)
        (kept seen c selected (any (overlap fl c) selected) sub) m
  outranked d seen (c ∷ cs) selected s sub (inl q) =
      elim (Bool-cases (any (overlap fl c) selected)) [
        | inl b ↦
            let (x, mx, o) = In-of_any fl (overlap fl c) selected b in
            rw b (
              inr (
                x,
                selected_stays fl x cs selected mx,
                rw (← q) o,
                rw (← q) (earlier_ranks seen (c ∷ cs) x c s (sub x mx) (inl refl)),
              ))
        | inr b ↦ rw b (
            inl (
              selected_stays fl d cs (selected ++ c ∷ [])
                (In-append_right d selected (c ∷ []) (inl q))))
      ]

  abbrev pub IsOutranked : Found fl → List (Found fl) → Type 0
  IsOutranked d ds = (e : Found fl) × In e ds × (overlap fl d e ≡ true) × (rank_le fl e d ≡ true)

  Inside-of :
      (size : ℕ) (ds all_of : List (Found fl))
      → ((d : Found fl) → In d ds → In d all_of)
      → All (Inside size) all_of
      → All (Inside size) ds
  Inside-of size [] all_of sub inside = tt
  Inside-of size (d ∷ ds) all_of sub inside = (
    All-In (Inside size) d all_of inside (sub d (inl refl)),
    Inside-of size ds all_of (λ e m. sub e (inr m)) inside,
  )

  later_all : (ds : List (Found fl)) → All (λ d. 0 ≤ d.start) ds
  later_all [] = tt
  later_all (d ∷ ds) = (omega arith, later_all ds)

  result_from : (cs : List (Found fl)) (d : Found fl) → In d (resolve_overlaps fl cs) → In d cs
  unfolding resolve_overlaps
  result_from cs d m =
      elim (selected_from fl d (sort (rank_le fl) cs) []
        ((In-sort (position_le fl) d (select_disjoint fl [] (sort (rank_le fl) cs))).0 m)) [
          | inl z ↦ absurd z
          | inr k ↦ (In-sort (rank_le fl) d cs).0 k
        ]

  ranked :
      (cs : List (Found fl)) (d : Found fl)
      → In d cs
      → In d (resolve_overlaps fl cs) ⊎ IsOutranked d (resolve_overlaps fl cs)
  unfolding resolve_overlaps
  ranked cs d m =
      let by_rank = sort (rank_le fl) cs in
      let chosen = select_disjoint fl [] by_rank in
      elim (outranked d [] by_rank [] (sort-IsSorted (rank_le fl) rank_le-total rank_le_trans cs)
        (λ e z. z) ((In-sort (rank_le fl) d cs).1 m)) [
          | inl k ↦ inl ((In-sort (position_le fl) d chosen).1 k)
          | inr (e, k, o, r) ↦ inr (e, (In-sort (position_le fl) e chosen).1 k, o, r)
        ]

  -- For candidates that are spans of a text, the result is a part of the candidates, in order of
  -- position and without overlaps, and a candidate that is not in it overlaps one of the result
  -- that ranks no lower in the order of priority, confidence, length and start.
  pub resolve_overlaps_lem :
      (size : ℕ) (cs : List (Found fl))
      → All (λ d. IsSpan fl d × (d.stop ≤ size)) cs
      → FoundOrdered 0 size (resolve_overlaps fl cs)
        × ((d : Found fl) → In d (resolve_overlaps fl cs) → In d cs)
        × ((d : Found fl)
            → In d cs
            → In d (resolve_overlaps fl cs) ⊎ IsOutranked d (resolve_overlaps fl cs))
  unfolding resolve_overlaps
  resolve_overlaps_lem size cs spans =
      let chosen = select_disjoint fl [] (sort (rank_le fl) cs) in
      let (sorted, apart) =
        sort-facts chosen (select_disjoint-AreDisjoint fl (sort (rank_le fl) cs) [] tt) in
      (
        ordered_from 0 size (sort (position_le fl) chosen) (omega arith)
            (Inside-of size (sort (position_le fl) chosen) cs (result_from cs) spans) sorted apart
            (later_all (sort (position_le fl) chosen)),
        result_from cs,
        ranked cs,
      )
