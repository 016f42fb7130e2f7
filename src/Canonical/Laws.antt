-- ===== src/Canonical/Laws.antt =====
-- app/privacy/detection/canonical.py: every canonical character comes from a part of the source, in
-- order, and the canonical text is bounded.
use maskgate.Base.{
  Bool-cases, List, Result, Text, [], ap, arith, drop, err, inl, inr, length, length-append,
  length-drop, length-take, ltb, map, max, ok, refl, subst, suc, sym, take, zero, ℕ, ◌*◌, ◌++◌, ◌+◌,
  ◌-◌, ◌<◌, ◌||◌, ◌∙◌, ◌∷◌, ◌≡◌, ◌≤◌, ◌⊎◌,
}
use maskgate.Unicode.{Unicode}
use maskgate.Canonical.{
  CanonicalText, canonical_from, combining_run, add_cluster, from_text, prepend, with_source,
  canonical_of, is_zero_width, plain_space, least_start, greatest_stop, original_span,
}

-- Spans that are not empty and do not run backwards, from `pos` on and up to `size`.
abbrev pub SpanSteps : ℕ → ℕ → List (ℕ × ℕ) → Type 0
SpanSteps pos size [] = pos ≤ size
SpanSteps pos size ((a, b) ∷ ss) = (pos ≤ a) × (a < b) × (b ≤ size) × SpanSteps a size ss

abbrev spans_of : List (ℕ × (ℕ × ℕ)) → List (ℕ × ℕ)
spans_of = map (λ (o : ℕ × (ℕ × ℕ)). o.1)

SpanSteps-earlier :
    (pos later size : ℕ) (ss : List (ℕ × ℕ))
    → pos ≤ later
    → SpanSteps later size ss
    → SpanSteps pos size ss
SpanSteps-earlier pos later size [] h k = omega arith
SpanSteps-earlier pos later size ((a, b) ∷ ss) h (i, j, l, k) = (omega arith, j, l, k)

SpanSteps-cluster :
    (a b size : ℕ) (cs : Text) (os : List (ℕ × (ℕ × ℕ)))
    → a < b
    → b ≤ size
    → SpanSteps a size (spans_of os)
    → SpanSteps a size (spans_of (add_cluster (a, b) cs ++ os))
unfolding add_cluster
SpanSteps-cluster a b size [] os h k l = l
SpanSteps-cluster a b size (c ∷ cs) os h k l =
    ground (arith, SpanSteps-cluster a b size cs os h k l)

prepend_ok :
    (xs : List (ℕ × (ℕ × ℕ))) (r : Result (List (ℕ × (ℕ × ℕ)))) (out : List (ℕ × (ℕ × ℕ)))
    → prepend xs r ≡ ok out
    → (ys : List (ℕ × (ℕ × ℕ))) × (r ≡ ok ys) × (out ≡ xs ++ ys)
prepend_ok xs (err e) out h = cc
prepend_ok xs (ok ys) out h = (ys, refl, ground arith)

module _ (u : Unicode) (size max_output : ℕ) where
  length-combining_run : (s : Text) → length (combining_run u s) ≤ length s
  unfolding combining_run
  length-combining_run [] = omega arith
  length-combining_run (c ∷ s) = ground (arith, length-combining_run s)

  abbrev IsBounded : ℕ → Type 0
  IsBounded n = (n ≤ max_output) × (n ≤ max 1 (size * 4))

  -- The three ways through one turn of the outer loop.
  turn :
      (emitted index c : ℕ) (s : Text) (out : List (ℕ × (ℕ × ℕ)))
      → let run = combining_run u s in
        let added = add_cluster (index, suc index + length run) (u.nfkc (plain_space c ∷ run)) in
        canonical_from u size max_output emitted index zero (c ∷ s) ≡ ok out
        → (canonical_from u size max_output emitted (suc index) zero s ≡ ok out)
          ⊎ (IsBounded (emitted + length added)
              × ((ys : List (ℕ × (ℕ × ℕ))) × (canonical_from u size max_output
                      (emitted + length added)
                      (suc index)
                      (length run)
                      s
                    ≡ ok ys)
                  × (out ≡ added ++ ys)))
  unfolding canonical_from
  turn emitted index c s out h = elim (Bool-cases (is_zero_width c)) [
    | inl e ↦ inl (ground arith)
    | inr e ↦
        let run = combining_run u s in
        let added = add_cluster (index, suc index + length run) (u.nfkc (plain_space c ∷ run)) in
        let total = emitted + length added in
        elim (Bool-cases (ltb max_output total || ltb (max 1 (size * 4)) total)) [
          | inl f ↦ absurd (ground arith)
          | inr f ↦ inr (
            (ground arith, ground arith),
            prepend_ok added (canonical_from u size max_output total (suc index) (length run) s) out
                (ground arith),
          )
        ]
  ]

  canonical_from-steps :
      (emitted index skip : ℕ) (s : Text) (out : List (ℕ × (ℕ × ℕ)))
      → canonical_from u size max_output emitted index skip s ≡ ok out
      → index + length s ≡ size
      → skip ≤ length s
      → IsBounded emitted
      → SpanSteps index size (spans_of out) × IsBounded (emitted + length out)
  canonical_from-steps emitted index skip [] out h place fits bounded =
      let same : out ≡ [] = (unfold canonical_from in ground arith) in
      rw same (omega arith, (omega (arith, bounded), omega (arith, bounded)))
  canonical_from-steps emitted index (suc skip) (c ∷ s) out h place fits bounded =
      let (steps, small) =
        canonical_from-steps emitted (suc index) skip s out (unfold canonical_from in h)
          (omega arith) (omega arith) bounded in
      (SpanSteps-earlier index (suc index) size (spans_of out) (omega arith) steps, small)
  canonical_from-steps emitted index zero (c ∷ s) out h place fits bounded =
      elim (turn emitted index c s out h) [
        | inl k ↦
            let (steps, small) =
              canonical_from-steps emitted (suc index) zero s out k (omega arith) (omega arith)
                bounded in
            (SpanSteps-earlier index (suc index) size (spans_of out) (omega arith) steps, small)
        | inr (now_bounded, (ys, k, split)) ↦
            let run = combining_run u s in
            let stop = suc index + length run in
            let cluster = u.nfkc (plain_space c ∷ run) in
            let added = add_cluster (index, stop) cluster in
            let (steps, small) =
              canonical_from-steps (emitted + length added) (suc index) (length run) s ys k
                (omega arith) (length-combining_run s) now_bounded in
            rw split (
              SpanSteps-cluster index stop size cluster ys (omega arith)
                  (omega (arith, length-combining_run s))
                  (SpanSteps-earlier index (suc index) size (spans_of ys) (omega arith) steps),
              (
                omega (arith, length-append added ys, small.0),
                omega (arith, length-append added ys, small.1),
              ),
            )
      ]

-- Lookups of spans that are in order.
least_start-bounds :
    (pos size a b : ℕ) (ss : List (ℕ × ℕ))
    → SpanSteps pos size ((a, b) ∷ ss)
    → (pos ≤ least_start ((a, b) ∷ ss))
      × (least_start ((a, b) ∷ ss) < greatest_stop ((a, b) ∷ ss))
      × (greatest_stop ((a, b) ∷ ss) ≤ size)
unfolding least_start greatest_stop
least_start-bounds pos size a b [] (i, j, l, k) = (i, omega arith, omega arith)
least_start-bounds pos size a b ((c, d) ∷ ss) (i, j, l, k) =
    let (low, between, high) = least_start-bounds a size c d ss k in
    (omega (arith, low), omega (arith, j), omega (arith, high))

SpanSteps-drop :
    (n pos size : ℕ) (ss : List (ℕ × ℕ)) → SpanSteps pos size ss → SpanSteps pos size (drop n ss)
SpanSteps-drop zero pos size ss h = h
SpanSteps-drop (suc n) pos size [] h = h
SpanSteps-drop (suc n) pos size ((a, b) ∷ ss) (i, j, l, k) =
    SpanSteps-earlier pos a size (drop n ss) i (SpanSteps-drop n a size ss k)

SpanSteps-take :
    (n pos size : ℕ) (ss : List (ℕ × ℕ))
    → pos ≤ size
    → SpanSteps pos size ss
    → SpanSteps pos size (take n ss)
SpanSteps-take zero pos size ss le h = le
SpanSteps-take (suc n) pos size [] le h = h
SpanSteps-take (suc n) pos size ((a, b) ∷ ss) le (i, j, l, k) =
    (i, j, l, SpanSteps-take n a size ss (omega arith) k)

nonempty_bounds :
    (size : ℕ) (ss : List (ℕ × ℕ))
    → 1 ≤ length ss
    → SpanSteps 0 size ss
    → (least_start ss < greatest_stop ss) × (greatest_stop ss ≤ size)
nonempty_bounds size [] h steps = absurd (omega arith)
nonempty_bounds size ((a, b) ∷ ss) h steps =
    let (low, between, high) = least_start-bounds 0 size a b ss steps in (between, high)

original_span-inside :
    (c : CanonicalText) (size start stop : ℕ)
    → SpanSteps 0 size c.canonical_to_original
    → length c.text ≡ length c.canonical_to_original
    → start < stop
    → stop ≤ length c.text
    → (a : ℕ) × (b : ℕ) × (original_span start stop c ≡ ok (a, b)) × (a < b) × (b ≤ size)
unfolding original_span
original_span-inside c size start stop steps same h k =
    let spans = take (stop - start) (drop start c.canonical_to_original) in
    let (between, inside) =
      nonempty_bounds size spans
        (omega (
          arith,
          length-take (stop - start) (drop start c.canonical_to_original),
          length-drop start c.canonical_to_original,
        ))
        (SpanSteps-take (stop - start) 0 size (drop start c.canonical_to_original) (omega arith)
          (SpanSteps-drop start 0 size c.canonical_to_original steps)) in
    (least_start spans, greatest_stop spans, ground arith, between, inside)

length-map : {A B : Type 0} (f : A → B) (xs : List A) → length (map f xs) ≡ length xs
length-map f [] = refl
length-map f (x ∷ xs) = ap suc (length-map f xs)

from_text-output :
    (u : Unicode) (max_input max_output : ℕ) (source : Text) (c : CanonicalText)
    → from_text u max_input max_output source ≡ ok c
    → (out : List (ℕ × (ℕ × ℕ))) × (canonical_from u (length source) max_output 0 0 0 source
        ≡ ok out)
      × (canonical_of source out ≡ c)
unfolding from_text
from_text-output u max_input max_output source c h =
    elim (Bool-cases (ltb max_input (length source))) [
      | inl e ↦ absurd (ground arith)
      | inr e ↦
          with_output (canonical_from u (length source) max_output 0 0 0 source) (ground arith)
    ]
  where
    with_output :
        (r : Result (List (ℕ × (ℕ × ℕ))))
        → with_source source r ≡ ok c
        → (out : List (ℕ × (ℕ × ℕ))) × (r ≡ ok out) × (canonical_of source out ≡ c)
    with_output (err e) k = cc
    with_output (ok out) k = (out, refl, ground arith)

-- The text has one span for each character, keeps within the limits, and each non-empty part of it
-- comes from a non-empty part of the source.
abbrev pub Traced : Text → ℕ → CanonicalText → Type 0
Traced source max_output c =
    (c.source ≡ source)
    × (length c.text ≡ length c.canonical_to_original)
    × (length c.text ≤ max_output)
    × (length c.text ≤ max 1 (length source * 4))
    × ((start stop : ℕ)
        → start < stop
        → stop ≤ length c.text
        → (a : ℕ) × (b : ℕ) × (original_span start stop c ≡ ok (a, b))
          × (a < b)
          × (b ≤ length source))

-- A canonical text has one span for each character and is no longer than the two limits allow;
-- every non-empty part of it comes from a non-empty part of the source.
pub from_text_lem :
    (u : Unicode) (max_input max_output : ℕ) (source : Text) (c : CanonicalText)
    → from_text u max_input max_output source ≡ ok c
    → Traced source max_output c
from_text_lem u max_input max_output source c h =
    let (out, run, same) = from_text-output u max_input max_output source c h in
    let (steps, small) =
      canonical_from-steps u (length source) max_output 0 0 0 source out run (omega arith)
        (omega arith) (omega arith, omega arith) in
    subst (Traced source max_output) same (
      refl,
      length-map (λ (o : ℕ × (ℕ × ℕ)). o.0) out ∙ sym (length-map (λ (o : ℕ × (ℕ × ℕ)). o.1) out),
      omega (arith, length-map (λ (o : ℕ × (ℕ × ℕ)). o.0) out, small.0),
      omega (arith, length-map (λ (o : ℕ × (ℕ × ℕ)). o.0) out, small.1),
      λ start stop lt le.
          original_span-inside (canonical_of source out) (length source) start stop steps
            (length-map (λ (o : ℕ × (ℕ × ℕ)). o.0) out
              ∙ sym (length-map (λ (o : ℕ × (ℕ × ℕ)). o.1) out))
            lt le,
    )
