-- ===== src/Canonical.antt =====
-- app/privacy/detection/canonical.py: a canonical text whose characters know where they come from.
pub mod Laws
use maskgate.Base.{
  Bool, List, Result, Text, [], canonicalization, contains, drop, err, if◌then◌else◌, leb, length,
  list_eq, ltb, map, max, min, nat_eq, ok, option_eq, pair_eq, slice, suc, take, value_error, zero,
  ℕ, ◌*◌, ◌++◌, ◌+◌, ◌-◌, ◌==◌, ◌||◌, ◌∷◌,
}
use maskgate.Unicode.{Unicode}

-- `CanonicalText`
pub record CanonicalText : Type 0 where
  pub source : Text
  pub text : Text
  pub canonical_to_original : List (ℕ × ℕ)

-- `_ZERO_WIDTH`
unfoldable pub is_zero_width : ℕ → Bool
is_zero_width c = contains c (0x200b ∷ 0x200c ∷ 0x200d ∷ 0x2060 ∷ 0xfeff ∷ [])

-- `" " if c == "\u00a0" else c`
abbrev pub plain_space : ℕ → ℕ
plain_space c = if c == 0xa0 then 32 else c

-- The loop over a normalized cluster, which stands in the source from `start` to `stop`.
unfoldable pub add_cluster : ℕ × ℕ → Text → List (ℕ × (ℕ × ℕ))
add_cluster span [] = []
add_cluster span (c ∷ cs) =
    let rest = add_cluster span cs in if is_zero_width c then rest else (plain_space c, span) ∷ rest

abbrev pub prepend : {A : Type 0} → List A → Result (List A) → Result (List A)
prepend xs (err e) = err e
prepend xs (ok ys) = ok (xs ++ ys)

abbrev pub canonical_of : Text → List (ℕ × (ℕ × ℕ)) → CanonicalText
canonical_of source output = record {
  source = source;
  text = map (λ (o : ℕ × (ℕ × ℕ)). o.0) output;
  canonical_to_original = map (λ (o : ℕ × (ℕ × ℕ)). o.1) output;
}

-- The last line of `from_text`.
abbrev pub with_source : Text → Result (List (ℕ × (ℕ × ℕ))) → Result CanonicalText
with_source source (err e) = err e
with_source source (ok output) = ok (canonical_of source output)

-- `min(item[0] ...)` and `max(item[1] ...)` of a non-empty list
unfoldable pub least_start : List (ℕ × ℕ) → ℕ
least_start [] = 0
least_start ((a, b) ∷ []) = a
least_start ((a, b) ∷ s ∷ ss) = min a (least_start (s ∷ ss))

unfoldable pub greatest_stop : List (ℕ × ℕ) → ℕ
greatest_stop [] = 0
greatest_stop ((a, b) ∷ ss) = max b (greatest_stop ss)

-- `original_span`
unfoldable pub original_span : ℕ → ℕ → CanonicalText → Result (ℕ × ℕ)
unfolding least_start greatest_stop
original_span start stop c =
    if leb stop start || ltb (length c.text) stop
    then err value_error
    else let spans = take (stop - start) (drop start c.canonical_to_original) in
      ok (least_start spans, greatest_stop spans)

-- `original_text`
unfoldable pub original_text : ℕ → ℕ → CanonicalText → Result Text
unfolding original_span
original_text start stop c = elim (original_span start stop c) [
  | err e ↦ err e
  | ok (a, b) ↦ ok (slice c.source a b)
]

module _ (u : Unicode) where
  -- The inner `while`: the combining characters at the head of the text.
  unfoldable pub combining_run : Text → Text
  combining_run [] = []
  combining_run (c ∷ s) = let rest = combining_run s in if u.is_combining c then c ∷ rest else []

  -- The outer `while` from `index` on, with `s` the rest of the source behind it. `skip` counts the
  -- combining characters that the cluster in front of them has used up. Each output character stands
  -- beside its span. `emitted` is `len(output)`.
  unfoldable pub canonical_from : ℕ → ℕ → ℕ → ℕ → ℕ → Text → Result (List (ℕ × (ℕ × ℕ)))
  unfolding add_cluster combining_run
  canonical_from size max_output emitted index skip [] = ok []
  canonical_from size max_output emitted index (suc skip) (c ∷ s) =
      canonical_from size max_output emitted (suc index) skip s
  canonical_from size max_output emitted index zero (c ∷ s) =
      let run = combining_run s in
      let stop = suc index + length run in
      let added = add_cluster (index, stop) (u.nfkc (plain_space c ∷ run)) in
      let total = emitted + length added in
      let skipped = canonical_from size max_output emitted (suc index) zero s in
      let rest = canonical_from size max_output total (suc index) (length run) s in
      if is_zero_width c
      then skipped
      else if ltb max_output total || ltb (max 1 (size * 4)) total
      then err canonicalization
      else prepend added rest

  -- `CanonicalText.from_text`
  unfoldable pub from_text : ℕ → ℕ → Text → Result CanonicalText
  unfolding canonical_from
  from_text max_input max_output source =
      if ltb max_input (length source)
      then err canonicalization
      else with_source source (canonical_from (length source) max_output 0 0 0 source)
