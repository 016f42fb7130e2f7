-- ===== src/Detection/Spans.antt =====
-- app/privacy/detection/ensemble.py: merging keeps the spans, and detection reports disjoint ones.
use maskgate.Base.{
  All, All-append, All-get, All-put, All-select, Bool, Bool-cases, Dict, List, Option, Result, Text,
  [], arith, err, false, get, if◌then◌else◌, inl, inr, list_eq, nat_eq, none, ok, option_eq,
  pair_eq, put, refl, select, some, subst, true, ℕ, ◌∷◌, ◌≡◌, ◌≤◌,
}
use maskgate.Unicode.{Unicode}
use maskgate.Canonical.{CanonicalText, from_text}
use maskgate.Privacy.{Floats, DetectorProfile}
use maskgate.Detection.{
  Found, SpanKey, span_key, merge_two, merge_into, merge_from, merge_exact, values, candidates_of,
  detect_canonical, detect, Recognizer, MinConfidence,
}
use maskgate.Detection.Overlaps.{IsSpan}
use maskgate.Detection.Laws.{FoundOrdered, resolve_overlaps_lem}

module _ (fl : Floats) (size : ℕ) where
  -- A span of a text of `size` characters.
  abbrev pub Fits : Found fl → Type 0
  Fits d = IsSpan fl d × (d.stop ≤ size)

  abbrev Held : SpanKey fl × Found fl → Type 0
  Held e = Fits e.1

  merge_two-Fits : (a b : Found fl) → Fits a → Fits b → Fits (merge_two fl a b)
  unfolding merge_two
  merge_two-Fits a b h k = elim (Bool-cases (fl.le_f b.confidence a.confidence)) [
    | inl e ↦ rw e h
    | inr e ↦ rw e k
  ]

  merge_into-Held :
      (merged : Dict (SpanKey fl) (Found fl)) (c : Found fl)
      → All Held merged
      → Fits c
      → All Held (merge_into fl merged c)
  unfolding merge_into
  merge_into-Held merged c h k = merge_on (get (span_key fl c) merged) refl
    where
      merge_on :
          (o : Option (Found fl))
          → get (span_key fl c) merged ≡ o
          → All Held (elim o [
            | none ↦ put (span_key fl c) c merged
            | some current ↦ put (span_key fl c) (merge_two fl current c) merged
          ])
      merge_on none e = All-put Held (span_key fl c) c merged k h
      merge_on (some current) e =
          All-put Held (span_key fl c) (merge_two fl current c) merged
            (merge_two-Fits current c (All-get Held (span_key fl c) current merged e h) k) h

  merge_from-Held :
      (cs : List (Found fl)) (merged : Dict (SpanKey fl) (Found fl))
      → All Held merged
      → All Fits cs
      → All Held (merge_from fl merged cs)
  unfolding merge_from
  merge_from-Held [] merged h k = h
  merge_from-Held (c ∷ cs) merged h k =
      merge_from-Held cs (merge_into fl merged c) (merge_into-Held merged c h k.0) k.1

  values-Fits : (d : Dict (SpanKey fl) (Found fl)) → All Held d → All Fits (values fl d)
  values-Fits [] h = tt
  values-Fits (e ∷ d) h = (h.0, values-Fits d h.1)

  merge_exact-Fits : (cs : List (Found fl)) → All Fits cs → All Fits (merge_exact fl cs)
  unfolding merge_exact
  merge_exact-Fits cs h = values-Fits (merge_from fl [] cs) (merge_from-Held cs [] tt h)

  -- Whatever a recognizer reports is a span of the text.
  abbrev pub RecognizesSpans : CanonicalText → Recognizer fl → Type 0
  RecognizesSpans c r = All Fits (r.recognize c)

  candidates_of-Fits :
      (least : MinConfidence fl) (profile : DetectorProfile) (rs : List (Recognizer fl))
      (c : CanonicalText)
      → All (RecognizesSpans c) rs
      → All Fits (candidates_of fl least profile rs c)
  unfolding candidates_of
  candidates_of-Fits least profile [] c h = tt
  candidates_of-Fits least profile (r ∷ rs) c h =
      All-append Fits _ (candidates_of fl least profile rs c) (served (r.serves profile))
        (candidates_of-Fits least profile rs c h.1)
    where
      strong : Found fl → Bool
      strong d = fl.le_f (least profile) d.confidence

      served : (b : Bool) → All Fits (if b then select strong (r.recognize c) else [])
      served true = All-select Fits strong (r.recognize c) h.0
      served false = tt

  -- If every recognizer reports spans of the text, the detections of a text are spans in order that do
  -- not overlap.
  pub detect-FoundOrdered :
      (u : Unicode) (least : MinConfidence fl) (profile : DetectorProfile)
      (rs : List (Recognizer fl)) (text : Text) (ds : List (Found fl))
      → ((c : CanonicalText) → from_text u 256000 512000 text ≡ ok c → All (RecognizesSpans c) rs)
      → detect fl u least profile rs text ≡ ok ds
      → FoundOrdered fl 0 size ds
  unfolding detect detect_canonical
  detect-FoundOrdered u least profile rs text ds spans h =
      detected (from_text u 256000 512000 text) refl h
    where
      detected :
          (r : Result CanonicalText)
          → from_text u 256000 512000 text ≡ r
          → elim r [
            | err e ↦ err e
            | ok canonical ↦ ok (detect_canonical fl least profile rs canonical)
          ]
            ≡ ok ds
          → FoundOrdered fl 0 size ds
      detected (err e) f k = cc
      detected (ok c) f k =
          subst (FoundOrdered fl 0 size) (ground arith)
            (resolve_overlaps_lem fl size (merge_exact fl (candidates_of fl least profile rs c))
              (merge_exact-Fits _ (candidates_of-Fits least profile rs c (spans c f)))).0
