-- ===== src/Detection.antt =====
-- app/privacy/detection/ensemble.py and app/masking/detector.py: candidates of several recognizers
-- are merged, and overlaps are resolved by priority.
pub mod Overlaps
pub mod Laws
pub mod Spans
use maskgate.Base.{
  Bool, Dict, Eq, List, Result, Text, [], any, codes, dedupe, err, get, if◌then◌else◌, leb, list_eq,
  ltb, map, nat_eq, none, ok, option_eq, pair_eq, put, select, some, sort, text_le, ℕ, ◌&&◌, ◌++◌,
  ◌-◌, ◌==◌, ◌∷◌,
}
use maskgate.Unicode.{Unicode}
use maskgate.Canonical.{CanonicalText, from_text}
use maskgate.Privacy.{DetectorProfile, Floats, PrivacyDetection}

-- `_PRIORITY.get(entity_type, 0)` of the ensemble
unfoldable pub priority : Text → ℕ
priority t =
    if t == codes "PRIVATE_KEY"
    then 120
    else if t == codes "CONNECTION_STRING"
    then 118
    else if t == codes "JWT"
    then 116
    else if t == codes "API_KEY"
    then 114
    else if t == codes "URL"
    then 105
    else if t == codes "EMAIL"
    then 100
    else if t == codes "IBAN"
    then 98
    else if t == codes "CARD_NUMBER"
    then 96
    else if t == codes "INN"
    then 94
    else if t == codes "SNILS"
    then 94
    else if t == codes "PASSPORT"
    then 92
    else if t == codes "FILE_PATH"
    then 90
    else if t == codes "PHONE"
    then 80
    else if t == codes "IP_ADDRESS"
    then 78
    else if t == codes "MONEY"
    then 70
    else if t == codes "DOMAIN"
    then 60
    else if t == codes "PERSON"
    then 50
    else 0

abbrev pub ne_by : {A : Type 0} ⦃e : Eq A⦄ → A → A → Bool → Bool → Bool
ne_by a b less rest = if a == b then rest else less

module _ (fl : Floats) where
  abbrev pub Found : Type 0
  Found = PrivacyDetection fl.Float

  -- `max(a, b)` of Python: the first unless the second is greater.
  abbrev pub max_f : fl.Float → fl.Float → fl.Float
  max_f a b = if fl.le_f b a then a else b

  -- `min(1.0, x)`
  abbrev pub cap_one : fl.Float → fl.Float
  cap_one x = if fl.le_f fl.one_f x then fl.one_f else x

  -- `dict.fromkeys((current.recognizer, candidate.recognizer))` joined by `+`
  abbrev pub join_recognizers : Text → Text → Text
  join_recognizers a b = if a == b then a else a ++ codes "+" ++ b

  -- `replace(...)` of `_merge_exact`
  unfoldable pub merge_two : Found → Found → Found
  merge_two current candidate =
      let base = if fl.le_f candidate.confidence current.confidence then current else candidate in
      record {
        entity_type = base.entity_type;
        data_class = base.data_class;
        start = base.start;
        stop = base.stop;
        confidence = cap_one (fl.nudge (max_f current.confidence candidate.confidence));
        recognizer = join_recognizers current.recognizer candidate.recognizer;
        validation_state = base.validation_state;
        evidence = dedupe (current.evidence ++ candidate.evidence);
      }

  abbrev pub SpanKey : Type 0
  SpanKey = Text × (ℕ × ℕ)

  abbrev pub span_key : Found → SpanKey
  span_key d = (d.entity_type, (d.start, d.stop))

  -- One turn of the loop of `_merge_exact`.
  unfoldable pub merge_into : Dict SpanKey Found → Found → Dict SpanKey Found
  unfolding merge_two
  merge_into merged candidate = elim (get (span_key candidate) merged) [
    | none ↦ put (span_key candidate) candidate merged
    | some current ↦ put (span_key candidate) (merge_two current candidate) merged
  ]

  unfoldable pub merge_from : Dict SpanKey Found → List Found → Dict SpanKey Found
  unfolding merge_into
  merge_from merged [] = merged
  merge_from merged (c ∷ cs) = merge_from (merge_into merged c) cs

  -- `list(d.values())`
  abbrev pub values : Dict SpanKey Found → List Found
  values d = map (λ (e : SpanKey × Found). e.1) d

  -- `_merge_exact`
  unfoldable pub merge_exact : List Found → List Found
  unfolding merge_from
  merge_exact candidates = values (merge_from [] candidates)

  abbrev pub same_f : fl.Float → fl.Float → Bool
  same_f a b = fl.le_f a b && fl.le_f b a

  -- The sort key of `_resolve_overlaps`: priority, confidence and length from the greatest down, then
  -- the start.
  unfoldable pub rank_le : Found → Found → Bool
  rank_le a b =
      ne_by (priority a.entity_type) (priority b.entity_type)
        (ltb (priority b.entity_type) (priority a.entity_type))
        (if same_f a.confidence b.confidence
          then ne_by (a.stop - a.start) (b.stop - b.start)
              (ltb (b.stop - b.start) (a.stop - a.start)) (leb a.start b.start)
          else fl.le_f b.confidence a.confidence)

  -- The key of the last `sorted`.
  unfoldable pub position_le : Found → Found → Bool
  unfolding text_le
  position_le a b =
      ne_by a.start b.start (ltb a.start b.start)
        (ne_by a.stop b.stop (ltb a.stop b.stop) (text_le a.entity_type b.entity_type))

  -- `candidate.start < item.end and item.start < candidate.end`
  abbrev pub overlap : Found → Found → Bool
  overlap a b = ltb a.start b.stop && ltb b.start a.stop

  -- The loop of `_resolve_overlaps`, on the candidates in order of rank.
  unfoldable pub select_disjoint : List Found → List Found → List Found
  select_disjoint selected [] = selected
  select_disjoint selected (c ∷ cs) =
      select_disjoint (if any (overlap c) selected then selected else selected ++ c ∷ []) cs

  -- `_resolve_overlaps`
  unfoldable pub resolve_overlaps : List Found → List Found
  unfolding select_disjoint
  resolve_overlaps candidates = sort position_le (select_disjoint [] (sort rank_le candidates))

  -- A recognizer: the profiles that it serves and what it finds. The recognizers of the
  -- program are regular expressions over the canonical text, whose spans they carry back to the
  -- original; `detect` takes any.
  pub record Recognizer : Type 0 where
    pub serves : DetectorProfile → Bool
    pub recognize : CanonicalText → List Found

  -- `_MIN_CONFIDENCE`: the three numbers are floats, which the model does not fix.
  abbrev pub MinConfidence : Type 0
  MinConfidence = DetectorProfile → fl.Float

  -- The list of `detect`, behind canonicalization: what the recognizers of the profile find with at
  -- least the profile's confidence.
  unfoldable pub candidates_of :
      MinConfidence → DetectorProfile → List Recognizer → CanonicalText → List Found
  candidates_of least profile [] canonical = []
  candidates_of least profile (r ∷ rs) canonical =
      (if r.serves profile
        then select (λ (d : Found). fl.le_f (least profile) d.confidence) (r.recognize canonical)
        else [])
      ++ candidates_of least profile rs canonical

  -- `DetectorEnsemble.detect` behind canonicalization
  unfoldable pub detect_canonical :
      MinConfidence → DetectorProfile → List Recognizer → CanonicalText → List Found
  unfolding candidates_of merge_exact resolve_overlaps
  detect_canonical least profile rs canonical =
      resolve_overlaps (merge_exact (candidates_of least profile rs canonical))

  -- `DetectorEnsemble.detect`, with the limits that `from_text` has by default.
  unfoldable pub detect :
      Unicode → MinConfidence → DetectorProfile → List Recognizer → Text → Result (List Found)
  unfolding detect_canonical
  detect u least profile rs text = elim (from_text u 256000 512000 text) [
    | err e ↦ err e
    | ok canonical ↦ ok (detect_canonical least profile rs canonical)
  ]
