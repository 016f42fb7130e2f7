-- ===== src/Tests/Detecting.antt =====
-- Overlapping candidates on a concrete text.
use maskgate.Base.{
  In, List, [], arith, codes, insert_sorted, list_beq, list_eq, nat_eq, option_eq, pair_eq, refl,
  sort, ◌∷◌, ◌≡◌, ◌⊎◌,
}
use maskgate.Privacy.{DataClass, ValidationState}
use maskgate.Detection.{Found, resolve_overlaps, select_disjoint, rank_le, position_le, priority}
use maskgate.Detection.Laws.{FoundOrdered, IsOutranked, resolve_overlaps_lem}
use maskgate.Tests.Samples.{hundredths}

abbrev url : Found hundredths
url = record {
  entity_type = codes "URL";
  data_class = DataClass.quasi_identifier;
  start = 4;
  stop = 24;
  confidence = 90;
  recognizer = codes "url";
  validation_state = ValidationState.unvalidated;
  evidence = [];
}

abbrev domain : Found hundredths
domain = record url { entity_type = codes "DOMAIN"; start = 12; stop = 23; confidence = 95 }

abbrev person : Found hundredths
person = record url { entity_type = codes "PERSON"; start = 0; stop = 3; confidence = 60 }

abbrev candidates : List (Found hundredths)
candidates = domain ∷ url ∷ person ∷ []

resolve_overlaps_lem_example :
    FoundOrdered hundredths 0 30 (resolve_overlaps hundredths candidates)
    × ((d : Found hundredths) → In d (resolve_overlaps hundredths candidates) → In d candidates)
    × ((d : Found hundredths)
        → In d candidates
        → In d (resolve_overlaps hundredths candidates)
          ⊎ IsOutranked hundredths d (resolve_overlaps hundredths candidates))
resolve_overlaps_lem_example =
    resolve_overlaps_lem hundredths 30 candidates
      ((omega arith, omega arith), ((omega arith, omega arith), ((omega arith, omega arith), tt)))

resolve_runs : resolve_overlaps hundredths candidates ≡ person ∷ url ∷ []
unfolding resolve_overlaps select_disjoint sort insert_sorted rank_le position_le priority list_beq
resolve_runs = refl
