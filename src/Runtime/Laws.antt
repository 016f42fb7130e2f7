-- ===== src/Runtime/Laws.antt =====
-- app/privacy/runtime.py: what a transformed text is.
use maskgate.Base.{
  All, Error, List, Result, Text, [], arith, err, length, map, ok, pure, refl, resume, some, subst,
  ℕ, ◌∷◌, ◌≡◌,
}
use maskgate.Privacy.{Floats, PrivacyDetection}
use maskgate.PolicyV2.{Platform, PolicyDecision}
use maskgate.Risk.{assess}
use maskgate.Canonical.{CanonicalText, from_text}
use maskgate.Detection.{detect}
use maskgate.Detection.Laws.{FoundOrdered}
use maskgate.Detection.Spans.{RecognizesSpans, detect-FoundOrdered}
use maskgate.Vault
use maskgate.Vault.{MappingItem}
use maskgate.Vault.Invariant.{IsValid}
use maskgate.Session.{Session, Edit, mask_text_with_actions}
use maskgate.Session.Splice.{render}
use maskgate.Session.Actions.{Placed, refused, AreOrdered, mask_text_with_actions_lem}
use maskgate.Runtime.{
  PrivacyRuntime, Call, TransformResult, actions_of, approved, entity_of, decide_all,
  decide_and_apply, apply_decisions, transform_text,
}

module _ (pf : Platform) (fl : Floats) where
  entities-AreOrdered :
      (text : Text) (pos size : ℕ) (ds : List (PrivacyDetection fl.Float))
      → FoundOrdered fl pos size ds
      → AreOrdered pos size (map (entity_of pf fl text) ds)
  entities-AreOrdered text pos size [] h = h
  entities-AreOrdered text pos size (d ∷ ds) h =
      (h.0, h.1, entities-AreOrdered text d.stop size ds h.2)

  module _ (rt : PrivacyRuntime pf fl) (c : Call pf fl) (text : Text) (s : Session) where
    -- The detections are spans in order, each has the decision of the policy on it, none of which
    -- refuses the text, and the text has exactly the spans replaced that are not allowed, each by the
    -- replacement that the vault holds for it.
    abbrev pub Sound : TransformResult fl.Float → Session → Type 0
    Sound res t =
        let es = map (entity_of pf fl text) res.detections in
        let actions = actions_of res.decisions in
        FoundOrdered fl 0 (length text) res.detections
        × (res.risk ≡ assess fl res.detections)
        × (decide_all pf fl rt c text res.risk 0 res.detections ≡ ok res.decisions)
        × (refused es actions ≡ [])
        × ((edits : List Edit) × Placed t es actions edits × (res.text ≡ render 0 text edits))

    abbrev pub Outcome : Result (TransformResult fl.Float) × Session → Type 0
    Outcome (r, t) =
        (IsValid s.vault → IsValid t.vault)
        × ((k : Text) (i : MappingItem)
            → Vault.find_original k s.vault ≡ some i
            → Vault.find_original k t.vault ≡ some i)
        × ((res : TransformResult fl.Float) → r ≡ ok res → Sound res t)

    raised : (e : Error) → Outcome (err e, s)
    raised e = (λ v. v, λ k i f. f, λ res h. cc)

    module _ (ds : List (PrivacyDetection fl.Float))
        (ordered : FoundOrdered fl 0 (length text) ds) where
      abbrev HasDecisions : List PolicyDecision → Type 0
      HasDecisions decisions = decide_all pf fl rt c text (assess fl ds) 0 ds ≡ ok decisions

      abbrev result : List PolicyDecision → Text → TransformResult fl.Float
      result decisions out = record {
        text = out;
        detections = ds;
        decisions = decisions;
        risk = assess fl ds;
        approved_originals = approved (map (entity_of pf fl text) ds) decisions;
      }

      masked :
          (decisions : List PolicyDecision) (m : Result Text) (t : Session)
          → HasDecisions decisions
          → let es = map (entity_of pf fl text) ds in
            let actions = actions_of decisions in
            (IsValid s.vault → IsValid t.vault)
            → ((k : Text) (i : MappingItem)
                → Vault.find_original k s.vault ≡ some i
                → Vault.find_original k t.vault ≡ some i)
            → ((out : Text)
                → m ≡ ok out
                → (refused es actions ≡ [])
                  × ((edits : List Edit) × Placed t es actions edits × (out ≡ render 0 text edits)))
            → Outcome (resume m (λ out. pure (result decisions out)) t)
      masked decisions (err e) t found valid kept shape = (valid, kept, λ res h. cc)
      masked decisions (ok out) t found valid kept shape =
          let (none_refused, edits) = shape out refl in
          (
            valid,
            kept,
            λ res h. subst (λ r. Sound r t) (given h) (ordered, refl, found, none_refused, edits),
          )
        where
          given :
              {res : TransformResult fl.Float}
              → ok (result decisions out) ≡ ok res
              → result decisions out ≡ res
          given h = ground arith

      decided :
          (r : Result (List PolicyDecision))
          → decide_all pf fl rt c text (assess fl ds) 0 ds ≡ r
          → Outcome
              (resume r (λ decisions. apply_decisions pf fl text ds decisions (assess fl ds)) s)
      decided (err e) h = raised e
      decided (ok decisions) h =
          let es = map (entity_of pf fl text) ds in
          let (m, t) = mask_text_with_actions pf.unicode text es (actions_of decisions) s in
          let facts =
            mask_text_with_actions_lem pf.unicode text es (actions_of decisions) s
              (entities-AreOrdered text 0 (length text) ds ordered) in
          unfold apply_decisions in masked decisions m t h facts.0 facts.1 facts.2

    detected :
        (r : Result (List (PrivacyDetection fl.Float)))
        → ((ds : List (PrivacyDetection fl.Float)) → r ≡ ok ds → FoundOrdered fl 0 (length text) ds)
        → Outcome (resume r (decide_and_apply pf fl rt c text) s)
    detected (err e) h = raised e
    detected (ok ds) h =
        unfold decide_and_apply in
        decided ds (h ds refl) (decide_all pf fl rt c text (assess fl ds) 0 ds) refl

    -- If every recognizer reports spans of the text, then transform_text, whether it returns or
    -- raises, leaves a valid vault valid and every stored original with its item. If it returns,
    -- the detections are spans in order that do not overlap, the risk is theirs, each has the
    -- decision of the policy on it, no decision refuses the text, and the text has exactly the
    -- spans replaced that are not allowed, each by the replacement that the vault holds for it.
    pub transform_text_lem :
        ((k : CanonicalText)
          → from_text pf.unicode 256000 512000 text ≡ ok k
          → All (RecognizesSpans fl (length text) k) rt.recognizers)
        → Outcome (transform_text pf fl rt c text s)
    unfolding transform_text
    transform_text_lem spans =
        detected (detect fl pf.unicode rt.least rt.profile rt.recognizers text) (λ ds h.
          detect-FoundOrdered fl (length text) pf.unicode rt.least rt.profile rt.recognizers text ds
            spans h)
