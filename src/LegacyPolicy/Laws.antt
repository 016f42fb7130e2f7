-- ===== src/LegacyPolicy/Laws.antt =====
-- app/privacy/policy/legacy.py: an adapted document decides as the map that it was made from.
use maskgate.Base.{
  Bool, Bool-cases, List, Option, Result, Text, [], ap, arith, contains, err, false, first,
  if◌then◌else◌, inl, inr, list_eq, nat_eq, none, ok, option_eq, pair_eq, refl, some, sort, subst,
  suc, sym, true, ℕ, ◌==◌, ◌∙◌, ◌∷◌, ◌≡◌,
}
use maskgate.Privacy.{PrivacyAction, Floats, PrivacyDetection}
use maskgate.PolicyV2.{
  Platform, PolicyContext, PolicyDecision, PolicyRule, PolicyDocument, matches_conditions, decide,
  matching_rule, public_assertion, decide_on, is_prohibiting, decide_unprohibited, from_default,
  from_rule,
}
use maskgate.LegacyPolicy.{
  LegacyEntry, entry_le, entry_action, normalized, legacy_rule, adapt_entries, adapt, add_rule,
  with_rules, legacy_document, only_type,
}

abbrev action_of : {F : Type 0} → Option (PolicyRule F) → PrivacyAction
action_of none = PrivacyAction.block
action_of (some r) = r.action

module _ (pf : Platform) (fl : Floats) (d : PrivacyDetection fl.Float)
    (x : PolicyContext fl.Float) where
  -- The action of the first entry for the detection's type, and BLOCK where there is none.
  unfoldable pub listed_action : List LegacyEntry → Result PrivacyAction
  listed_action [] = ok PrivacyAction.block
  listed_action (e ∷ es) =
      let rest = listed_action es in
      if normalized pf.unicode e.0 == pf.unicode.upper d.entity_type
      then entry_action pf.unicode e
      else rest

  only_type-matches :
      (entity : Text)
      → matches_conditions pf fl (only_type entity) d x ≡ (entity == pf.unicode.upper d.entity_type)
  unfolding matches_conditions contains
  only_type-matches entity = ground arith

  abbrev applied : List (PolicyRule fl.Float) → Option (PolicyRule fl.Float)
  applied rules =
      first (λ (r : PolicyRule fl.Float). matches_conditions pf fl r.conditions d x) rules

  first_listed_on :
      (index : ℕ) (e : LegacyEntry) (es : List LegacyEntry) (rules : List (PolicyRule fl.Float))
      (r : Result PrivacyAction) (rest : Result (List (PolicyRule fl.Float)))
      → entry_action pf.unicode e ≡ r
      → ((rs : List (PolicyRule fl.Float))
          → rest ≡ ok rs
          → listed_action es ≡ ok (action_of (applied rs)))
      → add_rule pf.unicode index e.0 r rest ≡ ok rules
      → listed_action (e ∷ es) ≡ ok (action_of (applied rules))
  first_listed_on index e es rules (err f) rest h ih k = cc
  first_listed_on index e es rules (ok a) (err f) h ih k = cc
  first_listed_on index e es rules (ok a) (ok rs) h ih k =
      subst (λ l. listed_action (e ∷ es) ≡ ok (action_of (applied l))) (made k)
        (chosen (normalized pf.unicode e.0 == pf.unicode.upper d.entity_type) refl)
    where
      rule : PolicyRule fl.Float
      rule = legacy_rule pf.unicode index (normalized pf.unicode e.0) a

      made : add_rule pf.unicode index e.0 (ok a) (ok rs) ≡ ok rules → rule ∷ rs ≡ rules
      made q = ground arith

      chosen :
          (b : Bool)
          → (normalized pf.unicode e.0 == pf.unicode.upper d.entity_type) ≡ b
          → listed_action (e ∷ es) ≡ ok (action_of (applied (rule ∷ rs)))
      chosen true q =
          unfold listed_action in rw (only_type-matches (normalized pf.unicode e.0), q) h
      chosen false q =
          unfold listed_action in rw (only_type-matches (normalized pf.unicode e.0), q) (ih rs refl)

  first_listed :
      (index : ℕ) (es : List LegacyEntry) (rules : List (PolicyRule fl.Float))
      → adapt_entries pf.unicode index es ≡ ok rules
      → listed_action es ≡ ok (action_of (applied rules))
  first_listed index [] rules h =
      subst (λ l. listed_action [] ≡ ok (action_of (applied l))) (none_made h)
        (unfold listed_action in refl)
    where
      none_made : adapt_entries pf.unicode index [] ≡ ok rules → [] ≡ rules
      none_made q = unfold adapt_entries in ground arith
  first_listed index (e ∷ es) rules h =
      first_listed_on index e es rules (entry_action pf.unicode e)
        (adapt_entries pf.unicode (suc index) es) refl (first_listed (suc index) es)
        (unfold adapt_entries in h)

  module _ (rules : List (PolicyRule fl.Float)) (now : ℕ) where
    abbrev Decides : Option (PolicyRule fl.Float) → Result PolicyDecision → Type 0
    Decides rule r = (out : PolicyDecision) × (r ≡ ok out) × (out.action ≡ action_of rule)

    -- Without assertions the rule that matches decides, or else the default.
    unprohibited-action :
        (value : Option Text) (rule : Option (PolicyRule fl.Float))
        → Decides rule (decide_unprohibited pf fl (legacy_document rules) (some now) d x value rule)
    unfolding public_assertion
    unprohibited-action none none = (from_default pf fl (legacy_document rules), refl, refl)
    unprohibited-action none (some r) = (from_rule pf fl (legacy_document rules) r, refl, refl)
    unprohibited-action (some v) none = (from_default pf fl (legacy_document rules), refl, refl)
    unprohibited-action (some v) (some r) = (from_rule pf fl (legacy_document rules) r, refl, refl)

    decide_on-action :
        (value : Option Text) (rule : Option (PolicyRule fl.Float))
        → Decides rule (decide_on pf fl (legacy_document rules) (some now) d x value rule)
    decide_on-action value none = unprohibited-action value none
    decide_on-action value (some r) = elim (Bool-cases (is_prohibiting pf fl r.action)) [
      | inl e ↦ rw e (from_rule pf fl (legacy_document rules) r, refl, refl)
      | inr e ↦ rw e (unprohibited-action value (some r))
    ]

-- On a clock with a zone, a document that was adapted from a map decides every detection, with the
-- action of the first entry in order whose normalized type is the type of the detection, and with
-- BLOCK if there is none.
pub adapt_lem :
    (pf : Platform) (fl : Floats) (actions : List LegacyEntry) (p : PolicyDocument fl.Float)
    (now : ℕ) (d : PrivacyDetection fl.Float) (x : PolicyContext fl.Float) (value : Option Text)
    → adapt pf.unicode actions ≡ ok p
    → (out : PolicyDecision) × (decide pf fl p (some now) d x value ≡ ok out)
      × (listed_action pf fl d x (sort entry_le actions) ≡ ok out.action)
unfolding adapt decide matching_rule
adapt_lem pf fl actions p now d x value h =
    adapted (adapt_entries pf.unicode 0 (sort entry_le actions)) refl h
  where
    adapted :
        (r : Result (List (PolicyRule fl.Float)))
        → adapt_entries pf.unicode 0 (sort entry_le actions) ≡ r
        → with_rules r ≡ ok p
        → (out : PolicyDecision) × (decide pf fl p (some now) d x value ≡ ok out)
          × (listed_action pf fl d x (sort entry_le actions) ≡ ok out.action)
    adapted (err e) q k = cc
    adapted (ok rules) q k =
        let rule = matching_rule pf fl (legacy_document rules) d x in
        let (out, decided, action) = decide_on-action pf fl d x rules now value rule in
        subst
          (λ l.
            (o : PolicyDecision) × (decide pf fl l (some now) d x value ≡ ok o)
            × (listed_action pf fl d x (sort entry_le actions) ≡ ok o.action))
          (made rules k)
          (
            out,
            decided,
            first_listed pf fl d x 0 (sort entry_le actions) rules q ∙ ap (λ a. ok a) (sym action),
          )
      where
        made : (l : List (PolicyRule fl.Float)) → with_rules (ok l) ≡ ok p → legacy_document l ≡ p
        made l z = ground arith
