-- ===== src/PolicyV2/Laws.antt =====
-- app/privacy/policy/engine.py: the precedence of `decide`, and what a match means.
use maskgate.Base.{
  All, Bool, Bool-cases, In, List, Option, Option-cases, Text, [], ap, arith, false, first, inl,
  inr, list_beq_iff, list_eq, nat_eq, none, ok, refl, some, sym, true, ℕ, ◌++◌, ◌<◌, ◌∙◌, ◌∷◌, ◌≡◌,
  ◌≢◌, ◌⊎◌,
}
use maskgate.Privacy.{Floats, PrivacyDetection, class_eq, direction_eq, scope_eq, bucket_eq}
use maskgate.PolicyV2.{
  Platform, PolicyContext, PolicyDecision, PolicyRule, PublicDataAssertion, PolicyDocument,
  matches_conditions, matches_assertion_scope, hash_public_value, assertion_applies,
  public_assertion, matching_rule, from_rule, from_assertion, from_default, is_prohibiting,
  rule_or_default, decide, decide_on, assertion_or, decide_unprohibited,
}

-- The list splits at its first element that passes the test.
abbrev pub IsFirst : {A : Type 0} → (A → Bool) → List A → A → Type 0
IsFirst {A} p xs a =
    (before : List A) × (after : List A) × (xs ≡ before ++ a ∷ after)
    × All (λ x. p x ≡ false) before
    × (p a ≡ true)

first-IsFirst :
    {A : Type 0} (p : A → Bool) (xs : List A) (a : A) → first p xs ≡ some a → IsFirst p xs a
first-IsFirst p [] a h = cc
first-IsFirst p (x ∷ xs) a h = elim (Bool-cases (p x)) [
  | inl e ↦ ([], xs, ground arith, tt, ground arith)
  | inr e ↦
      let (before, after, split, no_earlier, here) = first-IsFirst p xs a (ground arith) in
      (x ∷ before, after, ap (λ l. x ∷ l) split, (e, no_earlier), here)
]

In-of_first :
    {A : Type 0} (p : A → Bool) (xs : List A) (a : A) → first p xs ≡ some a → In a xs × (p a ≡ true)
In-of_first p [] a h = cc
In-of_first p (x ∷ xs) a h = ground (arith, In-of_first p xs a)

first-none :
    {A : Type 0} (p : A → Bool) (xs : List A) → first p xs ≡ none → All (λ x. p x ≡ false) xs
first-none p [] h = tt
first-none p (x ∷ xs) h = (ground arith, first-none p xs (ground arith))

module _ (pf : Platform) (fl : Floats) (p : PolicyDocument fl.Float) (now : Option ℕ)
    (d : PrivacyDetection fl.Float) (x : PolicyContext fl.Float) where
  abbrev applies : PolicyRule fl.Float → Bool
  applies r = matches_conditions pf fl r.conditions d x

  decide_of_rule :
      (value : Option Text) (r : Option (PolicyRule fl.Float))
      → matching_rule pf fl p d x ≡ r
      → decide pf fl p now d x value ≡ decide_on pf fl p now d x value r
  unfolding decide
  decide_of_rule value r h = rw h

  first-split :
      (q : PolicyRule fl.Float → Bool) (before after : List (PolicyRule fl.Float))
      (r : PolicyRule fl.Float)
      → All (λ k. q k ≡ false) before
      → q r ≡ true
      → first q (before ++ r ∷ after) ≡ some r
  first-split q [] after r earlier here = ground arith
  first-split q (k ∷ before) after r earlier here =
      ground (arith, first-split q before after r earlier.1 here)

  -- A prohibition that is the first rule to match is the decision, whatever value, assertions and
  -- clock say.
  pub decide_prohibited :
      (value : Option Text) (r : PolicyRule fl.Float) (before after : List (PolicyRule fl.Float))
      → p.rules ≡ before ++ r ∷ after
      → All (λ q. applies q ≡ false) before
      → applies r ≡ true
      → is_prohibiting pf fl r.action ≡ true
      → decide pf fl p now d x value ≡ ok (from_rule pf fl p r)
  decide_prohibited value r before after split earlier here deny =
      decide_of_rule value (some r)
        (found (rw split (first-split applies before after r earlier here)))
      ∙ rw deny
    where
      found : first applies p.rules ≡ some r → matching_rule pf fl p d x ≡ some r
      found h = unfold matching_rule in h

  -- An assertion that is in force now, for this value, type and context.
  pub record InForce (value : Option Text) (a : PublicDataAssertion) : Type 0 where
    pub instant : ℕ
    pub text : Text
    pub given : value ≡ some text
    pub clock : now ≡ some instant
    pub listed : In a p.public_data_assertions
    pub unexpired : instant < a.expires_at
    pub same_type : a.entity_type ≡ pf.unicode.upper d.entity_type
    pub same_value : a.value_sha256 ≡ hash_public_value pf fl d.entity_type text
    pub in_scope : matches_assertion_scope pf fl a.scope x ≡ true

  -- No assertion counts: there is no value to look up, or none of them applies.
  abbrev pub NoneApplies : Option Text → Type 0
  NoneApplies none = Unit
  NoneApplies (some v) =
      (t : ℕ) × (now ≡ some t)
      × All (λ a. assertion_applies pf fl t (hash_public_value pf fl d.entity_type v) d x a ≡ false)
          p.public_data_assertions

  -- The first matching rule does not prohibit.
  abbrev pub Permits : Option (PolicyRule fl.Float) → Type 0
  Permits none = Unit
  Permits (some r) = is_prohibiting pf fl r.action ≡ false

  pub data DecidedBy (value : Option Text) (out : PolicyDecision) : Type 0 where
    by_rule :
        (r : PolicyRule fl.Float)
        → IsFirst applies p.rules r
        → (is_prohibiting pf fl r.action ≡ true) ⊎ NoneApplies value
        → out ≡ from_rule pf fl p r
        → DecidedBy value out
    by_assertion :
        (a : PublicDataAssertion)
        → InForce value a
        → Permits (matching_rule pf fl p d x)
        → out ≡ from_assertion pf fl p a
        → DecidedBy value out
    by_default :
        All (λ q. applies q ≡ false) p.rules
        → NoneApplies value
        → out ≡ from_default pf fl p
        → DecidedBy value out

  fallback :
      (value : Option Text) (out : PolicyDecision) (rule : Option (PolicyRule fl.Float))
      → matching_rule pf fl p d x ≡ rule
      → NoneApplies value
      → rule_or_default pf fl p rule ≡ out
      → DecidedBy value out
  unfolding matching_rule
  fallback value out none m idle e = by_default (first-none applies p.rules m) idle (sym e)
  fallback value out (some r) m idle e =
      by_rule r (first-IsFirst applies p.rules r m) (inr idle) (sym e)

  in_force :
      (v : Text) (t : ℕ) (a : PublicDataAssertion)
      → now ≡ some t
      → In a p.public_data_assertions
      → assertion_applies pf fl t (hash_public_value pf fl d.entity_type v) d x a ≡ true
      → InForce (some v) a
  unfolding assertion_applies
  in_force v t a clock listed applies = record {
    instant = t;
    text = v;
    given = refl;
    clock = clock;
    listed = listed;
    unexpired = ground arith;
    same_type = ground (arith, list_beq_iff a.entity_type (pf.unicode.upper d.entity_type));
    same_value =
        ground (arith, list_beq_iff a.value_sha256 (hash_public_value pf fl d.entity_type v));
    in_scope = ground arith;
  }

  naive_clock :
      (v : Text) (out : PolicyDecision) (rule : Option (PolicyRule fl.Float))
      → now ≡ none
      → decide_unprohibited pf fl p now d x (some v) rule ≢ ok out
  unfolding public_assertion
  naive_clock v out rule naive e = ground arith

  aware_clock :
      (v : Text) (t : ℕ) (out : PolicyDecision) (rule : Option (PolicyRule fl.Float))
      → now ≡ some t
      → decide_unprohibited pf fl p now d x (some v) rule ≡ ok out
      → assertion_or pf fl p rule (
          ok (
            first
              (assertion_applies pf fl t (hash_public_value pf fl d.entity_type v) d x)
              p.public_data_assertions))
        ≡ ok out
  unfolding public_assertion
  aware_clock v t out rule clock e = ground arith

  asserted :
      (v : Text) (t : ℕ) (out : PolicyDecision) (rule : Option (PolicyRule fl.Float))
      (o : Option PublicDataAssertion)
      → now ≡ some t
      → matching_rule pf fl p d x ≡ rule
      → Permits rule
      → first
          (assertion_applies pf fl t (hash_public_value pf fl d.entity_type v) d x)
          p.public_data_assertions
        ≡ o
      → assertion_or pf fl p rule (ok o) ≡ ok out
      → DecidedBy (some v) out
  asserted v t out rule none clock m permits f e =
      fallback (some v) out rule m (t, clock, first-none _ p.public_data_assertions f)
        (ground arith)
  asserted v t out rule (some a) clock m permits f e =
      let (listed, applies) = In-of_first _ p.public_data_assertions a f in
      by_assertion a (in_force v t a clock listed applies) (rw m permits) (ground arith)

  unprohibited :
      (value : Option Text) (out : PolicyDecision) (rule : Option (PolicyRule fl.Float))
      → matching_rule pf fl p d x ≡ rule
      → Permits rule
      → decide_unprohibited pf fl p now d x value rule ≡ ok out
      → DecidedBy value out
  unprohibited none out rule m permits e = fallback none out rule m tt (ground arith)
  unprohibited (some v) out rule m permits e = elim (Option-cases now) [
    | inl naive ↦ absurd (naive_clock v out rule naive e)
    | inr (t, clock) ↦
        asserted v t out rule
          (first (assertion_applies pf fl t (hash_public_value pf fl d.entity_type v) d x)
            p.public_data_assertions)
          clock m permits refl (aware_clock v t out rule clock e)
  ]

  decided_on :
      (value : Option Text) (out : PolicyDecision) (rule : Option (PolicyRule fl.Float))
      → matching_rule pf fl p d x ≡ rule
      → decide_on pf fl p now d x value rule ≡ ok out
      → DecidedBy value out
  decided_on value out none m e = unprohibited value out none m tt e
  decided_on value out (some r) m e = elim (Bool-cases (is_prohibiting pf fl r.action)) [
    | inl deny ↦
        by_rule r (first-IsFirst applies p.rules r (unfold matching_rule in m)) (inl deny)
          (ground arith)
    | inr permit ↦ unprohibited value out (some r) m permit (rw permit at e)
  ]

  -- Every decision has one of three sources: the first matching rule, which then prohibits, or no
  -- assertion counts; an unexpired assertion for this value, type and context, and then the first
  -- matching rule does not prohibit; or the default, when no rule matches and no assertion counts.
  pub decide_sources :
      (value : Option Text) (out : PolicyDecision)
      → decide pf fl p now d x value ≡ ok out
      → DecidedBy value out
  decide_sources value out h =
      decided_on value out (matching_rule pf fl p d x) refl
        (sym (decide_of_rule value (matching_rule pf fl p d x) refl) ∙ h)
