-- ===== src/PolicyLoader/Checks.antt =====
-- app/privacy/policy/loader.py: what follows from the tests that a file has passed.
use maskgate.Base.{
  All, Bool, Bool-cases, Eq, IsNodup, List, Result, [], any, arith, contains, err, false,
  if◌then◌else◌, inl, inr, list_eq, nat_eq, ok, option_eq, pair_eq, refl, subst, sym, then_with,
  then_with-ok, true, value_error, ◌==◌, ◌∙◌, ◌∷◌, ◌≡◌,
}
use maskgate.PolicyLoader.Values.{each, require}
use maskgate.PolicyLoader.{ensure_unique}

-- What is returned, if anything is, has the property.
pub record Holds {B : Type 0} (P : B → Type 0) (r : Result B) : Type 0 where
  pub at : (b : B) → r ≡ ok b → P b

pub Holds-ok : {B : Type 0} {P : B → Type 0} (b : B) → P b → Holds P (ok b)
Holds-ok {P = P} b p = record { at = λ c h. let same : b ≡ c = ground (arith, h) in subst P same p }

pub Holds-then :
    {A B : Type 0} {P : B → Type 0} (r : Result A) (f : A → Result B)
    → ((a : A) → r ≡ ok a → Holds P (f a))
    → Holds P (then_with r f)
Holds-then r f k = record { at = λ b h. let (a, e, h1) = then_with-ok r f h in (k a e).at b h1 }

-- `require` in front
pub Holds-require :
    {B : Type 0} {P : B → Type 0} (b : Bool) (f : Unit {0} → Result B)
    → (b ≡ true → Holds P (f tt))
    → Holds P (then_with (require b) f)
Holds-require true f k = k refl
Holds-require false f k = record { at = λ c h. absurd (cc) }

-- What raises unless the test holds.
pub Holds-if :
    {B : Type 0} {P : B → Type 0} (b : Bool) (c : B)
    → (b ≡ true → P c)
    → Holds P (if b then ok c else err value_error)
Holds-if true c k = Holds-ok c (k refl)
Holds-if false c k = record { at = λ d h. absurd (cc) }

pub Holds-each :
    {A B : Type 0} {P : B → Type 0} (f : A → Result B)
    → ((a : A) → Holds P (f a))
    → (xs : List A) → Holds (All P) (each f xs)
unfolding each
Holds-each f k [] = Holds-ok [] tt
Holds-each f k (x ∷ xs) = Holds-then (f x) _ (λ y e.
    Holds-then (each f xs) _
      (λ ys e1. Holds-ok (y ∷ ys) ((k x).at y e, (Holds-each f k xs).at ys e1)))

module _ {A : Type 0} ⦃eq : Eq A⦄ where
  any-contains : (x : A) (seen : List A) → any (λ y. y == x) seen ≡ contains x seen
  unfolding contains
  any-contains x [] = refl
  any-contains x (y ∷ seen) = ground (arith, any-contains x seen)

  fresh-contains :
      (x : A) (seen ys : List A)
      → All (λ y. contains y (x ∷ seen) ≡ false) ys
      → (contains x ys ≡ false) × All (λ y. contains y seen ≡ false) ys
  unfolding contains
  fresh-contains x seen [] h = (refl, tt)
  fresh-contains x seen (y ∷ ys) h =
      let ih = fresh-contains x seen ys h.1 in
      (ground (arith, h.0, ih.0, eq.equals_iff x y, eq.equals_iff y x), (ground (arith, h.0), ih.1))

  -- No value is among the ones before it.
  pub unique-fresh :
      (seen xs : List A) {u : Unit {0}}
      → ensure_unique (λ (a b : A). a == b) seen xs ≡ ok u
      → IsNodup xs × All (λ y. contains y seen ≡ false) xs
  unfolding ensure_unique
  unique-fresh seen [] h = (tt, tt)
  unique-fresh seen (x ∷ xs) h = elim (Bool-cases (any (λ y. y == x) seen)) [
    | inl e ↦ absurd (ground (arith, e, h))
    | inr e ↦
        let ih = unique-fresh (x ∷ seen) xs (ground (arith, e, h)) in
        let (apart, fresh) = fresh-contains x seen xs ih.1 in
        ((apart, ih.0), (sym (any-contains x seen) ∙ e, fresh))
  ]
