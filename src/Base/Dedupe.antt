-- ===== src/Base/Dedupe.antt =====
-- `list(dict.fromkeys(xs))`: the first occurrence of each value, in order.
use mathlib.Core.Path.{◌≡◌}
use mathlib.Core.Logic.{◌↔◌}
use mathlib.Core.Bool.{true, false}
use mathlib.Core.List.{List, [], ◌∷◌}
use native.Mathlib.Omega.{arith}
use maskgate.Base.Tests.{if◌then◌else◌}
use maskgate.Base.Lists.{In}
use maskgate.Base.Equality.{Eq, contains}

module _ {A : Type 0} ⦃e : Eq A⦄ where
  unfoldable pub dedupe_from : List A → List A → List A
  unfolding contains
  dedupe_from seen [] = []
  dedupe_from seen (x ∷ xs) =
      let rest = dedupe_from (if contains x seen then seen else x ∷ seen) xs in
      if contains x seen then rest else x ∷ rest

  unfoldable pub dedupe : List A → List A
  unfolding dedupe_from
  dedupe xs = dedupe_from [] xs

  pub contains_iff : (a : A) (xs : List A) → (contains a xs ≡ true) ↔ In a xs
  unfolding contains
  contains_iff a [] = (λ h. ground arith, λ m. elim m [ ])
  contains_iff a (x ∷ xs) = ground (arith, contains_iff a xs, e.equals_iff x a)

  -- No value is listed twice.
  abbrev pub IsNodup : List A → Type 0
  IsNodup [] = Unit
  IsNodup (x ∷ xs) = (contains x xs ≡ false) × IsNodup xs

  contains-dedupe_from :
      (a : A) (xs seen : List A)
      → contains a (dedupe_from seen xs) ≡ (if contains a seen then false else contains a xs)
  unfolding dedupe_from
  contains-dedupe_from a [] seen = ground arith
  contains-dedupe_from a (x ∷ xs) seen = ground (
    arith,
    contains-dedupe_from a xs seen,
    contains-dedupe_from a xs (x ∷ seen),
    e.equals_iff x a,
  )

  dedupe_from-IsNodup : (xs seen : List A) → IsNodup (dedupe_from seen xs)
  unfolding dedupe_from
  dedupe_from-IsNodup [] seen = tt
  dedupe_from-IsNodup (x ∷ xs) seen = ground (
    arith,
    dedupe_from-IsNodup xs seen,
    dedupe_from-IsNodup xs (x ∷ seen),
    contains-dedupe_from x xs (x ∷ seen),
    e.equals_iff x x,
  )

  -- The result has the same members, none twice.
  pub dedupe_lem :
      (xs : List A) → IsNodup (dedupe xs) × ((a : A) → contains a (dedupe xs) ≡ contains a xs)
  unfolding dedupe
  dedupe_lem xs = (dedupe_from-IsNodup xs [], λ a. contains-dedupe_from a xs [])
