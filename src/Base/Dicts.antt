-- ===== src/Base/Dicts.antt =====
-- A Python dict in insertion order: assignment to a present key keeps its place, a new key goes to
-- the end.
use Prim.Native.Nat.{suc, ◌≤◌}
use mathlib.Core.Path.{◌≡◌, refl}
use mathlib.Core.Bool.{Bool, true, false}
use mathlib.Core.List.{List, [], ◌∷◌, ◌++◌}
use mathlib.Core.Option.{Option, none, some}
use native.Mathlib.Omega.{arith}
use mathlib.Core.Path.{sym, subst}
use mathlib.Core.Logic.{inl, inr}
use maskgate.Base.Tests.{if◌then◌else◌, Bool-cases}
use maskgate.Base.Lists.{length, select, All}
use maskgate.Base.Equality.{Eq}

abbrev pub Dict {ℓ} : Type ℓ → Type ℓ → Type ℓ
Dict K V = List (K × V)

module _ {ℓ} {K V : Type ℓ} ⦃e : Eq K⦄ where
  -- `d.get(k)`
  unfoldable pub get : K → Dict K V → Option V
  get k [] = none
  get k ((j, v) ∷ d) = let rest = get k d in if e.equals j k then some v else rest

  -- `k in d`
  unfoldable pub has : K → Dict K V → Bool
  unfolding get
  has k d = elim (get k d) [ none ↦ false | some _ ↦ true ]

  -- `d[k] = v`
  unfoldable pub put : K → V → Dict K V → Dict K V
  put k v [] = (k, v) ∷ []
  put k v ((j, w) ∷ d) = let rest = put k v d in if e.equals j k then (j, v) ∷ d else (j, w) ∷ rest

  -- `d.pop(k, None)`
  unfoldable pub remove : K → Dict K V → Dict K V
  remove k [] = []
  remove k ((j, w) ∷ d) = let rest = remove k d in if e.equals j k then rest else (j, w) ∷ rest

  pub get-put :
      (k j : K) (v : V) (d : Dict K V)
      → get j (put k v d) ≡ (if e.equals k j then some v else get j d)
  unfolding get put
  get-put k j v [] = refl
  get-put k j v ((i, w) ∷ d) =
      ground (arith, e.equals_iff k j, e.equals_iff i k, e.equals_iff i j, get-put k j v d)

  pub get-remove :
      (k j : K) (d : Dict K V) → get j (remove k d) ≡ (if e.equals k j then none else get j d)
  unfolding get remove
  get-remove k j [] = ground arith
  get-remove k j ((i, w) ∷ d) =
      ground (arith, e.equals_iff k j, e.equals_iff i k, e.equals_iff i j, get-remove k j d)

  -- An assignment to a new key appends.
  pub put_new : (k : K) (v : V) (d : Dict K V) → get k d ≡ none → put k v d ≡ d ++ (k, v) ∷ []
  unfolding get put
  put_new k v [] h = refl
  put_new k v ((i, w) ∷ d) h = ground (arith, put_new k v d)

  pub length-put-le : (k : K) (v : V) (d : Dict K V) → length (put k v d) ≤ suc (length d)
  unfolding put
  length-put-le k v [] = omega arith
  length-put-le k v ((i, w) ∷ d) = ground (arith, length-put-le k v d)

  pub length-put_old :
      (k : K) (v w : V) (d : Dict K V) → get k d ≡ some w → length (put k v d) ≡ length d
  unfolding get put
  length-put_old k v w [] h = ground arith
  length-put_old k v w ((i, u) ∷ d) h = ground (arith, length-put_old k v w d)

  pub length-remove-le : (k : K) (d : Dict K V) → length (remove k d) ≤ length d
  unfolding remove
  length-remove-le k [] = omega arith
  length-remove-le k ((i, w) ∷ d) = ground (arith, length-remove-le k d)

  -- No key is listed twice.
  abbrev pub IsDistinct : Dict K V → Type ℓ
  IsDistinct [] = Unit
  IsDistinct ((k, v) ∷ d) = (get k d ≡ none) × IsDistinct d

  pub put-IsDistinct : (k : K) (v : V) (d : Dict K V) → IsDistinct d → IsDistinct (put k v d)
  unfolding get put
  put-IsDistinct k v [] h = (refl, tt)
  put-IsDistinct k v ((i, w) ∷ d) h =
      ground (arith, put-IsDistinct k v d, get-put k i v d, e.equals_iff i k, e.equals_iff k i)

  pub get-select-none :
      (p : K × V → Bool) (k : K) (d : Dict K V) → get k d ≡ none → get k (select p d) ≡ none
  unfolding get
  get-select-none p k [] h = refl
  get-select-none p k ((i, w) ∷ d) h = ground (arith, get-select-none p k d)

  pub select-IsDistinct : (p : K × V → Bool) (d : Dict K V) → IsDistinct d → IsDistinct (select p d)
  unfolding get
  select-IsDistinct p [] h = tt
  select-IsDistinct p ((i, w) ∷ d) h = ground (arith, select-IsDistinct p d, get-select-none p i d)

  -- A lookup after a selection by value.
  pub get-select :
      (p : K × V → Bool) (k : K) (d : Dict K V)
      → IsDistinct d
      → get k (select p d)
        ≡ elim (get k d) [ none ↦ none | some v ↦ if p (k, v) then some v else none ]
  unfolding get
  get-select p k [] h = refl
  get-select p k ((i, w) ∷ d) h =
      ground (arith, get-select p k d, get-select-none p k d, e.equals_iff i k)

  pub remove-IsDistinct : (k : K) (d : Dict K V) → IsDistinct d → IsDistinct (remove k d)
  unfolding get remove
  remove-IsDistinct k [] h = tt
  remove-IsDistinct k ((i, w) ∷ d) h =
      ground (arith, remove-IsDistinct k d, get-remove k i d, e.equals_iff i k, e.equals_iff k i)

-- What holds of every entry.
module _ {A V : Type 0} ⦃e : Eq A⦄ (P : A × V → Type 0) where
  pub All-put : (k : A) (v : V) (d : Dict A V) → P (k, v) → All P d → All P (put k v d)
  unfolding put
  All-put k v [] h a = (h, tt)
  All-put k v ((i, w) ∷ d) h a = elim (Bool-cases (e.equals i k)) [
    | inl q ↦ rw q (subst (λ x. P (x, v)) (sym ((e.equals_iff i k).0 q)) h, a.1)
    | inr q ↦ rw q (a.0, All-put k v d h a.1)
  ]

  pub All-remove : (k : A) (d : Dict A V) → All P d → All P (remove k d)
  unfolding remove
  All-remove k [] a = tt
  All-remove k ((i, w) ∷ d) a = elim (Bool-cases (e.equals i k)) [
    | inl q ↦ rw q (All-remove k d a.1)
    | inr q ↦ rw q (a.0, All-remove k d a.1)
  ]

  pub All-get : (k : A) (v : V) (d : Dict A V) → get k d ≡ some v → All P d → P (k, v)
  unfolding get
  All-get k v [] h a = cc
  All-get k v ((i, w) ∷ d) h a = elim (Bool-cases (e.equals i k)) [
    | inl q ↦ subst (λ x. P x) (ground (arith, e.equals_iff i k)) a.0
    | inr q ↦ All-get k v d (ground arith) a.1
  ]
