-- ===== src/Pattern/Laws.antt =====
-- Laws of the regular expressions.
use maskgate.Base.{ℕ, Bool, true, some, [], ◌∷◌, ◌++◌, nat_eq, length, Text, All, ◌≡◌, refl, arith}
use mathlib.Core.List.{append-nil}
use maskgate.Pattern.{
  Pattern, one, repeated, followed, literal, after_each, one_rests, exact_rests, rests,
}

-- A class repeated exactly as often as there are characters of the class reads them all.
pub exact_rests-class :
    (f : ℕ → Bool) (s r : Text)
    → All (λ c. f c ≡ true) s
    → exact_rests (one_rests f) (length s) (s ++ r) ≡ r ∷ []
unfolding exact_rests one_rests
exact_rests-class f [] r h = refl
exact_rests-class f (c ∷ s) r h =
    ground (
      arith,
      exact_rests-class f s r h.1,
      append-nil (exact_rests (one_rests f) (length s) (s ++ r)),
    )

pub rests-literal : (w r : Text) → rests (literal w) (w ++ r) ≡ r ∷ []
unfolding rests literal
rests-literal [] r = refl
rests-literal (c ∷ w) r = ground (arith, rests-literal w r, append-nil (rests (literal w) (w ++ r)))

-- A sequence goes on after the only match of its first part.
pub rests-followed :
    (p q : Pattern) (s r : Text) → rests p s ≡ r ∷ [] → rests (followed p q) s ≡ rests q r
unfolding rests after_each
rests-followed p q s r h = ground (arith, append-nil (rests q r))

-- `[class]{n}` on n characters of the class.
pub rests-exact :
    (f : ℕ → Bool) (n : ℕ) (s r : Text)
    → length s ≡ n
    → All (λ c. f c ≡ true) s
    → rests (repeated n (some 0) (one f)) (s ++ r) ≡ r ∷ []
unfolding rests
rests-exact f n s r e h = rw (← e, exact_rests-class f s r h) refl
