-- ===== src/Pattern.antt =====
-- The regular expressions of the program, as Python's `re` reads them: a pattern maps a text to the
-- rests that its matches leave, the preferred match first.
pub mod Laws
use Prim.Native.String.{String}
use maskgate.Base.{
  ℕ, zero, suc, ◌+◌, ◌-◌, ◌≤◌, Bool, true, false, ◌&&◌, ◌||◌, Option, none, some, List, [], ◌∷◌,
  ◌++◌, if◌then◌else◌, ltb, leb, ◌==◌, nat_eq, length, take, drop, Text, codes,
}

pub data Pattern : Type 0 where
  -- A character of the class.
  one : (ℕ → Bool) → Pattern
  -- `least` repetitions and up to `more` further ones, as many as possible (`none`: no bound).
  repeated : ℕ → Option ℕ → Pattern → Pattern
  followed : Pattern → Pattern → Pattern
  either : Pattern → Pattern → Pattern
  nothing : Pattern

-- Character classes.
abbrev pub between : ℕ → ℕ → ℕ → Bool
between lo hi c = leb lo c && leb c hi

abbrev pub is_upper_letter : ℕ → Bool
is_upper_letter = between b'A' b'Z'

abbrev pub is_lower_letter : ℕ → Bool
is_lower_letter = between b'a' b'z'

abbrev pub is_digit : ℕ → Bool
is_digit = between b'0' b'9'

-- The literal text of a pattern.
unfoldable pub literal : Text → Pattern
literal [] = nothing
literal (c ∷ s) = followed (one (λ x. x == c)) (literal s)

-- The rests after each element of a list of rests.
unfoldable pub after_each : (Text → List Text) → List Text → List Text
after_each f [] = []
after_each f (s ∷ rests) = f s ++ after_each f rests

unfoldable pub one_rests : (ℕ → Bool) → Text → List Text
one_rests f [] = []
one_rests f (c ∷ s) = if f c then s ∷ [] else []

unfoldable pub exact_rests : (Text → List Text) → ℕ → Text → List Text
unfolding after_each
exact_rests step zero s = s ∷ []
exact_rests step (suc n) s = after_each (exact_rests step n) (step s)

unfoldable pub more_rests : (Text → List Text) → ℕ → Text → List Text
unfolding after_each
more_rests step zero s = s ∷ []
more_rests step (suc n) s = after_each (more_rests step n) (step s) ++ s ∷ []

abbrev pub bound : Option ℕ → Text → ℕ
bound none s = length s
bound (some n) s = n

unfoldable pub rests : Pattern → Text → List Text
unfolding one_rests exact_rests more_rests
rests (one f) s = one_rests f s
rests (repeated least more p) s =
    after_each (λ r. more_rests (rests p) (bound more r) r) (exact_rests (rests p) least s)
rests (followed p q) s = after_each (rests q) (rests p s)
rests (either p q) s = rests p s ++ rests q s
rests nothing s = s ∷ []

abbrev pub is_empty : Text → Bool
is_empty [] = true
is_empty _ = false

unfoldable pub any_empty : List Text → Bool
any_empty [] = false
any_empty (r ∷ rs) = is_empty r || any_empty rs

-- `re.fullmatch(p, s)`
unfoldable pub fullmatch : Pattern → Text → Bool
unfolding any_empty rests
fullmatch p s = any_empty (rests p s)

abbrev pub is_some_rest : List Text → Bool
is_some_rest [] = false
is_some_rest _ = true

-- `re.match(p, s)`: at the start of the text.
unfoldable pub match_here : Pattern → Text → Bool
unfolding rests
match_here p s = is_some_rest (rests p s)

-- `re.search(p, s)`
unfoldable pub search_in : Pattern → Text → Bool
unfolding match_here
search_in p [] = match_here p []
search_in p (c ∷ s) = match_here p (c ∷ s) || search_in p s

-- The length of the preferred match, for a pattern that matches no empty text.
abbrev pub match_length : Text → List Text → Option ℕ
match_length s [] = none
match_length s (r ∷ _) = some (length s - length r)

-- `re.findall(p, s)` for such a pattern; `skip` characters belong to the match found last.
unfoldable pub find_from : Pattern → ℕ → Text → List Text
unfolding rests
find_from p skip [] = []
find_from p (suc skip) (c ∷ s) = find_from p skip s
find_from p zero (c ∷ s) =
    let here = match_length (c ∷ s) (rests p (c ∷ s)) in
    let later = find_from p (elim here [ none ↦ 0 | some n ↦ n - 1 ]) s in
    elim here [ none ↦ later | some n ↦ take n (c ∷ s) ∷ later ]

unfoldable pub find_all : Pattern → Text → List Text
unfolding find_from
find_all p s = find_from p 0 s

-- `re.sub(p, "", s)` for a class of single characters.
unfoldable pub remove_class : (ℕ → Bool) → Text → Text
remove_class f [] = []
remove_class f (c ∷ s) = let rest = remove_class f s in if f c then rest else c ∷ rest
