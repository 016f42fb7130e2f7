-- ===== src/PolicyV2/Glob.antt =====
-- `fnmatch.fnmatchcase`, with which app/privacy/policy/engine.py compares JSON paths.
use maskgate.Base.{
  Bool, Option, Text, [], codes, false, if◌then◌else◌, leb, length, list_eq, nat_eq, none, not,
  refl, some, suc, true, zero, ℕ, ◌&&◌, ◌==◌, ◌||◌, ◌∷◌, ◌≡◌,
}

-- Whether the character is of the set that the text between the brackets describes.
unfoldable pub in_set : ℕ → Text → Bool
in_set c [] = false
in_set c (a ∷ []) = a == c
in_set c (a ∷ b ∷ []) = a == c || b == c
in_set c (a ∷ b ∷ d ∷ s) =
    if b == b'-' then (leb a c && leb c d) || in_set c s else a == c || in_set c (b ∷ d ∷ s)

abbrev pub set_test : ℕ → Text → Bool
set_test c [] = false
set_test c (x ∷ s) = if x == b'!' then not (in_set c s) else in_set c (x ∷ s)

-- The text up to the closing bracket and what follows it.
unfoldable pub up_to_bracket : Text → Option (Text × Text)
up_to_bracket [] = none
up_to_bracket (c ∷ s) =
    let rest = up_to_bracket s in
    if c == b']' then some ([], s) else elim rest [ none ↦ none | some (a, b) ↦ some (c ∷ a, b) ]

-- The set that opens a pattern behind `[`: a first `!` and a first `]` belong to it.
abbrev pub closed_set : Text → Option (Text × Text)
closed_set [] = none
closed_set (x ∷ []) = none
closed_set (x ∷ y ∷ s) =
    if x == b'!'
    then elim (up_to_bracket s) [ none ↦ none | some (a, b) ↦ some (x ∷ y ∷ a, b) ]
    else elim (up_to_bracket (y ∷ s)) [ none ↦ none | some (a, b) ↦ some (x ∷ a, b) ]

-- `*`: some suffix of the text is matched.
unfoldable pub any_suffix : (Text → Bool) → Text → Bool
any_suffix f [] = f []
any_suffix f (c ∷ s) = f (c ∷ s) || any_suffix f s

-- One character that passes the test, and the rest.
unfoldable pub glob_one : (ℕ → Bool) → (Text → Bool) → Text → Bool
glob_one test f [] = false
glob_one test f (c ∷ s) = test c && f s

unfoldable pub glob : ℕ → Text → Text → Bool
unfolding any_suffix in_set up_to_bracket glob_one
glob zero pattern s = false
glob (suc fuel) [] [] = true
glob (suc fuel) [] (c ∷ s) = false
glob (suc fuel) (p ∷ ps) s =
    if p == b'*'
    then any_suffix (glob fuel ps) s
    else if p == b'?'
    then glob_one (λ c. true) (glob fuel ps) s
    else if p == b'['
    then elim (closed_set ps) [
      | none ↦ glob_one (λ c. c == p) (glob fuel ps) s
      | some (set, rest) ↦ glob_one (λ c. set_test c set) (glob fuel rest) s
    ]
    else glob_one (λ c. c == p) (glob fuel ps) s

-- `fnmatchcase(name, pattern)`: each step reads a character of the pattern at least.
unfoldable pub fnmatchcase : Text → Text → Bool
unfolding glob
fnmatchcase name pattern = glob (suc (length pattern)) pattern name

glob_runs :
    (fnmatchcase (codes "messages.0.content") (codes "messages.*.content") ≡ true)
    × (fnmatchcase (codes "a1") (codes "a[!0-9]") ≡ false)
    × (fnmatchcase (codes "metadata") (codes "meta?ata*") ≡ true)
unfolding fnmatchcase
glob_runs = (refl, refl, refl)
