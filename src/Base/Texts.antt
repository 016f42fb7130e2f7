-- ===== src/Base/Texts.antt =====
-- A Python `str` as the list of its code points, with the string operations that the program uses.
use Prim.Native.Char.{code}
use Prim.Native.String.{String}
use Prim.Native.Nat.{ℕ, zero, suc, ◌+◌, ◌-◌, ◌/◌, ◌%◌}
use mathlib.Core.Path.{◌≡◌, refl}
use mathlib.Core.Bool.{Bool, true, false, ◌&&◌, ◌||◌}
use mathlib.Core.List.{List, [], ◌∷◌, ◌++◌}
use native.Mathlib.Omega.{arith}
use maskgate.Base.Tests.{ltb, if◌then◌else◌}
use maskgate.Base.Lists.{length, take, drop}
use maskgate.Base.Equality.{◌==◌, nat_eq, list_eq}

abbrev pub Text : Type 0
Text = List ℕ

-- A literal of the source.
abbrev pub codes : String → Text
codes String.[] = []
codes (String.◌∷◌ c s) = code c ∷ codes s

-- `len(c.encode("utf-8"))` of one code point.
unfoldable pub utf8_width : ℕ → ℕ
utf8_width c = if ltb c 0x80 then 1 else if ltb c 0x800 then 2 else if ltb c 0x10000 then 3 else 4

-- `len(s.encode("utf-8"))`
unfoldable pub utf8_size : Text → ℕ
unfolding utf8_width
utf8_size [] = 0
utf8_size (c ∷ s) = utf8_width c + utf8_size s

-- `s.startswith(p)`
unfoldable pub starts_with : Text → Text → Bool
starts_with [] s = true
starts_with (p ∷ ps) [] = false
starts_with (p ∷ ps) (c ∷ s) = (p == c) && starts_with ps s

-- `p in s`
unfoldable pub is_substring : Text → Text → Bool
unfolding starts_with
is_substring p [] = starts_with p []
is_substring p (c ∷ s) = starts_with p (c ∷ s) || is_substring p s

-- `s.replace(old, new)` for a non-empty `old`: occurrences from the left, none overlapping. `skip`
-- counts the characters of an occurrence that are still to be passed over.
unfoldable pub replace_from : Text → Text → ℕ → Text → Text
unfolding starts_with
replace_from old new skip [] = []
replace_from old new (suc skip) (c ∷ s) = replace_from old new skip s
replace_from old new zero (c ∷ s) =
    let hit = starts_with old (c ∷ s) in
    let rest = replace_from old new (if hit then length old - 1 else 0) s in
    if hit then new ++ rest else c ∷ rest

-- `s.replace("", new)`: `new` before each character and at the end.
unfoldable pub interleave : Text → Text → Text
interleave new [] = new
interleave new (c ∷ s) = new ++ c ∷ interleave new s

-- `s.replace(old, new)`
unfoldable pub replace : Text → Text → Text → Text
unfolding replace_from interleave
replace [] new s = interleave new s
replace (o ∷ os) new s = replace_from (o ∷ os) new 0 s

-- `s[start:end]` for 0 <= start
unfoldable pub slice : Text → ℕ → ℕ → Text
slice s start end = take (end - start) (drop start s)

-- Decimal digits of a number below `10 ^ fuel`, most significant first, before `acc`.
unfoldable pub digits_onto : ℕ → ℕ → Text → Text
digits_onto zero n acc = acc
digits_onto (suc fuel) n acc =
    let rest = digits_onto fuel (n / 10) ((48 + n % 10) ∷ acc) in
    if ltb n 10 then (48 + n) ∷ acc else rest

-- `str(n)`
unfoldable pub decimal : ℕ → Text
unfolding digits_onto
decimal n = digits_onto (suc n) n []

-- A text that does not occur is not replaced.
pub replace_from_absent :
    (old new s : Text) → is_substring old s ≡ false → replace_from old new 0 s ≡ s
unfolding is_substring replace_from
replace_from_absent old new [] h = refl
replace_from_absent old new (c ∷ s) h = ground (arith, replace_from_absent old new s)

-- `s <= t` on strings: by code points, a prefix first.
unfoldable pub text_le : Text → Text → Bool
text_le [] t = true
text_le (c ∷ s) [] = false
text_le (c ∷ s) (d ∷ t) = let rest = text_le s t in if c == d then rest else ltb c d
