-- ===== src/Unicode.antt =====
-- The Unicode tables behind Python's `str` methods, which no source of the program defines: each
-- definition that uses them takes them as an argument.
use maskgate.Base.{ℕ, Bool, List, [], ◌∷◌, ◌++◌, reverse, Text, if◌then◌else◌}

pub record Unicode : Type 0 where
  -- `str.upper`, `str.casefold`, `str.title`
  pub upper : Text → Text
  pub casefold : Text → Text
  pub title : Text → Text
  -- `str.isspace`, the regular expression `\d`, `unicodedata.combining(c) != 0` on one character
  pub is_space : ℕ → Bool
  pub is_decimal : ℕ → Bool
  pub is_combining : ℕ → Bool
  -- `unicodedata.normalize("NFKC", s)`
  pub nfkc : Text → Text

module _ (u : Unicode) where
  -- `s.lstrip()`
  unfoldable pub lstrip : Text → Text
  lstrip [] = []
  lstrip (c ∷ s) = let rest = lstrip s in if u.is_space c then rest else c ∷ s

  -- `s.strip()`
  unfoldable pub strip : Text → Text
  unfolding lstrip
  strip s = reverse (lstrip (reverse (lstrip s)))

  -- `s.split()` from inside a word that has been read as far as `word`, in reverse.
  unfoldable pub split_from : Text → Text → List Text
  split_from [] [] = []
  split_from word [] = reverse word ∷ []
  split_from [] (c ∷ s) = split_from (if u.is_space c then [] else c ∷ []) s
  split_from (w ∷ ws) (c ∷ s) =
      let more = split_from [] s in
      let longer = split_from (c ∷ w ∷ ws) s in
      if u.is_space c then reverse (w ∷ ws) ∷ more else longer

  -- `" ".join(words)`
  unfoldable pub join_space : List Text → Text
  join_space [] = []
  join_space (w ∷ []) = w
  join_space (w ∷ x ∷ ws) = w ++ 32 ∷ join_space (x ∷ ws)

  -- `" ".join(s.split()).casefold()`
  unfoldable pub fold_words : Text → Text
  unfolding split_from join_space
  fold_words s = u.casefold (join_space (split_from [] s))
