-- ===== src/Session/Edits.antt =====
-- app/masking/anonymizer.py: the loop that puts replacements into a text.
use maskgate.Base.{List, Text, [], drop, take, ℕ, ◌++◌, ◌∷◌}

-- A span of the text and what is put in its place.
abbrev pub Edit : Type 0
Edit = ℕ × ℕ × Text

-- The body of the last loop: `result[:start] + replacement + result[end:]`.
unfoldable pub apply_edit : Edit → Text → Text
apply_edit (start, stop, new) text = take start text ++ new ++ drop stop text

-- The last loop, over the edits as listed; `mask_text` hands them over in reverse.
unfoldable pub apply_edits : List Edit → Text → Text
unfolding apply_edit
apply_edits [] text = text
apply_edits (e ∷ es) text = apply_edits es (apply_edit e text)
