-- ===== src/Session/Splice.antt =====
-- app/masking/anonymizer.py: replacing spans from the last to the first puts each replacement where
-- its span stood and leaves the rest of the text alone.
use maskgate.Base.{
  ℕ, zero, suc, ◌-◌, ◌≤◌, List, [], ◌∷◌, ◌++◌, reverse, Text, length, take, drop, take-append-drop,
  length-take, slice, ◌≡◌, refl, arith, ap, sym, ◌∙◌,
}
use mathlib.Core.List.{append_assoc, reverse-append}
use maskgate.Session.{Edit, apply_edit, apply_edits}

-- The text from `pos` on, with each span replaced.
unfoldable pub render : ℕ → Text → List Edit → Text
render pos text [] = drop pos text
render pos text ((start, stop, new) ∷ es) = slice text pos start ++ (new ++ render stop text es)

-- Spans that follow one another from `pos` on, inside a text of `size` characters.
abbrev pub IsOrdered : ℕ → ℕ → List Edit → Type 0
IsOrdered pos size [] = pos ≤ size
IsOrdered pos size ((start, stop, _) ∷ es) = (pos ≤ start) × (start ≤ stop) × IsOrdered stop size es

IsOrdered-le : (pos size : ℕ) (es : List Edit) → IsOrdered pos size es → pos ≤ size
IsOrdered-le pos size [] h = h
IsOrdered-le pos size ((start, stop, _) ∷ es) h = omega (arith, IsOrdered-le stop size es h.2)

-- A text as its first `n` characters and anything behind.
take-append_exact : (n : ℕ) (s r : Text) → n ≤ length s → take n (s ++ r) ≡ take n s
take-append_exact zero s r h = refl
take-append_exact (suc n) [] r h = absurd (omega arith)
take-append_exact (suc n) (c ∷ s) r h = ap (λ l. c ∷ l) (take-append_exact n s r (omega arith))

take-take : (n m : ℕ) (s : Text) → n ≤ m → take n (take m s) ≡ take n s
take-take zero m s h = refl
take-take (suc n) zero s h = absurd (omega arith)
take-take (suc n) (suc m) [] h = refl
take-take (suc n) (suc m) (c ∷ s) h = ap (λ l. c ∷ l) (take-take n m s (omega arith))

drop-append_exact : (n : ℕ) (s r : Text) → n ≤ length s → drop n (take n s ++ r) ≡ r
drop-append_exact zero s r h = refl
drop-append_exact (suc n) [] r h = absurd (omega arith)
drop-append_exact (suc n) (c ∷ s) r h = drop-append_exact n s r (omega arith)

take_nil : (n : ℕ) → take {A = ℕ} n [] ≡ []
take_nil zero = refl
take_nil (suc n) = refl

take-slice : (s : Text) (n m : ℕ) → n ≤ m → take n s ++ slice s n m ≡ take m s
unfolding slice
take-slice s zero m h = ap (λ k. take k s) (omega arith)
take-slice s (suc n) zero h = absurd (omega arith)
take-slice [] (suc n) (suc m) h = take_nil (suc m - suc n)
take-slice (c ∷ s) (suc n) (suc m) h =
    ap (λ l. c ∷ l)
      (ap (λ k. take n s ++ take k (drop n s)) (omega arith) ∙ take-slice s n m (omega arith))

apply_edits-append :
    (es fs : List Edit) (text : Text)
    → apply_edits (es ++ fs) text ≡ apply_edits fs (apply_edits es text)
unfolding apply_edits
apply_edits-append [] fs text = refl
apply_edits-append (e ∷ es) fs text = apply_edits-append es fs (apply_edit e text)

-- One edit in front of a text whose later spans are replaced already.
apply_edit-render :
    (pos start stop : ℕ) (new text tail : Text)
    → pos ≤ start
    → start ≤ stop
    → stop ≤ length text
    → apply_edit (start, stop, new) (take stop text ++ tail)
      ≡ take pos text ++ (slice text pos start ++ (new ++ tail))
unfolding apply_edit
apply_edit-render pos start stop new text tail h k l = rw (
  take-append_exact start (take stop text) tail (omega (arith, length-take stop text)),
  take-take start stop text k,
  drop-append_exact stop text tail l,
  ← take-slice text pos start h,
  append_assoc (take pos text) (slice text pos start) new,
  append_assoc (take pos text) (slice text pos start ++ new) tail,
  append_assoc (slice text pos start) new tail,
)

apply_edits-render_from :
    (pos : ℕ) (text : Text) (es : List Edit)
    → IsOrdered pos (length text) es
    → apply_edits (reverse es) text ≡ take pos text ++ render pos text es
unfolding apply_edits render
apply_edits-render_from pos text [] h = sym (take-append-drop pos text)
apply_edits-render_from pos text ((start, stop, new) ∷ es) h =
    ap (λ l. apply_edits l text) (reverse-append ((start, stop, new) ∷ []) es)
    ∙ apply_edits-append (reverse es) ((start, stop, new) ∷ []) text
    ∙ ap (apply_edit (start, stop, new)) (apply_edits-render_from stop text es h.2)
    ∙ apply_edit-render pos start stop new text (render stop text es) h.0 h.1
        (IsOrdered-le stop (length text) es h.2)

-- With spans in order and inside the text, replacing them from the last to the first is the text
-- with each span replaced and every other character unchanged.
pub apply_edits_lem :
    (text : Text) (es : List Edit)
    → IsOrdered 0 (length text) es
    → apply_edits (reverse es) text ≡ render 0 text es
apply_edits_lem text es h = apply_edits-render_from 0 text es h
