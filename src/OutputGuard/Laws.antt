-- ===== src/OutputGuard/Laws.antt =====
-- app/privacy/output_guard.py: what `_redact_detected` returns.
use maskgate.Base.{
  Bool-cases, In, List, Text, [], arith, codes, contains, contains_iff, false, inl, inr, length,
  list_eq, nat_eq, option_eq, pair_eq, ℕ, ◌++◌, ◌∷◌, ◌≡◌,
}
use maskgate.Session.{Entity, Edit}
use maskgate.Session.Splice.{render, IsOrdered, apply_edits_lem}
use maskgate.Session.Actions.{AreOrdered, AreOrdered-earlier}
use maskgate.OutputGuard.{is_safe_literal, redactions, redact_detected}

-- The edits that belong to entities: none to an approved one, and to any other the one that puts
-- the name of its type in its span.
pub data Redacts (approved : List Text) : List Entity → List Edit → Type 0 where
  finished : Redacts approved [] []
  kept :
      {es : List Entity} {edits : List Edit} (e : Entity)
      → In e.text approved
      → Redacts approved es edits
      → Redacts approved (e ∷ es) edits
  redacted :
      {es : List Entity} {edits : List Edit} (e : Entity)
      → (In e.text approved → ⊥)
      → Redacts approved es edits
      → Redacts approved
          (e ∷ es)
          ((e.start, e.stop, codes "[REDACTED_PROVIDER_" ++ e.entity_type ++ codes "]") ∷ edits)

redactions-Redacts :
    (approved : List Text) (es : List Entity) → Redacts approved es (redactions approved es)
unfolding redactions
redactions-Redacts approved [] = finished
redactions-Redacts approved (e ∷ es) = elim (Bool-cases (contains e.text approved)) [
  | inl h ↦ rw h (kept e ((contains_iff e.text approved).0 h) (redactions-Redacts approved es))
  | inr h ↦ rw h (
      redacted e (λ m. let here = (contains_iff e.text approved).1 m in ground (arith, h, here))
        (redactions-Redacts approved es))
]

Redacts-IsOrdered :
    (approved : List Text) (pos size : ℕ) {es : List Entity} {edits : List Edit}
    → Redacts approved es edits
    → AreOrdered pos size es
    → IsOrdered pos size edits
Redacts-IsOrdered approved pos size finished o = o
Redacts-IsOrdered approved pos size (kept {es} e m r) (i, j, o) =
    Redacts-IsOrdered approved pos size r (AreOrdered-earlier pos e.stop size es (omega arith) o)
Redacts-IsOrdered approved pos size (redacted e m r) (i, j, o) =
    (i, j, Redacts-IsOrdered approved e.stop size r o)

-- For entities in order inside the text, and a text that is no protocol literal, the result is the
-- text with the spans of the entities replaced whose text is not approved, each by the name of its
-- type, and with no other change.
pub redact_detected_lem :
    (detect : Text → List Entity) (approved : List Text) (text : Text)
    → AreOrdered 0 (length text) (detect text)
    → is_safe_literal text ≡ false
    → (edits : List Edit) × Redacts approved (detect text) edits
      × (redact_detected detect approved text ≡ render 0 text edits)
unfolding redact_detected
redact_detected_lem detect approved text o h =
    let edits = redactions approved (detect text) in
    let r = redactions-Redacts approved (detect text) in
    (edits, r, rw h (apply_edits_lem text edits (Redacts-IsOrdered approved 0 (length text) r o)))
