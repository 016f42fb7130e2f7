-- ===== src/Session/Actions.antt =====
-- app/masking/anonymizer.py: `mask_text_with_actions` as a whole, on every outcome.
use maskgate.Base.{
  Bool-cases, List, Text, [], arith, false, if◌then◌else◌, inl, inr, length, list_eq, nat_beq_iff,
  nat_eq, ok, option_eq, pair_eq, pure, refl, reserved_token, reverse, some, sym, true, value_error,
  ℕ, ◌==◌, ◌>>=◌, ◌||◌, ◌∙◌, ◌∷◌, ◌≡◌, ◌≤◌,
}
use maskgate.Unicode.{Unicode}
use maskgate.Policies.{PolicyAction}
use maskgate.Privacy.{PrivacyAction}
use maskgate.Pattern.{search_in}
use maskgate.Vault
use maskgate.Vault.{MappingItem, Vault}
use maskgate.Vault.Invariant.{IsValid}
use maskgate.Session.{
  Session, Entity, Edit, edit_of, is_blocking, is_allow, transform_entity, collect_actions,
  mask_text_with_actions, apply_edits, redaction, reserved_pattern, finish_masking,
}
use maskgate.Session.Runs.{
  Grows, Runs, Runs-pure, Runs-raise, Runs-bind, Runs-weaken, Runs-grown, Holds_ok, IsStored,
  stored_or-Runs, add_item-Runs, surrogate_item-Runs, new_replacement-Runs,
}
use maskgate.Session.Splice.{render, IsOrdered, apply_edits_lem}

-- The edits are, in order, those of the entities that are neither allowed nor blocked, each with the
-- replacement that the session's vault holds for the entity's text.
pub data Placed (s : Session) : List Entity → List PrivacyAction → List Edit → Type 0 where
  finished : Placed s [] [] []
  passed :
      {es : List Entity} {as' : List PrivacyAction} {edits : List Edit} (e : Entity)
      (a : PrivacyAction)
      → is_blocking a || is_allow a ≡ true
      → Placed s es as' edits
      → Placed s (e ∷ es) (a ∷ as') edits
  marked :
      {es : List Entity} {as' : List PrivacyAction} {edits : List Edit} (e : Entity)
      (a : PrivacyAction) (item : MappingItem)
      → is_blocking a || is_allow a ≡ false
      → IsStored e item s
      → Placed s es as' edits
      → Placed s (e ∷ es) (a ∷ as') (edit_of e item ∷ edits)

Placed-Grows :
    {s t : Session} {es : List Entity} {actions : List PrivacyAction} {edits : List Edit}
    → Grows s t
    → Placed s es actions edits
    → Placed t es actions edits
Placed-Grows g finished = finished
Placed-Grows g (passed e a h p) = passed e a h (Placed-Grows g p)
Placed-Grows g (marked e a item h f p) = marked e a item h (g.kept e.text item f) (Placed-Grows g p)

-- The types of the entities whose action refuses the text.
abbrev pub refused : List Entity → List PrivacyAction → List Text
refused (e ∷ es) (a ∷ actions) =
    if is_blocking a then e.entity_type ∷ refused es actions else refused es actions
refused _ _ = []

abbrev Collected : List Entity → List PrivacyAction → List Edit × List Text → Session → Type 0
Collected es actions (edits, blocked) t = Placed t es actions edits × (blocked ≡ refused es actions)

module _ (u : Unicode) where
  transform_entity-Runs :
      (e : Entity) (a : PrivacyAction) (s : Session)
      → Runs (IsStored e) s (transform_entity u e a s)
  unfolding transform_entity
  transform_entity-Runs e PrivacyAction.redact s =
      stored_or-Runs e _ s (add_item-Runs e (redaction e.entity_type) false s)
  transform_entity-Runs e PrivacyAction.surrogate s =
      stored_or-Runs e _ s (surrogate_item-Runs u e s)
  transform_entity-Runs e _ s =
      stored_or-Runs e _ s (stored_or-Runs e _ s (new_replacement-Runs u e PolicyAction.mask s))

  module _ (e : Entity) (a : PrivacyAction) (es : List Entity) (actions : List PrivacyAction)
      (s : Session) where
    blocked_step :
        is_blocking a ≡ true
        → Runs (Collected es actions) s (collect_actions u es actions s)
        → Runs (Collected (e ∷ es) (a ∷ actions)) s (
            (do
              (edits, blocked) ← collect_actions u es actions
              pure (edits, e.entity_type ∷ blocked))
              s)
    blocked_step b ih =
        Runs-bind s (collect_actions u es actions)
          (λ (edits, blocked). pure (edits, e.entity_type ∷ blocked)) ih
          (λ (edits, blocked) t p.
            Runs-pure t (edits, e.entity_type ∷ blocked)
              (passed e a (ground arith) p.0, ground (arith, p.1)))

    allowed_step :
        is_blocking a ≡ false
        → is_allow a ≡ true
        → Runs (Collected es actions) s (collect_actions u es actions s)
        → Runs (Collected (e ∷ es) (a ∷ actions)) s (collect_actions u es actions s)
    allowed_step nb al ih =
        Runs-weaken (λ (edits, blocked) t p. (passed e a (ground arith) p.0, ground (arith, p.1)))
          ih

    marked_step :
        is_blocking a ≡ false
        → is_allow a ≡ false
        → ((t : Session) → Runs (Collected es actions) t (collect_actions u es actions t))
        → Runs (Collected (e ∷ es) (a ∷ actions)) s (
            (do
              item ← transform_entity u e a
              (edits, blocked) ← collect_actions u es actions
              pure (edit_of e item ∷ edits, blocked))
              s)
    marked_step nb na ih =
        Runs-bind s (transform_entity u e a)
          (λ item. do
            (edits, blocked) ← collect_actions u es actions
            pure (edit_of e item ∷ edits, blocked))
          (transform_entity-Runs e a s)
          (λ item t stored.
            Runs-bind t (collect_actions u es actions)
              (λ (edits, blocked). pure (edit_of e item ∷ edits, blocked)) (Runs-grown (ih t))
              (λ (edits, blocked) r p.
                Runs-pure r (edit_of e item ∷ edits, blocked)
                  (
                    marked e a item (ground arith) (p.1.kept e.text item stored) p.0.0,
                    ground (arith, p.0.1),
                  )))

  collect_actions-Runs :
      (es : List Entity) (actions : List PrivacyAction) (s : Session)
      → length es ≡ length actions
      → Runs (Collected es actions) s (collect_actions u es actions s)
  unfolding collect_actions
  collect_actions-Runs [] [] s h = Runs-pure s ([], []) (finished, refl)
  collect_actions-Runs [] (a ∷ actions) s h = absurd (omega arith)
  collect_actions-Runs (e ∷ es) [] s h = absurd (omega arith)
  collect_actions-Runs (e ∷ es) (a ∷ actions) s h = elim (Bool-cases (is_blocking a)) [
    | inl b ↦
        rw b (blocked_step e a es actions s b (collect_actions-Runs es actions s (omega arith)))
    | inr nb ↦ elim (Bool-cases (is_allow a)) [
      | inl al ↦
          rw (nb, al)
            (allowed_step e a es actions s nb al (collect_actions-Runs es actions s (omega arith)))
      | inr na ↦
          rw (nb, na)
            (marked_step e a es actions s nb na
              (λ t. collect_actions-Runs es actions t (omega arith)))
    ]
  ]

  abbrev Masked : Text → List Entity → List PrivacyAction → Text → Session → Type 0
  Masked text es actions out t =
      (edits : List Edit) × Placed t es actions edits
      × (refused es actions ≡ [])
      × (out ≡ apply_edits (reverse edits) text)

  finish_masking-Runs :
      (text : Text) (es : List Entity) (actions : List PrivacyAction) (edits : List Edit)
      (blocked : List Text) (t : Session)
      → Collected es actions (edits, blocked) t
      → Runs (Masked text es actions) t (finish_masking text edits blocked t)
  unfolding finish_masking
  finish_masking-Runs text es actions edits [] t (p, e) = Runs-pure t _ (edits, p, sym e, refl)
  finish_masking-Runs text es actions edits (b ∷ bs) t (p, e) = Runs-raise t _

  mask_text_with_actions-Runs :
      (text : Text) (es : List Entity) (actions : List PrivacyAction) (s : Session)
      → Runs (Masked text es actions) s (mask_text_with_actions u text es actions s)
  unfolding mask_text_with_actions
  mask_text_with_actions-Runs text es actions s = elim (Bool-cases (length es == length actions)) [
    | inr ne ↦ rw ne (Runs-raise s value_error)
    | inl eq ↦ elim (Bool-cases (search_in (reserved_pattern u) text)) [
      | inl found ↦ rw (eq, found) (Runs-raise s reserved_token)
      | inr free ↦
          rw (eq, free)
            (Runs-bind s (collect_actions u es actions)
              (λ (edits, blocked). finish_masking text edits blocked)
              (collect_actions-Runs es actions s ((nat_beq_iff (length es) (length actions)).0 eq))
              (λ (edits, blocked) t p. finish_masking-Runs text es actions edits blocked t p))
    ]
  ]

-- The entities' spans follow one another from `pos` on, inside a text of `size` characters.
abbrev pub AreOrdered : ℕ → ℕ → List Entity → Type 0
AreOrdered pos size [] = pos ≤ size
AreOrdered pos size (e ∷ es) = (pos ≤ e.start) × (e.start ≤ e.stop) × AreOrdered e.stop size es

pub AreOrdered-earlier :
    (pos later size : ℕ) (es : List Entity)
    → pos ≤ later
    → AreOrdered later size es
    → AreOrdered pos size es
AreOrdered-earlier pos later size [] h o = omega arith
AreOrdered-earlier pos later size (e ∷ es) h (a, b, o) = (omega arith, b, o)

Placed-IsOrdered :
    {s : Session} {es : List Entity} {actions : List PrivacyAction} {edits : List Edit}
    (pos size : ℕ)
    → Placed s es actions edits
    → AreOrdered pos size es
    → IsOrdered pos size edits
Placed-IsOrdered pos size finished o = o
Placed-IsOrdered pos size (passed {es} e a h p) (i, j, o) =
    Placed-IsOrdered pos size p (AreOrdered-earlier pos e.stop size es (omega arith) o)
Placed-IsOrdered pos size (marked e a item h f p) (i, j, o) =
    (i, j, Placed-IsOrdered e.stop size p o)

-- For entities in order inside the text: whether it returns or raises, mask_text_with_actions
-- leaves a valid vault valid, and every stored original keeps its item. If it returns, no entity's
-- action refuses the text, and the result is the text with exactly the spans of the entities that
-- are not allowed replaced, each by the replacement that the vault now holds for the entity's text.
pub mask_text_with_actions_lem :
    (u : Unicode) (text : Text) (es : List Entity) (actions : List PrivacyAction) (s : Session)
    → AreOrdered 0 (length text) es
    → let (r, t) = mask_text_with_actions u text es actions s in
      (IsValid s.vault → IsValid t.vault)
      × ((k : Text) (i : MappingItem)
          → Vault.find_original k s.vault ≡ some i
          → Vault.find_original k t.vault ≡ some i)
      × ((out : Text)
          → r ≡ ok out
          → (refused es actions ≡ [])
            × ((edits : List Edit) × Placed t es actions edits × (out ≡ render 0 text edits)))
mask_text_with_actions_lem u text es actions s o =
    let run = mask_text_with_actions-Runs u text es actions s in
    let (r, t) = mask_text_with_actions u text es actions s in
    (
      run.grows.valid,
      run.grows.kept,
      λ out e.
          let (edits, p, none_refused, shape) =
            Holds_ok (Masked u text es actions) t out e run.holds in
          (
            none_refused,
            (edits, p, shape ∙ apply_edits_lem text edits (Placed-IsOrdered 0 (length text) p o)),
          ),
    )
