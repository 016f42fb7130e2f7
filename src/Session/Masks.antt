-- ===== src/Session/Masks.antt =====
-- app/masking/anonymizer.py: what `mask_text` returns, and what it leaves in the session.
use maskgate.Base.{
  Bool-cases, Exec, List, Option, Text, [], ap, arith, inl, inr, length, none, ok, policy_blocked,
  pure, raise, refl, reserved_token, reverse, some, sym, ℕ, ◌>>=◌, ◌∙◌, ◌∷◌, ◌≡◌, ◌⊎◌,
}
use maskgate.Unicode.{Unicode}
use maskgate.Policies.{PolicyAction, PolicyEngine, action_for_entity}
use maskgate.Pattern.{search_in}
use maskgate.Vault
use maskgate.Vault.{MappingItem, Vault}
use maskgate.Vault.Invariant.{IsValid}
use maskgate.Session.{
  Session, Entity, Edit, edit_of, add_edit, replacement, collect_edits, mask_text, apply_edits,
  reserved_pattern, stored_or, new_replacement,
}
use maskgate.Session.Runs.{
  Grows, Runs, Runs-pure, Runs-raise, Runs-bind, Runs-grown, Holds_ok, IsStored, stored_or-Runs,
  new_replacement-Runs,
}
use maskgate.Session.Splice.{render, IsOrdered, apply_edits_lem}
use maskgate.Session.Actions.{AreOrdered, AreOrdered-earlier}

module _ (u : Unicode) (p : PolicyEngine) where
  abbrev pub action_of : Entity → PolicyAction
  action_of e = action_for_entity u p e.entity_type e.text

  -- No entity is blocked by the policy; the edits are, in order, those of the entities that it does not
  -- allow, each with the replacement that the session's vault holds for the entity's text.
  pub data Masks (s : Session) : List Entity → List Edit → Type 0 where
    masked_all : Masks s [] []
    exempt :
        {es : List Entity} {edits : List Edit} (e : Entity)
        → action_of e ≡ PolicyAction.allow
        → Masks s es edits
        → Masks s (e ∷ es) edits
    replaced :
        {es : List Entity} {edits : List Edit} (e : Entity) (item : MappingItem)
        → (action_of e ≡ PolicyAction.mask) ⊎ (action_of e ≡ PolicyAction.redact)
        → IsStored e item s
        → Masks s es edits
        → Masks s (e ∷ es) (edit_of e item ∷ edits)

  Masks-IsOrdered :
      {s : Session} {es : List Entity} {edits : List Edit} (pos size : ℕ)
      → Masks s es edits
      → AreOrdered pos size es
      → IsOrdered pos size edits
  Masks-IsOrdered pos size masked_all o = o
  Masks-IsOrdered pos size (exempt {es} e h m) (i, j, o) =
      Masks-IsOrdered pos size m (AreOrdered-earlier pos e.stop size es (omega arith) o)
  Masks-IsOrdered pos size (replaced e item h f m) (i, j, o) =
      (i, j, Masks-IsOrdered e.stop size m o)

  module _ (e : Entity) (es : List Entity)
      (ih : (t : Session)
        → t.policy ≡ p
        → Runs (λ edits r. Masks r es edits) t (collect_edits u es t)) where
    -- The rest of the loop, when the entity has been dealt with.
    abbrev rest_of : Option MappingItem → Exec Session (List Edit)
    rest_of item = do edits ← collect_edits u es; pure (add_edit e item edits)

    -- The entity is marked: its item is stored.
    abbrev IsMarked : Session → Option MappingItem → Session → Type 0
    IsMarked s none r = ⊥
    IsMarked s (some i) r = IsStored e i r × Grows s r

    marked_rest :
        (s : Session) (o : Option MappingItem) (t : Session)
        → s.policy ≡ p
        → (action_of e ≡ PolicyAction.mask) ⊎ (action_of e ≡ PolicyAction.redact)
        → IsMarked s o t
        → Runs (λ edits r. Masks r (e ∷ es) edits) t (rest_of o t)
    marked_rest s none t same h k = absurd k
    marked_rest s (some i) t same h (stored, grown) =
        Runs-bind t (collect_edits u es) (λ edits. pure (add_edit e (some i) edits))
          (Runs-grown (ih t (grown.same_policy ∙ same)))
          (λ edits r k.
            Runs-pure r (edit_of e i ∷ edits) (replaced e i h (k.1.kept e.text i stored) k.0))

    replaced_step :
        (a : PolicyAction) (s : Session)
        → s.policy ≡ p
        → (action_of e ≡ PolicyAction.mask) ⊎ (action_of e ≡ PolicyAction.redact)
        → Runs
            (λ edits r. Masks r (e ∷ es) edits)
            s
            (((stored_or e (new_replacement u e a) >>= λ i. pure (some i)) >>= rest_of) s)
    replaced_step a s same h =
        Runs-bind {P = IsMarked s} s (stored_or e (new_replacement u e a) >>= λ i. pure (some i))
          rest_of
          (Runs-bind s (stored_or e (new_replacement u e a)) (λ i. pure (some i))
            (Runs-grown (stored_or-Runs e (new_replacement u e a) s (new_replacement-Runs u e a s)))
            (λ i t k. Runs-pure t (some i) k))
          (λ o t k. marked_rest s o t same h k)

    exempt_step :
        (s : Session)
        → s.policy ≡ p
        → action_of e ≡ PolicyAction.allow
        → Runs (λ edits r. Masks r (e ∷ es) edits) s (rest_of none s)
    exempt_step s same h =
        Runs-bind s (collect_edits u es) (λ edits. pure (add_edit e none edits)) (ih s same)
          (λ edits r k. Runs-pure r edits (exempt e h k))

    -- The turn of the loop, by the policy's action.
    abbrev turn_of : PolicyAction → Exec Session (List Edit)
    turn_of a = do
      item ← elim a [
        | PolicyAction.block ↦ raise (policy_blocked (e.entity_type ∷ []))
        | b ↦ replacement u e b
      ]
      rest_of item

    turn-Runs :
        (a : PolicyAction) (s : Session)
        → s.policy ≡ p
        → action_of e ≡ a
        → Runs (λ edits r. Masks r (e ∷ es) edits) s (turn_of a s)
    unfolding replacement
    turn-Runs PolicyAction.allow s same h = exempt_step s same h
    turn-Runs PolicyAction.block s same h = Runs-raise s (policy_blocked (e.entity_type ∷ []))
    turn-Runs PolicyAction.mask s same h = replaced_step PolicyAction.mask s same (inl h)
    turn-Runs PolicyAction.redact s same h = replaced_step PolicyAction.redact s same (inr h)

  collect_edits-Runs :
      (es : List Entity) (s : Session)
      → s.policy ≡ p
      → Runs (λ edits r. Masks r es edits) s (collect_edits u es s)
  unfolding collect_edits
  collect_edits-Runs [] s same = Runs-pure s [] masked_all
  collect_edits-Runs (e ∷ es) s same =
      turn-Runs e es (collect_edits-Runs es) (action_for_entity u s.policy e.entity_type e.text) s
        same (ap (λ q. action_for_entity u q e.entity_type e.text) (sym same))

  abbrev pub Finished : Text → List Entity → Text → Session → Type 0
  Finished text es out t =
      (edits : List Edit) × Masks t es edits × (out ≡ apply_edits (reverse edits) text)

  mask_text-Runs :
      (text : Text) (es : List Entity) (s : Session)
      → s.policy ≡ p
      → Runs (Finished text es) s (mask_text u text es s)
  unfolding mask_text
  mask_text-Runs text es s same = elim (Bool-cases (search_in (reserved_pattern u) text)) [
    | inl found ↦ rw found (Runs-raise s reserved_token)
    | inr free ↦ rw free (
        Runs-bind s (collect_edits u es) (λ edits. pure (apply_edits (reverse edits) text))
          (collect_edits-Runs es s same)
          (λ edits t k. Runs-pure t (apply_edits (reverse edits) text) (edits, k, refl)))
  ]

-- For entities in order inside the text: whether it returns or raises, mask_text leaves a valid
-- vault valid, and every stored original keeps its item. If it returns, the policy blocks no
-- entity, and the result is the text with exactly the spans of the entities that it does not allow
-- replaced, each by the replacement that the vault now holds for the entity's text.
pub mask_text_lem :
    (u : Unicode) (text : Text) (es : List Entity) (s : Session)
    → AreOrdered 0 (length text) es
    → let (r, t) = mask_text u text es s in
      (IsValid s.vault → IsValid t.vault)
      × ((k : Text) (i : MappingItem)
          → Vault.find_original k s.vault ≡ some i
          → Vault.find_original k t.vault ≡ some i)
      × ((out : Text)
          → r ≡ ok out
          → (edits : List Edit) × Masks u s.policy t es edits × (out ≡ render 0 text edits))
mask_text_lem u text es s o =
    let run = mask_text-Runs u s.policy text es s refl in
    let (r, t) = mask_text u text es s in
    (
      run.grows.valid,
      run.grows.kept,
      λ out e.
          let (edits, m, shape) = Holds_ok (Finished u s.policy text es) t out e run.holds in
          (
            edits,
            m,
            shape ∙ apply_edits_lem text edits (Masks-IsOrdered u s.policy 0 (length text) m o),
          ),
    )
