-- ===== src/Session.antt =====
-- app/masking/anonymizer.py: one masking session. Its methods change the session and may raise;
-- what they wrote before raising stays written.
mod Syntax
mod Edits
pub mod Tokens
pub mod Splice
pub mod Runs
pub mod Actions
pub mod Masks
use maskgate.Base.{
  Bool, Dict, Exec, List, Option, Result, Text, [], codes, decimal, dedupe, err, false, get, gets,
  if◌then◌else◌, length, list_eq, nat_eq, no_entropy, none, not, ok, option_eq, pair_eq,
  policy_blocked, pure, put, raise, reserved_token, reverse, some, suc, true, value_error, ℕ, ◌&&◌,
  ◌*◌, ◌++◌, ◌==◌, ◌>>=◌, ◌∷◌,
}
unfoldable pub use Syntax.*
unfoldable pub use Edits.*
use maskgate.Json.{Items}
use maskgate.Unicode.{Unicode}
use maskgate.Pattern.{
  Pattern, one, repeated, followed, either, literal, is_upper_letter, is_lower_letter, is_digit,
  between, search_in, fullmatch,
}
use maskgate.Policies.{PolicyAction, PolicyEngine, action_for_entity}
use maskgate.Privacy.{PrivacyAction}
use maskgate.Surrogates.{generate, or_zero}
use maskgate.Vault
use maskgate.Vault.{MappingItem, Vault, VaultBudget, empty_vault}

-- `Entity` of app/masking/detector.py; its confidence and method are not read here.
pub record Entity : Type 0 where
  pub entity_type : Text
  pub text : Text
  pub start : ℕ
  pub stop : ℕ

pub data Mode : Type 0 where
  placeholder semantic_placeholder surrogate redact_mode : Mode

-- `MaskingSession`. `draws` is what `secrets.token_bytes(16)` will return, each as the number that
-- its 16 bytes spell.
pub record Session : Type 0 where
  pub mode : Mode
  pub policy : PolicyEngine
  pub token_namespace : Text
  pub surrogates : Dict Text ℕ
  pub vault : Vault
  pub placeholder_counters : Dict Text ℕ
  pub draws : List ℕ

-- The loop of `_placeholder` in placeholder mode: the first draw whose token is neither an
-- original nor a replacement, and the draws behind it.
unfoldable pub fresh_token : Vault → List ℕ → Option (Text × List ℕ)
fresh_token v [] = none
fresh_token v (n ∷ ns) =
    let later = fresh_token v ns in
    if not (Vault.contains_replacement (opaque_token n) v)
      && not (Vault.contains_original (opaque_token n) v)
    then some (opaque_token n, ns)
    else later

-- `self.vault.add(item)`
unfoldable pub add_item : MappingItem → Exec Session MappingItem
add_item item s = elim (Vault.add item s.vault) [
  | ok v ↦ (ok item, record s { vault = v })
  | err e ↦ (err e, s)
]

-- `f"[REDACTED_{entity.type}]"`
abbrev pub redaction : Text → Text
redaction t = codes "[REDACTED_" ++ t ++ codes "]"

abbrev pub item_of : Entity → Text → Bool → MappingItem
item_of e replacement restore = record {
  entity_type = e.entity_type;
  original = e.text;
  replacement = replacement;
  restore = restore;
}

-- A stored original keeps its item.
unfoldable pub stored_or : Entity → Exec Session MappingItem → Exec Session MappingItem
stored_or e fresh s = elim (Vault.find_original e.text s.vault) [
  | some item ↦ (ok item, s)
  | none ↦ fresh s
]

abbrev pub edit_of : Entity → MappingItem → Edit
edit_of e item = (e.start, e.stop, item.replacement)

abbrev pub add_edit : Entity → Option MappingItem → List Edit → List Edit
add_edit e none edits = edits
add_edit e (some item) edits = edit_of e item ∷ edits

-- BLOCK, REQUIRE_REVIEW, GENERALIZE, HASH
unfoldable pub is_blocking : PrivacyAction → Bool
is_blocking PrivacyAction.block = true
is_blocking PrivacyAction.require_review = true
is_blocking PrivacyAction.generalize = true
is_blocking PrivacyAction.hash = true
is_blocking _ = false

unfoldable pub is_allow : PrivacyAction → Bool
is_allow PrivacyAction.allow = true
is_allow _ = false

-- The draw of `_placeholder` in placeholder mode.
unfoldable pub draw_token : Option (Text × List ℕ) → Exec Session Text
draw_token none s = (err no_entropy, s)
draw_token (some (token, rest)) s = (ok token, record s { draws = rest })

-- `_placeholder` in the other modes: the next number of the entity type.
unfoldable pub number_token : Text → Exec Session Text
number_token t s =
    let count = suc (or_zero (get t s.placeholder_counters)) in
    (
      ok (
          codes "<MG_"
          ++ s.token_namespace
          ++ codes "_"
          ++ t
          ++ codes "_"
          ++ decimal count
          ++ codes ">"),
      record s { placeholder_counters = put t count s.placeholder_counters },
    )

unfoldable pub placeholder_in : Mode → Text → Exec Session Text
placeholder_in Mode.placeholder t s = draw_token (fresh_token s.vault s.draws) s
placeholder_in _ t s = number_token t s

-- `_placeholder`
unfoldable pub next_placeholder : Text → Exec Session Text
next_placeholder t s = placeholder_in s.mode t s

-- The end of `mask_text_with_actions`, behind its loop.
unfoldable pub finish_masking : Text → List Edit → List Text → Exec Session Text
finish_masking text edits (t ∷ ts) = raise (policy_blocked (dedupe (t ∷ ts)))
finish_masking text edits [] = pure (apply_edits (reverse edits) text)

module _ (u : Unicode) where
  -- `self.surrogates.generate(entity.type)`
  unfoldable pub next_surrogate : Text → Exec Session Text
  next_surrogate t s =
      let (value, counters) = generate u t s.surrogates in
      (ok value, record s { surrogates = counters })

  -- The branches of `_replacement` on the mode, for an action that is not REDACT.
  unfoldable pub replacement_in : Mode → Entity → Exec Session MappingItem
  replacement_in Mode.surrogate e = do t ← next_surrogate e.entity_type; add_item (item_of e t true)
  replacement_in Mode.redact_mode e = add_item (item_of e (redaction e.entity_type) false)
  replacement_in _ e = do t ← next_placeholder e.entity_type; add_item (item_of e t true)

  -- `_replacement` for an original that the vault lacks and an action that is not ALLOW.
  unfoldable pub new_replacement : Entity → PolicyAction → Exec Session MappingItem
  new_replacement e PolicyAction.redact = add_item (item_of e (redaction e.entity_type) false)
  new_replacement e _ = do mode ← gets (λ s. s.mode); replacement_in mode e

  -- `_replacement`
  unfoldable pub replacement : Entity → PolicyAction → Exec Session (Option MappingItem)
  replacement e PolicyAction.allow = pure none
  replacement e action = do item ← stored_or e (new_replacement e action); pure (some item)

  -- The first loop of `mask_text`.
  unfoldable pub collect_edits : List Entity → Exec Session (List Edit)
  collect_edits [] = pure []
  collect_edits (e ∷ es) = do
    action ← gets (λ s. action_for_entity u s.policy e.entity_type e.text)
    item ← elim action [
      | PolicyAction.block ↦ raise (policy_blocked (e.entity_type ∷ []))
      | a ↦ replacement e a
    ]
    edits ← collect_edits es
    pure (add_edit e item edits)

  -- `mask_text`
  unfoldable pub mask_text : Text → List Entity → Exec Session Text
  mask_text text entities =
      if search_in (reserved_pattern u) text
      then raise reserved_token
      else do edits ← collect_edits entities; pure (apply_edits (reverse edits) text)

  -- One turn of the loop of `mask_text_with_actions` past its two early `continue`s.
  unfoldable pub transform_entity : Entity → PrivacyAction → Exec Session MappingItem
  transform_entity e PrivacyAction.redact =
      stored_or e (add_item (item_of e (redaction e.entity_type) false))
  transform_entity e PrivacyAction.surrogate =
      stored_or e (do t ← next_surrogate e.entity_type; add_item (item_of e t true))
  transform_entity e _ = stored_or e (stored_or e (new_replacement e PolicyAction.mask))

  -- The loop of `mask_text_with_actions`: the edits and the blocked types. On lists of different
  -- lengths it does not come to run.
  unfoldable pub collect_actions :
      List Entity → List PrivacyAction → Exec Session (List Edit × List Text)
  collect_actions (e ∷ es) (a ∷ actions) =
      if is_blocking a
      then (do (edits, blocked) ← collect_actions es actions; pure (edits, e.entity_type ∷ blocked))
      else if is_allow a
      then collect_actions es actions
      else do
        item ← transform_entity e a
        (edits, blocked) ← collect_actions es actions
        pure (edit_of e item ∷ edits, blocked)
  collect_actions _ _ = pure ([], [])

  -- `mask_text_with_actions`
  unfoldable pub mask_text_with_actions :
      Text → List Entity → List PrivacyAction → Exec Session Text
  mask_text_with_actions text entities actions =
      if not (length entities == length actions)
      then raise value_error
      else if search_in (reserved_pattern u) text
      then raise reserved_token
      else do (edits, blocked) ← collect_actions entities actions; finish_masking text edits blocked

-- `MaskingSession.__init__`: the namespace is checked against `[A-Za-z0-9_-]{4,64}`. The mode is
-- one of the four that the constructor accepts.
unfoldable pub new_session : Mode → PolicyEngine → Text → VaultBudget → List ℕ → Result Session
new_session mode policy namespace budget draws =
    if fullmatch (repeated 4 (some 60) (one is_namespace_char)) namespace
    then ok (record {
      mode = mode;
      policy = policy;
      token_namespace = namespace;
      surrogates = [];
      vault = empty_vault budget;
      placeholder_counters = [];
      draws = draws;
    })
    else err value_error

-- `MaskingSession.prune_to_references`
unfoldable pub prune_session : Items → Session → Session
prune_session values s = record s { vault = Vault.prune_to_references values s.vault }

-- `clone`: the copy shares nothing that either side changes, so it is the same value, with another
-- policy where one is given.
unfoldable pub clone : Option PolicyEngine → Session → Session
clone none s = s
clone (some policy) s = record s { policy = policy }
