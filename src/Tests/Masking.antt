-- ===== src/Tests/Masking.antt =====
-- Runs of a masking session, and its theorems at one of them.
use maskgate.Base.{
  In, List, Text, [], arith, codes, decimal, dedupe, err, false, get, list_beq, list_eq, nat_eq,
  none, ok, option_eq, pair_eq, policy_blocked, put, refl, reverse, some, true, utf8_size, ℕ, ◌∷◌,
  ◌≡◌, ◌≢◌,
}
use maskgate.Pattern.{fullmatch, search_in, rests, match_here}
use maskgate.Privacy.{PrivacyAction}
use maskgate.Vault
use maskgate.Vault.{MappingItem, Vault}
use maskgate.Vault.Invariant.{IsValid}
use maskgate.Session.{
  Session, Mode, Entity, Edit, opaque_token, opaque_pattern, fresh_token, mask_text_with_actions,
  apply_edits, apply_edit, collect_actions, transform_entity, is_blocking, is_allow, stored_or,
  new_replacement, replacement_in, next_placeholder, placeholder_in, number_token, add_item,
  finish_masking,
}
use maskgate.Session.Tokens.{opaque_token_lem, fresh_token_lem}
use maskgate.Session.Splice.{render, apply_edits_lem}
use maskgate.Session.Actions.{Placed, refused, mask_text_with_actions_lem}
use maskgate.Tests.Samples.{ascii, fresh_vault, plain_policy}

abbrev session : Session
session = record {
  mode = Mode.semantic_placeholder;
  policy = plain_policy;
  token_namespace = codes "abcd";
  surrogates = [];
  vault = fresh_vault;
  placeholder_counters = [];
  draws = [];
}

abbrev letter : Text
letter = codes "Ann met Bob"

abbrev people : List Entity
people =
    record { entity_type = codes "PERSON"; text = codes "Ann"; start = 0; stop = 3 }
    ∷ record { entity_type = codes "PERSON"; text = codes "Bob"; start = 8; stop = 11 }
    ∷ []

abbrev actions : List PrivacyAction
actions = PrivacyAction.tokenize ∷ PrivacyAction.redact ∷ []

mask_runs :
    (mask_text_with_actions ascii letter people actions session).0
    ≡ ok (codes "<MG_abcd_PERSON_1> met [REDACTED_PERSON]")
unfolding mask_text_with_actions collect_actions transform_entity is_blocking is_allow stored_or
    new_replacement replacement_in next_placeholder placeholder_in number_token add_item
    finish_masking apply_edits apply_edit search_in match_here rests maskgate.Pattern.literal
    Vault.find_original get Vault.add Vault.add_new Vault.conflicts utf8_size Vault.store_item put
    list_beq decimal
mask_runs = refl

block_runs :
    (mask_text_with_actions ascii letter people
      (PrivacyAction.tokenize ∷ PrivacyAction.block ∷ [])
      session).0
    ≡ err (policy_blocked (codes "PERSON" ∷ []))
unfolding mask_text_with_actions collect_actions transform_entity is_blocking is_allow stored_or
    new_replacement replacement_in next_placeholder placeholder_in number_token add_item
    finish_masking apply_edits apply_edit search_in match_here rests maskgate.Pattern.literal
    Vault.find_original get Vault.add Vault.add_new Vault.conflicts utf8_size dedupe
block_runs = refl

mask_text_with_actions_lem_example :
    let (r, t) = mask_text_with_actions ascii letter people actions session in
    (IsValid session.vault → IsValid t.vault)
    × ((k : Text) (i : MappingItem)
        → Vault.find_original k session.vault ≡ some i
        → Vault.find_original k t.vault ≡ some i)
    × ((out : Text)
        → r ≡ ok out
        → (refused people actions ≡ [])
          × ((edits : List Edit) × Placed t people actions edits × (out ≡ render 0 letter edits)))
mask_text_with_actions_lem_example =
    mask_text_with_actions_lem ascii letter people actions session
      (omega arith, omega arith, (omega arith, omega arith, omega arith))

abbrev draw : ℕ
draw = 7

abbrev other_draw : ℕ
other_draw = 8

opaque_token_lem_example :
    (fullmatch opaque_pattern (opaque_token draw) ≡ true)
    × (opaque_token draw ≡ opaque_token other_draw → draw ≡ other_draw)
opaque_token_lem_example = opaque_token_lem draw other_draw (omega arith) (omega arith)

fresh_token_lem_example :
    ((token : Text) (rest : List ℕ)
      → fresh_token fresh_vault (5 ∷ 6 ∷ []) ≡ some (token, rest)
      → ((n : ℕ) × In n (5 ∷ 6 ∷ []) × (token ≡ opaque_token n))
        × (Vault.contains_replacement token fresh_vault ≡ false)
        × (Vault.contains_original token fresh_vault ≡ false))
    × ((n : ℕ)
        → In n (5 ∷ 6 ∷ [])
        → Vault.contains_replacement (opaque_token n) fresh_vault ≡ false
        → Vault.contains_original (opaque_token n) fresh_vault ≡ false
        → fresh_token fresh_vault (5 ∷ 6 ∷ []) ≢ none)
fresh_token_lem_example = fresh_token_lem fresh_vault (5 ∷ 6 ∷ [])

abbrev edits : List Edit
edits = (0, 3, codes "X") ∷ (8, 11, codes "YY") ∷ []

apply_edits_lem_example : apply_edits (reverse edits) letter ≡ render 0 letter edits
apply_edits_lem_example =
    apply_edits_lem letter edits (omega arith, omega arith, (omega arith, omega arith, omega arith))

splice_runs : apply_edits (reverse edits) letter ≡ codes "X met YY"
unfolding apply_edits
splice_runs = refl
