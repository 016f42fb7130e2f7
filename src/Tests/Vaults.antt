-- ===== src/Tests/Vaults.antt =====
-- The vault's theorems at a vault with one item.
use maskgate.Base.{
  In, [], any, codes, get, inl, is_substring, list_eq, nat_eq, ok, option_eq, pair_eq, put, refl,
  some, starts_with, true, utf8_size, ◌↔◌, ◌∷◌, ◌≡◌, ◌≤◌,
}
use maskgate.Json.{Json, Items}
use maskgate.Vault.{
  Vault, add, add_new, store_item, conflicts, prune_to_references, strings_items, strings,
  index_onto, is_referenced, total_bytes,
}
use maskgate.Vault.Invariant.{IsValid, IsValid-empty, add-IsValid, vault_bijective}
use maskgate.Vault.Prune.{prune_to_references_lem}
use maskgate.Tests.Samples.{item_ann, fresh_vault, budget}

abbrev one_item : Vault
one_item = record {
  budget = budget;
  items = item_ann ∷ [];
  by_original = (codes "Ann", item_ann) ∷ [];
  by_replacement = (codes "<MG_abcd_PERSON_1>", item_ann) ∷ [];
  sensitive_bytes = 3;
}

add_ann : add item_ann fresh_vault ≡ ok one_item
unfolding add add_new store_item conflicts get utf8_size put
add_ann = refl

one_item-IsValid : IsValid one_item
one_item-IsValid = add-IsValid item_ann fresh_vault (IsValid-empty budget) one_item add_ann

vault_bijective_example :
    (get item_ann.original one_item.by_original ≡ some item_ann)
    × ((item_ann.original ≡ item_ann.original) ↔ (item_ann ≡ item_ann))
    × (get item_ann.replacement one_item.by_replacement ≡ some item_ann)
    × ((item_ann.replacement ≡ item_ann.replacement) ↔ (item_ann ≡ item_ann))
vault_bijective_example =
    vault_bijective item_ann fresh_vault one_item item_ann item_ann item_ann item_ann
      (IsValid-empty budget) add_ann (inl refl) (inl refl) (inl refl) (inl refl)

abbrev message : Items
message = Items.cons (Json.string (codes "to <MG_abcd_PERSON_1>")) Items.nil

prune_to_references_lem_example :
    let pruned = prune_to_references message one_item in
    IsValid pruned
    × (pruned.sensitive_bytes ≤ one_item.sensitive_bytes)
    × (In item_ann pruned.items ↔ (
        In item_ann one_item.items
        × (item_ann.restore ≡ true)
        × (any (is_substring item_ann.replacement) (strings_items message) ≡ true)))
prune_to_references_lem_example = prune_to_references_lem message one_item item_ann one_item-IsValid

prune_runs :
    ((prune_to_references message one_item).items ≡ item_ann ∷ [])
    × ((prune_to_references Items.nil one_item).items ≡ [])
unfolding prune_to_references strings is_referenced index_onto total_bytes is_substring starts_with
prune_runs = (refl, refl)
