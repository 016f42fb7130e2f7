-- ===== src/Vault/Lookup.antt =====
-- app/privacy/vault.py: what is found in the vault after `add`.
use maskgate.Base.{
  true, none, some, if◌then◌else◌, Text, ◌==◌, nat_eq, list_eq, ◌≡◌, arith, Option-cases, inl, inr,
  get-put, eq_self, eq_iff, ok, list_beq_iff,
}
use maskgate.Vault.{MappingItem, Vault, add, add_new, store_item, find_original, item_beq}

item_beq-eq : (a b : MappingItem) → item_beq a b ≡ true → a ≡ b
item_beq-eq a b h = ground (
  arith,
  list_beq_iff a.entity_type b.entity_type,
  list_beq_iff a.original b.original,
  list_beq_iff a.replacement b.replacement,
)

store_item-find :
    (item : MappingItem) (v : Vault) (k : Text)
    → find_original k (store_item item v)
      ≡ (if item.original == k then some item else find_original k v)
unfolding find_original store_item
store_item-find item v k = get-put item.original k item v.by_original

-- After add the item is found, and every original that was found before still is, with its item.
pub add-find :
    (item : MappingItem) (v v' : Vault)
    → add item v ≡ ok v'
    → (find_original item.original v' ≡ some item)
      × ((k : Text) (i : MappingItem) → find_original k v ≡ some i → find_original k v' ≡ some i)
add-find item v v' h = elim (Option-cases (find_original item.original v)) [
  | inr (r, e) ↦ let (same, found) = kept r e in (found, λ k i q. rw (← same) q)
  | inl e ↦
      let stored = new e in
      (
        rw (← stored, store_item-find item v item.original, eq_self item.original),
        λ k i q. rw (← stored, store_item-find item v k) (ground (arith, eq_iff item.original k)),
      )
]
  where
    kept :
        (r : MappingItem)
        → find_original item.original v ≡ some r
        → (v ≡ v') × (find_original item.original v' ≡ some item)
    kept r e = unfold add find_original in (ground arith, ground (arith, item_beq-eq r item))

    new : find_original item.original v ≡ none → store_item item v ≡ v'
    new e = unfold add add_new find_original in ground arith
