-- ===== src/Vault/Prune.antt =====
-- app/privacy/vault.py: `prune_to_references` keeps exactly the reversible items that are still
-- referenced, and rebuilds a valid vault.
use maskgate.Base.{
  ◌≤◌, Bool, true, List, [], ◌∷◌, select, Text, nat_eq, list_eq, ◌≡◌, ◌↔◌, refl, arith, IsDistinct,
  In, any, is_substring, select-IsDistinct, In-select, In-select_mk, length-select-le, subst,
}
use maskgate.Json.{Items}
use maskgate.Vault.{
  MappingItem, Vault, total_bytes, is_referenced, prune_to_references, strings_items,
}
use maskgate.Vault.Keyed.{keyed, keyed-select, index_onto-keyed}
use maskgate.Vault.Invariant.{IsValid, reversible}

module _ (texts : List Text) where
  -- Referenced items are reversible, so selecting them passes through the reversible ones.
  select_referenced :
      (is : List MappingItem)
      → select (is_referenced texts) (reversible is) ≡ select (is_referenced texts) is
  unfolding is_referenced
  select_referenced [] = refl
  select_referenced (i ∷ is) = ground (arith, select_referenced is)

  reversible_referenced :
      (is : List MappingItem)
      → reversible (select (is_referenced texts) is) ≡ select (is_referenced texts) is
  unfolding is_referenced
  reversible_referenced [] = refl
  reversible_referenced (i ∷ is) = ground (arith, reversible_referenced is)

total_bytes-select-le :
    (p : MappingItem → Bool) (is : List MappingItem) → total_bytes (select p is) ≤ total_bytes is
unfolding total_bytes
total_bytes-select-le p [] = omega arith
total_bytes-select-le p (i ∷ is) = ground (arith, total_bytes-select-le p is)

keyed-select-IsDistinct :
    (key : MappingItem → Text) (p : MappingItem → Bool) (is : List MappingItem)
    → IsDistinct (keyed key is)
    → IsDistinct (keyed key (select p is))
keyed-select-IsDistinct key p is d =
    rw (keyed-select key p is) (select-IsDistinct (λ e. p e.1) (keyed key is) d)

module _ (values : Items) (v : Vault) (valid : IsValid v) where
  abbrev retained : List MappingItem
  retained = select (is_referenced (strings_items values)) v.items

  retained-IsDistinct_replacements : IsDistinct (keyed (λ i. i.replacement) retained)
  retained-IsDistinct_replacements =
      subst (λ is. IsDistinct (keyed (λ i. i.replacement) is))
        (select_referenced (strings_items values) v.items)
        (keyed-select-IsDistinct (λ i. i.replacement) (is_referenced (strings_items values))
          (reversible v.items) valid.distinct_replacements)

  -- Pruning a valid vault gives a valid vault.
  pub prune_to_references-IsValid : IsValid (prune_to_references values v)
  unfolding prune_to_references
  prune_to_references-IsValid =
      let distinct =
        keyed-select-IsDistinct (λ i. i.original) (is_referenced (strings_items values)) v.items
          valid.distinct_originals in
      let same = reversible_referenced (strings_items values) v.items in
      record {
        originals = index_onto-keyed (λ i. i.original) retained [] distinct;
        replacements =
            rw same
              (index_onto-keyed (λ i. i.replacement) retained [] retained-IsDistinct_replacements);
        distinct_originals = distinct;
        distinct_replacements = rw same retained-IsDistinct_replacements;
        bytes = refl;
        count_bound = omega (
          arith,
          length-select-le (is_referenced (strings_items values)) v.items,
          valid.count_bound,
        );
        byte_bound = omega (
          arith,
          total_bytes-select-le (is_referenced (strings_items values)) v.items,
          valid.byte_bound,
          valid.bytes,
        );
      }

-- In a valid vault exactly those items stay that are reversible and whose replacement occurs in a
-- text of the values, in valid indices and with a size that has not grown.
pub prune_to_references_lem :
    (values : Items) (v : Vault) (i : MappingItem)
    → IsValid v
    → let pruned = prune_to_references values v in
      IsValid pruned
      × (pruned.sensitive_bytes ≤ v.sensitive_bytes)
      × (In i pruned.items ↔ (
          In i v.items
          × (i.restore ≡ true)
          × (any (is_substring i.replacement) (strings_items values) ≡ true)))
unfolding prune_to_references is_referenced
prune_to_references_lem values v i valid = (
  prune_to_references-IsValid values v valid,
  omega (arith, total_bytes-select-le (is_referenced (strings_items values)) v.items, valid.bytes),
  (
    λ m.
        let r = In-select (is_referenced (strings_items values)) i v.items m in
        (r.0, ground arith, ground arith),
    λ h. In-select_mk (is_referenced (strings_items values)) i v.items h.0 (ground arith),
  ),
)
