-- ===== src/Vault/Invariant.antt =====
-- app/privacy/vault.py: `add` keeps the vault consistent and within its budget, and stores a
-- bijection between originals and reversible replacements.
use maskgate.Base.{
  Bool, Bool-cases, In, In-select, IsDistinct, List, Option, Option-cases, Text, [], ap, arith,
  false, get, inl, inr, length, length-append, list_beq_iff, list_eq, nat_eq, none, ok, option_eq,
  pair_eq, put-IsDistinct, put_new, refl, select, some, subst, true, utf8_size, ◌&&◌, ◌++◌, ◌+◌,
  ◌<◌, ◌↔◌, ◌∷◌, ◌≡◌, ◌≢◌, ◌≤◌,
}
use mathlib.Core.List.{append-nil}
use maskgate.Vault.{
  MappingItem, VaultBudget, Vault, empty_vault, add, store_item, conflicts, add_new, total_bytes,
  item_limit, byte_limit,
}
use maskgate.Vault.Keyed.{keyed, keyed-append, In-of_get-keyed, get-keyed_of_In, get-keyed_self}

-- The items whose replacement may be turned back.
abbrev pub reversible : List MappingItem → List MappingItem
reversible = select (λ i. i.restore)

-- The two indices list the items, no key twice; the size is the items'; the budget holds.
pub record IsValid (v : Vault) : Type 0 where
  pub originals : v.by_original ≡ keyed (λ i. i.original) v.items
  pub replacements : v.by_replacement ≡ keyed (λ i. i.replacement) (reversible v.items)
  pub distinct_originals : IsDistinct (keyed (λ i. i.original) v.items)
  pub distinct_replacements : IsDistinct (keyed (λ i. i.replacement) (reversible v.items))
  pub bytes : v.sensitive_bytes ≡ total_bytes v.items
  pub count_bound : length v.items ≤ item_limit v
  pub byte_bound : v.sensitive_bytes ≤ byte_limit v

pub IsValid-empty : (b : VaultBudget) → IsValid (empty_vault b)
unfolding total_bytes
IsValid-empty b = record {
  originals = refl;
  replacements = refl;
  distinct_originals = tt;
  distinct_replacements = tt;
  bytes = refl;
  count_bound = omega arith;
  byte_bound = omega arith;
}

total_bytes-append :
    (is js : List MappingItem) → total_bytes (is ++ js) ≡ total_bytes is + total_bytes js
unfolding total_bytes
total_bytes-append [] js = omega arith
total_bytes-append (i ∷ is) js = omega (arith, total_bytes-append is js)

select-append :
    (p : MappingItem → Bool) (is js : List MappingItem)
    → select p (is ++ js) ≡ select p is ++ select p js
select-append p [] js = refl
select-append p (i ∷ is) js = ground (arith, select-append p is js)

-- A fresh key at the end keeps the keys distinct.
IsDistinct-snoc :
    (key : MappingItem → Text) (i : MappingItem) (is : List MappingItem)
    → IsDistinct (keyed key is)
    → get (key i) (keyed key is) ≡ none
    → IsDistinct (keyed key (is ++ i ∷ []))
IsDistinct-snoc key i is d h =
    rw (keyed-append key is (i ∷ []), ← put_new (key i) i (keyed key is) h)
      (put-IsDistinct (key i) i (keyed key is) d)

reversible_snoc :
    (item : MappingItem) (is : List MappingItem)
    → item.restore ≡ true
    → reversible (is ++ item ∷ []) ≡ reversible is ++ item ∷ []
reversible_snoc item is e = rw (select-append (λ i. i.restore) is (item ∷ [])) (ground arith)

reversible_snoc_plain :
    (item : MappingItem) (is : List MappingItem)
    → item.restore ≡ false
    → reversible (is ++ item ∷ []) ≡ reversible is
reversible_snoc_plain item is e =
    rw (select-append (λ i. i.restore) is (item ∷ [])) (ground (arith, append-nil (reversible is)))

-- A listed reversible item whose original is the item's would make that original an old one.
no_listed_twin :
    (item r : MappingItem) (is : List MappingItem)
    → get item.original (keyed (λ i. i.original) is) ≡ none
    → In r (reversible is)
    → r.original ≢ item.original
no_listed_twin item r is new m e =
    get-keyed_of_In (λ i. i.original) r is (In-select (λ i. i.restore) r is m).0 (rw e new)

-- A new original has no stored partner, so `conflicts` is the plain test that the replacement is
-- taken.
free_replacement :
    (item : MappingItem) (is : List MappingItem) (o : Option MappingItem)
    → get item.original (keyed (λ i. i.original) is) ≡ none
    → get item.replacement (keyed (λ i. i.replacement) (reversible is)) ≡ o
    → conflicts item o ≡ false
    → o ≡ none
unfolding conflicts
free_replacement item is none new e free = refl
free_replacement item is (some r) new e free =
    let m = In-of_get-keyed (λ i. i.replacement) item.replacement r (reversible is) e in
    ground (arith, no_listed_twin item r is new m.0, list_beq_iff r.original item.original)

module _ (item : MappingItem) (v : Vault) (valid : IsValid v) where
  store_item-IsValid :
      get item.original (keyed (λ i. i.original) v.items) ≡ none
      → (item.restore ≡ true
          → get item.replacement (keyed (λ i. i.replacement) (reversible v.items)) ≡ none)
      → length v.items < item_limit v
      → v.sensitive_bytes + utf8_size item.original ≤ byte_limit v
      → IsValid (store_item item v)
  unfolding store_item total_bytes
  store_item-IsValid new free count bytes = record {
    originals =
        rw (valid.originals, keyed-append (λ i. i.original) v.items (item ∷ []))
          (put_new item.original item (keyed (λ i. i.original) v.items) new);
    replacements = elim (Bool-cases item.restore) [
      | inl e ↦ ground (
        arith,
        valid.replacements,
        reversible_snoc item v.items e,
        keyed-append (λ i. i.replacement) (reversible v.items) (item ∷ []),
        put_new item.replacement item (keyed (λ i. i.replacement) (reversible v.items)) (free e),
      )
      | inr e ↦ ground (arith, valid.replacements, reversible_snoc_plain item v.items e)
    ];
    distinct_originals =
        IsDistinct-snoc (λ i. i.original) item v.items valid.distinct_originals new;
    distinct_replacements = elim (Bool-cases item.restore) [
      | inl e ↦ rw (reversible_snoc item v.items e) (
          IsDistinct-snoc (λ i. i.replacement) item (reversible v.items) valid.distinct_replacements
            (free e))
      | inr e ↦ rw (reversible_snoc_plain item v.items e) valid.distinct_replacements
    ];
    bytes = rw (total_bytes-append v.items (item ∷ [])) (omega (arith, valid.bytes));
    count_bound = rw (length-append v.items (item ∷ [])) (omega arith);
    byte_bound = bytes;
  }

  add_new-eq-ok :
      (v' : Vault)
      → add_new item v ≡ ok v'
      → ((item.restore && conflicts item (get item.replacement v.by_replacement)) ≡ false)
        × (length v.items < item_limit v)
        × (v.sensitive_bytes + utf8_size item.original ≤ byte_limit v)
        × (store_item item v ≡ v')
  unfolding add_new
  add_new-eq-ok v' h = ground arith

  free_of_no_conflict :
      get item.original v.by_original ≡ none
      → conflicts item (get item.replacement v.by_replacement) ≡ false
      → get item.replacement v.by_replacement ≡ none
  free_of_no_conflict new h =
      free_replacement item v.items (get item.replacement v.by_replacement)
        (rw valid.originals at new) (rw (← valid.replacements)) h

  add_new-IsValid :
      (v' : Vault) → get item.original v.by_original ≡ none → add_new item v ≡ ok v' → IsValid v'
  add_new-IsValid v' new h =
      let (free, count, bytes, e) = add_new-eq-ok v' h in
      subst IsValid e (
        store_item-IsValid (rw valid.originals at new)
          (λ r. rw (← valid.replacements) (free_of_no_conflict new (ground arith))) count bytes)

  -- What add returns on a valid vault is a valid vault.
  pub add-IsValid : (v' : Vault) → add item v ≡ ok v' → IsValid v'
  add-IsValid v' h = elim (Option-cases (get item.original v.by_original)) [
    | inr (r, e) ↦ subst IsValid {x = v} (unfold add in ground arith) valid
    | inl e ↦ add_new-IsValid v' e (unfold add in ground arith)
  ]

-- Keys of a dict without repetitions belong to one item each.
keyed_injective :
    (f : MappingItem → Text) (i j : MappingItem) (items : List MappingItem)
    → IsDistinct (keyed f items)
    → In i items
    → In j items
    → (f i ≡ f j) ↔ (i ≡ j)
keyed_injective f i j items distinct mi mj =
    let gi = get-keyed_self f i items distinct mi in
    let gj = get-keyed_self f j items distinct mj in (λ e. ground (arith, e, gi, gj), λ e. ap f e)

-- Behind an add to a valid vault, the dicts give back every item of the list: each item by its
-- original, and each reversible item by its replacement. So two items with one original are the
-- same item, and two reversible items with one replacement are the same item.
pub vault_bijective :
    (item : MappingItem) (v v' : Vault) (i j k l : MappingItem)
    → IsValid v
    → add item v ≡ ok v'
    → In i v'.items
    → In j v'.items
    → In k (reversible v'.items)
    → In l (reversible v'.items)
    → (get i.original v'.by_original ≡ some i)
      × ((i.original ≡ j.original) ↔ (i ≡ j))
      × (get k.replacement v'.by_replacement ≡ some k)
      × ((k.replacement ≡ l.replacement) ↔ (k ≡ l))
vault_bijective item v v' i j k l valid added mi mj mk ml =
    let after = add-IsValid item v valid v' added in
    (
      rw after.originals (get-keyed_self (λ m. m.original) i v'.items after.distinct_originals mi),
      keyed_injective (λ m. m.original) i j v'.items after.distinct_originals mi mj,
      rw after.replacements (
          get-keyed_self (λ m. m.replacement) k (reversible v'.items) after.distinct_replacements
            mk),
      keyed_injective (λ m. m.replacement) k l (reversible v'.items) after.distinct_replacements mk
          ml,
    )
