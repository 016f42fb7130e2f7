-- ===== src/Mappings/Laws.antt =====
-- app/storage/mapping_store.py: a mapping is found until it expires and never afterwards.
use maskgate.Base.{
  In, In-select, In-select_mk, IsDistinct, List, Text, arith, eq_self, false, get-put, get-remove,
  get-select, get-select-none, list_eq, nat_eq, none, option_eq, pair_eq, put, put-IsDistinct,
  remove, select, select-IsDistinct, some, true, ℕ, ◌+◌, ◌<◌, ◌==◌, ◌↔◌, ◌≡◌, ◌≤◌,
}
use maskgate.Vault.{MappingItem}
use maskgate.Mappings.{
  MappingStore, is_unexpired, drop_expired, mapping_of, put_mapping, get_mapping, delete_mapping,
}

-- In a store that lists no id twice, what is put is found, cut to its reversible items, until its
-- time is over and from then on not at all; putting it changes what is found later under no other
-- id, and a deleted mapping is gone at once.
pub put_mapping_lem :
    (id other : Text) (items : List MappingItem) (now later : ℕ) (s : MappingStore)
    → IsDistinct s.mappings
    → let (m, t) = put_mapping id items now s in
      (later < now + s.ttl → (get_mapping id later t).0 ≡ some m)
      × (now + s.ttl ≤ later → (get_mapping id later t).0 ≡ none)
      × ((i : MappingItem) → In i m.items ↔ (In i items × (i.restore ≡ true)))
      × (now ≤ later
          → (id == other) ≡ false
          → (get_mapping other later t).0 ≡ (get_mapping other later s).0)
      × ((get_mapping id later (delete_mapping id t)).0 ≡ none)
unfolding put_mapping get_mapping drop_expired delete_mapping
put_mapping_lem id other items now later s d =
    let m = mapping_of id items now s.ttl in
    let kept = select (is_unexpired now) s.mappings in
    let distinct = select-IsDistinct (is_unexpired now) s.mappings d in
    let both = put-IsDistinct id m kept distinct in
    let found = get-select (is_unexpired later) id (put id m kept) both in
    (
      λ h. ground (arith, found, get-put id id m kept, eq_self id),
      λ h. ground (arith, found, get-put id id m kept, eq_self id),
      λ i. (
        λ k. In-select (λ j. j.restore) i items k,
        λ k. In-select_mk (λ j. j.restore) i items k.0 k.1,
      ),
      λ h ne. ground (
        arith,
        get-select (is_unexpired later) other (put id m kept) both,
        get-select (is_unexpired later) other s.mappings d,
        get-select (is_unexpired now) other s.mappings d,
        get-put id other m kept,
      ),
      get-select-none (is_unexpired later) id (remove id (put id m kept))
          (ground (arith, get-remove id id (put id m kept), eq_self id)),
    )
