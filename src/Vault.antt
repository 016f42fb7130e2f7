-- ===== src/Vault.antt =====
-- app/privacy/vault.py: the bounded, bijective mapping vault of one masking session.
pub mod Keyed
pub mod Invariant
pub mod Prune
pub mod Lookup
use maskgate.Base.{
  ℕ, ◌+◌, Bool, true, false, not, ◌&&◌, ◌||◌, Option, none, some, List, [], ◌∷◌, ◌++◌, max, ltb,
  leb, if◌then◌else◌, length, select, any, Text, utf8_size, is_substring, Dict, get, has, put, ◌==◌,
  nat_eq, list_eq, Result, ok, err, vault_capacity, vault_collision,
}
use maskgate.Json.{Json, Items, Fields}

-- `MappingItem`
pub record MappingItem : Type 0 where
  pub entity_type : Text
  pub original : Text
  pub replacement : Text
  pub restore : Bool

abbrev pub bool_beq : Bool → Bool → Bool
bool_beq true b = b
bool_beq false b = not b

-- The equality that the dataclass derives.
abbrev pub item_beq : MappingItem → MappingItem → Bool
item_beq a b =
    a.entity_type == b.entity_type
    && a.original == b.original
    && a.replacement == b.replacement
    && bool_beq a.restore b.restore

-- `VaultBudget`
pub record VaultBudget : Type 0 where
  pub max_mappings : ℕ
  pub max_sensitive_bytes : ℕ

-- `InMemoryVault`: the items in order of insertion, two indices on them, and a running size.
pub record Vault : Type 0 where
  pub budget : VaultBudget
  pub items : List MappingItem
  pub by_original : Dict Text MappingItem
  pub by_replacement : Dict Text MappingItem
  pub sensitive_bytes : ℕ

-- `InMemoryVault.__init__`
abbrev pub empty_vault : VaultBudget → Vault
empty_vault b = record {
  budget = b;
  items = [];
  by_original = [];
  by_replacement = [];
  sensitive_bytes = 0;
}

unfoldable pub find_original : Text → Vault → Option MappingItem
find_original original v = get original v.by_original

unfoldable pub contains_original : Text → Vault → Bool
contains_original value v = has value v.by_original

unfoldable pub contains_replacement : Text → Vault → Bool
contains_replacement value v = has value v.by_replacement

abbrev pub item_limit : Vault → ℕ
item_limit v = max v.budget.max_mappings 1

abbrev pub byte_limit : Vault → ℕ
byte_limit v = max v.budget.max_sensitive_bytes 1024

-- The last lines of `add`, past every check.
unfoldable pub store_item : MappingItem → Vault → Vault
store_item item v = record v {
  items = v.items ++ item ∷ [];
  by_original = put item.original item v.by_original;
  by_replacement =
      if item.restore then put item.replacement item v.by_replacement else v.by_replacement;
  sensitive_bytes = v.sensitive_bytes + utf8_size item.original;
}

-- `reverse is not None and reverse.original != item.original`
unfoldable pub conflicts : MappingItem → Option MappingItem → Bool
conflicts item none = false
conflicts item (some reverse) = not (reverse.original == item.original)

-- `add` for an original that is not stored yet.
unfoldable pub add_new : MappingItem → Vault → Result Vault
add_new item v =
    if item.restore && conflicts item (get item.replacement v.by_replacement)
    then err vault_collision
    else if leb (item_limit v) (length v.items)
        || ltb (byte_limit v) (v.sensitive_bytes + utf8_size item.original)
    then err vault_capacity
    else ok (store_item item v)

-- `InMemoryVault.add`. It raises before it writes, so an error leaves the vault as it was.
unfoldable pub add : MappingItem → Vault → Result Vault
add item v = elim (get item.original v.by_original) [
  | none ↦ add_new item v
  | some existing ↦ if item_beq existing item then ok v else err vault_collision
]

-- `_iter_strings`: the texts of a value, keys included.
unfoldable mutual
  pub strings : Json → List Text
  strings (Json.string s) = s ∷ []
  strings (Json.array xs) = strings_items xs
  strings (Json.object fs) = strings_fields fs
  strings _ = []

  pub strings_items : Items → List Text
  strings_items Items.nil = []
  strings_items (Items.cons x xs) = strings x ++ strings_items xs

  pub strings_fields : Fields → List Text
  strings_fields Fields.end = []
  strings_fields (Fields.field k x fs) = k ∷ strings x ++ strings_fields fs

-- `item.restore and any(item.replacement in value for value in strings)`
unfoldable pub is_referenced : List Text → MappingItem → Bool
is_referenced texts item = item.restore && any (is_substring item.replacement) texts

-- A dict comprehension `{key(item): item for item in items}`.
unfoldable pub index_onto :
    (MappingItem → Text) → List MappingItem → Dict Text MappingItem → Dict Text MappingItem
index_onto key [] d = d
index_onto key (i ∷ is) d = index_onto key is (put (key i) i d)

-- `sum(len(item.original.encode("utf-8")) for item in items)`
unfoldable pub total_bytes : List MappingItem → ℕ
total_bytes [] = 0
total_bytes (i ∷ is) = utf8_size i.original + total_bytes is

-- `prune_to_references`
unfoldable pub prune_to_references : Items → Vault → Vault
unfolding strings is_referenced index_onto total_bytes
prune_to_references values v =
    let retained = select (is_referenced (strings_items values)) v.items in
    record v {
      items = retained;
      by_original = index_onto (λ i. i.original) retained [];
      by_replacement = index_onto (λ i. i.replacement) retained [];
      sensitive_bytes = total_bytes retained;
    }
