-- ===== src/Mappings.antt =====
-- app/storage/mapping_store.py: the mappings of single requests, kept for a fixed time.
pub mod Laws
use maskgate.Base.{
  Bool, Dict, List, Option, Text, get, leb, length, list_eq, nat_eq, not, option_eq, pair_eq, put,
  remove, select, ℕ, ◌+◌, ◌-◌,
}
use maskgate.Vault.{MappingItem}

-- `RequestMapping`; an instant is a number of ticks of the clock.
pub record RequestMapping : Type 0 where
  pub request_id : Text
  pub created_at : ℕ
  pub expires_at : ℕ
  pub items : List MappingItem

-- `InMemoryMappingStore`
pub record MappingStore : Type 0 where
  pub ttl : ℕ
  pub mappings : Dict Text RequestMapping

abbrev pub is_unexpired : ℕ → Text × RequestMapping → Bool
is_unexpired now (_, m) = not (leb m.expires_at now)

-- `_cleanup_locked`
unfoldable pub drop_expired : ℕ → MappingStore → MappingStore
drop_expired now s = record s { mappings = select (is_unexpired now) s.mappings }

abbrev pub mapping_of : Text → List MappingItem → ℕ → ℕ → RequestMapping
mapping_of id items now ttl = record {
  request_id = id;
  created_at = now;
  expires_at = now + ttl;
  items = select (λ i. i.restore) items;
}

-- `put`
unfoldable pub put_mapping :
    Text → List MappingItem → ℕ → MappingStore → RequestMapping × MappingStore
put_mapping id items now s =
    let mapping = mapping_of id items now s.ttl in
    let t = drop_expired now s in (mapping, record t { mappings = put id mapping t.mappings })

-- `get`
unfoldable pub get_mapping : Text → ℕ → MappingStore → Option RequestMapping × MappingStore
get_mapping id now s = let t = drop_expired now s in (get id t.mappings, t)

-- `delete`
unfoldable pub delete_mapping : Text → MappingStore → MappingStore
delete_mapping id s = record s { mappings = remove id s.mappings }

-- `size` and `cleanup`
unfoldable pub mapping_count : ℕ → MappingStore → ℕ × MappingStore
mapping_count now s = let t = drop_expired now s in (length t.mappings, t)

unfoldable pub cleanup_mappings : ℕ → MappingStore → ℕ × MappingStore
cleanup_mappings now s = let t = drop_expired now s in (length s.mappings - length t.mappings, t)
