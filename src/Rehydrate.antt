-- ===== src/Rehydrate.antt =====
-- app/masking/rehydrator.py: originals put back in place of their replacements.
pub mod Values
pub mod Stream
use maskgate.Base.{
  Bool, List, Result, Text, [], err, if◌then◌else◌, leb, length, ok, replace, select, sort,
  value_error, ◌∷◌,
}
use maskgate.Json.{Json, Items, Fields, has_field, append_field}
use maskgate.Vault.{MappingItem}

-- `key=lambda entry: len(entry.replacement), reverse=True`; the sort keeps the order of equal keys.
abbrev pub longer_first : MappingItem → MappingItem → Bool
longer_first a b = leb (length b.replacement) (length a.replacement)

-- The loop of `rehydrate_text`.
unfoldable pub restore_all : List MappingItem → Text → Text
restore_all [] text = text
restore_all (i ∷ is) text = restore_all is (replace i.replacement i.original text)

-- `rehydrate_text`
unfoldable pub rehydrate_text : Text → List MappingItem → Text
unfolding restore_all
rehydrate_text text mapping = restore_all (sort longer_first (select (λ i. i.restore) mapping)) text

abbrev pub as_array : Result Items → Result Json
as_array (err e) = err e
as_array (ok xs) = ok (Json.array xs)

abbrev pub as_object : Result Fields → Result Json
as_object (err e) = err e
as_object (ok fs) = ok (Json.object fs)

abbrev pub cons_item : Result Json → Result Items → Result Items
cons_item (err e) rest = err e
cons_item (ok x) (err e) = err e
cons_item (ok x) (ok xs) = ok (Items.cons x xs)

-- A text function applied to every text of a value, keys included, in the order of the source. Two
-- keys of a dict that become equal raise. `rehydrate` here and `_transform` of
-- app/privacy/output_guard.py are this with their text functions.
unfoldable mutual
  pub transform : (Text → Text) → Json → Result Json
  transform f (Json.string s) = ok (Json.string (f s))
  transform f (Json.array xs) = as_array (transform_items f xs)
  transform f (Json.object fs) = as_object (transform_fields f Fields.end fs)
  transform f value = ok value

  pub transform_items : (Text → Text) → Items → Result Items
  transform_items f Items.nil = ok Items.nil
  transform_items f (Items.cons x xs) = cons_item (transform f x) (transform_items f xs)

  -- `done` holds the fields that are transformed already.
  pub transform_fields : (Text → Text) → Fields → Fields → Result Fields
  transform_fields f done Fields.end = ok done
  transform_fields f done (Fields.field k v fs) =
      if has_field (f k) done then err value_error else elim (transform f v) [
        | err e ↦ err e
        | ok w ↦ transform_fields f (append_field (f k) w done) fs
      ]

-- `rehydrate`
unfoldable pub rehydrate : Json → List MappingItem → Result Json
unfolding transform
rehydrate value mapping = transform (λ text. rehydrate_text text mapping) value
