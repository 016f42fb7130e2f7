-- ===== src/PolicyLoader/Values.antt =====
-- app/privacy/policy/loader.py: the values of a policy file and the tests of a single value. Every
-- `PolicySchemaError` is the error `value_error`; its message is left out.
use maskgate.Base.{
  Bool, List, Option, Result, Text, [], all, codes, contains, dedupe, err, false, if◌then◌else◌,
  leb, length, list_eq, nat_eq, none, ok, option_eq, pair_eq, some, suc, then_with, true,
  value_error, zero, ℕ, ◌&&◌, ◌==◌, ◌∷◌,
}
use Prim.Native.String.{String}
use maskgate.Unicode.{Unicode, strip}
use maskgate.Json.{Integer, pos}
use maskgate.Privacy.{Floats}

-- What the strict loader of YAML makes of a file. A key is `none` where it is no string; a timestamp
-- is `none` where it has no zone.
mutual
  pub data Yaml (F : Type 0) : Type 0 where
    null : Yaml F
    boolean : Bool → Yaml F
    integer : Integer → Yaml F
    float : F → Yaml F
    not_a_number : Yaml F
    string : Text → Yaml F
    timestamp : Option ℕ → Yaml F
    sequence : YamlItems F → Yaml F
    mapping : YamlEntries F → Yaml F

  pub data YamlItems (F : Type 0) : Type 0 where
    nil : YamlItems F
    cons : Yaml F → YamlItems F → YamlItems F

  pub data YamlEntries (F : Type 0) : Type 0 where
    end : YamlEntries F
    entry : Option Text → Yaml F → YamlEntries F → YamlEntries F

module _ {A B : Type 0} (f : A → Result B) where
  -- A tuple of what `f` makes of each, or what it raises first.
  unfoldable pub each : List A → Result (List B)
  each [] = ok []
  each (x ∷ xs) = let rest = each xs in then_with (f x) (λ y. then_with rest (λ ys. ok (y ∷ ys)))

-- `len(set(values)) != len(values)` raises.
abbrev pub distinct_texts : List Text → Result (List Text)
distinct_texts values =
    if length (dedupe values) == length values then ok values else err value_error

-- The member of an enumeration with this value.
unfoldable pub named : {A : Type 0} → Text → List (String × A) → Result A
named s [] = err value_error
named s ((name, a) ∷ rest) = let later = named s rest in if codes name == s then ok a else later

-- `if not b: raise`
abbrev pub require : Bool → Result (Unit {0})
require true = ok tt
require false = err value_error

module _ {F : Type 0} where
  unfoldable pub list_of : YamlItems F → List (Yaml F)
  list_of nil = []
  list_of (cons x xs) = x ∷ list_of xs

  -- `_mapping`, as the keys with their values
  unfoldable pub members : YamlEntries F → Result (List (Text × Yaml F))
  members end = ok []
  members (entry (some k) v es) = let rest = members es in then_with rest (λ ms. ok ((k, v) ∷ ms))
  members (entry none v es) = err value_error

  unfoldable pub as_mapping : Yaml F → Result (List (Text × Yaml F))
  unfolding members
  as_mapping (mapping es) = members es
  as_mapping _ = err value_error

  -- `mapping.get(key)`
  unfoldable pub value_at : Text → List (Text × Yaml F) → Yaml F
  value_at key [] = null
  value_at key ((k, v) ∷ ms) = let rest = value_at key ms in if k == key then v else rest

  -- `_reject_unknown`
  unfoldable pub reject_unknown : List Text → List (Text × Yaml F) → Result (Unit {0})
  reject_unknown allowed ms = require (all (λ (m : Text × Yaml F). contains m.0 allowed) ms)

  abbrev pub text_of : Yaml F → Result Text
  text_of (string s) = ok s
  text_of _ = err value_error

  module _ (u : Unicode) where
    -- A string that is more than white space, without the white space around it.
    unfoldable pub stripped : Yaml F → Result Text
    stripped v =
        then_with (text_of v) (λ s. if strip u s == [] then err value_error else ok (strip u s))

    -- `_required_string`
    unfoldable pub required_string : List (Text × Yaml F) → String → Result Text
    unfolding stripped value_at
    required_string ms key = stripped (value_at (codes key) ms)

    -- `_string_list`
    unfoldable pub string_list : Bool → Yaml F → Result (List Text)
    unfolding each stripped list_of
    string_list false null = ok []
    string_list required (sequence (cons x xs)) =
        then_with (each stripped (x ∷ list_of xs)) distinct_texts
    string_list required _ = err value_error

  -- `_enum_value`, by the values of the class
  unfoldable pub enum_value : {A : Type 0} → List (String × A) → Yaml F → Result A
  unfolding named
  enum_value members v = then_with (text_of v) (λ s. named s members)

  -- `_number` with `integer=True`, from 0 on
  unfoldable pub natural_upto : ℕ → Yaml F → Result (Option ℕ)
  natural_upto maximum null = ok none
  natural_upto maximum (integer (pos n)) = if leb n maximum then ok (some n) else err value_error
  natural_upto maximum _ = err value_error

-- `_number` between 0.0 and 1.0, as `float` makes it a float
unfoldable pub fraction : (fl : Floats) → Yaml fl.Float → Result (Option fl.Float)
fraction fl null = ok none
fraction fl (integer (pos zero)) = ok (some fl.zero_f)
fraction fl (integer (pos (suc zero))) = ok (some fl.one_f)
fraction fl (float x) =
    if fl.le_f fl.zero_f x && fl.le_f x fl.one_f then ok (some x) else err value_error
fraction fl _ = err value_error
