-- ===== src/Json.antt =====
-- JSON values as Python holds them after `json.loads`: a dict with string keys in insertion order, a
-- list, text, an integer, a float by its IEEE bit pattern, a Boolean, `None`.
use maskgate.Base.{ℕ, Bool, true, false, Text, List, [], ◌∷◌, Option, none, some}
use maskgate.Base.{◌==◌, list_eq, nat_eq, if◌then◌else◌}

-- `negsuc n` is -(n + 1).
pub data Integer : Type 0 where
  pos : ℕ → Integer
  negsuc : ℕ → Integer

mutual
  pub data Json : Type 0 where
    null : Json
    boolean : Bool → Json
    integer : Integer → Json
    float : ℕ → Json
    string : Text → Json
    array : Items → Json
    object : Fields → Json

  pub data Items : Type 0 where
    nil : Items
    cons : Json → Items → Items

  pub data Fields : Type 0 where
    end : Fields
    field : Text → Json → Fields → Fields

-- `d.get(key)`
unfoldable pub get_field : Text → Fields → Option Json
get_field key end = none
get_field key (field k v fs) = let rest = get_field key fs in if k == key then some v else rest

-- `key in d`
unfoldable pub has_field : Text → Fields → Bool
has_field key end = false
has_field key (field k v fs) = if k == key then true else has_field key fs

-- `d[key] = v` for a key that is not there yet
unfoldable pub append_field : Text → Json → Fields → Fields
append_field key v end = field key v end
append_field key v (field k w fs) = field k w (append_field key v fs)

-- A Python list of values as the items of an array.
unfoldable pub from_list : List Json → Items
from_list [] = nil
from_list (x ∷ xs) = cons x (from_list xs)

unfoldable pub to_list : Items → List Json
to_list nil = []
to_list (cons x xs) = x ∷ to_list xs
