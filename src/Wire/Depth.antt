-- ===== src/Wire/Depth.antt =====
-- app/privacy/wire.py: the inspection of texts that spell JSON ends, one inside the other.
use maskgate.Base.{
  Error, List, Option, Result, Text, [], any, ap, arith, codes, err, if◌then◌else◌, interleave,
  length, max, none, ok, recursion, refl, replace, replace_from, reverse, some, suc, zero, ℕ, ◌+◌,
  ◌-◌, ◌<◌, ◌∷◌, ◌≡◌, ◌≤◌,
}
use mathlib.Core.List.{reverse_aux}
use maskgate.Json.{Json, Items, Fields}
use maskgate.Unicode.{Unicode, strip, lstrip}
use maskgate.PolicyV2.{PathPart}
use maskgate.Session.{Entity}
use maskgate.Wire.{
  unless_decode_error, vet, is_unapproved, PrivacyCheckedPayload, Codec, erase, violation,
  then_check, inspect_json, inspect_encoded, inspect_string, inspect_text, inspect_percent,
  inspect_escapes, inspect_decoded, inspect_value, inspect_items, inspect_fields, inspect_wire,
  unescape, is_container,
}
use maskgate.Wire.Raised.{
  Raised, detecting, IsCalm, fine, raises, violation-IsCalm, then_check-IsCalm, if-IsCalm,
  unless-IsCalm, encodable-IsCalm, unless-Raised,
}

-- The length of the longest text in a value, keys included.
unfoldable mutual
  pub longest : Json → ℕ
  longest (Json.string s) = length s
  longest (Json.array xs) = longest_item xs
  longest (Json.object fs) = longest_field fs
  longest value = 0

  pub longest_item : Items → ℕ
  longest_item Items.nil = 0
  longest_item (Items.cons x xs) = max (longest x) (longest_item xs)

  pub longest_field : Fields → ℕ
  longest_field Fields.end = 0
  longest_field (Fields.field k v fs) = max (length k) (max (longest v) (longest_field fs))

replace_from-erases :
    (old : Text) (skip : ℕ) (s : Text) → length (replace_from old [] skip s) ≤ length s
unfolding replace_from
replace_from-erases old skip [] = omega arith
replace_from-erases old (suc skip) (c ∷ s) = omega (arith, replace_from-erases old skip s)
replace_from-erases old zero (c ∷ s) =
    ground (arith, replace_from-erases old 0 s, replace_from-erases old (length old - 1) s)

interleave-nothing : (s : Text) → interleave [] s ≡ s
unfolding interleave
interleave-nothing [] = refl
interleave-nothing (c ∷ s) = ap (λ (t : Text). c ∷ t) (interleave-nothing s)

length-erase-le : (tokens : List Text) (s : Text) → length (erase tokens s) ≤ length s
unfolding erase replace
length-erase-le [] s = omega arith
length-erase-le ([] ∷ ts) s = rw (interleave-nothing s) (length-erase-le ts s)
length-erase-le ((c ∷ t) ∷ ts) s =
    omega (arith, replace_from-erases (c ∷ t) 0 s, length-erase-le ts (replace_from (c ∷ t) [] 0 s))

length-reverse_aux :
    {A : Type 0} (xs ys : List A) → length (reverse_aux xs ys) ≡ length xs + length ys
length-reverse_aux [] ys = omega arith
length-reverse_aux (x ∷ xs) ys = omega (arith, length-reverse_aux xs (x ∷ ys))

length-reverse : {A : Type 0} (xs : List A) → length (reverse xs) ≡ length xs
length-reverse xs = omega (arith, length-reverse_aux xs [])

module _ (u : Unicode) where
  length-lstrip-le : (s : Text) → length (lstrip u s) ≤ length s
  unfolding lstrip
  length-lstrip-le [] = omega arith
  length-lstrip-le (c ∷ s) = ground (arith, length-lstrip-le s)

  length-strip-le : (s : Text) → length (strip u s) ≤ length s
  unfolding strip
  length-strip-le s =
      let t = reverse (lstrip u s) in
      omega (
        arith,
        length-lstrip-le s,
        length-reverse (lstrip u s),
        length-lstrip-le t,
        length-reverse (lstrip u t),
      )

module _ (u : Unicode) (codec : Codec) (detect : Text → List Entity) (tokens values : List Text)
    (lighter : (t : Text) (v : Json) → codec.loads t ≡ ok v → longest v < length t) where
  vet-IsCalm : (s : Text) → IsCalm codec (vet u codec detect tokens values s)
  unfolding vet
  vet-IsCalm s = vetted (codec.detector_error s) refl
    where
      vetted :
          (r : Option Error)
          → codec.detector_error s ≡ r
          → IsCalm codec (elim r [
            | some e ↦ err e
            | none ↦ violation (any (is_unapproved u codec detect tokens values) (detect s))
          ])
      vetted (some e) h = raises (detecting s h)
      vetted none h = violation-IsCalm codec _

  decoded-IsCalm : (s t : Text) → IsCalm codec (inspect_decoded u codec detect tokens values s t)
  unfolding inspect_decoded
  decoded-IsCalm s t = unless-IsCalm codec _ _ (vet-IsCalm t)

  views-IsCalm :
      (s : Text)
      → IsCalm codec (
          then_check
            (inspect_percent u codec detect tokens values s)
            (inspect_escapes u codec detect tokens values s))
  unfolding inspect_percent inspect_escapes
  views-IsCalm s =
      then_check-IsCalm codec _ _ (if-IsCalm codec _ _ (decoded-IsCalm s (codec.unquote s)))
        (if-IsCalm codec _ _ (decoded-IsCalm s (unescape s)))

  module _ (nested : List PathPart → Json → Result (Unit {0})) (most : ℕ)
      (calm : (path : List PathPart) (v : Json)
        → longest v < most
        → IsCalm codec (nested path v)) where
    json-IsCalm :
        (s : Text) (path : List PathPart)
        → length s ≤ most
        → IsCalm codec (inspect_json u codec detect tokens values nested s path)
    unfolding inspect_json
    json-IsCalm s path short = if-IsCalm codec _ _ (loaded (codec.loads s) refl)
      where
        loaded :
            (r : Result Json)
            → codec.loads s ≡ r
            → IsCalm codec (elim r [
              | err e ↦ unless_decode_error e
              | ok v ↦
                  if is_container v
                  then nested (PathPart.key (codes "<encoded-json>") ∷ path) v
                  else ok tt
            ])
        loaded (err er) e = unless-Raised codec s er e
        loaded (ok v) e = let lower = lighter s v e in if-IsCalm codec _ _ (calm _ v (omega arith))

    encoded-IsCalm :
        (s : Text) (path : List PathPart)
        → length s ≤ most
        → IsCalm codec (inspect_encoded u codec detect tokens values nested s path)
    unfolding inspect_encoded
    encoded-IsCalm s path short =
        let t = strip u s in
        then_check-IsCalm codec _ _ (encodable-IsCalm codec t) (
          unless-IsCalm codec _ _ (
            then_check-IsCalm codec _ _ (violation-IsCalm codec _) (
              then_check-IsCalm codec _ _ (json-IsCalm t path (omega (arith, length-strip-le u s)))
                (views-IsCalm t))))

    string-IsCalm :
        (path : List PathPart) (s : Text)
        → length s ≤ most
        → IsCalm codec (inspect_string u codec detect tokens values nested path s)
    unfolding inspect_string inspect_text
    string-IsCalm path s short =
        then_check-IsCalm codec _ _
          (then_check-IsCalm codec _ _ (violation-IsCalm codec _) (vet-IsCalm s))
          (unless-IsCalm codec _ _
            (encoded-IsCalm (erase tokens s) path (omega (arith, length-erase-le tokens s))))

    module _ (provider : Text) where
      mutual
        unfolding inspect_value longest

        value-IsCalm :
            (path : List PathPart) (v : Json)
            → longest v ≤ most
            → IsCalm codec (inspect_value u codec detect tokens values nested provider path v)
        value-IsCalm path Json.null h = fine
        value-IsCalm path (Json.boolean b) h = fine
        value-IsCalm path (Json.integer n) h = violation-IsCalm codec _
        value-IsCalm path (Json.float n) h = violation-IsCalm codec _
        value-IsCalm path (Json.string s) h = string-IsCalm path s h
        value-IsCalm path (Json.array xs) h = items-IsCalm path 0 xs h
        value-IsCalm path (Json.object fs) h = fields-IsCalm path fs h

        items-IsCalm :
            (path : List PathPart) (n : ℕ) (xs : Items)
            → longest_item xs ≤ most
            → IsCalm codec (inspect_items u codec detect tokens values nested provider path n xs)
        items-IsCalm path n Items.nil h = fine
        items-IsCalm path n (Items.cons x xs) h =
            then_check-IsCalm codec _ _ (value-IsCalm (PathPart.index n ∷ path) x (omega arith))
              (items-IsCalm path (suc n) xs (omega arith))

        fields-IsCalm :
            (path : List PathPart) (fs : Fields)
            → longest_field fs ≤ most
            → IsCalm codec (inspect_fields u codec detect tokens values nested provider path fs)
        fields-IsCalm path Fields.end h = fine
        fields-IsCalm path (Fields.field k v fs) h =
            then_check-IsCalm codec _ _
              (string-IsCalm (PathPart.key (codes "<key>") ∷ path) k (omega arith))
              (then_check-IsCalm codec _ _ (value-IsCalm (PathPart.key k ∷ path) v (omega arith))
                (fields-IsCalm path fs (omega arith)))

  -- As many levels as the longest text has characters are enough.
  pub inspect_wire-IsCalm :
      (depth : ℕ) (provider : Text) (path : List PathPart) (v : Json)
      → longest v ≤ depth
      → IsCalm codec (inspect_wire u codec detect tokens values depth provider path v)
  unfolding inspect_wire
  inspect_wire-IsCalm zero provider path v h =
      value-IsCalm (λ p w. err recursion) 0 (λ p w l. absurd (omega (arith, l))) provider path v h
  inspect_wire-IsCalm (suc depth) provider path v h =
      value-IsCalm (inspect_wire u codec detect tokens values depth (codes "encoded-json"))
        (suc depth)
        (λ p w l. inspect_wire-IsCalm depth (codes "encoded-json") p w (omega (arith, l))) provider
        path v h

  module _ (provider target : Text) (payload : Json) where
    -- Whether the guard returns, or raises an exception that is its own or comes from outside.
    abbrev pub Ends : Result PrivacyCheckedPayload → Type 0
    Ends (ok c) = Unit {0}
    Ends (err e) = Raised codec e
