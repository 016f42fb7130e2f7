-- ===== src/Wire/Laws.antt =====
-- app/privacy/wire.py: what a body holds that passed the check.
use maskgate.Base.{
  All, Bool, Bool-cases, List, Option, Option-cases, Result, Text, [], any, arith, codes, contains,
  eq_iff, err, false, if◌then◌else◌, inl, inr, length, list_eq, nat_eq, none, not, ok, option_eq,
  pair_eq, refl, some, subst, suc, true, zero, ℕ, ◌+◌, ◌==◌, ◌||◌, ◌∷◌, ◌≡◌, ◌≤◌, ◌⊎◌,
}
use maskgate.Json.{Json, Items, Fields}
use maskgate.Unicode.{Unicode, strip}
use maskgate.Pattern.{fullmatch, find_all, search_in}
use maskgate.PolicyV2.{PathPart}
use maskgate.Session.{Entity, opaque_pattern}
use maskgate.Wire.Syntax.{
  hex_pattern, is_base64_content, percent_pattern, unicode_escape_pattern, unescape,
}
use maskgate.Wire.{
  Codec, violation, then_check, is_safe_protocol_number, is_name, erase, opens_json, is_container,
  vet, inspect_text, inspect_decoded, inspect_percent, inspect_escapes, is_passed_over,
  inspect_json, inspect_encoded, inspect_string, inspect_value, inspect_items, inspect_fields,
}

-- The place of an item in a list, and the fields of a dict.
abbrev pub item_at : ℕ → Items → Option Json
item_at n Items.nil = none
item_at zero (Items.cons x xs) = some x
item_at (suc n) (Items.cons x xs) = item_at n xs

abbrev pub HasField : Text → Json → Fields → Type 0
HasField k v Fields.end = ⊥
HasField k v (Fields.field j w fs) = ((j ≡ k) × (w ≡ v)) ⊎ HasField k v fs

pub then_check-ok : (a b : Result (Unit {0})) → then_check a b ≡ ok tt → (a ≡ ok tt) × (b ≡ ok tt)
then_check-ok (err e) b h = absurd (cc)
then_check-ok (ok _) b h = (refl, h)

looked_into-ok :
    (a : Result (Unit {0})) (b : Bool) (r : Result (Unit {0}))
    → then_check a (if b then ok tt else r) ≡ ok tt
    → b ≡ false
    → r ≡ ok tt
looked_into-ok a b r h e = let looked = (then_check-ok a _ h).1 in ground (arith, looked, e)

violation-ok : (b : Bool) → violation b ≡ ok tt → b ≡ false
violation-ok true h = absurd (cc)
violation-ok false h = refl

All-not-any :
    {A : Type 0} (p : A → Bool) (xs : List A)
    → any (λ x. not (p x)) xs ≡ false
    → All (λ x. p x ≡ true) xs
All-not-any p [] h = tt
All-not-any p (x ∷ xs) h = elim (Bool-cases (p x)) [
  | inl e ↦ (e, All-not-any p xs (ground (arith)))
  | inr e ↦ absurd (ground arith)
]

module _ (u : Unicode) (codec : Codec) (detect : Text → List Entity)
    (tokens values : List Text) where
  abbrev pub stripped_of : Text → Text
  stripped_of s = strip u (erase tokens s)

  -- The values that stand in a value, with their paths, those that its texts spell included: there
  -- the provider is called "encoded-json".
  pub data Occurs (provider : Text) (root : Json) : Text → List PathPart → Json → Type 0 where
    whole : Occurs provider root provider [] root
    item :
        {p : Text} {path : List PathPart} {xs : Items} (n : ℕ) {x : Json}
        → Occurs provider root p path (Json.array xs)
        → item_at n xs ≡ some x
        → Occurs provider root p (PathPart.index n ∷ path) x
    name :
        {p : Text} {path : List PathPart} {fs : Fields} (k : Text) (v : Json)
        → Occurs provider root p path (Json.object fs)
        → HasField k v fs
        → Occurs provider root p (PathPart.key (codes "<key>") ∷ path) (Json.string k)
    member :
        {p : Text} {path : List PathPart} {fs : Fields} (k : Text) {v : Json}
        → Occurs provider root p path (Json.object fs)
        → HasField k v fs
        → Occurs provider root p (PathPart.key k ∷ path) v
    spelled :
        {p : Text} {path : List PathPart} (s : Text) {v : Json}
        → Occurs provider root p path (Json.string s)
        → is_name path ≡ false
        → is_passed_over (stripped_of s) ≡ false
        → opens_json (stripped_of s) ≡ true
        → codec.loads (stripped_of s) ≡ ok v
        → is_container v ≡ true
        → Occurs provider root
            (codes "encoded-json")
            (PathPart.key (codes "<encoded-json>") ∷ path)
            v

  -- Every token and every entity in the text is approved.
  abbrev pub IsApproved : Text → Type 0
  IsApproved s =
      All (λ token. contains token tokens ≡ true) (find_all opaque_pattern s)
      × All (λ (e : Entity). contains e.text values ≡ true) (detect s)

  -- A decoded text that differs from the text itself has approved entities only.
  abbrev pub IsDecoded : Text → Text → Type 0
  IsDecoded s decoded =
      (decoded ≡ s) ⊎ All (λ (e : Entity). contains e.text values ≡ true) (detect decoded)

  -- No encoded content that is not looked into, and approved entities behind the escapes.
  pub record IsPlain (s : Text) : Type 0 where
    pub base64 : is_base64_content s ≡ false
    pub hex : fullmatch hex_pattern s ≡ false
    pub percent : 2 ≤ length (find_all percent_pattern s) → IsDecoded s (codec.unquote s)
    pub escapes : search_in unicode_escape_pattern s ≡ true → IsDecoded s (unescape s)

  -- What the guard promises of each value that it finds.
  abbrev pub IsClean : Text → List PathPart → Json → Type 0
  IsClean provider path (Json.string s) =
      IsApproved s
      × (is_name path ≡ false → is_passed_over (stripped_of s) ≡ false → IsPlain (stripped_of s))
  IsClean provider path (Json.integer n) = is_safe_protocol_number provider path ≡ true
  IsClean provider path (Json.float n) = is_safe_protocol_number provider path ≡ true
  IsClean provider path value = Unit

  vet-All :
      (s : Text)
      → vet u codec detect tokens values s ≡ ok tt
      → All (λ (e : Entity). contains e.text values ≡ true) (detect s)
  unfolding vet
  vet-All s h = elim (Option-cases (codec.detector_error s)) [
    | inl e ↦ All-not-any _ _ (violation-ok _ (ground (arith, h, e)))
    | inr (er, e) ↦ absurd (ground (arith, h, e))
  ]

  inspect_text-IsApproved :
      (s : Text) → inspect_text u codec detect tokens values s ≡ ok tt → IsApproved s
  unfolding inspect_text
  inspect_text-IsApproved s h =
      let (a, b) = then_check-ok _ _ h in (All-not-any _ _ (violation-ok _ a), vet-All s b)

  module _ (nested : List PathPart → Json → Result (Unit {0})) where
    inspect_decoded-IsDecoded :
        (s decoded : Text)
        → inspect_decoded u codec detect tokens values s decoded ≡ ok tt
        → IsDecoded s decoded
    unfolding inspect_decoded
    inspect_decoded-IsDecoded s decoded h = elim (Bool-cases (decoded == s)) [
      | inl e ↦ inl ((eq_iff decoded s).0 e)
      | inr e ↦ inr (vet-All decoded (rw e at h))
    ]

    views-IsPlain :
        (s : Text)
        → violation (is_base64_content s || fullmatch hex_pattern s) ≡ ok tt
        → inspect_percent u codec detect tokens values s ≡ ok tt
        → inspect_escapes u codec detect tokens values s ≡ ok tt
        → IsPlain s
    unfolding inspect_percent inspect_escapes
    views-IsPlain s h a b =
        let clear = violation-ok _ h in
        record {
          base64 = ground (arith, clear);
          hex = ground (arith, clear);
          percent = λ many. inspect_decoded-IsDecoded s _ (ground (arith, a, many));
          escapes = λ found. inspect_decoded-IsDecoded s _ (ground (arith, b, found));
        }

    pub inspect_encoded-IsPlain :
        (s : Text) (path : List PathPart)
        → is_passed_over (strip u s) ≡ false
        → inspect_encoded u codec detect tokens values nested s path ≡ ok tt
        → IsPlain (strip u s)
          × (inspect_json u codec detect tokens values nested (strip u s) path ≡ ok tt)
    unfolding inspect_encoded
    inspect_encoded-IsPlain s path short h =
        let (bad, rest) =
          then_check-ok _ _ (looked_into-ok _ (is_passed_over (strip u s)) _ h short) in
        let (json, views) = then_check-ok _ _ rest in
        let (percent, escapes) = then_check-ok _ _ views in
        (views-IsPlain (strip u s) bad percent escapes, json)

    pub inspect_json-nested :
        (s : Text) (path : List PathPart) (v : Json)
        → opens_json s ≡ true
        → codec.loads s ≡ ok v
        → is_container v ≡ true
        → inspect_json u codec detect tokens values nested s path ≡ ok tt
        → nested (PathPart.key (codes "<encoded-json>") ∷ path) v ≡ ok tt
    unfolding inspect_json
    inspect_json-nested s path v opens loaded container h =
        ground (arith, h, opens, loaded, container)

    -- The two parts of the inspection of a text.
    pub inspect_string-ok :
        (s : Text) (path : List PathPart)
        → inspect_string u codec detect tokens values nested path s ≡ ok tt
        → IsApproved s
          × (is_name path ≡ false
              → inspect_encoded u codec detect tokens values nested (erase tokens s) path ≡ ok tt)
    unfolding inspect_string
    inspect_string-ok s path h =
        let (a, b) = then_check-ok _ _ h in
        (inspect_text-IsApproved s a, λ plain. ground (arith, b, plain))

    module _ (provider : Text) where
      abbrev pub Passes : List PathPart → Json → Type 0
      Passes path v = inspect_value u codec detect tokens values nested provider path v ≡ ok tt

      pub Passes-IsClean :
          (path : List PathPart) (v : Json) → Passes path v → IsClean provider path v
      unfolding inspect_value
      Passes-IsClean path (Json.string s) h =
          let (a, b) = inspect_string-ok s path h in
          (a, λ plain short. (inspect_encoded-IsPlain (erase tokens s) path short (b plain)).0)
      Passes-IsClean path (Json.integer n) h = ground (arith, violation-ok _ h)
      Passes-IsClean path (Json.float n) h = ground (arith, violation-ok _ h)
      Passes-IsClean path v h = tt

      pub item-Passes :
          (path : List PathPart) (m n : ℕ) (xs : Items) (x : Json)
          → inspect_items u codec detect tokens values nested provider path m xs ≡ ok tt
          → item_at n xs ≡ some x
          → Passes (PathPart.index (m + n) ∷ path) x
      unfolding inspect_items
      item-Passes path m n Items.nil x h e = absurd (cc)
      item-Passes path m zero (Items.cons y xs) x h e =
          let same : y ≡ x = ground arith in
          let place : m + 0 ≡ m = omega arith in rw (place, ← same) ((then_check-ok _ _ h).0)
      item-Passes path m (suc n) (Items.cons y xs) x h e =
          let place : m + suc n ≡ suc m + n = omega arith in
          rw place (item-Passes path (suc m) n xs x (then_check-ok _ _ h).1 e)

      pub field-Passes :
          (path : List PathPart) (k : Text) (v : Json) (fs : Fields)
          → inspect_fields u codec detect tokens values nested provider path fs ≡ ok tt
          → HasField k v fs
          → Passes (PathPart.key (codes "<key>") ∷ path) (Json.string k)
            × Passes (PathPart.key k ∷ path) v
      unfolding inspect_fields
      field-Passes path k v Fields.end h m = elim m [ ]
      field-Passes path k v (Fields.field j w fs) h (inl e) =
          let (a, b) = then_check-ok _ _ h in
          (
            subst (λ (l : Text). Passes (PathPart.key (codes "<key>") ∷ path) (Json.string l)) e.0
                a,
            subst (λ (l : Text). Passes (PathPart.key l ∷ path) v) e.0
                (subst (λ (x : Json). Passes (PathPart.key j ∷ path) x) e.1
                  (then_check-ok _ _ b).0),
          )
      field-Passes path k v (Fields.field j w fs) h (inr m) =
          field-Passes path k v fs (then_check-ok _ _ (then_check-ok _ _ h).1).1 m
