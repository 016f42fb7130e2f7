-- ===== src/Wire/Checked.antt =====
-- app/privacy/wire.py: the body that `check` hands out, and all that stands in it.
use maskgate.Base.{
  Bool-cases, List, Result, Result-cases, Text, [], arith, codes, err, false, inl, inr, length, ok,
  recursion, refl, subst, suc, zero, ℕ, ◌+◌, ◌∷◌, ◌≡◌,
}
use maskgate.Json.{Json, Fields}
use maskgate.Unicode.{Unicode}
use maskgate.PolicyV2.{PathPart}
use maskgate.Session.{Entity}
use maskgate.Wire.{
  PrivacyCheckedPayload, Codec, erase, inspect_wire, inspect_value, is_unsafe_target, check_actual,
  check, payload_of,
}
use maskgate.Wire.Laws.{
  Occurs, whole, item, name, member, spelled, IsClean, Passes, Passes-IsClean, item-Passes,
  field-Passes, inspect_string-ok, inspect_encoded-IsPlain, inspect_json-nested, stripped_of,
}

module _ (u : Unicode) (codec : Codec) (detect : Text → List Entity)
    (tokens values : List Text) where
  -- The inspection of the JSON values that texts spell.
  abbrev nest : ℕ → List PathPart → Json → Result (Unit {0})
  nest zero path v = err recursion
  nest (suc depth) path v =
      inspect_wire u codec detect tokens values depth (codes "encoded-json") path v

  abbrev PassesAt : ℕ → Text → List PathPart → Json → Type 0
  PassesAt depth p path v = Passes u codec detect tokens values (nest depth) p path v

  inspect-nest :
      (depth : ℕ) (p : Text) (path : List PathPart) (v : Json)
      → inspect_wire u codec detect tokens values depth p path v ≡ ok tt
      → PassesAt depth p path v
  unfolding inspect_wire
  inspect-nest zero p path v h = h
  inspect-nest (suc depth) p path v h = h

  nested-PassesAt :
      (depth : ℕ) (path : List PathPart) (v : Json)
      → nest depth path v ≡ ok tt
      → (d : ℕ) × PassesAt d (codes "encoded-json") path v
  nested-PassesAt zero path v h = absurd (cc)
  nested-PassesAt (suc depth) path v h = (depth, inspect-nest depth (codes "encoded-json") path v h)

  -- Each value that is found has passed the inspection, at some depth.
  Occurs-PassesAt :
      (provider : Text) (root : Json) (depth : ℕ)
      → PassesAt depth provider [] root
      → {p : Text} {path : List PathPart} {v : Json}
      → Occurs u codec detect tokens values provider root p path v
      → (d : ℕ) × PassesAt d p path v
  unfolding inspect_value
  Occurs-PassesAt provider root depth h whole = (depth, h)
  Occurs-PassesAt provider root depth h (item n {x} f e) =
      let (d, k) = Occurs-PassesAt provider root depth h f in
      let place : 0 + n ≡ n = omega arith in
      (d, rw place at (item-Passes u codec detect tokens values (nest d) _ _ 0 n _ x k e))
  Occurs-PassesAt provider root depth h (name k v f m) =
      let (d, i) = Occurs-PassesAt provider root depth h f in
      (d, (field-Passes u codec detect tokens values (nest d) _ _ k v _ i m).0)
  Occurs-PassesAt provider root depth h (member k {v} f m) =
      let (d, i) = Occurs-PassesAt provider root depth h f in
      (d, (field-Passes u codec detect tokens values (nest d) _ _ k v _ i m).1)
  Occurs-PassesAt provider root depth h
        (spelled {p} {path} s {v} f plain short opens loaded container) =
      let (d, i) = Occurs-PassesAt provider root depth h f in
      let inside = (inspect_string-ok u codec detect tokens values (nest d) s path i).1 plain in
      let json =
        (inspect_encoded-IsPlain u codec detect tokens values (nest d) (erase tokens s) path short
          inside).1 in
      nested-PassesAt d (PathPart.key (codes "<encoded-json>") ∷ path) v (
        inspect_json-nested u codec detect tokens values (nest d)
          (stripped_of u codec detect tokens values s) path v opens loaded container json)

  pub inspect_wire-IsClean :
      (provider : Text) (root : Json) (depth : ℕ)
      → inspect_wire u codec detect tokens values depth provider [] root ≡ ok tt
      → (p : Text) (path : List PathPart) (v : Json)
      → Occurs u codec detect tokens values provider root p path v
      → IsClean u codec detect tokens values p path v
  inspect_wire-IsClean provider root depth h p path v f =
      let (d, k) = Occurs-PassesAt provider root depth (inspect-nest depth provider [] root h) f in
      Passes-IsClean u codec detect tokens values (nest d) p path v k

  -- The payload stands in the body word for word, the target is safe, and all that the body holds when
  -- it is read again is clean.
  pub record IsChecked (provider target : Text) (payload : Json) (c : PrivacyCheckedPayload)
      : Type 0 where
    pub to_provider : c.provider ≡ provider
    pub to_target : c.target ≡ target
    pub safe_target : is_unsafe_target target ≡ false
    pub serialized : codec.dumps payload ≡ ok c.body
    pub contents :
        (fs : Fields) × (payload_of u codec detect c ≡ ok (Json.object fs))
        × ((p : Text) (path : List PathPart) (v : Json)
            → Occurs u codec detect tokens values provider (Json.object fs) p path v
            → IsClean u codec detect tokens values p path v)

  module _ (provider target : Text) (payload : Json) (c : PrivacyCheckedPayload) where
    actual-IsChecked :
        (body : Text) (loaded : Result Json)
        → is_unsafe_target target ≡ false
        → codec.dumps payload ≡ ok body
        → codec.loads body ≡ loaded
        → check_actual u codec detect provider target body tokens values loaded ≡ ok c
        → IsChecked provider target payload c
    unfolding check_actual payload_of
    actual-IsChecked body (ok (Json.object fs)) safe dumped loads h =
        elim (Result-cases
          (inspect_wire u codec detect tokens values (length body) provider [] (Json.object fs))) [
            | inl (a, e) ↦
                subst (IsChecked provider target payload) (ground (arith, h, e)) (record {
                  to_provider = refl;
                  to_target = refl;
                  safe_target = safe;
                  serialized = dumped;
                  contents = (
                    fs,
                    ground (arith, loads),
                    inspect_wire-IsClean provider (Json.object fs) (length body) e,
                  );
                })
            | inr (er, e) ↦ absurd (ground (arith, h, e))
          ]
    actual-IsChecked body _ safe dumped loads h = absurd (cc)

    -- A body that check hands out is the very payload, serialized, and goes to the very provider
    -- and target, which is safe. Whoever reads the body finds an object, and in all that stands in
    -- it every token and detected entity is approved, in the keys too, and every number stands at a
    -- known place of the protocol. A text that is no key, and that without approved tokens and
    -- surrounding white space is not empty and has at most 64 KiB, is looked into: it is no encoded
    -- content, hides no other entities behind Unicode escapes or two and more percent escapes, and
    -- where it spells a JSON object or array, the same holds of all that stands in that.
    pub check_lem :
        check u codec detect provider target payload tokens values ≡ ok c
        → IsChecked provider target payload c
    unfolding check
    check_lem h = elim (Bool-cases (is_unsafe_target target)) [
      | inl bad ↦ absurd (ground (arith, h, bad))
      | inr safe ↦ elim (Result-cases (codec.dumps payload)) [
        | inr (er, e) ↦ absurd (ground (arith, h, safe, e))
        | inl (body, e) ↦
            actual-IsChecked body (codec.loads body) safe e refl (ground (arith, h, safe, e))
      ]
    ]
