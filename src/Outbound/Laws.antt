-- ===== src/Outbound/Laws.antt =====
-- app/proxy/outbound_sanitizer.py: what a sanitized payload is.
use maskgate.Base.{
  Bool, Bool-cases, Exec, List, Text, [], ap, arith, codes, eq_iff, false, if◌then◌else◌, inl, inr,
  list_eq, nat_eq, ok, option_eq, pair_eq, refl, resume-ok, reverse, subst, suc, sym, true, ℕ, ◌&&◌,
  ◌==◌, ◌∙◌, ◌∷◌, ◌≡◌, ◌⊎◌,
}
use maskgate.Json.{Json, Integer, Items, Fields, has_field, append_field}
use maskgate.PolicyV2.{PathPart}
use maskgate.OutputGuard.{path_keys}
use maskgate.Outbound.{
  is_protocol_string, is_valid_protocol_string, numbered_key, stored_key, checked_string,
  judged_string, sanitize_string, sanitize_value, sanitize_items, sanitize_fields,
  sanitize_outbound_payload,
}
use maskgate.Outbound.Keys.{stored_key-fresh}

-- No key stands twice in a dict.
abbrev pub HasDistinctKeys : Fields → Type 0
HasDistinctKeys Fields.end = Unit
HasDistinctKeys (Fields.field k v fs) = (has_field k fs ≡ false) × HasDistinctKeys fs

abbrev pub append_fields : Fields → Fields → Fields
append_fields Fields.end gs = gs
append_fields (Fields.field k v fs) gs = Fields.field k v (append_fields fs gs)

append_fields-append_field :
    (k : Text) (v : Json) (fs gs : Fields)
    → append_fields (append_field k v fs) gs ≡ append_fields fs (Fields.field k v gs)
unfolding append_field
append_fields-append_field k v Fields.end gs = refl
append_fields-append_field k v (Fields.field j w fs) gs =
    ap (λ (hs : Fields). Fields.field j w hs) (append_fields-append_field k v fs gs)

append_fields-end : (fs : Fields) → append_fields fs Fields.end ≡ fs
append_fields-end Fields.end = refl
append_fields-end (Fields.field j w fs) =
    ap (λ (hs : Fields). Fields.field j w hs) (append_fields-end fs)

has_field-append_field :
    (k j : Text) (v : Json) (fs : Fields)
    → has_field j (append_field k v fs) ≡ (if has_field j fs then true else k == j)
unfolding has_field append_field
has_field-append_field k j v Fields.end = ground arith
has_field-append_field k j v (Fields.field i w fs) = ground (arith, has_field-append_field k j v fs)

append_field-HasDistinctKeys :
    (k : Text) (v : Json) (fs : Fields)
    → has_field k fs ≡ false
    → HasDistinctKeys fs
    → HasDistinctKeys (append_field k v fs)
unfolding has_field append_field
append_field-HasDistinctKeys k v Fields.end h d = (refl, tt)
append_field-HasDistinctKeys k v (Fields.field i w fs) h d = ground (
  arith,
  append_field-HasDistinctKeys k v fs,
  has_field-append_field k i v fs,
  eq_iff i k,
  eq_iff k i,
)

module _ {S : Type 0} (mask : List PathPart → Text → Exec S Text) (validate : Bool) where
  -- In some state masking the text at this path gives this result.
  abbrev pub Masked : List PathPart → Text → Text → Type 0
  Masked path s t = (a : S) × ((mask path s a).0 ≡ ok t)

  abbrev pub keys_of : List PathPart → List Text
  keys_of path = path_keys (reverse path)

  mutual
    -- A sanitized value has the shape of the given one. A protocol identifier is valid, masking leaves
    -- it as it is, and so it stays; every other text is masked.
    pub data Image : List PathPart → Json → Json → Type 0 where
      identifier :
          (path : List PathPart) (s : Text)
          → is_protocol_string (keys_of path) && validate ≡ true
          → is_valid_protocol_string (keys_of path) s ≡ true
          → Masked path s s
          → Image path (Json.string s) (Json.string s)
      masked :
          (path : List PathPart) (s t : Text)
          → is_protocol_string (keys_of path) && validate ≡ false
          → Masked path s t
          → Image path (Json.string s) (Json.string t)
      listed :
          {path : List PathPart} {xs ys : Items}
          → Images path 0 xs ys
          → Image path (Json.array xs) (Json.array ys)
      mapped :
          {path : List PathPart} {fs gs : Fields}
          → FieldImages path fs gs
          → HasDistinctKeys gs
          → Image path (Json.object fs) (Json.object gs)
      null : {path : List PathPart} → Image path Json.null Json.null
      boolean : {path : List PathPart} (b : Bool) → Image path (Json.boolean b) (Json.boolean b)
      integer : {path : List PathPart} (n : Integer) → Image path (Json.integer n) (Json.integer n)
      float : {path : List PathPart} (n : ℕ) → Image path (Json.float n) (Json.float n)

    pub data Images : List PathPart → ℕ → Items → Items → Type 0 where
      no_items : {path : List PathPart} {n : ℕ} → Images path n Items.nil Items.nil
      next_item :
          {path : List PathPart} {n : ℕ} {x y : Json} {xs ys : Items}
          → Image (PathPart.index n ∷ path) x y
          → Images path (suc n) xs ys
          → Images path n (Items.cons x xs) (Items.cons y ys)

    -- A key is masked too, and numbered where another key has become the same.
    pub data FieldImages : List PathPart → Fields → Fields → Type 0 where
      no_fields : {path : List PathPart} → FieldImages path Fields.end Fields.end
      next_field :
          {path : List PathPart} {k t l : Text} {v w : Json} {fs gs : Fields}
          → Masked (PathPart.key (codes "<key>") ∷ path) k t
          → (l ≡ t) ⊎ ((n : ℕ) × (l ≡ numbered_key t n))
          → Image (PathPart.key k ∷ path) v w
          → FieldImages path fs gs
          → FieldImages path (Fields.field k v fs) (Fields.field l w gs)

  judged-Image :
      (path : List PathPart) (s m t : Text) (a : S)
      → Masked path s m
      → (judged_string mask validate (keys_of path) s m a).0 ≡ ok t
      → Image path (Json.string s) (Json.string t)
  unfolding judged_string checked_string
  judged-Image path s m t a masking h =
      elim (Bool-cases (is_protocol_string (keys_of path) && validate)) [
        | inl e ↦
            let same : s ≡ t = ground (arith, h, e) in
            let unmasked : m ≡ s = ground (arith, h, e, eq_iff m s) in
            subst (λ (x : Text). Image path (Json.string s) (Json.string x)) same
              (identifier path s e (ground (arith, h, e)) (subst (Masked path s) unmasked masking))
        | inr e ↦
            let same : m ≡ t = ground (arith, h, e) in
            masked path s t e (subst (Masked path s) same masking)
      ]

  string-Image :
      (path : List PathPart) (s t : Text) (a : S)
      → (sanitize_string mask validate path s a).0 ≡ ok t
      → Image path (Json.string s) (Json.string t)
  unfolding sanitize_string
  string-Image path s t a h =
      let (m, e, k) = resume-ok _ _ (mask path s a).1 h in judged-Image path s m t _ (a, e) k

  mutual
    unfolding sanitize_value

    value-Image :
        (path : List PathPart) (v w : Json) (a : S)
        → (sanitize_value mask validate path v a).0 ≡ ok w
        → Image path v w
    value-Image path Json.null w a h = subst (Image path Json.null) (ground (arith, h)) null
    value-Image path (Json.boolean b) w a h =
        subst (Image path (Json.boolean b)) (ground (arith, h)) (boolean b)
    value-Image path (Json.integer n) w a h =
        subst (Image path (Json.integer n)) (ground (arith, h)) (integer n)
    value-Image path (Json.float n) w a h =
        subst (Image path (Json.float n)) (ground (arith, h)) (float n)
    value-Image path (Json.string s) w a h =
        let (t, e, k) = resume-ok _ _ (sanitize_string mask validate path s a).1 h in
        subst (Image path (Json.string s)) (ground (arith, k)) (string-Image path s t a e)
    value-Image path (Json.array xs) w a h =
        let (ys, e, k) = resume-ok _ _ (sanitize_items mask validate path 0 xs a).1 h in
        subst (Image path (Json.array xs)) (ground (arith, k))
          (listed (items-Images path 0 xs ys a e))
    value-Image path (Json.object fs) w a h =
        let (gs, e, k) = resume-ok _ _ (sanitize_fields mask validate path Fields.end fs a).1 h in
        let (new, same, image, distinct) = fields-Images path Fields.end fs gs a e in
        subst (Image path (Json.object fs)) (ground (arith, k))
          (mapped (subst (FieldImages path fs) (sym same) image) (distinct tt))

    items-Images :
        (path : List PathPart) (n : ℕ) (xs ys : Items) (a : S)
        → (sanitize_items mask validate path n xs a).0 ≡ ok ys
        → Images path n xs ys
    items-Images path n Items.nil ys a h =
        subst (Images path n Items.nil) (ground (arith, h)) no_items
    items-Images path n (Items.cons x xs) ys a h =
        let (y, e, k) =
          resume-ok _ _ (sanitize_value mask validate (PathPart.index n ∷ path) x a).1 h in
        let b = (sanitize_value mask validate (PathPart.index n ∷ path) x a).1 in
        let (zs, f, l) = resume-ok _ _ (sanitize_items mask validate path (suc n) xs b).1 k in
        subst (Images path n (Items.cons x xs)) (ground (arith, l)) (
          next_item (value-Image (PathPart.index n ∷ path) x y a e)
            (items-Images path (suc n) xs zs b f))

    fields-Images :
        (path : List PathPart) (done fs out : Fields) (a : S)
        → (sanitize_fields mask validate path done fs a).0 ≡ ok out
        → (gs : Fields) × (out ≡ append_fields done gs)
          × FieldImages path fs gs
          × (HasDistinctKeys done → HasDistinctKeys out)
    fields-Images path done Fields.end out a h =
        let same : done ≡ out = ground (arith, h) in
        (
          Fields.end,
          sym same ∙ sym (append_fields-end done),
          no_fields,
          λ d. subst HasDistinctKeys same d,
        )
    fields-Images path done (Fields.field k v fs) out a h =
        let place = PathPart.key (codes "<key>") ∷ path in
        let (t, e, h1) = resume-ok _ _ (mask place k a).1 h in
        let b = (mask place k a).1 in
        let (l, f, h2) = resume-ok (stored_key t done) _ b h1 in
        let (l', found, free, numbered) = stored_key-fresh t done in
        let same : l' ≡ l = ground (arith, f, found) in
        let (w, g, h3) =
          resume-ok _ _ (sanitize_value mask validate (PathPart.key k ∷ path) v b).1 h2 in
        let c = (sanitize_value mask validate (PathPart.key k ∷ path) v b).1 in
        let (gs, shape, image, distinct) = fields-Images path (append_field l w done) fs out c h3 in
        (
          Fields.field l w gs,
          shape ∙ append_fields-append_field l w done gs,
          next_field (a, e)
              (subst (λ (x : Text). (x ≡ t) ⊎ ((n : ℕ) × (x ≡ numbered_key t n))) same numbered)
              (value-Image (PathPart.key k ∷ path) v w b g) image,
          λ d. distinct (
              append_field-HasDistinctKeys l w done
                (subst (λ (x : Text). has_field x done ≡ false) same free) d),
        )

  -- If it returns, what is returned has the shape of the payload. Every text in it, keys included,
  -- is what masking makes of the text in its place; where protocol identifiers are validated, they
  -- are valid and masking leaves them as they are; and no key stands twice in a dict, keys that
  -- have become the same being numbered.
  pub sanitize_lem :
      (payload out : Fields) (a : S)
      → (sanitize_outbound_payload mask validate payload a).0 ≡ ok out
      → FieldImages [] payload out × HasDistinctKeys out
  unfolding sanitize_outbound_payload
  sanitize_lem payload out a h =
      let (gs, same, image, distinct) = fields-Images [] Fields.end payload out a h in
      (subst (FieldImages [] payload) (sym same) image, distinct tt)
