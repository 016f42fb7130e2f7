-- ===== src/Outbound/Kept.antt =====
-- app/proxy/outbound_sanitizer.py: what masking a text keeps of the state, sanitizing a payload keeps.
use maskgate.Base.{
  Bool, Exec, Keeps, Keeps-bind, Keeps-lift, Keeps-pure, Keeps-raise, List, Text, [], codes,
  if-holds, lift, list_eq, nat_eq, not, option_eq, pair_eq, reverse, suc, unsafe_protocol, ℕ, ◌==◌,
  ◌||◌, ◌∷◌,
}
use maskgate.Json.{Json, Items, Fields, append_field}
use maskgate.PolicyV2.{PathPart}
use maskgate.OutputGuard.{path_keys}
use maskgate.Outbound.{
  stored_key, checked_string, is_protocol_string, is_valid_protocol_string, judged_string,
  sanitize_string, sanitize_value, sanitize_items, sanitize_fields, sanitize_outbound_payload,
}

module _ {S : Type 0} {P : S → Type 0} (mask : List PathPart → Text → Exec S Text) (validate : Bool)
    (kept : (path : List PathPart) (t : Text) → Keeps P (mask path t)) where
  checked-Keeps :
      (keys : List Text) (value masked : Text)
      → Keeps P (checked_string mask validate keys value masked)
  unfolding checked_string
  checked-Keeps keys value masked = if-holds (Keeps P) (not validate) _ _ (Keeps-pure masked) (
      if-holds (Keeps P) (not (masked == value) || not (is_valid_protocol_string keys value)) _ _
        (Keeps-raise unsafe_protocol) (Keeps-pure value))

  string-Keeps : (path : List PathPart) (s : Text) → Keeps P (sanitize_string mask validate path s)
  unfolding sanitize_string judged_string
  string-Keeps path s = Keeps-bind (mask path s) _ (kept path s) (λ masked.
      if-holds (Keeps P) (is_protocol_string (path_keys (reverse path))) _ _
        (checked-Keeps (path_keys (reverse path)) s masked) (Keeps-pure masked))

  mutual
    unfolding sanitize_value

    value-Keeps : (path : List PathPart) (v : Json) → Keeps P (sanitize_value mask validate path v)
    value-Keeps path (Json.string s) =
        Keeps-bind (sanitize_string mask validate path s) _ (string-Keeps path s)
          (λ t. Keeps-pure (Json.string t))
    value-Keeps path (Json.array xs) =
        Keeps-bind (sanitize_items mask validate path 0 xs) _ (items-Keeps path 0 xs)
          (λ ys. Keeps-pure (Json.array ys))
    value-Keeps path (Json.object fs) =
        Keeps-bind (sanitize_fields mask validate path Fields.end fs) _
          (fields-Keeps path Fields.end fs) (λ gs. Keeps-pure (Json.object gs))
    value-Keeps path Json.null = Keeps-pure Json.null
    value-Keeps path (Json.boolean b) = Keeps-pure (Json.boolean b)
    value-Keeps path (Json.integer n) = Keeps-pure (Json.integer n)
    value-Keeps path (Json.float n) = Keeps-pure (Json.float n)

    items-Keeps :
        (path : List PathPart) (n : ℕ) (xs : Items)
        → Keeps P (sanitize_items mask validate path n xs)
    items-Keeps path n Items.nil = Keeps-pure Items.nil
    items-Keeps path n (Items.cons x xs) =
        Keeps-bind (sanitize_value mask validate (PathPart.index n ∷ path) x) _
          (value-Keeps (PathPart.index n ∷ path) x)
          (λ y.
            Keeps-bind (sanitize_items mask validate path (suc n) xs) _
              (items-Keeps path (suc n) xs) (λ ys. Keeps-pure (Items.cons y ys)))

    fields-Keeps :
        (path : List PathPart) (done fs : Fields)
        → Keeps P (sanitize_fields mask validate path done fs)
    fields-Keeps path done Fields.end = Keeps-pure done
    fields-Keeps path done (Fields.field k v fs) =
        Keeps-bind (mask (PathPart.key (codes "<key>") ∷ path) k) _
          (kept (PathPart.key (codes "<key>") ∷ path) k)
          (λ masked.
            Keeps-bind (lift (stored_key masked done)) _ (Keeps-lift (stored_key masked done))
              (λ key.
                Keeps-bind (sanitize_value mask validate (PathPart.key k ∷ path) v) _
                  (value-Keeps (PathPart.key k ∷ path) v)
                  (λ w. fields-Keeps path (append_field key w done) fs)))

  pub sanitize-Keeps :
      (payload : Fields) → Keeps P (sanitize_outbound_payload mask validate payload)
  unfolding sanitize_outbound_payload
  sanitize-Keeps payload = fields-Keeps [] Fields.end payload
