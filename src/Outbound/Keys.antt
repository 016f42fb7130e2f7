-- ===== src/Outbound/Keys.antt =====
-- app/proxy/outbound_sanitizer.py: the loop for a free key ends, with a key that is not there yet.
use maskgate.Base.{
  Bool-cases, List, Text, [], ap, arith, codes, decimal, digits_onto, drop, eq_iff, false,
  if◌then◌else◌, inl, inr, length, list_eq, ltb, nat_eq, ok, option_eq, pair_eq, refl, some, suc,
  sym, true, zero, ℕ, ◌%◌, ◌*◌, ◌++◌, ◌+◌, ◌-◌, ◌/◌, ◌<◌, ◌==◌, ◌∙◌, ◌∷◌, ◌≡◌, ◌≢◌, ◌≤◌, ◌⊎◌,
}
use maskgate.Json.{Fields, has_field}
use maskgate.Outbound.{numbered_key, free_key, field_count, stored_key}

-- The number that decimal digits spell, behind the digits that `n` stands for.
abbrev spelled_onto : ℕ → Text → ℕ
spelled_onto n [] = n
spelled_onto n (c ∷ s) = spelled_onto (n * 10 + (c - 48)) s

spelled_onto-digits_onto :
    (fuel n : ℕ) (acc : Text)
    → n < fuel
    → spelled_onto 0 (digits_onto fuel n acc) ≡ spelled_onto n acc
unfolding digits_onto
spelled_onto-digits_onto zero n acc h = absurd (omega arith)
spelled_onto-digits_onto (suc fuel) n acc h = elim (Bool-cases (ltb n 10)) [
  | inl e ↦
      let digit : 0 * 10 + (48 + n - 48) ≡ n = omega arith in
      rw e (ap (λ (m : ℕ). spelled_onto m acc) digit)
  | inr e ↦
      let whole : n / 10 * 10 + (48 + n % 10 - 48) ≡ n = omega arith in
      rw e (
        spelled_onto-digits_onto fuel (n / 10) ((48 + n % 10) ∷ acc) (ground arith)
        ∙ ap (λ (m : ℕ). spelled_onto m acc) whole)
]

decimal_injective : (n m : ℕ) → decimal n ≡ decimal m → n ≡ m
unfolding decimal
decimal_injective n m e =
    sym (spelled_onto-digits_onto (suc n) n [] (omega arith))
    ∙ ap (λ (s : Text). spelled_onto 0 s) e
    ∙ spelled_onto-digits_onto (suc m) m [] (omega arith)

drop-append : {A : Type 0} (xs ys : List A) → drop (length xs) (xs ++ ys) ≡ ys
drop-append [] ys = refl
drop-append (x ∷ xs) ys = drop-append xs ys

append_cancel : {A : Type 0} (xs ys zs : List A) → xs ++ ys ≡ xs ++ zs → ys ≡ zs
append_cancel xs ys zs e =
    sym (drop-append xs ys) ∙ ap (λ l. drop (length xs) l) e ∙ drop-append xs zs

numbered_key_injective : (base : Text) (n m : ℕ) → numbered_key base n ≡ numbered_key base m → n ≡ m
numbered_key_injective base n m e =
    decimal_injective n m (append_cancel (codes "__MGKEY_") _ _ (append_cancel base _ _ e))

-- The fields under other keys.
drop_field : Text → Fields → Fields
drop_field k Fields.end = Fields.end
drop_field k (Fields.field j v fs) =
    let rest = drop_field k fs in if j == k then rest else Fields.field j v rest

has_field-drop_field :
    (k j : Text) (fs : Fields) → k ≢ j → has_field j (drop_field k fs) ≡ has_field j fs
unfolding has_field drop_field
has_field-drop_field k j Fields.end h = refl
has_field-drop_field k j (Fields.field i v fs) h =
    ground (arith, h, eq_iff i k, eq_iff i j, has_field-drop_field k j fs)

drop_field-shorter_le : (k : Text) (fs : Fields) → field_count (drop_field k fs) ≤ field_count fs
unfolding drop_field field_count
drop_field-shorter_le k Fields.end = omega arith
drop_field-shorter_le k (Fields.field i v fs) = ground (arith, drop_field-shorter_le k fs)

drop_field-shorter :
    (k : Text) (fs : Fields)
    → has_field k fs ≡ true
    → field_count (drop_field k fs) < field_count fs
unfolding has_field drop_field field_count
drop_field-shorter k Fields.end h = absurd (cc)
drop_field-shorter k (Fields.field i v fs) h =
    ground (arith, drop_field-shorter k fs, drop_field-shorter_le k fs)

-- `d` is what is left of `done` without the keys that have been tried.
free_key-found :
    (fuel suffix : ℕ) (base : Text) (done d : Fields)
    → ((n : ℕ)
        → suffix ≤ n
        → has_field (numbered_key base n) d ≡ has_field (numbered_key base n) done)
    → field_count d < fuel
    → (n : ℕ) × (free_key fuel suffix base done ≡ some (numbered_key base n))
      × (has_field (numbered_key base n) done ≡ false)
unfolding free_key
free_key-found zero suffix base done d same h = absurd (omega arith)
free_key-found (suc fuel) suffix base done d same h =
    let here = numbered_key base suffix in
    elim (Bool-cases (has_field here done)) [
      | inr e ↦ (suffix, rw e refl, e)
      | inl e ↦
          let taken : has_field here d ≡ true = same suffix (omega arith) ∙ e in
          let shorter = drop_field-shorter here d taken in
          rw e (
            free_key-found fuel (suc suffix) base done (drop_field here d)
              (λ n later.
                has_field-drop_field here (numbered_key base n) d
                  (λ q. absurd (omega (arith, later, numbered_key_injective base suffix n q)))
                ∙ same n (omega (arith, later)))
              (omega arith))
    ]

-- A key is stored as it is, or numbered if it is there already, and then under a number that is free.
pub stored_key-fresh :
    (key : Text) (done : Fields)
    → (k : Text) × (stored_key key done ≡ ok k)
      × (has_field k done ≡ false)
      × ((k ≡ key) ⊎ ((n : ℕ) × (k ≡ numbered_key key n)))
unfolding stored_key
stored_key-fresh key done = elim (Bool-cases (has_field key done)) [
  | inr e ↦ (key, rw e refl, e, inl refl)
  | inl e ↦
      let (n, found, free) =
        free_key-found (suc (field_count done)) 2 key done done (λ n h. refl) (omega arith) in
      (numbered_key key n, rw (e, found) refl, free, inr (n, refl))
]
