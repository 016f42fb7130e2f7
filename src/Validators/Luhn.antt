-- ===== src/Validators/Luhn.antt =====
-- app/privacy/detection/validators.py: Luhn's check finds every mistyped digit.
use maskgate.Base.{
  Bool, Bool-cases, Text, [], all, arith, false, inl, inr, length, length-append, list_eq, nat_eq,
  option_eq, pair_eq, refl, suc, true, ℕ, ◌%◌, ◌++◌, ◌+◌, ◌<◌, ◌==◌, ◌∷◌, ◌≡◌, ◌≢◌,
}
use maskgate.Unicode.{Unicode}
use maskgate.Pattern.{is_digit}
use maskgate.Validators.{luhn_digit, luhn_sum, luhn_valid, digit_of, digits_only, is_valid_luhn}

-- Different digits contribute differently, each less than ten.
luhn_digit-injective :
    (doubled : Bool) (d e : ℕ)
    → d < 10
    → e < 10
    → luhn_digit doubled d ≡ luhn_digit doubled e
    → d ≡ e
unfolding luhn_digit
luhn_digit-injective doubled d e hd he h = ground arith

luhn_digit-small : (doubled : Bool) (d : ℕ) → d < 10 → luhn_digit doubled d < 10
unfolding luhn_digit
luhn_digit-small doubled d h = ground arith

-- The sum as the contribution of one digit and the rest.
luhn_sum-split :
    (parity index : ℕ) (before after : Text)
    → (doubled : Bool) × (rest : ℕ) × ((c : ℕ)
        → luhn_sum parity index (before ++ c ∷ after) ≡ luhn_digit doubled (digit_of c) + rest)
unfolding luhn_sum
luhn_sum-split parity index [] after =
    (index % 2 == parity, luhn_sum parity (suc index) after, λ c. refl)
luhn_sum-split parity index (b ∷ before) after =
    let (doubled, rest, sum) = luhn_sum-split parity (suc index) before after in
    (doubled, luhn_digit (index % 2 == parity) (digit_of b) + rest, λ c. omega (arith, sum c))

all-at :
    (before after : Text) (c : ℕ) → all is_digit (before ++ c ∷ after) ≡ true → is_digit c ≡ true
all-at [] after c h = ground arith
all-at (b ∷ before) after c h = all-at before after c (ground arith)

same_length :
    (before after : Text) (c d : ℕ) → length (before ++ c ∷ after) ≡ length (before ++ d ∷ after)
same_length before after c d =
    omega (arith, length-append before (c ∷ after), length-append before (d ∷ after))

digit_of-injective :
    (c d : ℕ) → is_digit c ≡ true → is_digit d ≡ true → digit_of c ≡ digit_of d → c ≡ d
digit_of-injective c d hc hd e = ground arith

digit_of-small : (c : ℕ) → is_digit c ≡ true → digit_of c < 10
digit_of-small c h = ground arith

sums_differ :
    (before after : Text) (c d : ℕ)
    → is_digit c ≡ true
    → is_digit d ≡ true
    → luhn_sum (length (before ++ c ∷ after) % 2) 0 (before ++ c ∷ after) % 10 ≡ 0
    → luhn_sum (length (before ++ d ∷ after) % 2) 0 (before ++ d ∷ after) % 10 ≡ 0
    → c ≡ d
sums_differ before after c d hc hd zero_c zero_d =
    let parity = length (before ++ c ∷ after) % 2 in
    let (doubled, rest, sum) = luhn_sum-split parity 0 before after in
    let small_c = luhn_digit-small doubled (digit_of c) (digit_of-small c hc) in
    let small_d = luhn_digit-small doubled (digit_of d) (digit_of-small d hd) in
    let same =
      luhn_digit-injective doubled (digit_of c) (digit_of d) (digit_of-small c hc)
        (digit_of-small d hd)
        (omega (
          arith,
          small_c,
          small_d,
          (rw (sum c) at zero_c),
          (rw (← same_length before after c d, sum d) at zero_d),
        )) in
    digit_of-injective c d hc hd same

luhn_valid-sum :
    (s : Text)
    → luhn_valid s ≡ true
    → (all is_digit s ≡ true) × (luhn_sum (length s % 2) 0 s % 10 ≡ 0)
unfolding luhn_valid
luhn_valid-sum s h = ground arith

-- A number that passes Luhn's check does not pass it with one of its digits replaced by another.
pub luhn_finds_error :
    (u : Unicode) (v w before after : Text) (c d : ℕ)
    → digits_only u v ≡ before ++ c ∷ after
    → digits_only u w ≡ before ++ d ∷ after
    → c ≢ d
    → is_valid_luhn u v ≡ true
    → is_valid_luhn u w ≡ false
unfolding is_valid_luhn
luhn_finds_error u v w before after c d hv hw differ valid =
    elim (Bool-cases (luhn_valid (digits_only u w))) [
      | inr e ↦ e
      | inl e ↦
          let (digits_v, zero_v) = luhn_valid-sum (before ++ c ∷ after) (rw hv at valid) in
          let (digits_w, zero_w) = luhn_valid-sum (before ++ d ∷ after) (rw hw at e) in
          absurd (
            differ (
              sums_differ before after c d (all-at before after c digits_v)
                (all-at before after d digits_w) zero_v zero_w))
    ]
