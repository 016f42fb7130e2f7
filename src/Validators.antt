-- ===== src/Validators.antt =====
-- app/privacy/detection/validators.py: check digits.
pub mod Luhn
pub mod Iban
use maskgate.Base.{
  Bool, List, Text, [], all, decimal, drop, false, if◌then◌else◌, leb, length, list_eq, ltb, nat_eq,
  not, option_eq, pair_eq, suc, take, zero, ℕ, ◌%◌, ◌&&◌, ◌*◌, ◌++◌, ◌+◌, ◌-◌, ◌==◌, ◌||◌, ◌∷◌,
}
use maskgate.Unicode.{Unicode}
use maskgate.Pattern.{is_digit, is_upper_letter, is_lower_letter, remove_class}

-- `int(character)` of an ASCII digit
abbrev pub digit_of : ℕ → ℕ
digit_of c = c - 48

-- `isascii() and isdigit()`
abbrev pub is_digits : Text → Bool
is_digits s = not (s == []) && all is_digit s

-- The contribution of a digit to Luhn's sum.
unfoldable pub luhn_digit : Bool → ℕ → ℕ
luhn_digit doubled d = if doubled then (if ltb 9 (d * 2) then d * 2 - 9 else d * 2) else d

-- The loop of `is_valid_luhn` from `index` on.
unfoldable pub luhn_sum : ℕ → ℕ → Text → ℕ
unfolding luhn_digit
luhn_sum parity index [] = 0
luhn_sum parity index (c ∷ s) =
    luhn_digit (index % 2 == parity) (digit_of c) + luhn_sum parity (suc index) s

-- `is_valid_luhn` behind `_digits`
unfoldable pub luhn_valid : Text → Bool
unfolding luhn_sum
luhn_valid s =
    is_digits s && leb 13 (length s) && leb (length s) 19 && (luhn_sum (length s % 2) 0 s % 10 == 0)

-- `sum(a * b for a, b in zip(digits, weights))`
unfoldable pub weighted_sum : List ℕ → Text → ℕ
weighted_sum [] s = 0
weighted_sum (w ∷ ws) [] = 0
weighted_sum (w ∷ ws) (c ∷ s) = digit_of c * w + weighted_sum ws s

-- `numbers[n]`, inside the text
unfoldable pub digit_at : ℕ → Text → ℕ
digit_at n [] = 0
digit_at zero (c ∷ s) = digit_of c
digit_at (suc n) (c ∷ s) = digit_at n s

-- `is_valid_inn` behind `_digits`
unfoldable pub inn_valid : Text → Bool
unfolding weighted_sum digit_at
inn_valid s =
    is_digits s
    && (if length s == 10
        then weighted_sum (2 ∷ 4 ∷ 10 ∷ 3 ∷ 5 ∷ 9 ∷ 4 ∷ 6 ∷ 8 ∷ []) s % 11 % 10 == digit_at 9 s
        else if length s == 12
        then (weighted_sum (7 ∷ 2 ∷ 4 ∷ 10 ∷ 3 ∷ 5 ∷ 9 ∷ 4 ∷ 6 ∷ 8 ∷ []) s % 11 % 10
            == digit_at 10 s)
          && (weighted_sum (3 ∷ 7 ∷ 2 ∷ 4 ∷ 10 ∷ 3 ∷ 5 ∷ 9 ∷ 4 ∷ 6 ∷ 8 ∷ []) s % 11 % 10
              == digit_at 11 s)
        else false)

unfoldable pub snils_checksum : ℕ → ℕ
snils_checksum weighted =
    if ltb weighted 100
    then weighted
    else if weighted == 100 || weighted == 101
    then 0
    else if weighted % 101 == 100
    then 0
    else weighted % 101

-- `is_valid_snils` behind `_digits`
unfoldable pub snils_valid : Text → Bool
unfolding weighted_sum digit_at snils_checksum
snils_valid s =
    is_digits s
    && (length s == 11)
    && (snils_checksum (weighted_sum (9 ∷ 8 ∷ 7 ∷ 6 ∷ 5 ∷ 4 ∷ 3 ∷ 2 ∷ 1 ∷ []) s)
        == digit_at 9 s * 10 + digit_at 10 s)

abbrev pub is_letter : ℕ → Bool
is_letter c = is_upper_letter c || is_lower_letter c

-- The inner loop of `is_valid_iban`.
unfoldable pub iban_digits : ℕ → Text → ℕ
iban_digits remainder [] = remainder
iban_digits remainder (c ∷ s) = iban_digits ((remainder * 10 + digit_of c) % 97) s

-- `encoded`
abbrev pub iban_code : ℕ → Text
iban_code c = if is_digit c then c ∷ [] else decimal (c - b'A' + 10)

-- The outer loop.
unfoldable pub iban_remainder : ℕ → Text → ℕ
unfolding iban_digits
iban_remainder remainder [] = remainder
iban_remainder remainder (c ∷ s) = iban_remainder (iban_digits remainder (iban_code c)) s

-- `is_valid_iban` behind the removal of white space and `upper`
unfoldable pub iban_valid : Text → Bool
unfolding iban_remainder
iban_valid s =
    leb 15 (length s)
    && leb (length s) 34
    && all (λ c. is_letter c || is_digit c) s
    && all is_letter (take 2 s)
    && all is_digit (take 2 (drop 2 s))
    && (iban_remainder 0 (drop 4 s ++ take 4 s) == 1)

module _ (u : Unicode) where
  -- `_digits`
  unfoldable pub digits_only : Text → Text
  digits_only s = remove_class (λ c. u.is_space c || c == b'-') s

  unfoldable pub is_valid_luhn : Text → Bool
  unfolding digits_only luhn_valid
  is_valid_luhn s = luhn_valid (digits_only s)

  unfoldable pub is_valid_inn : Text → Bool
  unfolding digits_only inn_valid
  is_valid_inn s = inn_valid (digits_only s)

  unfoldable pub is_valid_snils : Text → Bool
  unfolding digits_only snils_valid
  is_valid_snils s = snils_valid (digits_only s)

  unfoldable pub is_valid_iban : Text → Bool
  unfolding iban_valid
  is_valid_iban s = iban_valid (u.upper (remove_class u.is_space s))
