-- ===== src/Session/Syntax.antt =====
-- app/masking/anonymizer.py: what placeholder tokens look like.
use maskgate.Base.{
  Bool, Text, [], codes, if◌then◌else◌, list_eq, ltb, nat_eq, none, option_eq, pair_eq, some, suc,
  zero, ℕ, ◌%◌, ◌*◌, ◌++◌, ◌+◌, ◌-◌, ◌/◌, ◌==◌, ◌||◌, ◌∷◌,
}
use maskgate.Unicode.{Unicode}
use maskgate.Pattern.{
  Pattern, one, repeated, followed, either, literal, is_upper_letter, is_lower_letter, is_digit,
  between,
}

-- The base 32 alphabet `A-Z2-7`.
abbrev pub is_base32 : ℕ → Bool
is_base32 c = is_upper_letter c || between b'2' b'7' c

unfoldable pub base32_char : ℕ → ℕ
base32_char d = if ltb d 26 then b'A' + d else b'2' + (d - 26)

-- The lowest `count` base 32 digits of a number, before `acc`.
unfoldable pub base32_onto : ℕ → ℕ → Text → Text
unfolding base32_char
base32_onto zero n acc = acc
base32_onto (suc count) n acc = base32_onto count (n / 32) (base32_char (n % 32) ∷ acc)

-- `base64.b32encode(bytes).decode("ascii").rstrip("=")` of 16 bytes: 128 bits and two zero bits, in
-- 26 digits of five bits.
unfoldable pub opaque_id : ℕ → Text
unfolding base32_onto
opaque_id n = base32_onto 26 (n * 4) []

unfoldable pub opaque_token : ℕ → Text
unfolding opaque_id
opaque_token n = codes "<MG:" ++ opaque_id n ++ codes ">"

-- `<MG:[A-Z2-7]{26}>`
abbrev pub opaque_pattern : Pattern
opaque_pattern =
    followed (literal (codes "<MG:"))
      (followed (repeated 26 (some 0) (one is_base32)) (literal (codes ">")))

abbrev pub is_namespace_char : ℕ → Bool
is_namespace_char c = is_upper_letter c || is_lower_letter c || is_digit c || c == b'_' || c == b'-'

abbrev pub is_label_char : ℕ → Bool
is_label_char c = is_upper_letter c || is_digit c || c == b'_'

module _ (u : Unicode) where
  -- `RESERVED_TOKEN_PATTERN`
  abbrev pub reserved_pattern : Pattern
  reserved_pattern = either opaque_pattern (
      followed (literal (codes "<MG_")) (
        followed (repeated 4 (some 60) (one is_namespace_char)) (
          followed (literal (codes "_")) (
            followed (one is_upper_letter) (
              followed (repeated 0 none (one is_label_char)) (
                followed (literal (codes "_"))
                  (followed (repeated 1 none (one u.is_decimal)) (literal (codes ">")))))))))
