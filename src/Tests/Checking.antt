-- ===== src/Tests/Checking.antt =====
-- Check digits and canonical texts on concrete inputs.
use maskgate.Base.{
  Text, [], arith, codes, contains, decimal, drop, false, length, list_beq, list_eq, nat_eq, ok,
  option_eq, pair_eq, refl, take, true, ℕ, ◌%◌, ◌++◌, ◌∷◌, ◌≡◌, ◌≢◌, ◌≤◌,
}
use maskgate.Validators.{is_valid_luhn, digits_only, iban_remainder, iban_valid}
use maskgate.Validators.Luhn.{luhn_finds_error}
use maskgate.Validators.Iban.{number_from, iban_text, iban_valid_lem}
use maskgate.Canonical.{CanonicalText, from_text, original_span, canonical_of}
use maskgate.Canonical.Laws.{Traced, from_text_lem}
use maskgate.Tests.Samples.{ascii}

abbrev card : Text
card = codes "4111 1111 1111 1111"

abbrev typo : Text
typo = codes "4111 1111 1111 1112"

card_valid : is_valid_luhn ascii card ≡ true
unfolding is_valid_luhn list_beq maskgate.Pattern.remove_class
card_valid = refl

card_digits : digits_only ascii card ≡ codes "411111111111111" ++ b'1' ∷ []
unfolding digits_only maskgate.Pattern.remove_class
card_digits = refl

typo_digits : digits_only ascii typo ≡ codes "411111111111111" ++ b'2' ∷ []
unfolding digits_only maskgate.Pattern.remove_class
typo_digits = refl

abbrev right_digit : ℕ
right_digit = b'1'

abbrev wrong_digit : ℕ
wrong_digit = b'2'

right_is_not_wrong : right_digit ≢ wrong_digit
right_is_not_wrong h = omega arith

luhn_finds_error_example : is_valid_luhn ascii typo ≡ false
luhn_finds_error_example =
    luhn_finds_error ascii card typo (codes "411111111111111") [] right_digit wrong_digit
      card_digits typo_digits right_is_not_wrong card_valid

abbrev account : Text
account = codes "GB82WEST12345698765432"

iban_valid_lem_example :
    (iban_remainder 0 account ≡ number_from 0 (iban_text account) % 97)
    × (iban_valid account ≡ true
        → (15 ≤ length account)
          × (length account ≤ 34)
          × (number_from 0 (iban_text (drop 4 account ++ take 4 account)) % 97 ≡ 1))
iban_valid_lem_example = iban_valid_lem account

account_runs : iban_valid account ≡ true
unfolding iban_valid decimal
account_runs = refl

abbrev spaced : Text
spaced = b'a' ∷ 0x200b ∷ 0xa0 ∷ b'b' ∷ []

abbrev canonical : CanonicalText
canonical = record {
  source = spaced;
  text = codes "a b";
  canonical_to_original = (0, 1) ∷ (2, 3) ∷ (3, 4) ∷ [];
}

canonical_runs : from_text ascii 100 200 spaced ≡ ok canonical
unfolding from_text maskgate.Canonical.is_zero_width contains
canonical_runs = refl

from_text_lem_example : Traced spaced 200 canonical
from_text_lem_example = from_text_lem ascii 100 200 spaced canonical canonical_runs
