-- ===== src/Validators/Iban.antt =====
-- app/privacy/detection/validators.py: the digit loop of the IBAN check computes a remainder.
use maskgate.Base.{
  Text, [], ap, arith, drop, length, refl, sym, take, true, ℕ, ◌%◌, ◌*◌, ◌++◌, ◌+◌, ◌∙◌, ◌∷◌, ◌≡◌,
  ◌≤◌,
}
use maskgate.Validators.{iban_digits, iban_code, iban_remainder, iban_valid, digit_of}

-- The number that is written behind `n`.
unfoldable pub number_from : ℕ → Text → ℕ
number_from n [] = n
number_from n (c ∷ s) = number_from (n * 10 + digit_of c) s

-- The digits that stand for a text: a letter is two of them.
unfoldable pub iban_text : Text → Text
iban_text [] = []
iban_text (c ∷ s) = iban_code c ++ iban_text s

iban_digits-mod : (n : ℕ) (s : Text) → iban_digits (n % 97) s ≡ number_from n s % 97
unfolding iban_digits number_from
iban_digits-mod n [] = refl
iban_digits-mod n (c ∷ s) =
    ap (λ k. iban_digits k s) (omega arith) ∙ iban_digits-mod (n * 10 + digit_of c) s

number_from-append : (n : ℕ) (s t : Text) → number_from n (s ++ t) ≡ number_from (number_from n s) t
unfolding number_from
number_from-append n [] t = refl
number_from-append n (c ∷ s) t = number_from-append (n * 10 + digit_of c) s t

iban_remainder-mod :
    (n : ℕ) (s : Text) → iban_remainder (n % 97) s ≡ number_from n (iban_text s) % 97
unfolding iban_remainder number_from iban_text
iban_remainder-mod n [] = refl
iban_remainder-mod n (c ∷ s) =
    ap (λ k. iban_remainder k s) (iban_digits-mod n (iban_code c))
    ∙ iban_remainder-mod (number_from n (iban_code c)) s
    ∙ ap (λ k. k % 97) (sym (number_from-append n (iban_code c) (iban_text s)))

-- The loops of the check compute the remainder by 97 of the whole number that the text spells,
-- letters being two digits each, so the account number is accepted only if that remainder is one.
pub iban_valid_lem :
    (s : Text)
    → (iban_remainder 0 s ≡ number_from 0 (iban_text s) % 97)
      × (iban_valid s ≡ true
          → (15 ≤ length s)
            × (length s ≤ 34)
            × (number_from 0 (iban_text (drop 4 s ++ take 4 s)) % 97 ≡ 1))
unfolding iban_valid
iban_valid_lem s = (
  iban_remainder-mod 0 s,
  λ h. (ground arith, ground arith, ground (arith, iban_remainder-mod 0 (drop 4 s ++ take 4 s))),
)
