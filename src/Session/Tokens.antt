-- ===== src/Session/Tokens.antt =====
-- app/masking/anonymizer.py: the opaque placeholder tokens and the loop that draws them.
use maskgate.Base.{
  ℕ, zero, suc, ◌+◌, ◌*◌, ◌/◌, ◌%◌, ◌^◌, ◌<◌, true, false, not, ◌&&◌, none, some, List, [], ◌∷◌,
  ◌++◌, Text, codes, drop, length, All, ◌≡◌, ◌≢◌, refl, arith, nat_eq, In, inl, inr, ap, sym, ◌∙◌,
  Bool-cases,
}
use native.Mathlib.Nat.{pow-suc}
use maskgate.Pattern.{Pattern, one, repeated, followed, literal, fullmatch, any_empty}
use maskgate.Pattern.Laws.{rests-literal, rests-followed, rests-exact}
use maskgate.Vault
use maskgate.Vault.{Vault}
use maskgate.Session.{
  is_base32, base32_char, base32_onto, opaque_token, opaque_pattern, fresh_token,
}

base32_char-is_base32 : (d : ℕ) → d < 32 → is_base32 (base32_char d) ≡ true
unfolding base32_char
base32_char-is_base32 d h = ground arith

base32_char-injective : (d e : ℕ) → base32_char d ≡ base32_char e → d < 32 → e < 32 → d ≡ e
unfolding base32_char
base32_char-injective d e h hd he = ground arith

base32_onto-class :
    (count n : ℕ) (acc : Text)
    → All (λ c. is_base32 c ≡ true) acc
    → All (λ c. is_base32 c ≡ true) (base32_onto count n acc)
unfolding base32_onto
base32_onto-class zero n acc h = h
base32_onto-class (suc count) n acc h =
    base32_onto-class count (n / 32) (base32_char (n % 32) ∷ acc)
      (base32_char-is_base32 (n % 32) (omega arith), h)

length-base32_onto :
    (count n : ℕ) (acc : Text) → length (base32_onto count n acc) ≡ count + length acc
unfolding base32_onto
length-base32_onto zero n acc = omega arith
length-base32_onto (suc count) n acc =
    omega (arith, length-base32_onto count (n / 32) (base32_char (n % 32) ∷ acc))

-- Numbers below 32 ^ count have different digits.
base32_onto-injective :
    (count n m : ℕ) (acc bcc : Text)
    → base32_onto count n acc ≡ base32_onto count m bcc
    → n < 32 ^ count
    → m < 32 ^ count
    → (n ≡ m) × (acc ≡ bcc)
unfolding base32_onto
base32_onto-injective zero n m acc bcc h hn hm = (omega arith, h)
base32_onto-injective (suc count) n m acc bcc h hn hm =
    let bound = pow-suc 32 count in
    let (e, d) =
      base32_onto-injective count (n / 32) (m / 32) (base32_char (n % 32) ∷ acc)
        (base32_char (m % 32) ∷ bcc) h (omega (arith, bound)) (omega (arith, bound)) in
    ground (arith, base32_char-injective (n % 32) (m % 32))

opaque_token-matches : (n : ℕ) → fullmatch opaque_pattern (opaque_token n) ≡ true
unfolding fullmatch any_empty opaque_token
opaque_token-matches n =
    let id = base32_onto 26 (n * 4) [] in
    let closing = rests-literal (codes ">") [] in
    let body =
      rests-exact is_base32 26 id (codes ">") (length-base32_onto 26 (n * 4) [])
        (base32_onto-class 26 (n * 4) [] tt) in
    let class : Pattern = repeated 26 (some 0) (one is_base32) in
    rw (
      rests-followed (literal (codes "<MG:")) (followed class (literal (codes ">")))
          (codes "<MG:" ++ id ++ codes ">") (id ++ codes ">")
          (rests-literal (codes "<MG:") (id ++ codes ">")),
      rests-followed class (literal (codes ">")) (id ++ codes ">") (codes ">") body,
      closing,
    )

base32_onto-append :
    (count n : ℕ) (acc r : Text) → base32_onto count n acc ++ r ≡ base32_onto count n (acc ++ r)
unfolding base32_onto
base32_onto-append zero n acc r = refl
base32_onto-append (suc count) n acc r =
    base32_onto-append count (n / 32) (base32_char (n % 32) ∷ acc) r

framed_digits :
    (count n m : ℕ)
    → codes "<MG:" ++ base32_onto count n [] ++ codes ">"
      ≡ codes "<MG:" ++ base32_onto count m [] ++ codes ">"
    → base32_onto count n (codes ">") ≡ base32_onto count m (codes ">")
framed_digits count n m e =
    sym (base32_onto-append count n [] (codes ">"))
    ∙ ap (drop 4) e
    ∙ base32_onto-append count m [] (codes ">")

opaque_token-injective :
    (n m : ℕ) → n < 2 ^ 128 → m < 2 ^ 128 → opaque_token n ≡ opaque_token m → n ≡ m
unfolding opaque_token
opaque_token-injective n m hn hm e =
    let (same, _) =
      base32_onto-injective 26 (n * 4) (m * 4) (codes ">") (codes ">")
        (framed_digits 26 (n * 4) (m * 4) e) (omega arith) (omega arith) in
    omega arith

fresh_token-fresh :
    (v : Vault) (draws : List ℕ) (token : Text) (rest : List ℕ)
    → fresh_token v draws ≡ some (token, rest)
    → ((n : ℕ) × In n draws × (token ≡ opaque_token n))
      × (Vault.contains_replacement token v ≡ false)
      × (Vault.contains_original token v ≡ false)
unfolding fresh_token
fresh_token-fresh v [] token rest h = cc
fresh_token-fresh v (n ∷ ns) token rest h =
    let t = opaque_token n in
    elim (Bool-cases (not (Vault.contains_replacement t v) && not (Vault.contains_original t v))) [
      | inl e ↦ ((n, inl refl, ground arith), ground arith, ground arith)
      | inr e ↦
          let ((k, m, q), r, o) = fresh_token-fresh v ns token rest (ground arith) in
          ((k, inr m, q), r, o)
    ]

fresh_token-total :
    (v : Vault) (draws : List ℕ) (n : ℕ)
    → In n draws
    → Vault.contains_replacement (opaque_token n) v ≡ false
    → Vault.contains_original (opaque_token n) v ≡ false
    → fresh_token v draws ≢ none
unfolding fresh_token
fresh_token-total v [] n m r o = elim m [ ]
fresh_token-total v (k ∷ ns) n (inl e) r o = ground arith
fresh_token-total v (k ∷ ns) n (inr m) r o = ground (arith, fresh_token-total v ns n m r o)

-- In placeholder mode the loop returns the token of a draw, and the vault knows that token neither
-- as an original nor as a replacement; it returns one whenever some draw has such a token.
pub fresh_token_lem :
    (v : Vault) (draws : List ℕ)
    → ((token : Text) (rest : List ℕ)
        → fresh_token v draws ≡ some (token, rest)
        → ((n : ℕ) × In n draws × (token ≡ opaque_token n))
          × (Vault.contains_replacement token v ≡ false)
          × (Vault.contains_original token v ≡ false))
      × ((n : ℕ)
          → In n draws
          → Vault.contains_replacement (opaque_token n) v ≡ false
          → Vault.contains_original (opaque_token n) v ≡ false
          → fresh_token v draws ≢ none)
fresh_token_lem v draws = (fresh_token-fresh v draws, fresh_token-total v draws)

-- The token of a draw of 128 bits has the syntax that the guards look for, and different draws give
-- different tokens.
pub opaque_token_lem :
    (n m : ℕ)
    → n < 2 ^ 128
    → m < 2 ^ 128
    → (fullmatch opaque_pattern (opaque_token n) ≡ true) × (opaque_token n ≡ opaque_token m → n ≡ m)
opaque_token_lem n m hn hm = (opaque_token-matches n, opaque_token-injective n m hn hm)
