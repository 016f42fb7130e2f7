-- ===== src/Wire/Syntax.antt =====
-- app/privacy/wire.py: how encoded content looks, and what Python's decoders make of it.
use maskgate.Base.{
  Bool, Text, [], codes, contains, drop, if◌then◌else◌, leb, length, list_eq, nat_eq, none,
  option_eq, pair_eq, some, suc, take, true, zero, ℕ, ◌%◌, ◌&&◌, ◌*◌, ◌++◌, ◌+◌, ◌-◌, ◌==◌, ◌||◌,
  ◌∷◌,
}
use maskgate.Pattern.{
  Pattern, one, repeated, followed, either, literal, is_upper_letter, is_lower_letter, is_digit,
  between, fullmatch, match_here,
}

abbrev pub is_alphanumeric : ℕ → Bool
is_alphanumeric c = is_upper_letter c || is_lower_letter c || is_digit c

abbrev pub is_base64 : ℕ → Bool
is_base64 c = is_alphanumeric c || c == b'+' || c == b'/'

abbrev pub is_base64url : ℕ → Bool
is_base64url c = is_alphanumeric c || c == b'_' || c == b'-'

abbrev pub is_hex : ℕ → Bool
is_hex c = is_digit c || between b'A' b'F' c || between b'a' b'f' c

-- `BASE64_PATTERN`
abbrev pub base64_pattern : Pattern
base64_pattern = followed (repeated 5 none (repeated 4 (some 0) (one is_base64))) (
    repeated 0 (some 1) (
      either (followed (repeated 2 (some 0) (one is_base64)) (literal (codes "==")))
        (followed (repeated 3 (some 0) (one is_base64)) (literal (codes "=")))))

-- `BASE64URL_PATTERN`
abbrev pub base64url_pattern : Pattern
base64url_pattern =
    followed (repeated 24 none (one is_base64url)) (repeated 0 (some 2) (literal (codes "=")))

-- `HEX_PATTERN`
abbrev pub hex_pattern : Pattern
hex_pattern = repeated 16 none (repeated 2 (some 0) (one is_hex))

-- `PERCENT_ESCAPE_PATTERN`
abbrev pub percent_pattern : Pattern
percent_pattern = followed (literal (codes "%")) (repeated 2 (some 0) (one is_hex))

-- `UNICODE_ESCAPE_PATTERN`
abbrev pub unicode_escape_pattern : Pattern
unicode_escape_pattern = followed (literal (codes "\\u")) (repeated 4 (some 0) (one is_hex))

-- `stripped + "=" * (-len(stripped) % 4)`
unfoldable pub padded_base64 : Text → Text
padded_base64 s = s ++ take ((4 - length s % 4) % 4) (codes "===")

-- Whether `base64.b64decode` returns, without validation, or raises: the loop of `binascii.a2b_base64`
-- with the place in a group of four and the padding read so far. Other characters are passed over.
-- `urlsafe_b64decode` also reads `-` and `_`, as the two last characters of the alphabet.
unfoldable pub decodes_from : Bool → ℕ → ℕ → Text → Bool
decodes_from urlsafe place pads [] = place == 0
decodes_from urlsafe place pads (c ∷ s) =
    let padding = decodes_from urlsafe place (suc pads) s in
    let digit = decodes_from urlsafe ((place + 1) % 4) 0 s in
    let other = decodes_from urlsafe place pads s in
    if c == b'='
    then if leb 2 place && leb 4 (place + suc pads) then true else padding
    else if is_base64 c || urlsafe && is_base64url c
    then digit
    else other

unfoldable pub base64_decodes : Bool → Text → Bool
unfolding decodes_from
base64_decodes urlsafe s = decodes_from urlsafe 0 0 s

-- The two `fullmatch` tests before a text is decoded, and the decoding.
unfoldable pub is_base64_content : Text → Bool
unfolding base64_decodes padded_base64
is_base64_content s =
    (fullmatch base64_pattern s || fullmatch base64url_pattern s)
    && base64_decodes (contains b'-' s || contains b'_' s) (padded_base64 s)

-- `int(digits, 16)`
abbrev pub hex_digit : ℕ → ℕ
hex_digit c =
    if is_digit c then c - b'0' else if between b'A' b'F' c then c - b'A' + 10 else c - b'a' + 10

unfoldable pub hex_value : ℕ → Text → ℕ
hex_value acc [] = acc
hex_value acc (c ∷ s) = hex_value (acc * 16 + hex_digit c) s

-- `UNICODE_ESCAPE_PATTERN.sub(…, s)`; `skip` characters belong to an escape that has been replaced.
unfoldable pub unescape_from : ℕ → Text → Text
unfolding hex_value
unescape_from skip [] = []
unescape_from (suc skip) (c ∷ s) = unescape_from skip s
unescape_from zero (c ∷ s) =
    let hit = match_here unicode_escape_pattern (c ∷ s) in
    let rest = unescape_from (if hit then 5 else 0) s in
    if hit then hex_value 0 (take 4 (drop 1 s)) ∷ rest else c ∷ rest

unfoldable pub unescape : Text → Text
unfolding unescape_from
unescape s = unescape_from 0 s
