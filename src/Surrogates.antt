-- ===== src/Surrogates.antt =====
-- app/masking/surrogate_generator.py: synthetic values by entity type, numbered per type.
use maskgate.Base.{
  ℕ, zero, suc, ◌+◌, ◌-◌, ◌/◌, ◌%◌, Option, none, some, [], ◌∷◌, ◌++◌, if◌then◌else◌, Text, codes,
  Dict, get, put, ◌==◌, nat_eq, list_eq, decimal, length, ◌≡◌, refl,
}
use maskgate.Unicode.{Unicode}

unfoldable pub zeros : ℕ → Text
zeros zero = []
zeros (suc n) = b'0' ∷ zeros n

-- `f"{n:0{width}d}"`
unfoldable pub padded : ℕ → ℕ → Text
unfolding zeros decimal
padded width n = zeros (width - length (decimal n)) ++ decimal n

-- Commas before each group of three digits from the right, on a text of `rest` digits.
unfoldable pub grouped_from : Text → Text
grouped_from [] = []
grouped_from (c ∷ []) = c ∷ []
grouped_from (c ∷ s) =
    let rest = grouped_from s in c ∷ (if length s % 3 == 0 then b',' ∷ rest else rest)

-- `f"{n:,}"`
unfoldable pub grouped : ℕ → Text
unfolding grouped_from decimal
grouped n = grouped_from (decimal n)

abbrev pub or_zero : Option ℕ → ℕ
or_zero none = 0
or_zero (some n) = n

-- The table of generators, and the default for a type that it lacks.
unfoldable pub synthetic : Unicode → Text → ℕ → Text
unfolding decimal padded grouped
synthetic u t n =
    if t == codes "PERSON"
    then codes "Demo Person " ++ decimal n
    else if t == codes "ORG"
    then codes "Example Organization " ++ decimal n
    else if t == codes "EMAIL"
    then codes "demo." ++ decimal n ++ codes "@example.test"
    else if t == codes "PHONE"
    then codes "+1 202-555-" ++ padded 4 (n % 10000) ++ codes " ext " ++ decimal n
    else if t == codes "IP_ADDRESS"
    then codes "198.51." ++ decimal (n / 254 % 254) ++ codes "." ++ decimal (n % 254 + 1)
    else if t == codes "DOMAIN"
    then codes "demo-" ++ decimal n ++ codes ".example.test"
    else if t == codes "URL"
    then codes "https://example.test/resource/" ++ decimal n
    else if t == codes "API_KEY"
    then codes "sk-test-maskgate-" ++ padded 24 n
    else if t == codes "FILE_PATH"
    then codes "C:\\MaskGate\\Synthetic\\file-" ++ decimal n ++ codes ".txt"
    else if t == codes "MONEY"
    then codes "$" ++ grouped n ++ codes ".00"
    else if t == codes "CARD_NUMBER"
    then codes "0000 0000 " ++ padded 4 (n / 10000) ++ codes " " ++ padded 4 (n % 10000)
    else if t == codes "BANK"
    then codes "Example Bank " ++ decimal n
    else if t == codes "LOCATION"
    then codes "Example Location " ++ decimal n
    else codes "Synthetic " ++ u.title t ++ codes " " ++ decimal n

-- `generate`: the value and the counters after it.
unfoldable pub generate : Unicode → Text → Dict Text ℕ → Text × Dict Text ℕ
unfolding synthetic
generate u t counters =
    let index = suc (or_zero (get t counters)) in (synthetic u t index, put t index counters)

grouped_runs : grouped 1234567 ≡ codes "1,234,567"
unfolding grouped
grouped_runs = refl
