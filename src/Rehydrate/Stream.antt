-- ===== src/Rehydrate/Stream.antt =====
-- app/proxy/streaming.py: `StreamingRehydrator`, which holds back the beginning of a token that the
-- next chunk may complete.
pub mod Held
use maskgate.Base.{
  Bool, List, Option, Text, [], any, if◌then◌else◌, list_eq, map, nat_eq, none, not, option_eq,
  pair_eq, select, some, starts_with, ◌&&◌, ◌++◌, ◌==◌, ◌∷◌,
}
use maskgate.Vault.{MappingItem}
use maskgate.Rehydrate.{rehydrate_text}

-- `StreamingRehydrator`, with the reversible items of its mapping.
pub record StreamingRehydrator : Type 0 where
  pub mapping : List MappingItem
  pub buffer : Text

-- `StreamingRehydrator.__init__`
unfoldable pub new_rehydrator : List MappingItem → StreamingRehydrator
new_rehydrator mapping = record { mapping = select (λ i. i.restore) mapping; buffer = [] }

-- The text before its last `<` and the rest, where there is one: `buffer[start:]` for
-- `start = buffer.rfind("<")`.
unfoldable pub split_last : Text → Option (Text × Text)
split_last [] = none
split_last (c ∷ s) =
    let later = split_last s in
    elim later [
      | some (before, rest) ↦ some (c ∷ before, rest)
      | none ↦ if c == b'<' then some ([], c ∷ s) else none
    ]

-- `token.startswith(candidate) and candidate != token` for some token
unfoldable pub is_partial : List MappingItem → Text → Bool
is_partial mapping candidate =
    any
      (λ (i : MappingItem). starts_with candidate i.replacement && not (candidate == i.replacement))
      mapping

abbrev pub hold_split : List MappingItem → Text → Option (Text × Text) → Text × Text
hold_split mapping buffer none = (buffer, [])
hold_split mapping buffer (some (before, candidate)) =
    if is_partial mapping candidate then (before, candidate) else (buffer, [])

-- The buffer as what is safe to pass on and what `_partial_token_suffix` holds back.
unfoldable pub safe_and_hold : List MappingItem → Text → Text × Text
safe_and_hold mapping buffer = hold_split mapping buffer (split_last buffer)

-- `push`
unfoldable pub push : Text → StreamingRehydrator → Text × StreamingRehydrator
push text r =
    let (safe, hold) = safe_and_hold r.mapping (r.buffer ++ text) in
    (rehydrate_text safe r.mapping, record r { buffer = hold })

-- `finish`
unfoldable pub finish : StreamingRehydrator → Text × StreamingRehydrator
finish r = (rehydrate_text r.buffer r.mapping, record r { buffer = [] })

-- The outputs of one push after the other.
unfoldable pub push_all : List Text → StreamingRehydrator → List Text × StreamingRehydrator
push_all [] r = ([], r)
push_all (t ∷ ts) r =
    let (out, r1) = push t r in let (outs, r2) = push_all ts r1 in (out ∷ outs, r2)

unfoldable pub joined : List Text → Text
joined [] = []
joined (t ∷ ts) = t ++ joined ts

abbrev pub restored : List MappingItem → List Text → List Text
restored mapping = map (λ (t : Text). rehydrate_text t mapping)
