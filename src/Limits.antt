-- ===== src/Limits.antt =====
-- app/security.py: bearer authentication, the rate limiter, and the limit on request bodies.
pub mod Rate
pub mod Bodies
use maskgate.Base.{
  Bool, List, Option, Text, [], any, codes, false, if◌then◌else◌, list_eq, nat_eq, none, option_eq,
  pair_eq, some, starts_with, ◌++◌, ◌==◌, ◌∷◌,
}
use maskgate.Unicode.{Unicode}

-- `any(path.startswith(prefix) for prefix in PROTECTED_PATH_PREFIXES)`
unfoldable pub requires_proxy_auth : Text → Bool
requires_proxy_auth path =
    any (λ p. starts_with p path) (codes "/v1/" ∷ codes "/debug/" ∷ codes "/playground/api/" ∷ [])

-- `s.partition(" ")` as the part before the first space and the part behind it, if there is one.
unfoldable pub partition_space : Text → Text × Option Text
partition_space [] = ([], none)
partition_space (c ∷ s) =
    let (before, behind) = partition_space s in
    if c == 32 then ([], some s) else (c ∷ before, behind)

-- `client_host or 'unknown'`
abbrev pub host_or_unknown : Option Text → Text
host_or_unknown none = codes "unknown"
host_or_unknown (some []) = codes "unknown"
host_or_unknown (some (c ∷ s)) = c ∷ s

module _ (u : Unicode) where
  -- The token of an `Authorization: Bearer <token>` header.
  unfoldable pub bearer_token : Text → Option Text
  bearer_token authorization =
      let (scheme, behind) = partition_space authorization in
      elim behind [
        | none ↦ none
        | some [] ↦ none
        | some (c ∷ token) ↦ if u.casefold scheme == codes "bearer" then some (c ∷ token) else none
      ]

  -- `bearer_token_is_allowed`; every configured key is compared.
  unfoldable pub bearer_token_is_allowed : Option Text → List Text → Bool
  bearer_token_is_allowed none keys = false
  bearer_token_is_allowed (some authorization) keys = elim (bearer_token authorization) [
    | none ↦ false
    | some token ↦ any (λ k. token == k) keys
  ]

  -- `rate_limit_identity`; `sha256` is `hashlib.sha256(...).hexdigest()` of the UTF-8 bytes.
  unfoldable pub rate_limit_identity : (Text → Text) → Option Text → Option Text → Text
  rate_limit_identity sha256 host none = codes "client:" ++ host_or_unknown host
  rate_limit_identity sha256 host (some []) = codes "client:" ++ host_or_unknown host
  rate_limit_identity sha256 host (some (c ∷ s)) = elim (bearer_token (c ∷ s)) [
    | none ↦ codes "token:" ++ sha256 (c ∷ s)
    | some token ↦ codes "token:" ++ sha256 token
  ]
