-- ===== src/Principal.antt =====
-- app/identity/principal.py: the pseudonymous identity of a caller.
pub mod Laws
use maskgate.Base.{
  Option, Result, Text, [], any, codes, drop, err, if◌then◌else◌, list_eq, nat_eq, none, ok,
  option_eq, pair_eq, some, take, value_error, ◌++◌, ◌==◌, ◌∷◌,
}
use maskgate.Unicode.{Unicode, strip}
use maskgate.Limits.{bearer_token, host_or_unknown}

-- `PrincipalContext`
pub record PrincipalContext : Type 0 where
  pub tenant_id : Text
  pub application_id : Text
  pub subject_id : Text
  pub authentication_method : Text

-- `vault_namespace`
unfoldable pub vault_namespace : PrincipalContext → Text
vault_namespace p = p.tenant_id ++ codes ":" ++ p.application_id ++ codes ":" ++ p.subject_id

-- The Unicode tables and `_digest`: `hashlib.sha256(...).hexdigest()` of a text's UTF-8 bytes.
module _ (u : Unicode) (digest : Text → Text) where
  -- `PrincipalContext.__post_init__`
  unfoldable pub check_principal : PrincipalContext → Result PrincipalContext
  check_principal p =
      if any (λ s. strip u s == [])
        (p.tenant_id ∷ p.application_id ∷ p.subject_id ∷ p.authentication_method ∷ [])
      then err value_error
      else ok p

  -- `rate_limit_key`
  unfoldable pub rate_limit_key : PrincipalContext → Text
  unfolding vault_namespace
  rate_limit_key p = codes "principal:" ++ digest (vault_namespace p)

  -- `audit_id`
  unfoldable pub audit_id : PrincipalContext → Text
  unfolding vault_namespace
  audit_id p = take 24 (digest (vault_namespace p))

  -- `DefaultPrincipalResolver.__init__`
  unfoldable pub new_resolver : Text → Result Text
  new_resolver application =
      if strip u application == [] then err value_error else ok (strip u application)

  -- The part of a credential that identifies the caller.
  abbrev pub secret_of : Text → Text
  secret_of authorization = elim (bearer_token u authorization) [
    | none ↦ authorization
    | some token ↦ token
  ]

  abbrev pub credential_principal : Text → Text → PrincipalContext
  credential_principal application fingerprint = record {
    tenant_id = codes "credential:" ++ take 32 fingerprint;
    application_id = application;
    subject_id = codes "credential:" ++ drop 32 fingerprint;
    authentication_method = codes "bearer";
  }

  abbrev pub local_principal : Text → Option Text → PrincipalContext
  local_principal application host = record {
    tenant_id = codes "local";
    application_id = application;
    subject_id = codes "client:" ++ take 32 (digest (host_or_unknown host));
    authentication_method = codes "local";
  }

  -- `DefaultPrincipalResolver.resolve`
  unfoldable pub resolve : Text → Option Text → Option Text → Result PrincipalContext
  unfolding check_principal
  resolve application none host = check_principal (local_principal application host)
  resolve application (some []) host = check_principal (local_principal application host)
  resolve application (some (c ∷ s)) host =
      check_principal (credential_principal application (digest (secret_of (c ∷ s))))
