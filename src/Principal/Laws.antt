-- ===== src/Principal/Laws.antt =====
-- app/identity/principal.py: different callers do not share a namespace.
use maskgate.Base.{
  Option, Text, [], arith, codes, drop, length, length-append, length-take, none, ok, refl, some,
  sym, take, take-append-drop, ℕ, ◌++◌, ◌∙◌, ◌∷◌, ◌≡◌, ◌≢◌,
}
use maskgate.Unicode.{Unicode}
use maskgate.Principal.{
  PrincipalContext, vault_namespace, check_principal, resolve, secret_of, credential_principal,
  local_principal,
}

append_cancel_prefix :
    (xs ys as' bs : Text) → length xs ≡ length ys → xs ++ as' ≡ ys ++ bs → (xs ≡ ys) × (as' ≡ bs)
append_cancel_prefix [] [] as' bs h e = (refl, e)
append_cancel_prefix [] (y ∷ ys) as' bs h e = absurd (omega arith)
append_cancel_prefix (x ∷ xs) [] as' bs h e = absurd (omega arith)
append_cancel_prefix (x ∷ xs) (y ∷ ys) as' bs h e =
    ground (arith, append_cancel_prefix xs ys as' bs)

module _ (u : Unicode) (digest : Text → Text) where
  check_principal_ok : (p q : PrincipalContext) → check_principal u digest p ≡ ok q → p ≡ q
  unfolding check_principal
  check_principal_ok p q h = ground arith

  fingerprint-injective :
      (application f g : Text)
      → length f ≡ 64
      → length g ≡ 64
      → vault_namespace (credential_principal u digest application f)
        ≡ vault_namespace (credential_principal u digest application g)
      → f ≡ g
  unfolding vault_namespace
  fingerprint-injective application f g hf hg e =
      let tenant = λ (x : Text). codes "credential:" ++ take 32 x in
      let with_colon = λ (x : Text). tenant x ++ codes ":" in
      let with_app = λ (x : Text). with_colon x ++ application in
      let front = λ (x : Text). with_app x ++ codes ":" in
      let same_take : length (take 32 f) ≡ length (take 32 g) =
        omega (arith, length-take 32 f, length-take 32 g) in
      let same_tenant : length (tenant f) ≡ length (tenant g) = omega (arith, same_take) in
      let same_colon : length (with_colon f) ≡ length (with_colon g) = omega (
        arith,
        length-append (tenant f) (codes ":"),
        length-append (tenant g) (codes ":"),
        same_tenant,
      ) in
      let same_app : length (with_app f) ≡ length (with_app g) = omega (
        arith,
        length-append (with_colon f) application,
        length-append (with_colon g) application,
        same_colon,
      ) in
      let same_front : length (front f) ≡ length (front g) = omega (
        arith,
        length-append (with_app f) (codes ":"),
        length-append (with_app g) (codes ":"),
        same_app,
      ) in
      let (fronts, subjects) =
        append_cancel_prefix (front f) (front g) (codes "credential:" ++ drop 32 f)
          (codes "credential:" ++ drop 32 g) same_front e in
      let (apps, _) =
        append_cancel_prefix (with_app f) (with_app g) (codes ":") (codes ":") same_app fronts in
      let (colons, _) =
        append_cancel_prefix (with_colon f) (with_colon g) application application same_colon
          apps in
      let (tenants, _) =
        append_cancel_prefix (tenant f) (tenant g) (codes ":") (codes ":") same_tenant colons in
      let (_, heads) =
        append_cancel_prefix (codes "credential:") (codes "credential:") (take 32 f) (take 32 g)
          refl tenants in
      let (_, tails) =
        append_cancel_prefix (codes "credential:") (codes "credential:") (drop 32 f) (drop 32 g)
          refl subjects in
      sym (take-append-drop 32 f) ∙ rw (heads, tails) (take-append-drop 32 g)

  -- For a digest of 64 characters, two callers with credentials have one namespace only if the
  -- digests of their secrets are the same, and a caller without one never has the namespace of a
  -- caller with one.
  pub resolve_lem :
      (application s t : Text) (c e : ℕ) (host other : Option Text) (p q r : PrincipalContext)
      → ((x : Text) → length (digest x) ≡ 64)
      → resolve u digest application (some (c ∷ s)) host ≡ ok p
      → resolve u digest application (some (e ∷ t)) other ≡ ok q
      → resolve u digest application none other ≡ ok r
      → (vault_namespace p ≡ vault_namespace q
          → digest (secret_of u digest (c ∷ s)) ≡ digest (secret_of u digest (e ∷ t)))
        × (vault_namespace r ≢ vault_namespace p)
  unfolding resolve
  resolve_lem application s t c e host other p q r long hp hq hr =
      let is_p =
        check_principal_ok
          (credential_principal u digest application (digest (secret_of u digest (c ∷ s)))) p hp in
      let is_q =
        check_principal_ok
          (credential_principal u digest application (digest (secret_of u digest (e ∷ t)))) q hq in
      let is_r = check_principal_ok (local_principal u digest application other) r hr in
      (
        λ same.
            fingerprint-injective application (digest (secret_of u digest (c ∷ s)))
              (digest (secret_of u digest (e ∷ t))) (long _) (long _) (rw (is_p, is_q) same),
        λ same.
            local_apart application other (digest (secret_of u digest (c ∷ s)))
              (rw (is_r, is_p) same),
      )
    where
      local_apart :
          (app : Text) (h : Option Text) (f : Text)
          → vault_namespace (local_principal u digest app h)
            ≢ vault_namespace (credential_principal u digest app f)
      local_apart app h f q = unfold vault_namespace in ground arith
