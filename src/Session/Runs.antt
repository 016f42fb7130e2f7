-- ===== src/Session/Runs.antt =====
-- app/masking/anonymizer.py: what a call of a session's method leaves behind, whether it returns or
-- raises, with one rule for each way in which the methods are put together.
use maskgate.Base.{
  subst, ℕ, Dict, Bool, true, false, Option, none, some, List, Text, ◌≡◌, refl, ◌∙◌, Exec, resume,
  ◌>>=◌, Result, ok, err, Error, no_entropy, Option-cases, inl, inr,
}
use maskgate.Unicode.{Unicode}
use maskgate.Policies.{PolicyAction}
use maskgate.Vault
use maskgate.Vault.{MappingItem, Vault}
use maskgate.Vault.Invariant.{IsValid, add-IsValid}
use maskgate.Vault.Lookup.{add-find}
use maskgate.Session.{
  Session, Mode, Entity, add_item, stored_or, next_surrogate, next_placeholder, new_replacement,
  replacement_in, placeholder_in, number_token, draw_token, item_of, redaction, fresh_token,
}

-- The session `t` comes after `s`: its vault is valid if that of `s` is, and still finds every
-- original that was found; mode, policy and namespace are the same.
pub record Grows (s t : Session) : Type 0 where
  pub valid : IsValid s.vault → IsValid t.vault
  pub kept :
      (k : Text) (i : MappingItem)
      → Vault.find_original k s.vault ≡ some i
      → Vault.find_original k t.vault ≡ some i
  pub same_mode : t.mode ≡ s.mode
  pub same_policy : t.policy ≡ s.policy
  pub same_namespace : t.token_namespace ≡ s.token_namespace

pub Grows-refl : (s : Session) → Grows s s
Grows-refl s = record {
  valid = λ h. h;
  kept = λ k i h. h;
  same_mode = refl;
  same_policy = refl;
  same_namespace = refl;
}

pub Grows-trans : (s t r : Session) → Grows s t → Grows t r → Grows s r
Grows-trans s t r g h = record {
  valid = λ v. h.valid (g.valid v);
  kept = λ k i e. h.kept k i (g.kept k i e);
  same_mode = h.same_mode ∙ g.same_mode;
  same_policy = h.same_policy ∙ g.same_policy;
  same_namespace = h.same_namespace ∙ g.same_namespace;
}

-- A returned value has the property.
abbrev pub Holds : {A : Type 0} → (A → Session → Type 0) → Result A → Session → Type 0
Holds Q (ok a) s = Q a s
Holds Q (err e) s = Unit

-- A call from `s` has ended in `r`.
pub record Runs {A : Type 0} (Q : A → Session → Type 0) (s : Session) (r : Result A × Session)
    : Type 0 where
  pub grows : Grows s r.1
  pub holds : Holds Q r.0 r.1

module _ {A : Type 0} {Q : A → Session → Type 0} (s : Session) where
  pub Runs-pure : (a : A) → Q a s → Runs Q s (ok a, s)
  Runs-pure a q = record { grows = Grows-refl s; holds = q }

  pub Runs-raise : (e : Error) → Runs Q s (err e, s)
  Runs-raise e = record { grows = Grows-refl s; holds = tt }

  -- What was reached from a later session was reached from `s`.
  pub Runs-after : (t : Session) (r : Result A × Session) → Grows s t → Runs Q t r → Runs Q s r
  Runs-after t r g h = record { grows = Grows-trans s t r.1 g h.grows; holds = h.holds }

module _ {A B : Type 0} {P : A → Session → Type 0} {Q : B → Session → Type 0} (s : Session) where
  Runs-resume :
      (r : Result A) (t : Session) (f : A → Exec Session B)
      → Runs P s (r, t)
      → ((a : A) (t : Session) → P a t → Runs Q t (f a t))
      → Runs Q s (resume r f t)
  Runs-resume (ok a) t f h k = Runs-after s t (f a t) h.grows (k a t h.holds)
  Runs-resume (err e) t f h k = record { grows = h.grows; holds = tt }

  pub Runs-bind :
      (m : Exec Session A) (f : A → Exec Session B)
      → Runs P s (m s)
      → ((a : A) (t : Session) → P a t → Runs Q t (f a t))
      → Runs Q s ((m >>= f) s)
  Runs-bind m f h k = let (r, t) = m s in Runs-resume r t f h k

-- The property of a value that was returned.
pub Holds_ok :
    {A : Type 0} (Q : A → Session → Type 0) {r : Result A} (t : Session) (a : A)
    → r ≡ ok a
    → Holds Q r t
    → Q a t
Holds_ok Q t a e h = subst (λ r. Holds Q r t) e h

-- A weaker property of the value.
Holds-weaken :
    {A : Type 0} (P Q : A → Session → Type 0) (r : Result A) (t : Session)
    → ((a : A) → P a t → Q a t)
    → Holds P r t
    → Holds Q r t
Holds-weaken P Q (ok a) t f h = f a h
Holds-weaken P Q (err e) t f h = tt

pub Runs-weaken :
    {A : Type 0} {P Q : A → Session → Type 0} {s : Session} {r : Result A × Session}
    → ((a : A) (t : Session) → P a t → Q a t)
    → Runs P s r
    → Runs Q s r
Runs-weaken {P} {Q} {r} f h = record {
  grows = h.grows;
  holds = Holds-weaken P Q r.0 r.1 (λ a. f a r.1) h.holds;
}

-- The value may be described together with the growth of the session.
Holds-grown :
    {A : Type 0} (Q : A → Session → Type 0) (s : Session) (r : Result A) (t : Session)
    → Grows s t
    → Holds Q r t
    → Holds (λ a t. Q a t × Grows s t) r t
Holds-grown Q s (ok a) t g h = (h, g)
Holds-grown Q s (err e) t g h = tt

pub Runs-grown :
    {A : Type 0} {Q : A → Session → Type 0} {s : Session} {r : Result A × Session}
    → Runs Q s r
    → Runs (λ a t. Q a t × Grows s t) s r
Runs-grown {Q} {s} {r} h = record {
  grows = h.grows;
  holds = Holds-grown Q s r.0 r.1 h.grows h.holds;
}

-- The stored item of an entity's text.
abbrev pub IsStored : Entity → MappingItem → Session → Type 0
IsStored e item s = Vault.find_original e.text s.vault ≡ some item

add_item_ok :
    (item : MappingItem) (s : Session) (r : Result Vault)
    → Vault.add item s.vault ≡ r
    → Runs (λ i t. Vault.find_original item.original t.vault ≡ some i) s (add_item item s)
unfolding add_item
add_item_ok item s (ok v) h =
    rw (h, add_item)
      (record {
        grows = record {
          valid = λ valid. add-IsValid item s.vault valid v h;
          kept = (add-find item s.vault v h).1;
          same_mode = refl;
          same_policy = refl;
          same_namespace = refl;
        };
        holds = (add-find item s.vault v h).0;
      })
add_item_ok item s (err e) h = rw (h, add_item) (Runs-raise s e)

module _ (e : Entity) where
  pub add_item-Runs :
      (replacement : Text) (restore : Bool) (s : Session)
      → Runs (IsStored e) s (add_item (item_of e replacement restore) s)
  add_item-Runs replacement restore s =
      add_item_ok (item_of e replacement restore) s
        (Vault.add (item_of e replacement restore) s.vault) refl

  pub stored_or-Runs :
      (fresh : Exec Session MappingItem) (s : Session)
      → Runs (IsStored e) s (fresh s)
      → Runs (IsStored e) s (stored_or e fresh s)
  unfolding stored_or
  stored_or-Runs fresh s h = elim (Option-cases (Vault.find_original e.text s.vault)) [
    | inl q ↦ rw (q, stored_or) h
    | inr (item, q) ↦ rw (q, stored_or) (Runs-pure s item q)
  ]

-- The vault is not touched where only counters or draws are.
Runs-same_vault :
    {A : Type 0} (s : Session) (a : A) (values counters : Dict Text ℕ) (draws : List ℕ)
    → Runs
        (λ (b : A) r. Unit {0})
        s
        (ok a, record s { surrogates = values; placeholder_counters = counters; draws = draws })
Runs-same_vault s a values counters draws = record {
  grows = record {
    valid = λ h. h;
    kept = λ k i h. h;
    same_mode = refl;
    same_policy = refl;
    same_namespace = refl;
  };
  holds = tt;
}

draw_token-Runs : (o : Option (Text × List ℕ)) (s : Session) → Runs (λ a r. Unit) s (draw_token o s)
unfolding draw_token
draw_token-Runs none s = Runs-raise s no_entropy
draw_token-Runs (some (token, rest)) s =
    Runs-same_vault s token s.surrogates s.placeholder_counters rest

number_token-Runs : (t : Text) (s : Session) → Runs (λ a r. Unit) s (number_token t s)
unfolding number_token
number_token-Runs t s = Runs-same_vault s _ s.surrogates _ s.draws

placeholder_in-Runs :
    (m : Mode) (t : Text) (s : Session) → Runs (λ a r. Unit) s (placeholder_in m t s)
unfolding placeholder_in
placeholder_in-Runs Mode.placeholder t s = draw_token-Runs (fresh_token s.vault s.draws) s
placeholder_in-Runs _ t s = number_token-Runs t s

pub next_placeholder-Runs : (t : Text) (s : Session) → Runs (λ a r. Unit) s (next_placeholder t s)
unfolding next_placeholder
next_placeholder-Runs t s = placeholder_in-Runs s.mode t s

module _ (u : Unicode) where
  pub next_surrogate-Runs : (t : Text) (s : Session) → Runs (λ a r. Unit) s (next_surrogate u t s)
  unfolding next_surrogate
  next_surrogate-Runs t s = Runs-same_vault s _ _ s.placeholder_counters s.draws

  pub surrogate_item-Runs :
      (e : Entity) (s : Session)
      → Runs (IsStored e) s ((do t ← next_surrogate u e.entity_type; add_item (item_of e t true)) s)
  surrogate_item-Runs e s =
      Runs-bind s (next_surrogate u e.entity_type) (λ t. add_item (item_of e t true))
        (next_surrogate-Runs e.entity_type s) (λ t r _. add_item-Runs e t true r)

  replacement_in-Runs :
      (m : Mode) (e : Entity) (s : Session) → Runs (IsStored e) s (replacement_in u m e s)
  unfolding replacement_in
  replacement_in-Runs Mode.surrogate e s = surrogate_item-Runs e s
  replacement_in-Runs Mode.redact_mode e s = add_item-Runs e (redaction e.entity_type) false s
  replacement_in-Runs _ e s =
      Runs-bind s (next_placeholder e.entity_type) (λ t. add_item (item_of e t true))
        (next_placeholder-Runs e.entity_type s) (λ t r _. add_item-Runs e t true r)

  pub new_replacement-Runs :
      (e : Entity) (a : PolicyAction) (s : Session) → Runs (IsStored e) s (new_replacement u e a s)
  unfolding new_replacement
  new_replacement-Runs e PolicyAction.redact s = add_item-Runs e (redaction e.entity_type) false s
  new_replacement-Runs e _ s = replacement_in-Runs s.mode e s
