-- ===== src/Limits/Rate/Honest.antt =====
-- app/security.py: a refused client that waits as long as it is told is let through.
use maskgate.Base.{
  All, All-select, All_map, Bool, Bool-cases, Dict, Option, Text, [], arith, eq_iff, false, get,
  get-select, inl, inr, leb, length, length-select-le, list_eq, max, nat_eq, none, option_eq,
  pair_eq, refl, select, some, subst, suc, sym, zero, ℕ, ◌*◌, ◌+◌, ◌-◌, ◌/◌, ◌<◌, ◌∷◌, ◌≡◌, ◌≤◌,
}
use native.Mathlib.Nat.{div-add-mod', mod-lt}
use maskgate.Limits.Rate.{
  RateWindow, RateLimiter, is_open, span, remove_expired, retry_on, retry_after, whole_seconds,
}
use maskgate.Limits.Rate.Laws.{IsValidLimiter, IsValidLimiter-remove}

whole_seconds-enough : (ticks n : ℕ) → 1 ≤ ticks → n ≤ whole_seconds ticks n * ticks
whole_seconds-enough ticks n h =
    let q = (n + (ticks - 1)) / ticks in
    omega (
      arith,
      div-add-mod' (n + (ticks - 1)) ticks,
      mod-lt (n + (ticks - 1)) {m = ticks} h,
      at_least q ticks,
    )
  where
    at_least : (a b : ℕ) → a * b ≤ max a 1 * b
    at_least zero b = omega arith
    at_least (suc a) b = grind arith

module _ (p : Text × RateWindow → Bool) where
  length-select-lt :
      (k : Text) (w : RateWindow) (d : Dict Text RateWindow)
      → get k d ≡ some w
      → p (k, w) ≡ false
      → length (select p d) < length d
  unfolding get
  length-select-lt k w [] h e = cc
  length-select-lt k w ((i, v) ∷ d) h e =
      ground (arith, eq_iff i k, length-select-lt k w d, length-select-le p d)

  select_nothing : (d : Dict Text RateWindow) → All (λ x. p x ≡ false) d → select p d ≡ []
  select_nothing [] h = refl
  select_nothing (x ∷ d) h = rw h.0 (select_nothing d h.1)

-- An identity without a window is let through where there is room.
retry_on_room :
    (identity : Text) (now : ℕ) (l : RateLimiter)
    → length l.windows < l.max_identities
    → (retry_on identity now none l).0 ≡ none
unfolding retry_on
retry_on_room identity now l h = ground arith

refused_none :
    (identity : Text) (now r : ℕ) (l : RateLimiter)
    → (retry_on identity now none l).0 ≡ some r
    → ((retry_on identity now none l).1 ≡ l) × (r ≡ l.window_seconds)
unfolding retry_on
refused_none identity now r l h = elim (Bool-cases (leb l.max_identities (length l.windows))) [
  | inl full ↦ (rw full refl, ground arith)
  | inr room ↦ absurd (ground arith)
]

refused_some :
    (identity : Text) (now r : ℕ) (w : RateWindow) (l : RateLimiter)
    → (retry_on identity now (some w) l).0 ≡ some r
    → ((retry_on identity now (some w) l).1 ≡ l)
      × (r ≡ whole_seconds l.ticks (span l + w.started_at - now))
unfolding retry_on
refused_some identity now r w l h = elim (Bool-cases (leb l.max_requests w.count)) [
  | inl full ↦ (rw full refl, ground arith)
  | inr room ↦ absurd (ground arith)
]

-- An identity whose window is closed later is let through later.
let_in :
    (identity : Text) (later : ℕ) (l : RateLimiter)
    → get identity (remove_expired later l).windows ≡ none
    → length (remove_expired later l).windows < l.max_identities
    → (retry_after identity later l).0 ≡ none
unfolding retry_after
let_in identity later l closed room =
    rw closed
      (retry_on_room identity later (remove_expired later l) (unfold remove_expired in room))

module _ (identity : Text) (now later : ℕ) (l : RateLimiter) (v : IsValidLimiter l) where
  all_closed :
      All (λ (e : Text × RateWindow). e.1.started_at ≤ now) l.windows
      → now + span l ≤ later
      → (remove_expired later l).windows ≡ []
  unfolding remove_expired
  all_closed begun waited = select_nothing (is_open l later) l.windows (
      All_map (λ (e : Text × RateWindow). e.1.started_at ≤ now) (λ e. is_open l later e ≡ false)
        l.windows (λ x h. ground arith) begun)

  one_closed :
      (w : RateWindow)
      → get identity l.windows ≡ some w
      → span l + w.started_at ≤ later
      → (get identity (remove_expired later l).windows ≡ none)
        × (length (remove_expired later l).windows < l.max_identities)
  unfolding remove_expired
  one_closed w found waited =
      let closed : is_open l later (identity, w) ≡ false = ground arith in
      (
        ground (arith, get-select (is_open l later) identity l.windows v.distinct),
        omega
            (arith, length-select-lt (is_open l later) identity w l.windows found closed, v.bound),
      )

  retried :
      (o : Option RateWindow) (r : ℕ)
      → get identity l.windows ≡ o
      → All (λ (e : Text × RateWindow). e.1.started_at ≤ now) l.windows
      → (retry_on identity now o l).0 ≡ some r
      → now + r * l.ticks ≤ later
      → (1 ≤ r) × ((retry_after identity later (retry_on identity now o l).1).0 ≡ none)
  retried none r found begun e waited =
      let (same, amount) = refused_none identity now r l e in
      let empty : (remove_expired later l).windows ≡ [] = all_closed begun (rw amount at waited) in
      (
        rw amount v.seconds,
        rw same (let_in identity later l (rw empty (unfold get in refl)) (rw empty v.identities)),
      )
  retried (some w) r found begun e waited =
      let (same, amount) = refused_some identity now r w l e in
      let enough = whole_seconds-enough l.ticks (span l + w.started_at - now) v.tick in
      let (closed, room) = one_closed w found (omega (arith, enough, (rw amount at waited))) in
      (omega (arith, amount), rw same (let_in identity later l closed room))

begun-remove_expired :
    (now : ℕ) (l : RateLimiter)
    → All (λ (e : Text × RateWindow). e.1.started_at ≤ now) l.windows
    → All (λ (e : Text × RateWindow). e.1.started_at ≤ now) (remove_expired now l).windows
unfolding remove_expired
begun-remove_expired now l h =
    All-select (λ (e : Text × RateWindow). e.1.started_at ≤ now) (is_open l now) l.windows h

-- In a valid limiter, on a clock that does not run backwards, a refused client is told at least one
-- second, and if the limiter hears of nobody else before that time is over, the client is then let
-- through.
pub retry_after_honest :
    (identity : Text) (now later r : ℕ) (l : RateLimiter)
    → IsValidLimiter l
    → All (λ (e : Text × RateWindow). e.1.started_at ≤ now) l.windows
    → (retry_after identity now l).0 ≡ some r
    → now + r * l.ticks ≤ later
    → (1 ≤ r) × ((retry_after identity later (retry_after identity now l).1).0 ≡ none)
retry_after_honest identity now later r l v begun e waited =
    let clean = remove_expired now l in
    subst Told (sym opened)
      (λ q.
        retried identity now later clean (IsValidLimiter-remove now l v)
          (get identity clean.windows) r refl (begun-remove_expired now l begun) q
          (unfold remove_expired in waited))
      e
  where
    Told : Option ℕ × RateLimiter → Type 0
    Told a = a.0 ≡ some r → (1 ≤ r) × ((retry_after identity later a.1).0 ≡ none)

    opened :
        retry_after identity now l
        ≡ retry_on identity now (get identity (remove_expired now l).windows) (remove_expired now l)
    opened = unfold retry_after in refl
