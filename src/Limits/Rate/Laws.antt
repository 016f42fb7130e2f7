-- ===== src/Limits/Rate/Laws.antt =====
-- app/security.py: the rate limiter lets no more requests through than it should, and what it tells a
-- refused client is true.
use maskgate.Base.{
  All, All-get, All-put, All-select, Bool-cases, IsDistinct, List, Option, Text, [], arith, eq_iff,
  eq_self, false, get, get-put, get-select, if◌then◌else◌, inl, inr, leb, length, length-put-le,
  length-put_old, length-select-le, list_eq, nat_eq, none, option_eq, pair_eq, put-IsDistinct, refl,
  select-IsDistinct, some, subst, suc, sym, ℕ, ◌+◌, ◌<◌, ◌==◌, ◌∷◌, ◌≡◌, ◌≤◌,
}
use maskgate.Limits.Rate.{
  RateWindow, RateLimiter, is_open, span, remove_expired, retry_on, retry_after,
}

-- The limiter's numbers are as the constructor makes them, no window counts too much and there are
-- not too many windows.
pub record IsValidLimiter (l : RateLimiter) : Type 0 where
  pub requests : 1 ≤ l.max_requests
  pub seconds : 1 ≤ l.window_seconds
  pub identities : 1 ≤ l.max_identities
  pub tick : 1 ≤ l.ticks
  pub distinct : IsDistinct l.windows
  pub bound : length l.windows ≤ l.max_identities
  pub counts : All (λ (e : Text × RateWindow). e.1.count ≤ l.max_requests) l.windows

pub IsValidLimiter-remove :
    (now : ℕ) (l : RateLimiter) → IsValidLimiter l → IsValidLimiter (remove_expired now l)
unfolding remove_expired
IsValidLimiter-remove now l v = record {
  requests = v.requests;
  seconds = v.seconds;
  identities = v.identities;
  tick = v.tick;
  distinct = select-IsDistinct (is_open l now) l.windows v.distinct;
  bound = omega (arith, length-select-le (is_open l now) l.windows, v.bound);
  counts = All-select _ (is_open l now) l.windows v.counts;
}

abbrev Counted : RateLimiter → Text × RateWindow → Type 0
Counted l e = e.1.count ≤ l.max_requests

IsValidLimiter-retry_on :
    (identity : Text) (now : ℕ) (o : Option RateWindow) (l : RateLimiter)
    → get identity l.windows ≡ o
    → IsValidLimiter l
    → IsValidLimiter (retry_on identity now o l).1
unfolding retry_on
IsValidLimiter-retry_on identity now none l e v =
    elim (Bool-cases (leb l.max_identities (length l.windows))) [
      | inl full ↦ rw full v
      | inr room ↦
          let w : RateWindow = record { started_at = now; count = 1 } in
          rw room (record {
            requests = v.requests;
            seconds = v.seconds;
            identities = v.identities;
            tick = v.tick;
            distinct = put-IsDistinct identity w l.windows v.distinct;
            bound = ground (arith, length-put-le identity w l.windows);
            counts = All-put (Counted l) identity w l.windows v.requests v.counts;
          })
    ]
IsValidLimiter-retry_on identity now (some w) l e v =
    elim (Bool-cases (leb l.max_requests w.count)) [
      | inl full ↦ rw full v
      | inr room ↦
          let more : RateWindow = record w { count = suc w.count } in
          rw room (record {
            requests = v.requests;
            seconds = v.seconds;
            identities = v.identities;
            tick = v.tick;
            distinct = put-IsDistinct identity more l.windows v.distinct;
            bound = omega (arith, length-put_old identity more w l.windows e, v.bound);
            counts = All-put (Counted l) identity more l.windows (ground arith) v.counts;
          })
    ]

pub IsValidLimiter-retry_after :
    (identity : Text) (now : ℕ) (l : RateLimiter)
    → IsValidLimiter l
    → IsValidLimiter (retry_after identity now l).1
unfolding retry_after
IsValidLimiter-retry_after identity now l v =
    let t = remove_expired now l in
    IsValidLimiter-retry_on identity now (get identity t.windows) t refl
      (IsValidLimiter-remove now l v)

-- A request: who makes it, and when.
abbrev pub Request : Type 0
Request = Text × ℕ

abbrev pub passed : Option ℕ → ℕ
passed none = 1
passed (some _) = 0

-- The requests of one identity that are let through, in a sequence of requests of all.
unfoldable pub let_through : Text → List Request → RateLimiter → ℕ
let_through identity [] l = 0
let_through identity ((who, now) ∷ rs) l =
    let (r, t) = retry_after who now l in
    let rest = let_through identity rs t in (if who == identity then passed r else 0) + rest

module _ (identity : Text) (start : ℕ) where
  -- The identity's window has begun at `start` and counts `n`.
  abbrev HasWindow : ℕ → RateLimiter → Type 0
  HasWindow n l = get identity l.windows ≡ some (record { started_at = start; count = n })

  HasWindow-remove :
      (now n : ℕ) (l : RateLimiter)
      → IsDistinct l.windows
      → now < start + span l
      → HasWindow n l
      → HasWindow n (remove_expired now l)
  unfolding remove_expired
  HasWindow-remove now n l d early h =
      ground (arith, get-select (is_open l now) identity l.windows d)

  HasWindow-other :
      (who : Text) (now n : ℕ) (o : Option RateWindow) (l : RateLimiter)
      → (who == identity) ≡ false
      → HasWindow n l
      → HasWindow n (retry_on who now o l).1
  unfolding retry_on
  HasWindow-other who now n none l ne h =
      ground (arith, get-put who identity (record { started_at = now; count = 1 }) l.windows)
  HasWindow-other who now n (some w) l ne h =
      ground (arith, get-put who identity (record w { count = suc w.count }) l.windows)

  own_request :
      (now n : ℕ) (l : RateLimiter)
      → n ≤ l.max_requests
      → HasWindow n l
      → let (r, t) = retry_on identity now (some (record { started_at = start; count = n })) l in
        (m : ℕ) × HasWindow m t × (m ≤ l.max_requests) × (passed r + n ≡ m)
  unfolding retry_on
  own_request now n l small h = elim (Bool-cases (leb l.max_requests n)) [
    | inl e ↦ rw e (n, h, small, omega arith)
    | inr e ↦
        let more : RateWindow = record { started_at = start; count = suc n } in
        rw e (
          suc n,
          ground (arith, get-put identity identity more l.windows, eq_self identity),
          ground arith,
          omega arith,
        )
  ]

  kept_settings :
      (who : Text) (now : ℕ) (o : Option RateWindow) (l : RateLimiter)
      → let t = (retry_on who now o l).1 in (t.max_requests ≡ l.max_requests) × (span t ≡ span l)
  unfolding retry_on
  kept_settings who now none l = ground arith
  kept_settings who now (some w) l = ground arith

  -- One request of a sequence.
  one_request :
      (who : Text) (now n : ℕ) (l : RateLimiter)
      → n ≤ l.max_requests
      → HasWindow n l
      → let (r, t) = retry_on who now (get who l.windows) l in
        (m : ℕ) × HasWindow m t
        × (m ≤ l.max_requests)
        × ((if who == identity then passed r else 0) + n ≡ m)
  one_request who now n l small h = elim (Bool-cases (who == identity)) [
    | inr ne ↦ (n, HasWindow-other who now n (get who l.windows) l ne h, small, rw ne (omega arith))
    | inl eq ↦ subst Step (sym ((eq_iff who identity).0 eq)) mine
  ]
    where
      Step : Text → Type 0
      Step x =
          let (r, t) = retry_on x now (get x l.windows) l in
          (m : ℕ) × HasWindow m t
          × (m ≤ l.max_requests)
          × ((if x == identity then passed r else 0) + n ≡ m)

      mine : Step identity
      mine = rw (h, eq_self identity) (own_request now n l small h)

  window_bound_from :
      (n : ℕ) (rs : List Request) (l : RateLimiter)
      → IsValidLimiter l
      → n ≤ l.max_requests
      → HasWindow n l
      → All (λ (r : Request). r.1 < start + span l) rs
      → let_through identity rs l + n ≤ l.max_requests
  unfolding let_through retry_after remove_expired
  window_bound_from n [] l v small h early = omega arith
  window_bound_from n ((who, now) ∷ rs) l v small h early =
      let clean = remove_expired now l in
      let found = get who clean.windows in
      let (m, after, still, sum) =
        one_request who now n clean small (HasWindow-remove now n l v.distinct early.0 h) in
      let (same_max, same_span) = kept_settings who now found clean in
      let rest =
        window_bound_from m rs (retry_on who now found clean).1
          (IsValidLimiter-retry_after who now l v) (rw same_max still) after
          (rw same_span early.1) in
      omega (arith, rest, sum, same_max)

  -- In a valid limiter, while an identity's window is open, what is let through of its requests and
  -- what the window already counts come to no more than the limit, whoever else makes requests in
  -- between.
  pub window_bound :
      (n : ℕ) (rs : List Request) (l : RateLimiter)
      → IsValidLimiter l
      → get identity l.windows ≡ some (record { started_at = start; count = n })
      → All (λ (r : Request). r.1 < start + span l) rs
      → let_through identity rs l + n ≤ l.max_requests
  window_bound n rs l v h early =
      window_bound_from n rs l v
        (All-get (Counted l) identity (record { started_at = start; count = n }) l.windows h
          v.counts)
        h early
