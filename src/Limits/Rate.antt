-- ===== src/Limits/Rate.antt =====
-- app/security.py: `FixedWindowRateLimiter`. A lock makes `retry_after` one step.
pub mod Laws
pub mod Honest
use maskgate.Base.{
  Bool, Dict, Option, Text, [], get, if◌then◌else◌, leb, length, list_eq, max, nat_eq, none, not,
  option_eq, pair_eq, put, select, some, suc, ℕ, ◌*◌, ◌+◌, ◌-◌, ◌/◌,
}

-- `_RateWindow`; an instant is a number of ticks of the clock.
pub record RateWindow : Type 0 where
  pub started_at : ℕ
  pub count : ℕ

-- `FixedWindowRateLimiter`, with the clock's ticks in a second.
pub record RateLimiter : Type 0 where
  pub max_requests : ℕ
  pub window_seconds : ℕ
  pub max_identities : ℕ
  pub ticks : ℕ
  pub windows : Dict Text RateWindow

-- `FixedWindowRateLimiter.__init__`
unfoldable pub new_limiter : ℕ → ℕ → ℕ → ℕ → RateLimiter
new_limiter max_requests window_seconds max_identities ticks = record {
  max_requests = max max_requests 1;
  window_seconds = max window_seconds 1;
  max_identities = max max_identities 1;
  ticks = max ticks 1;
  windows = [];
}

-- The length of a window in ticks.
abbrev pub span : RateLimiter → ℕ
span l = l.window_seconds * l.ticks

abbrev pub is_open : RateLimiter → ℕ → Text × RateWindow → Bool
is_open l now (_, w) = not (leb (w.started_at + span l) now)

-- `_remove_expired`
unfoldable pub remove_expired : ℕ → RateLimiter → RateLimiter
remove_expired now l = record l { windows = select (is_open l now) l.windows }

-- `max(math.ceil(remaining), 1)` for a number of ticks
abbrev pub whole_seconds : ℕ → ℕ → ℕ
whole_seconds ticks remaining = max ((remaining + (ticks - 1)) / ticks) 1

-- The branches of `retry_after` behind the removal and the lookup: `none` lets the request through.
unfoldable pub retry_on : Text → ℕ → Option RateWindow → RateLimiter → Option ℕ × RateLimiter
retry_on identity now none l =
    if leb l.max_identities (length l.windows) then (some l.window_seconds, l) else (
      none,
      record l { windows = put identity (record { started_at = now; count = 1 }) l.windows },
    )
retry_on identity now (some w) l =
    if leb l.max_requests w.count
    then (some (whole_seconds l.ticks (span l + w.started_at - now)), l)
    else (none, record l { windows = put identity (record w { count = suc w.count }) l.windows })

-- `retry_after`. Its window is open behind the removal, so `window_seconds - (now - started_at)` is
-- not negative.
unfoldable pub retry_after : Text → ℕ → RateLimiter → Option ℕ × RateLimiter
retry_after identity now l =
    let t = remove_expired now l in retry_on identity now (get identity t.windows) t
