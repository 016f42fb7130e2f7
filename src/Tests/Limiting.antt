-- ===== src/Tests/Limiting.antt =====
-- The limits of app/security.py on concrete requests.
use maskgate.Base.{
  List, Text, [], arith, codes, false, get, list_beq, list_eq, nat_eq, none, option_eq, pair_eq,
  refl, some, true, ◌+◌, ◌<◌, ◌∷◌, ◌≡◌, ◌≤◌,
}
use maskgate.Limits.Rate.{RateLimiter, retry_after, retry_on, remove_expired}
use maskgate.Limits.Rate.Laws.{IsValidLimiter, let_through, window_bound, Request}
use maskgate.Limits.Rate.Honest.{retry_after_honest}
use maskgate.Limits.Bodies.{
  Message, request_body, other_message, receive_all, body_bytes, receive_all_lem,
}

abbrev who : Text
who = codes "token:1"

abbrev limiter : RateLimiter
limiter = record {
  max_requests = 2;
  window_seconds = 60;
  max_identities = 10;
  ticks = 1000;
  windows = (who, record { started_at = 500; count = 2 }) ∷ [];
}

limiter-IsValid : IsValidLimiter limiter
limiter-IsValid = record {
  requests = omega arith;
  seconds = omega arith;
  identities = omega arith;
  tick = omega arith;
  distinct = (unfold get in refl, tt);
  bound = omega arith;
  counts = (omega arith, tt);
}

found_window : get who limiter.windows ≡ some (record { started_at = 500; count = 2 })
unfolding get list_beq
found_window = refl

abbrev calls : List Request
calls = (who, 600) ∷ (codes "other", 700) ∷ (who, 800) ∷ []

window_bound_example : let_through who calls limiter + 2 ≤ 2
window_bound_example =
    window_bound who 500 2 calls limiter limiter-IsValid found_window
      (omega arith, (omega arith, (omega arith, tt)))

refused : (retry_after who 600 limiter).0 ≡ some 60
unfolding retry_after retry_on remove_expired get list_beq
refused = refl

retry_after_honest_example :
    (1 ≤ 60) × ((retry_after who 60600 (retry_after who 600 limiter).1).0 ≡ none)
retry_after_honest_example =
    retry_after_honest who 600 60600 60 limiter limiter-IsValid (omega arith, tt) refused
      (omega arith)

abbrev chunks : List Message
chunks = request_body (codes "abc") ∷ other_message ∷ request_body (codes "de") ∷ []

receive_all_lem_example :
    let (got, raised) = receive_all 4 chunks 0 in
    (body_bytes got ≤ 4)
    × (body_bytes chunks ≤ 4 → (got ≡ chunks) × (raised ≡ false))
    × (4 < body_bytes chunks → raised ≡ true)
receive_all_lem_example = receive_all_lem 4 chunks

receive_runs : receive_all 4 chunks 0 ≡ (request_body (codes "abc") ∷ other_message ∷ [], true)
unfolding receive_all maskgate.Limits.Bodies.limited_receive
receive_runs = refl
