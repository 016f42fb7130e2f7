-- ===== src/Limits/Bodies.antt =====
-- app/security.py: `RequestBodyLimitMiddleware`.
use maskgate.Base.{
  Bool, Bool-cases, Dict, Exec, List, Option, Text, [], ap, arith, body_too_large, codes, err,
  false, get, if◌then◌else◌, inl, inr, length, list_eq, ltb, max, nat_eq, none, not, ok, option_eq,
  pair_eq, put, refl, some, subst, suc, sym, true, zero, ℕ, ◌*◌, ◌+◌, ◌<◌, ◌==◌, ◌||◌, ◌∷◌, ◌≡◌,
  ◌≤◌,
}
use maskgate.Json.{Integer, pos, negsuc}
use maskgate.Limits.{requires_proxy_auth}

-- An ASGI message: `http.request` with its body, or another.
pub data Message : Type 0 where
  request_body : Text → Message
  other_message : Message

-- The parts of an ASGI scope that are read.
pub record Scope : Type 0 where
  pub is_http : Bool
  pub path : Text
  pub headers : List (Text × Text)

pub record BodyLimit : Type 0 where
  pub max_bytes : ℕ
  pub media_body_max_bytes : ℕ

-- `media_file_max_bytes or self.max_bytes`
abbrev pub media_or : ℕ → Option ℕ → ℕ
media_or least none = least
media_or least (some zero) = least
media_or least (some (suc n)) = suc n

-- `RequestBodyLimitMiddleware.__init__`; a media limit of zero counts as none.
unfoldable pub new_body_limit : ℕ → Option ℕ → BodyLimit
new_body_limit max_bytes media =
    let least = max max_bytes 1 in
    record {
      max_bytes = least;
      media_body_max_bytes = max (media_or least media + 1024 * 1024) least;
    }

-- `dict(headers)`: of two headers with one name the last counts.
unfoldable pub header_dict : List (Text × Text) → Dict Text Text → Dict Text Text
header_dict [] d = d
header_dict ((k, v) ∷ hs) d = header_dict hs (put k v d)

abbrev pub body_limit : BodyLimit → Text → ℕ
body_limit m path =
    if path == codes "/v1/privacy/files/anonymize" then m.media_body_max_bytes else m.max_bytes

-- What the middleware does with a request before it reads the body.
pub data Gate : Type 0 where
  -- The application gets the connection as it is.
  unlimited : Gate
  -- The application gets it with a limited `receive`.
  limited : ℕ → Gate
  -- Status 413, and status 400.
  too_large invalid_length : Gate

unfoldable pub length_gate : ℕ → Option Integer → Gate
length_gate limit none = invalid_length
length_gate limit (some (pos n)) = if ltb limit n then too_large else limited limit
length_gate limit (some (negsuc n)) = limited limit

-- `__call__` up to the call of the application; `parse_int` is Python's `int` on the header's bytes,
-- with `none` for its `ValueError`.
unfoldable pub gate : (Text → Option Integer) → BodyLimit → Scope → Gate
gate parse_int m scope =
    if not scope.is_http || not (requires_proxy_auth scope.path)
    then unlimited
    else elim (get (codes "content-length") (header_dict scope.headers [])) [
      | none ↦ limited (body_limit m scope.path)
      | some value ↦ length_gate (body_limit m scope.path) (parse_int value)
    ]

-- `limited_receive`: the state is `received`, the argument what `receive` returns.
unfoldable pub limited_receive : ℕ → Message → Exec ℕ Message
limited_receive limit other_message received = (ok other_message, received)
limited_receive limit (request_body b) received =
    if ltb limit (received + length b)
    then (err body_too_large, received + length b)
    else (ok (request_body b), received + length b)

-- The messages that an application gets that receives again and again, and whether the last receive
-- raised.
unfoldable pub receive_all : ℕ → List Message → ℕ → List Message × Bool
receive_all limit [] received = ([], false)
receive_all limit (m ∷ ms) received =
    let (r, t) = limited_receive limit m received in
    let (rest, raised) = receive_all limit ms t in
    elim r [ ok x ↦ (x ∷ rest, raised) | err e ↦ ([], true) ]

-- The bytes of the bodies.
unfoldable pub body_bytes : List Message → ℕ
body_bytes [] = 0
body_bytes (other_message ∷ ms) = body_bytes ms
body_bytes (request_body b ∷ ms) = length b + body_bytes ms

receive_over :
    (limit received : ℕ) (b : Text) (ms : List Message)
    → ltb limit (received + length b) ≡ true
    → receive_all limit (request_body b ∷ ms) received ≡ ([], true)
unfolding receive_all limited_receive
receive_over limit received b ms e = ground arith

receive_within :
    (limit received : ℕ) (b : Text) (ms : List Message)
    → ltb limit (received + length b) ≡ false
    → let (rest, raised) = receive_all limit ms (received + length b) in
      receive_all limit (request_body b ∷ ms) received ≡ (request_body b ∷ rest, raised)
unfolding receive_all limited_receive
receive_within limit received b ms e = ground arith

receive_other :
    (limit received : ℕ) (ms : List Message)
    → let (rest, raised) = receive_all limit ms received in
      receive_all limit (other_message ∷ ms) received ≡ (other_message ∷ rest, raised)
unfolding receive_all limited_receive
receive_other limit received ms = refl

-- What holds of the messages got from `ms`, when `received` bytes came before.
abbrev Bounded : ℕ → ℕ → List Message → List Message × Bool → Type 0
Bounded limit received ms (got, raised) =
    (received + body_bytes got ≤ limit)
    × (received + body_bytes ms ≤ limit → (got ≡ ms) × (raised ≡ false))
    × (limit < received + body_bytes ms → raised ≡ true)

receive_all-bounds :
    (limit received : ℕ) (ms : List Message)
    → received ≤ limit
    → Bounded limit received ms (receive_all limit ms received)
unfolding body_bytes
receive_all-bounds limit received [] h =
    unfold receive_all in (omega arith, λ k. (refl, refl), λ k. absurd (omega arith))
receive_all-bounds limit received (other_message ∷ ms) h =
    let (small, all_of, over) = receive_all-bounds limit received ms h in
    subst (Bounded limit received (other_message ∷ ms)) (sym (receive_other limit received ms))
      (small, λ k. (ap (λ l. other_message ∷ l) (all_of k).0, (all_of k).1), over)
receive_all-bounds limit received (request_body b ∷ ms) h =
    elim (Bool-cases (ltb limit (received + length b))) [
      | inl e ↦
          subst (Bounded limit received (request_body b ∷ ms))
            (sym (receive_over limit received b ms e))
            (omega arith, λ k. absurd (ground arith), λ k. refl)
      | inr e ↦
          let (small, all_of, over) =
            receive_all-bounds limit (received + length b) ms (ground arith) in
          subst (Bounded limit received (request_body b ∷ ms))
            (sym (receive_within limit received b ms e))
            (
              omega (arith, small),
              λ k.
                  let (same, quiet) = all_of (omega arith) in
                  (ap (λ l. request_body b ∷ l) same, quiet),
              λ k. over (omega arith),
            )
    ]

-- An application never gets more bytes of a body than the limit; it gets every message unchanged if
-- they are not more, and the middleware's exception if they are.
pub receive_all_lem :
    (limit : ℕ) (ms : List Message)
    → let (got, raised) = receive_all limit ms 0 in
      (body_bytes got ≤ limit)
      × (body_bytes ms ≤ limit → (got ≡ ms) × (raised ≡ false))
      × (limit < body_bytes ms → raised ≡ true)
receive_all_lem limit ms =
    let (small, all_of, over) = receive_all-bounds limit 0 ms (omega arith) in
    (omega (arith, small), λ k. all_of (omega arith), λ k. over (omega arith))
