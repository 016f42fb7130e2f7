-- ===== src/Conversations/Trim.antt =====
-- app/storage/conversation_store.py: the trimmed history fits the limits.
use maskgate.Base.{
  Bool-cases, In, In-append, In-select, List, Option-cases, [], arith, drop, inl, inr, length,
  length-append, length-drop, length-take, ltb, max, not, select, some, suc, take, zero, ℕ, ◌&&◌,
  ◌-◌, ◌∷◌, ◌≡◌, ◌≤◌, ◌⊎◌,
}
use maskgate.Json.{Json, Fields}
use maskgate.Conversations.{
  Store, cap_count, pop_plain, pop_message, shrink, total_chars, trim_messages, is_system, last_of,
}

length-pop_plain : (ms r : List Fields) → pop_plain ms ≡ some r → suc (length r) ≡ length ms
unfolding pop_plain
length-pop_plain [] r h = ground arith
length-pop_plain (m ∷ ms) r h = elim (Bool-cases (is_system m)) [
  | inr e ↦ ground arith
  | inl e ↦ elim (Option-cases (pop_plain ms)) [
    | inl q ↦ ground arith
    | inr (x, q) ↦ ground (arith, length-pop_plain ms x q)
  ]
]

length-pop_message : (ms : List Fields) → length (pop_message ms) ≡ length ms - 1
unfolding pop_message
length-pop_message ms = elim (Option-cases (pop_plain ms)) [
  | inl e ↦ rw (e, length) (length-drop 1 ms)
  | inr (r, e) ↦ rw (e, length) (omega (arith, length-pop_plain ms r e))
]

module _ (str_length : Json → ℕ) (limit : ℕ) where
  length-shrink-le :
      (fuel : ℕ) (ms : List Fields) → length (shrink str_length limit fuel ms) ≤ length ms
  unfolding shrink
  length-shrink-le zero ms = omega arith
  length-shrink-le (suc fuel) ms =
      ground (arith, length-shrink-le fuel (pop_message ms), length-pop_message ms)

  -- As many turns as there are messages are enough.
  shrink-fits :
      (fuel : ℕ) (ms : List Fields)
      → length ms ≤ fuel
      → (length (shrink str_length limit fuel ms) ≤ 1)
        ⊎ (total_chars str_length (shrink str_length limit fuel ms) ≤ limit)
  unfolding shrink
  shrink-fits zero ms h = inl (omega arith)
  shrink-fits (suc fuel) ms h =
      elim (Bool-cases (ltb 1 (length ms) && ltb limit (total_chars str_length ms))) [
        | inl e ↦ rw e (shrink-fits fuel (pop_message ms) (omega (arith, length-pop_message ms)))
        | inr e ↦ rw e (ground arith)
      ]

  shrink-stays :
      (fuel : ℕ) (ms : List Fields) → 1 ≤ length ms → 1 ≤ length (shrink str_length limit fuel ms)
  unfolding shrink
  shrink-stays zero ms h = h
  shrink-stays (suc fuel) ms h =
      elim (Bool-cases (ltb 1 (length ms) && ltb limit (total_chars str_length ms))) [
        | inl e ↦ rw e (shrink-stays fuel (pop_message ms) (ground (arith, length-pop_message ms)))
        | inr e ↦ rw e h
      ]

In-of_drop : {A : Type 0} (n : ℕ) (a : A) (xs : List A) → In a (drop n xs) → In a xs
In-of_drop zero a xs m = m
In-of_drop (suc n) a [] m = m
In-of_drop (suc n) a (x ∷ xs) m = inr (In-of_drop n a xs m)

In-of_take : {A : Type 0} (n : ℕ) (a : A) (xs : List A) → In a (take n xs) → In a xs
In-of_take zero a xs m = elim m [ ]
In-of_take (suc n) a [] m = m
In-of_take (suc n) a (x ∷ xs) (inl e) = inl e
In-of_take (suc n) a (x ∷ xs) (inr m) = inr (In-of_take n a xs m)

In-of_pop_plain : (a : Fields) (ms r : List Fields) → pop_plain ms ≡ some r → In a r → In a ms
unfolding pop_plain
In-of_pop_plain a [] r h m = absurd (ground arith)
In-of_pop_plain a (x ∷ ms) r h m = elim (Bool-cases (is_system x)) [
  | inr e ↦ inr (ground arith)
  | inl e ↦ elim (Option-cases (pop_plain ms)) [
    | inl q ↦ absurd (ground arith)
    | inr (y, q) ↦ ground (arith, In-of_pop_plain a ms y q)
  ]
]

In-of_pop_message : (a : Fields) (ms : List Fields) → In a (pop_message ms) → In a ms
unfolding pop_message
In-of_pop_message a ms m = elim (Option-cases (pop_plain ms)) [
  | inl e ↦ In-of_drop 1 a ms (rw (e, In) at m)
  | inr (r, e) ↦ In-of_pop_plain a ms r e (rw (e, In) at m)
]

In-of_shrink :
    (str_length : Json → ℕ) (limit fuel : ℕ) (a : Fields) (ms : List Fields)
    → In a (shrink str_length limit fuel ms)
    → In a ms
unfolding shrink
In-of_shrink str_length limit zero a ms m = m
In-of_shrink str_length limit (suc fuel) a ms m =
    elim (Bool-cases (ltb 1 (length ms) && ltb limit (total_chars str_length ms))) [
      | inl e ↦
          In-of_pop_message a ms (In-of_shrink str_length limit fuel a (pop_message ms) (rw e at m))
      | inr e ↦ (rw e at m)
    ]

length-cap_count-le :
    (limit : ℕ) (ms : List Fields) → 4 ≤ limit → length (cap_count limit ms) ≤ limit
unfolding cap_count
length-cap_count-le limit ms h =
    let system = select is_system ms in
    let plain = select (λ m. not (is_system m)) ms in
    ground (
      arith,
      length-append (take 2 system) (last_of (max (limit - 2) 2) plain),
      length-take 2 system,
      length-drop (length plain - max (limit - 2) 2) plain,
    )

In-of_cap_count : (limit : ℕ) (a : Fields) (ms : List Fields) → In a (cap_count limit ms) → In a ms
unfolding cap_count
In-of_cap_count limit a ms m = elim (Bool-cases (ltb limit (length ms))) [
  | inr e ↦ (rw e at m)
  | inl e ↦
      let system = select is_system ms in
      let plain = select (λ x. not (is_system x)) ms in
      elim (In-append a (take 2 system) (last_of (max (limit - 2) 2) plain) (rw e at m)) [
        | inl l ↦ (In-select is_system a ms (In-of_take 2 a system l)).0
        | inr r ↦
            (In-select (λ x. not (is_system x)) a ms
              (In-of_drop (length plain - max (limit - 2) 2) a plain r)).0
      ]
]

-- Where a store allows four messages or more, the history that it keeps has at most max_messages
-- messages, of which each was given; it has at most max_chars characters unless a single message is
-- left.
pub trim_messages_lem :
    (str_length : Json → ℕ) (s : Store) (ms : List Fields)
    → 4 ≤ s.max_messages
    → let trimmed = trim_messages str_length s ms in
      (length trimmed ≤ s.max_messages)
      × ((length trimmed ≤ 1) ⊎ (total_chars str_length trimmed ≤ s.max_chars))
      × ((m : Fields) → In m trimmed → In m ms)
unfolding trim_messages
trim_messages_lem str_length s ms h =
    let capped = cap_count s.max_messages ms in
    (
      omega (
        arith,
        length-shrink-le str_length s.max_chars (length capped) capped,
        length-cap_count-le s.max_messages ms h,
      ),
      shrink-fits str_length s.max_chars (length capped) capped (omega arith),
      λ m k.
          In-of_cap_count s.max_messages m ms
            (In-of_shrink str_length s.max_chars (length capped) m capped k),
    )
