-- ===== src/Rehydrate/Stream/Held.antt =====
-- app/proxy/streaming.py: what `StreamingRehydrator` holds back.
use maskgate.Base.{
  Bool-cases, List, Option, Option-cases, Text, [], ap, arith, eq_iff, false, if◌then◌else◌, inl,
  inr, list_eq, nat_eq, none, not, option_eq, pair_eq, refl, some, starts_with, subst, sym, true, ℕ,
  ◌&&◌, ◌++◌, ◌==◌, ◌∙◌, ◌∷◌, ◌≡◌, ◌⊎◌,
}
use mathlib.Core.List.{append-nil, append_assoc}
use maskgate.Vault.{MappingItem}
use maskgate.Rehydrate.{rehydrate_text}
use maskgate.Rehydrate.Stream.{
  StreamingRehydrator, new_rehydrator, split_last, is_partial, hold_split, safe_and_hold, push,
  finish, push_all, joined, restored,
}

split_last-append : (s before rest : Text) → split_last s ≡ some (before, rest) → before ++ rest ≡ s
unfolding split_last
split_last-append [] before rest h = cc
split_last-append (c ∷ s) before rest h = elim (Option-cases (split_last s)) [
  | inl e ↦ ground arith
  | inr ((b, r), e) ↦ ground (arith, split_last-append s b r)
]

-- What is held back is nothing or the proper beginning of a token.
abbrev pub IsHeld : List MappingItem → Text → Type 0
IsHeld mapping hold = (hold ≡ []) ⊎ (is_partial mapping hold ≡ true)

hold_split_lem :
    (mapping : List MappingItem) (buffer : Text) (o : Option (Text × Text))
    → ((before rest : Text) → o ≡ some (before, rest) → before ++ rest ≡ buffer)
    → let (safe, hold) = hold_split mapping buffer o in
      (safe ++ hold ≡ buffer) × IsHeld mapping hold
hold_split_lem mapping buffer none split = (append-nil buffer, inl refl)
hold_split_lem mapping buffer (some (before, candidate)) split =
    elim (Bool-cases (is_partial mapping candidate)) [
      | inl e ↦ rw e (split before candidate refl, inr e)
      | inr e ↦ rw e (append-nil buffer, inl refl)
    ]

safe_and_hold_lem :
    (mapping : List MappingItem) (buffer : Text)
    → let (safe, hold) = safe_and_hold mapping buffer in
      (safe ++ hold ≡ buffer) × IsHeld mapping hold
unfolding safe_and_hold
safe_and_hold_lem mapping buffer =
    hold_split_lem mapping buffer (split_last buffer) (split_last-append buffer)

starts_with-append : (a b t : Text) → starts_with (a ++ b) t ≡ true → starts_with a t ≡ true
unfolding starts_with
starts_with-append [] b t h = refl
starts_with-append (c ∷ a) b [] h = absurd (ground (arith, h))
starts_with-append (c ∷ a) b (d ∷ t) h = ground (arith, h, starts_with-append a b t)

starts_with_longer : (a b : Text) → starts_with (a ++ b) a ≡ true → b ≡ []
unfolding starts_with
starts_with_longer [] [] h = refl
starts_with_longer [] (c ∷ b) h = absurd (ground (arith, h))
starts_with_longer (c ∷ a) b h = starts_with_longer a b (ground (arith, h))

-- What begins a proper beginning of a token is one itself.
begins-append :
    (a b t : Text)
    → starts_with (a ++ b) t && not (a ++ b == t) ≡ true
    → starts_with a t && not (a == t) ≡ true
begins-append a b t h = elim (Bool-cases (a == t)) [
  | inl e ↦
      let same = (eq_iff a t).0 e in
      let whole : starts_with (a ++ b) t ≡ true = ground (arith, h) in
      let nothing =
        starts_with_longer a b
          (subst (λ (s : Text). starts_with (a ++ b) s ≡ true) (sym same) whole) in
      let again : a ++ b ≡ t = ap (λ (l : Text). a ++ l) nothing ∙ append-nil a ∙ same in
      let said = (eq_iff (a ++ b) t).1 again in absurd (ground (arith, h, said))
  | inr e ↦
      let whole : starts_with (a ++ b) t ≡ true = ground (arith, h) in
      ground (arith, e, starts_with-append a b t whole)
]

is_partial-append :
    (mapping : List MappingItem) (a b : Text)
    → is_partial mapping (a ++ b) ≡ true
    → is_partial mapping a ≡ true
unfolding is_partial
is_partial-append [] a b h = h
is_partial-append (i ∷ mapping) a b h =
    elim (Bool-cases (starts_with (a ++ b) i.replacement && not (a ++ b == i.replacement))) [
      | inl e ↦ ground (arith, begins-append a b i.replacement e)
      | inr e ↦ ground (arith, is_partial-append mapping a b (ground (arith, h, e)))
    ]

split_last_own :
    (s before rest : Text) → split_last s ≡ some (before, rest) → split_last rest ≡ some ([], rest)
unfolding split_last
split_last_own [] before rest h = absurd (cc)
split_last_own (c ∷ s) before rest h = elim (Option-cases (split_last s)) [
  | inl e ↦
      let same : c ∷ s ≡ rest = ground (arith, h, e) in
      subst (λ (t : Text). split_last t ≡ some ([], t)) same (ground (arith, h, e))
  | inr ((b, r), e) ↦
      let same : r ≡ rest = ground (arith, h, e) in
      subst (λ (t : Text). split_last t ≡ some ([], t)) same (split_last_own s b r e)
]

-- The last `<` of a text in two parts.
join_split : Text → Option (Text × Text) → Text → Option (Text × Text) → Option (Text × Text)
join_split a o b (some (before, rest)) = some (a ++ before, rest)
join_split a (some (before, rest)) b none = some (before, rest ++ b)
join_split a none b none = none

later_split : ℕ → Text → Option (Text × Text) → Option (Text × Text)
later_split c s (some (before, rest)) = some (c ∷ before, rest)
later_split c s none = if c == b'<' then some ([], c ∷ s) else none

split_last-cons : (c : ℕ) (s : Text) → split_last (c ∷ s) ≡ later_split c s (split_last s)
unfolding split_last later_split
split_last-cons c s = elim (Option-cases (split_last s)) [
  | inl e ↦ rw e refl
  | inr ((before, rest), e) ↦ rw e refl
]

later_split-join :
    (c : ℕ) (a b : Text) (o p : Option (Text × Text))
    → later_split c (a ++ b) (join_split a o b p) ≡ join_split (c ∷ a) (later_split c a o) b p
unfolding later_split join_split
later_split-join c a b o (some (before, rest)) = refl
later_split-join c a b (some (before, rest)) none = refl
later_split-join c a b none none = elim (Bool-cases (c == b'<')) [
  | inl e ↦ rw e refl
  | inr e ↦ rw e refl
]

join_split-nil : (b : Text) (p : Option (Text × Text)) → p ≡ join_split [] none b p
unfolding join_split
join_split-nil b none = refl
join_split-nil b (some (before, rest)) = refl

split_last-append_join :
    (a b : Text) → split_last (a ++ b) ≡ join_split a (split_last a) b (split_last b)
split_last-append_join [] b = unfold split_last in join_split-nil b (split_last b)
split_last-append_join (c ∷ a) b =
    split_last-cons c (a ++ b)
    ∙ ap (later_split c (a ++ b)) (split_last-append_join a b)
    ∙ later_split-join c a b (split_last a) (split_last b)
    ∙ ap (λ o. join_split (c ∷ a) o b (split_last b)) (sym (split_last-cons c a))

module _ (mapping : List MappingItem) where
  -- What has to be held back of a text whose last `<` is there.
  hold_of : Option (Text × Text) → Text
  hold_of none = []
  hold_of (some (before, rest)) = if is_partial mapping rest then rest else []

  hold_of-split : (buffer : Text) → (safe_and_hold mapping buffer).1 ≡ hold_of (split_last buffer)
  unfolding safe_and_hold hold_of
  hold_of-split buffer = elim (Option-cases (split_last buffer)) [
    | inl e ↦ rw e refl
    | inr ((before, rest), e) ↦ rw e (ground arith)
  ]

  joined-hold :
      (w c : Text) (o p : Option (Text × Text))
      → split_last w ≡ o
      → split_last c ≡ p
      → hold_of (join_split w o c p) ≡ hold_of (join_split (hold_of o) (split_last (hold_of o)) c p)
  unfolding hold_of join_split
  joined-hold w c o (some (before, rest)) h k = refl
  joined-hold w c none none h k = unfold split_last in refl
  joined-hold w c (some (before, rest)) none h k = elim (Bool-cases (is_partial mapping rest)) [
    | inl e ↦ rw (e, split_last_own w before rest h) refl
    | inr e ↦ elim (Bool-cases (is_partial mapping (rest ++ c))) [
      | inl f ↦ let g = is_partial-append mapping rest c f in absurd (ground (arith, e, g))
      | inr f ↦ rw (e, f) (unfold split_last in refl)
    ]
  ]

  -- Holding back step by step is holding back at the end.
  hold_of-append :
      (w c : Text)
      → hold_of (split_last (hold_of (split_last w) ++ c)) ≡ hold_of (split_last (w ++ c))
  hold_of-append w c =
      ap hold_of (split_last-append_join (hold_of (split_last w)) c)
      ∙ sym (joined-hold w c (split_last w) (split_last c) refl refl)
      ∙ ap hold_of (sym (split_last-append_join w c))

-- What is held of a stream: from its last `<` on, if that is the proper beginning of a token, and
-- otherwise nothing.
abbrev pub HoldsOf : List MappingItem → Text → Text → Type 0
HoldsOf mapping stream hold =
    ((before rest : Text)
      → split_last stream ≡ some (before, rest)
      → (is_partial mapping rest ≡ true → hold ≡ rest)
        × (is_partial mapping rest ≡ false → hold ≡ []))
    × (split_last stream ≡ none → hold ≡ [])

hold_of-HoldsOf :
    (mapping : List MappingItem) (stream : Text)
    → HoldsOf mapping stream (hold_of mapping (split_last stream))
unfolding hold_of
hold_of-HoldsOf mapping stream =
    (λ before rest e. (λ k. rw (e, k) refl, λ k. rw (e, k) refl), λ e. rw e refl)

push_all_hold :
    (chunks : List Text) (r : StreamingRehydrator) (earlier : Text)
    → r.buffer ≡ hold_of r.mapping (split_last earlier)
    → let (outs, t) = push_all chunks r in
      (pieces : List Text) × (outs ≡ restored r.mapping pieces)
      × (joined pieces ++ t.buffer ≡ r.buffer ++ joined chunks)
      × (t.mapping ≡ r.mapping)
      × (t.buffer ≡ hold_of r.mapping (split_last (earlier ++ joined chunks)))
unfolding push_all joined push
push_all_hold [] r earlier held = (
  [],
  refl,
  sym (append-nil r.buffer),
  refl,
  held ∙ ap (λ (l : Text). hold_of r.mapping (split_last l)) (sym (append-nil earlier)),
)
push_all_hold (c ∷ cs) r earlier held =
    let (safe, hold) = safe_and_hold r.mapping (r.buffer ++ c) in
    let whole = (safe_and_hold_lem r.mapping (r.buffer ++ c)).0 in
    let now : hold ≡ hold_of r.mapping (split_last (earlier ++ c)) =
      hold_of-split r.mapping (r.buffer ++ c)
      ∙ ap (λ (l : Text). hold_of r.mapping (split_last (l ++ c))) held
      ∙ hold_of-append r.mapping earlier c in
    let (pieces, outs, kept, same, last) =
      push_all_hold cs (record r { buffer = hold }) (earlier ++ c) now in
    (
      safe ∷ pieces,
      ap (λ l. rehydrate_text safe r.mapping ∷ l) outs,
      append_assoc safe (joined pieces) _
          ∙ ap (λ l. safe ++ l) kept
          ∙ sym (append_assoc safe hold (joined cs))
          ∙ ap (λ l. l ++ joined cs) whole
          ∙ append_assoc r.buffer c (joined cs),
      same,
      last
          ∙ ap (λ (l : Text). hold_of r.mapping (split_last l))
              (append_assoc earlier c (joined cs)),
    )

-- Pushed chunk by chunk into a new rehydrator, a stream is cut into pieces that are rehydrated one
-- by one; the pieces and what the buffer holds at the end are the whole stream. What is held is
-- exactly what stands from the last < of the stream on, if that is the proper beginning of a token,
-- and otherwise nothing; and finish rehydrates it.
pub push_all_lem :
    (chunks : List Text) (mapping : List MappingItem)
    → let restorable = (new_rehydrator mapping).mapping in
      let (outs, t) = push_all chunks (new_rehydrator mapping) in
      (pieces : List Text) × (outs ≡ restored restorable pieces)
      × (joined pieces ++ t.buffer ≡ joined chunks)
      × HoldsOf restorable (joined chunks) t.buffer
      × ((finish t).0 ≡ rehydrate_text t.buffer restorable)
unfolding finish hold_of
push_all_lem chunks mapping =
    let r = new_rehydrator mapping in
    let (pieces, outs, kept, same, last) =
      push_all_hold chunks r [] (unfold new_rehydrator split_last in refl) in
    (
      pieces,
      outs,
      unfold new_rehydrator in kept,
      subst (HoldsOf r.mapping (joined chunks)) (sym last)
          (hold_of-HoldsOf r.mapping (joined chunks)),
      ap (rehydrate_text (push_all chunks r).1.buffer) same,
    )
