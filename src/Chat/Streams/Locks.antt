-- ===== src/Chat/Streams/Locks.antt =====
-- app/chat/orchestrator.py: what `stream_chat` leaves of the lock of its conversation.
use maskgate.Base.{
  Bool, Bool-cases, Error, List, Option, Result, Text, [], arith, conversation_capacity, eq_self,
  err, false, get-remove, if-holds, inl, inr, list_eq, nat_beq_iff, nat_eq, none, ok, option_eq,
  pair_eq, refl, some, true, wire_violation, ◌==◌, ◌≡◌,
}
use maskgate.Privacy.{Floats}
use maskgate.PolicyV2.{Platform}
use maskgate.Principal.{PrincipalContext, vault_namespace}
use maskgate.Session.{Session, Mode, new_session}
use maskgate.Conversations.{Store, Conversation, get_or_create}
use maskgate.Chat.Payload.{ChatRequest, local_free_payload, reject_unsanitized_media}
use maskgate.Chat.Types.{Chat, Occasion, blocked_types, mode_beq}
use maskgate.Chat.Masking.{Masking, Prepared}
use maskgate.Chat.Answer.{delete_items, Orchestrator, on_world, put_items}
use maskgate.Chat.Streams.Media.{IsOrdinary, payload-IsOrdinary}
use maskgate.Chat.Generator.{
  streamed, touch_stream, rescue_stream, generate_events, Stream, StreamCall, StreamReply,
  run_generator, serve_stream, close_stream,
}
use maskgate.Mappings.{delete_mapping}
use maskgate.Chat.Cleared.{IsClear}
use maskgate.Chat.Streams.{
  capacity_reply, release_refused, refusal_reply, leave_refused, after_masking, masked_stream,
  stream_session, with_stream_session, with_stream_media, stream_state, stream_opened, stream_fresh,
  stream_in, stream_mode, stream_chat, clone, unsafe_kind, refuse_media, compare_modes, answered,
  World,
}

module _ (o : Occasion) where
  -- Behind a stream that has run, the store holds no mapping under the request's id.
  abbrev pub IsSwept : Result StreamReply → Stream → Type 0
  IsSwept (ok (streamed chunks)) s = IsClear o s.chat.world
  IsSwept _ s = Unit {0}

  -- Either the lock is free, or the generator was never started, or an exception that is no
  -- `PolicyBlocked` has left the method.
  pub data LockEffect (call : StreamCall) (r : Result StreamReply) (s : Stream) : Type 0 where
    freed : s.held ≡ false → IsSwept r s → LockEffect call r s
    unstarted : call.wants ≡ 0 → r ≡ ok (streamed []) → LockEffect call r s
    left : (e : Error) → r ≡ err e → blocked_types e ≡ none → LockEffect call r s

module _ (pf : Platform) (fl : Floats) {C : Type 0} (self : Orchestrator pf fl C)
    (principal : PrincipalContext) (o : Occasion) (call : StreamCall) (request : ChatRequest) where
  refusal-IsSwept :
      (e : Error) (s : Stream) → IsSwept o (refusal_reply pf fl self principal o call request e) s
  unfolding refusal_reply blocked_types
  refusal-IsSwept wire_violation s = tt
  refusal-IsSwept _ s = tt

  capacity-IsSwept :
      (e : Error) (s : Stream) → IsSwept o (capacity_reply pf fl self principal o call request e) s
  capacity-IsSwept conversation_capacity s = tt
  capacity-IsSwept _ s = tt

  delete-IsClear : (w : World) → IsClear o (delete_items o w)
  unfolding delete_mapping
  delete-IsClear w =
      rw (get-remove o.request_id o.request_id w.mappings.mappings, eq_self o.request_id) refl

  touch-IsClear :
      (state : Option Conversation) (completed : Bool) (w : World)
      → IsClear o (touch_stream pf fl self o call state completed (delete_items o w))
  touch-IsClear none completed w = delete-IsClear w
  touch-IsClear (some state) true w = delete-IsClear w
  touch-IsClear (some state) false w = delete-IsClear w

  -- A request without a conversation holds no lock.
  abbrev pub HoldsFor : Option Conversation → Stream → Type 0
  HoldsFor state s = state ≡ none → s.held ≡ false

  release-free :
      (state : Option Conversation) (s : Stream)
      → HoldsFor state s
      → (release_refused pf fl self principal o call request state s).held ≡ false
  unfolding release_refused
  release-free none s h = h refl
  release-free (some state) s h = refl

  refuse-LockEffect :
      (state : Option Conversation) (e : Error) (types : Option (List Text)) (s : Stream)
      → HoldsFor state s
      → blocked_types e ≡ types
      → let t = leave_refused pf fl self principal o call request types state e s in
        LockEffect o call t.0 t.1
  refuse-LockEffect state e none s h b = left e refl b
  refuse-LockEffect state e (some types) s h b =
      freed (release-free state s h)
        (refusal-IsSwept e (release_refused pf fl self principal o call request state s))

  run_generator-LockEffect :
      (state : Option Conversation) (m : Masking) (p : Prepared pf fl) (c : Chat)
      → let t =
          answered pf fl self principal o call request
            (run_generator pf fl self o call state m p c) in
        LockEffect o call t.0 t.1
  unfolding run_generator close_stream
  run_generator-LockEffect state m p c =
      let g = rescue_stream pf fl self o call (
        generate_events pf fl self o call state m p
          (record { chat = c; buffers = []; out = []; completed = false })) in
      freed refl (touch-IsClear state g.completed g.chat.world)

  serve_stream-LockEffect :
      (state : Option Conversation) (m : Masking) (p : Prepared pf fl) (s : Stream)
      → let t =
          answered pf fl self principal o call request
            (serve_stream pf fl self o call state m p s) in
        LockEffect o call t.0 t.1
  unfolding serve_stream
  serve_stream-LockEffect state m p s = elim (Bool-cases (call.wants == 0)) [
    | inl e ↦ rw e (unstarted ((nat_beq_iff call.wants 0).0 e) refl)
    | inr e ↦ rw e (run_generator-LockEffect state m p s.chat)
  ]

  -- A response that is cancelled before its first step leaves the lock as it is.
  serve_stream_unstarted :
      (state : Option Conversation) (m : Masking) (p : Prepared pf fl) (s : Stream)
      → call.wants ≡ 0
      → (serve_stream pf fl self o call state m p s).1 ≡ s
  unfolding serve_stream
  serve_stream_unstarted state m p s none_wanted = rw none_wanted refl

  masked-LockEffect :
      (state : Option Conversation) (r : Result (Prepared pf fl) × Masking) (s : Stream)
      → HoldsFor state s
      → let t = after_masking pf fl self principal o call request state r s in
        LockEffect o call t.0 t.1
  unfolding after_masking
  masked-LockEffect state (err e, m) s h = refuse-LockEffect state e (blocked_types e) s h refl
  masked-LockEffect state (ok p, m) s h =
      if-holds (λ (t : Result StreamReply × Stream). LockEffect o call t.0 t.1) call.supported _ _
        (serve_stream-LockEffect state m p
          (record s { chat = on_world (put_items o m.session) s.chat }))
        (freed refl tt)

  -- The preparation has raised an exception that is no `PolicyBlocked`: the lock stays as it is.
  after_masking_left :
      (state : Option Conversation) (e : Error) (m : Masking) (s : Stream)
      → blocked_types e ≡ none
      → after_masking pf fl self principal o call request state (err e, m) s ≡ (err e, s)
  unfolding after_masking
  after_masking_left state e m s unblocked = rw (unblocked) refl

  session-LockEffect :
      (mode : Mode) (state : Option Conversation) (s : Stream)
      → HoldsFor state s
      → let t =
          with_stream_session pf fl self principal o call request state
            (stream_session pf fl self principal o call request mode state)
            s in
        LockEffect o call t.0 t.1
  session-LockEffect mode (some state) s h =
      masked-LockEffect (some state)
        (masked_stream pf fl self principal o call request (some state)
          (record (clone none state.session) { draws = o.draws }))
        s h
  session-LockEffect mode none s h =
      elim (new_session mode self.settings.policy o.namespace self.settings.budget o.draws)
        as (λ r.
          let t = with_stream_session pf fl self principal o call request none r s in
          LockEffect o call t.0 t.1) [
            | err e ↦ freed (h refl) tt
            | ok session ↦
                masked-LockEffect none
                  (masked_stream pf fl self principal o call request none session) s h
          ]

  unsafe-LockEffect :
      (state : Option Conversation) (kind : Option Text) (e : Error) (s : Stream)
      → HoldsFor state s
      → blocked_types e ≡ none
      → let t = refuse_media pf fl self principal o call request kind state e s in
        LockEffect o call t.0 t.1
  unsafe-LockEffect state none e s h i = left e refl i
  unsafe-LockEffect state (some kind) e s h i = freed (release-free state s h) tt

  media-LockEffect :
      (mode : Mode) (state : Option Conversation) (r : Result (Unit {0})) (s : Stream)
      → HoldsFor state s
      → IsOrdinary r
      → let t = with_stream_media pf fl self principal o call request mode state r s in
        LockEffect o call t.0 t.1
  unfolding with_stream_media
  media-LockEffect mode state (ok u) s h i = session-LockEffect mode state s h
  media-LockEffect mode state (err e) s h i =
      unsafe-LockEffect state (unsafe_kind pf fl self principal o call request e) e s h i

  state-LockEffect :
      (mode : Mode) (state : Option Conversation) (s : Stream)
      → HoldsFor state s
      → let t = stream_state pf fl self principal o call request mode state s in
        LockEffect o call t.0 t.1
  unfolding stream_state
  state-LockEffect mode state s h =
      media-LockEffect mode state
        (reject_unsanitized_media pf.unicode self.str (local_free_payload request)) s h
        (payload-IsOrdinary pf.unicode self.str (local_free_payload request))

  module _ (mode : Mode) where
    opened-LockEffect :
        (c : Chat) (r : Result Conversation × Store)
        → let t = stream_opened pf fl self principal o call request mode c r in
          LockEffect o call t.0 t.1
    unfolding stream_opened
    opened-LockEffect c (ok state, store) =
        let opened = on_world (λ w. record w { conversations = store }) c in
        elim (mode_beq state.session.mode mode)
          as (λ b.
            let t = compare_modes pf fl self principal o call request mode state opened b in
            LockEffect o call t.0 t.1) [
              | true ↦
                  state-LockEffect mode (some (o.at_lock state))
                    (record { chat = on_world o.before_lock opened; held = true })
                    (λ e. ground (arith, e))
              | false ↦ freed refl tt
            ]
    opened-LockEffect c (err e, store) = freed refl (
        capacity-IsSwept e
          (record { chat = on_world (λ w. record w { conversations = store }) c; held = false }))

    fresh-LockEffect :
        (id : Text) (c : Chat) (r : Result Session)
        → let t = stream_fresh pf fl self principal o call request mode id c r in
          LockEffect o call t.0 t.1
    fresh-LockEffect id c (err e) = freed refl tt
    fresh-LockEffect id c (ok fresh) =
        opened-LockEffect c
          (get_or_create id (vault_namespace principal) fresh o.opened c.world.conversations)

    in-LockEffect :
        (id : Result (Option Text)) (c : Chat)
        → let t = stream_in pf fl self principal o call request mode id c in
          LockEffect o call t.0 t.1
    in-LockEffect (err e) c = freed refl tt
    in-LockEffect (ok none) c =
        state-LockEffect mode none (record { chat = c; held = false }) (λ e. refl)
    in-LockEffect (ok (some id)) c =
        fresh-LockEffect id c
          (new_session mode self.settings.policy o.namespace self.settings.budget o.draws)

  mode-LockEffect :
      (mode : Option Mode) (id : Result (Option Text)) (c : Chat)
      → let t = stream_mode pf fl self principal o call request mode id c in
        LockEffect o call t.0 t.1
  mode-LockEffect none id c = freed refl tt
  mode-LockEffect (some mode) id c = in-LockEffect mode id c

  -- When stream_chat has ended, its generator included, whatever the provider raises and wherever
  -- the reader goes once the generator has been started, the lock of the conversation is free, and
  -- behind a stream that has run nothing stands under the request's id; or the response was given
  -- up before the first step of the generator; or an exception that is no PolicyBlocked has left
  -- the method.
  pub stream_chat-LockEffect :
      (override : Option Text) (allow_mode_override : Bool) (c : Chat)
      → let (r, s) =
          stream_chat pf fl self principal o call request override allow_mode_override c in
        LockEffect o call r s
  unfolding stream_chat
  stream_chat-LockEffect override allow_mode_override c =
      if-holds (λ (t : Result StreamReply × Stream). LockEffect o call t.0 t.1) self.provider_ready
        _ _ (mode-LockEffect _ _ c) (freed refl tt)
