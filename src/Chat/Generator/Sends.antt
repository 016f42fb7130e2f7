-- ===== src/Chat/Generator/Sends.antt =====
-- app/chat/orchestrator.py: what `event_generator` sends to the provider.
use maskgate.Base.{
  Keeps, Keeps-bind, Keeps-gets, Keeps-lift, Keeps-pure, List, Option, Result, Text, [], err, false,
  if-holds, inl, inr, list_eq, nat_eq, none, ok, option_eq, pair_eq, refl, resume-relates, some,
  subst, sym, ℕ, ◌==◌, ◌∷◌, ◌≡◌,
}
use maskgate.Json.{Json, Fields}
use maskgate.Privacy.{Floats}
use maskgate.PolicyV2.{Platform}
use maskgate.Session.{Session}
use maskgate.Conversations.{Conversation}
use maskgate.Pipeline.{Argument}
use maskgate.Chat.Turns.{messages_in}
use maskgate.Chat.Payload.{messages_of}
use maskgate.Chat.Types.{Chat, Occasion, upstream_failure}
use maskgate.Chat.Masking.{Masking, Prepared}
use maskgate.Chat.Answer.{Orchestrator}
use maskgate.Chat.Sends.{SendsAtMost, argument_for}
use maskgate.Chat.Generator.{
  Generator, Stream, StreamCall, StreamReply, emit, emit_all, forward, end_stream, generate_events,
  rescue_stream, close_stream, run_generator, serve_stream, commit_stream, pushed,
  parse_stream_event, end_of_events, mark_completed, done, event, Chunk, yield_error,
}
use maskgate.Streaming.{provider_text, finish_events}

-- The list of what has been sent is this one.
abbrev HasSent : List Argument → Generator → Type 0
HasSent l g = g.chat.sent ≡ l

module _ (l : List Argument) (wants : ℕ) where
  emit-Keeps : (chunk : Chunk) → Keeps (HasSent l) (emit wants chunk)
  unfolding emit
  emit-Keeps chunk = record { at = λ g h. h }

  emit_all-Keeps : (events : List Json) → Keeps (HasSent l) (emit_all wants events)
  unfolding emit_all
  emit_all-Keeps [] = Keeps-pure tt
  emit_all-Keeps (e ∷ es) =
      Keeps-bind (emit wants (event e)) (λ _. emit_all wants es) (emit-Keeps (event e))
        (λ _. emit_all-Keeps es)

module _ (pf : Platform) (fl : Floats) {C : Type 0} (self : Orchestrator pf fl C) (o : Occasion)
    (call : StreamCall) where
  module _ (l : List Argument) where
    forward-Keeps :
        (s : Session) (es : List Fields) → Keeps (HasSent l) (forward pf fl self o call s es)
    unfolding forward
    forward-Keeps s [] = Keeps-pure tt
    forward-Keeps s (e ∷ es) =
        Keeps-bind _ _ (Keeps-lift (parse_stream_event pf fl self o call e)) (λ _.
          Keeps-bind (pushed pf fl self o call s e) _ (record { at = λ g h. h })
            (λ safe.
              Keeps-bind _ _ (emit-Keeps l call.wants (event safe)) (λ _. forward-Keeps s es)))

    commit-Keeps :
        (state : Option Conversation) (m : Masking) (said : List Fields) (provider : Text)
        → Keeps (HasSent l) (commit_stream pf fl self o call state m said provider)
    unfolding commit_stream
    commit-Keeps none m said provider = record { at = λ g h. h }
    commit-Keeps (some state) m said provider = record { at = λ g h. h }

    mark-Keeps : Keeps (HasSent l) (mark_completed pf fl self o call)
    mark-Keeps = record { at = λ g h. h }

    end_stream-Keeps :
        (state : Option Conversation) (m : Masking) (payload : Fields)
        → Keeps (HasSent l) (end_stream pf fl self o call state m payload)
    unfolding end_stream
    end_stream-Keeps state m payload =
        Keeps-bind _ _ (Keeps-gets (λ g. provider_text g.buffers)) (λ provider.
          Keeps-bind _ _
            (Keeps-gets (λ g. finish_events self.detect m.session.vault.items g.buffers))
            (λ finals. Keeps-bind _ _ (emit_all-Keeps l call.wants finals) (λ _.
              Keeps-bind _ _ mark-Keeps (λ _.
                Keeps-bind _ _ (Keeps-lift (messages_in (messages_of payload))) (λ said.
                  Keeps-bind _ _ (commit-Keeps state m said provider)
                    (λ _. emit-Keeps l call.wants done))))))

  generate-SendsAtMost :
      (state : Option Conversation) (m : Masking) (p : Prepared pf fl) (g : Generator)
      → SendsAtMost pf fl self p.checked g.chat.sent
          (generate_events pf fl self o call state m p g).1.chat.sent
  unfolding generate_events
  generate-SendsAtMost state m p g =
      resume-relates (λ (d : Generator). SendsAtMost pf fl self p.checked g.chat.sent d.chat.sent)
        (argument_for pf fl self p.checked) _ g (inl refl)
        (λ a e. inr (
          a,
          e,
          (Keeps-bind (forward pf fl self o call m.session (call.stream a).events) _
                (forward-Keeps _ m.session (call.stream a).events)
                (λ _.
                  Keeps-bind _ _
                    (Keeps-lift (end_of_events pf fl self o call (call.stream a).failure))
                    (λ _. end_stream-Keeps _ state m p.payload))).at
              _ refl,
        ))

  yield_error-sent :
      (failure : Option (Text × Text)) (g : Generator)
      → (yield_error pf fl self o call failure g).chat.sent ≡ g.chat.sent
  unfolding yield_error emit
  yield_error-sent none g = refl
  yield_error-sent (some (message, kind)) g = refl

  rescue-sent :
      (x : Result (Unit {0}) × Generator)
      → (rescue_stream pf fl self o call x).chat.sent ≡ x.1.chat.sent
  unfolding rescue_stream
  rescue-sent (ok u, g) = refl
  rescue-sent (err e, g) = yield_error-sent (upstream_failure e) g

  run_generator-SendsAtMost :
      (state : Option Conversation) (m : Masking) (p : Prepared pf fl) (c : Chat)
      → SendsAtMost pf fl self p.checked c.sent
          (run_generator pf fl self o call state m p c).1.chat.sent
  unfolding run_generator close_stream
  run_generator-SendsAtMost state m p c =
      let x =
        generate_events pf fl self o call state m p
          (record { chat = c; buffers = []; out = []; completed = false }) in
      subst (SendsAtMost pf fl self p.checked c.sent) (sym (rescue-sent x))
        (generate-SendsAtMost state m p _)

  pub serve_stream-SendsAtMost :
      (state : Option Conversation) (m : Masking) (p : Prepared pf fl) (s : Stream)
      → SendsAtMost pf fl self p.checked s.chat.sent
          (serve_stream pf fl self o call state m p s).1.chat.sent
  unfolding serve_stream
  serve_stream-SendsAtMost state m p s =
      if-holds
        (λ (t : StreamReply × Stream). SendsAtMost pf fl self p.checked s.chat.sent t.1.chat.sent)
        (call.wants == 0) _ _ (inl refl) (run_generator-SendsAtMost state m p s.chat)
