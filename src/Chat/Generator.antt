-- ===== src/Chat/Generator.antt =====
-- app/chat/orchestrator.py: the generator of `stream_chat`, its `try`, `except` and `finally`.
pub mod Sends
use maskgate.Base.{
  Bool, Error, Exec, List, Option, Result, Text, [], adapter_error, codes, err, false, gets,
  if◌then◌else◌, invalid_output, leb, length, lift, list_eq, nat_eq, none, ok, option_eq, pair_eq,
  pure, reader_gone, some, true, ℕ, ◌++◌, ◌+◌, ◌==◌, ◌>>=◌, ◌>>◌, ◌∷◌,
}
use Prim.Native.String.{String}
use maskgate.Json.{Json, Fields}
use maskgate.Privacy.{Floats}
use maskgate.PolicyV2.{Platform}
use maskgate.Session.{Session}
use maskgate.Conversations.{Conversation, commit, touch}
use maskgate.Pipeline.{Argument, argument_of}
use maskgate.Streaming.{Buffers, push_event, finish_events, provider_text}
use maskgate.Chat.Payload.{messages_of}
use maskgate.Chat.Types.{World, Chat, Occasion, text, dict, error_payload, upstream_failure}
use maskgate.Chat.Masking.{Masking, Prepared}
use maskgate.Chat.Answer.{Orchestrator, on_world, delete_items}
use maskgate.Chat.Turns.{messages_in}

-- What the provider streams: its events and the exception that ends them, if one does.
pub record Events : Type 0 where
  pub events : List Fields
  pub failure : Option Error

-- The stream of an occasion: whether the upstream has `complete_stream`, what that yields, the
-- `parse_stream_event` of an ingress adapter, and how many chunks the reader takes before it goes.
-- With none the response is cancelled before its first step.
pub record StreamCall : Type 0 where
  pub supported : Bool
  pub stream : Argument → Events
  pub parse_event : Option (Fields → Result (Unit {0}))
  pub wants : ℕ

-- A line of the event stream: an event as JSON, or the last line.
pub data Chunk : Type 0 where
  event : Json → Chunk
  done : Chunk

-- The response: a status with its error, or the chunks that the reader has got.
pub data StreamReply : Type 0 where
  failed : ℕ → Json → StreamReply
  streamed : List Chunk → StreamReply

-- What `stream_chat` works on; `held` tells whether this request holds its conversation's lock.
pub record Stream : Type 0 where
  pub chat : Chat
  pub held : Bool

-- What the generator works on.
pub record Generator : Type 0 where
  pub chat : Chat
  pub buffers : Buffers
  pub out : List Chunk
  pub completed : Bool

abbrev pub refuse_with : ℕ → String → String → StreamReply
refuse_with status message kind =
    failed status (error_payload (text message) (text kind) Fields.end)

-- `yield`
unfoldable pub emit : ℕ → Chunk → Exec Generator (Unit {0})
emit wants chunk g = (
  if leb wants (length g.out + 1) then err reader_gone else ok tt,
  record g { out = g.out ++ chunk ∷ [] },
)

unfoldable pub emit_all : ℕ → List Json → Exec Generator (Unit {0})
unfolding emit
emit_all wants [] = pure tt
emit_all wants (e ∷ es) = do emit wants (event e); emit_all wants es

abbrev pub invalid_stream : Result (Unit {0}) → Result (Unit {0})
invalid_stream (err adapter_error) = err (invalid_output (codes "upstream_invalid_stream"))
invalid_stream r = r

module _ (pf : Platform) (fl : Floats) {C : Type 0} (self : Orchestrator pf fl C) (o : Occasion)
    (call : StreamCall) where
  -- One event from the provider to the reader: `PrivacyPipeline.stream` and the loop over it.
  unfoldable pub parse_stream_event : Fields → Result (Unit {0})
  parse_stream_event e = elim call.parse_event [
    | none ↦ ok tt
    | some parse ↦ invalid_stream (parse e)
  ]

  abbrev pub pushed : Session → Fields → Exec Generator Json
  pushed s e g =
      let (r, buffers) = push_event self.detect s.vault.items e g.buffers in
      (r, record g { buffers = buffers })

  unfoldable pub forward : Session → List Fields → Exec Generator (Unit {0})
  unfolding parse_stream_event emit
  forward s [] = pure tt
  forward s (e ∷ es) = do
    lift (parse_stream_event e)
    safe ← pushed s e
    emit call.wants (event safe)
    forward s es

  abbrev pub end_of_events : Option Error → Result (Unit {0})
  end_of_events none = ok tt
  end_of_events (some e) = err e

  -- The call of the provider, when the first event is asked for.
  abbrev pub open_stream : Argument → Exec Generator (Unit {0})
  open_stream argument g = (
    ok tt,
    record g {
      chat = record g.chat {
        world = o.during_call g.chat.world;
        sent = g.chat.sent ++ argument ∷ [];
      };
    },
  )

  -- `if provider_text`
  abbrev pub plus_text : Text → List Fields → List Fields
  plus_text [] ms = ms
  plus_text (c ∷ s) ms =
      ms ++ dict (("role", text "assistant") ∷ ("content", Json.string (c ∷ s)) ∷ []) ∷ []

  -- The commit of a completed stream, in a conversation.
  unfoldable pub commit_stream :
      Option Conversation → Masking → List Fields → Text → Exec Generator (Unit {0})
  commit_stream none m said provider g = (ok tt, g)
  commit_stream (some state) m said provider g = (
    ok tt,
    record g {
      chat =
          on_world
            (λ w. record w {
              conversations =
                  commit (λ v. length (self.str v)) state m.session
                    (plus_text provider (state.messages ++ said)) o.closed w.conversations;
            })
            g.chat;
    },
  )

  abbrev pub mark_completed : Exec Generator (Unit {0})
  mark_completed g = (ok tt, record g { completed = true; buffers = [] })

  -- From the end of the events to the last line.
  unfoldable pub end_stream : Option Conversation → Masking → Fields → Exec Generator (Unit {0})
  unfolding emit_all commit_stream
  end_stream state m payload = do
    provider ← gets (λ g. provider_text g.buffers)
    finals ← gets (λ g. finish_events self.detect m.session.vault.items g.buffers)
    emit_all call.wants finals
    mark_completed
    said ← lift (messages_in (messages_of payload))
    commit_stream state m said provider
    emit call.wants done

  -- The `try` of the generator.
  unfoldable pub generate_events :
      Option Conversation → Masking → Prepared pf fl → Exec Generator (Unit {0})
  unfolding forward end_stream
  generate_events state m p = do
    argument ← lift (
        argument_of self.upstream self.provider_name self.adapters pf.unicode self.codec self.detect
          p.checked)
    open_stream argument
    forward m.session (call.stream argument).events
    lift (end_of_events (call.stream argument).failure)
    end_stream state m p.payload

  -- Its `except`; what it yields names the type first.
  abbrev pub error_event : Text → Text → Json
  error_event message kind = Json.object (
      dict (
        (
          "error",
          Json.object (dict (("type", Json.string kind) ∷ ("message", Json.string message) ∷ [])),
        )
        ∷ []))

  unfoldable pub yield_error : Option (Text × Text) → Generator → Generator
  unfolding emit
  yield_error none g = g
  yield_error (some (message, kind)) g = (emit call.wants (event (error_event message kind)) g).1

  unfoldable pub rescue_stream : Result (Unit {0}) × Generator → Generator
  unfolding yield_error
  rescue_stream (ok _, g) = g
  rescue_stream (err e, g) = yield_error (upstream_failure e) g

  -- Its `finally`; the lock is released.
  abbrev pub touch_stream : Option Conversation → Bool → World → World
  touch_stream none completed w = w
  touch_stream (some state) completed w =
      if completed then w else record w { conversations = touch state o.closed w.conversations }

  unfoldable pub close_stream : Option Conversation → Generator → Stream
  close_stream state g = record {
    chat = on_world (λ w. touch_stream state g.completed (delete_items o w)) g.chat;
    held = false;
  }

  -- The generator from its first step on.
  unfoldable pub run_generator :
      Option Conversation → Masking → Prepared pf fl → Chat → StreamReply × Stream
  unfolding generate_events rescue_stream close_stream
  run_generator state m p c =
      let g = rescue_stream (
        generate_events state m p
          (record { chat = c; buffers = []; out = []; completed = false })) in
      (streamed g.out, close_stream state g)

  -- The response. A reader that takes nothing never starts the generator, and nothing of it runs.
  unfoldable pub serve_stream :
      Option Conversation → Masking → Prepared pf fl → Stream → StreamReply × Stream
  unfolding run_generator
  serve_stream state m p s =
      if call.wants == 0 then (streamed [], s) else run_generator state m p s.chat
