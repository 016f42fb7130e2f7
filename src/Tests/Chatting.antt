-- ===== src/Tests/Chatting.antt =====
-- A chat request from its masking to the answer.
use maskgate.Base.{
  List, Option, Result, Text, [], codes, err, false, get, if◌then◌else◌, json_decode_error, list_eq,
  nat_eq, none, ok, option_eq, pair_eq, refl, some, starts_with, true, ℕ, ◌==◌, ◌∷◌,
}
use Prim.Native.String.{String}
use maskgate.Json.{Json, Items, Fields}
use maskgate.Privacy.{PrivacyAction, DataClass, ValidationState, DetectorProfile}
use maskgate.Detection.{Recognizer, Found}
use maskgate.PolicyV2.{PolicyDocument}
use maskgate.Principal.{PrincipalContext}
use maskgate.Session.{Session, Mode, Entity}
use maskgate.Conversations.{Conversation}
use maskgate.Runtime.{PrivacyRuntime}
use maskgate.Wire.{Codec}
use maskgate.Chat.{execute_chat}
use maskgate.Chat.Payload.{ChatRequest}
use maskgate.Chat.Types.{Chat, Occasion, dict, text}
use maskgate.Chat.Answer.{Orchestrator}
use maskgate.Chat.Generator.{StreamCall, StreamReply, Stream}
use maskgate.Chat.Streams.{stream_chat}
use maskgate.Chat.Streams.Locks.{LockEffect, stream_chat-LockEffect}
use maskgate.Chat.Streams.Sends.{StreamSends, stream_chat-Sends}
use maskgate.Chat.Cleared.{IsClear}
use maskgate.Chat.{or_text}
use maskgate.Conversations.{validate_conversation_id}
use maskgate.Chat.Executions.{conversation_id, Sends, execute_chat-Sends, execute_chat-IsClear}
use maskgate.Tests.Samples.{hundredths, platform, fresh_vault, plain_policy, budget}

-- A recognizer of one name at the start of a text.
abbrev ann_found : Found hundredths
ann_found = record {
  entity_type = codes "PERSON";
  data_class = DataClass.direct_pii;
  start = 0;
  stop = 3;
  confidence = 90;
  recognizer = codes "names";
  validation_state = ValidationState.unvalidated;
  evidence = [];
}

abbrev names : Recognizer hundredths
names = record {
  serves = λ p. true;
  recognize = λ c. if starts_with (codes "Ann") c.text then ann_found ∷ [] else [];
}

abbrev tokenize_all : PolicyDocument ℕ
tokenize_all = record {
  version = codes "2";
  default_action = PrivacyAction.tokenize;
  default_reason = codes "default";
  default_obligations = [];
  rules = [];
  public_data_assertions = [];
}

abbrev runtime : PrivacyRuntime platform hundredths
runtime = record {
  least = λ p. 65;
  profile = DetectorProfile.balanced;
  recognizers = names ∷ [];
  policy = tokenize_all;
  now = λ n. some 3;
}

abbrev message : String → String → Json
message role content = Json.object (dict (("role", text role) ∷ ("content", text content) ∷ []))

abbrev sent_payload : Json
sent_payload = Json.object (
    dict (
      ("model", text "m")
      ∷ (
        "messages",
        Json.array (
            Items.cons
              (message "system"
                "MaskGate privacy instruction: the following tokens represent masked values from the user's request: <MG_abcd_PERSON_1>. Preserve these tokens exactly when referring to the same values. Do not decode, reconstruct, or invent the original values, and do not change token spelling, case, digits, or punctuation.")
              (Items.cons (message "user" "<MG_abcd_PERSON_1> met Bob") Items.nil)),
      )
      ∷ ("stream", Json.boolean false)
      ∷ []))

-- A codec that knows one value.
abbrev one_payload : Codec
one_payload = record {
  dumps = λ v. ok (codes "body");
  loads = λ t. if t == codes "body" then ok sent_payload else err json_decode_error;
  unquote = λ t. t;
  detector_error = λ t. none;
}

abbrev nobody : Text → List Entity
nobody t = []

abbrev orchestrator : Orchestrator platform hundredths ℕ
orchestrator = record {
  settings = record {
    masking_mode = codes "semantic_placeholder";
    jurisdiction = codes "eu";
    default_purpose = codes "chat";
    budget = budget;
    policy = plain_policy;
    preview_policy = plain_policy;
  };
  runtime = runtime;
  detect = nobody;
  codec = one_payload;
  upstream = record { prepare_request = none; accepts_checked_payload = true };
  provider_name = codes "mock";
  provider_ready = true;
  adapters = none;
  str = λ v. [];
}

abbrev caller : PrincipalContext
caller = record {
  tenant_id = codes "local";
  application_id = codes "maskgate";
  subject_id = codes "client:1";
  authentication_method = codes "local";
}

abbrev answer : Json
answer = Json.object (
    dict (
      (
        "choices",
        Json.array (
            Items.cons
              (Json.object (dict (("message", message "assistant" "Hi <MG_abcd_PERSON_1>") ∷ [])))
              Items.nil),
      )
      ∷ []))

abbrev occasion : Occasion
occasion = record {
  request_id = codes "req_1";
  opened = 5;
  mapped = 5;
  closed = 7;
  latency = 2;
  created = 0;
  preview_id = codes "chatcmpl-preview-0";
  namespace = codes "abcd";
  draws = [];
  preview_draws = [];
  reply = λ a. ok (record { status_code = 200; payload = answer });
  before_lock = λ w. w;
  at_lock = λ c. c;
  during_call = λ w. w;
}

abbrev request : ChatRequest
request = record {
  model = codes "m";
  messages = record { role = codes "user"; content = text "Ann met Bob"; extra = Fields.end } ∷ [];
  stream = false;
  masking_mode = none;
  conversation_id = none;
  extra = Fields.end;
}

abbrev start : Chat
start = record {
  world = record {
    conversations = record {
      ttl = 100;
      max_messages = 10;
      max_chars = 1000;
      max_conversations = 2;
      conversations = [];
      next_handle = 0;
    };
    mappings = record { ttl = 10; mappings = [] };
  };
  sent = [];
}

abbrev talk_id : Option Text
talk_id = some (codes "talk_number_1")

execute_chat-Sends_example :
    Sends platform hundredths orchestrator caller occasion request
      (conversation_id platform hundredths orchestrator caller occasion request none)
      start
      (execute_chat platform hundredths orchestrator caller occasion request none false start).1
execute_chat-Sends_example =
    execute_chat-Sends platform hundredths orchestrator caller occasion request none false start

execute_chat-IsClear_example :
    IsClear occasion
      (execute_chat platform hundredths orchestrator caller occasion request talk_id false
        start).1.world
execute_chat-IsClear_example =
    execute_chat-IsClear platform hundredths orchestrator caller occasion request (λ w h. h) talk_id
      false start (unfold get in refl)

abbrev session : Session
session = record {
  mode = Mode.semantic_placeholder;
  policy = plain_policy;
  token_namespace = codes "abcd";
  surrogates = [];
  vault = fresh_vault;
  placeholder_counters = [];
  draws = [];
}

abbrev talk : Conversation
talk = record {
  handle = 0;
  conversation_id = codes "talk_number_1";
  owner_id = codes "local:maskgate:client:1";
  session = session;
  messages = [];
  created_at = 5;
  last_access_at = 5;
}

-- A provider that streams one delta, to a reader who stays.
abbrev call : StreamCall
call = record {
  supported = true;
  stream = λ a. record {
    events =
        dict (
          (
            "choices",
            Json.array (
                Items.cons
                  (Json.object
                    (dict (("delta", Json.object (dict (("content", text "Hi") ∷ []))) ∷ [])))
                  Items.nil),
          )
          ∷ [])
        ∷ [];
    failure = none;
  };
  parse_event = none;
  wants = 9;
}

abbrev stream_from : Chat → Result StreamReply × Stream
unfolding stream_chat
stream_from c =
    stream_chat platform hundredths orchestrator caller occasion call request talk_id false c

stream_chat-LockEffect_example :
    LockEffect occasion call (stream_from start).0 (stream_from start).1
unfolding stream_from stream_chat
stream_chat-LockEffect_example =
    stream_chat-LockEffect platform hundredths orchestrator caller occasion call request talk_id
      false start

stream_chat-Sends_example :
    StreamSends platform hundredths orchestrator caller occasion call request
      (validate_conversation_id (or_text talk_id request.conversation_id))
      start
      (stream_from start).1.chat
unfolding stream_from stream_chat
stream_chat-Sends_example =
    stream_chat-Sends platform hundredths orchestrator caller occasion call request talk_id false
      start
