-- ===== src/Lib.antt =====
-- MaskGate: a privacy proxy that finds sensitive parts of a text, decides by policy what happens to
-- each, replaces them by reversible placeholders and keeps what is needed to restore them.
--
-- The parts and the files that model them:
--   Vault              app/privacy/vault.py: `InMemoryVault`, a bounded and bijective map between
--                      originals and replacements
--   Session            app/masking/anonymizer.py: `MaskingSession`, which owns a vault, the counters of
--                      its placeholders and a source of random bytes
--   Surrogates         app/masking/surrogate_generator.py
--   Policies           app/policies/policy_engine.py: actions by entity type, with public allowlists
--   PolicyV2           app/privacy/policy/models.py and engine.py: contextual rules and assertions, with
--                      the glob patterns of fnmatch
--   PolicyLoader       app/privacy/policy/loader.py: a policy file's tests, and its document
--   LegacyPolicy       app/privacy/policy/legacy.py: the first kind of policy as the second
--   Privacy            app/privacy/models.py: the vocabulary of detection, risk and policy
--   Risk               app/privacy/risk/engine.py: the score of a text's detections
--   Detection          app/privacy/detection/ensemble.py: merging of candidates, overlaps
--   Canonical          app/privacy/detection/canonical.py: canonical text with provenance
--   Validators         app/privacy/detection/validators.py: check digits
--   Conversations      app/storage/conversation_store.py: one session for each conversation
--   Mappings           app/storage/mapping_store.py: the mappings of single requests
--   Principal          app/identity/principal.py: the pseudonymous identity of a caller
--   Runtime            app/privacy/runtime.py: one text from detection to its masked form
--   Rehydrate          app/masking/rehydrator.py, and the StreamingRehydrator of app/proxy/streaming.py
--   Streaming          app/proxy/streaming.py: `BufferedStreamingOutputGuard`
--   OutputGuard        app/privacy/output_guard.py: inspection of what a provider returns
--   Limits             app/security.py: authentication, rate limit, body limit
--   Outbound           app/proxy/outbound_sanitizer.py: the masking of every text of a payload
--   Wire               app/privacy/wire.py: the last check of the body that is sent
--   Pipeline           app/privacy/pipeline.py: preparation and completion of a provider request, and
--                      the shape of a response in app/providers/openai_chat.py
--   Chat               app/chat/orchestrator.py: `execute_chat` and `clear_conversation`; its Payload has
--                      app/schemas.py, app/proxy/openai_compatible.py and app/masking/media_guard.py,
--                      its Stateless and Turns the two ways of an execution, its Streams `stream_chat`,
--                      whose `event_generator` is Generator
-- Json, Unicode and Pattern stand for what Python brings: parsed JSON, the Unicode tables and regular
-- expressions. Base holds the shared helpers: equality, dicts in insertion order, texts, sorting,
-- results, and methods that may raise. Tests runs the code on concrete inputs.
--
-- Runtime puts the parts together. A request's text is made canonical (Canonical), recognizers
-- propose detections that Detection merges, Risk scores them, PolicyV2 decides on each, and a
-- session (Session, with its Vault) replaces them in the text. OutputGuard and Rehydrate turn an
-- answer back. Conversations keeps the session between turns and prunes its vault to what the
-- history still mentions; Limits stands in front of all. Chat holds these together for one
-- request: Outbound runs through the payload with Runtime as its masking function, Pipeline
-- hands the result to Wire, and only what Wire has checked is sent. An execution works on the
-- stores of conversations and mappings and on the list of what it has sent; what other requests
-- do while it waits is a function of the stores that the occasion brings. A stream's reader
-- takes some number of chunks and goes: after the first step the generator ends there by an
-- exception, and before it the generator is never started.
--
-- Conventions. A method that changes an object and may raise is a function from the state to a
-- result and the state (`Exec`); what it wrote before raising stays written. A lock that a
-- method holds makes the method one step. A text is a list of code points; lone surrogates come
-- up only in what JSON inside a text spells. Instants are numbers of ticks of a clock. Floats
-- are an interface with the order of Python's floats other than NaN. Random bytes are a list of
-- draws that a session consumes; `no_entropy` is what a call gets for which the list is too
-- short, and no program error.
--
-- Bounds. `shrink` runs on the number of messages, of which each turn removes one. `decimal`
-- runs on the number itself plus one, of which each turn removes a digit. A glob is matched on
-- the length of the pattern plus one. Texts that spell JSON are looked into as deep as the body
-- has characters, and every such text is longer than the texts in its value. A free key is
-- looked for once more than the dict has keys. Repetition in a regular expression runs on the
-- length of the text behind it, since the modelled patterns repeat only what consumes a
-- character.
--
-- Not modelled: recognizers and their regular expressions, which are arguments of `detect` and
-- of the guards; what a detector raises, except in the wire guard, whose detector comes with the
-- exception that it raises for each text; Python's limit of nested calls in the inspection of a
-- body; YAML and its constructors, whose value PolicyLoader takes; SHA-256, of which the engine
-- only compares results; the text of JSON, whose two functions are an argument, with the
-- exceptions they raise; provider adapters and transports, which the pipeline takes as
-- arguments; the logging and the response headers of the chat orchestrator, the HTTP routes,
-- media and documents.
--
pub mod Base
pub mod Json
pub mod Vault
pub mod Wire
pub mod Streaming
pub mod Chat
pub mod Pipeline
pub mod Outbound
pub mod Unicode
pub mod Pattern
pub mod Policies
pub mod Surrogates
pub mod Privacy
pub mod Session
pub mod PolicyV2
pub mod PolicyLoader
pub mod Risk
pub mod Detection
pub mod Conversations
pub mod Mappings
pub mod Limits
pub mod Validators
pub mod Canonical
pub mod Principal
pub mod Runtime
pub mod Rehydrate
pub mod OutputGuard
pub mod LegacyPolicy
pub mod Tests
