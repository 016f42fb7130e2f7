-- ===== src/Chat/Types.antt =====
-- app/chat/orchestrator.py: what an execution works on and answers with, its error payloads, and the
-- dicts of its trace.
use maskgate.Base.{
  Bool, Error, List, Option, Result, Text, [], codes, if◌then◌else◌, invalid_output, list_eq, map,
  nat_eq, none, option_eq, pair_eq, policy_blocked, reserved_token, some, true, unsafe_protocol,
  upstream_error, vault_capacity, vault_collision, wire_violation, ℕ, ◌==◌, ◌∷◌,
}
use Prim.Native.String.{String}
use maskgate.Json.{Json, pos, Items, Fields, from_list}
use maskgate.Vault.{VaultBudget}
use maskgate.Policies.{PolicyEngine}
use maskgate.Session.{Mode}
use maskgate.Conversations.{Store, Conversation}
use maskgate.Mappings.{MappingStore}
use maskgate.Pipeline.{Argument, Reply}

-- `ChatExecution`
pub record ChatExecution : Type 0 where
  pub status_code : ℕ
  pub payload : Json
  pub trace : Fields

-- The stores that requests share, and what has been sent to the provider in this one.
pub record World : Type 0 where
  pub conversations : Store
  pub mappings : MappingStore

pub record Chat : Type 0 where
  pub world : World
  pub sent : List Argument

-- The settings that an execution reads. `preview_policy` is the policy that is built for a preview.
pub record ChatSettings : Type 0 where
  pub masking_mode : Text
  pub jurisdiction : Text
  pub default_purpose : Text
  pub budget : VaultBudget
  pub policy : PolicyEngine
  pub preview_policy : PolicyEngine

-- What one request meets with: its id, the instants at which it opens a conversation, puts its
-- mapping and commits, the time that it took, random draws, the provider's answer, and what other
-- requests do while it waits for the conversation's lock and for the provider. Other turns of the
-- conversation may have changed its object before the lock is had; after that none does.
pub record Occasion : Type 0 where
  pub request_id : Text
  pub opened : ℕ
  pub mapped : ℕ
  pub closed : ℕ
  pub latency : ℕ
  pub created : ℕ
  pub preview_id : Text
  pub namespace : Text
  pub draws : List ℕ
  pub preview_draws : List ℕ
  pub reply : Argument → Result Reply
  pub before_lock : World → World
  pub at_lock : Conversation → Conversation
  pub during_call : World → World

abbrev pub text : String → Json
text s = Json.string (codes s)

abbrev pub number : ℕ → Json
number n = Json.integer (pos n)

abbrev pub texts : List Text → Json
texts ts = Json.array (from_list (map Json.string ts))

-- A dict literal.
abbrev pub dict : List (String × Json) → Fields
dict [] = Fields.end
dict ((k, v) ∷ rest) = Fields.field (codes k) v (dict rest)

-- `error_payload`
unfoldable pub error_payload : Json → Json → Fields → Json
error_payload message kind extra = Json.object (
    dict (
      (
        "error",
        Json.object
            (Fields.field (codes "message") message (Fields.field (codes "type") kind extra)),
      )
      ∷ []))

abbrev pub failure : ℕ → String → String → Fields → ChatExecution
failure status message kind trace = record {
  status_code = status;
  payload = error_payload (text message) (text kind) Fields.end;
  trace = trace;
}

-- `requested_mode not in {…}`
unfoldable pub parse_mode : Text → Option Mode
parse_mode name =
    if name == codes "placeholder"
    then some Mode.placeholder
    else if name == codes "semantic_placeholder"
    then some Mode.semantic_placeholder
    else if name == codes "surrogate"
    then some Mode.surrogate
    else if name == codes "redact"
    then some Mode.redact_mode
    else none

abbrev pub mode_code : Mode → ℕ
mode_code Mode.placeholder = 0
mode_code Mode.semantic_placeholder = 1
mode_code Mode.surrogate = 2
mode_code Mode.redact_mode = 3

abbrev pub mode_beq : Mode → Mode → Bool
mode_beq a b = mode_code a == mode_code b

-- `entity_types` of a `PolicyBlocked`; `none` is an exception of another class.
unfoldable pub blocked_types : Error → Option (List Text)
blocked_types (policy_blocked types) = some types
blocked_types vault_capacity = some (codes "VAULT_CAPACITY" ∷ [])
blocked_types vault_collision = some (codes "VAULT_COLLISION" ∷ [])
blocked_types reserved_token = some (codes "RESERVED_TOKEN" ∷ [])
blocked_types unsafe_protocol = some (codes "PROTOCOL_FIELD" ∷ [])
blocked_types wire_violation = some (codes "WIRE_GUARD" ∷ [])
blocked_types _ = none

-- `message` and `error_type` of the two exceptions that become a 502.
unfoldable pub upstream_failure : Error → Option (Text × Text)
upstream_failure (upstream_error kind message) = some (message, kind)
upstream_failure (invalid_output kind) = some (
  if kind == codes "upstream_invalid_stream"
      then codes "The upstream LLM returned an invalid stream structure"
      else codes "The upstream LLM returned an invalid response structure",
  kind,
)
upstream_failure _ = none

-- `_preview_response`
unfoldable pub preview_response : Occasion → Text → Json
preview_response o model = Json.object (
    dict (
      ("id", Json.string o.preview_id)
      ∷ ("object", text "chat.completion")
      ∷ ("created", number o.created)
      ∷ ("model", Json.string model)
      ∷ ("choices", Json.array Items.nil)
      ∷ ("preview_only", Json.boolean true)
      ∷ []))
