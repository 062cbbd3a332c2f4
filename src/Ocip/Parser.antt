-- ===== src/Ocip/Parser.antt =====
-- plugins/ocip-protocol/src/envelope/parser.ts: the envelope of an incoming message.
pub mod RoundTrip
use openclaw_enterprise.Common.{
  ℤ, String, List, [], ◌∷◌, Bool, true, false, Option, some, none, if◌then◌else◌, str_eq,
}
use openclaw_enterprise.Common.Text.{template, is_empty}
use openclaw_enterprise.Shared.Types.{
  DataClassificationLevel, OcipMessageType, agent_generated, agent_assisted, human, ReplyPolicy,
  agent_ok, human_only, no_reply_needed,
}
use openclaw_enterprise.Shared.Levels.{classification_levels, level_of}
use openclaw_enterprise.Shared.Json.{Json, null, bool, num, str, arr, obj, Fields, items, get_field}
use openclaw_enterprise.Shared.Errors.{EnterpriseError, plain, Result, ok, throw, ◌>>=◌}
use openclaw_enterprise.Ocip.Envelope.{
  SourceAgent, Capabilities, OcipEnvelope, message_type_name, reply_policy_name,
}

pub record ParseResult : Type 0 where
  pub is_ocip : Bool
  pub envelope : Option OcipEnvelope
  pub parse_error : Option String

abbrev missing {ℓ} : {A : Type ℓ} → String → Result A
missing key = throw (plain (template ("Missing or invalid field: " ∷ key ∷ [])))

abbrev as_string : String → Option Json → Result String
as_string key (some (str s)) = if is_empty s then missing key else ok s
as_string key _ = missing key

unfoldable pub require_string : Fields → String → Result String
require_string fields key = as_string key (get_field key fields)

abbrev as_number : String → Option Json → Result ℤ
as_number key (some (num n)) = ok n
as_number key _ = missing key

unfoldable pub require_number : Fields → String → Result ℤ
require_number fields key = as_number key (get_field key fields)

-- An object that is neither null nor an array.
abbrev as_object : String → Option Json → Result Fields
as_object key (some (obj fields)) = ok fields
as_object key _ = throw (plain (template ("Missing or invalid " ∷ key ∷ [])))

unfoldable pub require_object : Fields → String → Result Fields
require_object fields key = as_object key (get_field key fields)

-- `typeof value === 'boolean' ? value : false`.
abbrev pub as_flag : Option Json → Bool
as_flag (some (bool b)) = b
as_flag _ = false

-- `VALID_MESSAGE_TYPES.includes(s)`, with the member that the text then is.
abbrev message_type_of : String → List OcipMessageType → Option OcipMessageType
message_type_of s [] = none
message_type_of s (t ∷ ts) = if str_eq s (message_type_name t) then some t else message_type_of s ts

abbrev reply_policy_of : String → List ReplyPolicy → Option ReplyPolicy
reply_policy_of s [] = none
reply_policy_of s (t ∷ ts) = if str_eq s (reply_policy_name t) then some t else reply_policy_of s ts

abbrev valid_message_types : List OcipMessageType
valid_message_types = agent_generated ∷ agent_assisted ∷ human ∷ []

abbrev valid_reply_policies : List ReplyPolicy
valid_reply_policies = agent_ok ∷ human_only ∷ no_reply_needed ∷ []

abbrev known {ℓ} : {A : Type ℓ} → String → String → Option A → Result A
known what s none = throw (plain (template ("Invalid " ∷ what ∷ ": " ∷ s ∷ [])))
known what s (some a) = ok a

abbrev level_in : Json → Option DataClassificationLevel
level_in (str s) = level_of s classification_levels
level_in _ = none

-- The members of an untyped array that are levels.
unfoldable pub levels_in : List Json → List DataClassificationLevel
levels_in [] = []
levels_in (v ∷ vs) = elim (level_in v) [ none ↦ levels_in vs | some l ↦ l ∷ levels_in vs ]

abbrev pub as_levels : Option Json → List DataClassificationLevel
as_levels (some (arr vs)) = levels_in (items vs)
as_levels _ = []

parse_source_agent : Fields → Result SourceAgent
unfolding require_string
parse_source_agent agent = do
  instance_id ← require_string agent "instance_id"
  user_id ← require_string agent "user_id"
  org_unit ← require_string agent "org_unit"
  tenant_id ← require_string agent "tenant_id"
  ok (record {
    instance_id = instance_id;
    user_id = user_id;
    org_unit = org_unit;
    tenant_id = tenant_id;
  })

parse_capabilities : Fields → Capabilities
unfolding levels_in
parse_capabilities caps = record {
  can_commit = as_flag (get_field "can_commit" caps);
  can_share = as_levels (get_field "can_share" caps);
}

extract_envelope : Fields → Result OcipEnvelope
unfolding require_string require_number require_object parse_source_agent parse_capabilities
extract_envelope raw = do
  version ← require_string raw "version"
  type_text ← require_string raw "message_type"
  message_type ← known "message_type" type_text (message_type_of type_text valid_message_types)
  agent ← require_object raw "source_agent"
  source_agent ← parse_source_agent agent
  level_text ← require_string raw "classification"
  classification ← known "classification" level_text (level_of level_text classification_levels)
  conversation_id ← require_string raw "conversation_id"
  exchange_round ← require_number raw "exchange_round"
  max_rounds ← require_number raw "max_rounds"
  caps ← require_object raw "capabilities"
  policy_text ← require_string raw "reply_policy"
  reply_policy ← known "reply_policy" policy_text (reply_policy_of policy_text valid_reply_policies)
  expires_at ← require_string raw "expires_at"
  ok (record {
    version = version;
    message_type = message_type;
    source_agent = source_agent;
    classification = classification;
    conversation_id = conversation_id;
    exchange_round = exchange_round;
    max_rounds = max_rounds;
    capabilities = parse_capabilities caps;
    reply_policy = reply_policy;
    requires_commitment = as_flag (get_field "requires_commitment" raw);
    expires_at = expires_at;
  })

abbrev message_of : EnterpriseError → String
message_of (plain message) = message
message_of _ = "Unknown parse error"

-- What `parse` returns for the result of the extraction.
abbrev parsed : Result OcipEnvelope → ParseResult
parsed (ok e) = record { is_ocip = true; envelope = some e; parse_error = none }
parsed (throw e) = record { is_ocip = false; envelope = none; parse_error = some (message_of e) }

parse_raw : Option Json → ParseResult
unfolding extract_envelope
parse_raw none = record { is_ocip = false; envelope = none; parse_error = none }
parse_raw (some null) = record { is_ocip = false; envelope = none; parse_error = none }
parse_raw (some (obj raw)) = parsed (extract_envelope raw)
parse_raw (some _) = record {
  is_ocip = false;
  envelope = none;
  parse_error = some "OCIP metadata is not a valid object";
}

unfoldable pub parse : Fields → ParseResult
unfolding parse_raw
parse message = parse_raw (get_field "ocip" message)
