-- ===== src/Ocip/Envelope.antt =====
-- plugins/ocip-protocol/src/envelope/builder.ts: the envelope of an outgoing message.
use openclaw_enterprise.Common.{
  suc, ℤ, pos, String, List, [], ◌∷◌, Bool, true, false, Option, take, get_or,
}
use openclaw_enterprise.Shared.Types.{
  DataClassificationLevel, OcipMessageType, agent_generated, agent_assisted, human, ReplyPolicy,
  agent_ok, human_only, no_reply_needed, ExchangeType, information_query, commitment_request,
  meeting_scheduling, AgentIdentity,
}
use openclaw_enterprise.Shared.Levels.{classification_levels, classification_index, level_name}
use openclaw_enterprise.Shared.Json.{bool, num, str, arr, obj, Items, nil, cons, Fields, end, field}

pub record SourceAgent : Type 0 where
  pub instance_id : String
  pub user_id : String
  pub org_unit : String
  pub tenant_id : String

pub record Capabilities : Type 0 where
  pub can_commit : Bool
  pub can_share : List DataClassificationLevel

pub record OcipEnvelope : Type 0 where
  pub version : String
  pub message_type : OcipMessageType
  pub source_agent : SourceAgent
  pub classification : DataClassificationLevel
  pub conversation_id : String
  pub exchange_round : ℤ
  pub max_rounds : ℤ
  pub capabilities : Capabilities
  pub reply_policy : ReplyPolicy
  pub requires_commitment : Bool
  pub expires_at : String

pub record BuildEnvelopeParams : Type 0 where
  pub source_agent : AgentIdentity
  pub conversation_id : String
  pub exchange_type : ExchangeType
  pub exchange_round : ℤ
  pub classification : DataClassificationLevel
  pub max_rounds : Option ℤ
  pub expires_at : Option String

-- `OCIP_PROTOCOL_VERSION`.
abbrev pub ocip_protocol_version : String
ocip_protocol_version = "1.0"

-- `OCIP_DEFAULT_MAX_ROUNDS`.
abbrev pub ocip_default_max_rounds : ℤ
ocip_default_max_rounds = pos 3

-- `resolveExchangeSemantics`: the reply policy, and whether a commitment is required.
abbrev pub resolve_exchange_semantics : ExchangeType → ReplyPolicy × Bool
resolve_exchange_semantics information_query = (agent_ok, false)
resolve_exchange_semantics commitment_request = (agent_ok, true)
resolve_exchange_semantics meeting_scheduling = (human_only, true)

abbrev pub resolve_can_share_levels : DataClassificationLevel → List DataClassificationLevel
resolve_can_share_levels max_level =
    take (suc (classification_index max_level)) classification_levels

-- `tomorrow` is the text of the time 24 hours from now.
unfoldable pub build : String → BuildEnvelopeParams → OcipEnvelope
build tomorrow params =
    let (reply_policy, requires_commitment) = resolve_exchange_semantics params.exchange_type in
    record {
      version = ocip_protocol_version;
      message_type = agent_generated;
      source_agent = record {
        instance_id = params.source_agent.instance_id;
        user_id = params.source_agent.user_id;
        org_unit = params.source_agent.org_unit;
        tenant_id = params.source_agent.tenant_id;
      };
      classification = params.classification;
      conversation_id = params.conversation_id;
      exchange_round = params.exchange_round;
      max_rounds = get_or params.max_rounds ocip_default_max_rounds;
      capabilities = record {
        can_commit = false;
        can_share = resolve_can_share_levels params.source_agent.max_classification_shared;
      };
      reply_policy = reply_policy;
      requires_commitment = requires_commitment;
      expires_at = get_or params.expires_at tomorrow;
    }

-- The texts that stand for the members of the unions at run time.
abbrev pub message_type_name : OcipMessageType → String
message_type_name agent_generated = "agent-generated"
message_type_name agent_assisted = "agent-assisted"
message_type_name human = "human"

abbrev pub reply_policy_name : ReplyPolicy → String
reply_policy_name agent_ok = "agent-ok"
reply_policy_name human_only = "human-only"
reply_policy_name no_reply_needed = "no-reply-needed"

abbrev pub level_items : List DataClassificationLevel → Items
level_items [] = nil
level_items (l ∷ ls) = cons (str (level_name l)) (level_items ls)

-- An envelope as the untyped object that the receiver reads.
unfoldable pub envelope_fields : OcipEnvelope → Fields
envelope_fields e = field "version" (str e.version) (
    field "message_type" (str (message_type_name e.message_type)) (
      field "source_agent"
        (obj (
          field "instance_id" (str e.source_agent.instance_id) (
            field "user_id" (str e.source_agent.user_id) (
              field "org_unit" (str e.source_agent.org_unit)
                (field "tenant_id" (str e.source_agent.tenant_id) end)))))
        (field "classification" (str (level_name e.classification)) (
          field "conversation_id" (str e.conversation_id) (
            field "exchange_round" (num e.exchange_round) (
              field "max_rounds" (num e.max_rounds) (
                field "capabilities"
                  (obj (
                    field "can_commit" (bool e.capabilities.can_commit)
                      (field "can_share" (arr (level_items e.capabilities.can_share)) end)))
                  (field "reply_policy" (str (reply_policy_name e.reply_policy)) (
                    field "requires_commitment" (bool e.requires_commitment)
                      (field "expires_at" (str e.expires_at) end))))))))))
