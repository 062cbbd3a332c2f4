-- ===== src/AutoResponse/Message.antt =====
-- plugins/auto-response/src/hooks.ts: an incoming message, from its classification to what is done
-- with the answer. A dictionary of overrides holds the keys that were written to it.
pub mod Sent
use openclaw_enterprise.Common.{
  String, List, [], ◌∷◌, Option, some, none, lookup, includes, if◌then◌else◌,
}
use openclaw_enterprise.Shared.Types.{
  MessageClassification, critical, noise, informational, ActionAutonomyLevel, autonomous, notify,
  approve, block,
}
use openclaw_enterprise.Shared.Errors.{Result, ok}
use openclaw_enterprise.AutoResponse.Queue.{QueueState, NewResponse, enqueue}
use openclaw_enterprise.AutoResponse.Responder.{
  IncomingMessageContext, Services, ClassificationResult, GenerateResponseResult, andthen, classify,
  generate,
}

pub record AutoResponseScopeConfig : Type 0 where
  pub channel_overrides : List (String × ActionAutonomyLevel)
  pub contact_overrides : List (String × ActionAutonomyLevel)
  pub classification_overrides : MessageClassification → Option ActionAutonomyLevel
  pub default_autonomy : ActionAutonomyLevel
  pub disabled_channels : List String
  pub disabled_contacts : List String

abbrev default_overrides : MessageClassification → Option ActionAutonomyLevel
default_overrides critical = some notify
default_overrides noise = some autonomous
default_overrides _ = none

-- `DEFAULT_SCOPE_CONFIG`.
abbrev pub default_scope_config : AutoResponseScopeConfig
default_scope_config = record {
  channel_overrides = [];
  contact_overrides = [];
  classification_overrides = default_overrides;
  default_autonomy = approve;
  disabled_channels = [];
  disabled_contacts = [];
}

pub data Action : Type 0 where
  sent queued notified blocked skipped : Action

pub record AutoResponseResult : Type 0 where
  pub message_id : String
  pub classification : MessageClassification
  pub autonomy_level : ActionAutonomyLevel
  pub action : Action
  pub response_body : Option String
  pub queue_entry_id : Option String

abbrev pub first_of : Option ActionAutonomyLevel → ActionAutonomyLevel → ActionAutonomyLevel
first_of none level = level
first_of (some override) level = override

-- The policy's level, or the default where the policy leaves the message to the agent.
abbrev pub fall_back : ActionAutonomyLevel → ActionAutonomyLevel → ActionAutonomyLevel
fall_back autonomous default_autonomy = default_autonomy
fall_back policy_autonomy default_autonomy = policy_autonomy

unfoldable pub resolve_autonomy_level :
    AutoResponseScopeConfig
    → String
    → String
    → MessageClassification
    → ActionAutonomyLevel
    → ActionAutonomyLevel
resolve_autonomy_level config channel sender classification policy_autonomy =
    first_of (lookup sender config.contact_overrides) (
      first_of (lookup channel config.channel_overrides) (
        first_of (config.classification_overrides classification)
          (fall_back policy_autonomy config.default_autonomy)))

abbrev skip : IncomingMessageContext → MessageClassification → AutoResponseResult
skip c classification = record {
  message_id = c.message_id;
  classification = classification;
  autonomy_level = block;
  action = skipped;
  response_body = none;
  queue_entry_id = none;
}

abbrev done :
    IncomingMessageContext
    → MessageClassification
    → ActionAutonomyLevel
    → Action
    → Option String
    → Option String
    → AutoResponseResult
done c classification level action body entry = record {
  message_id = c.message_id;
  classification = classification;
  autonomy_level = level;
  action = action;
  response_body = body;
  queue_entry_id = entry;
}

abbrev to_queue :
    IncomingMessageContext → MessageClassification → GenerateResponseResult → NewResponse
to_queue c classification g = record {
  message_id = c.message_id;
  channel = c.channel;
  sender = c.sender;
  subject = c.subject;
  original_body = c.body;
  response_body = g.response_body;
  classification = classification;
  policy_applied = g.policy_applied;
  tenant_id = c.tenant_id;
  user_id = c.user_id;
}

-- The switch on the effective level.
dispatch :
    Services
    → String
    → IncomingMessageContext
    → MessageClassification
    → GenerateResponseResult
    → ActionAutonomyLevel
    → QueueState
    → Result AutoResponseResult × QueueState
dispatch services now c k g autonomous s =
    (ok (done c k autonomous sent (some g.response_body) none), s)
dispatch services now c k g notify s =
    (ok (done c k notify notified (some g.response_body) none), s)
dispatch services now c k g approve s =
    andthen (enqueue services.audit_log now (to_queue c k g) s)
      (λ id t. (ok (done c k approve queued (some g.response_body) (some id)), t))
dispatch services now c k g block s = (ok (done c k block blocked none none), s)

-- Behind the draft of the answer.
abbrev resolved :
    Services
    → AutoResponseScopeConfig
    → String
    → IncomingMessageContext
    → MessageClassification
    → GenerateResponseResult
    → QueueState
    → Result AutoResponseResult × QueueState
resolved services config now c k g =
    dispatch services now c k g
      (resolve_autonomy_level config c.channel c.sender k g.autonomy_level)

-- Behind the classification.
abbrev drafted :
    Services
    → AutoResponseScopeConfig
    → String
    → IncomingMessageContext
    → ClassificationResult
    → QueueState
    → Result AutoResponseResult × QueueState
drafted services config now c r s =
    andthen (generate services c r.classification s)
      (resolved services config now c r.classification)

-- A message of a channel and a sender that are not disabled.
answer :
    Services
    → AutoResponseScopeConfig
    → String
    → IncomingMessageContext
    → QueueState
    → Result AutoResponseResult × QueueState
unfolding dispatch
answer services config now c s = andthen (classify services c s) (drafted services config now c)

-- `AutoResponseHook.processMessage`; `now` is the text of the current time.
unfoldable pub process_message :
    Services
    → AutoResponseScopeConfig
    → String
    → IncomingMessageContext
    → QueueState
    → Result AutoResponseResult × QueueState
unfolding answer
process_message services config now c s =
    if includes config.disabled_channels c.channel
    then (ok (skip c informational), s)
    else if includes config.disabled_contacts c.sender
    then (ok (skip c noise), s)
    else answer services config now c s
