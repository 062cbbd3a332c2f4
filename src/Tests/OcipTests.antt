-- ===== src/Tests/OcipTests.antt =====
-- The exchange protocol's theorems on small messages and exchanges.
use openclaw_enterprise.Common.{
  ◌+◌, ◌≤◌, ◌≡◌, refl, ap, arith, pos, ◌+ℤ◌, ◌≤ℤ◌, String, List, [], ◌∷◌, true, false, some, none,
  lookup, length, select,
}
use openclaw_enterprise.Common.Text.{has_part}
use openclaw_enterprise.Shared.Types.{
  AgentIdentity, public, internal, confidential, restricted, information_query, agent_generated,
  agent_ok, allow, DataClassificationLevel,
}
use openclaw_enterprise.Shared.Json.{Fields, end, set_field, obj}
use openclaw_enterprise.Shared.Errors.{exchange_round_limit, ok, throw}
use openclaw_enterprise.Ocip.Envelope.{OcipEnvelope, envelope_fields}
use openclaw_enterprise.Ocip.Parser.{parse}
use openclaw_enterprise.Ocip.Parser.RoundTrip.{IsComplete, parse-envelope_fields, parse-accepted}
use openclaw_enterprise.Ocip.Commitment.{detect_commitment_keywords, detect}
use openclaw_enterprise.Ocip.Counter.{
  ExchangeState, new_exchange, init_exchange, increment_round, get_state, next_round,
}
use openclaw_enterprise.Ocip.Counter.Laws.{increment_all, increment_round-limit}
use openclaw_enterprise.Ocip.Filter.{ClassifiableDataItem, filter}
use openclaw_enterprise.Ocip.Filter.Laws.{passes, filter_lem}
use openclaw_enterprise.Ocip.CrossOrg.{AgentOrgInfo, enforce}
use openclaw_enterprise.Ocip.Session.{
  GatewayMethods, Message, SessionsSendContext, OcipState, log_exchange,
}
use openclaw_enterprise.Ocip.Hooks.{handle_outgoing, count_outgoing}
use openclaw_enterprise.Ocip.Hooks.Receive.{handle_incoming, commitment_gate}
use openclaw_enterprise.Ocip.Hooks.Incoming.{handle_incoming-tracked}
use openclaw_enterprise.Ocip.Hooks.Admitted.{IsAdmitted, handle_incoming-IsAdmitted}
use openclaw_enterprise.Ocip.Hooks.Audited.{IsAudited, handle_incoming-IsAudited}
use openclaw_enterprise.Ocip.Hooks.Limit.{
  Event, outgoing, on_event, count_passed, count_passed-limit,
}

abbrev same : String → String
same s = s

abbrev agent : AgentIdentity
agent = record {
  instance_id = "a";
  user_id = "u";
  tenant_id = "t";
  org_unit = "sales";
  can_receive_queries = true;
  can_auto_respond = false;
  can_make_commitments = false;
  max_classification_shared = internal;
  supported_exchange_types = information_query ∷ [];
  max_rounds_accepted = pos 3;
}

abbrev gateway : GatewayMethods
gateway = record {
  policy_evaluate = λ request. ok (record {
    decision = allow;
    policy_applied = "p";
    reason = "r";
    constraints = record {
      max_classification = none;
      allowed_transitions = none;
      disclosure_required = none;
    };
  });
  audit_log = λ entry. ok "id";
}

abbrev envelope_from : String → OcipEnvelope
envelope_from tenant_id = record {
  version = "1.0";
  message_type = agent_generated;
  source_agent = record {
    instance_id = "b";
    user_id = "v";
    org_unit = "support";
    tenant_id = tenant_id;
  };
  classification = internal;
  conversation_id = "c";
  exchange_round = pos 1;
  max_rounds = pos 3;
  capabilities = record { can_commit = false; can_share = public ∷ internal ∷ [] };
  reply_policy = agent_ok;
  requires_commitment = false;
  expires_at = "2026-01-01";
}

abbrev complete : IsComplete (envelope_from "t")
complete = record {
  version = refl;
  instance_id = refl;
  user_id = refl;
  org_unit = refl;
  tenant_id = refl;
  conversation_id = refl;
  expires_at = refl;
}

abbrev fields_from : String → Fields
fields_from tenant_id = set_field "ocip" (obj (envelope_fields (envelope_from tenant_id))) end

parse-envelope_fields_example :
    parse (set_field "ocip" (obj (envelope_fields (envelope_from "t"))) end)
    ≡ record { is_ocip = true; envelope = some (envelope_from "t"); parse_error = none }
parse-envelope_fields_example = parse-envelope_fields (envelope_from "t") end complete

read_back : (parse (fields_from "t")).envelope ≡ some (envelope_from "t")
read_back = ap (λ r. r.envelope) (parse-envelope_fields (envelope_from "t") end complete)

parse-accepted_example :
    IsComplete (envelope_from "t")
    × (parse (set_field "ocip" (obj (envelope_fields (envelope_from "t"))) end)
        ≡ record { is_ocip = true; envelope = some (envelope_from "t"); parse_error = none })
parse-accepted_example = parse-accepted (fields_from "t") end (envelope_from "t") read_back

abbrev one_message : List (String × String)
one_message = ("a", "hi") ∷ []

increment_round-limit_example :
    ((length one_message + 1 ≤ 3)
      → (state : ExchangeState) × ((increment_round
            (increment_all (init_exchange [] "x" "c" (some (pos 3))) "x" one_message)
            "x"
            "b"
            "ho").0
          ≡ ok state)
        × (state.current_round ≡ pos (length one_message + 1)))
    × ((3 ≤ length one_message)
        → (increment_round
            (increment_all (init_exchange [] "x" "c" (some (pos 3))) "x" one_message)
            "x"
            "b"
            "ho").0
          ≡ throw (exchange_round_limit "x" (pos 3)))
increment_round-limit_example = increment_round-limit [] "x" "c" "b" "ho" one_message 3

abbrev item_of : DataClassificationLevel → ClassifiableDataItem
item_of level = record {
  source = "crm";
  fields = "name" ∷ [];
  classification = level;
  description = "d";
}

abbrev two_items : List ClassifiableDataItem
two_items = item_of internal ∷ item_of restricted ∷ []

filter_lem_example :
    ((filter two_items (public ∷ internal ∷ []) confidential).allowed
      ≡ select (passes (public ∷ internal ∷ []) confidential) two_items)
    × (length (filter two_items (public ∷ internal ∷ []) confidential).withheld
          + length (filter two_items (public ∷ internal ∷ []) confidential).allowed
        ≡ length two_items)
filter_lem_example = filter_lem two_items (public ∷ internal ∷ []) confidential

abbrev sales : AgentOrgInfo
sales = record { tenant_id = "t"; org_unit = "sales" }

abbrev support : AgentOrgInfo
support = record { tenant_id = "t"; org_unit = "support" }

abbrev message_of : Fields → Message
message_of fields = record {
  fields = fields;
  exchange_type = none;
  exchange_id = none;
  classification = none;
  max_rounds = none;
  content = some "hello";
  target_agent_id = none;
  target_user_id = none;
  receiver_can_share = none;
  ocip_escalation = none;
  filtered_data = none;
}

abbrev context_of : Fields → SessionsSendContext
context_of fields = record {
  message = message_of fields;
  ocip = none;
  session_id = "c";
  tenant_id = "t";
  user_id = "u";
  data_items = none;
}

abbrev state_of : Fields → OcipState
state_of fields = record {
  exchanges = ("c", new_exchange "c" "c" (some (pos 1))) ∷ [];
  log = [];
  context = context_of fields;
}

abbrev admitted : OcipState
admitted = (handle_incoming gateway agent same (state_of (fields_from "t"))).1

handle_incoming-IsAdmitted_example :
    IsAdmitted gateway agent same (state_of (fields_from "t")) (envelope_from "t")
unfolding handle_incoming parse envelope_fields enforce commitment_gate detect
    detect_commitment_keywords has_part log_exchange
handle_incoming-IsAdmitted_example =
    handle_incoming-IsAdmitted gateway agent same (state_of (fields_from "t")) admitted
      (envelope_from "t") refl refl refl

handle_incoming-IsAudited_example :
    IsAudited gateway agent same
      (state_of (fields_from "t"))
      (envelope_from "t")
      (handle_incoming gateway agent same (state_of (fields_from "t")))
unfolding parse envelope_fields
handle_incoming-IsAudited_example =
    handle_incoming-IsAudited gateway agent same (state_of (fields_from "t")) (envelope_from "t")
      refl

handle_incoming-tracked_example :
    lookup "c" (handle_incoming gateway agent same (state_of (fields_from "t"))).1.exchanges
    ≡ some (new_exchange "c" "c" (some (pos 1)))
unfolding lookup
handle_incoming-tracked_example =
    handle_incoming-tracked gateway agent same (state_of (fields_from "t")) "c"
      (new_exchange "c" "c" (some (pos 1))) refl

abbrev two_events : List Event
two_events = outgoing (context_of end) ∷ outgoing (context_of end) ∷ []

count_passed-limit_example :
    (new_exchange "c" "c" (some (pos 1))).current_round
      +ℤ pos (count_passed gateway agent same "tomorrow" "c" (state_of end) two_events)
    ≤ℤ (new_exchange "c" "c" (some (pos 1))).max_rounds
unfolding lookup count_passed on_event handle_outgoing count_outgoing increment_round get_state
    next_round ◌+ℤ◌ filter log_exchange
count_passed-limit_example =
    count_passed-limit gateway agent same "tomorrow" "c" two_events (state_of end)
      (new_exchange "c" "c" (some (pos 1))) refl (omega arith)
