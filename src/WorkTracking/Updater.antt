-- ===== src/WorkTracking/Updater.antt =====
-- plugins/work-tracking/src/updater/updater.ts: what a merged pull request does to its tickets. The
-- operations of Jira and the policy are parameters; the calls of Jira are recorded in order.
pub mod Permitted
use openclaw_enterprise.Common.{
  ℕ, String, List, [], ◌∷◌, ◌++◌, Bool, true, false, Option, none, some, get_or, includes,
  if◌then◌else◌,
}
use openclaw_enterprise.Common.Text.{template, decimal, join}
use openclaw_enterprise.Shared.Types.{PolicyResult, internal}
use openclaw_enterprise.Shared.Errors.{Result, ok, throw}
use openclaw_enterprise.Shared.Json.{str}
use openclaw_enterprise.Shared.Policy.{PolicyEvaluateRequest, PolicyEvaluateResponse}
use openclaw_enterprise.Connector.{ConnectorWriteResult}

pub record PrMergeDetails : Type 0 where
  pub pr_number : ℕ
  pub pr_title : String
  pub pr_url : String
  pub author : String
  pub repository : String
  pub base_branch : String
  pub head_branch : String
  pub merged_at : String

pub record Transition : Type 0 where
  pub id : String
  pub name : String

pub record TicketUpdateResult : Type 0 where
  pub ticket_key : String
  pub comment_result : Option ConnectorWriteResult
  pub transition_result : Option ConnectorWriteResult
  pub skipped : Bool

-- A call of Jira.
pub data Call : Type 0 where
  comment : (issue_key body : String) → Call
  transition : (issue_key : String) → Transition → Call

pub record TicketUpdater : Type 0 where
  pub jira_comment : (issue_key body : String) → Result ConnectorWriteResult
  pub jira_transition : (issue_key : String) → Transition → Result ConnectorWriteResult
  pub policy_evaluate : PolicyEvaluateRequest → Result PolicyEvaluateResponse
  pub tenant_id : String
  pub user_id : String

-- `buildMergeComment`
unfoldable pub build_merge_comment : PrMergeDetails → String
build_merge_comment d = join "\n" (
    template ("PR #" ∷ decimal d.pr_number ∷ " merged: " ∷ d.pr_title ∷ [])
    ∷ ""
    ∷ template ("Repository: " ∷ d.repository ∷ [])
    ∷ template ("Author: " ∷ d.author ∷ [])
    ∷ template ("Branch: " ∷ d.head_branch ∷ " -> " ∷ d.base_branch ∷ [])
    ∷ template ("Merged: " ∷ d.merged_at ∷ [])
    ∷ ""
    ∷ template ("Link: " ∷ d.pr_url ∷ [])
    ∷ [])

abbrev pub is_denied : PolicyResult → Bool
is_denied PolicyResult.deny = true
is_denied _ = false

-- An empty list allows every transition.
abbrev pub is_allowed : List String → String → Bool
is_allowed [] name = true
is_allowed (t ∷ ts) name = includes (t ∷ ts) name

module _ (u : TicketUpdater) where
  -- The request of `checkTransitionPolicy`.
  abbrev pub transition_request : String → String → PolicyEvaluateRequest
  transition_request issue_key name = record {
    tenant_id = u.tenant_id;
    user_id = u.user_id;
    action = "jira_transition";
    data_classification = internal;
    channel = none;
    target_system = some "jira";
    additional =
        ("issueKey", str issue_key)
        ∷ ("transitionName", str name)
        ∷ ("triggeredBy", str "work_tracking_auto_update")
        ∷ [];
  }

  -- The outcome of the ticket once its comment is made.
  abbrev pub commented :
      String → ConnectorWriteResult → Option ConnectorWriteResult → TicketUpdateResult
  commented key c t = record {
    ticket_key = key;
    comment_result = some c;
    transition_result = t;
    skipped = false;
  }

  -- The call of `jiraTransition`.
  unfoldable pub moved :
      String → ConnectorWriteResult → Result ConnectorWriteResult → Result TicketUpdateResult
  moved key c (throw e) = throw e
  moved key c (ok t) = ok (commented key c (some t))

  -- The part behind the policy's answer.
  unfoldable pub with_decision :
      String
      → Transition
      → ConnectorWriteResult
      → Result PolicyEvaluateResponse
      → List Call
      → Result TicketUpdateResult × List Call
  with_decision key target c (throw e) calls = (throw e, calls)
  with_decision key target c (ok answer) calls =
      if is_denied answer.decision
      then (ok (commented key c none), calls)
      else if is_allowed (get_or answer.constraints.allowed_transitions []) target.name
      then (moved key c (u.jira_transition key target), calls ++ transition key target ∷ [])
      else (ok (commented key c none), calls)

  -- The part behind a comment that was made.
  unfoldable pub with_target :
      String
      → Option Transition
      → ConnectorWriteResult
      → List Call
      → Result TicketUpdateResult × List Call
  with_target key none c calls = (ok (commented key c none), calls)
  with_target key (some target) c calls =
      with_decision key target c (u.policy_evaluate (transition_request key target.name)) calls

  unfoldable pub with_comment :
      String
      → Option Transition
      → Result ConnectorWriteResult
      → List Call
      → Result TicketUpdateResult × List Call
  with_comment key target (throw e) calls = (throw e, calls)
  with_comment key target (ok c) calls =
      let rest = with_target key target c calls in
      if c.is_success then rest else (ok (commented key c none), calls)

  -- `updateTicketForMerge`
  unfoldable pub update_ticket_for_merge :
      String
      → PrMergeDetails
      → Option Transition
      → List Call
      → Result TicketUpdateResult × List Call
  update_ticket_for_merge key details target calls =
      with_comment key target (u.jira_comment key (build_merge_comment details))
        (calls ++ comment key (build_merge_comment details) ∷ [])

  -- A result before the others; an error ends the loop.
  abbrev pub and_then :
      Result TicketUpdateResult
      → Result (List TicketUpdateResult) × List Call
      → List Call
      → Result (List TicketUpdateResult) × List Call
  and_then (throw e) rest calls = (throw e, calls)
  and_then (ok r) (throw e, calls') calls = (throw e, calls')
  and_then (ok r) (ok rs, calls') calls = (ok (r ∷ rs), calls')

  -- `updateTicketsForMerge`
  unfoldable pub update_tickets_for_merge :
      List String
      → PrMergeDetails
      → Option Transition
      → List Call
      → Result (List TicketUpdateResult) × List Call
  update_tickets_for_merge [] details target calls = (ok [], calls)
  update_tickets_for_merge (key ∷ keys) details target calls =
      let (result, calls1) = update_ticket_for_merge key details target calls in
      and_then result (update_tickets_for_merge keys details target calls1) calls1
