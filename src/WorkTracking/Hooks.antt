-- ===== src/WorkTracking/Hooks.antt =====
-- plugins/work-tracking/src/hooks.ts: what an event of GitHub does to the tickets and the activity log.
pub mod Recorded
use openclaw_enterprise.Common.{
  ℕ, String, List, [], ◌∷◌, ◌++◌, Bool, ◌&&◌, Option, none, some, get_or, if◌then◌else◌, str_eq,
}
use openclaw_enterprise.Common.Text.{template, decimal, join}
use openclaw_enterprise.Shared.Errors.{Result, ok, throw}
use openclaw_enterprise.WorkTracking.PrJira.{correlate_pr_to_jira}
use openclaw_enterprise.WorkTracking.Updater.{
  PrMergeDetails, Transition, TicketUpdateResult, Call, TicketUpdater, update_tickets_for_merge,
}

pub record PullRequest : Type 0 where
  pub number : ℕ
  pub title : String
  pub author : String
  pub head_ref : String
  pub base_ref : String
  pub merged : Bool
  pub url : String
  pub description : Option String

-- The fields of an event that are read.
pub record GitHubWebhookEvent : Type 0 where
  pub event_type : String
  pub full_name : String
  pub timestamp : String
  pub pull_request : Option PullRequest

pub data ActivityType : Type 0 where
  pr_merged pr_opened pr_closed ticket_updated : ActivityType

pub record ActivityRecord : Type 0 where
  pub type_ : ActivityType
  pub timestamp : String
  pub summary : String
  pub ticket_keys : List String
  pub pr_number : ℕ
  pub repository : String

-- The activity log, and the calls of Jira so far.
pub record Tracking : Type 0 where
  pub activity_log : List ActivityRecord
  pub calls : List Call

-- `mapEventType`
abbrev pub map_event_type : String → ActivityType
map_event_type event_type =
    if str_eq event_type "pr_merged"
    then pr_merged
    else if str_eq event_type "pr_opened"
    then pr_opened
    else pr_closed

abbrev pub merge_details : GitHubWebhookEvent → PullRequest → PrMergeDetails
merge_details event pr = record {
  pr_number = pr.number;
  pr_title = pr.title;
  pr_url = pr.url;
  author = pr.author;
  repository = event.full_name;
  base_branch = pr.base_ref;
  head_branch = pr.head_ref;
  merged_at = event.timestamp;
}

abbrev pub activity :
    ActivityType → List String → List String → GitHubWebhookEvent → PullRequest → ActivityRecord
activity type_ summary keys event pr = record {
  type_ = type_;
  timestamp = event.timestamp;
  summary = template summary;
  ticket_keys = keys;
  pr_number = pr.number;
  repository = event.full_name;
}

abbrev pub push : ActivityRecord → Tracking → Tracking
push a t = record t { activity_log = t.activity_log ++ a ∷ [] }

-- The texts of the summaries.
abbrev pub plain_summary : GitHubWebhookEvent → PullRequest → List String
plain_summary event pr =
    "PR #" ∷ decimal pr.number ∷ ": " ∷ pr.title ∷ " (" ∷ event.full_name ∷ ")" ∷ []

abbrev pub with_keys : List String → List String → List String
with_keys summary keys = summary ++ " -> " ∷ join ", " keys ∷ []

abbrev pub merged_summary : GitHubWebhookEvent → PullRequest → List String
merged_summary event pr =
    "PR #" ∷ decimal pr.number ∷ " merged: " ∷ pr.title ∷ " (" ∷ event.full_name ∷ ")" ∷ []

-- The record of a merge follows the updates, unless these throw.
unfoldable pub recorded :
    GitHubWebhookEvent
    → PullRequest
    → List String
    → Tracking
    → Result (List TicketUpdateResult) × List Call
    → Result (Unit {0}) × Tracking
recorded event pr keys t (throw e, calls) = (throw e, record t { calls = calls })
recorded event pr keys t (ok results, calls) = (
  ok tt,
  push (activity pr_merged (with_keys (merged_summary event pr) keys) keys event pr)
      (record t { calls = calls }),
)

module _ (matches : String → List String) (u : TicketUpdater) (target : Option Transition) where
  -- The handler for the keys of a pull request.
  unfoldable pub handle_keys :
      GitHubWebhookEvent → PullRequest → List String → Tracking → Result (Unit {0}) × Tracking
  handle_keys event pr [] t = (
    ok tt,
    push (activity (map_event_type event.event_type) (plain_summary event pr) [] event pr) t,
  )
  handle_keys event pr (key ∷ more) t =
      let keys = key ∷ more in
      let updated = update_tickets_for_merge u keys (merge_details event pr) target t.calls in
      if str_eq event.event_type "pr_merged" && pr.merged
      then recorded event pr keys t updated
      else (
        ok tt,
        push
            (activity (map_event_type event.event_type) (with_keys (plain_summary event pr) keys)
              keys event pr)
            t,
      )

  -- The handler of `connector.github.event`.
  unfoldable pub handle_pull_request :
      GitHubWebhookEvent → Option PullRequest → Tracking → Result (Unit {0}) × Tracking
  handle_pull_request event none t = (ok tt, t)
  handle_pull_request event (some pr) t =
      handle_keys event pr
        (correlate_pr_to_jira matches pr.head_ref pr.title (get_or pr.description "")).ticket_keys t

  abbrev pub handle_event : GitHubWebhookEvent → Tracking → Result (Unit {0}) × Tracking
  handle_event event t = handle_pull_request event event.pull_request t
