-- ===== src/WorkTracking/Hooks/Recorded.antt =====
-- plugins/work-tracking/src/hooks.ts: what an event leaves behind.
use openclaw_enterprise.Common.{String, List, [], ◌∷◌, ◌++◌, true, false, Option, ◌⊎◌, ◌≡◌, ◌≢◌}
use openclaw_enterprise.Shared.Errors.{EnterpriseError, Result, ok, throw}
use openclaw_enterprise.WorkTracking.Updater.{
  Call, Transition, TicketUpdater, update_tickets_for_merge,
}
use openclaw_enterprise.WorkTracking.Hooks.{
  PullRequest, GitHubWebhookEvent, ActivityRecord, Tracking, merge_details,
}

abbrev pub IsMerge : GitHubWebhookEvent → PullRequest → Type 0
IsMerge event pr = (event.event_type ≡ "pr_merged") × (pr.merged ≡ true)

-- The calls of Jira that an event leaves: none where no ticket is named or nothing was merged, and
-- otherwise those of the update of the named tickets.
abbrev pub AreCalls :
    TicketUpdater
    → Option Transition
    → GitHubWebhookEvent
    → PullRequest
    → List String
    → List Call
    → List Call
    → Type 0
AreCalls u target event pr keys before_ after_ =
    (((keys ≡ []) ⊎ ((event.event_type ≢ "pr_merged") ⊎ (pr.merged ≡ false))) × (after_ ≡ before_))
    ⊎ ((keys ≢ [])
        × IsMerge event pr
        × (after_ ≡ (update_tickets_for_merge u keys (merge_details event pr) target before_).1))

-- With these keys: either the hook succeeds and logs one record more, with the keys, or it throws
-- what the update of the tickets of a merged pull request throws, and logs none.
abbrev pub IsHandled :
    TicketUpdater
    → Option Transition
    → GitHubWebhookEvent
    → PullRequest
    → List String
    → Tracking
    → Result (Unit {0}) × Tracking
    → Type 0
IsHandled u target event pr keys t r =
    AreCalls u target event pr keys t.calls r.1.calls
    × (((r.0 ≡ ok tt)
          × ((a : ActivityRecord) × (r.1.activity_log ≡ t.activity_log ++ a ∷ [])
              × (a.ticket_keys ≡ keys)
              × (a.pr_number ≡ pr.number)
              × (a.repository ≡ event.full_name)))
        ⊎ ((e : EnterpriseError) × (r.0 ≡ throw e)
            × (r.1.activity_log ≡ t.activity_log)
            × IsMerge event pr
            × ((update_tickets_for_merge u keys (merge_details event pr) target t.calls).0
                ≡ throw e)))
