-- ===== src/Tests/WorkTests.antt =====
-- The theorems on the audit log's pages, the matrix and the tickets, at a few inputs.
use openclaw_enterprise.Common.{
  arith, ℕ, ◌+◌, ◌≤◌, ℤ, pos, negsuc, String, List, [], ◌∷◌, length, take, count, Bool, true,
  Option, none, some, ◌≡◌, refl, str_eq, All, if◌then◌else◌,
}
use openclaw_enterprise.Shared.Types.{PolicyResult, internal}
use openclaw_enterprise.Shared.Errors.{ok}
use openclaw_enterprise.Shared.Tasks.{Task, TaskStatus}
use openclaw_enterprise.TaskIntelligence.Scorer.{Clock}
use openclaw_enterprise.Audit.Query.{AuditQueryParams, Database, page_size_of, where_of, no_filters}
use openclaw_enterprise.Audit.Query.Matches.{meets_all, is_asked_for, where_of_selects}
use openclaw_enterprise.Audit.Query.Order.{IsNewestFirst}
use openclaw_enterprise.Audit.Query.Slices.{drop}
use openclaw_enterprise.Audit.Query.Pages.{Holds, read_pages, read_pages_complete}
use openclaw_enterprise.Audit.Writer.{
  AuditLogParams, AuditWriteResult, Row, row_to_audit_entry, insert_answer, insert_entry, audit_log,
}
use openclaw_enterprise.Audit.Writer.RoundTrip.{
  Driver, row_read, entry_of, audit_log-row_to_audit_entry,
}
use openclaw_enterprise.Connector.{ConnectorWriteResult}
use openclaw_enterprise.WorkTracking.Updater.{
  PrMergeDetails, Transition, TicketUpdater, update_tickets_for_merge,
}
use openclaw_enterprise.WorkTracking.Updater.Permitted.{
  IsPermitted, update_tickets_for_merge-IsPermitted,
}
use openclaw_enterprise.WorkTracking.Hooks.{PullRequest, GitHubWebhookEvent}

abbrev late : Clock
late text = some (negsuc 5)

abbrev plain_task : String → Option String → Task
plain_task id deadline = record {
  id = id;
  title = id;
  priority_score = 10;
  status = TaskStatus.active;
  sources = [];
  deadline = deadline;
  urgency_signals = record {
    sender_seniority = some 10;
    follow_up_count = 3;
    sla_timer = none;
    blocking_relationships = "a" ∷ "b" ∷ [];
  };
  classification = internal;
}

abbrev asked : AuditQueryParams
asked = record {
  tenant_id = "t";
  filters = some (record no_filters { user_id = some "u"; from = some ""; request_id = some "r" });
  limit = some (pos 2);
  offset = none;
  page_size = none;
  page = none;
}

-- The column is the tenant's where the condition is on the tenant, and the user's elsewhere.
abbrev reads : String → String × String → String → Bool
reads column e value = if str_eq column "tenant_id = " then str_eq e.0 value else str_eq e.1 value

where_of_selects_example :
    (meets_all reads ("t", "u") (where_of asked).values (where_of asked).conditions
      ≡ is_asked_for reads ("t", "u") asked)
    × ((where_of asked).param_index ≡ length (where_of asked).values + 1)
where_of_selects_example = where_of_selects reads ("t", "u") asked

abbrev rows : List ℕ
rows = 5 ∷ 4 ∷ 3 ∷ 2 ∷ 1 ∷ []

rows-IsNewestFirst : IsNewestFirst (λ n. n) rows
rows-IsNewestFirst = ground arith

abbrev offset_ℕ : ℤ → ℕ
offset_ℕ (pos n) = n
offset_ℕ (negsuc n) = 0

abbrev database : Database ℕ
database = record {
  count_where = λ clause values. some (length rows);
  select_where = λ clause values order limit offset. take limit (drop (offset_ℕ offset) rows);
}

abbrev database-Holds : Holds (λ n. n) database asked rows
database-Holds = record {
  count = refl;
  ordered = λ limit offset. (rows, rows-IsNewestFirst, λ e m. m, λ e m. m, refl);
}

read_pages_complete_example :
    (read_pages 6 database asked 1 ≡ some rows)
    × (1 ≤ page_size_of asked)
    × (page_size_of asked ≤ 1000)
read_pages_complete_example =
    read_pages_complete (λ n. n) database asked rows rows-IsNewestFirst database-Holds

abbrev written : ConnectorWriteResult
written = record {
  is_success = true;
  source_id = "";
  action = "";
  policy_applied = "";
  audit_entry_id = "";
}

abbrev updater : TicketUpdater
updater = record {
  jira_comment = λ key body. ok written;
  jira_transition = λ key target. ok written;
  policy_evaluate = λ request. ok (record {
    decision = PolicyResult.allow;
    policy_applied = "";
    reason = "";
    constraints = record {
      max_classification = none;
      allowed_transitions = some ("Done" ∷ []);
      disclosure_required = none;
    };
  });
  tenant_id = "t";
  user_id = "u";
}

abbrev details : PrMergeDetails
details = record {
  pr_number = 7;
  pr_title = "";
  pr_url = "";
  author = "";
  repository = "";
  base_branch = "";
  head_branch = "";
  merged_at = "";
}

abbrev to_done : Transition
to_done = record { id = "31"; name = "Done" }

update_tickets_for_merge-IsPermitted_example :
    All
      (IsPermitted updater details (some to_done))
      (update_tickets_for_merge updater ("A-1" ∷ "A-2" ∷ []) details (some to_done) []).1
update_tickets_for_merge-IsPermitted_example =
    update_tickets_for_merge-IsPermitted updater details (some to_done) ("A-1" ∷ "A-2" ∷ []) [] tt

abbrev pull : PullRequest
pull = record {
  number = 7;
  title = "fix";
  author = "";
  head_ref = "A-1";
  base_ref = "";
  merged = true;
  url = "";
  description = none;
}

abbrev event : GitHubWebhookEvent
event = record {
  event_type = "pr_merged";
  full_name = "o/r";
  timestamp = "";
  pull_request = some pull;
}

abbrev logged : AuditLogParams
logged = record {
  tenant_id = "t";
  user_id = "u";
  action_type = "tool_invocation";
  action_detail = none;
  data_accessed = none;
  model_used = some "m";
  model_tokens = none;
  data_classification = "internal";
  policy_applied = "p";
  policy_result = "allow";
  policy_reason = "";
  outcome = "success";
  request_id = "r";
}

abbrev took : AuditWriteResult
took = record { id = "1"; timestamp = "now" }

abbrev driver : Driver
driver = record {
  shown_time = λ t. "a day";
  detail_read = λ f. f;
  accessed_read = λ a. a;
  tokens_read = λ t. t;
}

audit_log-row_to_audit_entry_example :
    (row : Row) × (rows_ : List AuditWriteResult) × (ok (took ∷ []) ≡ ok (took ∷ rows_))
    × (row_to_audit_entry (row_read driver row) ≡ entry_of driver "1" "now" logged)
unfolding audit_log insert_entry insert_answer
audit_log-row_to_audit_entry_example =
    audit_log-row_to_audit_entry (λ row. ok (took ∷ [])) driver "1" "now" logged took refl
