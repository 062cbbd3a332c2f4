-- ===== src/AutoResponse/Queue.antt =====
-- plugins/auto-response/src/approval/queue.ts: the responses that wait for a user's decision. The
-- state is the map, the next number, and the records passed to `audit.log` in order; it is
-- returned also where the call of `audit.log` throws, since the map is written before it.
pub mod Once
pub mod Pending
use Prim.Native.String
use openclaw_enterprise.Common.{
  ℕ, suc, ◌+◌, String, List, [], ◌∷◌, ◌++◌, Option, some, none, lookup, insert, remove, leb, str_eq,
  if◌then◌else◌,
}
use openclaw_enterprise.Common.Text.{template, decimal}
use openclaw_enterprise.Shared.Types.{
  MessageClassification, critical, needs_response, informational, noise, internal, tool_invocation,
  policy_decision, AuditOutcome, success, pending_approval, allow, deny, require_approval,
}
use openclaw_enterprise.Shared.Json.{str}
use openclaw_enterprise.Shared.Policy.{AuditRecord}
use openclaw_enterprise.Shared.Errors.{plain, Result, ok, throw, ◌>>=◌}

-- What `enqueue` takes: a pending response without `id` and `createdAt`.
pub record NewResponse : Type 0 where
  pub message_id : String
  pub channel : String
  pub sender : String
  pub subject : String
  pub original_body : String
  pub response_body : String
  pub classification : MessageClassification
  pub policy_applied : String
  pub tenant_id : String
  pub user_id : String

pub record PendingResponse : Type 0 where
  pub id : String
  pub response : NewResponse
  pub created_at : String

pub data Decision : Type 0 where
  approved rejected : Decision

pub record ApprovalActionResult : Type 0 where
  pub id : String
  pub action : Decision
  pub response_body : String

pub record QueueState : Type 0 where
  pub pending : List (String × PendingResponse)
  pub next_id : ℕ
  pub log : List AuditRecord

-- `audit.log` returns the entry's id or throws.
abbrev pub AuditLog : Type 0
AuditLog = AuditRecord → Result String

abbrev pub new_queue : QueueState
new_queue = record { pending = []; next_id = 1; log = [] }

abbrev pub classification_name : MessageClassification → String
classification_name critical = "critical"
classification_name needs_response = "needs-response"
classification_name informational = "informational"
classification_name noise = "noise"

-- The call of `audit.log`, and the value returned behind it.
abbrev pub noted {ℓ} :
    {A : Type ℓ} → AuditLog → AuditRecord → A → QueueState → Result A × QueueState
noted audit_log entry value s =
    ((audit_log entry >>= λ _. ok value), record s { log = s.log ++ entry ∷ [] })

abbrev pub entry_id : ℕ → String
entry_id n = String.◌++◌ "approval-" (decimal n)

abbrev enqueue_record : String → NewResponse → AuditRecord
enqueue_record id e = record {
  tenant_id = e.tenant_id;
  user_id = e.user_id;
  action_type = tool_invocation;
  details =
      ("tool", str "auto-response.enqueue")
      ∷ ("messageId", str e.message_id)
      ∷ ("channel", str e.channel)
      ∷ ("classification", str (classification_name e.classification))
      ∷ ("queueEntryId", str id)
      ∷ [];
  data_accessed = [];
  data_classification = internal;
  policy_applied = e.policy_applied;
  policy_result = require_approval;
  policy_reason = "Response requires user approval before sending";
  outcome = pending_approval;
}

-- `now` is the text of the current time.
unfoldable pub enqueue : AuditLog → String → NewResponse → QueueState → Result String × QueueState
enqueue audit_log now response s =
    let id = entry_id s.next_id in
    noted audit_log (enqueue_record id response) id (record s {
      pending = insert id (record { id = id; response = response; created_at = now }) s.pending;
      next_id = suc s.next_id;
    })

abbrev decision_record : Decision → String → String → String → NewResponse → AuditRecord
decision_record approved id tenant_id user_id e = record {
  tenant_id = tenant_id;
  user_id = user_id;
  action_type = policy_decision;
  details =
      ("tool", str "auto-response.approve")
      ∷ ("queueEntryId", str id)
      ∷ ("messageId", str e.message_id)
      ∷ ("channel", str e.channel)
      ∷ [];
  data_accessed = [];
  data_classification = internal;
  policy_applied = e.policy_applied;
  policy_result = allow;
  policy_reason = "User approved auto-response";
  outcome = success;
}
decision_record rejected id tenant_id user_id e = record {
  tenant_id = tenant_id;
  user_id = user_id;
  action_type = policy_decision;
  details =
      ("tool", str "auto-response.reject")
      ∷ ("queueEntryId", str id)
      ∷ ("messageId", str e.message_id)
      ∷ ("channel", str e.channel)
      ∷ [];
  data_accessed = [];
  data_classification = internal;
  policy_applied = e.policy_applied;
  policy_result = deny;
  policy_reason = "User rejected auto-response";
  outcome = AuditOutcome.denied;
}

-- The body that `approve` and `reject` share, on the entry that the map holds.
abbrev decide :
    AuditLog
    → Decision
    → String
    → String
    → String
    → Option PendingResponse
    → QueueState
    → Result ApprovalActionResult × QueueState
decide audit_log action id tenant_id user_id none s =
    (throw (plain (template ("Pending response \"" ∷ id ∷ "\" not found" ∷ []))), s)
decide audit_log action id tenant_id user_id (some entry) s =
    noted audit_log (decision_record action id tenant_id user_id entry.response)
      (record { id = id; action = action; response_body = entry.response.response_body })
      (record s { pending = remove id s.pending })

unfoldable pub approve :
    AuditLog → String → String → String → QueueState → Result ApprovalActionResult × QueueState
approve audit_log id tenant_id user_id s =
    decide audit_log approved id tenant_id user_id (lookup id s.pending) s

unfoldable pub reject :
    AuditLog → String → String → String → QueueState → Result ApprovalActionResult × QueueState
reject audit_log id tenant_id user_id s =
    decide audit_log rejected id tenant_id user_id (lookup id s.pending) s

-- The entries of a user, in the order of the map.
abbrev pub entries_of : String → List (String × PendingResponse) → List PendingResponse
entries_of user_id [] = []
entries_of user_id ((k, e) ∷ entries) =
    if str_eq e.response.user_id user_id
    then e ∷ entries_of user_id entries
    else entries_of user_id entries

-- `sort` with the latest first; entries of one time keep their order.
abbrev pub place : (String → ℕ) → PendingResponse → List PendingResponse → List PendingResponse
place time e [] = e ∷ []
place time e (d ∷ ds) =
    if leb (time d.created_at) (time e.created_at) then e ∷ d ∷ ds else d ∷ place time e ds

abbrev pub latest_first : (String → ℕ) → List PendingResponse → List PendingResponse
latest_first time [] = []
latest_first time (e ∷ es) = place time e (latest_first time es)

-- `time` reads a text that `toISOString` wrote.
unfoldable pub list_pending : (String → ℕ) → String → QueueState → List PendingResponse
list_pending time user_id s = latest_first time (entries_of user_id s.pending)

unfoldable pub get : String → QueueState → Option PendingResponse
get id s = lookup id s.pending

count_entries : String → List (String × PendingResponse) → ℕ
count_entries user_id [] = 0
count_entries user_id ((k, e) ∷ entries) =
    if str_eq e.response.user_id user_id
    then 1 + count_entries user_id entries
    else count_entries user_id entries

unfoldable pub pending_count : String → QueueState → ℕ
unfolding count_entries
pending_count user_id s = count_entries user_id s.pending
