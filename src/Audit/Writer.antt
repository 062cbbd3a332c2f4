-- ===== src/Audit/Writer.antt =====
-- plugins/audit-enterprise/src/writer/log-method.ts, writer.ts and query/query-method.ts: an entry from
-- the parameters of `audit.log` to a row of the table, and from a row to the entry that a query gives.
pub mod RoundTrip
use openclaw_enterprise.Common.{
  ℕ, String, List, [], ◌∷◌, Option, none, some, get_or, lookup, map, if◌then◌else◌,
}
use openclaw_enterprise.Common.Text.{join}
use openclaw_enterprise.Shared.Json.{Fields, end}
use openclaw_enterprise.Shared.Errors.{EnterpriseError, Result, ok, throw}

-- The unions of the source are texts here, as on the wire and in the table.
pub record DataAccess : Type 0 where
  pub source : String
  pub classification : String
  pub purpose : String

pub record ModelTokens : Type 0 where
  pub input : ℕ
  pub output : ℕ

pub record AuditLogParams : Type 0 where
  pub tenant_id : String
  pub user_id : String
  pub action_type : String
  pub action_detail : Option Fields
  pub data_accessed : Option (List DataAccess)
  pub model_used : Option String
  pub model_tokens : Option ModelTokens
  pub data_classification : String
  pub policy_applied : String
  pub policy_result : String
  pub policy_reason : String
  pub outcome : String
  pub request_id : String

pub record AuditWriteParams : Type 0 where
  pub tenant_id : String
  pub user_id : String
  pub action_type : String
  pub action_detail : Fields
  pub data_accessed : List DataAccess
  pub model_used : Option String
  pub model_tokens : Option ModelTokens
  pub data_classification : String
  pub policy_applied : String
  pub policy_result : String
  pub policy_reason : String
  pub outcome : String
  pub request_id : String

-- The part of the `audit.log` handler before the write.
abbrev pub write_params : AuditLogParams → AuditWriteParams
write_params p = record {
  tenant_id = p.tenant_id;
  user_id = p.user_id;
  action_type = p.action_type;
  action_detail = get_or p.action_detail end;
  data_accessed = get_or p.data_accessed [];
  model_used = p.model_used;
  model_tokens = p.model_tokens;
  data_classification = p.data_classification;
  policy_applied = p.policy_applied;
  policy_result = p.policy_result;
  policy_reason = p.policy_reason;
  outcome = p.outcome;
  request_id = p.request_id;
}

-- A value of a column: a text, NULL, or one of the three kinds of values that are stored as JSON and
-- read back parsed. A time is written as a text and read as a `Date`, which is given here by what
-- `String` makes of it.
pub data Cell : Type 0 where
  text : String → Cell
  no_value : Cell
  detail : Fields → Cell
  accessed : List DataAccess → Cell
  tokens : ModelTokens → Cell
  date : (shown : String) → Cell

abbrev pub or_null : Option String → Cell
or_null none = no_value
or_null (some t) = text t

abbrev pub tokens_cell : Option ModelTokens → Cell
tokens_cell none = no_value
tokens_cell (some t) = tokens t

-- The columns of the INSERT, in order.
abbrev pub columns : List String
columns =
    "id" ∷ "tenant_id" ∷ "user_id" ∷ "timestamp" ∷ "action_type" ∷ "action_detail" ∷ "data_accessed"
    ∷ "model_used" ∷ "model_tokens" ∷ "data_classification" ∷ "policy_applied" ∷ "policy_result"
    ∷ "policy_reason" ∷ "outcome" ∷ "request_id" ∷ []

-- `values`, in order.
abbrev pub insert_values : String → String → AuditWriteParams → List Cell
insert_values id timestamp p =
    text id
    ∷ text p.tenant_id
    ∷ text p.user_id
    ∷ text timestamp
    ∷ text p.action_type
    ∷ detail p.action_detail
    ∷ accessed p.data_accessed
    ∷ or_null p.model_used
    ∷ tokens_cell p.model_tokens
    ∷ text p.data_classification
    ∷ text p.policy_applied
    ∷ text p.policy_result
    ∷ text p.policy_reason
    ∷ text p.outcome
    ∷ text p.request_id
    ∷ []

-- The row of an INSERT: each column with the value of its placeholder.
abbrev pub Row : Type 0
Row = List (String × Cell)

abbrev pub row_of : List String → List Cell → Row
row_of [] cells = []
row_of (c ∷ cs) [] = []
row_of (c ∷ cs) (cell ∷ cells) = (c, cell) ∷ row_of cs cells

pub record AuditEntry : Type 0 where
  pub id : Option String
  pub tenant_id : Option String
  pub user_id : Option String
  pub timestamp : String
  pub action_type : Option String
  pub action_detail : Fields
  pub data_accessed : List DataAccess
  pub model_used : Option String
  pub model_tokens : Option ModelTokens
  pub data_classification : Option String
  pub policy_applied : Option String
  pub policy_result : Option String
  pub policy_reason : String
  pub outcome : Option String
  pub request_id : Option String

-- What the casts of `rowToAuditEntry` take of a cell; `none` is `undefined` or `null`.
abbrev pub as_text : Option Cell → Option String
as_text (some (text t)) = some t
as_text _ = none

-- `String(value)`
abbrev pub string_of : Option Cell → String
string_of none = "undefined"
string_of (some no_value) = "null"
string_of (some (text t)) = t
string_of (some (date shown)) = shown
string_of (some (accessed ds)) = join "," (map (λ _. "[object Object]") ds)
string_of (some (detail d)) = "[object Object]"
string_of (some (tokens t)) = "[object Object]"

abbrev pub as_detail : Option Cell → Option Fields
as_detail (some (detail d)) = some d
as_detail _ = none

abbrev pub as_accessed : Option Cell → Option (List DataAccess)
as_accessed (some (accessed d)) = some d
as_accessed _ = none

abbrev pub as_tokens : Option Cell → Option ModelTokens
as_tokens (some (tokens t)) = some t
as_tokens _ = none

-- `rowToAuditEntry`
unfoldable pub row_to_audit_entry : Row → AuditEntry
row_to_audit_entry row = record {
  id = as_text (lookup "id" row);
  tenant_id = as_text (lookup "tenant_id" row);
  user_id = as_text (lookup "user_id" row);
  timestamp = string_of (lookup "timestamp" row);
  action_type = as_text (lookup "action_type" row);
  action_detail = get_or (as_detail (lookup "action_detail" row)) end;
  data_accessed = get_or (as_accessed (lookup "data_accessed" row)) [];
  model_used = as_text (lookup "model_used" row);
  model_tokens = as_tokens (lookup "model_tokens" row);
  data_classification = as_text (lookup "data_classification" row);
  policy_applied = as_text (lookup "policy_applied" row);
  policy_result = as_text (lookup "policy_result" row);
  policy_reason = get_or (as_text (lookup "policy_reason" row)) "";
  outcome = as_text (lookup "outcome" row);
  request_id = as_text (lookup "request_id" row);
}

pub record AuditWriteResult : Type 0 where
  pub id : String
  pub timestamp : String

-- `AuditWriteError`
pub data Written : Type 0 where
  written : AuditWriteResult → Written
  write_error : (message : String) → Option EnterpriseError → Written

-- What the database answers to the INSERT: an error, or the id and the timestamp of each row that it
-- returns.
unfoldable pub insert_answer : Result (List AuditWriteResult) → Written
insert_answer (throw e) = write_error "Failed to write audit entry" (some e)
insert_answer (ok []) = write_error "Insert returned no rows" none
insert_answer (ok (row ∷ rows)) = written row

-- The database takes the row of an INSERT.
abbrev pub Inserts : Type 0
Inserts = Row → Result (List AuditWriteResult)

-- `AuditWriter.insert`; `id` is what `generateSortableId` makes and `timestamp` the time's text.
unfoldable pub insert_entry : Inserts → String → String → AuditWriteParams → Written
insert_entry db id timestamp p = insert_answer (db (row_of columns (insert_values id timestamp p)))

-- The handler of `audit.log`.
unfoldable pub audit_log : Inserts → String → String → AuditLogParams → Written
audit_log db id timestamp p = insert_entry db id timestamp (write_params p)
