-- ===== src/Audit/Writer/RoundTrip.antt =====
-- plugins/audit-enterprise/src/writer and query: what a query reads of what was logged.
use openclaw_enterprise.Common.{
  String, List, [], ◌∷◌, Bool, true, false, Option, none, some, get_or, lookup, map, str_eq, ◌≡◌,
  refl, ap, ◌∙◌,
}
use mathlib.Core.Option
use openclaw_enterprise.Shared.Json.{Fields, end}
use openclaw_enterprise.Shared.Errors.{Result, ok, throw}
use openclaw_enterprise.Audit.Writer.{
  AuditLogParams, DataAccess, ModelTokens, AuditEntry, AuditWriteResult, Cell, text, no_value,
  detail, accessed, tokens, date, Row, Inserts, written, write_params, columns, insert_values,
  row_of, or_null, tokens_cell, as_text, as_tokens, row_to_audit_entry, insert_answer, insert_entry,
  audit_log,
}

-- What the database and its driver make of a value between the INSERT and a SELECT: of a time, the
-- text that `String` gives of the `Date` that is read; of a JSON value, the value that is read.
pub record Driver : Type 0 where
  pub shown_time : String → String
  pub detail_read : Fields → Fields
  pub accessed_read : List DataAccess → List DataAccess
  pub tokens_read : ModelTokens → ModelTokens

-- A column of texts gives the text that was written, and NULL is read where it was written.
abbrev pub cell_read : Driver → Bool → Cell → Cell
cell_read d true (text t) = date (d.shown_time t)
cell_read d false (text t) = text t
cell_read d is_time (detail f) = detail (d.detail_read f)
cell_read d is_time (accessed a) = accessed (d.accessed_read a)
cell_read d is_time (tokens t) = tokens (d.tokens_read t)
cell_read d is_time no_value = no_value
cell_read d is_time (date shown) = date shown

-- The row that a SELECT reads where this one was inserted. The column `timestamp` is one of times.
abbrev pub row_read : Driver → Row → Row
row_read d row = map (λ c. (c.0, cell_read d (str_eq c.0 "timestamp") c.1)) row

-- The entry of parameters, a model and its tokens.
abbrev entry_with :
    Driver → String → String → AuditLogParams → Option String → Option ModelTokens → AuditEntry
entry_with d id timestamp p model tokens_ = record {
  id = some id;
  tenant_id = some p.tenant_id;
  user_id = some p.user_id;
  timestamp = d.shown_time timestamp;
  action_type = some p.action_type;
  action_detail = d.detail_read (get_or p.action_detail end);
  data_accessed = d.accessed_read (get_or p.data_accessed []);
  model_used = model;
  model_tokens = tokens_;
  data_classification = some p.data_classification;
  policy_applied = some p.policy_applied;
  policy_result = some p.policy_result;
  policy_reason = p.policy_reason;
  outcome = some p.outcome;
  request_id = some p.request_id;
}

-- The entry that the parameters describe, with the time and the JSON values as they are read back.
abbrev pub entry_of : Driver → String → String → AuditLogParams → AuditEntry
entry_of d id timestamp p =
    entry_with d id timestamp p p.model_used (Option.map d.tokens_read p.model_tokens)

insert_answer-written :
    (answer : Result (List AuditWriteResult)) (r : AuditWriteResult)
    → insert_answer answer ≡ written r
    → (rows : List AuditWriteResult) × (answer ≡ ok (r ∷ rows))
unfolding insert_answer
insert_answer-written (throw e) r h = cc
insert_answer-written (ok []) r h = cc
insert_answer-written (ok (row ∷ rows)) r h = (rows, cc)

as_text-or_null :
    (d : Driver) (o : Option String) → as_text (some (cell_read d false (or_null o))) ≡ o
as_text-or_null d none = refl
as_text-or_null d (some t) = refl

as_tokens-tokens_cell :
    (d : Driver) (o : Option ModelTokens)
    → as_tokens (some (cell_read d false (tokens_cell o))) ≡ Option.map d.tokens_read o
as_tokens-tokens_cell d none = refl
as_tokens-tokens_cell d (some t) = refl

row_to_audit_entry-entry_of :
    (d : Driver) (id timestamp : String) (p : AuditLogParams)
    → row_to_audit_entry (row_read d (row_of columns (insert_values id timestamp (write_params p))))
      ≡ entry_of d id timestamp p
unfolding row_to_audit_entry lookup
row_to_audit_entry-entry_of d id timestamp p =
    ap
      (λ m.
        entry_with d id timestamp p m
          (as_tokens (some (cell_read d false (tokens_cell p.model_tokens)))))
      (as_text-or_null d p.model_used)
    ∙ ap (λ t. entry_with d id timestamp p p.model_used t) (as_tokens-tokens_cell d p.model_tokens)

-- Where `audit.log` succeeds, the database took one row and returned what the answer holds. What a
-- query makes of that row, as the driver reads it, is the entry that the parameters describe: each
-- text in its field, no model and no tokens where there were none, the missing details and accesses
-- empty, and the time and the JSON values as the driver gives them back.
pub audit_log-row_to_audit_entry :
    (db : Inserts) (d : Driver) (id timestamp : String) (p : AuditLogParams) (r : AuditWriteResult)
    → audit_log db id timestamp p ≡ written r
    → (row : Row) × (rows : List AuditWriteResult) × (db row ≡ ok (r ∷ rows))
      × (row_to_audit_entry (row_read d row) ≡ entry_of d id timestamp p)
unfolding audit_log insert_entry
audit_log-row_to_audit_entry db d id timestamp p r h =
    let row = row_of columns (insert_values id timestamp (write_params p)) in
    let (rows, answered) = insert_answer-written (db row) r h in
    (row, rows, answered, row_to_audit_entry-entry_of d id timestamp p)
