-- ===== src/Audit/Query.antt =====
-- plugins/audit-enterprise/src/query/query-method.ts: a page of the audit log. The database is a
-- parameter, which gets the text of the conditions and the values of their placeholders.
pub mod Matches
pub mod Slices
pub mod Order
pub mod Pages
use openclaw_enterprise.Common.{
  ℕ, ◌+◌, ◌-◌, ◌*◌, min, ℤ, pos, pos_part, ◌+ℤ◌, ltb_ℤ, String, List, [], ◌∷◌, ◌++◌, map, length,
  Bool, Option, none, some, get_or, if◌then◌else◌,
}
use openclaw_enterprise.Common.Text.{is_empty, template, decimal, join}

pub record AuditQueryFilters : Type 0 where
  pub user_id : Option String
  pub action_type : Option String
  pub from : Option String
  pub to : Option String
  pub policy_result : Option String
  pub request_id : Option String

pub record AuditQueryParams : Type 0 where
  pub tenant_id : String
  pub filters : Option AuditQueryFilters
  pub limit : Option ℤ
  pub offset : Option ℤ
  pub page_size : Option ℤ
  pub page : Option ℤ

pub record AuditQueryResponse (E : Type 0) : Type 0 where
  pub entries : List E
  pub total : ℕ
  pub page : ℕ
  pub page_size : ℕ
  pub has_more : Bool

abbrev pub audit_default_page_size : ℕ
audit_default_page_size = 100

abbrev pub audit_max_page_size : ℕ
audit_max_page_size = 1000

-- `a ?? b`
abbrev pub or_else {ℓ} : {A : Type ℓ} → Option A → Option A → Option A
or_else none b = b
or_else (some a) b = some a

-- `Math.max(z, 1)`
abbrev pub at_least_one : ℤ → ℕ
at_least_one z = if ltb_ℤ z (pos 1) then 1 else pos_part z

unfoldable pub page_size_of : AuditQueryParams → ℕ
page_size_of p =
    min (at_least_one (get_or (or_else p.limit p.page_size) (pos audit_default_page_size)))
      audit_max_page_size

abbrev pub page_of : AuditQueryParams → ℕ
page_of p = at_least_one (get_or p.page (pos 1))

abbrev pub offset_of : AuditQueryParams → ℤ
offset_of p = get_or p.offset (pos ((page_of p - 1) * page_size_of p))

-- A condition: a column and its comparison, as it stands before the placeholder, and the placeholder's
-- number.
abbrev pub Condition : Type 0
Condition = String × ℕ

-- `conditions`, `values` and `paramIndex`.
pub record WhereClause : Type 0 where
  pub conditions : List Condition
  pub values : List String
  pub param_index : ℕ

abbrev pub add_condition : String → String → WhereClause → WhereClause
add_condition column value w = record {
  conditions = w.conditions ++ (column, w.param_index) ∷ [];
  values = w.values ++ value ∷ [];
  param_index = w.param_index + 1;
}

-- One of the `if` statements over the filters: an empty text is no filter.
abbrev pub add_filter : String → Option String → WhereClause → WhereClause
add_filter column none w = w
add_filter column (some value) w = if is_empty value then w else add_condition column value w

abbrev pub no_filters : AuditQueryFilters
no_filters = record {
  user_id = none;
  action_type = none;
  from = none;
  to = none;
  policy_result = none;
  request_id = none;
}

abbrev pub tenant_only : String → WhereClause
tenant_only tenant_id = record {
  conditions = ("tenant_id = ", 1) ∷ [];
  values = tenant_id ∷ [];
  param_index = 2;
}

-- The columns of the filters, in the order of the statements.
abbrev pub filter_list : AuditQueryFilters → List (String × Option String)
filter_list f =
    ("user_id = ", f.user_id)
    ∷ ("action_type = ", f.action_type)
    ∷ ("timestamp >= ", f.from)
    ∷ ("timestamp <= ", f.to)
    ∷ ("policy_result = ", f.policy_result)
    ∷ ("request_id = ", f.request_id)
    ∷ []

unfoldable pub add_filters : List (String × Option String) → WhereClause → WhereClause
add_filters [] w = w
add_filters ((column, value) ∷ fs) w = add_filters fs (add_filter column value w)

abbrev pub where_of : AuditQueryParams → WhereClause
where_of p = add_filters (filter_list (get_or p.filters no_filters)) (tenant_only p.tenant_id)

-- `${condition}$${index}`
abbrev pub condition_text : Condition → String
condition_text c = template (c.0 ∷ "$" ∷ decimal c.1 ∷ [])

unfoldable pub where_clause : WhereClause → String
where_clause w = join " AND " (map condition_text w.conditions)

-- `timestamp DESC`: nothing orders the rows of one time.
abbrev pub newest_first : String
newest_first = "timestamp DESC"

-- The two questions to the database: the count, `none` where it gives no row, and the rows, already
-- as entries, for the text behind ORDER BY, a limit and an offset.
pub record Database (E : Type 0) : Type 0 where
  pub count_where : String → List String → Option ℕ
  pub select_where : String → List String → (order : String) → ℕ → ℤ → List E

-- The handler of `audit.query`. It sets the statement's time limit first.
unfoldable pub audit_query : {E : Type 0} → Database E → AuditQueryParams → AuditQueryResponse E
audit_query db p =
    let w = where_of p in
    let entries =
      db.select_where (where_clause w) w.values newest_first (page_size_of p) (offset_of p) in
    let total = get_or (db.count_where (where_clause w) w.values) 0 in
    record {
      entries = entries;
      total = total;
      page = page_of p;
      page_size = page_size_of p;
      has_more = ltb_ℤ (offset_of p +ℤ pos (length entries)) (pos total);
    }
