-- ===== src/Auth/Admin.antt =====
-- plugins/auth-enterprise/src/routes.ts: the administration routes over tenants and connectors.
pub mod Isolated
use openclaw_enterprise.Common.{
  ℕ, String, List, [], ◌∷◌, ◌++◌, length, select, Bool, true, false, ◌||◌, ◌&&◌, Option, none, some,
  get_or, lookup, insert, includes, if◌then◌else◌, str_eq,
}
use openclaw_enterprise.Common.Text.{is_empty, split, template}
use openclaw_enterprise.Shared.Types.{UserContext, enterprise_admin, org_admin}
use openclaw_enterprise.Shared.Json.{Fields, end}
use openclaw_enterprise.Auth.Roles.{has_role}
use openclaw_enterprise.Auth.Http.{HttpResponse, refused, answered}

pub data TenantStatus : Type 0 where
  active suspended provisioning : TenantStatus

pub record TenantRecord : Type 0 where
  pub id : String
  pub name : String
  pub status : TenantStatus
  pub gateway_instances : ℕ
  pub connector_count : ℕ
  pub policy_count : ℕ
  pub user_count : ℕ
  pub created_at : String

pub data ConnectorStatus : Type 0 where
  active disabled error : ConnectorStatus

pub record ConnectorRecord : Type 0 where
  pub id : String
  pub type_ : String
  pub tenant_id : String
  pub credentials_secret_ref : String
  pub config : Fields
  pub status : ConnectorStatus
  pub created_at : String

-- The fields of the body of a new connector.
pub record ConnectorBody : Type 0 where
  pub type_ : Option String
  pub credentials_secret_ref : Option String
  pub config : Option Fields

abbrev pub Tenants : Type 0
Tenants = List (String × TenantRecord)

abbrev pub Connectors : Type 0
Connectors = List (String × ConnectorRecord)

-- `Array.from(map.values())`
abbrev pub values {ℓ} : {V : Type ℓ} → List (String × V) → List V
values [] = []
values ((k, v) ∷ d) = v ∷ values d

abbrev pub admin_error : {A : Type 0} → ℕ → String → List String → HttpResponse A
admin_error status error_ parts =
    refused status [] (record { error = error_; message = template parts })

-- A user with the role, or the error that the request is answered with.
pub data Authorized : Type 0 where
  allowed : UserContext → Authorized
  denied : (status : ℕ) → (error_ message : String) → Authorized

-- `requireAdmin` and `requireEnterpriseAdmin`, by the test of the roles and the message.
unfoldable pub require : (UserContext → Bool) → String → Option UserContext → Authorized
require allows forbidden none = denied 401 "authentication_required" "Authentication is required"
require allows forbidden (some user) =
    if allows user then allowed user else denied 403 "forbidden" forbidden

abbrev pub is_admin : UserContext → Bool
is_admin user = has_role user.roles enterprise_admin || has_role user.roles org_admin

abbrev pub is_enterprise_admin : UserContext → Bool
is_enterprise_admin user = has_role user.roles enterprise_admin

abbrev pub require_admin : Option UserContext → Authorized
require_admin user = require is_admin "Admin role is required" user

abbrev pub require_enterprise_admin : Option UserContext → Authorized
require_enterprise_admin user = require is_enterprise_admin "Enterprise admin role is required" user

-- A handler that answers with the error, or goes on.
abbrev pub guarded : {A : Type 0} → Authorized → (UserContext → HttpResponse A) → HttpResponse A
guarded (denied status error_ message) rest = admin_error status error_ (message ∷ [])
guarded (allowed user) rest = rest user

-- What a list is answered with: its items and their number.
abbrev pub Listed : Type 0 → Type 0
Listed A = List A × ℕ

-- GET /tenants
unfoldable pub list_tenants : Tenants → Option UserContext → HttpResponse (Listed TenantRecord)
list_tenants tenants user =
    guarded (require_enterprise_admin user)
      (λ _. answered 200 [] (values tenants, length (values tenants)))

-- `upsertTenant`
abbrev pub upsert_tenant : TenantRecord → Tenants → Tenants
upsert_tenant tenant tenants = insert tenant.id tenant tenants

-- `parts.pop()` and `parts.at(-2)`
abbrev pub last : List String → Option String
last [] = none
last (x ∷ []) = some x
last (x ∷ y ∷ rest) = last (y ∷ rest)

abbrev pub second_last : List String → Option String
second_last [] = none
second_last (x ∷ []) = none
second_last (x ∷ y ∷ []) = some x
second_last (x ∷ y ∷ z ∷ rest) = second_last (y ∷ z ∷ rest)

-- The tenant that is asked for, without its creation time.
pub record TenantSummary : Type 0 where
  pub id : String
  pub name : String
  pub status : TenantStatus
  pub gateway_instances : ℕ
  pub connector_count : ℕ
  pub policy_count : ℕ
  pub user_count : ℕ

unfoldable pub tenant_for : Option TenantRecord → HttpResponse TenantSummary
tenant_for none = admin_error 404 "tenant_not_found" ("Tenant not found" ∷ [])
tenant_for (some tenant) = answered 200 [] (record {
  id = tenant.id;
  name = tenant.name;
  status = tenant.status;
  gateway_instances = tenant.gateway_instances;
  connector_count = tenant.connector_count;
  policy_count = tenant.policy_count;
  user_count = tenant.user_count;
})

unfoldable pub status_of : Tenants → Option String → HttpResponse TenantSummary
status_of tenants none = admin_error 400 "missing_tenant_id" ("Tenant ID is required" ∷ [])
status_of tenants (some id) =
    if is_empty id
    then admin_error 400 "missing_tenant_id" ("Tenant ID is required" ∷ [])
    else tenant_for (lookup id tenants)

-- GET /tenants/:id/status
unfoldable pub tenant_status :
    Tenants → Option UserContext → (path : String) → HttpResponse TenantSummary
tenant_status tenants user path =
    guarded (require_enterprise_admin user) (λ _. status_of tenants (second_last (split b'/' path)))

abbrev pub is_of : UserContext → ConnectorRecord → Bool
is_of user c = str_eq c.tenant_id user.tenant_id

-- GET /connectors
unfoldable pub list_connectors :
    Connectors → Option UserContext → HttpResponse (Listed ConnectorRecord)
list_connectors connectors user =
    guarded (require_admin user) (λ u.
      let items = select (is_of u) (values connectors) in answered 200 [] (items, length items))

abbrev pub valid_types : List String
valid_types = "gmail" ∷ "gcal" ∷ "jira" ∷ "github" ∷ "gdrive" ∷ []

-- Whether a text is there and not empty.
abbrev pub given : Option String → Bool
given none = false
given (some text) = if is_empty text then false else true

-- The new connector of a user.
abbrev pub new_connector : String → String → ConnectorBody → UserContext → ConnectorRecord
new_connector id now body user = record {
  id = id;
  type_ = get_or body.type_ "";
  tenant_id = user.tenant_id;
  credentials_secret_ref = get_or body.credentials_secret_ref "";
  config = get_or body.config end;
  status = ConnectorStatus.active;
  created_at = now;
}

-- POST /connectors; `id` is `crypto.randomUUID()` and `now` the text of the time.
unfoldable pub create_by :
    String
    → String
    → ConnectorBody
    → Connectors
    → Authorized
    → HttpResponse ConnectorRecord × Connectors
create_by id now body connectors (denied status error_ message) =
    (admin_error status error_ (message ∷ []), connectors)
create_by id now body connectors (allowed user) =
    let connector = new_connector id now body user in
    if given body.type_
    then if includes valid_types (get_or body.type_ "")
      then if given body.credentials_secret_ref
        then (answered 201 [] connector, insert id connector connectors)
        else (
          admin_error 400 "missing_credentials" ("credentials_secret_ref is required" ∷ []),
          connectors,
        )
      else (
        admin_error 400 "invalid_type" ("Invalid connector type: " ∷ get_or body.type_ "" ∷ []),
        connectors,
      )
    else (admin_error 400 "missing_type" ("Connector type is required" ∷ []), connectors)

abbrev pub create_connector :
    String
    → String
    → ConnectorBody
    → Option UserContext
    → Connectors
    → HttpResponse ConnectorRecord × Connectors
create_connector id now body user connectors = create_by id now body connectors (require_admin user)

-- The answer of a deletion.
pub record Disabled : Type 0 where
  pub id : String
  pub status : ConnectorStatus

-- DELETE /connectors/:id, from the connector that was found.
unfoldable pub disable_found :
    UserContext → String → Connectors → Option ConnectorRecord → HttpResponse Disabled × Connectors
disable_found user id connectors none =
    (admin_error 404 "not_found" ("Connector not found" ∷ []), connectors)
disable_found user id connectors (some c) =
    if is_of user c
    then (
      answered 200 [] (record { id = id; status = ConnectorStatus.disabled }),
      insert id (record c { status = ConnectorStatus.disabled }) connectors,
    )
    else (
      admin_error 403 "forbidden" ("Cannot delete connector from another tenant" ∷ []),
      connectors,
    )

unfoldable pub disable :
    UserContext → Connectors → Option String → HttpResponse Disabled × Connectors
disable user connectors none =
    (admin_error 400 "missing_id" ("Connector ID is required" ∷ []), connectors)
disable user connectors (some id) =
    if is_empty id
    then (admin_error 400 "missing_id" ("Connector ID is required" ∷ []), connectors)
    else disable_found user id connectors (lookup id connectors)

unfoldable pub delete_by : String → Connectors → Authorized → HttpResponse Disabled × Connectors
delete_by path connectors (denied status error_ message) =
    (admin_error status error_ (message ∷ []), connectors)
delete_by path connectors (allowed user) = disable user connectors (last (split b'/' path))

abbrev pub delete_connector :
    (path : String) → Option UserContext → Connectors → HttpResponse Disabled × Connectors
delete_connector path user connectors = delete_by path connectors (require_admin user)

-- GET /status, from the statuses of its four components: the status code and the word.
abbrev pub system_status : String → String → String → String → ℕ × String
system_status gateway policy_engine opa db =
    if str_eq gateway "healthy"
      && str_eq policy_engine "healthy"
      && str_eq opa "healthy"
      && str_eq db "healthy"
    then (200, "healthy")
    else (503, "degraded")
