-- ===== src/Auth/Admin/Isolated.antt =====
-- plugins/auth-enterprise/src/routes.ts: a tenant's connectors are its own administrators' affair.
use openclaw_enterprise.Common.{
  ℕ, String, List, [], ◌∷◌, length, select, Bool, true, false, ◌&&◌, Option, none, some, get_or,
  lookup, insert, lookup-insert, includes, str_eq, eq_iff, ◌≡◌, refl, sym, ◌∙◌, arith, Bool-cases,
  inl, inr, All, All-select,
}
use mathlib.Core.Path.{subst}
use openclaw_enterprise.Shared.Types.{UserContext}
use openclaw_enterprise.Common.Text.{is_empty, split}
use openclaw_enterprise.Auth.Http.{HttpResponse, answered}
use openclaw_enterprise.Auth.Admin.{
  ConnectorRecord, ConnectorBody, ConnectorStatus, Connectors, Authorized, allowed, denied, guarded,
  values, require, require_admin, is_admin, is_of, list_connectors, new_connector, create_by,
  create_connector, disable_found, disable, delete_by, delete_connector, last, given, valid_types,
}

-- A request about connectors: who sends it, and what it asks.
pub data Request : Type 0 where
  create : (id now : String) (body : ConnectorBody) (user : Option UserContext) → Request
  delete : (path : String) (user : Option UserContext) → Request

abbrev pub apply : Request → Connectors → Connectors
apply (create id now body user) cs = (create_connector id now body user cs).1
apply (delete path user) cs = (delete_connector path user cs).1

unfoldable pub apply_all : List Request → Connectors → Connectors
apply_all [] cs = cs
apply_all (q ∷ qs) cs = apply_all qs (apply q cs)

-- An admin of this tenant sent it.
abbrev pub comes_from : String → Option UserContext → Bool
comes_from tenant none = false
comes_from tenant (some user) = is_admin user && str_eq user.tenant_id tenant

-- No admin of the tenant sent one of the requests, and none of the new ids is the connector's.
abbrev pub AreForeign : String → String → List Request → Type 0
AreForeign tenant k [] = Unit
AreForeign tenant k (create id now body user ∷ qs) =
    (comes_from tenant user ≡ false) × (str_eq id k ≡ false) × AreForeign tenant k qs
AreForeign tenant k (delete path user ∷ qs) =
    (comes_from tenant user ≡ false) × AreForeign tenant k qs

require-comes_from :
    (tenant : String) (user : Option UserContext) (u : UserContext)
    → require_admin user ≡ allowed u
    → comes_from tenant user ≡ str_eq u.tenant_id tenant
unfolding require
require-comes_from tenant none u h = cc
require-comes_from tenant (some v) u h = elim (Bool-cases (is_admin v)) [
  | inl admin ↦ let h' = rw admin at h in let is : v ≡ u = cc in rw admin (rw is refl)
  | inr other ↦ let h' = rw other at h in cc
]

-- An insertion under another key.
insert_apart :
    (id k : String) (c : ConnectorRecord) (cs : Connectors)
    → str_eq id k ≡ false
    → lookup k (insert id c cs) ≡ lookup k cs
insert_apart id k c cs apart =
    let read = lookup-insert id k c cs in let read' = rw apart at read in read'

create_by-apart :
    (id now : String) (body : ConnectorBody) (cs : Connectors) (by_ : Authorized) (k : String)
    → str_eq id k ≡ false
    → lookup k (create_by id now body cs by_).1 ≡ lookup k cs
unfolding create_by
create_by-apart id now body cs (denied status e m) k apart = refl
create_by-apart id now body cs (allowed u) k apart =
    let kept = insert_apart id k (new_connector id now body u) cs apart in
    elim (Bool-cases (given body.type_)) [
      | inr missing ↦ rw missing refl
      | inl there_ ↦ elim (Bool-cases (includes valid_types (get_or body.type_ ""))) [
        | inr invalid ↦ rw there_ (rw invalid refl)
        | inl valid ↦ elim (Bool-cases (given body.credentials_secret_ref)) [
          | inr missing ↦ rw there_ (rw valid (rw missing refl))
          | inl secret ↦ rw there_ (rw valid (rw secret kept))
        ]
      ]
    ]

disable_found-apart :
    (u : UserContext) (id k : String) (cs : Connectors) (found : Option ConnectorRecord)
    (c : ConnectorRecord)
    → lookup id cs ≡ found
    → lookup k cs ≡ some c
    → is_of u c ≡ false
    → lookup k (disable_found u id cs found).1 ≡ lookup k cs
unfolding disable_found
disable_found-apart u id k cs none c e at_k other = refl
disable_found-apart u id k cs (some d) c e at_k other = elim (Bool-cases (is_of u d)) [
  | inr foreign ↦ rw foreign refl
  | inl own ↦ elim (Bool-cases (str_eq id k)) [
    | inl same ↦
        let key = (eq_iff id k).0 same in
        let here_ : lookup id cs ≡ some c = rw key at_k in
        let is : d ≡ c = cc in let own' = rw is at own in cc
    | inr apart ↦
        rw own (insert_apart id k (record d { status = ConnectorStatus.disabled }) cs apart)
  ]
]

disable-apart :
    (u : UserContext) (id : Option String) (k : String) (cs : Connectors) (c : ConnectorRecord)
    → lookup k cs ≡ some c
    → is_of u c ≡ false
    → lookup k (disable u cs id).1 ≡ lookup k cs
unfolding disable
disable-apart u none k cs c at_k other = refl
disable-apart u (some id) k cs c at_k other = elim (Bool-cases (is_empty id)) [
  | inl empty ↦ rw empty refl
  | inr named ↦ rw named (disable_found-apart u id k cs (lookup id cs) c refl at_k other)
]

delete_by-apart :
    (path tenant : String) (user : Option UserContext) (by_ : Authorized) (k : String)
    (cs : Connectors) (c : ConnectorRecord)
    → require_admin user ≡ by_
    → comes_from tenant user ≡ false
    → lookup k cs ≡ some c
    → c.tenant_id ≡ tenant
    → lookup k (delete_by path cs by_).1 ≡ lookup k cs
unfolding delete_by
delete_by-apart path tenant user (denied status e m) k cs c is foreign at_k of_tenant = refl
delete_by-apart path tenant user (allowed u) k cs c is foreign at_k of_tenant =
    let tested = require-comes_from tenant user u is in
    let other : str_eq u.tenant_id tenant ≡ false = sym tested ∙ foreign in
    disable-apart u (last (split b'/' path)) k cs c at_k
      (ground (arith, eq_iff c.tenant_id u.tenant_id, eq_iff u.tenant_id tenant, other, of_tenant))

-- Whatever admins of other tenants and users without the role ask for, in any number of requests, a
-- connector of a tenant stays as it is, as long as no new connector gets its id.
pub apply_all_isolated :
    (tenant k : String) (qs : List Request) (cs : Connectors) (c : ConnectorRecord)
    → lookup k cs ≡ some c
    → c.tenant_id ≡ tenant
    → AreForeign tenant k qs
    → lookup k (apply_all qs cs) ≡ some c
unfolding apply_all
apply_all_isolated tenant k [] cs c at_k of_tenant foreign = at_k
apply_all_isolated tenant k (create id now body user ∷ qs) cs c at_k of_tenant (from, apart, rest) =
    apply_all_isolated tenant k qs (apply (create id now body user) cs) c
      (create_by-apart id now body cs (require_admin user) k apart ∙ at_k) of_tenant rest
apply_all_isolated tenant k (delete path user ∷ qs) cs c at_k of_tenant (from, rest) =
    apply_all_isolated tenant k qs (apply (delete path user) cs) c
      (delete_by-apart path tenant user (require_admin user) k cs c refl from at_k of_tenant ∙ at_k)
      of_tenant rest

guarded-answered :
    {A : Type 0} (by_ : Authorized) (rest : UserContext → HttpResponse A) (status : ℕ)
    (headers : List (String × String)) (a : A)
    → guarded by_ rest ≡ answered status headers a
    → (u : UserContext) × (by_ ≡ allowed u) × (rest u ≡ answered status headers a)
guarded-answered (denied n e m) rest status headers a h = cc
guarded-answered (allowed u) rest status headers a h = (u, refl, h)

-- The list of connectors is given to admins only, holds the connectors of the admin's own tenant and
-- no others, and their number.
pub list_connectors-own :
    (connectors : Connectors) (user : Option UserContext) (status : ℕ)
    (headers : List (String × String)) (items : List ConnectorRecord) (total : ℕ)
    → list_connectors connectors user ≡ answered status headers (items, total)
    → (u : UserContext) × (require_admin user ≡ allowed u)
      × (items ≡ select (is_of u) (values connectors))
      × All (λ c. is_of u c ≡ true) items
      × (total ≡ length items)
unfolding list_connectors
list_connectors-own connectors user status headers items total h =
    let (u, by_, is) =
      guarded-answered (require_admin user)
        (λ v.
          answered 200 []
            (select (is_of v) (values connectors), length (select (is_of v) (values connectors))))
        status headers (items, total) h in
    let same : select (is_of u) (values connectors) ≡ items = cc in
    let all = All-select (is_of u) (values connectors) in
    (u, by_, sym same, subst (All (λ c. is_of u c ≡ true)) same all, cc)
