-- ===== src/Role/Config/Convert.antt =====
-- The conversion of a role configuration to a catalog: `RoleCatalog::from_json` and
-- `TryFrom<RoleConfigDocument>` (crates/quackgis-server/src/role.rs).
pub mod Entries
pub mod Grants
pub mod WellFormed
pub mod Lookup
pub mod Safe
use quackgis.Base.{
  ℕ, suc, Bool, true, false, ◌||◌, List, [], ◌∷◌, map, Option, none, some, Result, ok, err, ◌>>=◌,
  ◌>>◌, reject, ltb, ◌==◌, if◌then◌else◌, contains, utf8_len, get_elem?, Eq, nat_Eq, list_Eq,
  pair_Eq, option_Eq, sort_by, list_less, option_less, then_less,
}
use quackgis.Role.Model.{
  Name, name_eq, Role, RoleMembership, TableOwner, SchemaPrivilege, TablePrivilege,
  schema_privilege_Eq, table_privilege_Eq, SchemaGrant, TableGrant, RoleCatalog,
}
use quackgis.Role.Catalog.{map_get}
use quackgis.Role.Config.{
  RoleConfig, MembershipConfig, TableOwnerConfig, SchemaPrivilegeConfig, TablePrivilegeConfig,
  SchemaGrantConfig, TableGrantConfig, RoleConfigDocument, ConfigError, Configured, too_large,
  invalid_document, no_roles, duplicate_role, reserved_oid, duplicate_oid, own_member, admin_option,
  membership_oid, duplicate_membership, duplicate_owner, duplicate_schema_grant,
  duplicate_table_grant, panicked,
}
use quackgis.Role.Config.Names.{
  bootstrap_owner_oid, validate_role_name, known_role, normalize_grantee, normalize_schema,
  normalize_table, nonempty_unique, is_empty,
}
use quackgis.Role.Config.Cycles.{reject_membership_cycles}

abbrev pub max_role_config_bytes : ℕ
max_role_config_bytes = 1048576

abbrev pub role_of : RoleConfig → Role
role_of c = record { oid = c.oid; name = c.name; login = c.login; inherit = c.inherit }

abbrev pub is_reserved_oid : ℕ → Bool
is_reserved_oid oid = oid == 0 || oid == bootstrap_owner_oid

-- the loop over the roles, with the names and OIDs seen
unfoldable pub collect_roles : List RoleConfig → List Name → List ℕ → Configured (List Role)
collect_roles [] names oids = ok []
collect_roles (c ∷ cs) names oids = do
  validate_role_name c.name
  reject (contains names c.name) duplicate_role
  reject (is_reserved_oid c.oid) reserved_oid
  reject (contains oids c.oid) duplicate_oid
  rest ← collect_roles cs (c.name ∷ names) (c.oid ∷ oids)
  ok (role_of c ∷ rest)

abbrev pub by_oid : Role → Role → Bool
by_oid a b = ltb a.oid b.oid

-- `enumerate().map(…).collect()`: the names are distinct
abbrev pub indexes_from : ℕ → List Role → List (Name × ℕ)
indexes_from i [] = []
indexes_from i (r ∷ rs) = (r.name, i) ∷ indexes_from (suc i) rs

abbrev pub inherit_of : Option Role → Configured Bool
inherit_of none = err panicked
inherit_of (some r) = ok r.inherit

abbrev pub role_index : List Role → Option ℕ → Option Role
role_index roles none = none
role_index roles (some i) = get_elem? roles i

-- `configured.inherit_option.unwrap_or_else(|| roles[role_indexes[member]].inherit)`
abbrev pub inherit_option_of : List Role → List (Name × ℕ) → Name → Option Bool → Configured Bool
inherit_option_of roles indexes member (some inherit) = ok inherit
inherit_option_of roles indexes member none = inherit_of (role_index roles (map_get indexes member))

-- the loop over the memberships, with the OIDs and the pairs of member and role seen
module _ (roles : List Role) (indexes : List (Name × ℕ)) where
  unfoldable pub collect_memberships :
      List MembershipConfig → List ℕ → List (Name × Name) → Configured (List RoleMembership)
  collect_memberships [] oids keys = ok []
  collect_memberships (c ∷ cs) oids keys = do
    role ← known_role indexes c.role
    member ← known_role indexes c.member
    reject (name_eq role member) own_member
    reject c.admin_option admin_option
    reject (c.oid == 0 || contains oids c.oid) membership_oid
    reject (contains keys (member, role)) duplicate_membership
    inherit ← inherit_option_of roles indexes member c.inherit_option
    rest ← collect_memberships cs (c.oid ∷ oids) ((member, role) ∷ keys)
    ok (
        record {
          oid = c.oid;
          role = role;
          member = member;
          inherit_option = inherit;
          set_option = c.set_option;
          admin_option = false;
        }
        ∷ rest)

abbrev pub by_member : RoleMembership → RoleMembership → Bool
by_member a b =
    then_less (list_less a.member b.member) (list_less b.member a.member) (list_less a.role b.role)

-- the loop over the owners, with the tables seen
unfoldable pub collect_owners :
    List (Name × ℕ) → List TableOwnerConfig → List (Name × Name) → Configured (List TableOwner)
collect_owners indexes [] keys = ok []
collect_owners indexes (c ∷ cs) keys = do
  role ← known_role indexes c.role
  path ← normalize_table c.table
  reject (contains keys path) duplicate_owner
  rest ← collect_owners indexes cs (path ∷ keys)
  ok (record { schema = path.0; table = path.1; role = role } ∷ rest)

abbrev pub by_table : TableOwner → TableOwner → Bool
by_table a b =
    then_less (list_less a.schema b.schema) (list_less b.schema a.schema)
      (list_less a.table b.table)

abbrev pub schema_privilege_of : SchemaPrivilegeConfig → SchemaPrivilege
schema_privilege_of SchemaPrivilegeConfig.usage = SchemaPrivilege.usage

-- the loop over the schema grants, with the pairs of schema and grantee seen
unfoldable pub collect_schema_grants :
    List (Name × ℕ)
    → List SchemaGrantConfig
    → List (Name × Option Name)
    → Configured (List SchemaGrant)
collect_schema_grants indexes [] keys = ok []
collect_schema_grants indexes (c ∷ cs) keys = do
  role ← normalize_grantee indexes c.role
  schema ← normalize_schema c.schema
  privileges ← nonempty_unique (map schema_privilege_of c.privileges)
  reject (contains keys (schema, role)) duplicate_schema_grant
  rest ← collect_schema_grants indexes cs ((schema, role) ∷ keys)
  ok (record { schema = schema; role = role; privileges = privileges } ∷ rest)

abbrev pub by_schema : SchemaGrant → SchemaGrant → Bool
by_schema a b =
    then_less (list_less a.schema b.schema) (list_less b.schema a.schema)
      (option_less a.role b.role)

abbrev pub table_privilege_of : TablePrivilegeConfig → TablePrivilege
table_privilege_of TablePrivilegeConfig.select = TablePrivilege.select
table_privilege_of TablePrivilegeConfig.insert = TablePrivilege.insert
table_privilege_of TablePrivilegeConfig.update = TablePrivilege.update
table_privilege_of TablePrivilegeConfig.delete = TablePrivilege.delete
table_privilege_of TablePrivilegeConfig.maintain = TablePrivilege.maintain

-- the loop over the table grants, with the triples of schema, table and grantee seen
unfoldable pub collect_table_grants :
    List (Name × ℕ)
    → List TableGrantConfig
    → List (Name × (Name × Option Name))
    → Configured (List TableGrant)
collect_table_grants indexes [] keys = ok []
collect_table_grants indexes (c ∷ cs) keys = do
  role ← normalize_grantee indexes c.role
  path ← normalize_table c.table
  privileges ← nonempty_unique (map table_privilege_of c.privileges)
  reject (contains keys (path.0, (path.1, role))) duplicate_table_grant
  rest ← collect_table_grants indexes cs ((path.0, (path.1, role)) ∷ keys)
  ok (record { schema = path.0; table = path.1; role = role; privileges = privileges } ∷ rest)

abbrev pub by_grant : TableGrant → TableGrant → Bool
by_grant a b =
    then_less (list_less a.schema b.schema) (list_less b.schema a.schema) (
      then_less (list_less a.table b.table) (list_less b.table a.table) (option_less a.role b.role))

-- `TryFrom<RoleConfigDocument>`
unfoldable pub catalog_of : RoleConfigDocument → Configured RoleCatalog
catalog_of document = do
  reject (is_empty document.roles) no_roles
  configured ← collect_roles document.roles [] []
  let roles = sort_by by_oid configured
  let indexes = indexes_from 0 roles
  granted ← collect_memberships roles indexes document.memberships [] []
  let memberships = sort_by by_member granted
  reject_membership_cycles roles memberships
  owners ← collect_owners indexes document.table_owners []
  schema_grants ← collect_schema_grants indexes document.schema_grants []
  table_grants ← collect_table_grants indexes document.table_grants []
  ok (record {
    roles = roles;
    memberships = memberships;
    table_owners = sort_by by_table owners;
    schema_grants = sort_by by_schema schema_grants;
    table_grants = sort_by by_grant table_grants;
    role_indexes = indexes;
  })

abbrev pub parsed_document : Option RoleConfigDocument → Configured RoleConfigDocument
parsed_document none = err invalid_document
parsed_document (some document) = ok document

-- `RoleCatalog::from_json`: the JSON parser is the library's
unfoldable pub from_json : (Name → Option RoleConfigDocument) → Name → Configured RoleCatalog
unfolding catalog_of
from_json from_str raw = do
  reject (ltb max_role_config_bytes (utf8_len raw)) too_large
  document ← parsed_document (from_str raw)
  catalog_of document
