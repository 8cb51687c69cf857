-- ===== src/Role/Catalog.antt =====
-- Lookups and privilege decisions of `RoleCatalog` (crates/quackgis-server/src/role.rs).
pub mod Roles
pub mod Tables
pub mod Inherited
use quackgis.Base.{
  ℕ, Bool, true, false, not, ◌&&◌, ◌||◌, List, [], ◌∷◌, Option, none, some, ◌==◌, if◌then◌else◌, Eq,
  nat_Eq, list_Eq, codes, contains, any, find, get_elem?,
}
use quackgis.Role.Model.{
  Name, name_eq, eq_ignore_ascii_case, Role, RoleMembership, TableOwner, SchemaPrivilege,
  TablePrivilege, RolePrivilege, schema_privilege_Eq, table_privilege_Eq, SchemaGrant, TableGrant,
  RoleCatalog,
}
use quackgis.Role.Worklist.{started, closure_loop, search_loop, search_fuel}

-- `HashMap::get`
abbrev pub map_get {ℓ} : {V : Type ℓ} → List (Name × V) → Name → Option V
map_get [] k = none
map_get ((j, v) ∷ m) k = let rest = map_get m k in if name_eq j k then some v else rest

abbrev pub is_some {ℓ} : {A : Type ℓ} → Option A → Bool
is_some none = false
is_some (some _) = true

role_at : List Role → Option ℕ → Option Role
role_at roles none = none
role_at roles (some index) = get_elem? roles index

-- `RoleCatalog::role`
unfoldable pub role : RoleCatalog → Name → Option Role
unfolding role_at
role c name = role_at c.roles (map_get c.role_indexes name)

pub role_by_oid : RoleCatalog → ℕ → Option Role
role_by_oid c oid = find (λ r. r.oid == oid) c.roles

abbrev pub knows : RoleCatalog → Name → Bool
knows c name = is_some (role c name)

-- which memberships a privilege on roles follows
abbrev pub follows : RolePrivilege → RoleMembership → Bool
follows RolePrivilege.member edge = true
follows RolePrivilege.usage edge = edge.inherit_option
follows RolePrivilege.set edge = edge.set_option

-- `bool` out of a search whose fuel suffices
abbrev pub or_false : Option Bool → Bool
or_false none = false
or_false (some b) = b

unfoldable pub has_role_privilege : RoleCatalog → Name → Name → RolePrivilege → Bool
has_role_privilege c member target privilege =
    if not (knows c member) || not (knows c target)
    then false
    else if name_eq member target
    then true
    else or_false (
        search_loop (follows privilege) c.memberships target (search_fuel c.memberships)
          (started member))

unfoldable pub can_set_role : RoleCatalog → Name → Name → Bool
can_set_role c session_user target = has_role_privilege c session_user target RolePrivilege.set

abbrev pub or_empty : Option (List Name) → List Name
or_empty none = []
or_empty (some names) = names

unfoldable pub inherited_roles : RoleCatalog → Name → List Name
inherited_roles c name =
    if not (knows c name)
    then []
    else or_empty (
        closure_loop (follows RolePrivilege.usage) c.memberships (search_fuel c.memberships)
          (started name))

abbrev pub is_public : Name → Bool
is_public name = eq_ignore_ascii_case name (codes "PUBLIC")

-- `grantee.is_none_or(|grantee| !public && inherited.contains(grantee))`
abbrev pub reaches_grantee : Bool → List Name → Option Name → Bool
reaches_grantee public inherited none = true
reaches_grantee public inherited (some grantee) = not public && contains inherited grantee

abbrev pub grants_schema : Bool → List Name → Name → SchemaPrivilege → SchemaGrant → Bool
grants_schema public inherited schema privilege g =
    eq_ignore_ascii_case g.schema schema
    && contains g.privileges privilege
    && reaches_grantee public inherited g.role

unfoldable pub has_schema_privilege : RoleCatalog → Name → Name → SchemaPrivilege → Bool
has_schema_privilege c name schema privilege =
    if not (is_public name) && not (knows c name)
    then false
    else any (grants_schema (is_public name) (inherited_roles c name) schema privilege)
        c.schema_grants

abbrev pub names_table : Name → Name → TableOwner → Bool
names_table schema table o =
    eq_ignore_ascii_case o.schema schema && eq_ignore_ascii_case o.table table

abbrev pub owns : List Name → Name → Name → TableOwner → Bool
owns inherited schema table o = names_table schema table o && contains inherited o.role

abbrev pub grants : Bool → List Name → Name → Name → TablePrivilege → TableGrant → Bool
grants public inherited schema table privilege g =
    eq_ignore_ascii_case g.schema schema
    && eq_ignore_ascii_case g.table table
    && contains g.privileges privilege
    && reaches_grantee public inherited g.role

unfoldable pub has_table_privilege : RoleCatalog → Name → Name → Name → TablePrivilege → Bool
has_table_privilege c name schema table privilege =
    let inherited = inherited_roles c name in
    if not (is_public name) && not (knows c name)
    then false
    else if not (is_public name) && any (owns inherited schema table) c.table_owners
    then true
    else any (grants (is_public name) inherited schema table privilege) c.table_grants

unfoldable pub can_create_configured_table : RoleCatalog → Name → Name → Name → Bool
can_create_configured_table c name schema table =
    has_schema_privilege c name schema SchemaPrivilege.usage
    && any (owns (inherited_roles c name) schema table) c.table_owners

unfoldable pub allows_table_operation : RoleCatalog → Name → Name → Name → TablePrivilege → Bool
allows_table_operation c name schema table privilege =
    has_schema_privilege c name schema SchemaPrivilege.usage
    && has_table_privilege c name schema table privilege
