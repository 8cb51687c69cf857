-- ===== src/Role/Config/Convert/Safe.antt =====
-- Reading a role configuration never indexes the roles out of range (`RoleCatalog::from_json` of
-- crates/quackgis-server/src/role.rs).
use quackgis.Base.{
  ℕ, ◌≡◌, ◌≢◌, refl, ap, Bool, true, false, List, [], ◌∷◌, map, Option, none, some, ok, err, ◌>>=◌,
  reject, arith, Eq, nat_Eq, list_Eq, pair_Eq, option_Eq, sort_by, ltb, utf8_len,
}
use quackgis.Role.Model.{Name, Role, RoleMembership, schema_privilege_Eq, table_privilege_Eq}
use quackgis.Role.Config.{
  RoleConfig, MembershipConfig, TableOwnerConfig, SchemaGrantConfig, TableGrantConfig,
  RoleConfigDocument, Configured, panicked, too_large, no_roles,
}
use quackgis.Role.Config.Names.{
  validate_role_name, known_role, normalize_grantee, normalize_schema, normalize_table, unique_from,
  nonempty_unique, is_empty, table_of_path, split_at,
}
use quackgis.Role.Config.Cycles.{reject_membership_cycles}
use quackgis.Role.Config.Convert.{
  collect_roles, max_role_config_bytes, by_oid, by_member, indexes_from, inherit_option_of,
  collect_memberships, collect_owners, collect_schema_grants, collect_table_grants,
  schema_privilege_of, table_privilege_of, catalog_of, from_json, parsed_document,
}
use quackgis.Role.Config.Convert.Entries.{is_known}
use quackgis.Role.Config.Convert.Lookup.{indexes_from-Found, map_get-indexes_from}

abbrev is_panicked : {A : Type 0} → Configured A → Bool
is_panicked (err panicked) = true
is_panicked _ = false

-- A chain is safe when its first action and what follows are.
>>=-safe :
    {A B : Type 0} (r : Configured A) (next : A → Configured B)
    → is_panicked r ≡ false
    → ((a : A) → is_panicked (next a) ≡ false)
    → is_panicked (r >>= next) ≡ false
>>=-safe (err e) next first later = ground (arith, first)
>>=-safe (ok a) next first later = later a

validate_role_name-safe : (name : Name) → is_panicked (validate_role_name name) ≡ false
unfolding validate_role_name
validate_role_name-safe name = ground arith

known_role-safe :
    (indexes : List (Name × ℕ)) (name : Name) → is_panicked (known_role indexes name) ≡ false
unfolding known_role
known_role-safe indexes name = ground arith

normalize_grantee-safe :
    (indexes : List (Name × ℕ)) (name : Name) → is_panicked (normalize_grantee indexes name) ≡ false
unfolding normalize_grantee
normalize_grantee-safe indexes name = ground (arith, known_role-safe indexes name)

normalize_schema-safe : (raw : Name) → is_panicked (normalize_schema raw) ≡ false
unfolding normalize_schema
normalize_schema-safe raw = ground arith

table_of_path-safe : (path : List Name) → is_panicked (table_of_path path) ≡ false
table_of_path-safe [] = refl
table_of_path-safe (t ∷ []) = refl
table_of_path-safe (s ∷ t ∷ []) = ground arith
table_of_path-safe (s ∷ t ∷ u ∷ rest) = refl

normalize_table-safe : (raw : Name) → is_panicked (normalize_table raw) ≡ false
unfolding normalize_table
normalize_table-safe raw = ground (arith, table_of_path-safe (split_at b'.' raw))

module _ {T : Type 0} ⦃e : Eq T⦄ where
  unique_from-safe : (seen values : List T) → is_panicked (unique_from seen values) ≡ false
  unique_from-safe seen [] = refl
  unique_from-safe seen (v ∷ vs) = ground (arith, unique_from-safe (v ∷ seen) vs)

  nonempty_unique-safe : (values : List T) → is_panicked (nonempty_unique values) ≡ false
  unfolding nonempty_unique
  nonempty_unique-safe values = ground (arith, unique_from-safe [] values)

collect_roles-safe :
    (cs : List RoleConfig) (names : List Name) (oids : List ℕ)
    → is_panicked (collect_roles cs names oids) ≡ false
unfolding collect_roles
collect_roles-safe [] names oids = refl
collect_roles-safe (c ∷ cs) names oids =
    ground
      (arith, validate_role_name-safe c.name, collect_roles-safe cs (c.name ∷ names) (c.oid ∷ oids))

inherit_option_of-safe :
    (roles : List Role) (name : Name) (option : Option Bool)
    → is_known (indexes_from 0 roles) name ≡ true
    → is_panicked (inherit_option_of roles (indexes_from 0 roles) name option) ≡ false
inherit_option_of-safe roles name (some b) h = refl
inherit_option_of-safe roles name none h =
    let f = indexes_from-Found 0 roles name (rw (map_get-indexes_from 0 roles name) at h) in
    rw f.indexed (ground (arith, f.there))

collect_memberships-safe :
    (roles : List Role) (cs : List MembershipConfig) (oids : List ℕ) (keys : List (Name × Name))
    → is_panicked (collect_memberships roles (indexes_from 0 roles) cs oids keys) ≡ false
unfolding collect_memberships known_role
collect_memberships-safe roles [] oids keys = refl
collect_memberships-safe roles (c ∷ cs) oids keys = ground (
  arith,
  inherit_option_of-safe roles c.member c.inherit_option,
  collect_memberships-safe roles cs (c.oid ∷ oids) ((c.member, c.role) ∷ keys),
)

reject_membership_cycles-safe :
    (roles : List Role) (memberships : List RoleMembership)
    → is_panicked (reject_membership_cycles roles memberships) ≡ false
unfolding reject_membership_cycles
reject_membership_cycles-safe [] ms = refl
reject_membership_cycles-safe (r ∷ rs) ms = ground (arith, reject_membership_cycles-safe rs ms)

collect_owners-safe :
    (indexes : List (Name × ℕ)) (cs : List TableOwnerConfig) (keys : List (Name × Name))
    → is_panicked (collect_owners indexes cs keys) ≡ false
unfolding collect_owners
collect_owners-safe indexes [] keys = refl
collect_owners-safe indexes (c ∷ cs) keys =
    >>=-safe (known_role indexes c.role) _ (known_role-safe indexes c.role) λ role.
      >>=-safe (normalize_table c.table) _ (normalize_table-safe c.table)
        λ path. ground (arith, collect_owners-safe indexes cs (path ∷ keys))

collect_schema_grants-safe :
    (indexes : List (Name × ℕ)) (cs : List SchemaGrantConfig) (keys : List (Name × Option Name))
    → is_panicked (collect_schema_grants indexes cs keys) ≡ false
unfolding collect_schema_grants
collect_schema_grants-safe indexes [] keys = refl
collect_schema_grants-safe indexes (c ∷ cs) keys =
    >>=-safe (normalize_grantee indexes c.role) _ (normalize_grantee-safe indexes c.role) λ role.
      >>=-safe (normalize_schema c.schema) _ (normalize_schema-safe c.schema) λ schema. ground (
        arith,
        nonempty_unique-safe (map schema_privilege_of c.privileges),
        collect_schema_grants-safe indexes cs ((schema, role) ∷ keys),
      )

collect_table_grants-safe :
    (indexes : List (Name × ℕ)) (cs : List TableGrantConfig)
    (keys : List (Name × (Name × Option Name)))
    → is_panicked (collect_table_grants indexes cs keys) ≡ false
unfolding collect_table_grants
collect_table_grants-safe indexes [] keys = refl
collect_table_grants-safe indexes (c ∷ cs) keys =
    >>=-safe (normalize_grantee indexes c.role) _ (normalize_grantee-safe indexes c.role) λ role.
      >>=-safe (normalize_table c.table) _ (normalize_table-safe c.table) λ path. ground (
        arith,
        nonempty_unique-safe (map table_privilege_of c.privileges),
        collect_table_grants-safe indexes cs ((path.0, (path.1, role)) ∷ keys),
      )

catalog_of-safe : (document : RoleConfigDocument) → is_panicked (catalog_of document) ≡ false
unfolding catalog_of
catalog_of-safe document =
    >>=-safe (reject (is_empty document.roles) no_roles) _ (ground arith) λ _.
      >>=-safe (collect_roles document.roles [] []) _ (collect_roles-safe document.roles [] [])
        λ cs.
          let roles = sort_by by_oid cs in
          let indexes = indexes_from 0 roles in
          >>=-safe (collect_memberships roles indexes document.memberships [] []) _
            (collect_memberships-safe roles document.memberships [] [])
            λ granted. ground (
              arith,
              reject_membership_cycles-safe roles (sort_by by_member granted),
              collect_owners-safe indexes document.table_owners [],
              collect_schema_grants-safe indexes document.schema_grants [],
              collect_table_grants-safe indexes document.table_grants [],
            )

from_json_panics :
    (from_str : Name → Option RoleConfigDocument) (raw : Name)
    → is_panicked (from_json from_str raw) ≡ false
unfolding from_json
from_json_panics from_str raw =
    >>=-safe (reject (ltb max_role_config_bytes (utf8_len raw)) too_large) _ (ground arith) λ _.
      >>=-safe (parsed_document (from_str raw)) _ (ground arith)
        λ document. catalog_of-safe document

-- Reading a configuration never indexes the roles out of range, whatever the parser returns.
pub from_json-safe :
    (from_str : Name → Option RoleConfigDocument) (raw : Name)
    → from_json from_str raw ≢ err panicked
unfolding from_json
from_json-safe from_str raw h = absurd (cc (from_json_panics from_str raw, ap is_panicked h))
