-- ===== src/Role/Config/Convert/WellFormed.antt =====
-- A configuration that is accepted makes a well-formed catalog (`TryFrom<RoleConfigDocument>` of
-- crates/quackgis-server/src/role.rs).
use quackgis.Base.{
  unseen-IsDistinct, ◌≡◌, refl, true, false, [], map, ok, arith, all, IsDistinct, nat_Eq, list_Eq,
  pair_Eq, option_Eq, >>=-eq-ok, reject-then, returned, sort_by, IsSorted, all-sort_by,
  sort_by-IsDistinct, sort_by-IsSorted,
}
use quackgis.Role.Model.{Role, RoleCatalog}
use quackgis.Role.Config.{RoleConfigDocument}
use quackgis.Role.Config.Names.{is_empty}
use quackgis.Role.Config.Cycles.{reject_membership_cycles}
use quackgis.Role.Config.Cycles.Acyclic.{IsAcyclic, accepted-IsAcyclic}
use quackgis.Role.Config.Convert.{
  collect_roles, by_oid, indexes_from, collect_memberships, by_member, collect_owners, by_table,
  collect_schema_grants, by_schema, collect_table_grants, by_grant, catalog_of,
}
use quackgis.Role.Config.Convert.Entries.{
  role_name, role_oid, membership_oid, membership_key, owner_key, is_valid_role, is_known,
  is_granted, collect_roles-RolesChecked, collect_memberships-MembershipsChecked,
  collect_owners-OwnersChecked,
}
use quackgis.Role.Config.Convert.Grants.{
  schema_grant_key, table_grant_key, is_schema_grant, is_table_grant,
  collect_schema_grants-SchemaGrantsChecked, collect_table_grants-TableGrantsChecked,
}

-- Each name and OID is valid and is used once, each reference is to a role of the catalog, no two
-- entries have one key, the memberships have no cycle, and the roles stand in the order of OIDs.
pub record IsWellFormed (c : RoleCatalog) : Type 0 where
  pub roles_valid : all is_valid_role c.roles ≡ true
  pub names_distinct : IsDistinct (map role_name c.roles)
  pub oids_distinct : IsDistinct (map role_oid c.roles)
  pub roles_sorted : IsSorted by_oid c.roles
  pub memberships_valid : all (is_granted c.role_indexes) c.memberships ≡ true
  pub membership_oids_distinct : IsDistinct (map membership_oid c.memberships)
  pub memberships_distinct : IsDistinct (map membership_key c.memberships)
  pub acyclic : IsAcyclic c.memberships c.roles
  pub owners_known : all (λ o. is_known c.role_indexes o.role) c.table_owners ≡ true
  pub owners_distinct : IsDistinct (map owner_key c.table_owners)
  pub schema_grants_valid : all (is_schema_grant c.role_indexes) c.schema_grants ≡ true
  pub schema_grants_distinct : IsDistinct (map schema_grant_key c.schema_grants)
  pub table_grants_valid : all (is_table_grant c.role_indexes) c.table_grants ≡ true
  pub table_grants_distinct : IsDistinct (map table_grant_key c.table_grants)
  pub indexed : c.role_indexes ≡ indexes_from 0 c.roles

by_oid_asymmetric : (a b : Role) → by_oid a b ≡ true → by_oid b a ≡ false
by_oid_asymmetric a b h = ground arith

-- A configuration that is accepted makes a well-formed catalog.
pub catalog_of-IsWellFormed :
    (document : RoleConfigDocument) {c : RoleCatalog} → catalog_of document ≡ ok c → IsWellFormed c
unfolding catalog_of
catalog_of-IsWellFormed document h =
    let (nonempty, h1) = reject-then (is_empty document.roles) _ _ h in
    let (configured, roles_ok, h2) = >>=-eq-ok (collect_roles document.roles [] []) _ h1 in
    let roles = sort_by by_oid configured in
    let indexes = indexes_from 0 roles in
    let (granted, granted_ok, h3) =
      >>=-eq-ok (collect_memberships roles indexes document.memberships [] []) _ h2 in
    let memberships = sort_by by_member granted in
    let (u, no_cycle, h4) = >>=-eq-ok (reject_membership_cycles roles memberships) _ h3 in
    let (owners, owners_ok, h5) =
      >>=-eq-ok (collect_owners indexes document.table_owners []) _ h4 in
    let (schema_grants, schema_ok, h6) =
      >>=-eq-ok (collect_schema_grants indexes document.schema_grants []) _ h5 in
    let (table_grants, table_ok, h7) =
      >>=-eq-ok (collect_table_grants indexes document.table_grants []) _ h6 in
    let r = collect_roles-RolesChecked document.roles [] [] roles_ok in
    let m =
      collect_memberships-MembershipsChecked roles indexes document.memberships [] [] granted_ok in
    let o = collect_owners-OwnersChecked indexes document.table_owners [] owners_ok in
    let s = collect_schema_grants-SchemaGrantsChecked indexes document.schema_grants [] schema_ok in
    let t = collect_table_grants-TableGrantsChecked indexes document.table_grants [] table_ok in
    returned IsWellFormed _ h7 (record {
      roles_valid = rw (all-sort_by by_oid is_valid_role configured) r.valid;
      names_distinct =
          sort_by-IsDistinct role_name by_oid configured
            (unseen-IsDistinct [] (map role_name configured) r.names_unseen);
      oids_distinct =
          sort_by-IsDistinct role_oid by_oid configured
            (unseen-IsDistinct [] (map role_oid configured) r.oids_unseen);
      roles_sorted = sort_by-IsSorted by_oid by_oid_asymmetric configured;
      memberships_valid = rw (all-sort_by by_member (is_granted indexes) granted) m.valid;
      membership_oids_distinct =
          sort_by-IsDistinct membership_oid by_member granted
            (unseen-IsDistinct [] (map membership_oid granted) m.oids_unseen);
      memberships_distinct =
          sort_by-IsDistinct membership_key by_member granted
            (unseen-IsDistinct [] (map membership_key granted) m.keys_unseen);
      acyclic = accepted-IsAcyclic memberships roles no_cycle;
      owners_known = rw (all-sort_by by_table (λ x. is_known indexes x.role) owners) o.valid;
      owners_distinct =
          sort_by-IsDistinct owner_key by_table owners
            (unseen-IsDistinct [] (map owner_key owners) o.keys_unseen);
      schema_grants_valid =
          rw (all-sort_by by_schema (is_schema_grant indexes) schema_grants) s.valid;
      schema_grants_distinct =
          sort_by-IsDistinct schema_grant_key by_schema schema_grants
            (unseen-IsDistinct [] (map schema_grant_key schema_grants) s.keys_unseen);
      table_grants_valid = rw (all-sort_by by_grant (is_table_grant indexes) table_grants) t.valid;
      table_grants_distinct =
          sort_by-IsDistinct table_grant_key by_grant table_grants
            (unseen-IsDistinct [] (map table_grant_key table_grants) t.keys_unseen);
      indexed = refl;
    })
