-- ===== src/Role/Catalog/Inherited.antt =====
-- Members have the privileges of the roles that they inherit, and PUBLIC has what is granted to it
-- (`has_schema_privilege`, `has_table_privilege` and `allows_table_operation` of
-- crates/quackgis-server/src/role.rs).
use quackgis.Base.{
  ◌≡◌, ◌↔◌, true, false, List, Option, none, arith, nat_Eq, list_Eq, contains, any_sound,
  any_complete, Memᴰ, &&-true,
}
use quackgis.Role.Model.{
  Name, eq_ignore_ascii_case, RoleCatalog, TableGrant, TablePrivilege, SchemaPrivilege,
  schema_privilege_Eq, table_privilege_Eq, RolePrivilege,
}
use quackgis.Role.Catalog.{
  knows, inherited_roles, is_public, grants, grants_schema, has_schema_privilege,
  has_table_privilege, allows_table_operation,
}
use quackgis.Role.Catalog.Roles.{Reaches-trans}
use quackgis.Role.Catalog.Tables.{
  Inherits, ReachesGrantee, everyone, inherited, HasTable, owner, granted, grantee_sound,
  grantee_complete, HasTable-sound, HasTable-complete,
}

ReachesGrantee-trans :
    (c : RoleCatalog) {member parent : Name} {g : Option Name}
    → Inherits c member parent
    → ReachesGrantee c parent g
    → ReachesGrantee c member g
ReachesGrantee-trans c p (everyone e) = everyone e
ReachesGrantee-trans c p (inherited g e r) = inherited g e (Reaches-trans c RolePrivilege.usage p r)

HasTable-trans :
    (c : RoleCatalog) {member parent schema table : Name} {privilege : TablePrivilege}
    → Inherits c member parent
    → HasTable c parent schema table privilege
    → HasTable c member schema table privilege
HasTable-trans c p (owner o m n r) = owner o m n (Reaches-trans c RolePrivilege.usage p r)
HasTable-trans c p (granted g m s t q r) = granted g m s t q (ReachesGrantee-trans c p r)

module _ (c : RoleCatalog) (member parent : Name) (member_known : knows c member ≡ true)
    (parent_known : knows c parent ≡ true) (member_private : is_public member ≡ false)
    (parent_private : is_public parent ≡ false) (chain : Inherits c member parent) where
  schema_inherited :
      (schema : Name) (privilege : SchemaPrivilege)
      → has_schema_privilege c parent schema privilege ≡ true
      → has_schema_privilege c member schema privilege ≡ true
  unfolding has_schema_privilege
  schema_inherited schema privilege h =
      let (g, m, p) =
        any_sound (grants_schema false (inherited_roles c parent) schema privilege) c.schema_grants
          (ground arith) in
      let reached = grantee_sound c parent parent_known g.role (ground (arith, p)) in
      let test = grants_schema false (inherited_roles c member) schema privilege in
      let passes : test g ≡ true =
        ground (
          arith,
          p,
          grantee_complete c member member_known (ReachesGrantee-trans c chain reached),
        ) in
      ground (arith, any_complete test m passes)

  table_inherited :
      (schema table : Name) (privilege : TablePrivilege)
      → has_table_privilege c parent schema table privilege ≡ true
      → has_table_privilege c member schema table privilege ≡ true
  table_inherited schema table privilege h =
      HasTable-complete c member member_known schema table privilege member_private (
        HasTable-trans c chain
          (HasTable-sound c parent parent_known schema table privilege parent_private h))

  -- A configured role may do to a table whatever a configured role that it inherits may do, its
  -- schema included; neither is PUBLIC.
  pub allows_table_operation_inherited :
      (schema table : Name) (privilege : TablePrivilege)
      → allows_table_operation c parent schema table privilege ≡ true
      → allows_table_operation c member schema table privilege ≡ true
  unfolding allows_table_operation
  allows_table_operation_inherited schema table privilege h =
      let both = &&-true (has_schema_privilege c parent schema SchemaPrivilege.usage) _ h in
      rw (schema_inherited schema SchemaPrivilege.usage both.0)
        (table_inherited schema table privilege both.1)

module _ (c : RoleCatalog) (schema table : Name) (privilege : TablePrivilege) where
  -- A grant of the privilege on the table to PUBLIC.
  pub record IsPublicGrant (g : TableGrant) : Type 0 where
    pub listed : Memᴰ g c.table_grants
    pub schema_is : eq_ignore_ascii_case g.schema schema ≡ true
    pub table_is : eq_ignore_ascii_case g.table table ≡ true
    pub holds : contains g.privileges privilege ≡ true
    pub to_public : g.role ≡ none

  public_sound :
      (g : TableGrant) (names : List Name)
      → Memᴰ g c.table_grants
      → grants true names schema table privilege g ≡ true
      → IsPublicGrant g
  public_sound g names m h = record {
    listed = m;
    schema_is = ground arith;
    table_is = ground arith;
    holds = ground arith;
    to_public = ground arith;
  }

  -- PUBLIC has a privilege on a table exactly by a grant to PUBLIC; an owner gives it nothing.
  pub has_table_privilege_public :
      (name : Name)
      → is_public name ≡ true
      → (has_table_privilege c name schema table privilege ≡ true)
        ↔ ((g : TableGrant) × IsPublicGrant g)
  unfolding has_table_privilege
  has_table_privilege_public name public =
      let test = grants true (inherited_roles c name) schema table privilege in
      rw public (
        λ h.
            let (g, m, p) = any_sound test c.table_grants h in
            (g, public_sound g (inherited_roles c name) m p),
        λ (g, v). any_complete test v.listed (rw (v.schema_is, v.table_is, v.holds, v.to_public)),
      )
