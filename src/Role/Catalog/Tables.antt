-- ===== src/Role/Catalog/Tables.antt =====
-- Privileges on tables and schemas against owners, grants and chains of memberships
-- (`has_schema_privilege`, `has_table_privilege` and `allows_table_operation` of
-- crates/quackgis-server/src/role.rs).
use quackgis.Base.{
  ◌≡◌, ◌↔◌, inl, inr, refl, true, false, Option, none, some, arith, nat_Eq, list_Eq, contains, any,
  any_sound, any_complete, Bool-cases, Memᴰ,
}
use quackgis.Role.Model.{
  Name, eq_ignore_ascii_case, RolePrivilege, RoleCatalog, TableOwner, TableGrant, TablePrivilege,
  schema_privilege_Eq, table_privilege_Eq,
}
use quackgis.Role.Catalog.{
  knows, inherited_roles, is_public, reaches_grantee, owns, grants, has_table_privilege,
  names_table,
}
use quackgis.Role.Catalog.Roles.{Holds, inherited_roles_iff}

abbrev pub Inherits : RoleCatalog → Name → Name → Type 0
Inherits c = Holds c RolePrivilege.usage

-- A grant to PUBLIC reaches every role; another reaches the roles that inherit its grantee.
pub data ReachesGrantee (c : RoleCatalog) (name : Name) (grantee : Option Name) : Type 0 where
  everyone : grantee ≡ none → ReachesGrantee c name grantee
  inherited : (g : Name) → grantee ≡ some g → Inherits c name g → ReachesGrantee c name grantee

-- Why a configured role has a privilege on a table: it inherits the owner, or a grant reaches it.
pub data HasTable (c : RoleCatalog) (name schema table : Name) (privilege : TablePrivilege)
    : Type 0 where
  owner :
      (o : TableOwner)
      → Memᴰ o c.table_owners
      → names_table schema table o ≡ true
      → Inherits c name o.role
      → HasTable c name schema table privilege
  granted :
      (g : TableGrant)
      → Memᴰ g c.table_grants
      → eq_ignore_ascii_case g.schema schema ≡ true
      → eq_ignore_ascii_case g.table table ≡ true
      → contains g.privileges privilege ≡ true
      → ReachesGrantee c name g.role
      → HasTable c name schema table privilege

module _ (c : RoleCatalog) (name : Name) (known : knows c name ≡ true) where
  pub grantee_sound :
      (g : Option Name)
      → reaches_grantee false (inherited_roles c name) g ≡ true
      → ReachesGrantee c name g
  grantee_sound none h = everyone refl
  grantee_sound (some g) h = inherited g refl ((inherited_roles_iff c name g known).0 h)

  pub grantee_complete :
      {g : Option Name}
      → ReachesGrantee c name g
      → reaches_grantee false (inherited_roles c name) g ≡ true
  grantee_complete (everyone e) = rw e
  grantee_complete (inherited g e r) = rw e ((inherited_roles_iff c name g known).1 r)

  pub HasTable-sound :
      (schema table : Name) (privilege : TablePrivilege)
      → is_public name ≡ false
      → has_table_privilege c name schema table privilege ≡ true
      → HasTable c name schema table privilege
  unfolding has_table_privilege
  HasTable-sound schema table privilege private h =
      elim (Bool-cases (any (owns (inherited_roles c name) schema table) c.table_owners)) [
        | inl owned ↦
            let (o, m, p) =
              any_sound (owns (inherited_roles c name) schema table) c.table_owners owned in
            owner o m (ground (arith, p))
              ((inherited_roles_iff c name o.role known).0 (ground (arith, p)))
        | inr other ↦
            let (g, m, p) =
              any_sound (grants false (inherited_roles c name) schema table privilege)
                c.table_grants (ground arith) in
            granted g m (ground (arith, p)) (ground (arith, p)) (ground (arith, p))
              (grantee_sound g.role (ground (arith, p)))
      ]

  pub HasTable-complete :
      (schema table : Name) (privilege : TablePrivilege)
      → is_public name ≡ false
      → HasTable c name schema table privilege
      → has_table_privilege c name schema table privilege ≡ true
  unfolding has_table_privilege
  HasTable-complete schema table privilege private (owner o m n r) = ground (
    arith,
    any_complete (owns (inherited_roles c name) schema table) m
        (rw (n, (inherited_roles_iff c name o.role known).1 r)),
  )
  HasTable-complete schema table privilege private (granted g m s t p r) = ground (
    arith,
    any_complete (grants false (inherited_roles c name) schema table privilege) m
        (rw (s, t, p, grantee_complete r)),
  )

  -- A configured role other than PUBLIC has a privilege on a table exactly when it inherits the
  -- table's owner, or a grant of the privilege on the table reaches it.
  pub has_table_privilege_iff :
      (schema table : Name) (privilege : TablePrivilege)
      → is_public name ≡ false
      → (has_table_privilege c name schema table privilege ≡ true)
        ↔ HasTable c name schema table privilege
  has_table_privilege_iff schema table privilege private = (
    HasTable-sound schema table privilege private,
    HasTable-complete schema table privilege private,
  )
