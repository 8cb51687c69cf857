-- ===== src/Role/Catalog/Roles.antt =====
-- Membership decisions against chains of memberships (`has_role_privilege`, `can_set_role` and
-- `inherited_roles` of crates/quackgis-server/src/role.rs).
use quackgis.Base.{
  ◌≡◌, ◌↔◌, inl, inr, refl, true, arith, nat_Eq, list_Eq, contains, Bool-cases, subst,
}
use quackgis.Role.Model.{Name, name_eq, RolePrivilege, RoleCatalog}
use quackgis.Role.Worklist.{started, search_fuel}
use quackgis.Role.Worklist.Expand.{name_eq→≡}
use quackgis.Role.Worklist.Closure.{
  Reaches, here, next, started-Inv, started_work, closure_loop-IsClosure,
}
use quackgis.Role.Worklist.Search.{search_loop-Decides}
use quackgis.Role.Catalog.{knows, follows, has_role_privilege, inherited_roles}

-- The chains of memberships that a privilege on roles follows.
abbrev pub Holds : RoleCatalog → RolePrivilege → Name → Name → Type 0
Holds c privilege = Reaches (follows privilege) c.memberships

pub Reaches-trans :
    (c : RoleCatalog) (privilege : RolePrivilege) {r s t : Name}
    → Holds c privilege r s
    → Holds c privilege s t
    → Holds c privilege r t
Reaches-trans c privilege p here = p
Reaches-trans c privilege p (next q e) = next (Reaches-trans c privilege p q) e

-- A role has a privilege on another exactly when both are configured and a chain of memberships
-- with that option leads from the first to the second; the chain of no memberships counts.
pub has_role_privilege_iff :
    (c : RoleCatalog) (member target : Name) (privilege : RolePrivilege)
    → (has_role_privilege c member target privilege ≡ true)
      ↔ ((knows c member ≡ true) × (knows c target ≡ true) × Holds c privilege member target)
unfolding has_role_privilege
has_role_privilege_iff c member target privilege = elim (Bool-cases (knows c member)) [
  | inr unknown ↦ (λ h. absurd (ground arith), λ h. cc (h.0))
  | inl from ↦ elim (Bool-cases (knows c target)) [
    | inr unknown ↦ (λ h. absurd (ground arith), λ h. cc (h.1))
    | inl to ↦ elim (Bool-cases (name_eq member target)) [
      | inl same ↦ (
        λ h. (from, to, subst (Holds c privilege member) (name_eq→≡ member target same) here),
        λ h. ground arith,
      )
      | inr other ↦
          let d =
            search_loop-Decides (follows privilege) c.memberships member target
              (search_fuel c.memberships) (started member)
              (started_work (follows privilege) c.memberships member)
              (started-Inv (follows privilege) c.memberships member) (ground arith) in
          rw (from, to, other, d.result) (λ h. (refl, refl, d.reaches.0 h), λ h. d.reaches.1 h.2)
    ]
  ]
]

-- A configured role inherits exactly the roles that a chain of inheriting memberships leads to.
pub inherited_roles_iff :
    (c : RoleCatalog) (name n : Name)
    → knows c name ≡ true
    → (contains (inherited_roles c name) n ≡ true) ↔ Holds c RolePrivilege.usage name n
unfolding inherited_roles
inherited_roles_iff c name n known =
    let d =
      closure_loop-IsClosure (follows RolePrivilege.usage) c.memberships name
        (search_fuel c.memberships) (started name)
        (started_work (follows RolePrivilege.usage) c.memberships name)
        (started-Inv (follows RolePrivilege.usage) c.memberships name) in
    rw known (rw d.result (d.reaches n))
