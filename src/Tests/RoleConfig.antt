-- ===== src/Tests/RoleConfig.antt =====
-- Runs of the role configuration, and the theorems about it at a concrete document.
use quackgis.Base.{
  ℕ, ◌≡◌, ◌≢◌, ◌↔◌, refl, Bool, true, false, List, [], ◌∷◌, none, some, ok, err, codes, nat_Eq,
  list_Eq,
}
use quackgis.Role.Model.{
  Name, Role, RoleMembership, RoleCatalog, SchemaPrivilege, TablePrivilege, schema_privilege_Eq,
  table_privilege_Eq, eq_ignore_ascii_case,
}
use quackgis.Role.Worklist.{search_fuel}
use quackgis.Role.Config.{
  RoleConfig, MembershipConfig, SchemaPrivilegeConfig, TablePrivilegeConfig, RoleConfigDocument,
  Configured, membership_cycle, panicked,
}
use quackgis.Role.Config.Cycles.{
  has_cycle, visit_granted, stack, cycle_loop, from_role, reject_membership_cycles,
}
use quackgis.Role.Config.Cycles.Acyclic.{
  IsAcyclic, Decides, cycle_loop_ends, reject_membership_cycles_iff,
}
use quackgis.Role.Config.Convert.{
  catalog_of, from_json, collect_roles, collect_memberships, collect_owners, collect_schema_grants,
  collect_table_grants,
}
use quackgis.Role.Config.Names.{
  validate_role_name, known_role, normalize_grantee, normalize_schema, normalize_table,
  nonempty_unique,
}
use quackgis.Role.Config.Convert.WellFormed.{IsWellFormed, catalog_of-IsWellFormed}
use quackgis.Role.Config.Convert.Safe.{from_json-safe}

abbrev reader : RoleConfig
reader = record { oid = 103; name = codes "reader"; login = false; inherit = true }

abbrev analyst : RoleConfig
analyst = record { oid = 102; name = codes "analyst"; login = true; inherit = false }

abbrev joins : Name → Name → ℕ → MembershipConfig
joins member role oid = record {
  oid = oid;
  role = role;
  member = member;
  inherit_option = none;
  set_option = true;
  admin_option = false;
}

abbrev document : List MembershipConfig → RoleConfigDocument
document memberships = record {
  roles = reader ∷ analyst ∷ [];
  memberships = memberships;
  table_owners = record { table = codes "public.roads"; role = codes "analyst" } ∷ [];
  schema_grants =
      record {
        schema = codes "public";
        role = codes "PUBLIC";
        privileges = SchemaPrivilegeConfig.usage ∷ [];
      }
      ∷ [];
  table_grants =
      record {
        table = codes "roads";
        role = codes "reader";
        privileges = TablePrivilegeConfig.select ∷ TablePrivilegeConfig.insert ∷ [];
      }
      ∷ [];
}

abbrev accepted : Configured RoleCatalog → Bool
accepted (ok c) = true
accepted (err e) = false

abbrev granted : MembershipConfig
granted = joins (codes "analyst") (codes "reader") 201

abbrev granted_back : MembershipConfig
granted_back = joins (codes "reader") (codes "analyst") 202

-- the catalog that the document makes
abbrev made : RoleCatalog
made = record {
  roles =
      record { oid = 102; name = codes "analyst"; login = true; inherit = false }
      ∷ record { oid = 103; name = codes "reader"; login = false; inherit = true }
      ∷ [];
  memberships =
      record {
        oid = 201;
        role = codes "reader";
        member = codes "analyst";
        inherit_option = false;
        set_option = true;
        admin_option = false;
      }
      ∷ [];
  table_owners =
      record { schema = codes "main"; table = codes "roads"; role = codes "analyst" } ∷ [];
  schema_grants =
      record { schema = codes "main"; role = none; privileges = SchemaPrivilege.usage ∷ [] } ∷ [];
  table_grants =
      record {
        schema = codes "main";
        table = codes "roads";
        role = some (codes "reader");
        privileges = TablePrivilege.select ∷ TablePrivilege.insert ∷ [];
      }
      ∷ [];
  role_indexes = (codes "analyst", 0) ∷ (codes "reader", 1) ∷ [];
}

makes : catalog_of (document (granted ∷ [])) ≡ ok made
unfolding catalog_of collect_roles collect_memberships collect_owners collect_schema_grants
    collect_table_grants validate_role_name known_role normalize_grantee normalize_schema
    normalize_table nonempty_unique reject_membership_cycles has_cycle cycle_loop visit_granted
    stack eq_ignore_ascii_case
makes = refl

refuses_cycle : catalog_of (document (granted ∷ granted_back ∷ [])) ≡ err membership_cycle
unfolding catalog_of collect_roles collect_memberships validate_role_name known_role
    reject_membership_cycles has_cycle cycle_loop visit_granted stack
refuses_cycle = refl

catalog_of-IsWellFormed_example : IsWellFormed made
catalog_of-IsWellFormed_example = catalog_of-IsWellFormed (document (granted ∷ [])) makes

from_json-safe_example :
    from_json (λ raw. some (document (granted ∷ []))) (codes "{}") ≢ err panicked
from_json-safe_example = from_json-safe (λ raw. some (document (granted ∷ []))) (codes "{}")

abbrev edge : Name → Name → RoleMembership
edge member role = record {
  oid = 1;
  role = role;
  member = member;
  inherit_option = true;
  set_option = true;
  admin_option = false;
}

abbrev triangle : List RoleMembership
triangle =
    edge (codes "a") (codes "b") ∷ edge (codes "b") (codes "c") ∷ edge (codes "c") (codes "a") ∷ []

cycle_loop_ends_example :
    Decides triangle
      (codes "a")
      (cycle_loop triangle (codes "a") (search_fuel triangle) (from_role (codes "a")))
cycle_loop_ends_example = cycle_loop_ends triangle (codes "a")

finds_triangle :
    cycle_loop triangle (codes "a") (search_fuel triangle) (from_role (codes "a")) ≡ some true
unfolding cycle_loop visit_granted stack
finds_triangle = refl

abbrev role_a : Role
role_a = record { oid = 11; name = codes "a"; login = true; inherit = true }

reject_membership_cycles_iff_example :
    (reject_membership_cycles (role_a ∷ []) triangle ≡ ok tt) ↔ IsAcyclic triangle (role_a ∷ [])
reject_membership_cycles_iff_example = reject_membership_cycles_iff triangle (role_a ∷ [])
