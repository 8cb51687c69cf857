-- ===== src/Role/Config/Convert/Lookup.antt =====
-- The index of a catalog finds each role by its name (`TryFrom<RoleConfigDocument>` of crates/quackgis-server/src/role.rs).
use quackgis.Base.{
  ℕ, suc, ◌+◌, ◌≡◌, refl, inl, inr, ap, true, List, [], ◌∷◌, map, some, ok, arith, contains,
  get_elem?, nat_Eq, list_Eq, pair_Eq, option_Eq, Bool-cases,
}
use quackgis.Role.Model.{Name, name_eq, Role, RoleCatalog, schema_privilege_Eq, table_privilege_Eq}
use quackgis.Role.Catalog.{map_get, is_some, knows, role}
use quackgis.Role.Config.{RoleConfigDocument}
use quackgis.Role.Config.Convert.{indexes_from, catalog_of}
use quackgis.Role.Config.Convert.Entries.{role_name}
use quackgis.Role.Config.Convert.WellFormed.{IsWellFormed, catalog_of-IsWellFormed}

-- The entry of a name in the index, and the role at it.
pub record Found (i : ℕ) (roles : List Role) (name : Name) : Type 0 where
  pub place : ℕ
  pub indexed : map_get (indexes_from i roles) name ≡ some (i + place)
  pub role : Role
  pub there : get_elem? roles place ≡ some role
  pub named : name_eq role.name name ≡ true

pub indexes_from-Found :
    (i : ℕ) (roles : List Role) (name : Name)
    → contains (map role_name roles) name ≡ true
    → Found i roles name
indexes_from-Found i [] name h = absurd (cc h)
indexes_from-Found i (r ∷ rs) name h = elim (Bool-cases (name_eq r.name name)) [
  | inl same ↦ record {
    place = 0;
    indexed = rw same (ap some (omega arith));
    role = r;
    there = refl;
    named = same;
  }
  | inr other ↦
      let f = indexes_from-Found (suc i) rs name (rw other at h) in
      record {
        place = suc f.place;
        indexed = rw (other, f.indexed) (ap some (omega arith));
        role = f.role;
        there = f.there;
        named = f.named;
      }
]

pub map_get-indexes_from :
    (i : ℕ) (roles : List Role) (name : Name)
    → is_some (map_get (indexes_from i roles) name) ≡ contains (map role_name roles) name
map_get-indexes_from i [] name = refl
map_get-indexes_from i (r ∷ rs) name = ground (arith, map_get-indexes_from (suc i) rs name)

indexed-declared :
    (c : RoleCatalog) (name : Name)
    → IsWellFormed c
    → knows c name ≡ contains (map role_name c.roles) name
unfolding role
indexed-declared c name w = elim (Bool-cases (contains (map role_name c.roles) name)) [
  | inl declared ↦
      let f = indexes_from-Found 0 c.roles name declared in
      rw (w.indexed, f.indexed) (ground (arith, f.there, declared))
  | inr undeclared ↦ ground (arith, w.indexed, map_get-indexes_from 0 c.roles name)
]

-- In the catalog of an accepted configuration, a name is known exactly when a role declares it.
pub knows-declared :
    (document : RoleConfigDocument) {c : RoleCatalog} (name : Name)
    → catalog_of document ≡ ok c
    → knows c name ≡ contains (map role_name c.roles) name
knows-declared document {c} name h = indexed-declared c name (catalog_of-IsWellFormed document h)
