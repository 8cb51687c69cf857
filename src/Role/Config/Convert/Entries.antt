-- ===== src/Role/Config/Convert/Entries.antt =====
-- What each loop of the conversion makes sure of (`TryFrom<RoleConfigDocument>` of
-- crates/quackgis-server/src/role.rs).
use quackgis.Base.{
  unseen, ℕ, ◌≡◌, refl, inl, inr, Bool, true, false, not, ◌&&◌, ◌||◌, List, [], ◌∷◌, map, Result,
  ok, err, ◌==◌, arith, contains, all, nat_Eq, list_Eq, pair_Eq, option_Eq, >>=-eq-ok, reject-then,
  returned, Bool-cases,
}
use quackgis.Role.Model.{
  Name, name_eq, Role, RoleMembership, TableOwner, schema_privilege_Eq, table_privilege_Eq,
}
use quackgis.Role.Catalog.{map_get, is_some}
use quackgis.Role.Config.{RoleConfig, MembershipConfig, TableOwnerConfig}
use quackgis.Role.Config.Names.{validate_role_name, known_role, normalize_table}
use quackgis.Role.Config.Convert.{
  is_reserved_oid, role_of, inherit_option_of, collect_roles, collect_memberships, collect_owners,
}

-- the keys of the entries
abbrev pub role_name : Role → Name
role_name r = r.name

abbrev pub role_oid : Role → ℕ
role_oid r = r.oid

abbrev pub membership_oid : RoleMembership → ℕ
membership_oid m = m.oid

abbrev pub membership_key : RoleMembership → Name × Name
membership_key m = (m.member, m.role)

abbrev pub owner_key : TableOwner → Name × Name
owner_key o = (o.schema, o.table)

abbrev pub is_ok : {E : Type 0} {A : Type 0} → Result E A → Bool
is_ok (err e) = false
is_ok (ok a) = true

abbrev pub is_valid_role : Role → Bool
is_valid_role r = is_ok (validate_role_name r.name) && not (is_reserved_oid r.oid)

pub record RolesChecked (names : List Name) (oids : List ℕ) (roles : List Role) : Type 0 where
  pub valid : all is_valid_role roles ≡ true
  pub names_unseen : unseen names (map role_name roles) ≡ true
  pub oids_unseen : unseen oids (map role_oid roles) ≡ true

pub collect_roles-RolesChecked :
    (cs : List RoleConfig) (names : List Name) (oids : List ℕ) {roles : List Role}
    → collect_roles cs names oids ≡ ok roles
    → RolesChecked names oids roles
unfolding collect_roles
collect_roles-RolesChecked [] names oids h =
    returned (RolesChecked names oids) [] h
      (record { valid = refl; names_unseen = refl; oids_unseen = refl })
collect_roles-RolesChecked (c ∷ cs) names oids h =
    let (_, name_valid, h1) = >>=-eq-ok (validate_role_name c.name) _ h in
    let (name_new, h2) = reject-then (contains names c.name) _ _ h1 in
    let (oid_valid, h3) = reject-then (is_reserved_oid c.oid) _ _ h2 in
    let (oid_new, h4) = reject-then (contains oids c.oid) _ _ h3 in
    let (rest, later, h5) = >>=-eq-ok (collect_roles cs (c.name ∷ names) (c.oid ∷ oids)) _ h4 in
    let r = collect_roles-RolesChecked cs (c.name ∷ names) (c.oid ∷ oids) later in
    returned (RolesChecked names oids) (role_of c ∷ rest) h5 (record {
      valid = ground (arith, name_valid, oid_valid, r.valid);
      names_unseen = ground (arith, name_new, r.names_unseen);
      oids_unseen = ground (arith, oid_new, r.oids_unseen);
    })

abbrev pub is_known : List (Name × ℕ) → Name → Bool
is_known indexes name = is_some (map_get indexes name)

pub known_role-eq-ok :
    (indexes : List (Name × ℕ)) (name : Name) {role : Name}
    → known_role indexes name ≡ ok role
    → is_known indexes role ≡ true
unfolding known_role
known_role-eq-ok indexes name h = elim (Bool-cases (is_known indexes name)) [
  | inl known ↦ returned (λ r. is_known indexes r ≡ true) name (rw known at h) known
  | inr unknown ↦ absurd (cc (rw unknown at h))
]

abbrev pub is_granted : List (Name × ℕ) → RoleMembership → Bool
is_granted indexes m =
    is_known indexes m.role
    && (is_known indexes m.member
        && (not (name_eq m.role m.member) && (not m.admin_option && not (m.oid == 0))))

pub record MembershipsChecked (indexes : List (Name × ℕ)) (oids : List ℕ)
    (keys : List (Name × Name)) (memberships : List RoleMembership) : Type 0 where
  pub valid : all (is_granted indexes) memberships ≡ true
  pub oids_unseen : unseen oids (map membership_oid memberships) ≡ true
  pub keys_unseen : unseen keys (map membership_key memberships) ≡ true

pub collect_memberships-MembershipsChecked :
    (roles : List Role) (indexes : List (Name × ℕ)) (cs : List MembershipConfig) (oids : List ℕ)
    (keys : List (Name × Name)) {memberships : List RoleMembership}
    → collect_memberships roles indexes cs oids keys ≡ ok memberships
    → MembershipsChecked indexes oids keys memberships
unfolding collect_memberships
collect_memberships-MembershipsChecked roles indexes [] oids keys h =
    returned (MembershipsChecked indexes oids keys) [] h
      (record { valid = refl; oids_unseen = refl; keys_unseen = refl })
collect_memberships-MembershipsChecked roles indexes (c ∷ cs) oids keys h =
    let (role, role_known, h1) = >>=-eq-ok (known_role indexes c.role) _ h in
    let (member, member_known, h2) = >>=-eq-ok (known_role indexes c.member) _ h1 in
    let (other, h3) = reject-then (name_eq role member) _ _ h2 in
    let (plain, h4) = reject-then c.admin_option _ _ h3 in
    let (oid_new, h5) = reject-then (c.oid == 0 || contains oids c.oid) _ _ h4 in
    let (key_new, h6) = reject-then (contains keys (member, role)) _ _ h5 in
    let (inherit, inherited, h7) =
      >>=-eq-ok (inherit_option_of roles indexes member c.inherit_option) _ h6 in
    let (rest, later, h8) =
      >>=-eq-ok (collect_memberships roles indexes cs (c.oid ∷ oids) ((member, role) ∷ keys)) _
        h7 in
    let r =
      collect_memberships-MembershipsChecked roles indexes cs (c.oid ∷ oids) ((member, role) ∷ keys)
        later in
    returned (MembershipsChecked indexes oids keys) (_ ∷ rest) h8 (record {
      valid = ground (
        arith,
        known_role-eq-ok indexes c.role role_known,
        known_role-eq-ok indexes c.member member_known,
        other,
        oid_new,
        r.valid,
      );
      oids_unseen = ground (arith, oid_new, r.oids_unseen);
      keys_unseen = ground (arith, key_new, r.keys_unseen);
    })

pub record OwnersChecked (indexes : List (Name × ℕ)) (keys : List (Name × Name))
    (owners : List TableOwner) : Type 0 where
  pub valid : all (λ o. is_known indexes o.role) owners ≡ true
  pub keys_unseen : unseen keys (map owner_key owners) ≡ true

pub collect_owners-OwnersChecked :
    (indexes : List (Name × ℕ)) (cs : List TableOwnerConfig) (keys : List (Name × Name))
    {owners : List TableOwner}
    → collect_owners indexes cs keys ≡ ok owners
    → OwnersChecked indexes keys owners
unfolding collect_owners
collect_owners-OwnersChecked indexes [] keys h =
    returned (OwnersChecked indexes keys) [] h (record { valid = refl; keys_unseen = refl })
collect_owners-OwnersChecked indexes (c ∷ cs) keys h =
    let (role, known, h1) = >>=-eq-ok (known_role indexes c.role) _ h in
    let (path, named, h2) = >>=-eq-ok (normalize_table c.table) _ h1 in
    let (key_new, h3) = reject-then (contains keys path) _ _ h2 in
    let (rest, later, h4) = >>=-eq-ok (collect_owners indexes cs (path ∷ keys)) _ h3 in
    let r = collect_owners-OwnersChecked indexes cs (path ∷ keys) later in
    returned (OwnersChecked indexes keys) (_ ∷ rest) h4 (record {
      valid = ground (arith, known_role-eq-ok indexes c.role known, r.valid);
      keys_unseen = ground (arith, key_new, r.keys_unseen);
    })
