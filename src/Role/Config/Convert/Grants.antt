-- ===== src/Role/Config/Convert/Grants.antt =====
-- What the loops over grants make sure of (`TryFrom<RoleConfigDocument>` of
-- crates/quackgis-server/src/role.rs).
use quackgis.Base.{
  unseen, ℕ, ◌≡◌, refl, inl, inr, Bool, true, not, ◌&&◌, List, [], ◌∷◌, map, Option, none, some, ok,
  arith, codes, contains, all, Eq, nat_Eq, list_Eq, pair_Eq, option_Eq, >>=-eq-ok, reject-then,
  returned, Bool-cases,
}
use quackgis.Role.Model.{
  Name, name_eq, SchemaGrant, TableGrant, schema_privilege_Eq, table_privilege_Eq,
}
use quackgis.Role.Config.{SchemaGrantConfig, TableGrantConfig}
use quackgis.Role.Config.Names.{
  known_role, normalize_grantee, normalize_schema, normalize_table, unique_from, nonempty_unique,
  is_empty, is_main, table_of_path, split_at, is_bad_table,
}
use quackgis.Role.Config.Convert.{
  schema_privilege_of, table_privilege_of, collect_schema_grants, collect_table_grants,
}
use quackgis.Role.Config.Convert.Entries.{is_known, known_role-eq-ok}

abbrev pub schema_grant_key : SchemaGrant → Name × Option Name
schema_grant_key g = (g.schema, g.role)

abbrev pub table_grant_key : TableGrant → Name × (Name × Option Name)
table_grant_key g = (g.schema, (g.table, g.role))

-- PUBLIC, or a role of the configuration
abbrev pub is_grantee : List (Name × ℕ) → Option Name → Bool
is_grantee indexes none = true
is_grantee indexes (some role) = is_known indexes role

normalize_grantee-eq-ok :
    (indexes : List (Name × ℕ)) (name : Name) {role : Option Name}
    → normalize_grantee indexes name ≡ ok role
    → is_grantee indexes role ≡ true
unfolding normalize_grantee
normalize_grantee-eq-ok indexes name h = elim (Bool-cases (name_eq name (codes "PUBLIC"))) [
  | inl public ↦ returned (λ r. is_grantee indexes r ≡ true) none (rw public at h) refl
  | inr named ↦
      let (role, known, h1) = >>=-eq-ok (known_role indexes name) _ (rw named at h) in
      returned (λ r. is_grantee indexes r ≡ true) (some role) h1
        (known_role-eq-ok indexes name known)
]

module _ {T : Type 0} ⦃e : Eq T⦄ where
  abbrev pub is_privileges : List T → Bool
  is_privileges privileges = not (is_empty privileges) && unseen [] privileges

  unique_from-unseen :
      (seen values : List T) {result : List T}
      → unique_from seen values ≡ ok result
      → unseen seen result ≡ true
  unique_from-unseen seen [] h = returned (λ r. unseen seen r ≡ true) [] h refl
  unique_from-unseen seen (value ∷ values) h =
      let (new, h1) = reject-then (contains seen value) _ _ h in
      let (rest, later, h2) = >>=-eq-ok (unique_from (value ∷ seen) values) _ h1 in
      returned (λ r. unseen seen r ≡ true) (value ∷ rest) h2
        (ground (arith, new, unique_from-unseen (value ∷ seen) values later))

  nonempty_unique-eq-ok :
      (values : List T) {result : List T}
      → nonempty_unique values ≡ ok result
      → is_privileges result ≡ true
  unfolding nonempty_unique
  nonempty_unique-eq-ok values h =
      let (result, unique, h1) = >>=-eq-ok (unique_from [] values) _ h in
      let (nonempty, h2) = reject-then (is_empty result) _ _ h1 in
      returned (λ r. is_privileges r ≡ true) result h2
        (ground (arith, nonempty, unique_from-unseen [] values unique))

normalize_schema-eq-ok :
    (raw : Name) {schema : Name}
    → normalize_schema raw ≡ ok schema
    → name_eq schema (codes "main") ≡ true
unfolding normalize_schema
normalize_schema-eq-ok raw h = elim (Bool-cases (is_main raw)) [
  | inl main ↦ returned (λ s. name_eq s (codes "main") ≡ true) (codes "main") (rw main at h) refl
  | inr other ↦ absurd (cc (rw other at h))
]

abbrev pub is_main_table : Name → Name → Bool
is_main_table schema table = name_eq schema (codes "main") && not (is_bad_table table)

pub normalize_table-eq-ok :
    (raw : Name) {path : Name × Name}
    → normalize_table raw ≡ ok path
    → is_main_table path.0 path.1 ≡ true
unfolding normalize_table
normalize_table-eq-ok raw h =
    let (table, parsed, h1) = >>=-eq-ok (table_of_path (split_at b'.' raw)) _ h in
    let (good, h2) = reject-then (is_bad_table table) _ _ h1 in
    returned (λ p. is_main_table p.0 p.1 ≡ true) (codes "main", table) h2 (ground (arith, good))

abbrev pub is_schema_grant : List (Name × ℕ) → SchemaGrant → Bool
is_schema_grant indexes g =
    is_grantee indexes g.role && (name_eq g.schema (codes "main") && is_privileges g.privileges)

pub record SchemaGrantsChecked (indexes : List (Name × ℕ)) (keys : List (Name × Option Name))
    (grants : List SchemaGrant) : Type 0 where
  pub valid : all (is_schema_grant indexes) grants ≡ true
  pub keys_unseen : unseen keys (map schema_grant_key grants) ≡ true

pub collect_schema_grants-SchemaGrantsChecked :
    (indexes : List (Name × ℕ)) (cs : List SchemaGrantConfig) (keys : List (Name × Option Name))
    {grants : List SchemaGrant}
    → collect_schema_grants indexes cs keys ≡ ok grants
    → SchemaGrantsChecked indexes keys grants
unfolding collect_schema_grants
collect_schema_grants-SchemaGrantsChecked indexes [] keys h =
    returned (SchemaGrantsChecked indexes keys) [] h (record { valid = refl; keys_unseen = refl })
collect_schema_grants-SchemaGrantsChecked indexes (c ∷ cs) keys h =
    let (role, known, h1) = >>=-eq-ok (normalize_grantee indexes c.role) _ h in
    let (schema, main, h2) = >>=-eq-ok (normalize_schema c.schema) _ h1 in
    let (privileges, unique, h3) =
      >>=-eq-ok (nonempty_unique (map schema_privilege_of c.privileges)) _ h2 in
    let (key_new, h4) = reject-then (contains keys (schema, role)) _ _ h3 in
    let (rest, later, h5) =
      >>=-eq-ok (collect_schema_grants indexes cs ((schema, role) ∷ keys)) _ h4 in
    let r = collect_schema_grants-SchemaGrantsChecked indexes cs ((schema, role) ∷ keys) later in
    returned (SchemaGrantsChecked indexes keys) (_ ∷ rest) h5 (record {
      valid = ground (
        arith,
        normalize_grantee-eq-ok indexes c.role known,
        normalize_schema-eq-ok c.schema main,
        nonempty_unique-eq-ok (map schema_privilege_of c.privileges) unique,
        r.valid,
      );
      keys_unseen = ground (arith, key_new, r.keys_unseen);
    })

abbrev pub is_table_grant : List (Name × ℕ) → TableGrant → Bool
is_table_grant indexes g =
    is_grantee indexes g.role && (is_main_table g.schema g.table && is_privileges g.privileges)

pub record TableGrantsChecked (indexes : List (Name × ℕ))
    (keys : List (Name × (Name × Option Name))) (grants : List TableGrant) : Type 0 where
  pub valid : all (is_table_grant indexes) grants ≡ true
  pub keys_unseen : unseen keys (map table_grant_key grants) ≡ true

pub collect_table_grants-TableGrantsChecked :
    (indexes : List (Name × ℕ)) (cs : List TableGrantConfig)
    (keys : List (Name × (Name × Option Name))) {grants : List TableGrant}
    → collect_table_grants indexes cs keys ≡ ok grants
    → TableGrantsChecked indexes keys grants
unfolding collect_table_grants
collect_table_grants-TableGrantsChecked indexes [] keys h =
    returned (TableGrantsChecked indexes keys) [] h (record { valid = refl; keys_unseen = refl })
collect_table_grants-TableGrantsChecked indexes (c ∷ cs) keys h =
    let (role, known, h1) = >>=-eq-ok (normalize_grantee indexes c.role) _ h in
    let (path, named, h2) = >>=-eq-ok (normalize_table c.table) _ h1 in
    let (privileges, unique, h3) =
      >>=-eq-ok (nonempty_unique (map table_privilege_of c.privileges)) _ h2 in
    let (key_new, h4) = reject-then (contains keys (path.0, (path.1, role))) _ _ h3 in
    let (rest, later, h5) =
      >>=-eq-ok (collect_table_grants indexes cs ((path.0, (path.1, role)) ∷ keys)) _ h4 in
    let r =
      collect_table_grants-TableGrantsChecked indexes cs ((path.0, (path.1, role)) ∷ keys) later in
    returned (TableGrantsChecked indexes keys) (_ ∷ rest) h5 (record {
      valid = ground (
        arith,
        normalize_grantee-eq-ok indexes c.role known,
        normalize_table-eq-ok c.table named,
        nonempty_unique-eq-ok (map table_privilege_of c.privileges) unique,
        r.valid,
      );
      keys_unseen = ground (arith, key_new, r.keys_unseen);
    })
