-- ===== src/Migrate/Config/Valid.antt =====
-- What a validated configuration holds (crates/quackgis-migrate/src/config.rs).
use quackgis.Base.{
  ◌≡◌, refl, Bool, true, false, not, ◌&&◌, List, [], ◌∷◌, map, Option, none, some, ok, arith, all,
  contains, IsDistinct, nat_Eq, list_Eq, pair_Eq, option_Eq, unseen, unseen-IsDistinct, >>=-eq-ok,
  reject-then,
}
use quackgis.Role.Model.{Name, name_eq}
use quackgis.Role.Catalog.{map_get, is_some}
use quackgis.Migrate.Config.{
  TableMapping, GrantMapping, MigrationConfig, is_identifier, table_mapping, validate_sizes,
  validate_schemas, validate_columns, source_key, target_key, validate_tables, validate_roles,
  validate_column_name, is_maintained, target_of, GrantKey, grant_key, validate_grants, validate,
  to_ascii_uppercase,
}

abbrev pub column_target : Name × Name → Name
column_target (source, target) = target

abbrev pub is_valid_mapping : List Name → TableMapping → Bool
is_valid_mapping schemas t =
    contains schemas t.source_schema
    && (is_identifier t.target_table && unseen [] (map column_target t.column_mappings))

abbrev pub maps_to : Option Name → Name → Bool
maps_to none role = false
maps_to (some target) role = name_eq target role

-- A grant of a selected table, from a role to the one that it is mapped to.
abbrev pub is_valid_grant : MigrationConfig → GrantMapping → Bool
is_valid_grant c g =
    maps_to (map_get c.role_mappings g.source_role) g.target_role
    && is_some (table_mapping c g.source_schema g.source_table)

pub record IsValid (c : MigrationConfig) : Type 0 where
  pub mappings : all (is_valid_mapping c.source_schemas) c.tables ≡ true
  pub sources_distinct : IsDistinct (map source_key c.tables)
  pub targets_distinct : IsDistinct (map target_key c.tables)
  pub grants : all (is_valid_grant c) c.grant_mappings ≡ true
  pub grants_distinct : IsDistinct (map grant_key c.grant_mappings)

validate_columns-unseen :
    (seen : List Name) (columns : List (Name × Name)) {u : Unit {0}}
    → validate_columns seen columns ≡ ok u
    → unseen seen (map column_target columns) ≡ true
unfolding validate_columns
validate_columns-unseen seen [] h = refl
validate_columns-unseen seen ((source, target) ∷ columns) h =
    let (_, h1) = reject-then (not (is_identifier source)) _ _ h in
    let (_, h2) = reject-then (not (is_identifier target)) _ _ h1 in
    let (new, h3) = reject-then (contains seen target) _ _ h2 in
    ground (arith, new, validate_columns-unseen (target ∷ seen) columns h3)

record TablesChecked (schemas : List Name) (sources targets : List (Name × Name))
    (tables : List TableMapping) : Type 0 where
  valid : all (is_valid_mapping schemas) tables ≡ true
  sources_unseen : unseen sources (map source_key tables) ≡ true
  targets_unseen : unseen targets (map target_key tables) ≡ true

validate_tables-TablesChecked :
    (schemas : List Name) (sources targets : List (Name × Name)) (tables : List TableMapping)
    {u : Unit {0}}
    → validate_tables schemas sources targets tables ≡ ok u
    → TablesChecked schemas sources targets tables
unfolding validate_tables
validate_tables-TablesChecked schemas sources targets [] h = record {
  valid = refl;
  sources_unseen = refl;
  targets_unseen = refl;
}
validate_tables-TablesChecked schemas sources targets (t ∷ tables) h =
    let (_, h1) = reject-then (not (is_identifier t.source_schema)) _ _ h in
    let (_, h2) = reject-then (not (is_identifier t.source_table)) _ _ h1 in
    let (_, h3) = reject-then (not (is_identifier t.target_schema)) _ _ h2 in
    let (named, h4) = reject-then (not (is_identifier t.target_table)) _ _ h3 in
    let (inside, h5) = reject-then (not (contains schemas t.source_schema)) _ _ h4 in
    let (source_new, h6) = reject-then (contains sources (source_key t)) _ _ h5 in
    let (target_new, h7) = reject-then (contains targets (target_key t)) _ _ h6 in
    let (_, columns, h8) = >>=-eq-ok (validate_columns [] t.column_mappings) _ h7 in
    let r =
      validate_tables-TablesChecked schemas (source_key t ∷ sources) (target_key t ∷ targets) tables
        h8 in
    record {
      valid =
          ground
            (arith, named, inside, validate_columns-unseen [] t.column_mappings columns, r.valid);
      sources_unseen = ground (arith, source_new, r.sources_unseen);
      targets_unseen = ground (arith, target_new, r.targets_unseen);
    }

record GrantsChecked (c : MigrationConfig) (seen : List GrantKey) (grants : List GrantMapping)
    : Type 0 where
  valid : all (is_valid_grant c) grants ≡ true
  grants_unseen : unseen seen (map grant_key grants) ≡ true

target_of-eq-ok :
    (target : Option Name) {role : Name} (name : Name)
    → target_of target ≡ ok role
    → not (name_eq role name) ≡ false
    → maps_to target name ≡ true
target_of-eq-ok none name h e = absurd (cc h)
target_of-eq-ok (some t) {role} name h e = let same : t ≡ role = cc h in rw same (ground (arith, e))

validate_grants-GrantsChecked :
    (c : MigrationConfig) (seen : List GrantKey) (grants : List GrantMapping) {u : Unit {0}}
    → validate_grants c seen grants ≡ ok u
    → GrantsChecked c seen grants
unfolding validate_grants
validate_grants-GrantsChecked c seen [] h = record { valid = refl; grants_unseen = refl }
validate_grants-GrantsChecked c seen (g ∷ grants) h =
    let (_, h1) = reject-then (not (is_identifier g.source_role)) _ _ h in
    let (_, h2) = reject-then (not (is_identifier g.source_schema)) _ _ h1 in
    let (_, h3) = reject-then (not (is_identifier g.source_table)) _ _ h2 in
    let (_, _, h4) = >>=-eq-ok (validate_column_name g.source_column) _ h3 in
    let (_, h5) = reject-then (not (is_identifier g.target_role)) _ _ h4 in
    let (_, h6) = reject-then (not (is_maintained (map to_ascii_uppercase g.privilege))) _ _ h5 in
    let (target, found, h7) = >>=-eq-ok (target_of (map_get c.role_mappings g.source_role)) _ h6 in
    let (same, h8) = reject-then (not (name_eq target g.target_role)) _ _ h7 in
    let (selected, h9) =
      reject-then (not (is_some (table_mapping c g.source_schema g.source_table))) _ _ h8 in
    let (new, h10) = reject-then (contains seen (grant_key g)) _ _ h9 in
    let r = validate_grants-GrantsChecked c (grant_key g ∷ seen) grants h10 in
    record {
      valid = ground (arith, target_of-eq-ok _ g.target_role found same, selected, r.valid);
      grants_unseen = ground (arith, new, r.grants_unseen);
    }

-- In a validated configuration no table is a source or a target twice, no two columns of a table
-- have one target, and each grant is one of a selected table, given to the role that its role is
-- mapped to.
pub validate-IsValid : (c : MigrationConfig) → validate c ≡ ok tt → IsValid c
unfolding validate
validate-IsValid c h =
    let (_, sizes, h1) = >>=-eq-ok (validate_sizes c) _ h in
    let (_, schemas, h2) = >>=-eq-ok (validate_schemas [] c.source_schemas) _ h1 in
    let (_, tables, h3) = >>=-eq-ok (validate_tables c.source_schemas [] [] c.tables) _ h2 in
    let (_, roles, h4) = >>=-eq-ok (validate_roles c.role_mappings) _ h3 in
    let t = validate_tables-TablesChecked c.source_schemas [] [] c.tables tables in
    let g = validate_grants-GrantsChecked c [] c.grant_mappings h4 in
    record {
      mappings = t.valid;
      sources_distinct = unseen-IsDistinct [] (map source_key c.tables) t.sources_unseen;
      targets_distinct = unseen-IsDistinct [] (map target_key c.tables) t.targets_unseen;
      grants = g.valid;
      grants_distinct = unseen-IsDistinct [] (map grant_key c.grant_mappings) g.grants_unseen;
    }
