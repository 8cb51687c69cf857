-- ===== src/Migrate/Config.antt =====
-- The configuration of a migration and its validation (crates/quackgis-migrate/src/config.rs). It is
-- given as deserialized; a map is the list of its entries.
pub mod Valid
use quackgis.Base.{
  ℕ, ◌-◌, Bool, true, false, not, ◌&&◌, ◌||◌, List, [], ◌∷◌, map, Option, none, some, Result, ok,
  err, ◌>>=◌, ◌>>◌, reject, ltb, leb, ◌==◌, if◌then◌else◌, codes, any, all, contains, find, length,
  is_control, utf8_len, Eq, nat_Eq, list_Eq, pair_Eq, option_Eq,
}
use quackgis.Role.Model.{Name, name_eq}
use quackgis.Role.Catalog.{map_get, is_some}
use quackgis.Role.Config.Names.{is_empty, is_ascii_digit}

abbrev pub max_schemas : ℕ
max_schemas = 64

abbrev pub max_tables : ℕ
max_tables = 1024

abbrev pub max_role_mappings : ℕ
max_role_mappings = 4096

abbrev pub max_grant_mappings : ℕ
max_grant_mappings = 65536

abbrev pub max_identifier_bytes : ℕ
max_identifier_bytes = 63

pub record SourceRequirements : Type 0 where
  pub postgres_version_num : ℕ
  pub postgis_version : Name

pub record TableMapping : Type 0 where
  pub source_schema : Name
  pub source_table : Name
  pub target_schema : Name
  pub target_table : Name
  pub column_mappings : List (Name × Name)

pub record GrantMapping : Type 0 where
  pub source_role : Name
  pub source_schema : Name
  pub source_table : Name
  pub source_column : Option Name
  pub privilege : Name
  pub target_role : Name

pub record MigrationConfig : Type 0 where
  pub format_version : ℕ
  pub source : SourceRequirements
  pub source_schemas : List Name
  pub tables : List TableMapping
  pub role_mappings : List (Name × Name)
  pub grant_mappings : List GrantMapping

pub data ConfigError : Type 0 where
  wrong_format wrong_postgres wrong_postgis schema_count table_count role_count : ConfigError
  grant_count bad_identifier duplicate_schema outside_schemas duplicate_source : ConfigError
  duplicate_target duplicate_column unmaintained unmapped_role other_role unselected_table :
      ConfigError
  duplicate_grant : ConfigError

abbrev pub Checked : Type 0
Checked = Result ConfigError (Unit {0})

abbrev pub is_identifier : Name → Bool
is_identifier value = not (
    is_empty value
    || (ltb max_identifier_bytes (utf8_len value) || (contains value 0 || any is_control value)))

abbrev pub validate_identifier : Name → Checked
validate_identifier value = reject (not (is_identifier value)) bad_identifier

-- `table_mapping`
abbrev pub maps_table : Name → Name → TableMapping → Bool
maps_table schema table m = name_eq m.source_schema schema && name_eq m.source_table table

abbrev pub table_mapping : MigrationConfig → Name → Name → Option TableMapping
table_mapping c schema table = find (maps_table schema table) c.tables

abbrev pub is_version_byte : ℕ → Bool
is_version_byte byte = is_ascii_digit byte || byte == b'.'

-- the checks on versions and sizes
unfoldable pub validate_sizes : MigrationConfig → Checked
validate_sizes c = do
  reject (not (c.format_version == 1)) wrong_format
  reject (ltb c.source.postgres_version_num 100000) wrong_postgres
  reject
      (is_empty c.source.postgis_version
        || (ltb 64 (utf8_len c.source.postgis_version)
            || not (all is_version_byte c.source.postgis_version)))
      wrong_postgis
  reject (is_empty c.source_schemas || ltb max_schemas (length c.source_schemas)) schema_count
  reject (is_empty c.tables || ltb max_tables (length c.tables)) table_count
  reject (ltb max_role_mappings (length c.role_mappings)) role_count
  reject (ltb max_grant_mappings (length c.grant_mappings)) grant_count

unfoldable pub validate_schemas : List Name → List Name → Checked
validate_schemas seen [] = ok tt
validate_schemas seen (schema ∷ schemas) = do
  validate_identifier schema
  reject (contains seen schema) duplicate_schema
  validate_schemas (schema ∷ seen) schemas

unfoldable pub validate_columns : List Name → List (Name × Name) → Checked
validate_columns seen [] = ok tt
validate_columns seen ((source, target) ∷ columns) = do
  validate_identifier source
  validate_identifier target
  reject (contains seen target) duplicate_column
  validate_columns (target ∷ seen) columns

abbrev pub source_key : TableMapping → Name × Name
source_key t = (t.source_schema, t.source_table)

abbrev pub target_key : TableMapping → Name × Name
target_key t = (t.target_schema, t.target_table)

-- the loop over the tables, with the sources and the targets seen
unfoldable pub validate_tables :
    List Name → List (Name × Name) → List (Name × Name) → List TableMapping → Checked
unfolding validate_columns
validate_tables schemas sources targets [] = ok tt
validate_tables schemas sources targets (table ∷ tables) = do
  validate_identifier table.source_schema
  validate_identifier table.source_table
  validate_identifier table.target_schema
  validate_identifier table.target_table
  reject (not (contains schemas table.source_schema)) outside_schemas
  reject (contains sources (source_key table)) duplicate_source
  reject (contains targets (target_key table)) duplicate_target
  validate_columns [] table.column_mappings
  validate_tables schemas (source_key table ∷ sources) (target_key table ∷ targets) tables

unfoldable pub validate_roles : List (Name × Name) → Checked
validate_roles [] = ok tt
validate_roles ((source, target) ∷ roles) = do
  validate_identifier source
  validate_identifier target
  validate_roles roles

abbrev pub validate_column_name : Option Name → Checked
validate_column_name none = ok tt
validate_column_name (some column) = validate_identifier column

abbrev pub to_ascii_uppercase : ℕ → ℕ
to_ascii_uppercase c = if leb b'a' c && leb c b'z' then c - 32 else c

abbrev pub is_maintained : Name → Bool
is_maintained privilege =
    name_eq privilege (codes "SELECT")
    || (name_eq privilege (codes "INSERT")
        || (name_eq privilege (codes "UPDATE") || name_eq privilege (codes "DELETE")))

abbrev pub target_of : Option Name → Result ConfigError Name
target_of none = err unmapped_role
target_of (some role) = ok role

-- A grant as its fields, which decide whether two are equal.
abbrev pub GrantKey : Type 0
GrantKey = Name × (Name × (Name × (Option Name × (Name × Name))))

abbrev pub grant_key : GrantMapping → GrantKey
grant_key g = (
  g.source_role,
  (g.source_schema, (g.source_table, (g.source_column, (g.privilege, g.target_role)))),
)

-- the loop over the grants, with the grants seen
unfoldable pub validate_grants : MigrationConfig → List GrantKey → List GrantMapping → Checked
validate_grants c seen [] = ok tt
validate_grants c seen (grant ∷ grants) = do
  validate_identifier grant.source_role
  validate_identifier grant.source_schema
  validate_identifier grant.source_table
  validate_column_name grant.source_column
  validate_identifier grant.target_role
  reject (not (is_maintained (map to_ascii_uppercase grant.privilege))) unmaintained
  target ← target_of (map_get c.role_mappings grant.source_role)
  reject (not (name_eq target grant.target_role)) other_role
  reject (not (is_some (table_mapping c grant.source_schema grant.source_table))) unselected_table
  reject (contains seen (grant_key grant)) duplicate_grant
  validate_grants c (grant_key grant ∷ seen) grants

-- `MigrationConfig::validate`
unfoldable pub validate : MigrationConfig → Checked
unfolding validate_sizes validate_schemas validate_tables validate_roles validate_grants
validate c = do
  validate_sizes c
  validate_schemas [] c.source_schemas
  validate_tables c.source_schemas [] [] c.tables
  validate_roles c.role_mappings
  validate_grants c [] c.grant_mappings
