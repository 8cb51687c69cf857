-- ===== src/Tests/Migrate.antt =====
-- Runs of the migration, and the theorems about it at concrete inputs.
use mathlib.Core.List.{Permᴰ}
use quackgis.Base.{
  ℕ, zero, suc, ◌≡◌, refl, true, false, List, [], ◌∷◌, Option, none, some, ok, codes, arith, Bytes,
  length, pos,
}
use quackgis.Role.Model.{Name, eq_ignore_ascii_case}
use quackgis.Role.Catalog.{is_some}
use quackgis.Migrate.Config.{
  MigrationConfig, TableMapping, validate, validate_sizes, validate_schemas, validate_tables,
  validate_columns, validate_roles, validate_grants,
}
use quackgis.Migrate.Config.Valid.{IsValid, validate-IsValid}
use quackgis.Migrate.Inventory.{SourceColumn, SourceTable, SourceInventory, ConstraintKind}
use quackgis.Migrate.Plan.{SqlParser, classify_column, classified, target_type_of}
use quackgis.Migrate.Plan.Tables.{
  build_table_plan, selected_plan, table_blockers, constraint_blockers, column_blockers,
  mapping_blockers, plan_columns,
}
use quackgis.Migrate.Plan.Preflight.{
  PreflightReport, ready, build_preflight, grant_plans, grant_plan, grant_identity, role_plan,
}
use quackgis.Migrate.Plan.Ready.{IsReady, build_preflight_ready}
use quackgis.Migrate.Plan.Ready.Grants.{build_preflight-validate}
use quackgis.Migrate.Checksum.{empty_checksum, update_rows}
use quackgis.Migrate.Checksum.Canonical.{canonical_row_injective}
use quackgis.Migrate.Checksum.Order.{update_rows_perm}

abbrev roads : TableMapping
roads = record {
  source_schema = codes "public";
  source_table = codes "roads";
  target_schema = codes "main";
  target_table = codes "streets";
  column_mappings = (codes "id", codes "street_id") ∷ [];
}

abbrev config : MigrationConfig
config = record {
  format_version = 1;
  source = record { postgres_version_num = 160004; postgis_version = codes "3.4" };
  source_schemas = codes "public" ∷ [];
  tables = roads ∷ [];
  role_mappings = (codes "writer", codes "editor") ∷ [];
  grant_mappings =
      record {
        source_role = codes "writer";
        source_schema = codes "public";
        source_table = codes "roads";
        source_column = none;
        privilege = codes "select";
        target_role = codes "editor";
      }
      ∷ [];
}

validates : validate config ≡ ok tt
unfolding validate validate_sizes validate_schemas validate_tables validate_columns validate_roles
    validate_grants
validates = refl

validate-IsValid_example : IsValid config
validate-IsValid_example = validate-IsValid config validates

abbrev id_column : SourceColumn
id_column = record {
  name = codes "id";
  type_name = codes "int8";
  formatted_type = codes "bigint";
  type_modifier = pos 0;
  nullable = false;
  default_expression = none;
  comment = none;
  identity = false;
  generated = false;
  geometry_type = none;
  geometry_srid = none;
  geometry_dimensions = none;
}

abbrev source_table : SourceTable
source_table = record {
  schema = codes "public";
  name = codes "roads";
  row_count = 3;
  estimated_bytes = 24;
  comment = none;
  row_security = false;
  force_row_security = false;
  replica_identity = codes "default";
  partitioned = false;
  trigger_count = 0;
  columns = id_column ∷ [];
  constraints =
      record { name = codes "nn"; kind = ConstraintKind.not_null; definition = codes "NOT NULL" }
      ∷ [];
}

abbrev inventory : SourceInventory
inventory = record {
  tables = source_table ∷ [];
  roles = record { name = codes "writer"; login = true } ∷ [];
  grants =
      record {
        grantee = codes "writer";
        schema = codes "public";
        table = codes "roads";
        column = none;
        privilege = codes "SELECT";
      }
      ∷ [];
}

abbrev parser : SqlParser
parser = record { parse_sql = λ text. none; to_string = λ e. [] }

abbrev debug : Name → Name
debug name = name

build_preflight-validate_example : is_some (build_preflight parser debug config inventory) ≡ true
build_preflight-validate_example = build_preflight-validate parser debug config inventory validates

-- the report of the preflight
reports_ready :
    (r : PreflightReport) × (build_preflight parser debug config inventory ≡ some r)
    × (r.status ≡ ready)
unfolding build_preflight build_table_plan selected_plan table_blockers constraint_blockers
    column_blockers mapping_blockers plan_columns classify_column classified target_type_of
    grant_plans grant_plan grant_identity role_plan eq_ignore_ascii_case
reports_ready = (_, refl, refl)

build_preflight_ready_example : IsReady parser debug config inventory
build_preflight_ready_example =
    build_preflight_ready parser debug config inventory reports_ready.1 reports_ready.2

-- a digest of 32 bytes
abbrev padded : ℕ → Bytes → Bytes
padded zero bytes = []
padded (suc n) [] = 0 ∷ padded n []
padded (suc n) (b ∷ bytes) = b ∷ padded n bytes

length-padded : (n : ℕ) (bytes : Bytes) → length (padded n bytes) ≡ n
length-padded zero bytes = refl
length-padded (suc n) [] = omega (arith, length-padded n [])
length-padded (suc n) (b ∷ bytes) = omega (arith, length-padded n bytes)

abbrev digest : Bytes → Bytes
digest = padded 32

abbrev row_a : List (Option Bytes)
row_a = some (7 ∷ []) ∷ none ∷ []

abbrev row_b : List (Option Bytes)
row_b = none ∷ some (250 ∷ 1 ∷ []) ∷ []

update_rows_perm_example :
    update_rows digest empty_checksum (row_a ∷ row_b ∷ [])
    ≡ update_rows digest empty_checksum (row_b ∷ row_a ∷ [])
update_rows_perm_example = update_rows_perm digest (length-padded 32) (Permᴰ.swap refl refl)

canonical_row_injective_example : row_a ≡ row_a
canonical_row_injective_example =
    canonical_row_injective row_a row_a (omega arith, tt) (omega arith, tt) refl
