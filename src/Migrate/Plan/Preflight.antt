-- ===== src/Migrate/Plan/Preflight.antt =====
-- The preflight of a migration (`build_preflight` of crates/quackgis-migrate/src/plan.rs): the tables,
-- the roles and the grants; `none` is the panic of `expect` in `grant_plan`.
use quackgis.Base.{
  Bool, false, not, ◌&&◌, ◌||◌, List, [], ◌∷◌, ◌++◌, map, Option, none, some, if◌then◌else◌, codes,
  any, all, find, nat_Eq, list_Eq, pair_Eq, option_Eq, option_beq, sort_by, list_less, then_less,
}
use quackgis.Role.Model.{Name, name_eq, to_ascii_lowercase, eq_ignore_ascii_case}
use quackgis.Role.Catalog.{map_get, is_some}
use quackgis.Role.Config.Names.{is_empty}
use quackgis.Migrate.Config.{TableMapping, GrantMapping, MigrationConfig, table_mapping, grant_key}
use quackgis.Migrate.Inventory.{SourceTable, SourceRole, SourceGrant, SourceInventory}
use quackgis.Migrate.Plan.{Disposition, map_to, rejected_for, is_reject, SqlParser}
use quackgis.Migrate.Plan.Tables.{TablePlan, or_same, build_table_plan}

pub data PreflightStatus : Type 0 where
  ready rejected : PreflightStatus

pub record ObjectPlan : Type 0 where
  pub object_identity : Name
  pub kind : Name
  pub target_identity : Option Name
  pub disposition : Disposition

pub record PreflightReport : Type 0 where
  pub status : PreflightStatus
  pub tables : List TablePlan
  pub roles : List ObjectPlan
  pub grants : List ObjectPlan
  pub errors : List Name

abbrev pub column_suffix : Option Name → Name
column_suffix none = []
column_suffix (some column) = codes "." ++ column

unfoldable pub grant_identity : Name → Name → Name → Option Name → Name → Name
grant_identity role schema table column privilege =
    role
    ++ (codes ":"
        ++ (privilege ++ (codes ":" ++ (schema ++ (codes "." ++ (table ++ column_suffix column))))))

-- the mapping of a grant in the configuration
abbrev pub maps_grant : SourceGrant → GrantMapping → Bool
maps_grant g m =
    name_eq m.source_role g.grantee
    && (name_eq m.source_schema g.schema
        && (name_eq m.source_table g.table
            && (option_beq m.source_column g.column
                && eq_ignore_ascii_case m.privilege g.privilege)))

abbrev pub source_grant_identity : SourceGrant → Name
source_grant_identity g = grant_identity g.grantee g.schema g.table g.column g.privilege

abbrev pub mapped_column : TableMapping → Option Name → Option Name
mapped_column t none = none
mapped_column t (some column) = some (or_same (map_get t.column_mappings column) column)

-- the plan of a grant that is mapped, in the table that `expect` asks for
abbrev pub mapped_grant : SourceGrant → GrantMapping → Option TableMapping → Option ObjectPlan
mapped_grant g m none = none
mapped_grant g m (some t) = some (record {
  object_identity = source_grant_identity g;
  kind = map to_ascii_lowercase g.privilege;
  target_identity = some (
      m.target_role
      ++ (codes ":"
          ++ (t.target_schema
              ++ (codes "." ++ (t.target_table ++ column_suffix (mapped_column t g.column))))));
  disposition =
      map_to
        (codes "source grant maps explicitly to an operator-provisioned immutable target grant");
})

unfoldable pub grant_plan : MigrationConfig → SourceGrant → Option GrantMapping → Option ObjectPlan
unfolding grant_identity
grant_plan c g none = some (record {
  object_identity = source_grant_identity g;
  kind = map to_ascii_lowercase g.privilege;
  target_identity = none;
  disposition =
      rejected_for (codes "source grant is not copied without an explicit target mapping");
})
grant_plan c g (some m) = mapped_grant g m (table_mapping c g.schema g.table)

abbrev pub push_plan : Option ObjectPlan → Option (List ObjectPlan) → Option (List ObjectPlan)
push_plan (some plan) (some plans) = some (plan ∷ plans)
push_plan _ _ = none

unfoldable pub grant_plans : MigrationConfig → List SourceGrant → Option (List ObjectPlan)
unfolding grant_plan
grant_plans c [] = some []
grant_plans c (g ∷ gs) =
    push_plan (grant_plan c g (find (maps_grant g) c.grant_mappings)) (grant_plans c gs)

abbrev pub unseen_message : GrantMapping → Name
unseen_message m =
    codes "configured source grant "
    ++ (grant_identity m.source_role m.source_schema m.source_table m.source_column m.privilege
        ++ codes " was not found")

abbrev pub is_mapping : GrantMapping → Option GrantMapping → Bool
is_mapping m none = false
is_mapping m (some n) = pair_Eq.beq (grant_key n) (grant_key m)

-- `seen_grants.contains(mapping)`: the search of some grant has found the mapping
abbrev pub finds : MigrationConfig → GrantMapping → SourceGrant → Bool
finds c m g = is_mapping m (find (maps_grant g) c.grant_mappings)

abbrev pub missing_grants : MigrationConfig → List SourceGrant → List GrantMapping → List Name
missing_grants c grants [] = []
missing_grants c grants (m ∷ ms) =
    let rest = missing_grants c grants ms in
    if any (finds c m) grants then rest else unseen_message m ∷ rest

abbrev pub table_message : TableMapping → Name
table_message m =
    codes "configured source table "
    ++ (m.source_schema ++ (codes "." ++ (m.source_table ++ codes " does not exist")))

abbrev pub is_table : TableMapping → SourceTable → Bool
is_table m t = name_eq t.schema m.source_schema && name_eq t.name m.source_table

-- the configured tables that the source does not have
abbrev pub missing_tables : List SourceTable → List TableMapping → List TableMapping
missing_tables tables [] = []
missing_tables tables (m ∷ ms) =
    let rest = missing_tables tables ms in if any (is_table m) tables then rest else m ∷ rest

abbrev pub missing_plan : TableMapping → TablePlan
missing_plan m = record {
  source_schema = m.source_schema;
  source_table = m.source_table;
  target_schema = some m.target_schema;
  target_table = some m.target_table;
  row_count = 0;
  estimated_bytes = 0;
  comment = none;
  disposition = rejected_for (table_message m);
  columns = [];
  blockers = table_message m ∷ [];
}

abbrev pub by_source : TablePlan → TablePlan → Bool
by_source a b =
    then_less (list_less a.source_schema b.source_schema)
      (list_less b.source_schema a.source_schema) (list_less a.source_table b.source_table)

-- a table that is not selected, or one that can be migrated
abbrev pub is_unblocked : TablePlan → Bool
is_unblocked t =
    not (is_some t.target_table) || (not (is_reject t.disposition.action) && is_empty t.blockers)

abbrev pub status_of : List Name → List TablePlan → PreflightStatus
status_of errors tables = if is_empty errors && all is_unblocked tables then ready else rejected

abbrev pub report :
    List Name → List TablePlan → List ObjectPlan → Option (List ObjectPlan) → Option PreflightReport
report errors tables roles none = none
report errors tables roles (some grants) = some (record {
  status = status_of errors tables;
  tables = tables;
  roles = roles;
  grants = grants;
  errors = errors;
})

module _ (sql : SqlParser) (debug : Name → Name) where
  abbrev pub role_disposition : Option Name → Disposition
  role_disposition none = rejected_for (codes "roles and passwords are not copied implicitly")
  role_disposition (some target) = map_to (
      codes "source role maps explicitly to configured target role "
      ++ (debug target ++ codes "; credentials are excluded"))

  unfoldable pub role_plan : MigrationConfig → SourceRole → ObjectPlan
  role_plan c r = record {
    object_identity = r.name;
    kind = if r.login then codes "login_role" else codes "role";
    target_identity = map_get c.role_mappings r.name;
    disposition = role_disposition (map_get c.role_mappings r.name);
  }

  abbrev pub is_role : Name → SourceRole → Bool
  is_role name r = name_eq r.name name

  abbrev pub missing_roles : List SourceRole → List (Name × Name) → List Name
  missing_roles roles [] = []
  missing_roles roles ((source, target) ∷ mappings) =
      let rest = missing_roles roles mappings in
      if any (is_role source) roles
      then rest
      else (codes "configured source role " ++ (debug source ++ codes " was not found")) ∷ rest

  abbrev pub plan_table : MigrationConfig → SourceTable → TablePlan
  plan_table c t = build_table_plan sql debug t (table_mapping c t.schema t.name)

  unfoldable pub build_preflight : MigrationConfig → SourceInventory → Option PreflightReport
  unfolding grant_plans role_plan build_table_plan
  build_preflight c source =
      let missing = missing_tables source.tables c.tables in
      report
        (map table_message missing
          ++ (missing_grants c source.grants c.grant_mappings
              ++ missing_roles source.roles c.role_mappings))
        (sort_by by_source (map (plan_table c) source.tables ++ map missing_plan missing))
        (map (role_plan c) source.roles) (grant_plans c source.grants)
