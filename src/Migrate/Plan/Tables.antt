-- ===== src/Migrate/Plan/Tables.antt =====
-- The plan of a table (`build_table_plan` of crates/quackgis-migrate/src/plan.rs).
use quackgis.Base.{
  ℕ, Bool, true, false, not, ◌&&◌, ◌||◌, List, [], ◌∷◌, ◌++◌, map, Option, none, some, ◌==◌,
  if◌then◌else◌, codes, any, contains, nat_Eq, list_Eq, sort_by, list_less, dedup,
}
use quackgis.Role.Model.{Name, name_eq}
use quackgis.Role.Catalog.{map_get}
use quackgis.Role.Config.Names.{is_empty}
use quackgis.Migrate.Config.{TableMapping}
use quackgis.Migrate.Inventory.{SourceColumn, ConstraintKind, SourceConstraint, SourceTable}
use quackgis.Migrate.Plan.{
  Disposition, migrate, rejected_for, is_reject, ColumnPlan, show, SqlParser, classify_column,
  rejected_column,
}

pub record TablePlan : Type 0 where
  pub source_schema : Name
  pub source_table : Name
  pub target_schema : Option Name
  pub target_table : Option Name
  pub row_count : ℕ
  pub estimated_bytes : ℕ
  pub comment : Option Name
  pub disposition : Disposition
  pub columns : List ColumnPlan
  pub blockers : List Name

-- the `{:?}` form of a kind
abbrev pub kind_text : ConstraintKind → Name
kind_text ConstraintKind.check = codes "Check"
kind_text ConstraintKind.primary_key = codes "PrimaryKey"
kind_text ConstraintKind.unique = codes "Unique"
kind_text ConstraintKind.foreign_key = codes "ForeignKey"
kind_text ConstraintKind.exclusion = codes "Exclusion"
kind_text ConstraintKind.not_null = codes "NotNull"
kind_text ConstraintKind.other = codes "Other"

abbrev pub is_not_null : ConstraintKind → Bool
is_not_null ConstraintKind.not_null = true
is_not_null _ = false

abbrev pub or_same : Option Name → Name → Name
or_same none name = name
or_same (some target) name = target

abbrev pub when : Bool → Name → List Name
when test message = if test then message ∷ [] else []

abbrev pub duplicate_target : ColumnPlan → ColumnPlan
duplicate_target plan = record plan {
  disposition = rejected_for (codes "multiple source columns map to this target name");
  target_type = none;
}

abbrev pub is_column : Name → SourceColumn → Bool
is_column source c = name_eq c.name source

module _ (sql : SqlParser) (debug : Name → Name) where
  -- the blockers that concern the table as a whole
  unfoldable pub table_blockers : SourceTable → List Name
  table_blockers t =
      when t.partitioned (codes "partitioned tables are unsupported")
      ++ (when (t.row_security || t.force_row_security)
            (codes "row-level security is not copied implicitly")
          ++ (when (not (t.trigger_count == 0))
                (show t.trigger_count ++ codes " user trigger(s) require explicit rejection")
              ++ when
                  (not (name_eq t.replica_identity (codes "default"))
                    && not (name_eq t.replica_identity (codes "nothing")))
                  (codes "replica identity "
                    ++ (debug t.replica_identity ++ codes " has no maintained target semantics"))))

  unfoldable pub constraint_blockers : List SourceConstraint → List Name
  constraint_blockers [] = []
  constraint_blockers (c ∷ cs) =
      when (not (is_not_null c.kind)) (
        codes "constraint "
        ++ (kind_text c.kind ++ (codes " (" ++ (c.name ++ codes ") is unsupported"))))
      ++ constraint_blockers cs

  -- the loop over the columns, with the target names seen
  unfoldable pub plan_columns : List (Name × Name) → List Name → List SourceColumn → List ColumnPlan
  unfolding classify_column
  plan_columns mappings seen [] = []
  plan_columns mappings seen (c ∷ cs) =
      let target = or_same (map_get mappings c.name) c.name in
      let plan = classify_column sql c target in
      (if contains seen target then duplicate_target plan else plan)
      ∷ plan_columns mappings (target ∷ seen) cs

  unfoldable pub column_blockers : List ColumnPlan → List Name
  column_blockers [] = []
  column_blockers (p ∷ ps) =
      when (is_reject p.disposition.action)
        (codes "column " ++ (p.source_name ++ (codes ": " ++ p.disposition.reason)))
      ++ column_blockers ps

  unfoldable pub mapping_blockers : List SourceColumn → List (Name × Name) → List Name
  mapping_blockers columns [] = []
  mapping_blockers columns ((source, target) ∷ mappings) =
      when (not (any (is_column source) columns))
        (codes "column mapping references missing source column " ++ debug source)
      ++ mapping_blockers columns mappings

  abbrev pub all_blockers : SourceTable → TableMapping → List ColumnPlan → List Name
  all_blockers t m columns =
      table_blockers t
      ++ (constraint_blockers t.constraints
          ++ (column_blockers columns ++ mapping_blockers t.columns m.column_mappings))

  unfoldable pub selected_plan : SourceTable → TableMapping → TablePlan
  unfolding plan_columns table_blockers constraint_blockers column_blockers mapping_blockers
  selected_plan t m =
      let columns = plan_columns m.column_mappings [] t.columns in
      let blockers = dedup (sort_by list_less (all_blockers t m columns)) in
      record {
        source_schema = t.schema;
        source_table = t.name;
        target_schema = some m.target_schema;
        target_table = some m.target_table;
        row_count = t.row_count;
        estimated_bytes = t.estimated_bytes;
        comment = t.comment;
        disposition =
            if is_empty blockers
            then migrate (codes "selected base table has a complete supported column mapping")
            else rejected_for (codes "selected table has blocking unsupported semantics");
        columns = columns;
        blockers = blockers;
      }

  unfoldable pub build_table_plan : SourceTable → Option TableMapping → TablePlan
  unfolding selected_plan rejected_column
  build_table_plan t (some m) = selected_plan t m
  build_table_plan t none = record {
    source_schema = t.schema;
    source_table = t.name;
    target_schema = none;
    target_table = none;
    row_count = t.row_count;
    estimated_bytes = t.estimated_bytes;
    comment = t.comment;
    disposition = rejected_for (codes "table is outside the explicit migration selection");
    columns = map (λ c. rejected_column sql c (codes "table is not selected")) t.columns;
    blockers = [];
  }
