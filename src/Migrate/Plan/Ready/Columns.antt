-- ===== src/Migrate/Plan/Ready/Columns.antt =====
-- Which columns block their table (`classify_column` and the loop over the columns of
-- crates/quackgis-migrate/src/plan.rs).
use quackgis.Base.{
  ◌≡◌, refl, Bool, true, not, ◌&&◌, List, [], ◌∷◌, Option, none, some, Result, ok, err, arith,
  contains, if◌then◌else◌, nat_Eq, list_Eq, if-cases,
}
use quackgis.Role.Model.{Name}
use quackgis.Role.Catalog.{map_get}
use quackgis.Role.Config.Names.{is_empty}
use quackgis.Role.Config.Convert.Entries.{is_ok}
use quackgis.Migrate.Inventory.{SourceColumn}
use quackgis.Migrate.Plan.{
  Disposition, is_reject, ColumnPlan, SqlParser, target_type_of, classified, classify_column,
  decimal_type, decimal_target_type, geometry_column,
}
use quackgis.Migrate.Plan.Tables.{or_same, duplicate_target, plan_columns, column_blockers}

module _ (sql : SqlParser) where
  -- Each column has a target type, and no two have one target name.
  abbrev pub columns_supported : List (Name × Name) → List Name → List SourceColumn → Bool
  columns_supported mappings seen [] = true
  columns_supported mappings seen (c ∷ cs) =
      (not (contains seen (or_same (map_get mappings c.name) c.name))
        && is_ok (classified sql c (or_same (map_get mappings c.name) c.name)))
      && columns_supported mappings (or_same (map_get mappings c.name) c.name ∷ seen) cs

  abbrev is_accepting : Result Name (Name × Disposition) → Bool
  is_accepting (err reason) = true
  is_accepting (ok target) = not (is_reject target.1.action)

  decimal_type-accepting : (target : Option Name) → is_accepting (decimal_type sql target) ≡ true
  decimal_type-accepting none = refl
  decimal_type-accepting (some target) = refl

  geometry_column-accepting :
      (c : SourceColumn) (name : Name) → is_accepting (geometry_column sql c name) ≡ true
  geometry_column-accepting c name = ground arith

  target_type_of-accepting :
      (c : SourceColumn) (name : Name) → is_accepting (target_type_of sql c name) ≡ true
  unfolding target_type_of
  target_type_of-accepting c name = ground (
    arith,
    decimal_type-accepting (decimal_target_type c.type_modifier),
    geometry_column-accepting c name,
  )

  -- A column is rejected exactly when it has no target type.
  rejected_lem :
      (c : SourceColumn) (name : Name)
      → is_reject (classify_column sql c name).disposition.action
        ≡ not (is_ok (classified sql c name))
  unfolding classify_column classified
  rejected_lem c name = ground (arith, target_type_of-accepting c name)

  planned_lem :
      (c : SourceColumn) (name : Name) (seen : List Name)
      → is_reject
          (if contains seen name
            then duplicate_target (classify_column sql c name)
            else classify_column sql c name).disposition.action
        ≡ not (not (contains seen name) && is_ok (classified sql c name))
  planned_lem c name seen =
      if-cases
        (λ (p : ColumnPlan).
          is_reject p.disposition.action
          ≡ not (not (contains seen name) && is_ok (classified sql c name)))
        (contains seen name) (λ h. rw h refl) (λ h. rw h (rejected_lem c name))

  module _ (debug : Name → Name) where
    is_empty-column_blockers :
        (p : ColumnPlan) (ps : List ColumnPlan)
        → is_empty (column_blockers sql debug (p ∷ ps))
          ≡ (not (is_reject p.disposition.action) && is_empty (column_blockers sql debug ps))
    unfolding column_blockers
    is_empty-column_blockers p ps = ground arith

    not-not : (b : Bool) → not (not b) ≡ b
    not-not b = ground arith

    pub column_blockers-plan_columns :
        (mappings : List (Name × Name)) (seen : List Name) (cs : List SourceColumn)
        → is_empty (column_blockers sql debug (plan_columns sql debug mappings seen cs))
          ≡ columns_supported mappings seen cs
    unfolding plan_columns
    column_blockers-plan_columns mappings seen [] = unfold column_blockers in refl
    column_blockers-plan_columns mappings seen (c ∷ cs) =
        let target = or_same (map_get mappings c.name) c.name in
        rw
          (
            is_empty-column_blockers _ (plan_columns sql debug mappings (target ∷ seen) cs),
            planned_lem c target seen,
            not-not (not (contains seen target) && is_ok (classified sql c target)),
            column_blockers-plan_columns mappings (target ∷ seen) cs,
          )
          refl
