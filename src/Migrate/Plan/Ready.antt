-- ===== src/Migrate/Plan/Ready.antt =====
-- What a preflight that is ready means (crates/quackgis-migrate/src/plan.rs).
pub mod Columns
pub mod Grants
use quackgis.Base.{
  ℕ, ◌≡◌, refl, ap, sym, ◌∙◌, inl, inr, Bool, true, false, not, ◌&&◌, ◌||◌, List, [], ◌∷◌, ◌++◌,
  map, Option, none, some, ◌==◌, arith, all, any, if◌then◌else◌, codes, Eq, nat_Eq, list_Eq,
  Bool-cases, &&-true, sort_by, list_less, dedup, starts_with, insert_sorted, all-sort_by,
  List-cases,
}
use quackgis.Role.Model.{Name, name_eq}
use quackgis.Role.Catalog.{map_get, is_some}
use quackgis.Role.Config.Names.{is_empty}
use quackgis.Migrate.Config.{TableMapping, MigrationConfig, table_mapping}
use quackgis.Migrate.Inventory.{SourceColumn, SourceConstraint, SourceTable, SourceInventory}
use quackgis.Migrate.Plan.{SqlParser}
use quackgis.Migrate.Plan.Tables.{
  TablePlan, is_not_null, when, table_blockers, constraint_blockers, plan_columns, column_blockers,
  is_column, mapping_blockers, all_blockers, selected_plan, build_table_plan,
}
use quackgis.Migrate.Plan.Preflight.{
  ready, PreflightReport, ObjectPlan, is_table, missing_tables, table_message, missing_plan,
  plan_table, by_source, is_unblocked, status_of, missing_grants, missing_roles, grant_plans,
  report, role_plan, build_preflight,
}
use quackgis.Migrate.Plan.Ready.Columns.{columns_supported, column_blockers-plan_columns}

is_empty-append : (xs ys : List Name) → is_empty (xs ++ ys) ≡ (is_empty xs && is_empty ys)
is_empty-append [] ys = refl
is_empty-append (x ∷ xs) ys = refl

is_empty-insert_sorted :
    (x : Name) (xs : List Name) → is_empty (insert_sorted list_less x xs) ≡ false
is_empty-insert_sorted x [] = refl
is_empty-insert_sorted x (y ∷ ys) = ground arith

is_empty-dedup : (xs : List Name) → is_empty (dedup xs) ≡ is_empty xs
is_empty-dedup [] = refl
is_empty-dedup (x ∷ []) = refl
is_empty-dedup (x ∷ y ∷ xs) = ground (arith, is_empty-dedup (y ∷ xs))

is_empty-sorted : (xs : List Name) → is_empty (dedup (sort_by list_less xs)) ≡ is_empty xs
is_empty-sorted [] = refl
is_empty-sorted (x ∷ xs) =
    is_empty-dedup (sort_by list_less (x ∷ xs)) ∙ is_empty-insert_sorted x (sort_by list_less xs)

is_empty-when : (test : Bool) (message : Name) → is_empty (when test message) ≡ not test
is_empty-when test message = ground arith

abbrev pub is_plain_constraint : SourceConstraint → Bool
is_plain_constraint c = is_not_null c.kind

module _ (sql : SqlParser) (debug : Name → Name) where
  -- what the source table must be, without a word of how its blockers are collected
  abbrev pub is_supported : SourceTable → TableMapping → Bool
  is_supported t m =
      (not t.partitioned
        && (not (t.row_security || t.force_row_security)
            && ((t.trigger_count == 0)
                && (name_eq t.replica_identity (codes "default")
                    || name_eq t.replica_identity (codes "nothing")))))
      && (all is_plain_constraint t.constraints
          && (columns_supported sql m.column_mappings [] t.columns
              && all (λ p. any (is_column p.0) t.columns) m.column_mappings))

  is_empty-table_blockers :
      (t : SourceTable)
      → is_empty (table_blockers sql debug t) ≡ (
          not t.partitioned
          && (not (t.row_security || t.force_row_security)
              && ((t.trigger_count == 0)
                  && (name_eq t.replica_identity (codes "default")
                      || name_eq t.replica_identity (codes "nothing")))))
  unfolding table_blockers
  is_empty-table_blockers t = ground arith

  is_empty-constraint_blockers :
      (cs : List SourceConstraint)
      → is_empty (constraint_blockers sql debug cs) ≡ all is_plain_constraint cs
  unfolding constraint_blockers
  is_empty-constraint_blockers [] = refl
  is_empty-constraint_blockers (c ∷ cs) = ground (arith, is_empty-constraint_blockers cs)

  is_empty-mapping_blockers :
      (columns : List SourceColumn) (mappings : List (Name × Name))
      → is_empty (mapping_blockers sql debug columns mappings)
        ≡ all (λ p. any (is_column p.0) columns) mappings
  unfolding mapping_blockers
  is_empty-mapping_blockers columns [] = refl
  is_empty-mapping_blockers columns ((source, target) ∷ mappings) =
      ground (arith, is_empty-mapping_blockers columns mappings)

  -- The plan of a selected table has no blocker exactly when the table is supported.
  pub selected_plan_lem :
      (t : SourceTable) (m : TableMapping)
      → is_empty (selected_plan sql debug t m).blockers ≡ is_supported t m
  unfolding selected_plan
  selected_plan_lem t m =
      let columns = plan_columns sql debug m.column_mappings [] t.columns in
      rw
        (
          is_empty-sorted (all_blockers sql debug t m columns),
          is_empty-append (table_blockers sql debug t) (
              constraint_blockers sql debug t.constraints
              ++ (column_blockers sql debug columns
                  ++ mapping_blockers sql debug t.columns m.column_mappings)),
          is_empty-append (constraint_blockers sql debug t.constraints) (
              column_blockers sql debug columns
              ++ mapping_blockers sql debug t.columns m.column_mappings),
          is_empty-append (column_blockers sql debug columns)
              (mapping_blockers sql debug t.columns m.column_mappings),
          is_empty-table_blockers t,
          is_empty-constraint_blockers t.constraints,
          column_blockers-plan_columns sql debug m.column_mappings [] t.columns,
          is_empty-mapping_blockers t.columns m.column_mappings,
        )
        refl

  abbrev pub is_ready_for : SourceTable → Option TableMapping → Bool
  is_ready_for t none = true
  is_ready_for t (some m) = is_supported t m

  built :
      (t : SourceTable) (m : Option TableMapping)
      → is_unblocked (build_table_plan sql debug t m) ≡ true
      → is_ready_for t m ≡ true
  unfolding build_table_plan selected_plan
  built t none h = refl
  built t (some m) h =
      sym (selected_plan_lem t m)
      ∙ (&&-true _ (is_empty (selected_plan sql debug t m).blockers) h).1

  -- a table that is not selected, or one that is supported
  abbrev pub is_ready_table : MigrationConfig → SourceTable → Bool
  is_ready_table c t = is_ready_for t (table_mapping c t.schema t.name)

  plan_table_lem :
      (c : MigrationConfig) (t : SourceTable)
      → is_unblocked (plan_table sql debug c t) ≡ true
      → is_ready_table c t ≡ true
  plan_table_lem c t h = built t (table_mapping c t.schema t.name) h

  all-plan_table :
      (c : MigrationConfig) (ts : List SourceTable) (rest : List TablePlan)
      → all is_unblocked (map (plan_table sql debug c) ts ++ rest) ≡ true
      → all (is_ready_table c) ts ≡ true
  all-plan_table c [] rest h = refl
  all-plan_table c (t ∷ ts) rest h =
      let (first, later) = &&-true (is_unblocked (plan_table sql debug c t)) _ h in
      ground (arith, plan_table_lem c t first, all-plan_table c ts rest later)

  -- Every configured table is there, and every selected one is supported.
  pub record IsReady (c : MigrationConfig) (source : SourceInventory) : Type 0 where
    pub found : all (λ m. any (is_table m) source.tables) c.tables ≡ true
    pub supported : all (is_ready_table c) source.tables ≡ true

  all_found :
      (tables : List SourceTable) (ms : List TableMapping)
      → is_empty (map table_message (missing_tables tables ms)) ≡ true
      → all (λ m. any (is_table m) tables) ms ≡ true
  all_found tables [] h = refl
  all_found tables (m ∷ ms) h = elim (Bool-cases (any (is_table m) tables)) [
    | inl there ↦ ground (arith, there, all_found tables ms (rw there at h))
    | inr missing ↦ absurd (cc (rw missing at h))
  ]

  status_ready :
      (errors : List Name) (tables : List TablePlan)
      → status_of errors tables ≡ ready
      → (is_empty errors ≡ true) × (all is_unblocked tables ≡ true)
  status_ready errors tables h = elim (Bool-cases (is_empty errors && all is_unblocked tables)) [
    | inl good ↦ &&-true (is_empty errors) (all is_unblocked tables) good
    | inr bad ↦ absurd (cc (rw bad at h))
  ]

  reported :
      (c : MigrationConfig) (source : SourceInventory) (roles : List ObjectPlan)
      (grants : Option (List ObjectPlan)) (others : List Name) {r : PreflightReport}
      → report
          (map table_message (missing_tables source.tables c.tables) ++ others)
          (sort_by by_source (
            map (plan_table sql debug c) source.tables
            ++ map missing_plan (missing_tables source.tables c.tables)))
          roles
          grants
        ≡ some r
      → r.status ≡ ready
      → IsReady c source
  reported c source roles none others h s = absurd (cc h)
  reported c source roles (some grants) others {r} h s =
      let missing = missing_tables source.tables c.tables in
      let plans = map (plan_table sql debug c) source.tables ++ map missing_plan missing in
      let status : status_of (map table_message missing ++ others) (sort_by by_source plans)
          ≡ r.status =
        cc h in
      let (no_errors, unblocked) = status_ready _ (sort_by by_source plans) (status ∙ s) in
      let (no_missing, _) =
        &&-true (is_empty (map table_message missing)) (is_empty others)
          (sym (is_empty-append (map table_message missing) others) ∙ no_errors) in
      record {
        found = all_found source.tables c.tables no_missing;
        supported =
            all-plan_table c source.tables (map missing_plan missing)
              (sym (all-sort_by by_source is_unblocked plans) ∙ unblocked);
      }

  -- A preflight that is ready has found every configured table in the source, and every table that is
  -- selected is supported: not partitioned, without row security, triggers, constraints other than NOT
  -- NULL and special replica identity, with a target type for each column and distinct target names,
  -- and with every column that the mapping names.
  pub build_preflight_ready :
      (c : MigrationConfig) (source : SourceInventory) {r : PreflightReport}
      → build_preflight sql debug c source ≡ some r
      → r.status ≡ ready
      → IsReady c source
  unfolding build_preflight
  build_preflight_ready c source h s =
      reported c source (map (role_plan sql debug c) source.roles) (grant_plans c source.grants)
        (missing_grants c source.grants c.grant_mappings
          ++ missing_roles sql debug source.roles c.role_mappings)
        h s
