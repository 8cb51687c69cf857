-- ===== src/Migrate/Plan/Ready/Grants.antt =====
-- A validated configuration meets the `expect` of `grant_plan` (crates/quackgis-migrate/src/plan.rs).
use quackgis.Base.{
  ◌≡◌, refl, sym, inl, inr, Bool, true, List, [], ◌∷◌, Option, none, some, ok, arith, all, find,
  nat_Eq, list_Eq, Bool-cases, &&-true, list_beq_iff,
}
use quackgis.Role.Model.{Name, name_eq}
use quackgis.Role.Catalog.{is_some, map_get}
use quackgis.Migrate.Config.{GrantMapping, TableMapping, MigrationConfig, table_mapping, validate}
use quackgis.Migrate.Config.Valid.{is_valid_grant, validate-IsValid, maps_to}
use quackgis.Migrate.Inventory.{SourceGrant, SourceInventory}
use quackgis.Migrate.Plan.{SqlParser}
use quackgis.Migrate.Plan.Preflight.{
  ObjectPlan, maps_grant, mapped_grant, grant_plan, grant_plans, push_plan, build_preflight,
}

find_lem {ℓ} :
    {A : Type ℓ} (p q : A → Bool) (xs : List A) {x : A}
    → find p xs ≡ some x
    → all q xs ≡ true
    → (p x ≡ true) × (q x ≡ true)
find_lem p q [] h a = absurd (cc h)
find_lem p q (y ∷ ys) {x} h a = elim (Bool-cases (p y)) [
  | inl hit ↦
      let e : y ≡ x = cc (rw hit at h) in
      let (first, rest) = &&-true (q y) (all q ys) a in (rw (sym e) hit, rw (sym e) first)
  | inr miss ↦ let (first, rest) = &&-true (q y) (all q ys) a in find_lem p q ys (rw miss at h) rest
]

selected :
    (c : MigrationConfig) (g : SourceGrant) (m : GrantMapping)
    → maps_grant g m ≡ true
    → is_valid_grant c m ≡ true
    → is_some (table_mapping c g.schema g.table) ≡ true
selected c g m h v =
    let (_, h1) = &&-true (name_eq m.source_role g.grantee) _ h in
    let (schema, h2) = &&-true (name_eq m.source_schema g.schema) _ h1 in
    let (table, _) = &&-true (name_eq m.source_table g.table) _ h2 in
    let (_, there) = &&-true (maps_to (map_get c.role_mappings m.source_role) m.target_role) _ v in
    let s = (list_beq_iff m.source_schema g.schema).0 schema in
    let t = (list_beq_iff m.source_table g.table).0 table in rw (s, t) at there

mapped :
    (g : SourceGrant) (m : GrantMapping) (t : Option TableMapping)
    → is_some t ≡ true
    → is_some (mapped_grant g m t) ≡ true
mapped g m none h = h
mapped g m (some t) h = refl

grant_plan-is_some :
    (c : MigrationConfig) (g : SourceGrant) (m : Option GrantMapping)
    → all (is_valid_grant c) c.grant_mappings ≡ true
    → find (maps_grant g) c.grant_mappings ≡ m
    → is_some (grant_plan c g m) ≡ true
unfolding grant_plan
grant_plan-is_some c g none v h = refl
grant_plan-is_some c g (some m) v h =
    let (hit, valid) = find_lem (maps_grant g) (is_valid_grant c) c.grant_mappings h v in
    mapped g m (table_mapping c g.schema g.table) (selected c g m hit valid)

pushed :
    (plan : Option ObjectPlan) (plans : Option (List ObjectPlan))
    → is_some plan ≡ true
    → is_some plans ≡ true
    → is_some (push_plan plan plans) ≡ true
pushed none plans p q = absurd (cc p)
pushed (some plan) none p q = absurd (cc q)
pushed (some plan) (some plans) p q = refl

grant_plans-is_some :
    (c : MigrationConfig) (gs : List SourceGrant)
    → all (is_valid_grant c) c.grant_mappings ≡ true
    → is_some (grant_plans c gs) ≡ true
unfolding grant_plans
grant_plans-is_some c [] v = refl
grant_plans-is_some c (g ∷ gs) v =
    pushed (grant_plan c g (find (maps_grant g) c.grant_mappings)) (grant_plans c gs)
      (grant_plan-is_some c g _ v refl) (grant_plans-is_some c gs v)

module _ (sql : SqlParser) (debug : Name → Name) where
  -- With a validated configuration the preflight does not panic, whatever the source holds.
  pub build_preflight-validate :
      (c : MigrationConfig) (source : SourceInventory)
      → validate c ≡ ok tt
      → is_some (build_preflight sql debug c source) ≡ true
  unfolding build_preflight
  build_preflight-validate c source h =
      ground (arith, grant_plans-is_some c source.grants (validate-IsValid c h).grants)
