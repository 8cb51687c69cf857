-- ===== src/Migrate/Plan.antt =====
-- The plan of a column (crates/quackgis-migrate/src/plan.rs). The SQL parser and the `{:?}` form of a
-- text are parameters; of a syntax tree the model has the constructors that the code tells apart.
pub mod Tables
pub mod Decimal
pub mod Preflight
pub mod Ready
use quackgis.Base.{
  ℕ, zero, suc, ◌+◌, ◌-◌, ◌*◌, ◌/◌, ◌%◌, ◌^◌, Bool, true, false, not, ◌&&◌, ◌||◌, List, [], ◌∷◌,
  ◌++◌, map, Option, none, some, Result, ok, err, ◌>>=◌, ◌>>◌, reject, ltb, leb, ◌==◌,
  if◌then◌else◌, codes, any, Eq, nat_Eq, list_Eq, ℤ, pos, negsuc, minus, fits,
}
use quackgis.Role.Model.{Name, name_eq, to_ascii_lowercase}
use quackgis.Migrate.Inventory.{SourceColumn}

pub data Action : Type 0 where
  migrates maps rejects : Action

pub record Disposition : Type 0 where
  pub action : Action
  pub reason : Name

abbrev pub migrate : Name → Disposition
migrate reason = record { action = migrates; reason = reason }

abbrev pub map_to : Name → Disposition
map_to reason = record { action = maps; reason = reason }

abbrev pub rejected_for : Name → Disposition
rejected_for reason = record { action = rejects; reason = reason }

abbrev pub is_reject : Action → Bool
is_reject rejects = true
is_reject _ = false

pub record ColumnPlan : Type 0 where
  pub source_name : Name
  pub source_type : Name
  pub target_name : Option Name
  pub target_type : Option Name
  pub nullable : Bool
  pub default_expression : Option Name
  pub comment : Option Name
  pub disposition : Disposition

-- The decimal digits of a number; a digit fewer needs less fuel than the number.
abbrev pub show_digits : ℕ → ℕ → Name
show_digits zero n = []
show_digits (suc fuel) n =
    let rest = show_digits fuel (n / 10) in
    if ltb n 10 then (b'0' + n) ∷ [] else rest ++ (b'0' + n % 10) ∷ []

abbrev pub show : ℕ → Name
show n = show_digits (suc n) n

-- `type_modifier.saturating_sub(4)` on 32 bits
abbrev pub saturating_sub_4 : ℤ → ℤ
saturating_sub_4 z = if fits 31 (minus z 4) then minus z 4 else negsuc (2 ^ 31 - 1)

abbrev pub sized_varchar : ℤ → Name
sized_varchar (pos zero) = codes "VARCHAR"
sized_varchar (pos (suc n)) = codes "VARCHAR(" ++ show (suc n) ++ codes ")"
sized_varchar (negsuc n) = codes "VARCHAR"

unfoldable pub varchar_target_type : ℤ → Name
varchar_target_type type_modifier = sized_varchar (saturating_sub_4 type_modifier)

unfoldable pub timestamp_target_type : ℤ → Name
timestamp_target_type (pos n) =
    if leb n 6 then codes "TIMESTAMP(" ++ show n ++ codes ")" else codes "TIMESTAMP"
timestamp_target_type (negsuc n) = codes "TIMESTAMP"

abbrev pub decimal_text : ℕ → ℕ → Name
decimal_text precision scale =
    codes "DECIMAL(" ++ show precision ++ codes "," ++ show scale ++ codes ")"

abbrev pub sized_decimal : ℕ → ℕ → Option Name
sized_decimal precision scale =
    if ltb 0 precision && (leb precision 38 && leb scale precision)
    then some (decimal_text precision scale)
    else none

unfoldable pub decimal_target_type : ℤ → Option Name
decimal_target_type (negsuc n) = none
decimal_target_type (pos n) =
    if ltb n 4 then none else sized_decimal ((n - 4) / 2 ^ 16 % 2 ^ 16) ((n - 4) % 2 ^ 11)

abbrev pub one_of : List Name → Name → Bool
one_of [] name = false
one_of (n ∷ ns) name = name_eq name n || one_of ns name

unfoldable pub is_geometry_target_name : Name → Bool
is_geometry_target_name name =
    one_of
      (codes "geom"
        ∷ codes "geometry"
        ∷ codes "the_geom"
        ∷ codes "wkb_geometry"
        ∷ codes "wkb_geom"
        ∷ codes "geom_wkb"
        ∷ codes "shape"
        ∷ codes "footprint"
        ∷ codes "way"
        ∷ [])
      (map to_ascii_lowercase name)

-- the syntax trees of sqlparser
pub data Expr : Type 0 where
  value typed_string other_expression : Expr
  nested cast unary_plus unary_minus other_unary : Expr → Expr

pub data SelectItem : Type 0 where
  unnamed : Expr → SelectItem
  other_item : SelectItem

pub data SetExpr : Type 0 where
  select : List SelectItem → SetExpr
  other_set : SetExpr

pub data Statement : Type 0 where
  query : SetExpr → Statement
  other_statement : Statement

pub record SqlParser : Type 0 where
  pub parse_sql : Name → Option (List Statement)
  pub to_string : Expr → Name

unfoldable pub literal_expression : Expr → Bool
literal_expression value = true
literal_expression typed_string = true
literal_expression other_expression = false
literal_expression (nested e) = literal_expression e
literal_expression (cast e) = literal_expression e
literal_expression (unary_plus e) = literal_expression e
literal_expression (unary_minus e) = literal_expression e
literal_expression (other_unary e) = false

abbrev pub single_expression : Option (List Statement) → Option Expr
single_expression (some (query (select (unnamed e ∷ [])) ∷ [])) = some e
single_expression _ = none

module _ (sql : SqlParser) where
  abbrev pub literal_text : Option Expr → Option Name
  literal_text none = none
  literal_text (some e) = if literal_expression e then some (sql.to_string e) else none

  unfoldable pub normalize_literal_default : Name → Option Name
  unfolding literal_expression
  normalize_literal_default raw =
      literal_text (single_expression (sql.parse_sql (codes "SELECT " ++ raw)))

  abbrev pub found_default : Option Name → Result Name (Option Name)
  found_default none = err (codes "default is not a literal or literal cast")
  found_default (some text) = ok (some text)

  abbrev pub default_of : Option Name → Result Name (Option Name)
  default_of none = ok none
  default_of (some raw) = found_default (normalize_literal_default raw)

  abbrev pub scalar : Name → Result Name (Name × Disposition)
  scalar name = ok (name, migrate (codes "exact release scalar"))

  abbrev pub decimal_type : Option Name → Result Name (Name × Disposition)
  decimal_type none = err (codes "unbounded or invalid numeric typmod is unsupported")
  decimal_type (some target) =
      ok (target, migrate (codes "bounded decimal precision and scale are retained"))

  abbrev pub is_text : Option Name → Name → Bool
  is_text none expected = false
  is_text (some text) expected = name_eq text expected

  abbrev pub is_number : Option ℤ → ℕ → Bool
  is_number (some (pos n)) expected = n == expected
  is_number _ expected = false

  abbrev pub is_plain_point : SourceColumn → Bool
  is_plain_point c =
      is_text c.geometry_type (codes "Point")
      && (is_number c.geometry_srid 0 && is_number c.geometry_dimensions 2)

  abbrev pub geometry_column : SourceColumn → Name → Result Name (Name × Disposition)
  geometry_column c target_name =
      if not (is_plain_point c)
      then err (codes "only 2D SRID-0 Point geometry is supported")
      else if not (is_geometry_target_name target_name)
      then err (codes "geometry target column needs a maintained WKB geometry name")
      else ok (codes "BLOB", map_to (codes "2D SRID-0 Point is converted to canonical NDR WKB"))

  -- the target type of a column, or why it has none
  unfoldable pub target_type_of : SourceColumn → Name → Result Name (Name × Disposition)
  unfolding varchar_target_type timestamp_target_type decimal_target_type is_geometry_target_name
  target_type_of c target_name =
      if name_eq c.type_name (codes "int2")
      then scalar (codes "SMALLINT")
      else if name_eq c.type_name (codes "int4")
      then scalar (codes "INTEGER")
      else if name_eq c.type_name (codes "int8")
      then scalar (codes "BIGINT")
      else if name_eq c.type_name (codes "bool")
      then scalar (codes "BOOLEAN")
      else if name_eq c.type_name (codes "float4")
      then scalar (codes "REAL")
      else if name_eq c.type_name (codes "float8")
      then scalar (codes "DOUBLE")
      else if name_eq c.type_name (codes "date")
      then scalar (codes "DATE")
      else if name_eq c.type_name (codes "timestamp")
      then ok (
        timestamp_target_type c.type_modifier,
        migrate (codes "timestamp without time zone uses microsecond target precision"),
      )
      else if name_eq c.type_name (codes "varchar")
      then ok (
        varchar_target_type c.type_modifier,
        migrate (codes "character varying length is retained"),
      )
      else if name_eq c.type_name (codes "text")
      then ok (codes "VARCHAR", map_to (codes "PostgreSQL text maps to unbounded DuckDB VARCHAR"))
      else if name_eq c.type_name (codes "bytea")
      then ok (codes "BLOB", map_to (codes "PostgreSQL bytea maps to DuckDB BLOB"))
      else if name_eq c.type_name (codes "numeric")
      then decimal_type (decimal_target_type c.type_modifier)
      else if name_eq c.type_name (codes "geometry")
      then geometry_column c target_name
      else if name_eq c.type_name (codes "geography")
      then err (codes "geography target semantics are not authoritative")
      else err (codes "source type is outside the release migration scalar set")

  unfoldable pub classified : SourceColumn → Name → Result Name ColumnPlan
  unfolding normalize_literal_default target_type_of
  classified c target_name = do
    reject c.identity (codes "identity generation is unsupported")
    reject c.generated (codes "generated columns are unsupported")
    default ← default_of c.default_expression
    target ← target_type_of c target_name
    ok (record {
      source_name = c.name;
      source_type = c.formatted_type;
      target_name = some target_name;
      target_type = some target.0;
      nullable = c.nullable;
      default_expression = default;
      comment = c.comment;
      disposition = target.1;
    })

  abbrev pub or_rejected : SourceColumn → Option Name → Result Name ColumnPlan → ColumnPlan
  or_rejected c target_name (ok plan) = plan
  or_rejected c target_name (err reason) = record {
    source_name = c.name;
    source_type = c.formatted_type;
    target_name = target_name;
    target_type = none;
    nullable = c.nullable;
    default_expression = none;
    comment = c.comment;
    disposition = rejected_for reason;
  }

  unfoldable pub classify_column : SourceColumn → Name → ColumnPlan
  unfolding classified
  classify_column c target_name = or_rejected c (some target_name) (classified c target_name)

  unfoldable pub rejected_column : SourceColumn → Name → ColumnPlan
  rejected_column c reason = or_rejected c none (err reason)
