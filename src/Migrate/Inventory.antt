-- ===== src/Migrate/Inventory.antt =====
-- The inventory of a source database (crates/quackgis-migrate/src/inventory.rs).
use quackgis.Base.{ℕ, Bool, List, Option, ℤ}
use quackgis.Role.Model.{Name}

pub record SourceColumn : Type 0 where
  pub name : Name
  pub type_name : Name
  pub formatted_type : Name
  pub type_modifier : ℤ
  pub nullable : Bool
  pub default_expression : Option Name
  pub comment : Option Name
  pub identity : Bool
  pub generated : Bool
  pub geometry_type : Option Name
  pub geometry_srid : Option ℤ
  pub geometry_dimensions : Option ℤ

pub data ConstraintKind : Type 0 where
  check primary_key unique foreign_key exclusion not_null other : ConstraintKind

pub record SourceConstraint : Type 0 where
  pub name : Name
  pub kind : ConstraintKind
  pub definition : Name

pub record SourceTable : Type 0 where
  pub schema : Name
  pub name : Name
  pub row_count : ℕ
  pub estimated_bytes : ℕ
  pub comment : Option Name
  pub row_security : Bool
  pub force_row_security : Bool
  pub replica_identity : Name
  pub partitioned : Bool
  pub trigger_count : ℕ
  pub columns : List SourceColumn
  pub constraints : List SourceConstraint

pub record SourceRole : Type 0 where
  pub name : Name
  pub login : Bool

pub record SourceGrant : Type 0 where
  pub grantee : Name
  pub schema : Name
  pub table : Name
  pub column : Option Name
  pub privilege : Name

-- The identity of the source and the objects other than tables, which are only reported, are left
-- out.
pub record SourceInventory : Type 0 where
  pub tables : List SourceTable
  pub roles : List SourceRole
  pub grants : List SourceGrant
