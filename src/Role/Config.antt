-- ===== src/Role/Config.antt =====
-- The role configuration that a server starts from: the document, the checks on its names, and its
-- conversion to a catalog (crates/quackgis-server/src/role.rs). The document is given as
-- deserialized; an error keeps the reason of the `bail!` and not its text.
pub mod Names
pub mod Cycles
pub mod Convert
use quackgis.Base.{ℕ, Bool, List, Option, Result}
use quackgis.Role.Model.{Name}

pub record RoleConfig : Type 0 where
  pub oid : ℕ
  pub name : Name
  pub login : Bool
  pub inherit : Bool

pub record MembershipConfig : Type 0 where
  pub oid : ℕ
  pub role : Name
  pub member : Name
  pub inherit_option : Option Bool
  pub set_option : Bool
  pub admin_option : Bool

pub record TableOwnerConfig : Type 0 where
  pub table : Name
  pub role : Name

pub data SchemaPrivilegeConfig : Type 0 where
  usage : SchemaPrivilegeConfig

pub data TablePrivilegeConfig : Type 0 where
  select insert update delete maintain : TablePrivilegeConfig

pub record SchemaGrantConfig : Type 0 where
  pub schema : Name
  pub role : Name
  pub privileges : List SchemaPrivilegeConfig

pub record TableGrantConfig : Type 0 where
  pub table : Name
  pub role : Name
  pub privileges : List TablePrivilegeConfig

pub record RoleConfigDocument : Type 0 where
  pub roles : List RoleConfig
  pub memberships : List MembershipConfig
  pub table_owners : List TableOwnerConfig
  pub schema_grants : List SchemaGrantConfig
  pub table_grants : List TableGrantConfig

-- `panicked` is the index `roles[role_indexes[member]]` out of range.
pub data ConfigError : Type 0 where
  too_large invalid_document no_roles invalid_name reserved_name duplicate_role : ConfigError
  reserved_oid duplicate_oid unknown_role own_member admin_option membership_oid : ConfigError
  duplicate_membership membership_cycle duplicate_owner unsupported_schema : ConfigError
  table_path table_name repeated_privilege no_privilege duplicate_schema_grant : ConfigError
  duplicate_table_grant panicked : ConfigError

abbrev pub Configured : Type 0 → Type 0
Configured A = Result ConfigError A
