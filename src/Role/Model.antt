-- ===== src/Role/Model.antt =====
-- The records and privileges of crates/quackgis-server/src/role.rs. A name is the list of its
-- characters.
use quackgis.Base.{
  ℕ, ◌+◌, ◌≡◌, ◌↔◌, Bool, true, false, ◌&&◌, List, map, Option, arith, leb, if◌then◌else◌, Eq,
  nat_Eq, list_Eq,
}

abbrev pub Name : Type 0
Name = List ℕ

abbrev pub name_eq : Name → Name → Bool
name_eq = list_Eq.beq

abbrev pub to_ascii_lowercase : ℕ → ℕ
to_ascii_lowercase c = if leb b'A' c && leb c b'Z' then c + 32 else c

unfoldable pub eq_ignore_ascii_case : Name → Name → Bool
eq_ignore_ascii_case a b = name_eq (map to_ascii_lowercase a) (map to_ascii_lowercase b)

pub record Role : Type 0 where
  pub oid : ℕ
  pub name : Name
  pub login : Bool
  pub inherit : Bool

pub record RoleMembership : Type 0 where
  pub oid : ℕ
  pub role : Name
  pub member : Name
  pub inherit_option : Bool
  pub set_option : Bool
  pub admin_option : Bool

pub record TableOwner : Type 0 where
  pub schema : Name
  pub table : Name
  pub role : Name

pub data SchemaPrivilege : Type 0 where
  usage : SchemaPrivilege

pub data TablePrivilege : Type 0 where
  select insert update delete maintain : TablePrivilege

pub data RolePrivilege : Type 0 where
  member usage set : RolePrivilege

abbrev pub schema_privilege_beq : SchemaPrivilege → SchemaPrivilege → Bool
schema_privilege_beq SchemaPrivilege.usage SchemaPrivilege.usage = true

pub schema_privilege_beq_iff : (a b : SchemaPrivilege) → (schema_privilege_beq a b ≡ true) ↔ (a ≡ b)
schema_privilege_beq_iff a b = ground arith

abbrev pub table_privilege_beq : TablePrivilege → TablePrivilege → Bool
table_privilege_beq select select = true
table_privilege_beq insert insert = true
table_privilege_beq update update = true
table_privilege_beq delete delete = true
table_privilege_beq maintain maintain = true
table_privilege_beq _ _ = false

pub table_privilege_beq_iff : (a b : TablePrivilege) → (table_privilege_beq a b ≡ true) ↔ (a ≡ b)
table_privilege_beq_iff a b = ground arith

instance abbrev pub schema_privilege_Eq : Eq SchemaPrivilege
schema_privilege_Eq = record { beq = schema_privilege_beq; beq_iff = schema_privilege_beq_iff }

instance abbrev pub table_privilege_Eq : Eq TablePrivilege
table_privilege_Eq = record { beq = table_privilege_beq; beq_iff = table_privilege_beq_iff }

-- A grant to `none` is a grant to PUBLIC.
pub record SchemaGrant : Type 0 where
  pub schema : Name
  pub role : Option Name
  pub privileges : List SchemaPrivilege

pub record TableGrant : Type 0 where
  pub schema : Name
  pub table : Name
  pub role : Option Name
  pub privileges : List TablePrivilege

-- `role_indexes` is the map from a name to the place of its role.
pub record RoleCatalog : Type 0 where
  pub roles : List Role
  pub memberships : List RoleMembership
  pub table_owners : List TableOwner
  pub schema_grants : List SchemaGrant
  pub table_grants : List TableGrant
  pub role_indexes : List (Name × ℕ)
