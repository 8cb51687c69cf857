-- ===== src/Rest/Cache.antt =====
-- The schemas that the gateway caches by role (crates/quackgis-rest/src/main.rs). The schema itself is
-- of the query engine, and a parameter.
pub mod Current
use quackgis.Base.{
  ℕ, Bool, true, false, ◌&&◌, Option, none, some, Result, ok, err, ◌==◌, if◌then◌else◌, ℤ, pos,
  negsuc, Bytes, Eq, nat_Eq, list_Eq,
}
use quackgis.Role.Model.{Name, name_eq}
use quackgis.Rest.Jwt.{Attempt}

pub data SchemaValidation : Type 0 where
  epochs : ℤ → ℤ → ℕ → SchemaValidation
  revision : Bytes → SchemaValidation

pub data EpochValidation : Type 0 where
  available : SchemaValidation → EpochValidation
  unsupported : EpochValidation

abbrev pub int_beq : ℤ → ℤ → Bool
int_beq (pos m) (pos n) = m == n
int_beq (negsuc m) (negsuc n) = m == n
int_beq (pos m) (negsuc n) = false
int_beq (negsuc m) (pos n) = false

abbrev pub validation_beq : SchemaValidation → SchemaValidation → Bool
validation_beq (epochs schema security generation) (epochs schema' security' generation') =
    int_beq schema schema' && (int_beq security security' && generation == generation')
validation_beq (revision digest) (revision digest') = name_eq digest digest'
validation_beq (epochs schema security generation) (revision digest) = false
validation_beq (revision digest) (epochs schema security generation) = false

pub record SchemaCacheEntry (Schema : Type 0) : Type 0 where
  pub role : Name
  pub schema : Schema
  pub validation : SchemaValidation

pub record DiscoveredSchema (Schema : Type 0) : Type 0 where
  pub schema : Schema
  pub validation : SchemaValidation

-- the map of the cache, by role
abbrev pub Caches : Type 0 → Type 0
Caches Schema = Name → Option (SchemaCacheEntry Schema)

module _ {Schema : Type 0} where
  abbrev pub entry_new : Name → DiscoveredSchema Schema → SchemaCacheEntry Schema
  entry_new role discovered = record {
    role = role;
    schema = discovered.schema;
    validation = discovered.validation;
  }

  unfoldable pub entry_matches : SchemaCacheEntry Schema → Name → SchemaValidation → Bool
  entry_matches entry role validation =
      name_eq entry.role role && validation_beq entry.validation validation

  abbrev pub cached : Name → SchemaValidation → Option (SchemaCacheEntry Schema) → Option Schema
  unfolding entry_matches
  cached role validation none = none
  cached role validation (some entry) =
      if entry_matches entry role validation then some entry.schema else none

  abbrev pub inserted : Caches Schema → Name → SchemaCacheEntry Schema → Caches Schema
  inserted caches role entry key = if name_eq key role then some entry else caches key

  -- The check of the epochs of the catalog: nothing when the schema must be discovered.
  unfoldable pub served :
      Bool → Name → Attempt EpochValidation → Caches Schema → Attempt (Option Schema)
  served true role validation caches = ok none
  served false role (err e) caches = err e
  served false role (ok unsupported) caches = ok none
  served false role (ok (available validation)) caches = ok (cached role validation (caches role))

  abbrev pub or_insert :
      Name
      → DiscoveredSchema Schema
      → Caches Schema
      → Option Schema
      → Caches Schema × Attempt Schema
  or_insert role discovered caches (some schema) = (caches, ok schema)
  or_insert role discovered caches none =
      (inserted caches role (entry_new role discovered), ok discovered.schema)

  unfoldable pub stored :
      Name → Attempt (DiscoveredSchema Schema) → Caches Schema → Caches Schema × Attempt Schema
  stored role (err e) caches = (caches, err e)
  stored role (ok discovered) caches =
      or_insert role discovered caches (cached role discovered.validation (caches role))

  abbrev pub or_discover :
      Name
      → Attempt (DiscoveredSchema Schema)
      → Caches Schema
      → Attempt (Option Schema)
      → Caches Schema × Attempt Schema
  or_discover role discovered caches (err e) = (caches, err e)
  or_discover role discovered caches (ok (some schema)) = (caches, ok schema)
  or_discover role discovered caches (ok none) = stored role discovered caches

  -- `validation` is the answer of the database on its epochs and `discovered` on its schema. Other
  -- requests may write between the two locks: `before` is the cache when it is read, and `after` when
  -- it is written.
  unfoldable pub role_schema :
      Bool
      → Name
      → Attempt EpochValidation
      → Attempt (DiscoveredSchema Schema)
      → Caches Schema
      → Caches Schema
      → Caches Schema × Attempt Schema
  unfolding served stored
  role_schema force_reload role validation discovered before after =
      or_discover role discovered after (served force_reload role validation before)
