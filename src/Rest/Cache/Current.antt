-- ===== src/Rest/Cache/Current.antt =====
-- The gateway serves no schema that the database has outdated (crates/quackgis-rest/src/main.rs).
use quackgis.Base.{
  ◌≡◌, refl, ap, subst, sym, Bool, true, false, Option, none, some, ok, err, if-cases, &&-true, ℤ,
  pos, negsuc, nat_Eq, list_Eq, arith,
}
use quackgis.Role.Model.{Name, name_eq}
use quackgis.Role.Worklist.Expand.{name_eq→≡}
use quackgis.Rest.Jwt.{Attempt}
use quackgis.Rest.Cache.{
  SchemaValidation, epochs, revision, EpochValidation, available, unsupported, int_beq,
  validation_beq, SchemaCacheEntry, DiscoveredSchema, Caches, entry_matches, cached, inserted,
  entry_new, served, or_insert, stored, or_discover, role_schema,
}

int_beq→≡ : (m n : ℤ) → int_beq m n ≡ true → m ≡ n
int_beq→≡ (pos m) (pos n) h = ap pos (ground (arith, h))
int_beq→≡ (negsuc m) (negsuc n) h = ap negsuc (ground (arith, h))
int_beq→≡ (pos m) (negsuc n) h = absurd (cc h)
int_beq→≡ (negsuc m) (pos n) h = absurd (cc h)

validation_beq→≡ : (v w : SchemaValidation) → validation_beq v w ≡ true → v ≡ w
validation_beq→≡ (epochs a b n) (epochs c d m) h =
    let (first, rest) = &&-true _ _ h in
    let (second, third) = &&-true _ _ rest in
    let e : a ≡ c = int_beq→≡ a c first in
    let e' : b ≡ d = int_beq→≡ b d second in
    let e'' : n ≡ m = ground (arith, third) in cc (e, e', e'')
validation_beq→≡ (revision a) (revision b) h = ap revision (name_eq→≡ a b h)
validation_beq→≡ (epochs a b n) (revision d) h = absurd (cc h)
validation_beq→≡ (revision d) (epochs a b n) h = absurd (cc h)

-- `Found role v schema`: the database has shown the schema to the role when its catalog was at `v`.
module _ {Schema : Type 0} (Found : Name → SchemaValidation → Schema → Type 0) where
  abbrev pub IsSound : Caches Schema → Type 0
  IsSound caches =
      (key : Name) (entry : SchemaCacheEntry Schema)
      → caches key ≡ some entry
      → Found key entry.validation entry.schema

  -- the schema was found at the epochs that the database has just given, or by a discovery just made
  -- or at the same state of the catalog as it
  pub data IsCurrent (force_reload : Bool) (role : Name) (validation : Attempt EpochValidation)
      (discovered : Attempt (DiscoveredSchema Schema)) (schema : Schema) : Type 0 where
    at_epochs :
        (v : SchemaValidation)
        → force_reload ≡ false
        → validation ≡ ok (available v)
        → Found role v schema
        → IsCurrent force_reload role validation discovered schema
    at_discovery :
        (d : DiscoveredSchema Schema)
        → discovered ≡ ok d
        → Found role d.validation schema
        → IsCurrent force_reload role validation discovered schema

  cached-Found :
      (caches : Caches Schema) (role : Name) (v : SchemaValidation)
      (found : Option (SchemaCacheEntry Schema))
      → IsSound caches
      → caches role ≡ found
      → {schema : Schema} → cached role v found ≡ some schema
      → Found role v schema
  unfolding entry_matches
  cached-Found caches role v none sound at {schema} h = absurd (cc h)
  cached-Found caches role v (some entry) sound at {schema} h =
      if-cases (λ o. o ≡ some schema → Found role v schema) (entry_matches entry role v)
        (λ hit same.
          let e : entry.schema ≡ schema = cc same in
          let e' = validation_beq→≡ entry.validation v (&&-true _ _ hit).1 in
          subst (Found role v) e (subst (λ w. Found role w entry.schema) e' (sound role entry at)))
        (λ miss same. absurd (cc same)) h

  Found-entry_new :
      (role key : Name) (d : DiscoveredSchema Schema) {entry : SchemaCacheEntry Schema}
      → Found role d.validation d.schema
      → key ≡ role
      → entry_new role d ≡ entry
      → Found key entry.validation entry.schema
  Found-entry_new role key d found same e =
      subst (λ e. Found key e.validation e.schema) e
        (subst (λ k. Found k d.validation d.schema) (sym same) found)

  inserted-IsSound :
      (caches : Caches Schema) (role : Name) (d : DiscoveredSchema Schema)
      → IsSound caches
      → Found role d.validation d.schema
      → IsSound (inserted caches role (entry_new role d))
  inserted-IsSound caches role d sound found key entry =
      if-cases (λ o. o ≡ some entry → Found key entry.validation entry.schema) (name_eq key role)
        (λ same at.
          let e : entry_new role d ≡ entry = cc at in
          Found-entry_new role key d found (name_eq→≡ key role same) e)
        (λ other at. sound key entry at)

  -- What a request leaves in the cache and answers: `current` says which schemas it may answer.
  abbrev pub Answered : (Schema → Type 0) → Caches Schema × Attempt Schema → Type 0
  Answered current r = IsSound r.0 × ((schema : Schema) → r.1 ≡ ok schema → current schema)

  or_insert-Answered :
      (force_reload : Bool) (role : Name) (validation : Attempt EpochValidation)
      (d : DiscoveredSchema Schema) (caches : Caches Schema) (o : Option Schema)
      → IsSound caches
      → Found role d.validation d.schema
      → ((schema : Schema) → o ≡ some schema → Found role d.validation schema)
      → Answered (IsCurrent force_reload role validation (ok d)) (or_insert role d caches o)
  or_insert-Answered force role v d caches (some s) sound found cached =
      (sound, λ t e. at_discovery d refl (cached t (cc e)))
  or_insert-Answered force role v d caches none sound found cached = (
    inserted-IsSound caches role d sound found,
    λ t e. at_discovery d refl (subst (Found role d.validation) (cc e) found),
  )

  stored-Answered :
      (force_reload : Bool) (role : Name) (validation : Attempt EpochValidation)
      (discovered : Attempt (DiscoveredSchema Schema)) (caches : Caches Schema)
      → IsSound caches
      → ((d : DiscoveredSchema Schema) → discovered ≡ ok d → Found role d.validation d.schema)
      → Answered (IsCurrent force_reload role validation discovered) (stored role discovered caches)
  unfolding stored
  stored-Answered force role v (err e) caches sound found = (sound, λ t bad. absurd (cc bad))
  stored-Answered force role v (ok d) caches sound found =
      or_insert-Answered force role v d caches (cached role d.validation (caches role)) sound
        (found d refl) (λ t e. cached-Found caches role d.validation (caches role) sound refl e)

  or_discover-Answered :
      (force_reload : Bool) (role : Name) (validation : Attempt EpochValidation)
      (discovered : Attempt (DiscoveredSchema Schema)) (caches : Caches Schema)
      (fast : Attempt (Option Schema))
      → IsSound caches
      → ((d : DiscoveredSchema Schema) → discovered ≡ ok d → Found role d.validation d.schema)
      → ((schema : Schema)
          → fast ≡ ok (some schema)
          → IsCurrent force_reload role validation discovered schema)
      → Answered
          (IsCurrent force_reload role validation discovered)
          (or_discover role discovered caches fast)
  or_discover-Answered force role v discovered caches (err e) sound found fast =
      (sound, λ t bad. absurd (cc bad))
  or_discover-Answered force role v discovered caches (ok none) sound found fast =
      stored-Answered force role v discovered caches sound found
  or_discover-Answered force role v discovered caches (ok (some s)) sound found fast =
      (sound, λ t e. fast t (cc e))

  served-IsCurrent :
      (force_reload : Bool) (role : Name) (validation : Attempt EpochValidation)
      (discovered : Attempt (DiscoveredSchema Schema)) (before : Caches Schema)
      → IsSound before
      → (schema : Schema) → served force_reload role validation before ≡ ok (some schema)
      → IsCurrent force_reload role validation discovered schema
  unfolding served
  served-IsCurrent true role v discovered before sound t h = absurd (cc h)
  served-IsCurrent false role (err e) discovered before sound t h = absurd (cc h)
  served-IsCurrent false role (ok unsupported) discovered before sound t h = absurd (cc h)
  served-IsCurrent false role (ok (available v)) discovered before sound t h =
      at_epochs v refl refl (cached-Found before role v (before role) sound refl (cc h))

  -- When every cached schema was found by the role of its key, and the discovery finds what it
  -- reports, a request keeps the cache so, and the schema that it answers is current: it was found at
  -- the epochs that the database has just given, unless a reload is forced, or at the state of the
  -- catalog that the discovery reports. Other requests may write between the two looks at the cache.
  pub role_schema-IsCurrent :
      (force_reload : Bool) (role : Name) (validation : Attempt EpochValidation)
      (discovered : Attempt (DiscoveredSchema Schema)) (before after : Caches Schema)
      → IsSound before
      → IsSound after
      → ((d : DiscoveredSchema Schema) → discovered ≡ ok d → Found role d.validation d.schema)
      → Answered
          (IsCurrent force_reload role validation discovered)
          (role_schema force_reload role validation discovered before after)
  unfolding role_schema
  role_schema-IsCurrent force role validation discovered before after sound sound' found =
      or_discover-Answered force role validation discovered after
        (served force role validation before) sound' found
        (served-IsCurrent force role validation discovered before sound)
