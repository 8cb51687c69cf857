-- ===== src/Server/Auth/Allowed.antt =====
-- Who may write and maintain (crates/quackgis-server/src/auth.rs).
use quackgis.Base.{
  ◌≡◌, refl, sym, Bool, true, false, not, ◌&&◌, List, [], ◌∷◌, Option, none, some, ok, arith, any,
  nat_Eq, list_Eq, reject-then, returned, sort_by, any-sort_by, list_beq_iff, &&-true, ◌∙◌,
}
use quackgis.Role.Model.{Name, name_eq}
use quackgis.Role.Catalog.{map_get}
use quackgis.Server.Auth.{
  read_write, is_read_write, WriteTarget, target_less, target_eq, starts_with_target, dedup,
  sorted_targets, names_target, listed, only, AuthUser, AuthConfig, with_policies,
  with_readwrite_allowlist, role_for_user, user_writes, access_of, allows_write,
  with_maintenance_user, allows_maintenance, may_maintain,
}

target_eq→≡ : (a b : WriteTarget) → target_eq a b ≡ true → a ≡ b
target_eq→≡ a b h =
    let (s, t) = &&-true (name_eq a.schema b.schema) (name_eq a.table b.table) h in
    cc ((list_beq_iff a.schema b.schema).0 s, (list_beq_iff a.table b.table).0 t)

starts_any :
    (p : WriteTarget → Bool) (ts : List WriteTarget) (t : WriteTarget)
    → starts_with_target ts t ≡ true
    → p t ≡ true
    → any p ts ≡ true
starts_any p [] t h e = absurd (cc h)
starts_any p (x ∷ xs) t h e = let same = target_eq→≡ x t h in ground (arith, same, e)

any-dedup : (p : WriteTarget → Bool) (ts : List WriteTarget) → any p (dedup ts) ≡ any p ts
any-dedup p [] = refl
any-dedup p (t ∷ ts) = ground (arith, any-dedup p ts, starts_any p (dedup ts) t)

-- Sorting and removing duplicates does not change what is listed.
listed-sorted :
    (ts : List WriteTarget) (target : Option (Name × Name))
    → listed (sorted_targets ts) target ≡ listed ts target
listed-sorted ts none = refl
listed-sorted ts (some target) =
    any-dedup (names_target target) (sort_by target_less ts)
    ∙ any-sort_by target_less (names_target target) ts

map_get-with_policies :
    (ts : List WriteTarget) (users : List (Name × AuthUser)) (name : Name)
    (target : Option (Name × Name))
    → user_writes (map_get (with_policies (only ts) users) name) target
      ≡ (is_read_write (access_of (map_get users name)) && listed ts target)
map_get-with_policies ts [] name target = refl
map_get-with_policies ts ((n, user) ∷ users) name target =
    ground (arith, map_get-with_policies ts users name target, listed-sorted ts target)

-- With an allowlist, a user may write exactly those targets that it lists, whatever the mode, and
-- only with the access to write.
pub allows_write-with_readwrite_allowlist :
    (c : AuthConfig) (targets : List WriteTarget) (name : Option Name)
    (target : Option (Name × Name))
    → allows_write (with_readwrite_allowlist c targets) name target
      ≡ (is_read_write (role_for_user c name) && listed targets target)
unfolding allows_write with_readwrite_allowlist role_for_user
allows_write-with_readwrite_allowlist c targets none target =
    ground (arith, listed-sorted targets target)
allows_write-with_readwrite_allowlist c targets (some name) target =
    ground (arith, listed-sorted targets target, map_get-with_policies targets c.users name target)

-- Who may write anything has the access to write.
pub allows_write-role_for_user :
    (c : AuthConfig) (name : Option Name) (target : Option (Name × Name))
    → allows_write c name target ≡ true
    → role_for_user c name ≡ read_write
unfolding allows_write role_for_user
allows_write-role_for_user c name target h = ground (arith, h)

abbrev pub IsMaintainer : AuthConfig → Name → Name → Name × Name → Type 0
IsMaintainer d name user target =
    (name ≡ user)
    × (role_for_user d (some user) ≡ read_write)
    × (allows_write d (some name) (some target) ≡ true)

maintained :
    (c : AuthConfig) (user name : Name) (target : Name × Name)
    → not (may_maintain c c.mode user) ≡ false
    → allows_maintenance (record c { maintenance_user = some user }) (some name) target ≡ true
    → IsMaintainer (record c { maintenance_user = some user }) name user target
unfolding role_for_user allows_maintenance
maintained c user name target may m =
    let (same, writes) = &&-true (name_eq user name) _ m in
    (sym ((list_beq_iff user name).0 same), ground (arith, may), writes)

-- A configured maintenance user has the access to write, and the user who may maintain a table is the
-- configured one and may write it.
pub with_maintenance_user-allows_maintenance :
    (c : AuthConfig) (user : Name) {d : AuthConfig} (name : Name) (target : Name × Name)
    → with_maintenance_user c user ≡ ok d
    → allows_maintenance d (some name) target ≡ true
    → IsMaintainer d name user target
unfolding with_maintenance_user
with_maintenance_user-allows_maintenance c user {d} name target h m =
    let (clean, h1) = reject-then _ _ _ h in
    let (may, h2) = reject-then (not (may_maintain c c.mode user)) _ _ h1 in
    returned (λ d. allows_maintenance d (some name) target ≡ true → IsMaintainer d name user target)
      (record c { maintenance_user = some user }) h2 (maintained c user name target may) m
