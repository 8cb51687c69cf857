-- ===== src/Server/Auth.antt =====
-- Accounts and the coarse policy on tables (crates/quackgis-server/src/auth.rs). The SCRAM library is
-- an argument of `password`.
pub mod Allowlist
pub mod Allowed
use quackgis.Base.{
  ℕ, Bool, true, false, not, ◌&&◌, ◌||◌, List, [], ◌∷◌, map, Option, none, some, Result, ok, err,
  ◌>>=◌, ◌>>◌, reject, if◌then◌else◌, Bytes, codes, any, all, contains, is_control, Eq, nat_Eq,
  list_Eq, pair_Eq, sort_by, list_less, then_less,
}
use quackgis.Role.Model.{Name, name_eq, eq_ignore_ascii_case, Role, RoleCatalog}
use quackgis.Role.Catalog.{map_get, is_some, role}
use quackgis.Role.Session.{RoleSessionState, NewError, session_new}
use quackgis.Server.Text.{trim}

pub data AuthMode : Type 0 where
  trust_mode password_mode edge_mode : AuthMode

pub data AccessRole : Type 0 where
  read_write read_only : AccessRole

abbrev pub is_read_write : AccessRole → Bool
is_read_write read_write = true
is_read_write read_only = false

pub record WriteTarget : Type 0 where
  pub schema : Name
  pub table : Name

pub data TablePolicy : Type 0 where
  all_tables : TablePolicy
  only_tables : List WriteTarget → TablePolicy

abbrev pub target_eq : WriteTarget → WriteTarget → Bool
target_eq a b = name_eq a.schema b.schema && name_eq a.table b.table

abbrev pub target_less : WriteTarget → WriteTarget → Bool
target_less a b =
    then_less (list_less a.schema b.schema) (list_less b.schema a.schema)
      (list_less a.table b.table)

-- `dedup`: each run of equal entries once
abbrev pub starts_with_target : List WriteTarget → WriteTarget → Bool
starts_with_target [] t = false
starts_with_target (x ∷ xs) t = target_eq x t

abbrev pub dedup : List WriteTarget → List WriteTarget
dedup [] = []
dedup (t ∷ ts) = let rest = dedup ts in if starts_with_target rest t then rest else t ∷ rest

abbrev pub sorted_targets : List WriteTarget → List WriteTarget
sorted_targets targets = dedup (sort_by target_less targets)

-- `TablePolicy::only`
abbrev pub only : List WriteTarget → TablePolicy
only targets = only_tables (sorted_targets targets)

abbrev pub names_target : Name × Name → WriteTarget → Bool
names_target target allowed =
    eq_ignore_ascii_case allowed.schema target.0 && eq_ignore_ascii_case allowed.table target.1

abbrev pub listed : List WriteTarget → Option (Name × Name) → Bool
listed targets none = false
listed targets (some target) = any (names_target target) targets

-- `TablePolicy::allows`
abbrev pub policy_allows : TablePolicy → Option (Name × Name) → Bool
policy_allows all_tables target = true
policy_allows (only_tables targets) target = listed targets target

pub record AuthUser : Type 0 where
  pub access : AccessRole
  pub write_policy : TablePolicy
  pub scram_salt : Bytes
  pub scram_salted_password : Bytes

-- `users` is the map as a list of its entries.
pub record AuthConfig : Type 0 where
  pub mode : AuthMode
  pub users : List (Name × AuthUser)
  pub trust_write_policy : TablePolicy
  pub read_policy : TablePolicy
  pub maintenance_user : Option Name
  pub role_catalog : Option RoleCatalog

pub data AuthError : Type 0 where
  empty_user bad_user empty_password nul_password same_user no_login_role wrong_mode : AuthError
  users_differ bad_maintenance_user unknown_maintenance_user unknown_user unknown_login : AuthError
  no_session : NewError → AuthError

unfoldable pub trust : AuthConfig
trust = record {
  mode = trust_mode;
  users = [];
  trust_write_policy = all_tables;
  read_policy = all_tables;
  maintenance_user = none;
  role_catalog = none;
}

abbrev pub is_blank : Name → Bool
is_blank [] = true
is_blank (_ ∷ _) = false

unfoldable pub validate_user_password : Name → Name → Result AuthError (Unit {0})
validate_user_password user password = do
  reject (is_blank (trim user)) empty_user
  reject (not (name_eq user (trim user)) || any is_control user) bad_user
  reject (is_blank password) empty_password
  reject (contains password 0) nul_password

-- `AuthUser::scram`
abbrev pub scram_user : (Name → Bytes × Bytes) → Name → AccessRole → AuthUser
scram_user scram password access = record {
  access = access;
  write_policy = all_tables;
  scram_salt = (scram password).0;
  scram_salted_password = (scram password).1;
}

-- the users of the password mode, of which the second is optional
unfoldable pub password_users :
    (Name → Bytes × Bytes)
    → Name
    → Name
    → Option (Name × Name)
    → Result AuthError (List (Name × AuthUser))
unfolding validate_user_password
password_users scram user secret none = do
  validate_user_password user secret
  ok ((user, scram_user scram secret read_write) ∷ [])
password_users scram user secret (some (reader, reader_secret)) = do
  validate_user_password user secret
  validate_user_password reader reader_secret
  reject (name_eq reader user) same_user
  ok (
      (user, scram_user scram secret read_write)
      ∷ (reader, scram_user scram reader_secret read_only)
      ∷ [])

-- `AuthConfig::password`
unfoldable pub password :
    (Name → Bytes × Bytes) → Name → Name → Option (Name × Name) → Result AuthError AuthConfig
unfolding password_users trust
password scram user secret readonly = do
  users ← password_users scram user secret readonly
  ok (record trust { mode = password_mode; users = users })

abbrev pub is_login : Role → Bool
is_login r = r.login

unfoldable pub edge_preauthenticated : RoleCatalog → Result AuthError AuthConfig
unfolding trust
edge_preauthenticated catalog = do
  reject (not (any is_login catalog.roles)) no_login_role
  ok (record trust { mode = edge_mode; role_catalog = some catalog })

abbrev pub is_password_mode : AuthMode → Bool
is_password_mode password_mode = true
is_password_mode _ = false

abbrev pub is_edge_mode : AuthMode → Bool
is_edge_mode edge_mode = true
is_edge_mode _ = false

abbrev pub user_names : List (Name × AuthUser) → List Name
user_names [] = []
user_names ((name, user) ∷ users) = name ∷ user_names users

abbrev pub login_names : List Role → List Name
login_names [] = []
login_names (r ∷ rs) = let rest = login_names rs in if r.login then r.name ∷ rest else rest

-- Two `HashSet`s are equal when each holds what the other does.
abbrev pub same_names : List Name → List Name → Bool
same_names a b = all (contains b) a && all (contains a) b

unfoldable pub with_role_catalog : AuthConfig → RoleCatalog → Result AuthError AuthConfig
with_role_catalog c catalog = do
  reject (not (is_password_mode c.mode)) wrong_mode
  reject (not (same_names (user_names c.users) (login_names catalog.roles))) users_differ
  ok (record c { role_catalog = some catalog })

abbrev pub logs_in : Option Role → Bool
logs_in none = false
logs_in (some r) = r.login

abbrev pub catalog_role : Option RoleCatalog → Name → Option Role
catalog_role none name = none
catalog_role (some c) name = role c name

abbrev pub allows_preauthenticated_login : AuthConfig → Name → Bool
allows_preauthenticated_login c name =
    is_edge_mode c.mode && logs_in (catalog_role c.role_catalog name)

abbrev pub access_of : Option AuthUser → AccessRole
access_of none = read_only
access_of (some user) = user.access

abbrev pub may_maintain : AuthConfig → AuthMode → Name → Bool
may_maintain c trust_mode user = true
may_maintain c password_mode user = is_read_write (access_of (map_get c.users user))
may_maintain c edge_mode user = allows_preauthenticated_login c user

unfoldable pub with_maintenance_user : AuthConfig → Name → Result AuthError AuthConfig
with_maintenance_user c user = do
  reject (not (name_eq (trim user) user) || (is_blank user || any is_control user))
      bad_maintenance_user
  reject (not (may_maintain c c.mode user)) unknown_maintenance_user
  ok (record c { maintenance_user = some user })

abbrev pub with_policy : TablePolicy → AuthUser → AuthUser
with_policy policy user =
    if is_read_write user.access then record user { write_policy = policy } else user

abbrev pub with_policies : TablePolicy → List (Name × AuthUser) → List (Name × AuthUser)
with_policies policy [] = []
with_policies policy ((name, user) ∷ users) =
    (name, with_policy policy user) ∷ with_policies policy users

unfoldable pub with_readwrite_allowlist : AuthConfig → List WriteTarget → AuthConfig
with_readwrite_allowlist c targets = elim c.mode [
  | trust_mode ↦ record c { trust_write_policy = only targets }
  | password_mode ↦ record c { users = with_policies (only targets) c.users }
  | edge_mode ↦ record c { trust_write_policy = only targets }
]

unfoldable pub with_read_allowlist : AuthConfig → List WriteTarget → AuthConfig
with_read_allowlist c targets = record c { read_policy = only targets }

abbrev pub get_user : List (Name × AuthUser) → Option Name → Option AuthUser
get_user users none = none
get_user users (some name) = map_get users name

abbrev pub edge_login : AuthConfig → Option Name → Bool
edge_login c none = false
edge_login c (some name) = allows_preauthenticated_login c name

unfoldable pub role_for_user : AuthConfig → Option Name → AccessRole
role_for_user c name = elim c.mode [
  | trust_mode ↦ read_write
  | password_mode ↦ access_of (get_user c.users name)
  | edge_mode ↦ if edge_login c name then read_write else read_only
]

abbrev pub user_writes : Option AuthUser → Option (Name × Name) → Bool
user_writes none target = false
user_writes (some user) target = is_read_write user.access && policy_allows user.write_policy target

unfoldable pub allows_write : AuthConfig → Option Name → Option (Name × Name) → Bool
allows_write c name target = elim c.mode [
  | trust_mode ↦ policy_allows c.trust_write_policy target
  | password_mode ↦ user_writes (get_user c.users name) target
  | edge_mode ↦ edge_login c name && policy_allows c.trust_write_policy target
]

abbrev pub knows_identity : AuthConfig → Option Name → Bool
knows_identity c name = elim c.mode [
  | trust_mode ↦ true
  | password_mode ↦ is_some (get_user c.users name)
  | edge_mode ↦ edge_login c name
]

unfoldable pub allows_read : AuthConfig → Option Name → Name × Name → Bool
allows_read c name target = knows_identity c name && policy_allows c.read_policy (some target)

abbrev pub same_user_name : Option Name → Option Name → Bool
same_user_name none none = true
same_user_name (some a) (some b) = name_eq a b
same_user_name _ _ = false

unfoldable pub allows_maintenance : AuthConfig → Option Name → Name × Name → Bool
unfolding allows_write
allows_maintenance c name target =
    same_user_name c.maintenance_user name && allows_write c name (some target)

abbrev pub name_or_default : Option Name → Name
name_or_default none = codes "postgres"
name_or_default (some name) = name

abbrev pub known_user : AuthConfig → Option Name → AuthMode → Result AuthError Name
known_user c name trust_mode = ok (name_or_default name)
known_user c none password_mode = err unknown_user
known_user c (some name) password_mode =
    if is_some (map_get c.users name) then ok name else err unknown_user
known_user c none edge_mode = err unknown_login
known_user c (some name) edge_mode =
    if allows_preauthenticated_login c name then ok name else err unknown_login

abbrev pub session_error : {A : Type 0} → Result NewError A → Result AuthError A
session_error (err e) = err (no_session e)
session_error (ok a) = ok a

unfoldable pub start_role_session : AuthConfig → Option Name → Result AuthError RoleSessionState
start_role_session c name = do
  user ← known_user c name c.mode
  session_error (session_new user c.role_catalog)
