-- ===== src/Role/Session.antt =====
-- The role and request state of a session: `RoleSessionState`
-- (crates/quackgis-server/src/role.rs). An operation returns the new state or the kind of its error.
pub mod Allowed
pub mod Epoch
pub mod Transaction
use quackgis.Base.{
  ℕ, ◌+◌, ◌-◌, ◌*◌, ◌≡◌, ◌↔◌, Bool, true, false, not, ◌&&◌, ◌||◌, List, [], ◌∷◌, Option, none, some,
  ltb, ◌==◌, if◌then◌else◌, Eq, nat_Eq, list_Eq, codes, Bytes, Result, ok, err, ◌>>=◌, ◌>>◌, reject,
  any, utf8_len, wrapping_add, arith,
}
use quackgis.Role.Model.{Name, name_eq, RoleCatalog, Role}
use quackgis.Role.Catalog.{map_get, is_some, role, knows, can_set_role}

abbrev pub request_jwt_claims : Name
request_jwt_claims = codes "request.jwt.claims"

abbrev pub max_request_setting_bytes : ℕ
max_request_setting_bytes = 16384

abbrev pub max_request_context_bytes : ℕ
max_request_context_bytes = 32768

pub data RoleSelection : Type 0 where
  session_user : RoleSelection
  named : Name → RoleSelection

abbrev pub selection_eq : RoleSelection → RoleSelection → Bool
selection_eq session_user session_user = true
selection_eq (named a) (named b) = name_eq a b
selection_eq _ _ = false

-- The request context is the map as a list of its entries.
pub record RoleSession : Type 0 where
  pub user : Name
  pub session_role : RoleSelection
  pub local_role : Option RoleSelection
  pub epoch : ℕ
  pub request_context : List (Name × Name)

-- `poisoned` is the state of the mutex around the session.
pub record RoleSessionState : Type 0 where
  pub catalog : Option RoleCatalog
  pub session : RoleSession
  pub poisoned : Bool

pub data RoleSessionErrorKind : Type 0 where
  unknown_role permission_denied no_transaction invalid_input internal : RoleSessionErrorKind

pub data NewError : Type 0 where
  no_configured_role nologin_role : NewError

check_login : Option Role → Result NewError (Unit {0})
check_login none = err no_configured_role
check_login (some r) = reject (not r.login) nologin_role

check_user : Option RoleCatalog → Name → Result NewError (Unit {0})
unfolding check_login
check_user none user = ok tt
check_user (some c) user = check_login (role c user)

-- `RoleSessionState::new`
unfoldable pub session_new : Name → Option RoleCatalog → Result NewError RoleSessionState
unfolding check_user
session_new user catalog = do
  check_user catalog user
  ok (record {
    catalog = catalog;
    session = record {
      user = user;
      session_role = session_user;
      local_role = none;
      epoch = 0;
      request_context = [];
    };
    poisoned = false;
  })

abbrev pub selected : RoleSelection → Name → Name
selected session_user user = user
selected (named role) user = role

abbrev pub local_or : Option RoleSelection → RoleSelection → RoleSelection
local_or none r = r
local_or (some l) r = l

unfoldable pub effective_role : RoleSession → Name
effective_role s = selected (local_or s.local_role s.session_role) s.user

pub record SessionIdentity : Type 0 where
  pub identity_user : Name
  pub current_user : Name
  pub identity_epoch : ℕ
  pub identity_context : List (Name × Name)

abbrev locked : RoleSessionState → Result RoleSessionErrorKind (Unit {0})
locked s = reject s.poisoned internal

unfoldable pub identity : RoleSessionState → Result RoleSessionErrorKind SessionIdentity
identity s = do
  locked s
  ok (record {
    identity_user = s.session.user;
    current_user = effective_role s.session;
    identity_epoch = s.session.epoch;
    identity_context = s.session.request_context;
  })

check_target : Option RoleCatalog → Name → Name → Result RoleSessionErrorKind RoleSelection
check_target none user target = err unknown_role
check_target (some c) user target = do
  reject (not (knows c target)) unknown_role
  reject (not (can_set_role c user target)) permission_denied
  ok (named target)

-- the selection that `SET ROLE` asks for
pub select_role :
    Option RoleCatalog → Name → Option Name → Result RoleSessionErrorKind RoleSelection
unfolding check_target
select_role catalog user none = ok session_user
select_role catalog user (some target) = check_target catalog user target

abbrev local_eq : Option RoleSelection → RoleSelection → Bool
local_eq none r = false
local_eq (some l) r = selection_eq l r

abbrev role_changed : Bool → RoleSession → RoleSelection → Bool
role_changed local s selection =
    if local
    then not (local_eq s.local_role selection)
    else not (selection_eq s.session_role selection) || is_some s.local_role

-- `epoch.wrapping_add(1)` if a change was made
abbrev pub bump : Bool → RoleSession → RoleSession
bump changed s = if changed then record s { epoch = wrapping_add s.epoch 1 } else s

pub apply_role : Bool → RoleSession → RoleSelection → RoleSession
apply_role local s selection = bump (role_changed local s selection) (
    if local
    then record s { local_role = some selection }
    else record s { session_role = selection; local_role = none })

unfoldable pub set_role :
    RoleSessionState → Option Name → Bool → Bool → Result RoleSessionErrorKind RoleSessionState
unfolding select_role apply_role
set_role s target local in_transaction = do
  reject (local && not in_transaction) no_transaction
  locked s
  selection ← select_role s.catalog s.session.user target
  ok (record s { session = apply_role local s.session selection })

abbrev is_session_user : RoleSelection → Bool
is_session_user session_user = true
is_session_user (named _) = false

unfoldable pub reset_role : RoleSessionState → Result RoleSessionErrorKind RoleSessionState
reset_role s = do
  locked s
  ok (
      if not (is_session_user s.session.session_role) || is_some s.session.local_role
      then record s {
        session = bump true (record (s.session) { session_role = session_user; local_role = none });
      }
      else s)

abbrev is_empty : List (Name × Name) → Bool
is_empty [] = true
is_empty (_ ∷ _) = false

abbrev pub ended : RoleSessionState → RoleSessionState
ended s =
    if is_some s.session.local_role || not (is_empty s.session.request_context)
    then record s {
      session = bump true (record (s.session) { local_role = none; request_context = [] });
    }
    else s

unfoldable pub end_transaction : RoleSessionState → Result RoleSessionErrorKind RoleSessionState
end_transaction s = do locked s; ok (ended s)

abbrev entry_bytes : Name → Option Name → ℕ
entry_bytes name none = 0
entry_bytes name (some current) = utf8_len name + utf8_len current

abbrev pub context_bytes : List (Name × Name) → ℕ
context_bytes [] = 0
context_bytes ((name, value) ∷ m) = utf8_len name + utf8_len value + context_bytes m

-- `HashMap::insert`
abbrev pub map_insert : List (Name × Name) → Name → Name → List (Name × Name)
map_insert [] name value = (name, value) ∷ []
map_insert ((n, v) ∷ m) name value =
    let rest = map_insert m name value in
    if name_eq n name then (name, value) ∷ m else (n, v) ∷ rest

abbrev setting_is : Option Name → Name → Bool
setting_is none value = false
setting_is (some current) value = name_eq current value

abbrev pub next_bytes : List (Name × Name) → Name → Name → ℕ
next_bytes context name value =
    context_bytes context - entry_bytes name (map_get context name) + utf8_len name + utf8_len value

insert_setting : RoleSession → Name → Name → RoleSession
insert_setting s name value =
    bump true (record s { request_context = map_insert s.request_context name value })

-- the state after an accepted setting
pub with_setting : RoleSessionState → Name → Name → RoleSessionState
unfolding insert_setting
with_setting s name value =
    if setting_is (map_get s.session.request_context name) value
    then s
    else record s { session = insert_setting s.session name value }

unfoldable pub set_request_setting :
    RoleSessionState → Name → Name → Bool → Result RoleSessionErrorKind RoleSessionState
unfolding with_setting
set_request_setting s name value in_transaction = do
  reject (not in_transaction) no_transaction
  reject (not (name_eq name request_jwt_claims)) invalid_input
  reject (ltb max_request_setting_bytes (utf8_len value) || any (λ c. c == 0) value) invalid_input
  locked s
  reject (ltb max_request_context_bytes (next_bytes s.session.request_context name value))
      invalid_input
  ok (with_setting s name value)
