-- ===== src/Tests/Role.antt =====
-- A catalog of three roles: `authenticator` may set `analyst`, which inherits `api_reader`.
use quackgis.Base.{
  contains, ◌≡◌, ◌↔◌, refl, true, false, List, [], ◌∷◌, none, some, ok, codes, nat_Eq, list_Eq,
}
use quackgis.Role.Model.{
  Name, RoleCatalog, RolePrivilege, TablePrivilege, SchemaPrivilege, eq_ignore_ascii_case,
}
use quackgis.Role.Worklist.{expand, scan, search_loop, closure_loop}
use quackgis.Role.Catalog.{
  role, knows, can_set_role, has_role_privilege, inherited_roles, has_schema_privilege,
  has_table_privilege, allows_table_operation, is_public,
}
use quackgis.Role.Catalog.Roles.{Holds, has_role_privilege_iff, inherited_roles_iff}
use quackgis.Role.Catalog.Tables.{HasTable, has_table_privilege_iff}
use quackgis.Role.Catalog.Inherited.{IsPublicGrant, has_table_privilege_public}
use quackgis.Role.Model.{TableGrant}
use quackgis.Role.Session.{
  RoleSessionState, RoleSelection, session_user, session_new, effective_role, set_role,
  end_transaction, set_request_setting, request_jwt_claims,
}
use quackgis.Role.Session.Allowed.{
  Request, sets_role, sets_request, perform, run, IsUsable, effective_role_allowed,
}
use quackgis.Role.Session.Transaction.{effective_role-end_transaction}

abbrev authenticator : Name
authenticator = codes "auth"

abbrev analyst : Name
analyst = codes "analyst"

abbrev api_reader : Name
api_reader = codes "reader"

abbrev catalog : RoleCatalog
catalog = record {
  roles =
      record { oid = 101; name = authenticator; login = true; inherit = true }
      ∷ record { oid = 102; name = analyst; login = false; inherit = true }
      ∷ record { oid = 103; name = api_reader; login = false; inherit = true }
      ∷ [];
  memberships =
      record {
        oid = 201;
        role = api_reader;
        member = analyst;
        inherit_option = true;
        set_option = true;
        admin_option = false;
      }
      ∷ record {
        oid = 202;
        role = analyst;
        member = authenticator;
        inherit_option = false;
        set_option = true;
        admin_option = false;
      }
      ∷ [];
  table_owners = record { schema = codes "main"; table = codes "roads"; role = analyst } ∷ [];
  schema_grants =
      record { schema = codes "main"; role = none; privileges = SchemaPrivilege.usage ∷ [] } ∷ [];
  table_grants =
      record {
        schema = codes "main";
        table = codes "points";
        role = some api_reader;
        privileges = TablePrivilege.select ∷ [];
      }
      ∷ record {
        schema = codes "main";
        table = codes "open";
        role = none;
        privileges = TablePrivilege.select ∷ [];
      }
      ∷ [];
  role_indexes = (authenticator, 0) ∷ (analyst, 1) ∷ (api_reader, 2) ∷ [];
}

may_set : can_set_role catalog authenticator api_reader ≡ true
unfolding can_set_role has_role_privilege role search_loop scan
may_set = refl

not_inherited : has_role_privilege catalog authenticator analyst RolePrivilege.usage ≡ false
unfolding has_role_privilege role search_loop scan
not_inherited = refl

known_analyst : knows catalog analyst ≡ true
unfolding role
known_analyst = refl

known_reader : knows catalog api_reader ≡ true
unfolding role
known_reader = refl

analyst_private : is_public analyst ≡ false
unfolding eq_ignore_ascii_case
analyst_private = refl

reader_private : is_public api_reader ≡ false
unfolding eq_ignore_ascii_case
reader_private = refl

public_name : is_public (codes "PUBLIC") ≡ true
unfolding eq_ignore_ascii_case
public_name = refl

has_role_privilege_iff_example :
    (has_role_privilege catalog authenticator api_reader RolePrivilege.set ≡ true) ↔ (
      (knows catalog authenticator ≡ true)
      × (knows catalog api_reader ≡ true)
      × Holds catalog RolePrivilege.set authenticator api_reader)
has_role_privilege_iff_example =
    has_role_privilege_iff catalog authenticator api_reader RolePrivilege.set

inherited_roles_iff_example :
    (contains (inherited_roles catalog analyst) api_reader ≡ true)
    ↔ Holds catalog RolePrivilege.usage analyst api_reader
inherited_roles_iff_example = inherited_roles_iff catalog analyst api_reader known_analyst

has_table_privilege_iff_example :
    (has_table_privilege catalog analyst (codes "main") (codes "points") TablePrivilege.select
      ≡ true)
    ↔ HasTable catalog analyst (codes "main") (codes "points") TablePrivilege.select
has_table_privilege_iff_example =
    has_table_privilege_iff catalog analyst known_analyst (codes "main") (codes "points")
      TablePrivilege.select analyst_private

reader_selects :
    allows_table_operation catalog api_reader (codes "main") (codes "points") TablePrivilege.select
    ≡ true
unfolding allows_table_operation has_schema_privilege has_table_privilege inherited_roles role
    closure_loop expand eq_ignore_ascii_case
reader_selects = refl

public_reads_open :
    (has_table_privilege catalog
        (codes "PUBLIC")
        (codes "main")
        (codes "open")
        TablePrivilege.select
      ≡ true)
    ↔ ((g : TableGrant) × IsPublicGrant catalog
          (codes "main")
          (codes "open")
          TablePrivilege.select
          g)
public_reads_open =
    has_table_privilege_public catalog (codes "main") (codes "open") TablePrivilege.select
      (codes "PUBLIC") public_name

abbrev session : RoleSessionState
session = record {
  catalog = some catalog;
  session = record {
    user = authenticator;
    session_role = session_user;
    local_role = none;
    epoch = 0;
    request_context = [];
  };
  poisoned = false;
}

session_starts : session_new authenticator (some catalog) ≡ ok session
unfolding session_new role
session_starts = refl

abbrev requests : List Request
requests =
    sets_role (some api_reader) true true
    ∷ sets_request request_jwt_claims (codes "{}") true
    ∷ sets_role (some (codes "nobody")) true true
    ∷ []

effective_role_allowed_example :
    IsUsable (some catalog) authenticator (effective_role (run session requests).session)
effective_role_allowed_example =
    effective_role_allowed (some catalog) authenticator requests session_starts

acts_as_reader : effective_role (run session requests).session ≡ api_reader
unfolding effective_role run perform set_role set_request_setting can_set_role has_role_privilege
    role search_loop scan
acts_as_reader = refl

abbrev as_reader : RoleSessionState
as_reader = record {
  catalog = some catalog;
  session = record {
    user = authenticator;
    session_role = session_user;
    local_role = some (RoleSelection.named api_reader);
    epoch = 1;
    request_context = [];
  };
  poisoned = false;
}

reader_set : perform session (sets_role (some api_reader) true true) ≡ ok as_reader
unfolding perform set_role can_set_role has_role_privilege role search_loop scan
reader_set = refl

effective_role-end_transaction_example :
    (t : RoleSessionState) × (end_transaction (run session requests) ≡ ok t)
    × (effective_role t.session ≡ effective_role session.session)
    × (t.session.request_context ≡ [])
effective_role-end_transaction_example =
    effective_role-end_transaction session requests refl refl (refl, (tt, (refl, tt)))
