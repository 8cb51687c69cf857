-- ===== src/Rest/Settings/Roles.antt =====
-- The gateway and the server agree on the names of roles (crates/quackgis-rest/src/main.rs and
-- crates/quackgis-server/src/role.rs).
use quackgis.Base.{
  ℕ, ◌≡◌, refl, true, false, not, ◌||◌, List, [], ◌∷◌, ok, arith, any, all, ltb, leb, ◌==◌,
  utf8_len, nat_Eq, list_Eq, reject-then, returned,
}
use quackgis.Role.Model.{Name}
use quackgis.Role.Config.Names.{is_foreign, is_empty, validate_role_name, is_ascii_lowercase}
use quackgis.Role.Config.Convert.Entries.{is_ok}
use quackgis.Rest.Settings.{
  is_identifier_char, valid_identifier, entries_of, is_invalid_role, parse_roles,
}

foreign_lem : (c : ℕ) → is_foreign c ≡ not (is_identifier_char c)
foreign_lem c = ground arith

any-all : (cs : List ℕ) → not (any is_foreign cs) ≡ all is_identifier_char cs
any-all [] = refl
any-all (c ∷ cs) = ground (arith, foreign_lem c, any-all cs)

start_lem : (c : ℕ) → (c == b'_' || is_ascii_lowercase c) ≡ true → is_identifier_char c ≡ true
start_lem c h = ground (arith, h)

short_lem : (n : ℕ) → leb n 63 ≡ not (ltb 63 n)
short_lem n = ground arith

-- A name is a role for the gateway exactly when the configuration of the server may declare it.
pub valid_identifier-validate_role_name :
    (name : Name) → not (is_invalid_role name) ≡ is_ok (validate_role_name name)
unfolding valid_identifier validate_role_name
valid_identifier-validate_role_name [] = ground arith
valid_identifier-validate_role_name (c ∷ cs) =
    ground (arith, any-all cs, start_lem c, short_lem (utf8_len (c ∷ cs)))

not-any :
    (names : List Name)
    → any is_invalid_role names ≡ false
    → all (λ n. is_ok (validate_role_name n)) names ≡ true
not-any [] h = refl
not-any (n ∷ ns) h = ground (arith, valid_identifier-validate_role_name n, not-any ns, h)

-- The roles that the gateway accepts in its settings are names that the server can declare.
pub parse_roles-validate_role_name :
    (value : Name) {roles : List Name}
    → parse_roles value ≡ ok roles
    → all (λ n. is_ok (validate_role_name n)) roles ≡ true
unfolding parse_roles
parse_roles-validate_role_name value h =
    let (nonempty, h1) = reject-then (is_empty (entries_of value)) _ _ h in
    let (valid, h2) = reject-then (any is_invalid_role (entries_of value)) _ _ h1 in
    returned (λ roles. all (λ n. is_ok (validate_role_name n)) roles ≡ true) (entries_of value) h2
      (not-any (entries_of value) valid)
