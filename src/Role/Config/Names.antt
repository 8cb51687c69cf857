-- ===== src/Role/Config/Names.antt =====
-- The checks on the names of a role configuration (crates/quackgis-server/src/role.rs).
use quackgis.Base.{
  ℕ, Bool, true, false, not, ◌&&◌, ◌||◌, List, [], ◌∷◌, Option, none, some, ok, err, ◌>>=◌, ◌>>◌,
  reject, ltb, leb, ◌==◌, if◌then◌else◌, codes, any, contains, is_control, utf8_len, Eq, nat_Eq,
  list_Eq,
}
use quackgis.Role.Model.{Name, name_eq, eq_ignore_ascii_case}
use quackgis.Role.Catalog.{map_get, is_some}
use quackgis.Role.Config.{
  Configured, invalid_name, reserved_name, unknown_role, unsupported_schema, table_path, table_name,
  repeated_privilege, no_privilege,
}

abbrev pub max_role_name_bytes : ℕ
max_role_name_bytes = 63

abbrev pub bootstrap_owner_oid : ℕ
bootstrap_owner_oid = 10

abbrev pub is_ascii_lowercase : ℕ → Bool
is_ascii_lowercase c = leb b'a' c && leb c b'z'

abbrev pub is_ascii_digit : ℕ → Bool
is_ascii_digit c = leb b'0' c && leb c b'9'

-- what may start a name
abbrev pub starts_name : List ℕ → Bool
starts_name [] = false
starts_name (c ∷ cs) = c == b'_' || is_ascii_lowercase c

-- what `chars.any` refuses after the first character
abbrev pub is_foreign : ℕ → Bool
is_foreign c =
    not (c == b'_') && (not (c == b'$') && (not (is_ascii_lowercase c) && not (is_ascii_digit c)))

abbrev pub tail : List ℕ → List ℕ
tail [] = []
tail (c ∷ cs) = cs

abbrev pub is_reserved : Name → Bool
is_reserved name =
    name_eq name (codes "public")
    || (name_eq name (codes "none")
        || (name_eq name (codes "current_user") || name_eq name (codes "session_user")))

unfoldable pub validate_role_name : Name → Configured (Unit {0})
validate_role_name name = do
  reject
      (ltb max_role_name_bytes (utf8_len name)
        || (not (starts_name name) || any is_foreign (tail name)))
      invalid_name
  reject (is_reserved name) reserved_name

unfoldable pub known_role : List (Name × ℕ) → Name → Configured Name
known_role indexes name = if is_some (map_get indexes name) then ok name else err unknown_role

unfoldable pub normalize_grantee : List (Name × ℕ) → Name → Configured (Option Name)
unfolding known_role
normalize_grantee indexes grantee =
    if name_eq grantee (codes "PUBLIC")
    then ok none
    else (known_role indexes grantee >>= λ role. ok (some role))

abbrev pub is_main : Name → Bool
is_main raw = eq_ignore_ascii_case raw (codes "public") || eq_ignore_ascii_case raw (codes "main")

unfoldable pub normalize_schema : Name → Configured Name
normalize_schema raw = if is_main raw then ok (codes "main") else err unsupported_schema

abbrev pub onto_first : ℕ → List (List ℕ) → List (List ℕ)
onto_first c [] = (c ∷ []) ∷ []
onto_first c (part ∷ parts) = (c ∷ part) ∷ parts

-- `str::split` at a character
abbrev pub split_at : ℕ → List ℕ → List (List ℕ)
split_at separator [] = [] ∷ []
split_at separator (c ∷ cs) =
    let rest = split_at separator cs in if c == separator then [] ∷ rest else onto_first c rest

-- the table that the parts of a path name
abbrev pub table_of_path : List Name → Configured Name
table_of_path (table ∷ []) = ok table
table_of_path (schema ∷ table ∷ []) = if is_main schema then ok table else err table_path
table_of_path _ = err table_path

abbrev pub is_bad_table : Name → Bool
is_bad_table table =
    name_eq table [] || (ltb max_role_name_bytes (utf8_len table) || any is_control table)

unfoldable pub normalize_table : Name → Configured (Name × Name)
normalize_table raw = do
  table ← table_of_path (split_at b'.' raw)
  reject (is_bad_table table) table_name
  ok (codes "main", table)

-- the loop of `nonempty_unique`
abbrev pub unique_from : {T : Type 0} ⦃e : Eq T⦄ → List T → List T → Configured (List T)
unique_from seen [] = ok []
unique_from seen (value ∷ values) = do
  reject (contains seen value) repeated_privilege
  rest ← unique_from (value ∷ seen) values
  ok (value ∷ rest)

abbrev pub is_empty {ℓ} : {A : Type ℓ} → List A → Bool
is_empty [] = true
is_empty (_ ∷ _) = false

unfoldable pub nonempty_unique : {T : Type 0} ⦃e : Eq T⦄ → List T → Configured (List T)
nonempty_unique values = do
  result ← unique_from [] values
  reject (is_empty result) no_privilege
  ok result
