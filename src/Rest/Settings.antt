-- ===== src/Rest/Settings.antt =====
-- The roles, tables, labels and secrets that the gateway is given (crates/quackgis-rest/src/main.rs).
pub mod Roles
use quackgis.Base.{
  ℕ, Bool, true, false, not, ◌&&◌, ◌||◌, List, [], ◌∷◌, map, Result, ok, err, ◌>>=◌, ◌>>◌, reject,
  ltb, leb, ◌==◌, if◌then◌else◌, codes, any, all, length, collect_set, Bytes, utf8_len, Eq, nat_Eq,
  list_Eq,
}
use quackgis.Role.Model.{Name}
use quackgis.Role.Config.Names.{
  is_ascii_lowercase, is_ascii_digit, starts_name, is_reserved, is_empty, split_at, tail,
}
use quackgis.Server.Text.{trim, trim_matches}
use quackgis.Server.Audit.{is_ascii_alphanumeric}

pub data SettingError : Type 0 where
  no_entry invalid_entry invalid_secret invalid_label : SettingError

abbrev pub max_jwt_secret_bytes : ℕ
max_jwt_secret_bytes = 4096

abbrev pub is_identifier_char : ℕ → Bool
is_identifier_char c = c == b'_' || (c == b'$' || (is_ascii_lowercase c || is_ascii_digit c))

unfoldable pub valid_identifier : Name → Bool
valid_identifier value =
    leb (utf8_len value) 63 && (starts_name value && all is_identifier_char value)

abbrev pub trimmed_entries : List Name → List Name
trimmed_entries [] = []
trimmed_entries (entry ∷ entries) =
    let rest = trimmed_entries entries in if is_empty (trim entry) then rest else trim entry ∷ rest

-- `split(',').map(str::trim).filter(…).collect::<HashSet<_>>()`
abbrev pub entries_of : Name → List Name
entries_of value = collect_set (trimmed_entries (split_at b',' value))

abbrev pub is_invalid_role : Name → Bool
is_invalid_role role = not (valid_identifier role) || is_reserved role

unfoldable pub parse_roles : Name → Result SettingError (List Name)
unfolding valid_identifier
parse_roles value = do
  let roles = entries_of value
  reject (is_empty roles) no_entry
  reject (any is_invalid_role roles) invalid_entry
  ok roles

abbrev pub is_ascii_alphabetic : ℕ → Bool
is_ascii_alphabetic c = (leb b'A' c && leb c b'Z') || (leb b'a' c && leb c b'z')

abbrev pub starts_table : List ℕ → Bool
starts_table [] = false
starts_table (c ∷ cs) = c == b'_' || is_ascii_alphabetic c

abbrev pub is_not_table_char : ℕ → Bool
is_not_table_char c = not (c == b'_') && not (is_ascii_alphanumeric c)

abbrev pub is_invalid_table : Name → Bool
is_invalid_table table = not (starts_table table) || any is_not_table_char (tail table)

unfoldable pub parse_tables : Name → Result SettingError (List Name)
parse_tables value = do
  let tables = entries_of value
  reject (is_empty tables) no_entry
  reject (any is_invalid_table tables) invalid_entry
  ok tables

abbrev pub is_label_byte : ℕ → Bool
is_label_byte byte = leb 33 byte && leb byte 126

unfoldable pub valid_jwt_label : Name → Bool
valid_jwt_label value =
    not (is_empty value) && (leb (utf8_len value) 256 && all is_label_byte value)

-- `u8::is_ascii_whitespace`
abbrev pub is_ascii_whitespace : ℕ → Bool
is_ascii_whitespace byte = byte == 32 || (byte == 9 || (byte == 10 || (byte == 12 || byte == 13)))

unfoldable pub trim_ascii : Bytes → Bytes
trim_ascii = trim_matches is_ascii_whitespace

-- the secret in the bytes of its file
unfoldable pub jwt_secret : Bytes → Result SettingError Bytes
unfolding trim_ascii
jwt_secret bytes = do
  let secret = trim_ascii bytes
  reject
      (ltb (length secret) 32
        || (ltb max_jwt_secret_bytes (length secret) || any is_ascii_whitespace secret))
      invalid_secret
  ok secret
