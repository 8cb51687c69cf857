-- ===== src/Server/Auth/Allowlist.antt =====
-- The parsing of an allowlist of tables: `parse_table_allowlist`
-- (crates/quackgis-server/src/auth.rs).
pub mod Parsed
use quackgis.Base.{
  ℕ, Bool, true, false, not, ◌&&◌, ◌||◌, List, [], ◌∷◌, Result, ok, err, ◌>>=◌, ◌>>◌, reject,
  if◌then◌else◌, codes, any, is_control, ◌==◌,
}
use quackgis.Role.Model.{Name, eq_ignore_ascii_case}
use quackgis.Role.Config.Names.{split_at}
use quackgis.Server.Text.{trim, trim_matches}
use quackgis.Server.Auth.{WriteTarget, is_blank, sorted_targets}

pub data AllowlistError : Type 0 where
  empty_entry empty_list empty_identifier control_character not_a_table : AllowlistError

abbrev pub is_public_schema : Name → Bool
is_public_schema schema =
    eq_ignore_ascii_case schema (codes "public") || eq_ignore_ascii_case schema (codes "main")

abbrev pub is_quote : ℕ → Bool
is_quote c = c == b'"'

unfoldable pub normalize_identifier_part : Name → Result AllowlistError Name
normalize_identifier_part raw = do
  let part = trim_matches is_quote (trim raw)
  reject (is_blank part) empty_identifier
  reject (any is_control part) control_character
  ok part

-- `map(…).collect::<Result<Vec<_>>>()`
unfoldable pub collect_parts : List Name → Result AllowlistError (List Name)
unfolding normalize_identifier_part
collect_parts [] = ok []
collect_parts (raw ∷ raws) = do
  part ← normalize_identifier_part raw
  parts ← collect_parts raws
  ok (part ∷ parts)

-- the table that the parts of an entry name
unfoldable pub table_of_parts : List Name → Result AllowlistError Name
table_of_parts (table ∷ []) = ok table
table_of_parts (schema ∷ table ∷ []) = if is_public_schema schema then ok table else err not_a_table
table_of_parts (catalog ∷ schema ∷ table ∷ []) =
    if eq_ignore_ascii_case catalog (codes "quackgis") && is_public_schema schema
    then ok table
    else err not_a_table
table_of_parts _ = err not_a_table

unfoldable pub parse_table_target : Name → Result AllowlistError WriteTarget
unfolding collect_parts table_of_parts
parse_table_target raw = do
  parts ← collect_parts (split_at b'.' raw)
  table ← table_of_parts parts
  ok (record { schema = codes "main"; table = table })

-- the loop over the entries
unfoldable pub parse_entries : List Name → Result AllowlistError (List WriteTarget)
unfolding parse_table_target
parse_entries [] = ok []
parse_entries (entry ∷ entries) = do
  reject (is_blank (trim entry)) empty_entry
  target ← parse_table_target (trim entry)
  targets ← parse_entries entries
  ok (target ∷ targets)

abbrev pub no_targets : List WriteTarget → Bool
no_targets [] = true
no_targets (_ ∷ _) = false

unfoldable pub parse_table_allowlist : Name → Result AllowlistError (List WriteTarget)
unfolding parse_entries
parse_table_allowlist raw = do
  targets ← parse_entries (split_at b',' raw)
  reject (no_targets targets) empty_list
  ok (sorted_targets targets)
