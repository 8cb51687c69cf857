-- ===== src/Server/Audit.antt =====
-- The labels of audit events (crates/quackgis-server/src/audit.rs).
pub mod Labels
use quackgis.Base.{
  ℕ, Bool, true, false, ◌&&◌, ◌||◌, List, [], ◌∷◌, map, leb, ◌==◌, if◌then◌else◌, take, codes,
}

abbrev pub is_ascii_alphanumeric : ℕ → Bool
is_ascii_alphanumeric c =
    (leb b'0' c && leb c b'9') || ((leb b'A' c && leb c b'Z') || (leb b'a' c && leb c b'z'))

-- the characters that a label keeps
abbrev pub is_label_char : ℕ → Bool
is_label_char c =
    is_ascii_alphanumeric c
    || (c == b'_' || (c == b'-' || (c == b'.' || (c == b'@' || (c == b'<' || c == b'>')))))

abbrev pub label_char : ℕ → ℕ
label_char c = if is_label_char c then c else b'_'

abbrev pub or_empty_label : List ℕ → List ℕ
or_empty_label [] = codes "<empty>"
or_empty_label (c ∷ cs) = c ∷ cs

unfoldable pub sanitize_label : List ℕ → List ℕ
sanitize_label value = or_empty_label (map label_char (take 128 value))
