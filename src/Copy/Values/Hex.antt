-- ===== src/Copy/Values/Hex.antt =====
-- `parse_hex_into` and `decode_copy_field` against the hexadecimal text of a sequence of bytes.
use quackgis.Base.{ℕ, ◌+◌, ◌-◌, ◌/◌, ◌%◌, [], ◌∷◌, ltb, if◌then◌else◌, Bytes, nat_Eq}
use quackgis.Copy.Escapes.{backslash, letter_x}

-- The lower case digit of a number below 16.
abbrev pub hex_digit : ℕ → ℕ
hex_digit n = if ltb n 10 then b'0' + n else b'a' + (n - 10)

abbrev pub hex_encode : Bytes → Bytes
hex_encode [] = []
hex_encode (b ∷ bs) = hex_digit (b / 16) ∷ hex_digit (b % 16) ∷ hex_encode bs

-- The text of a binary value: its prefix and its digits.
abbrev pub bytea_text : Bytes → Bytes
bytea_text bs = backslash ∷ letter_x ∷ hex_encode bs
