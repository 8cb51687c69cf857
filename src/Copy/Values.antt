-- ===== src/Copy/Values.antt =====
-- The values of a field's text: `parse_integer`, `parse_bool`, `parse_hex_into` and `field_text`.
pub mod Decimal
pub mod Signed
pub mod Hex
use Prim.Native.String.{String}
use quackgis.Base.{
  ℕ, zero, suc, ◌+◌, ◌-◌, ◌*◌, ◌%◌, Bool, true, false, not, ◌&&◌, ◌||◌, Option, none, some, List,
  [], ◌∷◌, map, ltb, leb, ◌==◌, if◌then◌else◌, Bytes, codes, length, all, contains, nat_Eq, list_Eq,
  Result, ok, err, reject, ◌>>=◌, ◌>>◌, ℤ, pos, times, plus, minus, checked_i64,
}
use quackgis.Copy.Errors.{Failure, text, copy_error, copy_failure}
use quackgis.Copy.Escapes.{backslash, letter_x, hex_nibble}

-- `u8::is_ascii_digit`
abbrev pub is_ascii_digit : ℕ → Bool
is_ascii_digit byte = leb b'0' byte && leb byte b'9'

-- format!("invalid COPY {label} value")
abbrev pub invalid_value : String → Failure
invalid_value label = copy_error "22P02" (text "invalid COPY " ∷ text label ∷ text " value" ∷ [])

-- `checked_mul(10)` and then `checked_sub` or `checked_add` of the digit.
unfoldable pub next_parsed : Bool → ℤ → ℕ → Option ℤ
next_parsed negative parsed digit = elim (checked_i64 (times parsed 10)) [
  | none ↦ none
  | some value ↦
      checked_i64 (if negative then minus value (digit - b'0') else plus value (digit - b'0'))
]

unfoldable pub parse_digits : Bool → String → ℤ → Bytes → Result Failure ℤ
parse_digits negative label parsed [] = ok parsed
parse_digits negative label parsed (digit ∷ digits) = elim (next_parsed negative parsed digit) [
  | none ↦ err (invalid_value label)
  | some value ↦ parse_digits negative label value digits
]

-- Whether a text starts with a minus, and what follows its sign.
abbrev pub split_sign : Bytes → Bool × Bytes
split_sign [] = (false, [])
split_sign (c ∷ rest) =
    if c == b'-' then (true, rest) else if c == b'+' then (false, rest) else (false, c ∷ rest)

unfoldable pub parse_integer : Bytes → String → Result Failure ℤ
parse_integer value label = do
  let (negative, digits) = split_sign value
  reject (length digits == 0 || not (all is_ascii_digit digits)) (invalid_value label)
  parse_digits negative label (pos 0) digits

-- What `std::str::from_utf8` expects after a first byte: a range for each byte that follows.
abbrev pub utf8_following : ℕ → Option (List (ℕ × ℕ))
utf8_following b =
    let any : ℕ × ℕ = (0x80, 0xbf) in
    if ltb b 0x80
    then some []
    else if leb 0xc2 b && leb b 0xdf
    then some (any ∷ [])
    else if b == 0xe0
    then some ((0xa0, 0xbf) ∷ any ∷ [])
    else if b == 0xed
    then some ((0x80, 0x9f) ∷ any ∷ [])
    else if leb 0xe1 b && leb b 0xef
    then some (any ∷ any ∷ [])
    else if b == 0xf0
    then some ((0x90, 0xbf) ∷ any ∷ any ∷ [])
    else if leb 0xf1 b && leb b 0xf3
    then some (any ∷ any ∷ any ∷ [])
    else if b == 0xf4
    then some ((0x80, 0x8f) ∷ any ∷ any ∷ [])
    else none

abbrev pub is_utf8 : List (ℕ × ℕ) → Bytes → Bool
is_utf8 [] [] = true
is_utf8 (_ ∷ _) [] = false
is_utf8 [] (b ∷ bs) = elim (utf8_following b) [ none ↦ false | some ranges ↦ is_utf8 ranges bs ]
is_utf8 (range ∷ ranges) (b ∷ bs) = leb range.0 b && leb b range.1 && is_utf8 ranges bs

unfoldable pub field_text : Bytes → Result Failure Bytes
field_text value = do
  reject (not (is_utf8 [] value)) (copy_failure "22021" "COPY text must be valid UTF-8")
  ok value

abbrev pub to_ascii_lowercase : ℕ → ℕ
to_ascii_lowercase b = if leb b'A' b && leb b b'Z' then b + 32 else b

abbrev pub true_words : List Bytes
true_words = codes "t" ∷ codes "true" ∷ codes "1" ∷ codes "y" ∷ codes "yes" ∷ codes "on" ∷ []

abbrev pub false_words : List Bytes
false_words = codes "f" ∷ codes "false" ∷ codes "0" ∷ codes "n" ∷ codes "no" ∷ codes "off" ∷ []

unfoldable pub parse_bool : Bytes → Result Failure Bool
unfolding field_text
parse_bool value = do
  characters ← field_text value
  let word = map to_ascii_lowercase characters
  if contains true_words word
      then ok true
      else if contains false_words word
      then ok false
      else err (copy_failure "22P02" "invalid COPY Boolean value")

-- `ok_or_else(…)?` on a digit: `(high << 4) | low` of two digits is `high * 16 + low`.
abbrev pub nibble : ℕ → Result Failure ℕ
nibble byte = elim (hex_nibble byte) [
  | none ↦ err (copy_failure "22P02" "COPY binary value contains invalid hex")
  | some v ↦ ok v
]

-- The loop over `chunks_exact(2)`.
unfoldable pub hex_pairs : Bytes → Result Failure Bytes
hex_pairs [] = ok []
hex_pairs (_ ∷ []) = ok []
hex_pairs (a ∷ b ∷ rest) = do
  high ← nibble a
  low ← nibble b
  output ← hex_pairs rest
  ok ((high * 16 + low) ∷ output)

-- `value.strip_prefix(br"\x")`
abbrev pub strip_hex_prefix : Bytes → Option Bytes
strip_hex_prefix [] = none
strip_hex_prefix (_ ∷ []) = none
strip_hex_prefix (a ∷ b ∷ rest) = if a == backslash && b == letter_x then some rest else none

-- The digits of a binary value, with its prefix or, where it is allowed, without.
abbrev pub hex_digits : Bytes → Bool → Result Failure Bytes
hex_digits value allow_postgis_hex = elim (strip_hex_prefix value) [
  | some hex ↦ ok hex
  | none ↦
      if allow_postgis_hex
      then ok value
      else err (copy_failure "22P02" "COPY binary value must use \\x hex format")
]

unfoldable pub checked_pairs : Bytes → Result Failure Bytes
unfolding hex_pairs
checked_pairs hex = do
  reject (not (length hex % 2 == 0)) (copy_failure "22P02" "COPY binary value contains invalid hex")
  hex_pairs hex

unfoldable pub parse_hex_into : Bytes → Bool → Result Failure Bytes
unfolding checked_pairs
parse_hex_into value allow_postgis_hex = hex_digits value allow_postgis_hex >>= checked_pairs
