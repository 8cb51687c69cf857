-- ===== src/Copy/Escapes.antt =====
-- The escapes of a field: `decode_copy_field`, with the digits that it reads.
pub mod RoundTrip
pub mod Digits
pub mod Panics
use quackgis.Base.{
  ℕ, zero, suc, ◌+◌, ◌-◌, ◌*◌, ◌≡◌, Bool, true, false, not, ◌&&◌, ◌||◌, Option, none, some, List,
  [], ◌∷◌, ltb, leb, ◌==◌, if◌then◌else◌, Bytes, length, take, drop, all, contains, nat_Eq, Result,
  ok, err, ◌>>=◌,
}
use quackgis.Copy.Errors.{Failure, panic, exhausted, copy_failure}

abbrev pub backslash : ℕ
backslash = b'\\'

abbrev pub letter_x : ℕ
letter_x = b'x'

unfoldable pub hex_nibble : ℕ → Option ℕ
hex_nibble byte =
    if leb b'0' byte && leb byte b'9'
    then some (byte - b'0')
    else if leb b'a' byte && leb byte b'f'
    then some (byte - b'a' + 10)
    else if leb b'A' byte && leb byte b'F'
    then some (byte - b'A' + 10)
    else none

-- `u8::is_ascii_hexdigit`
unfoldable pub is_ascii_hexdigit : ℕ → Bool
is_ascii_hexdigit byte =
    (leb b'0' byte && leb byte b'9')
    || (leb b'A' byte && leb byte b'F')
    || (leb b'a' byte && leb byte b'f')

-- `matches!(byte, b'0'..=b'7')`
unfoldable pub is_octal : ℕ → Bool
is_octal byte = leb b'0' byte && leb byte b'7'

abbrev pub take_while : (ℕ → Bool) → Bytes → Bytes
take_while p [] = []
take_while p (b ∷ bs) = let rest = take_while p bs in if p b then b ∷ rest else []

-- The value of a digit, as `u8::from_str_radix` reads the digits that it is given.
unfoldable pub digit_value : ℕ → ℕ
unfolding hex_nibble
digit_value byte = elim (hex_nibble byte) [ none ↦ 0 | some v ↦ v ]

unfoldable pub digits_value : ℕ → ℕ → Bytes → ℕ
digits_value radix value [] = value
digits_value radix value (d ∷ ds) = digits_value radix (value * radix + digit_value d) ds

-- `u8::from_str_radix(text, radix).expect(message)`
unfoldable pub u8_from_radix : ℕ → Bytes → Result Failure ℕ
u8_from_radix radix digits =
    let value = digits_value radix 0 digits in
    if ltb value 256 then ok value else err (panic "validated octal")

-- One escape: the byte it stands for, and what follows it.
unfoldable pub decode_escape : Bytes → Result Failure (ℕ × Bytes)
decode_escape [] = err (copy_failure "22P04" "COPY field ends with a backslash escape")
decode_escape (escaped ∷ rest) =
    if escaped == b'b'
    then ok (8, rest)
    else if escaped == b'f'
    then ok (12, rest)
    else if escaped == b'n'
    then ok (10, rest)
    else if escaped == b'r'
    then ok (13, rest)
    else if escaped == b't'
    then ok (9, rest)
    else if escaped == b'v'
    then ok (11, rest)
    else if escaped == backslash
    then ok (backslash, rest)
    else if escaped == letter_x
    then (let digits = take_while is_ascii_hexdigit (take 2 rest) in
        if length digits == 0
        then err (copy_failure "22P04" "COPY field has an invalid hex escape")
        else do value ← u8_from_radix 16 digits; ok (value, drop (length digits) rest))
    else if is_octal escaped
    then (let digits = take_while is_octal (take 3 (escaped ∷ rest)) in
        do value ← u8_from_radix 8 digits; ok (value, drop (length digits) (escaped ∷ rest)))
    else ok (escaped, rest)

unfoldable pub decode_step : ℕ → Bytes → Result Failure (ℕ × Bytes)
unfolding decode_escape
decode_step byte rest = if byte == backslash then decode_escape rest else ok (byte, rest)

-- The loop over the field, on fuel: every round reads a byte at least.
unfoldable pub decode_loop : ℕ → Bytes → Result Failure Bytes
decode_loop fuel [] = ok []
decode_loop zero (byte ∷ rest) = err exhausted
decode_loop (suc fuel) (byte ∷ rest) = do
  step ← decode_step byte rest
  decoded ← decode_loop fuel step.1
  ok (step.0 ∷ decoded)

-- `raw.starts_with(br"\x") && raw[2..].iter().all(u8::is_ascii_hexdigit)`
unfoldable pub is_single_hex : Bytes → Bool
unfolding is_ascii_hexdigit
is_single_hex [] = false
is_single_hex (_ ∷ []) = false
is_single_hex (a ∷ b ∷ rest) = a == backslash && b == letter_x && all is_ascii_hexdigit rest

unfoldable pub decode_copy_field : Bytes → Bool → Result Failure Bytes
unfolding is_single_hex
decode_copy_field raw preserve_single_hex =
    if preserve_single_hex && is_single_hex raw
    then ok raw
    else if not (contains raw backslash)
    then ok raw
    else decode_loop (length raw) raw
