-- ===== src/Copy/Escapes/Digits.antt =====
-- The numbers that the digits of an escape stand for, and which of them fit a byte.
use quackgis.Base.{
  ℕ, ◌-◌, ◌≤◌, ◌≡◌, refl, Bool, true, false, ◌&&◌, [], ◌∷◌, ltb, leb, Bytes, take, arith,
}
use quackgis.Copy.Escapes.{
  is_octal, is_ascii_hexdigit, hex_nibble, take_while, digit_value, digits_value,
}

-- The first digit of an octal escape that stands for no byte.
abbrev pub is_high_octal : ℕ → Bool
is_high_octal c = leb b'4' c && leb c b'7'

digit_value_hex : (d : ℕ) → is_ascii_hexdigit d ≡ true → digit_value d ≤ 15
unfolding is_ascii_hexdigit digit_value hex_nibble
digit_value_hex d h = ground arith

digit_value_octal : (d : ℕ) → is_octal d ≡ true → digit_value d ≡ d - b'0'
unfolding is_octal digit_value hex_nibble
digit_value_octal d h = ground arith

pub hex_digits_fit :
    (rest : Bytes) → ltb (digits_value 16 0 (take_while is_ascii_hexdigit (take 2 rest))) 256 ≡ true
unfolding digits_value
hex_digits_fit [] = refl
hex_digits_fit (a ∷ []) = ground (arith, digit_value_hex a)
hex_digits_fit (a ∷ b ∷ rest) = ground (arith, digit_value_hex a, digit_value_hex b)

octal_digit_small : (d : ℕ) → is_octal d ≡ true → d ≤ b'7'
unfolding is_octal
octal_digit_small d h = ground arith

octal_digit_low : (d : ℕ) → is_octal d ≡ true → is_high_octal d ≡ false → d ≤ b'3'
unfolding is_octal
octal_digit_low d octal low = ground arith

pub octal_digits_fit :
    (a : ℕ) (rest : Bytes)
    → is_octal a ≡ true
    → is_high_octal a ≡ false
    → ltb (digits_value 8 0 (take_while is_octal (take 3 (a ∷ rest)))) 256 ≡ true
unfolding digits_value
octal_digits_fit a [] octal low = ground (arith, digit_value_octal a, octal_digit_low a octal low)
octal_digits_fit a (b ∷ []) octal low = ground (
  arith,
  digit_value_octal a,
  digit_value_octal b,
  octal_digit_small b,
  octal_digit_low a octal low,
)
octal_digits_fit a (b ∷ c ∷ rest) octal low = ground (
  arith,
  digit_value_octal a,
  digit_value_octal b,
  digit_value_octal c,
  octal_digit_small b,
  octal_digit_small c,
  octal_digit_low a octal low,
)
