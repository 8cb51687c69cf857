-- ===== src/Copy/Escapes/RoundTrip.antt =====
-- The escapes that PostgreSQL's COPY TO writes, read back by `decode_copy_field`.
use quackgis.Base.{
  ℕ, zero, suc, ◌≤◌, ◌≡◌, refl, ap, Bool, true, false, not, inl, inr, [], ◌∷◌, ◌++◌, ◌==◌,
  if◌then◌else◌, Bool-cases, Bytes, length, contains, nat_Eq, ok, arith,
}
use quackgis.Copy.Escapes.{
  backslash, letter_x, decode_step, decode_escape, decode_loop, is_single_hex, decode_copy_field,
}

-- The letter that stands for a byte after a backslash, or 0 for a byte that is written as it is.
abbrev pub escape_letter : ℕ → ℕ
escape_letter b =
    if b == 8
    then b'b'
    else if b == 12
    then b'f'
    else if b == 10
    then b'n'
    else if b == 13
    then b'r'
    else if b == 9
    then b't'
    else if b == 11
    then b'v'
    else if b == backslash
    then backslash
    else 0

abbrev pub escape_byte : ℕ → Bytes
escape_byte b = if escape_letter b == 0 then b ∷ [] else backslash ∷ escape_letter b ∷ []

abbrev pub copy_escape : Bytes → Bytes
copy_escape [] = []
copy_escape (b ∷ bs) = escape_byte b ++ copy_escape bs

decode_escape-letter :
    (b : ℕ) (rest : Bytes)
    → (escape_letter b == 0) ≡ false
    → decode_escape (escape_letter b ∷ rest) ≡ ok (b, rest)
unfolding decode_escape
decode_escape-letter b rest h = ground arith

plain_byte : (b : ℕ) → (escape_letter b == 0) ≡ true → (b == backslash) ≡ false
plain_byte b h = ground arith

-- One round of the loop, on the two shapes that a written byte has.
decode_loop-plain :
    (fuel b : ℕ) (rest decoded : Bytes)
    → (escape_letter b == 0) ≡ true
    → decode_loop fuel rest ≡ ok decoded
    → decode_loop (suc fuel) (b ∷ rest) ≡ ok (b ∷ decoded)
unfolding decode_loop decode_step
decode_loop-plain fuel b rest decoded plain h = rw (plain_byte b plain, h) refl

decode_loop-letter :
    (fuel b : ℕ) (rest decoded : Bytes)
    → (escape_letter b == 0) ≡ false
    → decode_loop fuel rest ≡ ok decoded
    → decode_loop (suc fuel) (backslash ∷ escape_letter b ∷ rest) ≡ ok (b ∷ decoded)
unfolding decode_loop decode_step
decode_loop-letter fuel b rest decoded letter h = rw (decode_escape-letter b rest letter, h) refl

decode_loop-escape :
    (fuel : ℕ) (bs : Bytes)
    → length (copy_escape bs) ≤ fuel
    → decode_loop fuel (copy_escape bs) ≡ ok bs
unfolding decode_loop
decode_loop-escape fuel [] h = refl
decode_loop-escape zero (b ∷ bs) h = ground arith
decode_loop-escape (suc fuel) (b ∷ bs) h = elim (Bool-cases (escape_letter b == 0)) [
  | inl plain ↦ rw plain (
      decode_loop-plain fuel b (copy_escape bs) bs plain
        (decode_loop-escape fuel bs (ground arith)))
  | inr letter ↦ rw letter (
      decode_loop-letter fuel b (copy_escape bs) bs letter
        (decode_loop-escape fuel bs (ground arith)))
]

copy_escape-plain : (bs : Bytes) → contains (copy_escape bs) backslash ≡ false → copy_escape bs ≡ bs
copy_escape-plain [] h = refl
copy_escape-plain (b ∷ bs) h = elim (Bool-cases (escape_letter b == 0)) [
  | inl plain ↦ ground (arith, copy_escape-plain bs)
  | inr letter ↦ ground arith
]

letter_not_x : (b : ℕ) → (escape_letter b == letter_x) ≡ false
letter_not_x b = ground arith

is_single_hex-other :
    (b : ℕ) (rest : Bytes) → (b == backslash) ≡ false → is_single_hex (b ∷ rest) ≡ false
unfolding is_single_hex
is_single_hex-other b [] h = refl
is_single_hex-other b (c ∷ rest) h = rw h refl

is_single_hex-copy_escape : (bs : Bytes) → is_single_hex (copy_escape bs) ≡ false
unfolding is_single_hex
is_single_hex-copy_escape [] = refl
is_single_hex-copy_escape (b ∷ bs) = elim (Bool-cases (escape_letter b == 0)) [
  | inl plain ↦ rw plain (is_single_hex-other b (copy_escape bs) (plain_byte b plain))
  | inr letter ↦ rw (letter, letter_not_x b) refl
]

decode-copy_escape :
    (bs : Bytes)
    → (if not (contains (copy_escape bs) backslash)
        then ok (copy_escape bs)
        else decode_loop (length (copy_escape bs)) (copy_escape bs))
      ≡ ok bs
decode-copy_escape bs = elim (Bool-cases (contains (copy_escape bs) backslash)) [
  | inl escaped ↦ rw escaped (decode_loop-escape (length (copy_escape bs)) bs (omega arith))
  | inr plain ↦ rw plain (ap ok (copy_escape-plain bs plain))
]

-- A field written with the escapes of COPY TO is read back as it was, with and without the
-- exception for a single backslash before hexadecimal digits.
pub decode_copy_field-copy_escape :
    (bs : Bytes) (preserve_single_hex : Bool)
    → decode_copy_field (copy_escape bs) preserve_single_hex ≡ ok bs
unfolding decode_copy_field
decode_copy_field-copy_escape bs true = rw (is_single_hex-copy_escape bs) (decode-copy_escape bs)
decode_copy_field-copy_escape bs false = decode-copy_escape bs
