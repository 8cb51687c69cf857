-- ===== src/Copy/Escapes/Panics.antt =====
-- What `decode_copy_field` does on any field: its results, its errors, and its panics.
use quackgis.Base.{
  ℕ, zero, suc, ◌≤◌, ◌≡◌, refl, Bool, true, false, not, ◌&&◌, ◌||◌, inl, inr, [], ◌∷◌, ◌++◌, ltb,
  ◌==◌, if-cases, Bool-cases, &&-true, ||-false, beq_self, Bytes, length, length-drop, take, drop,
  all, contains, nat_Eq, Result, ok, err, ◌>>=◌, arith,
}
use quackgis.Copy.Errors.{Failure, error, panic, exhausted}
use quackgis.Copy.Escapes.Digits.{is_high_octal, hex_digits_fit, octal_digits_fit}
use quackgis.Copy.Escapes.{
  backslash, letter_x, is_octal, is_ascii_hexdigit, hex_nibble, take_while, digit_value,
  digits_value, u8_from_radix, decode_step, decode_escape, decode_loop, is_single_hex,
  decode_copy_field,
}

abbrev starts_high : Bytes → Bool
starts_high [] = false
starts_high (c ∷ _) = is_high_octal c

-- Whether a backslash stands before such a digit anywhere.
abbrev pub has_high_octal : Bytes → Bool
has_high_octal [] = false
has_high_octal (b ∷ rest) = (b == backslash && starts_high rest) || has_high_octal rest

abbrev pub is_byte : ℕ → Bool
is_byte b = ltb b 256

-- What one step of the loop may do: `left` is what it leaves of `rest`.
abbrev IsStep : ℕ → Bytes → Result Failure (ℕ × Bytes) → Type 0
IsStep b rest (ok (v, left)) = (is_byte v ≡ true) × ((n : ℕ) × (left ≡ drop n rest))
IsStep b rest (err (error e)) = e.sqlstate ≡ "22P04"
IsStep b rest (err (panic m)) = (b == backslash && starts_high rest) ≡ true
IsStep b rest (err exhausted) = ⊥

hex-IsStep :
    (b e : ℕ) (rest : Bytes)
    → IsStep b (e ∷ rest) (
        let digits = take_while is_ascii_hexdigit (take 2 rest) in
        u8_from_radix 16 digits >>= λ value. ok (value, drop (length digits) rest))
unfolding u8_from_radix
hex-IsStep b e rest =
    rw (hex_digits_fit rest)
      (hex_digits_fit rest, (suc (length (take_while is_ascii_hexdigit (take 2 rest))), refl))

octal-IsStep :
    (b a : ℕ) (rest : Bytes)
    → (b == backslash) ≡ true
    → is_octal a ≡ true
    → IsStep b (a ∷ rest) (
        let digits = take_while is_octal (take 3 (a ∷ rest)) in
        u8_from_radix 8 digits >>= λ value. ok (value, drop (length digits) (a ∷ rest)))
unfolding u8_from_radix
octal-IsStep b a rest escape octal =
    let digits = take_while is_octal (take 3 (a ∷ rest)) in
    elim (Bool-cases (ltb (digits_value 8 0 digits) 256)) [
      | inl fits ↦ rw fits (fits, (length digits, refl))
      | inr large ↦ rw large (elim (Bool-cases (is_high_octal a)) [
        | inl high ↦ rw (escape, high) refl
        | inr low ↦ cc (octal_digits_fit a rest octal low)
      ])
    ]

escape-IsStep :
    (b e : ℕ) (rest : Bytes)
    → (b == backslash) ≡ true
    → all is_byte (e ∷ rest) ≡ true
    → IsStep b (e ∷ rest) (decode_escape (e ∷ rest))
unfolding decode_escape
escape-IsStep b e rest escape bytes =
    let P = IsStep b (e ∷ rest) in
    let one : (v : ℕ) → is_byte v ≡ true → P (ok (v, rest)) = λ v fits. (fits, (1, refl)) in
    if-cases P (e == b'b') (λ _. one 8 refl)
      (λ _.
        if-cases P (e == b'f') (λ _. one 12 refl)
          (λ _.
            if-cases P (e == b'n') (λ _. one 10 refl)
              (λ _.
                if-cases P (e == b'r') (λ _. one 13 refl)
                  (λ _.
                    if-cases P (e == b't') (λ _. one 9 refl)
                      (λ _.
                        if-cases P (e == b'v') (λ _. one 11 refl)
                          (λ _.
                            if-cases P (e == backslash) (λ _. one backslash refl)
                              (λ _.
                                if-cases P (e == letter_x)
                                  (λ _.
                                    if-cases P
                                      (length (take_while is_ascii_hexdigit (take 2 rest)) == 0)
                                      (λ _. refl) (λ _. hex-IsStep b e rest))
                                  (λ _. if-cases P (is_octal e) (octal-IsStep b e rest escape) (λ _.
                                    one e
                                      ((&&-true (is_byte e) (all is_byte rest) bytes).0))))))))))

decode_step-IsStep :
    (b : ℕ) (rest : Bytes)
    → is_byte b ≡ true
    → all is_byte rest ≡ true
    → IsStep b rest (decode_step b rest)
unfolding decode_step decode_escape
decode_step-IsStep b [] byte bytes =
    if-cases (IsStep b []) (b == backslash) (λ _. refl) (λ _. (byte, (0, refl)))
decode_step-IsStep b (e ∷ rest) byte bytes =
    let P = IsStep b (e ∷ rest) in
    if-cases P (b == backslash) (λ escape. escape-IsStep b e rest escape bytes)
      (λ _. (byte, (0, refl)))

all-drop : (n : ℕ) (bs : Bytes) → all is_byte bs ≡ true → all is_byte (drop n bs) ≡ true
all-drop zero bs h = h
all-drop (suc n) [] h = refl
all-drop (suc n) (b ∷ bs) h = all-drop n bs ((&&-true (is_byte b) (all is_byte bs) h).1)

has_high_octal-drop :
    (n : ℕ) (bs : Bytes) → has_high_octal (drop n bs) ≡ true → has_high_octal bs ≡ true
has_high_octal-drop zero bs h = h
has_high_octal-drop (suc n) [] h = h
has_high_octal-drop (suc n) (b ∷ bs) h = ground (arith, has_high_octal-drop n bs h)

-- What the decoding of a field may do.
abbrev pub IsDecoded : Bytes → Result Failure Bytes → Type 0
IsDecoded raw (ok decoded) = (length decoded ≤ length raw) × (all is_byte decoded ≡ true)
IsDecoded raw (err (error e)) = e.sqlstate ≡ "22P04"
IsDecoded raw (err (panic m)) = has_high_octal raw ≡ true
IsDecoded raw (err exhausted) = ⊥

IsDecoded-cons :
    (b v n : ℕ) (rest : Bytes) (r : Result Failure Bytes)
    → is_byte v ≡ true
    → IsDecoded (drop n rest) r
    → IsDecoded (b ∷ rest) (r >>= λ decoded. ok (v ∷ decoded))
IsDecoded-cons b v n rest (ok decoded) byte (shorter, bytes) =
    (omega (arith, length-drop n rest), ground arith)
IsDecoded-cons b v n rest (err (error e)) byte h = h
IsDecoded-cons b v n rest (err (panic m)) byte h = ground (arith, has_high_octal-drop n rest h)
IsDecoded-cons b v n rest (err exhausted) byte h = absurd h

IsDecoded-step :
    (fuel b : ℕ) (rest : Bytes) (step : Result Failure (ℕ × Bytes))
    → IsStep b rest step
    → ((n : ℕ) → IsDecoded (drop n rest) (decode_loop fuel (drop n rest)))
    → IsDecoded (b ∷ rest) (step >>= λ s. decode_loop fuel s.1 >>= λ decoded. ok (s.0 ∷ decoded))
IsDecoded-step fuel b rest (ok (v, left)) (byte, (n, e)) h =
    rw e (IsDecoded-cons b v n rest (decode_loop fuel (drop n rest)) byte (h n))
IsDecoded-step fuel b rest (err (error e)) h later = h
IsDecoded-step fuel b rest (err (panic m)) h later = rw h refl
IsDecoded-step fuel b rest (err exhausted) h later = absurd h

decode_loop-IsDecoded :
    (fuel : ℕ) (raw : Bytes)
    → length raw ≤ fuel
    → all is_byte raw ≡ true
    → IsDecoded raw (decode_loop fuel raw)
unfolding decode_loop
decode_loop-IsDecoded fuel [] h bytes = (omega arith, refl)
decode_loop-IsDecoded zero (b ∷ rest) h bytes = ground arith
decode_loop-IsDecoded (suc fuel) (b ∷ rest) h bytes =
    let both = &&-true (is_byte b) (all is_byte rest) bytes in
    IsDecoded-step fuel b rest (decode_step b rest) (decode_step-IsStep b rest both.0 both.1) (λ n.
      decode_loop-IsDecoded fuel (drop n rest) (omega (arith, length-drop n rest))
        (all-drop n rest both.1))

-- A field of bytes is decoded into bytes and into no more of them, or refused with 22P04. The
-- decoding panics at most where a backslash stands before a digit from 4 to 7.
pub decode_copy_field-IsDecoded :
    (raw : Bytes) (preserve_single_hex : Bool)
    → all is_byte raw ≡ true
    → IsDecoded raw (decode_copy_field raw preserve_single_hex)
unfolding decode_copy_field
decode_copy_field-IsDecoded raw preserve_single_hex bytes =
    let P = IsDecoded raw in
    if-cases P (preserve_single_hex && is_single_hex raw) (λ _. (omega arith, bytes))
      (λ _.
        if-cases P (not (contains raw backslash)) (λ _. (omega arith, bytes))
          (λ _. decode_loop-IsDecoded (length raw) raw (omega arith) bytes))

decode_loop-append :
    (before rest : Bytes) (e : Failure)
    → contains before backslash ≡ false
    → decode_loop (length rest) rest ≡ err e
    → decode_loop (length (before ++ rest)) (before ++ rest) ≡ err e
unfolding decode_loop decode_step
decode_loop-append [] rest e plain h = h
decode_loop-append (b ∷ before) rest e plain h =
    let (here, after) = ||-false (b == backslash) (contains before backslash) plain in
    rw (here, decode_loop-append before rest e after h) refl

contains-append : (before : Bytes) (b : ℕ) (rest : Bytes) → contains (before ++ b ∷ rest) b ≡ true
contains-append [] b rest = rw (beq_self b) refl
contains-append (a ∷ before) b rest = ground (arith, contains-append before b rest)

octal_escape_panics :
    (a b c fuel : ℕ) (rest : Bytes)
    → is_high_octal a ≡ true
    → is_octal b ≡ true
    → is_octal c ≡ true
    → decode_loop (suc fuel) (backslash ∷ a ∷ b ∷ c ∷ rest) ≡ err (panic "validated octal")
unfolding decode_loop decode_step decode_escape u8_from_radix digits_value is_octal digit_value
    hex_nibble
octal_escape_panics a b c fuel rest ha hb hc = ground arith

-- A field where a backslash stands before three octal digits with the first above 3, and nothing
-- before it is a backslash, panics: the digits stand for no byte.
pub decode_copy_field-panics :
    (before rest : Bytes) (a b c : ℕ)
    → contains before backslash ≡ false
    → is_high_octal a ≡ true
    → is_octal b ≡ true
    → is_octal c ≡ true
    → decode_copy_field (before ++ backslash ∷ a ∷ b ∷ c ∷ rest) false
      ≡ err (panic "validated octal")
unfolding decode_copy_field
decode_copy_field-panics before rest a b c plain ha hb hc =
    rw (contains-append before backslash (a ∷ b ∷ c ∷ rest)) (
      decode_loop-append before (backslash ∷ a ∷ b ∷ c ∷ rest) (panic "validated octal") plain
        (octal_escape_panics a b c (length (a ∷ b ∷ c ∷ rest)) rest ha hb hc))
