-- ===== src/Copy/Values/Signed.antt =====
-- The texts that `parse_integer` reads, with a sign or without.
use Prim.Native.String.{String}
use quackgis.Base.{
  ℕ, zero, suc, ◌^◌, ◌≡◌, refl, Bool, true, false, not, ◌||◌, inl, inr, Option, none, some, [], ◌∷◌,
  ltb, leb, ◌==◌, if◌then◌else◌, if-cases, Bool-cases, Option-cases, subst, sym, Bytes, length, all,
  Result, ok, err, fits, ℤ, pos, negsuc, negated, minus, arith, ◌⊎◌, ◌↔◌,
}
use quackgis.Copy.Errors.{Failure}
use quackgis.Copy.Values.{is_ascii_digit, invalid_value, split_sign, parse_integer}
use quackgis.Copy.Values.Decimal.{decimal, signed_value, parse_digits_lem}

-- the answer for the parts of a signed text
abbrev answer : String → Bool × Bytes → Result Failure ℤ
answer label (negative, digits) =
    if length digits == 0 || not (all is_ascii_digit digits)
    then err (invalid_value label)
    else elim (signed_value negative (decimal 0 digits)) [
      | none ↦ err (invalid_value label)
      | some z ↦ ok z
    ]

parse_integer-answer :
    (value : Bytes) (label : String) → parse_integer value label ≡ answer label (split_sign value)
unfolding parse_integer
parse_integer-answer value label =
    let (negative, digits) = split_sign value in
    elim (Bool-cases (length digits == 0 || not (all is_ascii_digit digits))) [
      | inl bad ↦ rw bad refl
      | inr good ↦ rw good (parse_digits_lem negative label digits)
    ]

-- Decimal digits with an optional sign write a number.
pub data Writes : Bytes → ℤ → Type 0 where
  unsigned :
      (d : ℕ) (ds : Bytes)
      → all is_ascii_digit (d ∷ ds) ≡ true
      → Writes (d ∷ ds) (pos (decimal 0 (d ∷ ds)))
  plus_sign :
      (d : ℕ) (ds : Bytes)
      → all is_ascii_digit (d ∷ ds) ≡ true
      → Writes (b'+' ∷ d ∷ ds) (pos (decimal 0 (d ∷ ds)))
  minus_sign :
      (d : ℕ) (ds : Bytes)
      → all is_ascii_digit (d ∷ ds) ≡ true
      → Writes (b'-' ∷ d ∷ ds) (negated (decimal 0 (d ∷ ds)))

abbrev signed : Bool → ℕ → ℤ
signed negative n = if negative then negated n else pos n

signed_value-some :
    (negative : Bool) (n : ℕ) {z : ℤ}
    → signed_value negative n ≡ some z
    → (z ≡ signed negative n) × (fits 63 z ≡ true)
signed_value-some true zero {z} h = let e : pos 0 ≡ z = ground (arith, h) in (cc e, rw (← e) refl)
signed_value-some true (suc n) {z} h =
    if-cases (λ o. o ≡ some z → (z ≡ negsuc n) × (fits 63 z ≡ true)) (leb (suc n) (2 ^ 63))
      (λ small e. let e' : negsuc n ≡ z = cc e in (cc e', rw (← e') (ground (arith, small))))
      (λ large e. absurd (cc e)) h
signed_value-some false n {z} h =
    if-cases (λ o. o ≡ some z → (z ≡ pos n) × (fits 63 z ≡ true)) (ltb n (2 ^ 63))
      (λ small e. let e' : pos n ≡ z = cc e in (cc e', rw (← e') small)) (λ large e. absurd (cc e))
      h

fits-signed_value :
    (negative : Bool) (n : ℕ)
    → fits 63 (signed negative n) ≡ true
    → signed_value negative n ≡ some (signed negative n)
fits-signed_value true zero h = ground arith
fits-signed_value true (suc n) h = ground (arith, h)
fits-signed_value false n h = ground (arith, h)

abbrev of_value : String → Option ℤ → Result Failure ℤ
of_value label o = elim o [ none ↦ err (invalid_value label) | some v ↦ ok v ]

value_or_refusal : (label : String) (o : Option ℤ) {z : ℤ} → of_value label o ≡ ok z → o ≡ some z
value_or_refusal label none h = absurd (cc h)
value_or_refusal label (some v) {z} h = let e : v ≡ z = cc h in cc e

-- what the digits of an accepted text are
record IsRead (negative : Bool) (digits : Bytes) (z : ℤ) : Type 0 where
  nonempty : length digits == 0 ≡ false
  decimals : all is_ascii_digit digits ≡ true
  reads : z ≡ signed negative (decimal 0 digits)
  small : fits 63 z ≡ true

answer-IsRead :
    (label : String) (negative : Bool) (digits : Bytes) {z : ℤ}
    → answer label (negative, digits) ≡ ok z
    → IsRead negative digits z
answer-IsRead label negative digits {z} h =
    elim (Bool-cases (length digits == 0 || not (all is_ascii_digit digits))) [
      | inl bad ↦ absurd (cc (rw bad at h))
      | inr good ↦
          (let v =
              value_or_refusal label (signed_value negative (decimal 0 digits)) (rw good at h) in
            let (reads, small) = signed_value-some negative (decimal 0 digits) v in
            record {
              nonempty = ground (arith, good);
              decimals = ground (arith, good);
              reads = reads;
              small = small;
            })
    ]

answer-fits :
    (label : String) (negative : Bool) (d : ℕ) (ds : Bytes)
    → all is_ascii_digit (d ∷ ds) ≡ true
    → fits 63 (signed negative (decimal 0 (d ∷ ds))) ≡ true
    → answer label (negative, d ∷ ds) ≡ ok (signed negative (decimal 0 (d ∷ ds)))
answer-fits label negative d ds digits h =
    rw (digits, fits-signed_value negative (decimal 0 (d ∷ ds)) h) (ground arith)

digit_lem :
    (d : ℕ) (ds : Bytes)
    → all is_ascii_digit (d ∷ ds) ≡ true
    → split_sign (d ∷ ds) ≡ (false, d ∷ ds)
digit_lem d ds h = ground (arith, h)

unsigned_digits :
    (digits : Bytes) {z : ℤ} → IsRead false digits z → Writes digits z × (fits 63 z ≡ true)
unsigned_digits [] r = absurd (cc r.nonempty)
unsigned_digits (d ∷ ds) r = (rw r.reads (unsigned d ds r.decimals), r.small)

plus_digits :
    (digits : Bytes) {z : ℤ} → IsRead false digits z → Writes (b'+' ∷ digits) z × (fits 63 z ≡ true)
plus_digits [] r = absurd (cc r.nonempty)
plus_digits (d ∷ ds) r = (rw r.reads (plus_sign d ds r.decimals), r.small)

minus_digits :
    (digits : Bytes) {z : ℤ} → IsRead true digits z → Writes (b'-' ∷ digits) z × (fits 63 z ≡ true)
minus_digits [] r = absurd (cc r.nonempty)
minus_digits (d ∷ ds) r = (rw r.reads (minus_sign d ds r.decimals), r.small)

read-Writes :
    (value : Bytes) (label : String) {z : ℤ}
    → answer label (split_sign value) ≡ ok z
    → Writes value z × (fits 63 z ≡ true)
read-Writes [] label h = absurd (cc h)
read-Writes (c ∷ rest) label {z} h = elim (Bool-cases (c == b'-')) [
  | inl minus ↦
      (let e : c ≡ b'-' = ground (arith, minus) in
        subst (λ c. Writes (c ∷ rest) z × (fits 63 z ≡ true)) (sym e)
          (minus_digits rest (answer-IsRead label true rest (rw minus at h))))
  | inr not_minus ↦ elim (Bool-cases (c == b'+')) [
    | inl plus ↦
        (let e : c ≡ b'+' = ground (arith, plus) in
          subst (λ c. Writes (c ∷ rest) z × (fits 63 z ≡ true)) (sym e)
            (plus_digits rest (answer-IsRead label false rest (rw (not_minus, plus) at h))))
    | inr unmarked ↦
        unsigned_digits (c ∷ rest)
          (answer-IsRead label false (c ∷ rest) (rw (not_minus, unmarked) at h))
  ]
]

Writes-answer :
    (value : Bytes) (label : String) {z : ℤ}
    → Writes value z
    → fits 63 z ≡ true
    → answer label (split_sign value) ≡ ok z
Writes-answer _ label (unsigned d ds digits) small =
    rw (digit_lem d ds digits) (answer-fits label false d ds digits small)
Writes-answer _ label (plus_sign d ds digits) small = answer-fits label false d ds digits small
Writes-answer _ label (minus_sign d ds digits) small = answer-fits label true d ds digits small

answer-total :
    (label : String) (parts : Bool × Bytes)
    → (answer label parts ≡ err (invalid_value label)) ⊎ ((z : ℤ) × (answer label parts ≡ ok z))
answer-total label (negative, digits) =
    elim (Bool-cases (length digits == 0 || not (all is_ascii_digit digits))) [
      | inl bad ↦ inl (rw bad refl)
      | inr good ↦ elim (Option-cases (signed_value negative (decimal 0 digits))) [
        | inl large ↦ inl (rw (good, large) refl)
        | inr (z, fit) ↦ inr (z, rw (good, fit) refl)
      ]
    ]

-- A text is read as a number exactly when it is decimal digits, with a plus, a minus or no sign before
-- them, that write this number, and the number fits an `i64`. Every text is read so or refused with
-- 22P02.
pub parse_integer_lem :
    (value : Bytes) (label : String)
    → ((z : ℤ) → (parse_integer value label ≡ ok z) ↔ (Writes value z × (fits 63 z ≡ true)))
      × ((parse_integer value label ≡ err (invalid_value label))
          ⊎ ((z : ℤ) × (parse_integer value label ≡ ok z)))
parse_integer_lem value label = rw (parse_integer-answer value label) (
  λ z. (read-Writes value label, λ w. Writes-answer value label w.0 w.1),
  answer-total label (split_sign value),
)
