-- ===== src/Copy/Values/Decimal.antt =====
-- `parse_digits` against the number that its digits write.
use Prim.Native.String.{String}
use native.Mathlib.Nat.{zero-mul}
use quackgis.Base.{
  ℕ, zero, suc, ◌+◌, ◌-◌, ◌*◌, ◌^◌, ◌≤◌, ◌<◌, ◌≡◌, refl, ap, ◌∙◌, Bool, true, false, inl, inr,
  Option, none, some, [], ◌∷◌, ltb, leb, ltb→lt, leb→le, if◌then◌else◌, Bool-cases, Bytes, ok, err,
  ℤ, pos, negsuc, negated, times, minus, checked_i64, arith,
}
use quackgis.Copy.Values.{invalid_value, next_parsed, parse_digits}

-- The number that decimal digits write after `value`.
unfoldable pub decimal : ℕ → Bytes → ℕ
decimal value [] = value
decimal value (d ∷ ds) = decimal (value * 10 + (d - b'0')) ds

value-le-decimal : (value : ℕ) (ds : Bytes) → value ≤ decimal value ds
unfolding decimal
value-le-decimal value [] = omega arith
value-le-decimal value (d ∷ ds) = omega (arith, value-le-decimal (value * 10 + (d - b'0')) ds)

decimal-large :
    (value : ℕ) (ds : Bytes) → ltb value (2 ^ 63) ≡ false → ltb (decimal value ds) (2 ^ 63) ≡ false
decimal-large value ds h = ground (arith, value-le-decimal value ds)

decimal-beyond :
    (value : ℕ) (ds : Bytes) → leb value (2 ^ 63) ≡ false → leb (decimal value ds) (2 ^ 63) ≡ false
decimal-beyond value ds h = ground (arith, value-le-decimal value ds)

next_parsed-pos :
    (value d : ℕ)
    → next_parsed false (pos value) d ≡ (
        if ltb (value * 10 + (d - b'0')) (2 ^ 63)
        then some (pos (value * 10 + (d - b'0')))
        else none)
unfolding next_parsed
next_parsed-pos value d = ground arith

times-negated : (n k : ℕ) → times (negated n) k ≡ negated (n * k)
times-negated zero k = rw (zero-mul k) refl
times-negated (suc n) k = refl

minus_zero : (k : ℕ) → minus (pos 0) (suc k) ≡ negsuc k
minus_zero k = ground arith

minus-negated : (n k : ℕ) → minus (negated n) k ≡ negated (n + k)
minus-negated zero zero = refl
minus-negated zero (suc k) = let e : suc k ≡ 0 + suc k = omega arith in minus_zero k ∙ ap negated e
minus-negated (suc n) k = let e : suc (n + k) ≡ suc n + k = omega arith in ap negated e

checked_i64-negated :
    (n : ℕ) → checked_i64 (negated n) ≡ (if leb n (2 ^ 63) then some (negated n) else none)
checked_i64-negated zero = ground arith
checked_i64-negated (suc n) = ground arith

next_beyond : (n d : ℕ) → leb n (2 ^ 63) ≡ false → leb (n + d) (2 ^ 63) ≡ false
next_beyond n d h = ground arith

next_parsed-neg :
    (value d : ℕ)
    → next_parsed true (negated value) d ≡ (
        if leb (value * 10 + (d - b'0')) (2 ^ 63)
        then some (negated (value * 10 + (d - b'0')))
        else none)
unfolding next_parsed
next_parsed-neg value d =
    let after : Option ℤ → Option ℤ =
      λ o. elim o [ none ↦ none | some v ↦ checked_i64 (minus v (d - b'0')) ] in
    ap after (ap checked_i64 (times-negated value 10) ∙ checked_i64-negated (value * 10))
    ∙ elim (Bool-cases (leb (value * 10) (2 ^ 63))) [
      | inl fit ↦ rw fit (
          ap checked_i64 (minus-negated (value * 10) (d - b'0'))
          ∙ checked_i64-negated (value * 10 + (d - b'0')))
      | inr large ↦ rw (large, next_beyond (value * 10) (d - b'0') large) refl
    ]

-- One round of the loop, for each result of its operations.
parse_digits-some :
    (negative : Bool) (label : String) (parsed value : ℤ) (d : ℕ) (ds : Bytes)
    → next_parsed negative parsed d ≡ some value
    → parse_digits negative label parsed (d ∷ ds) ≡ parse_digits negative label value ds
unfolding parse_digits
parse_digits-some negative label parsed value d ds h =
    ap
      (λ (o : Option ℤ). elim o [
        | none ↦ err (invalid_value label)
        | some value ↦ parse_digits negative label value ds
      ])
      h

parse_digits-none :
    (negative : Bool) (label : String) (parsed : ℤ) (d : ℕ) (ds : Bytes)
    → next_parsed negative parsed d ≡ none
    → parse_digits negative label parsed (d ∷ ds) ≡ err (invalid_value label)
unfolding parse_digits
parse_digits-none negative label parsed d ds h =
    ap
      (λ (o : Option ℤ). elim o [
        | none ↦ err (invalid_value label)
        | some value ↦ parse_digits negative label value ds
      ])
      h

parse_digits-pos :
    (label : String) (value : ℕ) (ds : Bytes)
    → value < 2 ^ 63
    → parse_digits false label (pos value) ds ≡ (
        if ltb (decimal value ds) (2 ^ 63)
        then ok (pos (decimal value ds))
        else err (invalid_value label))
unfolding decimal
parse_digits-pos label value [] h = unfold parse_digits in ground arith
parse_digits-pos label value (d ∷ ds) h =
    let next = value * 10 + (d - b'0') in
    elim (Bool-cases (ltb next (2 ^ 63))) [
      | inl small ↦
          parse_digits-some false label (pos value) (pos next) d ds
            (rw (next_parsed-pos value d, small) refl)
          ∙ parse_digits-pos label next ds (ltb→lt next (2 ^ 63) small)
      | inr large ↦
          parse_digits-none false label (pos value) d ds (rw (next_parsed-pos value d, large) refl)
          ∙ rw (decimal-large next ds large) refl
    ]

parse_digits-neg :
    (label : String) (value : ℕ) (ds : Bytes)
    → value ≤ 2 ^ 63
    → parse_digits true label (negated value) ds ≡ (
        if leb (decimal value ds) (2 ^ 63)
        then ok (negated (decimal value ds))
        else err (invalid_value label))
unfolding decimal
parse_digits-neg label value [] h = unfold parse_digits in ground arith
parse_digits-neg label value (d ∷ ds) h =
    let next = value * 10 + (d - b'0') in
    elim (Bool-cases (leb next (2 ^ 63))) [
      | inl small ↦
          parse_digits-some true label (negated value) (negated next) d ds
            (rw (next_parsed-neg value d, small) refl)
          ∙ parse_digits-neg label next ds (leb→le next (2 ^ 63) small)
      | inr large ↦
          parse_digits-none true label (negated value) d ds
            (rw (next_parsed-neg value d, large) refl)
          ∙ rw (decimal-beyond next ds large) refl
    ]

-- The number that a signed text writes, or nothing where its digits do not fit an `i64`.
abbrev pub signed_value : Bool → ℕ → Option ℤ
signed_value negative n =
    if negative
    then if leb n (2 ^ 63) then some (negated n) else none
    else if ltb n (2 ^ 63)
    then some (pos n)
    else none

pub parse_digits_lem :
    (negative : Bool) (label : String) (digits : Bytes)
    → parse_digits negative label (pos 0) digits
      ≡ (elim (signed_value negative (decimal 0 digits)) [
        | none ↦ err (invalid_value label)
        | some z ↦ ok z
      ])
parse_digits_lem true label digits =
    parse_digits-neg label 0 digits (omega arith)
    ∙ elim (Bool-cases (leb (decimal 0 digits) (2 ^ 63))) [
      | inl small ↦ rw small refl
      | inr large ↦ rw large refl
    ]
parse_digits_lem false label digits =
    parse_digits-pos label 0 digits (omega arith)
    ∙ elim (Bool-cases (ltb (decimal 0 digits) (2 ^ 63))) [
      | inl small ↦ rw small refl
      | inr large ↦ rw large refl
    ]
