-- ===== src/Migrate/Checksum/Canonical.antt =====
-- The canonical bytes of a row tell its values (crates/quackgis-migrate/src/migration.rs).
use quackgis.Base.{
  ℕ, zero, suc, ◌*◌, ◌/◌, ◌%◌, ◌<◌, ◌≡◌, refl, ap, sym, ◌∙◌, List, [], ◌∷◌, ◌++◌, Option, none,
  some, Bytes, length, length-append, append_assoc, arith, u64_mod,
}
use quackgis.Migrate.Checksum.{be_bytes, clamped, canonical, canonical_row}

append_cancel :
    (xs ys us vs : Bytes) → length xs ≡ length us → xs ++ ys ≡ us ++ vs → (xs ≡ us) × (ys ≡ vs)
append_cancel [] ys [] vs l h = (refl, h)
append_cancel [] ys (u ∷ us) vs l h = absurd (omega (arith, l))
append_cancel (x ∷ xs) ys [] vs l h = absurd (omega (arith, l))
append_cancel (x ∷ xs) ys (u ∷ us) vs l h =
    let (p, q) = append_cancel xs ys us vs (omega (arith, l)) (cc h) in
    let e : x ≡ u = cc h in (cc (e, p), q)

length-be_bytes : (k n : ℕ) → length (be_bytes k n) ≡ k
length-be_bytes zero n = refl
length-be_bytes (suc k) n =
    omega
      (arith, length-append (be_bytes k (n / 256)) ((n % 256) ∷ []), length-be_bytes k (n / 256))

-- the numbers that `k` bytes hold
abbrev limit : ℕ → ℕ
limit zero = 1
limit (suc k) = 256 * limit k

be_bytes_injective : (k n m : ℕ) → n < limit k → m < limit k → be_bytes k n ≡ be_bytes k m → n ≡ m
be_bytes_injective zero n m p q h = omega (arith, p, q)
be_bytes_injective (suc k) n m p q h =
    let (high, low) =
      append_cancel (be_bytes k (n / 256)) _ (be_bytes k (m / 256)) _
        (length-be_bytes k (n / 256) ∙ sym (length-be_bytes k (m / 256))) h in
    let e : n % 256 ≡ m % 256 = cc low in
    omega (
      arith,
      e,
      be_bytes_injective k (n / 256) (m / 256) (omega (arith, p)) (omega (arith, q)) high,
    )

-- What a row may hold: values of fewer than 2 ^ 64 bytes.
abbrev pub IsShort : List (Option Bytes) → Type 0
IsShort [] = Unit {0}
IsShort (none ∷ values) = IsShort values
IsShort (some value ∷ values) = (length value < u64_mod) × IsShort values

clamped_lem : (n : ℕ) → n < u64_mod → clamped n ≡ n
clamped_lem n h = ground (arith, h)

-- The bytes of a value end where they say.
value_cancel :
    (v w us vs : Bytes)
    → length v < u64_mod
    → length w < u64_mod
    → canonical (some v) ++ us ≡ canonical (some w) ++ vs
    → (v ≡ w) × (us ≡ vs)
unfolding canonical
value_cancel v w us vs p q h =
    let h' : (be_bytes 8 (clamped (length v)) ++ v) ++ us
        ≡ (be_bytes 8 (clamped (length w)) ++ w) ++ vs =
      cc h in
    let h'' =
      rw
        (
          append_assoc (be_bytes 8 (clamped (length v))) v us,
          append_assoc (be_bytes 8 (clamped (length w))) w vs,
        )
        at h' in
    let (n, rest) =
      append_cancel (be_bytes 8 (clamped (length v))) _ (be_bytes 8 (clamped (length w))) _
        (length-be_bytes 8 (clamped (length v)) ∙ sym (length-be_bytes 8 (clamped (length w))))
        h'' in
    append_cancel v us w vs
      (be_bytes_injective 8 (length v) (length w) (omega (arith, p)) (omega (arith, q))
        (rw (clamped_lem (length v) p, clamped_lem (length w) q) at n))
      rest

-- Rows with the same canonical bytes have the same values, null ones and their places included.
pub canonical_row_injective :
    (xs ys : List (Option Bytes))
    → IsShort xs
    → IsShort ys
    → canonical_row xs ≡ canonical_row ys
    → xs ≡ ys
unfolding canonical_row canonical
canonical_row_injective [] [] p q h = refl
canonical_row_injective [] (none ∷ ys) p q h = absurd (cc h)
canonical_row_injective [] (some w ∷ ys) p q h = absurd (cc h)
canonical_row_injective (none ∷ xs) [] p q h = absurd (cc h)
canonical_row_injective (some v ∷ xs) [] p q h = absurd (cc h)
canonical_row_injective (none ∷ xs) (none ∷ ys) p q h =
    ap (◌∷◌ none) (canonical_row_injective xs ys p q (cc h))
canonical_row_injective (none ∷ xs) (some w ∷ ys) p q h =
    let e : ◌≡◌ {A = ℕ} 0 1 = cc h in absurd (omega (arith, e))
canonical_row_injective (some v ∷ xs) (none ∷ ys) p q h =
    let e : ◌≡◌ {A = ℕ} 1 0 = cc h in absurd (omega (arith, e))
canonical_row_injective (some v ∷ xs) (some w ∷ ys) (p, ps) (q, qs) h =
    let (same, rest) = value_cancel v w (canonical_row xs) (canonical_row ys) p q h in
    let e = canonical_row_injective xs ys ps qs rest in cc (same, e)
