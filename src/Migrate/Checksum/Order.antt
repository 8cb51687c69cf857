-- ===== src/Migrate/Checksum/Order.antt =====
-- The checksum does not depend on the order of the rows (crates/quackgis-migrate/src/migration.rs).
use mathlib.Core.List.{Permᴰ}
use quackgis.Base.{
  ℕ, zero, suc, ◌+◌, ◌*◌, ◌/◌, ◌%◌, ◌<◌, ◌≡◌, refl, ap, sym, ◌∙◌, List, [], ◌∷◌, Option, some,
  Bytes, length, arith, saturating_add,
}
use quackgis.Migrate.Checksum.{
  MultisetChecksum, empty_checksum, add_bytes, xor_bits, xor_bytes, one_if_null, canonical,
  canonical_row, update, update_rows,
}

half_lem : (c n : ℕ) → c < 2 → (c + 2 * n) / 2 ≡ n
half_lem c n h = omega (arith, h)

low_lem : (c n : ℕ) → c < 2 → (c + 2 * n) % 2 ≡ c
low_lem c n h = omega (arith, h)

xor_bits_swap : (k x a b : ℕ) → xor_bits k (xor_bits k x a) b ≡ xor_bits k (xor_bits k x b) a
unfolding xor_bits
xor_bits_swap zero x a b = refl
xor_bits_swap (suc k) x a b =
    rw
      (
        half_lem ((x % 2 + a % 2) % 2) (xor_bits k (x / 2) (a / 2)) (omega arith),
        half_lem ((x % 2 + b % 2) % 2) (xor_bits k (x / 2) (b / 2)) (omega arith),
        low_lem ((x % 2 + a % 2) % 2) (xor_bits k (x / 2) (a / 2)) (omega arith),
        low_lem ((x % 2 + b % 2) % 2) (xor_bits k (x / 2) (b / 2)) (omega arith),
      )
      (omega (arith, xor_bits_swap k (x / 2) (a / 2) (b / 2)))

xor_bytes_swap :
    (xs ys zs : Bytes) → xor_bytes (xor_bytes xs ys) zs ≡ xor_bytes (xor_bytes xs zs) ys
unfolding xor_bytes
xor_bytes_swap [] ys zs = refl
xor_bytes_swap (x ∷ xs) [] [] = refl
xor_bytes_swap (x ∷ xs) [] (z ∷ zs) = refl
xor_bytes_swap (x ∷ xs) (y ∷ ys) [] = refl
xor_bytes_swap (x ∷ xs) (y ∷ ys) (z ∷ zs) = cc (xor_bits_swap 8 x y z, xor_bytes_swap xs ys zs)

-- Both orders of two additions give the same bytes and carry the same amount.
record Swapped (xs ys zs : Bytes) : Type 0 where
  bytes : (add_bytes (add_bytes xs ys).0 zs).0 ≡ (add_bytes (add_bytes xs zs).0 ys).0
  carries :
      (add_bytes xs ys).1 + (add_bytes (add_bytes xs ys).0 zs).1
      ≡ (add_bytes xs zs).1 + (add_bytes (add_bytes xs zs).0 ys).1

byte_swap :
    (x y z c d c' d' : ℕ)
    → c + d ≡ c' + d'
    → ((x + y + c) % 256 + z + d) % 256 ≡ ((x + z + c') % 256 + y + d') % 256
byte_swap x y z c d c' d' h = omega (arith, h)

add_bytes-Swapped :
    (xs ys zs : Bytes) → length ys ≡ length xs → length zs ≡ length xs → Swapped xs ys zs
unfolding add_bytes
add_bytes-Swapped [] ys zs p q = record { bytes = refl; carries = refl }
add_bytes-Swapped (x ∷ xs) [] zs p q = absurd (omega (arith, p))
add_bytes-Swapped (x ∷ xs) (y ∷ ys) [] p q = absurd (omega (arith, q))
add_bytes-Swapped (x ∷ xs) (y ∷ ys) (z ∷ zs) p q =
    let i = add_bytes-Swapped xs ys zs (omega (arith, p)) (omega (arith, q)) in
    record {
      bytes = cc (byte_swap x y z _ _ _ _ i.carries, i.bytes);
      carries = omega (arith, i.carries);
    }

saturating_swap :
    (n a b : ℕ) → saturating_add (saturating_add n a) b ≡ saturating_add (saturating_add n b) a
saturating_swap n a b = ground arith

length-add_bytes : (xs ys : Bytes) → length ys ≡ length xs → length (add_bytes xs ys).0 ≡ length xs
unfolding add_bytes
length-add_bytes [] ys h = refl
length-add_bytes (x ∷ xs) [] h = absurd (omega (arith, h))
length-add_bytes (x ∷ xs) (y ∷ ys) h = ap suc (length-add_bytes xs ys (omega (arith, h)))

module _ (sha256 : Bytes → Bytes)
    (digest_length : (bytes : Bytes) → length (sha256 bytes) ≡ 32) where
  update_swap :
      (m : MultisetChecksum) (a b : Option Bytes)
      → length m.sum ≡ 32
      → update sha256 (update sha256 m a) b ≡ update sha256 (update sha256 m b) a
  unfolding update
  update_swap m a b h =
      let x = sha256 (canonical a) in
      let y = sha256 (canonical b) in
      let s = add_bytes-Swapped m.sum x y (digest_length _ ∙ sym h) (digest_length _ ∙ sym h) in
      cc (
        saturating_swap m.null_count (one_if_null a) (one_if_null b),
        s.bytes,
        xor_bytes_swap m.xor x y,
      )

  length-update :
      (m : MultisetChecksum) (a : Option Bytes)
      → length m.sum ≡ 32
      → length (update sha256 m a).sum ≡ 32
  unfolding update
  length-update m a h = length-add_bytes m.sum (sha256 (canonical a)) (digest_length _ ∙ sym h) ∙ h

  update_rows-perm :
      (m : MultisetChecksum) {rows rows' : List (List (Option Bytes))}
      → length m.sum ≡ 32
      → Permᴰ rows rows'
      → update_rows sha256 m rows ≡ update_rows sha256 m rows'
  unfolding update_rows
  update_rows-perm m h Permᴰ.nil = refl
  update_rows-perm m h (Permᴰ.cons {a} {b} {l₁} e p) = rw e (
      update_rows-perm (update sha256 m (some (canonical_row b)))
        (length-update m (some (canonical_row b)) h) p)
  update_rows-perm m h (Permᴰ.swap {a} {b} {a'} {b'} {l} e f) =
      rw (e, f, update_swap m (some (canonical_row b')) (some (canonical_row a')) h) refl
  update_rows-perm m h (Permᴰ.trans p q) = update_rows-perm m h p ∙ update_rows-perm m h q

  -- Two results that hold the same rows as often, in any order, have the same checksum.
  pub update_rows_perm :
      {rows rows' : List (List (Option Bytes))}
      → Permᴰ rows rows'
      → update_rows sha256 empty_checksum rows ≡ update_rows sha256 empty_checksum rows'
  update_rows_perm p = update_rows-perm empty_checksum refl p
