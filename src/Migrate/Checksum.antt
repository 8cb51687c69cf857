-- ===== src/Migrate/Checksum.antt =====
-- The canonical bytes of a row, and the checksum of the rows of a table as a multiset
-- (crates/quackgis-migrate/src/migration.rs). SHA-256 is a parameter.
pub mod Canonical
pub mod Order
use quackgis.Base.{
  ℕ, zero, suc, ◌+◌, ◌*◌, ◌/◌, ◌%◌, ◌≡◌, Bool, true, false, List, [], ◌∷◌, ◌++◌, Option, none, some,
  Bytes, length, if◌then◌else◌, saturating_add, u64_mod, ltb, ◌-◌,
}

-- `u64::to_be_bytes` and its like: the last `k` bytes of a number, the high one first
abbrev pub be_bytes : ℕ → ℕ → Bytes
be_bytes zero n = []
be_bytes (suc k) n = be_bytes k (n / 256) ++ (n % 256) ∷ []

-- `u64::try_from(len).unwrap_or(u64::MAX)`
abbrev pub clamped : ℕ → ℕ
clamped n = if ltb n u64_mod then n else u64_mod - 1

-- `append_canonical`: what is appended for one value
unfoldable pub canonical : Option Bytes → Bytes
canonical none = 0 ∷ []
canonical (some value) = 1 ∷ (be_bytes 8 (clamped (length value)) ++ value)

-- the bytes of a row, from its columns in order
unfoldable pub canonical_row : List (Option Bytes) → Bytes
unfolding canonical
canonical_row [] = []
canonical_row (value ∷ values) = canonical value ++ canonical_row values

pub record MultisetChecksum : Type 0 where
  pub count : ℕ
  pub null_count : ℕ
  pub sum : Bytes
  pub xor : Bytes

abbrev pub zeros : ℕ → Bytes
zeros zero = []
zeros (suc n) = 0 ∷ zeros n

-- `Default`
abbrev pub empty_checksum : MultisetChecksum
empty_checksum = record { count = 0; null_count = 0; sum = zeros 32; xor = zeros 32 }

-- The sum of two arrays of one length, with the carry out of their first byte. The code goes from
-- the last index to the first.
unfoldable pub add_bytes : Bytes → Bytes → Bytes × ℕ
add_bytes [] _ = ([], 0)
add_bytes (x ∷ xs) [] = ([], 0)
add_bytes (x ∷ xs) (y ∷ ys) =
    let rest = add_bytes xs ys in ((x + y + rest.1) % 256 ∷ rest.0, (x + y + rest.1) / 256)

-- `^` on the low `k` bits
unfoldable pub xor_bits : ℕ → ℕ → ℕ → ℕ
xor_bits zero x y = 0
xor_bits (suc k) x y = (x % 2 + y % 2) % 2 + 2 * xor_bits k (x / 2) (y / 2)

unfoldable pub xor_bytes : Bytes → Bytes → Bytes
unfolding xor_bits
xor_bytes [] _ = []
xor_bytes (x ∷ xs) [] = []
xor_bytes (x ∷ xs) (y ∷ ys) = xor_bits 8 x y ∷ xor_bytes xs ys

abbrev pub one_if_null : Option Bytes → ℕ
one_if_null none = 1
one_if_null (some _) = 0

module _ (sha256 : Bytes → Bytes) where
  -- `MultisetChecksum::update`
  unfoldable pub update : MultisetChecksum → Option Bytes → MultisetChecksum
  unfolding add_bytes xor_bytes canonical
  update m value = record {
    count = saturating_add m.count 1;
    null_count = saturating_add m.null_count (one_if_null value);
    sum = (add_bytes m.sum (sha256 (canonical value))).0;
    xor = xor_bytes m.xor (sha256 (canonical value));
  }

  -- the values of a result, in the order in which its rows come
  unfoldable pub update_all : MultisetChecksum → List (Option Bytes) → MultisetChecksum
  unfolding update
  update_all m [] = m
  update_all m (value ∷ values) = update_all (update m value) values

  -- `checksum_table`, for the rows as the canonical values of their columns
  unfoldable pub update_rows : MultisetChecksum → List (List (Option Bytes)) → MultisetChecksum
  unfolding update canonical_row
  update_rows m [] = m
  update_rows m (row ∷ rows) = update_rows (update m (some (canonical_row row))) rows
