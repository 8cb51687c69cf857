-- ===== src/Tests/Compression.antt =====
-- Compression blocks with a toy codec that shrinks runs of zeros.
use quackgis.Base.{
  ℕ, zero, suc, ◌*◌, ◌/◌, ◌≤◌, ◌≡◌, refl, ap, true, Bool, [], ◌∷◌, arith, ok, Bytes, length, Option,
  none, some, all, ◌==◌, if◌then◌else◌,
}
use quackgis.Compression.Format.{Lz4}
use quackgis.Compression.Metrics.{DirectionMetrics}
use quackgis.Compression.Encoder.{
  Reads, eof, read, contents, Copied, copy_compressed, encode_block, Backoff,
}
use quackgis.Compression.Encoder.Adaptive.{IsBounded, encode_block-IsBounded}
use quackgis.Compression.Decoder.{copy_decompressed}
use quackgis.Compression.Decoder.Safe.{IsSafe, copy_decompressed-IsSafe}
use quackgis.Compression.RoundTrip.{read_total, copy_decompressed-copy_compressed}

zeros : ℕ → Bytes
zeros zero = []
zeros (suc n) = 0 ∷ zeros n

length-zeros : (n : ℕ) → length (zeros n) ≡ n
unfolding zeros
length-zeros zero = refl
length-zeros (suc n) = ap suc (length-zeros n)

are_zero : Bytes → Bool
are_zero = all (λ x. x == 0)

are_zero-eq : (b : Bytes) → are_zero b ≡ true → zeros (length b) ≡ b
unfolding zeros are_zero
are_zero-eq [] h = refl
are_zero-eq (x ∷ b) h = ground (arith, are_zero-eq b)

-- A 1 and a zero for each 256 zeros, or a 0 and the bytes.
shrink : Bytes → Bytes
shrink b = if are_zero b then 1 ∷ zeros (length b / 256) else 0 ∷ b

grow : Bytes → ℕ → Option Bytes
grow [] n = none
grow (tag ∷ b) n = if tag == 1 then some (zeros n) else some b

grow-shrink : (b : Bytes) → grow (shrink b) (length b) ≡ some b
unfolding grow shrink
grow-shrink b = ground (arith, are_zero-eq b)

shrink_ratio : (b : Bytes) → length b ≤ length (shrink b) * 256
unfolding shrink
shrink_ratio b = ground (arith, length-zeros (length b / 256))

toy : Lz4
toy = record {
  compress = shrink;
  decompress = grow;
  decompress-compress = grow-shrink;
  compress_ratio = shrink_ratio;
}

abbrev elapsed : Bytes → ℕ
elapsed b = 5

abbrev idle : DirectionMetrics
idle = record {
  uncompressed_bytes = 0;
  wire_bytes = 0;
  latency_sensitive_bytes = 0;
  blocks = 0;
  compressed_blocks = 0;
  raw_small_blocks = 0;
  raw_incompressible_blocks = 0;
  raw_backoff_blocks = 0;
  compression_cpu_nanos = 0;
  decompression_cpu_nanos = 0;
  decode_failures = 0;
}

abbrev reads : Reads
reads = read (zeros 2000) (read (7 ∷ 8 ∷ []) eof)

copy_decompressed-copy_compressed_example :
    (c : Copied) × (copy_decompressed toy elapsed idle
        (copy_compressed toy elapsed idle reads).written
      ≡ some c)
    × (c.written ≡ contents reads)
    × (c.result ≡ ok (read_total 0 reads))
copy_decompressed-copy_compressed_example =
    copy_decompressed-copy_compressed toy elapsed idle idle reads (
      omega (arith, length-zeros 2000),
      omega (arith, length-zeros 2000),
      (omega arith, omega arith, tt),
    )

-- A stream that ends within a header.
copy_decompressed-IsSafe_example :
    (c : Copied) × (copy_decompressed toy elapsed idle (1 ∷ 0 ∷ 0 ∷ []) ≡ some c)
    × IsSafe toy elapsed 0 idle (1 ∷ 0 ∷ 0 ∷ []) c
copy_decompressed-IsSafe_example = copy_decompressed-IsSafe toy elapsed idle (1 ∷ 0 ∷ 0 ∷ [])

abbrev fresh : Backoff
fresh = record { incompressible_probes = 1; backoff_blocks = 0 }

encode_block-IsBounded_example : IsBounded (encode_block toy elapsed fresh idle (zeros 2000)).0
encode_block-IsBounded_example =
    encode_block-IsBounded toy elapsed fresh idle (zeros 2000) (omega arith)
