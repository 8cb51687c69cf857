-- ===== src/Compression/Decoder/Safe.antt =====
-- What the decoder promises on any stream (`copy_decompressed` of
-- crates/quackgis-edge/src/compression.rs).
use quackgis.Base.{
  ℕ, zero, suc, ◌+◌, ◌*◌, ◌≤◌, ◌<◌, ◌≡◌, inl, inr, refl, true, false, [], ◌∷◌, arith, ok, err,
  Bytes, length, length-append, length-take, length-drop, take, drop, some, saturating_add, Result,
  Result-cases, Bool-cases, ◌==◌, >>=-eq-ok, wrapping_add, subst, Bool, if◌then◌else◌, u64_mod,
}
use quackgis.Compression.Format.{
  Lz4, IoError, from_be_bytes, validate_lengths, wrong_decoded_length,
}
use quackgis.Compression.Format.Lengths.{IsBlock, validate_lengths_sound}
use quackgis.Compression.Metrics.{DirectionMetrics, record_block}
use quackgis.Compression.Encoder.{Copied, write_all}
use quackgis.Compression.Decoder.{
  read_exact, DecodedBlock, decode_payload, read_block, decompress_loop, copy_decompressed, fail,
  timed, recorded,
}

read_exact_parts :
    (n : ℕ) (stream : Bytes) {r : Bytes × Bytes}
    → read_exact n stream ≡ ok r
    → (length r.0 ≡ n) × (length r.1 + n ≡ length stream)
unfolding read_exact
read_exact_parts n stream h = ground (arith, length-take n stream, length-drop n stream)

abbrev pub is_ok : Result IoError ℕ → Bool
is_ok (ok _) = true
is_ok (err _) = false

module _ (lz4 : Lz4) (elapsed : Bytes → ℕ) where
  -- A block that is read is well formed, and takes its header and its payload from the stream.
  record Consumes (kind : ℕ) (stream : Bytes) (b : DecodedBlock) : Type 0 where
    block : IsBlock kind b.uncompressed_length (length b.payload)
    consumed : length b.rest + length b.payload + 8 ≡ length stream

  read_block-Consumes :
      (kind : ℕ) (stream : Bytes) {b : DecodedBlock}
      → read_block lz4 elapsed kind stream ≡ ok b
      → Consumes kind stream b
  unfolding read_block
  read_block-Consumes kind stream {b} h =
      let (lengths, e1, r1) = >>=-eq-ok (read_exact 8 stream) _ h in
      let u = from_be_bytes (take 4 lengths.0) in
      let p = from_be_bytes (drop 4 lengths.0) in
      let (_, e2, r2) = >>=-eq-ok (validate_lengths kind u p) _ r1 in
      let (payload, e3, r3) = >>=-eq-ok (read_exact p lengths.1) _ r2 in
      let (decoded, e4, r4) = >>=-eq-ok (decode_payload lz4 elapsed kind payload.0 u) _ r3 in
      let first = read_exact_parts 8 stream e1 in
      let second = read_exact_parts p lengths.1 e3 in
      let made : DecodedBlock = record {
        uncompressed_length = u;
        payload = payload.0;
        decoded = decoded.0;
        classification = decoded.1;
        rest = payload.1;
      } in
      let e : made ≡ b = ground arith in
      subst (Consumes kind stream) e (record {
        block = rw (second.0) (validate_lengths_sound kind u p (ground arith));
        consumed = omega arith;
      })

  -- The counters and the output of a copy of `stream` that started at `total` and `m`.
  pub record IsSafe (total : ℕ) (m : DirectionMetrics) (stream : Bytes) (c : Copied) : Type 0 where
    pub bounded : length c.written ≤ 256 * length stream
    pub counted :
        c.metrics.decode_failures
        ≡ (if is_ok c.result then m.decode_failures else wrapping_add m.decode_failures 1)
    pub summed : (t : ℕ) → c.result ≡ ok t → t ≡ saturating_add total (length c.written)

  recorded_failures :
      (m : DirectionMetrics) (b : DecodedBlock)
      → (recorded lz4 elapsed m b).decode_failures ≡ m.decode_failures
  unfolding record_block
  recorded_failures m b = ground arith

  -- What holds of the rest of a copy holds with one more block in front.
  later :
      (total : ℕ) (m : DirectionMetrics) (kind : ℕ) (stream : Bytes) (b : DecodedBlock) (c : Copied)
      → Consumes kind stream b
      → (length b.decoded == b.uncompressed_length) ≡ true
      → total < u64_mod
      → IsSafe (saturating_add total b.uncompressed_length) (recorded lz4 elapsed m b) b.rest c
      → IsSafe total m (kind ∷ stream) (write_all b.decoded c)
  later total m kind stream b c taken right fits safe = record {
    bounded = ground (
      arith,
      length-append b.decoded c.written,
      taken.consumed,
      taken.block.kind_is,
      safe.bounded,
    );
    counted = rw (← recorded_failures m b) safe.counted;
    summed = λ t q. ground (arith, length-append b.decoded c.written, safe.summed t q);
  }

  decompress_loop-IsSafe :
      (fuel total : ℕ) (m : DirectionMetrics) (stream : Bytes)
      → total < u64_mod
      → length stream < fuel
      → (c : Copied) × (decompress_loop lz4 elapsed fuel total m stream ≡ some c)
        × IsSafe total m stream c
  unfolding decompress_loop
  decompress_loop-IsSafe zero total m stream fits enough = absurd (omega arith)
  decompress_loop-IsSafe (suc fuel) total m [] fits enough = (
    record { metrics = m; written = []; result = ok total },
    refl,
    record { bounded = omega arith; counted = refl; summed = λ t e. ground arith },
  )
  decompress_loop-IsSafe (suc fuel) total m (kind ∷ stream) fits enough =
      elim (Result-cases (read_block lz4 elapsed kind stream)) [
        | inr (e, failed) ↦ (
          fail lz4 elapsed m e,
          rw (failed, decompress_loop) refl,
          record { bounded = omega arith; counted = refl; summed = λ t q. cc },
        )
        | inl (b, is_read) ↦ elim (Bool-cases (length b.decoded == b.uncompressed_length)) [
          | inr wrong ↦ (
            fail lz4 elapsed (timed lz4 elapsed m b) wrong_decoded_length,
            rw (is_read, decompress_loop) (rw (wrong, decompress_loop) refl),
            record { bounded = omega arith; counted = refl; summed = λ t q. cc },
          )
          | inl right ↦
              let taken = read_block-Consumes kind stream is_read in
              let (c, e, safe) =
                decompress_loop-IsSafe fuel (saturating_add total b.uncompressed_length)
                  (recorded lz4 elapsed m b) b.rest (ground arith)
                  (omega (arith, taken.consumed)) in
              (
                write_all b.decoded c,
                rw (is_read, decompress_loop) (rw (right, decompress_loop) (rw e refl)),
                later total m kind stream b c taken right fits safe,
              )
        ]
      ]

  -- On every stream the decoder ends with a result: it writes at most 256 bytes for each byte of the
  -- stream, counts a decode failure exactly when it ends in an error, and reports the number of
  -- bytes written (saturated at the largest u64) when it does not.
  pub copy_decompressed-IsSafe :
      (m : DirectionMetrics) (stream : Bytes)
      → (c : Copied) × (copy_decompressed lz4 elapsed m stream ≡ some c) × IsSafe 0 m stream c
  unfolding copy_decompressed
  copy_decompressed-IsSafe m stream =
      decompress_loop-IsSafe (suc (length stream)) 0 m stream (omega arith) (omega arith)
