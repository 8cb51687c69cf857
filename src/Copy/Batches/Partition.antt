-- ===== src/Copy/Batches/Partition.antt =====
-- `bounded_batches` on the rows that hold a table.
use quackgis.Base.{
  ℕ, zero, suc, ◌/◌, ◌≤◌, ◌<◌, ◌≡◌, refl, ap, sym, subst, ◌∙◌, ◌⊎◌, inl, inr, true, false, List, [],
  ◌∷◌, ◌++◌, append-nil, append_assoc, leb, leb→le, ◌==◌, split-cases, ==_iff, length, take, drop,
  take-append-drop, length-take, length-drop, length-append, Result, ok, err, ◌>>=◌, Result-cases,
  arith,
}
use quackgis.Copy.Errors.{Failure, copy_failure}
use quackgis.Copy.Rows.{CopyRows, u32_max, rows_len, split_off}
use quackgis.Copy.Rows.Tables.{
  Table, encode, HasColumns, table_text, table_text-append, length-table_ends,
}
use quackgis.Copy.Rows.Split.{split_off-encode}
use quackgis.Copy.Arrow.{Arrow, DataType}
use quackgis.Copy.Columns.{build_batch}
use quackgis.Copy.Batches.{bounded_batches}

abbrev pub flatten : List Table → Table
flatten [] = []
flatten (part ∷ parts) = part ++ flatten parts

flatten-append : (ps qs : List Table) → flatten (ps ++ qs) ≡ flatten ps ++ flatten qs
flatten-append [] qs = refl
flatten-append (p ∷ ps) qs =
    ap (λ rest. p ++ rest) (flatten-append ps qs) ∙ sym (append_assoc p (flatten ps) (flatten qs))

abbrev pub too_large : Failure
too_large = copy_failure "54000" "one COPY row exceeds the configured Arrow batch byte limit"

leb-false : (a b : ℕ) → leb a b ≡ false → b < a
leb-false a b h = ground arith

several_rows : (n : ℕ) → (n == 1) ≡ false → 1 ≤ n → 2 ≤ n
several_rows n h k = ground arith

small_parts :
    (a b t : Table)
    → a ++ b ≡ t
    → length (table_text t) < u32_max
    → (length (table_text a) < u32_max) × (length (table_text b) < u32_max)
small_parts a b t e small =
    let size = ap (λ t. length (table_text t)) (sym e) ∙ ap length (table_text-append a b) in
    let sum = length-append (table_text a) (table_text b) in
    (omega (arith, size, sum), omega (arith, size, sum))

HasColumns-take : (columns n : ℕ) (t : Table) → HasColumns columns t → HasColumns columns (take n t)
HasColumns-take columns zero t h = tt
HasColumns-take columns (suc n) [] h = tt
HasColumns-take columns (suc n) (row ∷ t) (here, rest) = (here, HasColumns-take columns n t rest)

HasColumns-drop : (columns n : ℕ) (t : Table) → HasColumns columns t → HasColumns columns (drop n t)
HasColumns-drop columns zero t h = h
HasColumns-drop columns (suc n) [] h = tt
HasColumns-drop columns (suc n) (row ∷ t) (here, rest) = HasColumns-drop columns n t rest

rows_len-encode : (columns : ℕ) (t : Table) → rows_len (encode columns t) ≡ length t
unfolding rows_len
rows_len-encode columns t = omega (arith, length-table_ends 0 t)

module _ (arrow : Arrow) (schema : List (DataType × arrow.Metadata)) (max_bytes columns : ℕ) where
  -- The batches are those of the parts, and each is within the limit.
  abbrev pub AllBuilt : List Table → List (arrow.RecordBatch) → Type 0
  AllBuilt [] [] = Unit {0}
  AllBuilt [] (_ ∷ _) = ⊥
  AllBuilt (_ ∷ _) [] = ⊥
  AllBuilt (part ∷ parts) (batch ∷ batches) =
      (build_batch arrow schema (encode columns part) ≡ ok batch)
      × (arrow.get_array_memory_size batch ≤ max_bytes)
      × AllBuilt parts batches

  -- Why a part of the table has no batch: it cannot be built, or it is one row above the limit.
  abbrev pub Fails : Table → Failure → Type 0
  Fails part e =
      (build_batch arrow schema (encode columns part) ≡ err e)
      ⊎ ((length part ≡ 1)
          × (e ≡ too_large)
          × ((batch : arrow.RecordBatch) × (build_batch arrow schema (encode columns part)
                ≡ ok batch)
              × (max_bytes < arrow.get_array_memory_size batch)))

  -- What the batches of a table are, and why there are none.
  abbrev pub IsOutcome : Table → Result Failure (List (arrow.RecordBatch)) → Type 0
  IsOutcome table (ok batches) =
      (parts : List Table) × (flatten parts ≡ table) × AllBuilt parts batches
  IsOutcome table (err e) =
      (before part after : Table) × (table ≡ before ++ part ++ after) × Fails part e

  AllBuilt-append :
      (ps qs : List Table) (bs cs : List (arrow.RecordBatch))
      → AllBuilt ps bs
      → AllBuilt qs cs
      → AllBuilt (ps ++ qs) (bs ++ cs)
  AllBuilt-append [] qs [] cs h k = k
  AllBuilt-append [] qs (_ ∷ _) cs h k = absurd h
  AllBuilt-append (_ ∷ _) qs [] cs h k = absurd h
  AllBuilt-append (p ∷ ps) qs (b ∷ bs) cs (built, fits, rest) k =
      (built, fits, AllBuilt-append ps qs bs cs rest k)

  IsOutcome-append :
      (a b : Table) (r s : Result Failure (List (arrow.RecordBatch)))
      → IsOutcome a r
      → IsOutcome b s
      → IsOutcome (a ++ b) (r >>= λ left. s >>= λ right. ok (left ++ right))
  IsOutcome-append a b (ok bs) (ok cs) (ps, e, h) (qs, f, k) =
      (ps ++ qs, flatten-append ps qs ∙ rw (e, f) refl, AllBuilt-append ps qs bs cs h k)
  IsOutcome-append a b (ok bs) (err e) h (before, part, after, at, fails) = (
    a ++ before,
    part,
    after,
    ap (λ rest. a ++ rest) at
        ∙ sym (append_assoc a (before ++ part) after)
        ∙ ap (λ start. start ++ after) (sym (append_assoc a before part)),
    fails,
  )
  IsOutcome-append a b (err e) s (before, part, after, at, fails) k = (
    before,
    part,
    after ++ b,
    ap (λ start. start ++ b) at ∙ append_assoc (before ++ part) after b,
    fails,
  )

  abbrev halved : ℕ → CopyRows → ℕ → Result Failure (List (arrow.RecordBatch))
  halved fuel rows at = do
    halves ← split_off rows at
    left ← bounded_batches arrow schema max_bytes fuel halves.0
    right ← bounded_batches arrow schema max_bytes fuel halves.1
    ok (left ++ right)

  halved-IsOutcome :
      (fuel at : ℕ) (a b : Table)
      → at ≡ length a
      → HasColumns columns a
      → length (table_text (a ++ b)) < u32_max
      → IsOutcome a (bounded_batches arrow schema max_bytes fuel (encode columns a))
      → IsOutcome b (bounded_batches arrow schema max_bytes fuel (encode columns b))
      → IsOutcome (a ++ b) (halved fuel (encode columns (a ++ b)) at)
  halved-IsOutcome fuel at a b e h small left right =
      rw (e, split_off-encode columns a b h small)
        (IsOutcome-append a b (bounded_batches arrow schema max_bytes fuel (encode columns a))
          (bounded_batches arrow schema max_bytes fuel (encode columns b)) left right)

  -- What the loop does once a batch is built.
  abbrev judged : ℕ → Table → ℕ → arrow.RecordBatch → Result Failure (List (arrow.RecordBatch))
  judged fuel table rows batch = elim (leb (arrow.get_array_memory_size batch) max_bytes) [
    | true ↦ ok (batch ∷ [])
    | false ↦ elim (rows == 1) [
      | true ↦ err too_large
      | false ↦ halved fuel (encode columns table) (rows / 2)
    ]
  ]

  judged-IsOutcome :
      (fuel : ℕ) (table : Table) (batch : arrow.RecordBatch)
      → build_batch arrow schema (encode columns table) ≡ ok batch
      → ((length table == 1) ≡ false
          → IsOutcome table (halved fuel (encode columns table) (length table / 2)))
      → IsOutcome table (judged fuel table (length table) batch)
  judged-IsOutcome fuel table batch built more =
      let P = IsOutcome table in
      split-cases P (leb (arrow.get_array_memory_size batch) max_bytes)
        (λ fits. (table ∷ [], append-nil table, (built, leb→le _ _ fits, tt)))
        (λ large.
          split-cases P (length table == 1)
            (λ one. (
              [],
              table,
              [],
              sym (append-nil table),
              inr ((==_iff (length table) 1).0 one, refl, (batch, built, leb-false _ _ large)),
            ))
            more)

  -- A table with a row at least, and of fewer than 2 ^ 32 - 1 bytes, is cut into consecutive parts with one
  -- batch each, within the byte limit, and with nothing lost or reordered. Otherwise the error is
  -- the one that building a part gave, or tells of a single row whose batch is above the limit. No
  -- more halvings are needed than the table has rows.
  pub bounded_batches-IsOutcome :
      (fuel : ℕ) (table : Table)
      → 1 ≤ length table
      → length table ≤ fuel
      → HasColumns columns table
      → length (table_text table) < u32_max
      → IsOutcome table (bounded_batches arrow schema max_bytes fuel (encode columns table))
  unfolding bounded_batches
  bounded_batches-IsOutcome zero table some_row enough h small = ground arith
  bounded_batches-IsOutcome (suc fuel) table some_row enough h small =
      let k = length table / 2 in
      let front = length-take k table in
      let back = length-drop k table in
      let whole = take-append-drop k table in
      let (small_front, small_back) = small_parts (take k table) (drop k table) table whole small in
      let more : (length table == 1) ≡ false
          → IsOutcome table (halved fuel (encode columns table) k) =
        λ several.
          (let two = several_rows (length table) several some_row in
            subst (λ t. IsOutcome t (halved fuel (encode columns t) k)) whole
              (halved-IsOutcome fuel k (take k table) (drop k table) (omega (arith, front, two))
                (HasColumns-take columns k table h) (rw whole small)
                (bounded_batches-IsOutcome fuel (take k table) (omega (arith, front, two))
                  (omega (arith, front, two)) (HasColumns-take columns k table h) small_front)
                (bounded_batches-IsOutcome fuel (drop k table) (omega (arith, back, two))
                  (omega (arith, back, two)) (HasColumns-drop columns k table h) small_back))) in
      elim (Result-cases (build_batch arrow schema (encode columns table))) [
        | inl (batch, built) ↦ rw built (
            subst (λ n. IsOutcome table (judged fuel table n batch))
              (sym (rows_len-encode columns table)) (judged-IsOutcome fuel table batch built more))
        | inr (e, failed) ↦ rw failed ([], table, [], sym (append-nil table), inl failed)
      ]
