-- ===== src/Copy/Rows/Split.antt =====
-- `CopyRows::split_off` and `CopyRows::value` on the rows that hold a table.
use quackgis.Base.{
  ℕ, suc, ◌+◌, ◌*◌, ◌<◌, ◌≡◌, refl, ap, sym, ◌∙◌, true, false, none, some, List, [], ◌∷◌, ◌++◌, map,
  leb, ◌==◌, Bytes, length, length-append, take-length-append, drop-length-append, get_elem?,
  Result, ok, arith,
}
use quackgis.Copy.Errors.{Failure}
use quackgis.Copy.Rows.{
  FieldRange, CopyRows, u32_max, null_range, vec_split_off, shift_range, wrapping_sub, split_off,
}
use quackgis.Copy.Rows.Tables.{
  start_self, offset-append, Row, Table, row_text, row_ranges, table_text, table_ranges, table_ends,
  encode, HasColumns, table_text-append, table_ranges-append, table_ends-at, length-table_ranges,
}

shift_range-null : (offset : ℕ) → shift_range offset null_range ≡ null_range
unfolding shift_range
shift_range-null offset = refl

wrapping_sub_32 : (offset x : ℕ) → offset + x < u32_max → wrapping_sub 32 (offset + x) offset ≡ x
wrapping_sub_32 offset x h = omega arith

wrapping_sub_64 : (offset x : ℕ) → offset + x < u32_max → wrapping_sub 64 (offset + x) offset ≡ x
wrapping_sub_64 offset x h = omega arith

end_shifted :
    (offset start size : ℕ)
    → offset + start + size < u32_max
    → wrapping_sub 32 (offset + start + size) offset ≡ start + size
end_shifted offset start size h = omega arith

not_null : (start : ℕ) → start < u32_max → (start == u32_max) ≡ false
not_null start h = ground arith

shift_range-value :
    (offset start size : ℕ)
    → offset + start + size < u32_max
    → shift_range offset (record { start = offset + start; end = offset + start + size })
      ≡ record { start = start; end = start + size }
unfolding shift_range
shift_range-value offset start size h =
    rw
      (
        not_null (offset + start) (omega arith),
        wrapping_sub_32 offset start (omega arith),
        end_shifted offset start size h,
      )
      refl

map-row_ranges :
    (offset start : ℕ) (row : Row)
    → offset + start + length (row_text row) < u32_max
    → map (shift_range offset) (row_ranges (offset + start) row) ≡ row_ranges start row
map-row_ranges offset start [] h = refl
map-row_ranges offset start (none ∷ row) h =
    rw (shift_range-null offset)
      (ap (λ rest. null_range ∷ rest) (map-row_ranges offset start row h))
map-row_ranges offset start (some value ∷ row) h =
    let size = length value in
    let total = length-append value (row_text row) in
    let e : offset + start + size ≡ offset + (start + size) = omega arith in
    ap (λ range. range ∷ map (shift_range offset) (row_ranges (offset + start + size) row))
      (shift_range-value offset start size (omega (arith, total)))
    ∙ ap
        (λ at.
          record { start = start; end = start + size }
          ∷ map (shift_range offset) (row_ranges at row))
        e
    ∙ ap (λ rest. record { start = start; end = start + size } ∷ rest)
        (map-row_ranges offset (start + size) row (omega (arith, total)))

map-append : {A B : Type 0} (f : A → B) (xs ys : List A) → map f (xs ++ ys) ≡ map f xs ++ map f ys
map-append f [] ys = refl
map-append f (x ∷ xs) ys = ap (◌∷◌ (f x)) (map-append f xs ys)

offset_assoc : (offset start size : ℕ) → offset + start + size ≡ offset + (start + size)
offset_assoc offset start size = omega arith

map-table_ranges :
    (offset start : ℕ) (table : Table)
    → offset + start + length (table_text table) < u32_max
    → map (shift_range offset) (table_ranges (offset + start) table) ≡ table_ranges start table
map-table_ranges offset start [] h = refl
map-table_ranges offset start (row ∷ table) h =
    let size = length (row_text row) in
    let total = length-append (row_text row) (table_text table) in
    map-append (shift_range offset) (row_ranges (offset + start) row)
      (table_ranges (offset + start + size) table)
    ∙ ap (λ ranges. ranges ++ map (shift_range offset) (table_ranges (offset + start + size) table))
        (map-row_ranges offset start row (omega (arith, total)))
    ∙ ap (λ at. row_ranges start row ++ map (shift_range offset) (table_ranges at table))
        (offset_assoc offset start size)
    ∙ ap (λ ranges. row_ranges start row ++ ranges)
        (map-table_ranges offset (start + size) table (omega (arith, total)))

map-table_ends :
    (offset start : ℕ) (table : Table)
    → offset + start + length (table_text table) < u32_max
    → map (λ end. wrapping_sub 64 end offset) (table_ends (offset + start) table)
      ≡ table_ends start table
map-table_ends offset start [] h = rw (wrapping_sub_64 offset start (omega arith)) refl
map-table_ends offset start (row ∷ table) h =
    let size = length (row_text row) in
    let total = length-append (row_text row) (table_text table) in
    ap
      (λ first.
        first ∷ map (λ end. wrapping_sub 64 end offset) (table_ends (offset + start + size) table))
      (wrapping_sub_64 offset start (omega (arith, total)))
    ∙ ap (λ at. start ∷ map (λ end. wrapping_sub 64 end offset) (table_ends at table))
        (offset_assoc offset start size)
    ∙ ap (◌∷◌ start) (map-table_ends offset (start + size) table (omega (arith, total)))

fits_append : {A : Type 0} (xs ys : List A) → leb (length xs) (length (xs ++ ys)) ≡ true
fits_append xs ys = ground (arith, length-append xs ys)

split_at :
    {A : Type 0} (xs ys whole : List A) (at : ℕ)
    → whole ≡ xs ++ ys
    → at ≡ length xs
    → vec_split_off whole at ≡ ok (xs, ys)
split_at xs ys whole at e h =
    rw (e, h) (rw (fits_append xs ys, take-length-append xs ys, drop-length-append xs ys) refl)

-- The ends of the rows before a split: those of all the rows up to there.
table_ends-append :
    (start : ℕ) (a b : Table)
    → (before : List ℕ) × (table_ends start (a ++ b)
        ≡ before ++ table_ends (start + length (table_text a)) b)
      × (table_ends start a ≡ before ++ (start + length (table_text a)) ∷ [])
      × (length before ≡ length a)
table_ends-append start [] b =
    ([], ap (λ s. table_ends s b) (start_self start), ap (λ s. s ∷ []) (start_self start), refl)
table_ends-append start (row ∷ a) b =
    let size = length (row_text row) in
    let (before, both, left, count) = table_ends-append (start + size) a b in
    let e = offset-append start (row_text row) (table_text a) in
    (
      start ∷ before,
      ap (◌∷◌ start) both ∙ ap (λ s. start ∷ before ++ table_ends s b) e,
      ap (◌∷◌ start) left ∙ ap (λ s. start ∷ before ++ s ∷ []) e,
      ap suc count,
    )

split_off-eq :
    (rows : CopyRows) (row offset : ℕ) (bytes : Bytes × Bytes)
    (fields : List FieldRange × List FieldRange) (ends : List ℕ × List ℕ)
    → get_elem? rows.row_ends row ≡ some offset
    → vec_split_off rows.bytes offset ≡ ok bytes
    → vec_split_off rows.fields (row * rows.columns) ≡ ok fields
    → offset < u32_max
    → vec_split_off rows.row_ends row ≡ ok ends
    → split_off rows row
      ≡ ok (
        record {
          bytes = bytes.0;
          fields = fields.0;
          row_ends = ends.0 ++ offset ∷ [];
          columns = rows.columns;
        },
        record {
          bytes = bytes.1;
          fields = map (shift_range offset) fields.1;
          row_ends = map (λ end. wrapping_sub 64 end offset) ends.1;
          columns = rows.columns;
        },
      )
unfolding split_off
split_off-eq rows row offset bytes fields ends at b f small e = ground arith

abbrev both_halves : CopyRows → CopyRows → Result Failure (CopyRows × CopyRows)
both_halves left right = ok (left, right)

halves :
    (columns offset : ℕ) (a b : Table) (before : List ℕ)
    → table_ends 0 a ≡ before ++ offset ∷ []
    → offset + length (table_text b) < u32_max
    → both_halves
        (record {
          bytes = table_text a;
          fields = table_ranges 0 a;
          row_ends = before ++ offset ∷ [];
          columns = columns;
        })
        (record {
          bytes = table_text b;
          fields = map (shift_range offset) (table_ranges offset b);
          row_ends = map (λ end. wrapping_sub 64 end offset) (table_ends offset b);
          columns = columns;
        })
      ≡ both_halves (encode columns a) (encode columns b)
halves columns offset a b before left small =
    let ranges =
      ap (λ s. map (shift_range offset) (table_ranges s b)) (start_self offset)
      ∙ map-table_ranges offset 0 b (omega arith) in
    let ends =
      ap (λ s. map (λ end. wrapping_sub 64 end offset) (table_ends s b)) (start_self offset)
      ∙ map-table_ends offset 0 b (omega arith) in
    rw (ranges, ends, left) refl

-- Splitting the rows of a table of fewer than 4 GiB leaves the rows before the place of the split
-- and takes the rows from there on, each as the rows of their own table.
pub split_off-encode :
    (columns : ℕ) (a b : Table)
    → HasColumns columns a
    → length (table_text (a ++ b)) < u32_max
    → split_off (encode columns (a ++ b)) (length a) ≡ ok (encode columns a, encode columns b)
split_off-encode columns a b h small =
    let (before, both, left, count) = table_ends-append 0 a b in
    let offset = 0 + length (table_text a) in
    let size = length-append (table_text a) (table_text b) in
    split_off-eq (encode columns (a ++ b)) (length a) offset (table_text a, table_text b)
      (table_ranges 0 a, table_ranges offset b) (before, table_ends offset b) (table_ends-at 0 a b)
      (split_at (table_text a) (table_text b) (table_text (a ++ b)) offset (table_text-append a b)
        (omega arith))
      (split_at (table_ranges 0 a) (table_ranges offset b) (table_ranges 0 (a ++ b))
        (length a * columns) (table_ranges-append 0 a b) (sym (length-table_ranges columns 0 a h)))
      (omega (arith, size, ap length (table_text-append a b)))
      (split_at before (table_ends offset b) (table_ends 0 (a ++ b)) (length a) both (sym count))
    ∙ halves columns offset a b before left (omega (arith, size, ap length (table_text-append a b)))
