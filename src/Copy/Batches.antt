-- ===== src/Copy/Batches.antt =====
-- The batches of the rows under the byte limit: `bounded_batches`.
pub mod Partition
use quackgis.Base.{
  ℕ, zero, suc, ◌+◌, ◌/◌, Bool, true, false, List, [], ◌∷◌, ◌++◌, leb, ◌==◌, if◌then◌else◌, Result,
  ok, err, ◌>>=◌,
}
use quackgis.Copy.Errors.{Failure, exhausted, copy_failure}
use quackgis.Copy.Rows.{CopyRows, rows_len, split_off}
use quackgis.Copy.Arrow.{Arrow, DataType}
use quackgis.Copy.Columns.{build_batch}

module _ (arrow : Arrow) (schema : List (DataType × arrow.Metadata)) (max_bytes : ℕ) where
  -- On fuel for the depth of the halving, which is at most the number of rows.
  unfoldable pub bounded_batches : ℕ → CopyRows → Result Failure (List (arrow.RecordBatch))
  bounded_batches zero rows = err exhausted
  bounded_batches (suc fuel) rows = do
    batch ← build_batch arrow schema rows
    elim (leb (arrow.get_array_memory_size batch) max_bytes) [
      | true ↦ ok (batch ∷ [])
      | false ↦ elim (rows_len rows == 1) [
        | true ↦
            err (copy_failure "54000" "one COPY row exceeds the configured Arrow batch byte limit")
        | false ↦ do
          halves ← split_off rows (rows_len rows / 2)
          left ← bounded_batches fuel halves.0
          right ← bounded_batches fuel halves.1
          ok (left ++ right)
      ]
    ]
