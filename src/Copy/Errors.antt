-- ===== src/Copy/Errors.antt =====
-- The errors of crates/quackgis-server/src/pgwire_server/copy_text.rs, and what stops the code
-- without one: a panic of an index, a slice or an `expect`, and a model's loop out of fuel.
use Prim.Native.String.{String}
use quackgis.Base.{ℕ, Bool, true, false, List, [], ◌∷◌}

-- A piece of a formatted message: a literal part or a number that it prints.
pub data Piece : Type 0 where
  text : String → Piece
  number : ℕ → Piece

pub record CopyDecodeError : Type 0 where
  pub sqlstate : String
  pub message : List Piece

pub data Failure : Type 0 where
  error : CopyDecodeError → Failure
  panic : String → Failure
  exhausted : Failure

abbrev pub copy_error : String → List Piece → Failure
copy_error sqlstate message = error (record { sqlstate = sqlstate; message = message })

abbrev pub copy_failure : String → String → Failure
copy_failure sqlstate message = copy_error sqlstate (text message ∷ [])

-- Whether an operation stopped on a panic.
abbrev pub is_panic : Failure → Bool
is_panic (error _) = false
is_panic (panic _) = true
is_panic exhausted = false
