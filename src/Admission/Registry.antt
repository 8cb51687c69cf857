-- ===== src/Admission/Registry.antt =====
-- `ActiveQueryRegistry`: the cancellations of the queries that run, by process number and secret.
pub mod Cancelled
use quackgis.Base.{
  ℕ, ◌≡◌, Bool, true, false, not, ◌&&◌, Option, none, some, List, [], ◌∷◌, ◌==◌, list_beq, nat_Eq,
  if◌then◌else◌, Bytes, Result, ok, err, wrapping_add,
}

-- The number is the word of its 32 bits: only its equality matters.
abbrev pub QueryKey : Type 0
QueryKey = ℕ × Bytes

unfoldable pub key_is : QueryKey → QueryKey → Bool
key_is a b = a.0 == b.0 && list_beq a.1 b.1

-- Cancellations of type `C`, whose `cancel` may fail with an error of the engine.
module _ (C : Type 0) (EngineError : Type 0)
    (cancel_engine : C → Result EngineError (Unit {0})) where
  pub record Registry : Type 0 where
    pub entries : List (QueryKey × C)
    pub cancel_requested : ℕ
    pub cancel_completed : ℕ
    pub cancel_failed : ℕ

  -- `HashMap::remove`, `insert` and `get`.
  abbrev pub without : List (QueryKey × C) → QueryKey → List (QueryKey × C)
  without [] key = []
  without (entry ∷ entries) key =
      let rest = without entries key in if key_is entry.0 key then rest else entry ∷ rest

  abbrev pub entry_of : List (QueryKey × C) → QueryKey → Option C
  entry_of [] key = none
  entry_of (entry ∷ entries) key =
      let rest = entry_of entries key in if key_is entry.0 key then some entry.1 else rest

  -- The guard that it returns remembers the key.
  unfoldable pub register : Registry → ℕ → Bytes → C → Registry × QueryKey
  register r pid secret cancellation = (
    record r { entries = ((pid, secret), cancellation) ∷ without r.entries (pid, secret) },
    (pid, secret),
  )

  -- `ActiveQueryGuard::drop`
  unfoldable pub drop_guard : Registry → QueryKey → Registry
  drop_guard r key = record r { entries = without r.entries key }

  -- The counter of the outcome, and what the caller is told.
  abbrev pub answered :
      Registry → Result EngineError (Unit {0}) → Registry × Result EngineError Bool
  answered r (ok _) = (record r { cancel_completed = wrapping_add r.cancel_completed 1 }, ok true)
  answered r (err e) = (record r { cancel_failed = wrapping_add r.cancel_failed 1 }, err e)

  abbrev pub tried : Registry → Option C → Registry × Result EngineError Bool
  tried r none = (r, ok false)
  tried r (some cancellation) = answered r (cancel_engine cancellation)

  unfoldable pub cancel : Registry → ℕ → Bytes → Registry × Result EngineError Bool
  cancel r pid secret =
      tried (record r { cancel_requested = wrapping_add r.cancel_requested 1 })
        (entry_of r.entries (pid, secret))
