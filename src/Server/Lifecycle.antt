-- ===== src/Server/Lifecycle.antt =====
-- Readiness and the draining of transactions (crates/quackgis-server/src/lifecycle.rs). Each function
-- here is one atomic action; the methods are sequences of them, and a world counts the threads by
-- how far they have come.
pub mod Steps
pub mod Drained
pub mod Waiting
use quackgis.Base.{
  ℕ, ◌+◌, ◌-◌, ◌%◌, Bool, true, false, not, ◌&&◌, if◌then◌else◌, Option, none, some, u64_mod,
  wrapping_add, ◌==◌,
}

pub data ReadinessState : Type 0 where
  starting ready storage_unavailable draining : ReadinessState

abbrev pub readiness_beq : ReadinessState → ReadinessState → Bool
readiness_beq starting starting = true
readiness_beq ready ready = true
readiness_beq storage_unavailable storage_unavailable = true
readiness_beq draining draining = true
readiness_beq _ _ = false

pub record RuntimeLifecycle : Type 0 where
  pub accepting : Bool
  pub readiness : ReadinessState
  pub active_transactions : ℕ

-- `Default`
abbrev pub new_lifecycle : RuntimeLifecycle
new_lifecycle = record { accepting = true; readiness = starting; active_transactions = 0 }

-- `active_transactions.fetch_add(1)`
unfoldable pub join : RuntimeLifecycle → RuntimeLifecycle
join l = record l { active_transactions = wrapping_add l.active_transactions 1 }

-- `transaction_finished`: the new state, and whether the waiters are notified
unfoldable pub transaction_finished : RuntimeLifecycle → RuntimeLifecycle × Bool
transaction_finished l = (
  record l { active_transactions = (l.active_transactions + (u64_mod - 1)) % u64_mod },
  l.active_transactions == 1,
)

-- The progress of one call of `update_readiness`.
pub data Update : Type 0 where
  trying : ReadinessState → Update
  returned : Update

-- one round of the loop of `update_readiness`: `compare_exchange_weak` may fail without a reason
unfoldable pub update_round :
    ReadinessState → Bool → ReadinessState → RuntimeLifecycle → RuntimeLifecycle × Update
update_round next spurious current l =
    if readiness_beq current draining
    then (l, returned)
    else if readiness_beq l.readiness current && not spurious
    then (record l { readiness = next }, returned)
    else (l, trying l.readiness)

-- the two stores of `begin_drain`
unfoldable pub stop_accepting : RuntimeLifecycle → RuntimeLifecycle
stop_accepting l = record l { accepting = false }

unfoldable pub mark_draining : RuntimeLifecycle → RuntimeLifecycle
mark_draining l = record l { readiness = draining }
