-- ===== src/Server/Lifecycle/Steps.antt =====
-- The threads that use the lifecycle together, and their steps in any order
-- (crates/quackgis-server/src/lifecycle.rs).
use quackgis.Base.{ℕ, suc, ◌+◌, ◌<◌, ◌≡◌, Bool, true, false, u64_mod, if◌then◌else◌, ◌==◌}
use quackgis.Server.Lifecycle.{
  ReadinessState, RuntimeLifecycle, new_lifecycle, join, transaction_finished, update_round,
  stop_accepting, mark_draining,
}

-- How far the one call of `begin_drain` has come.
pub data Drain : Type 0 where
  unbegun stopped marked seen_empty begun : Drain

-- How far the one call of `wait_for_transactions` has come: not called, about to wait after it saw a
-- count that is not 0, waiting for a notification, woken up, and returned.
pub data Waiter : Type 0 where
  absent about waiting woken gone : Waiter

-- `checked` threads have seen that the server accepts, `counted` ones are counted and look again,
-- `running` ones have a transaction, `refused` ones take their count back, and `notifying` ones have
-- taken the last count away and notify next.
pub record World : Type 0 where
  pub lifecycle : RuntimeLifecycle
  pub checked : ℕ
  pub counted : ℕ
  pub running : ℕ
  pub refused : ℕ
  pub notifying : ℕ
  pub drain : Drain
  pub waiter : Waiter

abbrev pub new_world : World
new_world = record {
  lifecycle = new_lifecycle;
  checked = 0;
  counted = 0;
  running = 0;
  refused = 0;
  notifying = 0;
  drain = unbegun;
  waiter = absent;
}

-- `notify_waiters` wakes those that wait, and is lost on the others.
abbrev pub notified : Waiter → Waiter
notified waiting = woken
notified w = w

-- one thread more, when the count that was taken away was the last
abbrev pub one_if : Bool → ℕ
one_if b = if b then 1 else 0

-- the test of the loop of `wait_for_transactions`
abbrev pub looked : RuntimeLifecycle → Waiter
looked l = if l.active_transactions == 0 then gone else about

pub data Step (w : World) : World → Type 0 where
  -- `try_start_transaction`
  checks : w.lifecycle.accepting ≡ true → Step w (record w { checked = w.checked + 1 })
  joins :
      {n : ℕ}
      → w.checked ≡ suc n
      → w.lifecycle.active_transactions + 1 < u64_mod
      → Step w (record w { lifecycle = join w.lifecycle; checked = n; counted = w.counted + 1 })
  starts :
      {n : ℕ}
      → w.counted ≡ suc n
      → w.lifecycle.accepting ≡ true
      → Step w (record w { counted = n; running = w.running + 1 })
  refuses :
      {n : ℕ}
      → w.counted ≡ suc n
      → w.lifecycle.accepting ≡ false
      → Step w (record w { counted = n; refused = w.refused + 1 })
  -- `transaction_finished`, of a transaction and of a refused thread
  finishes :
      {n : ℕ}
      → w.running ≡ suc n
      → Step w (record w {
        lifecycle = (transaction_finished w.lifecycle).0;
        running = n;
        notifying = w.notifying + one_if (transaction_finished w.lifecycle).1;
      })
  backs_out :
      {n : ℕ}
      → w.refused ≡ suc n
      → Step w (record w {
        lifecycle = (transaction_finished w.lifecycle).0;
        refused = n;
        notifying = w.notifying + one_if (transaction_finished w.lifecycle).1;
      })
  notifies :
      {n : ℕ}
      → w.notifying ≡ suc n
      → Step w (record w { notifying = n; waiter = notified w.waiter })
  -- one round of `update_readiness`, from a value that it has read
  updates :
      (next : ReadinessState) (spurious : Bool) (current : ReadinessState)
      → Step w (record w { lifecycle = (update_round next spurious current w.lifecycle).0 })
  -- `begin_drain`
  stops :
      w.drain ≡ unbegun
      → Step w (record w { lifecycle = stop_accepting w.lifecycle; drain = stopped })
  marks :
      w.drain ≡ stopped
      → Step w (record w { lifecycle = mark_draining w.lifecycle; drain = marked })
  looks :
      w.drain ≡ marked
      → Step w
          (record w { drain = if w.lifecycle.active_transactions == 0 then seen_empty else begun })
  begins : w.drain ≡ seen_empty → Step w (record w { drain = begun; waiter = notified w.waiter })
  -- `wait_for_transactions`
  calls : w.waiter ≡ absent → Step w (record w { waiter = looked w.lifecycle })
  waits : w.waiter ≡ about → Step w (record w { waiter = waiting })
  looks_again : w.waiter ≡ woken → Step w (record w { waiter = looked w.lifecycle })

pub data Reach (w : World) : World → Type 0 where
  here : Reach w w
  then_step : {u v : World} → Reach w u → Step u v → Reach w v
