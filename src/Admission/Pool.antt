-- ===== src/Admission/Pool.antt =====
-- `BlockingWorkerPool`: the steps of `acquire` and of the drop of a worker's permit. A control
-- operation takes no permit of the regular semaphore. As in the controller, the counters change in
-- the step that moves a permit, though the code changes them by atomics of their own around it.
pub mod Reserved
use quackgis.Base.{
  ℕ, ◌+◌, ◌-◌, ◌%◌, ◌^◌, Bool, true, false, not, ◌&&◌, Option, none, some, ltb, leb, if◌then◌else◌,
  u64_mod, wrapping_add,
}
use quackgis.Admission.Classes.{wrapping_pred, update_high_water}
use quackgis.Admission.Controller.{max_permits}

-- The permits left; the requests that wait for a regular permit, that hold one and wait for a
-- worker, and the control requests that wait for one; what runs; and the counters.
pub record Pool : Type 0 where
  pub total : ℕ
  pub regular : ℕ
  pub waiting : ℕ
  pub holding : ℕ
  pub control_waiting : ℕ
  pub regular_running : ℕ
  pub control_running : ℕ
  pub blocking_active : ℕ
  pub regular_active : ℕ
  pub control_active : ℕ
  pub blocking_queued : ℕ
  pub high_water : ℕ

-- `none` where the assertion, or a semaphore, panics.
unfoldable pub pool_new : ℕ → Option Pool
pool_new max_workers =
    if leb 2 max_workers && leb max_workers max_permits
    then some (record {
      total = max_workers;
      regular = max_workers - 1;
      waiting = 0;
      holding = 0;
      control_waiting = 0;
      regular_running = 0;
      control_running = 0;
      blocking_active = 0;
      regular_active = 0;
      control_active = 0;
      blocking_queued = 0;
      high_water = 0;
    })
    else none

abbrev pub when : Bool → Pool → Option Pool
when true p = some p
when false p = none

-- `BlockingQueueGuard::new`, at the start of `acquire`.
unfoldable pub arrive : Bool → Pool → Pool
arrive true p = record p {
  control_waiting = p.control_waiting + 1;
  blocking_queued = wrapping_add p.blocking_queued 1;
}
arrive false p = record p {
  waiting = p.waiting + 1;
  blocking_queued = wrapping_add p.blocking_queued 1;
}

-- The permit that keeps regular operations off the last worker.
unfoldable pub take_regular : Pool → Option Pool
take_regular p =
    when (ltb 0 p.waiting && ltb 0 p.regular)
      (record p { regular = p.regular - 1; waiting = p.waiting - 1; holding = p.holding + 1 })

-- The counters of an operation that starts.
abbrev counted : Pool → Pool
counted p =
    let active = wrapping_add p.blocking_active 1 in
    record p {
      total = p.total - 1;
      blocking_queued = wrapping_pred p.blocking_queued;
      blocking_active = active;
      high_water = update_high_water p.high_water active;
    }

-- The worker itself, with what `acquire` does from there to its end.
unfoldable pub take_worker : Bool → Pool → Option Pool
take_worker true p = when (ltb 0 p.control_waiting && ltb 0 p.total) (record (counted p) {
  control_waiting = p.control_waiting - 1;
  control_running = p.control_running + 1;
  control_active = wrapping_add p.control_active 1;
})
take_worker false p = when (ltb 0 p.holding && ltb 0 p.total) (record (counted p) {
  holding = p.holding - 1;
  regular_running = p.regular_running + 1;
  regular_active = wrapping_add p.regular_active 1;
})

-- A caller that drops its future before it has a worker: `BlockingQueueGuard::drop`.
unfoldable pub abandon : Bool → Pool → Option Pool
abandon true p = when (ltb 0 p.control_waiting) (record p {
  control_waiting = p.control_waiting - 1;
  blocking_queued = wrapping_pred p.blocking_queued;
})
abandon false p =
    when (ltb 0 p.waiting)
      (record p { waiting = p.waiting - 1; blocking_queued = wrapping_pred p.blocking_queued })

-- The same after the regular permit, which it gives back.
unfoldable pub abandon_holding : Pool → Option Pool
abandon_holding p = when (ltb 0 p.holding) (record p {
  holding = p.holding - 1;
  regular = p.regular + 1;
  blocking_queued = wrapping_pred p.blocking_queued;
})

-- `BlockingWorkerPermit::drop`, when the operation has returned.
unfoldable pub complete : Bool → Pool → Option Pool
complete true p = when (ltb 0 p.control_running) (record p {
  control_running = p.control_running - 1;
  total = p.total + 1;
  blocking_active = wrapping_pred p.blocking_active;
  control_active = wrapping_pred p.control_active;
})
complete false p = when (ltb 0 p.regular_running) (record p {
  regular_running = p.regular_running - 1;
  total = p.total + 1;
  regular = p.regular + 1;
  blocking_active = wrapping_pred p.blocking_active;
  regular_active = wrapping_pred p.regular_active;
})
