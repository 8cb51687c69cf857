-- ===== src/Tests/Admission.antt =====
-- Runs of the admission controller, the pool of workers and the registry of queries.
use quackgis.Base.{ℕ, zero, suc, ◌≡◌, ◌≤◌, refl, ◌⊎◌, true, some, [], Result, ok, err, arith}
use quackgis.Admission.Classes.{OperationClass, reader, class_new, class_enqueued, class_taken}
use quackgis.Admission.Controller.{
  Limits, Controller, controller_new, enqueue, take_class, class_of,
}
use quackgis.Admission.Controller.Steps.{enqueues, takes_class, Reachable, created, then_step}
use quackgis.Admission.Controller.Bounds.{
  Reachable-limited, CanRelease, CanAdvance, Reachable-progress,
}
use quackgis.Admission.Pool.{Pool, pool_new, arrive, take_worker}
use quackgis.Admission.Pool.Reserved.{
  arrives, PoolReachable, pool_created, pool_then, PoolReachable-reserved,
}
use quackgis.Admission.Registry.{Registry}

abbrev small : Limits
small = record {
  max_active = 2;
  max_queued = 1;
  max_readers = 1;
  max_writers = 1;
  max_maintenance = 1;
}

abbrev idle : Controller
idle = record {
  readers = class_new 1;
  writers = class_new 1;
  maintenances = class_new 1;
  active_permits = 2;
  queue_slots = 1;
  active_total = 0;
  queued_total = 0;
  started = 0;
  rejected = 0;
  queue_timeouts = 0;
}

abbrev one_queued : Controller
one_queued = record idle {
  queue_slots = 0;
  queued_total = 1;
  readers = class_enqueued (class_new 1);
}

idle-Reachable : Reachable small idle
unfolding controller_new
idle-Reachable = created refl

one_queued-Reachable : Reachable small one_queued
unfolding enqueue
one_queued-Reachable = then_step idle-Reachable (enqueues reader refl)

abbrev taken : Controller
taken = record one_queued { readers = class_taken (class_enqueued (class_new 1)) }

taken-Reachable : Reachable small taken
unfolding take_class
taken-Reachable = then_step one_queued-Reachable (takes_class reader refl)

Reachable-limited_example :
    (taken.active_total ≤ 2)
    × (taken.queued_total ≤ 1)
    × ((class_of taken reader).class_active ≤ 1)
    × ((class_of taken reader).high_water ≤ 1)
Reachable-limited_example = Reachable-limited reader taken-Reachable

Reachable-progress_example :
    ((class : OperationClass) × CanRelease taken class)
    ⊎ ((class : OperationClass) × CanAdvance taken class)
Reachable-progress_example = Reachable-progress taken-Reachable (omega arith)

abbrev two_workers : Pool
two_workers = record {
  total = 2;
  regular = 1;
  waiting = 0;
  holding = 0;
  control_waiting = 0;
  regular_running = 0;
  control_running = 0;
  blocking_active = 0;
  regular_active = 0;
  control_active = 0;
  blocking_queued = 0;
  high_water = 0;
}

abbrev asked_control : Pool
asked_control = record two_workers { control_waiting = 1; blocking_queued = 1 }

asked_control-PoolReachable : PoolReachable 2 asked_control
unfolding pool_new arrive
asked_control-PoolReachable = pool_then (pool_created {p = two_workers} refl) (arrives true)

PoolReachable-reserved_example : (q : Pool) × (take_worker true asked_control ≡ some q)
PoolReachable-reserved_example =
    PoolReachable-reserved asked_control-PoolReachable refl (omega arith)

-- A cancellation is a number, and 0 fails.
abbrev toy_cancel : ℕ → Result ℕ (Unit {0})
toy_cancel zero = err 7
toy_cancel (suc n) = ok tt

abbrev empty : Registry ℕ ℕ toy_cancel
empty = record { entries = []; cancel_requested = 0; cancel_completed = 0; cancel_failed = 0 }
