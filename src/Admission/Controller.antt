-- ===== src/Admission/Controller.antt =====
-- `AdmissionController`: the steps of `acquire` and of the drop of a permit. A step takes or gives back
-- permits of the semaphores; the counters that the code changes one by one around this, each by an
-- atomic of its own, change in the same step, and the states between them are not modelled.
pub mod Steps
pub mod Balanced
pub mod Bounds
use quackgis.Base.{
  ℕ, suc, ◌+◌, ◌-◌, ◌%◌, ◌^◌, Bool, true, false, not, ◌&&◌, ◌||◌, Option, none, some, ltb, leb,
  ◌==◌, if◌then◌else◌, wrapping_add, Result, ok, err, reject, ◌>>=◌, ◌>>◌,
}
use quackgis.Admission.Classes.{
  OperationClass, reader, writer, maintenance, AdmissionError, queue_full, queue_timeout,
  wrapping_pred, ClassState, class_new, class_enqueued, class_taken, class_started, class_left,
  class_released,
}

pub record Limits : Type 0 where
  pub max_active : ℕ
  pub max_queued : ℕ
  pub max_readers : ℕ
  pub max_writers : ℕ
  pub max_maintenance : ℕ

pub record Controller : Type 0 where
  pub readers : ClassState
  pub writers : ClassState
  pub maintenances : ClassState
  pub active_permits : ℕ
  pub queue_slots : ℕ
  pub active_total : ℕ
  pub queued_total : ℕ
  pub started : ℕ
  pub rejected : ℕ
  pub queue_timeouts : ℕ

-- tokio's Semaphore::MAX_PERMITS, above which its `new` panics.
abbrev pub max_permits : ℕ
max_permits = 2 ^ 61 - 1

abbrev is_permits : ℕ → Bool
is_permits n = ltb 0 n && leb n max_permits

-- `none` where an assertion, or a semaphore, panics.
unfoldable pub controller_new : Limits → Option Controller
controller_new l =
    if is_permits l.max_active
      && is_permits l.max_queued
      && is_permits l.max_readers
      && is_permits l.max_writers
      && is_permits l.max_maintenance
    then some (record {
      readers = class_new l.max_readers;
      writers = class_new l.max_writers;
      maintenances = class_new l.max_maintenance;
      active_permits = l.max_active;
      queue_slots = l.max_queued;
      active_total = 0;
      queued_total = 0;
      started = 0;
      rejected = 0;
      queue_timeouts = 0;
    })
    else none

abbrev pub class_of : Controller → OperationClass → ClassState
class_of s reader = s.readers
class_of s writer = s.writers
class_of s maintenance = s.maintenances

abbrev pub with_class : Controller → OperationClass → ClassState → Controller
with_class s reader c = record s { readers = c }
with_class s writer c = record s { writers = c }
with_class s maintenance c = record s { maintenances = c }

-- The outcome of a step that cannot be taken now.
abbrev pub enabled : Bool → Controller → Option Controller
enabled true s = some s
enabled false s = none

-- `try_acquire_owned` on the queue, and the guard that counts the request.
unfoldable pub enqueue : OperationClass → Controller → Result AdmissionError Controller
enqueue class s = do
  reject (s.queue_slots == 0) queue_full
  ok (
      with_class
        (record s { queue_slots = s.queue_slots - 1; queued_total = wrapping_add s.queued_total 1 })
        class (class_enqueued (class_of s class)))

-- The refused request is counted.
unfoldable pub refuse : Controller → Controller
refuse s = record s { rejected = wrapping_add s.rejected 1 }

-- The permit of the class.
unfoldable pub take_class : OperationClass → Controller → Option Controller
take_class class s =
    let c = class_of s class in
    enabled (ltb 0 c.waiting && ltb 0 c.permits) (with_class s class (class_taken c))

-- The global permit, with what `acquire` does from there to its end: both guards of the queue are
-- dropped and the operation is counted.
unfoldable pub start : OperationClass → Controller → Option Controller
start class s =
    let c = class_of s class in
    enabled (ltb 0 c.holding && ltb 0 s.active_permits) (
      with_class
        (record s {
          active_permits = s.active_permits - 1;
          queue_slots = s.queue_slots + 1;
          queued_total = wrapping_pred s.queued_total;
          active_total = wrapping_add s.active_total 1;
          started = wrapping_add s.started 1;
        })
        class (class_started c))

-- The request leaves the queue, with the permit of its class or without; `late` tells a timeout
-- from a caller that dropped its future.
unfoldable pub leave : Bool → Bool → OperationClass → Controller → Option Controller
leave late holds class s =
    let c = class_of s class in
    enabled (if holds then ltb 0 c.holding else ltb 0 c.waiting) (
      with_class
        (record s {
          queue_slots = s.queue_slots + 1;
          queued_total = wrapping_pred s.queued_total;
          queue_timeouts = (if late then wrapping_add s.queue_timeouts 1 else s.queue_timeouts);
        })
        class (class_left holds c))

-- The permit of a running operation is dropped, with the changes of its counters.
unfoldable pub release : OperationClass → Controller → Option Controller
release class s =
    let c = class_of s class in
    enabled (ltb 0 c.running) (
      with_class
        (record s {
          active_permits = s.active_permits + 1;
          active_total = wrapping_pred s.active_total;
        })
        class (class_released c))
