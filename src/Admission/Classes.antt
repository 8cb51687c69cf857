-- ===== src/Admission/Classes.antt =====
-- The operations of one class: its semaphore, its requests by how far `acquire` has come with
-- them, and the counters of the class.
use quackgis.Base.{ℕ, ◌+◌, ◌-◌, ◌%◌, Bool, true, false, ltb, if◌then◌else◌, u64_mod, wrapping_add}

pub data OperationClass : Type 0 where
  reader writer maintenance : OperationClass

pub data AdmissionError : Type 0 where
  queue_full queue_timeout closed : AdmissionError

-- `fetch_sub(1)` on a word of 64 bits.
abbrev pub wrapping_pred : ℕ → ℕ
wrapping_pred n = (n + (u64_mod - 1)) % u64_mod

-- Permits left in the semaphore of the class; requests that wait for one, that hold one and wait
-- for a global permit, and that run; and the three counters.
pub record ClassState : Type 0 where
  pub permits : ℕ
  pub waiting : ℕ
  pub holding : ℕ
  pub running : ℕ
  pub class_active : ℕ
  pub class_queued : ℕ
  pub high_water : ℕ

abbrev pub class_new : ℕ → ClassState
class_new permits = record {
  permits = permits;
  waiting = 0;
  holding = 0;
  running = 0;
  class_active = 0;
  class_queued = 0;
  high_water = 0;
}

-- `update_high_water`: the loop of compare and exchange ends with the larger of the two.
abbrev pub update_high_water : ℕ → ℕ → ℕ
update_high_water target value = if ltb target value then value else target

abbrev pub class_enqueued : ClassState → ClassState
class_enqueued s = record s {
  waiting = s.waiting + 1;
  class_queued = wrapping_add s.class_queued 1;
}

-- A permit of the class, for a request that waits for one.
abbrev pub class_taken : ClassState → ClassState
class_taken s = record s {
  permits = s.permits - 1;
  waiting = s.waiting - 1;
  holding = s.holding + 1;
}

-- A request that has both permits leaves the queue and runs.
abbrev pub class_started : ClassState → ClassState
class_started s =
    let count = wrapping_add s.class_active 1 in
    record s {
      holding = s.holding - 1;
      running = s.running + 1;
      class_queued = wrapping_pred s.class_queued;
      class_active = count;
      high_water = update_high_water s.high_water count;
    }

-- A request leaves the queue without a permit, or gives its permit back.
abbrev pub class_left : Bool → ClassState → ClassState
class_left false s = record s {
  waiting = s.waiting - 1;
  class_queued = wrapping_pred s.class_queued;
}
class_left true s = record s {
  permits = s.permits + 1;
  holding = s.holding - 1;
  class_queued = wrapping_pred s.class_queued;
}

-- The permit of a finished operation is dropped.
abbrev pub class_released : ClassState → ClassState
class_released s = record s {
  permits = s.permits + 1;
  running = s.running - 1;
  class_active = wrapping_pred s.class_active;
}
