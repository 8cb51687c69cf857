-- ===== src/Admission/Controller/Bounds.antt =====
-- What the invariant of the controller gives: the limits, the refusals, the permits of an idle
-- controller, and progress.
use quackgis.Base.{
  ℕ, suc, ◌≤◌, ◌<◌, ◌≡◌, refl, ◌↔◌, ◌⊎◌, inl, inr, Bool, true, false, ◌&&◌, some, ltb, lt→ltb,
  ltb→lt, Bool-cases, err, arith,
}
use quackgis.Admission.Classes.{OperationClass, reader, writer, maintenance, queue_full}
use quackgis.Admission.Controller.{
  Limits, Controller, enqueue, take_class, start, release, class_of, enabled,
}
use quackgis.Admission.Controller.Steps.{Reachable}
use quackgis.Admission.Controller.Balanced.{IsClass, IsBalanced, queued_in, Reachable-IsBalanced}

abbrev pub limit_of : Limits → OperationClass → ℕ
limit_of l reader = l.max_readers
limit_of l writer = l.max_writers
limit_of l maintenance = l.max_maintenance

limited :
    {l : Limits} {s : Controller} (class : OperationClass)
    → IsBalanced l s
    → (s.active_total ≤ l.max_active)
      × (s.queued_total ≤ l.max_queued)
      × ((class_of s class).class_active ≤ limit_of l class)
      × ((class_of s class).high_water ≤ limit_of l class)
limited reader b = ground arith
limited writer b = ground arith
limited maintenance b = ground arith

-- In every reachable state no more operations run, in all and of each class, and no more requests
-- are queued than the limits allow, and the peak of a class is within its limit.
pub Reachable-limited :
    {l : Limits} {s : Controller} (class : OperationClass)
    → Reachable l s
    → (s.active_total ≤ l.max_active)
      × (s.queued_total ≤ l.max_queued)
      × ((class_of s class).class_active ≤ limit_of l class)
      × ((class_of s class).high_water ≤ limit_of l class)
Reachable-limited class r = limited class (Reachable-IsBalanced r)

-- In a reachable state a request is refused exactly when the queue has as many requests as the
-- limit allows.
pub enqueue_full :
    {l : Limits} {s : Controller} (class : OperationClass)
    → Reachable l s
    → (enqueue class s ≡ err queue_full) ↔ (s.queued_total ≡ l.max_queued)
unfolding enqueue
enqueue_full class r = let b = Reachable-IsBalanced r in ground arith

-- A reachable state where nothing waits and nothing runs has every permit back.
pub Reachable-idle :
    {l : Limits} {s : Controller}
    → Reachable l s
    → s.active_total ≡ 0
    → s.queued_total ≡ 0
    → (s.active_permits ≡ l.max_active)
      × (s.queue_slots ≡ l.max_queued)
      × (s.readers.permits ≡ l.max_readers)
      × (s.writers.permits ≡ l.max_writers)
      × (s.maintenances.permits ≡ l.max_maintenance)
Reachable-idle r no_active no_queued = let b = Reachable-IsBalanced r in ground arith

-- A request of the class can take its next permit.
abbrev pub CanAdvance : Controller → OperationClass → Type 0
CanAdvance s class = (t : Controller) × ((take_class class s ≡ some t) ⊎ (start class s ≡ some t))

enabled-some : (b : Bool) (s : Controller) → b ≡ true → enabled b s ≡ some s
enabled-some true s h = refl
enabled-some false s h = cc

can_start :
    (class : OperationClass) (s : Controller)
    → (ltb 0 (class_of s class).holding && ltb 0 s.active_permits) ≡ true
    → CanAdvance s class
unfolding start
can_start class s h = (_, inr (enabled-some _ _ h))

can_take :
    (class : OperationClass) (s : Controller)
    → (ltb 0 (class_of s class).waiting && ltb 0 (class_of s class).permits) ≡ true
    → CanAdvance s class
unfolding take_class
can_take class s h = (_, inl (enabled-some _ _ h))

-- Where nothing runs, a class with a queued request has one that can advance.
class_advances :
    {limit : ℕ} (class : OperationClass) (s : Controller)
    → IsClass limit (class_of s class)
    → (class_of s class).running ≡ 0
    → 0 < s.active_permits
    → 0 < queued_in (class_of s class)
    → CanAdvance s class
class_advances class s c idle room some_queued =
    elim (Bool-cases (ltb 0 (class_of s class).holding)) [
      | inl holds ↦ can_start class s (rw holds (lt→ltb 0 s.active_permits room))
      | inr none_holds ↦ can_take class s (ground arith)
    ]

some_advances :
    {l : Limits} (s : Controller)
    → IsBalanced l s
    → ltb 0 s.active_total ≡ false
    → 0 < s.queued_total
    → (class : OperationClass) × CanAdvance s class
some_advances s b idle some_queued = elim (Bool-cases (ltb 0 (queued_in s.readers))) [
  | inl waits ↦ (
    reader,
    class_advances reader s b.readers_ok (ground arith) (ground arith) (ltb→lt 0 _ waits),
  )
  | inr no_reader ↦ elim (Bool-cases (ltb 0 (queued_in s.writers))) [
    | inl waits ↦ (
      writer,
      class_advances writer s b.writers_ok (ground arith) (ground arith) (ltb→lt 0 _ waits),
    )
    | inr no_writer ↦ (
      maintenance,
      class_advances maintenance s b.maintenance_ok (ground arith) (ground arith) (ground arith),
    )
  ]
]

-- An operation of the class can end, which gives its two permits back.
abbrev pub CanRelease : Controller → OperationClass → Type 0
CanRelease s class =
    (t : Controller) × (release class s ≡ some t)
    × (t.active_permits ≡ suc s.active_permits)
    × ((class_of t class).permits ≡ suc (class_of s class).permits)

can_release :
    (class : OperationClass) (s : Controller)
    → ltb 0 (class_of s class).running ≡ true
    → CanRelease s class
unfolding release
can_release reader s h = (_, enabled-some _ _ h, omega arith, omega arith)
can_release writer s h = (_, enabled-some _ _ h, omega arith, omega arith)
can_release maintenance s h = (_, enabled-some _ _ h, omega arith, omega arith)

some_releases :
    {l : Limits} (s : Controller)
    → IsBalanced l s
    → ltb 0 s.active_total ≡ true
    → (class : OperationClass) × CanRelease s class
some_releases s b active = elim (Bool-cases (ltb 0 s.readers.running)) [
  | inl runs ↦ (reader, can_release reader s runs)
  | inr no_reader ↦ elim (Bool-cases (ltb 0 s.writers.running)) [
    | inl runs ↦ (writer, can_release writer s runs)
    | inr no_writer ↦ (maintenance, can_release maintenance s (ground arith))
  ]
]

-- Requests are never stuck: in a reachable state with a queued request some operation can end, which
-- gives back its global permit and that of its class, or some queued request can take its next
-- permit.
pub Reachable-progress :
    {l : Limits} {s : Controller}
    → Reachable l s
    → 0 < s.queued_total
    → ((class : OperationClass) × CanRelease s class)
      ⊎ ((class : OperationClass) × CanAdvance s class)
Reachable-progress {s = s} r some_queued =
    let b = Reachable-IsBalanced r in
    elim (Bool-cases (ltb 0 s.active_total)) [
      | inl runs ↦ inl (some_releases s b runs)
      | inr idle ↦ inr (some_advances s b idle some_queued)
    ]
