-- ===== src/Admission/Controller/Balanced.antt =====
-- The invariant of the controller: permits, requests and counters agree.
use quackgis.Base.{ℕ, ◌+◌, ◌≤◌, ◌<◌, ◌≡◌, Bool, true, false, some, ok, arith}
use quackgis.Admission.Classes.{OperationClass, reader, writer, maintenance, ClassState}
use quackgis.Admission.Controller.{
  Limits, Controller, max_permits, controller_new, enqueue, refuse, take_class, start, leave,
  release,
}
use quackgis.Admission.Controller.Steps.{
  Step, enqueues, refused, takes_class, starts, leaves, releases, Reachable, created, then_step,
}

-- A class with this limit: its permits are with the semaphore or with a request, and its counters
-- count its requests.
pub record IsClass (limit : ℕ) (s : ClassState) : Type 0 where
  pub permits_kept : s.permits + s.holding + s.running ≡ limit
  pub active_counted : s.class_active ≡ s.running
  pub queued_counted : s.class_queued ≡ s.waiting + s.holding
  pub peak_above : s.running ≤ s.high_water
  pub peak_below : s.high_water ≤ limit
  pub limit_fits : limit ≤ max_permits
  pub limit_some : 0 < limit

abbrev pub queued_in : ClassState → ℕ
queued_in s = s.waiting + s.holding

pub record IsBalanced (l : Limits) (s : Controller) : Type 0 where
  pub readers_ok : IsClass l.max_readers s.readers
  pub writers_ok : IsClass l.max_writers s.writers
  pub maintenance_ok : IsClass l.max_maintenance s.maintenances
  pub active_kept :
      s.active_permits + (s.readers.running + s.writers.running + s.maintenances.running)
      ≡ l.max_active
  pub slots_kept :
      s.queue_slots + (queued_in s.readers + queued_in s.writers + queued_in s.maintenances)
      ≡ l.max_queued
  pub active_counted :
      s.active_total ≡ s.readers.running + s.writers.running + s.maintenances.running
  pub queued_counted :
      s.queued_total ≡ queued_in s.readers + queued_in s.writers + queued_in s.maintenances
  pub active_fits : l.max_active ≤ max_permits
  pub active_some : 0 < l.max_active
  pub queued_fits : l.max_queued ≤ max_permits

enqueue-IsBalanced :
    {l : Limits} {s t : Controller} (class : OperationClass)
    → IsBalanced l s
    → enqueue class s ≡ ok t
    → IsBalanced l t
unfolding enqueue
enqueue-IsBalanced reader b h = ground arith
enqueue-IsBalanced writer b h = ground arith
enqueue-IsBalanced maintenance b h = ground arith

refuse-IsBalanced : {l : Limits} {s : Controller} → IsBalanced l s → IsBalanced l (refuse s)
unfolding refuse
refuse-IsBalanced b = ground arith

take_class-IsBalanced :
    {l : Limits} {s t : Controller} (class : OperationClass)
    → IsBalanced l s
    → take_class class s ≡ some t
    → IsBalanced l t
unfolding take_class
take_class-IsBalanced reader b h = ground arith
take_class-IsBalanced writer b h = ground arith
take_class-IsBalanced maintenance b h = ground arith

start-IsBalanced :
    {l : Limits} {s t : Controller} (class : OperationClass)
    → IsBalanced l s
    → start class s ≡ some t
    → IsBalanced l t
unfolding start
start-IsBalanced reader b h = ground arith
start-IsBalanced writer b h = ground arith
start-IsBalanced maintenance b h = ground arith

leave-IsBalanced :
    {l : Limits} {s t : Controller} (late holds : Bool) (class : OperationClass)
    → IsBalanced l s
    → leave late holds class s ≡ some t
    → IsBalanced l t
unfolding leave
leave-IsBalanced late true reader b h = ground arith
leave-IsBalanced late true writer b h = ground arith
leave-IsBalanced late true maintenance b h = ground arith
leave-IsBalanced late false reader b h = ground arith
leave-IsBalanced late false writer b h = ground arith
leave-IsBalanced late false maintenance b h = ground arith

release-IsBalanced :
    {l : Limits} {s t : Controller} (class : OperationClass)
    → IsBalanced l s
    → release class s ≡ some t
    → IsBalanced l t
unfolding release
release-IsBalanced reader b h = ground arith
release-IsBalanced writer b h = ground arith
release-IsBalanced maintenance b h = ground arith

controller_new-IsBalanced :
    {l : Limits} {s : Controller} → controller_new l ≡ some s → IsBalanced l s
unfolding controller_new
controller_new-IsBalanced h = ground arith

Step-IsBalanced : {l : Limits} {s t : Controller} → Step s t → IsBalanced l s → IsBalanced l t
Step-IsBalanced (enqueues class h) b = enqueue-IsBalanced class b h
Step-IsBalanced (refused class e h) b = refuse-IsBalanced b
Step-IsBalanced (takes_class class h) b = take_class-IsBalanced class b h
Step-IsBalanced (starts class h) b = start-IsBalanced class b h
Step-IsBalanced (leaves late holds class h) b = leave-IsBalanced late holds class b h
Step-IsBalanced (releases class h) b = release-IsBalanced class b h

-- In every state that requests reach in any order of whole steps, each permit is with its semaphore
-- or with one request, the counters count the requests that wait and that run, and the high water
-- of each class lies between what runs and the limit.
pub Reachable-IsBalanced : {l : Limits} {s : Controller} → Reachable l s → IsBalanced l s
Reachable-IsBalanced (created h) = controller_new-IsBalanced h
Reachable-IsBalanced (then_step r step) = Step-IsBalanced step (Reachable-IsBalanced r)
