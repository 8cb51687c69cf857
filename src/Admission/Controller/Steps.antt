-- ===== src/Admission/Controller/Steps.antt =====
-- The states that requests reach together, in any order of their steps.
use quackgis.Base.{◌≡◌, Bool, some, ok, err}
use quackgis.Admission.Classes.{OperationClass, AdmissionError}
use quackgis.Admission.Controller.{
  Limits, Controller, controller_new, enqueue, refuse, take_class, start, leave, release,
}

-- One step of some request or operation.
pub data Step (s : Controller) : Controller → Type 0 where
  enqueues : (class : OperationClass) {t : Controller} → enqueue class s ≡ ok t → Step s t
  refused :
      (class : OperationClass) (e : AdmissionError) → enqueue class s ≡ err e → Step s (refuse s)
  takes_class : (class : OperationClass) {t : Controller} → take_class class s ≡ some t → Step s t
  starts : (class : OperationClass) {t : Controller} → start class s ≡ some t → Step s t
  leaves :
      (late holds : Bool) (class : OperationClass) {t : Controller}
      → leave late holds class s ≡ some t
      → Step s t
  releases : (class : OperationClass) {t : Controller} → release class s ≡ some t → Step s t

-- What a new controller with these limits reaches.
pub data Reachable (l : Limits) : Controller → Type 0 where
  created : {s : Controller} → controller_new l ≡ some s → Reachable l s
  then_step : {s t : Controller} → Reachable l s → Step s t → Reachable l t
