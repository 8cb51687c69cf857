-- ===== src/Admission/Pool/Reserved.antt =====
-- The states that a pool reaches, and the worker that it keeps for control operations.
use quackgis.Base.{ℕ, ◌+◌, ◌≤◌, ◌<◌, ◌≡◌, refl, Bool, true, false, some, arith}
use quackgis.Admission.Controller.{max_permits}
use quackgis.Admission.Pool.{
  Pool, pool_new, when, arrive, take_regular, take_worker, abandon, abandon_holding, complete,
}

pub data PoolStep (p : Pool) : Pool → Type 0 where
  arrives : (control : Bool) → PoolStep p (arrive control p)
  takes_regular : {q : Pool} → take_regular p ≡ some q → PoolStep p q
  takes_worker : (control : Bool) {q : Pool} → take_worker control p ≡ some q → PoolStep p q
  abandons : (control : Bool) {q : Pool} → abandon control p ≡ some q → PoolStep p q
  abandons_holding : {q : Pool} → abandon_holding p ≡ some q → PoolStep p q
  completes : (control : Bool) {q : Pool} → complete control p ≡ some q → PoolStep p q

-- What a pool of this many workers reaches.
pub data PoolReachable (max_workers : ℕ) : Pool → Type 0 where
  pool_created : {p : Pool} → pool_new max_workers ≡ some p → PoolReachable max_workers p
  pool_then :
      {p q : Pool} → PoolReachable max_workers p → PoolStep p q → PoolReachable max_workers q

pub record IsPool (max_workers : ℕ) (p : Pool) : Type 0 where
  pub workers_kept : p.total + p.regular_running + p.control_running ≡ max_workers
  pub regular_kept : p.regular + p.holding + p.regular_running + 1 ≡ max_workers
  pub active_counted : p.blocking_active ≡ p.regular_running + p.control_running
  pub regular_counted : p.regular_active ≡ p.regular_running
  pub control_counted : p.control_active ≡ p.control_running
  pub peak_above : p.blocking_active ≤ p.high_water
  pub peak_below : p.high_water ≤ max_workers
  pub workers_fit : max_workers ≤ max_permits

arrive-IsPool : {n : ℕ} {p : Pool} (control : Bool) → IsPool n p → IsPool n (arrive control p)
unfolding arrive
arrive-IsPool true i = ground arith
arrive-IsPool false i = ground arith

take_regular-IsPool : {n : ℕ} {p q : Pool} → IsPool n p → take_regular p ≡ some q → IsPool n q
unfolding take_regular
take_regular-IsPool i h = ground arith

take_worker-IsPool :
    {n : ℕ} {p q : Pool} (control : Bool) → IsPool n p → take_worker control p ≡ some q → IsPool n q
unfolding take_worker
take_worker-IsPool true i h = ground arith
take_worker-IsPool false i h = ground arith

abandon-IsPool :
    {n : ℕ} {p q : Pool} (control : Bool) → IsPool n p → abandon control p ≡ some q → IsPool n q
unfolding abandon
abandon-IsPool true i h = ground arith
abandon-IsPool false i h = ground arith

abandon_holding-IsPool : {n : ℕ} {p q : Pool} → IsPool n p → abandon_holding p ≡ some q → IsPool n q
unfolding abandon_holding
abandon_holding-IsPool i h = ground arith

complete-IsPool :
    {n : ℕ} {p q : Pool} (control : Bool) → IsPool n p → complete control p ≡ some q → IsPool n q
unfolding complete
complete-IsPool true i h = ground arith
complete-IsPool false i h = ground arith

pool_new-IsPool : {n : ℕ} {p : Pool} → pool_new n ≡ some p → IsPool n p
unfolding pool_new
pool_new-IsPool h = ground arith

PoolStep-IsPool : {n : ℕ} {p q : Pool} → PoolStep p q → IsPool n p → IsPool n q
PoolStep-IsPool (arrives control) i = arrive-IsPool control i
PoolStep-IsPool (takes_regular h) i = take_regular-IsPool i h
PoolStep-IsPool (takes_worker control h) i = take_worker-IsPool control i h
PoolStep-IsPool (abandons control h) i = abandon-IsPool control i h
PoolStep-IsPool (abandons_holding h) i = abandon_holding-IsPool i h
PoolStep-IsPool (completes control h) i = complete-IsPool control i h

PoolReachable-IsPool : {n : ℕ} {p : Pool} → PoolReachable n p → IsPool n p
PoolReachable-IsPool (pool_created h) = pool_new-IsPool h
PoolReachable-IsPool (pool_then r step) = PoolStep-IsPool step (PoolReachable-IsPool r)

-- In every reachable state of a pool the operations that run are counted, are no more than its
-- workers, and the regular ones leave one worker at least to control operations.
pub PoolReachable-limited :
    {max_workers : ℕ} {p : Pool}
    → PoolReachable max_workers p
    → (p.blocking_active ≤ max_workers)
      × (p.regular_active + 1 ≤ max_workers)
      × (p.blocking_active ≡ p.regular_active + p.control_active)
      × (p.high_water ≤ max_workers)
PoolReachable-limited r = let i = PoolReachable-IsPool r in ground arith

when-some : (b : Bool) (p : Pool) → b ≡ true → when b p ≡ some p
when-some true p h = refl
when-some false p h = cc

-- In a reachable state where no control operation runs, a control request that waits gets a worker
-- at once, however many regular operations run or wait.
pub PoolReachable-reserved :
    {max_workers : ℕ} {p : Pool}
    → PoolReachable max_workers p
    → p.control_active ≡ 0
    → 0 < p.control_waiting
    → (q : Pool) × (take_worker true p ≡ some q)
unfolding take_worker
PoolReachable-reserved {p = p} r idle waits =
    let i = PoolReachable-IsPool r in (_, when-some _ _ (ground arith))
