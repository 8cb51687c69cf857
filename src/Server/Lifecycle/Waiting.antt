-- ===== src/Server/Lifecycle/Waiting.antt =====
-- A waiter that misses the last notification (crates/quackgis-server/src/lifecycle.rs).
use quackgis.Base.{ℕ, zero, suc, ◌+◌, ◌≡◌, refl, false, arith}
use quackgis.Server.Lifecycle.{update_round, transaction_finished}
use quackgis.Server.Lifecycle.Steps.{
  begun, Waiter, absent, about, waiting, World, new_world, one_if, looked, Step, checks, joins,
  starts, refuses, finishes, backs_out, notifies, updates, stops, marks, looks, begins, calls,
  waits, looks_again, Reach, here, then_step,
}
use quackgis.Server.Lifecycle.Drained.{IsCounted, Step-IsCounted, Reach-IsCounted}

-- The drain has begun, no thread has a transaction or is about to notify, and a waiter waits.
pub record IsStranded (w : World) : Type 0 where
  pub refuses_new : w.lifecycle.accepting ≡ false
  pub no_checked : w.checked ≡ 0
  pub no_counted : w.counted ≡ 0
  pub no_running : w.running ≡ 0
  pub no_refused : w.refused ≡ 0
  pub no_notifying : w.notifying ≡ 0
  pub drain_begun : w.drain ≡ begun
  pub waits_on : w.waiter ≡ waiting

Step-IsStranded : {w v : World} → Step w v → IsStranded w → IsStranded v
unfolding update_round
Step-IsStranded (checks h) i = absurd (cc (h, i.refuses_new))
Step-IsStranded (joins h b) i = absurd (cc (h, i.no_checked))
Step-IsStranded (starts h a) i = absurd (cc (h, i.no_counted))
Step-IsStranded (refuses h a) i = absurd (cc (h, i.no_counted))
Step-IsStranded (finishes h) i = absurd (cc (h, i.no_running))
Step-IsStranded (backs_out h) i = absurd (cc (h, i.no_refused))
Step-IsStranded (notifies h) i = absurd (cc (h, i.no_notifying))
Step-IsStranded (updates next spurious current) i = record {
  refuses_new = ground (arith, i.refuses_new);
  no_checked = i.no_checked;
  no_counted = i.no_counted;
  no_running = i.no_running;
  no_refused = i.no_refused;
  no_notifying = i.no_notifying;
  drain_begun = i.drain_begun;
  waits_on = i.waits_on;
}
Step-IsStranded (stops h) i = absurd (cc (h, i.drain_begun))
Step-IsStranded (marks h) i = absurd (cc (h, i.drain_begun))
Step-IsStranded (looks h) i = absurd (cc (h, i.drain_begun))
Step-IsStranded (begins h) i = absurd (cc (h, i.drain_begun))
Step-IsStranded (calls h) i = absurd (cc (h, i.waits_on))
Step-IsStranded (waits h) i = absurd (cc (h, i.waits_on))
Step-IsStranded (looks_again h) i = absurd (cc (h, i.waits_on))

Reach-IsStranded : {w v : World} → IsStranded w → Reach w v → IsStranded v
Reach-IsStranded i here = i
Reach-IsStranded i (then_step r s) = Step-IsStranded s (Reach-IsStranded i r)

-- While the server drains, transactions run, no other thread is under way, and the waiter is there.
pub record IsDraining (waiter : Waiter) (w : World) : Type 0 where
  pub refuses_new : w.lifecycle.accepting ≡ false
  pub no_checked : w.checked ≡ 0
  pub no_counted : w.counted ≡ 0
  pub no_refused : w.refused ≡ 0
  pub no_notifying : w.notifying ≡ 0
  pub drain_begun : w.drain ≡ begun
  pub waiter_at : w.waiter ≡ waiter

-- No transaction is counted, and the waiter waits in every state that is reached from here.
abbrev pub IsStalled : World → Type 0
IsStalled w = (w.lifecycle.active_transactions ≡ 0) × ((v : World) → Reach w v → v.waiter ≡ waiting)

first_step : {w u v : World} → Step w u → Reach u v → Reach w v
first_step s here = then_step here s
first_step s (then_step r t) = then_step (first_step s r) t

-- what `finishes` leaves
abbrev one_finished : World → ℕ → World
one_finished w n = record w {
  lifecycle = (transaction_finished w.lifecycle).0;
  running = n;
  notifying = w.notifying + one_if (transaction_finished w.lifecycle).1;
}

-- After a waiter has seen a count that is not 0, the transactions finish one by one.
finish_all :
    (n : ℕ) (w : World)
    → IsCounted w
    → IsDraining about w
    → w.running ≡ suc n
    → (v : World) × Reach w v × IsStalled v
unfolding transaction_finished
finish_all zero w c d h =
    let step : Step w (one_finished w 0) = finishes h in
    let after = Step-IsCounted step c in
    let last = waits (ground (arith, d.waiter_at)) in
    let i : IsStranded _ = record {
      refuses_new = d.refuses_new;
      no_checked = d.no_checked;
      no_counted = d.no_counted;
      no_running = refl;
      no_refused = d.no_refused;
      no_notifying = refl;
      drain_begun = d.drain_begun;
      waits_on = refl;
    } in
    (
      _,
      then_step (then_step (then_step here step) (notifies (ground (arith, c, d, h)))) last,
      (ground (arith, after, d), λ v r. (Reach-IsStranded i r).waits_on),
    )
finish_all (suc n) w c d h =
    let step : Step w (one_finished w (suc n)) = finishes h in
    let (v, r, stalled) =
      finish_all n _ (Step-IsCounted step c)
        (record {
          refuses_new = d.refuses_new;
          no_checked = d.no_checked;
          no_counted = d.no_counted;
          no_refused = d.no_refused;
          no_notifying = ground (arith, c, d, h);
          drain_begun = d.drain_begun;
          waiter_at = d.waiter_at;
        })
        refl in
    (v, first_step step r, stalled)

-- A call of `wait_for_transactions` may never return: from every reachable state in which the server
-- drains, transactions run and no other thread is under way, a call now can come to wait after the
-- last of the transactions has finished and notified, with no transaction left and no step after
-- which it does not wait.
pub Reach-waiting :
    {w : World} {n : ℕ}
    → Reach new_world w
    → IsDraining absent w
    → w.running ≡ suc n
    → (v : World) × Reach w v × IsStalled v
Reach-waiting {w = w} {n = n} r d h =
    let c = Reach-IsCounted r in
    let step : Step w (record w { waiter = looked w.lifecycle }) = calls d.waiter_at in
    let (v, later, stalled) =
      finish_all n _ (Step-IsCounted step c)
        (record {
          refuses_new = d.refuses_new;
          no_checked = d.no_checked;
          no_counted = d.no_counted;
          no_refused = d.no_refused;
          no_notifying = d.no_notifying;
          drain_begun = d.drain_begun;
          waiter_at = ground (arith, c, h);
        })
        h in
    (v, first_step step later, stalled)
