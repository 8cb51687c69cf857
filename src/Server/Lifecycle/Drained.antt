-- ===== src/Server/Lifecycle/Drained.antt =====
-- A drained server starts no transaction (crates/quackgis-server/src/lifecycle.rs).
use quackgis.Base.{◌+◌, ◌<◌, ◌≡◌, refl, u64_mod, arith}
use quackgis.Server.Lifecycle.{
  draining, join, transaction_finished, update_round, stop_accepting, mark_draining,
}
use quackgis.Server.Lifecycle.Steps.{
  World, new_world, Step, checks, joins, starts, refuses, finishes, backs_out, notifies, updates,
  stops, marks, looks, begins, calls, waits, looks_again, Reach, here, then_step,
}

-- The count is that of the threads which have joined and not finished.
pub record IsCounted (w : World) : Type 0 where
  pub exact : w.lifecycle.active_transactions ≡ w.counted + w.running + w.refused
  pub bounded : w.counted + w.running + w.refused < u64_mod

pub Step-IsCounted : {w v : World} → Step w v → IsCounted w → IsCounted v
unfolding join transaction_finished update_round stop_accepting mark_draining
Step-IsCounted (checks h) i = record { exact = i.exact; bounded = i.bounded }
Step-IsCounted (joins h b) i = record {
  exact = omega (arith, i.exact, b);
  bounded = omega (arith, i.exact, b);
}
Step-IsCounted (starts h a) i = record {
  exact = omega (arith, i.exact, h);
  bounded = omega (arith, i.bounded, h);
}
Step-IsCounted (refuses h a) i = record {
  exact = omega (arith, i.exact, h);
  bounded = omega (arith, i.bounded, h);
}
Step-IsCounted (finishes h) i = record {
  exact = omega (arith, i.exact, i.bounded, h);
  bounded = omega (arith, i.bounded, h);
}
Step-IsCounted (backs_out h) i = record {
  exact = omega (arith, i.exact, i.bounded, h);
  bounded = omega (arith, i.bounded, h);
}
Step-IsCounted (notifies h) i = record { exact = i.exact; bounded = i.bounded }
Step-IsCounted (updates next spurious current) i = record {
  exact = ground (arith, i);
  bounded = i.bounded;
}
Step-IsCounted (stops h) i = record { exact = i.exact; bounded = i.bounded }
Step-IsCounted (marks h) i = record { exact = i.exact; bounded = i.bounded }
Step-IsCounted (looks h) i = record { exact = i.exact; bounded = i.bounded }
Step-IsCounted (begins h) i = record { exact = i.exact; bounded = i.bounded }
Step-IsCounted (calls h) i = record { exact = i.exact; bounded = i.bounded }
Step-IsCounted (waits h) i = record { exact = i.exact; bounded = i.bounded }
Step-IsCounted (looks_again h) i = record { exact = i.exact; bounded = i.bounded }

-- In any order of the steps of all threads, the count of active transactions is that of the threads
-- that joined and have not finished, so that it never wraps below 0.
pub Reach-IsCounted : {w : World} → Reach new_world w → IsCounted w
Reach-IsCounted here = record { exact = refl; bounded = omega arith }
Reach-IsCounted (then_step r s) = Step-IsCounted s (Reach-IsCounted r)

Step-draining :
    {w v : World} → Step w v → w.lifecycle.readiness ≡ draining → v.lifecycle.readiness ≡ draining
unfolding join transaction_finished update_round stop_accepting mark_draining
Step-draining (checks h) d = d
Step-draining (joins h b) d = d
Step-draining (starts h on) d = d
Step-draining (refuses h off) d = d
Step-draining (finishes h) d = d
Step-draining (backs_out h) d = d
Step-draining (notifies h) d = d
Step-draining (updates next spurious current) d = ground (arith, d)
Step-draining (stops h) d = d
Step-draining (marks h) d = refl
Step-draining (looks h) d = d
Step-draining (begins h) d = d
Step-draining (calls h) d = d
Step-draining (waits h) d = d
Step-draining (looks_again h) d = d

-- A server that reports that it drains reports nothing else after, though the storage probe goes on
-- and reads the readiness long before it writes.
pub Reach-draining :
    {w v : World} → w.lifecycle.readiness ≡ draining → Reach w v → v.lifecycle.readiness ≡ draining
Reach-draining d here = d
Reach-draining d (then_step r s) = Step-draining s (Reach-draining d r)
