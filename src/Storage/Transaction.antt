-- ===== src/Storage/Transaction.antt =====
-- The transaction state of a storage session: begin, commit, rollback, the transaction around a
-- callback, and the probe of write capacity (crates/quackgis-server/src/duckdb_adbc_storage.rs).
-- What the native connection answers is an input of each operation.
pub mod Sound
pub mod Quarantine
use quackgis.Base.{
  ℕ, ◌+◌, ◌-◌, ◌%◌, Bool, true, false, not, ◌&&◌, ◌||◌, if◌then◌else◌, Option, none, some, u64_mod,
  wrapping_add,
}

pub data EngineTransactionState : Type 0 where
  idle active quarantined : EngineTransactionState

abbrev pub state_beq : EngineTransactionState → EngineTransactionState → Bool
state_beq idle idle = true
state_beq active active = true
state_beq quarantined quarantined = true
state_beq _ _ = false

pub data Failure : Type 0 where
  wrong_state refused draining unavailable poisoned occupied native : Failure
  commit_serialization commit_failed reconciliation_failed restoration_failed : Failure
  rollback_failed operation_failed : Failure

-- `resumed` is the panic of the callback, which unwinds on.
pub data Outcome : Type 0 where
  done : Outcome
  failed : Failure → Outcome
  resumed : Outcome

-- `connection` tells whether the slot holds the native connection; the poison flags are those of
-- the two mutexes. `active_transactions` is the counter of the lifecycle, and `quarantines` that of
-- the metrics.
pub record Session : Type 0 where
  pub state : EngineTransactionState
  pub state_poisoned : Bool
  pub connection : Bool
  pub connection_poisoned : Bool
  pub read_only : Bool
  pub active_transactions : ℕ
  pub quarantines : ℕ

pub data Callback : Type 0 where
  returns fails panics : Callback

-- The answers of the lifecycle and of the native connection to one operation.
pub record Native : Type 0 where
  pub starts : Bool
  pub autocommit_off : Bool
  pub callback : Callback
  pub guard : Bool
  pub commits : Bool
  pub identity_enabled : Bool
  pub reconciles : Bool
  pub rolls_back : Bool
  pub restores : Bool
  pub executes : Bool

-- `transaction_state`
abbrev pub transaction_state : Session → EngineTransactionState
transaction_state s = if s.state_poisoned then quarantined else s.state

-- `require_transaction_state`
abbrev pub is_in : EngineTransactionState → Session → Bool
is_in required s = state_beq (transaction_state s) required

-- `lifecycle.try_start_transaction()` that succeeds, and `lifecycle.transaction_finished()`
abbrev pub started : Session → Session
started s = record s { active_transactions = wrapping_add s.active_transactions 1 }

abbrev pub finished : Session → Session
finished s = record s { active_transactions = (s.active_transactions + (u64_mod - 1)) % u64_mod }

-- `set_transaction_state`; `none` when the mutex is poisoned
unfoldable pub set_transaction_state : EngineTransactionState → Session → Option Session
set_transaction_state state s =
    let counted =
      if state_beq state quarantined && not (state_beq s.state quarantined)
      then record s { quarantines = wrapping_add s.quarantines 1 }
      else s in
    let left =
      if state_beq s.state active && not (state_beq state active)
      then finished counted
      else counted in
    if s.state_poisoned
    then none
    else some (record left {
      state = state;
      read_only = if state_beq state active then s.read_only else false;
    })

-- a slot that yields its connection
abbrev pub has_connection : Session → Bool
has_connection s = not s.connection_poisoned && s.connection

-- `take_connection`, whose caller has asked `has_connection`
abbrev pub taken : Session → Session
taken s = record s { connection = false }

-- `self.set_transaction_state(…)?` with the answer that follows
abbrev pub answer_after : Session → Option Session → Outcome → Session × Outcome
answer_after s none outcome = (s, failed poisoned)
answer_after s (some t) outcome = (t, outcome)

-- `self.set_transaction_state(Quarantined)?; return Err(…)`
unfoldable pub quarantine : Failure → Session → Session × Outcome
unfolding set_transaction_state
quarantine failure s = answer_after s (set_transaction_state quarantined s) (failed failure)

-- `self.return_connection(connection)?; self.set_transaction_state(Idle)?`
unfoldable pub give_back : Outcome → Session → Session × Outcome
unfolding set_transaction_state
give_back outcome s =
    if s.connection_poisoned
    then (s, failed poisoned)
    else if s.connection
    then (s, failed occupied)
    else let returned : Session = record s { connection = true } in
      answer_after returned (set_transaction_state idle returned) outcome

-- the second half of `begin_transaction_with_access`
abbrev pub entered : Session → Option Session → Session × Outcome
entered s none = (finished (record s { read_only = false }), failed poisoned)
entered s (some t) = (t, done)

unfoldable pub begin_transaction : Native → Bool → Session → Session × Outcome
unfolding set_transaction_state
begin_transaction n read_only s =
    if not (is_in idle s)
    then (s, failed wrong_state)
    else if not n.starts
    then (s, failed draining)
    else if not (has_connection s && n.autocommit_off)
    then (finished (started s), failed unavailable)
    else let marked : Session = record (started s) { read_only = read_only } in
      entered marked (set_transaction_state active marked)

-- from the commit guard to the return of the connection
unfoldable pub finish_commit : Native → Session → Session × Outcome
unfolding quarantine give_back
finish_commit n s =
    if not n.guard
    then quarantine commit_serialization s
    else if not n.commits
    then quarantine commit_failed s
    else if n.identity_enabled && not n.reconciles
    then quarantine reconciliation_failed s
    else if not n.restores
    then quarantine restoration_failed s
    else give_back done s

unfoldable pub commit_transaction : Native → Session → Session × Outcome
unfolding finish_commit
commit_transaction n s =
    if not (is_in active s)
    then (s, failed wrong_state)
    else if not (has_connection s)
    then (s, failed unavailable)
    else finish_commit n (taken s)

-- the rollback and the restoration of autocommit, with the answer when both succeed
unfoldable pub finish_rollback : Native → Outcome → Session → Session × Outcome
unfolding quarantine give_back
finish_rollback n outcome s =
    if not n.rolls_back
    then quarantine rollback_failed s
    else if not n.restores
    then quarantine restoration_failed s
    else give_back outcome s

unfoldable pub rollback_transaction : Native → Session → Session × Outcome
unfolding finish_rollback
rollback_transaction n s =
    if not (is_in active s)
    then (s, failed wrong_state)
    else if not (has_connection s)
    then (s, failed unavailable)
    else finish_rollback n done (taken s)

-- The end of a callback that panics ignores what `return_connection` and the changes of state say.
abbrev pub kept : Session → Option Session → Session
kept s none = s
kept s (some t) = t

abbrev pub put_back : Session → Session
put_back s = if s.connection_poisoned then s else record s { connection = true }

unfoldable pub finish_panic : Native → Session → Session × Outcome
unfolding set_transaction_state
finish_panic n s =
    if n.rolls_back && n.restores
    then (kept (put_back s) (set_transaction_state idle (put_back s)), resumed)
    else (kept s (set_transaction_state quarantined s), resumed)

abbrev pub after_callback : Native → Callback → Session → Session × Outcome
after_callback n returns s = finish_commit n s
after_callback n fails s = finish_rollback n (failed operation_failed) s
after_callback n panics s = finish_panic n s

abbrev pub run_callback : Native → Session → Option Session → Session × Outcome
run_callback n s none = (finished s, failed poisoned)
run_callback n s (some t) = after_callback n n.callback t

-- `transaction`
unfoldable pub transaction : Native → Session → Session × Outcome
unfolding set_transaction_state finish_commit finish_rollback finish_panic
transaction n s =
    if not (is_in idle s)
    then (s, failed wrong_state)
    else if not n.starts
    then (s, failed draining)
    else if not (has_connection s)
    then (finished (started s), failed unavailable)
    else if not n.autocommit_off
    then (finished (put_back (taken (started s))), failed native)
    else run_callback n (taken (started s)) (set_transaction_state active (taken (started s)))

-- `require_writable_transaction`
abbrev pub is_writable : Session → Bool
is_writable s = not (is_in active s && s.read_only)

abbrev pub probe_outcome : Bool → Outcome
probe_outcome true = done
probe_outcome false = failed native

-- `let _ = self.set_transaction_state(Quarantined); return Err(…)`
unfoldable pub quarantine_quietly : Failure → Session → Session × Outcome
unfolding set_transaction_state
quarantine_quietly failure s = (kept s (set_transaction_state quarantined s), failed failure)

abbrev pub left_probe : Session → Option Session → Outcome → Session × Outcome
left_probe s none outcome = (finished s, failed poisoned)
left_probe s (some t) outcome = (t, outcome)

-- the end of the probe, which never commits
unfoldable pub finish_probe : Native → Session → Session × Outcome
unfolding quarantine_quietly
finish_probe n s =
    if not n.rolls_back
    then quarantine_quietly rollback_failed s
    else if not n.restores
    then quarantine_quietly restoration_failed s
    else if s.connection_poisoned
    then quarantine_quietly poisoned s
    else if s.connection
    then quarantine_quietly occupied s
    else let returned : Session = record s { connection = true } in
      left_probe returned (set_transaction_state idle returned) (probe_outcome n.executes)

abbrev pub run_probe : Native → Session → Option Session → Session × Outcome
run_probe n s none = (finished (put_back s), failed poisoned)
run_probe n s (some t) = finish_probe n t

-- `rollback_write_probe`
unfoldable pub rollback_write_probe : Native → Session → Session × Outcome
unfolding set_transaction_state finish_probe
rollback_write_probe n s =
    if not (is_in idle s)
    then (s, failed wrong_state)
    else if not n.starts
    then (s, failed draining)
    else if not (has_connection s)
    then (finished (started s), failed unavailable)
    else if not n.autocommit_off
    then (finished (put_back (taken (started s))), failed native)
    else run_probe n (taken (started s)) (set_transaction_state active (taken (started s)))
