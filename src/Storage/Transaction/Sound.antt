-- ===== src/Storage/Transaction/Sound.antt =====
-- What every transaction of a storage session keeps, whatever the native connection answers
-- (crates/quackgis-server/src/duckdb_adbc_storage.rs).
use quackgis.Base.{
  ℕ, ◌+◌, ◌<◌, ◌≡◌, refl, Bool, true, false, not, ◌&&◌, some, u64_mod, arith, if-cases,
}
use quackgis.Storage.Transaction.{
  EngineTransactionState, idle, active, quarantined, Failure, Outcome, done, Session, Callback,
  returns, fails, panics, Native, is_in, has_connection, taken, started, finished,
  set_transaction_state, quarantine, give_back, begin_transaction, finish_commit,
  commit_transaction, finish_rollback, rollback_transaction, put_back, finish_panic, after_callback,
  transaction, quarantine_quietly, finish_probe, rollback_write_probe,
}

-- the transactions that the session itself counts
abbrev pub own : EngineTransactionState → ℕ
own active = 1
own _ = 0

-- `others` are the transactions of other sessions.
pub record IsSound (others : ℕ) (s : Session) : Type 0 where
  pub counted : s.active_transactions ≡ others + own s.state
  pub bounded : others + 1 < u64_mod
  pub writes : s.read_only ≡ true → s.state ≡ active
  pub held : s.state ≡ quarantined → s.connection ≡ false

abbrev Keeps : ℕ → Session × Outcome → Type 0
Keeps others r = IsSound others r.0

-- the same between the taking of the connection and its return
record IsOpen (others : ℕ) (s : Session) : Type 0 where
  counted : s.active_transactions ≡ others + own s.state
  bounded : others + 1 < u64_mod
  writes : s.read_only ≡ true → s.state ≡ active
  running : s.state ≡ active
  away : s.connection ≡ false
  lives : s.state_poisoned ≡ false
  reachable : s.connection_poisoned ≡ false

quarantine-IsSound :
    (others : ℕ) (f : Failure) (s : Session) → IsOpen others s → IsSound others (quarantine f s).0
unfolding quarantine set_transaction_state
quarantine-IsSound others f s v = record {
  counted = ground (arith, v);
  bounded = v.bounded;
  writes = ground (arith, v);
  held = ground (arith, v);
}

give_back-IsSound :
    (others : ℕ) (o : Outcome) (s : Session) → IsOpen others s → IsSound others (give_back o s).0
unfolding give_back set_transaction_state
give_back-IsSound others o s v = record {
  counted = ground (arith, v);
  bounded = v.bounded;
  writes = ground (arith, v);
  held = ground (arith, v);
}

finish_commit-IsSound :
    (others : ℕ) (n : Native) (s : Session) → IsOpen others s → IsSound others (finish_commit n s).0
unfolding finish_commit
finish_commit-IsSound others n s v =
    if-cases (Keeps others) (not n.guard) (λ _. quarantine-IsSound others _ s v)
      λ _.
        if-cases (Keeps others) (not n.commits) (λ _. quarantine-IsSound others _ s v)
          λ _.
            if-cases (Keeps others) (n.identity_enabled && not n.reconciles)
              (λ _. quarantine-IsSound others _ s v)
              λ _.
                if-cases (Keeps others) (not n.restores) (λ _. quarantine-IsSound others _ s v)
                  λ _. give_back-IsSound others done s v

finish_rollback-IsSound :
    (others : ℕ) (n : Native) (o : Outcome) (s : Session)
    → IsOpen others s
    → IsSound others (finish_rollback n o s).0
unfolding finish_rollback
finish_rollback-IsSound others n o s v =
    if-cases (Keeps others) (not n.rolls_back) (λ _. quarantine-IsSound others _ s v)
      λ _.
        if-cases (Keeps others) (not n.restores) (λ _. quarantine-IsSound others _ s v)
          λ _. give_back-IsSound others o s v

finish_panic-IsSound :
    (others : ℕ) (n : Native) (s : Session) → IsOpen others s → IsSound others (finish_panic n s).0
unfolding finish_panic set_transaction_state
finish_panic-IsSound others n s v = record {
  counted = ground (arith, v);
  bounded = v.bounded;
  writes = ground (arith, v);
  held = ground (arith, v);
}

after_callback-IsSound :
    (others : ℕ) (n : Native) (c : Callback) (s : Session)
    → IsOpen others s
    → IsSound others (after_callback n c s).0
after_callback-IsSound others n returns s v = finish_commit-IsSound others n s v
after_callback-IsSound others n fails s v = finish_rollback-IsSound others n _ s v
after_callback-IsSound others n panics s v = finish_panic-IsSound others n s v

finish_probe-IsSound :
    (others : ℕ) (n : Native) (s : Session) → IsOpen others s → IsSound others (finish_probe n s).0
unfolding finish_probe quarantine_quietly set_transaction_state
finish_probe-IsSound others n s v = record {
  counted = ground (arith, v);
  bounded = v.bounded;
  writes = ground (arith, v);
  held = ground (arith, v);
}

begin_transaction-IsSound :
    (others : ℕ) (n : Native) (read_only : Bool) (s : Session)
    → IsSound others s
    → IsSound others (begin_transaction n read_only s).0
unfolding begin_transaction set_transaction_state
begin_transaction-IsSound others n read_only s v = record {
  counted = ground (arith, v);
  bounded = v.bounded;
  writes = ground (arith, v);
  held = ground (arith, v);
}

-- Taking the connection of an active session opens it.
taken-IsOpen :
    (others : ℕ) (s : Session)
    → is_in active s ≡ true
    → has_connection s ≡ true
    → IsSound others s
    → IsOpen others (taken s)
taken-IsOpen others s in_state there v = record {
  counted = v.counted;
  bounded = v.bounded;
  writes = v.writes;
  running = ground (arith, in_state);
  away = refl;
  lives = ground (arith, in_state);
  reachable = ground (arith, there);
}

-- A session in which a transaction may start, once it is active and its connection is taken.
abbrev activated : Session → Session
activated s = record (taken (started s)) { state = active }

activated_lem :
    (s : Session)
    → is_in idle s ≡ true
    → set_transaction_state active (taken (started s)) ≡ some (activated s)
unfolding set_transaction_state
activated_lem s in_state = ground (arith, in_state)

activated-IsOpen :
    (others : ℕ) (s : Session)
    → is_in idle s ≡ true
    → has_connection s ≡ true
    → IsSound others s
    → IsOpen others (activated s)
activated-IsOpen others s in_state there v = record {
  counted = ground (arith, in_state, v);
  bounded = v.bounded;
  writes = λ h. refl;
  running = refl;
  away = refl;
  lives = ground (arith, in_state);
  reachable = ground (arith, there);
}

-- A transaction that is counted and at once finished leaves the session as it was.
finished-IsSound :
    (others : ℕ) (s : Session)
    → is_in idle s ≡ true
    → IsSound others s
    → IsSound others (finished (started s))
finished-IsSound others s in_state v = record {
  counted = ground (arith, in_state, v);
  bounded = v.bounded;
  writes = v.writes;
  held = v.held;
}

put_back-IsSound :
    (others : ℕ) (s : Session)
    → is_in idle s ≡ true
    → has_connection s ≡ true
    → IsSound others s
    → IsSound others (finished (put_back (taken (started s))))
put_back-IsSound others s in_state there v = record {
  counted = ground (arith, in_state, there, v);
  bounded = v.bounded;
  writes = ground (arith, v);
  held = ground (arith, in_state, there, v);
}

not-false : (b : Bool) → not b ≡ false → b ≡ true
not-false b h = ground (arith, h)

commit_transaction-IsSound :
    (others : ℕ) (n : Native) (s : Session)
    → IsSound others s
    → IsSound others (commit_transaction n s).0
unfolding commit_transaction
commit_transaction-IsSound others n s v =
    if-cases (Keeps others) (not (is_in active s)) (λ _. v)
      λ in_state.
        if-cases (Keeps others) (not (has_connection s)) (λ _. v)
          λ there.
            finish_commit-IsSound others n (taken s)
              (taken-IsOpen others s (not-false _ in_state) (not-false _ there) v)

rollback_transaction-IsSound :
    (others : ℕ) (n : Native) (s : Session)
    → IsSound others s
    → IsSound others (rollback_transaction n s).0
unfolding rollback_transaction
rollback_transaction-IsSound others n s v =
    if-cases (Keeps others) (not (is_in active s)) (λ _. v)
      λ in_state.
        if-cases (Keeps others) (not (has_connection s)) (λ _. v)
          λ there.
            finish_rollback-IsSound others n done (taken s)
              (taken-IsOpen others s (not-false _ in_state) (not-false _ there) v)

transaction-IsSound :
    (others : ℕ) (n : Native) (s : Session) → IsSound others s → IsSound others (transaction n s).0
unfolding transaction
transaction-IsSound others n s v =
    if-cases (Keeps others) (not (is_in idle s)) (λ _. v)
      λ in_state.
        if-cases (Keeps others) (not n.starts) (λ _. v)
          λ _.
            if-cases (Keeps others) (not (has_connection s))
              (λ _. finished-IsSound others s (not-false _ in_state) v)
              λ there.
                if-cases (Keeps others) (not n.autocommit_off)
                  (λ _. put_back-IsSound others s (not-false _ in_state) (not-false _ there) v)
                  λ _. rw (activated_lem s (not-false _ in_state)) (
                    after_callback-IsSound others n n.callback (activated s)
                      (activated-IsOpen others s (not-false _ in_state) (not-false _ there) v))

rollback_write_probe-IsSound :
    (others : ℕ) (n : Native) (s : Session)
    → IsSound others s
    → IsSound others (rollback_write_probe n s).0
unfolding rollback_write_probe
rollback_write_probe-IsSound others n s v =
    if-cases (Keeps others) (not (is_in idle s)) (λ _. v)
      λ in_state.
        if-cases (Keeps others) (not n.starts) (λ _. v)
          λ _.
            if-cases (Keeps others) (not (has_connection s))
              (λ _. finished-IsSound others s (not-false _ in_state) v)
              λ there.
                if-cases (Keeps others) (not n.autocommit_off)
                  (λ _. put_back-IsSound others s (not-false _ in_state) (not-false _ there) v)
                  λ _. rw (activated_lem s (not-false _ in_state)) (
                    finish_probe-IsSound others n (activated s)
                      (activated-IsOpen others s (not-false _ in_state) (not-false _ there) v))

-- A call that begins or ends a transaction, or has one of its own, with the answers that it meets.
pub data Call : Type 0 where
  begins : Bool → Native → Call
  commits rolls_back runs probes : Native → Call

abbrev pub perform : Call → Session → Session × Outcome
perform (begins read_only n) s = begin_transaction n read_only s
perform (commits n) s = commit_transaction n s
perform (rolls_back n) s = rollback_transaction n s
perform (runs n) s = transaction n s
perform (probes n) s = rollback_write_probe n s

pub perform-IsSound :
    (others : ℕ) (call : Call) (s : Session) → IsSound others s → IsSound others (perform call s).0
perform-IsSound others (begins read_only n) s v = begin_transaction-IsSound others n read_only s v
perform-IsSound others (commits n) s v = commit_transaction-IsSound others n s v
perform-IsSound others (rolls_back n) s v = rollback_transaction-IsSound others n s v
perform-IsSound others (runs n) s v = transaction-IsSound others n s v
perform-IsSound others (probes n) s v = rollback_write_probe-IsSound others n s v
