-- ===== src/Storage/Borrowing/Ends.antt =====
-- What the end of a stream, an update or an ingestion leaves of its session
-- (crates/quackgis-server/src/duckdb_adbc_storage.rs).
use quackgis.Base.{ℕ, ◌≡◌, false, not, ◌&&◌, ◌||◌, arith, if-cases}
use quackgis.Storage.Transaction.{
  active, quarantined, state_beq, Failure, operation_failed, rollback_failed, commit_serialization,
  commit_failed, reconciliation_failed, restoration_failed, Outcome, Session, Native,
  set_transaction_state, quarantine_quietly, is_in, kept,
}
use quackgis.Storage.Transaction.Sound.{IsSound}
use quackgis.Storage.Borrowing.{
  Reply, return_connection, drop_stream, commit_update, roll_back_update, execute_update,
  execute_ingest, returned_or, returned_or_quarantined,
}

-- The end of what holds the connection, and the session that it leaves.
abbrev Ends : ℕ → Session × Outcome → Type 0
Ends others r = IsSound others r.0

-- a session whose connection is away
pub record IsAway (others : ℕ) (s : Session) : Type 0 where
  pub sound : IsSound others s
  pub empty : s.connection ≡ false
  pub lives : state_beq s.state quarantined ≡ false

pub quarantine_quietly-IsSound :
    (others : ℕ) (f : Failure) (s : Session)
    → IsAway others s
    → IsSound others (quarantine_quietly f s).0
unfolding quarantine_quietly set_transaction_state
quarantine_quietly-IsSound others f s a = record {
  counted = ground (arith, a);
  bounded = a.sound.bounded;
  writes = ground (arith, a);
  held = ground (arith, a);
}

pub returned_or-IsSound :
    (others : ℕ) (s : Session) (o : Outcome)
    → IsAway others s
    → IsSound others (returned_or s (return_connection s) o).0
unfolding return_connection
returned_or-IsSound others s o a = record {
  counted = ground (arith, a);
  bounded = ground (arith, a);
  writes = ground (arith, a);
  held = ground (arith, a);
}

returned_or_quarantined-IsSound :
    (others : ℕ) (s : Session) (o : Outcome)
    → IsAway others s
    → IsSound others (returned_or_quarantined s (return_connection s) o).0
unfolding return_connection quarantine_quietly set_transaction_state
returned_or_quarantined-IsSound others s o a = record {
  counted = ground (arith, a);
  bounded = ground (arith, a);
  writes = ground (arith, a);
  held = ground (arith, a);
}

pub kept_returned-IsSound :
    (others : ℕ) (s : Session) → IsAway others s → IsSound others (kept s (return_connection s))
unfolding return_connection
kept_returned-IsSound others s a = record {
  counted = ground (arith, a);
  bounded = ground (arith, a);
  writes = ground (arith, a);
  held = ground (arith, a);
}

pub drop_stream-IsSound :
    (others : ℕ) (r : Reply) (s : Session) → IsAway others s → IsSound others (drop_stream r s).0
unfolding drop_stream
drop_stream-IsSound others r s a =
    if-cases (Ends others) (r.exhausted && not r.cancelled)
      (λ _. returned_or_quarantined-IsSound others s _ a)
      (λ _. quarantine_quietly-IsSound others operation_failed s a)

commit_update-IsSound :
    (others : ℕ) (n : Native) (s : Session) → IsAway others s → IsSound others (commit_update n s).0
unfolding commit_update
commit_update-IsSound others n s a =
    if-cases (Ends others) (not n.guard)
      (λ _. quarantine_quietly-IsSound others commit_serialization s a)
      λ _.
        if-cases (Ends others) (not n.commits)
          (λ _. quarantine_quietly-IsSound others commit_failed s a)
          λ _.
            if-cases (Ends others) (n.identity_enabled && not n.reconciles)
              (λ _. quarantine_quietly-IsSound others reconciliation_failed s a)
              λ _.
                if-cases (Ends others) (not n.restores)
                  (λ _. quarantine_quietly-IsSound others restoration_failed s a)
                  λ _. returned_or-IsSound others s _ a

roll_back_update-IsSound :
    (others : ℕ) (n : Native) (s : Session)
    → IsAway others s
    → IsSound others (roll_back_update n s).0
unfolding roll_back_update
roll_back_update-IsSound others n s a =
    if-cases (Ends others) (n.rolls_back && n.restores)
      (λ _. returned_or_quarantined-IsSound others s _ a)
      (λ _. quarantine_quietly-IsSound others rollback_failed s a)

pub execute_update-IsSound :
    (others : ℕ) (n : Native) (r : Reply) (s : Session)
    → IsAway others s
    → IsSound others (execute_update n r s).0
unfolding execute_update
execute_update-IsSound others n r s a =
    let explicit = is_in active s in
    if-cases (Ends others) (not explicit && not n.autocommit_off)
      (λ _. kept_returned-IsSound others s a)
      λ _.
        if-cases (Ends others) r.cancelled
          (λ _.
            if-cases (Ends others) explicit
              (λ _. quarantine_quietly-IsSound others operation_failed s a)
              (λ _. roll_back_update-IsSound others n s a))
          λ _.
            if-cases (Ends others) explicit (λ _. returned_or-IsSound others s _ a)
              λ _.
                if-cases (Ends others) n.executes (λ _. commit_update-IsSound others n s a)
                  (λ _. roll_back_update-IsSound others n s a)

pub execute_ingest-IsSound :
    (others : ℕ) (r : Reply) (s : Session) → IsAway others s → IsSound others (execute_ingest r s).0
unfolding execute_ingest
execute_ingest-IsSound others r s a =
    if-cases (Ends others) (not r.finds_schema) (λ _. a.sound)
      λ _.
        if-cases (Ends others) (not r.projects) (λ _. returned_or_quarantined-IsSound others s _ a)
          λ _.
            if-cases (Ends others) (r.cancelled || not r.cleans)
              (λ _. quarantine_quietly-IsSound others operation_failed s a)
              (λ _. returned_or_quarantined-IsSound others s _ a)
