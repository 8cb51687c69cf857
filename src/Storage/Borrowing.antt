-- ===== src/Storage/Borrowing.antt =====
-- The operations that take the connection of a session away and end later: query streams, updates and
-- ingestion (crates/quackgis-server/src/duckdb_adbc_storage.rs).
pub mod Ends
pub mod Shared
use quackgis.Base.{Bool, true, false, not, ◌&&◌, ◌||◌, if◌then◌else◌, Option, none, some}
use quackgis.Storage.Transaction.{
  active, quarantined, Failure, refused, unavailable, poisoned, native, rollback_failed,
  commit_serialization, commit_failed, reconciliation_failed, restoration_failed, operation_failed,
  Outcome, done, failed, Session, Native, is_in, has_connection, taken, kept, is_writable,
  set_transaction_state, quarantine_quietly, probe_outcome,
}

-- DuckDbBatchStream, DuckDbUpdateOperation and DuckDbIngestOperation
pub data Borrower : Type 0 where
  stream update ingest : Borrower

-- The session, and what holds its connection while the slot is empty.
pub record Storage : Type 0 where
  pub session : Session
  pub borrower : Option Borrower

-- The answers that a query, an ingestion and the end of either meet: `accepts` is the check of the
-- query and its parameters, `epoch_current` the comparison of the epochs, and `sets_up` the statement
-- that is executed; `exhausted` and `cancelled` are the state of a stream or an operation.
pub record Reply : Type 0 where
  pub accepts : Bool
  pub guard : Bool
  pub epoch_current : Bool
  pub sets_up : Bool
  pub exhausted : Bool
  pub cancelled : Bool
  pub finds_schema : Bool
  pub projects : Bool
  pub publishes : Bool
  pub cleans : Bool

-- `return_connection`; `none` when the mutex is poisoned or the slot is occupied
unfoldable pub return_connection : Session → Option Session
return_connection s =
    if s.connection_poisoned || s.connection then none else some (record s { connection = true })

-- `self.return_connection(connection)?` before another answer
abbrev pub returned_or : Session → Option Session → Outcome → Session × Outcome
returned_or s none outcome = (s, failed poisoned)
returned_or s (some t) outcome = (t, outcome)

-- the same where a connection that cannot be returned quarantines
abbrev pub returned_or_quarantined : Session → Option Session → Outcome → Session × Outcome
unfolding quarantine_quietly
returned_or_quarantined s none outcome = quarantine_quietly poisoned s
returned_or_quarantined s (some t) outcome = (t, outcome)

abbrev pub unborrowed : Session × Outcome → Storage × Outcome
unborrowed (s, outcome) = (record { session = s; borrower = none }, outcome)

abbrev pub lent : Borrower → Session → Storage × Outcome
lent borrower s = (record { session = taken s; borrower = some borrower }, done)

-- `query_bound_stream_at_catalog_epoch`: without the commit guard the connection is lost.
unfoldable pub query_stream : Reply → Storage → Storage × Outcome
unfolding return_connection
query_stream r w =
    let s = w.session in
    if not r.accepts
    then (w, failed refused)
    else if not (has_connection s)
    then (w, failed unavailable)
    else if not r.guard
    then unborrowed (taken s, failed poisoned)
    else if not r.epoch_current
    then unborrowed (returned_or (taken s) (return_connection (taken s)) (failed native))
    else if not r.sets_up
    then unborrowed (kept (taken s) (return_connection (taken s)), failed native)
    else lent stream s

-- `start_update_operation` and `start_ingest_operation`
unfoldable pub start_operation : Borrower → Storage → Storage × Outcome
start_operation borrower w =
    if not (is_writable w.session)
    then (w, failed refused)
    else if not (has_connection w.session)
    then (w, failed unavailable)
    else lent borrower w.session

-- the drop of a DuckDbBatchStream
unfoldable pub drop_stream : Reply → Session → Session × Outcome
unfolding return_connection quarantine_quietly
drop_stream r s =
    if r.exhausted && not r.cancelled
    then returned_or_quarantined s (return_connection s) done
    else quarantine_quietly operation_failed s

-- the commit of an update outside a transaction
unfoldable pub commit_update : Native → Session → Session × Outcome
unfolding return_connection quarantine_quietly
commit_update n s =
    if not n.guard
    then quarantine_quietly commit_serialization s
    else if not n.commits
    then quarantine_quietly commit_failed s
    else if n.identity_enabled && not n.reconciles
    then quarantine_quietly reconciliation_failed s
    else if not n.restores
    then quarantine_quietly restoration_failed s
    else returned_or s (return_connection s) done

-- the rollback of an update outside a transaction
unfoldable pub roll_back_update : Native → Session → Session × Outcome
unfolding return_connection quarantine_quietly
roll_back_update n s =
    if n.rolls_back && n.restores
    then returned_or_quarantined s (return_connection s) (failed operation_failed)
    else quarantine_quietly rollback_failed s

-- `DuckDbUpdateOperation::execute`
unfoldable pub execute_update : Native → Reply → Session → Session × Outcome
unfolding return_connection quarantine_quietly commit_update roll_back_update
execute_update n r s =
    let explicit = is_in active s in
    if not explicit && not n.autocommit_off
    then (kept s (return_connection s), failed native)
    else if r.cancelled
    then if explicit then quarantine_quietly operation_failed s else roll_back_update n s
    else if explicit
    then returned_or s (return_connection s) (probe_outcome n.executes)
    else if n.executes
    then commit_update n s
    else roll_back_update n s

-- `DuckDbIngestOperation::execute`: without the schema of the target the connection is lost.
unfoldable pub execute_ingest : Reply → Session → Session × Outcome
unfolding return_connection quarantine_quietly set_transaction_state
execute_ingest r s =
    if not r.finds_schema
    then (s, failed native)
    else if not r.projects
    then returned_or_quarantined s (return_connection s) (failed native)
    else if r.cancelled || not r.cleans
    then (kept s (set_transaction_state quarantined s), probe_outcome r.publishes)
    else returned_or_quarantined s (return_connection s) (probe_outcome r.publishes)

-- The end of what holds the connection, if something does.
unfoldable pub finish_borrower : Native → Reply → Storage → Option Borrower → Storage × Outcome
unfolding drop_stream execute_update execute_ingest
finish_borrower n r w none = (w, done)
finish_borrower n r w (some stream) = unborrowed (drop_stream r w.session)
finish_borrower n r w (some update) = unborrowed (execute_update n r w.session)
finish_borrower n r w (some ingest) = unborrowed (execute_ingest r w.session)

-- the drop of an operation that is not executed, with the connection that it holds
abbrev pub abandoned : Storage → Option Borrower → Storage
abandoned w none = w
abandoned w (some stream) = w
abandoned w (some update) = record w { borrower = none }
abandoned w (some ingest) = record w { borrower = none }
