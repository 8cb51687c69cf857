-- ===== src/Tests/Storage.antt =====
-- Runs of storage sessions, and the theorems about them at concrete inputs.
use quackgis.Base.{◌≡◌, refl, true, false, List, [], ◌∷◌, none, arith}
use quackgis.Storage.Transaction.{
  idle, active, quarantined, Session, Native, done, returns, begin_transaction, finish_commit,
  commit_transaction, transaction, set_transaction_state, quarantine, give_back,
}
use quackgis.Storage.Transaction.Sound.{begins, commits, runs, IsSound}
use quackgis.Storage.Borrowing.{
  Storage, Reply, query_stream, start_operation, finish_borrower, drop_stream, execute_ingest,
  return_connection,
}
use quackgis.Storage.Borrowing.Shared.{
  Action, calls, queries, updates, ingests, finishes, run_all, IsShared, run_all-IsShared,
}
use quackgis.Storage.Transaction.Quarantine.{Settles, commit_transaction-Settles}

abbrev fresh : Session
fresh = record {
  state = idle;
  state_poisoned = false;
  connection = true;
  connection_poisoned = false;
  read_only = false;
  active_transactions = 2;
  quarantines = 0;
}

fresh-IsSound : IsSound 2 fresh
fresh-IsSound = record {
  counted = refl;
  bounded = omega arith;
  writes = λ h. absurd (cc h);
  held = λ h. absurd (cc h);
}

abbrev works : Native
works = record {
  starts = true;
  autocommit_off = true;
  callback = returns;
  guard = true;
  commits = true;
  identity_enabled = true;
  reconciles = true;
  rolls_back = true;
  restores = true;
  executes = true;
}

abbrev replies : Reply
replies = record {
  accepts = true;
  guard = true;
  epoch_current = true;
  sets_up = true;
  exhausted = true;
  cancelled = false;
  finds_schema = true;
  projects = true;
  publishes = true;
  cleans = true;
}

-- A stream holds the connection while a transaction asks for it; then a commit fails.
abbrev actions : List Action
actions =
    queries replies
    ∷ calls (runs works)
    ∷ finishes works replies
    ∷ calls (begins true works)
    ∷ calls (commits (record works { commits = false }))
    ∷ updates
    ∷ []

abbrev fresh_storage : Storage
fresh_storage = record { session = fresh; borrower = none }

fresh-IsShared : IsShared 2 fresh_storage
fresh-IsShared = record { sound = fresh-IsSound; away = λ b e. absurd (cc e) }

run_all-IsShared_example : IsShared 2 (run_all actions fresh_storage)
run_all-IsShared_example = run_all-IsShared 2 actions fresh_storage fresh-IsShared

abbrev broken : Storage
broken = record {
  session = record fresh { state = quarantined; connection = false; quarantines = 1 };
  borrower = none;
}

commit_breaks : run_all actions fresh_storage ≡ broken
unfolding begin_transaction commit_transaction transaction finish_commit quarantine give_back
    set_transaction_state query_stream start_operation finish_borrower drop_stream return_connection
commit_breaks = refl

-- An ingestion that finds no schema loses the connection of the transaction that it is in.
ingest_loses :
    run_all
      (calls (begins false works)
        ∷ ingests
        ∷ finishes works (record replies { finds_schema = false })
        ∷ [])
      fresh_storage
    ≡ record {
      session = record fresh { state = active; connection = false; active_transactions = 3 };
      borrower = none;
    }
unfolding begin_transaction set_transaction_state start_operation finish_borrower execute_ingest
ingest_loses = refl

abbrev begun : Session
begun = record fresh { state = active; active_transactions = 3 }

begun-IsSound : IsSound 2 begun
begun-IsSound = record {
  counted = refl;
  bounded = omega arith;
  writes = λ h. refl;
  held = λ h. absurd (cc h);
}

commit_transaction-Settles_example : Settles works begun
commit_transaction-Settles_example = commit_transaction-Settles 2 works begun begun-IsSound

commit_done : (commit_transaction works begun).1 ≡ done
unfolding commit_transaction finish_commit give_back set_transaction_state
commit_done = refl
