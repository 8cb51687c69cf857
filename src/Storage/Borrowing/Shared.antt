-- ===== src/Storage/Borrowing/Shared.antt =====
-- What all the operations of a storage session keep together
-- (crates/quackgis-server/src/duckdb_adbc_storage.rs).
use quackgis.Base.{
  ℕ, ◌≡◌, refl, Bool, true, false, not, List, [], ◌∷◌, Option, none, some, arith, if-cases,
}
use quackgis.Storage.Transaction.{
  quarantined, state_beq, Outcome, Session, Native, begin_transaction, commit_transaction,
  rollback_transaction, transaction, rollback_write_probe, is_writable, failed, native,
  has_connection, taken,
}
use quackgis.Storage.Transaction.Sound.{
  Call, begins, commits, rolls_back, runs, probes, perform, IsSound, perform-IsSound,
}
use quackgis.Storage.Borrowing.{
  Borrower, stream, update, ingest, Storage, Reply, query_stream, start_operation, finish_borrower,
  abandoned, lent,
}
use quackgis.Storage.Borrowing.Ends.{
  IsAway, returned_or-IsSound, kept_returned-IsSound, drop_stream-IsSound, execute_update-IsSound,
  execute_ingest-IsSound,
}

-- A sound session, whose connection something holds only while the slot is empty.
pub record IsShared (others : ℕ) (w : Storage) : Type 0 where
  pub sound : IsSound others w.session
  pub away :
      (b : Borrower)
      → w.borrower ≡ some b
      → (w.session.connection ≡ false) × (state_beq w.session.state quarantined ≡ false)

-- Where the slot is empty, it stays so, and the session is neither quarantined nor set free.
perform-away :
    (call : Call) (s : Session)
    → s.connection ≡ false
    → state_beq s.state quarantined ≡ false
    → ((perform call s).0.connection ≡ false)
      × (state_beq (perform call s).0.state quarantined ≡ false)
unfolding begin_transaction commit_transaction rollback_transaction transaction rollback_write_probe
perform-away (begins read_only n) s h q = ground (arith, h, q)
perform-away (commits n) s h q = ground (arith, h, q)
perform-away (rolls_back n) s h q = ground (arith, h, q)
perform-away (runs n) s h q = ground (arith, h, q)
perform-away (probes n) s h q = ground (arith, h, q)

lender_lem :
    {others : ℕ} {w : Storage} (b : Borrower)
    → IsShared others w
    → w.borrower ≡ some b
    → IsAway others w.session
lender_lem b v e = record { sound = v.sound; empty = (v.away b e).0; lives = (v.away b e).1 }

unheld-IsShared :
    (others : ℕ) (s : Session)
    → IsSound others s
    → IsShared others (record { session = s; borrower = none })
unheld-IsShared others s v = record { sound = v; away = λ b e. absurd (cc e) }

finish_borrower-IsShared :
    (others : ℕ) (n : Native) (r : Reply) (w : Storage) (b : Option Borrower)
    → w.borrower ≡ b
    → IsShared others w
    → IsShared others (finish_borrower n r w b).0
unfolding finish_borrower
finish_borrower-IsShared others n r w none e v = v
finish_borrower-IsShared others n r w (some stream) e v =
    unheld-IsShared others _ (drop_stream-IsSound others r w.session (lender_lem stream v e))
finish_borrower-IsShared others n r w (some update) e v =
    unheld-IsShared others _ (execute_update-IsSound others n r w.session (lender_lem update v e))
finish_borrower-IsShared others n r w (some ingest) e v =
    unheld-IsShared others _ (execute_ingest-IsSound others r w.session (lender_lem ingest v e))

abandoned-IsShared :
    (others : ℕ) (w : Storage) (b : Option Borrower)
    → IsShared others w
    → IsShared others (abandoned w b)
abandoned-IsShared others w none v = v
abandoned-IsShared others w (some stream) v = v
abandoned-IsShared others w (some update) v = unheld-IsShared others w.session v.sound
abandoned-IsShared others w (some ingest) v = unheld-IsShared others w.session v.sound

not-false : (b : Bool) → not b ≡ false → b ≡ true
not-false b h = ground (arith, h)

held_lem :
    (s : Session)
    → has_connection s ≡ true
    → (s.state ≡ quarantined → s.connection ≡ false)
    → state_beq s.state quarantined ≡ false
held_lem s there held = ground (arith, there, held)

-- A connection that is taken from its slot shows that the session is not quarantined.
taken-IsAway :
    (others : ℕ) (s : Session)
    → has_connection s ≡ true
    → IsSound others s
    → IsAway others (taken s)
taken-IsAway others s there v = record {
  sound = record { counted = v.counted; bounded = v.bounded; writes = v.writes; held = λ q. refl };
  empty = refl;
  lives = held_lem s there v.held;
}

lent-IsShared :
    (others : ℕ) (b : Borrower) (s : Session)
    → has_connection s ≡ true
    → IsSound others s
    → IsShared others (lent b s).0
lent-IsShared others b s there v =
    let a = taken-IsAway others s there v in
    record { sound = a.sound; away = λ c e. (a.empty, a.lives) }

abbrev Shares : ℕ → Storage × Outcome → Type 0
Shares others r = IsShared others r.0

start_operation-IsShared :
    (others : ℕ) (b : Borrower) (w : Storage)
    → IsShared others w
    → IsShared others (start_operation b w).0
unfolding start_operation
start_operation-IsShared others b w v =
    if-cases (Shares others) (not (is_writable w.session)) (λ _. v)
      λ _.
        if-cases (Shares others) (not (has_connection w.session)) (λ _. v)
          λ there. lent-IsShared others b w.session (not-false _ there) v.sound

query_stream-IsShared :
    (others : ℕ) (r : Reply) (w : Storage)
    → IsShared others w
    → IsShared others (query_stream r w).0
unfolding query_stream
query_stream-IsShared others r w v =
    let s = w.session in
    if-cases (Shares others) (not r.accepts) (λ _. v)
      λ _.
        if-cases (Shares others) (not (has_connection s)) (λ _. v)
          λ there.
            let a = taken-IsAway others s (not-false _ there) v.sound in
            if-cases (Shares others) (not r.guard) (λ _. unheld-IsShared others (taken s) a.sound)
              λ _.
                if-cases (Shares others) (not r.epoch_current)
                  (λ _.
                    unheld-IsShared others _
                      (returned_or-IsSound others (taken s) (failed native) a))
                  λ _.
                    if-cases (Shares others) (not r.sets_up)
                      (λ _. unheld-IsShared others _ (kept_returned-IsSound others (taken s) a))
                      (λ _. lent-IsShared others stream s (not-false _ there) v.sound)

-- An operation on the storage, or the end of one that holds the connection.
pub data Action : Type 0 where
  calls : Call → Action
  queries : Reply → Action
  updates ingests abandons : Action
  finishes : Native → Reply → Action

abbrev pub act : Action → Storage → Storage
act (calls call) w = record w { session = (perform call w.session).0 }
act (queries r) w = (query_stream r w).0
act updates w = (start_operation update w).0
act ingests w = (start_operation ingest w).0
act abandons w = abandoned w w.borrower
act (finishes n r) w = (finish_borrower n r w w.borrower).0

abbrev pub run_all : List Action → Storage → Storage
run_all [] w = w
run_all (a ∷ actions) w = run_all actions (act a w)

act-IsShared :
    (others : ℕ) (a : Action) (w : Storage) → IsShared others w → IsShared others (act a w)
act-IsShared others (calls call) w v = record {
  sound = perform-IsSound others call w.session v.sound;
  away = λ b e. perform-away call w.session (v.away b e).0 (v.away b e).1;
}
act-IsShared others (queries r) w v = query_stream-IsShared others r w v
act-IsShared others updates w v = start_operation-IsShared others update w v
act-IsShared others ingests w v = start_operation-IsShared others ingest w v
act-IsShared others abandons w v = abandoned-IsShared others w w.borrower v
act-IsShared others (finishes n r) w v = finish_borrower-IsShared others n r w w.borrower refl v

-- After any transactions, write probes, query streams, updates and ingestions, begun, ended and dropped
-- in any order with any answers of the native connection, the lifecycle counts the session exactly
-- while it is active, only an active session is read-only, a quarantined session has no connection in
-- its slot, and while a stream or an operation holds the connection the slot is empty and the session
-- is not quarantined.
pub run_all-IsShared :
    (others : ℕ) (actions : List Action) (w : Storage)
    → IsShared others w
    → IsShared others (run_all actions w)
run_all-IsShared others [] w v = v
run_all-IsShared others (a ∷ actions) w v =
    run_all-IsShared others actions (act a w) (act-IsShared others a w v)
