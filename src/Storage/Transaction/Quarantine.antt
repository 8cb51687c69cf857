-- ===== src/Storage/Transaction/Quarantine.antt =====
-- How a commit ends
-- (crates/quackgis-server/src/duckdb_adbc_storage.rs).
use quackgis.Base.{ℕ, ◌≡◌, ◌⊎◌, inl, inr, Bool-cases, Bool, true, false, not, ◌&&◌, ◌||◌, arith}
use quackgis.Storage.Transaction.{
  idle, active, quarantined, done, Session, Native, is_in, has_connection, set_transaction_state,
  quarantine, give_back, finish_commit, commit_transaction,
}
use quackgis.Storage.Transaction.Sound.{IsSound}

-- what a commit needs to begin, and to be done
abbrev pub can_begin : Session → Bool
can_begin s = is_in active s && has_connection s

abbrev pub can_commit : Native → Session → Bool
can_commit n s =
    can_begin s
    && (n.guard && (n.commits && ((not n.identity_enabled || n.reconciles) && n.restores)))

-- how a commit ends: it does not begin, it is done, or it fails on its way
abbrev pub Settles : Native → Session → Type 0
Settles n s =
    (can_begin s ≡ false)
      × ((commit_transaction n s).0 ≡ s)
      × (¬ ((commit_transaction n s).1 ≡ done))
    ⊎ (can_commit n s ≡ true)
      × ((commit_transaction n s).1 ≡ done)
      × ((commit_transaction n s).0.state ≡ idle)
      × ((commit_transaction n s).0.connection ≡ true)
    ⊎ (can_begin s ≡ true)
      × (can_commit n s ≡ false)
      × (¬ ((commit_transaction n s).1 ≡ done))
      × ((commit_transaction n s).0.state ≡ quarantined)
      × ((commit_transaction n s).0.connection ≡ false)

-- A commit of a sound session that is not active, or whose connection is away, changes nothing; one
-- that begins is done exactly when nothing fails on its way, which leaves the session idle with its
-- connection, and otherwise it leaves the session quarantined without it.
pub commit_transaction-Settles :
    (others : ℕ) (n : Native) (s : Session) → IsSound others s → Settles n s
unfolding commit_transaction finish_commit quarantine give_back set_transaction_state
commit_transaction-Settles others n s v = elim (Bool-cases (can_begin s)) [
  | inr blocked ↦ inl (ground arith)
  | inl ready ↦ elim (Bool-cases (can_commit n s)) [
    | inl good ↦ inr (inl (ground (arith, v)))
    | inr bad ↦ inr (inr (ground (arith, v)))
  ]
]
