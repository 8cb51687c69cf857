-- ===== src/Admission/Registry/Cancelled.antt =====
-- Which cancellation a request for one reaches.
use quackgis.Base.{
  ℕ, ◌≡◌, refl, true, false, inl, inr, Option, none, List, [], ◌∷◌, ◌==◌, ==_iff, list_beq,
  list_beq_iff, nat_Eq, Bool-cases, &&-true, Bytes, Result, ok, wrapping_add,
}
use quackgis.Admission.Registry.{
  QueryKey, key_is, Registry, without, entry_of, register, drop_guard, answered, cancel,
}

key_is_self : (key : QueryKey) → key_is key key ≡ true
unfolding key_is
key_is_self (pid, secret) = rw ((==_iff pid pid).1 refl, (list_beq_iff secret secret).1 refl) refl

key_is-eq : (a b : QueryKey) → key_is a b ≡ true → a ≡ b
unfolding key_is
key_is-eq (pid, secret) (pid', secret') h =
    let (same_pid, same_secret) = &&-true (pid == pid') (list_beq secret secret') h in
    rw ((==_iff pid pid').0 same_pid, (list_beq_iff secret secret').0 same_secret) refl

module _ (C : Type 0) (EngineError : Type 0)
    (cancel_engine : C → Result EngineError (Unit {0})) where
  abbrev removed : List (QueryKey × C) → QueryKey → List (QueryKey × C)
  removed = without C EngineError cancel_engine

  abbrev found : List (QueryKey × C) → QueryKey → Option C
  found = entry_of C EngineError cancel_engine

  found-removed :
      (entries : List (QueryKey × C)) (key : QueryKey) → found (removed entries key) key ≡ none
  found-removed [] key = refl
  found-removed (entry ∷ entries) key = elim (Bool-cases (key_is entry.0 key)) [
    | inl same ↦ rw same (found-removed entries key)
    | inr differs ↦ rw (differs, differs) (found-removed entries key)
  ]

  found-removed_other :
      (entries : List (QueryKey × C)) (key other : QueryKey)
      → key_is key other ≡ false
      → found (removed entries key) other ≡ found entries other
  found-removed_other [] key other h = refl
  found-removed_other (entry ∷ entries) key other h =
      let rest = found-removed_other entries key other h in
      elim (Bool-cases (key_is entry.0 key)) [
        | inl same ↦
            let apart : key_is entry.0 other ≡ false = rw (key_is-eq entry.0 key same) h in
            rw (same, apart) rest
        | inr differs ↦ elim (Bool-cases (key_is entry.0 other)) [
          | inl here ↦ rw (differs, here) refl
          | inr apart ↦ rw (differs, apart) rest
        ]
      ]

  -- The registry after a request is counted.
  abbrev pub asked : Registry C EngineError cancel_engine → Registry C EngineError cancel_engine
  asked r = record r { cancel_requested = wrapping_add r.cancel_requested 1 }

  -- Right after the registration of a query, a cancellation with its process number and secret runs
  -- the query's own and counts its outcome, and every other key finds what it found before. Once the
  -- guard is dropped the same request finds nothing, answers so, and is only counted as asked.
  pub cancel-register :
      (r : Registry C EngineError cancel_engine) (pid : ℕ) (secret : Bytes) (c : C)
      (other : QueryKey)
      → key_is (pid, secret) other ≡ false
      → let (s, key) = register C EngineError cancel_engine r pid secret c in
        (cancel C EngineError cancel_engine s pid secret
          ≡ answered C EngineError cancel_engine (asked s) (cancel_engine c))
        × (found s.entries other ≡ found r.entries other)
        × (let dropped = drop_guard C EngineError cancel_engine s key in
            cancel C EngineError cancel_engine dropped pid secret ≡ (asked dropped, ok false))
  unfolding register cancel drop_guard
  cancel-register r pid secret c other apart =
      let key : QueryKey = (pid, secret) in
      (
        rw (key_is_self key) refl,
        rw apart (found-removed_other r.entries key other apart),
        rw (key_is_self key, found-removed (removed r.entries key) key) refl,
      )
