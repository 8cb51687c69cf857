-- ===== src/Role/Worklist/Closure.antt =====
-- The search visits exactly the roles that can be reached (`inherited_roles` of
-- crates/quackgis-server/src/role.rs).
use quackgis.Base.{
  ℕ, zero, suc, ◌<◌, ◌≡◌, ◌↔◌, ◌⊎◌, inl, inr, refl, Bool, true, List, [], ◌∷◌, Option, some, arith,
  ap, List-cases, nat_Eq, list_Eq, length, contains, ||-true, beq_self, subst,
}
use quackgis.Role.Model.{Name, name_eq, RoleMembership}
use quackgis.Role.Worklist.{Worklist, started, has_edge, expand, closure_loop, search_fuel}
use quackgis.Role.Worklist.Expand.{
  name_eq→≡, expand_keeps, expand_keeps_pending, expand_covers, expand_sound, expand_queues,
  expand_within, work-expand, work, Within-self, unvisited-le,
}

module _ (follows : RoleMembership → Bool) (edges : List RoleMembership) where
  -- The chains of memberships that are followed, from a role to one that it is a member of.
  pub data Reaches (start : Name) : Name → Type 0 where
    here : Reaches start start
    next : {a b : Name} → Reaches start a → has_edge follows edges a b ≡ true → Reaches start b

  pub record Inv (start : Name) (w : Worklist) : Type 0 where
    pub sound : (n : Name) → contains w.visited n ≡ true → Reaches start n
    pub begun : contains w.visited start ≡ true
    pub within : (n : Name) → contains w.pending n ≡ true → contains w.visited n ≡ true
    pub closed :
        (a b : Name)
        → contains w.visited a ≡ true
        → has_edge follows edges a b ≡ true
        → (contains w.pending a ≡ true) ⊎ (contains w.visited b ≡ true)

  pub started-Inv : (start : Name) → Inv start (started start)
  started-Inv start = record {
    sound = λ n h. subst (Reaches start) (name_eq→≡ start n (ground arith)) here;
    begun = ground (arith, beq_self start);
    within = λ n h. h;
    closed = λ a b h e. inl h;
  }

  module _ (start : Name) (w : Worklist) (current : Name) (rest : List Name) where
    abbrev pub round : Worklist
    round = expand follows current edges (record w { pending = rest })

    round_sound :
        w.pending ≡ current ∷ rest
        → Inv start w
        → (n : Name) → contains round.visited n ≡ true
        → Reaches start n
    round_sound p v n h =
        elim (expand_sound follows current edges (record w { pending = rest }) n h) [
          | inl before ↦ v.sound n before
          | inr e ↦
              next (v.sound current (v.within current (rw p (ground (arith, beq_self current))))) e
        ]

    round_closed :
        w.pending ≡ current ∷ rest
        → Inv start w
        → (a b : Name) → contains round.visited a ≡ true
        → has_edge follows edges a b ≡ true
        → (contains round.pending a ≡ true) ⊎ (contains round.visited b ≡ true)
    round_closed p v a b h e =
        elim (expand_queues follows current edges (record w { pending = rest }) a h) [
          | inr queued ↦ inl queued
          | inl before ↦ elim (v.closed a b before e) [
            | inr reached ↦ inr (expand_keeps follows current edges _ b reached)
            | inl waits ↦ elim (||-true (name_eq current a) (contains rest a) (rw p at waits)) [
              | inl same ↦
                  inr (expand_covers follows current edges _ b (rw (name_eq→≡ current a same) e))
              | inr behind ↦ inl (expand_keeps_pending follows current edges _ a behind)
            ]
          ]
        ]

    pub round-Inv : w.pending ≡ current ∷ rest → Inv start w → Inv start round
    round-Inv p v = record {
      sound = round_sound p v;
      begun = expand_keeps follows current edges _ start v.begun;
      within = λ n h.
          expand_within follows current edges _ n
            (λ k waits. v.within k (rw p (ground (arith, waits)))) h;
      closed = round_closed p v;
    }

    pub work-round : w.pending ≡ current ∷ rest → work edges round < work edges w
    work-round p = omega (
      arith,
      work-expand follows current edges edges (record w { pending = rest }) (Within-self edges),
      ap (length {A = Name}) p,
    )

  -- With nothing pending, what is reached is visited.
  pub reached_visited :
      {start n : Name} (w : Worklist)
      → w.pending ≡ []
      → Inv start w
      → Reaches start n
      → contains w.visited n ≡ true
  reached_visited w p v here = v.begun
  reached_visited w p v (next {a} {b} r e) = elim (v.closed a b (reached_visited w p v r) e) [
    | inl waits ↦ absurd (cc (rw p at waits))
    | inr visited ↦ visited
  ]

  -- The result of the search and its contents.
  pub record IsClosure (start : Name) (r : Option (List Name)) : Type 0 where
    pub names : List Name
    pub result : r ≡ some names
    pub reaches : (n : Name) → (contains names n ≡ true) ↔ Reaches start n

  pub closure_loop-IsClosure :
      (start : Name) (fuel : ℕ) (w : Worklist)
      → work edges w < fuel
      → Inv start w
      → IsClosure start (closure_loop follows edges fuel w)
  unfolding closure_loop
  closure_loop-IsClosure start zero w enough v = absurd (omega arith)
  closure_loop-IsClosure start (suc fuel) w enough v = elim (List-cases w.pending) [
    | inl p ↦ record {
      names = w.visited;
      result = rw (p, closure_loop) refl;
      reaches = λ n. (v.sound n, reached_visited w p v);
    }
    | inr (current, rest, p) ↦
        let c =
          closure_loop-IsClosure start fuel (round start w current rest)
            (omega (arith, work-round start w current rest p))
            (round-Inv start w current rest p v) in
        record { names = c.names; result = rw (p, closure_loop) c.result; reaches = c.reaches }
  ]

  pub started_work : (start : Name) → work edges (started start) < search_fuel edges
  started_work start = omega (arith, unvisited-le edges (start ∷ []))
