-- ===== src/Role/Config/Cycles/Acyclic.antt =====
-- The search for cycles ends, and finds one exactly when the memberships have one
-- (`reject_membership_cycles` of crates/quackgis-server/src/role.rs).
use quackgis.Base.{
  ℕ, zero, suc, ◌<◌, ◌≡◌, ◌↔◌, ◌⊎◌, inl, inr, refl, Bool, true, false, List, [], ◌∷◌, Option, some,
  ok, arith, ap, List-cases, Bool-cases, nat_Eq, list_Eq, length, contains, ||-true, beq_self,
}
use quackgis.Role.Model.{Name, name_eq, Role, RoleMembership}
use quackgis.Role.Worklist.{Worklist, search_fuel}
use quackgis.Role.Worklist.Expand.{name_eq→≡, work, Within-self, unvisited-le}
use quackgis.Role.Config.Cycles.{
  outgoing, cycle_loop, from_role, has_cycle, reject_membership_cycles,
}
use quackgis.Role.Config.Cycles.Stack.{
  stack_all, visit_granted_lem, stack_all_visited, stack_all_keeps, stack_all_queues,
  stack_all_within, work-stack_all, outgoing_targets,
}

module _ (edges : List RoleMembership) where
  -- The chains of at least one membership, from a role to one that it is a member of.
  pub data Chain (start : Name) : Name → Type 0 where
    one : {b : Name} → contains (outgoing edges start) b ≡ true → Chain start b
    further : {a b : Name} → Chain start a → contains (outgoing edges a) b ≡ true → Chain start b

  record Inv (start : Name) (w : Worklist) : Type 0 where
    sound : (n : Name) → contains w.visited n ≡ true → Chain start n
    within : (n : Name) → contains w.pending n ≡ true → (start ≡ n) ⊎ (contains w.visited n ≡ true)
    closed :
        (a b : Name)
        → (start ≡ a) ⊎ (contains w.visited a ≡ true)
        → contains (outgoing edges a) b ≡ true
        → (contains w.pending a ≡ true) ⊎ (contains w.visited b ≡ true)
    unseen : contains w.visited start ≡ false

  from_role-Inv : (start : Name) → Inv start (from_role start)
  from_role-Inv start = record {
    sound = λ n h. absurd (cc h);
    within = λ n h. inl (name_eq→≡ start n (ground arith));
    closed = λ a b h e. elim h [
      | inl same ↦ inl (rw same (ground (arith, beq_self a)))
      | inr seen ↦ absurd (cc seen)
    ];
    unseen = refl;
  }

  extended :
      (start current n : Name)
      → (start ≡ current) ⊎ Chain start current
      → contains (outgoing edges current) n ≡ true
      → Chain start n
  extended start current n (inl same) h = one (rw same h)
  extended start current n (inr chain) h = further chain h

  module _ (start : Name) (w : Worklist) (current : Name) (rest : List Name) where
    abbrev round : Worklist
    round = stack_all (outgoing edges current) (record w { pending = rest })

    reached : w.pending ≡ current ∷ rest → Inv start w → (start ≡ current) ⊎ Chain start current
    reached p v = elim (v.within current (rw p (ground (arith, beq_self current)))) [
      | inl same ↦ inl same
      | inr seen ↦ inr (v.sound current seen)
    ]

    round_sound :
        w.pending ≡ current ∷ rest
        → Inv start w
        → (n : Name) → contains round.visited n ≡ true
        → Chain start n
    round_sound p v n h =
        elim (||-true (contains (outgoing edges current) n) (contains w.visited n)
          (rw (stack_all_visited (outgoing edges current) (record w { pending = rest }) n) at h)) [
            | inl granted ↦ extended start current n (reached p v) granted
            | inr before ↦ v.sound n before
          ]

    round_within :
        w.pending ≡ current ∷ rest
        → Inv start w
        → (n : Name) → contains round.pending n ≡ true
        → (start ≡ n) ⊎ (contains round.visited n ≡ true)
    round_within p v n h =
        elim (stack_all_within (outgoing edges current) (record w { pending = rest }) n h) [
          | inr seen ↦ inr seen
          | inl waits ↦ elim (v.within n (rw p (ground (arith, waits)))) [
            | inl same ↦ inl same
            | inr before ↦ inr (
                rw (stack_all_visited (outgoing edges current) (record w { pending = rest }) n)
                  (ground (arith, before)))
          ]
        ]

    -- What was taken from the stack has its granted roles visited.
    round_taken :
        w.pending ≡ current ∷ rest
        → Inv start w
        → (a b : Name) → (start ≡ a) ⊎ (contains w.visited a ≡ true)
        → contains (outgoing edges a) b ≡ true
        → (contains round.pending a ≡ true) ⊎ (contains round.visited b ≡ true)
    round_taken p v a b h e = elim (v.closed a b h e) [
      | inr seen ↦ inr (
          rw (stack_all_visited (outgoing edges current) (record w { pending = rest }) b)
            (ground (arith, seen)))
      | inl waits ↦ elim (||-true (name_eq current a) (contains rest a) (rw p at waits)) [
        | inr behind ↦
            inl (stack_all_keeps (outgoing edges current) (record w { pending = rest }) a behind)
        | inl same ↦ inr (
            rw (stack_all_visited (outgoing edges current) (record w { pending = rest }) b)
              (ground (arith, e, name_eq→≡ current a same)))
      ]
    ]

    round_closed :
        w.pending ≡ current ∷ rest
        → Inv start w
        → (a b : Name) → (start ≡ a) ⊎ (contains round.visited a ≡ true)
        → contains (outgoing edges a) b ≡ true
        → (contains round.pending a ≡ true) ⊎ (contains round.visited b ≡ true)
    round_closed p v a b (inl same) e = round_taken p v a b (inl same) e
    round_closed p v a b (inr now) e =
        elim (stack_all_queues (outgoing edges current) (record w { pending = rest }) a now) [
          | inr queued ↦ inl queued
          | inl before ↦ round_taken p v a b (inr before) e
        ]

    round-Inv :
        w.pending ≡ current ∷ rest
        → Inv start w
        → contains (outgoing edges current) start ≡ false
        → Inv start round
    round-Inv p v miss = record {
      sound = round_sound p v;
      within = round_within p v;
      closed = round_closed p v;
      unseen =
          rw (stack_all_visited (outgoing edges current) (record w { pending = rest }) start)
            (ground (arith, miss, v.unseen));
    }

    work-round : w.pending ≡ current ∷ rest → work edges round < work edges w
    work-round p = omega (
      arith,
      work-stack_all edges (outgoing edges current) (record w { pending = rest })
          (outgoing_targets edges edges current (Within-self edges)),
      ap (length {A = Name}) p,
    )

  Chain-visited :
      {start n : Name} (w : Worklist)
      → w.pending ≡ []
      → Inv start w
      → Chain start n
      → contains w.visited n ≡ true
  Chain-visited {start} {n} w p v (one e) = elim (v.closed start n (inl refl) e) [
    | inl waits ↦ absurd (cc (rw p at waits))
    | inr seen ↦ seen
  ]
  Chain-visited {start} {n} w p v (further {a} c e) =
      elim (v.closed a n (inr (Chain-visited w p v c)) e) [
        | inl waits ↦ absurd (cc (rw p at waits))
        | inr seen ↦ seen
      ]

  -- An answer of the search, and that it tells whether the role is in a cycle.
  pub record Decides (start : Name) (r : Option Bool) : Type 0 where
    pub answer : Bool
    pub result : r ≡ some answer
    pub cyclic : (answer ≡ true) ↔ Chain start start

  cycle_loop-Decides :
      (start : Name) (fuel : ℕ) (w : Worklist)
      → work edges w < fuel
      → Inv start w
      → Decides start (cycle_loop edges start fuel w)
  unfolding cycle_loop
  cycle_loop-Decides start zero w enough v = absurd (omega arith)
  cycle_loop-Decides start (suc fuel) w enough v = elim (List-cases w.pending) [
    | inl p ↦ record {
      answer = false;
      result = rw (p, cycle_loop) refl;
      cyclic = (λ h. absurd (cc h), λ c. absurd (cc (Chain-visited w p v c, v.unseen)));
    }
    | inr (current, rest, p) ↦
        let visit =
          visit_granted_lem start (outgoing edges current) (record w { pending = rest }) in
        elim (Bool-cases (contains (outgoing edges current) start)) [
          | inl hit ↦ record {
            answer = true;
            result = rw (p, cycle_loop, visit, hit) refl;
            cyclic = (
              λ h. extended start current start (reached start w current rest p v) hit,
              λ c. refl,
            );
          }
          | inr miss ↦
              let d =
                cycle_loop-Decides start fuel (round start w current rest)
                  (omega (arith, work-round start w current rest p))
                  (round-Inv start w current rest p v miss) in
              record {
                answer = d.answer;
                result = rw (p, cycle_loop, visit, miss) d.result;
                cyclic = d.cyclic;
              }
        ]
  ]

  -- The fuel of the search for cycles suffices: from any role it ends with an answer, which is true
  -- exactly when a chain of memberships leads from the role back to itself.
  pub cycle_loop_ends :
      (start : Name) → Decides start (cycle_loop edges start (search_fuel edges) (from_role start))
  cycle_loop_ends start =
      cycle_loop-Decides start (search_fuel edges) (from_role start)
        (omega (arith, unvisited-le edges [])) (from_role-Inv start)

  has_cycle_iff : (start : Name) → (has_cycle edges start ≡ true) ↔ Chain start start
  has_cycle_iff start = let d = cycle_loop_ends start in unfold has_cycle in rw d.result d.cyclic

  -- No role of a list is in a cycle.
  abbrev pub IsAcyclic : List Role → Type 0
  IsAcyclic [] = Unit {0}
  IsAcyclic (r ∷ rs) = (¬ Chain r.name r.name) × IsAcyclic rs

  acyclic-accepted :
      (roles : List Role) → IsAcyclic roles → reject_membership_cycles roles edges ≡ ok tt
  unfolding reject_membership_cycles
  acyclic-accepted [] a = refl
  acyclic-accepted (r ∷ rs) (a, later) = elim (Bool-cases (has_cycle edges r.name)) [
    | inl cyclic ↦ absurd (a ((has_cycle_iff r.name).0 cyclic))
    | inr free ↦ rw free (acyclic-accepted rs later)
  ]

  pub accepted-IsAcyclic :
      (roles : List Role) {u : Unit {0}}
      → reject_membership_cycles roles edges ≡ ok u
      → IsAcyclic roles
  unfolding reject_membership_cycles
  accepted-IsAcyclic [] h = tt
  accepted-IsAcyclic (r ∷ rs) h = elim (Bool-cases (has_cycle edges r.name)) [
    | inl cyclic ↦ absurd (cc (rw cyclic at h))
    | inr free ↦
        (λ c. absurd (cc ((has_cycle_iff r.name).1 c, free)), accepted-IsAcyclic rs (rw free at h))
  ]

  -- Memberships are accepted exactly when no role of the list reaches itself by a chain of them.
  pub reject_membership_cycles_iff :
      (roles : List Role) → (reject_membership_cycles roles edges ≡ ok tt) ↔ IsAcyclic roles
  reject_membership_cycles_iff roles = (accepted-IsAcyclic roles, acyclic-accepted roles)
