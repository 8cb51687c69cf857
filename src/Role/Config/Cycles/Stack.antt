-- ===== src/Role/Config/Cycles/Stack.antt =====
-- What one round of the search for cycles does (`reject_membership_cycles` of
-- crates/quackgis-server/src/role.rs).
use quackgis.Base.{
  ◌≤◌, ◌≡◌, ◌⊎◌, inl, inr, refl, true, ◌||◌, List, [], ◌∷◌, arith, nat_Eq, list_Eq, contains, all,
  if◌then◌else◌,
}
use quackgis.Role.Model.{Name, name_eq, RoleMembership}
use quackgis.Role.Worklist.{Worklist}
use quackgis.Role.Worklist.Expand.{name_eq→≡, is_target, unvisited-cons-lt, work, Within}
use quackgis.Role.Config.Cycles.{outgoing, stack, visit_granted, cycle, onward}

abbrev pub stack_all : List Name → Worklist → Worklist
stack_all [] w = w
stack_all (g ∷ gs) w = stack_all gs (stack w g)

-- The loop over granted roles stops exactly at the role itself, and else stacks them all.
pub visit_granted_lem :
    (role : Name) (gs : List Name) (w : Worklist)
    → visit_granted role gs w ≡ (if contains gs role then cycle else onward (stack_all gs w))
unfolding visit_granted
visit_granted_lem role [] w = refl
visit_granted_lem role (g ∷ gs) w = rw (visit_granted_lem role gs (stack w g)) (ground arith)

stack_visited :
    (w : Worklist) (m n : Name)
    → contains (stack w m).visited n ≡ (name_eq m n || contains w.visited n)
unfolding stack
stack_visited w m n = ground (arith, name_eq→≡ m n)

pub stack_all_visited :
    (gs : List Name) (w : Worklist) (n : Name)
    → contains (stack_all gs w).visited n ≡ (contains gs n || contains w.visited n)
stack_all_visited [] w n = refl
stack_all_visited (g ∷ gs) w n =
    ground (arith, stack_all_visited gs (stack w g) n, stack_visited w g n)

stack_keeps :
    (w : Worklist) (m n : Name)
    → contains w.pending n ≡ true
    → contains (stack w m).pending n ≡ true
unfolding stack
stack_keeps w m n h = ground arith

pub stack_all_keeps :
    (gs : List Name) (w : Worklist) (n : Name)
    → contains w.pending n ≡ true
    → contains (stack_all gs w).pending n ≡ true
stack_all_keeps [] w n h = h
stack_all_keeps (g ∷ gs) w n h = stack_all_keeps gs (stack w g) n (stack_keeps w g n h)

stack_queues :
    (w : Worklist) (m n : Name)
    → contains (stack w m).visited n ≡ true
    → (contains w.visited n ≡ true) ⊎ (contains (stack w m).pending n ≡ true)
unfolding stack
stack_queues w m n h = ground arith

pub stack_all_queues :
    (gs : List Name) (w : Worklist) (n : Name)
    → contains (stack_all gs w).visited n ≡ true
    → (contains w.visited n ≡ true) ⊎ (contains (stack_all gs w).pending n ≡ true)
stack_all_queues [] w n h = inl h
stack_all_queues (g ∷ gs) w n h = elim (stack_all_queues gs (stack w g) n h) [
  | inr queued ↦ inr queued
  | inl now ↦ elim (stack_queues w g n now) [
    | inl before ↦ inl before
    | inr queued ↦ inr (stack_all_keeps gs (stack w g) n queued)
  ]
]

stack_within :
    (w : Worklist) (m n : Name)
    → contains (stack w m).pending n ≡ true
    → (contains w.pending n ≡ true) ⊎ (contains (stack w m).visited n ≡ true)
unfolding stack
stack_within w m n h = ground arith

pub stack_all_within :
    (gs : List Name) (w : Worklist) (n : Name)
    → contains (stack_all gs w).pending n ≡ true
    → (contains w.pending n ≡ true) ⊎ (contains (stack_all gs w).visited n ≡ true)
stack_all_within [] w n h = inl h
stack_all_within (g ∷ gs) w n h = elim (stack_all_within gs (stack w g) n h) [
  | inr seen ↦ inr seen
  | inl now ↦ elim (stack_within w g n now) [
    | inl before ↦ inl before
    | inr seen ↦ inr (rw (stack_all_visited gs (stack w g) n) (ground (arith, seen)))
  ]
]

work-stack :
    (edges : List RoleMembership) (w : Worklist) (n : Name)
    → is_target edges n ≡ true
    → work edges (stack w n) ≤ work edges w
unfolding stack
work-stack edges w n t = ground (arith, unvisited-cons-lt edges n w.visited)

pub work-stack_all :
    (edges : List RoleMembership) (gs : List Name) (w : Worklist)
    → all (is_target edges) gs ≡ true
    → work edges (stack_all gs w) ≤ work edges w
work-stack_all edges [] w t = omega arith
work-stack_all edges (g ∷ gs) w t =
    omega (
      arith,
      work-stack_all edges gs (stack w g) (ground arith),
      work-stack edges w g (ground arith),
    )

pub outgoing_targets :
    (edges ms : List RoleMembership) (a : Name)
    → Within edges ms
    → all (is_target edges) (outgoing ms a) ≡ true
outgoing_targets edges [] a t = refl
outgoing_targets edges (m ∷ ms) a (t, ts) = ground (arith, outgoing_targets edges ms a ts)
