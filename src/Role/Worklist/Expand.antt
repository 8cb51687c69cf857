-- ===== src/Role/Worklist/Expand.antt =====
-- What one round of the search does (`inherited_roles` of crates/quackgis-server/src/role.rs).
use quackgis.Base.{
  ℕ, ◌+◌, ◌≤◌, ◌<◌, ◌≡◌, ◌⊎◌, inl, inr, refl, Bool, true, false, ◌&&◌, ◌||◌, List, [], ◌∷◌, ◌++◌,
  arith, if◌then◌else◌, nat_Eq, list_Eq, length, length-append, contains, any, list_beq_iff,
  Bool-cases, ||-true, beq_self,
}
use quackgis.Role.Model.{Name, name_eq, RoleMembership}
use quackgis.Role.Worklist.{Worklist, push, leads, has_edge, expand}

pub name_eq→≡ : (a b : Name) → name_eq a b ≡ true → a ≡ b
name_eq→≡ a b h = (list_beq_iff a b).0 h

pub contains-append :
    (xs ys : List Name) (n : Name) → contains (xs ++ ys) n ≡ (contains xs n || contains ys n)
contains-append [] ys n = refl
contains-append (x ∷ xs) ys n = ground (arith, contains-append xs ys n)

push_keeps :
    (w : Worklist) (m n : Name) → contains w.visited n ≡ true → contains (push w m).visited n ≡ true
unfolding push
push_keeps w m n h = ground arith

push_keeps_pending :
    (w : Worklist) (m n : Name) → contains w.pending n ≡ true → contains (push w m).pending n ≡ true
unfolding push
push_keeps_pending w m n h = ground (arith, contains-append w.pending (m ∷ []) n)

push_adds : (w : Worklist) (m : Name) → contains (push w m).visited m ≡ true
unfolding push
push_adds w m = ground (arith, beq_self m)

push_sound :
    (w : Worklist) (m n : Name)
    → contains (push w m).visited n ≡ true
    → (contains w.visited n ≡ true) ⊎ (name_eq m n ≡ true)
unfolding push
push_sound w m n h = ground arith

push_queues :
    (w : Worklist) (m n : Name)
    → contains (push w m).visited n ≡ true
    → (contains w.visited n ≡ true) ⊎ (contains (push w m).pending n ≡ true)
unfolding push
push_queues w m n h = ground (arith, contains-append w.pending (m ∷ []) n)

push_within :
    (w : Worklist) (m n : Name)
    → ((k : Name) → contains w.pending k ≡ true → contains w.visited k ≡ true)
    → contains (push w m).pending n ≡ true
    → contains (push w m).visited n ≡ true
unfolding push
push_within w m n within h = ground (arith, contains-append w.pending (m ∷ []) n, within n)

module _ (follows : RoleMembership → Bool) (current : Name) where
  pub expand_taken :
      (e : RoleMembership) (es : List RoleMembership) (w : Worklist)
      → leads follows current e ≡ true
      → expand follows current (e ∷ es) w ≡ expand follows current es (push w e.role)
  unfolding expand
  expand_taken e es w h = rw h

  pub expand_skipped :
      (e : RoleMembership) (es : List RoleMembership) (w : Worklist)
      → leads follows current e ≡ false
      → expand follows current (e ∷ es) w ≡ expand follows current es w
  unfolding expand
  expand_skipped e es w h = rw h

  pub expand_keeps :
      (es : List RoleMembership) (w : Worklist) (n : Name)
      → contains w.visited n ≡ true
      → contains (expand follows current es w).visited n ≡ true
  unfolding expand
  expand_keeps [] w n h = h
  expand_keeps (e ∷ es) w n h = expand_keeps es _ n (ground (arith, push_keeps w e.role n))

  pub expand_keeps_pending :
      (es : List RoleMembership) (w : Worklist) (n : Name)
      → contains w.pending n ≡ true
      → contains (expand follows current es w).pending n ≡ true
  unfolding expand
  expand_keeps_pending [] w n h = h
  expand_keeps_pending (e ∷ es) w n h =
      expand_keeps_pending es _ n (ground (arith, push_keeps_pending w e.role n))

  -- Every role at the end of an edge is visited.
  pub expand_covers :
      (es : List RoleMembership) (w : Worklist) (n : Name)
      → has_edge follows es current n ≡ true
      → contains (expand follows current es w).visited n ≡ true
  unfolding expand
  expand_covers [] w n h = cc
  expand_covers (e ∷ es) w n h =
      elim (||-true (leads follows current e && name_eq e.role n) (has_edge follows es current n)
        h) [
          | inl first ↦
              expand_keeps es _ n (ground (arith, first, push_adds w e.role, name_eq→≡ e.role n))
          | inr later ↦ expand_covers es _ n later
        ]

  -- A visited role was visited before, or stands at the end of an edge.
  pub expand_sound :
      (es : List RoleMembership) (w : Worklist) (n : Name)
      → contains (expand follows current es w).visited n ≡ true
      → (contains w.visited n ≡ true) ⊎ (has_edge follows es current n ≡ true)
  unfolding expand
  expand_sound [] w n h = inl h
  expand_sound (e ∷ es) w n h = elim (expand_sound es _ n h) [
    | inl now ↦ ground (arith, now, push_sound w e.role n)
    | inr later ↦ inr (ground (arith, later))
  ]

  -- A role that is visited now is pending, or was visited before.
  pub expand_queues :
      (es : List RoleMembership) (w : Worklist) (n : Name)
      → contains (expand follows current es w).visited n ≡ true
      → (contains w.visited n ≡ true) ⊎ (contains (expand follows current es w).pending n ≡ true)
  expand_queues [] w n h = inl (unfold expand in h)
  expand_queues (e ∷ es) w n h = elim (Bool-cases (leads follows current e)) [
    | inr skipped ↦
        let eq = expand_skipped e es w skipped in rw eq (expand_queues es w n (rw eq at h))
    | inl taken ↦
        let eq = expand_taken e es w taken in
        rw eq (elim (expand_queues es (push w e.role) n (rw eq at h)) [
          | inl now ↦ elim (push_queues w e.role n now) [
            | inl before ↦ inl before
            | inr queued ↦ inr (expand_keeps_pending es (push w e.role) n queued)
          ]
          | inr queued ↦ inr queued
        ])
  ]

  -- What is pending is visited.
  pub expand_within :
      (es : List RoleMembership) (w : Worklist) (n : Name)
      → ((k : Name) → contains w.pending k ≡ true → contains w.visited k ≡ true)
      → contains (expand follows current es w).pending n ≡ true
      → contains (expand follows current es w).visited n ≡ true
  expand_within [] w n within h = unfold expand in within n h
  expand_within (e ∷ es) w n within h = elim (Bool-cases (leads follows current e)) [
    | inr skipped ↦
        let eq = expand_skipped e es w skipped in rw eq (expand_within es w n within (rw eq at h))
    | inl taken ↦
        let eq = expand_taken e es w taken in
        rw eq (expand_within es (push w e.role) n (λ k. push_within w e.role k within) (rw eq at h))
  ]

-- The edges whose end is not yet visited.
abbrev pub unvisited : List RoleMembership → List Name → ℕ
unvisited [] visited = 0
unvisited (e ∷ es) visited = (if contains visited e.role then 0 else 1) + unvisited es visited

unvisited-cons-le :
    (es : List RoleMembership) (n : Name) (v : List Name) → unvisited es (n ∷ v) ≤ unvisited es v
unvisited-cons-le [] n v = omega arith
unvisited-cons-le (e ∷ es) n v = ground (arith, unvisited-cons-le es n v)

-- The roles at the ends of edges.
abbrev pub is_target : List RoleMembership → Name → Bool
is_target es n = any (λ e. name_eq e.role n) es

pub unvisited-cons-lt :
    (es : List RoleMembership) (n : Name) (v : List Name)
    → is_target es n ≡ true
    → contains v n ≡ false
    → unvisited es (n ∷ v) < unvisited es v
unvisited-cons-lt [] n v t h = cc
unvisited-cons-lt (e ∷ es) n v t h = elim (Bool-cases (name_eq e.role n)) [
  | inl same ↦ ground (arith, unvisited-cons-le es n v, name_eq→≡ e.role n same, beq_self n)
  | inr other ↦ ground (arith, unvisited-cons-lt es n v)
]

-- Each edge of `es` has its end among the ends of `edges`.
abbrev pub Within : List RoleMembership → List RoleMembership → Type 0
Within edges [] = Unit {0}
Within edges (e ∷ es) = (is_target edges e.role ≡ true) × Within edges es

Within-cons :
    (e : RoleMembership) (edges es : List RoleMembership) → Within edges es → Within (e ∷ edges) es
Within-cons e edges [] w = tt
Within-cons e edges (x ∷ es) (h, w) = (ground arith, Within-cons e edges es w)

pub Within-self : (edges : List RoleMembership) → Within edges edges
Within-self [] = tt
Within-self (e ∷ es) = (ground (arith, beq_self e.role), Within-cons e es es (Within-self es))

abbrev pub work : List RoleMembership → Worklist → ℕ
work edges w = length w.pending + unvisited edges w.visited

work-push :
    (edges : List RoleMembership) (w : Worklist) (n : Name)
    → is_target edges n ≡ true
    → work edges (push w n) ≤ work edges w
unfolding push
work-push edges w n t =
    ground (arith, length-append w.pending (n ∷ []), unvisited-cons-lt edges n w.visited)

-- A round makes no more work than there was.
pub work-expand :
    (follows : RoleMembership → Bool) (current : Name) (edges es : List RoleMembership)
    (w : Worklist)
    → Within edges es
    → work edges (expand follows current es w) ≤ work edges w
work-expand follows current edges [] w t = unfold expand in omega arith
work-expand follows current edges (e ∷ es) w (t, ts) = elim (Bool-cases (leads follows current e)) [
  | inr skipped ↦
      rw (expand_skipped follows current e es w skipped) (work-expand follows current edges es w ts)
  | inl taken ↦ rw (expand_taken follows current e es w taken) (
      omega (
        arith,
        work-expand follows current edges es (push w e.role) ts,
        work-push edges w e.role t,
      ))
]

pub unvisited-le : (es : List RoleMembership) (v : List Name) → unvisited es v ≤ length es
unvisited-le [] v = omega arith
unvisited-le (e ∷ es) v = ground (arith, unvisited-le es v)
