-- ===== src/Role/Worklist.antt =====
-- The search over memberships that `inherited_roles` and `has_role_privilege` of
-- crates/quackgis-server/src/role.rs share: a set of visited roles and a queue of pending ones.
pub mod Expand
pub mod Closure
pub mod Search
use quackgis.Base.{
  ℕ, zero, suc, ◌+◌, Bool, true, false, not, ◌&&◌, List, [], ◌∷◌, ◌++◌, Option, none, some,
  if◌then◌else◌, nat_Eq, list_Eq, length, contains, any, ◌≡◌,
}
use quackgis.Role.Model.{Name, name_eq, RoleMembership}

pub record Worklist : Type 0 where
  pub visited : List Name
  pub pending : List Name

-- `if visited.insert(name) { pending.push_back(name) }`
unfoldable pub push : Worklist → Name → Worklist
push w name =
    if contains w.visited name
    then w
    else record { visited = name ∷ w.visited; pending = w.pending ++ name ∷ [] }

abbrev pub started : Name → Worklist
started name = record { visited = name ∷ []; pending = name ∷ [] }

module _ (follows : RoleMembership → Bool) where
  -- the filter on edges
  abbrev pub leads : Name → RoleMembership → Bool
  leads current edge = follows edge && name_eq edge.member current

  abbrev pub has_edge : List RoleMembership → Name → Name → Bool
  has_edge edges a b = any (λ e. leads a e && name_eq e.role b) edges

  -- the loop over the edges of one role in `inherited_roles`
  unfoldable pub expand : Name → List RoleMembership → Worklist → Worklist
  unfolding push
  expand current [] w = w
  expand current (edge ∷ edges) w =
      expand current edges (if leads current edge then push w edge.role else w)

  -- the `while` loop of `inherited_roles`; `none` when the fuel runs out
  unfoldable pub closure_loop : List RoleMembership → ℕ → Worklist → Option (List Name)
  closure_loop edges zero w = none
  closure_loop edges (suc fuel) w = elim w.pending [
    | [] ↦ some w.visited
    | current ∷ rest ↦ closure_loop edges fuel (expand current edges (record w { pending = rest }))
  ]

  pub data Scan : Type 0 where
    found : Scan
    more : Worklist → Scan

  -- the loop over the edges of one role in `has_role_privilege`
  unfoldable pub scan : Name → Name → List RoleMembership → Worklist → Scan
  unfolding push
  scan target current [] w = more w
  scan target current (edge ∷ edges) w =
      let next = scan target current edges (push w edge.role) in
      let skip = scan target current edges w in
      if leads current edge then (if name_eq edge.role target then found else next) else skip

  -- the `while` loop of `has_role_privilege`
  unfoldable pub search_loop : List RoleMembership → Name → ℕ → Worklist → Option Bool
  search_loop edges target zero w = none
  search_loop edges target (suc fuel) w = elim w.pending [
    | [] ↦ some false
    | current ∷ rest ↦ elim (scan target current edges (record w { pending = rest })) [
      | found ↦ some true
      | more w' ↦ search_loop edges target fuel w'
    ]
  ]

-- Each round takes a pending role, and each edge adds at most one: rounds that suffice.
abbrev pub search_fuel : List RoleMembership → ℕ
search_fuel edges = length edges + 2
