-- ===== src/Role/Config/Cycles.antt =====
-- The search for cycles among memberships: `reject_membership_cycles`
-- (crates/quackgis-server/src/role.rs). The stack of pending roles has its top first.
pub mod Stack
pub mod Acyclic
use quackgis.Base.{
  ℕ, zero, suc, Bool, true, false, List, [], ◌∷◌, Option, none, some, Result, ok, err, ◌>>=◌, ◌>>◌,
  reject, if◌then◌else◌, nat_Eq, list_Eq, contains,
}
use quackgis.Role.Model.{Name, name_eq, Role, RoleMembership}
use quackgis.Role.Worklist.{Worklist, search_fuel}
use quackgis.Role.Catalog.{or_false}
use quackgis.Role.Config.{ConfigError, Configured, membership_cycle}

-- `outgoing.get(member)`: the roles that a member is granted, in the order of the memberships
abbrev pub outgoing : List RoleMembership → Name → List Name
outgoing [] member = []
outgoing (m ∷ ms) member =
    let rest = outgoing ms member in if name_eq m.member member then m.role ∷ rest else rest

-- `if visited.insert(granted) { pending.push(granted) }`
unfoldable pub stack : Worklist → Name → Worklist
stack w granted =
    if contains w.visited granted
    then w
    else record { visited = granted ∷ w.visited; pending = granted ∷ w.pending }

pub data Visit : Type 0 where
  cycle : Visit
  onward : Worklist → Visit

-- the loop over the roles granted to one member
unfoldable pub visit_granted : Name → List Name → Worklist → Visit
unfolding stack
visit_granted role [] w = onward w
visit_granted role (granted ∷ rest) w =
    let next = visit_granted role rest (stack w granted) in
    if name_eq granted role then cycle else next

-- the `while` loop of one role; `none` when the fuel runs out
unfoldable pub cycle_loop : List RoleMembership → Name → ℕ → Worklist → Option Bool
cycle_loop memberships role zero w = none
cycle_loop memberships role (suc fuel) w = elim w.pending [
  | [] ↦ some false
  | member ∷ rest ↦
      elim (visit_granted role (outgoing memberships member) (record w { pending = rest })) [
        | cycle ↦ some true
        | onward w' ↦ cycle_loop memberships role fuel w'
      ]
]

abbrev pub from_role : Name → Worklist
from_role name = record { visited = []; pending = name ∷ [] }

-- The fuel suffices, so that the search has an answer.
unfoldable pub has_cycle : List RoleMembership → Name → Bool
has_cycle memberships name =
    or_false (cycle_loop memberships name (search_fuel memberships) (from_role name))

unfoldable pub reject_membership_cycles : List Role → List RoleMembership → Configured (Unit {0})
reject_membership_cycles [] memberships = ok tt
reject_membership_cycles (role ∷ roles) memberships = do
  reject (has_cycle memberships role.name) membership_cycle
  reject_membership_cycles roles memberships
