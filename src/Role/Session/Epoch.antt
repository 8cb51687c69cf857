-- ===== src/Role/Session/Epoch.antt =====
-- The epoch of a session tells its states apart (`RoleSessionState` of
-- crates/quackgis-server/src/role.rs).
use quackgis.Base.{
  ◌≡◌, ◌⊎◌, inl, inr, refl, Bool, true, false, Option, none, some, arith, ok, wrapping_add,
  Bool-cases, list_beq_iff, ap, nat_Eq,
}
use quackgis.Role.Session.{
  RoleSelection, session_user, named, selection_eq, RoleSession, RoleSessionState, local_eq,
  role_changed, apply_role, reset_role, end_transaction, set_request_setting,
}
use quackgis.Role.Session.Allowed.{
  Request, sets_role, resets_role, ends_transaction, sets_request, perform, set_role_parts,
}

selection_eq→≡ : (a b : RoleSelection) → selection_eq a b ≡ true → a ≡ b
selection_eq→≡ session_user session_user h = refl
selection_eq→≡ session_user (named b) h = cc
selection_eq→≡ (named a) session_user h = cc
selection_eq→≡ (named a) (named b) h = ap named ((list_beq_iff a b).0 h)

local_eq→≡ : (l : Option RoleSelection) (r : RoleSelection) → local_eq l r ≡ true → l ≡ some r
local_eq→≡ none r h = cc
local_eq→≡ (some l) r h = ap some (selection_eq→≡ l r h)

-- Nothing changed, or the epoch went up by one.
abbrev Ticks : RoleSession → RoleSession → Type 0
Ticks s t = (t ≡ s) ⊎ (t.epoch ≡ wrapping_add s.epoch 1)

apply_role-Ticks :
    (local : Bool) (s : RoleSession) (selection : RoleSelection)
    → Ticks s (apply_role local s selection)
unfolding apply_role
apply_role-Ticks true s selection = elim (Bool-cases (local_eq s.local_role selection)) [
  | inr differs ↦ inr (ground arith)
  | inl same ↦ inl (ground (arith, local_eq→≡ s.local_role selection same))
]
apply_role-Ticks false s selection = elim (Bool-cases (role_changed false s selection)) [
  | inl differs ↦ inr (ground arith)
  | inr same ↦ inl (ground (arith, selection_eq→≡ s.session_role selection))
]

-- A call that succeeds leaves the whole state as it was, or raises the epoch by one (modulo 2^64):
-- no change of the role or of the request context goes without a new epoch.
pub perform_epoch :
    (s t : RoleSessionState) (r : Request)
    → perform s r ≡ ok t
    → (t ≡ s) ⊎ (t.session.epoch ≡ wrapping_add s.session.epoch 1)
unfolding perform
perform_epoch s t (sets_role target local in_transaction) h =
    let (selection, _, made) = set_role_parts s target local in_transaction h in
    elim (apply_role-Ticks local s.session selection) [
      | inl same ↦ inl (ground (arith, same))
      | inr ticks ↦ inr (ground (arith, ticks))
    ]
perform_epoch s t resets_role h = unfold reset_role in ground arith
perform_epoch s t ends_transaction h = unfold end_transaction in ground arith
perform_epoch s t (sets_request name value in_transaction) h =
    unfold set_request_setting in ground arith
