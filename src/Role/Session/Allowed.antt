-- ===== src/Role/Session/Allowed.antt =====
-- A session only acts under roles that its user may set (`RoleSessionState` of
-- crates/quackgis-server/src/role.rs).
use quackgis.Base.{
  ◌≡◌, ◌⊎◌, inl, inr, refl, Bool, true, false, List, [], ◌∷◌, Option, none, some, arith, Result, ok,
  err, Result-cases, Option-cases, subst, sym, ◌∙◌,
}
use quackgis.Role.Model.{Name, RoleCatalog}
use quackgis.Role.Catalog.{can_set_role}
use quackgis.Role.Session.{
  RoleSelection, session_user, named, RoleSessionState, RoleSessionErrorKind, session_new, selected,
  effective_role, select_role, apply_role, set_role, reset_role, end_transaction,
  set_request_setting,
}

-- The calls that change a session.
pub data Request : Type 0 where
  sets_role : Option Name → Bool → Bool → Request
  resets_role ends_transaction : Request
  sets_request : Name → Name → Bool → Request

unfoldable pub perform : RoleSessionState → Request → Result RoleSessionErrorKind RoleSessionState
perform s (sets_role target local in_transaction) = set_role s target local in_transaction
perform s resets_role = reset_role s
perform s ends_transaction = end_transaction s
perform s (sets_request name value in_transaction) = set_request_setting s name value in_transaction

-- A call that fails leaves the state as it was.
abbrev pub after :
    RoleSessionState → Result RoleSessionErrorKind RoleSessionState → RoleSessionState
after s (ok t) = t
after s (err e) = s

unfoldable pub run : RoleSessionState → List Request → RoleSessionState
run s [] = s
run s (r ∷ rs) = run (after s (perform s r)) rs

-- The user may set the role of a selection.
pub data IsSettable (catalog : Option RoleCatalog) (user : Name) : RoleSelection → Type 0 where
  own : IsSettable catalog user session_user
  member :
      (c : RoleCatalog) (target : Name)
      → catalog ≡ some c
      → can_set_role c user target ≡ true
      → IsSettable catalog user (named target)

-- A role under which a session of the user may act.
pub data IsUsable (catalog : Option RoleCatalog) (user : Name) (name : Name) : Type 0 where
  self : name ≡ user → IsUsable catalog user name
  settable :
      (c : RoleCatalog)
      → catalog ≡ some c
      → can_set_role c user name ≡ true
      → IsUsable catalog user name

pub record IsAllowed (catalog : Option RoleCatalog) (user : Name) (s : RoleSessionState)
    : Type 0 where
  pub catalog_is : s.catalog ≡ catalog
  pub user_is : s.session.user ≡ user
  pub session_ok : IsSettable catalog user s.session.session_role
  pub local_ok : (l : RoleSelection) → s.session.local_role ≡ some l → IsSettable catalog user l

select_role-IsSettable :
    (catalog : Option RoleCatalog) (user : Name) (target : Option Name) {r : RoleSelection}
    → select_role catalog user target ≡ ok r
    → IsSettable catalog user r
unfolding select_role
select_role-IsSettable catalog user none {r} h =
    let e : session_user ≡ r = ground arith in subst (IsSettable catalog user) e own
select_role-IsSettable none user (some t) h = cc
select_role-IsSettable (some c) user (some t) {r} h =
    let e : named t ≡ r = ground arith in
    subst (IsSettable (some c) user) e (member c t refl (ground arith))

pub set_role_parts :
    (s : RoleSessionState) (target : Option Name) (local in_transaction : Bool)
    {t : RoleSessionState}
    → set_role s target local in_transaction ≡ ok t
    → (selection : RoleSelection) × (select_role s.catalog s.session.user target ≡ ok selection)
      × (record s { session = apply_role local s.session selection } ≡ t)
unfolding set_role
set_role_parts s target local in_transaction h =
    elim (Result-cases (select_role s.catalog s.session.user target)) [
      | inl (selection, e) ↦ (selection, e, ground arith)
      | inr (e, fails) ↦ absurd (ground arith)
    ]

-- Each selection of the new state is the old one, or is back to the user's own.
record Narrows (s t : RoleSessionState) : Type 0 where
  same_catalog : t.catalog ≡ s.catalog
  same_user : t.session.user ≡ s.session.user
  narrows_session :
      (t.session.session_role ≡ s.session.session_role) ⊎ (t.session.session_role ≡ session_user)
  narrows_local : (t.session.local_role ≡ s.session.local_role) ⊎ (t.session.local_role ≡ none)

module _ (catalog : Option RoleCatalog) (user : Name) where
  narrower :
      (s t : RoleSessionState) → IsAllowed catalog user s → Narrows s t → IsAllowed catalog user t
  narrower s t v n = record {
    catalog_is = n.same_catalog ∙ v.catalog_is;
    user_is = n.same_user ∙ v.user_is;
    session_ok = elim (n.narrows_session) [
      | inl same ↦ rw same v.session_ok
      | inr back ↦ rw back own
    ];
    local_ok =
        λ l e. elim (n.narrows_local) [ inl same ↦ v.local_ok l (sym same ∙ e) | inr gone ↦ cc ];
  }

  apply_role-IsAllowed :
      (local : Bool) (s : RoleSessionState) (selection : RoleSelection)
      → IsAllowed catalog user s
      → IsSettable catalog user selection
      → IsAllowed catalog user (record s { session = apply_role local s.session selection })
  unfolding apply_role
  apply_role-IsAllowed true s selection v ok_selection = record {
    catalog_is = v.catalog_is;
    user_is = ground (arith, v.user_is);
    session_ok =
        let e : s.session.session_role ≡ (apply_role true s.session selection).session_role =
          ground arith in
        subst (IsSettable catalog user) e v.session_ok;
    local_ok = λ l e.
        let q : selection ≡ l = ground arith in subst (IsSettable catalog user) q ok_selection;
  }
  apply_role-IsAllowed false s selection v ok_selection = record {
    catalog_is = v.catalog_is;
    user_is = ground (arith, v.user_is);
    session_ok =
        let e : selection ≡ (apply_role false s.session selection).session_role = ground arith in
        subst (IsSettable catalog user) e ok_selection;
    local_ok = λ l e. absurd (ground arith);
  }

  reset_role-IsAllowed :
      (s : RoleSessionState)
      → IsAllowed catalog user s
      → IsAllowed catalog user (after s (reset_role s))
  unfolding reset_role
  reset_role-IsAllowed s v = narrower s _ v (ground arith)

  end_transaction-IsAllowed :
      (s : RoleSessionState)
      → IsAllowed catalog user s
      → IsAllowed catalog user (after s (end_transaction s))
  unfolding end_transaction
  end_transaction-IsAllowed s v = narrower s _ v (ground arith)

  set_request_setting-IsAllowed :
      (s : RoleSessionState) (name value : Name) (in_transaction : Bool)
      → IsAllowed catalog user s
      → IsAllowed catalog user (after s (set_request_setting s name value in_transaction))
  unfolding set_request_setting
  set_request_setting-IsAllowed s name value in_transaction v = narrower s _ v (ground arith)

  perform-IsAllowed :
      (s : RoleSessionState) (r : Request)
      → IsAllowed catalog user s
      → IsAllowed catalog user (after s (perform s r))
  unfolding perform
  perform-IsAllowed s (sets_role target local in_transaction) v =
      elim (Result-cases (set_role s target local in_transaction)) [
        | inr (e, fails) ↦ rw fails v
        | inl (t, done) ↦
            let (selection, chosen, made) = set_role_parts s target local in_transaction done in
            let allowed = select_role-IsSettable s.catalog s.session.user target chosen in
            rw done (
              subst (IsAllowed catalog user) made (
                apply_role-IsAllowed local s selection v
                  (rw (← v.catalog_is, ← v.user_is) allowed)))
      ]
  perform-IsAllowed s resets_role v = reset_role-IsAllowed s v
  perform-IsAllowed s ends_transaction v = end_transaction-IsAllowed s v
  perform-IsAllowed s (sets_request name value in_transaction) v =
      set_request_setting-IsAllowed s name value in_transaction v

  run-IsAllowed :
      (s : RoleSessionState) (rs : List Request)
      → IsAllowed catalog user s
      → IsAllowed catalog user (run s rs)
  unfolding run
  run-IsAllowed s [] v = v
  run-IsAllowed s (r ∷ rs) v = run-IsAllowed (after s (perform s r)) rs (perform-IsAllowed s r v)

  session_new-IsAllowed :
      {s : RoleSessionState} → session_new user catalog ≡ ok s → IsAllowed catalog user s
  unfolding session_new
  session_new-IsAllowed {s} h =
      let fresh : RoleSessionState = record {
        catalog = catalog;
        session = record {
          user = user;
          session_role = session_user;
          local_role = none;
          epoch = 0;
          request_context = [];
        };
        poisoned = false;
      } in
      let e : fresh ≡ s = ground arith in
      subst (IsAllowed catalog user) e
        (record { catalog_is = refl; user_is = refl; session_ok = own; local_ok = λ l q. cc })

  IsSettable-IsUsable :
      {r : RoleSelection} → IsSettable catalog user r → IsUsable catalog user (selected r user)
  IsSettable-IsUsable own = self refl
  IsSettable-IsUsable (member c t p q) = settable c p q

  IsAllowed-IsUsable :
      (s : RoleSessionState)
      → IsAllowed catalog user s
      → IsUsable catalog user (effective_role s.session)
  unfolding effective_role
  IsAllowed-IsUsable s v = elim (Option-cases s.session.local_role) [
    | inl e ↦ rw (v.user_is, e) (IsSettable-IsUsable v.session_ok)
    | inr (l, e) ↦ rw (v.user_is, e) (IsSettable-IsUsable (v.local_ok l e))
  ]

  -- Whatever a client of a new session calls, the session acts under its user's own role or under a
  -- role that the catalog lets that user set; failed calls included.
  pub effective_role_allowed :
      (rs : List Request) {s : RoleSessionState}
      → session_new user catalog ≡ ok s
      → IsUsable catalog user (effective_role (run s rs).session)
  effective_role_allowed rs {s} h =
      IsAllowed-IsUsable (run s rs) (run-IsAllowed s rs (session_new-IsAllowed h))
