-- ===== src/Role/Session/Transaction.antt =====
-- What the end of a transaction undoes, and how large a request context grows
-- (`RoleSessionState` of crates/quackgis-server/src/role.rs).
use quackgis.Base.{
  ◌+◌, ◌≤◌, ◌≡◌, ◌⊎◌, inl, inr, refl, sym, ◌∙◌, Bool, true, false, List, [], ◌∷◌, Option, none,
  arith, ok, utf8_len, list_beq_iff, nat_Eq, any, ◌==◌, ap, Result-cases,
}
use quackgis.Role.Model.{Name, RoleCatalog}
use quackgis.Role.Session.{
  RoleSessionState, effective_role, set_role, session_new, reset_role, ended, end_transaction,
  set_request_setting, with_setting, request_jwt_claims, max_request_setting_bytes, context_bytes,
}
use quackgis.Role.Session.Allowed.{
  Request, sets_role, resets_role, ends_transaction, sets_request, perform, after, run,
}

-- The calls that a transaction may make for itself alone.
abbrev pub IsLocal : Request → Type 0
IsLocal (sets_role target local in_transaction) = local ≡ true
IsLocal resets_role = ⊥
IsLocal ends_transaction = Unit {0}
IsLocal (sets_request name value in_transaction) = Unit {0}

abbrev pub AllLocal : List Request → Type 0
AllLocal [] = Unit {0}
AllLocal (r ∷ rs) = IsLocal r × AllLocal rs

-- What local calls leave alone.
record Keeps (s t : RoleSessionState) : Type 0 where
  user_is : t.session.user ≡ s.session.user
  session_is : t.session.session_role ≡ s.session.session_role
  poisoned_is : t.poisoned ≡ s.poisoned

after-Keeps : (s : RoleSessionState) (r : Request) → IsLocal r → Keeps s (after s (perform s r))
unfolding perform
after-Keeps s (sets_role target local in_transaction) h = unfold set_role in ground arith
after-Keeps s resets_role h = absurd h
after-Keeps s ends_transaction h = unfold end_transaction in ground arith
after-Keeps s (sets_request name value in_transaction) h =
    unfold set_request_setting in ground arith

run-Keeps : (s : RoleSessionState) (rs : List Request) → AllLocal rs → Keeps s (run s rs)
unfolding run
run-Keeps s [] h = record { user_is = refl; session_is = refl; poisoned_is = refl }
run-Keeps s (r ∷ rs) h =
    let first = after-Keeps s r h.0 in
    let later = run-Keeps (after s (perform s r)) rs h.1 in
    record {
      user_is = later.user_is ∙ first.user_is;
      session_is = later.session_is ∙ first.session_is;
      poisoned_is = later.poisoned_is ∙ first.poisoned_is;
    }

ended_context : (s : RoleSessionState) → (ended s).session.request_context ≡ []
ended_context s = ground arith

-- However many `SET LOCAL ROLE` and request settings a transaction makes, its end restores the
-- effective role that the session had before and empties the request context.
pub effective_role-end_transaction :
    (s : RoleSessionState) (rs : List Request)
    → s.poisoned ≡ false
    → s.session.local_role ≡ none
    → AllLocal rs
    → (t : RoleSessionState) × (end_transaction (run s rs) ≡ ok t)
      × (effective_role t.session ≡ effective_role s.session)
      × (t.session.request_context ≡ [])
unfolding effective_role end_transaction
effective_role-end_transaction s rs unpoisoned no_local local =
    let k = run-Keeps s rs local in
    (
      ended (run s rs),
      ground (arith, k.poisoned_is),
      ground (arith, k.user_is, k.session_is),
      ended_context (run s rs),
    )

-- A context with no entry, or with the one setting that is allowed, of at most 16384 bytes.
pub record IsContext (context : List (Name × Name)) : Type 0 where
  pub entries :
      (context ≡ [])
      ⊎ ((value : Name) × (context ≡ (request_jwt_claims, value) ∷ [])
          × (utf8_len value ≤ max_request_setting_bytes))

-- With such a context, the one allowed setting of a text without NUL of at most 16384 bytes is
-- accepted within a transaction, and becomes the whole context: the limit of the session on the sum
-- of all settings never refuses it.
pub set_request_setting_accepts :
    (s : RoleSessionState) (value : Name)
    → s.poisoned ≡ false
    → IsContext s.session.request_context
    → utf8_len value ≤ max_request_setting_bytes
    → any (λ c. c == 0) value ≡ false
    → (t : RoleSessionState) × (set_request_setting s request_jwt_claims value true ≡ ok t)
      × (t.session.request_context ≡ (request_jwt_claims, value) ∷ [])
unfolding set_request_setting
set_request_setting_accepts s value unpoisoned v fits clean = elim (v.entries) [
  | inl e ↦ (with_setting s request_jwt_claims value, ground (arith, e), ground (arith, e))
  | inr (old, e, le) ↦ (
    with_setting s request_jwt_claims value,
    ground (arith, e, le),
    ground (arith, e, (list_beq_iff old value).0),
  )
]

setting-IsContext :
    (s t : RoleSessionState) (name value : Name) (in_transaction : Bool)
    → IsContext s.session.request_context
    → set_request_setting s name value in_transaction ≡ ok t
    → IsContext t.session.request_context
unfolding set_request_setting
setting-IsContext s t name value in_transaction v h =
    let same : name ≡ request_jwt_claims =
      (list_beq_iff name request_jwt_claims).0 (ground arith) in
    let fits : utf8_len value ≤ max_request_setting_bytes = ground arith in
    let (u, done, context) =
      set_request_setting_accepts s value (ground arith) v fits (ground arith) in
    let e : u ≡ t = ground (arith, same, done) in
    record {
      entries =
          inr (
            value,
            ap (λ (x : RoleSessionState). x.session.request_context) (sym e) ∙ context,
            fits,
          );
    }

perform-IsContext :
    (s : RoleSessionState) (r : Request)
    → IsContext s.session.request_context
    → IsContext (after s (perform s r)).session.request_context
unfolding perform
perform-IsContext s (sets_role target local in_transaction) v =
    let e : (after s (set_role s target local in_transaction)).session.request_context
        ≡ s.session.request_context =
      unfold set_role in ground arith in
    rw e v
perform-IsContext s resets_role v =
    let e : (after s (reset_role s)).session.request_context ≡ s.session.request_context =
      unfold reset_role in ground arith in
    rw e v
perform-IsContext s ends_transaction v =
    let context = (after s (end_transaction s)).session.request_context in
    let e : (context ≡ s.session.request_context) ⊎ (context ≡ []) =
      unfold end_transaction in ground (arith, ended_context s) in
    elim e [ inl same ↦ rw same v | inr emptied ↦ record { entries = inl emptied } ]
perform-IsContext s (sets_request name value in_transaction) v =
    elim (Result-cases (set_request_setting s name value in_transaction)) [
      | inl (t, done) ↦ rw done (setting-IsContext s t name value in_transaction v done)
      | inr (e, fails) ↦ rw fails v
    ]

run-IsContext :
    (s : RoleSessionState) (rs : List Request)
    → IsContext s.session.request_context
    → IsContext (run s rs).session.request_context
unfolding run
run-IsContext s [] v = v
run-IsContext s (r ∷ rs) v = run-IsContext (after s (perform s r)) rs (perform-IsContext s r v)

-- After any calls of a new session its request context has at most 16402 bytes, far below the
-- limit that the code sets for the sum.
pub context_bytes-run :
    (user : Name) (catalog : Option RoleCatalog) (s : RoleSessionState) (rs : List Request)
    → session_new user catalog ≡ ok s
    → context_bytes (run s rs).session.request_context
      ≤ utf8_len request_jwt_claims + max_request_setting_bytes
unfolding session_new
context_bytes-run user catalog s rs h =
    let v = run-IsContext s rs (record { entries = inl (ground arith) }) in
    ground (arith, v.entries)
