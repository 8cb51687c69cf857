-- ===== src/Role/Worklist/Search.antt =====
-- The search with an early exit decides whether a role can be reached (`has_role_privilege` of
-- crates/quackgis-server/src/role.rs).
use quackgis.Base.{
  ℕ, zero, suc, ◌<◌, ◌≡◌, ◌↔◌, inl, inr, refl, Bool, true, false, List, [], ◌∷◌, Option, some,
  arith, if◌then◌else◌, nat_Eq, list_Eq, contains, beq_self, Bool-cases, List-cases,
}
use quackgis.Role.Model.{Name, name_eq, RoleMembership}
use quackgis.Role.Worklist.{Worklist, push, leads, has_edge, expand, found, more, scan, search_loop}
use quackgis.Role.Worklist.Expand.{expand_taken, expand_skipped, expand_sound, work}
use quackgis.Role.Worklist.Closure.{
  Reaches, next, Inv, round, round-Inv, work-round, reached_visited,
}

module _ (follows : RoleMembership → Bool) (target current : Name) where
  scan_skipped :
      (e : RoleMembership) (es : List RoleMembership) (w : Worklist)
      → leads follows current e ≡ false
      → scan follows target current (e ∷ es) w ≡ scan follows target current es w
  unfolding scan
  scan_skipped e es w h = rw h

  scan_taken :
      (e : RoleMembership) (es : List RoleMembership) (w : Worklist)
      → leads follows current e ≡ true
      → scan follows target current (e ∷ es) w
        ≡ (if name_eq e.role target then found else scan follows target current es (push w e.role))
  unfolding scan
  scan_taken e es w h = rw h

  -- The scan stops exactly at an edge to the target, and else does what `expand` does.
  scan_lem :
      (es : List RoleMembership) (w : Worklist)
      → scan follows target current es w
        ≡ (if has_edge follows es current target then found else more (expand follows current es w))
  scan_lem [] w = unfold scan expand in refl
  scan_lem (e ∷ es) w = elim (Bool-cases (leads follows current e)) [
    | inr skipped ↦
        rw
          (
            scan_skipped e es w skipped,
            expand_skipped follows current e es w skipped,
            scan_lem es w,
          )
          (ground (arith, skipped))
    | inl taken ↦
        rw
          (
            scan_taken e es w taken,
            expand_taken follows current e es w taken,
            scan_lem es (push w e.role),
          )
          (ground (arith, taken))
  ]

module _ (follows : RoleMembership → Bool) (edges : List RoleMembership) (start target : Name) where
  pub record Decides (r : Option Bool) : Type 0 where
    pub answer : Bool
    pub result : r ≡ some answer
    pub reaches : (answer ≡ true) ↔ Reaches follows edges start target

  round_unseen :
      (current : Name) (w : Worklist)
      → contains w.visited target ≡ false
      → has_edge follows edges current target ≡ false
      → contains (expand follows current edges w).visited target ≡ false
  round_unseen current w unseen miss =
      elim (Bool-cases (contains (expand follows current edges w).visited target)) [
        | inr no_more ↦ no_more
        | inl seen ↦ elim (expand_sound follows current edges w target seen) [
          | inl before ↦ cc
          | inr hit ↦ cc
        ]
      ]

  pub search_loop-Decides :
      (fuel : ℕ) (w : Worklist)
      → work edges w < fuel
      → Inv follows edges start w
      → contains w.visited target ≡ false
      → Decides (search_loop follows edges target fuel w)
  unfolding search_loop
  search_loop-Decides zero w enough v unseen = absurd (omega arith)
  search_loop-Decides (suc fuel) w enough v unseen = elim (List-cases w.pending) [
    | inl p ↦ record {
      answer = false;
      result = rw (p, search_loop) refl;
      reaches = (λ h. cc, λ r. cc (reached_visited follows edges w p v r));
    }
    | inr (current, rest, p) ↦
        let stays : Worklist = record w { pending = rest } in
        let scans = scan_lem follows target current edges stays in
        elim (Bool-cases (has_edge follows edges current target)) [
          | inl hit ↦ record {
            answer = true;
            result = rw (p, search_loop) (rw (scans, search_loop) (rw (hit, search_loop) refl));
            reaches = (
              λ h.
                  next
                    (v.sound current (v.within current (rw p (ground (arith, beq_self current)))))
                    hit,
              λ r. refl,
            );
          }
          | inr miss ↦
              let d =
                search_loop-Decides fuel (round follows edges start w current rest)
                  (omega (arith, work-round follows edges start w current rest p))
                  (round-Inv follows edges start w current rest p v)
                  (round_unseen current stays unseen miss) in
              record {
                answer = d.answer;
                result =
                    rw (p, search_loop) (rw (scans, search_loop) (rw (miss, search_loop) d.result));
                reaches = d.reaches;
              }
        ]
  ]
