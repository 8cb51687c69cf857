-- ===== src/Tests/Server.antt =====
-- Runs of the lifecycle, the accounts and the labels, and the theorems about them at concrete inputs.
use quackgis.Base.{◌≡◌, refl, true, false, [], ◌∷◌, none, some, ok, codes, arith, Bytes, ◌&&◌}
use quackgis.Role.Model.{Name, eq_ignore_ascii_case}
use quackgis.Server.Lifecycle.{ready, draining, join, update_round, stop_accepting, mark_draining}
use quackgis.Server.Lifecycle.Steps.{
  World, new_world, checks, joins, starts, updates, stops, marks, looks, Reach, here, then_step,
  absent, begun,
}
use quackgis.Server.Lifecycle.Waiting.{IsDraining, IsStalled, Reach-waiting}
use quackgis.Server.Audit.{sanitize_label}
use quackgis.Server.Auth.{
  WriteTarget, AuthConfig, AuthMode, TablePolicy, trust, password, read_write, role_for_user,
  is_read_write, listed, allows_write, allows_maintenance, with_readwrite_allowlist,
  with_maintenance_user, validate_user_password, password_users,
}
use quackgis.Server.Auth.Allowlist.{
  parse_table_allowlist, parse_entries, parse_table_target, collect_parts,
  normalize_identifier_part, table_of_parts,
}
use quackgis.Server.Auth.Allowlist.Parsed.{IsAllowlist, parse_table_allowlist-IsAllowlist}
use quackgis.Server.Auth.Allowed.{allows_write-with_readwrite_allowlist}

reaches_draining : (w : World) × Reach new_world w × (IsDraining absent w × (w.running ≡ 1))
unfolding join stop_accepting mark_draining
reaches_draining = (
  _,
  then_step
      (then_step
        (then_step
          (then_step (then_step (then_step here (checks refl)) (joins refl (omega arith)))
            (starts refl refl))
          (stops refl))
        (marks refl))
      (looks refl),
  (
    record {
      refuses_new = refl;
      no_checked = refl;
      no_counted = refl;
      no_refused = refl;
      no_notifying = refl;
      drain_begun = refl;
      waiter_at = refl;
    },
    refl,
  ),
)

Reach-waiting_example : (v : World) × Reach reaches_draining.0 v × IsStalled v
Reach-waiting_example = Reach-waiting reaches_draining.1 reaches_draining.2.0 reaches_draining.2.1

abbrev drained : World
drained = record new_world {
  lifecycle = record { accepting = false; readiness = draining; active_transactions = 0 };
  drain = begun;
}

late_probe :
    Reach drained
      (record drained { lifecycle = (update_round ready false ready drained.lifecycle).0 })
late_probe = then_step here (updates ready false ready)

sanitized : sanitize_label (codes "a=b c") ≡ codes "a_b_c"
unfolding sanitize_label
sanitized = refl

abbrev roads : WriteTarget
roads = record { schema = codes "main"; table = codes "roads" }

abbrev points : WriteTarget
points = record { schema = codes "main"; table = codes "points" }

parses :
    parse_table_allowlist (codes "roads, public.points,quackgis.main.roads")
    ≡ ok (points ∷ roads ∷ [])
unfolding parse_table_allowlist parse_entries parse_table_target collect_parts
    normalize_identifier_part table_of_parts eq_ignore_ascii_case
parses = refl

parse_table_allowlist-IsAllowlist_example : IsAllowlist (points ∷ roads ∷ [])
parse_table_allowlist-IsAllowlist_example =
    parse_table_allowlist-IsAllowlist (codes "roads, public.points,quackgis.main.roads") parses

abbrev scram : Name → Bytes × Bytes
scram secret = (codes "salt", secret)

abbrev accounts : AuthConfig
accounts = record trust {
  mode = AuthMode.password_mode;
  users =
      (
        codes "writer",
        record {
          access = read_write;
          write_policy = TablePolicy.all_tables;
          scram_salt = codes "salt";
          scram_salted_password = codes "secret";
        },
      )
      ∷ [];
}

made : password scram (codes "writer") (codes "secret") none ≡ ok accounts
unfolding password password_users validate_user_password trust
made = refl

allows_write-with_readwrite_allowlist_example :
    allows_write
      (with_readwrite_allowlist accounts (roads ∷ []))
      (some (codes "writer"))
      (some (codes "main", codes "ROADS"))
    ≡ (is_read_write (role_for_user accounts (some (codes "writer")))
        && listed (roads ∷ []) (some (codes "main", codes "ROADS")))
allows_write-with_readwrite_allowlist_example =
    allows_write-with_readwrite_allowlist accounts (roads ∷ []) (some (codes "writer"))
      (some (codes "main", codes "ROADS"))

writer_writes :
    allows_write accounts (some (codes "writer")) (some (codes "main", codes "roads")) ≡ true
unfolding allows_write trust
writer_writes = refl

maintained :
    with_maintenance_user accounts (codes "writer")
    ≡ ok (record accounts { maintenance_user = some (codes "writer") })
unfolding with_maintenance_user trust
maintained = refl

writer_maintains :
    allows_maintenance
      (record accounts { maintenance_user = some (codes "writer") })
      (some (codes "writer"))
      (codes "main", codes "roads")
    ≡ true
unfolding allows_maintenance allows_write trust
writer_maintains = refl
