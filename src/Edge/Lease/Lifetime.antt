-- ===== src/Edge/Lease/Lifetime.antt =====
-- How long one lease can serve (`SignedAccessLease::verify` of crates/quackgis-edge/src/lib.rs).
use quackgis.Base.{ℕ, ◌+◌, ◌<◌, ◌≡◌, arith, ok}
use quackgis.Edge.Protocol.{max_lease_ttl_seconds, max_clock_skew_seconds}
use quackgis.Edge.Iroh.{Iroh}
use quackgis.Edge.Messages.{SignedAccessLease, Json}
use quackgis.Edge.Lease.{verify}
use quackgis.Edge.Lease.Accepted.{verify_sound}

-- Any two times at which one lease is accepted, by whichever worker and under whichever keys, lie
-- less than the longest lifetime and the clock skew apart.
pub verify_lifetime :
    (i : Iroh) (json : Json i) (lease : SignedAccessLease i) (first last : ℕ)
    (bootstrap worker credential bootstrap' worker' credential' : i.PublicKey)
    → verify i json lease bootstrap first worker credential ≡ ok tt
    → verify i json lease bootstrap' last worker' credential' ≡ ok tt
    → last < first + max_lease_ttl_seconds + max_clock_skew_seconds
verify_lifetime i json lease first last bootstrap worker credential bootstrap' worker' credential' p
      q =
    let a = (verify_sound i json lease bootstrap first worker credential p).live in
    let b = (verify_sound i json lease bootstrap' last worker' credential' q).live in
    ground (arith, a.started, b.unexpired, a.shaped.short)
