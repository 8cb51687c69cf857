-- ===== src/Edge/Lease/Accepted.antt =====
-- When a lease is accepted (`AccessLeaseClaims::validate_shape`, `SignedAccessLease::issue` and
-- `verify` of crates/quackgis-edge/src/lib.rs).
use quackgis.Base.{
  ℕ, ◌+◌, ◌≤◌, ◌<◌, ◌≡◌, ◌↔◌, refl, sym, ap, true, u64_mod, arith, ok, Bytes, saturating_add,
  >>=-eq-ok, beq_self,
}
use quackgis.Edge.Protocol.{
  protocol_version, max_lease_ttl_seconds, max_clock_skew_seconds, validate_login_role,
  validate_protocols,
}
use quackgis.Edge.Iroh.{Iroh}
use quackgis.Edge.Messages.{AccessLeaseClaims, SignedAccessLease, Json}
use quackgis.Edge.Lease.{validate_shape, validate_at, lease_signing_bytes, issue, verify}

module _ (i : Iroh) where
  pub record IsShaped (claims : AccessLeaseClaims i) : Type 0 where
    pub version_is : claims.version ≡ protocol_version
    pub role_ok : validate_login_role claims.login_role ≡ ok tt
    pub ordered : claims.issued_at_unix_seconds < claims.expires_at_unix_seconds
    pub short :
        claims.expires_at_unix_seconds ≤ claims.issued_at_unix_seconds + max_lease_ttl_seconds
    pub protocols_ok : validate_protocols claims.protocols ≡ ok tt

  validate_shape_sound :
      (claims : AccessLeaseClaims i) → validate_shape i claims ≡ ok tt → IsShaped claims
  unfolding validate_shape
  validate_shape_sound claims h = record {
    version_is = ground arith;
    role_ok = ground arith;
    ordered = ground arith;
    short = ground arith;
    protocols_ok = ground arith;
  }

  validate_shape_complete :
      (claims : AccessLeaseClaims i) → IsShaped claims → validate_shape i claims ≡ ok tt
  unfolding validate_shape
  validate_shape_complete claims s = ground arith

  -- A claim set that passes the checks at a time: well shaped, at most the clock skew early, and
  -- before its expiry.
  pub record IsLive (claims : AccessLeaseClaims i) (now : ℕ) : Type 0 where
    pub shaped : IsShaped claims
    pub started : claims.issued_at_unix_seconds ≤ saturating_add now max_clock_skew_seconds
    pub unexpired : now < claims.expires_at_unix_seconds

  pub validate_at_sound :
      (claims : AccessLeaseClaims i) (now : ℕ)
      → validate_at i claims now ≡ ok tt
      → IsLive claims now
  unfolding validate_at
  validate_at_sound claims now h = record {
    shaped = validate_shape_sound claims (ground arith);
    started = ground arith;
    unexpired = ground arith;
  }

  pub validate_at_complete :
      (claims : AccessLeaseClaims i) (now : ℕ)
      → IsLive claims now
      → validate_at i claims now ≡ ok tt
  unfolding validate_at
  validate_at_complete claims now l = ground (arith, validate_shape_complete claims l.shaped)

module _ (i : Iroh) (json : Json i) where
  open i use {PublicKey, SecretKey, public, verify-sign}

  -- What `SignedAccessLease::verify` promises of a lease that it accepts.
  pub record IsAcceptable (lease : SignedAccessLease i) (bootstrap : PublicKey) (now : ℕ)
      (worker credential : PublicKey) : Type 0 where
    pub bytes : Bytes
    pub signing_bytes : lease_signing_bytes i json lease.claims ≡ ok bytes
    pub signed : i.verify bootstrap bytes lease.signature ≡ true
    pub live : IsLive i lease.claims now
    pub worker_is : lease.claims.worker.id ≡ worker
    pub credential_is : lease.claims.credential ≡ credential

  pub verify_sound :
      (lease : SignedAccessLease i) (bootstrap : PublicKey) (now : ℕ)
      (worker credential : PublicKey)
      → verify i json lease bootstrap now worker credential ≡ ok tt
      → IsAcceptable lease bootstrap now worker credential
  unfolding verify
  verify_sound lease bootstrap now worker credential h =
      let (bytes, signing, rest) = >>=-eq-ok (lease_signing_bytes i json lease.claims) _ h in
      record {
        bytes = bytes;
        signing_bytes = signing;
        signed = ground arith;
        live = validate_at_sound i lease.claims now (ground arith);
        worker_is = (i.key_Eq.beq_iff _ _).0 (ground arith);
        credential_is = (i.key_Eq.beq_iff _ _).0 (ground arith);
      }

  pub verify_complete :
      (lease : SignedAccessLease i) (bootstrap : PublicKey) (now : ℕ)
      (worker credential : PublicKey)
      → IsAcceptable lease bootstrap now worker credential
      → verify i json lease bootstrap now worker credential ≡ ok tt
  unfolding verify
  verify_complete lease bootstrap now worker credential a = rw (
    a.signing_bytes,
    a.signed,
    validate_at_complete i lease.claims now a.live,
    a.worker_is,
    a.credential_is,
    beq_self ⦃e = i.key_Eq⦄ worker,
    beq_self ⦃e = i.key_Eq⦄ credential,
  )

  -- A lease is accepted exactly when its signature verifies over its own signing bytes, its
  -- claims are live at the time, and it names the expected worker and credential.
  pub verify_iff :
      (lease : SignedAccessLease i) (bootstrap : PublicKey) (now : ℕ)
      (worker credential : PublicKey)
      → (verify i json lease bootstrap now worker credential ≡ ok tt)
        ↔ IsAcceptable lease bootstrap now worker credential
  verify_iff lease bootstrap now worker credential = (
    verify_sound lease bootstrap now worker credential,
    verify_complete lease bootstrap now worker credential,
  )

  issue_parts :
      (claims : AccessLeaseClaims i) (secret : SecretKey) {lease : SignedAccessLease i}
      → issue i json claims secret ≡ ok lease
      → (bytes : Bytes) × (lease_signing_bytes i json claims ≡ ok bytes)
        × (validate_shape i claims ≡ ok tt)
        × (record { claims = claims; signature = i.sign secret bytes } ≡ lease)
  unfolding issue
  issue_parts claims secret h =
      let (_, shape, rest) = >>=-eq-ok (validate_shape i claims) _ h in
      let (bytes, signing, last) = >>=-eq-ok (lease_signing_bytes i json claims) _ rest in
      (bytes, signing, shape, cc)

  -- A lease that the bootstrap issues is accepted, under its public key and for the worker and
  -- the credential that it names, from the clock skew before its issue until its expiry.
  pub verify-issue :
      (claims : AccessLeaseClaims i) (secret : SecretKey) (lease : SignedAccessLease i) (now : ℕ)
      → issue i json claims secret ≡ ok lease
      → claims.issued_at_unix_seconds < u64_mod
      → claims.issued_at_unix_seconds ≤ now + max_clock_skew_seconds
      → now < claims.expires_at_unix_seconds
      → verify i json lease (public secret) now claims.worker.id claims.credential ≡ ok tt
  verify-issue claims secret lease now h u64 started unexpired =
      let (bytes, signing, shape, e) = issue_parts claims secret h in
      rw (← e) (
        verify_complete _ (public secret) now claims.worker.id claims.credential (record {
          bytes = bytes;
          signing_bytes = signing;
          signed = verify-sign secret bytes;
          live = record {
            shaped = validate_shape_sound i claims shape;
            started = ground arith;
            unexpired = unexpired;
          };
          worker_is = refl;
          credential_is = refl;
        }))

  pub issue-claims :
      (claims : AccessLeaseClaims i) (secret : SecretKey) {lease : SignedAccessLease i}
      → issue i json claims secret ≡ ok lease
      → lease.claims ≡ claims
  issue-claims claims secret h =
      let (_, _, _, e) = issue_parts claims secret h in
      ap (λ (l : SignedAccessLease i). l.claims) (sym e)
