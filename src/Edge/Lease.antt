-- ===== src/Edge/Lease.antt =====
-- Access leases: the checks on their claims, and how they are issued and verified
-- (crates/quackgis-edge/src/lib.rs).
pub mod Accepted
pub mod Lifetime
use quackgis.Base.{
  ℕ, ◌-◌, ◌≡◌, Bool, not, List, ◌++◌, ltb, leb, ◌==◌, Eq, Bytes, codes, Result, ok, err, ◌>>=◌,
  ◌>>◌, reject, map_err, saturating_add, length, contains, ◌∷◌, [],
}
use quackgis.Edge.Protocol.{
  ProtocolError, unsupported_version, invalid_lease_time, lease_too_long, lease_not_yet_valid,
  lease_expired, wrong_worker, wrong_credential, invalid_lease_signature, control_message_too_large,
  invalid_control_message, ApplicationProtocol, protocol_Eq, protocol_version,
  max_lease_ttl_seconds, max_clock_skew_seconds, max_control_message_bytes, validate_login_role,
  validate_protocols,
}
use quackgis.Edge.Iroh.{Iroh, EndpointAddr}
use quackgis.Edge.Messages.{AccessLeaseClaims, SignedAccessLease, Json}

abbrev pub lease_domain : Bytes
lease_domain = codes "quackgis/access-lease/1" ++ 0 ∷ []

-- `to_vec` is the type's `Serialize` instance.
unfoldable pub encode_control {ℓ} :
    {T : Type ℓ} → (T → Result Bytes Bytes) → T → Result ProtocolError Bytes
encode_control to_vec message = do
  encoded ← map_err invalid_control_message (to_vec message)
  reject (ltb max_control_message_bytes (length encoded)) control_message_too_large
  ok encoded

unfoldable pub domain_message {ℓ} :
    {T : Type ℓ} → (T → Result Bytes Bytes) → Bytes → T → Result ProtocolError Bytes
domain_message to_vec domain value = do
  encoded ← encode_control to_vec value
  ok (domain ++ encoded)

module _ (i : Iroh) where
  open i use {PublicKey, SecretKey, sign}

  unfoldable pub validate_shape : AccessLeaseClaims i → Result ProtocolError (Unit {0})
  validate_shape claims = do
    reject (not (claims.version == protocol_version)) unsupported_version
    validate_login_role claims.login_role
    reject (leb claims.expires_at_unix_seconds claims.issued_at_unix_seconds) invalid_lease_time
    reject
        (ltb max_lease_ttl_seconds (claims.expires_at_unix_seconds - claims.issued_at_unix_seconds))
        lease_too_long
    validate_protocols claims.protocols

  unfoldable pub validate_at : AccessLeaseClaims i → ℕ → Result ProtocolError (Unit {0})
  validate_at claims now = do
    validate_shape claims
    reject (ltb (saturating_add now max_clock_skew_seconds) claims.issued_at_unix_seconds)
        lease_not_yet_valid
    reject (leb claims.expires_at_unix_seconds now) lease_expired

  -- `AccessLeaseClaims::new`
  pub claims_new :
      PublicKey
      → List ℕ
      → EndpointAddr i
      → ℕ
      → ℕ
      → ℕ
      → List ApplicationProtocol
      → Result ProtocolError (AccessLeaseClaims i)
  claims_new credential login_role worker generation issued expires protocols = do
    let claims : AccessLeaseClaims i = record {
      version = protocol_version;
      credential = credential;
      login_role = login_role;
      worker = worker;
      assignment_generation = generation;
      security_epoch = 0;
      configuration_epoch = 0;
      issued_at_unix_seconds = issued;
      expires_at_unix_seconds = expires;
      protocols = protocols;
    }
    validate_shape claims
    ok claims

  unfoldable pub permits : AccessLeaseClaims i → ApplicationProtocol → Bool
  permits claims protocol = contains claims.protocols protocol

  module _ (json : Json i) where
    unfoldable pub lease_signing_bytes : AccessLeaseClaims i → Result ProtocolError Bytes
    lease_signing_bytes claims = domain_message json.claims_to_vec lease_domain claims

    unfoldable pub issue :
        AccessLeaseClaims i → SecretKey → Result ProtocolError (SignedAccessLease i)
    issue claims bootstrap_secret = do
      validate_shape claims
      bytes ← lease_signing_bytes claims
      ok (record { claims = claims; signature = sign bootstrap_secret bytes })

    unfoldable pub verify :
        SignedAccessLease i
        → PublicKey
        → ℕ
        → PublicKey
        → PublicKey
        → Result ProtocolError (Unit {0})
    verify lease bootstrap_public now expected_worker expected_credential = do
      bytes ← lease_signing_bytes lease.claims
      reject (not (i.verify bootstrap_public bytes lease.signature)) invalid_lease_signature
      validate_at lease.claims now
      reject (not (i.key_Eq.beq lease.claims.worker.id expected_worker)) wrong_worker
      reject (not (i.key_Eq.beq lease.claims.credential expected_credential)) wrong_credential
