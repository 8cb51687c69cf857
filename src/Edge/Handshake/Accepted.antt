-- ===== src/Edge/Handshake/Accepted.antt =====
-- What the bootstrap and the worker accept, and that they accept what the client signs
-- (crates/quackgis-edge/src/lib.rs).
use quackgis.Base.{
  ℕ, ◌+◌, ◌≤◌, ◌<◌, ◌≡◌, refl, ap, true, List, arith, ok, Bytes, >>=-eq-ok, Result-cases, inl, inr,
  u64_mod, beq_self, list_beq_iff, list_Eq, nat_Eq, subst, reject, not, codes,
}
use quackgis.Edge.Protocol.{protocol_version, max_clock_skew_seconds, wrong_credential}
use quackgis.Edge.Codec.{CompressionCodec, validate_compression_offers}
use quackgis.Edge.Iroh.{Iroh}
use quackgis.Edge.Messages.{
  AccessLeaseClaims, SignedAccessLease, LeaseRequest, EdgeChallenge, EdgeAuthenticate, Json,
}
use quackgis.Edge.Lease.{issue}
use quackgis.Edge.Lease.Accepted.{
  IsAcceptable, verify_sound, verify_complete, verify-issue, issue-claims,
}
use quackgis.Edge.Handshake.{
  lease_request_signing_bytes, request_sign, request_verify, edge_proof_signing_bytes,
  authenticate_sign, authenticate_verify, challenge_new, challenge_beq,
}

pub challenge_beq-eq : (a b : EdgeChallenge) → challenge_beq a b ≡ true → a ≡ b
challenge_beq-eq a b h = ground (arith, (list_beq_iff a.nonce b.nonce).0)

challenge_beq_self : (a : EdgeChallenge) → challenge_beq a a ≡ true
challenge_beq_self a = ground (arith, beq_self a.nonce)

module _ (i : Iroh) (json : Json i) where
  open i use {PublicKey, SecretKey, public, sign, verify-sign}

  -- A request that a client signs for its transport key and a bootstrap is accepted there when it
  -- comes over that transport.
  pub request_verify-sign :
      (secret : SecretKey) (transport bootstrap : PublicKey) (nonce : Bytes) (r : LeaseRequest i)
      → request_sign i json secret transport bootstrap nonce ≡ ok r
      → request_verify i json r bootstrap transport ≡ ok tt
  unfolding request_sign request_verify
  request_verify-sign secret transport bootstrap nonce r h =
      let (bytes, signing, e) =
        >>=-eq-ok (lease_request_signing_bytes i json (public secret) transport bootstrap nonce) _
          h in
      ground (arith, verify-sign secret bytes, beq_self ⦃e = i.key_Eq⦄ transport)

  -- What makes an authentication genuine, field by field, for a worker with its clock, its transport
  -- and the challenge it sent.
  pub record IsAuthentic (auth : EdgeAuthenticate i) (bootstrap : PublicKey) (now : ℕ)
      (worker transport : PublicKey) (challenge : EdgeChallenge) : Type 0 where
    pub challenged : auth.challenge ≡ challenge
    pub transport_is : auth.client_transport ≡ transport
    pub offers_ok : validate_compression_offers auth.compression_offers ≡ ok tt
    pub lease_ok : IsAcceptable i json auth.lease bootstrap now worker auth.lease.claims.credential
    pub bytes : Bytes
    pub signing_bytes : edge_proof_signing_bytes i json auth ≡ ok bytes
    pub signed : i.verify auth.lease.claims.credential bytes auth.proof ≡ true

  -- An authentication that the worker accepts answers the worker's own challenge on the transport
  -- it was made for, offers valid codecs, carries a lease that is acceptable now for this worker, and
  -- is signed by the key of the lease's client over the authentication's own signing bytes.
  pub authenticate_verify_sound :
      (auth : EdgeAuthenticate i) (bootstrap : PublicKey) (now : ℕ) (worker transport : PublicKey)
      (challenge : EdgeChallenge)
      → authenticate_verify i json auth bootstrap now worker transport challenge ≡ ok tt
      → IsAuthentic auth bootstrap now worker transport challenge
  unfolding authenticate_verify
  authenticate_verify_sound auth bootstrap now worker transport challenge h =
      elim (Result-cases (edge_proof_signing_bytes i json auth)) [
        | inl (bytes, signing) ↦ record {
          challenged = challenge_beq-eq _ _ (ground arith);
          transport_is = (i.key_Eq.beq_iff _ _).0 (ground arith);
          offers_ok = ground arith;
          lease_ok = verify_sound i json _ _ _ _ _ (ground arith);
          bytes = bytes;
          signing_bytes = signing;
          signed = ground arith;
        }
        | inr (e, fails) ↦ absurd (ground arith)
      ]

  authenticate_verify_complete :
      (auth : EdgeAuthenticate i) (bootstrap : PublicKey) (now : ℕ) (worker transport : PublicKey)
      (challenge : EdgeChallenge)
      → auth.version ≡ protocol_version
      → challenge.version ≡ protocol_version
      → IsAuthentic auth bootstrap now worker transport challenge
      → authenticate_verify i json auth bootstrap now worker transport challenge ≡ ok tt
  unfolding authenticate_verify
  authenticate_verify_complete auth bootstrap now worker transport challenge v w a = ground (
    arith,
    a.challenged,
    a.transport_is,
    v,
    w,
    challenge_beq_self challenge,
    beq_self ⦃e = i.key_Eq⦄ transport,
    a.offers_ok,
    verify_complete i json auth.lease bootstrap now worker auth.lease.claims.credential a.lease_ok,
    a.signing_bytes,
    a.signed,
  )

  -- The parts of an authentication that `authenticate_sign` makes.
  record IsSigned (auth : EdgeAuthenticate i) (lease : SignedAccessLease i) (credential : SecretKey)
      (transport : PublicKey) (challenge : EdgeChallenge) : Type 0 where
    version_is : auth.version ≡ protocol_version
    lease_is : auth.lease ≡ lease
    transport_is : auth.client_transport ≡ transport
    challenge_is : auth.challenge ≡ challenge
    offers_ok : validate_compression_offers auth.compression_offers ≡ ok tt
    credential_is : lease.claims.credential ≡ public credential
    bytes : Bytes
    signing_bytes : edge_proof_signing_bytes i json auth ≡ ok bytes
    proof_is : auth.proof ≡ sign credential bytes

  authenticate_sign-IsSigned :
      (lease : SignedAccessLease i) (credential : SecretKey) (transport : PublicKey)
      (challenge : EdgeChallenge) (offers : List CompressionCodec) {auth : EdgeAuthenticate i}
      → authenticate_sign i json lease credential transport challenge offers ≡ ok auth
      → IsSigned auth lease credential transport challenge
  unfolding authenticate_sign edge_proof_signing_bytes
  authenticate_sign-IsSigned lease credential transport challenge offers h =
      let (_, offers_ok, rest) = >>=-eq-ok (validate_compression_offers offers) _ h in
      let (_, credential_ok, later) =
        >>=-eq-ok
          (reject (not (i.key_Eq.beq lease.claims.credential (public credential))) wrong_credential)
          _ rest in
      let (bytes, signing, e) =
        >>=-eq-ok
          (edge_proof_signing_bytes i json (record {
            version = protocol_version;
            lease = lease;
            client_transport = transport;
            challenge = challenge;
            compression_offers = offers;
            proof = sign credential (codes "placeholder");
          }))
          _ later in
      subst (λ (a : EdgeAuthenticate i). IsSigned a lease credential transport challenge)
        (ground arith)
        (record {
          version_is = refl;
          lease_is = refl;
          transport_is = refl;
          challenge_is = refl;
          offers_ok = offers_ok;
          credential_is = (i.key_Eq.beq_iff _ _).0 (ground arith);
          bytes = bytes;
          signing_bytes = signing;
          proof_is = refl;
        })

  -- The whole handshake: a lease that the bootstrap issues, wrapped by the client for the worker's
  -- challenge, is accepted by the worker that the lease names while the lease lives.
  pub authenticate_verify-sign :
      (claims : AccessLeaseClaims i) (bootstrap credential : SecretKey)
      (lease : SignedAccessLease i) (now : ℕ) (transport : PublicKey) (nonce : Bytes)
      (offers : List CompressionCodec) (auth : EdgeAuthenticate i)
      → issue i json claims bootstrap ≡ ok lease
      → authenticate_sign i json lease credential transport (challenge_new nonce) offers ≡ ok auth
      → claims.issued_at_unix_seconds < u64_mod
      → claims.issued_at_unix_seconds ≤ now + max_clock_skew_seconds
      → now < claims.expires_at_unix_seconds
      → authenticate_verify i json auth
          (public bootstrap)
          now
          claims.worker.id
          transport
          (challenge_new nonce)
        ≡ ok tt
  unfolding challenge_new
  authenticate_verify-sign claims bootstrap credential lease now transport nonce offers auth issued
        signed u64 started unexpired =
      let s =
        authenticate_sign-IsSigned lease credential transport (challenge_new nonce) offers signed in
      let named : lease.claims ≡ claims = issue-claims i json claims bootstrap issued in
      let verified = verify-issue i json claims bootstrap lease now issued u64 started unexpired in
      let kept : auth.lease.claims.credential ≡ lease.claims.credential =
        ap (λ (l : SignedAccessLease i). l.claims.credential) s.lease_is in
      let held : lease.claims.credential ≡ claims.credential =
        ap (λ (c : AccessLeaseClaims i). c.credential) named in
      authenticate_verify_complete auth (public bootstrap) now claims.worker.id transport
        (challenge_new nonce) s.version_is refl
        (record {
          challenged = s.challenge_is;
          transport_is = s.transport_is;
          offers_ok = s.offers_ok;
          lease_ok =
              verify_sound i json auth.lease (public bootstrap) now claims.worker.id
                auth.lease.claims.credential (cc (s.lease_is, verified, kept, held));
          bytes = s.bytes;
          signing_bytes = s.signing_bytes;
          signed = cc (kept, s.credential_is, s.proof_is, verify-sign credential s.bytes);
        })
