-- ===== src/Edge/Handshake.antt =====
-- The messages around a lease: the request to the bootstrap, the proof to the worker, and the
-- prelude of a stream (crates/quackgis-edge/src/lib.rs).
pub mod Domains
pub mod Accepted
pub mod Prelude
use quackgis.Base.{
  ℕ, ◌≡◌, Bool, not, ◌&&◌, ◌||◌, List, [], ◌∷◌, ◌++◌, ◌==◌, Eq, list_Eq, nat_Eq, Bytes, codes,
  Result, ok, ◌>>=◌, ◌>>◌, reject,
}
use quackgis.Edge.Protocol.{
  ProtocolError, unsupported_version, wrong_transport_endpoint, invalid_credential_proof,
  wrong_challenge, wrong_credential, protocol_not_permitted, compression_not_offered,
  ApplicationProtocol, cancellation, protocol_version,
}
use quackgis.Edge.Codec.{CompressionCodec, codec_beq, validate_compression_offers}
use quackgis.Edge.Iroh.{Iroh}
use quackgis.Edge.Messages.{
  AccessLeaseClaims, SignedAccessLease, LeaseRequest, LeaseRequestProof, EdgeChallenge,
  EdgeAuthenticate, EdgeProof, Json, StreamPrelude,
}
use quackgis.Edge.Lease.{domain_message, verify, permits}

abbrev pub lease_request_domain : Bytes
lease_request_domain = codes "quackgis/lease-request/1" ++ 0 ∷ []

abbrev pub edge_proof_domain : Bytes
edge_proof_domain = codes "quackgis/edge-proof/1" ++ 0 ∷ []

-- `EdgeChallenge::new`
unfoldable pub challenge_new : Bytes → EdgeChallenge
challenge_new nonce = record { version = protocol_version; nonce = nonce }

-- The derived `PartialEq` of `EdgeChallenge`.
abbrev pub challenge_beq : EdgeChallenge → EdgeChallenge → Bool
challenge_beq a b = a.version == b.version && list_Eq.beq a.nonce b.nonce

-- The codec that `StreamPrelude::verify` expects for a protocol.
abbrev pub expected_codec : ApplicationProtocol → CompressionCodec → CompressionCodec
expected_codec cancellation negotiated = CompressionCodec.none
expected_codec _ negotiated = negotiated

module _ (i : Iroh) where
  open i use {PublicKey, SecretKey, public, sign}

  module _ (json : Json i) where
    unfoldable pub lease_request_signing_bytes :
        PublicKey → PublicKey → PublicKey → Bytes → Result ProtocolError Bytes
    lease_request_signing_bytes credential client_transport bootstrap nonce =
        domain_message json.request_to_vec lease_request_domain (record {
          version = protocol_version;
          credential = credential;
          client_transport = client_transport;
          bootstrap = bootstrap;
          nonce = nonce;
        })

    -- `LeaseRequest::sign`
    unfoldable pub request_sign :
        SecretKey → PublicKey → PublicKey → Bytes → Result ProtocolError (LeaseRequest i)
    request_sign credential_secret client_transport bootstrap nonce = do
      bytes ←
          lease_request_signing_bytes (public credential_secret) client_transport bootstrap nonce
      ok (record {
        version = protocol_version;
        credential = public credential_secret;
        client_transport = client_transport;
        nonce = nonce;
        proof = sign credential_secret bytes;
      })

    -- `LeaseRequest::verify`
    unfoldable pub request_verify :
        LeaseRequest i → PublicKey → PublicKey → Result ProtocolError (Unit {0})
    request_verify request bootstrap remote_transport = do
      reject (not (request.version == protocol_version)) unsupported_version
      reject (not (i.key_Eq.beq request.client_transport remote_transport)) wrong_transport_endpoint
      bytes ←
          lease_request_signing_bytes request.credential request.client_transport bootstrap
            request.nonce
      reject (not (i.verify request.credential bytes request.proof)) invalid_credential_proof

    unfoldable pub edge_proof_signing_bytes : EdgeAuthenticate i → Result ProtocolError Bytes
    edge_proof_signing_bytes auth = domain_message json.proof_to_vec edge_proof_domain (record {
      version = auth.version;
      lease = auth.lease;
      client_transport = auth.client_transport;
      challenge = auth.challenge;
      compression_offers = auth.compression_offers;
    })

    -- `EdgeAuthenticate::sign`: the placeholder proof is replaced, and is no part of what is signed.
    unfoldable pub authenticate_sign :
        SignedAccessLease i
        → SecretKey
        → PublicKey
        → EdgeChallenge
        → List CompressionCodec
        → Result ProtocolError (EdgeAuthenticate i)
    authenticate_sign lease credential_secret client_transport challenge compression_offers = do
      validate_compression_offers compression_offers
      reject (not (i.key_Eq.beq lease.claims.credential (public credential_secret)))
          wrong_credential
      let auth : EdgeAuthenticate i = record {
        version = protocol_version;
        lease = lease;
        client_transport = client_transport;
        challenge = challenge;
        compression_offers = compression_offers;
        proof = sign credential_secret (codes "placeholder");
      }
      bytes ← edge_proof_signing_bytes auth
      ok (record auth { proof = sign credential_secret bytes })

    -- `EdgeAuthenticate::verify`
    unfoldable pub authenticate_verify :
        EdgeAuthenticate i
        → PublicKey
        → ℕ
        → PublicKey
        → PublicKey
        → EdgeChallenge
        → Result ProtocolError (Unit {0})
    authenticate_verify auth bootstrap_public now worker remote_transport expected_challenge = do
      reject
          (not (auth.version == protocol_version)
            || not (auth.challenge.version == protocol_version))
          unsupported_version
      reject (not (challenge_beq auth.challenge expected_challenge)) wrong_challenge
      reject (not (i.key_Eq.beq auth.client_transport remote_transport)) wrong_transport_endpoint
      validate_compression_offers auth.compression_offers
      verify i json auth.lease bootstrap_public now worker auth.lease.claims.credential
      bytes ← edge_proof_signing_bytes auth
      reject (not (i.verify auth.lease.claims.credential bytes auth.proof)) invalid_credential_proof

  -- `StreamPrelude::verify`
  unfoldable pub prelude_verify :
      StreamPrelude → AccessLeaseClaims i → CompressionCodec → Result ProtocolError (Unit {0})
  prelude_verify prelude lease negotiated = do
    reject (not (prelude.version == protocol_version)) unsupported_version
    reject (not (permits i lease prelude.protocol)) protocol_not_permitted
    reject (not (codec_beq prelude.compression (expected_codec prelude.protocol negotiated)))
        compression_not_offered
