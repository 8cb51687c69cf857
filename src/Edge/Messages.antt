-- ===== src/Edge/Messages.antt =====
-- The records that the edge signs and sends (crates/quackgis-edge/src/lib.rs), and the bytes that
-- serde_json makes of those that are signed.
use quackgis.Base.{ℕ, List, Bytes, Result}
use quackgis.Edge.Protocol.{ApplicationProtocol}
use quackgis.Edge.Codec.{CompressionCodec}
use quackgis.Edge.Iroh.{Iroh, EndpointAddr}

module _ (i : Iroh) where
  open i use {PublicKey, Signature}

  -- The role is the list of its characters; times are seconds in a u64.
  pub record AccessLeaseClaims : Type 0 where
    pub version : ℕ
    pub credential : PublicKey
    pub login_role : List ℕ
    pub worker : EndpointAddr i
    pub assignment_generation : ℕ
    pub security_epoch : ℕ
    pub configuration_epoch : ℕ
    pub issued_at_unix_seconds : ℕ
    pub expires_at_unix_seconds : ℕ
    pub protocols : List ApplicationProtocol

  pub record SignedAccessLease : Type 0 where
    pub claims : AccessLeaseClaims
    pub signature : Signature

  pub record LeaseRequest : Type 0 where
    pub version : ℕ
    pub credential : PublicKey
    pub client_transport : PublicKey
    pub nonce : Bytes
    pub proof : Signature

  pub record LeaseRequestProof : Type 0 where
    pub version : ℕ
    pub credential : PublicKey
    pub client_transport : PublicKey
    pub bootstrap : PublicKey
    pub nonce : Bytes

pub record EdgeChallenge : Type 0 where
  pub version : ℕ
  pub nonce : Bytes

module _ (i : Iroh) where
  open i use {PublicKey, Signature}

  pub record EdgeAuthenticate : Type 0 where
    pub version : ℕ
    pub lease : SignedAccessLease i
    pub client_transport : PublicKey
    pub challenge : EdgeChallenge
    pub compression_offers : List CompressionCodec
    pub proof : Signature

  pub record EdgeProof : Type 0 where
    pub version : ℕ
    pub lease : SignedAccessLease i
    pub client_transport : PublicKey
    pub challenge : EdgeChallenge
    pub compression_offers : List CompressionCodec

  -- `serde_json::to_vec` at the three types that are signed, with the error's text.
  pub record Json : Type 0 where
    pub claims_to_vec : AccessLeaseClaims i → Result Bytes Bytes
    pub request_to_vec : LeaseRequestProof i → Result Bytes Bytes
    pub proof_to_vec : EdgeProof → Result Bytes Bytes

pub record StreamPrelude : Type 0 where
  pub version : ℕ
  pub protocol : ApplicationProtocol
  pub compression : CompressionCodec
