-- ===== src/Edge/Handshake/Prelude.antt =====
-- Which streams a worker accepts (`StreamPrelude::verify` of crates/quackgis-edge/src/lib.rs).
use quackgis.Base.{◌≡◌, ◌↔◌, true, arith, ok}
use quackgis.Edge.Protocol.{protocol_version}
use quackgis.Edge.Codec.{CompressionCodec, codec_beq_iff}
use quackgis.Edge.Iroh.{Iroh}
use quackgis.Edge.Messages.{AccessLeaseClaims, StreamPrelude}
use quackgis.Edge.Lease.{permits}
use quackgis.Edge.Handshake.{prelude_verify, expected_codec}

module _ (i : Iroh) where
  -- A stream is accepted exactly when its version is current, the lease permits its protocol, and
  -- its codec is the negotiated one, or none at all for a cancellation.
  pub prelude_verify_iff :
      (prelude : StreamPrelude) (claims : AccessLeaseClaims i) (negotiated : CompressionCodec)
      → (prelude_verify i prelude claims negotiated ≡ ok tt) ↔ (
          (prelude.version ≡ protocol_version)
          × (permits i claims prelude.protocol ≡ true)
          × (prelude.compression ≡ expected_codec prelude.protocol negotiated))
  unfolding prelude_verify
  prelude_verify_iff prelude claims negotiated = (
    λ h. (ground arith, ground arith, (codec_beq_iff _ _).0 (ground arith)),
    λ (v, p, c). ground (
      arith,
      (codec_beq_iff prelude.compression (expected_codec prelude.protocol negotiated)).1 c,
    ),
  )
