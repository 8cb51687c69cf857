-- ===== src/Tests/Edge.antt =====
-- The edge protocol at concrete keys, a concrete serialiser and concrete leases.
use quackgis.Base.{
  ℕ, ◌≡◌, ◌≢◌, ◌↔◌, refl, [], ◌∷◌, ◌++◌, arith, ok, err, Bytes, codes, nat_Eq, list_Eq, beq_self,
}
use quackgis.Edge.Protocol.{
  pgwire, cancellation, lease_expired, wrong_worker, validate_login_role, validate_protocols,
  protocol_Eq,
}
use quackgis.Edge.Codec.{CompressionCodec, lz4_block, validate_compression_offers, codec_Eq}
use quackgis.Edge.Iroh.{Iroh}
use quackgis.Edge.Messages.{
  AccessLeaseClaims, SignedAccessLease, LeaseRequest, EdgeAuthenticate, Json, StreamPrelude,
}
use quackgis.Edge.Lease.{
  validate_shape, validate_at, encode_control, domain_message, lease_signing_bytes, issue, verify,
  permits, lease_domain,
}
use quackgis.Edge.Lease.Accepted.{IsAcceptable, verify_iff}
use quackgis.Edge.Handshake.{
  challenge_new, lease_request_signing_bytes, request_sign, edge_proof_signing_bytes,
  authenticate_sign, authenticate_verify, prelude_verify, lease_request_domain, edge_proof_domain,
}
use quackgis.Edge.Handshake.Domains.{signing_bytes_disjoint}
use quackgis.Edge.Handshake.Accepted.{
  IsAuthentic, authenticate_verify_sound, authenticate_verify-sign,
}

-- Keys are numbers, and a signature is the key in front of the message.
abbrev toy : Iroh
toy = record {
  PublicKey = ℕ;
  SecretKey = ℕ;
  Signature = Bytes;
  Addresses = ℕ;
  key_Eq = nat_Eq;
  public = λ s. s;
  sign = λ s m. s ∷ m;
  verify = λ k m g. list_Eq.beq g (k ∷ m);
  verify-sign = λ s m. beq_self (s ∷ m);
}

abbrev toy_json : Json toy
toy_json = record {
  claims_to_vec = λ c. ok (c.version ∷ c.credential ∷ c.issued_at_unix_seconds ∷ []);
  request_to_vec = λ r. ok (r.credential ∷ r.bootstrap ∷ r.nonce);
  proof_to_vec = λ p. ok (p.version ∷ p.client_transport ∷ p.challenge.nonce);
}

-- Bootstrap key 1, credential 2, worker 3, transport 4.
abbrev claims : AccessLeaseClaims toy
claims = record {
  version = 1;
  credential = 2;
  login_role = codes "reader";
  worker = record { id = 3; addrs = 0 };
  assignment_generation = 7;
  security_epoch = 0;
  configuration_epoch = 0;
  issued_at_unix_seconds = 1000;
  expires_at_unix_seconds = 1060;
  protocols = pgwire ∷ cancellation ∷ [];
}

abbrev lease : SignedAccessLease toy
lease = record { claims = claims; signature = 1 ∷ (lease_domain ++ (1 ∷ 2 ∷ 1000 ∷ [])) }

issued : issue toy toy_json claims 1 ≡ ok lease
unfolding issue validate_shape lease_signing_bytes domain_message encode_control validate_login_role
    validate_protocols
issued = refl

verified : verify toy toy_json lease 1 1059 3 2 ≡ ok tt
unfolding verify validate_at validate_shape lease_signing_bytes domain_message encode_control
    validate_login_role validate_protocols
verified = refl

expired : verify toy toy_json lease 1 1060 3 2 ≡ err lease_expired
unfolding verify validate_at validate_shape lease_signing_bytes domain_message encode_control
    validate_login_role validate_protocols
expired = refl

other_worker : verify toy toy_json lease 1 1020 5 2 ≡ err wrong_worker
unfolding verify validate_at validate_shape lease_signing_bytes domain_message encode_control
    validate_login_role validate_protocols
other_worker = refl

verify_iff_example :
    (verify toy toy_json lease 1 1020 3 2 ≡ ok tt) ↔ IsAcceptable toy toy_json lease 1 1020 3 2
verify_iff_example = verify_iff toy toy_json lease 1 1020 3 2

abbrev request : LeaseRequest toy
request = record {
  version = 1;
  credential = 2;
  client_transport = 4;
  nonce = 9 ∷ [];
  proof = 2 ∷ (lease_request_domain ++ (2 ∷ 1 ∷ 9 ∷ []));
}

requested : request_sign toy toy_json 2 4 1 (9 ∷ []) ≡ ok request
unfolding request_sign lease_request_signing_bytes domain_message encode_control
requested = refl

abbrev auth : EdgeAuthenticate toy
auth = record {
  version = 1;
  lease = lease;
  client_transport = 4;
  challenge = record { version = 1; nonce = 8 ∷ [] };
  compression_offers = CompressionCodec.none ∷ lz4_block ∷ [];
  proof = 2 ∷ (edge_proof_domain ++ (1 ∷ 4 ∷ 8 ∷ []));
}

authenticated :
    authenticate_sign toy toy_json lease 2 4
      (challenge_new (8 ∷ []))
      (CompressionCodec.none ∷ lz4_block ∷ [])
    ≡ ok auth
unfolding authenticate_sign edge_proof_signing_bytes domain_message encode_control challenge_new
    validate_compression_offers
authenticated = refl

authenticate_verify-sign_example :
    authenticate_verify toy toy_json auth 1 1020 3 4 (challenge_new (8 ∷ [])) ≡ ok tt
authenticate_verify-sign_example =
    authenticate_verify-sign toy toy_json claims 1 2 lease 1020 4 (8 ∷ [])
      (CompressionCodec.none ∷ lz4_block ∷ []) auth issued authenticated (omega arith) (omega arith)
      (omega arith)

authenticate_verify_sound_example :
    IsAuthentic toy toy_json auth 1 1020 3 4 (challenge_new (8 ∷ []))
authenticate_verify_sound_example =
    authenticate_verify_sound toy toy_json auth 1 1020 3 4 (challenge_new (8 ∷ []))
      authenticate_verify-sign_example

signing_bytes_disjoint_example :
    (lease_domain ++ (1 ∷ 2 ∷ 1000 ∷ []) ≢ lease_request_domain ++ (2 ∷ 1 ∷ 9 ∷ []))
    × (lease_domain ++ (1 ∷ 2 ∷ 1000 ∷ []) ≢ edge_proof_domain ++ (1 ∷ 4 ∷ 8 ∷ []))
    × (lease_request_domain ++ (2 ∷ 1 ∷ 9 ∷ []) ≢ edge_proof_domain ++ (1 ∷ 4 ∷ 8 ∷ []))
unfolding lease_signing_bytes lease_request_signing_bytes edge_proof_signing_bytes domain_message
    encode_control
signing_bytes_disjoint_example =
    signing_bytes_disjoint toy toy_json claims 2 4 1 (9 ∷ []) auth refl refl refl

abbrev cancel_stream : StreamPrelude
cancel_stream = record { version = 1; protocol = cancellation; compression = CompressionCodec.none }

cancellation_uncompressed : prelude_verify toy cancel_stream claims lz4_block ≡ ok tt
unfolding prelude_verify permits
cancellation_uncompressed = refl
