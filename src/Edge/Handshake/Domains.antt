-- ===== src/Edge/Handshake/Domains.antt =====
-- The three kinds of signed messages keep apart (crates/quackgis-edge/src/lib.rs).
use quackgis.Base.{ℕ, zero, suc, ◌≡◌, ◌≢◌, ap, [], ◌∷◌, ◌++◌, arith, ok, Bytes, Result, >>=-eq-ok}
use quackgis.Edge.Iroh.{Iroh}
use quackgis.Edge.Messages.{AccessLeaseClaims, EdgeAuthenticate, Json}
use quackgis.Edge.Lease.{encode_control, domain_message, lease_signing_bytes, lease_domain}
use quackgis.Edge.Handshake.{
  lease_request_signing_bytes, edge_proof_signing_bytes, lease_request_domain, edge_proof_domain,
}

-- The byte at a place, 0 past the end.
abbrev byte_at : ℕ → Bytes → ℕ
byte_at n [] = 0
byte_at zero (x ∷ xs) = x
byte_at (suc n) (x ∷ xs) = byte_at n xs

domain_message_prefix :
    {T : Type 0} (to_vec : T → Result Bytes Bytes) (domain : Bytes) (value : T) {m : Bytes}
    → domain_message to_vec domain value ≡ ok m
    → (body : Bytes) × (m ≡ domain ++ body)
unfolding domain_message
domain_message_prefix to_vec domain value h =
    let (body, _, e) = >>=-eq-ok (encode_control to_vec value) _ h in (body, cc)

-- The tenth byte of a message, the first after "quackgis/", tells the domains apart.
abbrev tag : Bytes → ℕ
tag = byte_at 9

module _ (i : Iroh) (json : Json i) where
  lease_tag :
      (claims : AccessLeaseClaims i) {m : Bytes}
      → lease_signing_bytes i json claims ≡ ok m
      → tag m ≡ b'a'
  unfolding lease_signing_bytes
  lease_tag claims h = ap tag (domain_message_prefix json.claims_to_vec lease_domain claims h).1

  request_tag :
      (credential transport bootstrap : i.PublicKey) (nonce : Bytes) {m : Bytes}
      → lease_request_signing_bytes i json credential transport bootstrap nonce ≡ ok m
      → tag m ≡ b'l'
  unfolding lease_request_signing_bytes
  request_tag credential transport bootstrap nonce h =
      ap tag (domain_message_prefix json.request_to_vec lease_request_domain _ h).1

  proof_tag :
      (auth : EdgeAuthenticate i) {m : Bytes}
      → edge_proof_signing_bytes i json auth ≡ ok m
      → tag m ≡ b'e'
  unfolding edge_proof_signing_bytes
  proof_tag auth h = ap tag (domain_message_prefix json.proof_to_vec edge_proof_domain _ h).1

  -- What is signed for a lease, for a lease request and for an edge proof are three different
  -- messages, whatever the serialiser makes of their contents.
  pub signing_bytes_disjoint :
      (claims : AccessLeaseClaims i) (credential transport bootstrap : i.PublicKey) (nonce : Bytes)
      (auth : EdgeAuthenticate i) {a b c : Bytes}
      → lease_signing_bytes i json claims ≡ ok a
      → lease_request_signing_bytes i json credential transport bootstrap nonce ≡ ok b
      → edge_proof_signing_bytes i json auth ≡ ok c
      → (a ≢ b) × (a ≢ c) × (b ≢ c)
  signing_bytes_disjoint claims credential transport bootstrap nonce auth p q r =
      let first = lease_tag claims p in
      let second = request_tag credential transport bootstrap nonce q in
      let third = proof_tag auth r in
      (λ e. omega (arith, ap tag e), λ e. omega (arith, ap tag e), λ e. omega (arith, ap tag e))
