-- ===== src/Edge/Negotiation.antt =====
-- Both ends agree on one codec: `CompressionPolicy::select` on the worker, from the offers of the
-- client's policy, and the answer `EdgeAuthenticated::select` (crates/quackgis-edge/src/lib.rs).
use quackgis.Base.{◌≡◌, ◌↔◌, ◌⊎◌, inl, inr, refl, List, [], ◌∷◌, arith, ok}
use quackgis.Edge.Protocol.{protocol_version}
use quackgis.Edge.Codec.{
  CompressionCodec, lz4_block, codec_Eq, CompressionPolicy, off, auto, validate_compression_offers,
  offers, select, authenticated_select,
}

-- The three lists of offers that pass the check.
abbrev pub IsOffer : List CompressionCodec → Type 0
IsOffer l =
    (l ≡ CompressionCodec.none ∷ [])
    ⊎ ((l ≡ CompressionCodec.none ∷ lz4_block ∷ []) ⊎ (l ≡ lz4_block ∷ CompressionCodec.none ∷ []))

offers_sound : (l : List CompressionCodec) → validate_compression_offers l ≡ ok tt → IsOffer l
unfolding validate_compression_offers
offers_sound [] h = cc
offers_sound (a ∷ []) h = ground arith
offers_sound (a ∷ b ∷ []) h = ground arith
offers_sound (a ∷ b ∷ c ∷ l) h = ground arith

offers_complete : (l : List CompressionCodec) → IsOffer l → validate_compression_offers l ≡ ok tt
unfolding validate_compression_offers
offers_complete l (inl e) = rw e
offers_complete l (inr (inl e)) = rw e
offers_complete l (inr (inr e)) = rw e

-- The check on offers passes exactly the two codecs without repetition, in either order, and the
-- uncompressed codec alone.
pub validate_compression_offers_iff :
    (l : List CompressionCodec) → (validate_compression_offers l ≡ ok tt) ↔ IsOffer l
validate_compression_offers_iff l = (offers_sound l, offers_complete l)

-- Whatever the two policies are, the worker selects one of the client's offers, the answer with
-- that codec is accepted, and the codec is LZ4 exactly when both policies are `auto`.
pub select-offers :
    (worker client : CompressionPolicy)
    → (c : CompressionCodec) × (select worker (offers client) ≡ ok c)
      × (authenticated_select c (offers client)
          ≡ ok (record { version = protocol_version; compression = c }))
      × ((c ≡ lz4_block) ↔ ((worker ≡ auto) × (client ≡ auto)))
unfolding select offers authenticated_select
select-offers off off = (CompressionCodec.none, refl, refl, (λ e. cc, λ e. absurd (ground arith)))
select-offers off auto = (CompressionCodec.none, refl, refl, (λ e. cc, λ e. absurd (ground arith)))
select-offers auto off = (CompressionCodec.none, refl, refl, (λ e. cc, λ e. absurd (ground arith)))
select-offers auto auto = (lz4_block, refl, refl, (λ e. (refl, refl), λ e. refl))
