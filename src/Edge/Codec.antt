-- ===== src/Edge/Codec.antt =====
-- Compression negotiation: `CompressionCodec`, `CompressionPolicy`, `EdgeAuthenticated` and the
-- check on a list of offers (crates/quackgis-edge/src/lib.rs).
use quackgis.Base.{
  ℕ, ◌≡◌, ◌↔◌, Bool, true, false, not, ◌&&◌, ◌||◌, List, [], ◌∷◌, arith, ltb, ◌==◌, if◌then◌else◌,
  Eq, Result, ok, ◌>>◌, reject, length, contains, collect_set,
}
use quackgis.Edge.Protocol.{
  ProtocolError, missing_uncompressed_codec, compression_not_offered, protocol_version,
}

pub data CompressionCodec : Type 0 where
  none lz4_block : CompressionCodec

abbrev pub codec_beq : CompressionCodec → CompressionCodec → Bool
codec_beq none none = true
codec_beq lz4_block lz4_block = true
codec_beq _ _ = false

pub codec_beq_iff : (a b : CompressionCodec) → (codec_beq a b ≡ true) ↔ (a ≡ b)
codec_beq_iff a b = ground arith

instance abbrev pub codec_Eq : Eq CompressionCodec
codec_Eq = record { beq = codec_beq; beq_iff = codec_beq_iff }

pub data CompressionPolicy : Type 0 where
  off auto : CompressionPolicy

unfoldable pub validate_compression_offers : List CompressionCodec → Result ProtocolError (Unit {0})
validate_compression_offers offers =
    reject
      (not (contains offers none)
        || not (length offers == length (collect_set offers))
        || ltb 2 (length offers))
      missing_uncompressed_codec

unfoldable pub offers : CompressionPolicy → List CompressionCodec
offers off = none ∷ []
offers auto = none ∷ lz4_block ∷ []

abbrev is_auto : CompressionPolicy → Bool
is_auto off = false
is_auto auto = true

unfoldable pub select :
    CompressionPolicy → List CompressionCodec → Result ProtocolError CompressionCodec
unfolding validate_compression_offers
select policy offered = do
  validate_compression_offers offered
  ok (if is_auto policy && contains offered lz4_block then lz4_block else none)

pub record EdgeAuthenticated : Type 0 where
  pub version : ℕ
  pub compression : CompressionCodec

-- `EdgeAuthenticated::select`
unfoldable pub authenticated_select :
    CompressionCodec → List CompressionCodec → Result ProtocolError EdgeAuthenticated
unfolding validate_compression_offers
authenticated_select compression offered = do
  validate_compression_offers offered
  reject (not (contains offered compression)) compression_not_offered
  ok (record { version = protocol_version; compression = compression })
