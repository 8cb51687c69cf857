-- ===== src/Edge/Protocol.antt =====
-- The constants, errors and protocol names of crates/quackgis-edge/src/lib.rs, and the checks on
-- login roles and on lists of protocols.
use quackgis.Base.{
  ℕ, ◌*◌, ◌≡◌, ◌↔◌, Bool, true, false, not, ◌||◌, List, arith, ltb, ◌==◌, Eq, Bytes, Result, reject,
  length, any, utf8_len, is_control, collect_set,
}

abbrev pub protocol_version : ℕ
protocol_version = 1

abbrev pub max_control_message_bytes : ℕ
max_control_message_bytes = 16 * 1024

abbrev pub max_lease_ttl_seconds : ℕ
max_lease_ttl_seconds = 5 * 60

abbrev pub max_clock_skew_seconds : ℕ
max_clock_skew_seconds = 30

abbrev pub max_login_role_bytes : ℕ
max_login_role_bytes = 63

pub data ProtocolError : Type 0 where
  unsupported_version invalid_login_role invalid_lease_time lease_too_long : ProtocolError
  lease_not_yet_valid lease_expired wrong_worker wrong_credential : ProtocolError
  wrong_transport_endpoint invalid_lease_signature invalid_credential_proof : ProtocolError
  wrong_challenge invalid_application_protocols protocol_not_permitted : ProtocolError
  missing_uncompressed_codec compression_not_offered : ProtocolError
  empty_relay_list duplicate_relay control_message_too_large : ProtocolError
  invalid_relay_url invalid_control_message : Bytes → ProtocolError

pub data ApplicationProtocol : Type 0 where
  pgwire cancellation http : ApplicationProtocol

abbrev pub protocol_beq : ApplicationProtocol → ApplicationProtocol → Bool
protocol_beq pgwire pgwire = true
protocol_beq cancellation cancellation = true
protocol_beq http http = true
protocol_beq _ _ = false

pub protocol_beq_iff : (a b : ApplicationProtocol) → (protocol_beq a b ≡ true) ↔ (a ≡ b)
protocol_beq_iff a b = ground arith

instance abbrev pub protocol_Eq : Eq ApplicationProtocol
protocol_Eq = record { beq = protocol_beq; beq_iff = protocol_beq_iff }

-- A role name is the list of its characters.
unfoldable pub validate_login_role : List ℕ → Result ProtocolError (Unit {0})
validate_login_role role =
    reject
      (length role == 0
        || ltb max_login_role_bytes (utf8_len role)
        || any (λ c. c == 0 || is_control c) role)
      invalid_login_role

unfoldable pub validate_protocols : List ApplicationProtocol → Result ProtocolError (Unit {0})
validate_protocols protocols =
    reject
      (length protocols == 0
        || ltb 3 (length protocols)
        || not (length (collect_set protocols) == length protocols))
      invalid_application_protocols
