-- ===== src/Core/Codes.antt =====
-- The numbers and the names of `ErrorCode`, Core/include/NovaVPN/Core/Status.h and Core/src/Status.cpp.
use vpn_client.Prelude.{
  ℕ, ◌==◌, ltb, ◌^◌, Bool, true, false, if◌then◌else◌, not, is_empty, List, [], ◌∷◌, ◌++◌, Option,
  none, some, ◌≡◌, refl, Bytes, codes,
}
use vpn_client.Core.Text.{to_decimal}
use vpn_client.Core.Status.{ErrorCode, Status}

-- The value of an enumerator.
unfoldable pub number : ErrorCode → ℕ
number ErrorCode.ok = 0
number ErrorCode.unknown = 1
number ErrorCode.invalid_argument = 2
number ErrorCode.not_found = 3
number ErrorCode.already_exists = 4
number ErrorCode.permission_denied = 5
number ErrorCode.unavailable = 6
number ErrorCode.timeout = 7
number ErrorCode.cancelled = 8
number ErrorCode.not_implemented = 9
number ErrorCode.out_of_memory = 10
number ErrorCode.invalid_state = 11
number ErrorCode.interrupted = 12
number ErrorCode.io_error = 100
number ErrorCode.parse_error = 101
number ErrorCode.serialization_error = 102
number ErrorCode.checksum_mismatch = 103
number ErrorCode.config_invalid = 200
number ErrorCode.config_missing_field = 201
number ErrorCode.profile_invalid = 202
number ErrorCode.profile_locked = 203
number ErrorCode.auth_failed = 300
number ErrorCode.credentials_missing = 301
number ErrorCode.certificate_invalid = 302
number ErrorCode.certificate_expired = 303
number ErrorCode.signature_invalid = 304
number ErrorCode.crypto_failure = 305
number ErrorCode.integrity_violation = 306
number ErrorCode.network_unreachable = 400
number ErrorCode.dns_failure = 401
number ErrorCode.connection_refused = 402
number ErrorCode.connection_reset = 403
number ErrorCode.handshake_failed = 404
number ErrorCode.tls_error = 405
number ErrorCode.protocol_error = 406
number ErrorCode.adapter_not_found = 500
number ErrorCode.adapter_busy = 501
number ErrorCode.driver_missing = 502
number ErrorCode.driver_version = 503
number ErrorCode.tunnel_setup_failed = 504
number ErrorCode.mtu_negotiation = 505
number ErrorCode.route_conflict = 600
number ErrorCode.route_apply_failed = 601
number ErrorCode.firewall_apply_failed = 602
number ErrorCode.firewall_engine_busy = 603
number ErrorCode.split_tunnel_failed = 604
number ErrorCode.leak_detected = 605
number ErrorCode.service_unavailable = 700
number ErrorCode.service_version = 701
number ErrorCode.ipc_transport = 702
number ErrorCode.ipc_protocol = 703
number ErrorCode.ipc_peer_untrusted = 704
number ErrorCode.update_unavailable = 800
number ErrorCode.update_download = 801
number ErrorCode.update_verify = 802
number ErrorCode.update_apply = 803

-- `toString` of a code.
unfoldable pub name : ErrorCode → Bytes
name ErrorCode.ok = codes "Ok"
name ErrorCode.unknown = codes "Unknown"
name ErrorCode.invalid_argument = codes "InvalidArgument"
name ErrorCode.not_found = codes "NotFound"
name ErrorCode.already_exists = codes "AlreadyExists"
name ErrorCode.permission_denied = codes "PermissionDenied"
name ErrorCode.unavailable = codes "Unavailable"
name ErrorCode.timeout = codes "Timeout"
name ErrorCode.cancelled = codes "Cancelled"
name ErrorCode.not_implemented = codes "NotImplemented"
name ErrorCode.out_of_memory = codes "OutOfMemory"
name ErrorCode.invalid_state = codes "InvalidState"
name ErrorCode.interrupted = codes "Interrupted"
name ErrorCode.io_error = codes "IoError"
name ErrorCode.parse_error = codes "ParseError"
name ErrorCode.serialization_error = codes "SerializationError"
name ErrorCode.checksum_mismatch = codes "ChecksumMismatch"
name ErrorCode.config_invalid = codes "ConfigInvalid"
name ErrorCode.config_missing_field = codes "ConfigMissingField"
name ErrorCode.profile_invalid = codes "ProfileInvalid"
name ErrorCode.profile_locked = codes "ProfileLocked"
name ErrorCode.auth_failed = codes "AuthFailed"
name ErrorCode.credentials_missing = codes "CredentialsMissing"
name ErrorCode.certificate_invalid = codes "CertificateInvalid"
name ErrorCode.certificate_expired = codes "CertificateExpired"
name ErrorCode.signature_invalid = codes "SignatureInvalid"
name ErrorCode.crypto_failure = codes "CryptoFailure"
name ErrorCode.integrity_violation = codes "IntegrityViolation"
name ErrorCode.network_unreachable = codes "NetworkUnreachable"
name ErrorCode.dns_failure = codes "DnsFailure"
name ErrorCode.connection_refused = codes "ConnectionRefused"
name ErrorCode.connection_reset = codes "ConnectionReset"
name ErrorCode.handshake_failed = codes "HandshakeFailed"
name ErrorCode.tls_error = codes "TlsError"
name ErrorCode.protocol_error = codes "ProtocolError"
name ErrorCode.adapter_not_found = codes "AdapterNotFound"
name ErrorCode.adapter_busy = codes "AdapterBusy"
name ErrorCode.driver_missing = codes "DriverMissing"
name ErrorCode.driver_version = codes "DriverVersion"
name ErrorCode.tunnel_setup_failed = codes "TunnelSetupFailed"
name ErrorCode.mtu_negotiation = codes "MtuNegotiation"
name ErrorCode.route_conflict = codes "RouteConflict"
name ErrorCode.route_apply_failed = codes "RouteApplyFailed"
name ErrorCode.firewall_apply_failed = codes "FirewallApplyFailed"
name ErrorCode.firewall_engine_busy = codes "FirewallEngineBusy"
name ErrorCode.split_tunnel_failed = codes "SplitTunnelFailed"
name ErrorCode.leak_detected = codes "LeakDetected"
name ErrorCode.service_unavailable = codes "ServiceUnavailable"
name ErrorCode.service_version = codes "ServiceVersion"
name ErrorCode.ipc_transport = codes "IpcTransport"
name ErrorCode.ipc_protocol = codes "IpcProtocol"
name ErrorCode.ipc_peer_untrusted = codes "IpcPeerUntrusted"
name ErrorCode.update_unavailable = codes "UpdateUnavailable"
name ErrorCode.update_download = codes "UpdateDownload"
name ErrorCode.update_verify = codes "UpdateVerify"
name ErrorCode.update_apply = codes "UpdateApply"

abbrev error_codes : List ErrorCode
error_codes =
    ErrorCode.ok ∷ ErrorCode.unknown ∷ ErrorCode.invalid_argument ∷ ErrorCode.not_found
    ∷ ErrorCode.already_exists ∷ ErrorCode.permission_denied ∷ ErrorCode.unavailable
    ∷ ErrorCode.timeout ∷ ErrorCode.cancelled ∷ ErrorCode.not_implemented ∷ ErrorCode.out_of_memory
    ∷ ErrorCode.invalid_state ∷ ErrorCode.interrupted ∷ ErrorCode.io_error ∷ ErrorCode.parse_error
    ∷ ErrorCode.serialization_error ∷ ErrorCode.checksum_mismatch ∷ ErrorCode.config_invalid
    ∷ ErrorCode.config_missing_field ∷ ErrorCode.profile_invalid ∷ ErrorCode.profile_locked
    ∷ ErrorCode.auth_failed ∷ ErrorCode.credentials_missing ∷ ErrorCode.certificate_invalid
    ∷ ErrorCode.certificate_expired ∷ ErrorCode.signature_invalid ∷ ErrorCode.crypto_failure
    ∷ ErrorCode.integrity_violation ∷ ErrorCode.network_unreachable ∷ ErrorCode.dns_failure
    ∷ ErrorCode.connection_refused ∷ ErrorCode.connection_reset ∷ ErrorCode.handshake_failed
    ∷ ErrorCode.tls_error ∷ ErrorCode.protocol_error ∷ ErrorCode.adapter_not_found
    ∷ ErrorCode.adapter_busy ∷ ErrorCode.driver_missing ∷ ErrorCode.driver_version
    ∷ ErrorCode.tunnel_setup_failed ∷ ErrorCode.mtu_negotiation ∷ ErrorCode.route_conflict
    ∷ ErrorCode.route_apply_failed ∷ ErrorCode.firewall_apply_failed
    ∷ ErrorCode.firewall_engine_busy ∷ ErrorCode.split_tunnel_failed ∷ ErrorCode.leak_detected
    ∷ ErrorCode.service_unavailable ∷ ErrorCode.service_version ∷ ErrorCode.ipc_transport
    ∷ ErrorCode.ipc_protocol ∷ ErrorCode.ipc_peer_untrusted ∷ ErrorCode.update_unavailable
    ∷ ErrorCode.update_download ∷ ErrorCode.update_verify ∷ ErrorCode.update_apply ∷ []

with_number : ℕ → List ErrorCode → Option ErrorCode
unfolding number
with_number n [] = none
with_number n (c ∷ rest) = let other = with_number n rest in if number c == n then some c else other

-- The enumerator of a value, if there is one.
unfoldable pub from_number : ℕ → Option ErrorCode
unfolding with_number
from_number n = with_number n error_codes

-- `toString` of a value that is cast to the type.
unfoldable pub name_of : ℕ → Bytes
unfolding from_number name
name_of n = elim (from_number n) [ none ↦ codes "Unrecognised" | some c ↦ name c ]

-- `isTransient`.
unfoldable pub is_transient : ErrorCode → Bool
is_transient ErrorCode.unavailable = true
is_transient ErrorCode.timeout = true
is_transient ErrorCode.interrupted = true
is_transient ErrorCode.io_error = true
is_transient ErrorCode.network_unreachable = true
is_transient ErrorCode.dns_failure = true
is_transient ErrorCode.connection_refused = true
is_transient ErrorCode.connection_reset = true
is_transient ErrorCode.handshake_failed = true
is_transient ErrorCode.adapter_busy = true
is_transient ErrorCode.firewall_engine_busy = true
is_transient ErrorCode.service_unavailable = true
is_transient ErrorCode.ipc_transport = true
is_transient ErrorCode.update_download = true
is_transient _ = false

-- `Status::toString`.
unfoldable pub to_string : Status → Bytes
unfolding name to_decimal
to_string s =
    name s.code
    ++ ((if not (is_empty s.message) then codes ": " ++ s.message else [])
        ++ (if s.platform_code == 0
            then []
            else codes " (platform=" ++ (to_decimal s.platform_code ++ codes ")")))

pub from_number-number : (code : ErrorCode) → from_number (number code) ≡ some code
unfolding from_number number with_number
from_number-number ErrorCode.ok = refl
from_number-number ErrorCode.unknown = refl
from_number-number ErrorCode.invalid_argument = refl
from_number-number ErrorCode.not_found = refl
from_number-number ErrorCode.already_exists = refl
from_number-number ErrorCode.permission_denied = refl
from_number-number ErrorCode.unavailable = refl
from_number-number ErrorCode.timeout = refl
from_number-number ErrorCode.cancelled = refl
from_number-number ErrorCode.not_implemented = refl
from_number-number ErrorCode.out_of_memory = refl
from_number-number ErrorCode.invalid_state = refl
from_number-number ErrorCode.interrupted = refl
from_number-number ErrorCode.io_error = refl
from_number-number ErrorCode.parse_error = refl
from_number-number ErrorCode.serialization_error = refl
from_number-number ErrorCode.checksum_mismatch = refl
from_number-number ErrorCode.config_invalid = refl
from_number-number ErrorCode.config_missing_field = refl
from_number-number ErrorCode.profile_invalid = refl
from_number-number ErrorCode.profile_locked = refl
from_number-number ErrorCode.auth_failed = refl
from_number-number ErrorCode.credentials_missing = refl
from_number-number ErrorCode.certificate_invalid = refl
from_number-number ErrorCode.certificate_expired = refl
from_number-number ErrorCode.signature_invalid = refl
from_number-number ErrorCode.crypto_failure = refl
from_number-number ErrorCode.integrity_violation = refl
from_number-number ErrorCode.network_unreachable = refl
from_number-number ErrorCode.dns_failure = refl
from_number-number ErrorCode.connection_refused = refl
from_number-number ErrorCode.connection_reset = refl
from_number-number ErrorCode.handshake_failed = refl
from_number-number ErrorCode.tls_error = refl
from_number-number ErrorCode.protocol_error = refl
from_number-number ErrorCode.adapter_not_found = refl
from_number-number ErrorCode.adapter_busy = refl
from_number-number ErrorCode.driver_missing = refl
from_number-number ErrorCode.driver_version = refl
from_number-number ErrorCode.tunnel_setup_failed = refl
from_number-number ErrorCode.mtu_negotiation = refl
from_number-number ErrorCode.route_conflict = refl
from_number-number ErrorCode.route_apply_failed = refl
from_number-number ErrorCode.firewall_apply_failed = refl
from_number-number ErrorCode.firewall_engine_busy = refl
from_number-number ErrorCode.split_tunnel_failed = refl
from_number-number ErrorCode.leak_detected = refl
from_number-number ErrorCode.service_unavailable = refl
from_number-number ErrorCode.service_version = refl
from_number-number ErrorCode.ipc_transport = refl
from_number-number ErrorCode.ipc_protocol = refl
from_number-number ErrorCode.ipc_peer_untrusted = refl
from_number-number ErrorCode.update_unavailable = refl
from_number-number ErrorCode.update_download = refl
from_number-number ErrorCode.update_verify = refl
from_number-number ErrorCode.update_apply = refl

pub number_fits : (code : ErrorCode) → ltb (number code) (2 ^ 16) ≡ true
unfolding number
number_fits ErrorCode.ok = refl
number_fits ErrorCode.unknown = refl
number_fits ErrorCode.invalid_argument = refl
number_fits ErrorCode.not_found = refl
number_fits ErrorCode.already_exists = refl
number_fits ErrorCode.permission_denied = refl
number_fits ErrorCode.unavailable = refl
number_fits ErrorCode.timeout = refl
number_fits ErrorCode.cancelled = refl
number_fits ErrorCode.not_implemented = refl
number_fits ErrorCode.out_of_memory = refl
number_fits ErrorCode.invalid_state = refl
number_fits ErrorCode.interrupted = refl
number_fits ErrorCode.io_error = refl
number_fits ErrorCode.parse_error = refl
number_fits ErrorCode.serialization_error = refl
number_fits ErrorCode.checksum_mismatch = refl
number_fits ErrorCode.config_invalid = refl
number_fits ErrorCode.config_missing_field = refl
number_fits ErrorCode.profile_invalid = refl
number_fits ErrorCode.profile_locked = refl
number_fits ErrorCode.auth_failed = refl
number_fits ErrorCode.credentials_missing = refl
number_fits ErrorCode.certificate_invalid = refl
number_fits ErrorCode.certificate_expired = refl
number_fits ErrorCode.signature_invalid = refl
number_fits ErrorCode.crypto_failure = refl
number_fits ErrorCode.integrity_violation = refl
number_fits ErrorCode.network_unreachable = refl
number_fits ErrorCode.dns_failure = refl
number_fits ErrorCode.connection_refused = refl
number_fits ErrorCode.connection_reset = refl
number_fits ErrorCode.handshake_failed = refl
number_fits ErrorCode.tls_error = refl
number_fits ErrorCode.protocol_error = refl
number_fits ErrorCode.adapter_not_found = refl
number_fits ErrorCode.adapter_busy = refl
number_fits ErrorCode.driver_missing = refl
number_fits ErrorCode.driver_version = refl
number_fits ErrorCode.tunnel_setup_failed = refl
number_fits ErrorCode.mtu_negotiation = refl
number_fits ErrorCode.route_conflict = refl
number_fits ErrorCode.route_apply_failed = refl
number_fits ErrorCode.firewall_apply_failed = refl
number_fits ErrorCode.firewall_engine_busy = refl
number_fits ErrorCode.split_tunnel_failed = refl
number_fits ErrorCode.leak_detected = refl
number_fits ErrorCode.service_unavailable = refl
number_fits ErrorCode.service_version = refl
number_fits ErrorCode.ipc_transport = refl
number_fits ErrorCode.ipc_protocol = refl
number_fits ErrorCode.ipc_peer_untrusted = refl
number_fits ErrorCode.update_unavailable = refl
number_fits ErrorCode.update_download = refl
number_fits ErrorCode.update_verify = refl
number_fits ErrorCode.update_apply = refl
