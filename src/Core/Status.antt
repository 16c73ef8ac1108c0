-- ===== src/Core/Status.antt =====
-- Core/include/NovaVPN/Core/Status.h, Core/src/Status.cpp and Core/include/NovaVPN/Core/Result.h.
use vpn_client.Prelude.{
  ℕ, Bool, true, false, not, if◌then◌else◌, is_empty, [], ◌++◌, Bytes, codes, ◌≡◌, refl, ap,
  Bool-cases, inl, inr,
}

pub data ErrorCode : Type 0 where
  ok unknown invalid_argument not_found already_exists permission_denied unavailable : ErrorCode
  timeout cancelled not_implemented out_of_memory invalid_state interrupted : ErrorCode
  io_error parse_error serialization_error checksum_mismatch : ErrorCode
  config_invalid config_missing_field profile_invalid profile_locked : ErrorCode
  auth_failed credentials_missing certificate_invalid certificate_expired : ErrorCode
  signature_invalid crypto_failure integrity_violation : ErrorCode
  network_unreachable dns_failure connection_refused connection_reset : ErrorCode
  handshake_failed tls_error protocol_error : ErrorCode
  adapter_not_found adapter_busy driver_missing driver_version tunnel_setup_failed : ErrorCode
  mtu_negotiation : ErrorCode
  route_conflict route_apply_failed firewall_apply_failed firewall_engine_busy : ErrorCode
  split_tunnel_failed leak_detected : ErrorCode
  service_unavailable service_version ipc_transport ipc_protocol ipc_peer_untrusted : ErrorCode
  update_unavailable update_download update_verify update_apply : ErrorCode

abbrev pub is_ok_code : ErrorCode → Bool
is_ok_code ErrorCode.ok = true
is_ok_code _ = false

pub record Status : Type 0 where
  pub code : ErrorCode
  pub message : Bytes
  pub platform_code : ℕ

-- `Status::ok()`.
abbrev pub ok_status : Status
ok_status = record { code = ErrorCode.ok; message = []; platform_code = 0 }

abbrev pub is_ok : Status → Bool
is_ok s = is_ok_code s.code

abbrev pub is_error : Status → Bool
is_error s = not (is_ok s)

-- `Status::withContext`.
unfoldable pub with_context : Bytes → Status → Status
with_context context s = if is_ok s then s else record s {
  message = if not (is_empty s.message) then context ++ (codes ": " ++ s.message) else context;
}

pub is_error-with_context :
    (context : Bytes) (s : Status) → is_error (with_context context s) ≡ is_error s
unfolding with_context
is_error-with_context context s = elim (Bool-cases (is_ok s)) [
  | inl fine ↦ rw (fine, with_context) (ap not fine)
  | inr failed ↦ rw (failed, with_context) (ap not failed)
]

-- `err::make` and the factories over it.
abbrev pub make : ErrorCode → Bytes → Status
make code message = record { code = code; message = message; platform_code = 0 }

-- `Result<T>`: a value, or a status that is an error.
pub data Result {ℓ} (A : Type ℓ) : Type ℓ where
  value : A → Result A
  error : Status → Result A

-- NOVA_ASSIGN_OR_RETURN.
infixl 5 ◌>>=◌
abbrev pub ◌>>=◌ {ℓ κ} : {A : Type ℓ} {B : Type κ} → Result A → (A → Result B) → Result B
value a >>= f = f a
error s >>= f = error s

pub bind-eq-value {ℓ κ} :
    {A : Type ℓ} {B : Type κ} (m : Result A) (f : A → Result B) {b : B}
    → (m >>= f) ≡ value b
    → (a : A) × (m ≡ value a) × (f a ≡ value b)
bind-eq-value (value a) f h = (a, refl, h)
bind-eq-value (error s) f h = cc
