-- ===== src/Services/Hello.antt =====
-- The payload of `Hello`, Services/src/IpcProtocol.cpp.
use vpn_client.Prelude.{
  ◌==◌, Bool, true, false, if◌then◌else◌, [], ◌∷◌, ◌≡◌, refl, Bytes, codes, equal, ℤ, pos, negsuc,
}
use vpn_client.Core.Status.{ErrorCode, make, Result, value, error}
use vpn_client.Core.Json.{JsonLibrary, IsLawful, fits, get, lookup, get-object}

abbrev pub is_zero : ℤ → Bool
is_zero (pos n) = n == 0
is_zero (negsuc n) = false

pub record HelloParams : Type 0 where
  pub protocol_version : ℤ
  pub client_version : Bytes
  pub client_name : Bytes

pub record HelloResult : Type 0 where
  pub protocol_version : ℤ
  pub service_version : Bytes
  pub caller_is_administrator : Bool
  pub uptime : ℤ

module _ (L : JsonLibrary) where
  open L use {Json, object, text, boolean, integer, as_text, as_signed, as_boolean}

  unfoldable pub encode_params : HelloParams → Json
  encode_params p = object (
      (codes "protocolVersion", integer p.protocol_version)
      ∷ (codes "clientVersion", text p.client_version)
      ∷ (codes "clientName", text p.client_name)
      ∷ [])

  unfoldable pub decode_params : Json → Result HelloParams
  unfolding get
  decode_params json =
      let version = get L (as_signed 32) json (codes "protocolVersion" ∷ []) (pos 0) in
      if is_zero version
      then error (make ErrorCode.ipc_protocol (codes "hello is missing protocolVersion"))
      else value (record {
        protocol_version = version;
        client_version = get L as_text json (codes "clientVersion" ∷ []) [];
        client_name = get L as_text json (codes "clientName" ∷ []) [];
      })

  unfoldable pub encode_result : HelloResult → Json
  encode_result r = object (
      (codes "protocolVersion", integer r.protocol_version)
      ∷ (codes "serviceVersion", text r.service_version)
      ∷ (codes "callerIsAdministrator", boolean r.caller_is_administrator)
      ∷ (codes "uptimeSeconds", integer r.uptime)
      ∷ [])

  unfoldable pub decode_result : Json → Result HelloResult
  unfolding get
  decode_result json =
      let version = get L (as_signed 32) json (codes "protocolVersion" ∷ []) (pos 0) in
      if is_zero version
      then error (make ErrorCode.ipc_protocol (codes "hello result is missing protocolVersion"))
      else value (record {
        protocol_version = version;
        service_version = get L as_text json (codes "serviceVersion" ∷ []) [];
        caller_is_administrator = get L as_boolean json (codes "callerIsAdministrator" ∷ []) false;
        uptime = get L (as_signed 64) json (codes "uptimeSeconds" ∷ []) (pos 0);
      })

  -- A payload whose version is not 0, and whose numbers fit their types, is read back.
  pub decode_params-encode_params :
      (law : IsLawful L) (p : HelloParams)
      → is_zero p.protocol_version ≡ false
      → fits 32 p.protocol_version ≡ true
      → decode_params (encode_params p) ≡ value p
  unfolding decode_params encode_params lookup equal
  decode_params-encode_params law p present small =
      rw
        (
          get-object L law (as_signed 32) _ (codes "protocolVersion") (integer p.protocol_version)
              p.protocol_version (pos 0) refl (law.as_signed-integer 32 p.protocol_version small),
          decode_params,
        )
        (rw present (
          rw
            (get-object L law as_text _ (codes "clientVersion") (text p.client_version)
              p.client_version [] refl (law.as_text-text p.client_version))
            (rw
              (get-object L law as_text _ (codes "clientName") (text p.client_name) p.client_name []
                refl (law.as_text-text p.client_name))
              refl)))

  pub decode_result-encode_result :
      (law : IsLawful L) (r : HelloResult)
      → is_zero r.protocol_version ≡ false
      → fits 32 r.protocol_version ≡ true
      → fits 64 r.uptime ≡ true
      → decode_result (encode_result r) ≡ value r
  unfolding decode_result encode_result lookup equal
  decode_result-encode_result law r present small soon =
      rw
        (
          get-object L law (as_signed 32) _ (codes "protocolVersion") (integer r.protocol_version)
              r.protocol_version (pos 0) refl (law.as_signed-integer 32 r.protocol_version small),
          decode_result,
        )
        (rw present (
          rw
            (get-object L law as_text _ (codes "serviceVersion") (text r.service_version)
              r.service_version [] refl (law.as_text-text r.service_version))
            (rw
              (get-object L law as_boolean _ (codes "callerIsAdministrator")
                (boolean r.caller_is_administrator) r.caller_is_administrator false refl
                (law.as_boolean-boolean r.caller_is_administrator))
              (rw
                (get-object L law (as_signed 64) _ (codes "uptimeSeconds") (integer r.uptime)
                  r.uptime (pos 0) refl (law.as_signed-integer 64 r.uptime soon))
                refl))))
