-- ===== src/Services/Protocol.antt =====
-- The messages of Services/src/IpcProtocol.cpp. `kIpcProtocol` of Core/include/NovaVPN/Core/Version.h.in
-- is 1. A parameter or result that is absent is the empty object.
pub mod RoundTrip
pub mod Accepted
use vpn_client.Prelude.{
  ℕ, ◌%◌, ◌^◌, ◌-◌, ◌==◌, Bool, true, false, not, ◌||◌, ltb, if◌then◌else◌, List, [], ◌∷◌, ◌++◌,
  Option, none, some, Bytes, codes, equal, ℤ, pos, negsuc, suc,
}
use vpn_client.Core.Text.{to_decimal}
use vpn_client.Core.Status.{ErrorCode, Status, is_ok, make, Result, value, error}
use vpn_client.Core.Codes
use vpn_client.Core.Json.{JsonLibrary, get}
use vpn_client.Services.Methods.{
  Method, EventKind, number, event_number, is_known_method, is_known_event, to_string,
  event_to_string,
}

abbrev pub ipc_protocol : ℕ
ipc_protocol = 1

-- `std::to_string` of an `int`.
abbrev decimal : ℤ → Bytes
decimal (pos n) = to_decimal n
decimal (negsuc n) = codes "-" ++ to_decimal (suc n)

-- An `int` between 0 and 0xFFFF.
abbrev short : ℤ → Option ℕ
short (negsuc n) = none
short (pos n) = if ltb 0xFFFF n then none else some n

-- `protocol == version::kIpcProtocol`.
abbrev is_protocol : ℤ → Bool
is_protocol (pos n) = n == ipc_protocol
is_protocol (negsuc n) = false

-- `static_cast<u16>` of an `int`.
abbrev low_half : ℤ → ℕ
low_half (pos n) = n % 2 ^ 16
low_half (negsuc n) = (2 ^ 16 - suc n % 2 ^ 16) % 2 ^ 16

abbrev protocol_error : Bytes → Status
protocol_error message = make ErrorCode.ipc_protocol message

module _ (L : JsonLibrary) where
  open L use {
    Json, object, text, boolean, integer, is_object, member, as_text, as_unsigned, as_signed,
    as_boolean,
  }

  pub record Request : Type 0 where
    pub id : ℕ
    pub method : Method
    pub params : Json

  -- `errorCode` holds whatever number a peer sends.
  pub record Response : Type 0 where
    pub id : ℕ
    pub success : Bool
    pub result : Json
    pub error_code : ℕ
    pub error_message : Bytes
    pub platform_code : ℕ

  pub record Event : Type 0 where
    pub kind : EventKind
    pub payload : Json

  unfoldable pub encode_request : Request → Json
  unfolding number to_string
  encode_request r = object (
      (codes "type", text (codes "request"))
      ∷ (codes "protocol", L.number ipc_protocol)
      ∷ (codes "id", L.number r.id)
      ∷ (codes "method", L.number (number r.method))
      ∷ (codes "methodName", text (to_string r.method))
      ∷ (codes "params", r.params)
      ∷ [])

  abbrev error_object : Response → Json
  error_object r = object (
      (codes "code", L.number r.error_code)
      ∷ (codes "name", text (Codes.name_of r.error_code))
      ∷ (codes "message", text r.error_message)
      ∷ (codes "platform", L.number r.platform_code)
      ∷ [])

  unfoldable pub encode_response : Response → Json
  unfolding Codes.name_of
  encode_response r = object (
      (codes "type", text (codes "response"))
      ∷ (codes "protocol", L.number ipc_protocol)
      ∷ (codes "id", L.number r.id)
      ∷ (codes "success", boolean r.success)
      ∷ (if r.success then (codes "result", r.result) else (codes "error", error_object r))
      ∷ [])

  unfoldable pub encode_event : Event → Json
  unfolding event_number event_to_string
  encode_event e = object (
      (codes "type", text (codes "event"))
      ∷ (codes "protocol", L.number ipc_protocol)
      ∷ (codes "id", L.number 0)
      ∷ (codes "event", L.number (event_number e.kind))
      ∷ (codes "eventName", text (event_to_string e.kind))
      ∷ (codes "payload", e.payload)
      ∷ [])

  -- The checks that every decoder begins with.
  abbrev type_of : Json → Bytes
  type_of json = get L as_text json (codes "type" ∷ []) []

  -- The parameters of a request that has been read so far.
  unfoldable pub with_params : Json → ℕ → Method → Result Request
  with_params json id method = elim (member json (codes "params")) [
    | none ↦ value (record { id = id; method = method; params = object [] })
    | some params ↦
        if not (is_object params)
        then error (protocol_error (codes "params must be an object"))
        else value (record { id = id; method = method; params = params })
  ]

  unfoldable pub decode_request : Json → Result Request
  unfolding get is_known_method with_params equal
  decode_request json =
      let protocol = get L (as_signed 32) json (codes "protocol" ∷ []) (pos 0) in
      let raw = get L (as_signed 32) json (codes "method" ∷ []) (negsuc 0) in
      let id = get L (as_unsigned 64) json (codes "id" ∷ []) 0 in
      if not (is_object json)
      then error (protocol_error (codes "frame is not a JSON object"))
      else if not (equal (type_of json) (codes "request"))
      then error (protocol_error (codes "frame is not a request"))
      else if not (is_protocol protocol)
      then error (
          make ErrorCode.service_version (
            codes "client speaks protocol "
            ++ (decimal protocol ++ (codes ", service speaks " ++ to_decimal ipc_protocol))))
      else elim (short raw) [
        | none ↦ error (protocol_error (codes "request has no method"))
        | some n ↦ elim (is_known_method n) [
          | none ↦ error (protocol_error (codes "unknown method " ++ to_decimal n))
          | some method ↦
              if id == 0
              then error (protocol_error (codes "request id must be non-zero"))
              else with_params json id method
        ]
      ]

  unfoldable pub decode_response : Json → Result Response
  unfolding get equal
  decode_response json =
      let id = get L (as_unsigned 64) json (codes "id" ∷ []) 0 in
      if not (is_object json)
      then error (protocol_error (codes "frame is not a JSON object"))
      else if not (equal (type_of json) (codes "response"))
      then error (protocol_error (codes "frame is not a response"))
      else if get L as_boolean json (codes "success" ∷ []) false
      then value (record {
        id = id;
        success = true;
        result = elim (member json (codes "result")) [ none ↦ object [] | some result ↦ result ];
        error_code = 0;
        error_message = [];
        platform_code = 0;
      })
      else value (record {
        id = id;
        success = false;
        result = object [];
        error_code =
            low_half (get L (as_signed 32) json (codes "error" ∷ codes "code" ∷ []) (pos 1));
        error_message = get L as_text json (codes "error" ∷ codes "message" ∷ []) [];
        platform_code = get L (as_unsigned 32) json (codes "error" ∷ codes "platform" ∷ []) 0;
      })

  unfoldable pub decode_event : Json → Result Event
  unfolding get is_known_event equal
  decode_event json =
      let raw = get L (as_signed 32) json (codes "event" ∷ []) (negsuc 0) in
      if not (is_object json)
      then error (protocol_error (codes "frame is not a JSON object"))
      else if not (equal (type_of json) (codes "event"))
      then error (protocol_error (codes "frame is not an event"))
      else elim (short raw) [
        | none ↦ error (protocol_error (codes "event has no kind"))
        | some n ↦ elim (is_known_event n) [
          | none ↦ error (protocol_error (codes "unknown event " ++ to_decimal n))
          | some kind ↦ value (record {
            kind = kind;
            payload = elim (member json (codes "payload")) [
              | none ↦ object []
              | some payload ↦ payload
            ];
          })
        ]
      ]

  unfoldable pub make_success : ℕ → Json → Response
  make_success id result = record {
    id = id;
    success = true;
    result = result;
    error_code = 0;
    error_message = [];
    platform_code = 0;
  }

  unfoldable pub make_error : ℕ → Status → Response
  unfolding Codes.number
  make_error id status = record {
    id = id;
    success = false;
    result = object [];
    error_code = if is_ok status then 1 else Codes.number status.code;
    error_message = status.message;
    platform_code = status.platform_code;
  }
