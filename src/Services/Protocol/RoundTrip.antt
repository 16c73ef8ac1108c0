-- ===== src/Services/Protocol/RoundTrip.antt =====
-- Reading back the messages of Services/src/IpcProtocol.cpp.
use vpn_client.Prelude.{
  ℕ, ◌<◌, ◌^◌, ◌%◌, ◌==◌, Bool, true, false, if◌then◌else◌, List, [], some, ◌≡◌, refl, arith, Bytes,
  codes, equal, pos, negsuc, ltb→lt, ◌++◌,
}
use vpn_client.Core.Status.{ErrorCode, Status, is_ok, make, value, error}
use vpn_client.Core.Codes
use vpn_client.Core.Json
use vpn_client.Core.Json.{JsonLibrary, lookup, get-object, get-object_inner}
use vpn_client.Services.Methods.{
  number, event_number, number_fits, event_number_fits, is_known_method-number,
  is_known_event-event_number,
}
use vpn_client.Services.Protocol.{
  Request, Response, Event, encode_request, encode_response, encode_event, with_params,
  decode_request, decode_response, decode_event, make_success, make_error,
}

module _ (L : JsonLibrary) (law : Json.IsLawful L) where
  open L use {Json, object, text, boolean, is_object, as_text, as_unsigned, as_signed, as_boolean}

  -- A request whose id is not 0 and fits 64 bits, and whose parameters are an object, is read back from
  -- its document.
  pub decode_request-encode_request :
      (r : Request L)
      → (r.id == 0) ≡ false
      → r.id < 2 ^ 64
      → is_object r.params ≡ true
      → decode_request L (encode_request L r) ≡ value r
  unfolding decode_request encode_request with_params lookup equal
  decode_request-encode_request r present fits params =
      let n = number r.method in
      let small = number_fits r.method in
      rw (law.is_object-object, decode_request)
        (rw
          (get-object L law as_text _ (codes "type") (text (codes "request")) (codes "request") []
            refl (law.as_text-text (codes "request")))
          (rw
            (get-object L law (as_signed 32) _ (codes "protocol") (L.number 1) (pos 1) (pos 0) refl
              (law.as_signed-number 32 1 (omega arith)))
            (rw
              (get-object L law (as_signed 32) _ (codes "method") (L.number n) (pos n) (negsuc 0)
                refl (law.as_signed-number 32 n (ground (arith, small))))
              (rw small (
                rw (is_known_method-number r.method) (
                  rw
                    (get-object L law (as_unsigned 64) _ (codes "id") (L.number r.id) r.id 0 refl
                      (law.as_unsigned-number 64 r.id fits))
                    (rw present (rw (law.member-object, with_params) (rw params refl)))))))))

  -- An event is read back from its document.
  pub decode_event-encode_event : (e : Event L) → decode_event L (encode_event L e) ≡ value e
  unfolding decode_event encode_event lookup equal
  decode_event-encode_event e =
      let n = event_number e.kind in
      let small = event_number_fits e.kind in
      rw (law.is_object-object, decode_event)
        (rw
          (get-object L law as_text _ (codes "type") (text (codes "event")) (codes "event") [] refl
            (law.as_text-text (codes "event")))
          (rw
            (get-object L law (as_signed 32) _ (codes "event") (L.number n) (pos n) (negsuc 0) refl
              (law.as_signed-number 32 n (ground (arith, small))))
            (rw small (rw (is_known_event-event_number e.kind) (rw (law.member-object) refl)))))

  success_read :
      (id : ℕ) (result : Json)
      → id < 2 ^ 64
      → decode_response L (encode_response L (make_success L id result))
        ≡ value (make_success L id result)
  unfolding decode_response encode_response make_success lookup equal
  success_read id result fits =
      rw (law.is_object-object, decode_response)
        (rw
          (get-object L law as_text _ (codes "type") (text (codes "response")) (codes "response") []
            refl (law.as_text-text (codes "response")))
          (rw
            (get-object L law (as_unsigned 64) _ (codes "id") (L.number id) id 0 refl
              (law.as_unsigned-number 64 id fits))
            (rw
              (get-object L law as_boolean _ (codes "success") (boolean true) true false refl
                (law.as_boolean-boolean true))
              (rw law.member-object refl))))

  failure_read :
      (id code platform : ℕ) (message : Bytes)
      → id < 2 ^ 64
      → code < 2 ^ 16
      → platform < 2 ^ 32
      → let r : Response L = record {
        id = id;
        success = false;
        result = object [];
        error_code = code;
        error_message = message;
        platform_code = platform;
      } in
        decode_response L (encode_response L r) ≡ value r
  unfolding decode_response encode_response lookup equal
  failure_read id code platform message fits code_fits platform_fits =
      rw (law.is_object-object, decode_response)
        (rw
          (get-object L law as_text _ (codes "type") (text (codes "response")) (codes "response") []
            refl (law.as_text-text (codes "response")))
          (rw
            (get-object L law (as_unsigned 64) _ (codes "id") (L.number id) id 0 refl
              (law.as_unsigned-number 64 id fits))
            (rw
              (get-object L law as_boolean _ (codes "success") (boolean false) false false refl
                (law.as_boolean-boolean false))
              (rw
                (get-object_inner L law (as_signed 32) _ _ (codes "error") (codes "code")
                  (L.number code) (pos code) (pos 1) refl refl
                  (law.as_signed-number 32 code (omega (arith, code_fits))))
                (rw
                  (get-object_inner L law as_text _ _ (codes "error") (codes "message")
                    (text message) message [] refl refl (law.as_text-text message))
                  (rw
                    (get-object_inner L law (as_unsigned 32) _ _ (codes "error") (codes "platform")
                      (L.number platform) platform 0 refl refl
                      (law.as_unsigned-number 32 platform platform_fits))
                    (rw (same code code_fits) refl)))))))
    where
      same : (n : ℕ) → n < 2 ^ 16 → n % 2 ^ 16 ≡ n
      same n h = omega (arith, h)

  -- What `makeSuccess` and `makeError` build for an id that fits 64 bits, of a status whose platform code
  -- fits 32 bits, is read back from its document.
  pub decode_response-encode_response :
      (id : ℕ) (result : Json) (status : Status)
      → id < 2 ^ 64
      → status.platform_code < 2 ^ 32
      → (decode_response L (encode_response L (make_success L id result))
          ≡ value (make_success L id result))
        × (decode_response L (encode_response L (make_error L id status))
            ≡ value (make_error L id status))
  unfolding make_error
  decode_response-encode_response id result status fits platform_fits = (
    success_read id result fits,
    failure_read id (if is_ok status then 1 else Codes.number status.code) status.platform_code
        status.message fits (small (is_ok status)) platform_fits,
  )
    where
      small : (fine : Bool) → (if fine then 1 else Codes.number status.code) < 2 ^ 16
      small true = omega arith
      small false = ltb→lt (Codes.number status.code) (2 ^ 16) (Codes.number_fits status.code)

  abbrev pub refused : Bytes → Status
  refused kind = make ErrorCode.ipc_protocol (codes "frame is not " ++ kind)

  -- The decoder of one kind of message refuses the messages of the other two kinds.
  pub decode-refuses :
      (r : Request L) (s : Response L) (e : Event L)
      → ((decode_request L (encode_response L s) ≡ error (refused (codes "a request")))
          × (decode_request L (encode_event L e) ≡ error (refused (codes "a request"))))
        × ((decode_response L (encode_request L r) ≡ error (refused (codes "a response")))
            × (decode_response L (encode_event L e) ≡ error (refused (codes "a response"))))
        × ((decode_event L (encode_request L r) ≡ error (refused (codes "an event")))
            × (decode_event L (encode_response L s) ≡ error (refused (codes "an event"))))
  unfolding decode_request decode_response decode_event encode_request encode_response encode_event
      lookup equal
  decode-refuses r s e = (
    (other_request _ (codes "response") refl refl, other_request _ (codes "event") refl refl),
    (other_response _ (codes "request") refl refl, other_response _ (codes "event") refl refl),
    (other_event _ (codes "request") refl refl, other_event _ (codes "response") refl refl),
  )
    where
      other_request :
          (fields : List (Bytes × Json)) (kind : Bytes)
          → lookup (codes "type") fields ≡ some (text kind)
          → equal kind (codes "request") ≡ false
          → decode_request L (object fields) ≡ error (refused (codes "a request"))
      other_request fields kind found other =
          rw (law.is_object-object, decode_request)
            (rw
              (get-object L law as_text fields (codes "type") (text kind) kind [] found
                (law.as_text-text kind))
              (rw other refl))

      other_response :
          (fields : List (Bytes × Json)) (kind : Bytes)
          → lookup (codes "type") fields ≡ some (text kind)
          → equal kind (codes "response") ≡ false
          → decode_response L (object fields) ≡ error (refused (codes "a response"))
      other_response fields kind found other =
          rw (law.is_object-object, decode_response)
            (rw
              (get-object L law as_text fields (codes "type") (text kind) kind [] found
                (law.as_text-text kind))
              (rw other refl))

      other_event :
          (fields : List (Bytes × Json)) (kind : Bytes)
          → lookup (codes "type") fields ≡ some (text kind)
          → equal kind (codes "event") ≡ false
          → decode_event L (object fields) ≡ error (refused (codes "an event"))
      other_event fields kind found other =
          rw (law.is_object-object, decode_event)
            (rw
              (get-object L law as_text fields (codes "type") (text kind) kind [] found
                (law.as_text-text kind))
              (rw other refl))
