-- ===== src/Services/Server.antt =====
-- The server of Services/src/IpcServer.cpp: its handlers, `dispatch` and the loop of `serveConnection`.
-- A handler is a function of the state of the service. The threads, the security descriptor and the
-- token of the caller are not modelled: whether the caller is an administrator is an argument. The loop
-- is given what its tests of `m_stopping` find; after the last of them the server is stopping.
pub mod Guard
pub mod Arrival
use vpn_client.Prelude.{
  ℕ, ◌==◌, Bool, true, false, not, ◌&&◌, ◌||◌, if◌then◌else◌, List, [], ◌∷◌, ◌++◌, Option, none,
  some, Bytes, codes, ℤ, pos,
}
use vpn_client.Core.Status.{ErrorCode, Status, ok_status, is_error, make, Result, value, error}
use vpn_client.Core.Json.{JsonLibrary}
use vpn_client.Services.Methods.{Method, number, to_string, requires_administrator}
use vpn_client.Services.Protocol.{
  Request, Response, encode_response, decode_request, make_success, make_error, ipc_protocol,
}
use vpn_client.Services.Hello.{encode_result}
use vpn_client.Services.Framing.{JsonText, Delivery, Answer, frame, read_frame, write_all}

abbrev pub is_hello : Method → Bool
is_hello Method.hello = true
is_hello _ = false

module _ (L : JsonLibrary) (S : Type 0) where
  pub record RequestContext : Type 0 where
    pub request : Request L
    pub caller_is_administrator : Bool
    pub connection_id : ℕ

  abbrev pub Handler : Type 0
  Handler = RequestContext → S → S × Response L

  unfoldable pub find_handler : Method → List (Method × Handler) → Option Handler
  unfolding number
  find_handler m [] = none
  find_handler m ((n, h) ∷ handlers) =
      let other = find_handler m handlers in if number n == number m then some h else other

  -- `setHandler`; `none` is a handler that is null.
  unfoldable pub set_handler :
      Method → Option Handler → List (Method × Handler) → List (Method × Handler) × Status
  unfolding find_handler to_string
  set_handler m none handlers = (handlers, make ErrorCode.invalid_argument (codes "null handler"))
  set_handler m (some h) handlers = elim (find_handler m handlers) [
    | some old ↦
        (handlers, make ErrorCode.already_exists (codes "handler already set for " ++ to_string m))
    | none ↦ ((m, h) ∷ handlers, ok_status)
  ]

  -- The server, and what it knows of a caller.
  pub record Server : Type 0 where
    pub version : Bytes
    pub uptime : ℤ
    pub handlers : List (Method × Handler)

  pub record Caller : Type 0 where
    pub is_admin : Bool
    pub connection_id : ℕ

  -- The rest of `dispatch` once `Hello` is done.
  unfoldable pub dispatch_handler : Server → Caller → Request L → S → S × Response L
  unfolding find_handler requires_administrator make_error to_string
  dispatch_handler server caller request s =
      if requires_administrator request.method && not caller.is_admin
      then (
        s,
        make_error L request.id (
            make ErrorCode.permission_denied
              (to_string request.method ++ codes " requires administrator privileges")),
      )
      else elim (find_handler request.method server.handlers) [
        | none ↦ (
          s,
          make_error L request.id (
              make ErrorCode.not_implemented (codes "no handler for " ++ to_string request.method)),
        )
        | some h ↦
            h
              (record {
                request = request;
                caller_is_administrator = caller.is_admin;
                connection_id = caller.connection_id;
              })
              s
      ]

  -- `dispatch`, with `helloDone` as it leaves it.
  unfoldable pub dispatch : Server → Caller → Request L → Bool → S → (S × Response L) × Bool
  unfolding dispatch_handler make_error make_success encode_result
  dispatch server caller request hello_done s =
      if not hello_done
      then (if not (is_hello request.method)
          then (
            (
              s,
              make_error L request.id
                  (make ErrorCode.ipc_protocol (codes "first request must be Hello")),
            ),
            false,
          )
          else (
            (
              s,
              make_success L request.id (
                  encode_result L (record {
                    protocol_version = pos ipc_protocol;
                    service_version = server.version;
                    caller_is_administrator = caller.is_admin;
                    uptime = server.uptime;
                  })),
            ),
            true,
          ))
      else (dispatch_handler server caller request s, true)

  -- What the thread of a connection sees and leaves.
  pub record Session : Type 0 where
    pub pipe : List Delivery
    pub answers : List Answer
    pub sent : Bytes
    pub hello_done : Bool
    pub ready : Bool
    pub service : S

  module _ (T : JsonText L.Json) (system_text : ℕ → Bytes) where
    -- The response to a frame.
    unfoldable pub respond : Server → Caller → L.Json → Session → (S × Response L) × Bool
    unfolding dispatch decode_request make_error
    respond server caller json session = elim (decode_request L json) [
      | error s ↦ ((session.service, make_error L 0 s), session.hello_done)
      | value request ↦ dispatch server caller request session.hello_done session.service
    ]

    -- Writing the response, and whether the loop goes on.
    unfoldable pub reply : Response L → Session → Session × Bool
    unfolding frame encode_response write_all
    reply response session = elim (frame T (encode_response L response)) [
      | error s ↦ (session, false)
      | value framed ↦
          let (status, sent, answers) = write_all system_text session.answers framed in
          let written : Session = record session {
            sent = session.sent ++ sent;
            answers = answers;
          } in
          if is_error status then (written, false) else (
            record written { ready = (response.success && session.hello_done) || session.ready },
            true,
          )
    ]

    -- A round of the loop of `serveConnection`.
    unfoldable pub serve_frame : Server → Caller → Session → Session × Bool
    unfolding read_frame respond reply
    serve_frame server caller session =
        let frame_result = read_frame system_text T session.pipe in
        elim frame_result.0 [
          | error s ↦ (record session { pipe = frame_result.1 }, false)
          | value json ↦
              let answer = respond server caller json session in
              reply answer.0.1 (record session {
                pipe = frame_result.1;
                hello_done = answer.1;
                service = answer.0.0;
              })
        ]

    unfoldable pub serve : Server → Caller → List Bool → Session → Session
    unfolding serve_frame
    serve server caller [] session = session
    serve server caller (stopping ∷ tests) session =
        let round = serve_frame server caller session in
        let rest = serve server caller tests round.0 in
        if stopping then session else if round.1 then rest else round.0
