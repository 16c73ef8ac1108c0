-- ===== src/Services/Server/Arrival.antt =====
-- A request that a client frames reaches `dispatch` of Services/src/IpcServer.cpp.
use vpn_client.Prelude.{ℕ, ◌==◌, ◌<◌, ◌^◌, true, false, List, ◌++◌, ◌≡◌, refl, ap, ◌∙◌, Bytes}
use vpn_client.Core.Status.{Result, value}
use vpn_client.Core.Json
use vpn_client.Core.Json.{JsonLibrary}
use vpn_client.Services.Protocol.{Request, encode_request}
use vpn_client.Services.Protocol.RoundTrip.{decode_request-encode_request}
use vpn_client.Services.Framing.{JsonText, IsFaithful, Delivery, frame, read_frame}
use vpn_client.Services.Framing.Stream.{
  stream, IsFlowing, take_frame, read_frame-Matches, take_frame-frame,
}
use vpn_client.Services.Server.{Server, Caller, dispatch, Session, respond, reply, serve_frame}

module _ (L : JsonLibrary) (law : Json.IsLawful L) (T : JsonText L.Json) (faithful : IsFaithful T)
    (system_text : ℕ → Bytes) (S : Type 0) (server : Server L S) (caller : Caller L S) where
  -- Where the bytes of a pipe begin with the frame of a request whose id is not 0 and fits 64 bits and
  -- whose parameters are an object, a round of the server dispatches just that request and replies with
  -- the response, however the bytes are split into reads that each bring at least one. The bytes after
  -- the frame are left in the pipe.
  pub serve_frame-dispatch :
      (request : Request L) (framed more : Bytes) (session : Session L S)
      → (request.id == 0) ≡ false
      → request.id < 2 ^ 64
      → L.is_object request.params ≡ true
      → frame T (encode_request L request) ≡ value framed
      → IsFlowing session.pipe
      → stream session.pipe ≡ framed ++ more
      → (rest : List Delivery) × (stream rest ≡ more)
        × IsFlowing rest
        × (serve_frame L S T system_text server caller session ≡ (
            let answer = dispatch L S server caller request session.hello_done session.service in
            reply L S T system_text answer.0.1
              (record session { pipe = rest; hello_done = answer.1; service = answer.0.0 })))
  unfolding serve_frame respond
  serve_frame-dispatch request framed more session present fits params made flowing begins =
      let m = read_frame-Matches system_text T session.pipe flowing in
      let whole : take_frame system_text T (stream session.pipe)
          ≡ (value (encode_request L request), more) =
        ap (take_frame system_text T) begins
        ∙ take_frame-frame system_text T faithful (encode_request L request) framed more made in
      let arrived : (read_frame system_text T session.pipe).0 ≡ value (encode_request L request) =
        m.result ∙ ap (λ (p : Result L.Json × Bytes). p.0) whole in
      (
        (read_frame system_text T session.pipe).1,
        m.rest ∙ ap (λ (p : Result L.Json × Bytes). p.1) whole,
        m.flowing,
        rw (arrived, serve_frame)
            (rw (decode_request-encode_request L law request present fits params, respond) refl),
      )
