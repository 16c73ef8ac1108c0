-- ===== src/Services/Server/Guard.antt =====
-- What a caller of the server of Services/src/IpcServer.cpp can reach.
use vpn_client.Prelude.{
  ◌⊎◌, ap, ℕ, Bool, true, false, not, ◌&&◌, ◌||◌, if◌then◌else◌, List, [], ◌∷◌, Option, none, some,
  ◌≡◌, refl, sym, subst, ◌∙◌, arith, Bytes, Bool-cases, inl, inr,
}
use vpn_client.Core.Status.{is_error, Result, value, error}
use vpn_client.Core.Json.{JsonLibrary}
use vpn_client.Services.Methods.{Method, requires_administrator}
use vpn_client.Services.Protocol.{Request, Response, decode_request, encode_response}
use vpn_client.Services.Framing.{JsonText, frame, read_frame, write_all}
use vpn_client.Services.Server.{
  Handler, RequestContext, find_handler, Server, Caller, dispatch_handler, dispatch, Session,
  respond, reply, serve_frame, serve, is_hello,
}

-- The four methods that change how the traffic of the whole machine is treated, or install code.
abbrev pub IsPrivileged : Method → Type 0
IsPrivileged m =
    (m ≡ Method.set_routing_policy)
    ⊎ (m ≡ Method.set_split_tunnel_config)
    ⊎ (m ≡ Method.set_firewall_policy)
    ⊎ (m ≡ Method.install_update)

ungated : (m : Method) → requires_administrator m ≡ false → ¬ IsPrivileged m
unfolding requires_administrator
ungated m h (inl e) = absurd (cc (h, ap requires_administrator e))
ungated m h (inr (inl e)) = absurd (cc (h, ap requires_administrator e))
ungated m h (inr (inr (inl e))) = absurd (cc (h, ap requires_administrator e))
ungated m h (inr (inr (inr e))) = absurd (cc (h, ap requires_administrator e))

open_methods :
    (m : Method) (admin : Bool)
    → (requires_administrator m && not admin) ≡ false
    → admin ≡ false
    → ¬ IsPrivileged m
open_methods m admin h user = ungated m (ground arith)

module _ (L : JsonLibrary) (S : Type 0) (server : Server L S) (caller : Caller L S)
    (P : S → Type 0) where
  -- Every handler keeps `P` that the caller may reach: any for an administrator, and else those of the
  -- methods that are not privileged.
  abbrev pub IsKept : Type 0
  IsKept =
      (m : Method) (h : Handler L S)
      → find_handler L S m server.handlers ≡ some h
      → (caller.is_admin ≡ false → ¬ IsPrivileged m)
      → (context : RequestContext L S) (s : S) → P s
      → P (h context s).0

  dispatch_handler-keeps :
      (request : Request L) (s : S)
      → IsKept
      → P s
      → P (dispatch_handler L S server caller request s).0
  unfolding dispatch_handler
  dispatch_handler-keeps request s kept p =
      elim (Bool-cases (requires_administrator request.method && not caller.is_admin)) [
        | inl denied ↦ rw (denied, dispatch_handler) p
        | inr open_to ↦ go (find_handler L S request.method server.handlers) refl open_to
      ]
    where
      go :
          (found : Option (Handler L S))
          → find_handler L S request.method server.handlers ≡ found
          → (requires_administrator request.method && not caller.is_admin) ≡ false
          → P (dispatch_handler L S server caller request s).0
      go none absent open_to = rw (open_to, dispatch_handler) (rw absent p)
      go (some h) present open_to =
          rw (open_to, dispatch_handler)
            (rw present (
              kept request.method h present (open_methods request.method caller.is_admin open_to) _
                s p))

  -- The state of the service is the one before, if `Hello` was not done, and has `P`.
  record IsGuarded (done after : Bool) (s t : S) : Type 0 where
    keeps : P t
    waits : done ≡ false → t ≡ s
    stays : done ≡ true → after ≡ true

  dispatch-IsGuarded :
      (request : Request L) (done : Bool) (s : S)
      → IsKept
      → P s
      → IsGuarded done
          (dispatch L S server caller request done s).1
          s
          (dispatch L S server caller request done s).0.0
  unfolding dispatch
  dispatch-IsGuarded request true s kept p = record {
    keeps = dispatch_handler-keeps request s kept p;
    waits = λ h. absurd (cc (h));
    stays = λ h. refl;
  }
  dispatch-IsGuarded request false s kept p = elim (Bool-cases (is_hello request.method)) [
    | inl hello ↦ rw (hello, dispatch) (record { keeps = p; waits = λ h. refl; stays = λ h. refl })
    | inr other ↦
        rw (other, dispatch) (record { keeps = p; waits = λ h. refl; stays = λ h. absurd (cc (h)) })
  ]

  module _ (T : JsonText L.Json) (system_text : ℕ → Bytes) where
    respond-IsGuarded :
        (json : L.Json) (session : Session L S)
        → IsKept
        → P session.service
        → IsGuarded session.hello_done
            (respond L S T system_text server caller json session).1
            session.service
            (respond L S T system_text server caller json session).0.0
    unfolding respond
    respond-IsGuarded json session kept p = go (decode_request L json) refl
      where
        go :
            (decoded : Result (Request L))
            → decode_request L json ≡ decoded
            → IsGuarded session.hello_done
                (respond L S T system_text server caller json session).1
                session.service
                (respond L S T system_text server caller json session).0.0
        go (error e) refused =
            rw (refused, respond) (record { keeps = p; waits = λ h. refl; stays = λ h. h })
        go (value request) made =
            rw (made, respond)
              (dispatch-IsGuarded request session.hello_done session.service kept p)

    -- Replying touches neither the service nor whether `Hello` is done, and readiness comes after it.
    record IsReply (session after : Session L S) : Type 0 where
      service : after.service ≡ session.service
      hello : after.hello_done ≡ session.hello_done
      ready : after.ready ≡ true → (session.hello_done || session.ready) ≡ true

    reply-IsReply :
        (response : Response L) (session : Session L S)
        → IsReply session (reply L S T system_text response session).0
    unfolding reply
    reply-IsReply response session = go (frame T (encode_response L response)) refl
      where
        go :
            (framed : Result Bytes)
            → frame T (encode_response L response) ≡ framed
            → IsReply session (reply L S T system_text response session).0
        go (error e) failed =
            rw (failed, reply)
              (record { service = refl; hello = refl; ready = λ h. ground (arith, h) })
        go (value bytes) made =
            elim (Bool-cases (is_error (write_all system_text session.answers bytes).0)) [
              | inl broken ↦
                  rw (made, reply)
                    (rw broken
                      (record { service = refl; hello = refl; ready = λ h. ground (arith, h) }))
              | inr fine ↦
                  rw (made, reply)
                    (rw fine
                      (record { service = refl; hello = refl; ready = λ h. ground (arith, h) }))
            ]

    -- What is true of a session and one that it has become.
    pub record IsServed (session after : Session L S) : Type 0 where
      pub keeps : P after.service
      pub waits : after.hello_done ≡ false → after.service ≡ session.service
      pub stays : session.hello_done ≡ true → after.hello_done ≡ true
      pub ready : after.ready ≡ true → after.hello_done ≡ true

    IsServed-refl :
        (session : Session L S)
        → P session.service
        → (session.ready ≡ true → session.hello_done ≡ true)
        → IsServed session session
    IsServed-refl session p r = record { keeps = p; waits = λ h. refl; stays = λ h. h; ready = r }

    IsServed-trans : (a b c : Session L S) → IsServed a b → IsServed b c → IsServed a c
    IsServed-trans a b c h k = record {
      keeps = k.keeps;
      waits = λ late. elim (Bool-cases b.hello_done) [
        | inl done ↦ absurd (cc (late, k.stays done))
        | inr early ↦ k.waits late ∙ h.waits early
      ];
      stays = λ s. k.stays (h.stays s);
      ready = k.ready;
    }

    replied :
        (session next after : Session L S)
        → IsGuarded session.hello_done next.hello_done session.service next.service
        → IsReply next after
        → next.ready ≡ session.ready
        → (session.ready ≡ true → session.hello_done ≡ true)
        → IsServed session after
    replied session next after g k same r = record {
      keeps = subst P (sym k.service) g.keeps;
      waits = λ late. elim (Bool-cases session.hello_done) [
        | inl done ↦ absurd (cc (late, k.hello, g.stays done))
        | inr early ↦ k.service ∙ g.waits early
      ];
      stays = λ done. k.hello ∙ g.stays done;
      ready = λ h. k.hello ∙ elim (Bool-cases next.hello_done) [
        | inl done ↦ done
        | inr early ↦ g.stays (r (sym same ∙ (rw early at (k.ready h))))
      ];
    }

    serve_frame-IsServed :
        (session : Session L S)
        → IsKept
        → P session.service
        → (session.ready ≡ true → session.hello_done ≡ true)
        → IsServed session (serve_frame L S T system_text server caller session).0
    unfolding serve_frame
    serve_frame-IsServed session kept p r = go (read_frame system_text T session.pipe).0 refl
      where
        go :
            (read : Result L.Json)
            → (read_frame system_text T session.pipe).0 ≡ read
            → IsServed session (serve_frame L S T system_text server caller session).0
        go (error e) failed =
            rw (failed, serve_frame)
              (record { keeps = p; waits = λ h. refl; stays = λ h. h; ready = r })
        go (value json) arrived =
            let answer = respond L S T system_text server caller json session in
            let g = respond-IsGuarded json session kept p in
            let next : Session L S = record session {
              pipe = (read_frame system_text T session.pipe).1;
              hello_done = answer.1;
              service = answer.0.0;
            } in
            let k = reply-IsReply answer.0.1 next in
            rw (arrived, serve_frame) (replied session next _ g k refl r)

    -- From a session that receives events only if `Hello` is done, after as many rounds as the tests of
    -- `m_stopping` allow: if every handler keeps a property that the service has, where for a caller who
    -- is no administrator the handlers of SetRoutingPolicy, SetSplitTunnelConfig, SetFirewallPolicy and
    -- InstallUpdate are left out, then the service still has it, whatever bytes the caller sent. The
    -- service is as before unless `Hello` is done then, `Hello` stays done, and the connection receives
    -- events only if it is done. SetSettings and the methods that change profiles are not among the four.
    pub serve-IsServed :
        (tests : List Bool) (session : Session L S)
        → IsKept
        → P session.service
        → (session.ready ≡ true → session.hello_done ≡ true)
        → IsServed session (serve L S T system_text server caller tests session)
    unfolding serve
    serve-IsServed [] session kept p r = IsServed-refl session p r
    serve-IsServed (true ∷ tests) session kept p r = IsServed-refl session p r
    serve-IsServed (false ∷ tests) session kept p r =
        let round = serve_frame L S T system_text server caller session in
        let once = serve_frame-IsServed session kept p r in
        go round once (serve-IsServed tests round.0 kept once.keeps once.ready)
      where
        go :
            (round : Session L S × Bool)
            → IsServed session round.0
            → IsServed round.0 (serve L S T system_text server caller tests round.0)
            → IsServed session
                (if round.1 then serve L S T system_text server caller tests round.0 else round.0)
        go (next, true) once rest = IsServed-trans session next _ once rest
        go (next, false) once rest = once
