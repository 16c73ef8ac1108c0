-- ===== src/Tunnel/Lifecycle.antt =====
-- How `disconnect` of Tunnel/src/TunnelManager.cpp ends, with whatever the engine answers and calls back.
use vpn_client.Prelude.{
  ℕ, Bool, true, false, Option, none, some, List, [], ◌∷◌, ◌≡◌, inl, inr, refl, ap, ◌∙◌, Bool-cases,
  Option-cases, if◌then◌else◌,
}
use vpn_client.Core.Status.{Status, ok_status}
use vpn_client.Core.Types.{
  ConnectionState, disconnected, connected, disconnecting, same_state, same_state_iff,
}
use vpn_client.Tunnel.{
  Tunnel, transition, release_session, Callback, on_state_changed, on_session_established,
  on_counters, on_challenge, on_log, ends_session, settle, on_engine_state, on_counter_sample,
  callback, Answer, run_callbacks, receive, cancel, stop_engine, disconnect,
}

-- What only the calls change, and no callback.
abbrev pub IsKept : Tunnel → Tunnel → Type 0
IsKept t u =
    (u.engine ≡ t.engine)
    × (u.cancelled ≡ t.cancelled)
    × (u.credentials ≡ t.credentials)
    × (u.id ≡ t.id)
    × (u.deps ≡ t.deps)

pub IsKept-trans : (t u v : Tunnel) → IsKept t u → IsKept u v → IsKept t v
IsKept-trans t u v (a, b, c, d, e) (a', b', c', d', e') = (a' ∙ a, b' ∙ b, c' ∙ c, d' ∙ d, e' ∙ e)

pub transition-IsKept :
    (next : ConnectionState) (reason : Status) (attempt : ℕ) (t : Tunnel)
    → IsKept t (transition next reason attempt t)
      × ((transition next reason attempt t).session ≡ t.session)
unfolding transition
transition-IsKept next reason attempt t = elim (Bool-cases (same_state t.state next)) [
  | inl same ↦ rw (same, transition) ((refl, refl, refl, refl, refl), refl)
  | inr other ↦ rw (other, transition) ((refl, refl, refl, refl, refl), refl)
]

pub transition-state :
    (next : ConnectionState) (reason : Status) (attempt : ℕ) (t : Tunnel)
    → (transition next reason attempt t).state ≡ next
unfolding transition
transition-state next reason attempt t = elim (Bool-cases (same_state t.state next)) [
  | inl same ↦ rw (same, transition) ((same_state_iff t.state next).0 same)
  | inr other ↦ rw (other, transition) refl
]

release_session-IsKept :
    (t : Tunnel) → IsKept t (release_session t) × ((release_session t).session ≡ none)
unfolding release_session
release_session-IsKept t = elim (Option-cases t.session) [
  | inl idle ↦ rw (idle, release_session) ((refl, refl, refl, refl, refl), idle)
  | inr (info, up) ↦ rw (up, release_session) ((refl, refl, refl, refl, refl), refl)
]

module _ (now wall : ℕ) where
  settle-IsKept : (state : ConnectionState) (t : Tunnel) → IsKept t (settle now state t)
  unfolding settle
  settle-IsKept state t = go (same_state state connected) (ends_session state)
    where
      stamp : Bool → Tunnel
      stamp b = if b then record t { connected_at = now } else t

      go : (b e : Bool) → IsKept t (if e then release_session (stamp b) else stamp b)
      go true true = (release_session-IsKept (record t { connected_at = now })).0
      go true false = (refl, refl, refl, refl, refl)
      go false true = (release_session-IsKept t).0
      go false false = (refl, refl, refl, refl, refl)

  on_engine_state-IsKept :
      (state : ConnectionState) (reason : Status) (t : Tunnel)
      → IsKept t (on_engine_state now state reason t)
  unfolding on_engine_state
  on_engine_state-IsKept state reason t =
      let settled = settle now state t in
      IsKept-trans t settled (transition state reason 0 settled) (settle-IsKept state t)
        (transition-IsKept state reason 0 settled).0

  run_callbacks-IsKept : (cs : List Callback) (t : Tunnel) → IsKept t (run_callbacks now wall cs t)
  unfolding run_callbacks callback on_counter_sample
  run_callbacks-IsKept [] t = (refl, refl, refl, refl, refl)
  run_callbacks-IsKept (on_state_changed state reason ∷ cs) t =
      let told = on_engine_state now state reason t in
      IsKept-trans t told (run_callbacks now wall cs told) (on_engine_state-IsKept state reason t)
        (run_callbacks-IsKept cs told)
  run_callbacks-IsKept (on_session_established info ∷ cs) t = run_callbacks-IsKept cs _
  run_callbacks-IsKept (on_counters counters ∷ cs) t = run_callbacks-IsKept cs _
  run_callbacks-IsKept (on_challenge challenge ∷ cs) t = run_callbacks-IsKept cs _
  run_callbacks-IsKept (on_log text ∷ cs) t = run_callbacks-IsKept cs t

pub receive-IsKept : (a : Answer) (t : Tunnel) → IsKept t (receive a t)
receive-IsKept a t = run_callbacks-IsKept a.now a.wall a.callbacks t

stop_engine-IsKept :
    (a : Answer) (engine : Option ℕ) (t : Tunnel) → IsKept t (stop_engine a engine t)
stop_engine-IsKept a none t = (refl, refl, refl, refl, refl)
stop_engine-IsKept a (some engine) t = receive-IsKept a t

-- Nothing of a session is left: no engine, no session, and the token it was started with is cancelled.
pub record IsStopped (t u : Tunnel) : Type 0 where
  pub state : u.state ≡ disconnected
  pub session : u.session ≡ none
  pub engine : u.engine ≡ none
  pub cancelled : u.cancelled ≡ cancel t.cancelled

-- From any state but Disconnected, whatever `stop` answers and calls back, `disconnect` succeeds and
-- leaves the tunnel Disconnected, without a session or an engine, and with the cancellation of its
-- token requested, if it has one.
pub disconnect-IsStopped :
    (a : Answer) (t : Tunnel)
    → same_state t.state disconnected ≡ false
    → ((disconnect a t).1 ≡ ok_status) × IsStopped t (disconnect a t).0
unfolding disconnect
disconnect-IsStopped a t on =
    let leaving = transition disconnecting ok_status 0 t in
    let stopping = record leaving { cancelled = cancel leaving.cancelled } in
    let stopped = stop_engine a t.engine stopping in
    let released = release_session stopped in
    let held = record released { engine = none } in
    let last = transition-IsKept disconnected ok_status 0 held in
    let kept = release_session-IsKept stopped in
    rw (on, disconnect)
      (
        refl,
        record {
          state = transition-state disconnected ok_status 0 held;
          session = last.1 ∙ kept.1;
          engine = last.0.0;
          cancelled =
              last.0.1
              ∙ kept.0.1
              ∙ (stop_engine-IsKept a t.engine stopping).1
              ∙ ap cancel (transition-IsKept disconnecting ok_status 0 t).0.1;
        },
      )

-- A tunnel keeps its id and its dependencies.
disconnect_keeps :
    (a : Answer) (t : Tunnel) → ((disconnect a t).0.id ≡ t.id) × ((disconnect a t).0.deps ≡ t.deps)
unfolding disconnect
disconnect_keeps a t = elim (Bool-cases (same_state t.state disconnected)) [
  | inl off ↦ rw (off, disconnect) (refl, refl)
  | inr on ↦
      let leaving = transition disconnecting ok_status 0 t in
      let stopping = record leaving { cancelled = cancel leaving.cancelled } in
      let stopped = stop_engine a t.engine stopping in
      let held = record (release_session stopped) { engine = none } in
      let last = (transition-IsKept disconnected ok_status 0 held).0 in
      let kept = (release_session-IsKept stopped).0 in
      let told = stop_engine-IsKept a t.engine stopping in
      let began = (transition-IsKept disconnecting ok_status 0 t).0 in
      rw (on, disconnect) (last.3 ∙ kept.3 ∙ told.3 ∙ began.3, last.4 ∙ kept.4 ∙ told.4 ∙ began.4)
]

pub disconnect-id : (a : Answer) (t : Tunnel) → (disconnect a t).0.id ≡ t.id
disconnect-id a t = (disconnect_keeps a t).0

-- However it was, the tunnel is Disconnected in the end, and the call succeeds.
pub disconnect-ends :
    (a : Answer) (t : Tunnel)
    → ((disconnect a t).1 ≡ ok_status) × ((disconnect a t).0.state ≡ disconnected)
unfolding disconnect
disconnect-ends a t = elim (Bool-cases (same_state t.state disconnected)) [
  | inl off ↦ rw (off, disconnect) (refl, (same_state_iff t.state disconnected).0 off)
  | inr on ↦ let (ok, stopped) = disconnect-IsStopped a t on in (ok, stopped.state)
]
