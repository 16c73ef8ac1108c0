-- ===== src/Tunnel/Events.antt =====
-- What a tunnel of Tunnel/src/TunnelManager.cpp shows to the outside, over any run: calls of its
-- methods and callbacks of its engine in any order.
use vpn_client.Prelude.{
  ℕ, Bool, true, false, not, ◌||◌, Option, none, some, List, [], ◌∷◌, ◌++◌, ◌≡◌, inl, inr, refl,
  sym, ap, Bytes, Bool-cases, Option-cases, if◌then◌else◌, subst,
}
use vpn_client.Core.Status.{Status, Result, value, error, ok_status, is_error}
use vpn_client.Core.Types.{
  ConnectionState, disconnected, connected, connecting, faulted, disconnecting, reconnecting,
  same_state, is_transitional,
}
use vpn_client.Tunnel.{
  Tunnel, TunnelManagerDeps, Profile, ConnectCredentials, TunnelSessionInfo, Output, state_event,
  statistics_event, challenge_event, session_up, session_down, make_tunnel, emit_if, transition,
  release_session, Callback, on_state_changed, on_session_established, on_counters, on_challenge,
  on_log, ends_session, settle, on_engine_state, on_counter_sample, callback, Answer, run_callbacks,
  receive, start_engine, with_engine, connect, stop_engine, disconnect, reconnect, answer_challenge,
}

-- The state events of `out` lead from the state `s` to the state `e`: each leaves the state that the
-- one before it reached, for another one.
abbrev pub IsChain : ConnectionState → List Output → ConnectionState → Type 0
IsChain s [] e = s ≡ e
IsChain s (state_event x ∷ out) e =
    (x.previous ≡ s) × (same_state s x.current ≡ false) × IsChain x.current out e
IsChain s (statistics_event x ∷ out) e = IsChain s out e
IsChain s (challenge_event x ∷ out) e = IsChain s out e
IsChain s (session_up x ∷ out) e = IsChain s out e
IsChain s (session_down ∷ out) e = IsChain s out e

-- A session is taken down only after it was brought up; `b` and `e` say whether one is up before and
-- after.
abbrev pub IsPaired : Bool → List Output → Bool → Type 0
IsPaired b [] e = b ≡ e
IsPaired b (state_event x ∷ out) e = IsPaired b out e
IsPaired b (statistics_event x ∷ out) e = IsPaired b out e
IsPaired b (challenge_event x ∷ out) e = IsPaired b out e
IsPaired b (session_up x ∷ out) e = IsPaired true out e
IsPaired b (session_down ∷ out) e = (b ≡ true) × IsPaired false out e

abbrev pub is_some {ℓ} : {A : Type ℓ} → Option A → Bool
is_some none = false
is_some (some a) = true

IsChain-append :
    (out : List Output) (o : Output) (s e f : ConnectionState)
    → IsChain s out e
    → IsChain e (o ∷ []) f
    → IsChain s (out ++ o ∷ []) f
IsChain-append [] o s e f h k = subst (λ x. IsChain x (o ∷ []) f) (sym h) k
IsChain-append (state_event x ∷ out) o s e f h k =
    (h.0, h.1, IsChain-append out o x.current e f h.2 k)
IsChain-append (statistics_event x ∷ out) o s e f h k = IsChain-append out o s e f h k
IsChain-append (challenge_event x ∷ out) o s e f h k = IsChain-append out o s e f h k
IsChain-append (session_up x ∷ out) o s e f h k = IsChain-append out o s e f h k
IsChain-append (session_down ∷ out) o s e f h k = IsChain-append out o s e f h k

IsPaired-append :
    (out : List Output) (o : Output) (b e f : Bool)
    → IsPaired b out e
    → IsPaired e (o ∷ []) f
    → IsPaired b (out ++ o ∷ []) f
IsPaired-append [] o b e f h k = subst (λ x. IsPaired x (o ∷ []) f) (sym h) k
IsPaired-append (state_event x ∷ out) o b e f h k = IsPaired-append out o b e f h k
IsPaired-append (statistics_event x ∷ out) o b e f h k = IsPaired-append out o b e f h k
IsPaired-append (challenge_event x ∷ out) o b e f h k = IsPaired-append out o b e f h k
IsPaired-append (session_up x ∷ out) o b e f h k = IsPaired-append out o true e f h k
IsPaired-append (session_down ∷ out) o b e f h k = (h.0, IsPaired-append out o false e f h.1 k)

-- A log that fits a state and whether a session is up.
pub record IsLogOf (deps : TunnelManagerDeps) (state : ConnectionState) (up : Bool)
    (out : List Output) : Type 0 where
  pub chain : deps.events ≡ true → IsChain disconnected out state
  pub paired : deps.on_session_up ≡ true → deps.on_session_down ≡ true → IsPaired false out up

-- The log of a tunnel fits its state and its session.
abbrev pub IsFaithful : Tunnel → Type 0
IsFaithful t = IsLogOf t.deps t.state (is_some t.session) t.output

-- An output that changes nothing, whether it is shown or not.
unchanged {ℓ} : {A : Type ℓ} (b : Bool) (x : A) → if b then (x ≡ x) else (x ≡ x)
unchanged true x = refl
unchanged false x = refl

module _ (t : Tunnel) (h : IsFaithful t) where
  -- One more output, of a tunnel whose state and session change with it.
  emit-IsFaithful :
      (o : Output) (state : ConnectionState) (session : Option TunnelSessionInfo) (wanted : Bool)
      → (t.deps.events ≡ true
          → (if wanted then IsChain t.state (o ∷ []) state else (t.state ≡ state)))
      → (t.deps.on_session_up ≡ true
          → t.deps.on_session_down ≡ true
          → (if wanted
              then IsPaired (is_some t.session) (o ∷ []) (is_some session)
              else (is_some t.session ≡ is_some session)))
      → IsFaithful (emit_if wanted o (record t { state = state; session = session }))
  emit-IsFaithful o state session true c p = record {
    chain = λ y. IsChain-append t.output o disconnected t.state state (h.chain y) (c y);
    paired = λ u d.
        IsPaired-append t.output o false (is_some t.session) (is_some session) (h.paired u d)
          (p u d);
  }
  emit-IsFaithful o state session false c p = record {
    chain = λ y. subst (IsChain disconnected t.output) (c y) (h.chain y);
    paired = λ u d. subst (IsPaired false t.output) (p u d) (h.paired u d);
  }

  transition-IsFaithful :
      (next : ConnectionState) (reason : Status) (attempt : ℕ)
      → IsFaithful (transition next reason attempt t)
  unfolding transition
  transition-IsFaithful next reason attempt = elim (Bool-cases (same_state t.state next)) [
    | inl same ↦ rw (same, transition) h
    | inr other ↦
        rw (other, transition)
          (emit-IsFaithful _ next t.session t.deps.events (λ y. rw y (refl, other, refl))
            (λ _ _. unchanged t.deps.events (is_some t.session)))
  ]

  release_session-IsFaithful : IsFaithful (release_session t)
  unfolding release_session
  release_session-IsFaithful = elim (Option-cases t.session) [
    | inl none_up ↦ rw (none_up, release_session) h
    | inr (info, up) ↦
        rw (up, release_session)
          (emit-IsFaithful session_down t.state none t.deps.on_session_down
            (λ _. unchanged t.deps.on_session_down t.state) (λ _ d. rw d (ap is_some up, refl)))
  ]

module _ (now wall : ℕ) where
  settle-IsFaithful :
      (state : ConnectionState) (t : Tunnel) → IsFaithful t → IsFaithful (settle now state t)
  unfolding settle
  settle-IsFaithful state t h = go (same_state state connected) (ends_session state)
    where
      stamp : Bool → Tunnel
      stamp b = if b then record t { connected_at = now } else t

      go : (b e : Bool) → IsFaithful (if e then release_session (stamp b) else stamp b)
      go true true = release_session-IsFaithful _ h
      go true false = h
      go false true = release_session-IsFaithful _ h
      go false false = h

  on_engine_state-IsFaithful :
      (state : ConnectionState) (reason : Status) (t : Tunnel)
      → IsFaithful t
      → IsFaithful (on_engine_state now state reason t)
  unfolding on_engine_state
  on_engine_state-IsFaithful state reason t h =
      transition-IsFaithful (settle now state t) (settle-IsFaithful state t h) state reason 0

  callback-IsFaithful :
      (c : Callback) (t : Tunnel) → IsFaithful t → IsFaithful (callback now wall c t)
  unfolding callback on_counter_sample
  callback-IsFaithful (on_state_changed state reason) t h =
      on_engine_state-IsFaithful state reason t h
  callback-IsFaithful (on_session_established info) t h =
      emit-IsFaithful t h (session_up info) t.state (some info) t.deps.on_session_up
        (λ _. unchanged t.deps.on_session_up t.state) (λ u _. rw u refl)
  callback-IsFaithful (on_counters counters) t h =
      emit-IsFaithful t h _ t.state t.session t.deps.events (λ _. unchanged t.deps.events t.state)
        (λ _ _. unchanged t.deps.events (is_some t.session))
  callback-IsFaithful (on_challenge challenge) t h =
      emit-IsFaithful t h _ t.state t.session t.deps.events (λ _. unchanged t.deps.events t.state)
        (λ _ _. unchanged t.deps.events (is_some t.session))
  callback-IsFaithful (on_log text) t h = h

  run_callbacks-IsFaithful :
      (cs : List Callback) (t : Tunnel) → IsFaithful t → IsFaithful (run_callbacks now wall cs t)
  unfolding run_callbacks
  run_callbacks-IsFaithful [] t h = h
  run_callbacks-IsFaithful (c ∷ cs) t h = run_callbacks-IsFaithful cs _ (callback-IsFaithful c t h)

receive-IsFaithful : (a : Answer) (t : Tunnel) → IsFaithful t → IsFaithful (receive a t)
receive-IsFaithful a t h = run_callbacks-IsFaithful a.now a.wall a.callbacks t h

-- Under a test, both branches are wanted.
either-IsFaithful :
    (b : Bool) (x y : Tunnel × Status)
    → IsFaithful x.0
    → IsFaithful y.0
    → IsFaithful (if◌then◌else◌ {A = Tunnel × Status} b x y).0
either-IsFaithful true x y h k = h
either-IsFaithful false x y h k = k

start_engine-IsFaithful : (a : Answer) (t : Tunnel) → IsFaithful t → IsFaithful (start_engine a t).0
unfolding start_engine
start_engine-IsFaithful a t h =
    either-IsFaithful (is_error a.status) _ _ (transition-IsFaithful _ running faulted a.status 1)
      running
  where
    running : IsFaithful (receive a (transition connecting ok_status 1 t))
    running = receive-IsFaithful a _ (transition-IsFaithful t h connecting ok_status 1)

module _ (validated : Status) (started : Answer) (c : ConnectCredentials) (t : Tunnel)
    (h : IsFaithful t) where
  with_engine-IsFaithful : (r : Result ℕ) → IsFaithful (with_engine r validated started c t).0
  unfolding with_engine
  with_engine-IsFaithful (error s) = h
  with_engine-IsFaithful (value engine) =
      either-IsFaithful (is_error validated) _ _ h (start_engine-IsFaithful started _ h)

  connect-IsFaithful : (r : Result ℕ) → IsFaithful (connect r validated started c t).0
  unfolding connect
  connect-IsFaithful r =
      either-IsFaithful (is_transitional t.state || same_state t.state connected) _ _ h
        (either-IsFaithful (not t.deps.engines) _ _ h (with_engine-IsFaithful r))

stop_engine-IsFaithful :
    (a : Answer) (engine : Option ℕ) (t : Tunnel)
    → IsFaithful t
    → IsFaithful (stop_engine a engine t)
stop_engine-IsFaithful a none t h = h
stop_engine-IsFaithful a (some engine) t h = receive-IsFaithful a t h

disconnect-IsFaithful : (a : Answer) (t : Tunnel) → IsFaithful t → IsFaithful (disconnect a t).0
unfolding disconnect
disconnect-IsFaithful a t h = elim (Bool-cases (same_state t.state disconnected)) [
  | inl off ↦ rw (off, disconnect) h
  | inr on ↦
      rw (on, disconnect)
        (transition-IsFaithful _
          (release_session-IsFaithful _ (
            stop_engine-IsFaithful a t.engine _
              (transition-IsFaithful t h disconnecting ok_status 0)))
          disconnected ok_status 0)
]

reconnect-IsFaithful : (a : Answer) (t : Tunnel) → IsFaithful t → IsFaithful (reconnect a t).0
unfolding reconnect
reconnect-IsFaithful a t h = elim (Option-cases t.engine) [
  | inl idle ↦ rw (idle, reconnect) h
  | inr (engine, running) ↦
      rw (running, reconnect)
        (receive-IsFaithful a _ (transition-IsFaithful t h reconnecting ok_status 0))
]

answer_challenge-IsFaithful :
    (a : Answer) (t : Tunnel) → IsFaithful t → IsFaithful (answer_challenge a t).0
unfolding answer_challenge
answer_challenge-IsFaithful a t h = elim (Option-cases t.engine) [
  | inl idle ↦ rw (idle, answer_challenge) h
  | inr (engine, running) ↦ rw (running, answer_challenge) (receive-IsFaithful a t h)
]

-- One step of a tunnel: a call of a method, with any answers of the engine, or a callback of the engine
-- between two calls.
pub data Step : Tunnel → Tunnel → Type 0 where
  connects :
      (registry : Result ℕ) (validated : Status) (started : Answer) (c : ConnectCredentials)
      (t : Tunnel)
      → Step t (connect registry validated started c t).0
  disconnects : (a : Answer) (t : Tunnel) → Step t (disconnect a t).0
  reconnects : (a : Answer) (t : Tunnel) → Step t (reconnect a t).0
  answers : (a : Answer) (t : Tunnel) → Step t (answer_challenge a t).0
  calls_back : (now wall : ℕ) (c : Callback) (t : Tunnel) → Step t (callback now wall c t)

-- A tunnel that some sequence of steps leads to from its construction.
pub data Reached : Tunnel → Type 0 where
  created :
      (id : Bytes) (profile : Profile) (deps : TunnelManagerDeps) (now : ℕ)
      → Reached (make_tunnel id profile deps now)
  then_step : (t u : Tunnel) → Reached t → Step t u → Reached u

Step-IsFaithful : (t u : Tunnel) → Step t u → IsFaithful t → IsFaithful u
Step-IsFaithful _ _ (connects registry validated started c t) h =
    connect-IsFaithful validated started c t h registry
Step-IsFaithful _ _ (disconnects a t) h = disconnect-IsFaithful a t h
Step-IsFaithful _ _ (reconnects a t) h = reconnect-IsFaithful a t h
Step-IsFaithful _ _ (answers a t) h = answer_challenge-IsFaithful a t h
Step-IsFaithful _ _ (calls_back now wall c t) h = callback-IsFaithful now wall c t h

pub Reached-IsFaithful : (t : Tunnel) → Reached t → IsFaithful t
unfolding make_tunnel
Reached-IsFaithful _ (created id profile deps now) = record {
  chain = λ _. refl;
  paired = λ _ _. refl;
}
Reached-IsFaithful u (then_step t _ r s) = Step-IsFaithful t u s (Reached-IsFaithful t r)

-- However its methods are called and whatever its engine answers and calls back, where the event bus is
-- there, the published state events of a tunnel lead from Disconnected to its current state, each one
-- from the state that the one before it reached to another one.
pub Reached-IsChain :
    (t : Tunnel) → Reached t → t.deps.events ≡ true → IsChain disconnected t.output t.state
Reached-IsChain t r e = (Reached-IsFaithful t r).chain e

-- However its methods are called and whatever its engine answers and calls back, where both session
-- hooks are there, a session is taken down only after one was brought up, and after all the hooks' calls
-- one is up exactly if the tunnel holds one.
pub Reached-IsPaired :
    (t : Tunnel)
    → Reached t
    → t.deps.on_session_up ≡ true
    → t.deps.on_session_down ≡ true
    → IsPaired false t.output (is_some t.session)
Reached-IsPaired t r u d = (Reached-IsFaithful t r).paired u d
