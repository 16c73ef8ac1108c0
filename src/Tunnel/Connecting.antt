-- ===== src/Tunnel/Connecting.antt =====
-- How `connect` of Tunnel/src/TunnelManager.cpp ends, with whatever the engine answers and calls back.
use vpn_client.Prelude.{
  ℕ, true, false, ◌||◌, some, [], ◌≡◌, ◌⊎◌, inl, inr, refl, ap, ◌∙◌, codes, Bool-cases,
}
use vpn_client.Core.Status.{
  Status, Result, value, error, ok_status, is_error, is_error-with_context,
}
use vpn_client.Core.Types.{
  disconnected, connected, connecting, faulted, reconnecting, same_state, is_transitional,
}
use vpn_client.Tunnel.{
  Tunnel, ConnectCredentials, transition, Answer, run_callbacks, receive, start_engine, with_engine,
  connect, reconnect,
}
use vpn_client.Tunnel.Lifecycle.{
  IsKept, IsKept-trans, transition-IsKept, transition-state, receive-IsKept,
}

-- What a call that started a session leaves behind.
pub record IsStarted (engine : ℕ) (c : ConnectCredentials) (u : Tunnel) : Type 0 where
  pub engine_held : u.engine ≡ some engine
  pub token_fresh : u.cancelled ≡ some false
  pub credentials_held : u.credentials ≡ c

-- What a call that failed leaves behind, `t` being the tunnel before.
abbrev pub HasFailed : Tunnel → Tunnel → Type 0
HasFailed t u =
    (u.state ≡ faulted) ⊎ ((u.state ≡ t.state) × (u.session ≡ t.session) × (u.output ≡ t.output))

module _ (started : Answer) (t : Tunnel) where
  pub start_engine-IsKept : IsKept t (start_engine started t).0
  unfolding start_engine
  start_engine-IsKept =
      let begun = transition connecting ok_status 1 t in
      let running = receive started begun in
      let kept =
        IsKept-trans t begun running (transition-IsKept connecting ok_status 1 t).0
          (receive-IsKept started begun) in
      elim (Bool-cases (is_error started.status)) [
        | inl failed ↦
            rw (failed, start_engine)
              (IsKept-trans t running (transition faulted started.status 1 running) kept
                (transition-IsKept faulted started.status 1 running).0)
        | inr fine ↦ rw (fine, start_engine) kept
      ]

  start_engine_error :
      is_error (start_engine started t).1 ≡ true → (start_engine started t).0.state ≡ faulted
  unfolding start_engine
  start_engine_error = elim (Bool-cases (is_error started.status)) [
    | inl failed ↦ rw (failed, start_engine) (λ _. transition-state faulted started.status 1 _)
    | inr fine ↦ rw (fine, start_engine) (λ h. absurd (cc h))
  ]

-- `connect` reports a failure only with the tunnel Faulted, or with its state, its session and what it
-- has shown to the outside as they were.
pub connect_error :
    (r : Result ℕ) (validated : Status) (started : Answer) (c : ConnectCredentials) (t : Tunnel)
    → is_error (connect r validated started c t).1 ≡ true
    → HasFailed t (connect r validated started c t).0
unfolding connect with_engine
connect_error r validated started c t =
    elim (Bool-cases (is_transitional t.state || same_state t.state connected)) [
      | inl busy ↦ rw (busy, connect) (λ _. inr (refl, refl, refl))
      | inr free ↦ elim (Bool-cases t.deps.engines) [
        | inr without ↦ simp (free, without, connect) (λ _. inr (refl, refl, refl))
        | inl engines ↦ simp (free, engines, connect) (engine_error r)
      ]
    ]
  where
    engine_error :
        (r : Result ℕ)
        → is_error (with_engine r validated started c t).1 ≡ true
        → HasFailed t (with_engine r validated started c t).0
    engine_error (error s) = λ _. inr (refl, refl, refl)
    engine_error (value engine) = elim (Bool-cases (is_error validated)) [
      | inl invalid ↦ rw (invalid, with_engine) (λ _. inr (refl, refl, refl))
      | inr valid ↦ rw (valid, with_engine) (λ h. inl (start_engine_error started _ h))
    ]

module _ (engine : ℕ) (validated : Status) (started : Answer) (c : ConnectCredentials)
    (t : Tunnel) where
  with_engine-IsStarted :
      is_error (with_engine (value engine) validated started c t).1 ≡ false
      → (is_error validated ≡ false)
        × (is_error started.status ≡ false)
        × IsStarted engine c (with_engine (value engine) validated started c t).0
  unfolding with_engine start_engine
  with_engine-IsStarted = elim (Bool-cases (is_error validated)) [
    | inl invalid ↦
        rw (invalid, with_engine)
          (λ h.
            absurd (cc (h, is_error-with_context (codes "validating profile") validated, invalid)))
    | inr valid ↦
        rw (valid, with_engine)
          (λ h. (
            refl,
            status h,
            record { engine_held = kept.0; token_fresh = kept.1; credentials_held = kept.2 },
          ))
  ]
    where
      setup : Tunnel
      setup = record t { engine = some engine; cancelled = some false; credentials = c }

      kept : IsKept setup (start_engine started setup).0
      kept = start_engine-IsKept started setup

      status : is_error (start_engine started setup).1 ≡ false → is_error started.status ≡ false
      status = elim (Bool-cases (is_error started.status)) [
        | inl failed ↦ rw (failed, start_engine) (λ h. absurd (cc (h, failed)))
        | inr fine ↦ λ _. fine
      ]

-- `connect` with an engine of the registry reports success only from a state that is not transitional
-- and not Connected, when the engine accepted the profile and started, and then the tunnel holds that
-- engine, the given credentials and a token whose cancellation is not requested.
pub connect-IsStarted :
    (engine : ℕ) (validated : Status) (started : Answer) (c : ConnectCredentials) (t : Tunnel)
    → is_error (connect (value engine) validated started c t).1 ≡ false
    → ((is_transitional t.state || same_state t.state connected) ≡ false)
      × (is_error validated ≡ false)
      × (is_error started.status ≡ false)
      × IsStarted engine c (connect (value engine) validated started c t).0
unfolding connect with_engine start_engine
connect-IsStarted engine validated started c t =
    elim (Bool-cases (is_transitional t.state || same_state t.state connected)) [
      | inl busy ↦ rw (busy, connect) (λ h. absurd (cc h))
      | inr free ↦ elim (Bool-cases t.deps.engines) [
        | inr without ↦ simp (free, without, connect) (λ h. absurd (cc h))
        | inl engines ↦
            simp (free, engines, connect)
              (λ h.
                let (v, k, w) = with_engine-IsStarted engine validated started c t h in
                (refl, v, k, w))
      ]
    ]

-- A Disconnected tunnel whose profile the engine refuses keeps that engine and stays Disconnected, so a
-- `reconnect` after it, where `renegotiate` calls nothing back, moves it to Reconnecting.
pub reconnect-connect :
    (engine : ℕ) (validated : Status) (started renegotiated : Answer) (c : ConnectCredentials)
    (t : Tunnel)
    → t.state ≡ disconnected
    → t.deps.engines ≡ true
    → is_error validated ≡ true
    → renegotiated.callbacks ≡ []
    → ((connect (value engine) validated started c t).0.state ≡ disconnected)
      × ((reconnect renegotiated (connect (value engine) validated started c t).0).0.state
          ≡ reconnecting)
unfolding connect with_engine reconnect run_callbacks is_transitional same_state
reconnect-connect engine validated started renegotiated c t off engines invalid quiet =
    let idle : (is_transitional t.state || same_state t.state connected) ≡ false = rw off refl in
    let held = record t { engine = some engine } in
    let kept : (connect (value engine) validated started c t).0 ≡ held =
      simp (idle, engines, connect) (rw (invalid, with_engine) refl) in
    let moved : (reconnect renegotiated held).0.state ≡ reconnecting =
      rw quiet (transition-state reconnecting ok_status 0 held) in
    (
      ap (λ (u : Tunnel). u.state) kept ∙ off,
      ap (λ u. (reconnect renegotiated u).0.state) kept ∙ moved,
    )
