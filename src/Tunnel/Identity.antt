-- ===== src/Tunnel/Identity.antt =====
-- No call and no callback of Tunnel/src/TunnelManager.cpp changes the id of a tunnel.
use vpn_client.Prelude.{
  Bool, if◌then◌else◌, [], ◌∷◌, inl, inr, true, false, ◌||◌, not, some, Option-cases, ℕ, ◌≡◌, refl,
  ◌∙◌,
}
use vpn_client.Core.Status.{Status, Result, value, error, ok_status, is_error}
use vpn_client.Core.Types.{connected, reconnecting, same_state, is_transitional}
use vpn_client.Tunnel.{
  Tunnel, ConnectCredentials, Answer, connect, reconnect, answer_challenge, callback, Callback,
  run_callbacks, transition, with_engine,
}
use vpn_client.Tunnel.Lifecycle.{disconnect-id, receive-IsKept, transition-IsKept}
use vpn_client.Tunnel.Connecting.{start_engine-IsKept}
use vpn_client.Tunnel.Events.{Step, connects, disconnects, reconnects, answers, calls_back}

either-id :
    (b : Bool) (t : Tunnel) (x y : Tunnel × Status)
    → x.0.id ≡ t.id
    → y.0.id ≡ t.id
    → (if b then x else y).0.id ≡ t.id
either-id true t x y h k = h
either-id false t x y h k = k

module _ (validated : Status) (started : Answer) (c : ConnectCredentials) (t : Tunnel) where
  with_engine-id : (registry : Result ℕ) → (with_engine registry validated started c t).0.id ≡ t.id
  unfolding with_engine
  with_engine-id (error s) = refl
  with_engine-id (value engine) =
      let setup : Tunnel = record t {
        engine = some engine;
        cancelled = some false;
        credentials = c;
      } in
      either-id (is_error validated) t _ _ refl (start_engine-IsKept started setup).3

  connect-id : (registry : Result ℕ) → (connect registry validated started c t).0.id ≡ t.id
  unfolding connect
  connect-id registry =
      either-id (is_transitional t.state || same_state t.state connected) t _ _ refl
        (either-id (not t.deps.engines) t _ _ refl (with_engine-id registry))

reconnect-id : (a : Answer) (t : Tunnel) → (reconnect a t).0.id ≡ t.id
unfolding reconnect
reconnect-id a t = elim (Option-cases t.engine) [
  | inl idle ↦ rw (idle, reconnect) refl
  | inr (engine, running) ↦
      let begun = transition reconnecting ok_status 0 t in
      rw (running, reconnect)
        ((receive-IsKept a begun).3 ∙ (transition-IsKept reconnecting ok_status 0 t).0.3)
]

answer_challenge-id : (a : Answer) (t : Tunnel) → (answer_challenge a t).0.id ≡ t.id
unfolding answer_challenge
answer_challenge-id a t = elim (Option-cases t.engine) [
  | inl idle ↦ rw (idle, answer_challenge) refl
  | inr (engine, running) ↦ rw (running, answer_challenge) (receive-IsKept a t).3
]

callback-id : (now wall : ℕ) (c : Callback) (t : Tunnel) → (callback now wall c t).id ≡ t.id
unfolding run_callbacks
callback-id now wall c t =
    (receive-IsKept (record { status = ok_status; callbacks = c ∷ []; now = now; wall = wall }) t).3

pub Step-id : (t u : Tunnel) → Step t u → u.id ≡ t.id
Step-id _ _ (connects registry validated started c t) = connect-id validated started c t registry
Step-id _ _ (disconnects a t) = disconnect-id a t
Step-id _ _ (reconnects a t) = reconnect-id a t
Step-id _ _ (answers a t) = answer_challenge-id a t
Step-id _ _ (calls_back now wall c t) = callback-id now wall c t
