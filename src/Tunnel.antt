-- ===== src/Tunnel.antt =====
-- One tunnel: the class `Tunnel` of Tunnel/src/TunnelManager.cpp. Every method is a function of the
-- state and of what the engine answers. The engine stands behind the interface `IVpnEngine`, so its
-- answers are arguments: a status, and the host callbacks that it makes during the call.
-- Each method runs as a whole, as under the tunnel's mutex; the callbacks are steps of their own.
pub mod Events
pub mod Lifecycle
pub mod Connecting
pub mod Identity
pub mod Manager
use vpn_client.Prelude.{
  ℕ, suc, ◌-◌, ◌/◌, Bool, true, false, not, ◌&&◌, ◌||◌, if◌then◌else◌, Option, none, some, List, [],
  ◌∷◌, ◌++◌, Bytes, codes,
}
use vpn_client.Core.Status.{
  ErrorCode, Status, ok_status, is_ok, is_error, with_context, Result, value, error, make,
}
use vpn_client.Core.Types.{
  ConnectionState, disconnected, connecting, connected, reconnecting, disconnecting, faulted,
  is_transitional, same_state,
}
use vpn_client.Networking.Address.{IpAddress}
use vpn_client.Networking.Range.{IpRange}
use vpn_client.Networking.Endpoint.{Endpoint}
use vpn_client.Networking.Statistics.{
  TrafficCounters, TrafficRates, StatisticsSample, no_rates, compute_rates,
}

-- The session as the server described it, its time in milliseconds.
pub record TunnelSessionInfo : Type 0 where
  pub local_address : IpRange
  pub local_address_v6 : Option IpRange
  pub server_virtual_ip : Option IpAddress
  pub remote_endpoint : Endpoint
  pub dns_servers : List IpAddress
  pub search_domains : List Bytes
  pub pushed_routes : List IpRange
  pub mtu : ℕ
  pub cipher : Bytes
  pub auth_digest : Bytes
  pub tls_version : Bytes
  pub peer_certificate_subject : Bytes
  pub peer_certificate_fingerprint : Bytes
  pub connected_at : ℕ
  pub adapter_interface_index : ℕ

pub record ConnectCredentials : Type 0 where
  pub user_name : Bytes
  pub password : Bytes
  pub totp_code : Bytes
  pub private_key_passphrase : Bytes

pub data ChallengeKind : Type 0 where
  user_password totp private_key server_challenge : ChallengeKind

pub record AuthChallenge : Type 0 where
  pub kind : ChallengeKind
  pub prompt : Bytes
  pub echo : Bool
  pub tunnel_id : Bytes

pub record TunnelStateChanged : Type 0 where
  pub tunnel_id : Bytes
  pub profile_id : Bytes
  pub previous : ConnectionState
  pub current : ConnectionState
  pub reason : Status
  pub attempt : ℕ

-- What a tunnel shows to the outside, in order: events on the bus, and calls of its dependencies. Each
-- one carries the tunnel's id too, which is left out where it is the only other thing.
pub data Output : Type 0 where
  state_event : TunnelStateChanged → Output
  statistics_event : StatisticsSample → Output
  challenge_event : AuthChallenge → Output
  session_up : TunnelSessionInfo → Output
  session_down : Output

-- Which dependencies are there; any may be null.
pub record TunnelManagerDeps : Type 0 where
  pub engines : Bool
  pub events : Bool
  pub on_session_up : Bool
  pub on_session_down : Bool
  pub max_concurrent_tunnels : ℕ

-- What a tunnel reads of its profile.
pub record Profile : Type 0 where
  pub id : Bytes
  pub is_open_vpn : Bool
  pub engine_id : Bytes

-- An engine is named by a number; `cancelled` is the flag of the cancellation source, if there is one.
pub record Tunnel : Type 0 where
  pub id : Bytes
  pub profile : Profile
  pub deps : TunnelManagerDeps
  pub state : ConnectionState
  pub engine : Option ℕ
  pub cancelled : Option Bool
  pub credentials : ConnectCredentials
  pub session : Option TunnelSessionInfo
  pub statistics : StatisticsSample
  pub connected_at : ℕ
  pub last_sample_at : ℕ
  pub output : List Output

abbrev pub no_credentials : ConnectCredentials
no_credentials = record {
  user_name = [];
  password = [];
  totp_code = [];
  private_key_passphrase = [];
}

abbrev pub no_counters : TrafficCounters
no_counters = record {
  bytes_sent = 0;
  bytes_received = 0;
  packets_sent = 0;
  packets_received = 0;
  packets_dropped = 0;
  wire_bytes_sent = 0;
  wire_bytes_received = 0;
}

-- The constructor, at the time `now`.
unfoldable pub make_tunnel : Bytes → Profile → TunnelManagerDeps → ℕ → Tunnel
make_tunnel id profile deps now = record {
  id = id;
  profile = profile;
  deps = deps;
  state = disconnected;
  engine = none;
  cancelled = none;
  credentials = no_credentials;
  session = none;
  statistics = record { timestamp = 0; counters = no_counters; rates = no_rates };
  connected_at = 0;
  last_sample_at = now;
  output = [];
}

abbrev pub emit_if : Bool → Output → Tunnel → Tunnel
emit_if wanted o t = record t { output = if wanted then t.output ++ o ∷ [] else t.output }

unfoldable pub transition : ConnectionState → Status → ℕ → Tunnel → Tunnel
transition next reason attempt t =
    if same_state t.state next
    then t
    else emit_if t.deps.events
        (state_event (record {
          tunnel_id = t.id;
          profile_id = t.profile.id;
          previous = t.state;
          current = next;
          reason = reason;
          attempt = attempt;
        }))
        (record t { state = next })

-- `releaseSessionLocked`.
unfoldable pub release_session : Tunnel → Tunnel
release_session t = elim t.session [
  | none ↦ t
  | some info ↦ record (emit_if t.deps.on_session_down session_down t) { session = none }
]

-- The host callbacks of `makeHost`; the log callback writes only to the log.
pub data Callback : Type 0 where
  on_state_changed : ConnectionState → Status → Callback
  on_session_established : TunnelSessionInfo → Callback
  on_counters : TrafficCounters → Callback
  on_challenge : AuthChallenge → Callback
  on_log : Bytes → Callback

abbrev pub ends_session : ConnectionState → Bool
ends_session state = same_state state disconnected || same_state state faulted

-- What `onEngineState` does before the transition.
unfoldable pub settle : ℕ → ConnectionState → Tunnel → Tunnel
unfolding release_session
settle now state t =
    let stamped = if same_state state connected then record t { connected_at = now } else t in
    if ends_session state then release_session stamped else stamped

-- `onEngineState`.
unfoldable pub on_engine_state : ℕ → ConnectionState → Status → Tunnel → Tunnel
unfolding settle transition
on_engine_state now state reason t = transition state reason 0 (settle now state t)

-- `onCounters`; `wall` is the wall clock's time.
unfoldable pub on_counter_sample : ℕ → ℕ → TrafficCounters → Tunnel → Tunnel
on_counter_sample now wall counters t =
    let sample : StatisticsSample = record {
      timestamp = wall;
      counters = counters;
      rates = compute_rates t.statistics.counters counters (now - t.last_sample_at);
    } in
    emit_if t.deps.events (statistics_event sample)
      (record t { statistics = sample; last_sample_at = now })

-- One callback of the engine, at the time `now`.
unfoldable pub callback : ℕ → ℕ → Callback → Tunnel → Tunnel
unfolding on_engine_state on_counter_sample
callback now wall (on_state_changed state reason) t = on_engine_state now state reason t
callback now wall (on_session_established info) t =
    emit_if t.deps.on_session_up (session_up info) (record t { session = some info })
callback now wall (on_counters counters) t = on_counter_sample now wall counters t
callback now wall (on_challenge challenge) t = emit_if t.deps.events (challenge_event challenge) t
callback now wall (on_log text) t = t

-- An answer of the engine to a call: its status, and the callbacks it made meanwhile.
pub record Answer : Type 0 where
  pub status : Status
  pub callbacks : List Callback
  pub now : ℕ
  pub wall : ℕ

unfoldable pub run_callbacks : ℕ → ℕ → List Callback → Tunnel → Tunnel
unfolding callback
run_callbacks now wall [] t = t
run_callbacks now wall (c ∷ cs) t = run_callbacks now wall cs (callback now wall c t)

abbrev pub receive : Answer → Tunnel → Tunnel
receive a t = run_callbacks a.now a.wall a.callbacks t

unfoldable pub engine_id_for_profile : Profile → Bytes
engine_id_for_profile p = if p.is_open_vpn then codes "openvpn" else p.engine_id

-- `config.credentials`, as `connect` fills it in.
unfoldable pub engine_credentials : ConnectCredentials → ConnectCredentials
engine_credentials c = record {
  user_name = c.user_name;
  password = c.password;
  totp_code = c.totp_code;
  private_key_passphrase = [];
}

abbrev pub invalid_state : Bytes → Status
invalid_state message = make ErrorCode.invalid_state message

-- The calls behind the lock: `start`, and what follows its answer.
unfoldable pub start_engine : Answer → Tunnel → Tunnel × Status
unfolding transition run_callbacks
start_engine started t =
    let t' = receive started (transition connecting ok_status 1 t) in
    if is_error started.status
    then (transition faulted started.status 1 t', started.status)
    else (t', ok_status)

-- What follows the registry's answer: `validate`, and the setup of the session.
unfoldable pub with_engine :
    Result ℕ → Status → Answer → ConnectCredentials → Tunnel → Tunnel × Status
unfolding start_engine
with_engine (error s) validated started credentials t =
    (t, with_context (codes "creating engine for " ++ t.id) s)
with_engine (value engine) validated started credentials t =
    let held = record t { engine = some engine } in
    if is_error validated
    then (held, with_context (codes "validating profile") validated)
    else start_engine started (record held { cancelled = some false; credentials = credentials })

-- `connect`: the registry's answer, that of `validate`, and that of `start`.
unfoldable pub connect : Result ℕ → Status → Answer → ConnectCredentials → Tunnel → Tunnel × Status
unfolding with_engine
connect created validated started credentials t =
    if is_transitional t.state || same_state t.state connected
    then (t, invalid_state (codes "tunnel is already connecting or connected"))
    else if not t.deps.engines
    then (t, invalid_state (codes "no engine registry configured"))
    else with_engine created validated started credentials t

abbrev pub cancel : Option Bool → Option Bool
cancel none = none
cancel (some flag) = some true

-- The engine's `stop`, called only where there is an engine.
abbrev pub stop_engine : Answer → Option ℕ → Tunnel → Tunnel
stop_engine stopped none t = t
stop_engine stopped (some engine) t = receive stopped t

unfoldable pub disconnect : Answer → Tunnel → Tunnel × Status
unfolding transition release_session run_callbacks
disconnect stopped t =
    if same_state t.state disconnected
    then (t, ok_status)
    else let leaving = transition disconnecting ok_status 0 t in
      let stopping = record leaving { cancelled = cancel leaving.cancelled } in
      let released = release_session (stop_engine stopped t.engine stopping) in
      (transition disconnected ok_status 0 (record released { engine = none }), ok_status)

unfoldable pub reconnect : Answer → Tunnel → Tunnel × Status
unfolding transition run_callbacks
reconnect renegotiated t = elim t.engine [
  | none ↦ (t, invalid_state (codes "tunnel is not connected"))
  | some engine ↦
      (receive renegotiated (transition reconnecting ok_status 0 t), renegotiated.status)
]

unfoldable pub answer_challenge : Answer → Tunnel → Tunnel × Status
unfolding run_callbacks
answer_challenge provided t = elim t.engine [
  | none ↦ (t, invalid_state (codes "no active session to answer"))
  | some engine ↦ (receive provided t, provided.status)
]

-- In seconds; the clock counts milliseconds.
unfoldable pub uptime : ℕ → Tunnel → ℕ
uptime now t = if same_state t.state connected then (now - t.connected_at) / 1000 else 0
