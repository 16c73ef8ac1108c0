-- ===== src/Examples/Connections.antt =====
-- The theorems about Tunnel/src/TunnelManager.cpp at a concrete session.
use vpn_client.Prelude.{
  is_empty, true, false, none, some, [], ◌∷◌, ◌≡◌, ◌||◌, refl, codes, All, equal,
}
use vpn_client.Core.Status.{value, error, ok_status, is_error}
use vpn_client.Core.Types.{connected, disconnected, reconnecting, same_state, is_transitional}
use vpn_client.Networking.Address.{from_v4}
use vpn_client.Tunnel.{
  Tunnel, TunnelManagerDeps, TunnelSessionInfo, Profile, no_credentials, no_counters, Answer,
  on_state_changed, on_session_established, on_counters, make_tunnel, connect, disconnect,
  reconnect, invalid_state,
}
use vpn_client.Tunnel.Events.{
  IsChain, IsPaired, is_some, Reached, created, then_step, connects, Reached-IsChain,
  Reached-IsPaired,
}
use vpn_client.Tunnel.Lifecycle.{IsStopped, disconnect-IsStopped}
use vpn_client.Tunnel.Connecting.{
  IsStarted, HasFailed, connect_error, connect-IsStarted, reconnect-connect,
}
use vpn_client.Tunnel.Manager.{
  primary, not_found, store, TunnelManager, make_manager, create, find, find_tunnel, destroy,
  disconnect_all,
}
use vpn_client.Tunnel.Manager.Invariant.{IsConsistent}
use vpn_client.Tunnel.Manager.Runs.{Managed, made, then_call, creates, runs, Managed-IsConsistent}
use vpn_client.Tunnel.Manager.Calls.{primary-Managed, destroy-find, disconnect_all-ends}

abbrev deps : TunnelManagerDeps
deps = record {
  engines = true;
  events = true;
  on_session_up = true;
  on_session_down = true;
  max_concurrent_tunnels = 4;
}

abbrev profile : Profile
profile = record { id = codes "p1"; is_open_vpn = true; engine_id = [] }

abbrev info : TunnelSessionInfo
info = record {
  local_address = record { network = from_v4 (10 ∷ 8 ∷ 0 ∷ 6 ∷ []); prefix_length = 24 };
  local_address_v6 = none;
  server_virtual_ip = none;
  remote_endpoint = record { address = from_v4 (192 ∷ 0 ∷ 2 ∷ 1 ∷ []); port = 1194 };
  dns_servers = [];
  search_domains = codes "corp.lan" ∷ [];
  pushed_routes = [];
  mtu = 1500;
  cipher = codes "AES-256-GCM";
  auth_digest = codes "SHA256";
  tls_version = codes "TLSv1.3";
  peer_certificate_subject = codes "CN=vpn";
  peer_certificate_fingerprint = codes "ab:cd";
  connected_at = 7;
  adapter_interface_index = 7;
}

-- `start` succeeds, and the engine reports a session meanwhile.
abbrev started : Answer
started = record {
  status = ok_status;
  callbacks =
      on_session_established info
      ∷ on_state_changed connected ok_status
      ∷ on_counters no_counters
      ∷ [];
  now = 2000;
  wall = 7;
}

abbrev failed : Answer
failed = record { status = invalid_state []; callbacks = []; now = 2000; wall = 7 }

abbrev stopped : Answer
stopped = record {
  status = ok_status;
  callbacks = on_state_changed disconnected ok_status ∷ [];
  now = 3000;
  wall = 8;
}

abbrev fresh : Tunnel
unfolding make_tunnel
fresh = make_tunnel (codes "t1") profile deps 1000

session : Tunnel
unfolding connect
session = (connect (value 1) ok_status started no_credentials fresh).0

session-Reached : Reached session
unfolding session make_tunnel fresh
session-Reached =
    then_step fresh session (created (codes "t1") profile deps 1000)
      (connects (value 1) ok_status started no_credentials fresh)

up : session.deps.events ≡ true
unfolding session connect is_transitional fresh same_state
up = refl

up_hook : session.deps.on_session_up ≡ true
unfolding session connect is_transitional fresh same_state
up_hook = refl

down_hook : session.deps.on_session_down ≡ true
unfolding session connect is_transitional fresh same_state
down_hook = refl

running : same_state session.state disconnected ≡ false
unfolding session connect same_state is_transitional fresh
running = refl

Reached-IsChain_example : IsChain disconnected session.output session.state
Reached-IsChain_example = Reached-IsChain session session-Reached up

Reached-IsPaired_example : IsPaired false session.output (is_some session.session)
Reached-IsPaired_example = Reached-IsPaired session session-Reached up_hook down_hook

disconnect-IsStopped_example :
    ((disconnect stopped session).1 ≡ ok_status) × IsStopped session (disconnect stopped session).0
disconnect-IsStopped_example = disconnect-IsStopped stopped session running

starts : is_error (connect (value 1) ok_status started no_credentials fresh).1 ≡ false
unfolding connect is_transitional fresh same_state
starts = refl

fails : is_error (connect (value 1) ok_status failed no_credentials fresh).1 ≡ true
unfolding connect is_transitional fresh same_state
fails = refl

connect-IsStarted_example :
    ((is_transitional fresh.state || same_state fresh.state connected) ≡ false)
    × (is_error ok_status ≡ false)
    × (is_error started.status ≡ false)
    × IsStarted 1 no_credentials (connect (value 1) ok_status started no_credentials fresh).0
connect-IsStarted_example = connect-IsStarted 1 ok_status started no_credentials fresh starts

connect_error_example : HasFailed fresh (connect (value 1) ok_status failed no_credentials fresh).0
connect_error_example = connect_error (value 1) ok_status failed no_credentials fresh fails

abbrev empty : TunnelManager
unfolding make_manager
empty = make_manager deps

-- The manager with one tunnel, which has just been made, and then with the same one connected.
idle_manager : TunnelManager
unfolding create
idle_manager = (create ok_status (codes "t1") 1000 profile empty).0

idle_manager-Managed : Managed idle_manager
unfolding idle_manager make_manager empty
idle_manager-Managed =
    then_call empty idle_manager (made deps)
      (creates ok_status (codes "t1") 1000 profile empty refl)

holds_fresh : find_tunnel fresh.id idle_manager.tunnels ≡ some fresh
unfolding idle_manager create find_tunnel empty equal
holds_fresh = refl

manager : TunnelManager
unfolding idle_manager
manager = record idle_manager { tunnels = store session idle_manager.tunnels }

manager-Managed : Managed manager
unfolding manager session idle_manager
manager-Managed = then_call idle_manager manager idle_manager-Managed (
    runs fresh session idle_manager holds_fresh
      (connects (value 1) ok_status started no_credentials fresh))

holds_session : find_tunnel (codes "t1") manager.tunnels ≡ some session
unfolding manager idle_manager create find_tunnel empty equal store session is_transitional
    same_state
holds_session = refl

one_differs : equal (codes "t1") (codes "t2") ≡ false
unfolding equal
one_differs = refl

Managed-IsConsistent_example : IsConsistent manager
Managed-IsConsistent_example = Managed-IsConsistent manager manager-Managed

destroy-find_example :
    (find (codes "t1") (destroy stopped (codes "t1") manager).0 ≡ error (not_found (codes "t1")))
    × (find (codes "t2") (destroy stopped (codes "t1") manager).0 ≡ find (codes "t2") manager)
    × ((destroy stopped (codes "t1") manager).2 ≡ ok_status)
    × ((u : Tunnel) × ((destroy stopped (codes "t1") manager).1 ≡ some u)
        × (u.state ≡ disconnected)
        × (same_state session.state disconnected ≡ false → IsStopped session u))
destroy-find_example =
    destroy-find stopped (codes "t1") (codes "t2") manager session manager-Managed holds_session
      one_differs

some_held : is_empty manager.tunnels ≡ false
unfolding manager idle_manager create find_tunnel empty equal store session is_transitional
    same_state
some_held = refl

primary-Managed_example :
    (t : Tunnel) × (primary manager ≡ value t)
    × (find_tunnel manager.primary_id manager.tunnels ≡ some t)
primary-Managed_example = primary-Managed manager manager-Managed some_held

disconnect_all-ends_example :
    ((disconnect_all (λ _. stopped) manager).1 ≡ ok_status)
    × All (λ t. t.state ≡ disconnected) (disconnect_all (λ _. stopped) manager).0.tunnels
disconnect_all-ends_example = disconnect_all-ends (λ _. stopped) manager

abbrev silent : Answer
silent = record { status = ok_status; callbacks = []; now = 4000; wall = 9 }

reconnect-connect_example :
    ((connect (value 1) (invalid_state []) started no_credentials fresh).0.state ≡ disconnected)
    × ((reconnect silent
          (connect (value 1) (invalid_state []) started no_credentials fresh).0).0.state
        ≡ reconnecting)
unfolding fresh
reconnect-connect_example =
    reconnect-connect 1 (invalid_state []) started silent no_credentials fresh refl refl refl refl
