-- ===== src/Services/Methods.antt =====
-- The verbs and the events of the protocol of the service: `Method` and `EventKind` of
-- Services/include/NovaVPN/Services/IpcProtocol.h, and their tables in Services/src/IpcProtocol.cpp.
use vpn_client.Prelude.{
  ℕ, ◌==◌, ltb, Bool, true, false, if◌then◌else◌, List, [], ◌∷◌, Option, none, some, ◌≡◌, refl,
  Bytes, codes,
}

pub data Method : Type 0 where
  hello list_profiles get_profile add_profile update_profile delete_profile import_ovpn : Method
  export_profile set_profile_favorite set_profile_credentials rename_profile connect : Method
  disconnect disconnect_all reconnect answer_challenge get_tunnels get_statistics : Method
  set_primary_tunnel get_routing_policy set_routing_policy get_split_tunnel_config : Method
  set_split_tunnel_config list_processes list_installed_apps get_application_icon : Method
  get_firewall_policy set_firewall_policy run_leak_test get_network_state get_settings : Method
  set_settings get_logs export_support_bundle get_service_info check_for_update : Method
  download_update install_update : Method

pub data EventKind : Type 0 where
  tunnel_state_changed statistics_tick auth_challenge network_changed leak_detected : EventKind
  profile_list_changed update_progress log_record service_shutting_down : EventKind

-- The value of an enumerator.
unfoldable pub number : Method → ℕ
number Method.hello = 1
number Method.list_profiles = 100
number Method.get_profile = 101
number Method.add_profile = 102
number Method.update_profile = 103
number Method.delete_profile = 104
number Method.import_ovpn = 105
number Method.export_profile = 106
number Method.set_profile_favorite = 107
number Method.set_profile_credentials = 108
number Method.rename_profile = 109
number Method.connect = 200
number Method.disconnect = 201
number Method.disconnect_all = 202
number Method.reconnect = 203
number Method.answer_challenge = 204
number Method.get_tunnels = 205
number Method.get_statistics = 206
number Method.set_primary_tunnel = 207
number Method.get_routing_policy = 300
number Method.set_routing_policy = 301
number Method.get_split_tunnel_config = 302
number Method.set_split_tunnel_config = 303
number Method.list_processes = 304
number Method.list_installed_apps = 305
number Method.get_application_icon = 306
number Method.get_firewall_policy = 400
number Method.set_firewall_policy = 401
number Method.run_leak_test = 402
number Method.get_network_state = 403
number Method.get_settings = 500
number Method.set_settings = 501
number Method.get_logs = 502
number Method.export_support_bundle = 503
number Method.get_service_info = 504
number Method.check_for_update = 600
number Method.download_update = 601
number Method.install_update = 602

unfoldable pub event_number : EventKind → ℕ
event_number EventKind.tunnel_state_changed = 1000
event_number EventKind.statistics_tick = 1001
event_number EventKind.auth_challenge = 1002
event_number EventKind.network_changed = 1003
event_number EventKind.leak_detected = 1004
event_number EventKind.profile_list_changed = 1005
event_number EventKind.update_progress = 1006
event_number EventKind.log_record = 1007
event_number EventKind.service_shutting_down = 1008

-- `kMethods` and `kEvents`.
abbrev pub methods : List (Method × Bytes)
methods =
    (Method.hello, codes "Hello")
    ∷ (Method.list_profiles, codes "ListProfiles")
    ∷ (Method.get_profile, codes "GetProfile")
    ∷ (Method.add_profile, codes "AddProfile")
    ∷ (Method.update_profile, codes "UpdateProfile")
    ∷ (Method.delete_profile, codes "DeleteProfile")
    ∷ (Method.import_ovpn, codes "ImportOvpn")
    ∷ (Method.export_profile, codes "ExportProfile")
    ∷ (Method.set_profile_favorite, codes "SetProfileFavorite")
    ∷ (Method.set_profile_credentials, codes "SetProfileCredentials")
    ∷ (Method.rename_profile, codes "RenameProfile")
    ∷ (Method.connect, codes "Connect")
    ∷ (Method.disconnect, codes "Disconnect")
    ∷ (Method.disconnect_all, codes "DisconnectAll")
    ∷ (Method.reconnect, codes "Reconnect")
    ∷ (Method.answer_challenge, codes "AnswerChallenge")
    ∷ (Method.get_tunnels, codes "GetTunnels")
    ∷ (Method.get_statistics, codes "GetStatistics")
    ∷ (Method.set_primary_tunnel, codes "SetPrimaryTunnel")
    ∷ (Method.get_routing_policy, codes "GetRoutingPolicy")
    ∷ (Method.set_routing_policy, codes "SetRoutingPolicy")
    ∷ (Method.get_split_tunnel_config, codes "GetSplitTunnelConfig")
    ∷ (Method.set_split_tunnel_config, codes "SetSplitTunnelConfig")
    ∷ (Method.list_processes, codes "ListProcesses")
    ∷ (Method.list_installed_apps, codes "ListInstalledApps")
    ∷ (Method.get_application_icon, codes "GetApplicationIcon")
    ∷ (Method.get_firewall_policy, codes "GetFirewallPolicy")
    ∷ (Method.set_firewall_policy, codes "SetFirewallPolicy")
    ∷ (Method.run_leak_test, codes "RunLeakTest")
    ∷ (Method.get_network_state, codes "GetNetworkState")
    ∷ (Method.get_settings, codes "GetSettings")
    ∷ (Method.set_settings, codes "SetSettings")
    ∷ (Method.get_logs, codes "GetLogs")
    ∷ (Method.get_service_info, codes "GetServiceInfo")
    ∷ []

abbrev events : List (EventKind × Bytes)
events =
    (EventKind.tunnel_state_changed, codes "TunnelStateChanged")
    ∷ (EventKind.statistics_tick, codes "StatisticsTick")
    ∷ (EventKind.auth_challenge, codes "AuthChallenge")
    ∷ (EventKind.network_changed, codes "NetworkChanged")
    ∷ (EventKind.leak_detected, codes "LeakDetected")
    ∷ (EventKind.profile_list_changed, codes "ProfileListChanged")
    ∷ (EventKind.update_progress, codes "UpdateProgress")
    ∷ (EventKind.log_record, codes "LogRecord")
    ∷ (EventKind.service_shutting_down, codes "ServiceShuttingDown")
    ∷ []

-- The methods that the switches of `isKnownMethod` and `toString` list after the table.
abbrev pub nameless : List (Method × Bytes)
nameless =
    (Method.export_support_bundle, codes "ExportSupportBundle")
    ∷ (Method.check_for_update, codes "CheckForUpdate")
    ∷ (Method.download_update, codes "DownloadUpdate")
    ∷ (Method.install_update, codes "InstallUpdate")
    ∷ []

-- The first entry with a value.
unfoldable pub entry_with : {A : Type 0} → (A → ℕ) → ℕ → List (A × Bytes) → Option (A × Bytes)
entry_with value raw [] = none
entry_with value raw ((a, text) ∷ entries) =
    let other = entry_with value raw entries in if value a == raw then some (a, text) else other

-- `isKnownMethod`, with the method where it is known.
unfoldable pub is_known_method : ℕ → Option Method
unfolding entry_with number
is_known_method raw = elim (entry_with number raw methods) [
  | some (m, text) ↦ some m
  | none ↦ elim (entry_with number raw nameless) [ none ↦ none | some (m, text) ↦ some m ]
]

unfoldable pub is_known_event : ℕ → Option EventKind
unfolding entry_with event_number
is_known_event raw = elim (entry_with event_number raw events) [
  | none ↦ none
  | some (e, text) ↦ some e
]

unfoldable pub to_string : Method → Bytes
unfolding entry_with number
to_string m = elim (entry_with number (number m) methods) [
  | some (n, text) ↦ text
  | none ↦ elim (entry_with number (number m) nameless) [
    | none ↦ codes "Unknown"
    | some (n, text) ↦ text
  ]
]

unfoldable pub event_to_string : EventKind → Bytes
unfolding entry_with event_number
event_to_string e = elim (entry_with event_number (event_number e) events) [
  | none ↦ codes "Unknown"
  | some (k, text) ↦ text
]

unfoldable pub requires_administrator : Method → Bool
requires_administrator Method.set_routing_policy = true
requires_administrator Method.set_split_tunnel_config = true
requires_administrator Method.set_firewall_policy = true
requires_administrator Method.install_update = true
requires_administrator _ = false

-- Every method and every event is known by its value.
pub is_known_method-number : (m : Method) → is_known_method (number m) ≡ some m
unfolding is_known_method entry_with number
is_known_method-number Method.hello = refl
is_known_method-number Method.list_profiles = refl
is_known_method-number Method.get_profile = refl
is_known_method-number Method.add_profile = refl
is_known_method-number Method.update_profile = refl
is_known_method-number Method.delete_profile = refl
is_known_method-number Method.import_ovpn = refl
is_known_method-number Method.export_profile = refl
is_known_method-number Method.set_profile_favorite = refl
is_known_method-number Method.set_profile_credentials = refl
is_known_method-number Method.rename_profile = refl
is_known_method-number Method.connect = refl
is_known_method-number Method.disconnect = refl
is_known_method-number Method.disconnect_all = refl
is_known_method-number Method.reconnect = refl
is_known_method-number Method.answer_challenge = refl
is_known_method-number Method.get_tunnels = refl
is_known_method-number Method.get_statistics = refl
is_known_method-number Method.set_primary_tunnel = refl
is_known_method-number Method.get_routing_policy = refl
is_known_method-number Method.set_routing_policy = refl
is_known_method-number Method.get_split_tunnel_config = refl
is_known_method-number Method.set_split_tunnel_config = refl
is_known_method-number Method.list_processes = refl
is_known_method-number Method.list_installed_apps = refl
is_known_method-number Method.get_application_icon = refl
is_known_method-number Method.get_firewall_policy = refl
is_known_method-number Method.set_firewall_policy = refl
is_known_method-number Method.run_leak_test = refl
is_known_method-number Method.get_network_state = refl
is_known_method-number Method.get_settings = refl
is_known_method-number Method.set_settings = refl
is_known_method-number Method.get_logs = refl
is_known_method-number Method.export_support_bundle = refl
is_known_method-number Method.get_service_info = refl
is_known_method-number Method.check_for_update = refl
is_known_method-number Method.download_update = refl
is_known_method-number Method.install_update = refl

pub is_known_event-event_number : (e : EventKind) → is_known_event (event_number e) ≡ some e
unfolding is_known_event entry_with event_number
is_known_event-event_number EventKind.tunnel_state_changed = refl
is_known_event-event_number EventKind.statistics_tick = refl
is_known_event-event_number EventKind.auth_challenge = refl
is_known_event-event_number EventKind.network_changed = refl
is_known_event-event_number EventKind.leak_detected = refl
is_known_event-event_number EventKind.profile_list_changed = refl
is_known_event-event_number EventKind.update_progress = refl
is_known_event-event_number EventKind.log_record = refl
is_known_event-event_number EventKind.service_shutting_down = refl

pub number_fits : (m : Method) → ltb 0xFFFF (number m) ≡ false
unfolding number
number_fits Method.hello = refl
number_fits Method.list_profiles = refl
number_fits Method.get_profile = refl
number_fits Method.add_profile = refl
number_fits Method.update_profile = refl
number_fits Method.delete_profile = refl
number_fits Method.import_ovpn = refl
number_fits Method.export_profile = refl
number_fits Method.set_profile_favorite = refl
number_fits Method.set_profile_credentials = refl
number_fits Method.rename_profile = refl
number_fits Method.connect = refl
number_fits Method.disconnect = refl
number_fits Method.disconnect_all = refl
number_fits Method.reconnect = refl
number_fits Method.answer_challenge = refl
number_fits Method.get_tunnels = refl
number_fits Method.get_statistics = refl
number_fits Method.set_primary_tunnel = refl
number_fits Method.get_routing_policy = refl
number_fits Method.set_routing_policy = refl
number_fits Method.get_split_tunnel_config = refl
number_fits Method.set_split_tunnel_config = refl
number_fits Method.list_processes = refl
number_fits Method.list_installed_apps = refl
number_fits Method.get_application_icon = refl
number_fits Method.get_firewall_policy = refl
number_fits Method.set_firewall_policy = refl
number_fits Method.run_leak_test = refl
number_fits Method.get_network_state = refl
number_fits Method.get_settings = refl
number_fits Method.set_settings = refl
number_fits Method.get_logs = refl
number_fits Method.export_support_bundle = refl
number_fits Method.get_service_info = refl
number_fits Method.check_for_update = refl
number_fits Method.download_update = refl
number_fits Method.install_update = refl

pub event_number_fits : (e : EventKind) → ltb 0xFFFF (event_number e) ≡ false
unfolding event_number
event_number_fits EventKind.tunnel_state_changed = refl
event_number_fits EventKind.statistics_tick = refl
event_number_fits EventKind.auth_challenge = refl
event_number_fits EventKind.network_changed = refl
event_number_fits EventKind.leak_detected = refl
event_number_fits EventKind.profile_list_changed = refl
event_number_fits EventKind.update_progress = refl
event_number_fits EventKind.log_record = refl
event_number_fits EventKind.service_shutting_down = refl
