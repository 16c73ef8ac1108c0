-- ===== src/Routing/Routes/Operations.antt =====
-- The calls of the route manager of Routing/src/RouteManager.cpp that change something, in sequence.
use vpn_client.Prelude.{ℕ, List, [], ◌∷◌, Bytes}
use vpn_client.Core.Status.{ok_status}
use vpn_client.Core.Types.{AddressFamily}
use vpn_client.Core.Json.{JsonLibrary}
use vpn_client.Networking.Address.{IpAddress}
use vpn_client.Routing.Rules.{RoutingPolicy}
use vpn_client.Routing.Routes.Machine.{done, ◌>>=◌}
use vpn_client.Routing.Routes.{
  RouteEntry, DefaultRouteMode, RouteManager, set_underlay_interface, set_tunnel_interface,
  clear_tunnel_interface,
}
use vpn_client.Routing.Routes.Actions.{
  Action, add_route, remove_route, capture_default_route, apply_policy, pin_gateway_route,
  remove_all_owned_routes, reconcile,
}

-- The methods of `IRouteManager` that change something.
pub data Operation : Type 0 where
  add : RouteEntry → Operation
  remove : RouteEntry → Operation
  pin : IpAddress → ℕ → Operation
  capture : ℕ → DefaultRouteMode → AddressFamily → Operation
  apply : RoutingPolicy → Operation
  remove_all reconcile_all : Operation
  set_underlay : ℕ → Operation
  set_tunnel : Bytes → ℕ → Operation
  clear_tunnel : Bytes → Operation

module _ (L : JsonLibrary) (system_text : ℕ → Bytes) where
  unfoldable pub perform : Operation → RouteManager → Action L system_text
  unfolding add_route remove_route pin_gateway_route capture_default_route apply_policy
      remove_all_owned_routes reconcile set_underlay_interface set_tunnel_interface
      clear_tunnel_interface
  perform (add entry) m = add_route L system_text entry m
  perform (remove entry) m = remove_route L system_text entry m
  perform (pin gateway index) m = pin_gateway_route L system_text gateway index m
  perform (capture index mode family) m = capture_default_route L system_text index mode family m
  perform (apply policy) m = apply_policy L system_text policy m
  perform remove_all m = remove_all_owned_routes L system_text m
  perform reconcile_all m = reconcile L system_text m
  perform (set_underlay index) m = done (set_underlay_interface index m, ok_status)
  perform (set_tunnel id index) m = done (set_tunnel_interface id index m, ok_status)
  perform (clear_tunnel id) m = done (clear_tunnel_interface id m, ok_status)

  -- The calls in turn, whatever their statuses.
  unfoldable pub operate : List Operation → RouteManager → Action L system_text
  unfolding perform
  operate [] m = done (m, ok_status)
  operate (o ∷ os) m = perform o m >>= λ after. operate os after.0
