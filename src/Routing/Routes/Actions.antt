-- ===== src/Routing/Routes/Actions.antt =====
-- The methods of `WindowsRouteManager`, Routing/src/RouteManager.cpp, that call the machine.
use vpn_client.Prelude.{
  ℕ, Bool, true, false, not, ◌&&◌, ◌||◌, ◌==◌, if◌then◌else◌, Option, none, some, List, [], ◌∷◌,
  ◌++◌, Bytes, codes, map,
}
use vpn_client.Core.Status.{
  ErrorCode, Status, ok_status, is_ok, is_error, with_context, Result, value, error,
}
use vpn_client.Core.Types.{AddressFamily}
use vpn_client.Core.WinError.{from_win32}
use vpn_client.Core.Json.{JsonLibrary}
use vpn_client.Networking.Address
use vpn_client.Networking.Address.{IpAddress, is_v4, is_unspecified}
use vpn_client.Networking.Range
use vpn_client.Networking.Range.{IpRange}
use vpn_client.Routing.Rules.{IpRule, RoutingPolicy}
use vpn_client.Routing.Routes.Machine.{
  Row, Program, done, save, create, delete, best_route, no_error, object_already_exists,
  not_found_code, ◌>>=◌,
}
use vpn_client.Routing.Routes.Ledger.{put, erase}
use vpn_client.Routing.Routes.{
  RouteEntry, DefaultRouteMode, to_row, route_key, RouteManager, document, default_route_entries,
  capture_entry, rule_interface,
}

-- `CreateIpForwardEntry2` made the row, or it was there.
abbrev pub is_created : ℕ → Bool
is_created code = code == no_error || code == object_already_exists

abbrev pub is_deleted : ℕ → Bool
is_deleted code = code == no_error || code == not_found_code

abbrev is_denied : ErrorCode → Bool
is_denied ErrorCode.permission_denied = true
is_denied _ = false

-- The entry that `applyPolicy` adds for a rule, if any.
unfoldable pub rule_entry : IpRule → RouteManager → Option RouteEntry
unfolding rule_interface
rule_entry rule m = if not rule.base.enabled then none else elim (rule_interface rule m) [
  | none ↦ none
  | some index ↦ if index == 0 then none else some (capture_entry index rule.range)
]

-- The next hop of a pinned route: that of the best route, unless it is on-link.
unfoldable pub pinned_hop : Result IpAddress → Option IpAddress
unfolding is_unspecified
pinned_hop (error s) = none
pinned_hop (value hop) = if is_unspecified hop then none else some hop

unfoldable pub pinned_entry : ℕ → Result IpAddress → IpRange → RouteEntry
unfolding pinned_hop
pinned_entry index hop range = record (capture_entry index range) { next_hop = pinned_hop hop }

abbrev pub owned_routes : RouteManager → List RouteEntry
owned_routes m = map (λ (entry : Bytes × RouteEntry). entry.1) m.owned

module _ (L : JsonLibrary) (system_text : ℕ → Bytes) where
  open L use {Json}

  abbrev pub Action : Type 0
  Action = Program Json (RouteManager × Status)

  abbrev pub save_record : RouteManager → Action
  save_record m =
      save (document L m.owned)
        (λ status. done (m, with_context (codes "persisting the route ledger") status))

  unfoldable pub record_route : RouteEntry → RouteManager → Action
  unfolding put route_key document
  record_route entry m = save_record (record m { owned = put (route_key entry) entry m.owned })

  unfoldable pub unrecord_route : RouteEntry → RouteManager → Action
  unfolding erase route_key document
  unrecord_route entry m = save_record (record m { owned = erase (route_key entry) m.owned })

  -- The status of a row that could not be made.
  unfoldable pub create_failure : ℕ → RouteEntry → Status
  unfolding from_win32 Range.to_string
  create_failure code entry =
      let failure =
        from_win32 system_text code
          (codes "CreateIpForwardEntry2(" ++ (Range.to_string entry.destination ++ codes ")")) in
      record failure {
        code =
            if is_denied failure.code
            then ErrorCode.permission_denied
            else ErrorCode.route_apply_failed;
      }

  -- What `addRoute` does with the answer of `CreateIpForwardEntry2`.
  unfoldable pub after_create : RouteEntry → RouteManager → ℕ → Action
  unfolding unrecord_route create_failure
  after_create entry m code =
      if is_created code
      then done (m, ok_status)
      else (unrecord_route entry m >>= λ after. done (after.0, create_failure code entry))

  -- What it does once the entry is recorded.
  unfoldable pub create_recorded : RouteEntry → Row → RouteManager → Status → Action
  unfolding after_create
  create_recorded entry row m recorded =
      if is_error recorded
      then done (m, recorded)
      else create row (λ code. after_create entry m code)

  unfoldable pub add_route : RouteEntry → RouteManager → Action
  unfolding to_row record_route create_recorded
  add_route entry m = elim (to_row entry) [
    | error s ↦ done (m, s)
    | value row ↦ record_route entry m >>= λ after. create_recorded entry row after.0 after.1
  ]

  -- What `removeRoute` does with the answer of `DeleteIpForwardEntry2`.
  unfoldable pub after_delete : RouteEntry → RouteManager → ℕ → Action
  unfolding unrecord_route from_win32 Range.to_string
  after_delete entry m code =
      if is_deleted code
      then unrecord_route entry m
      else done (
        m,
        from_win32 system_text code
            (codes "DeleteIpForwardEntry2(" ++ (Range.to_string entry.destination ++ codes ")")),
      )

  unfoldable pub remove_route : RouteEntry → RouteManager → Action
  unfolding to_row after_delete
  remove_route entry m = elim (to_row entry) [
    | error s ↦ done (m, s)
    | value row ↦ delete row (λ code. after_delete entry m code)
  ]

  -- Routes added in turn until one fails, each with what is said of its failure.
  unfoldable pub add_routes : List (Bytes × RouteEntry) → RouteManager → Action
  unfolding add_route
  add_routes [] m = done (m, ok_status)
  add_routes ((context, entry) ∷ entries) m = add_route entry m >>= λ after.
      if is_error after.1
      then done (after.0, with_context context after.1)
      else add_routes entries after.0

  unfoldable pub capture_default_route :
      ℕ → DefaultRouteMode → AddressFamily → RouteManager → Action
  unfolding add_routes default_route_entries
  capture_default_route index mode family m =
      add_routes
        (map (λ entry. (codes "capturing the default route", entry))
          (default_route_entries mode family index))
        m

  unfoldable pub apply_rules : List IpRule → RouteManager → Action
  unfolding add_route rule_entry
  apply_rules [] m = done (m, ok_status)
  apply_rules (rule ∷ rules) m = elim (rule_entry rule m) [
    | none ↦ apply_rules rules m
    | some entry ↦ add_route entry m >>= λ after.
        if is_error after.1
        then done (after.0, with_context (codes "applying rule " ++ rule.base.id) after.1)
        else apply_rules rules after.0
  ]

  unfoldable pub apply_policy : RoutingPolicy → RouteManager → Action
  unfolding apply_rules
  apply_policy policy m = apply_rules policy.ip_rules m

  -- What `pinGatewayRoute` does with the answer of `GetBestRoute2`.
  unfoldable pub after_best : IpAddress → ℕ → RouteManager → ℕ → Result IpAddress → Action
  unfolding add_route pinned_entry from_win32 Range.make Address.to_string
  after_best gateway index m code hop =
      if not (code == no_error)
      then done (
        m,
        from_win32 system_text code
            (codes "GetBestRoute2(" ++ (Address.to_string gateway ++ codes ")")),
      )
      else elim (Range.make gateway (if is_v4 gateway then 32 else 128)) [
        | error s ↦ done (m, s)
        | value range ↦ add_route (pinned_entry index hop range) m
      ]

  unfoldable pub pin_gateway_route : IpAddress → ℕ → RouteManager → Action
  unfolding after_best
  pin_gateway_route gateway index m =
      best_route gateway index (λ code hop. after_best gateway index m code hop)

  -- The loop of `removeAllOwnedRoutes` and of `reconcile`, with the first failure so far.
  unfoldable pub remove_each : List RouteEntry → Status → RouteManager → Action
  unfolding remove_route
  remove_each [] first m = done (m, first)
  remove_each (entry ∷ entries) first m = remove_route entry m >>= λ after.
      remove_each entries (if is_error after.1 && is_ok first then after.1 else first) after.0

  unfoldable pub remove_all_owned_routes : RouteManager → Action
  unfolding remove_each
  remove_all_owned_routes m = remove_each (owned_routes m) ok_status m

  -- `reconcile`, which returns early where nothing is recorded.
  unfoldable pub reconcile : RouteManager → Action
  unfolding remove_each
  reconcile m = elim (owned_routes m) [
    | [] ↦ done (m, ok_status)
    | entry ∷ entries ↦ remove_each (entry ∷ entries) ok_status m
  ]
