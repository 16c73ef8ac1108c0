-- ===== src/Routing/Routes.antt =====
-- The routes that the service owns: Routing/include/NovaVPN/Routing/RouteManager.h and
-- Routing/src/RouteManager.cpp. A method is a program that calls the machine (the IP helper functions,
-- and the file of the ledger) and goes on with what each call answers; the lock that keeps the methods
-- apart is not modelled. A `SOCKADDR_INET` is the address that it holds.
pub mod Machine
pub mod Ledger
pub mod Actions
pub mod Operations
pub mod Journal
pub mod Ordered
pub mod Reading
pub mod Capture
use vpn_client.Prelude.{
  ℕ, Bool, true, false, not, ◌&&◌, ◌||◌, ◌==◌, ltb, if◌then◌else◌, is_empty, Option, none, some,
  List, [], ◌∷◌, ◌++◌, length, map, Bytes, codes, equal,
}
use vpn_client.Core.Status.{
  ErrorCode, Status, ok_status, is_ok, is_error, make, with_context, Result, value, error, ◌>>=◌,
}
use vpn_client.Core.Types.{AddressFamily, ipv4, ipv6}
use vpn_client.Core.Text.{to_decimal}
use vpn_client.Core.Json.{JsonLibrary, get}
use vpn_client.Networking.Address
use vpn_client.Networking.Address.{
  IpAddress, from_v4, from_v6, any_v4, any_v6, is_v4, is_unspecified, same_family,
}
use vpn_client.Networking.Range
use vpn_client.Networking.Range.{IpRange}
use vpn_client.Routing.Rules.{Disposition, tunnel, direct, block, IpRule, RoutingPolicy}
use vpn_client.Routing.Routes.Machine.{Row, RowId}
use vpn_client.Routing.Routes.Ledger.{put, erase, find}

pub record RouteEntry : Type 0 where
  pub destination : IpRange
  pub next_hop : Option IpAddress
  pub interface_index : ℕ
  pub metric : ℕ
  pub owned : Bool

pub data DefaultRouteMode : Type 0 where
  leave split_halves replace : DefaultRouteMode

-- `kOwnedRouteMetric`.
abbrev owned_route_metric : ℕ
owned_route_metric = 0

abbrev pub any_of : AddressFamily → IpAddress
any_of ipv4 = any_v4
any_of ipv6 = any_v6

-- The row of an entry with the next hop `hop`; the protocol, which is always the same, is left out.
abbrev pub row_with : RouteEntry → IpAddress → Row
row_with entry hop = record {
  id = record {
    interface_index = entry.interface_index;
    prefix = entry.destination.network;
    prefix_length = entry.destination.prefix_length;
    next_hop = hop;
  };
  metric = entry.metric;
}

unfoldable pub to_row : RouteEntry → Result Row
unfolding Range.to_string
to_row entry = elim entry.next_hop [
  | none ↦ value (row_with entry (any_of entry.destination.network.family))
  | some hop ↦
      if same_family hop.family entry.destination.network.family
      then value (row_with entry hop)
      else error (
          make ErrorCode.invalid_argument (
            codes "route next hop family does not match destination "
            ++ Range.to_string entry.destination))
]

unfoldable pub route_key : RouteEntry → Bytes
unfolding Range.to_string
route_key entry =
    Range.to_string entry.destination ++ (codes "@" ++ to_decimal entry.interface_index)

-- `m_underlayInterface`, `m_tunnelInterfaces` and `m_owned`.
pub record RouteManager : Type 0 where
  pub underlay : ℕ
  pub tunnels : List (Bytes × ℕ)
  pub owned : List (Bytes × RouteEntry)

unfoldable pub set_underlay_interface : ℕ → RouteManager → RouteManager
set_underlay_interface index m = record m { underlay = index }

unfoldable pub set_tunnel_interface : Bytes → ℕ → RouteManager → RouteManager
unfolding put
set_tunnel_interface id index m = record m { tunnels = put id index m.tunnels }

unfoldable pub clear_tunnel_interface : Bytes → RouteManager → RouteManager
unfolding erase
clear_tunnel_interface id m = record m { tunnels = erase id m.tunnels }

-- The entry of the lambda `makeEntry`, of a range whose text the source gives.
abbrev pub capture_entry : ℕ → IpRange → RouteEntry
capture_entry index range = record {
  destination = range;
  next_hop = none;
  interface_index = index;
  metric = owned_route_metric;
  owned = true;
}

-- `IpRange::parse(…).value()`, which ends the process where the text is no range; the texts are fixed.
abbrev range_of : Result IpRange → IpRange
range_of (value range) = range
range_of (error s) = record { network = any_v4; prefix_length = 0 }

unfoldable pub capture_texts : DefaultRouteMode → AddressFamily → List Bytes
capture_texts leave family = []
capture_texts split_halves ipv4 = codes "0.0.0.0/1" ∷ codes "128.0.0.0/1" ∷ []
capture_texts split_halves ipv6 = codes "::/1" ∷ codes "8000::/1" ∷ []
capture_texts replace ipv4 = codes "0.0.0.0/0" ∷ []
capture_texts replace ipv6 = codes "::/0" ∷ []

unfoldable pub default_route_entries : DefaultRouteMode → AddressFamily → ℕ → List RouteEntry
unfolding capture_texts Range.parse
default_route_entries mode family index =
    map (λ text. capture_entry index (range_of (Range.parse text))) (capture_texts mode family)

-- The interface that a rule's routes land on, 0 if there is none; `none` for a rule that blocks.
unfoldable pub rule_interface : IpRule → RouteManager → Option ℕ
unfolding find
rule_interface rule m = elim rule.base.disposition [
  | block ↦ none
  | direct ↦ some m.underlay
  | tunnel ↦ elim (find rule.base.tunnel_id m.tunnels) [
    | some index ↦ some index
    | none ↦ elim m.tunnels [
      | [] ↦ some 0
      | (first, index) ∷ rest ↦ some (if is_empty rule.base.tunnel_id then index else 0)
    ]
  ]
]

-- `toJson` and `routeEntryFromJson`.
module _ (L : JsonLibrary) where
  open L use {
    Json, object, array, text, number, boolean, is_object, is_array, elements, member, as_text,
    as_unsigned, as_boolean,
  }

  abbrev hop_field : Option IpAddress → List (Bytes × Json)
  hop_field none = []
  hop_field (some hop) = (codes "nextHop", text (Address.to_string hop)) ∷ []

  unfoldable pub to_json : RouteEntry → Json
  unfolding Range.to_string Address.to_string
  to_json entry = object (
      (codes "destination", text (Range.to_string entry.destination))
      ∷ (codes "interfaceIndex", number entry.interface_index)
      ∷ (codes "metric", number entry.metric)
      ∷ (codes "owned", boolean entry.owned)
      ∷ hop_field entry.next_hop)

  -- The next hop of a document, if it has one.
  unfoldable pub hop_from_json : Json → Result (Option IpAddress)
  unfolding get Address.parse
  hop_from_json json = elim (member json (codes "nextHop")) [
    | none ↦ value none
    | some field ↦ (do
      hop ← Address.parse (get L as_text json (codes "nextHop" ∷ []) [])
      value (some hop))
  ]

  unfoldable pub from_json : Json → Result RouteEntry
  unfolding get hop_from_json Range.parse
  from_json json =
      if not (is_object json)
      then error (make ErrorCode.parse_error (codes "route entry is not a JSON object"))
      else (do
        destination ← Range.parse (get L as_text json (codes "destination" ∷ []) [])
        hop ← hop_from_json json
        let index = get L (as_unsigned 32) json (codes "interfaceIndex" ∷ []) 0
        if index == 0
            then error
                (make ErrorCode.invalid_argument (codes "route entry has no interface index"))
            else value (record {
              destination = destination;
              next_hop = hop;
              interface_index = index;
              metric = get L (as_unsigned 32) json (codes "metric" ∷ []) 0;
              owned = get L as_boolean json (codes "owned" ∷ []) true;
            }))

  -- The document that `saveRecordLocked` writes.
  unfoldable pub document : List (Bytes × RouteEntry) → Json
  unfolding to_json
  document owned = array (map (λ entry. to_json entry.1) owned)

  -- The loop of `loadRecord`.
  unfoldable pub load_items : List Json → List (Bytes × RouteEntry) → List (Bytes × RouteEntry)
  unfolding from_json put route_key
  load_items [] owned = owned
  load_items (item ∷ items) owned = elim (from_json item) [
    | error s ↦ load_items items owned
    | value entry ↦ load_items items (put (route_key entry) entry owned)
  ]

  -- `loadRecord`, of what the file holds; `none` where there is no file or it cannot be read.
  unfoldable pub load_record : Option Json → List (Bytes × RouteEntry)
  unfolding load_items
  load_record none = []
  load_record (some json) = if is_array json then load_items (elements json) [] else []

  -- The constructor.
  unfoldable pub make_route_manager : Option Json → RouteManager
  unfolding load_record
  make_route_manager file = record { underlay = 0; tunnels = []; owned = load_record file }
