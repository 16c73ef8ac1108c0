-- ===== src/Tunnel/Manager.antt =====
-- The manager of the tunnels: the class `TunnelManager` of Tunnel/src/TunnelManager.cpp. Its hash map is
-- a list of tunnels in the order of iteration, which no one chooses: a tunnel that is added comes first
-- here, and `reorder` exchanges any two neighbours at any time. What `Profile::validate` and
-- `Uuid::generate` answer is given; so is what the engines answer, tunnel by tunnel.
pub mod Table
pub mod Sharing
pub mod Invariant
pub mod Runs
pub mod Calls
use vpn_client.Prelude.{
  ℕ, zero, suc, Bool, true, false, not, ◌&&◌, if◌then◌else◌, Option, none, some, List, [], ◌∷◌,
  ◌++◌, ◌≡◌, Bytes, codes, equal, ltb, is_empty, length, leb,
}
use vpn_client.Core.Status.{
  ErrorCode, Status, ok_status, is_ok, is_error, make, Result, value, error,
}
use vpn_client.Core.Text.{to_decimal}
use vpn_client.Tunnel.{Tunnel, TunnelManagerDeps, Profile, make_tunnel, Answer, disconnect}

pub record TunnelManager : Type 0 where
  pub deps : TunnelManagerDeps
  pub tunnels : List Tunnel
  pub primary_id : Bytes

abbrev pub not_found : Bytes → Status
not_found id = make ErrorCode.not_found (codes "no tunnel with id " ++ id)

unfoldable pub find_tunnel : Bytes → List Tunnel → Option Tunnel
find_tunnel id [] = none
find_tunnel id (t ∷ ts) = let rest = find_tunnel id ts in if equal t.id id then some t else rest

-- `m_tunnels.emplace`: nothing changes where the id is taken.
unfoldable pub emplace : Tunnel → List Tunnel → List Tunnel
unfolding find_tunnel
emplace t ts = elim (find_tunnel t.id ts) [ none ↦ t ∷ ts | some u ↦ ts ]

-- `m_tunnels.erase`.
unfoldable pub erase : Bytes → List Tunnel → List Tunnel
erase id [] = []
erase id (t ∷ ts) = let rest = erase id ts in if equal t.id id then ts else t ∷ rest

unfoldable pub make_manager : TunnelManagerDeps → TunnelManager
make_manager deps = record { deps = deps; tunnels = []; primary_id = [] }

-- `create`, where the profile validates as `valid`, the new id is `id`, and the time is `now`.
unfoldable pub create : Status → Bytes → ℕ → Profile → TunnelManager → TunnelManager × Result Tunnel
unfolding emplace make_tunnel
create valid id now profile m =
    if is_error valid
    then (m, error valid)
    else if leb m.deps.max_concurrent_tunnels (length m.tunnels)
    then (
      m,
      error (
          make ErrorCode.unavailable (
            codes "the concurrent tunnel limit ("
            ++ (to_decimal m.deps.max_concurrent_tunnels ++ codes ") is reached"))),
    )
    else let tunnel = make_tunnel id profile m.deps now in
      (
        record m {
          tunnels = emplace tunnel m.tunnels;
          primary_id = if is_empty m.primary_id then id else m.primary_id;
        },
        value tunnel,
      )

unfoldable pub find : Bytes → TunnelManager → Result Tunnel
unfolding find_tunnel
find id m = elim (find_tunnel id m.tunnels) [ none ↦ error (not_found id) | some t ↦ value t ]

-- The order of iteration changes: the tunnel at a position and the next one are exchanged.
unfoldable pub reorder : ℕ → List Tunnel → List Tunnel
reorder k [] = []
reorder k (t ∷ []) = t ∷ []
reorder zero (t ∷ u ∷ ts) = u ∷ t ∷ ts
reorder (suc k) (t ∷ u ∷ ts) = t ∷ reorder k (u ∷ ts)

-- A tunnel that the map shares with a caller has changed.
unfoldable pub store : Tunnel → List Tunnel → List Tunnel
store u [] = []
store u (t ∷ ts) = let rest = store u ts in if equal t.id u.id then u ∷ ts else t ∷ rest

-- `m_tunnels.begin()->first`, of the tunnel that iteration meets first.
abbrev pub first_id : List Tunnel → Bytes
first_id [] = []
first_id (t ∷ ts) = t.id

-- `destroy`: the manager, the tunnel taken out of it as `disconnect` leaves it, and the status.
unfoldable pub destroy : Answer → Bytes → TunnelManager → TunnelManager × Option Tunnel × Status
unfolding find_tunnel erase disconnect
destroy stopped id m = elim (find_tunnel id m.tunnels) [
  | none ↦ (m, none, not_found id)
  | some t ↦
      let rest = erase id m.tunnels in
      let (gone, status) = disconnect stopped t in
      (
        record m {
          tunnels = rest;
          primary_id = if equal m.primary_id id then first_id rest else m.primary_id;
        },
        some gone,
        status,
      )
]

-- The tunnels in turn; each one's engine answers as `stopped` says for its id.
unfoldable pub disconnect_each : (Bytes → Answer) → List Tunnel → Status → List Tunnel × Status
unfolding disconnect
disconnect_each stopped [] first = ([], first)
disconnect_each stopped (t ∷ ts) first =
    let (t', status) = disconnect (stopped t.id) t in
    let (ts', last) =
      disconnect_each stopped ts (if is_error status && is_ok first then status else first) in
    (t' ∷ ts', last)

unfoldable pub disconnect_all : (Bytes → Answer) → TunnelManager → TunnelManager × Status
unfolding disconnect_each
disconnect_all stopped m =
    let (tunnels, status) = disconnect_each stopped m.tunnels ok_status in
    (record m { tunnels = tunnels }, status)

unfoldable pub primary : TunnelManager → Result Tunnel
unfolding find_tunnel
primary m =
    if is_empty m.primary_id
    then error (make ErrorCode.not_found (codes "no primary tunnel"))
    else elim (find_tunnel m.primary_id m.tunnels) [
      | none ↦ error (make ErrorCode.not_found (codes "primary tunnel no longer exists"))
      | some t ↦ value t
    ]

unfoldable pub set_primary : Bytes → TunnelManager → TunnelManager × Status
unfolding find_tunnel
set_primary id m = elim (find_tunnel id m.tunnels) [
  | none ↦ (m, not_found id)
  | some t ↦ (record m { primary_id = id }, ok_status)
]
