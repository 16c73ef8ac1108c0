-- ===== src/Examples/Routes.antt =====
-- The theorems about Routing/src/RouteManager.cpp and Core/src/FileUtil.cpp at concrete calls.
use vpn_client.Prelude.{some, arith, ℕ, true, false, none, List, [], ◌∷◌, ◌≡◌, refl, Bytes, codes}
use vpn_client.Core.Status.{value}
use vpn_client.Core.Types.{ipv4}
use vpn_client.Networking.Address.{IpAddress, from_v4, loopback_v4, v4}
use vpn_client.Networking.Range.{IpRange}
use vpn_client.Networking.Range
use vpn_client.Routing.Routes.{
  RouteEntry, split_halves, replace, capture_entry, to_json, from_json, make_route_manager,
  default_route_entries,
}
use vpn_client.Routing.Routes.Operations.{
  Operation, add, remove, pin, capture, set_underlay, operate,
}
use vpn_client.Routing.Routes.Journal.{Ahead, IsSame}
use vpn_client.Routing.Routes.Ordered.{operate-Ahead}
use vpn_client.Routing.Routes.Reading.{IsFour, from_json-to_json}
use vpn_client.Routing.Routes.Capture.{captures, default_route_entries-captures}
use vpn_client.Core.FileUtil.{Answers, takes, Disk, write_atomic}
use vpn_client.Core.FileUtil.Atomic.{IsHonest, IsAtomic, write_atomic-IsAtomic}
use vpn_client.Examples.Host.{documents, documents-IsLawful}

abbrev silent : ℕ → Bytes
silent code = []

abbrev low_half : RouteEntry
low_half = capture_entry 7 (record { network = from_v4 (0 ∷ 0 ∷ 0 ∷ 0 ∷ []); prefix_length = 1 })

abbrev high_half : RouteEntry
high_half = capture_entry 7 (record { network = from_v4 (128 ∷ 0 ∷ 0 ∷ 0 ∷ []); prefix_length = 1 })

abbrev office : RouteEntry
office = capture_entry 99 (record { network = from_v4 (10 ∷ 0 ∷ 0 ∷ 0 ∷ []); prefix_length = 8 })

abbrev gateway : IpAddress
gateway = from_v4 (203 ∷ 0 ∷ 113 ∷ 9 ∷ [])

abbrev calls : List Operation
calls =
    set_underlay 7 ∷ pin gateway 7 ∷ capture 7 split_halves ipv4 ∷ add office ∷ remove low_half ∷ []

operate-Ahead_example :
    Ahead documents IsSame
      (record { owned = (make_route_manager documents none).owned; written = false; absent = none })
      (operate documents silent calls (make_route_manager documents none))
operate-Ahead_example = operate-Ahead documents silent calls (make_route_manager documents none)

office_network : IsFour office.destination.network
office_network = record {
  first = 10;
  second = 0;
  third = 0;
  fourth = 0;
  small = (omega arith, omega arith, omega arith, omega arith);
  made = refl;
}

office_canonical : Range.make office.destination.network 8 ≡ value office.destination
unfolding Range.make Range.mask_bytes
office_canonical = refl

from_json-to_json_example : from_json documents (to_json documents office) ≡ value office
from_json-to_json_example =
    from_json-to_json documents documents-IsLawful office office_network tt office_canonical
      (omega arith) refl (omega arith) (omega arith)

default_route_entries-captures_example :
    (captures (default_route_entries split_halves ipv4 7) loopback_v4
      ≡ captures (default_route_entries replace ipv4 7) loopback_v4)
    × (captures (default_route_entries replace ipv4 7) loopback_v4 ≡ true)
default_route_entries-captures_example = default_route_entries-captures ipv4 7 loopback_v4 (
    v4 (127 ∷ 0 ∷ 0 ∷ 1 ∷ []) refl refl
      (omega arith, (omega arith, (omega arith, (omega arith, tt)))))

abbrev answers : Answers
answers = record {
  directory = none;
  create_code = 0;
  writes = takes 3 ∷ takes 100 ∷ [];
  flush_code = 0;
  rename_code = 0;
  replaced_lost = false;
}

abbrev disk : Disk
disk = record { target = some (codes "old"); temp = none }

answers-IsHonest : IsHonest answers.writes
unfolding IsHonest
answers-IsHonest = tt

write_atomic-IsAtomic_example :
    IsAtomic silent
      (codes "routes.json")
      answers
      disk
      (codes "[1, 2]")
      (write_atomic silent (codes "routes.json") answers (codes "[1, 2]") disk)
write_atomic-IsAtomic_example =
    write_atomic-IsAtomic silent (codes "routes.json") answers (codes "[1, 2]") disk
      answers-IsHonest
