-- ===== src/Examples/Addresses.antt =====
-- The theorems about Networking/src/IpAddress.cpp and Statistics.cpp at concrete inputs.
use vpn_client.Prelude.{
  ◌<◌, ◌≤◌, ◌++◌, ◌%◌, ℕ, true, some, List, [], ◌∷◌, ◌≡◌, ◌↔◌, refl, arith, codes, ◌==◌,
  if◌then◌else◌,
}
use vpn_client.Core.Status.{value}
use vpn_client.Core.Text.{to_decimal}
use vpn_client.Networking.Literal.{parse_octet, parse_v4, format_v4}
use vpn_client.Networking.Literal.V4.{IsV4, parse_v4_canonical}
use vpn_client.Networking.Address.{IpAddress, IsAddress, v4, from_v4, bytes}
use vpn_client.Networking.Range.{
  parse, IpRange, make, contains, contains_range, last_address, mask_bytes, agree,
}
use vpn_client.Networking.Range.Bits.{bit_at}
use vpn_client.Networking.Range.Containment.{
  IsRange, InRange, contains-InRange, contains_range_trans,
}
use vpn_client.Networking.Range.Construction.{Masked, make-Masked, last_address-contains}
use vpn_client.Networking.Range.Reading.{parse-format_v4}
use vpn_client.Networking.Statistics.{make_window, push_all, latest, push_all-make_window}

abbrev gateway : IpAddress
gateway = from_v4 (10 ∷ 1 ∷ 2 ∷ 3 ∷ [])

abbrev server : IpAddress
server = from_v4 (10 ∷ 1 ∷ 0 ∷ 9 ∷ [])

abbrev net16 : IpRange
net16 = record { network = from_v4 (10 ∷ 1 ∷ 0 ∷ 0 ∷ []); prefix_length = 16 }

abbrev net8 : IpRange
net8 = record { network = from_v4 (10 ∷ 0 ∷ 0 ∷ 0 ∷ []); prefix_length = 8 }

gateway-IsAddress : IsAddress gateway
gateway-IsAddress =
    v4 (10 ∷ 1 ∷ 2 ∷ 3 ∷ []) refl refl
      (omega arith, (omega arith, (omega arith, (omega arith, tt))))

server-IsAddress : IsAddress server
server-IsAddress =
    v4 (10 ∷ 1 ∷ 0 ∷ 9 ∷ []) refl refl
      (omega arith, (omega arith, (omega arith, (omega arith, tt))))

net16-IsRange : IsRange net16
net16-IsRange = record {
  network =
      v4 (10 ∷ 1 ∷ 0 ∷ 0 ∷ []) refl refl
        (omega arith, (omega arith, (omega arith, (omega arith, tt))));
  fits = omega arith;
}

net8-IsRange : IsRange net8
net8-IsRange = record {
  network =
      v4 (10 ∷ 0 ∷ 0 ∷ 0 ∷ []) refl refl
        (omega arith, (omega arith, (omega arith, (omega arith, tt))));
  fits = omega arith;
}

contains-InRange_example : (contains net16 gateway ≡ true) ↔ InRange net16 gateway
contains-InRange_example = contains-InRange net16 gateway net16-IsRange gateway-IsAddress

makes-net16 : make gateway 16 ≡ value net16
unfolding make mask_bytes
makes-net16 = refl

makes-server : make server 16 ≡ value net16
unfolding make mask_bytes
makes-server = refl

holds-net16 : contains_range net8 net16 ≡ true
unfolding contains_range contains agree
holds-net16 = refl

holds-gateway : contains net16 gateway ≡ true
unfolding contains agree
holds-gateway = refl

make-Masked_example : (r : IpRange) × (make gateway 16 ≡ value r) × Masked gateway 16 r
make-Masked_example = make-Masked gateway 16 gateway-IsAddress (omega arith)

last_address-contains_example :
    (contains net16 (last_address net16) ≡ true)
    × ((i : ℕ) → 16 ≤ i → i < 32 → bit_at (bytes (last_address net16)) i ≡ 1)
last_address-contains_example = last_address-contains net16 net16-IsRange

reads-octet : parse_octet (codes "198") ≡ some 198
unfolding parse_octet
reads-octet = refl

reads-address : parse_v4 (codes "10.1.2.3") ≡ some (10 ∷ 1 ∷ 2 ∷ 3 ∷ [])
unfolding parse_v4
reads-address = refl

parse_v4_canonical_example :
    (parse_v4 (codes "10.1.2.3") ≡ some (10 ∷ 1 ∷ 2 ∷ 3 ∷ []))
    ↔ (IsV4 (10 ∷ 1 ∷ 2 ∷ 3 ∷ []) × (codes "10.1.2.3" ≡ format_v4 (10 ∷ 1 ∷ 2 ∷ 3 ∷ [])))
parse_v4_canonical_example = parse_v4_canonical (codes "10.1.2.3") (10 ∷ 1 ∷ 2 ∷ 3 ∷ [])

abbrev samples : List ℕ
samples = 1 ∷ 2 ∷ 3 ∷ []

push_all-make_window_example :
    (push_all samples (make_window 2)).samples ≡ latest (if 2 == 0 then 1 else 2) samples
push_all-make_window_example = push_all-make_window 2 samples

parse-format_v4_example :
    parse (format_v4 (10 ∷ 1 ∷ 2 ∷ 3 ∷ []) ++ (b'/' ∷ to_decimal 256)) ≡ make gateway (256 % 256)
parse-format_v4_example =
    parse-format_v4 10 1 2 3 (omega arith) (omega arith) (omega arith) (omega arith) 256
      (omega arith)

net16_holds : contains net16 gateway ≡ true
unfolding contains agree
net16_holds = refl

contains_range_trans_example : contains net8 gateway ≡ true
contains_range_trans_example =
    contains_range_trans net8 net16 gateway net8-IsRange net16-IsRange gateway-IsAddress holds-net16
      net16_holds
