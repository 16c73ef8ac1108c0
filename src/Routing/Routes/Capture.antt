-- ===== src/Routing/Routes/Capture.antt =====
-- What the default routes of Routing/src/RouteManager.cpp capture.
use vpn_client.Networking.Literal.{parse_v4}
use vpn_client.Core.Text.{find_byte}
use vpn_client.Networking.Range.{mask_bytes}
use vpn_client.Networking.Address.{parse}
use vpn_client.Networking.Literal.{parse_v6}
use vpn_client.Networking.Address.{try_parse}
use vpn_client.Core.Text.{trim}
use vpn_client.Prelude.{
  ℕ, ◌<◌, Bool, true, false, ◌&&◌, get_or, ◌==◌, ◌||◌, List, [], ◌∷◌, ◌≡◌, refl, sym, ◌∙◌, arith,
  all_below, all_below_sound, replicate,
}
use Prim.Native.Nat.{bit_and}
use vpn_client.Core.Types.{AddressFamily, ipv4, ipv6}
use vpn_client.Networking.Address.{IpAddress, IsAddress, v4, v6, same_family, from_v4, from_v6}
use vpn_client.Networking.Range.{IpRange, contains, agree, high_mask}
use vpn_client.Routing.Routes.{
  RouteEntry, split_halves, replace, default_route_entries, capture_entry, any_of,
}

-- A route of the list has the address in its destination.
unfoldable pub captures : List RouteEntry → IpAddress → Bool
unfolding contains
captures [] address = false
captures (entry ∷ entries) address = contains entry.destination address || captures entries address

abbrev halves_test : ℕ → Bool
halves_test b = bit_and b 128 == 0 || bit_and b 128 == 128

halves_table : all_below 256 halves_test ≡ true
unfolding all_below
halves_table = refl

halves : (b : ℕ) → b < 256 → halves_test b ≡ true
halves b small = all_below_sound 256 halves_test b halves_table small

abbrev half : AddressFamily → ℕ → IpRange
half ipv4 first = record { network = from_v4 (first ∷ 0 ∷ 0 ∷ 0 ∷ []); prefix_length = 1 }
half ipv6 first = record { network = from_v6 (first ∷ replicate 15 0); prefix_length = 1 }

-- The halves that the texts stand for, and the whole.
halves_read :
    (family : AddressFamily) (index : ℕ)
    → default_route_entries split_halves family index
      ≡ capture_entry index (half family 0) ∷ capture_entry index (half family 128) ∷ []
unfolding default_route_entries find_byte trim parse try_parse parse_v4 mask_bytes parse_v6
halves_read ipv4 index = refl
halves_read ipv6 index = refl

whole_read :
    (family : AddressFamily) (index : ℕ)
    → default_route_entries replace family index
      ≡ capture_entry index (record { network = any_of family; prefix_length = 0 }) ∷ []
unfolding default_route_entries find_byte trim parse try_parse parse_v4 mask_bytes parse_v6
whole_read ipv4 index = refl
whole_read ipv6 index = refl

contains-half :
    (family : AddressFamily) (first : ℕ) (address : IpAddress)
    → IsAddress address
    → contains (half family first) address ≡ (
        same_family address.family family
        && bit_and (get_or address.octets 0 0) 128 == bit_and first 128)
unfolding contains agree high_mask
contains-half ipv4 first address (v4 (x ∷ b) e len small) = rw e refl
contains-half ipv4 first address (v6 (x ∷ b) e len small) = rw e refl
contains-half ipv6 first address (v4 (x ∷ b) e len small) = rw e refl
contains-half ipv6 first address (v6 (x ∷ b) e len small) = rw e refl
contains-half family first address (v4 [] e len small) = absurd (cc (len))
contains-half family first address (v6 [] e len small) = absurd (cc (len))

first_octet : (address : IpAddress) → IsAddress address → get_or address.octets 0 0 < 256
first_octet address (v4 (x ∷ b) e len small) = rw e small.0
first_octet address (v6 (x ∷ b) e len small) = rw e small.0
first_octet address (v4 [] e len small) = absurd (cc (len))
first_octet address (v6 [] e len small) = absurd (cc (len))

joined :
    (same low high : Bool) → (low || high) ≡ true → (same && low || (same && high || false)) ≡ same
joined true low high h = ground (arith, h)
joined false low high h = refl

split_halves-captures :
    (family : AddressFamily) (index : ℕ) (address : IpAddress)
    → IsAddress address
    → captures (default_route_entries split_halves family index) address
      ≡ same_family address.family family
unfolding captures
split_halves-captures family index address h =
    rw (halves_read family index, captures)
      (rw (contains-half family 0 address h) (
        rw (contains-half family 128 address h)
          (joined (same_family address.family family) _ _ (halves _ (first_octet address h)))))

replace-captures :
    (family : AddressFamily) (index : ℕ) (address : IpAddress)
    → captures (default_route_entries replace family index) address
      ≡ same_family address.family family
unfolding captures contains agree
replace-captures ipv4 index address = rw (whole_read ipv4 index, captures) (ground arith)
replace-captures ipv6 index address = rw (whole_read ipv6 index, captures) (ground arith)

-- For either family, the two halves capture an address exactly if the route that replaces the default
-- does, which is exactly if the address is of that family.
pub default_route_entries-captures :
    (family : AddressFamily) (index : ℕ) (address : IpAddress)
    → IsAddress address
    → (captures (default_route_entries split_halves family index) address
        ≡ captures (default_route_entries replace family index) address)
      × (captures (default_route_entries replace family index) address
          ≡ same_family address.family family)
default_route_entries-captures family index address h =
    let whole = replace-captures family index address in
    (split_halves-captures family index address h ∙ sym whole, whole)
