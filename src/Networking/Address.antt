-- ===== src/Networking/Address.antt =====
-- `IpAddress` of Networking/include/NovaVPN/Networking/IpAddress.h and Networking/src/IpAddress.cpp.
pub mod WellFormed
use Prim.Native.Nat.{bit_and}
use vpn_client.Prelude.{
  ℕ, ◌<◌, Bool, true, false, not, ◌&&◌, leb, ◌==◌, if◌then◌else◌, is_empty, Option, none, some, [],
  ◌∷◌, ◌++◌, length, get_or, take, drop, replicate, All, Bytes, codes, equal, ◌≡◌,
}
use vpn_client.Core.Status.{ErrorCode, Result, value, error, make}
use vpn_client.Core.Types.{AddressFamily, ipv4, ipv6}
use vpn_client.Core.Text.{trim, find_byte}
use vpn_client.Networking.Literal.{◌>>=◌, parse_v4, parse_v6, format_v4, format_v6}

pub record IpAddress : Type 0 where
  pub family : AddressFamily
  -- `std::array<u8, 16>`; an IPv4 address has its four octets in front.
  pub octets : Bytes

-- The array is full, its elements are bytes, and what an IPv4 address does not use is zero.
pub data IsAddress : IpAddress → Type 0 where
  v4 :
      {a : IpAddress} (b : Bytes)
      → a ≡ record { family = ipv4; octets = b ++ replicate 12 0 }
      → length b ≡ 4
      → All (λ x. x < 256) b
      → IsAddress a
  v6 :
      {a : IpAddress} (b : Bytes)
      → a ≡ record { family = ipv6; octets = b }
      → length b ≡ 16
      → All (λ x. x < 256) b
      → IsAddress a

abbrev pub is_v4_family : AddressFamily → Bool
is_v4_family ipv4 = true
is_v4_family ipv6 = false

abbrev pub is_v4 : IpAddress → Bool
is_v4 a = is_v4_family a.family

abbrev pub is_v6 : IpAddress → Bool
is_v6 a = not (is_v4 a)

-- `std::copy` of the four octets into an array that is zero.
abbrev pub from_v4 : Bytes → IpAddress
from_v4 b = record { family = ipv4; octets = b ++ replicate 12 0 }

abbrev pub from_v6 : Bytes → IpAddress
from_v6 b = record { family = ipv6; octets = b }

abbrev pub any_v4 : IpAddress
any_v4 = from_v4 (replicate 4 0)

abbrev pub any_v6 : IpAddress
any_v6 = from_v6 (replicate 16 0)

abbrev pub loopback_v4 : IpAddress
loopback_v4 = from_v4 (127 ∷ 0 ∷ 0 ∷ 1 ∷ [])

abbrev pub loopback_v6 : IpAddress
loopback_v6 = from_v6 (replicate 15 0 ++ 1 ∷ [])

-- `IpAddress::tryParse`.
unfoldable pub try_parse : Bytes → Option IpAddress
try_parse text =
    let trimmed = trim text in
    if is_empty trimmed then none else elim (find_byte b':' trimmed) [
      | some colon ↦ do b ← parse_v6 trimmed; some (from_v6 b)
      | none ↦ do b ← parse_v4 trimmed; some (from_v4 b)
    ]

abbrev pub not_valid : Bytes → Bytes
not_valid text = codes "not a valid IP address: " ++ text

-- `IpAddress::parse`.
unfoldable pub parse : Bytes → Result IpAddress
parse text = elim (try_parse text) [
  | none ↦ error (make ErrorCode.invalid_argument (not_valid text))
  | some address ↦ value address
]

-- `IpAddress::bytes`.
abbrev pub bytes : IpAddress → Bytes
bytes a = if is_v4 a then take 4 a.octets else a.octets

-- `operator==`.
abbrev pub same_family : AddressFamily → AddressFamily → Bool
same_family ipv4 ipv4 = true
same_family ipv6 ipv6 = true
same_family _ _ = false

unfoldable pub same_address : IpAddress → IpAddress → Bool
same_address a b = same_family a.family b.family && equal a.octets b.octets

pub all_zero : Bytes → Bool
all_zero [] = true
all_zero (b ∷ rest) = b == 0 && all_zero rest

abbrev octet : IpAddress → ℕ → ℕ
octet a i = get_or a.octets i 0

unfoldable pub is_unspecified : IpAddress → Bool
unfolding all_zero
is_unspecified a = all_zero (bytes a)

unfoldable pub is_loopback : IpAddress → Bool
unfolding same_address
is_loopback a = if is_v4 a then octet a 0 == 127 else same_address a loopback_v6

unfoldable pub is_multicast : IpAddress → Bool
is_multicast a = if is_v4 a then leb 224 (octet a 0) && leb (octet a 0) 239 else octet a 0 == 0xFF

unfoldable pub is_link_local : IpAddress → Bool
is_link_local a =
    if is_v4 a
    then octet a 0 == 169 && octet a 1 == 254
    else octet a 0 == 0xFE && bit_and (octet a 1) 0xC0 == 0x80

unfoldable pub is_private : IpAddress → Bool
is_private a =
    if is_v4 a
    then (if octet a 0 == 10
        then true
        else if octet a 0 == 172 && leb 16 (octet a 1) && leb (octet a 1) 31
        then true
        else if octet a 0 == 192 && octet a 1 == 168
        then true
        else octet a 0 == 100 && leb 64 (octet a 1) && leb (octet a 1) 127)
    else bit_and (octet a 0) 0xFE == 0xFC

unfoldable pub is_global_unicast : IpAddress → Bool
unfolding is_unspecified is_loopback is_link_local is_multicast is_private
is_global_unicast a =
    not (is_unspecified a)
    && not (is_loopback a)
    && not (is_link_local a)
    && not (is_multicast a)
    && not (is_private a)

unfoldable pub to_string : IpAddress → Bytes
to_string a = if is_v4 a then format_v4 (bytes a) else format_v6 (bytes a)

-- `::ffff:0:0/96`.
abbrev pub mapped_prefix : Bytes
mapped_prefix = replicate 10 0 ++ 0xFF ∷ 0xFF ∷ []

unfoldable pub normalized : IpAddress → IpAddress
normalized a =
    if is_v4 a
    then a
    else if equal (take 12 a.octets) mapped_prefix
    then from_v4 (take 4 (drop 12 a.octets))
    else a
