-- ===== src/Networking/Range.antt =====
-- `IpRange` of Networking/src/IpAddress.cpp. A `u8` mask is written out as the number of its bits.
pub mod Bits
pub mod Masks
pub mod Containment
pub mod Construction
pub mod Reading
use Prim.Native.Nat.{bit_and, bit_or}
use vpn_client.Prelude.{
  ℕ, zero, suc, ◌+◌, ◌-◌, ◌*◌, ◌/◌, ◌%◌, ◌^◌, Bool, true, false, not, ◌&&◌, ◌||◌, leb, ltb, ◌==◌,
  if◌then◌else◌, is_empty, Option, none, some, List, [], ◌∷◌, ◌++◌, length, get_or, take, drop,
  replicate, Bytes, codes,
}
use vpn_client.Core.Status.{ErrorCode, Result, value, error, ◌>>=◌}
use vpn_client.Core.Status
use vpn_client.Core.Types.{AddressFamily}
use vpn_client.Core.Text.{trim, find_byte, to_decimal}
use vpn_client.Networking.Address.{IpAddress, is_v4, from_v4, from_v6, same_family, same_address}
use vpn_client.Networking.Address

pub record IpRange : Type 0 where
  pub network : IpAddress
  pub prefix_length : ℕ

abbrev pub width : IpAddress → ℕ
width a = if is_v4 a then 32 else 128

-- `static_cast<u8>(0xFFu << (8 - keep))`.
unfoldable pub high_mask : ℕ → ℕ
high_mask keep = 0xFF * 2 ^ (8 - keep) % 256

-- The body of the loop of `make`; `offset` is `bitOffset`.
unfoldable pub mask_byte : ℕ → ℕ → ℕ → ℕ
unfolding high_mask
mask_byte prefix offset b =
    if leb prefix offset
    then 0
    else if ltb prefix (offset + 8)
    then bit_and b (high_mask (prefix - offset))
    else b

unfoldable pub mask_bytes : ℕ → ℕ → Bytes → Bytes
unfolding mask_byte
mask_bytes prefix offset [] = []
mask_bytes prefix offset (b ∷ rest) =
    mask_byte prefix offset b ∷ mask_bytes prefix (offset + 8) rest

abbrev pub too_long : ℕ → Bytes
too_long prefix =
    codes "prefix length " ++ (to_decimal prefix ++ codes " exceeds the address width")

-- `fromV4` of the first four bytes, or `fromV6`.
abbrev with_bytes : IpAddress → Bytes → IpAddress
with_bytes a b = if is_v4 a then from_v4 b else from_v6 b

-- `IpRange::make`.
unfoldable pub make : IpAddress → ℕ → Result IpRange
make address prefix =
    if ltb (width address) prefix
    then error (Status.make ErrorCode.invalid_argument (too_long prefix))
    else value (record {
      network = with_bytes address (mask_bytes prefix 0 (Address.bytes address));
      prefix_length = prefix;
    })

-- `std::from_chars` into an `unsigned`, and the test that it read the whole text.
digits_loop : ℕ → Bytes → Option ℕ
digits_loop n [] = some n
digits_loop n (c ∷ text) =
    if leb b'0' c && leb c b'9' then digits_loop (n * 10 + (c - b'0')) text else none

unfoldable pub from_chars : Bytes → Option ℕ
unfolding digits_loop
from_chars [] = none
from_chars (c ∷ text) = elim (digits_loop 0 (c ∷ text)) [
  | none ↦ none
  | some n ↦ if ltb n (2 ^ 32) then some n else none
]

abbrev invalid_prefix {ℓ} : {A : Type ℓ} → Bytes → Result A
invalid_prefix text =
    error (Status.make ErrorCode.invalid_argument (codes "invalid prefix length in " ++ text))

-- `IpRange::parse`. The prefix is cast to `u8` before `make` sees it.
unfoldable pub parse : Bytes → Result IpRange
unfolding make from_chars
parse text =
    let trimmed = trim text in
    elim (find_byte b'/' trimmed) [
      | none ↦ do address ← Address.parse trimmed; make address (width address)
      | some (address_text, prefix_text) ↦ do
        address ← Address.parse address_text
        if is_empty prefix_text || ltb 3 (length prefix_text)
            then invalid_prefix text
            else elim (from_chars prefix_text) [
              | none ↦ invalid_prefix text
              | some prefix ↦ make address (prefix % 256)
            ]
    ]

-- The loop of `contains`; a candidate of the same family has as many bytes.
unfoldable pub agree : ℕ → Bytes → Bytes → Bool
unfolding high_mask
agree zero candidate network = true
agree remaining candidate [] = true
agree remaining [] (n ∷ network) = true
agree (suc r) (c ∷ candidate) (n ∷ network) =
    if leb 8 (suc r)
    then c == n && agree (suc r - 8) candidate network
    else bit_and c (high_mask (suc r)) == bit_and n (high_mask (suc r))

-- `IpRange::contains(const IpAddress&)`.
unfoldable pub contains : IpRange → IpAddress → Bool
contains r address =
    same_family address.family r.network.family
    && agree r.prefix_length (Address.bytes address) (Address.bytes r.network)

-- `IpRange::contains(const IpRange&)`.
unfoldable pub contains_range : IpRange → IpRange → Bool
contains_range r other =
    same_family other.network.family r.network.family
    && leb r.prefix_length other.prefix_length
    && contains r other.network

-- The body of the loop of `lastAddress`; `0xFFu >> keep` is the host mask.
unfoldable pub fill_byte : ℕ → ℕ → ℕ → ℕ
fill_byte prefix offset b =
    if leb prefix offset
    then 0xFF
    else if ltb prefix (offset + 8)
    then bit_or b (0xFF / 2 ^ (prefix - offset))
    else b

unfoldable pub fill_bytes : ℕ → ℕ → Bytes → Bytes
unfolding fill_byte
fill_bytes prefix offset [] = []
fill_bytes prefix offset (b ∷ rest) =
    fill_byte prefix offset b ∷ fill_bytes prefix (offset + 8) rest

unfoldable pub last_address : IpRange → IpAddress
last_address r = with_bytes r.network (fill_bytes r.prefix_length 0 (Address.bytes r.network))

-- The loop of `netmaskV4`.
netmask_bytes : ℕ → ℕ → Bytes
unfolding high_mask
netmask_bytes zero remaining = []
netmask_bytes (suc count) remaining =
    (if leb 8 remaining then 0xFF else if ltb 0 remaining then high_mask remaining else 0)
    ∷ netmask_bytes count (remaining - 8)

unfoldable pub netmask_v4 : IpRange → Option IpAddress
unfolding netmask_bytes
netmask_v4 r = if is_v4 r.network then some (from_v4 (netmask_bytes 4 r.prefix_length)) else none

unfoldable pub to_string : IpRange → Bytes
to_string r = Address.to_string r.network ++ (b'/' ∷ to_decimal r.prefix_length)

-- `operator==`.
unfoldable pub same_range : IpRange → IpRange → Bool
same_range a b = a.prefix_length == b.prefix_length && same_address a.network b.network
