-- ===== src/Networking/Address/WellFormed.antt =====
-- What `IpAddress::tryParse` and `IpAddress::parse` of Networking/src/IpAddress.cpp return is an address.
use vpn_client.Prelude.{some, ◌≡◌, inl, inr, refl, Bytes, Bool-cases, Option-cases, is_empty, subst}
use vpn_client.Core.Text.{trim, find_byte}
use vpn_client.Networking.Literal.{parse_v4, parse_v6}
use vpn_client.Networking.Literal.V4.{parse_v4-Written}
use vpn_client.Networking.Literal.V6.{parse_v6-IsV6}
use vpn_client.Networking.Literal.Words.{bind_some}
use vpn_client.Networking.Address.{IpAddress, IsAddress, v4, v6, from_v4, from_v6, try_parse}

-- Whatever the text, `tryParse` accepts it only with an address whose array is full and whose elements
-- are bytes, an IPv4 address with zeros behind its four octets.
pub try_parse-IsAddress : (text : Bytes) (a : IpAddress) → try_parse text ≡ some a → IsAddress a
unfolding try_parse
try_parse-IsAddress text a = elim (Bool-cases (is_empty (trim text))) [
  | inl blank ↦ rw (blank, try_parse) (λ e. absurd (cc e))
  | inr full ↦ elim (Option-cases (find_byte b':' (trim text))) [
    | inl dotted ↦
        rw (full, dotted, try_parse)
          (λ e.
            let (b, reads, is) = bind_some (parse_v4 (trim text)) (λ b. some (from_v4 b)) e in
            let (size, all) = (parse_v4-Written (trim text) b reads).0 in
            let same : from_v4 b ≡ a = cc is in subst IsAddress same (v4 b refl size all))
    | inr (hit, colon) ↦
        rw (full, colon, try_parse)
          (λ e.
            let (b, reads, is) = bind_some (parse_v6 (trim text)) (λ b. some (from_v6 b)) e in
            let (size, all) = parse_v6-IsV6 (trim text) b reads in
            let same : from_v6 b ≡ a = cc is in subst IsAddress same (v6 b refl size all))
  ]
]
