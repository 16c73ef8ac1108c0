-- ===== src/Networking/Range/Containment.antt =====
-- A range of Networking/src/IpAddress.cpp is the set of the addresses of one family whose first bits
-- are the network's.
use vpn_client.Prelude.{
  ◌*◌, ◌≤◌, true, leb, [], ◌∷◌, length, Bytes, ◌≡◌, ◌↔◌, refl, sym, ◌∙◌, arith, leb→le, &&-eq-true,
  subst,
}
use vpn_client.Core.Types.{AddressFamily, ipv4, ipv6}
use vpn_client.Networking.Address.{IpAddress, IsAddress, v4, v6, from_v4, bytes, same_family}
use vpn_client.Networking.Range.{IpRange, width, agree, contains, contains_range}
use vpn_client.Networking.Range.Bits.{AllBytes, AgreeOn, agree-AgreeOn}

-- The bits that `bytes()` shows fill the width of the family.
pub IsAddress-bytes :
    {a : IpAddress} → IsAddress a → (8 * length (bytes a) ≡ width a) × AllBytes (bytes a)
IsAddress-bytes {a} (v4 b e n h) =
    subst (λ x. (8 * length (bytes x) ≡ width x) × AllBytes (bytes x)) (sym e) (go b n h)
  where
    go :
        (b : Bytes)
        → length b ≡ 4
        → AllBytes b
        → (8 * length (bytes (from_v4 b)) ≡ 32) × AllBytes (bytes (from_v4 b))
    go [] n h = absurd (omega arith)
    go (x ∷ []) n h = absurd (omega arith)
    go (x ∷ y ∷ []) n h = absurd (omega arith)
    go (x ∷ y ∷ z ∷ []) n h = absurd (omega arith)
    go (x ∷ y ∷ z ∷ w ∷ []) n h = (refl, h)
    go (x ∷ y ∷ z ∷ w ∷ v ∷ b) n h = absurd (omega arith)
IsAddress-bytes {a} (v6 b e n h) =
    subst (λ x. (8 * length (bytes x) ≡ width x) × AllBytes (bytes x)) (sym e) (omega arith, h)

same_family_iff : (f g : AddressFamily) → (same_family f g ≡ true) ↔ (f ≡ g)
same_family_iff ipv4 ipv4 = ground arith
same_family_iff ipv4 ipv6 = ground arith
same_family_iff ipv6 ipv4 = ground arith
same_family_iff ipv6 ipv6 = ground arith

pub width_of_family : (a b : IpAddress) → a.family ≡ b.family → width a ≡ width b
width_of_family a b e = ground arith

-- The network is an address, and the prefix fits its family.
pub record IsRange (r : IpRange) : Type 0 where
  pub network : IsAddress r.network
  pub fits : r.prefix_length ≤ width r.network

-- What the bits of an address say of it, apart from any loop.
pub record InRange (r : IpRange) (a : IpAddress) : Type 0 where
  pub family : a.family ≡ r.network.family
  pub prefix : AgreeOn r.prefix_length (bytes a) (bytes r.network)

pub same_length :
    {a b : IpAddress}
    → IsAddress a
    → IsAddress b
    → a.family ≡ b.family
    → length (bytes a) ≡ length (bytes b)
same_length {a} {b} ha hb e =
    omega (arith, (IsAddress-bytes ha).0, (IsAddress-bytes hb).0, width_of_family a b e)

agree_iff :
    {r : IpRange} {a : IpAddress}
    → IsRange r
    → IsAddress a
    → a.family ≡ r.network.family
    → (agree r.prefix_length (bytes a) (bytes r.network) ≡ true)
      ↔ AgreeOn r.prefix_length (bytes a) (bytes r.network)
agree_iff {r} {a} hr ha e =
    agree-AgreeOn r.prefix_length (bytes a) (bytes r.network) (same_length ha hr.network e)
      (IsAddress-bytes ha).1 (IsAddress-bytes hr.network).1
      (omega (arith, hr.fits, same_length ha hr.network e, (IsAddress-bytes hr.network).0))

-- `contains` accepts an address exactly if it is of the network's family and its first
-- `prefixLength` bits are the network's.
pub contains-InRange :
    (r : IpRange) (a : IpAddress) → IsRange r → IsAddress a → (contains r a ≡ true) ↔ InRange r a
unfolding contains
contains-InRange r a hr ha = (
  λ t.
      let (f, p) = &&-eq-true (same_family a.family r.network.family) _ t in
      let e = (same_family_iff a.family r.network.family).0 f in
      record { family = e; prefix = (agree_iff hr ha e).0 p },
  λ i. rw (
    (same_family_iff a.family r.network.family).1 i.family,
    (agree_iff hr ha i.family).1 i.prefix,
  ),
)

-- Of two well-formed ranges where `contains` accepts the inner one as part of the outer one, the outer
-- holds every well-formed address that the inner holds.
pub contains_range_trans :
    (outer inner : IpRange) (a : IpAddress)
    → IsRange outer
    → IsRange inner
    → IsAddress a
    → contains_range outer inner ≡ true
    → contains inner a ≡ true
    → contains outer a ≡ true
unfolding contains_range
contains_range_trans outer inner a ho hi ha t c =
    let (t', k) = &&-eq-true _ (contains outer inner.network) t in
    let (f, l) = &&-eq-true _ (leb outer.prefix_length inner.prefix_length) t' in
    let le = leb→le outer.prefix_length inner.prefix_length l in
    let x = (contains-InRange inner a hi ha).0 c in
    let y = (contains-InRange outer inner.network ho hi.network).0 k in
    (contains-InRange outer a ho ha).1 (record {
      family = x.family ∙ y.family;
      prefix = λ i h. x.prefix i (omega arith) ∙ y.prefix i h;
    })
