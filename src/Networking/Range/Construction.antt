-- ===== src/Networking/Range/Construction.antt =====
-- What `make` and `lastAddress` of Networking/src/IpAddress.cpp build.
use vpn_client.Prelude.{
  ℕ, zero, suc, ◌+◌, ◌*◌, ◌≤◌, ◌<◌, true, false, ltb, if◌then◌else◌, List, [], ◌∷◌, ◌++◌, length,
  replicate, take, Bytes, ◌≡◌, ◌↔◌, inl, inr, refl, sym, ap, ◌∙◌, arith, Bool-cases, lt→ltb, ltb→lt,
  subst,
}
use vpn_client.Core.Status.{value}
use vpn_client.Core.Types.{AddressFamily, ipv4, ipv6}
use vpn_client.Networking.Address.{IpAddress, IsAddress, v4, v6, bytes}
use vpn_client.Networking.Range.{
  IpRange, width, mask_bytes, make, with_bytes, contains, fill_bytes, last_address,
}
use vpn_client.Networking.Range.Bits.{AllBytes, bit_at, AgreeOn, bytes_of_bits}
use vpn_client.Networking.Range.Masks.{
  bit_at-mask_bytes, mask_bytes_array, bit_at-fill_bytes, fill_bytes_array,
}
use vpn_client.Networking.Range.Containment.{
  IsAddress-bytes, IsRange, contains-InRange, width_of_family, same_length,
}

take_all {ℓ} : {A : Type ℓ} (xs ys : List A) (n : ℕ) → length xs ≡ n → take n (xs ++ ys) ≡ xs
take_all [] ys zero e = refl
take_all [] ys (suc n) e = absurd (omega arith)
take_all (x ∷ xs) ys zero e = absurd (omega arith)
take_all (x ∷ xs) ys (suc n) e = ap (◌∷◌ x) (take_all xs ys n (omega arith))

-- An address of the family of `a` that shows the bytes `m`.
record Shows (a : IpAddress) (m : Bytes) (x : IpAddress) : Type 0 where
  shown : bytes x ≡ m
  family : x.family ≡ a.family
  address : IsAddress x

with_family :
    (f : AddressFamily) (o m : Bytes)
    → 8 * length m ≡ width (record { family = f; octets = o })
    → AllBytes m
    → Shows (record { family = f; octets = o }) m (with_bytes (record { family = f; octets = o }) m)
with_family ipv4 o m n h = record {
  shown = take_all m (replicate 12 0) 4 (omega arith);
  family = refl;
  address = v4 m refl (omega arith) h;
}
with_family ipv6 o m n h = record {
  shown = refl;
  family = refl;
  address = v6 m refl (omega arith) h;
}

with_bytes-Shows :
    (a : IpAddress) (m : Bytes) → 8 * length m ≡ width a → AllBytes m → Shows a m (with_bytes a m)
with_bytes-Shows a = with_family a.family a.octets

-- What `make` promises of an address and a prefix.
pub record Masked (a : IpAddress) (p : ℕ) (r : IpRange) : Type 0 where
  pub range : IsRange r
  pub family : r.network.family ≡ a.family
  pub prefix : r.prefix_length ≡ p
  pub bits : (i : ℕ) → bit_at (bytes r.network) i ≡ (if ltb i p then bit_at (bytes a) i else 0)

masked : IpAddress → ℕ → IpRange
masked a p = record { network = with_bytes a (mask_bytes p 0 (bytes a)); prefix_length = p }

masked-Masked : (a : IpAddress) (p : ℕ) → IsAddress a → p ≤ width a → Masked a p (masked a p)
unfolding masked
masked-Masked a p h fits =
    let (size, all) = IsAddress-bytes h in
    let (n, k) = mask_bytes_array (bytes a) p 0 all in
    let s = with_bytes-Shows a (mask_bytes p 0 (bytes a)) (omega arith) k in
    record {
      range = record { network = s.address; fits = omega (arith, width_of_family _ a s.family) };
      family = s.family;
      prefix = refl;
      bits = λ i. rw s.shown (
          let z : 0 + i ≡ i = omega arith in
          subst
            (λ (k : ℕ).
              bit_at (mask_bytes p 0 (bytes a)) i ≡ (if ltb k p then bit_at (bytes a) i else 0))
            z (bit_at-mask_bytes (bytes a) p 0 i all));
    }

make-masked : (a : IpAddress) (p : ℕ) → p ≤ width a → make a p ≡ value (masked a p)
unfolding make masked
make-masked a p fits = let n : ltb (width a) p ≡ false = ground arith in rw (n, make)

make_fits : (a : IpAddress) (p : ℕ) {r : IpRange} → make a p ≡ value r → p ≤ width a
unfolding make
make_fits a p e = elim (Bool-cases (ltb (width a) p)) [
  | inl long ↦ absurd (cc (rw (long, make) at e))
  | inr n ↦ ground arith
]

-- Where the prefix fits the family of the address, `make` succeeds, and the range has that prefix, the
-- family and the first bits of the address, and no other bit set.
pub make-Masked :
    (a : IpAddress) (p : ℕ)
    → IsAddress a
    → p ≤ width a
    → (r : IpRange) × (make a p ≡ value r) × Masked a p r
make-Masked a p h fits = (masked a p, make-masked a p fits, masked-Masked a p h fits)

-- What `make` returns is so.
make_value :
    (a : IpAddress) (p : ℕ) (r : IpRange)
    → IsAddress a
    → make a p ≡ value r
    → (p ≤ width a) × Masked a p r
make_value a p r h e =
    let fits = make_fits a p e in
    let same : masked a p ≡ r = cc (make-masked a p fits) in
    (fits, subst (Masked a p) same (masked-Masked a p h fits))

-- A range made from an address and a prefix contains exactly the addresses of that family that have
-- the first bits of the address it was made from.
pub contains-make :
    (a : IpAddress) (p : ℕ) (r : IpRange) (b : IpAddress)
    → IsAddress a
    → IsAddress b
    → make a p ≡ value r
    → (contains r b ≡ true) ↔ ((b.family ≡ a.family) × AgreeOn p (bytes b) (bytes a))
contains-make a p r b ha hb e =
    let (fits, m) = make_value a p r ha e in
    let c = contains-InRange r b m.range hb in
    (
      λ t.
          let i = c.0 t in
          (
            i.family ∙ m.family,
            λ k hk. i.prefix k (omega (arith, m.prefix)) ∙ m.bits k ∙ rw (lt→ltb k p hk),
          ),
      λ g. c.1 (record {
        family = g.0 ∙ sym m.family;
        prefix = λ k hk.
            let hk' : k < p = omega (arith, m.prefix) in
            g.1 k hk' ∙ sym (m.bits k ∙ rw (lt→ltb k p hk'));
      }),
    )

-- Equality of ranges behaves as containment does: of two ranges made with one prefix, the first
-- contains the address of the second exactly if their networks are equal.
pub make-canonical :
    (a b : IpAddress) (p : ℕ) (r s : IpRange)
    → IsAddress a
    → IsAddress b
    → make a p ≡ value r
    → make b p ≡ value s
    → (contains r b ≡ true)
      ↔ ((r.network.family ≡ s.network.family) × (bytes r.network ≡ bytes s.network))
make-canonical a b p r s ha hb e f =
    let (_, m) = make_value a p r ha e in
    let (_, n) = make_value b p s hb f in
    let c = contains-make a p r b ha hb e in
    (
      λ t.
          let (family, prefix) = c.0 t in
          let same = m.family ∙ sym family ∙ sym n.family in
          (
            same,
            bytes_of_bits _ _ (same_length m.range.network n.range.network same)
                (IsAddress-bytes m.range.network).1 (IsAddress-bytes n.range.network).1
                (λ i _. m.bits i ∙ same_masked i p prefix ∙ sym (n.bits i)),
          ),
      λ g. c.1 (
        sym n.family ∙ sym g.0 ∙ m.family,
        λ i h.
            sym (n.bits i ∙ rw (lt→ltb i p h))
            ∙ ap (λ x. bit_at x i) (sym g.1)
            ∙ m.bits i
            ∙ rw (lt→ltb i p h),
      ),
    )
  where
    same_masked :
        (i q : ℕ)
        → AgreeOn q (bytes b) (bytes a)
        → (if ltb i q then bit_at (bytes a) i else 0) ≡ (if ltb i q then bit_at (bytes b) i else 0)
    same_masked i q h = elim (Bool-cases (ltb i q)) [
      | inl y ↦ rw y (sym (h i (ltb→lt i q y)))
      | inr n ↦ rw n
    ]

-- `lastAddress` lies in the range, whatever its prefix, and every bit behind the prefix is set in it: no
-- address of the range has a bit set that it has not.
pub last_address-contains :
    (r : IpRange)
    → IsRange r
    → (contains r (last_address r) ≡ true)
      × ((i : ℕ)
          → r.prefix_length ≤ i
          → i < width r.network
          → bit_at (bytes (last_address r)) i ≡ 1)
unfolding last_address
last_address-contains r h =
    let (size, all) = IsAddress-bytes h.network in
    let p = r.prefix_length in
    let (n, k) = fill_bytes_array (bytes r.network) p 0 all in
    let s = with_bytes-Shows r.network (fill_bytes p 0 (bytes r.network)) (omega arith) k in
    let filled = λ (i : ℕ) (hi : i < width r.network).
      bit_at-fill_bytes (bytes r.network) p 0 i all (omega arith) in
    (
      (contains-InRange r _ h s.address).1 (record {
        family = s.family;
        prefix = λ i hi.
            let y : ltb (0 + i) p ≡ true = ground arith in
            let hi' : i < width r.network = omega (arith, h.fits) in
            rw s.shown (filled i hi' ∙ rw y);
      }),
      λ i far near.
          let z : ltb (0 + i) p ≡ false = ground arith in rw s.shown (filled i near ∙ rw z),
    )
