-- ===== src/Networking/Literal/V4.antt =====
-- `parseV4` and `formatV4` of Networking/src/IpAddress.cpp are inverse to each other.
use vpn_client.Prelude.{
  ◌↔◌, ℕ, suc, ◌<◌, Option, none, some, [], ◌∷◌, ◌++◌, ◌≡◌, inl, inr, refl, ◌∙◌, ap, arith, All,
  Bytes, length,
}
use vpn_client.Core.Text.{to_decimal}
use vpn_client.Core.Text.Split.{Lacks}
use vpn_client.Core.Text.Find.{find_byte-none, find_byte-some, find_byte_cases}
use vpn_client.Networking.Literal.Octet.{
  Lacks-to_decimal, parse_octet-to_decimal, parse_octet_canonical,
}
use vpn_client.Networking.Literal.{◌>>=◌, parse_octet, octets, parse_v4, format_v4}

abbrev dot_lacks : (n : ℕ) → Lacks b'.' (to_decimal n)
dot_lacks n = Lacks-to_decimal b'.' n (inl (omega arith))

octets_last : (n : ℕ) → n < 256 → octets 0 (to_decimal n) ≡ some (n ∷ [])
unfolding octets
octets_last n h =
    rw (find_byte-none b'.' (to_decimal n) (dot_lacks n), octets, parse_octet-to_decimal n h)

octets_more :
    (more n : ℕ) (text : Bytes) {rest : Bytes}
    → n < 256
    → octets more text ≡ some rest
    → octets (suc more) (to_decimal n ++ (b'.' ∷ text)) ≡ some (n ∷ rest)
unfolding octets
octets_more more n text h e =
    rw
      (find_byte-some b'.' (to_decimal n) text (dot_lacks n), octets, parse_octet-to_decimal n h, e)

-- Four bytes that are written are read back.
pub parse_v4-format_v4 :
    (a b c d : ℕ)
    → a < 256
    → b < 256
    → c < 256
    → d < 256
    → parse_v4 (format_v4 (a ∷ b ∷ c ∷ d ∷ [])) ≡ some (a ∷ b ∷ c ∷ d ∷ [])
unfolding parse_v4 format_v4
parse_v4-format_v4 a b c d ha hb hc hd =
    octets_more 2 a _ ha (octets_more 1 b _ hb (octets_more 0 c _ hc (octets_last d hd)))

-- What one round of `parseV4` accepted.
record Round (more : ℕ) (text found : Bytes) : Type 0 where
  first : ℕ
  after : Bytes
  rest : Bytes
  is_byte : first < 256
  splits : text ≡ to_decimal first ++ (b'.' ∷ after)
  reads : octets more after ≡ some rest
  all : found ≡ first ∷ rest

bind-eq-some {ℓ κ} :
    {A : Type ℓ} {B : Type κ} (m : Option A) (f : A → Option B) {b : B}
    → (m >>= f) ≡ some b
    → (a : A) × (m ≡ some a) × (f a ≡ some b)
bind-eq-some none f h = cc
bind-eq-some (some a) f h = (a, refl, h)

octets-Round :
    (more : ℕ) (text : Bytes) {found : Bytes}
    → octets (suc more) text ≡ some found
    → Round more text found
unfolding octets
octets-Round more text {found} e = elim (find_byte_cases b'.' text) [
  | inl (l, n) ↦ absurd (cc (rw (n, octets) at e))
  | inr h ↦
      let (first, p, e') = bind-eq-some (parse_octet h.before) _ (rw (h.found, octets) at e) in
      let (rest, q, e'') = bind-eq-some (octets more h.after) _ e' in
      let (written, small) = parse_octet_canonical h.before p in
      record {
        first = first;
        after = h.after;
        rest = rest;
        is_byte = small;
        splits = h.splits ∙ ap (λ x. x ++ (b'.' ∷ h.after)) written;
        reads = q;
        all = cc;
      }
]

octets_end :
    (text : Bytes) {found : Bytes}
    → octets 0 text ≡ some found
    → (n : ℕ) × (n < 256) × (text ≡ to_decimal n) × (found ≡ n ∷ [])
unfolding octets
octets_end text {found} e = elim (find_byte_cases b'.' text) [
  | inr h ↦ absurd (cc (rw (h.found, octets) at e))
  | inl (l, n) ↦
      let (first, p, e') = bind-eq-some (parse_octet text) _ (rw (n, octets) at e) in
      let (written, small) = parse_octet_canonical text p in (first, small, written, cc)
]

-- Four bytes, as an array of the four.
abbrev pub IsV4 : Bytes → Type 0
IsV4 b = (length b ≡ 4) × All (λ x. x < 256) b

pub parse_v4-Written : (text b : Bytes) → parse_v4 text ≡ some b → IsV4 b × (text ≡ format_v4 b)
unfolding parse_v4 format_v4
parse_v4-Written text b e =
    let r = octets-Round 2 text e in
    let s = octets-Round 1 r.after r.reads in
    let t = octets-Round 0 s.after s.reads in
    let (n, small, written, last) = octets_end t.after t.reads in
    let found : b ≡ r.first ∷ s.first ∷ t.first ∷ n ∷ [] = cc (r.all, s.all, t.all) in
    rw found (
      (refl, (r.is_byte, (s.is_byte, (t.is_byte, (small, tt))))),
      r.splits
          ∙ ap (λ x. to_decimal r.first ++ (b'.' ∷ x))
              (s.splits
                ∙ ap (λ x. to_decimal s.first ++ (b'.' ∷ x))
                    (t.splits ∙ ap (λ x. to_decimal t.first ++ (b'.' ∷ x)) written)),
    )

format_v4-read : (b : Bytes) → IsV4 b → parse_v4 (format_v4 b) ≡ some b
format_v4-read [] (n, h) = absurd (omega arith)
format_v4-read (x ∷ []) (n, h) = absurd (omega arith)
format_v4-read (x ∷ y ∷ []) (n, h) = absurd (omega arith)
format_v4-read (x ∷ y ∷ z ∷ []) (n, h) = absurd (omega arith)
format_v4-read (x ∷ y ∷ z ∷ w ∷ []) (n, (hx, (hy, (hz, (hw, t))))) =
    parse_v4-format_v4 x y z w hx hy hz hw
format_v4-read (x ∷ y ∷ z ∷ w ∷ v ∷ b) (n, h) = absurd (omega arith)

-- `parseV4` reads four bytes from a text exactly if `formatV4` writes the text from them: every text that
-- is written is accepted, and no leading zero, sign, space or other spelling gets through.
pub parse_v4_canonical :
    (text b : Bytes) → (parse_v4 text ≡ some b) ↔ (IsV4 b × (text ≡ format_v4 b))
parse_v4_canonical text b = (parse_v4-Written text b, λ h. ap parse_v4 h.1 ∙ format_v4-read b h.0)
