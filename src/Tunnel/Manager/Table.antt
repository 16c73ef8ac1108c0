-- ===== src/Tunnel/Manager/Table.antt =====
-- The hash map of tunnels of Tunnel/src/TunnelManager.cpp: the ids that it holds, in whatever order.
use vpn_client.Prelude.{
  suc, false, if◌then◌else◌, none, some, List, [], ◌∷◌, ◌≡◌, ◌≢◌, ◌⊎◌, inl, inr, refl, sym, ap,
  arith, Bytes, Bool-cases, Option-cases, All, equal, equal_iff, equal_refl, length, subst, ◌≤◌,
  Occurs, Distinct,
}
use vpn_client.Tunnel.{Tunnel}
use vpn_client.Tunnel.Manager.{emplace, find_tunnel, erase}

-- The keys of the map.
abbrev pub keys : List Tunnel → List Bytes
keys [] = []
keys (t ∷ ts) = t.id ∷ keys ts

pub equal_swap : (a b : Bytes) → equal a b ≡ false → equal b a ≡ false
equal_swap a b h = elim (Bool-cases (equal b a)) [
  | inl same ↦ absurd (cc (h, equal_refl a, (equal_iff b a).0 same))
  | inr other ↦ other
]

pub apart : (a b : Bytes) → equal a b ≡ false → a ≢ b
apart a b h e = absurd (cc (h, (equal_iff a b).1 e))

-- A key is in the map exactly if a tunnel is found under it.
pub Occurs-find_tunnel :
    (id : Bytes) (ts : List Tunnel)
    → Occurs id (keys ts)
    → (t : Tunnel) × (find_tunnel id ts ≡ some t)
unfolding find_tunnel
Occurs-find_tunnel id [] h = elim h [ ]
Occurs-find_tunnel id (t ∷ ts) h = elim (Bool-cases (equal t.id id)) [
  | inl same ↦ rw (same, find_tunnel) (t, refl)
  | inr other ↦ rw (other, find_tunnel) (Occurs-find_tunnel id ts (later h other))
]
  where
    later : ((id ≡ t.id) ⊎ Occurs id (keys ts)) → equal t.id id ≡ false → Occurs id (keys ts)
    later (inl e) other = absurd (apart t.id id other (sym e))
    later (inr h) other = h

pub find_tunnel-Occurs :
    (id : Bytes) (ts : List Tunnel) (t : Tunnel) → find_tunnel id ts ≡ some t → Occurs id (keys ts)
unfolding find_tunnel
find_tunnel-Occurs id [] t h = absurd (cc h)
find_tunnel-Occurs id (u ∷ us) t h = elim (Bool-cases (equal u.id id)) [
  | inl same ↦ inl (sym ((equal_iff u.id id).0 same))
  | inr other ↦ inr (find_tunnel-Occurs id us t (rw (other, find_tunnel) at h))
]

pub find_tunnel-none :
    (id : Bytes) (ts : List Tunnel) → (Occurs id (keys ts) → ⊥) → find_tunnel id ts ≡ none
find_tunnel-none id ts h = elim (Option-cases (find_tunnel id ts)) [
  | inl missing ↦ missing
  | inr (t, found) ↦ absurd (h (find_tunnel-Occurs id ts t found))
]

-- Any tunnel of the map has what all of them have, and what is found has the key.
pub find_tunnel-All :
    (p : Tunnel → Type 0) (id : Bytes) (ts : List Tunnel) (t : Tunnel)
    → All p ts
    → find_tunnel id ts ≡ some t
    → (t.id ≡ id) × p t
unfolding find_tunnel
find_tunnel-All p id [] t h k = cc
find_tunnel-All p id (u ∷ us) t h k = elim (Bool-cases (equal u.id id)) [
  | inl same ↦
      let found : u ≡ t = cc (rw (same, find_tunnel) at k) in
      subst (λ x. (x.id ≡ id) × p x) found ((equal_iff u.id id).0 same, h.0)
  | inr other ↦ find_tunnel-All p id us t h.1 (rw (other, find_tunnel) at k)
]

-- Adding a tunnel.
pub emplace-Distinct :
    (t : Tunnel) (ts : List Tunnel) → Distinct (keys ts) → Distinct (keys (emplace t ts))
unfolding emplace
emplace-Distinct t ts h = elim (Option-cases (find_tunnel t.id ts)) [
  | inl missing ↦ rw (missing, emplace) ((λ o. taken o missing), h)
  | inr (u, found) ↦ rw (found, emplace) h
]
  where
    taken : Occurs t.id (keys ts) → find_tunnel t.id ts ≡ none → ⊥
    taken o missing = let (u, found) = Occurs-find_tunnel t.id ts o in absurd (cc (missing, found))

pub emplace-Occurs : (t : Tunnel) (ts : List Tunnel) → Occurs t.id (keys (emplace t ts))
unfolding emplace
emplace-Occurs t ts = elim (Option-cases (find_tunnel t.id ts)) [
  | inl missing ↦ rw (missing, emplace) (inl refl)
  | inr (u, found) ↦ rw (found, emplace) (find_tunnel-Occurs t.id ts u found)
]

pub Occurs-emplace :
    (t : Tunnel) (id : Bytes) (ts : List Tunnel)
    → Occurs id (keys ts)
    → Occurs id (keys (emplace t ts))
unfolding emplace
Occurs-emplace t id ts h = elim (Option-cases (find_tunnel t.id ts)) [
  | inl missing ↦ rw (missing, emplace) (inr h)
  | inr (u, found) ↦ rw (found, emplace) h
]

pub emplace-All :
    (p : Tunnel → Type 0) (t : Tunnel) (ts : List Tunnel) → p t → All p ts → All p (emplace t ts)
unfolding emplace
emplace-All p t ts h k = elim (Option-cases (find_tunnel t.id ts)) [
  | inl missing ↦ rw (missing, emplace) (h, k)
  | inr (u, found) ↦ rw (found, emplace) k
]

pub length-emplace : (t : Tunnel) (ts : List Tunnel) → length (emplace t ts) ≤ suc (length ts)
unfolding emplace
length-emplace t ts = elim (Option-cases (find_tunnel t.id ts)) [
  | inl missing ↦ rw (missing, emplace) (omega arith)
  | inr (u, found) ↦ rw (found, emplace) (omega arith)
]

pub find_tunnel-emplace :
    (t : Tunnel) (ts : List Tunnel)
    → find_tunnel t.id ts ≡ none
    → find_tunnel t.id (emplace t ts) ≡ some t
unfolding find_tunnel emplace
find_tunnel-emplace t ts h = rw (h, emplace) (rw (equal_refl t.id, find_tunnel) refl)

pub find_tunnel-emplace_other :
    (t : Tunnel) (other : Bytes) (ts : List Tunnel)
    → equal t.id other ≡ false
    → find_tunnel other (emplace t ts) ≡ find_tunnel other ts
unfolding find_tunnel emplace
find_tunnel-emplace_other t other ts n = elim (Option-cases (find_tunnel t.id ts)) [
  | inl missing ↦ rw (missing, emplace) (rw (n, find_tunnel) refl)
  | inr (u, found) ↦ rw (found, emplace) refl
]

-- Taking one out.
pub erase-All :
    (p : Tunnel → Type 0) (id : Bytes) (ts : List Tunnel) → All p ts → All p (erase id ts)
unfolding erase
erase-All p id [] h = tt
erase-All p id (t ∷ ts) h = elim (Bool-cases (equal t.id id)) [
  | inl same ↦ rw (same, erase) h.1
  | inr other ↦ rw (other, erase) (h.0, erase-All p id ts h.1)
]

Occurs-erase :
    (x id : Bytes) (ts : List Tunnel) → Occurs x (keys (erase id ts)) → Occurs x (keys ts)
unfolding erase
Occurs-erase x id [] h = h
Occurs-erase x id (t ∷ ts) h = elim (Bool-cases (equal t.id id)) [
  | inl same ↦ inr (rw (same, erase) at h)
  | inr other ↦ elim (rw (other, erase) at h) [
    | inl e ↦ inl e
    | inr k ↦ inr (Occurs-erase x id ts k)
  ]
]

pub erase-Distinct :
    (id : Bytes) (ts : List Tunnel) → Distinct (keys ts) → Distinct (keys (erase id ts))
unfolding erase
erase-Distinct id [] h = tt
erase-Distinct id (t ∷ ts) h = elim (Bool-cases (equal t.id id)) [
  | inl same ↦ rw (same, erase) h.1
  | inr other ↦ rw (other, erase) ((λ o. h.0 (Occurs-erase t.id id ts o)), erase-Distinct id ts h.1)
]

-- What is erased is found no more.
pub find_tunnel-erase :
    (id : Bytes) (ts : List Tunnel) → Distinct (keys ts) → find_tunnel id (erase id ts) ≡ none
unfolding find_tunnel erase
find_tunnel-erase id [] h = refl
find_tunnel-erase id (t ∷ ts) h = elim (Bool-cases (equal t.id id)) [
  | inl same ↦
      rw (same, erase)
        (subst (λ x. find_tunnel x ts ≡ none) ((equal_iff t.id id).0 same)
          (find_tunnel-none t.id ts h.0))
  | inr other ↦ rw (other, erase) (rw (other, find_tunnel) (find_tunnel-erase id ts h.1))
]

-- Any other is found as before.
pub find_tunnel-erase_other :
    (id other : Bytes) (ts : List Tunnel)
    → equal id other ≡ false
    → find_tunnel other (erase id ts) ≡ find_tunnel other ts
unfolding find_tunnel erase
find_tunnel-erase_other id other [] n = refl
find_tunnel-erase_other id other (t ∷ ts) n = elim (Bool-cases (equal t.id id)) [
  | inl same ↦ rw (same, erase) (rw ((equal_iff t.id id).0 same, n, find_tunnel) refl)
  | inr differs ↦
      rw (differs, erase)
        (ap (λ r. if equal t.id other then some t else r) (find_tunnel-erase_other id other ts n))
]

pub length-erase : (id : Bytes) (ts : List Tunnel) → length (erase id ts) ≤ length ts
unfolding erase
length-erase id [] = omega arith
length-erase id (t ∷ ts) = ground (arith, length-erase id ts)
