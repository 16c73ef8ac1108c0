-- ===== src/Tunnel/Manager/Sharing.antt =====
-- What changes in the map of Tunnel/src/TunnelManager.cpp under the manager: its order of iteration, and
-- the tunnels that it shares with the callers.
use vpn_client.Prelude.{
  ℕ, zero, suc, List, [], ◌∷◌, ◌≡◌, inl, inr, refl, sym, ap, Bytes, Bool-cases, All, equal,
  equal_iff, length, Occurs, Distinct,
}
use vpn_client.Tunnel.{Tunnel}
use vpn_client.Tunnel.Manager.{reorder, store}
use vpn_client.Tunnel.Manager.Table.{keys}

pub reorder-All : (p : Tunnel → Type 0) (k : ℕ) (ts : List Tunnel) → All p ts → All p (reorder k ts)
unfolding reorder
reorder-All p zero [] h = tt
reorder-All p (suc k) [] h = tt
reorder-All p zero (t ∷ []) h = h
reorder-All p (suc k) (t ∷ []) h = h
reorder-All p zero (t ∷ u ∷ ts) h = (h.1.0, (h.0, h.1.1))
reorder-All p (suc k) (t ∷ u ∷ ts) h = (h.0, reorder-All p k (u ∷ ts) h.1)

pub length-reorder : (k : ℕ) (ts : List Tunnel) → length (reorder k ts) ≡ length ts
unfolding reorder
length-reorder zero [] = refl
length-reorder (suc k) [] = refl
length-reorder zero (t ∷ []) = refl
length-reorder (suc k) (t ∷ []) = refl
length-reorder zero (t ∷ u ∷ ts) = refl
length-reorder (suc k) (t ∷ u ∷ ts) = ap suc (length-reorder k (u ∷ ts))

-- The keys are the same ones in another order.
pub Occurs-reorder :
    (x : Bytes) (k : ℕ) (ts : List Tunnel) → Occurs x (keys ts) → Occurs x (keys (reorder k ts))
unfolding reorder
Occurs-reorder x zero [] h = h
Occurs-reorder x (suc k) [] h = h
Occurs-reorder x zero (t ∷ []) h = h
Occurs-reorder x (suc k) (t ∷ []) h = h
Occurs-reorder x zero (t ∷ u ∷ ts) (inl e) = inr (inl e)
Occurs-reorder x zero (t ∷ u ∷ ts) (inr (inl e)) = inl e
Occurs-reorder x zero (t ∷ u ∷ ts) (inr (inr h)) = inr (inr h)
Occurs-reorder x (suc k) (t ∷ u ∷ ts) (inl e) = inl e
Occurs-reorder x (suc k) (t ∷ u ∷ ts) (inr h) = inr (Occurs-reorder x k (u ∷ ts) h)

reorder-Occurs :
    (x : Bytes) (k : ℕ) (ts : List Tunnel) → Occurs x (keys (reorder k ts)) → Occurs x (keys ts)
unfolding reorder
reorder-Occurs x zero [] h = h
reorder-Occurs x (suc k) [] h = h
reorder-Occurs x zero (t ∷ []) h = h
reorder-Occurs x (suc k) (t ∷ []) h = h
reorder-Occurs x zero (t ∷ u ∷ ts) (inl e) = inr (inl e)
reorder-Occurs x zero (t ∷ u ∷ ts) (inr (inl e)) = inl e
reorder-Occurs x zero (t ∷ u ∷ ts) (inr (inr h)) = inr (inr h)
reorder-Occurs x (suc k) (t ∷ u ∷ ts) (inl e) = inl e
reorder-Occurs x (suc k) (t ∷ u ∷ ts) (inr h) = inr (reorder-Occurs x k (u ∷ ts) h)

pub reorder-Distinct :
    (k : ℕ) (ts : List Tunnel) → Distinct (keys ts) → Distinct (keys (reorder k ts))
unfolding reorder
reorder-Distinct zero [] h = tt
reorder-Distinct (suc k) [] h = tt
reorder-Distinct zero (t ∷ []) h = h
reorder-Distinct (suc k) (t ∷ []) h = h
reorder-Distinct zero (t ∷ u ∷ ts) (new, (new', rest)) =
    (apart_from u.id t.id (keys ts) (λ e. new (inl (sym e))) new', ((λ o. new (inr o)), rest))
  where
    apart_from :
        (x y : Bytes) (ys : List Bytes) → (x ≡ y → ⊥) → (Occurs x ys → ⊥) → Occurs x (y ∷ ys) → ⊥
    apart_from x y ys n h (inl e) = n e
    apart_from x y ys n h (inr o) = h o
reorder-Distinct (suc k) (t ∷ u ∷ ts) (new, rest) =
    ((λ o. new (reorder-Occurs t.id k (u ∷ ts) o)), reorder-Distinct k (u ∷ ts) rest)

-- A tunnel is stored under the key that it has.
pub keys-store : (u : Tunnel) (ts : List Tunnel) → keys (store u ts) ≡ keys ts
unfolding store
keys-store u [] = refl
keys-store u (t ∷ ts) = elim (Bool-cases (equal t.id u.id)) [
  | inl same ↦ rw (same, store) (ap (λ x. x ∷ keys ts) (sym ((equal_iff t.id u.id).0 same)))
  | inr other ↦ rw (other, store) (ap (λ x. t.id ∷ x) (keys-store u ts))
]

pub store-All :
    (p : Tunnel → Type 0) (u : Tunnel) (ts : List Tunnel) → p u → All p ts → All p (store u ts)
unfolding store
store-All p u [] h k = tt
store-All p u (t ∷ ts) h k = elim (Bool-cases (equal t.id u.id)) [
  | inl same ↦ rw (same, store) (h, k.1)
  | inr other ↦ rw (other, store) (k.0, store-All p u ts h k.1)
]

pub length-store : (u : Tunnel) (ts : List Tunnel) → length (store u ts) ≡ length ts
unfolding store
length-store u [] = refl
length-store u (t ∷ ts) = elim (Bool-cases (equal t.id u.id)) [
  | inl same ↦ rw (same, store) refl
  | inr other ↦ rw (other, store) (ap suc (length-store u ts))
]
