-- ===== src/Tunnel/Manager/Invariant.antt =====
-- What holds of the manager of Tunnel/src/TunnelManager.cpp after any sequence of its calls, and of calls
-- and callbacks of the tunnels that it holds.
use vpn_client.Prelude.{
  ℕ, false, ◌&&◌, if◌then◌else◌, some, List, [], ◌∷◌, ◌≡◌, ◌⊎◌, inl, inr, refl, sym, ap, ◌∙◌, arith,
  Bytes, Bool-cases, Option-cases, All, equal, is_empty, leb, length, ◌≤◌, subst, suc, Occurs,
  Distinct,
}
use vpn_client.Core.Status.{Status, is_error, is_ok}
use vpn_client.Tunnel.{Tunnel, Profile, make_tunnel, Answer, disconnect}
use vpn_client.Tunnel.Events.{Reached, created, then_step, disconnects}
use vpn_client.Tunnel.Lifecycle.{disconnect-id}
use vpn_client.Tunnel.Manager.{
  TunnelManager, emplace, find_tunnel, erase, create, first_id, destroy, disconnect_each,
}
use vpn_client.Tunnel.Manager.Table.{
  keys, equal_swap, Occurs-find_tunnel, find_tunnel-Occurs, find_tunnel-All, emplace-Distinct,
  emplace-Occurs, Occurs-emplace, emplace-All, length-emplace, erase-All, erase-Distinct,
  find_tunnel-erase_other, length-erase,
}

-- What is true of each tunnel that is held: it has an id, and its own calls and callbacks led to it.
abbrev pub IsHeld : Tunnel → Type 0
IsHeld t = (is_empty t.id ≡ false) × Reached t

-- The tunnels have different ids and there are no more than allowed; the primary id is one of theirs, and
-- it is empty only where there are no tunnels.
pub record IsConsistent (m : TunnelManager) : Type 0 where
  pub distinct : Distinct (keys m.tunnels)
  pub bounded : length m.tunnels ≤ m.deps.max_concurrent_tunnels
  pub held : All IsHeld m.tunnels
  pub chosen : ((m.tunnels ≡ []) × (m.primary_id ≡ [])) ⊎ Occurs m.primary_id (keys m.tunnels)

pub find_tunnel-is_empty :
    (id : Bytes) (ts : List Tunnel) (t : Tunnel)
    → All IsHeld ts
    → find_tunnel id ts ≡ some t
    → is_empty id ≡ false
find_tunnel-is_empty id ts t h k =
    let (same, full) = find_tunnel-All IsHeld id ts t h k in
    subst (λ x. is_empty x ≡ false) same full.0

Occurs-is_empty :
    (id : Bytes) (ts : List Tunnel) → All IsHeld ts → Occurs id (keys ts) → is_empty id ≡ false
Occurs-is_empty id ts h o =
    let (t, found) = Occurs-find_tunnel id ts o in find_tunnel-is_empty id ts t h found

module _ (valid : Status) (id : Bytes) (now : ℕ) (profile : Profile) (m : TunnelManager) where
  pub create-IsConsistent :
      is_empty id ≡ false → IsConsistent m → IsConsistent (create valid id now profile m).0
  unfolding create make_tunnel
  create-IsConsistent full h = elim (Bool-cases (is_error valid)) [
    | inl invalid ↦ rw (invalid, create) h
    | inr fine ↦ elim (Bool-cases (leb m.deps.max_concurrent_tunnels (length m.tunnels))) [
      | inl many ↦ rw (fine, many, create) h
      | inr few ↦
          rw (fine, few, create)
            (record {
              distinct = emplace-Distinct tunnel m.tunnels h.distinct;
              bounded = ground (arith, length-emplace tunnel m.tunnels);
              held =
                  emplace-All IsHeld tunnel m.tunnels (full, created id profile m.deps now) h.held;
              chosen = inr (choose h.chosen);
            })
    ]
  ]
    where
      tunnel : Tunnel
      tunnel = make_tunnel id profile m.deps now

      choose :
          ((m.tunnels ≡ []) × (m.primary_id ≡ [])) ⊎ Occurs m.primary_id (keys m.tunnels)
          → Occurs
              (if is_empty m.primary_id then id else m.primary_id)
              (keys (emplace tunnel m.tunnels))
      choose (inl (none_there, unset)) = rw unset (emplace-Occurs tunnel m.tunnels)
      choose (inr o) =
          rw (Occurs-is_empty m.primary_id m.tunnels h.held o)
            (Occurs-emplace tunnel m.primary_id m.tunnels o)

-- A primary tunnel that is not the one destroyed stays.
destroy_chosen :
    (id : Bytes) (m : TunnelManager) (t : Tunnel)
    → find_tunnel id m.tunnels ≡ some t
    → equal m.primary_id id ≡ false
    → ((m.tunnels ≡ []) × (m.primary_id ≡ [])) ⊎ Occurs m.primary_id (keys m.tunnels)
    → ((erase id m.tunnels ≡ []) × (m.primary_id ≡ []))
      ⊎ Occurs m.primary_id (keys (erase id m.tunnels))
unfolding find_tunnel
destroy_chosen id m t found other (inl (none_there, unset)) = absurd (cc (rw none_there at found))
destroy_chosen id m t found other (inr o) =
    let (p, there) = Occurs-find_tunnel m.primary_id m.tunnels o in
    inr (
      find_tunnel-Occurs m.primary_id _ p (
        find_tunnel-erase_other id m.primary_id m.tunnels (equal_swap m.primary_id id other)
        ∙ there))

pub destroy-IsConsistent :
    (stopped : Answer) (id : Bytes) (m : TunnelManager)
    → IsConsistent m
    → IsConsistent (destroy stopped id m).0
unfolding destroy
destroy-IsConsistent stopped id m h = elim (Option-cases (find_tunnel id m.tunnels)) [
  | inl missing ↦ rw (missing, destroy) h
  | inr (t, found) ↦
      rw (found, destroy)
        (record {
          distinct = erase-Distinct id m.tunnels h.distinct;
          bounded = ground (arith, length-erase id m.tunnels, h.bounded);
          held = erase-All IsHeld id m.tunnels h.held;
          chosen = elim (Bool-cases (equal m.primary_id id)) [
            | inl same ↦ rw same (first (erase id m.tunnels))
            | inr other ↦ rw other (destroy_chosen id m t found other h.chosen)
          ];
        })
]
  where
    first : (ts : List Tunnel) → ((ts ≡ []) × (first_id ts ≡ [])) ⊎ Occurs (first_id ts) (keys ts)
    first [] = inl (refl, refl)
    first (t ∷ ts) = inr (inl refl)

-- What `disconnect_each` does to the list: it keeps the ids and disconnects all.
pub disconnect_each-IsHeld :
    (stopped : Bytes → Answer) (ts : List Tunnel) (first : Status)
    → All IsHeld ts
    → All IsHeld (disconnect_each stopped ts first).0
unfolding disconnect_each
disconnect_each-IsHeld stopped [] first h = tt
disconnect_each-IsHeld stopped (t ∷ ts) first h =
    let a = stopped t.id in
    (
      (
        subst (λ x. is_empty x ≡ false) (sym (disconnect-id a t)) h.0.0,
        then_step t (disconnect a t).0 h.0.1 (disconnects a t),
      ),
      disconnect_each-IsHeld stopped ts _ h.1,
    )

pub keys-disconnect_each :
    (stopped : Bytes → Answer) (ts : List Tunnel) (first : Status)
    → keys (disconnect_each stopped ts first).0 ≡ keys ts
unfolding disconnect_each
keys-disconnect_each stopped [] first = refl
keys-disconnect_each stopped (t ∷ ts) first =
    let status = (disconnect (stopped t.id) t).1 in
    let next = if is_error status && is_ok first then status else first in
    ap (λ x. x ∷ keys (disconnect_each stopped ts next).0) (disconnect-id (stopped t.id) t)
    ∙ ap (λ x. t.id ∷ x) (keys-disconnect_each stopped ts next)

pub length-disconnect_each :
    (stopped : Bytes → Answer) (ts : List Tunnel) (first : Status)
    → length (disconnect_each stopped ts first).0 ≡ length ts
unfolding disconnect_each
length-disconnect_each stopped [] first = refl
length-disconnect_each stopped (t ∷ ts) first = ap suc (length-disconnect_each stopped ts _)

-- The tunnels change, and their keys and their number do not.
pub same_keys :
    (m : TunnelManager) (ts : List Tunnel)
    → keys ts ≡ keys m.tunnels
    → length ts ≡ length m.tunnels
    → All IsHeld ts
    → IsConsistent m
    → IsConsistent (record m { tunnels = ts })
same_keys m ts same size held h = record {
  distinct = subst Distinct (sym same) h.distinct;
  bounded = ground (arith, h.bounded);
  held = held;
  chosen = choose h.chosen;
}
  where
    choose :
        ((m.tunnels ≡ []) × (m.primary_id ≡ [])) ⊎ Occurs m.primary_id (keys m.tunnels)
        → ((ts ≡ []) × (m.primary_id ≡ [])) ⊎ Occurs m.primary_id (keys ts)
    choose (inr o) = inr (subst (Occurs m.primary_id) (sym same) o)
    choose (inl (none_there, unset)) = inl (no_keys ts (same ∙ ap keys none_there), unset)
      where
        no_keys : (ts : List Tunnel) → keys ts ≡ [] → ts ≡ []
        no_keys [] e = refl
        no_keys (t ∷ ts) e = absurd (cc e)
