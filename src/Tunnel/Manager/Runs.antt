-- ===== src/Tunnel/Manager/Runs.antt =====
-- The runs of the manager of Tunnel/src/TunnelManager.cpp: its calls, the calls and callbacks of the
-- tunnels that it holds, and the order of its hash map, which may change at any time.
use vpn_client.Prelude.{
  ℕ, false, some, List, [], ◌∷◌, ◌≡◌, ◌⊎◌, inl, inr, refl, sym, ap, ◌∙◌, arith, Bytes, Option-cases,
  is_empty, length, subst, Occurs,
}
use vpn_client.Core.Status.{Status, ok_status}
use vpn_client.Tunnel.{Tunnel, TunnelManagerDeps, Profile, Answer}
use vpn_client.Tunnel.Events
use vpn_client.Tunnel.Events.{Reached, then_step}
use vpn_client.Tunnel.Identity.{Step-id}
use vpn_client.Tunnel.Manager.{
  TunnelManager, find_tunnel, reorder, store, make_manager, create, destroy, disconnect_each,
  disconnect_all, set_primary,
}
use vpn_client.Tunnel.Manager.Table.{keys, find_tunnel-Occurs, find_tunnel-All}
use vpn_client.Tunnel.Manager.Sharing.{
  reorder-All, length-reorder, Occurs-reorder, reorder-Distinct, keys-store, store-All,
  length-store,
}
use vpn_client.Tunnel.Manager.Invariant.{
  IsHeld, IsConsistent, create-IsConsistent, destroy-IsConsistent, same_keys, keys-disconnect_each,
  length-disconnect_each, disconnect_each-IsHeld,
}

disconnect_all-IsConsistent :
    (stopped : Bytes → Answer) (m : TunnelManager)
    → IsConsistent m
    → IsConsistent (disconnect_all stopped m).0
unfolding disconnect_all
disconnect_all-IsConsistent stopped m h =
    same_keys m (disconnect_each stopped m.tunnels ok_status).0
      (keys-disconnect_each stopped m.tunnels ok_status)
      (length-disconnect_each stopped m.tunnels ok_status)
      (disconnect_each-IsHeld stopped m.tunnels ok_status h.held) h

set_primary-IsConsistent :
    (id : Bytes) (m : TunnelManager) → IsConsistent m → IsConsistent (set_primary id m).0
unfolding set_primary
set_primary-IsConsistent id m h = elim (Option-cases (find_tunnel id m.tunnels)) [
  | inl missing ↦ rw (missing, set_primary) h
  | inr (t, found) ↦
      rw (found, set_primary)
        (record {
          distinct = h.distinct;
          bounded = h.bounded;
          held = h.held;
          chosen = inr (find_tunnel-Occurs id m.tunnels t found);
        })
]

store-IsConsistent :
    (t u : Tunnel) (m : TunnelManager)
    → find_tunnel t.id m.tunnels ≡ some t
    → Events.Step t u
    → IsConsistent m
    → IsConsistent (record m { tunnels = store u m.tunnels })
store-IsConsistent t u m found s h =
    let (_, is) = find_tunnel-All IsHeld t.id m.tunnels t h.held found in
    same_keys m (store u m.tunnels) (keys-store u m.tunnels) (length-store u m.tunnels)
      (store-All IsHeld u m.tunnels
        (subst (λ x. is_empty x ≡ false) (sym (Step-id t u s)) is.0, then_step t u is.1 s) h.held)
      h

reorder-IsConsistent :
    (k : ℕ) (m : TunnelManager)
    → IsConsistent m
    → IsConsistent (record m { tunnels = reorder k m.tunnels })
reorder-IsConsistent k m h = record {
  distinct = reorder-Distinct k m.tunnels h.distinct;
  bounded = ground (arith, length-reorder k m.tunnels, h.bounded);
  held = reorder-All IsHeld k m.tunnels h.held;
  chosen = choose h.chosen;
}
  where
    choose :
        ((m.tunnels ≡ []) × (m.primary_id ≡ [])) ⊎ Occurs m.primary_id (keys m.tunnels)
        → ((reorder k m.tunnels ≡ []) × (m.primary_id ≡ []))
          ⊎ Occurs m.primary_id (keys (reorder k m.tunnels))
    choose (inl (none_there, unset)) =
        inl (no_length _ (length-reorder k m.tunnels ∙ ap length none_there), unset)
      where
        no_length : (ts : List Tunnel) → length ts ≡ 0 → ts ≡ []
        no_length [] e = refl
        no_length (t ∷ ts) e = absurd (omega arith)
    choose (inr o) = inr (Occurs-reorder m.primary_id k m.tunnels o)

-- One step of the manager. A new id is any text that is not empty, as the 36 characters of a UUID are.
pub data Step : TunnelManager → TunnelManager → Type 0 where
  creates :
      (valid : Status) (id : Bytes) (now : ℕ) (profile : Profile) (m : TunnelManager)
      → is_empty id ≡ false
      → Step m (create valid id now profile m).0
  destroys : (stopped : Answer) (id : Bytes) (m : TunnelManager) → Step m (destroy stopped id m).0
  disconnects_all :
      (stopped : Bytes → Answer) (m : TunnelManager) → Step m (disconnect_all stopped m).0
  sets_primary : (id : Bytes) (m : TunnelManager) → Step m (set_primary id m).0
  -- a method of a tunnel that is held is called, or its engine calls back
  runs :
      (t u : Tunnel) (m : TunnelManager)
      → find_tunnel t.id m.tunnels ≡ some t
      → Events.Step t u
      → Step m (record m { tunnels = store u m.tunnels })
  -- two neighbours in the order of iteration change places
  reorders : (k : ℕ) (m : TunnelManager) → Step m (record m { tunnels = reorder k m.tunnels })

-- A manager that some sequence of steps leads to from its construction.
pub data Managed : TunnelManager → Type 0 where
  made : (deps : TunnelManagerDeps) → Managed (make_manager deps)
  then_call : (m n : TunnelManager) → Managed m → Step m n → Managed n

Step-IsConsistent : (m n : TunnelManager) → Step m n → IsConsistent m → IsConsistent n
Step-IsConsistent _ _ (creates valid id now profile m full) h =
    create-IsConsistent valid id now profile m full h
Step-IsConsistent _ _ (destroys stopped id m) h = destroy-IsConsistent stopped id m h
Step-IsConsistent _ _ (disconnects_all stopped m) h = disconnect_all-IsConsistent stopped m h
Step-IsConsistent _ _ (sets_primary id m) h = set_primary-IsConsistent id m h
Step-IsConsistent _ _ (runs t u m found s) h = store-IsConsistent t u m found s h
Step-IsConsistent _ _ (reorders k m) h = reorder-IsConsistent k m h

-- After any sequence of the manager's calls, of calls and callbacks of the tunnels that it holds and of
-- changes of the order of its map, where every new id is not empty: the ids of the tunnels are different
-- and not empty, there are at most `max_concurrent_tunnels` of them, each is one that its own calls and
-- callbacks led to, and the primary id is the id of one of them, or empty where there are none.
pub Managed-IsConsistent : (m : TunnelManager) → Managed m → IsConsistent m
unfolding make_manager
Managed-IsConsistent _ (made deps) = record {
  distinct = tt;
  bounded = omega arith;
  held = tt;
  chosen = inl (refl, refl);
}
Managed-IsConsistent n (then_call m _ r s) = Step-IsConsistent m n s (Managed-IsConsistent m r)
