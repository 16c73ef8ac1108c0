-- ===== src/Tunnel/Manager/Calls.antt =====
-- What the calls of the manager of Tunnel/src/TunnelManager.cpp promise to their caller.
use vpn_client.Prelude.{
  Occurs, ℕ, false, none, some, List, [], ◌∷◌, ◌≡◌, ◌⊎◌, inl, inr, refl, Bytes, Bool-cases, All,
  equal, is_empty, leb, length,
}
use vpn_client.Core.Status.{Status, value, error, ok_status, is_error}
use vpn_client.Tunnel.{Tunnel, Profile, make_tunnel, Answer, disconnect}
use vpn_client.Tunnel.Lifecycle.{IsStopped, disconnect-ends, disconnect-IsStopped}
use vpn_client.Core.Types.{disconnected, same_state}
use vpn_client.Tunnel.Manager.{
  not_found, TunnelManager, find_tunnel, create, find, destroy, disconnect_each, disconnect_all,
  primary,
}
use vpn_client.Tunnel.Manager.Table.{
  keys, Occurs-find_tunnel, find_tunnel-erase, find_tunnel-erase_other, find_tunnel-emplace,
  find_tunnel-emplace_other,
}
use vpn_client.Tunnel.Manager.Invariant.{IsConsistent, find_tunnel-is_empty}
use vpn_client.Tunnel.Manager.Runs.{Managed, Managed-IsConsistent}

-- After any run of the manager and of the tunnels that it holds, while it holds one, `primary` returns one
-- that it holds, under the primary id.
pub primary-Managed :
    (m : TunnelManager)
    → Managed m
    → is_empty m.tunnels ≡ false
    → (t : Tunnel) × (primary m ≡ value t) × (find_tunnel m.primary_id m.tunnels ≡ some t)
unfolding primary
primary-Managed m r some_there = go (Managed-IsConsistent m r) (Managed-IsConsistent m r).chosen
  where
    go :
        IsConsistent m
        → ((m.tunnels ≡ []) × (m.primary_id ≡ [])) ⊎ Occurs m.primary_id (keys m.tunnels)
        → (t : Tunnel) × (primary m ≡ value t) × (find_tunnel m.primary_id m.tunnels ≡ some t)
    go h (inl (none_there, unset)) = absurd (cc (rw none_there at some_there))
    go h (inr o) =
        let (t, found) = Occurs-find_tunnel m.primary_id m.tunnels o in
        (
          t,
          rw (find_tunnel-is_empty m.primary_id m.tunnels t h.held found, found, primary) refl,
          found,
        )

-- After `destroy` of an id that the manager of any run holds, `find` fails for that id and answers for
-- every other id as before. The call succeeds. The tunnel that was held, whatever its own run had made of
-- it, is Disconnected, and if it was not before then as `IsStopped` says: with no engine, no session, and
-- the cancellation of a token that it has requested.
pub destroy-find :
    (stopped : Answer) (id other : Bytes) (m : TunnelManager) (t : Tunnel)
    → Managed m
    → find_tunnel id m.tunnels ≡ some t
    → equal id other ≡ false
    → (find id (destroy stopped id m).0 ≡ error (not_found id))
      × (find other (destroy stopped id m).0 ≡ find other m)
      × ((destroy stopped id m).2 ≡ ok_status)
      × ((u : Tunnel) × ((destroy stopped id m).1 ≡ some u)
          × (u.state ≡ disconnected)
          × (same_state t.state disconnected ≡ false → IsStopped t u))
unfolding destroy find
destroy-find stopped id other m t r found differs =
    rw (found, destroy)
      (
        rw (find_tunnel-erase id m.tunnels (Managed-IsConsistent m r).distinct, find) refl,
        rw (find_tunnel-erase_other id other m.tunnels differs, find) refl,
        (disconnect-ends stopped t).0,
        (
          (disconnect stopped t).0,
          refl,
          (disconnect-ends stopped t).1,
          λ on. (disconnect-IsStopped stopped t on).1,
        ),
      )

-- A call of `create` that returns a tunnel, under an id that was not in use, makes `find` return it under
-- that id and answer for every other id as before.
pub create-find :
    (valid : Status) (id other : Bytes) (now : ℕ) (profile : Profile) (m : TunnelManager)
    (t : Tunnel)
    → find_tunnel id m.tunnels ≡ none
    → equal id other ≡ false
    → (create valid id now profile m).1 ≡ value t
    → (find id (create valid id now profile m).0 ≡ value t)
      × (find other (create valid id now profile m).0 ≡ find other m)
unfolding create find make_tunnel
create-find valid id other now profile m t fresh differs = elim (Bool-cases (is_error valid)) [
  | inl invalid ↦ rw (invalid, create) (λ h. absurd (cc h))
  | inr fine ↦ elim (Bool-cases (leb m.deps.max_concurrent_tunnels (length m.tunnels))) [
    | inl many ↦ rw (fine, many, create) (λ h. absurd (cc h))
    | inr few ↦
        rw (fine, few, create)
          (λ h. (
            rw (find_tunnel-emplace (make_tunnel id profile m.deps now) m.tunnels fresh, find) h,
            rw
                (
                  find_tunnel-emplace_other (make_tunnel id profile m.deps now) other m.tunnels
                      differs,
                  find,
                )
                refl,
          ))
  ]
]

disconnect_each-ends :
    (stopped : Bytes → Answer) (ts : List Tunnel)
    → ((disconnect_each stopped ts ok_status).1 ≡ ok_status)
      × All (λ t. t.state ≡ disconnected) (disconnect_each stopped ts ok_status).0
unfolding disconnect_each
disconnect_each-ends stopped [] = (refl, tt)
disconnect_each-ends stopped (t ∷ ts) =
    let (ok, off) = disconnect-ends (stopped t.id) t in
    let (status, all_off) = disconnect_each-ends stopped ts in rw ok (status, (off, all_off))

-- Whatever the engines answer, `disconnect_all` succeeds and leaves every tunnel Disconnected.
pub disconnect_all-ends :
    (stopped : Bytes → Answer) (m : TunnelManager)
    → ((disconnect_all stopped m).1 ≡ ok_status)
      × All (λ t. t.state ≡ disconnected) (disconnect_all stopped m).0.tunnels
unfolding disconnect_all
disconnect_all-ends stopped m = disconnect_each-ends stopped m.tunnels
