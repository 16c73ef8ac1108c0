-- ===== src/Routing/Routes/Ordered.antt =====
-- The order in which the methods of Routing/src/RouteManager.cpp write the ledger and change the table.
use vpn_client.Prelude.{
  ◌++◌, Option-cases, ℕ, Bool, true, false, ◌==◌, if◌then◌else◌, none, List, [], ◌∷◌, ◌≡◌, inl, inr,
  refl, Bytes, codes, Bool-cases,
}
use vpn_client.Core.Status.{Status, ok_status, is_error, with_context, Result, value, error}
use vpn_client.Core.Json.{JsonLibrary}
use vpn_client.Networking.Address.{IpAddress, is_v4}
use vpn_client.Networking.Range
use vpn_client.Networking.Range.{IpRange}
use vpn_client.Routing.Rules.{IpRule}
use vpn_client.Routing.Routes.Machine.{done, no_error}
use vpn_client.Routing.Routes.{
  RouteEntry, RouteManager, set_underlay_interface, set_tunnel_interface, clear_tunnel_interface,
}
use vpn_client.Routing.Routes.Actions.{
  Action, add_route, remove_route, add_routes, capture_default_route, rule_entry, apply_rules,
  apply_policy, after_best, pinned_entry, pin_gateway_route, remove_each, remove_all_owned_routes,
  reconcile,
}
use vpn_client.Routing.Routes.Actions.{owned_routes}
use vpn_client.Routing.Routes.Journal.{
  Journal, Ahead, Ahead-bind, IsSame, add_route-Ahead, remove_route-Ahead,
}
use vpn_client.Routing.Routes.Operations.{
  Operation, add, remove, pin, capture, apply, remove_all, reconcile_all, set_underlay, set_tunnel,
  clear_tunnel, perform, operate,
}

module _ (L : JsonLibrary) where
  open L use {Json}

  module _ (system_text : ℕ → Bytes) where
    -- After a step the rest goes on, or it ends with another status.
    or_done-Ahead :
        (stop : Bool) (i : Journal) (after : RouteManager × Status) (s : Status)
        (rest : Action L system_text)
        → IsSame i after
        → Ahead L IsSame i rest
        → Ahead L IsSame i (if stop then done (after.0, s) else rest)
    or_done-Ahead true i after s rest same h = unfold Ahead in same
    or_done-Ahead false i after s rest same h = h

    add_routes-Ahead :
        (entries : List (Bytes × RouteEntry)) (j : Journal) (m : RouteManager)
        → j.owned ≡ m.owned
        → Ahead L IsSame j (add_routes L system_text entries m)
    unfolding add_routes Ahead
    add_routes-Ahead [] j m same = same
    add_routes-Ahead ((context, entry) ∷ entries) j m same =
        Ahead-bind L IsSame IsSame (add_route L system_text entry m) _ j
          (add_route-Ahead L system_text entry j m same)
          (λ i after k.
            or_done-Ahead (is_error after.1) i after (with_context context after.1) _ k
              (add_routes-Ahead entries i after.0 k))

    apply_rules-Ahead :
        (rules : List IpRule) (j : Journal) (m : RouteManager)
        → j.owned ≡ m.owned
        → Ahead L IsSame j (apply_rules L system_text rules m)
    unfolding apply_rules Ahead
    apply_rules-Ahead [] j m same = same
    apply_rules-Ahead (rule ∷ rules) j m same = elim (Option-cases (rule_entry rule m)) [
      | inl skipped ↦ rw (skipped, apply_rules) (apply_rules-Ahead rules j m same)
      | inr (entry, wanted) ↦
          rw (wanted, apply_rules)
            (Ahead-bind L IsSame IsSame (add_route L system_text entry m) _ j
              (add_route-Ahead L system_text entry j m same)
              (λ i after k.
                or_done-Ahead (is_error after.1) i after
                  (with_context (codes "applying rule " ++ rule.base.id) after.1) _ k
                  (apply_rules-Ahead rules i after.0 k)))
    ]

    after_best-Ahead :
        (gateway : IpAddress) (index : ℕ) (j : Journal) (m : RouteManager) (code : ℕ)
        (hop : Result IpAddress)
        → j.owned ≡ m.owned
        → Ahead L IsSame j (after_best L system_text gateway index m code hop)
    unfolding after_best Ahead
    after_best-Ahead gateway index j m code hop same = elim (Bool-cases (code == no_error)) [
      | inr failed ↦ rw (failed, after_best) same
      | inl found ↦
          rw (found, after_best) (go (Range.make gateway (if is_v4 gateway then 32 else 128)))
    ]
      where
        go :
            (made : Result IpRange)
            → Ahead L IsSame j (elim made [
              | error s ↦ done (m, s)
              | value range ↦ add_route L system_text (pinned_entry index hop range) m
            ])
        go (error s) = same
        go (value range) = add_route-Ahead L system_text (pinned_entry index hop range) j m same

    remove_each-Ahead :
        (entries : List RouteEntry) (first : Status) (j : Journal) (m : RouteManager)
        → j.owned ≡ m.owned
        → Ahead L IsSame j (remove_each L system_text entries first m)
    unfolding remove_each Ahead
    remove_each-Ahead [] first j m same = same
    remove_each-Ahead (entry ∷ entries) first j m same =
        Ahead-bind L IsSame IsSame (remove_route L system_text entry m) _ j
          (remove_route-Ahead L system_text entry j m same)
          (λ i after k. remove_each-Ahead entries _ i after.0 k)

    reconcile-Ahead :
        (j : Journal) (m : RouteManager)
        → j.owned ≡ m.owned
        → Ahead L IsSame j (reconcile L system_text m)
    unfolding reconcile Ahead
    reconcile-Ahead j m same = go (owned_routes m)
      where
        go :
            (entries : List RouteEntry)
            → Ahead L IsSame j (elim entries [
              | [] ↦ done (m, ok_status)
              | entry ∷ others ↦ remove_each L system_text (entry ∷ others) ok_status m
            ])
        go [] = same
        go (entry ∷ entries) = remove_each-Ahead (entry ∷ entries) ok_status j m same

    perform-Ahead :
        (o : Operation) (j : Journal) (m : RouteManager)
        → j.owned ≡ m.owned
        → Ahead L IsSame j (perform L system_text o m)
    unfolding perform Ahead pin_gateway_route capture_default_route apply_policy
        remove_all_owned_routes set_underlay_interface set_tunnel_interface clear_tunnel_interface
    perform-Ahead (add entry) j m same = add_route-Ahead L system_text entry j m same
    perform-Ahead (remove entry) j m same = remove_route-Ahead L system_text entry j m same
    perform-Ahead (pin gateway index) j m same =
        λ code hop. after_best-Ahead gateway index j m code hop same
    perform-Ahead (capture index mode family) j m same = add_routes-Ahead _ j m same
    perform-Ahead (apply policy) j m same = apply_rules-Ahead policy.ip_rules j m same
    perform-Ahead remove_all j m same = remove_each-Ahead (owned_routes m) ok_status j m same
    perform-Ahead reconcile_all j m same = reconcile-Ahead j m same
    perform-Ahead (set_underlay index) j m same = same
    perform-Ahead (set_tunnel id index) j m same = same
    perform-Ahead (clear_tunnel id) j m same = same

    operate-IsSame :
        (os : List Operation) (j : Journal) (m : RouteManager)
        → j.owned ≡ m.owned
        → Ahead L IsSame j (operate L system_text os m)
    unfolding operate Ahead
    operate-IsSame [] j m same = same
    operate-IsSame (o ∷ os) j m same =
        Ahead-bind L IsSame IsSame (perform L system_text o m) _ j (perform-Ahead o j m same)
          (λ i after k. operate-IsSame os i after.0 k)

    -- In any sequence of calls of the methods that change something, from any ledger and whatever the
    -- machine answers: a row is created only if the last write of the ledger was answered with success and
    -- the ledger that it wrote has an entry, under its key, with that row. Each ledger that is written
    -- differs from the one before by an entry that was put under its key, in place of one that had the
    -- key, or by the loss of the entries under the key of a row whose deletion was just answered with
    -- success or "not found", or whose creation just failed. In the end the ledger in memory is the one
    -- last handed to the write, or the one of the start if there was none.
    pub operate-Ahead :
        (os : List Operation) (m : RouteManager)
        → Ahead L IsSame
            (record { owned = m.owned; written = false; absent = none })
            (operate L system_text os m)
    operate-Ahead os m =
        operate-IsSame os (record { owned = m.owned; written = false; absent = none }) m refl
