-- ===== src/Routing/Routes/Journal.antt =====
-- The ledger of Routing/src/RouteManager.cpp is written ahead: the order of the calls of the machine, over
-- any sequence of methods and whatever the machine answers.
use vpn_client.Prelude.{
  arith, ℕ, Bool, true, if◌then◌else◌, Option, none, some, List, ◌≡◌, inl, inr, refl, sym, ap,
  Bytes, codes, Bool-cases,
}
use vpn_client.Core.Status.{
  Status, is_ok, is_error, is_error-with_context, with_context, Result, value, error,
}
use vpn_client.Core.Json.{JsonLibrary}
use vpn_client.Networking.Address.{IpAddress}
use vpn_client.Routing.Routes.Machine.{Row, Program, done, save, create, delete, best_route, ◌>>=◌}
use vpn_client.Routing.Routes.Ledger.{put, erase, find, find-put}
use vpn_client.Routing.Routes.{RouteEntry, to_row, route_key, RouteManager, document}
use vpn_client.Routing.Routes.Actions.{
  is_created, is_deleted, unrecord_route, record_route, after_create, create_recorded, add_route,
  after_delete, remove_route,
}

-- What the calls so far tell: the ledger as last handed to `json::writeFile`, whether that write was
-- answered with success, and the row that the last call left absent, if it did.
pub record Journal : Type 0 where
  pub owned : List (Bytes × RouteEntry)
  pub written : Bool
  pub absent : Option Row

-- How a ledger may differ from the one before: an entry was put under its key, in place
-- of one that had the key, or what was under the key of a row that was just left absent is lost.
pub data Change (j : Journal) (next : List (Bytes × RouteEntry)) : Type 0 where
  records : (entry : RouteEntry) → next ≡ put (route_key entry) entry j.owned → Change j next
  forgets :
      (entry : RouteEntry) (row : Row)
      → to_row entry ≡ value row
      → j.absent ≡ some row
      → next ≡ erase (route_key entry) j.owned
      → Change j next

-- The ledger has an entry, under its key, whose row this is.
abbrev pub Records : Row → List (Bytes × RouteEntry) → Type 0
Records row owned =
    (entry : RouteEntry) × (find (route_key entry) owned ≡ some entry) × (to_row entry ≡ value row)

-- The ledger in memory is the one that was last handed over.
abbrev pub IsSame : Journal → RouteManager × Status → Type 0
IsSame j after = j.owned ≡ after.0.owned

module _ (L : JsonLibrary) where
  open L use {Json}

  -- Whatever the machine answers from here on: a row is created only if the last write of the ledger
  -- succeeded and records the row, the ledger only changes as `Change` says, and `Q` holds in the end.
  unfoldable pub Ahead : {A : Type 0} → (Journal → A → Type 0) → Journal → Program Json A → Type 0
  Ahead Q j (done a) = Q j a
  Ahead Q j (save d k) =
      (next : List (Bytes × RouteEntry)) × (d ≡ document L next)
      × Change j next
      × ((status : Status)
          → Ahead Q (record { owned = next; written = is_ok status; absent = none }) (k status))
  Ahead Q j (create row k) =
      (j.written ≡ true)
      × Records row j.owned
      × ((code : ℕ)
          → Ahead Q (record j { absent = if is_created code then none else some row }) (k code))
  Ahead Q j (delete row k) =
      (code : ℕ)
      → Ahead Q (record j { absent = if is_deleted code then some row else none }) (k code)
  Ahead Q j (best_route address index k) =
      (code : ℕ) (hop : Result IpAddress) → Ahead Q j (k code hop)

  pub Ahead-bind :
      {A B : Type 0} (R : Journal → A → Type 0) (Q : Journal → B → Type 0) (m : Program Json A)
      (f : A → Program Json B) (j : Journal)
      → Ahead R j m
      → ((i : Journal) (a : A) → R i a → Ahead Q i (f a))
      → Ahead Q j (m >>= f)
  unfolding Ahead ◌>>=◌
  Ahead-bind R Q (done a) f j h k = k j a h
  Ahead-bind R Q (save d c) f j (next, same, change, h) k =
      (next, same, change, λ status. Ahead-bind R Q (c status) f _ (h status) k)
  Ahead-bind R Q (create row c) f j (written, there, h) k =
      (written, there, λ code. Ahead-bind R Q (c code) f _ (h code) k)
  Ahead-bind R Q (delete row c) f j h k = λ code. Ahead-bind R Q (c code) f _ (h code) k
  Ahead-bind R Q (best_route address index c) f j h k =
      λ code hop. Ahead-bind R Q (c code hop) f j (h code hop) k

  module _ (system_text : ℕ → Bytes) where
    -- Taking the entry of an absent row out of the ledger.
    unrecord-Ahead :
        (entry : RouteEntry) (row : Row) (j : Journal) (m : RouteManager)
        → to_row entry ≡ value row
        → j.absent ≡ some row
        → j.owned ≡ m.owned
        → Ahead IsSame j (unrecord_route L system_text entry m)
    unfolding Ahead unrecord_route
    unrecord-Ahead entry row j m made gone same = (
      erase (route_key entry) m.owned,
      refl,
      forgets entry row made gone (ap (λ o. erase (route_key entry) o) (sym same)),
      λ status. refl,
    )

    after_create-Ahead :
        (entry : RouteEntry) (row : Row) (j : Journal) (m : RouteManager) (code : ℕ)
        → to_row entry ≡ value row
        → j.owned ≡ m.owned
        → Ahead IsSame
            (record j { absent = if is_created code then none else some row })
            (after_create L system_text entry m code)
    unfolding after_create
    after_create-Ahead entry row j m code made same = elim (Bool-cases (is_created code)) [
      | inl good ↦ rw (good, after_create) (unfold Ahead in same)
      | inr bad ↦
          rw (bad, after_create)
            (Ahead-bind IsSame IsSame (unrecord_route L system_text entry m) _
              (record j { absent = some row })
              (unrecord-Ahead entry row (record j { absent = some row }) m made refl same)
              (λ i after k. unfold Ahead in k))
    ]

    -- Once the write of a ledger that records the row is answered, only success leads to its creation.
    create_recorded-Ahead :
        (entry : RouteEntry) (row : Row) (m : RouteManager) (status : Status)
        → to_row entry ≡ value row
        → find (route_key entry) m.owned ≡ some entry
        → Ahead IsSame
            (record { owned = m.owned; written = is_ok status; absent = none })
            (create_recorded L system_text entry row m
              (with_context (codes "persisting the route ledger") status))
    unfolding create_recorded
    create_recorded-Ahead entry row m status made there =
        let saved = with_context (codes "persisting the route ledger") status in
        let same = is_error-with_context (codes "persisting the route ledger") status in
        elim (Bool-cases (is_error saved)) [
          | inl failed ↦ rw (failed, create_recorded) (unfold Ahead in refl)
          | inr fine ↦
              let written : is_ok status ≡ true = ground (arith, same, fine) in
              rw (fine, create_recorded)
                (unfold Ahead in
                  (
                    written,
                    (entry, there, made),
                    λ code.
                        after_create-Ahead entry row
                          (record { owned = m.owned; written = is_ok status; absent = none }) m code
                          made refl,
                  ))
        ]

    pub add_route-Ahead :
        (entry : RouteEntry) (j : Journal) (m : RouteManager)
        → j.owned ≡ m.owned
        → Ahead IsSame j (add_route L system_text entry m)
    unfolding add_route record_route ◌>>=◌ Ahead
    add_route-Ahead entry j m same = go (to_row entry) refl
      where
        go :
            (made : Result Row)
            → to_row entry ≡ made
            → Ahead IsSame j (add_route L system_text entry m)
        go (error s) e = rw (e, add_route) same
        go (value row) e =
            rw (e, add_route)
              (
                put (route_key entry) entry m.owned,
                refl,
                records entry (ap (λ o. put (route_key entry) entry o) (sym same)),
                λ status.
                    create_recorded-Ahead entry row
                      (record m { owned = put (route_key entry) entry m.owned }) status e
                      (find-put (route_key entry) entry m.owned),
              )

    after_delete-Ahead :
        (entry : RouteEntry) (row : Row) (j : Journal) (m : RouteManager) (code : ℕ)
        → to_row entry ≡ value row
        → j.owned ≡ m.owned
        → Ahead IsSame
            (record j { absent = if is_deleted code then some row else none })
            (after_delete L system_text entry m code)
    unfolding after_delete
    after_delete-Ahead entry row j m code made same = elim (Bool-cases (is_deleted code)) [
      | inl gone ↦
          rw (gone, after_delete)
            (unrecord-Ahead entry row (record j { absent = some row }) m made refl same)
      | inr there ↦ rw (there, after_delete) (unfold Ahead in same)
    ]

    pub remove_route-Ahead :
        (entry : RouteEntry) (j : Journal) (m : RouteManager)
        → j.owned ≡ m.owned
        → Ahead IsSame j (remove_route L system_text entry m)
    unfolding remove_route Ahead
    remove_route-Ahead entry j m same = go (to_row entry) refl
      where
        go :
            (made : Result Row)
            → to_row entry ≡ made
            → Ahead IsSame j (remove_route L system_text entry m)
        go (error s) e = rw (e, remove_route) same
        go (value row) e =
            rw (e, remove_route) (λ code. after_delete-Ahead entry row j m code e same)
