-- ===== src/Routing/Policy/Checks.antt =====
-- What the single checks of `RoutingPolicy::validate` of Routing/src/RoutingRules.cpp ensure.
use vpn_client.Prelude.{
  Occurs, Distinct, ◌≢◌, equal, equal_iff, arith, Bool, true, false, not, ◌==◌, is_empty, length,
  List, [], ◌∷◌, ◌≡◌, refl, sym, ap, ◌∙◌, All, Bytes, codes, Bool-cases, inl, inr, subst,
}
use vpn_client.Core.Status.{Result, value, error, is_error, ◌>>=◌, bind-eq-value}
use vpn_client.Routing.Rules.{
  Disposition, tunnel, direct, block, RuleBase, IpRule, DomainRule, ApplicationRule, CountryRule,
}
use vpn_client.Routing.Policy.{
  is_member, targets_unknown, check_base, refuse, matches_all, check_ip, check_domain,
  check_application, check_country, check_all,
}

is_member-Occurs : (x : Bytes) (xs : List Bytes) → Occurs x xs → is_member x xs ≡ true
unfolding is_member
is_member-Occurs x [] h = elim h [ ]
is_member-Occurs x (y ∷ ys) (inl e) = rw ((equal_iff x y).1 e) refl
is_member-Occurs x (y ∷ ys) (inr h) = let rest = is_member-Occurs x ys h in ground arith

Occurs-is_member : (x : Bytes) (xs : List Bytes) → is_member x xs ≡ true → Occurs x xs
unfolding is_member
Occurs-is_member x [] h = absurd (cc h)
Occurs-is_member x (y ∷ ys) h = elim (Bool-cases (equal x y)) [
  | inl e ↦ inl ((equal_iff x y).0 e)
  | inr n ↦ inr (Occurs-is_member x ys (rw (n) at h))
]

-- The ids of the rules, the last first, in front of `seen`.
abbrev pub ids_onto : {R : Type 0} → (R → RuleBase) → List R → List Bytes → List Bytes
ids_onto base [] seen = seen
ids_onto base (rule ∷ rules) seen = ids_onto base rules ((base rule).id ∷ seen)

-- Such a text is not the empty one.
pub given : {text : Bytes} → is_empty text ≡ false → text ≢ []
given {text} h e = absurd (cc (h, ap is_empty e))

module _ (tunnels : List Bytes) where
  -- Traffic that is sent into a tunnel by name is sent into a known one.
  abbrev pub IsKnown : Disposition → Bytes → Type 0
  IsKnown disposition tunnel_id = disposition ≡ tunnel → tunnel_id ≢ [] → Occurs tunnel_id tunnels

  pub targets_unknown-IsKnown :
      (disposition : Disposition) (tunnel_id : Bytes)
      → targets_unknown tunnels disposition tunnel_id ≡ false
      → IsKnown disposition tunnel_id
  unfolding targets_unknown
  targets_unknown-IsKnown tunnel [] h e n = absurd (n refl)
  targets_unknown-IsKnown tunnel (c ∷ name) h e n =
      Occurs-is_member (c ∷ name) tunnels (ground arith)
  targets_unknown-IsKnown direct name h e n = absurd (cc e)
  targets_unknown-IsKnown block name h e n = absurd (cc e)

  -- The rule has an id, and the tunnel that it names, if it names one, is known.
  abbrev pub IsRouted : RuleBase → Type 0
  IsRouted rule = (rule.id ≢ []) × IsKnown rule.disposition rule.tunnel_id

  pub check_base-IsRouted :
      (kind : Bytes) (rule : RuleBase) (seen : List Bytes) {ids : List Bytes}
      → check_base tunnels kind rule seen ≡ value ids
      → IsRouted rule × (is_member rule.id seen ≡ false) × (ids ≡ rule.id ∷ seen)
  unfolding check_base
  check_base-IsRouted kind rule seen = elim (Bool-cases (is_empty rule.id)) [
    | inl unnamed ↦ rw (unnamed, check_base) (λ h. absurd (cc h))
    | inr named ↦ elim (Bool-cases (is_member rule.id seen)) [
      | inl twice ↦ rw (named, twice, check_base) (λ h. absurd (cc h))
      | inr once ↦ elim (Bool-cases (targets_unknown tunnels rule.disposition rule.tunnel_id)) [
        | inl unknown ↦ rw (named, once, unknown, check_base) (λ h. absurd (cc h))
        | inr known ↦
            rw (named, once, known, check_base)
              (λ h. (
                (given named, targets_unknown-IsKnown rule.disposition rule.tunnel_id known),
                refl,
                cc h,
              ))
      ]
    ]
  ]

-- An error is reported as one.
abbrev pub Honest {ℓ} : {A : Type ℓ} → Result A → Type 0
Honest (value a) = Unit
Honest (error s) = is_error s ≡ true

pub bind-Honest {ℓ κ} :
    {A : Type ℓ} {B : Type κ} (m : Result A) (f : A → Result B)
    → Honest m
    → ((a : A) → Honest (f a))
    → Honest (m >>= f)
bind-Honest (value a) f h k = k a
bind-Honest (error s) f h k = h

pub check_base-Honest :
    (tunnels : List Bytes) (kind : Bytes) (rule : RuleBase) (seen : List Bytes)
    → Honest (check_base tunnels kind rule seen)
unfolding check_base
check_base-Honest tunnels kind rule seen = elim (Bool-cases (is_empty rule.id)) [
  | inl unnamed ↦ rw (unnamed, check_base) refl
  | inr named ↦ elim (Bool-cases (is_member rule.id seen)) [
    | inl twice ↦ rw (named, twice, check_base) refl
    | inr once ↦ elim (Bool-cases (targets_unknown tunnels rule.disposition rule.tunnel_id)) [
      | inl unknown ↦ rw (named, once, unknown, check_base) refl
      | inr known ↦ rw (named, once, known, check_base) tt
    ]
  ]
]

pub refuse-Honest :
    (wrong : Bool) (kind name message : Bytes) (seen : List Bytes)
    → Honest (refuse wrong kind name message seen)
refuse-Honest true kind name message seen = refl
refuse-Honest false kind name message seen = tt

pub refuse-value :
    (wrong : Bool) (kind name message : Bytes) (seen : List Bytes) {ids : List Bytes}
    → refuse wrong kind name message seen ≡ value ids
    → (wrong ≡ false) × (ids ≡ seen)
refuse-value true kind name message seen h = absurd (cc h)
refuse-value false kind name message seen h = (refl, cc h)

-- What one of the four loops ensures, where each of its rules that is accepted is `Good` and new.
pub record IsChecked {R : Type 0} (base : R → RuleBase) (Good : R → Type 0) (rules : List R)
    (seen ids : List Bytes) : Type 0 where
  pub good : All Good rules
  pub distinct : Distinct seen → Distinct ids
  pub collected : ids ≡ ids_onto base rules seen

module _ {R : Type 0} (base : R → RuleBase) (Good : R → Type 0)
    (check : R → List Bytes → Result (List Bytes))
    (accepts : (rule : R) (seen ids : List Bytes)
      → check rule seen ≡ value ids
      → Good rule × (is_member (base rule).id seen ≡ false) × (ids ≡ (base rule).id ∷ seen)) where
  pub check_all-IsChecked :
      (rules : List R) (seen : List Bytes) {ids : List Bytes}
      → check_all check rules seen ≡ value ids
      → IsChecked base Good rules seen ids
  unfolding check_all
  check_all-IsChecked [] seen {ids} h =
      let same : ids ≡ seen = cc h in
      record { good = tt; distinct = λ d. subst Distinct (sym same) d; collected = same }
  check_all-IsChecked (rule ∷ rules) seen {ids} h =
      let (after, ok, last) = bind-eq-value (check rule seen) (check_all check rules) h in
      let (good, new, is) = accepts rule seen after ok in
      let rest = check_all-IsChecked rules after last in
      record {
        good = (good, rest.good);
        distinct = λ d. rest.distinct (
            subst Distinct (sym is)
              ((λ o. absurd (cc (new, is_member-Occurs (base rule).id seen o))), d));
        collected = rest.collected ∙ ap (ids_onto base rules) is;
      }

module _ {R : Type 0} (check : R → List Bytes → Result (List Bytes))
    (honest : (rule : R) (seen : List Bytes) → Honest (check rule seen)) where
  pub check_all-Honest : (rules : List R) (seen : List Bytes) → Honest (check_all check rules seen)
  unfolding check_all
  check_all-Honest [] seen = tt
  check_all-Honest (rule ∷ rules) seen =
      bind-Honest (check rule seen) (check_all check rules) (honest rule seen)
        (check_all-Honest rules)

module _ (tunnels : List Bytes) where
  pub check_ip-Honest : (rule : IpRule) (seen : List Bytes) → Honest (check_ip tunnels rule seen)
  unfolding check_ip
  check_ip-Honest rule seen = check_base-Honest tunnels (codes "ip") rule.base seen

  pub check_domain-Honest :
      (rule : DomainRule) (seen : List Bytes) → Honest (check_domain tunnels rule seen)
  unfolding check_domain
  check_domain-Honest rule seen =
      bind-Honest (check_base tunnels (codes "domain") rule.base seen) _
        (check_base-Honest tunnels (codes "domain") rule.base seen)
        (λ ids.
          bind-Honest
            (refuse (is_empty rule.pattern) (codes "domain") rule.base.name
              (codes "' has an empty pattern") ids)
            _
            (refuse-Honest (is_empty rule.pattern) (codes "domain") rule.base.name
              (codes "' has an empty pattern") ids)
            (λ ids'.
              refuse-Honest (matches_all rule.pattern) (codes "domain") rule.base.name
                (codes "' matches every host; change the default disposition instead") ids'))

  pub check_application-Honest :
      (rule : ApplicationRule) (seen : List Bytes) → Honest (check_application tunnels rule seen)
  unfolding check_application
  check_application-Honest rule seen =
      bind-Honest (check_base tunnels (codes "application") rule.base seen) _
        (check_base-Honest tunnels (codes "application") rule.base seen)
        (λ ids.
          refuse-Honest (is_empty rule.executable_path) (codes "application") rule.base.name
            (codes "' has no path") ids)

  pub check_country-Honest :
      (rule : CountryRule) (seen : List Bytes) → Honest (check_country tunnels rule seen)
  unfolding check_country
  check_country-Honest rule seen =
      bind-Honest (check_base tunnels (codes "country") rule.base seen) _
        (check_base-Honest tunnels (codes "country") rule.base seen)
        (λ ids.
          refuse-Honest (not (length rule.country_code == 2)) (codes "country") rule.base.name
            (codes "' must use a two-letter ISO code") ids)
