-- ===== src/Routing/Policy/Enforceable.antt =====
-- What a policy guarantees that `RoutingPolicy::validate` of Routing/src/RoutingRules.cpp accepts.
use vpn_client.Prelude.{
  Distinct, sym, ◌≢◌, equal, true, false, not, ◌==◌, is_empty, length, List, [], ◌∷◌, ◌≡◌, refl, ap,
  ◌∙◌, arith, All, Bytes, codes, Bool-cases, inl, inr, subst,
}
use vpn_client.Core.Status.{Result, value, error, is_ok, bind-eq-value}
use vpn_client.Routing.Rules.{IpRule, DomainRule, ApplicationRule, CountryRule, RoutingPolicy}
use vpn_client.Routing.Policy.{
  is_member, targets_unknown, check_base, refuse, matches_all, check_ip, check_domain,
  check_application, check_country, check_all, validate_rules, validate,
}
use vpn_client.Routing.Policy.Checks.{
  ids_onto, IsRouted, IsKnown, targets_unknown-IsKnown, given, check_base-IsRouted, Honest,
  bind-Honest, refuse-value, check_all-IsChecked, check_all-Honest, check_ip-Honest,
  check_domain-Honest, check_application-Honest, check_country-Honest,
}

not_star : (pattern : Bytes) → matches_all pattern ≡ false → pattern ≢ codes "*"
unfolding equal
not_star pattern h e =
    let k : matches_all (codes "*") ≡ true = refl in
    absurd (cc (sym k ∙ sym (ap matches_all e) ∙ h))

not_dot : (pattern : Bytes) → matches_all pattern ≡ false → pattern ≢ codes "*."
unfolding equal
not_dot pattern h e =
    let k : matches_all (codes "*.") ≡ true = refl in
    absurd (cc (sym k ∙ sym (ap matches_all e) ∙ h))

module _ (tunnels : List Bytes) where
  -- A domain rule that `validate` accepts has a pattern, which is not the one of every host.
  abbrev pub IsDomainRule : DomainRule → Type 0
  IsDomainRule rule =
      IsRouted tunnels rule.base
      × (rule.pattern ≢ [])
      × (rule.pattern ≢ codes "*")
      × (rule.pattern ≢ codes "*.")

  abbrev pub IsApplicationRule : ApplicationRule → Type 0
  IsApplicationRule rule = IsRouted tunnels rule.base × (rule.executable_path ≢ [])

  abbrev pub IsCountryRule : CountryRule → Type 0
  IsCountryRule rule = IsRouted tunnels rule.base × (length rule.country_code ≡ 2)

  accepts_domain :
      (rule : DomainRule) (seen ids : List Bytes)
      → check_domain tunnels rule seen ≡ value ids
      → IsDomainRule rule × (is_member rule.base.id seen ≡ false) × (ids ≡ rule.base.id ∷ seen)
  unfolding check_domain
  accepts_domain rule seen ids h =
      let (a, first, h') = bind-eq-value (check_base tunnels (codes "domain") rule.base seen) _ h in
      let (b, second, third) =
        bind-eq-value
          (refuse (is_empty rule.pattern) (codes "domain") rule.base.name
            (codes "' has an empty pattern") a)
          _ h' in
      let (routed, new, is) = check_base-IsRouted tunnels (codes "domain") rule.base seen first in
      let (full, same) =
        refuse-value (is_empty rule.pattern) (codes "domain") rule.base.name
          (codes "' has an empty pattern") a second in
      let (some_host, same') =
        refuse-value (matches_all rule.pattern) (codes "domain") rule.base.name
          (codes "' matches every host; change the default disposition instead") b third in
      (
        (routed, given full, not_star rule.pattern some_host, not_dot rule.pattern some_host),
        new,
        same' ∙ same ∙ is,
      )

  accepts_application :
      (rule : ApplicationRule) (seen ids : List Bytes)
      → check_application tunnels rule seen ≡ value ids
      → IsApplicationRule rule × (is_member rule.base.id seen ≡ false) × (ids ≡ rule.base.id ∷ seen)
  unfolding check_application
  accepts_application rule seen ids h =
      let (a, first, second) =
        bind-eq-value (check_base tunnels (codes "application") rule.base seen) _ h in
      let (routed, new, is) =
        check_base-IsRouted tunnels (codes "application") rule.base seen first in
      let (full, same) =
        refuse-value (is_empty rule.executable_path) (codes "application") rule.base.name
          (codes "' has no path") a second in
      ((routed, given full), new, same ∙ is)

  accepts_country :
      (rule : CountryRule) (seen ids : List Bytes)
      → check_country tunnels rule seen ≡ value ids
      → IsCountryRule rule × (is_member rule.base.id seen ≡ false) × (ids ≡ rule.base.id ∷ seen)
  unfolding check_country
  accepts_country rule seen ids h =
      let (a, first, second) =
        bind-eq-value (check_base tunnels (codes "country") rule.base seen) _ h in
      let (routed, new, is) = check_base-IsRouted tunnels (codes "country") rule.base seen first in
      let (full, same) =
        refuse-value (not (length rule.country_code == 2)) (codes "country") rule.base.name
          (codes "' must use a two-letter ISO code") a second in
      ((routed, ground arith), new, same ∙ is)

  accepts_ip :
      (rule : IpRule) (seen ids : List Bytes)
      → check_ip tunnels rule seen ≡ value ids
      → IsRouted tunnels rule.base
        × (is_member rule.base.id seen ≡ false)
        × (ids ≡ rule.base.id ∷ seen)
  unfolding check_ip
  accepts_ip rule seen ids h = check_base-IsRouted tunnels (codes "ip") rule.base seen h

  -- Every rule is well formed, no two have one id, and the default names no unknown tunnel.
  pub record IsEnforceable (policy : RoutingPolicy) : Type 0 where
    pub ip : All (λ rule. IsRouted tunnels rule.base) policy.ip_rules
    pub domain : All IsDomainRule policy.domain_rules
    pub application : All IsApplicationRule policy.application_rules
    pub country : All IsCountryRule policy.country_rules
    pub distinct : Distinct (
        ids_onto
          (λ rule. rule.base)
          policy.country_rules
          (ids_onto
            (λ rule. rule.base)
            policy.application_rules
            (ids_onto
              (λ rule. rule.base)
              policy.domain_rules
              (ids_onto (λ rule. rule.base) policy.ip_rules []))))
    pub default : IsKnown tunnels policy.default_disposition policy.default_tunnel_id

  module _ (policy : RoutingPolicy) where
    validate_rules-IsEnforceable :
        (ids : List Bytes)
        → validate_rules policy tunnels ≡ value ids
        → targets_unknown tunnels policy.default_disposition policy.default_tunnel_id ≡ false
        → IsEnforceable policy
    unfolding validate_rules
    validate_rules-IsEnforceable ids h known =
        let (a, ha, h') = bind-eq-value (check_all (check_ip tunnels) policy.ip_rules []) _ h in
        let (b, hb, h'') =
          bind-eq-value (check_all (check_domain tunnels) policy.domain_rules a) _ h' in
        let (c, hc, hd) =
          bind-eq-value (check_all (check_application tunnels) policy.application_rules b) _ h'' in
        let one =
          check_all-IsChecked (λ (rule : IpRule). rule.base) (λ rule. IsRouted tunnels rule.base)
            (check_ip tunnels) accepts_ip policy.ip_rules [] ha in
        let two =
          check_all-IsChecked (λ (rule : DomainRule). rule.base) IsDomainRule (check_domain tunnels)
            accepts_domain policy.domain_rules a hb in
        let three =
          check_all-IsChecked (λ (rule : ApplicationRule). rule.base) IsApplicationRule
            (check_application tunnels) accepts_application policy.application_rules b hc in
        let four =
          check_all-IsChecked (λ (rule : CountryRule). rule.base) IsCountryRule
            (check_country tunnels) accepts_country policy.country_rules c hd in
        record {
          ip = one.good;
          domain = two.good;
          application = three.good;
          country = four.good;
          distinct =
              subst Distinct
                (four.collected
                  ∙ ap (ids_onto (λ (rule : CountryRule). rule.base) policy.country_rules) (
                      three.collected
                      ∙ ap
                          (ids_onto (λ (rule : ApplicationRule). rule.base)
                            policy.application_rules)
                          (two.collected
                            ∙ ap (ids_onto (λ (rule : DomainRule). rule.base) policy.domain_rules)
                                one.collected)))
                (four.distinct (three.distinct (two.distinct (one.distinct tt))));
          default =
              targets_unknown-IsKnown tunnels policy.default_disposition policy.default_tunnel_id
                known;
        }

    validate_rules-Honest : Honest (validate_rules policy tunnels)
    unfolding validate_rules
    validate_rules-Honest =
        bind-Honest (check_all (check_ip tunnels) policy.ip_rules []) _
          (check_all-Honest (check_ip tunnels) (check_ip-Honest tunnels) policy.ip_rules [])
          (λ a.
            bind-Honest (check_all (check_domain tunnels) policy.domain_rules a) _
              (check_all-Honest (check_domain tunnels) (check_domain-Honest tunnels)
                policy.domain_rules a)
              (λ b.
                bind-Honest (check_all (check_application tunnels) policy.application_rules b) _
                  (check_all-Honest (check_application tunnels) (check_application-Honest tunnels)
                    policy.application_rules b)
                  (check_all-Honest (check_country tunnels) (check_country-Honest tunnels)
                    policy.country_rules)))

    -- In a policy that `validate` accepts, no two rules, of whatever kind, have one id and no id is empty;
    -- where a rule or the default sends traffic into a tunnel by a name that is not empty, the name is one
    -- of the known tunnels; no domain pattern is empty, `*` or `*.`, no application path is empty, and
    -- every country code is two bytes long.
    pub validate-IsEnforceable : is_ok (validate policy tunnels) ≡ true → IsEnforceable policy
    unfolding validate
    validate-IsEnforceable = go (validate_rules policy tunnels) refl validate_rules-Honest
      where
        go :
            (r : Result (List Bytes))
            → validate_rules policy tunnels ≡ r
            → Honest r
            → is_ok (validate policy tunnels) ≡ true
            → IsEnforceable policy
        go (error s) e honest = rw (e, validate) (λ h. absurd (cc (rw h at honest)))
        go (value ids) e honest =
            elim (Bool-cases
              (targets_unknown tunnels policy.default_disposition policy.default_tunnel_id)) [
                | inl unknown ↦ rw (e, unknown, validate) (λ h. absurd (cc h))
                | inr known ↦ λ _. validate_rules-IsEnforceable ids e known
              ]
