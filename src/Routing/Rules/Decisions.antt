-- ===== src/Routing/Rules/Decisions.antt =====
-- What the evaluation of Routing/src/RoutingRules.cpp decides.
use vpn_client.Prelude.{
  ℕ, ◌&&◌, Option, [], ◌∷◌, ◌++◌, ◌≡◌, ◌⊎◌, inl, inr, refl, ◌∙◌, arith, All, Bytes, codes, length,
  equal_refl, subst,
}
use vpn_client.Core.Types.{Transport}
use vpn_client.Networking.Address.{IpAddress, from_v4, from_v6, normalized, mapped_prefix}
use vpn_client.Routing.Rules.{
  RoutingPolicy, IpRule, DomainRule, matches_address, matches_domain, domain_specificity,
  evaluate_address, evaluate_domain, decision_from, default_decision,
}
use vpn_client.Routing.Rules.Ranking.{
  IsBest, FitsAddress, FitsDomain, pinned, best_rule-IsBest, matches-FitsAddress,
  matches-FitsDomain, domain_specificity_same,
}

-- An address is decided by a rule that is enabled, whose range holds it and whose port and transport,
-- where set, are the given ones: each rule before it that fits so has a shorter prefix, or the same and
-- a lower priority, and none behind it has a longer prefix, or the same and a higher priority. Where
-- no rule fits, the default decides.
pub evaluate_address-IsBest :
    (policy : RoutingPolicy) (address : IpAddress) (port : Option ℕ) (transport : Option Transport)
    → (All (λ rule. ¬ FitsAddress (normalized address) port transport rule) policy.ip_rules
        × (evaluate_address policy address port transport ≡ default_decision policy))
      ⊎ ((rule : IpRule) × IsBest
            (FitsAddress (normalized address) port transport)
            (λ rule. rule.range.prefix_length)
            (λ rule. rule.base.priority)
            policy.ip_rules
            rule
          × (evaluate_address policy address port transport ≡ decision_from rule.base (codes "ip")))
unfolding evaluate_address
evaluate_address-IsBest policy address port transport =
    elim (best_rule-IsBest (matches_address (normalized address) port transport) _
      (λ rule. rule.range.prefix_length) (λ rule. rule.base.priority)
      (matches-FitsAddress (normalized address) port transport) policy.ip_rules) [
        | inl (e, all) ↦ inl (all, rw (e, evaluate_address))
        | inr (rule, e, best) ↦ inr (rule, best, rw (e, evaluate_address))
      ]

-- A host is decided by a domain rule that is enabled and covers its name: each rule before it that does
-- pins a shorter name (counted in bytes), or one as long and has a lower priority, and none behind it
-- pins a longer one, or one as long with a higher priority. Where no enabled rule
-- covers it, the default decides.
pub evaluate_domain-IsBest :
    (policy : RoutingPolicy) (host : Bytes)
    → (All (λ rule. ¬ FitsDomain host rule) policy.domain_rules
        × (evaluate_domain policy host ≡ default_decision policy))
      ⊎ ((rule : DomainRule) × IsBest
            (FitsDomain host)
            (λ rule. length (pinned rule))
            (λ rule. rule.base.priority)
            policy.domain_rules
            rule
          × (evaluate_domain policy host ≡ decision_from rule.base (codes "domain")))
unfolding evaluate_domain
evaluate_domain-IsBest policy host =
    elim (best_rule-IsBest (λ (rule : DomainRule). rule.base.enabled && matches_domain rule host)
      (FitsDomain host) domain_specificity (λ rule. rule.base.priority) (matches-FitsDomain host)
      policy.domain_rules) [
        | inl (e, all) ↦ inl (all, rw (e, evaluate_domain))
        | inr (rule, e, best) ↦ inr (
          rule,
          subst (λ s. IsBest (FitsDomain host) s (λ r. r.base.priority) policy.domain_rules rule)
              domain_specificity_same best,
          rw (e, evaluate_domain),
        )
      ]

normalized_mapped :
    (b : Bytes) → length b ≡ 4 → normalized (from_v6 (mapped_prefix ++ b)) ≡ from_v4 b
unfolding normalized
normalized_mapped [] h = absurd (omega arith)
normalized_mapped (x ∷ []) h = absurd (omega arith)
normalized_mapped (x ∷ y ∷ []) h = absurd (omega arith)
normalized_mapped (x ∷ y ∷ z ∷ []) h = absurd (omega arith)
normalized_mapped (x ∷ y ∷ z ∷ w ∷ []) h = rw (equal_refl mapped_prefix)
normalized_mapped (x ∷ y ∷ z ∷ w ∷ v ∷ b) h = absurd (omega arith)

-- An IPv4 address in IPv6 form is decided as the IPv4 address, so it gets round no rule.
pub evaluate_address_mapped :
    (policy : RoutingPolicy) (b : Bytes) (port : Option ℕ) (transport : Option Transport)
    → length b ≡ 4
    → evaluate_address policy (from_v6 (mapped_prefix ++ b)) port transport
      ≡ evaluate_address policy (from_v4 b) port transport
unfolding evaluate_address
evaluate_address_mapped policy b port transport h =
    let same : normalized (from_v6 (mapped_prefix ++ b)) ≡ normalized (from_v4 b) =
      normalized_mapped b h ∙ (unfold normalized in refl) in
    rw (same, evaluate_address)
