-- ===== src/Examples/Policies.antt =====
-- The theorems about Routing/src/RoutingRules.cpp at a concrete policy.
use vpn_client.Routing.Policy.{check_base}
use vpn_client.Prelude.{length, equal}
use vpn_client.Prelude.{true, false, some, [], ◌∷◌, ◌++◌, ◌≡◌, ◌↔◌, ◌⊎◌, refl, codes, All, pos}
use vpn_client.Core.Types.{tcp}
use vpn_client.Networking.Address.{IpAddress, from_v4, from_v6, mapped_prefix, normalized}
use vpn_client.Routing.Rules.{
  tunnel, direct, RuleBase, IpRule, DomainRule, ApplicationRule, RoutingPolicy, candidate_name,
  matches_domain, evaluate_address, evaluate_domain, decision_from, default_decision,
}
use vpn_client.Core.Status.{is_ok}
use vpn_client.Routing.Policy.{validate}
use vpn_client.Routing.Policy.Enforceable.{IsEnforceable, validate-IsEnforceable}
use vpn_client.Routing.Rules.Ranking.{IsBest, FitsAddress, FitsDomain, pinned}
use vpn_client.Routing.Rules.Domains.{Covers, matches_domain-Covers}
use vpn_client.Routing.Rules.Decisions.{
  evaluate_address-IsBest, evaluate_domain-IsBest, evaluate_address_mapped,
}

abbrev base : RuleBase
base = record {
  id = codes "r1";
  name = codes "office";
  enabled = true;
  priority = pos 10;
  disposition = direct;
  tunnel_id = [];
}

abbrev office : IpRule
office = record {
  base = base;
  range = record { network = from_v4 (10 ∷ 0 ∷ 0 ∷ 0 ∷ []); prefix_length = 8 };
  port = some 443;
  transport = some tcp;
}

abbrev corporate : DomainRule
corporate = record {
  base = record base { id = codes "r2" };
  pattern = codes "*.corp.lan";
  include_subdomains = false;
}

abbrev browser : ApplicationRule
browser = record {
  base = record base { id = codes "r3" };
  executable_path = codes "*.exe";
  include_children = true;
}

abbrev policy : RoutingPolicy
policy = record {
  default_disposition = tunnel;
  default_tunnel_id = codes "t1";
  ip_rules = office ∷ [];
  domain_rules = corporate ∷ [];
  application_rules = browser ∷ [];
  country_rules = [];
}

abbrev host : IpAddress
host = from_v4 (10 ∷ 1 ∷ 2 ∷ 3 ∷ [])

evaluate_address-IsBest_example :
    (All (λ rule. ¬ FitsAddress (normalized host) (some 443) (some tcp) rule) policy.ip_rules
      × (evaluate_address policy host (some 443) (some tcp) ≡ default_decision policy))
    ⊎ ((rule : IpRule) × IsBest
          (FitsAddress (normalized host) (some 443) (some tcp))
          (λ rule. rule.range.prefix_length)
          (λ rule. rule.base.priority)
          policy.ip_rules
          rule
        × (evaluate_address policy host (some 443) (some tcp)
            ≡ decision_from rule.base (codes "ip")))
evaluate_address-IsBest_example = evaluate_address-IsBest policy host (some 443) (some tcp)

evaluate_domain-IsBest_example :
    (All (λ rule. ¬ FitsDomain (codes "Git.Corp.lan.") rule) policy.domain_rules
      × (evaluate_domain policy (codes "Git.Corp.lan.") ≡ default_decision policy))
    ⊎ ((rule : DomainRule) × IsBest
          (FitsDomain (codes "Git.Corp.lan."))
          (λ rule. length (pinned rule))
          (λ rule. rule.base.priority)
          policy.domain_rules
          rule
        × (evaluate_domain policy (codes "Git.Corp.lan.")
            ≡ decision_from rule.base (codes "domain")))
evaluate_domain-IsBest_example = evaluate_domain-IsBest policy (codes "Git.Corp.lan.")

matches_domain-Covers_example :
    (matches_domain corporate (codes "Git.Corp.lan.") ≡ true)
    ↔ Covers corporate (candidate_name (codes "Git.Corp.lan."))
matches_domain-Covers_example = matches_domain-Covers corporate (codes "Git.Corp.lan.")

evaluate_address_mapped_example :
    evaluate_address policy (from_v6 (mapped_prefix ++ (10 ∷ 1 ∷ 2 ∷ 3 ∷ []))) (some 443) (some tcp)
    ≡ evaluate_address policy (from_v4 (10 ∷ 1 ∷ 2 ∷ 3 ∷ [])) (some 443) (some tcp)
evaluate_address_mapped_example =
    evaluate_address_mapped policy (10 ∷ 1 ∷ 2 ∷ 3 ∷ []) (some 443) (some tcp) refl

accepted : is_ok (validate policy (codes "t1" ∷ [])) ≡ true
unfolding validate check_base equal
accepted = refl

validate-IsEnforceable_example : IsEnforceable (codes "t1" ∷ []) policy
validate-IsEnforceable_example = validate-IsEnforceable (codes "t1" ∷ []) policy accepted
