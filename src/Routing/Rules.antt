-- ===== src/Routing/Rules.antt =====
-- Routing/include/NovaVPN/Routing/RoutingRules.h and the evaluation in Routing/src/RoutingRules.cpp.
pub mod Best
pub mod Ranking
pub mod Domains
pub mod Decisions
use vpn_client.Prelude.{
  ℕ, suc, ◌+◌, ◌-◌, Bool, true, false, not, ◌&&◌, ◌||◌, ltb, leb, ◌==◌, if◌then◌else◌, is_empty,
  Option, none, some, List, [], ◌∷◌, length, get_or, take, drop, Bytes, codes, equal, ℤ, ltb_ℤ,
}
use vpn_client.Core.Types.{Transport, udp, tcp}
use vpn_client.Core.Text.{to_lower, starts_with, ends_with, equals_ignore_case}
use vpn_client.Core.Glob.{glob_match}
use vpn_client.Networking.Address.{IpAddress, normalized}
use vpn_client.Networking.Range.{IpRange, contains}

pub data Disposition : Type 0 where
  tunnel direct block : Disposition

unfoldable pub parse_disposition : Bytes → Option Disposition
parse_disposition text =
    if equals_ignore_case text (codes "tunnel") || equals_ignore_case text (codes "vpn")
    then some tunnel
    else if equals_ignore_case text (codes "direct") || equals_ignore_case text (codes "bypass")
    then some direct
    else if equals_ignore_case text (codes "block") || equals_ignore_case text (codes "drop")
    then some block
    else none

unfoldable pub disposition_to_string : Disposition → Bytes
disposition_to_string tunnel = codes "tunnel"
disposition_to_string direct = codes "direct"
disposition_to_string block = codes "block"

-- The notes of a rule, which nothing reads, are left out.
pub record RuleBase : Type 0 where
  pub id : Bytes
  pub name : Bytes
  pub enabled : Bool
  pub priority : ℤ
  pub disposition : Disposition
  pub tunnel_id : Bytes

pub record IpRule : Type 0 where
  pub base : RuleBase
  pub range : IpRange
  pub port : Option ℕ
  pub transport : Option Transport

pub record DomainRule : Type 0 where
  pub base : RuleBase
  pub pattern : Bytes
  pub include_subdomains : Bool

-- The signer, the hash and the display name, which the evaluation does not read, are left out.
pub record ApplicationRule : Type 0 where
  pub base : RuleBase
  pub executable_path : Bytes
  pub include_children : Bool

pub record CountryRule : Type 0 where
  pub base : RuleBase
  pub country_code : Bytes

pub record RoutingPolicy : Type 0 where
  pub default_disposition : Disposition
  pub default_tunnel_id : Bytes
  pub ip_rules : List IpRule
  pub domain_rules : List DomainRule
  pub application_rules : List ApplicationRule
  pub country_rules : List CountryRule

pub record RouteDecision : Type 0 where
  pub disposition : Disposition
  pub tunnel_id : Bytes
  pub matched_rule_id : Bytes
  pub matched_rule_kind : Bytes

abbrev last_byte : Bytes → ℕ
last_byte [] = 0
last_byte (c ∷ []) = c
last_byte (c ∷ d ∷ text) = last_byte (d ∷ text)

-- `candidate`: lower case, without one trailing dot.
unfoldable pub candidate_name : Bytes → Bytes
candidate_name host =
    let lowered = to_lower host in
    if not (is_empty lowered) && last_byte lowered == b'.'
    then take (length lowered - 1) lowered
    else lowered

-- `candidate` is longer than `suffix`, ends with it, and has a dot in front of it.
unfoldable pub under_suffix : Bytes → Bytes → Bool
under_suffix candidate suffix =
    ltb (length suffix) (length candidate)
    && ends_with candidate suffix
    && get_or candidate (length candidate - length suffix - 1) 0 == b'.'

unfoldable pub matches_domain : DomainRule → Bytes → Bool
unfolding candidate_name under_suffix
matches_domain rule host =
    let candidate = candidate_name host in
    if starts_with rule.pattern (codes "*.")
    then under_suffix candidate (drop 2 rule.pattern)
    else if equal candidate rule.pattern
    then true
    else rule.include_subdomains && under_suffix candidate rule.pattern

unfoldable pub domain_specificity : DomainRule → ℕ
domain_specificity rule =
    if starts_with rule.pattern (codes "*.") then length rule.pattern - 2 else length rule.pattern

unfoldable pub matches_application : ApplicationRule → Bytes → Bool
matches_application rule executable_path =
    if is_empty rule.executable_path then false else glob_match rule.executable_path executable_path

-- `find_first_of("*?")` finds one.
unfoldable pub has_wildcard : Bytes → Bool
has_wildcard [] = false
has_wildcard (c ∷ path) = c == b'*' || c == b'?' || has_wildcard path

unfoldable pub application_specificity : ApplicationRule → ℕ
unfolding has_wildcard
application_specificity rule =
    length rule.executable_path + (if has_wildcard rule.executable_path then 0 else 4096)

unfoldable pub decision_from : RuleBase → Bytes → RouteDecision
decision_from rule kind = record {
  disposition = rule.disposition;
  tunnel_id = rule.tunnel_id;
  matched_rule_id = rule.id;
  matched_rule_kind = kind;
}

unfoldable pub default_decision : RoutingPolicy → RouteDecision
default_decision policy = record {
  disposition = policy.default_disposition;
  tunnel_id = policy.default_tunnel_id;
  matched_rule_id = [];
  matched_rule_kind = [];
}

-- The loop that the three evaluations share: of the rules that match, the one that is most specific,
-- then of the highest priority, then the first.
module _ {R : Type 0} (specificity : R → ℕ) (priority : R → ℤ) where
  unfoldable pub beats : R → R → Bool
  beats rule best =
      ltb (specificity best) (specificity rule)
      || (specificity rule == specificity best && ltb_ℤ (priority best) (priority rule))

  unfoldable pub better : Option R → R → Option R
  unfolding beats
  better none rule = some rule
  better (some best) rule = if beats rule best then some rule else some best

module _ {R : Type 0} (matches : R → Bool) (specificity : R → ℕ) (priority : R → ℤ) where
  unfoldable pub best_rule : Option R → List R → Option R
  unfolding better
  best_rule best [] = best
  best_rule best (rule ∷ rules) =
      best_rule (if matches rule then better specificity priority best rule else best) rules

abbrev pub same_transport : Transport → Transport → Bool
same_transport udp udp = true
same_transport tcp tcp = true
same_transport _ _ = false

-- A restriction that is set is met only by a value that is given and equal.
abbrev pub meets {ℓ} : {A : Type ℓ} → (A → A → Bool) → Option A → Option A → Bool
meets same none given = true
meets same (some wanted) none = false
meets same (some wanted) (some given) = same wanted given

unfoldable pub matches_address : IpAddress → Option ℕ → Option Transport → IpRule → Bool
matches_address address port transport rule =
    rule.base.enabled
    && contains rule.range address
    && meets ◌==◌ rule.port port
    && meets same_transport rule.transport transport

abbrev pub best_ip_rule : RoutingPolicy → IpAddress → Option ℕ → Option Transport → Option IpRule
best_ip_rule policy address port transport =
    best_rule (matches_address (normalized address) port transport)
      (λ rule. rule.range.prefix_length) (λ rule. rule.base.priority) none policy.ip_rules

unfoldable pub evaluate_address :
    RoutingPolicy → IpAddress → Option ℕ → Option Transport → RouteDecision
evaluate_address policy address port transport = elim (best_ip_rule policy address port transport) [
  | none ↦ default_decision policy
  | some rule ↦ decision_from rule.base (codes "ip")
]

abbrev pub best_domain_rule : RoutingPolicy → Bytes → Option DomainRule
best_domain_rule policy host =
    best_rule (λ rule. rule.base.enabled && matches_domain rule host) domain_specificity
      (λ rule. rule.base.priority) none policy.domain_rules

unfoldable pub evaluate_domain : RoutingPolicy → Bytes → RouteDecision
evaluate_domain policy host = elim (best_domain_rule policy host) [
  | none ↦ default_decision policy
  | some rule ↦ decision_from rule.base (codes "domain")
]

abbrev pub best_application_rule : RoutingPolicy → Bytes → Option ApplicationRule
best_application_rule policy executable_path =
    best_rule (λ rule. rule.base.enabled && matches_application rule executable_path)
      application_specificity (λ rule. rule.base.priority) none policy.application_rules

unfoldable pub evaluate_application : RoutingPolicy → Bytes → RouteDecision
evaluate_application policy executable_path = elim (best_application_rule policy executable_path) [
  | none ↦ default_decision policy
  | some rule ↦ decision_from rule.base (codes "application")
]
