-- ===== src/Routing/Policy.antt =====
-- `RoutingPolicy::validate` of Routing/src/RoutingRules.cpp. The set of ids seen so far is a list, and
-- each check returns the status that ends the validation, or the set after it.
pub mod Checks
pub mod Enforceable
use vpn_client.Prelude.{
  Bool, true, false, not, ◌&&◌, ◌||◌, ◌==◌, if◌then◌else◌, is_empty, List, [], ◌∷◌, ◌++◌, length,
  Bytes, codes, equal,
}
use vpn_client.Core.Status.{ErrorCode, Status, ok_status, Result, value, error, make, ◌>>=◌}
use vpn_client.Routing.Rules.{
  Disposition, tunnel, direct, block, RuleBase, IpRule, DomainRule, ApplicationRule, CountryRule,
  RoutingPolicy,
}

unfoldable pub is_member : Bytes → List Bytes → Bool
is_member x [] = false
is_member x (y ∷ ys) = equal x y || is_member x ys

abbrev is_tunnel : Disposition → Bool
is_tunnel tunnel = true
is_tunnel direct = false
is_tunnel block = false

-- The rule goes to a tunnel by name that is not known.
unfoldable pub targets_unknown : List Bytes → Disposition → Bytes → Bool
unfolding is_member
targets_unknown tunnels disposition tunnel_id =
    is_tunnel disposition && not (is_empty tunnel_id) && not (is_member tunnel_id tunnels)

-- The lambda `checkBase`.
unfoldable pub check_base : List Bytes → Bytes → RuleBase → List Bytes → Result (List Bytes)
unfolding targets_unknown
check_base tunnels kind rule seen =
    if is_empty rule.id
    then error (make ErrorCode.invalid_argument (kind ++ codes " rule has no id"))
    else if is_member rule.id seen
    then error (make ErrorCode.already_exists (codes "duplicate rule id " ++ rule.id))
    else if targets_unknown tunnels rule.disposition rule.tunnel_id
    then error (
        make ErrorCode.not_found (
          kind
          ++ (codes " rule '"
              ++ (rule.name ++ (codes "' targets unknown tunnel " ++ rule.tunnel_id)))))
    else value (rule.id ∷ seen)

-- What is wrong with a rule beside its base: the message, behind the kind and the name.
abbrev pub refuse : Bool → Bytes → Bytes → Bytes → List Bytes → Result (List Bytes)
refuse wrong kind name message seen =
    if wrong
    then error (make ErrorCode.invalid_argument (kind ++ (codes " rule '" ++ (name ++ message))))
    else value seen

abbrev pub matches_all : Bytes → Bool
matches_all pattern = equal pattern (codes "*") || equal pattern (codes "*.")

unfoldable pub check_ip : List Bytes → IpRule → List Bytes → Result (List Bytes)
check_ip tunnels rule seen = check_base tunnels (codes "ip") rule.base seen

unfoldable pub check_domain : List Bytes → DomainRule → List Bytes → Result (List Bytes)
check_domain tunnels rule seen = do
  ids ← check_base tunnels (codes "domain") rule.base seen
  ids' ←
      refuse (is_empty rule.pattern) (codes "domain") rule.base.name
        (codes "' has an empty pattern") ids
  refuse (matches_all rule.pattern) (codes "domain") rule.base.name
      (codes "' matches every host; change the default disposition instead") ids'

unfoldable pub check_application : List Bytes → ApplicationRule → List Bytes → Result (List Bytes)
check_application tunnels rule seen = do
  ids ← check_base tunnels (codes "application") rule.base seen
  refuse (is_empty rule.executable_path) (codes "application") rule.base.name
      (codes "' has no path") ids

unfoldable pub check_country : List Bytes → CountryRule → List Bytes → Result (List Bytes)
check_country tunnels rule seen = do
  ids ← check_base tunnels (codes "country") rule.base seen
  refuse (not (length rule.country_code == 2)) (codes "country") rule.base.name
      (codes "' must use a two-letter ISO code") ids

-- One of the four loops.
unfoldable pub check_all :
    {R : Type 0}
    → (R → List Bytes → Result (List Bytes))
    → List R
    → List Bytes
    → Result (List Bytes)
check_all check [] seen = value seen
check_all check (rule ∷ rules) seen = check rule seen >>= check_all check rules

-- `tunnels` are the known tunnel ids.
unfoldable pub validate_rules : RoutingPolicy → List Bytes → Result (List Bytes)
unfolding check_all check_ip check_domain check_application check_country
validate_rules policy tunnels = do
  ids ← check_all (check_ip tunnels) policy.ip_rules []
  ids' ← check_all (check_domain tunnels) policy.domain_rules ids
  ids'' ← check_all (check_application tunnels) policy.application_rules ids'
  check_all (check_country tunnels) policy.country_rules ids''

unfoldable pub validate : RoutingPolicy → List Bytes → Status
unfolding validate_rules
validate policy tunnels = elim (validate_rules policy tunnels) [
  | error status ↦ status
  | value ids ↦
      if targets_unknown tunnels policy.default_disposition policy.default_tunnel_id
      then make ErrorCode.not_found
          (codes "default tunnel " ++ (policy.default_tunnel_id ++ codes " does not exist"))
      else ok_status
]
