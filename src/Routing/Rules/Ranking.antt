-- ===== src/Routing/Rules/Ranking.antt =====
-- The order in which the rules of Routing/src/RoutingRules.cpp decide, said apart from the code: what a
-- rule must meet to fit, and which of two rules ranks higher.
use mathlib.Core.Path.{fun_ext}
use vpn_client.Prelude.{
  ℕ, ◌+◌, ◌<◌, Bool, true, false, not, ◌&&◌, ◌||◌, ltb, ◌==◌, if◌then◌else◌, is_empty, Option, none,
  some, List, [], ◌∷◌, ◌++◌, length, drop, Bytes, codes, ℤ, ltb_ℤ, ◌≡◌, ◌⊎◌, ◌↔◌, inl, inr, refl,
  ◌≢◌, ap, arith, sym, length-drop, All, Bool-cases, &&-eq-true, ==_iff,
}
use vpn_client.Core.Types.{Transport, udp, tcp}
use vpn_client.Core.Text.{starts_with}
use vpn_client.Core.Glob.{glob_match}
use vpn_client.Networking.Address.{IpAddress}
use vpn_client.Networking.Range.{contains}
use vpn_client.Routing.Rules.{
  IpRule, DomainRule, ApplicationRule, beats, best_rule, matches_address, matches_domain,
  domain_specificity, matches_application, application_specificity, has_wildcard, candidate_name,
  meets, same_transport,
}
use vpn_client.Routing.Rules.Best.{IsChosen, Under, AtMost, best_rule-IsChosen}
use vpn_client.Routing.Rules.Domains.{Covers, matches_domain-Covers}

-- Specificity `s` with priority `p` ranks below `t` with `q`.
abbrev pub IsLower : ℕ → ℤ → ℕ → ℤ → Type 0
IsLower s p t q = (s < t) ⊎ ((s ≡ t) × (ltb_ℤ p q ≡ true))

module _ {R : Type 0} (Fits : R → Type 0) (specificity : R → ℕ) (priority : R → ℤ) where
  -- Of two rules, the first ranks below the second.
  abbrev pub Below : R → R → Type 0
  Below a b = IsLower (specificity a) (priority a) (specificity b) (priority b)

  -- `rule` is in the list and fits; each rule before it that fits ranks below it, and it ranks below
  -- no rule behind it that fits.
  pub record IsBest (rules : List R) (rule : R) : Type 0 where
    pub before : List R
    pub after : List R
    pub splits : rules ≡ before ++ (rule ∷ after)
    pub fits : Fits rule
    pub first : All (λ q. Fits q → Below q rule) before
    pub highest : All (λ q. Fits q → ¬ Below rule q) after

  beats-Below : (a b : R) → (beats specificity priority a b ≡ true) ↔ Below b a
  unfolding beats
  beats-Below a b = outranks (specificity a) (specificity b) (ltb_ℤ (priority b) (priority a))
    where
      outranks :
          (s t : ℕ) (higher : Bool)
          → ((ltb t s || (s == t && higher)) ≡ true) ↔ ((t < s) ⊎ ((t ≡ s) × (higher ≡ true)))
      outranks s t higher = ground arith

pub All-map :
    {R : Type 0} (P Q : R → Type 0)
    → ((q : R) → P q → Q q)
    → (rules : List R) → All P rules
    → All Q rules
All-map P Q f [] h = tt
All-map P Q f (x ∷ rules) (p, h) = (f x p, All-map P Q f rules h)

module _ {R : Type 0} (matches : R → Bool) (Fits : R → Type 0) (specificity : R → ℕ)
    (priority : R → ℤ) (same : (q : R) → (matches q ≡ true) ↔ Fits q) where
  IsChosen-IsBest :
      {rules : List R} {rule : R}
      → IsChosen matches specificity priority rules rule
      → IsBest Fits specificity priority rules rule
  IsChosen-IsBest {rules} {rule} h = record {
    before = h.before;
    after = h.after;
    splits = h.splits;
    fits = (same rule).0 h.fits;
    first =
        All-map (Under matches specificity priority rule) _
          (λ q u f. (beats-Below Fits specificity priority rule q).0 (u ((same q).1 f))) h.before
          h.first;
    highest =
        All-map (AtMost matches specificity priority rule) _
          (λ q u f below.
            absurd (cc (u ((same q).1 f), (beats-Below Fits specificity priority q rule).1 below)))
          h.after h.highest;
  }

  -- The loop ends with no rule exactly if none fits, and else with the best one.
  pub best_rule-IsBest :
      (rules : List R)
      → ((best_rule matches specificity priority none rules ≡ none) × All (λ q. ¬ Fits q) rules)
        ⊎ ((rule : R) × (best_rule matches specificity priority none rules ≡ some rule)
            × IsBest Fits specificity priority rules rule)
  best_rule-IsBest rules = elim (best_rule-IsChosen matches specificity priority rules) [
    | inl (e, all) ↦
        inl
          (e, All-map (λ q. matches q ≡ false) _ (λ q n f. absurd (cc (n, (same q).1 f))) rules all)
    | inr (rule, e, h) ↦ inr (rule, e, IsChosen-IsBest h)
  ]

-- A restriction is not set, or it is what is given.
abbrev pub Admits : {A : Type 0} → Option A → Option A → Type 0
Admits restriction given = (restriction ≡ none) ⊎ (given ≡ restriction)

-- The rule is enabled, its range holds the address, and the port and the transport are admitted.
pub record FitsAddress (address : IpAddress) (port : Option ℕ) (transport : Option Transport)
    (rule : IpRule) : Type 0 where
  pub enabled : rule.base.enabled ≡ true
  pub held : contains rule.range address ≡ true
  pub to_port : Admits rule.port port
  pub by_transport : Admits rule.transport transport

-- The rule is enabled and covers the name.
pub record FitsDomain (host : Bytes) (rule : DomainRule) : Type 0 where
  pub enabled : rule.base.enabled ≡ true
  pub covers : Covers rule (candidate_name host)

-- The name that a rule pins: its pattern, without the `*.` of a wildcard.
abbrev pub pinned : DomainRule → Bytes
pinned rule = if starts_with rule.pattern (codes "*.") then drop 2 rule.pattern else rule.pattern

-- The rule is enabled, has a path, and the path as a glob matches.
pub record FitsApplication (path : Bytes) (rule : ApplicationRule) : Type 0 where
  pub enabled : rule.base.enabled ≡ true
  pub given : rule.executable_path ≢ []
  pub matches : glob_match rule.executable_path path ≡ true

abbrev is_exact : Bytes → Bool
is_exact [] = true
is_exact (c ∷ path) = not (c == b'*') && not (c == b'?') && is_exact path

-- The weight of an application rule: the bytes of its path, and 4096 more without `*` and `?`.
abbrev pub weight : ApplicationRule → ℕ
weight rule = length rule.executable_path + (if is_exact rule.executable_path then 4096 else 0)

meets_port : (wanted given : Option ℕ) → (meets ◌==◌ wanted given ≡ true) ↔ Admits wanted given
meets_port none given = (λ h. inl refl, λ h. refl)
meets_port (some x) none = ground arith
meets_port (some x) (some y) = (λ h. inr (ap some (sym ((==_iff x y).0 h))), λ h. ground arith)

meets_transport :
    (wanted given : Option Transport)
    → (meets same_transport wanted given ≡ true) ↔ Admits wanted given
meets_transport none given = (λ h. inl refl, λ h. refl)
meets_transport (some x) none = ground arith
meets_transport (some udp) (some udp) = (λ h. inr refl, λ h. refl)
meets_transport (some udp) (some tcp) = ground arith
meets_transport (some tcp) (some udp) = ground arith
meets_transport (some tcp) (some tcp) = (λ h. inr refl, λ h. refl)

pub matches-FitsAddress :
    (address : IpAddress) (port : Option ℕ) (transport : Option Transport) (rule : IpRule)
    → (matches_address address port transport rule ≡ true) ↔ FitsAddress address port transport rule
unfolding matches_address
matches-FitsAddress address port transport rule = (
  λ h.
      let (xyz, w) = &&-eq-true _ (meets same_transport rule.transport transport) h in
      let (xy, z) = &&-eq-true _ (meets ◌==◌ rule.port port) xyz in
      let (x, y) = &&-eq-true _ (contains rule.range address) xy in
      record {
        enabled = x;
        held = y;
        to_port = (meets_port _ _).0 z;
        by_transport = (meets_transport _ _).0 w;
      },
  λ f.
      let z = (meets_port _ _).1 f.to_port in
      let w = (meets_transport _ _).1 f.by_transport in rw (f.enabled, f.held, z, w) refl,
)

pub matches-FitsDomain :
    (host : Bytes) (rule : DomainRule)
    → ((rule.base.enabled && matches_domain rule host) ≡ true) ↔ FitsDomain host rule
unfolding matches_domain
matches-FitsDomain host rule = (
  λ h.
      let (x, y) = &&-eq-true _ (matches_domain rule host) h in
      record { enabled = x; covers = (matches_domain-Covers rule host).0 y },
  λ f. let y = (matches_domain-Covers rule host).1 f.covers in rw (f.enabled, y) refl,
)

pub matches-FitsApplication :
    (path : Bytes) (rule : ApplicationRule)
    → ((rule.base.enabled && matches_application rule path) ≡ true) ↔ FitsApplication path rule
unfolding matches_application
matches-FitsApplication path rule = (
  λ h.
      let (x, y) = &&-eq-true _ (matches_application rule path) h in
      let (g, m) = path_given rule.executable_path y in
      record { enabled = x; given = g; matches = m },
  λ f. let y = given_path rule.executable_path f.given f.matches in rw (f.enabled) y,
)
  where
    path_given :
        (glob : Bytes)
        → (if is_empty glob then false else glob_match glob path) ≡ true
        → (glob ≢ []) × (glob_match glob path ≡ true)
    path_given [] h = absurd (cc h)
    path_given (c ∷ glob) h = ((λ e. absurd (cc e)), h)

    given_path :
        (glob : Bytes)
        → glob ≢ []
        → glob_match glob path ≡ true
        → (if is_empty glob then false else glob_match glob path) ≡ true
    given_path [] n h = absurd (n refl)
    given_path (c ∷ glob) n h = h

domain_specificity-pinned : (rule : DomainRule) → domain_specificity rule ≡ length (pinned rule)
unfolding domain_specificity
domain_specificity-pinned rule = elim (Bool-cases (starts_with rule.pattern (codes "*."))) [
  | inl w ↦ rw (w) (sym (length-drop 2 rule.pattern))
  | inr w ↦ rw (w) refl
]

application_specificity-weight :
    (rule : ApplicationRule) → application_specificity rule ≡ weight rule
unfolding application_specificity has_wildcard
application_specificity-weight rule =
    ap (λ (b : ℕ). length rule.executable_path + b) (go rule.executable_path)
  where
    go :
        (path : Bytes)
        → ◌≡◌ {A = ℕ} (if has_wildcard path then 0 else 4096) (if is_exact path then 4096 else 0)
    go [] = refl
    go (c ∷ path) = let rest = go path in ground arith

pub domain_specificity_same : domain_specificity ≡ (λ rule. length (pinned rule))
domain_specificity_same = fun_ext domain_specificity-pinned

pub application_specificity_same : application_specificity ≡ weight
application_specificity_same = fun_ext application_specificity-weight
