-- ===== src/Routing/Rules/Domains.antt =====
-- What `matchesDomain` of Routing/src/RoutingRules.cpp accepts.
use vpn_client.Prelude.{
  ℕ, zero, suc, ◌-◌, ◌<◌, true, false, ltb, leb, [], ◌∷◌, ◌++◌, ◌≡◌, ◌↔◌, inl, inr, refl, sym, ap,
  ◌∙◌, arith, Bytes, Bool-cases, length, take, drop, get_or, length-append, take-append-drop,
  append_assoc, equal, equal_iff, equal_refl, codes, subst, &&-eq-true, ==_iff, ltb→lt,
}
use vpn_client.Core.Text.{ends_with, starts_with}
use vpn_client.Routing.Rules.{DomainRule, candidate_name, under_suffix, matches_domain}

-- `name` is some text, a dot, and `suffix`.
pub record Under (name suffix : Bytes) : Type 0 where
  pub label : Bytes
  pub splits : name ≡ label ++ (b'.' ∷ suffix)

drop-append : (xs ys : Bytes) → drop (length xs) (xs ++ ys) ≡ ys
drop-append [] ys = refl
drop-append (x ∷ xs) ys = drop-append xs ys

get_or-append : (xs ys : Bytes) (d : ℕ) → get_or (xs ++ (d ∷ ys)) (length xs) 0 ≡ d
get_or-append [] ys d = refl
get_or-append (x ∷ xs) ys d = get_or-append xs ys d

drop-get_or : (k : ℕ) (xs : Bytes) → k < length xs → drop k xs ≡ get_or xs k 0 ∷ drop (suc k) xs
drop-get_or k [] h = elim h [ ]
drop-get_or zero (x ∷ xs) h = refl
drop-get_or (suc k) (x ∷ xs) h = drop-get_or k xs (omega arith)

ends_with-drop :
    (text suffix : Bytes)
    → ends_with text suffix ≡ true
    → drop (length text - length suffix) text ≡ suffix
unfolding ends_with
ends_with-drop text suffix h = (equal_iff _ _).0 ((&&-eq-true _ _ h).1)

ends_with-append : (xs ys : Bytes) → ends_with (xs ++ ys) ys ≡ true
unfolding ends_with
ends_with-append xs ys =
    let long : leb (length ys) (length (xs ++ ys)) ≡ true = ground (arith, length-append xs ys) in
    let at : length (xs ++ ys) - length ys ≡ length xs = omega (arith, length-append xs ys) in
    rw (long, at, drop-append xs ys, equal_refl ys)

under_suffix-Under : (name suffix : Bytes) → under_suffix name suffix ≡ true → Under name suffix
unfolding under_suffix
under_suffix-Under name suffix h =
    let (both, dot) = &&-eq-true _ _ h in
    let (long, tail) = &&-eq-true _ _ both in
    let k = length name - length suffix - 1 in
    let shorter = ltb→lt (length suffix) (length name) long in
    let next : suc k ≡ length name - length suffix = omega arith in
    record {
      label = take k name;
      splits =
          sym (take-append-drop k name)
          ∙ ap (◌++◌ (take k name)) (
              drop-get_or k name (omega arith)
              ∙ ap (λ d. d ∷ drop (suc k) name) ((==_iff _ _).0 dot)
              ∙ ap (λ (n : ℕ). b'.' ∷ drop n name) next
              ∙ ap (◌∷◌ b'.') (ends_with-drop name suffix tail));
    }

Under-under_suffix : (name suffix : Bytes) → Under name suffix → under_suffix name suffix ≡ true
unfolding under_suffix
Under-under_suffix name suffix u =
    subst (λ n. under_suffix n suffix ≡ true) (sym u.splits) (written u.label)
  where
    written : (x : Bytes) → under_suffix (x ++ (b'.' ∷ suffix)) suffix ≡ true
    written x =
        let size = length-append x (b'.' ∷ suffix) in
        let long : ltb (length suffix) (length (x ++ (b'.' ∷ suffix))) ≡ true = ground arith in
        let at : length (x ++ (b'.' ∷ suffix)) - length suffix - 1 ≡ length x = omega arith in
        let tail : ends_with (x ++ (b'.' ∷ suffix)) suffix ≡ true =
          subst (λ t. ends_with t suffix ≡ true) (append_assoc x (b'.' ∷ []) suffix)
            (ends_with-append (x ++ b'.' ∷ []) suffix) in
        rw (long, tail, at, get_or-append x suffix b'.')

-- What a domain rule covers: the names under a wildcard, or the pattern and perhaps the names under
-- it.
pub data Covers (rule : DomainRule) (name : Bytes) : Type 0 where
  wildcard :
      starts_with rule.pattern (codes "*.") ≡ true
      → Under name (drop 2 rule.pattern)
      → Covers rule name
  exact : starts_with rule.pattern (codes "*.") ≡ false → name ≡ rule.pattern → Covers rule name
  subdomain :
      starts_with rule.pattern (codes "*.") ≡ false
      → rule.include_subdomains ≡ true
      → Under name rule.pattern
      → Covers rule name

Covers-matches :
    (rule : DomainRule) (host : Bytes)
    → Covers rule (candidate_name host)
    → matches_domain rule host ≡ true
unfolding matches_domain
Covers-matches rule host (wildcard w u) = rw (w, Under-under_suffix _ _ u)
Covers-matches rule host (exact w e) = rw (w, (equal_iff _ _).1 e)
Covers-matches rule host (subdomain w i u) = let k = Under-under_suffix _ _ u in ground arith

matches-Covers :
    (rule : DomainRule) (host : Bytes)
    → matches_domain rule host ≡ true
    → Covers rule (candidate_name host)
unfolding matches_domain
matches-Covers rule host h = elim (Bool-cases (starts_with rule.pattern (codes "*."))) [
  | inl w ↦ wildcard w (under_suffix-Under _ _ (rw w at h))
  | inr w ↦ elim (Bool-cases (equal (candidate_name host) rule.pattern)) [
    | inl e ↦ exact w ((equal_iff _ _).0 e)
    | inr n ↦
        let (i, u) = &&-eq-true _ _ (rw (w, n) at h) in subdomain w i (under_suffix-Under _ _ u)
  ]
]

-- `matchesDomain` accepts exactly the hosts whose name, in lower case and without a trailing dot, the
-- rule covers. A wildcard covers no name that is not behind a dot, so neither its own suffix nor a
-- name that merely ends like it.
pub matches_domain-Covers :
    (rule : DomainRule) (host : Bytes)
    → (matches_domain rule host ≡ true) ↔ Covers rule (candidate_name host)
matches_domain-Covers rule host = (matches-Covers rule host, Covers-matches rule host)
