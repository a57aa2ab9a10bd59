-- ===== src/Platform/Policy/Decide/Severity.antt =====
-- The decision of a policy is the most restrictive of what its rules contribute.
use cool_sdk.Prelude.{
  ◌≤◌, String, ◌≡◌, ◌⊎◌, inl, inr, refl, subst, sym, ◌∙◌, Bool, Option, none, some, List, [], ◌∷◌,
  arith, All, In, All-In, Bool-cases, List-cases, ltb, if◌then◌else◌,
}
use native.Mathlib.Nat.{le_trans}
use cool_sdk.Platform.Policy.Value.{Json}
use cool_sdk.Platform.Policy.Tri.{Tri}
use cool_sdk.Platform.Policy.Eval.{Facts, evaluate_condition}
use cool_sdk.Platform.Policy.Decide.{
  Decision, allow, deny, severity, PolicyRule, PolicyDocument, MatchedRule, PolicyDecisionRecord,
  validate_policy, contribution, match_rules, most_restrictive, decide_among, evaluate_policy,
}
use cool_sdk.Platform.Policy.Decide.Asks.{
  match_rules-In, match_rules-source, match_rules-none, value_of, AsksFor, asked_by,
  contribution-AsksFor, contribution-false,
}

abbrev pub AtMost : Decision → MatchedRule → Type 0
AtMost d m = severity m.decision ≤ severity d

next_bounds :
    (a b : Decision)
    → (severity a ≤ severity (if ltb (severity a) (severity b) then b else a))
      × (severity b ≤ severity (if ltb (severity a) (severity b) then b else a))
next_bounds a b = elim (Bool-cases (ltb (severity a) (severity b))) [
  | inl t ↦ rw t (ground arith, omega arith)
  | inr f ↦ rw f (omega arith, ground arith)
]

most_restrictive-bound :
    (acc : Decision) (ms : List MatchedRule)
    → (severity acc ≤ severity (most_restrictive acc ms))
      × All (AtMost (most_restrictive acc ms)) ms
unfolding most_restrictive
most_restrictive-bound acc [] = (omega arith, tt)
most_restrictive-bound acc (m ∷ ms) =
    let next = if ltb (severity acc) (severity m.decision) then m.decision else acc in
    let (low, rest) = most_restrictive-bound next ms in
    let (from_acc, from_m) = next_bounds acc m.decision in
    (le_trans from_acc low, (le_trans from_m low, rest))

-- The decision is one that a rule contributed.
abbrev pub IsContributed : Decision → List MatchedRule → Type 0
IsContributed d ms = (m : MatchedRule) × In m ms × (m.decision ≡ d)

most_restrictive-source :
    (acc : Decision) (ms : List MatchedRule)
    → (most_restrictive acc ms ≡ acc) ⊎ IsContributed (most_restrictive acc ms) ms
unfolding most_restrictive
most_restrictive-source acc [] = inl refl
most_restrictive-source acc (m ∷ ms) =
    elim (Bool-cases (ltb (severity acc) (severity m.decision))) [
      | inl t ↦ rw t (elim (most_restrictive-source m.decision ms) [
        | inl e ↦ inr (m, inl refl, sym e)
        | inr (n, at, e) ↦ inr (n, inr at, e)
      ])
      | inr f ↦ rw f (elim (most_restrictive-source acc ms) [
        | inl e ↦ inl e
        | inr (n, at, e) ↦ inr (n, inr at, e)
      ])
    ]

decide_among-bound :
    (fallback : Decision) (ms : List MatchedRule) → All (AtMost (decide_among fallback ms)) ms
decide_among-bound fallback [] = tt
decide_among-bound fallback (m ∷ ms) = (most_restrictive-bound allow (m ∷ ms)).1

severity-zero : (d : Decision) → severity d ≤ 0 → d ≡ allow
severity-zero d h = ground arith

-- With a contribution the decision is one of the contributed; a first `allow` is no exception,
-- since nothing below it can be contributed.
decide_among-source :
    (fallback : Decision) (m : MatchedRule) (ms : List MatchedRule)
    → IsContributed (decide_among fallback (m ∷ ms)) (m ∷ ms)
decide_among-source fallback m ms =
    let (low, (first, rest)) = most_restrictive-bound allow (m ∷ ms) in
    elim (most_restrictive-source allow (m ∷ ms)) [
      | inr found ↦ found
      | inl e ↦
          let le = subst (λ d. severity m.decision ≤ severity d) e first in
          (m, inl refl, severity-zero m.decision le ∙ sym e)
    ]

module _ (regex_test : String → String → Bool) (regex_valid : Option Json → Bool) where
  record_of :
      (p : PolicyDocument) (facts : Facts) (r : PolicyDecisionRecord)
      → evaluate_policy regex_test regex_valid p facts ≡ some r
      → (validate_policy regex_valid p ≡ [])
        × (r.matched_rules ≡ match_rules regex_test p facts p.rules)
        × (r.decision ≡ decide_among p.fallback (match_rules regex_test p facts p.rules))
  unfolding evaluate_policy
  record_of p facts r e = elim (List-cases (validate_policy regex_valid p)) [
    | inl valid ↦ (valid, ground arith, ground arith)
    | inr (q, qs, invalid) ↦ absurd (ground arith)
  ]

  -- Where `evaluatePolicy` returns, nothing that a rule asks for is more restrictive than the
  -- decision; and one of the rules asks for the decision, or the condition of every rule is false
  -- and the decision is the policy's default. A rule asks for its decision where its condition is
  -- true, and where the condition is unknown for its own answer to that, the policy's or `defer`.
  pub evaluate_policy-most_restrictive :
      (p : PolicyDocument) (facts : Facts) (r : PolicyDecisionRecord)
      → evaluate_policy regex_test regex_valid p facts ≡ some r
      → ((rule : PolicyRule) (d : Decision)
          → In rule p.rules
          → AsksFor regex_test regex_valid p facts rule d
          → severity d ≤ severity r.decision)
        × (((rule : PolicyRule) × In rule p.rules
              × AsksFor regex_test regex_valid p facts rule r.decision)
            ⊎ All (λ rule. value_of regex_test regex_valid facts rule ≡ Tri.false) p.rules
              × (r.decision ≡ p.fallback))
  evaluate_policy-most_restrictive p facts r e =
      let (valid, matched, decided) = record_of p facts r e in
      let ms = match_rules regex_test p facts p.rules in
      (
        λ rule d at asks.
            let (m, is, same) = asked_by regex_test regex_valid p facts rule d asks in
            subst (λ x. severity x ≤ severity r.decision) same
              (rw decided (
                All-In (AtMost (decide_among p.fallback ms)) m ms (decide_among-bound p.fallback ms)
                  (match_rules-In regex_test regex_valid p facts rule m p.rules at is))),
        source ms refl decided,
      )
    where
      all_false :
          (rules : List PolicyRule)
          → All (λ rule. contribution regex_test p facts rule ≡ none) rules
          → All (λ rule. value_of regex_test regex_valid facts rule ≡ Tri.false) rules
      all_false [] all = tt
      all_false (rule ∷ rules) (none_here, all) =
          (contribution-false regex_test regex_valid p facts rule none_here, all_false rules all)

      source :
          (ms : List MatchedRule)
          → match_rules regex_test p facts p.rules ≡ ms
          → r.decision ≡ decide_among p.fallback ms
          → ((rule : PolicyRule) × In rule p.rules
              × AsksFor regex_test regex_valid p facts rule r.decision)
            ⊎ All (λ rule. value_of regex_test regex_valid facts rule ≡ Tri.false) p.rules
              × (r.decision ≡ p.fallback)
      source [] is decided =
          inr (
            all_false p.rules (match_rules-none regex_test regex_valid p facts p.rules is),
            decided,
          )
      source (m ∷ ms) is decided =
          let (n, at, same) = decide_among-source p.fallback m ms in
          let (rule, member, found) =
            match_rules-source regex_test regex_valid p facts n p.rules
              (subst (In n) (sym is) at) in
          inl (
            rule,
            member,
            subst (AsksFor regex_test regex_valid p facts rule) (same ∙ sym decided)
                (contribution-AsksFor regex_test regex_valid p facts rule n found),
          )

  severity-deny : (d : Decision) → 5 ≤ severity d → d ≡ deny
  severity-deny d h = ground arith

  -- One rule that denies and whose condition is true makes the decision `deny`, whatever the other
  -- rules, their order and the defaults say.
  pub evaluate_policy-deny :
      (p : PolicyDocument) (facts : Facts) (r : PolicyDecisionRecord) (rule : PolicyRule)
      → evaluate_policy regex_test regex_valid p facts ≡ some r
      → In rule p.rules
      → rule.decision ≡ deny
      → (evaluate_condition regex_test rule.condition facts []).0 ≡ Tri.true
      → r.decision ≡ deny
  evaluate_policy-deny p facts r rule e at d t = severity-deny r.decision (
      subst (λ x. severity x ≤ severity r.decision) d
        ((evaluate_policy-most_restrictive p facts r e).0 rule rule.decision at (inl (t, refl))))
