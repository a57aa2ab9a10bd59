-- ===== src/Phala/Policy/Strictest.antt =====
-- The strictest matching rule decides, and what the default policy never approves.
use cool_sdk.Prelude.{
  ◌≤◌, String, ◌≡◌, ◌⊎◌, inl, inr, refl, ap, sym, ◌∙◌, subst, Bool, true, false, Option, none, some,
  List, [], ◌∷◌, arith, length, All, In, All-In, Bool-cases, ltb, if◌then◌else◌, includes,
}
use native.Mathlib.Nat.{le_trans}
use cool_sdk.Codec.{Bytes, Text}
use cool_sdk.Phala.Verify.Accepts.{bind-some}
use cool_sdk.Phala.Receipt.{prompt, model, policy, agent_permission, tool, ApprovalDecision}
use cool_sdk.Phala.Policy.{
  Decision, PolicyInput, PolicyRule, PolicySet, PolicyOutcome, severity, target_matches, matches,
  matched_rules, stricter, worst_of, rule_severity_lt, outcome_of, policy_hash, evaluate,
  approval_from, or_escalate, approval_decision, bounds_match,
}
use cool_sdk.Phala.Policy.Default.{default_policy, without_approvers, widening}

abbrev AtMost : Decision → PolicyRule → Type 0
AtMost d rule = severity rule.decision ≤ severity d

stricter-bound :
    (a b : PolicyRule)
    → (severity a.decision ≤ severity (stricter a b).decision)
      × (severity b.decision ≤ severity (stricter a b).decision)
unfolding stricter
stricter-bound a b = elim (Bool-cases (rule_severity_lt a b)) [
  | inl more ↦ rw more (ground arith, omega arith)
  | inr less ↦ rw less (omega arith, ground arith)
]

stricter-either : (a b : PolicyRule) → (stricter a b ≡ b) ⊎ (stricter a b ≡ a)
unfolding stricter
stricter-either a b = elim (Bool-cases (rule_severity_lt a b)) [
  | inl more ↦ inl (rw more refl)
  | inr less ↦ inr (rw less refl)
]

worst_of-bound :
    (worst : PolicyRule) (rules : List PolicyRule)
    → (severity worst.decision ≤ severity (worst_of worst rules).decision)
      × All (AtMost (worst_of worst rules).decision) rules
unfolding worst_of
worst_of-bound worst [] = (omega arith, tt)
worst_of-bound worst (rule ∷ rules) =
    let (low, rest) = worst_of-bound (stricter worst rule) rules in
    let (from_worst, from_rule) = stricter-bound worst rule in
    (le_trans from_worst low, (le_trans from_rule low, rest))

worst_of-In :
    (worst : PolicyRule) (rules : List PolicyRule) → In (worst_of worst rules) (worst ∷ rules)
unfolding worst_of
worst_of-In worst [] = inl refl
worst_of-In worst (rule ∷ rules) = elim (worst_of-In (stricter worst rule) rules) [
  | inr further ↦ inr (inr further)
  | inl here ↦ elim (stricter-either worst rule) [
    | inl second ↦ inr (inl (sym second ∙ here))
    | inr first ↦ inl (sym first ∙ here)
  ]
]

module _ (regex_test : Text → String → Option Bool) where
  matched_rules-In :
      (rules : List PolicyRule) (input : PolicyInput) (found : List PolicyRule) (rule : PolicyRule)
      → matched_rules regex_test rules input ≡ some found
      → In rule rules
      → matches regex_test rule input ≡ some true
      → In rule found
  unfolding matched_rules
  matched_rules-In [] input found rule h at e = absurd at
  matched_rules-In (r ∷ rules) input found rule h at e =
      let (here, tested, h₁) = bind-some (matches regex_test r input) _ found h in
      let (rest, more, h₂) = bind-some (matched_rules regex_test rules input) _ found h₁ in
      place here rest tested h₂ at (λ deeper. matched_rules-In rules input rest rule more deeper e)
    where
      place :
          (here : Bool) (rest : List PolicyRule)
          → matches regex_test r input ≡ some here
          → some (if here then r ∷ rest else rest) ≡ some found
          → In rule (r ∷ rules)
          → (In rule rules → In rule rest)
          → In rule found
      place true rest tested h (inl same) step =
          let is : r ∷ rest ≡ found = cc in subst (In rule) is (inl same)
      place true rest tested h (inr deeper) step =
          let is : r ∷ rest ≡ found = cc in subst (In rule) is (inr (step deeper))
      place false rest tested h (inl same) step = cc (ap (λ x. matches regex_test x input) same)
      place false rest tested h (inr deeper) step =
          let is : rest ≡ found = cc in subst (In rule) is (step deeper)

  -- A rule that was found is one of the set, and matches.
  matched_rules_sound :
      (rules : List PolicyRule) (input : PolicyInput) (found : List PolicyRule) (rule : PolicyRule)
      → matched_rules regex_test rules input ≡ some found
      → In rule found
      → In rule rules × (matches regex_test rule input ≡ some true)
  unfolding matched_rules
  matched_rules_sound [] input found rule h at =
      absurd (let is : [] ≡ found = cc in subst (In rule) (sym is) at)
  matched_rules_sound (r ∷ rules) input found rule h at =
      let (here, tested, h₁) = bind-some (matches regex_test r input) _ found h in
      let (rest, more, h₂) = bind-some (matched_rules regex_test rules input) _ found h₁ in
      locate here rest tested h₂ (matched_rules_sound rules input rest rule more)
    where
      deeper :
          (rest : List PolicyRule)
          → (In rule rest → In rule rules × (matches regex_test rule input ≡ some true))
          → In rule rest
          → In rule (r ∷ rules) × (matches regex_test rule input ≡ some true)
      deeper rest step further = let (member, good) = step further in (inr member, good)

      locate :
          (here : Bool) (rest : List PolicyRule)
          → matches regex_test r input ≡ some here
          → some (if here then r ∷ rest else rest) ≡ some found
          → (In rule rest → In rule rules × (matches regex_test rule input ≡ some true))
          → In rule (r ∷ rules) × (matches regex_test rule input ≡ some true)
      locate true rest tested h step =
          let is : r ∷ rest ≡ found = cc in
          elim (subst (In rule) (sym is) at) [
            | inl same ↦ (inl same, ap (λ x. matches regex_test x input) (sym same) ∙ tested)
            | inr further ↦ deeper rest step further
          ]
      locate false rest tested h step =
          let is : rest ≡ found = cc in deeper rest step (subst (In rule) (sym is) at)

  without_approvers-matches :
      (input : PolicyInput)
      → input.environment ≡ "prod"
      → length input.approvers ≤ 1
      → (input.kind ≡ prompt) ⊎ (input.kind ≡ model) ⊎ (input.kind ≡ policy)
      → matches regex_test without_approvers input ≡ some true
  unfolding matches target_matches bounds_match includes
  without_approvers-matches input prod few kind =
      let room : ltb 1 (length input.approvers) ≡ false = ground arith in
      elim kind [
        | inl e ↦ rw (e, prod, room) refl
        | inr (inl e) ↦ rw (e, prod, room) refl
        | inr (inr e) ↦ rw (e, prod, room) refl
      ]

  widening-matches :
      (input : PolicyInput)
      → (input.kind ≡ agent_permission) ⊎ (input.kind ≡ tool)
      → matches regex_test widening input ≡ some true
  unfolding matches target_matches bounds_match
  widening-matches input (inl e) = rw e refl
  widening-matches input (inr e) = rw e refl

  module _ (sha256 : Bytes → Bytes) (encode_policy : PolicySet → Option Bytes) where
    outcome_of-strictest :
        (set : PolicySet) (hash : Text) (found : List PolicyRule)
        → All (AtMost (outcome_of set hash found).decision) found
          × (((found ≡ [])
                × ((outcome_of set hash found).rule ≡ none)
                × ((outcome_of set hash found).decision ≡ or_escalate set.fallback))
              ⊎ ((rule : PolicyRule) × In rule found
                  × ((outcome_of set hash found).rule ≡ some rule.id)
                  × ((outcome_of set hash found).decision ≡ rule.decision)))
    unfolding outcome_of
    outcome_of-strictest set hash [] = (tt, inl (refl, refl, refl))
    outcome_of-strictest set hash (rule ∷ rules) =
        (worst_of-bound rule rules, inr (worst_of rule rules, worst_of-In rule rules, refl, refl))

    -- Where `evaluate` returns, no rule of the set that matches is stricter than its decision; and
    -- the decision and the named rule are those of one rule of the set that matches, or no rule is
    -- named, none matches and the decision is the fallback.
    pub evaluate-strictest :
        (set : PolicySet) (input : PolicyInput) (out : PolicyOutcome)
        → evaluate regex_test sha256 encode_policy set input ≡ some out
        → ((rule : PolicyRule)
            → In rule set.rules
            → matches regex_test rule input ≡ some true
            → severity rule.decision ≤ severity out.decision)
          × (((out.rule ≡ none)
                × (out.decision ≡ or_escalate set.fallback)
                × ((rule : PolicyRule)
                    → In rule set.rules
                    → matches regex_test rule input ≡ some true
                    → ⊥))
              ⊎ ((rule : PolicyRule) × In rule set.rules
                  × (matches regex_test rule input ≡ some true)
                  × (out.rule ≡ some rule.id)
                  × (out.decision ≡ rule.decision)))
    unfolding evaluate
    evaluate-strictest set input out h =
        let (found, all, h₁) = bind-some (matched_rules regex_test set.rules input) _ out h in
        let (hash, _, h₂) = bind-some (policy_hash regex_test sha256 encode_policy set) _ out h₁ in
        let (bound, source) = outcome_of-strictest set hash found in
        let is : outcome_of set hash found ≡ out = some_injective h₂ in
        (
          λ rule at e.
              subst (λ o. severity rule.decision ≤ severity o.decision) is
                (All-In (AtMost (outcome_of set hash found).decision) rule found bound
                  (matched_rules-In set.rules input found rule all at e)),
          elim source [
            | inl (empty, unnamed, fallback) ↦ inl (
              ap (λ o. o.rule) (sym is) ∙ unnamed,
              ap (λ o. o.decision) (sym is) ∙ fallback,
              λ rule at e.
                  subst (In rule) empty (matched_rules-In set.rules input found rule all at e),
            )
            | inr (rule, at, named, decided) ↦
                let (member, good) = matched_rules_sound set.rules input found rule all at in
                inr (
                  rule,
                  member,
                  good,
                  ap (λ o. o.rule) (sym is) ∙ named,
                  ap (λ o. o.decision) (sym is) ∙ decided,
                )
          ],
        )
      where
        some_injective : {x y : PolicyOutcome} → some x ≡ some y → x ≡ y
        some_injective h = cc

    strict-rejected :
        (d : Decision) → 2 ≤ severity d → approval_decision d ≡ ApprovalDecision.rejected
    strict-rejected d h = ground arith

    -- Under the default policy, where it returns, a production change of a prompt, a model or a
    -- policy that fewer than two approvers stand behind is recorded as rejected, and so is every
    -- change of an agent's permissions or tools.
    pub approval_from-evaluate-default_policy :
        (input : PolicyInput) (out : PolicyOutcome)
        → evaluate regex_test sha256 encode_policy default_policy input ≡ some out
        → ((input.environment ≡ "prod")
            × (length input.approvers ≤ 1)
            × ((input.kind ≡ prompt) ⊎ (input.kind ≡ model) ⊎ (input.kind ≡ policy)))
          ⊎ ((input.kind ≡ agent_permission) ⊎ (input.kind ≡ tool))
        → (approval_from out input.approvers).decision ≡ ApprovalDecision.rejected
    unfolding approval_from
    approval_from-evaluate-default_policy input out h (inl (prod, few, kind)) =
        strict-rejected out.decision (
          (evaluate-strictest default_policy input out h).0 without_approvers (inr (inr (inl refl)))
            (without_approvers-matches input prod few kind))
    approval_from-evaluate-default_policy input out h (inr kind) = strict-rejected out.decision (
        (evaluate-strictest default_policy input out h).0 widening
          (inr (inr (inr (inr (inl refl))))) (widening-matches input kind))
