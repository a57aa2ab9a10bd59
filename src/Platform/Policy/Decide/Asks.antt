-- ===== src/Platform/Policy/Decide/Asks.antt =====
-- What a rule asks for, and that the matched rules are those that ask for something.
use cool_sdk.Prelude.{
  ap, String, ◌≡◌, ◌⊎◌, inl, inr, refl, sym, ◌∙◌, Bool, Option, none, some, List, [], ◌∷◌, All, In,
}
use cool_sdk.Platform.Trust.{or_else}
use cool_sdk.Platform.Policy.Value.{Json}
use cool_sdk.Platform.Policy.Tri.{Tri}
use cool_sdk.Platform.Policy.Eval.{Facts, evaluate_condition}
use cool_sdk.Platform.Policy.Decide.{
  Decision, deny, defer, PolicyRule, PolicyDocument, MatchedRule, contribution, push, match_rules,
}

module _ (regex_test : String → String → Bool) (regex_valid : Option Json → Bool) where
  pub match_rules-In :
      (p : PolicyDocument) (facts : Facts) (rule : PolicyRule) (m : MatchedRule)
      (rules : List PolicyRule)
      → In rule rules
      → contribution regex_test p facts rule ≡ some m
      → In m (match_rules regex_test p facts rules)
  unfolding match_rules
  match_rules-In p facts rule m [] at e = absurd at
  match_rules-In p facts rule m (r ∷ rules) (inl same) e = rw same (rw e (inl refl))
  match_rules-In p facts rule m (r ∷ rules) (inr at) e =
      push-In (contribution regex_test p facts r) (match_rules regex_test p facts rules)
        (match_rules-In p facts rule m rules at e)
    where
      push-In : (o : Option MatchedRule) (ms : List MatchedRule) → In m ms → In m (push o ms)
      push-In none ms h = h
      push-In (some n) ms h = inr h

  pub match_rules-source :
      (p : PolicyDocument) (facts : Facts) (m : MatchedRule) (rules : List PolicyRule)
      → In m (match_rules regex_test p facts rules)
      → (rule : PolicyRule) × In rule rules × (contribution regex_test p facts rule ≡ some m)
  unfolding match_rules
  match_rules-source p facts m [] at = absurd at
  match_rules-source p facts m (r ∷ rules) at =
      source (contribution regex_test p facts r) refl at (match_rules-source p facts m rules)
    where
      source :
          (o : Option MatchedRule)
          → contribution regex_test p facts r ≡ o
          → In m (push o (match_rules regex_test p facts rules))
          → (In m (match_rules regex_test p facts rules)
              → (rule : PolicyRule) × In rule rules
                × (contribution regex_test p facts rule ≡ some m))
          → (rule : PolicyRule) × In rule (r ∷ rules)
            × (contribution regex_test p facts rule ≡ some m)
      source none e at step = let (rule, member, is) = step at in (rule, inr member, is)
      source (some n) e (inl same) step = (r, inl refl, e ∙ ap (λ x. some x) same)
      source (some n) e (inr further) step =
          let (rule, member, is) = step further in (rule, inr member, is)

  pub match_rules-none :
      (p : PolicyDocument) (facts : Facts) (rules : List PolicyRule)
      → match_rules regex_test p facts rules ≡ []
      → All (λ rule. contribution regex_test p facts rule ≡ none) rules
  unfolding match_rules
  match_rules-none p facts [] e = tt
  match_rules-none p facts (r ∷ rules) e =
      of_push (contribution regex_test p facts r) refl e (match_rules-none p facts rules)
    where
      of_push :
          (o : Option MatchedRule)
          → contribution regex_test p facts r ≡ o
          → push o (match_rules regex_test p facts rules) ≡ []
          → (match_rules regex_test p facts rules ≡ []
              → All (λ rule. contribution regex_test p facts rule ≡ none) rules)
          → All (λ rule. contribution regex_test p facts rule ≡ none) (r ∷ rules)
      of_push none is h step = (is, step h)
      of_push (some m) is h step = cc h

  -- The value of a rule's condition.
  abbrev pub value_of : Facts → PolicyRule → Tri
  value_of facts rule = (evaluate_condition regex_test rule.condition facts []).0

  -- What a rule asks for: its decision where its condition is true, and where the condition is
  -- unknown its own answer to that, the policy's or `defer`.
  abbrev pub AsksFor : PolicyDocument → Facts → PolicyRule → Decision → Type 0
  AsksFor p facts rule d =
      (value_of facts rule ≡ Tri.true) × (d ≡ rule.decision)
      ⊎ (value_of facts rule ≡ Tri.unknown)
        × (d ≡ or_else rule.on_unknown (or_else p.on_unknown defer))

  pub asked_by :
      (p : PolicyDocument) (facts : Facts) (rule : PolicyRule) (d : Decision)
      → AsksFor p facts rule d
      → (m : MatchedRule) × (contribution regex_test p facts rule ≡ some m) × (m.decision ≡ d)
  unfolding contribution
  asked_by p facts rule d (inl (e, is)) = rw (e, contribution) (_, refl, sym is)
  asked_by p facts rule d (inr (e, is)) = rw (e, contribution) (_, refl, sym is)

  pub contribution-AsksFor :
      (p : PolicyDocument) (facts : Facts) (rule : PolicyRule) (m : MatchedRule)
      → contribution regex_test p facts rule ≡ some m
      → AsksFor p facts rule m.decision
  unfolding contribution
  contribution-AsksFor p facts rule m h = of_value (value_of facts rule) refl
    where
      decision_of : Option MatchedRule → Decision
      decision_of none = deny
      decision_of (some x) = x.decision

      of_value : (t : Tri) → value_of facts rule ≡ t → AsksFor p facts rule m.decision
      of_value Tri.true e = inl (e, ap decision_of (sym (rw (e, contribution) at h)))
      of_value Tri.unknown e = inr (e, ap decision_of (sym (rw (e, contribution) at h)))
      of_value Tri.false e = cc (rw (e, contribution) at h)

  pub contribution-false :
      (p : PolicyDocument) (facts : Facts) (rule : PolicyRule)
      → contribution regex_test p facts rule ≡ none
      → value_of facts rule ≡ Tri.false
  unfolding contribution
  contribution-false p facts rule h = of_value (value_of facts rule) refl
    where
      of_value : (t : Tri) → value_of facts rule ≡ t → value_of facts rule ≡ Tri.false
      of_value Tri.true e = cc (rw (e, contribution) at h)
      of_value Tri.unknown e = cc (rw (e, contribution) at h)
      of_value Tri.false e = e
