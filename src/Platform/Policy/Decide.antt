-- ===== src/Platform/Policy/Decide.antt =====
-- Policy documents, `validatePolicy` and `evaluatePolicy`. The digests of the policy and of its
-- inputs, and the time, are only recorded, and are left out with what their encoders throw; so are
-- the texts of the problems.
pub mod Asks
pub mod Severity
use Prim.Native.String
use cool_sdk.Prelude.{
  ℕ, String, Bool, true, false, not, ◌&&◌, Option, none, some, List, [], ◌∷◌, ◌++◌, ltb, ◌==◌,
  truthy, includes, if◌then◌else◌, map,
}
use cool_sdk.Platform.Policy.Value.{Json}
use cool_sdk.Platform.Policy.Tri.{Tri}
use cool_sdk.Platform.Policy.Eval.{
  Op, matches, Condition, all, any, negation, test, Conditions, no_more, sub, Facts,
  evaluate_condition,
}
use cool_sdk.Platform.Trust.{or_else}

pub data Decision : Type 0 where
  allow deny require_approval quarantine defer audit_only : Decision

-- The table `SEVERITY`.
abbrev pub severity : Decision → ℕ
severity allow = 0
severity audit_only = 1
severity defer = 2
severity require_approval = 3
severity quarantine = 4
severity deny = 5

pub data Mode : Type 0 where
  observe enforce : Mode

pub record PolicyRule : Type 0 where
  pub id : String
  pub condition : Condition
  pub decision : Decision
  pub reason : String
  pub on_unknown : Option Decision

pub record PolicyDocument : Type 0 where
  pub id : String
  pub version : String
  pub mode : Mode
  pub fallback : Decision
  pub on_unknown : Option Decision
  pub rules : List PolicyRule

pub data Problem : Type 0 where
  id_or_version rule_id rule_reason regex : Problem

-- `problems.push(…)` under a test.
abbrev pub problem_if : Bool → Problem → List Problem
problem_if true p = p ∷ []
problem_if false p = []

pub record MatchedRule : Type 0 where
  pub id : String
  pub result : Tri
  pub decision : Decision
  pub reason : String

pub record PolicyDecisionRecord : Type 0 where
  pub policy_id : String
  pub policy_version : String
  pub mode : Mode
  pub decision : Decision
  pub enforced : Bool
  pub matched_rules : List MatchedRule
  pub reason_codes : List String

-- `${id}:${reason}`
abbrev pub code_line : String → String → String
code_line id reason = String.◌++◌ id (String.◌++◌ ":" reason)

abbrev pub is_enforce : Mode → Bool
is_enforce observe = false
is_enforce enforce = true

-- `regex_valid v` says that `new RegExp(String(v))` does not throw.
module _ (regex_valid : Option Json → Bool) where
  unfoldable mutual
    -- `walk`: what the types leave to check of a condition is its regular expressions.
    pub walk : Condition → List Problem
    walk (all cs) = walk_each cs
    walk (any cs) = walk_each cs
    walk (negation c) = walk c
    walk (test fact matches v) = problem_if (not (regex_valid v)) regex
    walk (test fact op v) = []

    pub walk_each : Conditions → List Problem
    walk_each no_more = []
    walk_each (sub c cs) = walk c ++ walk_each cs

  -- The loop over the rules, with the ids seen so far.
  unfoldable pub validate_rules : List PolicyRule → List String → List Problem
  validate_rules [] ids = []
  validate_rules (rule ∷ rules) ids =
      problem_if (not (truthy rule.id && not (includes ids rule.id))) rule_id
      ++ problem_if (not (truthy rule.reason)) rule_reason
      ++ walk rule.condition
      ++ validate_rules rules (rule.id ∷ ids)

  -- A schema, a mode, a decision or an operator that is not one of the known is no value of the
  -- model's types.
  unfoldable pub validate_policy : PolicyDocument → List Problem
  validate_policy p =
      problem_if (not (truthy p.id && truthy p.version)) id_or_version ++ validate_rules p.rules []

abbrev pub push : Option MatchedRule → List MatchedRule → List MatchedRule
push none ms = ms
push (some m) ms = m ∷ ms

module _ (regex_test : String → String → Bool) where
  -- One round of the loop over the rules: the rule's contribution, if it has one.
  unfoldable pub contribution : PolicyDocument → Facts → PolicyRule → Option MatchedRule
  contribution p facts rule = elim (evaluate_condition regex_test rule.condition facts []).0 [
    | Tri.true ↦
        some (record {
          id = rule.id;
          result = Tri.true;
          decision = rule.decision;
          reason = rule.reason;
        })
    | Tri.unknown ↦ some (record {
      id = rule.id;
      result = Tri.unknown;
      decision = or_else rule.on_unknown (or_else p.on_unknown defer);
      reason = code_line rule.reason "unknown_input";
    })
    | Tri.false ↦ none
  ]

  unfoldable pub match_rules : PolicyDocument → Facts → List PolicyRule → List MatchedRule
  match_rules p facts [] = []
  match_rules p facts (rule ∷ rules) = push (contribution p facts rule) (match_rules p facts rules)

-- `matched.reduce(…, "allow")`
unfoldable pub most_restrictive : Decision → List MatchedRule → Decision
most_restrictive acc [] = acc
most_restrictive acc (m ∷ ms) =
    most_restrictive (if ltb (severity acc) (severity m.decision) then m.decision else acc) ms

abbrev pub decide_among : Decision → List MatchedRule → Decision
decide_among fallback [] = fallback
decide_among fallback (m ∷ ms) = most_restrictive allow (m ∷ ms)

abbrev pub codes_of : List MatchedRule → List String
codes_of [] = "no_rule_matched:default" ∷ []
codes_of (m ∷ ms) = map (λ r. code_line r.id r.reason) (m ∷ ms)

module _ (regex_test : String → String → Bool) (regex_valid : Option Json → Bool) where
  -- `none` is the error that an invalid policy throws.
  unfoldable pub evaluate_policy : PolicyDocument → Facts → Option PolicyDecisionRecord
  evaluate_policy p facts =
      let matched = match_rules regex_test p facts p.rules in
      elim (validate_policy regex_valid p) [
        | [] ↦ some (record {
          policy_id = p.id;
          policy_version = p.version;
          mode = p.mode;
          decision = decide_among p.fallback matched;
          enforced = is_enforce p.mode;
          matched_rules = matched;
          reason_codes = codes_of matched;
        })
        | problem ∷ problems ↦ none
      ]
