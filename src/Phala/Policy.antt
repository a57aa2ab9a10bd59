-- ===== src/Phala/Policy.antt =====
-- src/phala/policy.ts: the rules that a change is evaluated against. A regular expression is run by
-- a parameter, whose `none` is the throw of an invalid pattern, and so is the canonical encoder. A
-- risk is a fraction, and a rule's `because` is left out.
pub mod Default
pub mod Strictest
use cool_sdk.Sign.{◌>>=◌}
use Prim.Native.String
use cool_sdk.Prelude.{
  ℕ, suc, ◌*◌, String, Bool, true, false, not, ◌&&◌, ◌||◌, Option, none, some, List, [], ◌∷◌, ltb,
  leb, ◌==◌, if◌then◌else◌, map, length, drop, every, some_of, codes, str_eq, includes, starts_with,
  truthy,
}
use cool_sdk.Codec.{Bytes, Text}
use cool_sdk.Multihash.{mh_sha256}
use cool_sdk.Sign.{bind}
use cool_sdk.Phala.Receipt.{
  ChangeKind, prompt, model, params, policy, dataset, agent_permission, tool, ChangeActor,
  ApprovalDecision, ChangeApproval, kind_text,
}

pub data Decision : Type 0 where
  auto_approved approved rejected escalate : Decision

pub record Risk : Type 0 where
  pub parts : ℕ
  pub whole : ℕ

pub record PolicyInput : Type 0 where
  pub kind : ChangeKind
  pub target : String
  pub environment : String
  pub actor : ChangeActor
  pub approvers : List String
  pub risk : Option Risk
  pub labels : Option (List String)

pub record PolicyMatch : Type 0 where
  pub kinds : Option (List ChangeKind)
  pub environments : Option (List String)
  pub target : Option String
  pub min_approvers : Option ℕ
  pub max_approvers : Option ℕ
  pub min_risk : Option Risk
  pub labels : Option (List String)
  pub actor_methods : Option (List String)

pub record PolicyRule : Type 0 where
  pub id : String
  pub title : String
  pub applies : PolicyMatch
  pub decision : Decision
  pub obligations : Option (List String)

pub record PolicySet : Type 0 where
  pub id : String
  pub rules : List PolicyRule
  pub fallback : Option Decision

pub record Considered : Type 0 where
  pub id : String
  pub decision : Decision

pub record PolicyOutcome : Type 0 where
  pub decision : Decision
  pub rule : Option String
  pub title : Option String
  pub obligations : List String
  pub policy_hash : Text
  pub considered : List Considered

-- The table `SEVERITY`.
abbrev pub severity : Decision → ℕ
severity rejected = 3
severity escalate = 2
severity approved = 1
severity auto_approved = 0

-- a < b of two fractions
abbrev pub risk_lt : Risk → Risk → Bool
risk_lt a b = ltb (a.parts * b.whole) (b.parts * a.whole)

abbrev pub kinds_include : List ChangeKind → ChangeKind → Bool
kinds_include kinds k = some_of (λ j. str_eq (kind_text j) (kind_text k)) kinds

-- `text.includes(part)` over code units.
unfoldable pub contains : Text → Text → Bool
contains [] part = starts_with [] part
contains (c ∷ text) part = starts_with (c ∷ text) part || contains text part

-- A list that is given and does not include the value.
abbrev pub misses : Option (List String) → String → Bool
misses none value = false
misses (some values) value = not (includes values value)

abbrev pub misses_kind : Option (List ChangeKind) → ChangeKind → Bool
misses_kind none kind = false
misses_kind (some kinds) kind = not (kinds_include kinds kind)

abbrev pub too_few : Option ℕ → ℕ → Bool
too_few none n = false
too_few (some min) n = ltb n min

abbrev pub too_many : Option ℕ → ℕ → Bool
too_many none n = false
too_many (some max) n = ltb max n

-- risk ?? 0
abbrev pub risk_of : Option Risk → Risk
risk_of none = record { parts = 0; whole = 1 }
risk_of (some r) = r

abbrev pub too_safe : Option Risk → Option Risk → Bool
too_safe none risk = false
too_safe (some min) risk = risk_lt (risk_of risk) min

abbrev pub or_none : Option (List String) → List String
or_none none = []
or_none (some labels) = labels

abbrev pub lacks_label : Option (List String) → Option (List String) → Bool
lacks_label none labels = false
lacks_label (some wanted) labels = not (every (λ l. includes (or_none labels) l) wanted)

-- The tests of `matches` after the one of `ref`.
unfoldable pub bounds_match : PolicyMatch → PolicyInput → Bool
bounds_match m input =
    not (too_few m.min_approvers (length input.approvers))
    && not (too_many m.max_approvers (length input.approvers))
    && not (too_safe m.min_risk input.risk)
    && not (lacks_label m.labels input.labels)

abbrev pub rule_severity_lt : PolicyRule → PolicyRule → Bool
rule_severity_lt a b = ltb (severity a.decision) (severity b.decision)

-- The callback of `matched.reduce(…)`.
unfoldable pub stricter : PolicyRule → PolicyRule → PolicyRule
stricter worst rule = if rule_severity_lt worst rule then rule else worst

-- `matched.reduce(…)` from a first worst rule.
unfoldable pub worst_of : PolicyRule → List PolicyRule → PolicyRule
worst_of worst [] = worst
worst_of worst (rule ∷ rules) = worst_of (stricter worst rule) rules

-- A stable sort, the most severe first.
unfoldable pub insert_considered : Considered → List Considered → List Considered
insert_considered x [] = x ∷ []
insert_considered x (y ∷ ys) =
    let rest = insert_considered x ys in
    if leb (severity y.decision) (severity x.decision) then x ∷ y ∷ ys else y ∷ rest

unfoldable pub sort_considered : List Considered → List Considered
sort_considered [] = []
sort_considered (x ∷ xs) = insert_considered x (sort_considered xs)

abbrev pub or_escalate : Option Decision → Decision
or_escalate none = escalate
or_escalate (some d) = d

unfoldable pub outcome_of : PolicySet → Text → List PolicyRule → PolicyOutcome
outcome_of set hash [] = record {
  decision = or_escalate set.fallback;
  rule = none;
  title = none;
  obligations = [];
  policy_hash = hash;
  considered = [];
}
outcome_of set hash (rule ∷ rules) =
    let winner = worst_of rule rules in
    record {
      decision = winner.decision;
      rule = some winner.id;
      title = some winner.title;
      obligations = or_none winner.obligations;
      policy_hash = hash;
      considered =
          sort_considered (map (λ r. record { id = r.id; decision = r.decision }) (rule ∷ rules));
    }

module _ (regex_test : Text → String → Option Bool) where
  -- `if (m.ref) { … }`: whether the test lets the rule apply.
  unfoldable pub target_matches : Option String → String → Option Bool
  target_matches none target = some true
  target_matches (some wanted) target =
      if not (truthy wanted)
      then some true
      else if starts_with (codes wanted) (codes "re:")
      then regex_test (drop 3 (codes wanted)) target
      else some (contains (codes target) (codes wanted))

  unfoldable pub matches : PolicyRule → PolicyInput → Option Bool
  matches rule input =
      let m = rule.applies in
      if misses_kind m.kinds input.kind
        || misses m.environments input.environment
        || misses m.actor_methods input.actor.method
      then some false
      else bind (target_matches m.target input.target)
          (λ on_target. some (on_target && bounds_match m input))

  -- policy.rules.filter(…)
  unfoldable pub matched_rules : List PolicyRule → PolicyInput → Option (List PolicyRule)
  matched_rules [] input = some []
  matched_rules (rule ∷ rules) input = do
    here ← matches rule input
    rest ← matched_rules rules input
    some (if here then rule ∷ rest else rest)

  module _ (sha256 : Bytes → Bytes) (encode_policy : PolicySet → Option Bytes) where
    unfoldable pub policy_hash : PolicySet → Option Text
    policy_hash set = do bytes ← encode_policy set; some (mh_sha256 sha256 bytes)

    unfoldable pub evaluate : PolicySet → PolicyInput → Option PolicyOutcome
    evaluate set input = do
      matched ← matched_rules set.rules input
      hash ← policy_hash set
      some (outcome_of set hash matched)

abbrev pub approval_decision : Decision → ApprovalDecision
approval_decision escalate = ApprovalDecision.rejected
approval_decision rejected = ApprovalDecision.rejected
approval_decision approved = ApprovalDecision.approved
approval_decision auto_approved = ApprovalDecision.auto_approved

abbrev pub or_no_rule : Option String → String
or_no_rule none = "no-matching-rule"
or_no_rule (some id) = id

-- approvalFrom
unfoldable pub approval_from : PolicyOutcome → List String → ChangeApproval
approval_from outcome approvers = record {
  policy_id = or_no_rule outcome.rule;
  decision = approval_decision outcome.decision;
  approvers = approvers;
}
