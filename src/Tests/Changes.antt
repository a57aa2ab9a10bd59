-- ===== src/Tests/Changes.antt =====
-- src/phala/policy.ts, src/phala/compliance.ts and src/phala/query.ts at concrete inputs.
use cool_sdk.Prelude.{
  String, ◌≤◌, ◌≡◌, ◌⊎◌, inl, refl, Bool, true, false, Option, none, some, [], ◌∷◌, arith, codes,
  includes, All, In,
}
use cool_sdk.Codec.{Bytes, Text}
use cool_sdk.Multihash.{mh_sha256}
use cool_sdk.Phala.Receipt.{prompt, ApprovalDecision}
use cool_sdk.Phala.Policy.{
  PolicyInput, PolicyRule, PolicySet, PolicyOutcome, Considered, escalate, severity, matches,
  evaluate, approval_from, or_escalate,
}
use cool_sdk.Phala.Policy
use cool_sdk.Phala.Policy.Default.{default_policy}
use cool_sdk.Phala.Policy.Strictest.{evaluate-strictest, approval_from-evaluate-default_policy}
use cool_sdk.Phala.Compliance.{Obligation, obligations, row, gaps}
use cool_sdk.Phala.Compliance.Gaps.{IsGap, NoneCounts, gaps-NoneCounts}
use cool_sdk.Phala.Query.{Query, query}
use cool_sdk.Phala.Query
use cool_sdk.Phala.Query.Found.{IsNewestFirst, IsWithin, query-Meets}
use cool_sdk.Phala.Query.Meets.{Meets}
use cool_sdk.Tests.Data.{checksum}
use cool_sdk.Tests.Receipts.{bound_receipt}

abbrev no_regex : Text → String → Option Bool
no_regex pattern text = some false

abbrev policy_byte : PolicySet → Option Bytes
policy_byte set = some (7 ∷ [])

abbrev prompt_change : PolicyInput
prompt_change = record {
  kind = prompt;
  target = "billing/refund-agent#system";
  environment = "prod";
  actor = record { id = "user:p"; method = "session" };
  approvers = "q" ∷ [];
  risk = none;
  labels = none;
}

abbrev escalated : PolicyOutcome
escalated = record {
  decision = escalate;
  rule = some "POL-003";
  title = some "Production changes without two approvers escalate";
  obligations = "eu-ai-act-14" ∷ [];
  policy_hash = codes "mh:sha256:1800000000000000000000000000000000000000000000000000000000000000";
  considered = record { id = "POL-003"; decision = escalate } ∷ [];
}

evaluated : evaluate no_regex checksum policy_byte default_policy prompt_change ≡ some escalated
unfolding evaluate Policy.matched_rules matches includes Policy.target_matches Policy.policy_hash
    Policy.outcome_of Policy.bounds_match Policy.stricter Policy.worst_of mh_sha256
    Policy.sort_considered Policy.insert_considered
evaluated = refl

evaluate-strictest_example :
    ((rule : PolicyRule)
      → In rule default_policy.rules
      → matches no_regex rule prompt_change ≡ some true
      → severity rule.decision ≤ severity escalated.decision)
    × (((escalated.rule ≡ none)
          × (escalated.decision ≡ or_escalate default_policy.fallback)
          × ((rule : PolicyRule)
              → In rule default_policy.rules
              → matches no_regex rule prompt_change ≡ some true
              → ⊥))
        ⊎ ((rule : PolicyRule) × In rule default_policy.rules
            × (matches no_regex rule prompt_change ≡ some true)
            × (escalated.rule ≡ some rule.id)
            × (escalated.decision ≡ rule.decision)))
evaluate-strictest_example =
    evaluate-strictest no_regex checksum policy_byte default_policy prompt_change escalated
      evaluated

approval_from-evaluate-default_policy_example :
    (approval_from escalated prompt_change.approvers).decision ≡ ApprovalDecision.rejected
approval_from-evaluate-default_policy_example =
    approval_from-evaluate-default_policy no_regex checksum policy_byte prompt_change escalated
      evaluated (inl (refl, omega arith, inl refl))

gaps-NoneCounts_example :
    All (IsGap obligations (bound_receipt ∷ [])) (gaps (bound_receipt ∷ []))
    × ((o : Obligation)
        → In o obligations
        → NoneCounts o (bound_receipt ∷ [])
        → In (row (bound_receipt ∷ []) o) (gaps (bound_receipt ∷ [])))
gaps-NoneCounts_example = gaps-NoneCounts (bound_receipt ∷ [])

abbrev runs_of_models : Query
runs_of_models = record {
  kind = some Query.RecordKind.evidence;
  change_kinds = none;
  subject = some "model";
  environment = none;
  actor = none;
  decision = none;
  since = none;
  until = none;
  runtime = none;
  limit = some 1;
}

abbrev never : String → String → Bool
never a b = false

query-Meets_example :
    IsNewestFirst codes never (query codes never (bound_receipt ∷ []) runs_of_models)
    × IsWithin codes never runs_of_models.limit
        (query codes never (bound_receipt ∷ []) runs_of_models)
    × (In bound_receipt (query codes never (bound_receipt ∷ []) runs_of_models)
        → In bound_receipt (bound_receipt ∷ []) × Meets codes never bound_receipt runs_of_models)
    × (In bound_receipt (bound_receipt ∷ []) × Meets codes never bound_receipt runs_of_models
        → In bound_receipt
            (query codes never (bound_receipt ∷ []) (record runs_of_models { limit = none })))
query-Meets_example =
    query-Meets codes never (λ a b h. refl) (bound_receipt ∷ []) runs_of_models bound_receipt
