-- ===== src/Tests/Replays.antt =====
-- src/authz/decision.ts: a decision and its replay.
use cool_sdk.Prelude.{
  ℕ, zero, suc, String, ◌≡◌, refl, ap, true, Option, some, [], ◌∷◌, codes, length, includes,
}
use cool_sdk.Codec.{Bytes, Text}
use cool_sdk.Multihash.{mh_sha256}
use cool_sdk.Platform.Status.{CheckStatus, check}
use cool_sdk.Platform.Policy.Eval.{Facts, evaluate_condition, test_fact, apply_op, compare_numbers}
use cool_sdk.Platform.Policy.Decide.{
  PolicyDocument, evaluate_policy, validate_policy, validate_rules, walk, match_rules, contribution,
  most_restrictive,
}
use cool_sdk.Sign.Object.{digest_of_bytes, digest_of}
use cool_sdk.Authz.Delegation.{Delegation}
use cool_sdk.Authz.Decision.{
  AuthorizationRequest, AuthzDecisionValue, AuthorizationDecision, decision_facts, request_digest,
  policy_digest, evaluated, decision_body, replay_decision,
}
use cool_sdk.Authz.Decision.Replay.{replay_decision-decision_body}
use cool_sdk.Tests.Data.{schemes, checksum}
use cool_sdk.Tests.Decisions.{date_length, no_regex, payments, amount_known}
use cool_sdk.Tests.Runs.{pay_request}

abbrev dots : ℕ → String
dots zero = ""
dots (suc n) = String.◌∷◌ "." (dots n)

abbrev dots_length : ℕ → ℕ
dots_length n = length (codes (dots n))

length-dots : (n : ℕ) → dots_length n ≡ n
length-dots zero = refl
length-dots (suc n) = ap (λ k. suc k) (length-dots n)

abbrev encode_request : AuthorizationRequest → Option Bytes
encode_request r = some (codes r.request_id)

abbrev encode_decision : AuthorizationDecision → Option Bytes
encode_decision d = some (codes d.decision_id)

abbrev encode_delegation : Delegation → Option Bytes
encode_delegation d = some (codes d.delegation_id)

abbrev encode_policy : PolicyDocument → Option Bytes
encode_policy p = some (codes p.id)

abbrev encode_facts : Facts → Option Bytes
encode_facts facts = some (length facts ∷ [])

abbrev decided_deny : Text × AuthzDecisionValue
decided_deny = (mh_sha256 checksum (codes "payments"), AuthzDecisionValue.deny)

abbrev denial : AuthorizationDecision
denial = record {
  decision_id = "d1";
  decision = AuthzDecisionValue.deny;
  request_id = "r1";
  request_digest = digest_of_bytes schemes "cool.authz-request.v1" (codes "r1");
  principal = "agent";
  nonce = "n1";
  policy_digest = mh_sha256 checksum (codes "payments");
  evaluator_id = "cool-nwc/policy-engine";
  evaluator_version = "cool.policy.v1/1";
  input_digest = digest_of_bytes schemes "cool.authz.facts.v1" (5 ∷ []);
  decided_at = ".";
  valid_until = "..";
}

denied_payment :
    evaluated schemes date_length encode_request encode_decision encode_delegation encode_policy
      encode_facts no_regex
      (λ v. true)
      pay_request
      payments
      (decision_facts pay_request amount_known)
      1
    ≡ some decided_deny
unfolding evaluated policy_digest decision_facts evaluate_policy validate_policy validate_rules
    includes walk match_rules contribution evaluate_condition test_fact apply_op compare_numbers
    most_restrictive
denied_payment = refl

denial_made :
    decision_body schemes date_length encode_request encode_decision encode_delegation encode_policy
      encode_facts no_regex
      (λ v. true)
      dots
      "d1"
      pay_request
      payments
      amount_known
      1
    ≡ some denial
unfolding decision_body evaluated request_digest digest_of policy_digest decision_facts
    evaluate_policy validate_policy validate_rules includes walk match_rules contribution
    evaluate_condition test_fact apply_op compare_numbers most_restrictive
denial_made = refl

replay_decision-decision_body_example :
    replay_decision schemes date_length encode_request encode_decision encode_delegation
      encode_policy encode_facts no_regex
      (λ v. true)
      denial
      pay_request
      payments
      (decision_facts pay_request amount_known)
    ≡ some (check CheckStatus.pass "replayed_identically")
replay_decision-decision_body_example =
    replay_decision-decision_body schemes date_length encode_request encode_decision
      encode_delegation encode_policy encode_facts no_regex (λ v. true) dots "d1" pay_request
      payments amount_known 1 decided_deny denial (ap (λ x. some x) (length-dots 1)) denied_payment
      denial_made
