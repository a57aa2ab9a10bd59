-- ===== src/Tests/Decisions.antt =====
-- src/platform/trust.ts and src/platform/policy.ts on small snapshots and policies. A date is read
-- as the number of its characters.
use cool_sdk.Prelude.{
  ℕ, ◌≤◌, ◌<◌, String, ◌≡◌, ◌≢◌, ◌⊎◌, ◌↔◌, inl, inr, refl, Bool, true, false, Option, none, some,
  [], ◌∷◌, codes, length, In, includes, str_eq, Bool-cases, All,
}
use cool_sdk.Prelude.Int.{pos}
use cool_sdk.Platform.Status.{CheckStatus}
use cool_sdk.Platform.Trust.{
  KeyPurpose, KeyStatus, KeyRecord, TrustSnapshot, TrustQuery, new_trust_store, trust_get, evaluate,
  evaluate_key, has_purpose, status_refusal,
}
use cool_sdk.Platform.Trust.Laws.{IsTrusted, evaluate-pass_iff, evaluate_revoked}
use cool_sdk.Platform.Policy.Value.{num, str}
use cool_sdk.Platform.Policy.Tri.{Tri}
use cool_sdk.Platform.Policy.Eval.{
  eq, gt, Condition, all, test, no_more, sub, Facts, evaluate_condition, test_fact, apply_op,
  compare_numbers,
}
use cool_sdk.Platform.Policy.Kleene.{
  kleene, uses_exists, Extends, evaluate_condition-eq-kleene, evaluate_condition_stays,
}
use cool_sdk.Platform.Policy.Decide.{
  allow, deny, enforce, PolicyRule, PolicyDocument, PolicyDecisionRecord, severity, contribution,
  evaluate_policy, validate_policy, validate_rules, walk, match_rules, most_restrictive, Decision,
}
use cool_sdk.Platform.Policy.Decide.Severity.{evaluate_policy-most_restrictive}
use cool_sdk.Platform.Policy.Decide.Asks.{AsksFor, value_of}

abbrev pub date_length : String → Option ℕ
date_length s = some (length (codes s))

abbrev revoked_key : KeyRecord ℕ
revoked_key = record {
  key_id = "k";
  entry = 1;
  purposes = KeyPurpose.evidence ∷ [];
  owner = "o";
  valid_from = ".";
  valid_until = none;
  status = KeyStatus.revoked;
  rotated_at = none;
  revoked_at = some "....";
  compromised_since = none;
}

abbrev snapshot : TrustSnapshot ℕ
snapshot = record { as_of = "....."; max_age_ms = some 10; keys = revoked_key ∷ [] }

abbrev asked : TrustQuery
asked = record {
  key_id = "k";
  purpose = KeyPurpose.evidence;
  now = 9;
  claimed_signed_at = none;
  proven_signed_before = some 3;
}

evaluate-pass_iff_example :
    ((evaluate date_length (new_trust_store snapshot) asked).status ≡ CheckStatus.pass)
    ↔ IsTrusted date_length (new_trust_store snapshot) asked
evaluate-pass_iff_example = evaluate-pass_iff date_length (new_trust_store snapshot) asked

evaluate_revoked_example : (proven : ℕ) × (asked.proven_signed_before ≡ some proven) × (proven < 4)
unfolding evaluate trust_get new_trust_store evaluate_key has_purpose status_refusal
evaluate_revoked_example =
    evaluate_revoked date_length (new_trust_store snapshot) asked revoked_key 4 refl
      (inl (refl, refl)) refl

abbrev pub no_regex : String → String → Bool
no_regex pattern s = false

abbrev too_large : Condition
too_large = all (
    sub (test "amount" gt (some (num (pos 100))))
      (sub (test "currency" eq (some (str "EUR"))) no_more))

abbrev pub amount_known : Facts
amount_known = ("amount", num (pos 50)) ∷ []

abbrev both_known : Facts
both_known = ("amount", num (pos 50)) ∷ ("currency", str "EUR") ∷ []

evaluate_condition-eq-kleene_example :
    (evaluate_condition no_regex too_large amount_known []).0
    ≡ kleene no_regex too_large amount_known
evaluate_condition-eq-kleene_example =
    evaluate_condition-eq-kleene no_regex too_large amount_known []

no_exists : uses_exists too_large ≡ false
unfolding uses_exists
no_exists = refl

more_facts : Extends amount_known both_known
more_facts name = elim (Bool-cases (str_eq "amount" name)) [
  | inl same ↦ rw same (inr refl)
  | inr other ↦ rw other (inl refl)
]

decided : (evaluate_condition no_regex too_large amount_known []).0 ≢ Tri.unknown
unfolding evaluate_condition test_fact apply_op compare_numbers
decided e = cc e

evaluate_condition_stays_example :
    (evaluate_condition no_regex too_large both_known []).0
    ≡ (evaluate_condition no_regex too_large amount_known []).0
evaluate_condition_stays_example =
    evaluate_condition_stays no_regex too_large amount_known both_known [] [] no_exists more_facts
      decided

abbrev pub small_amount : PolicyRule
small_amount = record {
  id = "small";
  condition = test "amount" gt (some (num (pos 10)));
  decision = deny;
  reason = "amount";
  on_unknown = none;
}

abbrev pub payments : PolicyDocument
payments = record {
  id = "payments";
  version = "1";
  mode = enforce;
  fallback = allow;
  on_unknown = none;
  rules = small_amount ∷ [];
}

abbrev denied : PolicyDecisionRecord
denied = record {
  policy_id = "payments";
  policy_version = "1";
  mode = enforce;
  decision = deny;
  enforced = true;
  matched_rules =
      record { id = "small"; result = Tri.true; decision = deny; reason = "amount" } ∷ [];
  reason_codes = "small:amount" ∷ [];
}

payment_denied : evaluate_policy no_regex (λ v. true) payments amount_known ≡ some denied
unfolding evaluate_policy validate_policy validate_rules includes walk match_rules contribution
    evaluate_condition test_fact apply_op compare_numbers most_restrictive
payment_denied = refl

amount_over : (evaluate_condition no_regex small_amount.condition amount_known []).0 ≡ Tri.true
unfolding evaluate_condition test_fact apply_op compare_numbers
amount_over = refl

evaluate_policy-most_restrictive_example :
    ((rule : PolicyRule) (d : Decision)
      → In rule payments.rules
      → AsksFor no_regex (λ v. true) payments amount_known rule d
      → severity d ≤ severity deny)
    × (((rule : PolicyRule) × In rule payments.rules
          × AsksFor no_regex (λ v. true) payments amount_known rule deny)
        ⊎ All (λ rule. value_of no_regex (λ v. true) amount_known rule ≡ Tri.false) payments.rules
          × (deny ≡ allow))
evaluate_policy-most_restrictive_example =
    evaluate_policy-most_restrictive no_regex (λ v. true) payments amount_known denied
      payment_denied
