-- ===== src/Authz/Decision/Replay.antt =====
-- `verifyDecision` re-evaluates what `decide` decided.
use cool_sdk.Prelude.{
  ℕ, String, ◌≡◌, refl, ap, Bool, Option, some, Bool-cases, Option-cases, inl, inr, ==_iff, subst,
}
use cool_sdk.Codec.{Bytes, Text}
use cool_sdk.Codec.Equal.{bytes_equal_iff}
use cool_sdk.Platform.Status.{CheckStatus, check}
use cool_sdk.Platform.Policy.Value.{Json}
use cool_sdk.Platform.Policy.Eval.{Facts}
use cool_sdk.Platform.Policy.Decide.{PolicyDocument, evaluate_policy}
use cool_sdk.Sign.{Crypto}
use cool_sdk.Sign.Object.{digest_of}
use cool_sdk.Authz.Principal.{later}
use cool_sdk.Authz.Delegation.{Delegation}
use cool_sdk.Authz.Decision.{
  AuthorizationRequest, AuthzDecisionValue, AuthorizationDecision, value_index, decision_facts,
  request_digest, policy_digest, decided_again, replay_decision, evaluated, decision_body,
}

some_inj {ℓ} : {A : Type ℓ} {a b : A} → some a ≡ some b → a ≡ b
some_inj h = cc

module _ (c : Crypto) (date_parse : String → Option ℕ)
    (encode_request : AuthorizationRequest → Option Bytes)
    (encode_decision : AuthorizationDecision → Option Bytes)
    (encode_delegation : Delegation → Option Bytes) (encode_policy : PolicyDocument → Option Bytes)
    (encode_facts : Facts → Option Bytes) (regex_test : String → String → Bool)
    (regex_valid : Option Json → Bool) where
  again_value :
      (d : AuthorizationDecision) (r : AuthorizationRequest) (p : PolicyDocument) (facts : Facts)
      (now : ℕ) (value : Text × AuthzDecisionValue)
      → date_parse d.decided_at ≡ some now
      → evaluated c date_parse encode_request encode_decision encode_delegation encode_policy
          encode_facts regex_test regex_valid r p facts now
        ≡ some value
      → decided_again c date_parse encode_request encode_decision encode_delegation encode_policy
          encode_facts regex_test regex_valid d r p facts
        ≡ some value.1
  unfolding evaluated decided_again
  again_value d r p facts now value at h =
      elim (Option-cases (
        policy_digest c date_parse encode_request encode_decision encode_delegation encode_policy
          encode_facts regex_test regex_valid p)) [
            | inl thrown ↦ cc (rw thrown at h)
            | inr (digest, known) ↦ elim (Bool-cases (later (some now) (date_parse r.expires_at))) [
              | inl expired ↦
                  rw (at, expired) (ap (λ x. some x.1) (some_inj (rw (known, expired) at h)))
              | inr valid ↦ elim (Option-cases (evaluate_policy regex_test regex_valid p facts)) [
                | inl failed ↦ cc (rw (known, valid, failed) at h)
                | inr (e, done) ↦
                    rw (at, valid, done)
                      (ap (λ x. some x.1) (some_inj (rw (known, valid, done) at h)))
              ]
            ]
          ]

  replayed :
      (d : AuthorizationDecision) (r : AuthorizationRequest) (p : PolicyDocument) (facts : Facts)
      → digest_of c encode_facts "cool.authz.facts.v1" facts ≡ some d.input_digest
      → decided_again c date_parse encode_request encode_decision encode_delegation encode_policy
          encode_facts regex_test regex_valid d r p facts
        ≡ some d.decision
      → replay_decision c date_parse encode_request encode_decision encode_delegation encode_policy
          encode_facts regex_test regex_valid d r p facts
        ≡ some (check CheckStatus.pass "replayed_identically")
  unfolding replay_decision
  replayed d r p facts inputs again =
      rw
        (
          inputs,
          (bytes_equal_iff d.input_digest d.input_digest).1 refl,
          again,
          (==_iff (value_index d.decision) (value_index d.decision)).1 refl,
        )
        refl

  -- Let `Date.parse` read the time of the decision as `toISOString` writes it, and let the
  -- evaluation of `decide` return. Then for the decision that `decide` signs, `verifyDecision` given
  -- the same policy and facts finds the same inputs and the same decision.
  pub replay_decision-decision_body :
      (to_iso : ℕ → String) (id : String) (r : AuthorizationRequest) (p : PolicyDocument)
      (facts : Facts) (now : ℕ) (value : Text × AuthzDecisionValue) (d : AuthorizationDecision)
      → date_parse (to_iso now) ≡ some now
      → evaluated c date_parse encode_request encode_decision encode_delegation encode_policy
          encode_facts regex_test regex_valid r p
          (decision_facts r facts)
          now
        ≡ some value
      → decision_body c date_parse encode_request encode_decision encode_delegation encode_policy
          encode_facts regex_test regex_valid to_iso id r p facts now
        ≡ some d
      → replay_decision c date_parse encode_request encode_decision encode_delegation encode_policy
          encode_facts regex_test regex_valid d r p
          (decision_facts r facts)
        ≡ some (check CheckStatus.pass "replayed_identically")
  unfolding decision_body
  replay_decision-decision_body to_iso id r p facts now value d iso h made =
      elim (Option-cases (
        request_digest c date_parse encode_request encode_decision encode_delegation encode_policy
          encode_facts regex_test regex_valid r)) [
            | inl thrown ↦ cc (rw (h, thrown) at made)
            | inr (bound, b) ↦
                elim (Option-cases
                  (digest_of c encode_facts "cool.authz.facts.v1" (decision_facts r facts))) [
                    | inl thrown ↦ cc (rw (h, b, thrown) at made)
                    | inr (inputs, i) ↦
                        let same = some_inj (rw (h, b, i) at made) in
                        subst
                          (λ x.
                            replay_decision c date_parse encode_request encode_decision
                              encode_delegation encode_policy encode_facts regex_test regex_valid x
                              r p (decision_facts r facts)
                            ≡ some (check CheckStatus.pass "replayed_identically"))
                          same
                          (replayed _ r p (decision_facts r facts) i
                            (again_value _ r p (decision_facts r facts) now value iso h))
                  ]
          ]
