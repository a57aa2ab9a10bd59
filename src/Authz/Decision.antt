-- ===== src/Authz/Decision.antt =====
-- src/authz/decision.ts, `decisionBody` and `verifyDecision`, and the request of
-- src/authz/request.ts that they are bound to. The canonical encoders of the objects are
-- parameters, with `clean` as part of them; a result `none` is a throw.
pub mod Replay
use cool_sdk.Sign.{◌>>=◌}
use cool_sdk.Prelude.{
  ℕ, ◌+◌, String, Bool, true, false, not, ◌&&◌, Option, none, some, List, [], ◌∷◌, if◌then◌else◌,
  str_eq, ltb, ◌==◌,
}
use cool_sdk.Prelude.Map
use cool_sdk.Prelude.Int.{ℤ}
use cool_sdk.Codec.{Bytes, Text, bytes_equal}
use cool_sdk.Multihash.{mh_sha256}
use cool_sdk.Platform.Status.{CheckStatus, not_applicable, not_checked, Check, check}
use cool_sdk.Platform.Outcome.{Outcome, classify_outcome}
use cool_sdk.Platform.Trust.{KeyPurpose, TrustStore}
use cool_sdk.Platform.Policy.Value.{Json, str}
use cool_sdk.Platform.Policy.Eval.{Facts}
use cool_sdk.Platform.Policy.Decide.{
  Decision, allow, require_approval, quarantine, defer, audit_only, PolicyDocument, evaluate_policy,
}
use cool_sdk.Sign.{Crypto, DirectoryEntry, bind}
use cool_sdk.Sign.Object.{Signed, digest_of, verify_trusted}
use cool_sdk.Authz.Execution.{ExecutionContext}
use cool_sdk.Authz.Scope.{ChainRequest}
use cool_sdk.Authz.Principal.{PrincipalDirectory, is_pass, is_given, later, check_principal}
use cool_sdk.Authz.Delegation.{Delegation, leaf_of, verify_delegation_chain}

pub record AuthorizationRequest : Type 0 where
  pub request_id : String
  pub principal : String
  pub action : String
  pub resource : String
  pub audience : String
  pub policy_selector : String
  pub params_commitment : Text
  pub context_commitment : Text
  pub nonce : String
  pub issued_at : String
  pub expires_at : String
  pub delegation : Option String
  pub execution : Option ExecutionContext

pub data AuthzDecisionValue : Type 0 where
  permit deny indeterminate error : AuthzDecisionValue

pub record AuthorizationDecision : Type 0 where
  pub decision_id : String
  pub decision : AuthzDecisionValue
  pub request_id : String
  pub request_digest : Text
  pub principal : String
  pub nonce : String
  pub policy_digest : Text
  pub evaluator_id : String
  pub evaluator_version : String
  pub input_digest : Text
  pub decided_at : String
  pub valid_until : String

pub data VerifyMode : Type 0 where
  enforcement historical : VerifyMode

pub record PresentedChain : Type 0 where
  pub chain : List (Signed Delegation)
  pub roots : List String
  pub revoked : Option (List String)
  pub amount : Option ℤ

pub record VerifyDecisionOptions : Type 0 where
  pub request : AuthorizationRequest
  pub trust : TrustStore DirectoryEntry
  pub mode : VerifyMode
  pub now : ℕ
  pub policy : Option PolicyDocument
  pub facts : Option Facts
  pub directory : Option PrincipalDirectory
  pub delegation : Option PresentedChain

-- `checks` in the order of its keys.
pub record DecisionReport : Type 0 where
  pub decision : AuthzDecisionValue
  pub outcome : Outcome
  pub checks : Map.Map Check

-- The table `MAP`.
abbrev pub decision_value : Decision → AuthzDecisionValue
decision_value allow = permit
decision_value audit_only = permit
decision_value Decision.deny = AuthzDecisionValue.deny
decision_value quarantine = AuthzDecisionValue.deny
decision_value require_approval = indeterminate
decision_value defer = indeterminate

abbrev pub value_index : AuthzDecisionValue → ℕ
value_index permit = 0
value_index AuthzDecisionValue.deny = 1
value_index indeterminate = 2
value_index error = 3

-- `{ ...facts, "request.principal": … }`
unfoldable pub decision_facts : AuthorizationRequest → Facts → Facts
decision_facts r facts = Map.set "request.audience" (str r.audience) (
    Map.set "request.resource" (str r.resource) (
      Map.set "request.action" (str r.action)
        (Map.set "request.principal" (str r.principal) facts)))

abbrev pub is_enforcement : VerifyMode → Bool
is_enforcement enforcement = true
is_enforcement historical = false

-- `Date.parse(a) < Date.parse(b) - margin`
abbrev pub earlier_by : ℕ → Option ℕ → Option ℕ → Bool
earlier_by margin (some a) (some b) = ltb (a + margin) b
earlier_by margin _ _ = false

abbrev pub same_leaf : Option String → List (Signed Delegation) → Bool
same_leaf named [] = false
same_leaf none (s ∷ chain) = false
same_leaf (some id) (s ∷ chain) = str_eq (leaf_of s.body chain).delegation_id id

module _ (c : Crypto) (date_parse : String → Option ℕ)
    (encode_request : AuthorizationRequest → Option Bytes)
    (encode_decision : AuthorizationDecision → Option Bytes)
    (encode_delegation : Delegation → Option Bytes) (encode_policy : PolicyDocument → Option Bytes)
    (encode_facts : Facts → Option Bytes) (regex_test : String → String → Bool)
    (regex_valid : Option Json → Bool) where
  unfoldable pub request_digest : AuthorizationRequest → Option Text
  request_digest r = digest_of c encode_request "cool.authz-request.v1" r

  -- policyDigest
  unfoldable pub policy_digest : PolicyDocument → Option Text
  policy_digest p = do b ← encode_policy p; some (mh_sha256 c.sha256 b)

  unfoldable pub request_binding : AuthorizationDecision → AuthorizationRequest → Option Check
  request_binding d r = do
    digest ← request_digest r
    some (
        if bytes_equal digest d.request_digest
          && str_eq r.request_id d.request_id
          && str_eq r.principal d.principal
          && str_eq r.nonce d.nonce
        then check CheckStatus.pass "request_bound"
        else check CheckStatus.fail "request_mismatch")

  unfoldable pub policy_binding : AuthorizationDecision → Option PolicyDocument → Option Check
  policy_binding d none = some (check not_checked "no_policy")
  policy_binding d (some p) = do
    digest ← policy_digest p
    some (
        if bytes_equal digest d.policy_digest
        then check CheckStatus.pass "policy_bound"
        else check CheckStatus.fail "policy_mismatch")

  -- `evaluatePolicy` past the digests, at a time: NaN is one that `toISOString` throws on.
  abbrev pub evaluated_at : Option ℕ → PolicyDocument → Facts → Option AuthzDecisionValue
  evaluated_at none p facts = none
  evaluated_at (some at) p facts =
      bind (evaluate_policy regex_test regex_valid p facts) (λ e. some (decision_value e.decision))

  -- `MAP[evaluatePolicy(…).decision]`, or "deny" for a decision after the request's expiry.
  unfoldable pub decided_again :
      AuthorizationDecision
      → AuthorizationRequest
      → PolicyDocument
      → Facts
      → Option AuthzDecisionValue
  decided_again d r p facts =
      if later (date_parse d.decided_at) (date_parse r.expires_at)
      then some AuthzDecisionValue.deny
      else evaluated_at (date_parse d.decided_at) p facts

  unfoldable pub replay_decision :
      AuthorizationDecision → AuthorizationRequest → PolicyDocument → Facts → Option Check
  replay_decision d r p facts = do
    digest ← digest_of c encode_facts "cool.authz.facts.v1" facts
    if not (bytes_equal digest d.input_digest)
        then some (check CheckStatus.fail "input_mismatch")
        else bind (decided_again d r p facts) (λ again. some (
            if value_index again == value_index d.decision
            then check CheckStatus.pass "replayed_identically"
            else check CheckStatus.fail "replay_mismatch"))

  unfoldable pub reproduced_with :
      AuthorizationDecision
      → AuthorizationRequest
      → Check
      → Option PolicyDocument
      → Option Facts
      → Option Check
  reproduced_with d r binding (some p) (some facts) =
      if is_pass binding
      then replay_decision d r p (decision_facts r facts)
      else some (check not_checked "prerequisite_failed")
  reproduced_with d r binding _ _ = some (check not_checked "no_replay_inputs")

  unfoldable pub reproduced : AuthorizationDecision → VerifyDecisionOptions → Check → Option Check
  reproduced d o binding =
      if str_eq d.evaluator_id "cool-nwc/policy-engine"
        && str_eq d.evaluator_version "cool.policy.v1/1"
      then reproduced_with d o.request binding o.policy o.facts
      else some (check CheckStatus.unknown "unsupported_evaluator")

  unfoldable pub freshness_of : AuthorizationDecision → VerifyDecisionOptions → Check
  freshness_of d o =
      if earlier_by 60000 (date_parse d.decided_at) (date_parse o.request.issued_at)
      then check CheckStatus.fail "decided_before_request"
      else if later (date_parse d.valid_until) (date_parse o.request.expires_at)
      then check CheckStatus.fail "validity_exceeds_request"
      else if is_enforcement o.mode && later (some o.now) (date_parse d.valid_until)
      then check CheckStatus.fail "decision_expired"
      else check CheckStatus.pass "fresh"

  unfoldable pub principal_state : Option PrincipalDirectory → String → Option ℕ → Option Check
  principal_state none id decided_at = some (check not_checked "no_directory")
  principal_state (some dir) id decided_at = check_principal date_parse dir id decided_at none

  unfoldable pub chain_request : AuthorizationRequest → Option ℤ → ChainRequest
  chain_request r amount = record {
    requester = r.principal;
    action = r.action;
    resource = r.resource;
    audience = r.audience;
    amount = amount;
  }

  -- The chain at the decision's time; a time that is NaN has made the check of the principal throw.
  unfoldable pub delegation_with :
      AuthorizationRequest
      → Option PresentedChain
      → Option PrincipalDirectory
      → Option ℕ
      → Option Check
  delegation_with r (some p) (some dir) (some at) =
      if same_leaf r.delegation p.chain
      then verify_delegation_chain date_parse
          (record {
            directory = dir;
            roots = p.roots;
            at = at;
            revoked = p.revoked;
            max_depth = none;
          })
          c encode_delegation p.chain (chain_request r p.amount)
      else some (check CheckStatus.fail "wrong_delegation")
  delegation_with r (some p) (some dir) none = none
  delegation_with r _ _ at = some (check not_checked "no_chain")

  unfoldable pub delegation_check : VerifyDecisionOptions → Option ℕ → Option Check
  delegation_check o at =
      if is_given o.request.delegation
      then delegation_with o.request o.delegation o.directory at
      else some (check not_applicable "no_delegation")

  abbrev pub check_names : List String
  check_names =
      "integrity" ∷ "signature" ∷ "evaluator_trusted" ∷ "request_binding" ∷ "policy_binding"
      ∷ "reproduced" ∷ "freshness" ∷ "principal_state" ∷ "delegation" ∷ []

  abbrev pub report_of : AuthorizationDecision → Map.Map Check → DecisionReport
  report_of d checks = record {
    decision = d.decision;
    outcome = (classify_outcome checks check_names).outcome;
    checks = checks;
  }

  unfoldable pub verify_decision :
      Signed AuthorizationDecision → VerifyDecisionOptions → Option DecisionReport
  verify_decision s o = do
    v ←
        verify_trusted c encode_decision date_parse "cool.authz-decision.v1" s o.trust
          KeyPurpose.evaluator o.now
    request ← request_binding s.body o.request
    policy ← policy_binding s.body o.policy
    replayed ← reproduced s.body o policy
    principal ← principal_state o.directory o.request.principal (date_parse s.body.decided_at)
    delegated ← delegation_check o (date_parse s.body.decided_at)
    some (
        report_of s.body (
          ("integrity", v.integrity)
          ∷ ("signature", v.signature)
          ∷ ("evaluator_trusted", v.trusted)
          ∷ ("request_binding", request)
          ∷ ("policy_binding", policy)
          ∷ ("reproduced", replayed)
          ∷ ("freshness", freshness_of s.body o)
          ∷ ("principal_state", principal)
          ∷ ("delegation", delegated)
          ∷ []))

  -- The try block of `decisionBody`: the policy's digest and the decision; `none` is a throw.
  unfoldable pub evaluated :
      AuthorizationRequest → PolicyDocument → Facts → ℕ → Option (Text × AuthzDecisionValue)
  evaluated r p facts now = do
    digest ← policy_digest p
    if later (some now) (date_parse r.expires_at)
        then some (digest, AuthzDecisionValue.deny)
        else bind (evaluate_policy regex_test regex_valid p facts)
            (λ e. some (digest, decision_value e.decision))

  -- The catch block, for what has thrown.
  abbrev pub or_error :
      PolicyDocument → Option (Text × AuthzDecisionValue) → Option (Text × AuthzDecisionValue)
  or_error p none = do
    digest ← digest_of c encode_policy "cool.policy.invalid" p
    some (digest, error)
  or_error p (some value) = some value

  -- `decisionBody`, without the recorded reasons; `to_iso` is `new Date(now).toISOString()`.
  unfoldable pub decision_body :
      (ℕ → String)
      → String
      → AuthorizationRequest
      → PolicyDocument
      → Facts
      → ℕ
      → Option AuthorizationDecision
  decision_body to_iso decision_id r p facts now = do
    value ← or_error p (evaluated r p (decision_facts r facts) now)
    bound ← request_digest r
    inputs ← digest_of c encode_facts "cool.authz.facts.v1" (decision_facts r facts)
    some (record {
      decision_id = decision_id;
      decision = value.1;
      request_id = r.request_id;
      request_digest = bound;
      principal = r.principal;
      nonce = r.nonce;
      policy_digest = value.0;
      evaluator_id = "cool-nwc/policy-engine";
      evaluator_version = "cool.policy.v1/1";
      input_digest = inputs;
      decided_at = to_iso now;
      valid_until = r.expires_at;
    })
