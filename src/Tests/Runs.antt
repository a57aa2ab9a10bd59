-- ===== src/Tests/Runs.antt =====
-- src/authz/gateway.ts: a permitted call, and the same nonce again.
use cool_sdk.Prelude.{String, ◌≡◌, ◌≢◌, refl, true, none, some, [], ◌∷◌, codes, includes, All}
use cool_sdk.Prelude.Map.{Map}
use cool_sdk.Platform.Status.{CheckStatus, check}
use cool_sdk.Platform.Outcome.{verified}
use cool_sdk.Authz.Scope.{covers}
use cool_sdk.Authz.Execution.{compare_execution}
use cool_sdk.Authz.Replay.{Use, consume, consume_all, nonce_key}
use cool_sdk.Authz.Decision.{AuthorizationRequest, permit, DecisionReport}
use cool_sdk.Authz.Gateway.{
  ToolDefinition, ran, is_blocking, has_blocking, early_rejection, report_rejection, invoke,
}
use cool_sdk.Authz.Gateway.Runs.{invoke-ran, invoke-ran_once}
use cool_sdk.Authz.Gateway.Accepts.{IsTaken, IsAcceptable, IsNotRefused}

abbrev pay_tool : ToolDefinition
pay_tool = record { action = "pay"; resource = "account/*" }

abbrev pub pay_request : AuthorizationRequest
pay_request = record {
  request_id = "r1";
  principal = "agent";
  action = "pay";
  resource = "account/7";
  audience = "bank";
  policy_selector = "payments";
  params_commitment = codes "mh:1";
  context_commitment = codes "mh:2";
  nonce = "n1";
  issued_at = ".";
  expires_at = "..";
  delegation = none;
  execution = none;
}

abbrev accepted_report : DecisionReport
accepted_report = record {
  decision = permit;
  outcome = verified;
  checks =
      ("integrity", check CheckStatus.pass "digest_matches")
      ∷ ("policy_binding", check CheckStatus.not_checked "no_policy")
      ∷ ("delegation", check CheckStatus.not_applicable "no_delegation")
      ∷ [];
}

abbrev after_pay : Map String
after_pay = ("bank\0n1", "r1") ∷ []

pay_ran :
    invoke [] (some pay_tool) pay_request "bank" true none (some accepted_report)
    ≡ some (after_pay, ran)
unfolding invoke early_rejection covers report_rejection has_blocking is_blocking includes
    compare_execution consume
pay_ran = refl

invoke-ran_example :
    (true ≡ true)
    × (pay_request.audience ≡ "bank")
    × IsTaken [] after_pay (nonce_key "bank" pay_request.nonce) pay_request.request_id
    × ((rep : DecisionReport) × (some accepted_report ≡ some rep)
        × All (λ entry. IsAcceptable entry.0 entry.1) rep.checks
        × (rep.decision ≡ permit)
        × IsNotRefused (compare_execution none none))
invoke-ran_example =
    invoke-ran [] after_pay (some pay_tool) pay_request "bank" true none (some accepted_report)
      pay_ran

abbrev other_nonce : Use
other_nonce = record { scope = "bank"; nonce = "n2"; request_id = "r2" }

invoke-ran_once_example :
    invoke
      (consume_all after_pay (other_nonce ∷ []))
      (some pay_tool)
      pay_request
      "bank"
      true
      none
      (some accepted_report)
    ≢ some (after_pay, ran)
invoke-ran_once_example =
    invoke-ran_once [] after_pay (some pay_tool) (some pay_tool) pay_request pay_request "bank" true
      true none none (some accepted_report) (some accepted_report) (other_nonce ∷ []) after_pay refl
      pay_ran
