-- ===== src/Authz/Gateway.antt =====
-- src/authz/gateway.ts: the tests before a tool runs, and the nonce. The tool's own run and the
-- signature of the confirmation are outside: a run is `ran`, whatever its tool answers. `accepts`
-- is the answer of `paramsMatch`, and the store of nonces is the in-process one.
pub mod Accepts
pub mod Runs
use Prim.Native.String
use cool_sdk.Prelude.{
  String, Bool, true, false, not, ◌&&◌, ◌||◌, Option, none, some, List, [], ◌∷◌, if◌then◌else◌,
  str_eq, includes,
}
use cool_sdk.Prelude.Map
use cool_sdk.Prelude.Map.{Map}
use cool_sdk.Platform.Status.{CheckStatus, not_applicable, not_checked, Check}
use cool_sdk.Authz.Scope.{covers}
use cool_sdk.Authz.Principal.{is_pass, is_given}
use cool_sdk.Authz.Execution.{ExecutionContext, compare_execution}
use cool_sdk.Authz.Replay.{ConsumeResult, consumed, replayed, unavailable, Use, consume}
use cool_sdk.Authz.Decision.{
  AuthorizationRequest, AuthzDecisionValue, permit, deny, indeterminate, error, DecisionReport,
}

pub record ToolDefinition : Type 0 where
  pub action : String
  pub resource : String

pub data Invoked : Type 0 where
  rejected : String → Invoked
  ran : Invoked

-- The test of `blocking`, on one entry of the checks.
unfoldable pub is_blocking : String → Check → Bool
is_blocking name c = elim c.status [
  | CheckStatus.pass ↦ false
  | CheckStatus.fail ↦ true
  | CheckStatus.not_applicable ↦ false
  | CheckStatus.not_checked ↦ not (includes ("policy_binding" ∷ "reproduced" ∷ []) name)
  | CheckStatus.unknown ↦ true
]

unfoldable pub has_blocking : Map Check → Bool
has_blocking [] = false
has_blocking ((name, c) ∷ checks) = is_blocking name c || has_blocking checks

-- `decision_not_acceptable:${name}:${reason}` of the first blocking check
unfoldable pub blocking_reason : Map Check → String
blocking_reason [] = ""
blocking_reason ((name, c) ∷ checks) =
    let rest = blocking_reason checks in
    if is_blocking name c
    then String.◌++◌ "decision_not_acceptable:" (String.◌++◌ name (String.◌++◌ ":" c.reason))
    else rest

-- `decision_${report.decision}`
abbrev pub decision_reason : AuthzDecisionValue → String
decision_reason permit = "decision_permit"
decision_reason deny = "decision_deny"
decision_reason indeterminate = "decision_indeterminate"
decision_reason error = "decision_error"

abbrev pub is_permit : AuthzDecisionValue → Bool
is_permit d = elim d [ permit ↦ true | _ ↦ false ]

abbrev pub passes : Option Check → Bool
passes none = false
passes (some c) = is_pass c

-- exec.status === "fail" || exec.status === "unknown"
abbrev pub refuses : Check → Bool
refuses c = elim c.status [ CheckStatus.fail ↦ true | CheckStatus.unknown ↦ true | _ ↦ false ]

-- The tests before the decision is looked at.
unfoldable pub early_rejection :
    Option ToolDefinition → AuthorizationRequest → String → Bool → Option String
early_rejection none r audience accepts = some "unknown_tool"
early_rejection (some tool) r audience accepts =
    if not (str_eq tool.action r.action) || not (covers tool.resource r.resource)
    then some "tool_action_mismatch"
    else if not (str_eq r.audience audience)
    then some "wrong_audience"
    else if not accepts
    then some "parameter_mismatch"
    else none

-- The tests on the report of `verifyDecision`, and on the executing workload.
unfoldable pub report_rejection :
    AuthorizationRequest → DecisionReport → Option ExecutionContext → Option String
report_rejection r report observed =
    if has_blocking report.checks
    then some (blocking_reason report.checks)
    else if is_given r.delegation && not (passes (Map.get "delegation" report.checks))
    then some "delegation_not_verified"
    else if not (is_permit report.decision)
    then some (decision_reason report.decision)
    else if refuses (compare_execution r.execution observed)
    then some (compare_execution r.execution observed).reason
    else none

abbrev pub after_consume : Map String × ConsumeResult → Map String × Invoked
after_consume (used, consumed) = (used, ran)
after_consume (used, replayed) = (used, rejected "replayed")
after_consume (used, unavailable) = (used, rejected "replay_store_unavailable")

abbrev pub nonce_use : AuthorizationRequest → String → Use
nonce_use r audience = record { scope = audience; nonce = r.nonce; request_id = r.request_id }

abbrev pub after_report :
    Map String → AuthorizationRequest → String → Option String → Map String × Invoked
after_report used r audience (some reason) = (used, rejected reason)
after_report used r audience none = after_consume (consume used (nonce_use r audience))

abbrev pub with_report :
    Map String
    → AuthorizationRequest
    → String
    → Option ExecutionContext
    → Option DecisionReport
    → Option (Map String × Invoked)
with_report used r audience observed none = none
with_report used r audience observed (some report) =
    some (after_report used r audience (report_rejection r report observed))

abbrev pub after_early :
    Map String
    → AuthorizationRequest
    → String
    → Option ExecutionContext
    → Option DecisionReport
    → Option String
    → Option (Map String × Invoked)
after_early used r audience observed report (some reason) = some (used, rejected reason)
after_early used r audience observed report none = with_report used r audience observed report

-- `invoke`: the nonces after it and what became of the tool; `none` is a throw of `verifyDecision`,
-- whose result is `report`.
unfoldable pub invoke :
    Map String
    → Option ToolDefinition
    → AuthorizationRequest
    → String
    → Bool
    → Option ExecutionContext
    → Option DecisionReport
    → Option (Map String × Invoked)
invoke used tool r audience accepts observed report =
    after_early used r audience observed report (early_rejection tool r audience accepts)
