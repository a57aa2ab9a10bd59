-- ===== src/Tests/Authority.antt =====
-- src/authz: scopes, nonces and executions.
use cool_sdk.Prelude.{◌≡◌, ◌↔◌, refl, none, some, [], ◌∷◌, includes}
use cool_sdk.Prelude.Int.{pos}
use cool_sdk.Platform.Status.{CheckStatus}
use cool_sdk.Authz.Scope.{
  Scope, ChainRequest, scope_excess, scope_refusal, is_covered, within, covers, amount_excess,
}
use cool_sdk.Authz.Scope.Within.{scope_excess-none}
use cool_sdk.Authz.Scope.Gap.{scope_excess_hidden}
use cool_sdk.Authz.Replay.{Use}
use cool_sdk.Authz.Execution.{ExecutionContext, compare_execution}
use cool_sdk.Authz.Execution.Bound.{compare_execution-pass_iff}

abbrev pub wide : Scope
wide = record {
  actions = "pay" ∷ "read" ∷ [];
  resources = "account/*" ∷ [];
  max_amount = some (pos 100);
}

abbrev pub narrow : Scope
narrow = record { actions = "pay" ∷ []; resources = "account/7" ∷ []; max_amount = some (pos 20) }

abbrev pub payment : ChainRequest
payment = record {
  requester = "agent";
  action = "pay";
  resource = "account/7";
  audience = "bank";
  amount = some (pos 15);
}

no_excess : scope_excess narrow wide ≡ none
unfolding scope_excess includes is_covered within amount_excess
no_excess = refl

permitted : scope_refusal narrow payment ≡ none
unfolding scope_refusal includes covers amount_excess
permitted = refl

scope_excess-none_example : scope_refusal wide payment ≡ none
scope_excess-none_example =
    scope_excess-none narrow wide payment (refl, tt) (refl, tt) no_excess permitted

abbrev hidden : Scope
hidden = record {
  actions = "" ∷ "close" ∷ [];
  resources = "" ∷ "vault/*" ∷ [];
  max_amount = some (pos 20);
}

scope_excess_hidden_example : scope_excess hidden wide ≡ none
unfolding includes is_covered within amount_excess
scope_excess_hidden_example =
    scope_excess_hidden hidden wide ("close" ∷ []) ("vault/*" ∷ []) refl refl refl refl refl

abbrev first_use : Use
first_use = record { scope = "s"; nonce = "n"; request_id = "1" }

abbrev second_use : Use
second_use = record { scope = "s"; nonce = "n"; request_id = "2" }

abbrev other_use : Use
other_use = record { scope = "s"; nonce = "m"; request_id = "3" }

abbrev planned_run : ExecutionContext
planned_run = record {
  workload_id = "w";
  artifact_digest = "a";
  config_digest = "c";
  platform = "p";
  measurement = none;
  environment = some "prod";
}

compare_execution-pass_iff_example :
    ((compare_execution (some planned_run) none).status ≡ CheckStatus.pass)
    ↔ ((p : ExecutionContext) × (some planned_run ≡ some p) × (none ≡ some p))
compare_execution-pass_iff_example = compare_execution-pass_iff (some planned_run) none
