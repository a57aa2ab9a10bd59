-- ===== src/Phala/Policy/Default.antt =====
-- `DEFAULT_POLICY`.
use cool_sdk.Prelude.{none, some, [], ◌∷◌}
use cool_sdk.Phala.Receipt.{prompt, model, params, policy, dataset, agent_permission, tool}
use cool_sdk.Phala.Policy.{auto_approved, approved, escalate, PolicyMatch, PolicyRule, PolicySet}

abbrev any_change : PolicyMatch
any_change = record {
  kinds = none;
  environments = none;
  target = none;
  min_approvers = none;
  max_approvers = none;
  min_risk = none;
  labels = none;
  actor_methods = none;
}

abbrev pub non_production : PolicyRule
non_production = record {
  id = "POL-001";
  title = "Non-production changes are automatic";
  applies = record any_change { environments = some ("dev" ∷ "test" ∷ "staging" ∷ []) };
  decision = auto_approved;
  obligations = none;
}

abbrev pub two_approvers : PolicyRule
two_approvers = record {
  id = "POL-002";
  title = "Production prompt and model changes need two approvers";
  applies = record any_change {
    environments = some ("prod" ∷ []);
    kinds = some (prompt ∷ model ∷ policy ∷ []);
    min_approvers = some 2;
  };
  decision = approved;
  obligations = some ("eu-ai-act-14" ∷ []);
}

abbrev pub without_approvers : PolicyRule
without_approvers = record {
  id = "POL-003";
  title = "Production changes without two approvers escalate";
  applies = record any_change {
    environments = some ("prod" ∷ []);
    kinds = some (prompt ∷ model ∷ policy ∷ []);
    max_approvers = some 1;
  };
  decision = escalate;
  obligations = some ("eu-ai-act-14" ∷ []);
}

abbrev pub compliance_sign_off : PolicyRule
compliance_sign_off = record {
  id = "POL-008";
  title = "Parameters and datasets need compliance sign-off in production";
  applies = record any_change {
    environments = some ("prod" ∷ []);
    kinds = some (params ∷ dataset ∷ []);
    min_approvers = some 1;
  };
  decision = approved;
  obligations = some ("eu-ai-act-15" ∷ []);
}

abbrev pub widening : PolicyRule
widening = record {
  id = "POL-031";
  title = "Widening agent permissions is never automatic";
  applies = record any_change { kinds = some (agent_permission ∷ tool ∷ []) };
  decision = escalate;
  obligations = some ("eu-ai-act-14" ∷ "dpdp-8" ∷ []);
}

abbrev pub high_risk : PolicyRule
high_risk = record {
  id = "POL-040";
  title = "High-risk changes always reach a human";
  applies = record any_change { min_risk = some (record { parts = 8; whole = 10 }) };
  decision = escalate;
  obligations = none;
}

abbrev pub default_policy : PolicySet
default_policy = record {
  id = "cool.default.v1";
  fallback = some escalate;
  rules =
      non_production ∷ two_approvers ∷ without_approvers ∷ compliance_sign_off ∷ widening
      ∷ high_risk ∷ [];
}
