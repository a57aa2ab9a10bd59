-- ===== src/Platform/Status.antt =====
-- src/platform/status.ts: the result vocabulary, and the fold of the required checks. A check's
-- `detail`, its limitation and the like are for display and are left out.
pub mod Laws
use Prim.Native.String
use cool_sdk.Prelude.{String, Option, none, some, List, [], ◌∷◌, ◌++◌}
use cool_sdk.Prelude.Map
use cool_sdk.Prelude.Map.{Map}

pub data CheckStatus : Type 0 where
  pass fail unknown not_applicable not_checked : CheckStatus

pub data OverallStatus : Type 0 where
  pass fail unknown : OverallStatus

pub record Check : Type 0 where
  pub status : CheckStatus
  pub reason : String

abbrev pub check : CheckStatus → String → Check
check status reason = record { status = status; reason = reason }

-- `${name}: ${reason}`
abbrev pub reason_line : String → String → String
reason_line name reason = String.◌++◌ name (String.◌++◌ ": " reason)

-- A failure stays a failure; what could not be decided replaces only a pass.
abbrev pub weaken : OverallStatus → OverallStatus
weaken OverallStatus.fail = OverallStatus.fail
weaken _ = OverallStatus.unknown

pub record Overall : Type 0 where
  pub overall : OverallStatus
  pub reasons : List String

-- One round of the loop, for a present check.
unfoldable pub fold_status : Overall → String → CheckStatus → String → Overall
fold_status o name CheckStatus.pass reason = o
fold_status o name not_applicable reason = o
fold_status o name CheckStatus.fail reason = record {
  overall = OverallStatus.fail;
  reasons = o.reasons ++ reason_line name reason ∷ [];
}
fold_status o name CheckStatus.unknown reason = record {
  overall = weaken o.overall;
  reasons = o.reasons ++ reason_line name reason ∷ [];
}
fold_status o name not_checked reason = record {
  overall = weaken o.overall;
  reasons = o.reasons ++ reason_line name reason ∷ [];
}

unfoldable pub fold_check : Overall → String → Option Check → Overall
unfolding fold_status
fold_check o name none = record {
  overall = weaken o.overall;
  reasons = o.reasons ++ reason_line name "missing" ∷ [];
}
fold_check o name (some c) = fold_status o name c.status c.reason

unfoldable pub fold_checks : Map Check → Overall → List String → Overall
unfolding fold_check
fold_checks checks o [] = o
fold_checks checks o (name ∷ required) =
    fold_checks checks (fold_check o name (Map.get name checks)) required

unfoldable pub overall_of : Map Check → List String → Overall
unfolding fold_checks
overall_of checks required =
    fold_checks checks (record { overall = OverallStatus.pass; reasons = [] }) required
