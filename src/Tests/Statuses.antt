-- ===== src/Tests/Statuses.antt =====
-- src/platform/status.ts and src/platform/outcome.ts on a failed and a missing check.
use cool_sdk.Prelude.{String, ◌≡◌, ◌↔◌, List, [], ◌∷◌, All}
use cool_sdk.Prelude.Map
use cool_sdk.Prelude.Map.{Map}
use cool_sdk.Platform.Status.{CheckStatus, OverallStatus, Check, check, overall_of}
use cool_sdk.Platform.Status.Laws.{Holds, overall_of-pass_iff}
use cool_sdk.Platform.Outcome.{verified, classify_outcome}
use cool_sdk.Platform.Outcome.Laws.{classify_outcome-verified_iff}

abbrev failed_checks : Map Check
failed_checks =
    ("integrity", check CheckStatus.pass "digest_matches")
    ∷ ("signature", check CheckStatus.fail "signature_invalid")
    ∷ []

abbrev required : List String
required = "integrity" ∷ "signature" ∷ "trust" ∷ []

overall_of-pass_iff_example :
    ((overall_of failed_checks required).overall ≡ OverallStatus.pass)
    ↔ All (λ name. Holds (Map.get name failed_checks)) required
overall_of-pass_iff_example = overall_of-pass_iff failed_checks required

classify_outcome-verified_iff_example :
    (((classify_outcome failed_checks required).outcome ≡ verified)
      ↔ All (λ name. Holds (Map.get name failed_checks)) required)
    × (((classify_outcome failed_checks required).outcome ≡ verified)
        ↔ ((overall_of failed_checks required).overall ≡ OverallStatus.pass))
classify_outcome-verified_iff_example = classify_outcome-verified_iff failed_checks required
