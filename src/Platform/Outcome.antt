-- ===== src/Platform/Outcome.antt =====
-- src/platform/outcome.ts: the headline outcome of a report.
pub mod Laws
use cool_sdk.Prelude.{
  String, Bool, true, false, Option, none, some, List, [], ◌∷◌, ◌++◌, includes, if◌then◌else◌,
}
use cool_sdk.Prelude.Map
use cool_sdk.Prelude.Map.{Map}
use cool_sdk.Platform.Status.{CheckStatus, not_applicable, Check, reason_line}

pub data Outcome : Type 0 where
  verified invalid unsupported stale incomplete indeterminate : Outcome

abbrev pub stale_reasons : List String
stale_reasons =
    "attestation_stale" ∷ "trust_snapshot_stale" ∷ "checkpoint_stale" ∷ "trust_bundle_stale"
    ∷ "certificate_expired" ∷ "collateral_stale" ∷ "decision_expired" ∷ "request_expired" ∷ []

abbrev pub incomplete_reasons : List String
incomplete_reasons =
    "missing_evidence" ∷ "sequence_gap" ∷ "no_confirmation" ∷ "confirmation_unavailable"
    ∷ "incomplete_interval" ∷ []

abbrev pub unsupported_reasons : List String
unsupported_reasons =
    "unsupported_algorithm" ∷ "unsupported_schema" ∷ "unsupported_platform"
    ∷ "unexpected_critical_field" ∷ "unsupported_version" ∷ []

-- The object `found`, and the reasons so far.
pub record Found : Type 0 where
  pub invalid : Bool
  pub unsupported : Bool
  pub stale : Bool
  pub incomplete : Bool
  pub indeterminate : Bool
  pub reasons : List String

-- The chain of tests on a check that is neither a pass nor not applicable.
unfoldable pub note : Found → CheckStatus → String → Found
note f status reason =
    if includes unsupported_reasons reason
    then record f { unsupported = true }
    else if includes stale_reasons reason
    then record f { stale = true }
    else if includes incomplete_reasons reason
    then record f { incomplete = true }
    else elim status [
      | CheckStatus.fail ↦ record f { invalid = true }
      | _ ↦ record f { indeterminate = true }
    ]

unfoldable pub note_present : Found → String → CheckStatus → String → Found
unfolding note
note_present f name CheckStatus.pass reason = f
note_present f name not_applicable reason = f
note_present f name status reason =
    note (record f { reasons = f.reasons ++ reason_line name reason ∷ [] }) status reason

unfoldable pub note_check : Found → String → Option Check → Found
unfolding note_present
note_check f name none = record f {
  indeterminate = true;
  reasons = f.reasons ++ reason_line name "missing" ∷ [];
}
note_check f name (some c) = note_present f name c.status c.reason

unfoldable pub note_checks : Map Check → Found → List String → Found
unfolding note_check
note_checks checks f [] = f
note_checks checks f (name ∷ required) =
    note_checks checks (note_check f name (Map.get name checks)) required

abbrev pub nothing_found : Found
nothing_found = record {
  invalid = false;
  unsupported = false;
  stale = false;
  incomplete = false;
  indeterminate = false;
  reasons = [];
}

-- The precedence of the outcomes.
unfoldable pub headline : Found → Outcome
headline f =
    if f.invalid
    then invalid
    else if f.unsupported
    then unsupported
    else if f.stale
    then stale
    else if f.incomplete
    then incomplete
    else if f.indeterminate
    then indeterminate
    else verified

pub record Classified : Type 0 where
  pub outcome : Outcome
  pub reasons : List String

unfoldable pub classify_outcome : Map Check → List String → Classified
unfolding note_checks headline
classify_outcome checks required =
    let f = note_checks checks nothing_found required in
    record { outcome = headline f; reasons = f.reasons }
