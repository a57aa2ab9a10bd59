-- ===== src/Platform/Outcome/Laws.antt =====
-- When the headline is `verified` and when it is `invalid`.
use cool_sdk.Prelude.{
  String, ◌≡◌, ◌↔◌, ◌⊎◌, inl, inr, refl, true, false, Option, none, some, List, [], ◌∷◌, arith, All,
  includes,
}
use cool_sdk.Prelude.Map
use cool_sdk.Prelude.Map.{Map}
use cool_sdk.Platform.Status.{CheckStatus, OverallStatus, Check, overall_of}
use cool_sdk.Platform.Status.Laws.{Holds, overall_of-pass_iff}
use cool_sdk.Platform.Outcome.{
  verified, invalid, stale_reasons, incomplete_reasons, unsupported_reasons, Found, note,
  note_present, note_check, note_checks, nothing_found, headline, classify_outcome,
}

-- No flag is set.
abbrev pub IsClear : Found → Type 0
IsClear f =
    (f.invalid ≡ false)
    × (f.unsupported ≡ false)
    × (f.stale ≡ false)
    × (f.incomplete ≡ false)
    × (f.indeterminate ≡ false)

note-not-IsClear :
    (f : Found) (status : CheckStatus) (reason : String) → ¬ IsClear (note f status reason)
unfolding note
note-not-IsClear f CheckStatus.pass reason = ground arith
note-not-IsClear f _ reason = ground arith

note_check-IsClear :
    (f : Found) (name : String) (c : Option Check)
    → IsClear (note_check f name c) ↔ (IsClear f × Holds c)
unfolding note_check note_present
note_check-IsClear f name none = ground arith
note_check-IsClear f name (some c) = ground (arith, note-not-IsClear _ CheckStatus.fail c.reason)

note_checks-IsClear :
    (checks : Map Check) (f : Found) (required : List String)
    → IsClear (note_checks checks f required)
      ↔ (IsClear f × All (λ name. Holds (Map.get name checks)) required)
unfolding note_checks
note_checks-IsClear checks f [] = (λ e. (e, tt), λ e. e.0)
note_checks-IsClear checks f (name ∷ required) =
    let c = Map.get name checks in
    let (to, from) = note_checks-IsClear checks (note_check f name c) required in
    let (first, last) = note_check-IsClear f name c in
    (
      λ e. let (p, rest) = to e in let (q, h) = first p in (q, (h, rest)),
      λ e. from (last (e.0, e.1.0), e.1.1),
    )

headline-verified_iff : (f : Found) → (headline f ≡ verified) ↔ IsClear f
unfolding headline
headline-verified_iff f = ground arith

-- The headline is `verified` exactly when every required check is there and each is a pass or not
-- applicable, which is when `overallOf` gives a pass for the same checks.
pub classify_outcome-verified_iff :
    (checks : Map Check) (required : List String)
    → (((classify_outcome checks required).outcome ≡ verified)
        ↔ All (λ name. Holds (Map.get name checks)) required)
      × (((classify_outcome checks required).outcome ≡ verified)
          ↔ ((overall_of checks required).overall ≡ OverallStatus.pass))
unfolding classify_outcome
classify_outcome-verified_iff checks required =
    let f = note_checks checks nothing_found required in
    let (to, from) = note_checks-IsClear checks nothing_found required in
    let (clear, mark) = headline-verified_iff f in
    let (passes, back) = overall_of-pass_iff checks required in
    let clean : IsClear nothing_found = (refl, refl, refl, refl, refl) in
    (
      (λ e. (to (clear e)).1, λ h. mark (from (clean, h))),
      (λ e. back ((to (clear e)).1), λ e. mark (from (clean, passes e))),
    )

-- The reason is in none of the three sets that soften a failure.
abbrev pub IsPlain : String → Type 0
IsPlain reason =
    (includes unsupported_reasons reason ≡ false)
    × (includes stale_reasons reason ≡ false)
    × (includes incomplete_reasons reason ≡ false)

abbrev pub FailsPlainly : Option Check → Type 0
FailsPlainly none = ⊥
FailsPlainly (some c) = (c.status ≡ CheckStatus.fail) × IsPlain c.reason

abbrev pub SomeFailsPlainly : Map Check → List String → Type 0
SomeFailsPlainly checks [] = ⊥
SomeFailsPlainly checks (name ∷ required) =
    FailsPlainly (Map.get name checks) ⊎ SomeFailsPlainly checks required

note_check-invalid :
    (f : Found) (name : String) (c : Option Check)
    → ((note_check f name c).invalid ≡ true) ↔ ((f.invalid ≡ true) ⊎ FailsPlainly c)
unfolding note_check note_present note
note_check-invalid f name none = ground arith
note_check-invalid f name (some c) = ground arith

note_checks-invalid :
    (checks : Map Check) (f : Found) (required : List String)
    → ((note_checks checks f required).invalid ≡ true)
      ↔ ((f.invalid ≡ true) ⊎ SomeFailsPlainly checks required)
unfolding note_checks
note_checks-invalid checks f [] = (λ e. inl e, λ e. elim e [ inl p ↦ p | inr p ↦ absurd p ])
note_checks-invalid checks f (name ∷ required) =
    let c = Map.get name checks in
    let (to, from) = note_checks-invalid checks (note_check f name c) required in
    let (first, last) = note_check-invalid f name c in
    (
      λ e. elim (to e) [
        | inl p ↦ elim (first p) [ inl q ↦ inl q | inr q ↦ inr (inl q) ]
        | inr p ↦ inr (inr p)
      ],
      λ e. elim e [
        | inl p ↦ from (inl (last (inl p)))
        | inr q ↦ elim q [ inl p ↦ from (inl (last (inr p))) | inr p ↦ from (inr p) ]
      ],
    )

headline-invalid_iff : (f : Found) → (headline f ≡ invalid) ↔ (f.invalid ≡ true)
unfolding headline
headline-invalid_iff f = ground arith

-- The headline is `invalid` exactly when some required check failed for a reason outside the sets
-- of unsupported, stale and incomplete reasons: no other finding takes precedence over that.
pub classify_outcome-invalid_iff :
    (checks : Map Check) (required : List String)
    → ((classify_outcome checks required).outcome ≡ invalid) ↔ SomeFailsPlainly checks required
unfolding classify_outcome
classify_outcome-invalid_iff checks required =
    let f = note_checks checks nothing_found required in
    let (to, from) = note_checks-invalid checks nothing_found required in
    let (clear, mark) = headline-invalid_iff f in
    (λ e. elim (to (clear e)) [ inl p ↦ cc | inr p ↦ p ], λ h. mark (from (inr h)))
