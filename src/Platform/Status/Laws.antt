-- ===== src/Platform/Status/Laws.antt =====
-- When the overall status is a pass and when it is a failure.
use cool_sdk.Prelude.{
  String, ◌≡◌, ◌↔◌, ◌⊎◌, inl, inr, refl, Option, none, some, List, [], ◌∷◌, arith, All,
}
use cool_sdk.Prelude.Map
use cool_sdk.Prelude.Map.{Map}
use cool_sdk.Platform.Status.{
  CheckStatus, not_applicable, OverallStatus, Check, Overall, fold_check, fold_checks, overall_of,
}

-- The check is there and does not stand in the way of a pass.
abbrev pub Holds : Option Check → Type 0
Holds none = ⊥
Holds (some c) = (c.status ≡ CheckStatus.pass) ⊎ (c.status ≡ not_applicable)

abbrev pub Fails : Option Check → Type 0
Fails none = ⊥
Fails (some c) = c.status ≡ CheckStatus.fail

abbrev pub SomeFails : Map Check → List String → Type 0
SomeFails checks [] = ⊥
SomeFails checks (name ∷ required) = Fails (Map.get name checks) ⊎ SomeFails checks required

fold_check-pass :
    (o : Overall) (name : String) (c : Option Check)
    → ((fold_check o name c).overall ≡ OverallStatus.pass)
      ↔ ((o.overall ≡ OverallStatus.pass) × Holds c)
unfolding fold_check
fold_check-pass o name none = ground arith
fold_check-pass o name (some c) = ground arith

fold_checks-pass :
    (checks : Map Check) (o : Overall) (required : List String)
    → ((fold_checks checks o required).overall ≡ OverallStatus.pass)
      ↔ ((o.overall ≡ OverallStatus.pass) × All (λ name. Holds (Map.get name checks)) required)
unfolding fold_checks
fold_checks-pass checks o [] = (λ e. (e, tt), λ e. e.0)
fold_checks-pass checks o (name ∷ required) =
    let c = Map.get name checks in
    let (to, from) = fold_checks-pass checks (fold_check o name c) required in
    let (first, last) = fold_check-pass o name c in
    (
      λ e. let (p, rest) = to e in let (q, h) = first p in (q, (h, rest)),
      λ e. from (last (e.0, e.1.0), e.1.1),
    )

-- The overall status is a pass exactly when every required check is there and each is a pass or
-- not applicable.
pub overall_of-pass_iff :
    (checks : Map Check) (required : List String)
    → ((overall_of checks required).overall ≡ OverallStatus.pass)
      ↔ All (λ name. Holds (Map.get name checks)) required
unfolding overall_of
overall_of-pass_iff checks required =
    let (to, from) =
      fold_checks-pass checks (record { overall = OverallStatus.pass; reasons = [] }) required in
    (λ e. (to e).1, λ h. from (refl, h))

fold_check-fail :
    (o : Overall) (name : String) (c : Option Check)
    → ((fold_check o name c).overall ≡ OverallStatus.fail)
      ↔ ((o.overall ≡ OverallStatus.fail) ⊎ Fails c)
unfolding fold_check
fold_check-fail o name none = ground arith
fold_check-fail o name (some c) = ground arith

fold_checks-fail :
    (checks : Map Check) (o : Overall) (required : List String)
    → ((fold_checks checks o required).overall ≡ OverallStatus.fail)
      ↔ ((o.overall ≡ OverallStatus.fail) ⊎ SomeFails checks required)
unfolding fold_checks
fold_checks-fail checks o [] = (λ e. inl e, λ e. elim e [ inl p ↦ p | inr p ↦ absurd p ])
fold_checks-fail checks o (name ∷ required) =
    let c = Map.get name checks in
    let (to, from) = fold_checks-fail checks (fold_check o name c) required in
    let (first, last) = fold_check-fail o name c in
    (
      λ e. elim (to e) [
        | inl p ↦ elim (first p) [ inl q ↦ inl q | inr q ↦ inr (inl q) ]
        | inr p ↦ inr (inr p)
      ],
      λ e. elim e [
        | inl p ↦ from (inl (last (inl p)))
        | inr q ↦ elim q [ inl p ↦ from (inl (last (inr p))) | inr p ↦ from (inr p) ]
      ],
    )

-- It is a failure exactly when some required check failed, whatever came before or after it.
pub overall_of-fail_iff :
    (checks : Map Check) (required : List String)
    → ((overall_of checks required).overall ≡ OverallStatus.fail) ↔ SomeFails checks required
unfolding overall_of
overall_of-fail_iff checks required =
    let (to, from) =
      fold_checks-fail checks (record { overall = OverallStatus.pass; reasons = [] }) required in
    (λ e. elim (to e) [ inl p ↦ absurd (cc) | inr p ↦ p ], λ h. from (inr h))
