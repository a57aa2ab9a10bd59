-- ===== src/Authz/Execution.antt =====
-- src/authz/execution.ts: the planned workload against the observed one.
pub mod Bound
use cool_sdk.Prelude.{
  String, ◌≡◌, refl, ap, sym, ◌∙◌, Bool, true, false, not, ◌&&◌, ◌||◌, Option, none, some, List, [],
  ◌∷◌, arith, str_eq, eq_iff, if◌then◌else◌, every, some_of, ◌↔◌,
}
use cool_sdk.Platform.Status.{CheckStatus, not_applicable, Check, check}

pub record ExecutionContext : Type 0 where
  pub workload_id : String
  pub artifact_digest : String
  pub config_digest : String
  pub platform : String
  pub measurement : Option String
  pub environment : Option String

-- `(a ?? null) !== (b ?? null)`
abbrev pub differs : Option String → Option String → Bool
differs none none = false
differs (some a) (some b) = not (str_eq a b)
differs _ _ = true

-- The fields of `FIELDS`, in its order, as `planned[f]`.
abbrev pub field_values : ExecutionContext → List (Option String)
field_values x =
    some x.workload_id
    ∷ some x.artifact_digest
    ∷ some x.config_digest
    ∷ some x.platform
    ∷ x.measurement
    ∷ x.environment
    ∷ []

-- `differ.length` is not 0.
abbrev pub any_differs : List (Option String) → List (Option String) → Bool
any_differs (a ∷ xs) (b ∷ ys) = differs a b || any_differs xs ys
any_differs _ _ = false

unfoldable pub compare_execution : Option ExecutionContext → Option ExecutionContext → Check
compare_execution none observed = check not_applicable "no_planned_execution"
compare_execution (some planned) none = check CheckStatus.unknown "no_observed_execution"
compare_execution (some planned) (some observed) =
    if any_differs (field_values planned) (field_values observed)
    then check CheckStatus.fail "execution_mismatch"
    else check CheckStatus.pass "execution_bound"
