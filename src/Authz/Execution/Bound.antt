-- ===== src/Authz/Execution/Bound.antt =====
-- When the observed workload is the planned one.
use cool_sdk.Prelude.{
  String, ◌≡◌, refl, ap, sym, ◌∙◌, Bool, true, false, not, ◌||◌, Option, none, some, List, [], ◌∷◌,
  arith, eq_iff, if◌then◌else◌, ◌↔◌,
}
use cool_sdk.Platform.Status.{CheckStatus, check}
use cool_sdk.Authz.Execution.{
  ExecutionContext, differs, field_values, any_differs, compare_execution,
}

differs-same : (a b : Option String) → differs a b ≡ false → a ≡ b
differs-same none none h = refl
differs-same (some a) (some b) h = ap (λ x. some x) ((eq_iff a b).0 (positive h))
  where
    positive : {t : Bool} → not t ≡ false → t ≡ true
    positive k = ground arith
differs-same none (some b) h = cc
differs-same (some a) none h = cc

differs_self : (a : Option String) → differs a a ≡ false
differs_self none = refl
differs_self (some a) = rw ((eq_iff a a).1 refl) refl

any_differs_self : (xs : List (Option String)) → any_differs xs xs ≡ false
any_differs_self [] = refl
any_differs_self (a ∷ xs) = rw (differs_self a, any_differs_self xs) refl

neither : (a b : Bool) → (a || b) ≡ false → (a ≡ false) × (b ≡ false)
neither a b h = ground arith

some_inj : {a b : String} → some a ≡ some b → a ≡ b
some_inj h = cc

same_fields :
    (p o : ExecutionContext) → any_differs (field_values p) (field_values o) ≡ false → p ≡ o
same_fields p o h =
    let (w, h₁) = neither (differs (some p.workload_id) (some o.workload_id)) _ h in
    let (a, h₂) = neither (differs (some p.artifact_digest) (some o.artifact_digest)) _ h₁ in
    let (c, h₃) = neither (differs (some p.config_digest) (some o.config_digest)) _ h₂ in
    let (f, h₄) = neither (differs (some p.platform) (some o.platform)) _ h₃ in
    let (m, h₅) = neither (differs p.measurement o.measurement) _ h₄ in
    let (e, h₆) = neither (differs p.environment o.environment) _ h₅ in
    λ i. record {
      workload_id = some_inj (differs-same (some p.workload_id) (some o.workload_id) w) i;
      artifact_digest =
          some_inj (differs-same (some p.artifact_digest) (some o.artifact_digest) a) i;
      config_digest = some_inj (differs-same (some p.config_digest) (some o.config_digest) c) i;
      platform = some_inj (differs-same (some p.platform) (some o.platform) f) i;
      measurement = differs-same p.measurement o.measurement m i;
      environment = differs-same p.environment o.environment e i;
    }

-- The comparison is a pass exactly when an execution was planned, one is observed, and the two
-- agree in every field.
pub compare_execution-pass_iff :
    (planned observed : Option ExecutionContext)
    → ((compare_execution planned observed).status ≡ CheckStatus.pass)
      ↔ ((p : ExecutionContext) × (planned ≡ some p) × (observed ≡ some p))
unfolding compare_execution
compare_execution-pass_iff none observed = (λ h. cc, λ (p, e, f). cc)
compare_execution-pass_iff (some p) none = (λ h. cc, λ (q, e, f). cc)
compare_execution-pass_iff (some p) (some o) = (
  λ h. (p, refl, ap (λ x. some x) (sym (same_fields p o (no_difference _ h)))),
  λ (q, e, f). rw (agree q e f) refl,
)
  where
    no_difference :
        (t : Bool)
        → (if t
            then check CheckStatus.fail "execution_mismatch"
            else check CheckStatus.pass "execution_bound").status
          ≡ CheckStatus.pass
        → t ≡ false
    no_difference true k = cc
    no_difference false k = refl

    context_inj : {a b : ExecutionContext} → some a ≡ some b → a ≡ b
    context_inj k = cc

    agree :
        (q : ExecutionContext)
        → some p ≡ some q
        → some o ≡ some q
        → any_differs (field_values p) (field_values o) ≡ false
    agree q e f =
        ap (λ x. any_differs (field_values p) (field_values x)) (context_inj (f ∙ sym e))
        ∙ any_differs_self (field_values p)
