-- ===== src/Authz/Scope/Within.antt =====
-- A scope within another permits no more than it.
use cool_sdk.Prelude.{
  ℕ, String, ◌≡◌, inl, inr, refl, subst, Bool, true, false, not, ◌&&◌, ◌||◌, Option, none, some,
  List, [], ◌∷◌, arith, some_of, find, codes, str_eq, eq_iff, includes, starts_with, ends_star,
  drop_last, truthy, if◌then◌else◌, Bool-cases, All,
}
use cool_sdk.Prelude.Int.{ℤ, pos_part, neg_part}
use cool_sdk.Authz.Scope.{
  Scope, ChainRequest, covers, within, Excess, action, resource, amount, if_truthy, amount_excess,
  is_covered, scope_excess, scope_refusal,
}

starts_with_trans :
    (a b c : List ℕ) → starts_with a b ≡ true → starts_with b c ≡ true → starts_with a c ≡ true
starts_with_trans a b [] p q = refl
starts_with_trans a [] (z ∷ c) p q = cc
starts_with_trans [] (y ∷ b) (z ∷ c) p q = cc
starts_with_trans (x ∷ a) (y ∷ b) (z ∷ c) p q = ground (arith, starts_with_trans a b c)

-- Whatever the child's pattern covers, the parent's pattern covers.
pub covers-within : (r p v : String) → within r p ≡ true → covers r v ≡ true → covers p v ≡ true
unfolding covers within
covers-within r p v w c = elim (Bool-cases (ends_star (codes p))) [
  | inl wide ↦ elim (Bool-cases (ends_star (codes r))) [
    | inl star ↦ rw wide (
        starts_with_trans (codes v) (drop_last (codes r)) (drop_last (codes p)) (rw star at c)
          (rw (wide, star) at w))
    | inr exact ↦
        let same : r ≡ v = (eq_iff r v).0 (rw exact at c) in
        rw wide (
          subst (λ x. starts_with (codes x) (drop_last (codes p)) ≡ true) same
            (rw (wide, exact) at w))
  ]
  | inr narrow ↦
      let same : r ≡ p =
        (eq_iff r p).0 (second (not (ends_star (codes r))) (str_eq r p) (rw narrow at w)) in
      subst (λ x. covers x v ≡ true) same c
]
  where
    second : (a b : Bool) → (a && b) ≡ true → b ≡ true
    second a b k = ground arith

-- `find` found nothing that is not empty: then everything passes the test.
find-none :
    (test : String → Bool) (report : String → Excess) (rest : Option Excess) (xs : List String)
    → All (λ x. truthy x ≡ true) xs
    → if_truthy (find (λ x. not (test x)) xs) report rest ≡ none
    → All (λ x. test x ≡ true) xs × (rest ≡ none)
find-none test report rest [] t h = (tt, h)
find-none test report rest (x ∷ xs) t h = elim (Bool-cases (test x)) [
  | inl passes ↦
      let (all, rest_none) = find-none test report rest xs t.1 (rw passes at h) in
      ((passes, all), rest_none)
  | inr fails ↦ cc (rw (fails, t.0) at h)
]

includes-All :
    (xs ys : List String) (a : String)
    → All (λ x. includes ys x ≡ true) xs
    → includes xs a ≡ true
    → includes ys a ≡ true
unfolding includes
includes-All [] ys a all h = cc
includes-All (x ∷ xs) ys a all h = elim (Bool-cases (str_eq x a)) [
  | inl same ↦ subst (λ z. includes ys z ≡ true) ((eq_iff x a).0 same) all.0
  | inr other ↦ includes-All xs ys a all.1 (rw other at h)
]

covered_by :
    (r v : String) (ps : List String)
    → is_covered ps r ≡ true
    → covers r v ≡ true
    → some_of (λ p. covers p v) ps ≡ true
unfolding is_covered
covered_by r v [] h c = cc
covered_by r v (p ∷ ps) h c = elim (Bool-cases (within r p)) [
  | inl inside ↦ rw (covers-within r p v inside c) refl
  | inr outside ↦ or_right (covers p v) (covered_by r v ps (rw outside at h) c)
]
  where
    or_right : (a : Bool) {b : Bool} → b ≡ true → (a || b) ≡ true
    or_right a k = ground arith

covered-All :
    (rs ps : List String) (v : String)
    → All (λ r. is_covered ps r ≡ true) rs
    → some_of (λ r. covers r v) rs ≡ true
    → some_of (λ p. covers p v) ps ≡ true
covered-All [] ps v all h = cc
covered-All (r ∷ rs) ps v all h = elim (Bool-cases (covers r v)) [
  | inl c ↦ covered_by r v ps all.0 c
  | inr other ↦ covered-All rs ps v all.1 (rw other at h)
]

amount_trans :
    (request child parent : Option ℤ)
    → amount_excess child parent ≡ false
    → amount_excess request child ≡ false
    → amount_excess request parent ≡ false
unfolding amount_excess
amount_trans request child none h k = refl
amount_trans request none (some p) h k = cc
amount_trans none (some c) (some p) h k = cc
amount_trans (some r) (some c) (some p) h k = ground (arith, pos_part r, neg_part r)

-- A request that a scope does not refuse passes its three tests.
pub scope_refusal-none :
    (s : Scope) (r : ChainRequest)
    → scope_refusal s r ≡ none
    → (includes s.actions r.action ≡ true)
      × (some_of (λ p. covers p r.resource) s.resources ≡ true)
      × (amount_excess r.amount s.max_amount ≡ false)
unfolding scope_refusal
scope_refusal-none s r h =
    tests (includes s.actions r.action) (some_of (λ p. covers p r.resource) s.resources)
      (amount_excess r.amount s.max_amount) h
  where
    refusal : Bool → Bool → Bool → Option String
    refusal a b c =
        if not a
        then some "scope_exceeded"
        else if not b
        then some "scope_exceeded"
        else if c
        then some "scope_exceeded"
        else none

    tests : (a b c : Bool) → refusal a b c ≡ none → (a ≡ true) × (b ≡ true) × (c ≡ false)
    tests true true true k = cc
    tests true true false k = (refl, refl, refl)
    tests true false c k = cc
    tests false b c k = cc

-- Suppose that a child's actions and resources are nonempty strings and that `scopeExcess` finds
-- no excess over the parent. Then each request that the child's scope permits, the parent's scope
-- permits too: for the action, the resource and the amount.
pub scope_excess-none :
    (child parent : Scope) (r : ChainRequest)
    → All (λ a. truthy a ≡ true) child.actions
    → All (λ p. truthy p ≡ true) child.resources
    → scope_excess child parent ≡ none
    → scope_refusal child r ≡ none
    → scope_refusal parent r ≡ none
unfolding scope_excess scope_refusal
scope_excess-none child parent r named_actions named_resources h permitted =
    let (actions, h₁) =
      find-none (includes parent.actions) action _ child.actions named_actions h in
    let (resources, h₂) =
      find-none (is_covered parent.resources) resource _ child.resources named_resources h₁ in
    let (a, p, m) = scope_refusal-none child r permitted in
    passes (includes-All child.actions parent.actions r.action actions a)
      (covered-All child.resources parent.resources r.resource resources p)
      (amount_trans r.amount child.max_amount parent.max_amount
        (no_excess (amount_excess child.max_amount parent.max_amount) h₂) m)
  where
    no_excess : (b : Bool) → (if b then some amount else none) ≡ none → b ≡ false
    no_excess true k = cc
    no_excess false k = refl

    passes :
        includes parent.actions r.action ≡ true
        → some_of (λ q. covers q r.resource) parent.resources ≡ true
        → amount_excess r.amount parent.max_amount ≡ false
        → scope_refusal parent r ≡ none
    passes a p m = rw (a, p, m) refl
