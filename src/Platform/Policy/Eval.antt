-- ===== src/Platform/Policy/Eval.antt =====
-- Conditions and `evaluateCondition`.
use cool_sdk.Prelude.{
  String, Bool, true, false, not, ◌||◌, Option, none, some, List, [], ◌∷◌, ◌++◌, str_eq, includes,
  if◌then◌else◌,
}
use cool_sdk.Prelude.Int.{ℤ, eqb_ℤ, ltb_ℤ}
use cool_sdk.Prelude.Map
use cool_sdk.Prelude.Map.{Map}
use cool_sdk.Platform.Policy.Value.{Json, null, bool, num, str, arr, Items, nil, cons}
use cool_sdk.Platform.Policy.Tri.{Tri, of_bool, negate}

pub data Op : Type 0 where
  eq neq is_in exists lt lte gt gte matches : Op

mutual
  pub data Condition : Type 0 where
    all any : Conditions → Condition
    negation : Condition → Condition
    test : String → Op → Option Json → Condition

  pub data Conditions : Type 0 where
    no_more : Conditions
    sub : Condition → Conditions → Conditions

abbrev pub Facts : Type 0
Facts = Map Json

abbrev pub bool_eq : Bool → Bool → Bool
bool_eq true b = b
bool_eq false b = not b

-- `a === b`. Arrays and objects are equal only to themselves, and a fact is no part of a policy.
unfoldable pub strict_equal : Json → Json → Bool
strict_equal null null = true
strict_equal (bool a) (bool b) = bool_eq a b
strict_equal (num a) (num b) = eqb_ℤ a b
strict_equal (str a) (str b) = str_eq a b
strict_equal _ _ = false

-- `value === c.value`, where the condition may have no value.
abbrev pub equals_value : Json → Option Json → Bool
equals_value value none = false
equals_value value (some v) = strict_equal value v

unfoldable pub items_include : Items → Json → Bool
items_include nil value = false
items_include (cons v vs) value = strict_equal v value || items_include vs value

-- `Array.isArray(c.value) && c.value.includes(value)`
unfoldable pub in_value : Json → Option Json → Bool
unfolding items_include
in_value value (some (arr vs)) = items_include vs value
in_value value _ = false

-- `typeof value === "number" && typeof c.value === "number" && …`
unfoldable pub compare_numbers : (ℤ → ℤ → Bool) → Json → Option Json → Bool
compare_numbers f (num a) (some (num b)) = f a b
compare_numbers f _ _ = false

-- `unknowns.add(fact)`
abbrev pub add_unknown : String → List String → List String
add_unknown fact unknowns = if includes unknowns fact then unknowns else unknowns ++ fact ∷ []

-- The fact, where it is neither undefined nor null.
abbrev pub known : Option Json → Option Json
known none = none
known (some null) = none
known (some v) = some v

module _ (regex_test : String → String → Bool) where
  unfoldable pub matches_value : Json → Option Json → Bool
  matches_value (str s) (some (str pattern)) = regex_test pattern s
  matches_value _ _ = false

  -- The switch on the operator, for a known fact.
  unfoldable pub apply_op : Op → Json → Option Json → Bool
  apply_op eq value v = equals_value value v
  apply_op neq value v = not (equals_value value v)
  apply_op is_in value v = in_value value v
  apply_op exists value v = true
  apply_op lt value v = compare_numbers ltb_ℤ value v
  apply_op lte value v = compare_numbers (λ a b. not (ltb_ℤ b a)) value v
  apply_op gt value v = compare_numbers (λ a b. ltb_ℤ b a) value v
  apply_op gte value v = compare_numbers (λ a b. not (ltb_ℤ a b)) value v
  apply_op matches value v = matches_value value v

  -- A missing fact is unknown, but to `exists`, and is added to the unknowns.
  unfoldable pub test_fact :
      String → Op → Option Json → Option Json → List String → Tri × List String
  test_fact fact exists v none us = (Tri.false, us)
  test_fact fact op v none us = (Tri.unknown, add_unknown fact us)
  test_fact fact op v (some value) us = (of_bool (apply_op op value v), us)

  unfoldable mutual
    pub evaluate_condition : Condition → Facts → List String → Tri × List String
    evaluate_condition (all cs) facts us = evaluate_all cs facts us false
    evaluate_condition (any cs) facts us = evaluate_any cs facts us false
    evaluate_condition (negation c) facts us =
        let (v, us') = evaluate_condition c facts us in (negate v, us')
    evaluate_condition (test fact op v) facts us =
        test_fact fact op v (known (Map.get fact facts)) us

    -- The loops of `all` and `any`; the last argument is `sawUnknown`.
    pub evaluate_all : Conditions → Facts → List String → Bool → Tri × List String
    evaluate_all no_more facts us saw = (if saw then Tri.unknown else Tri.true, us)
    evaluate_all (sub c cs) facts us saw =
        let (v, us') = evaluate_condition c facts us in
        elim v [
          | Tri.false ↦ (Tri.false, us')
          | Tri.unknown ↦ evaluate_all cs facts us' true
          | Tri.true ↦ evaluate_all cs facts us' saw
        ]

    pub evaluate_any : Conditions → Facts → List String → Bool → Tri × List String
    evaluate_any no_more facts us saw = (if saw then Tri.unknown else Tri.false, us)
    evaluate_any (sub c cs) facts us saw =
        let (v, us') = evaluate_condition c facts us in
        elim v [
          | Tri.true ↦ (Tri.true, us')
          | Tri.unknown ↦ evaluate_any cs facts us' true
          | Tri.false ↦ evaluate_any cs facts us' saw
        ]
