-- ===== src/Platform/Policy/Kleene.antt =====
-- `evaluateCondition` computes strong Kleene logic; what it decides stays decided when more facts
-- become known; and an undecided condition names a missing fact.
use cool_sdk.Prelude.{
  ◌<◌, String, ◌≡◌, ◌≢◌, ◌⊎◌, inl, inr, refl, ap, sym, ◌∙◌, Bool, true, false, Option, none, some,
  List, [], ◌∷◌, ◌++◌, arith, length, if◌then◌else◌, All, In, includes, Bool-cases,
}
use cool_sdk.Prelude.Map
use cool_sdk.Platform.Policy.Value.{Json}
use cool_sdk.Platform.Policy.Tri.{Tri, of_bool, negate, both, either}
use cool_sdk.Platform.Policy.Eval.{
  Op, eq, neq, is_in, exists, lt, lte, gt, gte, matches, Condition, all, any, negation, test,
  Conditions, no_more, sub, Facts, known, apply_op, test_fact, evaluate_condition, evaluate_all,
  evaluate_any, add_unknown,
}

module _ (regex_test : String → String → Bool) where
  -- The meaning of a condition, without order, short cuts or the record of unknown facts.
  mutual
    pub kleene : Condition → Facts → Tri
    kleene (all cs) facts = kleene_all cs facts
    kleene (any cs) facts = kleene_any cs facts
    kleene (negation c) facts = negate (kleene c facts)
    kleene (test fact op v) facts =
        (test_fact regex_test fact op v (known (Map.get fact facts)) []).0

    pub kleene_all : Conditions → Facts → Tri
    kleene_all no_more facts = Tri.true
    kleene_all (sub c cs) facts = both (kleene c facts) (kleene_all cs facts)

    pub kleene_any : Conditions → Facts → Tri
    kleene_any no_more facts = Tri.false
    kleene_any (sub c cs) facts = either (kleene c facts) (kleene_any cs facts)

  -- The record of unknown facts does not change the answer of a test.
  test_fact-answer :
      (fact : String) (op : Op) (v o : Option Json) (us us' : List String)
      → (test_fact regex_test fact op v o us).0 ≡ (test_fact regex_test fact op v o us').0
  unfolding test_fact
  test_fact-answer fact exists v none us us' = refl
  test_fact-answer fact _ v none us us' = refl
  test_fact-answer fact op v (some value) us us' = refl

  abbrev seen : Bool → Tri → Tri
  seen saw t = both (if saw then Tri.unknown else Tri.true) t

  abbrev seen_any : Bool → Tri → Tri
  seen_any saw t = either (if saw then Tri.unknown else Tri.false) t

  mutual
    unfolding evaluate_condition kleene

    answer :
        (c : Condition) (facts : Facts) (us : List String)
        → (evaluate_condition regex_test c facts us).0 ≡ kleene c facts
    answer (all cs) facts us = answer_all cs facts us false
    answer (any cs) facts us = answer_any cs facts us false
    answer (negation c) facts us = ap negate (answer c facts us)
    answer (test fact op v) facts us = test_fact-answer fact op v _ us []

    answer_all :
        (cs : Conditions) (facts : Facts) (us : List String) (saw : Bool)
        → (evaluate_all regex_test cs facts us saw).0 ≡ seen saw (kleene_all cs facts)
    answer_all no_more facts us saw = ground arith
    answer_all (sub c cs) facts us saw =
        let us' = (evaluate_condition regex_test c facts us).1 in
        ground (arith, answer c facts us, answer_all cs facts us' true, answer_all cs facts us' saw)

    answer_any :
        (cs : Conditions) (facts : Facts) (us : List String) (saw : Bool)
        → (evaluate_any regex_test cs facts us saw).0 ≡ seen_any saw (kleene_any cs facts)
    answer_any no_more facts us saw = ground arith
    answer_any (sub c cs) facts us saw =
        let us' = (evaluate_condition regex_test c facts us).1 in
        ground (arith, answer c facts us, answer_any cs facts us' true, answer_any cs facts us' saw)

  -- The answer of `evaluateCondition` is the condition's value in strong Kleene logic, whatever its
  -- short cuts leave out and whatever unknown facts were recorded before.
  pub evaluate_condition-eq-kleene :
      (c : Condition) (facts : Facts) (us : List String)
      → (evaluate_condition regex_test c facts us).0 ≡ kleene c facts
  evaluate_condition-eq-kleene c facts us = answer c facts us

-- The condition asks somewhere whether a fact exists.
unfoldable mutual
  pub uses_exists : Condition → Bool
  uses_exists (all cs) = uses_exists_in cs
  uses_exists (any cs) = uses_exists_in cs
  uses_exists (negation c) = uses_exists c
  uses_exists (test fact exists v) = true
  uses_exists (test fact op v) = false

  pub uses_exists_in : Conditions → Bool
  uses_exists_in no_more = false
  uses_exists_in (sub c cs) = if uses_exists c then true else uses_exists_in cs

-- Every fact that is known in the first record has the same value in the second.
abbrev pub Extends : Facts → Facts → Type 0
Extends facts more =
    (name : String)
    → (known (Map.get name facts) ≡ none) ⊎ (known (Map.get name facts) ≡ known (Map.get name more))

-- What is decided stays the same.
abbrev pub Stays : Tri → Tri → Type 0
Stays t t' = (t ≡ Tri.unknown) ⊎ (t ≡ t')

both-Stays : (a b a' b' : Tri) → Stays a a' → Stays b b' → Stays (both a b) (both a' b')
both-Stays a b a' b' p q = ground arith

either-Stays : (a b a' b' : Tri) → Stays a a' → Stays b b' → Stays (either a b) (either a' b')
either-Stays a b a' b' p q = ground arith

negate-Stays : (a a' : Tri) → Stays a a' → Stays (negate a) (negate a')
negate-Stays a a' p = ground arith

module _ (regex_test : String → String → Bool) where
  test_fact-Stays :
      (fact : String) (op : Op) (v o o' : Option Json)
      → op ≢ exists
      → (o ≡ none) ⊎ (o ≡ o')
      → Stays (test_fact regex_test fact op v o []).0 (test_fact regex_test fact op v o' []).0
  unfolding test_fact
  test_fact-Stays fact exists v o o' h e = absurd (h refl)
  test_fact-Stays fact _ v none o' h e = inl refl
  test_fact-Stays fact op v (some x) o' h (inl e) = cc
  test_fact-Stays fact op v (some x) o' h (inr e) = inr (rw (← e) refl)

  mutual
    unfolding kleene uses_exists

    stays :
        (c : Condition) (facts more : Facts)
        → uses_exists c ≡ false
        → Extends facts more
        → Stays (kleene regex_test c facts) (kleene regex_test c more)
    stays (all cs) facts more n e = Stays-all cs facts more n e
    stays (any cs) facts more n e = Stays-any cs facts more n e
    stays (negation c) facts more n e =
        negate-Stays (kleene regex_test c facts) (kleene regex_test c more) (stays c facts more n e)
    stays (test fact exists v) facts more n e = cc
    stays (test fact eq v) facts more n e = test_fact-Stays fact eq v _ _ (λ q. cc) (e fact)
    stays (test fact neq v) facts more n e = test_fact-Stays fact neq v _ _ (λ q. cc) (e fact)
    stays (test fact is_in v) facts more n e = test_fact-Stays fact is_in v _ _ (λ q. cc) (e fact)
    stays (test fact lt v) facts more n e = test_fact-Stays fact lt v _ _ (λ q. cc) (e fact)
    stays (test fact lte v) facts more n e = test_fact-Stays fact lte v _ _ (λ q. cc) (e fact)
    stays (test fact gt v) facts more n e = test_fact-Stays fact gt v _ _ (λ q. cc) (e fact)
    stays (test fact gte v) facts more n e = test_fact-Stays fact gte v _ _ (λ q. cc) (e fact)
    stays (test fact matches v) facts more n e =
        test_fact-Stays fact matches v _ _ (λ q. cc) (e fact)

    Stays-all :
        (cs : Conditions) (facts more : Facts)
        → uses_exists_in cs ≡ false
        → Extends facts more
        → Stays (kleene_all regex_test cs facts) (kleene_all regex_test cs more)
    Stays-all no_more facts more n e = inr refl
    Stays-all (sub c cs) facts more n e =
        both-Stays (kleene regex_test c facts) (kleene_all regex_test cs facts)
          (kleene regex_test c more) (kleene_all regex_test cs more)
          (stays c facts more (ground arith) e) (Stays-all cs facts more (ground arith) e)

    Stays-any :
        (cs : Conditions) (facts more : Facts)
        → uses_exists_in cs ≡ false
        → Extends facts more
        → Stays (kleene_any regex_test cs facts) (kleene_any regex_test cs more)
    Stays-any no_more facts more n e = inr refl
    Stays-any (sub c cs) facts more n e =
        either-Stays (kleene regex_test c facts) (kleene_any regex_test cs facts)
          (kleene regex_test c more) (kleene_any regex_test cs more)
          (stays c facts more (ground arith) e) (Stays-any cs facts more (ground arith) e)

  -- A condition that does not use `exists` and is true or false of some facts has the same value
  -- of all facts that extend them: what is missing can only leave it undecided.
  pub evaluate_condition_stays :
      (c : Condition) (facts more : Facts) (us us' : List String)
      → uses_exists c ≡ false
      → Extends facts more
      → (evaluate_condition regex_test c facts us).0 ≢ Tri.unknown
      → (evaluate_condition regex_test c more us').0 ≡ (evaluate_condition regex_test c facts us).0
  evaluate_condition_stays c facts more us us' n e decided = elim (stays c facts more n e) [
    | inl p ↦ absurd (decided (evaluate_condition-eq-kleene regex_test c facts us ∙ p))
    | inr p ↦
        evaluate_condition-eq-kleene regex_test c more us'
        ∙ sym p
        ∙ sym (evaluate_condition-eq-kleene regex_test c facts us)
  ]

  abbrev pub IsMissing : Facts → String → Type 0
  IsMissing facts name = known (Map.get name facts) ≡ none

  All-snoc :
      (P : String → Type 0) (xs : List String) (x : String) → All P xs → P x → All P (xs ++ x ∷ [])
  All-snoc P [] x h p = (p, tt)
  All-snoc P (y ∷ xs) x (q, h) p = (q, All-snoc P xs x h p)

  -- What a call has done to the unknowns: they name missing facts, there is one if the answer is
  -- unknown, and none is forgotten.
  record IsRecorded (facts : Facts) (us : List String) (r : Tri × List String) : Type 0 where
    missing : All (IsMissing facts) r.1
    named : r.0 ≡ Tri.unknown → 0 < length r.1
    grows : 0 < length us → 0 < length r.1

  add_unknown-length : (fact : String) (us : List String) → 0 < length (add_unknown fact us)
  unfolding includes
  add_unknown-length fact [] = omega arith
  add_unknown-length fact (u ∷ us) = ground arith

  add_unknown-IsMissing :
      (facts : Facts) (fact : String) (us : List String)
      → IsMissing facts fact
      → All (IsMissing facts) us
      → All (IsMissing facts) (add_unknown fact us)
  add_unknown-IsMissing facts fact us m h = elim (Bool-cases (includes us fact)) [
    | inl old ↦ rw old h
    | inr new ↦ rw new (All-snoc (IsMissing facts) us fact h m)
  ]

  of_bool-known : (b : Bool) → of_bool b ≢ Tri.unknown
  of_bool-known true = cc
  of_bool-known false = cc

  test_fact-IsRecorded :
      (facts : Facts) (fact : String) (op : Op) (v o : Option Json) (us : List String)
      → known (Map.get fact facts) ≡ o
      → All (IsMissing facts) us
      → IsRecorded facts us (test_fact regex_test fact op v o us)
  unfolding test_fact
  test_fact-IsRecorded facts fact exists v none us e h = record {
    missing = h;
    named = λ q. cc;
    grows = λ q. q;
  }
  test_fact-IsRecorded facts fact _ v none us e h = record {
    missing = add_unknown-IsMissing facts fact us e h;
    named = λ q. add_unknown-length fact us;
    grows = λ q. add_unknown-length fact us;
  }
  test_fact-IsRecorded facts fact op v (some value) us e h = record {
    missing = h;
    named = λ q. absurd (of_bool-known (apply_op regex_test op value v) q);
    grows = λ q. q;
  }

  negate-unknown : (t : Tri) → negate t ≡ Tri.unknown → t ≡ Tri.unknown
  negate-unknown t h = ground arith

  -- A round of a loop: it stops with the answer, or goes on from the unknowns so far.
  then-IsRecorded :
      (facts : Facts) (us us' : List String) (v : Tri) (r : Tri × List String)
      → IsRecorded facts us (v, us')
      → IsRecorded facts us' r
      → IsRecorded facts us r
  then-IsRecorded facts us us' v r first next = record {
    missing = next.missing;
    named = next.named;
    grows = λ q. next.grows (first.grows q);
  }

  all_round :
      (facts : Facts) (us us' : List String) (v : Tri) (x y : Tri × List String)
      → IsRecorded facts us (v, us')
      → (0 < length us' → IsRecorded facts us' x)
      → IsRecorded facts us' y
      → IsRecorded facts us
          (elim v [ Tri.false ↦ (Tri.false, us') | Tri.unknown ↦ x | Tri.true ↦ y ])
  all_round facts us us' Tri.true x y r p q = then-IsRecorded facts us us' Tri.true y r q
  all_round facts us us' Tri.false x y r p q = r
  all_round facts us us' Tri.unknown x y r p q =
      then-IsRecorded facts us us' Tri.unknown x r (p (r.named refl))

  any_round :
      (facts : Facts) (us us' : List String) (v : Tri) (x y : Tri × List String)
      → IsRecorded facts us (v, us')
      → (0 < length us' → IsRecorded facts us' x)
      → IsRecorded facts us' y
      → IsRecorded facts us
          (elim v [ Tri.true ↦ (Tri.true, us') | Tri.unknown ↦ x | Tri.false ↦ y ])
  any_round facts us us' Tri.false x y r p q = then-IsRecorded facts us us' Tri.false y r q
  any_round facts us us' Tri.true x y r p q = r
  any_round facts us us' Tri.unknown x y r p q =
      then-IsRecorded facts us us' Tri.unknown x r (p (r.named refl))

  mutual
    unfolding evaluate_condition

    recorded :
        (c : Condition) (facts : Facts) (us : List String)
        → All (IsMissing facts) us
        → IsRecorded facts us (evaluate_condition regex_test c facts us)
    recorded (all cs) facts us h = IsRecorded-All cs facts us false h (λ q. cc)
    recorded (any cs) facts us h = IsRecorded-any cs facts us false h (λ q. cc)
    recorded (negation c) facts us h =
        let r = recorded c facts us h in
        record {
          missing = r.missing;
          named = λ q. r.named (negate-unknown (evaluate_condition regex_test c facts us).0 q);
          grows = r.grows;
        }
    recorded (test fact op v) facts us h = test_fact-IsRecorded facts fact op v _ us refl h

    IsRecorded-All :
        (cs : Conditions) (facts : Facts) (us : List String) (saw : Bool)
        → All (IsMissing facts) us
        → (saw ≡ true → 0 < length us)
        → IsRecorded facts us (evaluate_all regex_test cs facts us saw)
    IsRecorded-All no_more facts us saw h s = record {
      missing = h;
      named = λ q. s (ground arith);
      grows = λ q. q;
    }
    IsRecorded-All (sub c cs) facts us saw h s =
        let r = recorded c facts us h in
        let us' = (evaluate_condition regex_test c facts us).1 in
        all_round facts us us' (evaluate_condition regex_test c facts us).0
          (evaluate_all regex_test cs facts us' true) (evaluate_all regex_test cs facts us' saw) r
          (λ p. IsRecorded-All cs facts us' true r.missing (λ q. p))
          (IsRecorded-All cs facts us' saw r.missing (λ q. r.grows (s q)))

    IsRecorded-any :
        (cs : Conditions) (facts : Facts) (us : List String) (saw : Bool)
        → All (IsMissing facts) us
        → (saw ≡ true → 0 < length us)
        → IsRecorded facts us (evaluate_any regex_test cs facts us saw)
    IsRecorded-any no_more facts us saw h s = record {
      missing = h;
      named = λ q. s (ground arith);
      grows = λ q. q;
    }
    IsRecorded-any (sub c cs) facts us saw h s =
        let r = recorded c facts us h in
        let us' = (evaluate_condition regex_test c facts us).1 in
        any_round facts us us' (evaluate_condition regex_test c facts us).0
          (evaluate_any regex_test cs facts us' true) (evaluate_any regex_test cs facts us' saw) r
          (λ p. IsRecorded-any cs facts us' true r.missing (λ q. p))
          (IsRecorded-any cs facts us' saw r.missing (λ q. r.grows (s q)))

  first-In :
      (facts : Facts) (us : List String)
      → All (IsMissing facts) us
      → 0 < length us
      → (name : String) × In name us × IsMissing facts name
  first-In facts [] h p = absurd (omega arith)
  first-In facts (u ∷ us) (m, h) p = (u, inl refl, m)

  -- Started with no unknowns, `evaluateCondition` records only facts that are missing or null, and
  -- where it cannot decide it records at least one.
  pub evaluate_condition-unknowns :
      (c : Condition) (facts : Facts)
      → All (IsMissing facts) (evaluate_condition regex_test c facts []).1
        × ((evaluate_condition regex_test c facts []).0 ≡ Tri.unknown
            → (name : String) × In name (evaluate_condition regex_test c facts []).1
              × IsMissing facts name)
  evaluate_condition-unknowns c facts =
      let r = recorded c facts [] tt in
      (
        r.missing,
        λ e. first-In facts (evaluate_condition regex_test c facts []).1 r.missing (r.named e),
      )
