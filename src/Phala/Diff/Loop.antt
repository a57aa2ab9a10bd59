-- ===== src/Phala/Diff/Loop.antt =====
-- A counting loop stops where its test fails, and no further than its fuel needs.
use cool_sdk.Prelude.{
  ℕ, zero, suc, ◌+◌, ◌≤◌, ◌<◌, ◌≡◌, ◌⊎◌, refl, inl, inr, sym, Bool, true, false, arith, Bool-cases,
}
use cool_sdk.Phala.Diff.{count_while}

module _ (test : ℕ → Bool) where
  -- Enough fuel: where the test fails after `fuel` rounds, the loop has ended by its test.
  pub count_while-stops :
      (fuel i : ℕ)
      → ((j : ℕ) → i + fuel ≤ j → test j ≡ false)
      → test (count_while fuel test i) ≡ false
  unfolding count_while
  count_while-stops zero i h = h i (omega arith)
  count_while-stops (suc fuel) i h = elim (Bool-cases (test i)) [
    | inl on ↦ rw on (count_while-stops fuel (suc i) (λ j p. h j (omega (arith, p))))
    | inr off ↦ rw off off
  ]

  pub count_while-ran : (fuel i j : ℕ) → i ≤ j → j < count_while fuel test i → test j ≡ true
  unfolding count_while
  count_while-ran zero i j p q = absurd (omega arith)
  count_while-ran (suc fuel) i j p q = elim (Bool-cases (test i)) [
    | inl on ↦ elim (le_cases i j p) [
      | inl later ↦ count_while-ran fuel (suc i) j later (ground arith)
      | inr same ↦ rw (sym same) on
    ]
    | inr off ↦ absurd (ground arith)
  ]
    where
      le_cases : (a b : ℕ) → a ≤ b → (a < b) ⊎ (a ≡ b)
      le_cases a b h = ground arith

  pub count_while-bound :
      (n fuel i : ℕ) → ((j : ℕ) → test j ≡ true → j < n) → i ≤ n → count_while fuel test i ≤ n
  unfolding count_while
  count_while-bound n zero i h p = p
  count_while-bound n (suc fuel) i h p = elim (Bool-cases (test i)) [
    | inl on ↦ rw on (count_while-bound n fuel (suc i) h (h i on))
    | inr off ↦ rw off p
  ]

  -- A loop that its test has ended takes no further round on more fuel.
  pub count_while-enough :
      (fuel extra i : ℕ)
      → ((j : ℕ) → i + fuel ≤ j → test j ≡ false)
      → count_while (fuel + extra) test i ≡ count_while fuel test i
  unfolding count_while
  count_while-enough zero zero i h = refl
  count_while-enough zero (suc extra) i h = rounds (omega arith) (rw (h i (omega arith)) refl)
    where
      rounds :
          {n : ℕ} → suc extra ≡ n → count_while (suc extra) test i ≡ i → count_while n test i ≡ i
      rounds e h = rw (sym e) h
  count_while-enough (suc fuel) extra i h = rounds (omega arith) (elim (Bool-cases (test i)) [
    | inl on ↦ rw on (count_while-enough fuel extra (suc i) (λ j p. h j (omega (arith, p))))
    | inr off ↦ rw off refl
  ])
    where
      rounds :
          {n : ℕ}
          → suc (fuel + extra) ≡ n
          → count_while (suc (fuel + extra)) test i ≡ count_while (suc fuel) test i
          → count_while n test i ≡ count_while (suc fuel) test i
      rounds e h = rw (sym e) h
