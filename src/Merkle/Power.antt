-- ===== src/Merkle/Power.antt =====
-- The split point of a tree is a power of two, and the loops that find it and that ascend end.
use cool_sdk.Prelude.{ℕ, zero, suc, ◌+◌, ◌^◌, ◌≤◌, ◌<◌, ◌≡◌, refl, arith, Bool-cases, inl, inr}
use cool_sdk.Merkle.{shl_1, signed_lt, double_while, largest_power_of_two_below}

abbrev pub pow2 : ℕ → ℕ
pow2 zero = 1
pow2 (suc a) = pow2 a + pow2 a

pub pow2_pos : (a : ℕ) → 0 < pow2 a
pow2_pos zero = omega arith
pow2_pos (suc a) = omega (arith, pow2_pos a)

-- Beyond this size the shift of the loop leaves the positive int32 range.
abbrev pub max_leaves : ℕ
max_leaves = 2 ^ 30

shift_in_range : (k : ℕ) → k < max_leaves → shl_1 k ≡ k + k
shift_in_range k h = omega arith

-- Below the limit the loop ends by its test, at a power of two that splits n.
double_while-splits :
    (fuel n a : ℕ)
    → n ≤ max_leaves
    → pow2 a < n
    → n ≤ fuel + pow2 a
    → (b : ℕ) × (double_while fuel n (pow2 a) ≡ pow2 b) × (pow2 b < n) × (n ≤ pow2 (suc b))
unfolding double_while
double_while-splits zero n a small h f = absurd (omega arith)
double_while-splits (suc fuel) n a small h f =
    let e = shift_in_range (pow2 a) (omega arith) in
    elim (Bool-cases (signed_lt (pow2 a + pow2 a) n)) [
      | inl more ↦
          rw (e, more)
            (double_while-splits fuel n (suc a) small (ground arith) (omega (arith, pow2_pos a)))
      | inr done ↦ (a, rw (e, done) refl, h, ground arith)
    ]

pub largest_power_of_two_below_splits :
    (n : ℕ)
    → 2 ≤ n
    → n ≤ max_leaves
    → (a : ℕ) × (largest_power_of_two_below n ≡ pow2 a) × (pow2 a < n) × (n ≤ pow2 (suc a))
unfolding largest_power_of_two_below
largest_power_of_two_below_splits n h small =
    double_while-splits n n 0 small (omega arith) (omega arith)
