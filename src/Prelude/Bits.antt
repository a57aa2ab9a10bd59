-- ===== src/Prelude/Bits.antt =====
-- When `bit_or` and `bit_xor` are zero, at every width. The native operations are recursions on
-- binary digits whose fuel is their first number; each lemma goes along that recursion.
use Prim.Native.Nat.{
  ℕ, zero, suc, ◌/◌, ◌%◌, ◌≤◌, max, bit_or, bit_xor, digits, differ, bit_or-bitwise,
  bit_xor-bitwise,
}
use native.Mathlib.Nat.{le_refl}
use mathlib.Core.Path.{◌≡◌, refl, sym, ◌∙◌}
use native.Mathlib.Omega.{arith}

abbrev or_digits : ℕ → ℕ → ℕ → ℕ
or_digits = digits (λ rest. rest) max

abbrev xor_digits : ℕ → ℕ → ℕ → ℕ
xor_digits = digits (λ rest. rest) differ

no_digit_set : (fuel x y : ℕ) → x ≤ fuel → or_digits fuel x y ≡ 0 → (x ≡ 0) × (y ≡ 0)
no_digit_set zero zero y enough e = (refl, e)
no_digit_set (suc fuel) zero y enough e = (refl, e)
no_digit_set (suc fuel) (suc x) y enough e =
    let (high, low) = no_digit_set fuel (suc x / 2) (y / 2) (omega arith) (omega (arith, e)) in
    omega (arith, high, low, e)
no_digit_set zero (suc x) y enough e = absurd (omega arith)

one_digit_differs : (x y : ℕ) → x ≤ 1 → y ≤ 1 → differ x y ≡ 0 → x ≡ y
one_digit_differs (suc x) (suc y) p q e = omega arith
one_digit_differs (suc x) zero p q e = omega arith
one_digit_differs zero y p q e = omega arith

one_digit_same : (x : ℕ) → differ x x ≡ 0
one_digit_same (suc x) = one_digit_same x
one_digit_same zero = refl

no_digit_differs : (fuel x y : ℕ) → x ≤ fuel → xor_digits fuel x y ≡ 0 → x ≡ y
no_digit_differs zero zero y enough e = sym e
no_digit_differs (suc fuel) zero y enough e = sym e
no_digit_differs (suc fuel) (suc x) y enough e =
    let high = no_digit_differs fuel (suc x / 2) (y / 2) (omega arith) (omega (arith, e)) in
    let low =
      one_digit_differs (suc x % 2) (y % 2) (omega arith) (omega arith) (omega (arith, e)) in
    omega (arith, high, low)
no_digit_differs zero (suc x) y enough e = absurd (omega arith)

every_digit_same : (fuel x : ℕ) → x ≤ fuel → xor_digits fuel x x ≡ 0
every_digit_same zero zero enough = refl
every_digit_same (suc fuel) zero enough = refl
every_digit_same (suc fuel) (suc x) enough =
    omega (arith, every_digit_same fuel (suc x / 2) (omega arith), one_digit_same (suc x % 2))
every_digit_same zero (suc x) enough = absurd (omega arith)

pub bit_or_zero : (a b : ℕ) → bit_or a b ≡ 0 → (a ≡ 0) × (b ≡ 0)
bit_or_zero a b e = no_digit_set a a b (le_refl _) (sym (bit_or-bitwise a b) ∙ e)

pub bit_xor_zero : (a b : ℕ) → bit_xor a b ≡ 0 → a ≡ b
bit_xor_zero a b e = no_digit_differs a a b (le_refl _) (sym (bit_xor-bitwise a b) ∙ e)

pub bit_xor_self : (a : ℕ) → bit_xor a a ≡ 0
bit_xor_self a = bit_xor-bitwise a a ∙ every_digit_same a a (le_refl _)
