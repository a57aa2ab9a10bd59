-- ===== src/Codec/Equal.antt =====
-- `bytesEqual` decides equality.
use Prim.Native.Nat.{bit_or, bit_xor}
use cool_sdk.Prelude.{
  ℕ, ◌≡◌, refl, true, ◌↔◌, [], ◌∷◌, arith, length, ◌==◌, ==_iff, if◌then◌else◌, Bool-cases, inl,
  inr, false,
}
use cool_sdk.Prelude.Bits.{bit_or_zero, bit_xor_zero, bit_xor_self}
use cool_sdk.Codec.{Bytes, diff_from, bytes_equal}

-- The accumulated difference is zero only if it was zero and the arrays agree.
diff_from-zero :
    (diff : ℕ) (a b : Bytes) → length a ≡ length b → diff_from diff a b ≡ 0 → (diff ≡ 0) × (a ≡ b)
unfolding diff_from
diff_from-zero diff [] [] l e = (e, refl)
diff_from-zero diff [] (y ∷ b) l e = absurd (omega arith)
diff_from-zero diff (x ∷ a) [] l e = absurd (omega arith)
diff_from-zero diff (x ∷ a) (y ∷ b) l e =
    let (z, same) = diff_from-zero (bit_or diff (bit_xor x y)) a b (omega arith) e in
    let (d, w) = bit_or_zero diff (bit_xor x y) z in (d, cc (bit_xor_zero x y w, same))

bit_or_zero_zero : bit_or 0 0 ≡ 0
bit_or_zero_zero = refl

diff_from_self : (a : Bytes) → diff_from 0 a a ≡ 0
unfolding diff_from
diff_from_self [] = refl
diff_from_self (x ∷ a) = rw (bit_xor_self x) (diff_from_self a)

-- The comparison answers true exactly for equal arrays.
pub bytes_equal_iff : (a b : Bytes) → (bytes_equal a b ≡ true) ↔ (a ≡ b)
unfolding bytes_equal
bytes_equal_iff a b = (to, λ e. rw e from)
  where
    to : (if length a == length b then diff_from 0 a b == 0 else false) ≡ true → a ≡ b
    to h = elim (Bool-cases (length a == length b)) [
      | inl l ↦
          (diff_from-zero 0 a b ((==_iff _ _).0 l) ((==_iff (diff_from 0 a b) 0).0 (rw l at h))).1
      | inr l ↦ cc
    ]

    from : (if length b == length b then diff_from 0 b b == 0 else false) ≡ true
    from = rw ((==_iff (length b) (length b)).1 refl) (rw diff_from_self refl)
