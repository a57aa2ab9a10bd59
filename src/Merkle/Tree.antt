-- ===== src/Merkle/Tree.antt =====
-- The fuel of `merkleRoot` does not matter once it covers the leaves, and the root of a tree is
-- the node over the roots of its two parts.
use cool_sdk.Prelude.{
  ℕ, zero, suc, ◌+◌, ◌≤◌, ◌<◌, ◌≡◌, refl, List, [], ◌∷◌, arith, length, take, drop, length-take,
  length-drop,
}
use cool_sdk.Codec.{Bytes}
use cool_sdk.Merkle.{largest_power_of_two_below, root_fuel, merkle_root, node_hash}
use cool_sdk.Merkle.Power.{max_leaves, pow2_pos, largest_power_of_two_below_splits, pow2}

-- Both parts of a split are shorter than the whole, and neither is empty.
pub split_lengths :
    (xs : List Bytes)
    → 2 ≤ length xs
    → length xs ≤ max_leaves
    → (a : ℕ) × (largest_power_of_two_below (length xs) ≡ pow2 a)
      × (length (take (pow2 a) xs) ≡ pow2 a)
      × (length (drop (pow2 a) xs) + pow2 a ≡ length xs)
      × (0 < length (drop (pow2 a) xs))
      × (length (drop (pow2 a) xs) ≤ pow2 a)
split_lengths xs h small =
    let (a, e, lt, le) = largest_power_of_two_below_splits (length xs) h small in
    (
      a,
      e,
      omega (arith, length-take (pow2 a) xs),
      omega (arith, length-drop (pow2 a) xs),
      omega (arith, length-drop (pow2 a) xs),
      omega (arith, length-drop (pow2 a) xs),
    )

module _ (sha256 : Bytes → Bytes) where
  root_fuel_irrelevant :
      (f g : ℕ) (xs : List Bytes)
      → length xs ≤ f
      → length xs ≤ g
      → length xs ≤ max_leaves
      → root_fuel sha256 f xs ≡ root_fuel sha256 g xs
  unfolding root_fuel
  root_fuel_irrelevant f g [] p q small = refl
  root_fuel_irrelevant f g (x ∷ []) p q small = refl
  root_fuel_irrelevant zero g (x ∷ y ∷ xs) p q small = absurd (omega arith)
  root_fuel_irrelevant (suc f) zero (x ∷ y ∷ xs) p q small = absurd (omega arith)
  root_fuel_irrelevant (suc f) (suc g) (x ∷ y ∷ xs) p q small =
      let (a, e, left, right, some_right, fits) = split_lengths (x ∷ y ∷ xs) (omega arith) small in
      let pos = pow2_pos a in
      rw e (
        rw
          (
            root_fuel_irrelevant f g (take (pow2 a) (x ∷ y ∷ xs)) (omega arith) (omega arith)
                (omega arith),
            root_fuel_irrelevant f g (drop (pow2 a) (x ∷ y ∷ xs)) (omega arith) (omega arith)
                (omega arith),
          )
          refl)

  -- The recursive equation of the Merkle tree hash.
  pub merkle_root_split :
      (xs : List Bytes)
      → 2 ≤ length xs
      → length xs ≤ max_leaves
      → merkle_root sha256 xs
        ≡ node_hash sha256
            (merkle_root sha256 (take (largest_power_of_two_below (length xs)) xs))
            (merkle_root sha256 (drop (largest_power_of_two_below (length xs)) xs))
  unfolding merkle_root root_fuel
  merkle_root_split [] h small = absurd (omega arith)
  merkle_root_split (x ∷ []) h small = absurd (omega arith)
  merkle_root_split (x ∷ y ∷ xs) h small =
      let (a, e, left, right, some_right, fits) = split_lengths (x ∷ y ∷ xs) h small in
      let pos = pow2_pos a in
      let lefts = take (pow2 a) (x ∷ y ∷ xs) in
      let rights = drop (pow2 a) (x ∷ y ∷ xs) in
      let n = suc (length xs) in
      rw e (
        rw
          (
            root_fuel_irrelevant n (length lefts) lefts (omega arith) (omega arith) (omega arith),
            root_fuel_irrelevant n (length rights) rights (omega arith) (omega arith) (omega arith),
          )
          refl)
