-- ===== src/Merkle/Complete.antt =====
-- The audit path that `inclusionProof` makes is accepted by `verifyInclusion`.
use cool_sdk.Prelude.{
  ℕ, zero, suc, ◌+◌, ◌-◌, ◌≤◌, ◌<◌, ◌≡◌, refl, ap, sym, ◌∙◌, ap₂, true, false, some, List, [], ◌∷◌,
  ◌++◌, arith, length, take, drop, get_elem?, get_elem?-take, get_elem?-drop, ltb, leb, Bool-cases,
  inl, inr, ltb→lt,
}
use cool_sdk.Codec.{Bytes}
use cool_sdk.Codec.Equal.{bytes_equal_iff}
use cool_sdk.Merkle.{
  merkle_root, node_hash, proof_fuel, inclusion_proof, climb, root_from_inclusion_proof,
  verify_inclusion, largest_power_of_two_below,
}
use cool_sdk.Merkle.Power.{pow2, pow2_pos, max_leaves}
use cool_sdk.Merkle.Tree.{split_lengths, merkle_root_split}
use cool_sdk.Merkle.Climb.{climb_left, climb_right, climb_root_left, climb_root_right}

pub get_elem?-lt {ℓ} :
    {A : Type ℓ} (xs : List A) (i : ℕ) (a : A) → get_elem? xs i ≡ some a → i < length xs
get_elem?-lt [] i a e = absurd (cc)
get_elem?-lt (x ∷ xs) zero a e = omega arith
get_elem?-lt (x ∷ xs) (suc i) a e = omega (arith, get_elem?-lt xs i a e)

module _ (sha256 : Bytes → Bytes) where
  -- What a proof for leaf m of the list is: `inclusionProof` returns it, and climbing it from
  -- the leaf comes out at the root.
  abbrev pub Proves : ℕ → List Bytes → ℕ → Bytes → List Bytes → Type 0
  Proves fuel xs m leaf path =
      (proof_fuel sha256 fuel xs m ≡ some path)
      × (climb sha256 m (length xs - 1) leaf path ≡ some (0, merkle_root sha256 xs))

  -- One level of the proof, in either part.
  proof_left :
      (fuel : ℕ) (xs : List Bytes) (m k : ℕ) (path : List Bytes)
      → largest_power_of_two_below (length xs) ≡ k
      → m < length xs
      → 2 ≤ length xs
      → m < k
      → proof_fuel sha256 fuel (take k xs) m ≡ some path
      → proof_fuel sha256 (suc fuel) xs m ≡ some (path ++ merkle_root sha256 (drop k xs) ∷ [])
  unfolding proof_fuel
  proof_left fuel xs m k path e lt two left p = rw e (rw p (ground arith))

  proof_right :
      (fuel : ℕ) (xs : List Bytes) (m k : ℕ) (path : List Bytes)
      → largest_power_of_two_below (length xs) ≡ k
      → m < length xs
      → 2 ≤ length xs
      → k ≤ m
      → proof_fuel sha256 fuel (drop k xs) (m - k) ≡ some path
      → proof_fuel sha256 (suc fuel) xs m ≡ some (path ++ merkle_root sha256 (take k xs) ∷ [])
  unfolding proof_fuel
  proof_right fuel xs m k path e lt two right p = rw e (rw p (ground arith))

  proof_one : (fuel : ℕ) (x : Bytes) → Proves (suc fuel) (x ∷ []) 0 x []
  unfolding proof_fuel climb merkle_root
  proof_one fuel x = (refl, refl)

  root_split :
      (xs : List Bytes) (k : ℕ)
      → largest_power_of_two_below (length xs) ≡ k
      → 2 ≤ length xs
      → length xs ≤ max_leaves
      → node_hash sha256 (merkle_root sha256 (take k xs)) (merkle_root sha256 (drop k xs))
        ≡ merkle_root sha256 xs
  root_split xs k e two small = rw (← e) (sym (merkle_root_split sha256 xs two small))

  pub proof_of_each :
      (fuel : ℕ) (xs : List Bytes) (m : ℕ) (leaf : Bytes)
      → length xs ≤ fuel
      → length xs ≤ max_leaves
      → get_elem? xs m ≡ some leaf
      → (path : List Bytes) × Proves fuel xs m leaf path
  proof_of_each fuel [] m leaf f small e = cc
  proof_of_each zero (x ∷ xs) m leaf f small e = absurd (omega arith)
  proof_of_each (suc fuel) (x ∷ []) zero leaf f small e =
      let same : x ≡ leaf = cc in rw (← same) ([], proof_one fuel x)
  proof_of_each (suc fuel) (x ∷ []) (suc m) leaf f small e = cc
  proof_of_each (suc fuel) (x ∷ y ∷ ys) m leaf f small e =
      let xs = x ∷ y ∷ ys in
      let (a, k, left, right, some_right, fits) = split_lengths xs (omega arith) small in
      let pos = pow2_pos a in
      let lt = get_elem?-lt xs m leaf e in
      elim (Bool-cases (ltb m (pow2 a))) [
        | inl l ↦
            let here = ltb→lt m (pow2 a) l in
            let (path, proved) =
              proof_of_each fuel (take (pow2 a) xs) m leaf (omega arith) (omega arith)
                (get_elem?-take (pow2 a) xs m here ∙ e) in
            (
              path ++ merkle_root sha256 (drop (pow2 a) xs) ∷ [],
              (
                proof_left fuel xs m (pow2 a) path k lt (omega arith) here proved.0,
                climb_left sha256 a m (length xs - 1) leaf (merkle_root sha256 (take (pow2 a) xs))
                      path (merkle_root sha256 (drop (pow2 a) xs) ∷ []) here (omega arith)
                      (omega arith) (rw left at (proved.1))
                    ∙ climb_root_left sha256 _ _
                    ∙ ap (λ r. some (0, r)) (root_split xs (pow2 a) k (omega arith) small),
              ),
            )
        | inr r ↦
            let there : pow2 a ≤ m = ground arith in
            let (path, proved) =
              proof_of_each fuel (drop (pow2 a) xs) (m - pow2 a) leaf (omega arith) (omega arith)
                (get_elem?-drop (pow2 a) xs m there ∙ e) in
            let (d, same) =
              climb_right sha256 path a (m - pow2 a) (length (drop (pow2 a) xs) - 1) leaf
                (merkle_root sha256 (drop (pow2 a) xs)) (merkle_root sha256 (take (pow2 a) xs) ∷ [])
                (omega arith) (omega arith) (proved.1) in
            let i : m - pow2 a + pow2 a ≡ m = omega arith in
            let j : length (drop (pow2 a) xs) - 1 + pow2 a ≡ length xs - 1 = omega arith in
            (
              path ++ merkle_root sha256 (take (pow2 a) xs) ∷ [],
              (
                proof_right fuel xs m (pow2 a) path k lt (omega arith) there proved.0,
                ap₂
                      (λ p q.
                        climb sha256 p q leaf (path ++ merkle_root sha256 (take (pow2 a) xs) ∷ []))
                      (sym i) (sym j)
                    ∙ same
                    ∙ climb_root_right sha256 d _ _
                    ∙ ap (λ r. some (0, r)) (root_split xs (pow2 a) k (omega arith) small),
              ),
            )
      ]

  accepted :
      (leaf : Bytes) (m n : ℕ) (path : List Bytes) (root : Bytes)
      → m < n
      → climb sha256 m (n - 1) leaf path ≡ some (0, root)
      → verify_inclusion sha256 leaf m n path root ≡ true
  unfolding verify_inclusion root_from_inclusion_proof
  accepted leaf m n path root lt e =
      let inside : leb n m ≡ false = ground arith in
      rw (inside, e) ((bytes_equal_iff root root).1 refl)

  -- For every leaf of a tree of at most 2^30 leaves `inclusionProof` returns a path, and
  -- `verifyInclusion` accepts it for that leaf, its index, the size and the root.
  pub verify_inclusion-inclusion_proof :
      (hashes : List Bytes) (m : ℕ) (leaf : Bytes)
      → length hashes ≤ max_leaves
      → get_elem? hashes m ≡ some leaf
      → (path : List Bytes) × (inclusion_proof sha256 hashes m ≡ some path)
        × (verify_inclusion sha256 leaf m (length hashes) path (merkle_root sha256 hashes) ≡ true)
  unfolding inclusion_proof
  verify_inclusion-inclusion_proof hashes m leaf small e =
      let (path, proved) =
        proof_of_each (suc (length hashes)) hashes m leaf (omega arith) small e in
      (
        path,
        proved.0,
        accepted leaf m (length hashes) path (merkle_root sha256 hashes)
            (get_elem?-lt hashes m leaf e) (proved.1),
      )
