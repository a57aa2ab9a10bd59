-- ===== src/Merkle.antt =====
-- src/merkle.ts: RFC 6962 Merkle trees. SHA-256 is the library `@noble/hashes`, a parameter
-- here; a hash is the list of its bytes. `RangeError` is `none`.
pub mod Power
pub mod Tree
pub mod Climb
pub mod Complete
pub mod Sound
use Prim.Native.Nat.{bit_and}
use cool_sdk.Prelude.{
  ℕ, zero, suc, ◌+◌, ◌-◌, ◌*◌, ◌/◌, ◌%◌, ◌^◌, Bool, true, false, not, ◌&&◌, ◌||◌, Option, none,
  some, List, [], ◌∷◌, ◌++◌, ltb, leb, ◌==◌, if◌then◌else◌, length, take, drop,
}
use cool_sdk.Codec.{Bytes, concat_bytes, bytes_equal}

abbrev pub leaf_prefix : Bytes
leaf_prefix = 0 ∷ []

abbrev pub node_prefix : Bytes
node_prefix = 1 ∷ []

-- `k << 1` of an int32, as its bit pattern.
abbrev pub shl_1 : ℕ → ℕ
shl_1 k = k * 2 % 2 ^ 32

-- `x < n` for the int32 whose bit pattern is `x`: the upper half of the patterns is negative.
abbrev pub signed_lt : ℕ → ℕ → Bool
signed_lt x n = if leb (2 ^ 31) x then true else ltb x n

-- The loop of `largestPowerOfTwoBelow`, on fuel.
unfoldable pub double_while : ℕ → ℕ → ℕ → ℕ
double_while zero n k = k
double_while (suc fuel) n k =
    let more = double_while fuel n (shl_1 k) in if signed_lt (shl_1 k) n then more else k

-- Largest power of two strictly less than n. The fuel bounds the rounds: each adds at least one.
unfoldable pub largest_power_of_two_below : ℕ → ℕ
unfolding double_while
largest_power_of_two_below n = double_while n n 1

-- `while (fn % 2 === 0 && fn !== 0)`, on fuel: both indices are halved.
unfoldable pub ascend : ℕ → ℕ → ℕ → ℕ × ℕ
ascend zero fn sn = (fn, sn)
ascend (suc fuel) fn sn =
    let more = ascend fuel (fn / 2) (sn / 2) in
    if (fn % 2 == 0) && not (fn == 0) then more else (fn, sn)

-- The loop at the head of `verifyConsistency`: `while (fn % 2 === 1)`.
unfoldable pub ascend_odd : ℕ → ℕ → ℕ → ℕ × ℕ
ascend_odd zero fn sn = (fn, sn)
ascend_odd (suc fuel) fn sn =
    let more = ascend_odd fuel (fn / 2) (sn / 2) in if fn % 2 == 1 then more else (fn, sn)

-- The test `fn % 2 === 1 || fn === sn`.
abbrev pub is_right : ℕ → ℕ → Bool
is_right fn sn = (fn % 2 == 1) || (fn == sn)

-- The indices of the parent, after a right child has ascended.
unfoldable pub parent : ℕ → ℕ → ℕ × ℕ
unfolding ascend
parent fn sn =
    let (fn', sn') = if is_right fn sn && (fn % 2 == 0) then ascend fn fn sn else (fn, sn) in
    (fn' / 2, sn' / 2)

-- `(x & (x - 1)) === 0` for a positive x.
unfoldable pub is_power_of_two : ℕ → Bool
is_power_of_two x = ltb 0 x && (bit_and x (x - 1) == 0)

module _ (sha256 : Bytes → Bytes) where
  unfoldable pub leaf_hash : Bytes → Bytes
  unfolding concat_bytes
  leaf_hash bytes = sha256 (concat_bytes (leaf_prefix ∷ bytes ∷ []))

  unfoldable pub node_hash : Bytes → Bytes → Bytes
  unfolding concat_bytes
  node_hash left right = sha256 (concat_bytes (node_prefix ∷ left ∷ right ∷ []))

  -- `merkleRoot`, on fuel for its two calls on shorter lists.
  unfoldable pub root_fuel : ℕ → List Bytes → Bytes
  root_fuel fuel [] = sha256 []
  root_fuel fuel (x ∷ []) = x
  root_fuel zero (x ∷ y ∷ xs) = []
  root_fuel (suc fuel) (x ∷ y ∷ xs) =
      let k = largest_power_of_two_below (length (x ∷ y ∷ xs)) in
      node_hash (root_fuel fuel (take k (x ∷ y ∷ xs))) (root_fuel fuel (drop k (x ∷ y ∷ xs)))

  unfoldable pub merkle_root : List Bytes → Bytes
  unfolding root_fuel
  merkle_root hashes = root_fuel (length hashes) hashes

  abbrev pub append_to : Bytes → Option (List Bytes) → Option (List Bytes)
  append_to h none = none
  append_to h (some path) = some (path ++ h ∷ [])

  -- `inclusionProof`, on fuel; an index out of range is an error at every level.
  unfoldable pub proof_fuel : ℕ → List Bytes → ℕ → Option (List Bytes)
  proof_fuel zero hashes m = none
  proof_fuel (suc fuel) hashes m =
      let n = length hashes in
      let k = largest_power_of_two_below n in
      let in_left = append_to (merkle_root (drop k hashes)) (proof_fuel fuel (take k hashes) m) in
      let in_right =
        append_to (merkle_root (take k hashes)) (proof_fuel fuel (drop k hashes) (m - k)) in
      if leb n m then none else if n == 1 then some [] else if ltb m k then in_left else in_right

  unfoldable pub inclusion_proof : List Bytes → ℕ → Option (List Bytes)
  unfolding proof_fuel
  inclusion_proof hashes m = proof_fuel (suc (length hashes)) hashes m

  -- The loop of `rootFromInclusionProof` over the audit path: the last index left, and the hash.
  unfoldable pub climb : ℕ → ℕ → Bytes → List Bytes → Option (ℕ × Bytes)
  climb fn sn hash [] = some (sn, hash)
  climb fn sn hash (sibling ∷ path) =
      let rest =
        climb (parent fn sn).0 (parent fn sn).1
          (if is_right fn sn then node_hash sibling hash else node_hash hash sibling) path in
      if sn == 0 then none else rest

  abbrev pub at_root : Option (ℕ × Bytes) → Option Bytes
  at_root none = none
  at_root (some (sn, hash)) = if sn == 0 then some hash else none

  unfoldable pub root_from_inclusion_proof : Bytes → ℕ → ℕ → List Bytes → Option Bytes
  unfolding climb
  root_from_inclusion_proof leaf_hash_value leaf_index tree_size audit_path =
      if leb tree_size leaf_index
      then none
      else at_root (climb leaf_index (tree_size - 1) leaf_hash_value audit_path)

  abbrev pub is_root : Bytes → Option Bytes → Bool
  is_root expected_root none = false
  is_root expected_root (some computed) = bytes_equal computed expected_root

  unfoldable pub verify_inclusion : Bytes → ℕ → ℕ → List Bytes → Bytes → Bool
  unfolding root_from_inclusion_proof
  verify_inclusion leaf_hash_value leaf_index tree_size audit_path expected_root =
      is_root expected_root
        (root_from_inclusion_proof leaf_hash_value leaf_index tree_size audit_path)

  -- `subproof`, on fuel.
  unfoldable pub subproof : ℕ → ℕ → List Bytes → Bool → List Bytes
  subproof zero m hashes b = []
  subproof (suc fuel) m hashes b =
      let n = length hashes in
      let k = largest_power_of_two_below n in
      let in_left = subproof fuel m (take k hashes) b ++ merkle_root (drop k hashes) ∷ [] in
      let in_right =
        subproof fuel (m - k) (drop k hashes) false ++ merkle_root (take k hashes) ∷ [] in
      if m == n
      then if b then [] else merkle_root hashes ∷ []
      else if leb m k
      then in_left
      else in_right

  unfoldable pub consistency_proof : List Bytes → ℕ → Option (List Bytes)
  unfolding subproof
  consistency_proof hashes m =
      let n = length hashes in
      if ltb n m
      then none
      else if (m == 0) || (m == n)
      then some []
      else some (subproof (suc n) m hashes true)

  -- The last loop of `verifyConsistency`: the rest of the path, and both roots. `none` is the
  -- path that ends before the loop does. A round reads one element of the path, so the path is
  -- what the recursion is on.
  unfoldable pub climb_both :
      ℕ → ℕ → Bytes → Bytes → List Bytes → Option (List Bytes × Bytes × Bytes)
  climb_both fn sn fr sr [] = if sn == 0 then some ([], fr, sr) else none
  climb_both fn sn fr sr (c ∷ path) =
      let rest =
        climb_both (parent fn sn).0 (parent fn sn).1 (if is_right fn sn then node_hash c fr else fr)
          (if is_right fn sn then node_hash c sr else node_hash sr c) path in
      if sn == 0 then some (c ∷ path, fr, sr) else rest

  abbrev pub both_roots : Bytes → Bytes → Option (List Bytes × Bytes × Bytes) → Bool
  both_roots first_root second_root none = false
  both_roots first_root second_root (some ([], fr, sr)) =
      bytes_equal fr first_root && bytes_equal sr second_root
  both_roots first_root second_root (some (c ∷ path, fr, sr)) = false

  abbrev pub climb_path : ℕ → ℕ → Bytes → Bytes → List Bytes → Bool
  climb_path fn sn first_root second_root [] = false
  climb_path fn sn first_root second_root (c ∷ path) =
      both_roots first_root second_root (climb_both fn sn c c path)

  unfoldable pub verify_consistency : ℕ → ℕ → Bytes → Bytes → List Bytes → Bool
  unfolding climb_both
  verify_consistency m n first_root second_root proof =
      if m == 0
      then true
      else if m == n
      then (length proof == 0) && bytes_equal first_root second_root
      else if ltb n m
      then false
      else (let path = if is_power_of_two m then first_root ∷ proof else proof in
          let (fn, sn) = ascend_odd (m - 1) (m - 1) (n - 1) in
          climb_path fn sn first_root second_root path)
