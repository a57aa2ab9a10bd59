-- ===== src/Merkle/Sound.antt =====
-- What `verifyInclusion` accepts is in the tree, or two inputs of SHA-256 with one digest are
-- at hand.
use cool_sdk.Prelude.{
  ℕ, zero, suc, ◌-◌, ◌≤◌, ◌<◌, ◌≡◌, ◌≢◌, refl, ap, sym, ◌∙◌, true, false, some, List, [], ◌∷◌, ◌++◌,
  arith, length, get_elem?, leb, if◌then◌else◌, Bool-cases, Bool, inl, inr, ◌⊎◌, length-append,
  append-nil, All, Option-cases,
}
use cool_sdk.Codec.{Bytes, concat_bytes, bytes_equal}
use cool_sdk.Codec.Equal.{bytes_equal_iff}
use cool_sdk.Merkle.{
  merkle_root, node_hash, climb, parent, is_right, root_from_inclusion_proof, verify_inclusion,
  inclusion_proof,
}
use cool_sdk.Merkle.Power.{max_leaves}
use cool_sdk.Merkle.Complete.{proof_of_each}

-- Two different inputs with one digest.
pub record Collision (sha256 : Bytes → Bytes) : Type 0 where
  pub first : Bytes
  pub second : Bytes
  pub differ : first ≢ second
  pub same : sha256 first ≡ sha256 second

append_injective : (a b c d : Bytes) → length a ≡ length b → a ++ c ≡ b ++ d → (a ≡ b) × (c ≡ d)
append_injective [] [] c d l e = (refl, e)
append_injective [] (y ∷ b) c d l e = absurd (omega arith)
append_injective (x ∷ a) [] c d l e = absurd (omega arith)
append_injective (x ∷ a) (y ∷ b) c d l e =
    let (same, rest) = append_injective a b c d (omega arith) (cc) in (cc, rest)

module _ (sha256 : Bytes → Bytes) where
  pub equal_inputs : (a b : Bytes) → sha256 a ≡ sha256 b → Collision sha256 ⊎ (a ≡ b)
  equal_inputs a b e = elim (Bool-cases (bytes_equal a b)) [
    | inl same ↦ inr ((bytes_equal_iff a b).0 same)
    | inr other ↦
        inl
          (record { first = a; second = b; differ = λ q. cc ((bytes_equal_iff a b).1 q); same = e })
  ]

  node_input :
      (l r l' r' : Bytes)
      → concat_bytes ((1 ∷ []) ∷ l ∷ r ∷ []) ≡ concat_bytes ((1 ∷ []) ∷ l' ∷ r' ∷ [])
      → l ++ r ≡ l' ++ r'
  unfolding concat_bytes
  node_input l r l' r' e =
      let t = (append_injective (1 ∷ []) (1 ∷ []) (l ++ (r ++ [])) (l' ++ (r' ++ [])) refl e).1 in
      simp append-nil at t

  -- Two nodes of one hash whose left parts have one length are the same node.
  node_left :
      (l r l' r' : Bytes)
      → length l ≡ length l'
      → node_hash sha256 l r ≡ node_hash sha256 l' r'
      → Collision sha256 ⊎ ((l ≡ l') × (r ≡ r'))
  unfolding node_hash
  node_left l r l' r' n e = elim (equal_inputs _ _ e) [
    | inl c ↦ inl c
    | inr same ↦ inr (append_injective l l' r r' n (node_input l r l' r' same))
  ]

  node_right :
      (l r l' r' : Bytes)
      → length r ≡ length r'
      → node_hash sha256 l r ≡ node_hash sha256 l' r'
      → Collision sha256 ⊎ ((l ≡ l') × (r ≡ r'))
  unfolding node_hash
  node_right l r l' r' n e = elim (equal_inputs _ _ e) [
    | inl c ↦ inl c
    | inr same ↦
        let whole = node_input l r l' r' same in
        inr (
          append_injective l l' r r'
            (omega (arith, length-append l r, length-append l' r', ap length whole, n)) whole)
  ]

  step_hash : Bool → Bytes → Bytes → Bytes
  step_hash right s h = if right then node_hash sha256 s h else node_hash sha256 h s

  step_hash_injective :
      (right : Bool) (s h s' h' : Bytes)
      → length h ≡ length h'
      → step_hash right s h ≡ step_hash right s' h'
      → Collision sha256 ⊎ ((s ≡ s') × (h ≡ h'))
  unfolding step_hash
  step_hash_injective true s h s' h' n e = node_right s h s' h' n e
  step_hash_injective false s h s' h' n e = elim (node_left h s h' s' n e) [
    | inl c ↦ inl c
    | inr (p, q) ↦ inr (q, p)
  ]

  climb_cons :
      (fn sn : ℕ) (h s r : Bytes) (path : List Bytes)
      → climb sha256 fn sn h (s ∷ path) ≡ some (0, r)
      → (0 < sn)
        × (climb sha256 (parent fn sn).0 (parent fn sn).1 (step_hash (is_right fn sn) s h) path
            ≡ some (0, r))
  unfolding climb step_hash
  climb_cons fn sn h s r path e = ground arith

  climb_nil : (fn sn : ℕ) (h r : Bytes) → climb sha256 fn sn h [] ≡ some (0, r) → (sn ≡ 0) × (h ≡ r)
  unfolding climb
  climb_nil fn sn h r e = ground arith

  module _ (digest_length : (x : Bytes) → length (sha256 x) ≡ 32) where
    length-step_hash : (right : Bool) (s h : Bytes) → length (step_hash right s h) ≡ 32
    unfolding step_hash node_hash
    length-step_hash true s h = digest_length _
    length-step_hash false s h = digest_length _

    -- For one index and size a root has one leaf and one path, or there is a collision.
    climb_unique :
        (fn sn : ℕ) (h h' r : Bytes) (path path' : List Bytes)
        → length h ≡ length h'
        → climb sha256 fn sn h path ≡ some (0, r)
        → climb sha256 fn sn h' path' ≡ some (0, r)
        → Collision sha256 ⊎ ((h ≡ h') × (path ≡ path'))
    climb_unique fn sn h h' r [] [] n e e' =
        let (_, p) = climb_nil fn sn h r e in
        let (_, q) = climb_nil fn sn h' r e' in inr (p ∙ sym q, refl)
    climb_unique fn sn h h' r [] (s' ∷ path') n e e' =
        let (z, p) = climb_nil fn sn h r e in
        let (lt, q) = climb_cons fn sn h' s' r path' e' in absurd (omega arith)
    climb_unique fn sn h h' r (s ∷ path) [] n e e' =
        let (z, p) = climb_nil fn sn h' r e' in
        let (lt, q) = climb_cons fn sn h s r path e in absurd (omega arith)
    climb_unique fn sn h h' r (s ∷ path) (s' ∷ path') n e e' =
        let right = is_right fn sn in
        elim (climb_unique (parent fn sn).0 (parent fn sn).1 (step_hash right s h)
          (step_hash right s' h') r path path'
          (length-step_hash right s h ∙ sym (length-step_hash right s' h'))
          (climb_cons fn sn h s r path e).1 (climb_cons fn sn h' s' r path' e').1) [
            | inl c ↦ inl c
            | inr (same, paths) ↦ elim (step_hash_injective right s h s' h' n same) [
              | inl c ↦ inl c
              | inr (ss, hs) ↦ inr (hs, cc)
            ]
          ]

    accepted_climb :
        (leaf : Bytes) (m n : ℕ) (path : List Bytes) (root : Bytes)
        → verify_inclusion sha256 leaf m n path root ≡ true
        → (m < n) × (climb sha256 m (n - 1) leaf path ≡ some (0, root))
    unfolding verify_inclusion root_from_inclusion_proof
    accepted_climb leaf m n path root e = elim (Bool-cases (leb n m)) [
      | inl out ↦ absurd (ground arith)
      | inr inside ↦ elim (Option-cases (climb sha256 m (n - 1) leaf path)) [
        | inl failed ↦ absurd (ground arith)
        | inr ((sn, r), done) ↦
            let zero_left : sn ≡ 0 = ground arith in
            let test : bytes_equal r root ≡ true = ground arith in
            let same = (bytes_equal_iff r root).0 test in (ground arith, rw done (cc))
      ]
    ]

    All-get :
        (P : Bytes → Type 0) (xs : List Bytes) (i : ℕ) (a : Bytes)
        → All P xs
        → get_elem? xs i ≡ some a
        → P a
    All-get P [] i a h e = absurd (cc)
    All-get P (x ∷ xs) zero a (p, h) e = let same : x ≡ a = cc in rw (← same) p
    All-get P (x ∷ xs) (suc i) a (p, h) e = All-get P xs i a h e

    get_elem?-total :
        (xs : List Bytes) (i : ℕ) → i < length xs → (a : Bytes) × (get_elem? xs i ≡ some a)
    get_elem?-total [] i h = absurd (omega arith)
    get_elem?-total (x ∷ xs) zero h = (x, refl)
    get_elem?-total (x ∷ xs) (suc i) h = get_elem?-total xs i (omega arith)

    -- SHA-256 gives 32 bytes. If `verifyInclusion` accepts a path for a 32-byte leaf hash under the
    -- root of at most 2^30 leaf hashes of 32 bytes, at their number as size, then the leaf stands
    -- at that index and the path is that of `inclusionProof`, or two different inputs of SHA-256
    -- with one digest are at hand.
    pub verify_inclusion_sound :
        (hashes : List Bytes) (m : ℕ) (leaf : Bytes) (path : List Bytes)
        → length hashes ≤ max_leaves
        → All (λ h. length h ≡ 32) hashes
        → length leaf ≡ 32
        → verify_inclusion sha256 leaf m (length hashes) path (merkle_root sha256 hashes) ≡ true
        → Collision sha256
          ⊎ ((get_elem? hashes m ≡ some leaf) × (inclusion_proof sha256 hashes m ≡ some path))
    unfolding inclusion_proof
    verify_inclusion_sound hashes m leaf path small sizes size e =
        let n = length hashes in
        let (lt, climbed) = accepted_climb leaf m n path (merkle_root sha256 hashes) e in
        let (real, at) = get_elem?-total hashes m lt in
        let (real_path, proved) =
          proof_of_each sha256 (suc n) hashes m real (omega arith) small at in
        elim (climb_unique m (n - 1) leaf real (merkle_root sha256 hashes) path real_path
          (size ∙ sym (All-get (λ h. length h ≡ 32) hashes m real sizes at)) climbed (proved.1)) [
            | inl c ↦ inl c
            | inr (same, paths) ↦ inr (rw same at, rw paths (proved.0))
          ]
