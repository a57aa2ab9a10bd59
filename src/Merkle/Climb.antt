-- ===== src/Merkle/Climb.antt =====
-- How the loop of `rootFromInclusionProof` runs over the audit path of a part of the tree, when
-- the indices are those of the whole tree.
use cool_sdk.Prelude.{
  ℕ, zero, suc, ◌+◌, ◌-◌, ◌/◌, ◌%◌, ◌≤◌, ◌<◌, ◌≡◌, refl, ap, sym, ◌∙◌, inl, inr, true, some, none,
  List, [], ◌∷◌, ◌++◌, arith, ◌==◌, if◌then◌else◌, Bool-cases, ◌&&◌,
}
use cool_sdk.Codec.{Bytes}
use cool_sdk.Merkle.{ascend, parent, is_right, node_hash, climb}
use cool_sdk.Merkle.Power.{pow2, pow2_pos}

-- An index that is odd, or that is not the last of its level, has the halved index as parent.
parent_plain : (fn sn : ℕ) → (fn ≡ sn → fn % 2 ≡ 1) → parent fn sn ≡ (fn / 2, sn / 2)
unfolding parent
parent_plain fn sn h = ground arith

parent_last :
    (fn : ℕ) → fn % 2 ≡ 0 → (u v : ℕ) → ascend fn fn fn ≡ (u, v) → parent fn fn ≡ (u / 2, v / 2)
unfolding parent
parent_last fn h u v e = ground arith

-- The ascent of a last index ends at an odd one; with a higher bit added it ends at the same one
-- with a higher bit.
ascend_lifted :
    (f g c fn : ℕ)
    → 0 < fn
    → fn ≤ f
    → fn + pow2 c ≤ g
    → fn < pow2 c
    → (u e : ℕ) × (ascend f fn fn ≡ (u, u))
      × (ascend g (fn + pow2 c) (fn + pow2 c) ≡ (u + pow2 (suc e), u + pow2 (suc e)))
      × (u % 2 ≡ 1)
      × (u < pow2 (suc e))
unfolding ascend
ascend_lifted zero g c fn pos p q lt = absurd (omega arith)
ascend_lifted (suc f) zero c fn pos p q lt = absurd (omega arith)
ascend_lifted (suc f) (suc g) zero fn pos p q lt = absurd (omega arith)
ascend_lifted (suc f) (suc g) (suc c) fn pos p q lt = elim (Bool-cases (fn % 2 == 0)) [
  | inl even ↦
      let half : (fn + pow2 (suc c)) / 2 ≡ fn / 2 + pow2 c = omega arith in
      let (u, e, inner, outer, odd, small) =
        ascend_lifted f g c (fn / 2) (ground arith) (omega arith) (omega arith) (omega arith) in
      (u, e, ground arith, ground arith, odd, small)
  | inr odd ↦ (fn, c, ground arith, ground arith, ground arith, lt)
]

ascend_power : (g d : ℕ) → pow2 d ≤ g → ascend g (pow2 d) (pow2 d) ≡ (1, 1)
unfolding ascend
ascend_power zero d h = absurd (omega (arith, pow2_pos d))
ascend_power (suc g) zero h = refl
ascend_power (suc g) (suc d) h =
    let half : (pow2 d + pow2 d) / 2 ≡ pow2 d = omega arith in
    ground (arith, ascend_power g d (omega (arith, pow2_pos d)), pow2_pos d)

module _ (sha256 : Bytes → Bytes) where
  -- One round at an inner level.
  climb_plain :
      (fn sn : ℕ) (h s : Bytes) (path : List Bytes)
      → 0 < sn
      → (fn ≡ sn → fn % 2 ≡ 1)
      → climb sha256 fn sn h (s ∷ path)
        ≡ climb sha256
            (fn / 2)
            (sn / 2)
            (if fn % 2 == 1 then node_hash sha256 s h else node_hash sha256 h s)
            path
  unfolding climb
  climb_plain fn sn h s path pos odd =
      let e = parent_plain fn sn odd in
      let side : is_right fn sn ≡ (fn % 2 == 1) = ground arith in rw (e, side) (ground arith)

  -- One round at the last index of a level, where that index is even.
  climb_last :
      (fn sn u v : ℕ) (h s : Bytes) (path : List Bytes)
      → fn ≡ sn
      → 0 < fn
      → fn % 2 ≡ 0
      → ascend fn fn fn ≡ (u, v)
      → climb sha256 fn sn h (s ∷ path) ≡ climb sha256 (u / 2) (v / 2) (node_hash sha256 s h) path
  unfolding climb
  climb_last fn sn u v h s path same pos even e =
      let p = parent_last fn even u v e in
      let side : is_right fn fn ≡ true = ground arith in rw (← same) (rw (p, side) (ground arith))

  climb_end :
      (fn sn : ℕ) (h out : Bytes) → climb sha256 fn sn h [] ≡ some (0, out) → (sn ≡ 0) × (h ≡ out)
  unfolding climb
  climb_end fn sn h out e = ground arith

  climb_too_long :
      (fn : ℕ) (h s : Bytes) (path : List Bytes) → climb sha256 fn 0 h (s ∷ path) ≡ none
  unfolding climb
  climb_too_long fn h s path = refl

  -- In the left part, a full tree, the loop does what it does in that part alone, and comes out
  -- at the index 0 of the two on the level above.
  pub climb_left :
      (c fn top : ℕ) (h out : Bytes) (path rest : List Bytes)
      → fn < pow2 c
      → pow2 c ≤ top
      → top < pow2 (suc c)
      → climb sha256 fn (pow2 c - 1) h path ≡ some (0, out)
      → climb sha256 fn top h (path ++ rest) ≡ climb sha256 0 1 out rest
  climb_left zero fn top h out [] rest lt low high e =
      let (_, same) = climb_end fn 0 h out e in
      let at : fn ≡ 0 = omega arith in
      let level : top ≡ 1 = omega arith in rw (at, level, same) refl
  climb_left (suc c) fn top h out [] rest lt low high e =
      absurd (omega (arith, (climb_end fn (pow2 (suc c) - 1) h out e).0, pow2_pos c))
  climb_left zero fn top h out (s ∷ path) rest lt low high e = cc (climb_too_long fn h s path)
  climb_left (suc c) fn top h out (s ∷ path) rest lt low high e =
      let pos = pow2_pos c in
      let last : (pow2 (suc c) - 1) / 2 ≡ pow2 c - 1 = omega arith in
      let step = climb_plain fn (pow2 (suc c) - 1) h s path (omega arith) (λ q. omega arith) in
      let inner = sym step ∙ e in
      rw (climb_plain fn top h s (path ++ rest) (omega arith) (λ q. omega arith)) (
        climb_left c (fn / 2) (top / 2)
          (if fn % 2 == 1 then node_hash sha256 s h else node_hash sha256 h s) out path rest
          (omega arith) (omega arith) (omega arith) (rw last at inner))

  -- A round with a higher bit added to both indices, where the index is odd or not the last.
  lifted_plain :
      (c fn sn : ℕ) (h s : Bytes) (path : List Bytes)
      → 0 < sn
      → (fn ≡ sn → fn % 2 ≡ 1)
      → climb sha256 (fn + pow2 (suc c)) (sn + pow2 (suc c)) h (s ∷ path)
        ≡ climb sha256
            (fn / 2 + pow2 c)
            (sn / 2 + pow2 c)
            (if fn % 2 == 1 then node_hash sha256 s h else node_hash sha256 h s)
            path
  lifted_plain c fn sn h s path pos odd =
      let half_fn : (fn + pow2 (suc c)) / 2 ≡ fn / 2 + pow2 c = omega arith in
      let half_sn : (sn + pow2 (suc c)) / 2 ≡ sn / 2 + pow2 c = omega arith in
      let bit : (fn + pow2 (suc c)) % 2 ≡ fn % 2 = omega arith in
      rw
        (climb_plain (fn + pow2 (suc c)) (sn + pow2 (suc c)) h s path (omega arith)
          (λ q. omega (arith, odd (omega arith))))
        (rw (half_fn, half_sn, bit) refl)

  -- The same round where the index is even and the last: both ascend to the same index.
  lifted_last :
      (c fn sn : ℕ) (h s : Bytes) (path rest : List Bytes)
      → 0 < sn
      → fn ≡ sn
      → fn % 2 ≡ 0
      → sn < pow2 (suc c)
      → (u p : ℕ) × (u < pow2 p)
        × (climb sha256 fn sn h (s ∷ path) ≡ climb sha256 u u (node_hash sha256 s h) path)
        × (climb sha256 (fn + pow2 (suc c)) (sn + pow2 (suc c)) h (s ∷ rest)
            ≡ climb sha256 (u + pow2 p) (u + pow2 p) (node_hash sha256 s h) rest)
  lifted_last c fn sn h s path rest pos at even lt =
      let (u, p, low, high, odd, small) =
        ascend_lifted fn (fn + pow2 (suc c)) (suc c) fn (omega arith) (omega arith) (omega arith)
          (omega arith) in
      let half : (u + pow2 (suc p)) / 2 ≡ u / 2 + pow2 p = omega arith in
      (
        u / 2,
        p,
        omega arith,
        climb_last fn sn u u h s path at (omega arith) even low,
        climb_last (fn + pow2 (suc c)) (sn + pow2 (suc c)) (u + pow2 (suc p)) (u + pow2 (suc p)) h s
              rest (omega arith) (omega arith) (omega arith) high
            ∙ ap (λ (x : ℕ). climb sha256 x x (node_hash sha256 s h) rest) half,
      )

  -- In the right part the loop does what it does in that part alone, and comes out at a last
  -- index that is a power of two.
  pub climb_right :
      (path : List Bytes) (c fn sn : ℕ) (h out : Bytes) (rest : List Bytes)
      → sn < pow2 c
      → fn ≤ sn
      → climb sha256 fn sn h path ≡ some (0, out)
      → (d : ℕ) × (climb sha256 (fn + pow2 c) (sn + pow2 c) h (path ++ rest)
          ≡ climb sha256 (pow2 d) (pow2 d) out rest)
  climb_right [] c fn sn h out rest lt le e =
      let (z, same) = climb_end fn sn h out e in
      let i : fn + pow2 c ≡ pow2 c = omega arith in
      let j : sn + pow2 c ≡ pow2 c = omega arith in (c, rw (i, j, same) refl)
  climb_right (s ∷ path) zero fn sn h out rest lt le e =
      let z : sn ≡ 0 = omega arith in absurd (cc (climb_too_long fn h s path, rw z at e))
  climb_right (s ∷ path) (suc c) fn zero h out rest lt le e = cc (climb_too_long fn h s path)
  climb_right (s ∷ path) (suc c) fn (suc sn) h out rest lt le e =
      elim (Bool-cases ((fn == suc sn) && (fn % 2 == 0))) [
        | inr plain ↦
            let odd : fn ≡ suc sn → fn % 2 ≡ 1 = λ q. ground arith in
            let (d, same) =
              climb_right path c (fn / 2) (suc sn / 2)
                (if fn % 2 == 1 then node_hash sha256 s h else node_hash sha256 h s) out rest
                (omega arith) (omega arith)
                (sym (climb_plain fn (suc sn) h s path (omega arith) odd) ∙ e) in
            (d, lifted_plain c fn (suc sn) h s (path ++ rest) (omega arith) odd ∙ same)
        | inl last ↦
            let (u, p, small, inner, outer) =
              lifted_last c fn (suc sn) h s path (path ++ rest) (omega arith) (ground arith)
                (ground arith) lt in
            let (d, same) =
              climb_right path p u u (node_hash sha256 s h) out rest small (omega arith)
                (sym inner ∙ e) in
            (d, outer ∙ same)
      ]

  -- The sibling of the left part, and the sibling of the right part, end the path at the root.
  pub climb_root_left :
      (out s : Bytes) → climb sha256 0 1 out (s ∷ []) ≡ some (0, node_hash sha256 out s)
  unfolding climb parent
  climb_root_left out s = refl

  pub climb_root_right :
      (d : ℕ) (out s : Bytes)
      → climb sha256 (pow2 d) (pow2 d) out (s ∷ []) ≡ some (0, node_hash sha256 s out)
  unfolding climb
  climb_root_right zero out s = rw (climb_plain 1 1 out s [] (omega arith) (λ q. omega arith)) refl
  climb_root_right (suc d) out s =
      rw
        (climb_last (pow2 (suc d)) (pow2 (suc d)) 1 1 out s [] refl (pow2_pos (suc d)) (omega arith)
          (ascend_power (pow2 (suc d)) (suc d) (omega arith)))
        refl
