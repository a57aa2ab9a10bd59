-- ===== src/Phala/Consistency/History.antt =====
-- What a consistent verdict says of the receipts.
use cool_sdk.Prelude.{
  ℕ, ◌≤◌, arith, String, ◌≡◌, refl, ap, sym, ◌∙◌, ◌⊎◌, inl, inr, Bool, true, false, Option, some,
  List, [], ◌∷◌, ◌++◌, length, take, get_elem?, All, All-In, In, leb, every, Bool-cases, str_eq,
  eq_iff, if◌then◌else◌,
}
use cool_sdk.Codec.{Bytes}
use cool_sdk.Multihash.{multihash_digest}
use cool_sdk.Merkle.{leaf_hash, merkle_root}
use cool_sdk.Sign.{Crypto}
use cool_sdk.Phala.Receipt.{SthCore, ReceiptV2, record_leaf_data}
use cool_sdk.Phala.Verify.Accepts.{bind-some}
use cool_sdk.Phala.Consistency.{
  NumberMap, Headed, ConsistencyHead, ConsistencyPair, ConsistencyReason, ConsistencyOptions,
  all_ok, ConsistencyResult, at_key, keys_of, head_by_size, max_size, fill, sort_sizes, head_entry,
  with_head, failed,
}
use cool_sdk.Phala.Consistency.Check.{
  collect_leaves, signed_by, check_heads, check_pairs, result_of, with_leaves, with_log, with_heads,
  verify_log_consistency,
}
use cool_sdk.Phala.Consistency.Maps.{
  some_injective, no_reasons, at_key-In, sort_sizes-In, max_size-bound,
}
use cool_sdk.Phala.Consistency.Leaves.{fill-leaves, Placed, collect_leaves-Placed}
use cool_sdk.Phala.Consistency.Heads.{
  HasHead, head_by_size-HasHead, head_by_size-source, IsSound, check_heads-IsSound,
}

all_ok-quiet :
    (reasons : List ConsistencyReason) (heads : List ConsistencyHead) (pairs : List ConsistencyPair)
    → all_ok reasons heads pairs ≡ true
    → reasons ≡ []
all_ok-quiet [] heads pairs h = refl
all_ok-quiet (reason ∷ reasons) heads pairs h = cc h

All-of : {A : Type 0} (P : A → Type 0) (xs : List A) → ((a : A) → In a xs → P a) → All P xs
All-of P [] f = tt
All-of P (x ∷ xs) f = (f x (inl refl), All-of P xs (λ a further. f a (inr further)))

if-true : {A : Type 0} (b : Bool) (x y z : A) → b ≡ true → (if b then x else y) ≡ z → x ≡ z
if-true b x y z on e = cc (on, e)

if-false : {A : Type 0} (b : Bool) (x y z : A) → b ≡ false → (if b then x else y) ≡ z → y ≡ z
if-false b x y z off e = cc (off, e)

one_log :
    (log_id : String) (hs : List Headed)
    → every (λ h. str_eq h.sth.log_id log_id) hs ≡ true
    → All (λ h. h.sth.log_id ≡ log_id) hs
one_log log_id [] e = tt
one_log log_id (h ∷ hs) e = elim (Bool-cases (str_eq h.sth.log_id log_id)) [
  | inl same ↦ (ground (arith, eq_iff h.sth.log_id log_id), one_log log_id hs (ground arith))
  | inr other ↦ absurd (ground arith)
]

module _ (c : Crypto) (encode_sth : SthCore → Option Bytes) (options : ConsistencyOptions) where
  -- The leaf of the receipt's binding hash stands at its index, when the heads reach that far.
  abbrev pub IsLeaf : List Bytes → Headed → Type 0
  IsLeaf leaves h =
      (d : Bytes) × (record_leaf_data h.receipt.binding_hash ≡ some d)
      × ((length leaves ≤ h.inclusion.leaf_index)
          ⊎ (get_elem? leaves h.inclusion.leaf_index ≡ some (leaf_hash c.sha256 d)))

  -- A head of the same size and root, of one of the receipts, is signed.
  abbrev pub IsVouched : List Headed → Headed → Type 0
  IsVouched hs h =
      (g : Headed) × In g hs
      × (g.sth.tree_size ≡ h.sth.tree_size)
      × (g.sth.root_hash ≡ h.sth.root_hash)
      × (signed_by c encode_sth g.sth (head_entry options g) ≡ some true)

  -- The receipt's head is the root of a prefix of the leaves.
  abbrev pub IsPrefixRoot : List Bytes → Headed → Type 0
  IsPrefixRoot leaves h =
      (h.sth.tree_size ≤ length leaves)
      × (multihash_digest h.sth.root_hash
          ≡ some (merkle_root c.sha256 (take h.sth.tree_size leaves)))

  abbrev pub IsOfHistory : List Headed → List Bytes → Headed → Type 0
  IsOfHistory hs leaves h = IsPrefixRoot leaves h × IsLeaf leaves h × IsVouched hs h

  Placed-IsLeaf :
      (collected : NumberMap Bytes) (count : ℕ) (leaves : List Bytes) (h : Headed)
      → fill collected 0 count ≡ inr leaves
      → Placed c encode_sth collected h
      → IsLeaf leaves h
  Placed-IsLeaf collected count leaves h filled (d, read, at) =
      let (size, elem) = fill-leaves collected 0 count leaves filled in
      let index = h.inclusion.leaf_index in
      elim (Bool-cases (leb (length leaves) index)) [
        | inl outside ↦ (d, read, inl (ground arith))
        | inr inside ↦ (
          d,
          read,
          inr (elem index (ground arith) ∙ ap (λ n. at_key n collected) (omega arith) ∙ at),
        )
      ]

  sound-IsVouched :
      (hs : List Headed) (leaves : List Bytes) (h : Headed)
      → All
          (IsSound c encode_sth options leaves (head_by_size [] hs).0)
          (sort_sizes (keys_of (head_by_size [] hs).0))
      → HasHead (head_by_size [] hs).0 h
      → (multihash_digest h.sth.root_hash
          ≡ some (merkle_root c.sha256 (take h.sth.tree_size leaves)))
        × IsVouched hs h
  unfolding at_key
  sound-IsVouched hs leaves h sound (prior, at, same) =
      let by_size = (head_by_size [] hs).0 in
      let size = h.sth.tree_size in
      let (g, found, root, signed) =
        All-In (IsSound c encode_sth options leaves by_size) size (sort_sizes (keys_of by_size))
          sound (sort_sizes-In size (keys_of by_size) (at_key-In size prior by_size at)) in
      let is : prior ≡ g = some_injective (sym at ∙ found) in
      let equal : g.sth.root_hash ≡ h.sth.root_hash = ap (λ x. x.sth.root_hash) (sym is) ∙ same in
      elim (head_by_size-source [] hs size g found) [
        | inl seen ↦ absurd (ground arith)
        | inr (member, sized) ↦
            (ap multihash_digest (sym equal) ∙ root, (g, member, sized, equal, signed))
      ]

  with_leaves-IsOfHistory :
      (log_id : String) (hs : List Headed) (collected : NumberMap Bytes × List ConsistencyReason)
      (filled : ℕ ⊎ List Bytes) (v : ConsistencyResult)
      → collect_leaves c encode_sth [] hs ≡ some collected
      → fill collected.0 0 (max_size hs) ≡ filled
      → with_leaves c encode_sth options log_id hs collected.1 filled ≡ some v
      → v.ok ≡ true
      → (leaves : List Bytes) × All (IsOfHistory hs leaves) hs
  unfolding with_leaves result_of failed
  with_leaves-IsOfHistory log_id hs collected (inl i) v gathered at e ok =
      absurd (let is = ap (λ x. x.ok) (some_injective e) in cc (is, ok))
  with_leaves-IsOfHistory log_id hs collected (inr leaves) v gathered at e ok =
      let by_size = head_by_size [] hs in
      let sizes = sort_sizes (keys_of by_size.0) in
      let (checked, judged, e₁) =
        bind-some (check_heads c encode_sth options leaves by_size.0 sizes) _ v e in
      let pairs = check_pairs c encode_sth leaves checked.0 in
      let good = ap (λ x. x.ok) (some_injective e₁) ∙ ok in
      let quiet =
        all_ok-quiet (((collected.1 ++ by_size.1) ++ checked.1) ++ pairs.1) checked.0 pairs.0
          good in
      let (before, _) = no_reasons ((collected.1 ++ by_size.1) ++ checked.1) pairs.1 quiet in
      let (earlier, none_checked) = no_reasons (collected.1 ++ by_size.1) checked.1 before in
      let (none_collected, none_forked) = no_reasons collected.1 by_size.1 earlier in
      let sound =
        check_heads-IsSound c encode_sth options leaves by_size.0 sizes checked judged
          none_checked in
      let placed = collect_leaves-Placed c encode_sth [] hs collected gathered none_collected in
      let at_heads = head_by_size-HasHead [] hs none_forked in
      let (size, _) = fill-leaves collected.0 0 (max_size hs) leaves at in
      (
        leaves,
        All-of (IsOfHistory hs leaves) hs (λ h member.
            let (root, vouched) =
              sound-IsVouched hs leaves h sound (All-In (HasHead by_size.0) h hs at_heads member) in
            let bound = max_size-bound h hs member in
            (
              (omega arith, root),
              Placed-IsLeaf collected.0 (max_size hs) leaves h at
                  (All-In (Placed c encode_sth collected.0) h hs placed member),
              vouched,
            )),
      )

  with_log-IsOfHistory :
      (log_id : String) (hs : List Headed) (v : ConsistencyResult)
      → with_log c encode_sth options log_id hs ≡ some v
      → v.ok ≡ true
      → All (λ h. h.sth.log_id ≡ log_id) hs
        × ((leaves : List Bytes) × All (IsOfHistory hs leaves) hs)
  unfolding with_log failed
  with_log-IsOfHistory log_id hs v e ok =
      elim (Bool-cases (every (λ h. str_eq h.sth.log_id log_id) hs)) [
        | inl one ↦
            let (collected, gathered, e₁) =
              bind-some (collect_leaves c encode_sth [] hs) _ v (if-true _ _ _ _ one e) in
            (
              one_log log_id hs one,
              with_leaves-IsOfHistory log_id hs collected (fill collected.0 0 (max_size hs)) v
                  gathered refl e₁ ok,
            )
        | inr several ↦
            let is = ap (λ x. x.ok) (some_injective (if-false _ _ _ _ several e)) in
            absurd (cc (is, ok))
      ]

  with_heads-IsOfHistory :
      (hs : List Headed) (v : ConsistencyResult)
      → with_heads c encode_sth options hs ≡ some v
      → v.ok ≡ true
      → (log_id : String) × All (λ h. h.sth.log_id ≡ log_id) hs
        × ((leaves : List Bytes) × All (IsOfHistory hs leaves) hs)
  unfolding with_heads failed
  with_heads-IsOfHistory [] v e ok =
      absurd (let is = ap (λ x. x.ok) (some_injective e) in cc (is, ok))
  with_heads-IsOfHistory (h ∷ []) v e ok =
      absurd (let is = ap (λ x. x.ok) (some_injective e) in cc (is, ok))
  with_heads-IsOfHistory (h ∷ g ∷ hs) v e ok =
      let (same, history) = with_log-IsOfHistory h.sth.log_id (h ∷ g ∷ hs) v e ok in
      (h.sth.log_id, same, history)

  -- When the checker answers ok, all the receipts with a head and an inclusion name one log, and
  -- there is one list of leaves such that, of each of them: the head covers no more than the list
  -- and its root is that of its prefix of the head's size; the leaf of the binding hash stands at
  -- the receipt's index, unless the index is beyond the list; and a head of the same size and root,
  -- of one of the receipts, verifies under the trusted key or the receipt's own.
  pub verify_log_consistency-IsOfHistory :
      (receipts : List ReceiptV2) (v : ConsistencyResult)
      → verify_log_consistency c encode_sth receipts options ≡ some v
      → v.ok ≡ true
      → (log_id : String) × All (λ h. h.sth.log_id ≡ log_id) (with_head receipts)
        × ((leaves : List Bytes) × All
              (IsOfHistory (with_head receipts) leaves)
              (with_head receipts))
  unfolding verify_log_consistency
  verify_log_consistency-IsOfHistory receipts v e ok =
      with_heads-IsOfHistory (with_head receipts) v e ok
