-- ===== src/Phala/Consistency/Leaves.antt =====
-- The leaves of `verifyLogConsistency`: what its first two loops find when they push no reason.
use cool_sdk.Prelude.{
  ℕ, zero, suc, ◌+◌, ◌<◌, arith, ◌≡◌, refl, ap, sym, ◌∙◌, ◌⊎◌, inl, inr, Option, none, some, List,
  [], ◌∷◌, length, get_elem?, All, Bool-cases, Option-cases, text_eq, text_eq_iff, subst,
}
use cool_sdk.Codec.{Bytes}
use cool_sdk.Merkle.{leaf_hash}
use cool_sdk.Sign.{Crypto}
use cool_sdk.Phala.Receipt.{SthCore, record_leaf_data}
use cool_sdk.Phala.Verify.Accepts.{bind-some}
use cool_sdk.Phala.Consistency.{NumberMap, Headed, ConsistencyReason, at_key, put, claim, fill}
use cool_sdk.Phala.Consistency.Check.{collect_leaves}
use cool_sdk.Phala.Consistency.Maps.{some_injective, no_reasons, at_key-put-kept, at_key-put_here}

fill-cases : (r : ℕ ⊎ List Bytes) → ((j : ℕ) × (r ≡ inl j)) ⊎ ((ls : List Bytes) × (r ≡ inr ls))
fill-cases (inl j) = inl (j, refl)
fill-cases (inr ls) = inr (ls, refl)

pub fill-leaves :
    (m : NumberMap Bytes) (i count : ℕ) (leaves : List Bytes)
    → fill m i count ≡ inr leaves
    → (length leaves ≡ count) × ((k : ℕ) → k < count → get_elem? leaves k ≡ at_key (i + k) m)
unfolding fill
fill-leaves m i zero leaves e =
    let is : [] ≡ leaves = cc e in (ap length (sym is), λ k below. absurd (omega arith))
fill-leaves m i (suc count) leaves e = elim (Option-cases (at_key i m)) [
  | inl missing ↦ absurd (ground arith)
  | inr (leaf, found) ↦ elim (fill-cases (fill m (suc i) count)) [
    | inl (j, stopped) ↦ absurd (ground arith)
    | inr (rest, filled) ↦
        let (size, at) = fill-leaves m (suc i) count rest filled in
        let is : leaf ∷ rest ≡ leaves = ground arith in
        subst
          (λ ls.
            (length ls ≡ suc count) × ((k : ℕ) → k < suc count → get_elem? ls k ≡ at_key (i + k) m))
          is (ap suc size, elem_of leaf rest found at)
  ]
]
  where
    elem_of :
        (leaf : Bytes) (rest : List Bytes)
        → at_key i m ≡ some leaf
        → ((k : ℕ) → k < count → get_elem? rest k ≡ at_key (suc i + k) m)
        → (k : ℕ) → k < suc count
        → get_elem? (leaf ∷ rest) k ≡ at_key (i + k) m
    elem_of leaf rest found at zero below = sym found ∙ ap (λ n. at_key n m) (omega arith)
    elem_of leaf rest found at (suc k) below =
        at k (omega arith) ∙ ap (λ n. at_key n m) (omega arith)

claim-none :
    (index : ℕ) (leaf seen : Bytes) (o : Option Bytes)
    → claim index leaf o ≡ []
    → o ≡ some seen
    → seen ≡ leaf
claim-none index leaf seen none e at = cc at
claim-none index leaf seen (some s) e at = elim (Bool-cases (text_eq s leaf)) [
  | inl same ↦ let is : s ≡ leaf = (text_eq_iff s leaf).0 same in cc (at, is)
  | inr other ↦ absurd (ground arith)
]

module _ (c : Crypto) (encode_sth : SthCore → Option Bytes) where
  -- One round of the loop that pushes no reason.
  collect_leaves-step :
      (seen : NumberMap Bytes) (h : Headed) (hs : List Headed)
      (out : NumberMap Bytes × List ConsistencyReason)
      → collect_leaves c encode_sth seen (h ∷ hs) ≡ some out
      → out.1 ≡ []
      → (d : Bytes) × (rest : NumberMap Bytes × List ConsistencyReason) × (record_leaf_data
            h.receipt.binding_hash
          ≡ some d)
        × (collect_leaves c encode_sth (put h.inclusion.leaf_index (leaf_hash c.sha256 d) seen) hs
            ≡ some rest)
        × (rest.1 ≡ [])
        × (claim h.inclusion.leaf_index (leaf_hash c.sha256 d) (at_key h.inclusion.leaf_index seen)
            ≡ [])
        × (rest.0 ≡ out.0)
  unfolding collect_leaves
  collect_leaves-step seen h hs out e quiet =
      let (d, read, e₁) = bind-some (record_leaf_data h.receipt.binding_hash) _ out e in
      let leaf = leaf_hash c.sha256 d in
      let (rest, collected, e₂) =
        bind-some (collect_leaves c encode_sth (put h.inclusion.leaf_index leaf seen) hs) _ out
          e₁ in
      let is = some_injective e₂ in
      let (no_claim, none_after) =
        no_reasons (claim h.inclusion.leaf_index leaf (at_key h.inclusion.leaf_index seen)) rest.1
          (ap (λ o. o.1) is ∙ quiet) in
      (d, rest, read, collected, none_after, no_claim, ap (λ o. o.0) is)

  collect_leaves-kept :
      (seen : NumberMap Bytes) (hs : List Headed) (out : NumberMap Bytes × List ConsistencyReason)
      → collect_leaves c encode_sth seen hs ≡ some out
      → out.1 ≡ []
      → (k : ℕ) (leaf : Bytes) → at_key k seen ≡ some leaf
      → at_key k out.0 ≡ some leaf
  unfolding collect_leaves
  collect_leaves-kept seen [] out e quiet k leaf at =
      ap (λ o. at_key k o.0) (sym (some_injective e)) ∙ at
  collect_leaves-kept seen (h ∷ hs) out e quiet k leaf at =
      let (d, rest, read, collected, none_after, no_claim, is) =
        collect_leaves-step seen h hs out e quiet in
      let index = h.inclusion.leaf_index in
      let new = leaf_hash c.sha256 d in
      ap (at_key k) (sym is)
      ∙ collect_leaves-kept (put index new seen) hs rest collected none_after k leaf (
          at_key-put-kept index k new leaf seen
            (λ w found. claim-none index new w (at_key index seen) no_claim found) at)

  abbrev pub Placed : NumberMap Bytes → Headed → Type 0
  Placed leaves h =
      (d : Bytes) × (record_leaf_data h.receipt.binding_hash ≡ some d)
      × (at_key h.inclusion.leaf_index leaves ≡ some (leaf_hash c.sha256 d))

  pub collect_leaves-Placed :
      (seen : NumberMap Bytes) (hs : List Headed) (out : NumberMap Bytes × List ConsistencyReason)
      → collect_leaves c encode_sth seen hs ≡ some out
      → out.1 ≡ []
      → All (Placed out.0) hs
  unfolding collect_leaves
  collect_leaves-Placed seen [] out e quiet = tt
  collect_leaves-Placed seen (h ∷ hs) out e quiet =
      let (d, rest, read, collected, none_after, no_claim, is) =
        collect_leaves-step seen h hs out e quiet in
      let index = h.inclusion.leaf_index in
      let new = leaf_hash c.sha256 d in
      let here =
        collect_leaves-kept (put index new seen) hs rest collected none_after index new
          (at_key-put_here index new seen) in
      subst (λ m. All (Placed m) (h ∷ hs)) is
        ((d, read, here), collect_leaves-Placed (put index new seen) hs rest collected none_after)
