-- ===== src/Phala/Compliance/Gaps.antt =====
-- A gap is an obligation that no receipt counts for.
use cool_sdk.Prelude.{
  ◌≡◌, ◌↔◌, inl, inr, refl, Bool, true, false, not, if◌then◌else◌, List, [], ◌∷◌, arith, All, In,
  Bool-cases, ltb,
}
use cool_sdk.Phala.Receipt.{ReceiptV2}
use cool_sdk.Phala.Compliance.{
  Obligation, Coverage, obligations, count_of, row, coverage_of, coverage, uncovered, gaps,
}

-- No receipt counts.
abbrev pub NoneCounts : Obligation → List ReceiptV2 → Type 0
NoneCounts o receipts = All (λ r. o.counts r ≡ false) receipts

count_of-zero :
    (counts : ReceiptV2 → Bool) (receipts : List ReceiptV2)
    → (ltb 0 (count_of counts receipts) ≡ false) ↔ All (λ r. counts r ≡ false) receipts
unfolding count_of
count_of-zero counts [] = (λ h. tt, λ h. refl)
count_of-zero counts (r ∷ receipts) = elim (Bool-cases (counts r)) [
  | inl on ↦ (λ h. absurd (ground arith), λ (off, _). cc)
  | inr off ↦
      let (to, from) = count_of-zero counts receipts in
      (λ h. (off, to (ground arith)), λ (_, rest). let e = from rest in ground arith)
]

uncovered-In :
    (receipts : List ReceiptV2) (os : List Obligation) (o : Obligation)
    → In o os
    → NoneCounts o receipts
    → In (row receipts o) (uncovered (coverage_of os receipts))
unfolding uncovered coverage_of row
uncovered-In receipts [] o at h = absurd at
uncovered-In receipts (p ∷ os) o (inl same) h =
    let off = (count_of-zero o.counts receipts).1 h in rw same (rw off (inl refl))
uncovered-In receipts (p ∷ os) o (inr at) h =
    elim (Bool-cases (ltb 0 (count_of p.counts receipts))) [
      | inl on ↦ rw on (uncovered-In receipts os o at h)
      | inr off ↦ rw off (inr (uncovered-In receipts os o at h))
    ]

uncovered-NoneCounts :
    (receipts : List ReceiptV2) (o : Obligation)
    → (row receipts o).covered ≡ false
    → NoneCounts o receipts
unfolding row
uncovered-NoneCounts receipts o off = (count_of-zero o.counts receipts).0 off

-- A row of a gap: it is the row of one of the obligations, and no receipt counts for that one.
abbrev pub IsGap : List Obligation → List ReceiptV2 → Coverage → Type 0
IsGap os receipts g = (o : Obligation) × In o os × (g ≡ row receipts o) × NoneCounts o receipts

All-deeper :
    (p : Obligation) (os : List Obligation) (receipts : List ReceiptV2) (rows : List Coverage)
    → All (IsGap os receipts) rows
    → All (IsGap (p ∷ os) receipts) rows
All-deeper p os receipts [] all = tt
All-deeper p os receipts (g ∷ rows) ((o, at, is, none_counts), all) =
    ((o, inr at, is, none_counts), All-deeper p os receipts rows all)

place :
    (P : Coverage → Type 0) (g : Coverage) (rest : List Coverage) (covered : Bool)
    → (covered ≡ false → P g)
    → All P rest
    → All P (if not covered then g ∷ rest else rest)
place P g rest true here all = all
place P g rest false here all = (here refl, all)

uncovered-All :
    (receipts : List ReceiptV2) (os : List Obligation)
    → All (IsGap os receipts) (uncovered (coverage_of os receipts))
unfolding uncovered coverage_of
uncovered-All receipts [] = tt
uncovered-All receipts (p ∷ os) =
    place (IsGap (p ∷ os) receipts) (row receipts p) (uncovered (coverage_of os receipts))
      (row receipts p).covered (λ off. (p, inl refl, refl, uncovered-NoneCounts receipts p off))
      (All-deeper p os receipts (uncovered (coverage_of os receipts)) (uncovered-All receipts os))

-- `gaps` lists exactly the obligations of the catalogue that no receipt counts for: each of its rows
-- is the row of such an obligation, and the row of each such obligation is among them.
pub gaps-NoneCounts :
    (receipts : List ReceiptV2)
    → All (IsGap obligations receipts) (gaps receipts)
      × ((o : Obligation)
          → In o obligations
          → NoneCounts o receipts
          → In (row receipts o) (gaps receipts))
unfolding gaps coverage
gaps-NoneCounts receipts = (uncovered-All receipts obligations, uncovered-In receipts obligations)
