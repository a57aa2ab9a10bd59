-- ===== src/Phala/Query/Counts.antt =====
-- The numbers of a summary add up.
use cool_sdk.Prelude.{
  ℕ, suc, ◌+◌, ◌≤◌, String, ◌≡◌, inl, inr, refl, Bool, List, [], ◌∷◌, arith, length, Bool-cases,
  str_eq, ltb,
}
use cool_sdk.Prelude.Map
use cool_sdk.Prelude.Map.{Map}
use cool_sdk.Phala.Receipt.{ReceiptV2}
use cool_sdk.Phala.Query.{
  or_zero, count_in, count_all, insert_count, sort_counts, group_by, keep, is_change_record,
  summarise,
}

-- The sum of the counts.
abbrev pub sum_of : List (String × ℕ) → ℕ
sum_of [] = 0
sum_of (x ∷ xs) = x.1 + sum_of xs

set-sum :
    (counts : Map ℕ) (bucket : String) (v : ℕ)
    → sum_of (Map.set bucket v counts) + or_zero (Map.get bucket counts) ≡ v + sum_of counts
set-sum [] bucket v = omega arith
set-sum ((k, n) ∷ counts) bucket v =
    let rest = set-sum counts bucket v in
    elim (Bool-cases (str_eq k bucket)) [
      | inl same ↦ rw same (omega arith)
      | inr other ↦ rw other (omega (arith, rest))
    ]

count_in-sum :
    (counts : Map ℕ) (bucket : String) → sum_of (count_in counts bucket) ≡ suc (sum_of counts)
unfolding count_in
count_in-sum counts bucket =
    omega (arith, set-sum counts bucket (suc (or_zero (Map.get bucket counts))))

count_all-sum :
    (receipts : List ReceiptV2) (counts : Map ℕ) (key : ReceiptV2 → String)
    → sum_of (count_all counts receipts key) ≡ sum_of counts + length receipts
unfolding count_all
count_all-sum [] counts key = omega arith
count_all-sum (r ∷ receipts) counts key =
    let rest = count_all-sum receipts (count_in counts (key r)) key in
    omega (arith, rest, count_in-sum counts (key r))

insert_count-sum :
    (x : String × ℕ) (xs : List (String × ℕ)) → sum_of (insert_count x xs) ≡ x.1 + sum_of xs
unfolding insert_count
insert_count-sum x [] = refl
insert_count-sum x (y ∷ ys) =
    let rest = insert_count-sum x ys in
    elim (Bool-cases (ltb x.1 y.1)) [
      | inl less ↦ rw less (omega (arith, rest))
      | inr more ↦ rw more (omega arith)
    ]

sort_counts-sum : (xs : List (String × ℕ)) → sum_of (sort_counts xs) ≡ sum_of xs
unfolding sort_counts
sort_counts-sum [] = refl
sort_counts-sum (x ∷ xs) = omega (arith, insert_count-sum x (sort_counts xs), sort_counts-sum xs)

group_by-sum :
    (receipts : List ReceiptV2) (key : ReceiptV2 → String)
    → sum_of (group_by receipts key) ≡ length receipts
unfolding group_by
group_by-sum receipts key =
    omega (arith, sort_counts-sum (count_all [] receipts key), count_all-sum receipts [] key)

length-keep :
    (test : ReceiptV2 → Bool) (receipts : List ReceiptV2)
    → length (keep test receipts) ≤ length receipts
unfolding keep
length-keep test [] = omega arith
length-keep test (r ∷ receipts) =
    let rest = length-keep test receipts in
    elim (Bool-cases (test r)) [
      | inl on ↦ rw on (omega (arith, rest))
      | inr off ↦ rw off (omega (arith, rest))
    ]

-- In a summary the evidence records and the changes are the total, the groups by kind add up to the
-- total, and those by environment and by actor to the changes.
pub summarise-sum :
    (receipts : List ReceiptV2)
    → ((summarise receipts).evidence + (summarise receipts).changes ≡ (summarise receipts).total)
      × (sum_of (summarise receipts).by_kind ≡ (summarise receipts).total)
      × (sum_of (summarise receipts).by_environment ≡ (summarise receipts).changes)
      × (sum_of (summarise receipts).by_actor ≡ (summarise receipts).changes)
      × ((summarise receipts).needing_review ≤ (summarise receipts).changes)
unfolding summarise
summarise-sum receipts =
    let changes = keep is_change_record receipts in
    (
      omega (arith, length-keep is_change_record receipts),
      group_by-sum receipts _,
      group_by-sum changes _,
      group_by-sum changes _,
      length-keep _ changes,
    )
