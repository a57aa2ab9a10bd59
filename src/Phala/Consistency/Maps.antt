-- ===== src/Phala/Consistency/Maps.antt =====
-- Maps with numbers for keys, their sizes in order, and lists of reasons that are empty.
use cool_sdk.Prelude.{
  ℕ, ◌≤◌, arith, ◌≡◌, refl, ap, ◌∙◌, ◌⊎◌, inl, inr, some, List, [], ◌∷◌, ◌++◌, In, ltb, ◌==◌,
  Bool-cases, if◌then◌else◌, ==_iff,
}
use cool_sdk.Phala.Consistency.{
  NumberMap, Headed, at_key, put, keys_of, max_size, insert_size, sort_sizes,
}

pub some_injective {ℓ} : {A : Type ℓ} {x y : A} → some x ≡ some y → x ≡ y
some_injective h = cc

pub no_reasons {ℓ} : {A : Type ℓ} (xs ys : List A) → xs ++ ys ≡ [] → (xs ≡ []) × (ys ≡ [])
no_reasons [] ys e = (refl, e)
no_reasons (x ∷ xs) ys e = cc e

module _ {ℓ} {V : Type ℓ} where
  pub at_key-put :
      (k j : ℕ) (v : V) (m : NumberMap V)
      → at_key j (put k v m) ≡ (if k == j then some v else at_key j m)
  unfolding at_key put
  at_key-put k j v [] = refl
  at_key-put k j v ((i, w) ∷ m) = let ih = at_key-put k j v m in ground arith

  pub at_key-In : (k : ℕ) (v : V) (m : NumberMap V) → at_key k m ≡ some v → In k (keys_of m)
  unfolding at_key keys_of
  at_key-In k v [] e = cc e
  at_key-In k v ((j, w) ∷ m) e = elim (Bool-cases (j == k)) [
    | inl same ↦ inl (ground arith)
    | inr other ↦ inr (at_key-In k v m (ground arith))
  ]

pub insert_size-In : (k j : ℕ) (sizes : List ℕ) → (k ≡ j) ⊎ In j sizes → In j (insert_size k sizes)
unfolding insert_size
insert_size-In k j [] at = at
insert_size-In k j (i ∷ sizes) at = elim (Bool-cases (ltb i k)) [
  | inl less ↦ rw less (elim at [
    | inl same ↦ inr (insert_size-In k j sizes (inl same))
    | inr (inl first) ↦ inl first
    | inr (inr further) ↦ inr (insert_size-In k j sizes (inr further))
  ])
  | inr more ↦ rw more at
]

pub sort_sizes-In : (k : ℕ) (sizes : List ℕ) → In k sizes → In k (sort_sizes sizes)
unfolding sort_sizes
sort_sizes-In k [] at = at
sort_sizes-In k (j ∷ sizes) at =
    insert_size-In j k (sort_sizes sizes)
      (elim at [ inl same ↦ inl same | inr further ↦ inr (sort_sizes-In k sizes further) ])

pub max_size-bound : (h : Headed) (hs : List Headed) → In h hs → h.sth.tree_size ≤ max_size hs
unfolding max_size
max_size-bound h [] at = absurd at
max_size-bound h (g ∷ hs) at = elim at [
  | inl same ↦ let e = ap (λ x. x.sth.tree_size) same in ground arith
  | inr further ↦ let ih = max_size-bound h hs further in ground arith
]

module _ {V : Type 0} where
  pub at_key-put-kept :
      (k j : ℕ) (v u : V) (m : NumberMap V)
      → ((w : V) → at_key k m ≡ some w → w ≡ v)
      → at_key j m ≡ some u
      → at_key j (put k v m) ≡ some u
  at_key-put-kept k j v u m same at = elim (Bool-cases (k == j)) [
    | inl here ↦
        let e : k ≡ j = (==_iff k j).0 here in
        let is : u ≡ v = same u (ap (λ n. at_key n m) e ∙ at) in
        let put_at = at_key-put k j v m in ground arith
    | inr there ↦ let put_at = at_key-put k j v m in ground arith
  ]

  pub at_key-put_here : (k : ℕ) (v : V) (m : NumberMap V) → at_key k (put k v m) ≡ some v
  at_key-put_here k v m = let put_at = at_key-put k k v m in ground arith
