-- ===== src/Phala/Query/Found.antt =====
-- What `query` returns.
use cool_sdk.Phala.Query.Meets.{Meets, matches-Meets}
use cool_sdk.Prelude.{
  ℕ, zero, suc, String, ◌≡◌, inl, inr, ap, sym, ◌∙◌, Bool, true, Option, none, some, List, [], ◌∷◌,
  take, In, Bool-cases, ◌≤◌, refl, false, subst, length, length-take, arith,
}
use cool_sdk.Codec.{Text}
use cool_sdk.Phala.Receipt.{ReceiptV2}
use cool_sdk.Phala.Query.{
  Query, matches, filter_matches, insert_newest, sort_newest, limited, query, issued_at,
}

module _ (to_lower_case : String → Text) (locale_lt : String → String → Bool) where
  abbrev Wanted : List ReceiptV2 → Query → ReceiptV2 → Type 0
  Wanted receipts q r = In r receipts × (matches to_lower_case locale_lt r q ≡ true)

  filter_matches-In :
      (receipts : List ReceiptV2) (q : Query) (r : ReceiptV2)
      → (In r (filter_matches to_lower_case locale_lt receipts q) → Wanted receipts q r)
        × (Wanted receipts q r → In r (filter_matches to_lower_case locale_lt receipts q))
  unfolding filter_matches
  filter_matches-In [] q r = (λ at. absurd at, λ (at, _). absurd at)
  filter_matches-In (s ∷ receipts) q r =
      let (to, from) = filter_matches-In receipts q r in
      elim (Bool-cases (matches to_lower_case locale_lt s q)) [
        | inl on ↦ rw on (
          λ at. elim at [
            | inl same ↦ (inl same, ap (λ x. matches to_lower_case locale_lt x q) (sym same) ∙ on)
            | inr further ↦ (inr (to further).0, (to further).1)
          ],
          λ (at, good). elim at [ inl same ↦ inl same | inr further ↦ inr (from (further, good)) ],
        )
        | inr off ↦ rw off (
          λ at. (inr (to at).0, (to at).1),
          λ (at, good). elim at [
            | inl same ↦ cc (ap (λ x. matches to_lower_case locale_lt x q) same)
            | inr further ↦ from (further, good)
          ],
        )
      ]

  insert_newest-In :
      (r s : ReceiptV2) (sorted : List ReceiptV2)
      → (In r (insert_newest to_lower_case locale_lt s sorted) → In r (s ∷ sorted))
        × (In r (s ∷ sorted) → In r (insert_newest to_lower_case locale_lt s sorted))
  unfolding insert_newest
  insert_newest-In r s [] = (λ at. at, λ at. at)
  insert_newest-In r s (t ∷ sorted) =
      let (to, from) = insert_newest-In r s sorted in
      elim (Bool-cases (locale_lt (issued_at s) (issued_at t))) [
        | inl older ↦ rw older (
          λ at. elim at [
            | inl same ↦ inr (inl same)
            | inr further ↦ elim (to further) [ inl e ↦ inl e | inr deeper ↦ inr (inr deeper) ]
          ],
          λ at. elim at [
            | inl same ↦ inr (from (inl same))
            | inr (inl same) ↦ inl same
            | inr (inr deeper) ↦ inr (from (inr deeper))
          ],
        )
        | inr newer ↦ rw newer (λ at. at, λ at. at)
      ]

  sort_newest-In :
      (r : ReceiptV2) (found : List ReceiptV2)
      → (In r (sort_newest to_lower_case locale_lt found) → In r found)
        × (In r found → In r (sort_newest to_lower_case locale_lt found))
  unfolding sort_newest
  sort_newest-In r [] = (λ at. at, λ at. at)
  sort_newest-In r (s ∷ found) =
      let (to, from) = sort_newest-In r found in
      let (out, into) = insert_newest-In r s (sort_newest to_lower_case locale_lt found) in
      (
        λ at. elim (out at) [ inl same ↦ inl same | inr further ↦ inr (to further) ],
        λ at. elim at [ inl same ↦ into (inl same) | inr further ↦ into (inr (from further)) ],
      )

  -- The limit is no part of what `matches` tests.
  filter_matches_unlimited :
      (receipts : List ReceiptV2) (q : Query)
      → filter_matches to_lower_case locale_lt receipts (record q { limit = none })
        ≡ filter_matches to_lower_case locale_lt receipts q
  unfolding filter_matches matches
  filter_matches_unlimited [] q = refl
  filter_matches_unlimited (r ∷ receipts) q = rw (filter_matches_unlimited receipts q) refl

  unlimited :
      (receipts : List ReceiptV2) (q : Query) (r : ReceiptV2)
      → In r
          (sort_newest to_lower_case locale_lt (filter_matches to_lower_case locale_lt receipts q))
      → In r (query to_lower_case locale_lt receipts (record q { limit = none }))
  unfolding query
  unlimited receipts q r at =
      subst (λ found. In r (sort_newest to_lower_case locale_lt found))
        (sym (filter_matches_unlimited receipts q)) at

  take-In : (n : ℕ) (r : ReceiptV2) (found : List ReceiptV2) → In r (take n found) → In r found
  take-In zero r found at = absurd at
  take-In (suc n) r [] at = absurd at
  take-In (suc n) r (s ∷ found) (inl same) = inl same
  take-In (suc n) r (s ∷ found) (inr further) = inr (take-In n r found further)

  limited-In :
      (limit : Option ℕ) (r : ReceiptV2) (found : List ReceiptV2)
      → In r (limited to_lower_case locale_lt limit found)
      → In r found
  limited-In none r found at = at
  limited-In (some zero) r found at = at
  limited-In (some (suc n)) r found at = take-In (suc n) r found at

  -- Each receipt is not older than the one after it.
  abbrev pub IsNewestFirst : List ReceiptV2 → Type 0
  IsNewestFirst [] = Unit
  IsNewestFirst (r ∷ []) = Unit
  IsNewestFirst (r ∷ s ∷ found) =
      (locale_lt (issued_at r) (issued_at s) ≡ false) × IsNewestFirst (s ∷ found)

  -- A limit that is positive.
  abbrev pub IsWithin : Option ℕ → List ReceiptV2 → Type 0
  IsWithin none found = Unit
  IsWithin (some zero) found = Unit
  IsWithin (some (suc n)) found = length found ≤ suc n

  take-IsNewestFirst :
      (n : ℕ) (found : List ReceiptV2) → IsNewestFirst found → IsNewestFirst (take n found)
  take-IsNewestFirst zero found o = tt
  take-IsNewestFirst (suc n) [] o = tt
  take-IsNewestFirst (suc zero) (r ∷ found) o = tt
  take-IsNewestFirst (suc (suc n)) (r ∷ []) o = tt
  take-IsNewestFirst (suc (suc n)) (r ∷ s ∷ found) (newer, o) =
      (newer, take-IsNewestFirst (suc n) (s ∷ found) o)

  limited-IsNewestFirst :
      (limit : Option ℕ) (found : List ReceiptV2)
      → IsNewestFirst found
      → IsNewestFirst (limited to_lower_case locale_lt limit found)
  limited-IsNewestFirst none found o = o
  limited-IsNewestFirst (some zero) found o = o
  limited-IsNewestFirst (some (suc n)) found o = take-IsNewestFirst (suc n) found o

  limited-IsWithin :
      (limit : Option ℕ) (found : List ReceiptV2)
      → IsWithin limit (limited to_lower_case locale_lt limit found)
  limited-IsWithin none found = tt
  limited-IsWithin (some zero) found = tt
  limited-IsWithin (some (suc n)) found = omega (arith, length-take (suc n) found)

  module _ (asym : (a b : String) → locale_lt a b ≡ true → locale_lt b a ≡ false) where
    insert_newest-IsNewestFirst :
        (r : ReceiptV2) (sorted : List ReceiptV2)
        → IsNewestFirst sorted
        → IsNewestFirst (insert_newest to_lower_case locale_lt r sorted)
    unfolding insert_newest
    insert_newest-IsNewestFirst r [] o = tt
    insert_newest-IsNewestFirst r (s ∷ []) o =
        elim (Bool-cases (locale_lt (issued_at r) (issued_at s))) [
          | inl older ↦ rw older (asym (issued_at r) (issued_at s) older, tt)
          | inr newer ↦ rw newer (newer, tt)
        ]
    insert_newest-IsNewestFirst r (s ∷ t ∷ sorted) (first, o) =
        let rest = insert_newest-IsNewestFirst r (t ∷ sorted) o in
        elim (Bool-cases (locale_lt (issued_at r) (issued_at s))) [
          | inr newer ↦ rw newer (newer, (first, o))
          | inl older ↦ rw older (behind older first rest)
        ]
      where
        behind :
            locale_lt (issued_at r) (issued_at s) ≡ true
            → locale_lt (issued_at s) (issued_at t) ≡ false
            → IsNewestFirst (insert_newest to_lower_case locale_lt r (t ∷ sorted))
            → IsNewestFirst (s ∷ insert_newest to_lower_case locale_lt r (t ∷ sorted))
        behind older first rest = elim (Bool-cases (locale_lt (issued_at r) (issued_at t))) [
          | inl further ↦ rw further (first, (rw further at rest))
          | inr here ↦ rw here (asym (issued_at r) (issued_at s) older, (rw here at rest))
        ]

    sort_newest-IsNewestFirst :
        (found : List ReceiptV2) → IsNewestFirst (sort_newest to_lower_case locale_lt found)
    unfolding sort_newest
    sort_newest-IsNewestFirst [] = tt
    sort_newest-IsNewestFirst (r ∷ found) =
        insert_newest-IsNewestFirst r (sort_newest to_lower_case locale_lt found)
          (sort_newest-IsNewestFirst found)

    -- Let `localeCompare` put no two times each before the other. Then what `query` returns is in
    -- order, no receipt older than the next; it is no longer than a positive limit; each of its
    -- receipts is one of those given and meets the query's conditions; and every one given that
    -- meets them is found by the same query without its limit.
    pub query-Meets :
        (receipts : List ReceiptV2) (q : Query) (r : ReceiptV2)
        → IsNewestFirst (query to_lower_case locale_lt receipts q)
          × IsWithin q.limit (query to_lower_case locale_lt receipts q)
          × (In r (query to_lower_case locale_lt receipts q)
              → In r receipts × Meets to_lower_case locale_lt r q)
          × (In r receipts × Meets to_lower_case locale_lt r q
              → In r (query to_lower_case locale_lt receipts (record q { limit = none })))
    unfolding query
    query-Meets receipts q r =
        let found = filter_matches to_lower_case locale_lt receipts q in
        let sorted = sort_newest to_lower_case locale_lt found in
        let (out, into) = sort_newest-In r found in
        let (to, from) = filter_matches-In receipts q r in
        let (met, meets) = matches-Meets to_lower_case locale_lt r q in
        (
          limited-IsNewestFirst q.limit sorted (sort_newest-IsNewestFirst found),
          limited-IsWithin q.limit sorted,
          λ at.
              let (member, good) = to (out (limited-In q.limit r sorted at)) in (member, met good),
          λ (at, good). unlimited receipts q r (into (from (at, meets good))),
        )
