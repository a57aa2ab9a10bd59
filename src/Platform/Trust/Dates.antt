-- ===== src/Platform/Trust/Dates.antt =====
-- What the comparisons of `TrustStore.evaluate` say of its dates and purposes.
use cool_sdk.Prelude.{
  ℕ, ◌+◌, ◌≤◌, ◌<◌, String, ◌≡◌, ◌⊎◌, ◌↔◌, inl, inr, refl, ap, sym, ◌∙◌, true, false, Option, none,
  some, List, [], ◌∷◌, arith, In, truthy, ◌==◌, ==_iff, Bool-cases, Option-cases,
}
use cool_sdk.Platform.Trust.{
  KeyPurpose, purpose_index, has_purpose, before, past_optional, not_proven_before, is_older,
}

same_purpose : (a b : KeyPurpose) → (purpose_index a == purpose_index b) ≡ true → a ≡ b
same_purpose a b h = ground arith

pub has_purpose_iff :
    (purposes : List KeyPurpose) (p : KeyPurpose) → (has_purpose purposes p ≡ true) ↔ In p purposes
unfolding has_purpose
has_purpose_iff [] p = (λ h. cc h, λ at. absurd at)
has_purpose_iff (q ∷ purposes) p =
    let (to, from) = has_purpose_iff purposes p in
    elim (Bool-cases (purpose_index q == purpose_index p)) [
      | inl same ↦ rw same (λ h. inl (same_purpose q p same), λ at. refl)
      | inr other ↦ rw other (
        λ h. inr (to h),
        λ at. elim at [
          | inl e ↦ cc (
              sym other
              ∙ ap (λ x. purpose_index x == purpose_index p) e
              ∙ (==_iff (purpose_index p) (purpose_index p)).1 refl)
          | inr further ↦ from further
        ],
      )
    ]

pub begun_iff :
    (at : ℕ) (date : Option ℕ)
    → (before at date ≡ false) ↔ ((date ≡ none) ⊎ ((t : ℕ) × (date ≡ some t) × (t ≤ at)))
begun_iff at none = (λ h. inl refl, λ h. refl)
begun_iff at (some d) = (
  λ h. inr (d, refl, ground arith),
  λ h. elim h [ inl e ↦ cc e | inr (t, e, below) ↦ ground arith ],
)

abbrev pub IsFresh : ℕ → Option ℕ → Option ℕ → Type 0
IsFresh now as_of none = Unit
IsFresh now none (some age) = Unit
IsFresh now (some as_of) (some age) = now ≤ as_of + age

module _ (date_parse : String → Option ℕ) where
  -- A date that cannot be read bounds nothing, nor does an absent or an empty one.
  abbrev pub IsNotAfter : ℕ → Option String → Type 0
  IsNotAfter at none = Unit
  IsNotAfter at (some date) =
      (truthy date ≡ false)
      ⊎ (date_parse date ≡ none)
      ⊎ ((t : ℕ) × (date_parse date ≡ some t) × (at ≤ t))

  -- A time that is proven, and lies before the date where that can be read.
  abbrev pub IsProvenBefore : Option ℕ → String → Type 0
  IsProvenBefore proven date =
      (p : ℕ) × (proven ≡ some p)
      × ((date_parse date ≡ none) ⊎ ((t : ℕ) × (date_parse date ≡ some t) × (p < t)))

  pub past_optional-IsNotAfter :
      (at : ℕ) (date : Option String)
      → (past_optional date_parse at date ≡ false) ↔ IsNotAfter at date
  past_optional-IsNotAfter at none = (λ h. tt, λ h. refl)
  past_optional-IsNotAfter at (some date) = elim (Bool-cases (truthy date)) [
    | inr empty ↦ rw empty (λ h. inl refl, λ h. refl)
    | inl given ↦ elim (Option-cases (date_parse date)) [
      | inl unread ↦ rw (given, unread) (λ h. inr (inl refl), λ h. refl)
      | inr (t, read) ↦
          rw (given, read)
            (
              λ h. inr (inr (t, refl, ground arith)),
              λ h. elim h [
                | inl e ↦ cc e
                | inr (inl e) ↦ cc e
                | inr (inr (u, e, below)) ↦ ground arith
              ],
            )
    ]
  ]

  pub proven_iff :
      (proven : Option ℕ) (date : String)
      → (not_proven_before proven (date_parse date) ≡ false) ↔ IsProvenBefore proven date
  proven_iff none date = (λ h. cc h, λ (p, e, h). cc e)
  proven_iff (some p) date = elim (Option-cases (date_parse date)) [
    | inl unread ↦ rw unread (λ h. (p, refl, inl refl), λ h. refl)
    | inr (t, read) ↦ rw read (
      λ h. (p, refl, inr (t, refl, ground arith)),
      λ (u, e, h). elim h [ inl k ↦ cc k | inr (v, k, below) ↦ ground arith ],
    )
  ]

  pub is_older-IsFresh :
      (now : ℕ) (as_of age : Option ℕ)
      → (is_older date_parse now as_of age ≡ false) ↔ IsFresh now as_of age
  is_older-IsFresh now as_of none = (λ h. tt, λ h. refl)
  is_older-IsFresh now none (some age) = (λ h. tt, λ h. refl)
  is_older-IsFresh now (some as_of) (some age) = (λ h. ground arith, λ h. ground arith)
