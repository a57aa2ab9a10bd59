-- ===== src/Phala/Consistency/Heads.antt =====
-- The tree heads of `verifyLogConsistency`, when no reason is pushed.
use cool_sdk.Prelude.{
  ℕ, arith, ◌≡◌, refl, ap, sym, ◌∙◌, ◌⊎◌, inl, inr, Bool, true, false, Option, none, some, List, [],
  ◌∷◌, take, All, In, ◌==◌, Bool-cases, Option-cases, text_eq, text_eq_iff, ==_iff,
}
use cool_sdk.Codec.{Bytes, Text}
use cool_sdk.Multihash.{multihash_digest}
use cool_sdk.Merkle.{merkle_root}
use cool_sdk.Sign.{Crypto}
use cool_sdk.Phala.Receipt.{SthCore}
use cool_sdk.Phala.Verify.Accepts.{bind-some}
use cool_sdk.Phala.Consistency.{
  NumberMap, Headed, ConsistencyReason, at_key, put, fork, or_prior, head_by_size, reason_unless,
  head_entry, ConsistencyHead, ConsistencyOptions, head_unsigned, root_differs,
}
use cool_sdk.Phala.Consistency.Check.{root_matches, check_head, check_heads, signed_by}
use cool_sdk.Phala.Consistency.Maps.{
  some_injective, no_reasons, at_key-put, at_key-put-kept, at_key-put_here,
}

fork-none :
    (size : ℕ) (h prior : Headed) (o : Option Headed)
    → fork size h o ≡ []
    → o ≡ some prior
    → prior.sth.root_hash ≡ h.sth.root_hash
unfolding fork
fork-none size h prior none e at = cc at
fork-none size h prior (some p) e at = elim (Bool-cases (text_eq p.sth.root_hash h.sth.root_hash)) [
  | inl same ↦
      ap (λ x. x.sth.root_hash) (some_injective (sym at))
      ∙ (text_eq_iff p.sth.root_hash h.sth.root_hash).0 same
  | inr other ↦ absurd (ground arith)
]

or_prior-some : (o : Option Headed) (h w : Headed) → o ≡ some w → w ≡ or_prior o h
or_prior-some none h w e = cc e
or_prior-some (some p) h w e = some_injective (sym e)

or_prior-root :
    (size : ℕ) (h : Headed) (o : Option Headed)
    → fork size h o ≡ []
    → (or_prior o h).sth.root_hash ≡ h.sth.root_hash
or_prior-root size h none quiet = refl
or_prior-root size h (some p) quiet = fork-none size h p (some p) quiet refl

prior-source : (o : Option Headed) (h : Headed) → (o ≡ some (or_prior o h)) ⊎ (or_prior o h ≡ h)
prior-source none h = inr refl
prior-source (some p) h = inl refl

reason_unless-none :
    (b : Bool) (reason : ConsistencyReason) → reason_unless b reason ≡ [] → b ≡ true
reason_unless-none true reason e = refl
reason_unless-none false reason e = cc e

abbrev pub HasHead : NumberMap Headed → Headed → Type 0
HasHead by_size h =
    (prior : Headed) × (at_key h.sth.tree_size by_size ≡ some prior)
    × (prior.sth.root_hash ≡ h.sth.root_hash)

head_by_size-kept :
    (seen : NumberMap Headed) (hs : List Headed) (k : ℕ) (h : Headed)
    → at_key k seen ≡ some h
    → at_key k (head_by_size seen hs).0 ≡ some h
unfolding head_by_size
head_by_size-kept seen [] k h at = at
head_by_size-kept seen (g ∷ hs) k h at =
    let size = g.sth.tree_size in
    let new = or_prior (at_key size seen) g in
    head_by_size-kept (put size new seen) hs k h
      (at_key-put-kept size k new h seen (λ w found. or_prior-some (at_key size seen) g w found) at)

pub head_by_size-HasHead :
    (seen : NumberMap Headed) (hs : List Headed)
    → (head_by_size seen hs).1 ≡ []
    → All (HasHead (head_by_size seen hs).0) hs
unfolding head_by_size
head_by_size-HasHead seen [] quiet = tt
head_by_size-HasHead seen (h ∷ hs) quiet =
    let size = h.sth.tree_size in
    let new = or_prior (at_key size seen) h in
    let later = put size new seen in
    let (no_fork, none_after) =
      no_reasons (fork size h (at_key size seen)) (head_by_size later hs).1 quiet in
    (
      (
        new,
        head_by_size-kept later hs size new (at_key-put_here size new seen),
        or_prior-root size h (at_key size seen) no_fork,
      ),
      head_by_size-HasHead later hs none_after,
    )

-- A head found at a size is that of a receipt of the size.
pub head_by_size-source :
    (seen : NumberMap Headed) (hs : List Headed) (k : ℕ) (g : Headed)
    → at_key k (head_by_size seen hs).0 ≡ some g
    → (at_key k seen ≡ some g) ⊎ (In g hs × (g.sth.tree_size ≡ k))
unfolding head_by_size
head_by_size-source seen [] k g at = inl at
head_by_size-source seen (h ∷ hs) k g at =
    let size = h.sth.tree_size in
    let new = or_prior (at_key size seen) h in
    elim (head_by_size-source (put size new seen) hs k g at) [
      | inr (further, same) ↦ inr (inr further, same)
      | inl here ↦ elim (Bool-cases (size == k)) [
        | inr other ↦ let put_at = at_key-put size k new seen in inl (ground arith)
        | inl equal ↦
            let e : size ≡ k = (==_iff size k).0 equal in
            let is : some new ≡ some g =
              sym (at_key-put_here size new seen)
              ∙ ap (λ n. at_key n (put size new seen)) e
              ∙ here in
            elim (prior-source (at_key size seen) h) [
              | inl prior ↦ inl (ap (λ n. at_key n seen) (sym e) ∙ prior ∙ is)
              | inr own ↦
                  let same : h ≡ g = sym own ∙ some_injective is in
                  inr (inl same, ap (λ x. x.sth.tree_size) (sym same) ∙ e)
            ]
      ]
    ]

module _ (c : Crypto) (encode_sth : SthCore → Option Bytes) (options : ConsistencyOptions)
    (leaves : List Bytes) where
  -- The head at a size: its root is that of the leaves it covers, and it is signed.
  abbrev pub IsSound : NumberMap Headed → ℕ → Type 0
  IsSound by_size size =
      (h : Headed) × (at_key size by_size ≡ some h)
      × (multihash_digest h.sth.root_hash ≡ some (merkle_root c.sha256 (take size leaves)))
      × (signed_by c encode_sth h.sth (head_entry options h) ≡ some true)

  root_matches-some :
      (size : ℕ) (root : Text)
      → root_matches c encode_sth leaves size root ≡ true
      → multihash_digest root ≡ some (merkle_root c.sha256 (take size leaves))
  unfolding root_matches
  root_matches-some size root h = elim (Option-cases (multihash_digest root)) [
    | inl missing ↦ absurd (ground arith)
    | inr (digest, found) ↦
        let test : text_eq (merkle_root c.sha256 (take size leaves)) digest ≡ true = ground arith in
        found
        ∙ ap some (sym ((text_eq_iff (merkle_root c.sha256 (take size leaves)) digest).0 test))
  ]

  check_head_sound :
      (size : ℕ) (h : Headed) (out : ConsistencyHead × List ConsistencyReason)
      → check_head c encode_sth options leaves size h ≡ some out
      → out.1 ≡ []
      → (multihash_digest h.sth.root_hash ≡ some (merkle_root c.sha256 (take size leaves)))
        × (signed_by c encode_sth h.sth (head_entry options h) ≡ some true)
  unfolding check_head
  check_head_sound size h out e quiet =
      let (signed, judged, e₁) =
        bind-some (signed_by c encode_sth h.sth (head_entry options h)) _ out e in
      let matched = root_matches c encode_sth leaves size h.sth.root_hash in
      let (no_unsigned, no_other) =
        no_reasons (reason_unless signed (head_unsigned size))
          (reason_unless matched (root_differs size)) (ap (λ o. o.1) (some_injective e₁) ∙ quiet) in
      (
        root_matches-some size h.sth.root_hash
            (reason_unless-none matched (root_differs size) no_other),
        judged ∙ ap some (reason_unless-none signed (head_unsigned size) no_unsigned),
      )

  pub check_heads-IsSound :
      (by_size : NumberMap Headed) (sizes : List ℕ)
      (out : List ConsistencyHead × List ConsistencyReason)
      → check_heads c encode_sth options leaves by_size sizes ≡ some out
      → out.1 ≡ []
      → All (IsSound by_size) sizes
  unfolding check_heads
  check_heads-IsSound by_size [] out e quiet = tt
  check_heads-IsSound by_size (size ∷ sizes) out e quiet =
      let (h, found, e₁) = bind-some (at_key size by_size) _ out e in
      let (first, checked, e₂) =
        bind-some (check_head c encode_sth options leaves size h) _ out e₁ in
      let (rest, others, e₃) =
        bind-some (check_heads c encode_sth options leaves by_size sizes) _ out e₂ in
      let (here, after) = no_reasons first.1 rest.1 (ap (λ o. o.1) (some_injective e₃) ∙ quiet) in
      let (root, signed) = check_head_sound size h first checked here in
      ((h, found, root, signed), check_heads-IsSound by_size sizes rest others after)
