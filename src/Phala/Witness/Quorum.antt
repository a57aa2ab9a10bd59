-- ===== src/Phala/Witness/Quorum.antt =====
-- A co-signature that is made and attached is counted.
use cool_sdk.Prelude.{
  ℕ, suc, ◌+◌, String, ◌≡◌, inl, inr, refl, ap, ap₂, sym, ◌∙◌, Bool, true, false, not, ◌&&◌, ◌||◌,
  Option, some, List, [], ◌∷◌, ◌++◌, arith, ==_iff, if◌then◌else◌, length, some_of, Bool-cases,
  Option-cases, str_eq, eq_iff, text_eq_iff,
}
use cool_sdk.Prelude.Map
use cool_sdk.Codec.{Bytes}
use cool_sdk.Sign.{Crypto, DirectoryEntry, KeyPair, hybrid_sign, hybrid_verify}
use cool_sdk.Sign.Laws.{IsSound, hybrid_verify-hybrid_sign}
use cool_sdk.Phala.Receipt.{KeyDirectory, Witness, SthCore, Sth, ReceiptV2, sth_core}
use cool_sdk.Phala.Verify.Accepts.{bind-some}
use cool_sdk.Phala.Witness.{
  WitnessStatement, WitnessCount, external_witness, is_other_head, is_attached, attach_to,
  attach_witness, count_external, count_self, count_invalid, cosign, is_valid, count_one,
  count_each, count_with, count_witnesses,
}

some_injective : {A : Type 0} {x y : A} → some x ≡ some y → x ≡ y
some_injective h = cc

module _ (c : Crypto) (encode_sth : SthCore → Option Bytes) where
  count_one-external :
      (d : KeyDirectory) (message : Bytes) (w : Witness) (n : WitnessCount)
      → (count_one c encode_sth d message w n).external ≡ (
          if w.external && is_valid c encode_sth message w (Map.get w.id d)
          then suc n.external
          else n.external)
  unfolding count_one
  count_one-external d message w n =
      split w.external (is_valid c encode_sth message w (Map.get w.id d))
    where
      split :
          (p q : Bool)
          → (if not p
              then count_self n
              else if q
              then count_external n
              else count_invalid n).external
            ≡ (if p && q then suc n.external else n.external)
      split p q = ground arith

  -- With another id's keys set, the count is the same.
  count_each-set :
      (d : KeyDirectory) (message : Bytes) (id : String) (entry : DirectoryEntry)
      (ws : List Witness)
      → is_attached ws id ≡ false
      → count_each c encode_sth (Map.set id entry d) message ws
        ≡ count_each c encode_sth d message ws
  unfolding count_each count_one is_attached
  count_each-set d message id entry [] h = refl
  count_each-set d message id entry (w ∷ ws) h =
      let (other, rest) = neither (str_eq w.id id) (some_of (λ w. str_eq w.id id) ws) h in
      let same : Map.get w.id (Map.set id entry d) ≡ Map.get w.id d =
        Map.get-set id w.id entry d
        ∙ ap (λ t. if t then some entry else Map.get w.id d) (flip id w.id other) in
      ap₂
        (λ e n.
          if not w.external
          then count_self n
          else if is_valid c encode_sth message w e
          then count_external n
          else count_invalid n)
        same (count_each-set d message id entry ws rest)
    where
      neither : (p q : Bool) → (p || q) ≡ false → (p ≡ false) × (q ≡ false)
      neither p q h = ground arith

      flip : (a b : String) → str_eq b a ≡ false → str_eq a b ≡ false
      flip a b h = ground (arith, eq_iff a b, eq_iff b a)

  count_each-append :
      (d : KeyDirectory) (message : Bytes) (w : Witness) (ws : List Witness)
      → w.external ≡ true
      → is_valid c encode_sth message w (Map.get w.id d) ≡ true
      → (count_each c encode_sth d message (ws ++ w ∷ [])).external
        ≡ suc (count_each c encode_sth d message ws).external
  unfolding count_each is_valid
  count_each-append d message w [] external valid =
      count_one-external d message w (record { external = 0; self = 0; invalid = 0 })
      ∙ rw (external, valid) refl
  count_each-append d message w (v ∷ ws) external valid =
      let rest = count_each-append d message w ws external valid in
      count_one-external d message v (count_each c encode_sth d message (ws ++ w ∷ []))
      ∙ later (v.external && is_valid c encode_sth message v (Map.get v.id d))
          (count_each c encode_sth d message (ws ++ w ∷ [])).external
          (count_each c encode_sth d message ws).external rest
      ∙ ap suc (sym (count_one-external d message v (count_each c encode_sth d message ws)))
    where
      later :
          (p : Bool) (a b : ℕ) → a ≡ suc b → (if p then suc a else a) ≡ suc (if p then suc b else b)
      later p a b h = ground arith

  total_of : WitnessCount → ℕ
  total_of n = n.external + n.self + n.invalid

  -- Each co-signature is counted once.
  count_each-length :
      (d : KeyDirectory) (message : Bytes) (ws : List Witness)
      → total_of (count_each c encode_sth d message ws) ≡ length ws
  unfolding total_of count_each count_one
  count_each-length d message [] = refl
  count_each-length d message (w ∷ ws) =
      split (w.external) (is_valid c encode_sth message w (Map.get w.id d))
        (count_each c encode_sth d message ws) (count_each-length d message ws)
    where
      split :
          (p q : Bool) (n : WitnessCount)
          → total_of n ≡ length ws
          → total_of
              (if not p then count_self n else if q then count_external n else count_invalid n)
            ≡ suc (length ws)
      split false q n h =
          let e : n.external + suc n.self + n.invalid ≡ suc (length ws) = omega (arith, h) in e
      split true true n h =
          let e : suc n.external + n.self + n.invalid ≡ suc (length ws) = omega (arith, h) in e
      split true false n h =
          let e : n.external + n.self + suc n.invalid ≡ suc (length ws) = omega (arith, h) in e

  -- `attachWitness` takes only a statement about the receipt's own head, and keeps that head.
  attach_witness-head :
      (r after : ReceiptV2) (s : WitnessStatement)
      → attach_witness r s ≡ some after
      → (sth : Sth) × (r.sth ≡ some sth)
        × (is_other_head s sth ≡ false)
        × (after ≡ attach_to r s sth)
  unfolding attach_witness
  attach_witness-head r after s h = elim (Option-cases r.sth) [
    | inl absent ↦ absurd (ground arith)
    | inr (sth, at) ↦ elim (Bool-cases (is_other_head s sth)) [
      | inl other ↦ absurd (ground arith)
      | inr own ↦ (sth, at, own, ground arith)
    ]
  ]

  -- What `cosign` makes of an encoded head.
  abbrev statement : Sth → KeyPair → Bytes → WitnessStatement
  statement sth key message = record {
    witness_id = key.key_id;
    log_id = sth.log_id;
    tree_size = sth.tree_size;
    root_hash = sth.root_hash;
    observed_at = sth.timestamp;
    witness = external_witness key.key_id (hybrid_sign c message key);
    directory_entry = key.directory_entry;
  }

  own_head :
      (sth : Sth) (key : KeyPair) (message : Bytes)
      → is_other_head (statement sth key message) sth ≡ false
  unfolding is_other_head
  own_head sth key message =
      rw
        (
          (eq_iff sth.log_id sth.log_id).1 refl,
          (==_iff sth.tree_size sth.tree_size).1 refl,
          (text_eq_iff sth.root_hash sth.root_hash).1 refl,
          (eq_iff sth.timestamp sth.timestamp).1 refl,
        )
        refl

  same_block :
      (key : KeyPair) (message : Bytes)
      → (hybrid_verify c message
          (record {
            key_id = key.key_id;
            ml_dsa = (hybrid_sign c message key).ml_dsa;
            ed25519 = (hybrid_sign c message key).ed25519;
          })
          key.directory_entry).ok
        ≡ (hybrid_verify c message (hybrid_sign c message key) key.directory_entry).ok
  unfolding hybrid_sign
  same_block key message = refl

  cosigned-is_valid :
      (d : KeyDirectory) (key : KeyPair) (message : Bytes)
      → IsSound c key
      → is_valid c encode_sth message
          (external_witness key.key_id (hybrid_sign c message key))
          (Map.get key.key_id (Map.set key.key_id key.directory_entry d))
        ≡ true
  unfolding is_valid
  cosigned-is_valid d key message sound =
      let found : Map.get key.key_id (Map.set key.key_id key.directory_entry d)
          ≡ some key.directory_entry =
        Map.get-set key.key_id key.key_id key.directory_entry d
        ∙ ap (λ t. if t then some key.directory_entry else Map.get key.key_id d)
            ((eq_iff key.key_id key.key_id).1 refl) in
      rw found (same_block key message ∙ hybrid_verify-hybrid_sign c key message sound)

  -- A witness whose signatures verify, that co-signs a receipt's head and is attached to a receipt
  -- that has no co-signature under its id yet, makes the count of external ones greater by one.
  pub count_witnesses-attach_witness :
      (r : ReceiptV2) (sth : Sth) (key : KeyPair) (s : WitnessStatement) (before : WitnessCount)
      → IsSound c key
      → r.sth ≡ some sth
      → is_attached sth.witnesses key.key_id ≡ false
      → cosign c encode_sth sth key ≡ some s
      → count_witnesses c encode_sth r ≡ some before
      → (after : ReceiptV2) × (n : WitnessCount) × (attach_witness r s ≡ some after)
        × (count_witnesses c encode_sth after ≡ some n)
        × (n.external ≡ suc before.external)
  unfolding cosign attach_witness count_witnesses count_with sth_core
  count_witnesses-attach_witness r sth key s before sound at fresh signed counted =
      let (message, encoded, made) = bind-some (encode_sth (sth_core sth)) _ s signed in
      let s_is : statement sth key message ≡ s = some_injective made in
      let w = external_witness key.key_id (hybrid_sign c message key) in
      let d = Map.set key.key_id key.directory_entry r.key_directory in
      let counted_before : some (count_each c encode_sth r.key_directory message sth.witnesses)
          ≡ some before =
        rw (← counted, at, encoded) refl in
      (
        attach_to r s sth,
        count_each c encode_sth d message (sth.witnesses ++ w ∷ []),
        rw (at, ← s_is, own_head sth key message) refl,
        rw (← s_is, fresh, encoded) refl,
        count_each-append d message w sth.witnesses refl
              (cosigned-is_valid r.key_directory key message sound)
            ∙ ap suc (
                ap (λ n. n.external)
                  (count_each-set r.key_directory message key.key_id key.directory_entry
                      sth.witnesses fresh
                    ∙ some_injective counted_before)),
      )
