-- ===== src/Phala/Verify/Logged.antt =====
-- What an accepted inclusion proof says of the log behind it.
use cool_sdk.Prelude.{
  ℕ, ◌≤◌, ◌<◌, ◌≡◌, ◌⊎◌, inl, inr, refl, ap, ap₂, sym, ◌∙◌, Bool, true, false, Option, none, some,
  List, [], length, get_elem?, All, arith, ◌==◌, ==_iff, leb, Bool-cases,
}
use cool_sdk.Prelude.Map
use cool_sdk.Codec.{Bytes}
use cool_sdk.Multihash.{multihash_digest}
use cool_sdk.Merkle.{leaf_hash, merkle_root, verify_inclusion}
use cool_sdk.Merkle.Power.{max_leaves}
use cool_sdk.Merkle.Sound.{Collision, verify_inclusion_sound}
use cool_sdk.Sign.{Crypto, DirectoryEntry, hybrid_verify}
use cool_sdk.Phala.Receipt.{
  Inclusion, SthCore, Sth, RecordCoreV2, ReceiptV2, sth_core, record_leaf_data,
}
use cool_sdk.Phala.Quote.{QuoteEncoders}
use cool_sdk.Phala.Verify.{pass, Domain, VerdictV2, VerifyArgsV2, AnchorReader, is_pass_or_absent}
use cool_sdk.Phala.Verify.Domains.{
  digests, root_ok, sth_signature_domain, after_root, inclusion_with, inclusion_domain,
}
use cool_sdk.Phala.Verify.Verdict.{verdict_of, verify_receipt}
use cool_sdk.Phala.Verify.Accepts.{bind-some, verdict-Stages, accepted-parts}

module _ (c : Crypto) (e : QuoteEncoders) (encode_core : RecordCoreV2 → Option Bytes)
    (encode_sth : SthCore → Option Bytes) where
  -- The directory has the keys of the log's signer, and both signatures are of the tree head.
  abbrev pub IsHeadSigned : ReceiptV2 → Sth → Type 0
  IsHeadSigned r sth =
      (entry : DirectoryEntry) × (message : Bytes) × (Map.get sth.signature.key_id r.key_directory
        ≡ some entry)
      × (encode_sth (sth_core sth) ≡ some message)
      × ((hybrid_verify c message sth.signature entry).ok ≡ true)

  sth_signature-signed :
      (r : ReceiptV2) (sth : Sth) (entry : Option DirectoryEntry) (d : Domain)
      → Map.get sth.signature.key_id r.key_directory ≡ entry
      → sth_signature_domain c e encode_core encode_sth sth entry ≡ some d
      → is_pass_or_absent d.0 ≡ true
      → IsHeadSigned r sth
  sth_signature-signed r sth none d at h ok = absurd (ground arith)
  sth_signature-signed r sth (some entry) d at h ok =
      let (message, encoded, judged) = bind-some (encode_sth (sth_core sth)) _ d h in
      elim (Bool-cases (hybrid_verify c message sth.signature entry).ok) [
        | inl good ↦ (entry, message, at, encoded, good)
        | inr bad ↦ absurd (ground arith)
      ]

  after_root-true :
      (r : ReceiptV2) (sth : Sth) (answer : Option Bool) (d : Domain)
      → after_root c e encode_core encode_sth r sth answer ≡ some d
      → is_pass_or_absent d.0 ≡ true
      → (answer ≡ some true) × IsHeadSigned r sth
  after_root-true r sth none d h ok = absurd (ground arith)
  after_root-true r sth (some false) d h ok = absurd (ground arith)
  after_root-true r sth (some true) d h ok =
      (refl, sth_signature-signed r sth (Map.get sth.signature.key_id r.key_directory) d refl h ok)

  -- A proof that is present and did not fail reconstructs the root of a signed head.
  inclusion_with-signed :
      (r : ReceiptV2) (inc : Inclusion) (sth : Sth) (d : Domain)
      → inclusion_with c e encode_core encode_sth r (some inc) (some sth) ≡ some d
      → is_pass_or_absent d.0 ≡ true
      → (root_ok c e encode_core encode_sth r inc sth ≡ some true) × IsHeadSigned r sth
  unfolding inclusion_with
  inclusion_with-signed r inc sth d h ok = elim (Bool-cases (inc.tree_size == sth.tree_size)) [
    | inl same ↦ elim (Bool-cases (leb sth.tree_size inc.leaf_index)) [
      | inl out ↦ absurd (ground arith)
      | inr inside ↦
          after_root-true r sth (root_ok c e encode_core encode_sth r inc sth) d (ground arith) ok
    ]
    | inr other ↦ absurd (ground arith)
  ]

  accepted_inclusion :
      (reader : AnchorReader) (r : ReceiptV2) (options : VerifyArgsV2) (v : VerdictV2)
      (inc : Inclusion) (sth : Sth)
      → verify_receipt c e encode_core encode_sth reader (some r) options ≡ some v
      → v.ok ≡ true
      → r.inclusion ≡ some inc
      → r.sth ≡ some sth
      → (root_ok c e encode_core encode_sth r inc sth ≡ some true) × IsHeadSigned r sth
  unfolding verdict_of inclusion_domain
  accepted_inclusion reader r options v inc sth h ok inc_is sth_is =
      let (b, s, i, w, a, n, reasons, b_is, s_is, i_is, w_is, a_is, n_is, is) =
        verdict-Stages c e encode_core encode_sth reader r options v h in
      let (_, _, i_ok, _, _, _, _) =
        accepted-parts c e encode_core encode_sth r options _ reasons
          (ap (λ x. x.ok) (sym is) ∙ ok) in
      let with_both : inclusion_with c e encode_core encode_sth r (some inc) (some sth) ≡ some i =
        rw (sym inc_is, sym sth_is) i_is in
      inclusion_with-signed r inc sth i with_both i_ok

  -- Of an accepted receipt with an inclusion proof and a tree head, both signatures on the head
  -- verify over it, under the keys that the receipt's directory has for the head's signer.
  pub verify_receipt-IsHeadSigned :
      (reader : AnchorReader) (r : ReceiptV2) (options : VerifyArgsV2) (v : VerdictV2)
      (inc : Inclusion) (sth : Sth)
      → verify_receipt c e encode_core encode_sth reader (some r) options ≡ some v
      → v.ok ≡ true
      → r.inclusion ≡ some inc
      → r.sth ≡ some sth
      → IsHeadSigned r sth
  verify_receipt-IsHeadSigned reader r options v inc sth h ok inc_is sth_is =
      (accepted_inclusion reader r options v inc sth h ok inc_is sth_is).1

  -- Let SHA-256 give 32 bytes, and let a tree head be the root of at most 2^30 hashes of 32 bytes,
  -- as many as its size says. Then of an accepted receipt with this head and an inclusion proof the
  -- head is signed, and the leaf of the record's binding stands among the hashes at the proof's
  -- index, or a collision is at hand.
  pub verify_receipt_logged :
      ((x : Bytes) → length (c.sha256 x) ≡ 32)
      → (reader : AnchorReader) (r : ReceiptV2) (options : VerifyArgsV2) (v : VerdictV2)
        (inc : Inclusion) (sth : Sth) (hashes : List Bytes)
      → verify_receipt c e encode_core encode_sth reader (some r) options ≡ some v
      → v.ok ≡ true
      → r.inclusion ≡ some inc
      → r.sth ≡ some sth
      → multihash_digest sth.root_hash ≡ some (merkle_root c.sha256 hashes)
      → sth.tree_size ≡ length hashes
      → length hashes ≤ max_leaves
      → All (λ h. length h ≡ 32) hashes
      → IsHeadSigned r sth
        × ((leaf : Bytes) × (record_leaf_data r.binding_hash ≡ some leaf)
            × (Collision c.sha256
                ⊎ (get_elem? hashes inc.leaf_index ≡ some (leaf_hash c.sha256 leaf))))
  unfolding root_ok leaf_hash
  verify_receipt_logged size reader r options v inc sth hashes h ok inc_is sth_is rooted counted
        small sizes =
      let (reconstructs, signed) =
        accepted_inclusion reader r options v inc sth h ok inc_is sth_is in
      let (leaf, leaf_is, h₁) = bind-some (record_leaf_data r.binding_hash) _ true reconstructs in
      let (path, path_is, h₂) = bind-some (digests inc.audit_path) _ true h₁ in
      let (root, root_is, h₃) = bind-some (multihash_digest sth.root_hash) _ true h₂ in
      let same : root ≡ merkle_root c.sha256 hashes = some_injective (sym root_is ∙ rooted) in
      let accepted =
        at_root (leaf_hash c.sha256 leaf) inc.leaf_index path same counted (injective h₃) in
      (
        signed,
        (
          leaf,
          leaf_is,
          elim (verify_inclusion_sound c.sha256 size hashes inc.leaf_index (leaf_hash c.sha256 leaf)
              path small sizes (size _) accepted) [
                | inl collision ↦ inl collision
                | inr (at, _) ↦ inr at
              ],
        ),
      )
    where
      some_injective : {x y : Bytes} → some x ≡ some y → x ≡ y
      some_injective h = cc

      injective : {x y : Bool} → some x ≡ some y → x ≡ y
      injective h = cc

      at_root :
          {n m : ℕ} {x y : Bytes} (leaf : Bytes) (i : ℕ) (path : List Bytes)
          → x ≡ y
          → n ≡ m
          → verify_inclusion c.sha256 leaf i n path x ≡ true
          → verify_inclusion c.sha256 leaf i m path y ≡ true
      at_root leaf i path p q h =
          ap₂ (λ n x. verify_inclusion c.sha256 leaf i n path x) (sym q) (sym p) ∙ h

  -- A proof that reconstructs the root of a head that is signed passes.
  pub inclusion_domain-pass :
      (r : ReceiptV2) (inc : Inclusion) (sth : Sth) (leaf root message : Bytes) (path : List Bytes)
      (entry : DirectoryEntry)
      → r.inclusion ≡ some inc
      → r.sth ≡ some sth
      → inc.tree_size ≡ sth.tree_size
      → inc.leaf_index < sth.tree_size
      → record_leaf_data r.binding_hash ≡ some leaf
      → digests inc.audit_path ≡ some path
      → multihash_digest sth.root_hash ≡ some root
      → verify_inclusion c.sha256 (leaf_hash c.sha256 leaf) inc.leaf_index sth.tree_size path root
        ≡ true
      → Map.get sth.signature.key_id r.key_directory ≡ some entry
      → encode_sth (sth_core sth) ≡ some message
      → (hybrid_verify c message sth.signature entry).ok ≡ true
      → inclusion_domain c e encode_core encode_sth r ≡ some (pass, [])
  unfolding inclusion_domain inclusion_with root_ok
  inclusion_domain-pass r inc sth leaf root message path entry i s sizes below l p m good k en ok =
      let same : (inc.tree_size == sth.tree_size) ≡ true =
        (==_iff inc.tree_size sth.tree_size).1 sizes in
      let inside : leb sth.tree_size inc.leaf_index ≡ false = ground arith in
      rw (i, s, same, inside, l, p, m, good, k, en, ok) refl
