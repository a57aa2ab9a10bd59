-- ===== src/Phala/Verify/Quorum.antt =====
-- What a witness threshold asks for, what it does not, and a quote beside a record that names none.
use cool_sdk.Prelude.{
  ℕ, zero, suc, ◌≤◌, ◌≡◌, ◌⊎◌, All, length, inl, inr, refl, ap, sym, ◌∙◌, Bool, true, false, not,
  ◌&&◌, Option, none, some, List, [], ◌∷◌, arith, ltb, leb, leb→le, Bool-cases,
}
use cool_sdk.Prelude.Map
use cool_sdk.Codec.{Bytes}
use cool_sdk.Sign.{Crypto, DirectoryEntry, hybrid_verify}
use cool_sdk.Phala.Receipt.{KeyDirectory, Witness, SthCore, Sth, RecordCoreV2, ReceiptV2, sth_core}
use cool_sdk.Phala.Quote.{QuoteEncoders}
use cool_sdk.Phala.Verify.{
  DomainStatusV2, pass, absent, Domain, VerdictV2, VerifyArgsV2, AnchorReader, or_zero, is_pass,
  is_fail, is_pass_or_absent,
}
use cool_sdk.Phala.Verify.Domains.{
  witness_signature, is_independent, count_independent, witnesses_with, witnesses_domain,
  quote_answer, attestation_with, attestation_domain,
}
use cool_sdk.Phala.Verify.Enclave.{enclave_with, enclave_domain}
use cool_sdk.Phala.Verify.Verdict.{
  accepted, lacks_hardware, lacks_witnesses, verdict_of, verify_receipt,
}
use cool_sdk.Phala.Verify.Accepts.{bind-some, verdict-Stages, accepted-parts}
use cool_sdk.Phala.Verify.Hardware.{IsVendorVerified}

abbrev pub repeated : ℕ → Witness → List Witness
repeated zero w = []
repeated (suc n) w = w ∷ repeated n w

-- The elements of the one list stand in the other, in their order and each at a place of its own.
abbrev pub IsSublist : List Witness → List Witness → Type 0
IsSublist [] ys = Unit
IsSublist (x ∷ xs) [] = ⊥
IsSublist (x ∷ xs) (y ∷ ys) = ((x ≡ y) × IsSublist xs ys) ⊎ IsSublist (x ∷ xs) ys

IsSublist-skip :
    (xs : List Witness) (y : Witness) (ys : List Witness) → IsSublist xs ys → IsSublist xs (y ∷ ys)
IsSublist-skip [] y ys h = tt
IsSublist-skip (x ∷ xs) y ys h = inr h

module _ (c : Crypto) (e : QuoteEncoders) (encode_core : RecordCoreV2 → Option Bytes)
    (encode_sth : SthCore → Option Bytes) where
  -- A co-signature of a message that is marked external, and verifies under the key that the
  -- directory has for its witness.
  abbrev pub IsIndependent : KeyDirectory → Bytes → Witness → Type 0
  IsIndependent directory message w =
      (w.external ≡ true)
      × ((entry : DirectoryEntry) × (Map.get w.id directory ≡ some entry)
          × ((hybrid_verify c message (witness_signature w) entry).ok ≡ true))

  -- Of the co-signatures on the tree head, each at its own place in the list, as many as are asked
  -- for are external and verify.
  abbrev pub HasQuorum : ReceiptV2 → ℕ → Type 0
  HasQuorum r threshold =
      (sth : Sth) × (message : Bytes) × (counted : List Witness) × (r.sth ≡ some sth)
      × (encode_sth (sth_core sth) ≡ some message)
      × IsSublist counted sth.witnesses
      × All (IsIndependent r.key_directory message) counted
      × (threshold ≤ length counted)

  is_independent-IsIndependent :
      (directory : KeyDirectory) (message : Bytes) (w : Witness)
      → is_independent c e encode_core encode_sth directory message w ≡ true
      → IsIndependent directory message w
  unfolding is_independent
  is_independent-IsIndependent directory message w h =
      of_entry (Map.get w.id directory) refl (both_true w.external _ h)
    where
      verifies : Option DirectoryEntry → Bool
      verifies none = false
      verifies (some entry) = (hybrid_verify c message (witness_signature w) entry).ok

      both_true : (a b : Bool) → (a && b) ≡ true → (a ≡ true) × (b ≡ true)
      both_true a b k = ground arith

      of_entry :
          (found : Option DirectoryEntry)
          → Map.get w.id directory ≡ found
          → (w.external ≡ true) × (verifies found ≡ true)
          → IsIndependent directory message w
      of_entry none at (external, ok) = cc ok
      of_entry (some entry) at (external, ok) = (external, (entry, at, ok))

  -- The co-signatures that the loop counts.
  count_independent-IsSublist :
      (directory : KeyDirectory) (message : Bytes) (ws : List Witness)
      → (counted : List Witness) × IsSublist counted ws
        × All (IsIndependent directory message) counted
        × (count_independent c e encode_core encode_sth directory message ws ≡ length counted)
  unfolding count_independent
  count_independent-IsSublist directory message [] = ([], tt, tt, refl)
  count_independent-IsSublist directory message (w ∷ ws) =
      let (counted, within, good, count) = count_independent-IsSublist directory message ws in
      elim (Bool-cases (is_independent c e encode_core encode_sth directory message w)) [
        | inl counts ↦ (
          w ∷ counted,
          inl (refl, within),
          (is_independent-IsIndependent directory message w counts, good),
          ground arith,
        )
        | inr skipped ↦ (counted, IsSublist-skip counted w ws within, good, ground arith)
      ]

  witnesses_with-pass :
      (r : ReceiptV2) (sth : Option Sth) (threshold : ℕ) (status : DomainStatusV2)
      → r.sth ≡ sth
      → witnesses_with c e encode_core encode_sth r sth threshold ≡ some status
      → is_pass status ≡ true
      → HasQuorum r threshold
  unfolding witnesses_with
  witnesses_with-pass r none threshold status at h ok = absurd (ground arith)
  witnesses_with-pass r (some sth) threshold status at h ok =
      let (message, encoded, judged) = bind-some (encode_sth (sth_core sth)) _ status h in
      let n = count_independent c e encode_core encode_sth r.key_directory message sth.witnesses in
      let (counted, within, good, count) =
        count_independent-IsSublist r.key_directory message sth.witnesses in
      elim (Bool-cases (leb threshold n)) [
        | inl enough ↦
            let reached = leb→le threshold n enough in
            (sth, message, counted, at, encoded, within, good, omega arith)
        | inr few ↦ absurd (ground arith)
      ]

  -- With a positive `witnessThreshold`, an accepted receipt has a tree head on which at least that
  -- many of the listed co-signatures are marked external and verify, under the directory's keys,
  -- over the head. One listed twice counts twice.
  pub verify_receipt-HasQuorum :
      (reader : AnchorReader) (r : ReceiptV2) (options : VerifyArgsV2) (v : VerdictV2) (k : ℕ)
      → verify_receipt c e encode_core encode_sth reader (some r) options ≡ some v
      → v.ok ≡ true
      → options.witness_threshold ≡ some (suc k)
      → HasQuorum r (suc k)
  unfolding verdict_of lacks_witnesses witnesses_domain
  verify_receipt-HasQuorum reader r options v k h ok asked =
      let (b, s, i, w, a, n, reasons, b_is, s_is, i_is, w_is, a_is, n_is, is) =
        verdict-Stages c e encode_core encode_sth reader r options v h in
      let (_, _, _, _, _, _, enough) =
        accepted-parts c e encode_core encode_sth r options _ reasons
          (ap (λ x. x.ok) (sym is) ∙ ok) in
      let threshold : or_zero options.witness_threshold ≡ suc k = ap or_zero asked in
      witnesses_with-pass r r.sth (suc k) w refl
        (ap (λ n. witnesses_with c e encode_core encode_sth r r.sth n) (sym threshold) ∙ w_is)
        (required (or_zero options.witness_threshold) (is_pass w) threshold enough)
    where
      required : (n : ℕ) (q : Bool) → n ≡ suc k → (ltb 0 n && not q) ≡ false → q ≡ true
      required n q e h = ground arith

  count_repeated :
      (r : ReceiptV2) (message : Bytes) (w : Witness) (n : ℕ)
      → is_independent c e encode_core encode_sth r.key_directory message w ≡ true
      → count_independent c e encode_core encode_sth r.key_directory message (repeated n w) ≡ n
  unfolding count_independent
  count_repeated r message w zero h = refl
  count_repeated r message w (suc n) h = rw (h, count_repeated r message w n h) refl

  -- One co-signature that is external and verifies, listed as often as a positive threshold asks,
  -- meets that threshold.
  pub witnesses_domain-repeated :
      (r : ReceiptV2) (sth : Sth) (message : Bytes) (w : Witness) (k : ℕ)
      → r.sth ≡ some sth
      → sth.witnesses ≡ repeated (suc k) w
      → encode_sth (sth_core sth) ≡ some message
      → is_independent c e encode_core encode_sth r.key_directory message w ≡ true
      → witnesses_domain c e encode_core encode_sth r (suc k) ≡ some pass
  unfolding witnesses_domain witnesses_with
  witnesses_domain-repeated r sth message w k at listed encoded good =
      rw (at, encoded, listed, count_repeated r message w (suc k) good) (ground arith)

  -- A record that names no quote, beside a quote that the reader's verifier accepts with no
  -- simulator's root on either side: the attestation passes, the enclave is absent, and with
  -- `requireHardware` or without it the receipt is accepted by its binding, its signatures and its
  -- inclusion proof, and the witnesses asked for.
  pub verify_receipt_stapled :
      (reader : AnchorReader) (r : ReceiptV2) (options : VerifyArgsV2) (v : VerdictV2)
      → verify_receipt c e encode_core encode_sth reader (some r) options ≡ some v
      → r.signed.core.runtime.tee_quote ≡ none
      → IsVendorVerified r options
      → (v.checks.attestation ≡ pass)
        × (v.checks.enclave ≡ absent)
        × (v.ok ≡ (
            is_pass v.checks.binding
            && is_pass v.checks.signature
            && is_pass_or_absent v.checks.inclusion
            && not (lacks_witnesses options v.checks)))
  unfolding verdict_of accepted lacks_hardware attestation_domain attestation_with quote_answer
      enclave_domain enclave_with
  verify_receipt_stapled reader r options v h unnamed
        (quote, verifier, beside, given, shape, good, vendor, root) =
      let (b, s, i, w, a, n, reasons, b_is, s_is, i_is, w_is, a_is, n_is, is) =
        verdict-Stages c e encode_core encode_sth reader r options v h in
      let attested : attestation_domain c e encode_core encode_sth r options ≡ some (pass, []) =
        rw (beside, given, shape, good, vendor, root) refl in
      let unbound : enclave_domain c e r (Map.get r.signed.signature.key_id r.key_directory) options
            a.0
          ≡ some (absent, []) =
        rw (beside, unnamed) refl in
      let a_pass : a.0 ≡ pass = ap (λ d. d.0) (some_injective (sym a_is ∙ attested)) in
      let n_absent : n.0 ≡ absent = ap (λ d. d.0) (some_injective (sym n_is ∙ unbound)) in
      (
        ap (λ x. x.checks.attestation) is ∙ a_pass,
        ap (λ x. x.checks.enclave) is ∙ n_absent,
        rw is (
            conjunction (is_pass b.0) (is_pass s.0) (is_pass_or_absent i.0) options.require_hardware
              (lacks_witnesses options _) a.0 n.0 a_pass n_absent),
      )
    where
      some_injective : {x y : Domain} → some x ≡ some y → x ≡ y
      some_injective h = cc

      conjunction :
          (p q t hardware few : Bool) (a n : DomainStatusV2)
          → a ≡ pass
          → n ≡ absent
          → (p
              && q
              && t
              && not (is_fail n)
              && not (is_fail a)
              && not (hardware && not (is_pass a))
              && not few)
            ≡ (p && q && t && not few)
      conjunction p q t hardware few a n e f = rw (e, f) (ground arith)
