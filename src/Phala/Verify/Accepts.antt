-- ===== src/Phala/Verify/Accepts.antt =====
-- What an accepting verdict says of the receipt.
use cool_sdk.Prelude.{
  ◌≡◌, inl, inr, refl, ap, sym, ◌∙◌, Bool, true, false, not, ◌&&◌, Option, none, some, List, arith,
  Bool-cases, text_eq, text_eq_iff,
}
use cool_sdk.Prelude.Map
use cool_sdk.Codec.{Bytes}
use cool_sdk.Sign.{Crypto, DirectoryEntry, bind, hybrid_verify}
use cool_sdk.Phala.Receipt.{
  SthCore, RecordCoreV2, ReceiptV2, core_of, binding_hash_of, record_signing_message,
}
use cool_sdk.Phala.Quote.{QuoteEncoders}
use cool_sdk.Phala.Verify.{
  DomainStatusV2, Reason, Domain, VerdictChecksV2, VerdictV2, VerifyArgsV2, AnchorReader, or_zero,
  is_pass, is_fail, is_pass_or_absent,
}
use cool_sdk.Phala.Verify.Domains.{
  binding_domain, signature_domain, inclusion_domain, witnesses_domain, attestation_domain,
}
use cool_sdk.Phala.Verify.Enclave.{enclave_domain, anchor_domain}
use cool_sdk.Phala.Verify.Verdict.{
  accepted, lacks_hardware, lacks_witnesses, verdict_of, verify_well_formed, verify_receipt,
}

-- A chain that returns has returned at its first step.
pub bind-some :
    {A B : Type 0} (m : Option A) (f : A → Option B) (b : B)
    → bind m f ≡ some b
    → (a : A) × (m ≡ some a) × (f a ≡ some b)
bind-some none f b h = cc h
bind-some (some a) f b h = (a, refl, h)

module _ (c : Crypto) (e : QuoteEncoders) (encode_core : RecordCoreV2 → Option Bytes)
    (encode_sth : SthCore → Option Bytes) where
  -- The binding is the hash of the record's core.
  abbrev pub IsBound : ReceiptV2 → Type 0
  IsBound r = binding_hash_of c.sha256 encode_core (core_of r.signed) ≡ some r.binding_hash

  -- The directory has the signer's keys, and both signatures are of the core and the binding.
  abbrev pub IsSigned : ReceiptV2 → Type 0
  IsSigned r =
      (entry : DirectoryEntry) × (message : Bytes) × (Map.get r.signed.signature.key_id
          r.key_directory
        ≡ some entry)
      × (record_signing_message c.sha256 encode_core (core_of r.signed) r.binding_hash
          ≡ some message)
      × ((hybrid_verify c message r.signed.signature entry).ok ≡ true)

  binding-IsBound :
      (r : ReceiptV2) (d : Domain)
      → binding_domain c e encode_core encode_sth r ≡ some d
      → is_pass d.0 ≡ true
      → IsBound r
  unfolding binding_domain
  binding-IsBound r d h ok =
      let (recomputed, found, judged) =
        bind-some (binding_hash_of c.sha256 encode_core (core_of r.signed)) _ d h in
      elim (Bool-cases (text_eq recomputed r.binding_hash)) [
        | inl same ↦ found ∙ ap some ((text_eq_iff recomputed r.binding_hash).0 same)
        | inr other ↦ absurd (ground arith)
      ]

  signature-IsSigned :
      (r : ReceiptV2) (entry : Option DirectoryEntry) (d : Domain)
      → Map.get r.signed.signature.key_id r.key_directory ≡ entry
      → signature_domain c e encode_core encode_sth r entry ≡ some d
      → is_pass d.0 ≡ true
      → IsSigned r
  unfolding signature_domain
  signature-IsSigned r none d at h ok = absurd (ground arith)
  signature-IsSigned r (some entry) d at h ok =
      let (message, found, judged) =
        bind-some (record_signing_message c.sha256 encode_core (core_of r.signed) r.binding_hash) _
          d h in
      elim (Bool-cases (hybrid_verify c message r.signed.signature entry).ok) [
        | inl good ↦ (entry, message, at, found, good)
        | inr bad ↦ absurd (ground arith)
      ]

  module _ (reader : AnchorReader) where
    -- The domains that a verdict is made of.
    abbrev pub Stages : ReceiptV2 → VerifyArgsV2 → VerdictV2 → Type 0
    Stages r options v =
        (binding : Domain) × (signature : Domain) × (inclusion : Domain)
        × (witnesses : DomainStatusV2) × (attestation : Domain) × (enclave : Domain)
        × (reasons : List Reason) × (binding_domain c e encode_core encode_sth r ≡ some binding)
        × (signature_domain c e encode_core encode_sth r
              (Map.get r.signed.signature.key_id r.key_directory)
            ≡ some signature)
        × (inclusion_domain c e encode_core encode_sth r ≡ some inclusion)
        × (witnesses_domain c e encode_core encode_sth r (or_zero options.witness_threshold)
            ≡ some witnesses)
        × (attestation_domain c e encode_core encode_sth r options ≡ some attestation)
        × (enclave_domain c e r (Map.get r.signed.signature.key_id r.key_directory) options
              attestation.0
            ≡ some enclave)
        × (v
            ≡ verdict_of r options
                (record {
                  binding = binding.0;
                  signature = signature.0;
                  inclusion = inclusion.0;
                  witnesses = witnesses;
                  attestation = attestation.0;
                  enclave = enclave.0;
                  anchor = (anchor_domain reader r).0;
                })
                reasons)

    pub verdict-Stages :
        (r : ReceiptV2) (options : VerifyArgsV2) (v : VerdictV2)
        → verify_receipt c e encode_core encode_sth reader (some r) options ≡ some v
        → Stages r options v
    unfolding verify_receipt verify_well_formed
    verdict-Stages r options v h =
        let (b, b_is, h₁) = bind-some _ _ _ h in
        let (s, s_is, h₂) = bind-some _ _ _ h₁ in
        let (i, i_is, h₃) = bind-some _ _ _ h₂ in
        let (w, w_is, h₄) = bind-some _ _ _ h₃ in
        let (a, a_is, h₅) = bind-some _ _ _ h₄ in
        let (n, n_is, h₆) = bind-some _ _ _ h₅ in
        (b, s, i, w, a, n, _, b_is, s_is, i_is, w_is, a_is, n_is, sym (some_injective h₆))
      where
        some_injective : {x y : VerdictV2} → some x ≡ some y → x ≡ y
        some_injective h = cc

  -- An accepting verdict has the parts of its conjunction.
  pub accepted-parts :
      (r : ReceiptV2) (options : VerifyArgsV2) (checks : VerdictChecksV2) (reasons : List Reason)
      → (verdict_of r options checks reasons).ok ≡ true
      → (is_pass checks.binding ≡ true)
        × (is_pass checks.signature ≡ true)
        × (is_pass_or_absent checks.inclusion ≡ true)
        × (is_fail checks.enclave ≡ false)
        × (is_fail checks.attestation ≡ false)
        × (lacks_hardware options checks ≡ false)
        × (lacks_witnesses options checks ≡ false)
  unfolding verdict_of accepted
  accepted-parts r options checks reasons h =
      parts (is_pass checks.binding) (is_pass checks.signature) (is_pass_or_absent checks.inclusion)
        (is_fail checks.enclave) (is_fail checks.attestation) (lacks_hardware options checks)
        (lacks_witnesses options checks) h
    where
      parts :
          (p q s t u v w : Bool)
          → (p && q && s && not t && not u && not v && not w) ≡ true
          → (p ≡ true)
            × (q ≡ true)
            × (s ≡ true)
            × (t ≡ false)
            × (u ≡ false)
            × (v ≡ false)
            × (w ≡ false)
      parts p q s t u v w h = ground arith

  -- What `verifyReceiptV2` accepts has the hash of its core as its binding, and both signatures of
  -- its signer, with the keys of its directory, over the core and the binding; its inclusion proof
  -- passes or is absent, and neither its quote nor its enclave binding failed.
  pub verify_receipt_authentic :
      (reader : AnchorReader) (r : ReceiptV2) (options : VerifyArgsV2) (v : VerdictV2)
      → verify_receipt c e encode_core encode_sth reader (some r) options ≡ some v
      → v.ok ≡ true
      → IsBound r
        × IsSigned r
        × (is_pass_or_absent v.checks.inclusion ≡ true)
        × (is_fail v.checks.enclave ≡ false)
        × (is_fail v.checks.attestation ≡ false)
  unfolding verdict_of
  verify_receipt_authentic reader r options v h ok =
      let (b, s, i, w, a, n, reasons, b_is, s_is, i_is, w_is, a_is, n_is, is) =
        verdict-Stages reader r options v h in
      let (b_ok, s_ok, i_ok, n_ok, a_ok, _, _) =
        accepted-parts r options _ reasons (ap (λ x. x.ok) (sym is) ∙ ok) in
      (
        binding-IsBound r b b_is b_ok,
        signature-IsSigned r _ s refl s_is s_ok,
        ap (λ x. is_pass_or_absent x.checks.inclusion) is ∙ i_ok,
        ap (λ x. is_fail x.checks.enclave) is ∙ n_ok,
        ap (λ x. is_fail x.checks.attestation) is ∙ a_ok,
      )
