-- ===== src/Phala/Verify/Bound.antt =====
-- What binds a record to the quote beside it, and what `requireHardware` asks for.
use cool_sdk.Prelude.{
  ◌≡◌, ◌⊎◌, inl, inr, refl, ap, sym, ◌∙◌, Bool, true, false, not, ◌&&◌, Option, none, some, [],
  if◌then◌else◌, arith, Bool-cases, text_eq, text_eq_iff,
}
use cool_sdk.Prelude.Map
use cool_sdk.Codec.{Bytes, Text}
use cool_sdk.Sign.{Crypto, DirectoryEntry}
use cool_sdk.Phala.Receipt.{SthCore, RecordCoreV2, Measurement, QuoteEnvelope, ReceiptV2}
use cool_sdk.Phala.Quote.{QuoteEncoders, measurement_equals, enclave_report_data, quote_digest}
use cool_sdk.Phala.Verify.{
  DomainStatusV2, pass, simulated, not_pinned, unattested, Domain, fail_with, VerdictV2,
  VerifyArgsV2, AnchorReader, is_pass, is_fail,
}
use cool_sdk.Phala.Verify.Enclave.{
  or_pin, differs_from_pin, is_simulated, after_key, after_measurement, after_digest, enclave_with,
  enclave_domain,
}
use cool_sdk.Phala.Verify.Verdict.{lacks_hardware, verdict_of, verify_receipt}
use cool_sdk.Phala.Verify.Accepts.{bind-some, verdict-Stages, accepted-parts}
use cool_sdk.Phala.Verify.Hardware.{IsVendorVerified, attestation-pass}

some_injective : {x y : Domain} → some x ≡ some y → x ≡ y
some_injective h = cc

module _ (c : Crypto) (e : QuoteEncoders) where
  -- The quote names the signer's keys, and a pinned measurement is the quote's.
  abbrev KeyBound : ReceiptV2 → QuoteEnvelope → Option DirectoryEntry → VerifyArgsV2 → Type 0
  KeyBound r quote signer options =
      (entry : DirectoryEntry) × (signer ≡ some entry)
      × (enclave_report_data c e entry ≡ some quote.body.report_data)
      × (differs_from_pin (or_pin options.expected_measurement r.attestation.expected_measurement)
            quote
          ≡ false)

  -- The record names the digest of the quote and has its measurement; the quote names the signer's
  -- keys, and a pinned measurement is the quote's.
  abbrev pub IsEnclaveBound : ReceiptV2 → Option DirectoryEntry → VerifyArgsV2 → Type 0
  IsEnclaveBound r signer options =
      (quote : QuoteEnvelope) × (m : Measurement) × (r.attestation.quote ≡ some quote)
      × (quote_digest c e quote ≡ r.signed.core.runtime.tee_quote)
      × (r.signed.core.runtime.enclave_measurement ≡ some m)
      × (measurement_equals m quote.body.measurement ≡ true)
      × KeyBound r quote signer options

  after_key-bound :
      (r : ReceiptV2) (quote : QuoteEnvelope) (options : VerifyArgsV2) (a : DomainStatusV2)
      → is_fail (after_key r quote options a).0 ≡ false
      → differs_from_pin
          (or_pin options.expected_measurement r.attestation.expected_measurement)
          quote
        ≡ false
  unfolding after_key
  after_key-bound r quote options a h =
      first
        (differs_from_pin (or_pin options.expected_measurement r.attestation.expected_measurement)
          quote)
        (options.require_hardware && not (is_pass a)) (is_simulated a) h
    where
      first :
          (p q s : Bool)
          → is_fail
              (if p
                then fail_with not_pinned
                else if q
                then fail_with unattested
                else if s
                then (simulated, [])
                else (pass, [])).0
            ≡ false
          → p ≡ false
      first p q s h = ground arith

  after_measurement-bound :
      (r : ReceiptV2) (quote : QuoteEnvelope) (signer : Option DirectoryEntry)
      (options : VerifyArgsV2) (a : DomainStatusV2) (d : Domain)
      → after_measurement c e r quote signer options a ≡ some d
      → is_fail d.0 ≡ false
      → KeyBound r quote signer options
  unfolding after_measurement
  after_measurement-bound r quote none options a d h ok = absurd (ground arith)
  after_measurement-bound r quote (some entry) options a d h ok =
      let (expected, found, judged) = bind-some (enclave_report_data c e entry) _ d h in
      elim (Bool-cases (text_eq quote.body.report_data expected)) [
        | inl same ↦
            let is : after_key r quote options a ≡ d = ground arith in
            (
              entry,
              refl,
              found ∙ ap some (sym ((text_eq_iff quote.body.report_data expected).0 same)),
              after_key-bound r quote options a (ap (λ x. is_fail x.0) is ∙ ok),
            )
        | inr other ↦ absurd (ground arith)
      ]

  after_digest-bound :
      (r : ReceiptV2) (quote : QuoteEnvelope) (measured : Option Measurement)
      (signer : Option DirectoryEntry) (options : VerifyArgsV2) (a : DomainStatusV2) (d : Domain)
      → after_digest c e r quote measured signer options a ≡ some d
      → is_fail d.0 ≡ false
      → (m : Measurement) × (measured ≡ some m)
        × (measurement_equals m quote.body.measurement ≡ true)
        × KeyBound r quote signer options
  unfolding after_digest
  after_digest-bound r quote none signer options a d h ok = absurd (ground arith)
  after_digest-bound r quote (some m) signer options a d h ok =
      elim (Bool-cases (measurement_equals m quote.body.measurement)) [
        | inl same ↦
            let rest : after_measurement c e r quote signer options a ≡ some d = ground arith in
            (m, refl, same, after_measurement-bound r quote signer options a d rest ok)
        | inr other ↦ absurd (ground arith)
      ]

  enclave_with-bound :
      (r : ReceiptV2) (q : Option QuoteEnvelope) (t : Option Text) (signer : Option DirectoryEntry)
      (options : VerifyArgsV2) (a : DomainStatusV2) (d : Domain)
      → enclave_with c e r q t signer options a ≡ some d
      → is_fail d.0 ≡ false
      → (q ≡ none)
        ⊎ (t ≡ none)
        ⊎ ((quote : QuoteEnvelope) × (m : Measurement) × (q ≡ some quote)
            × (quote_digest c e quote ≡ t)
            × (r.signed.core.runtime.enclave_measurement ≡ some m)
            × (measurement_equals m quote.body.measurement ≡ true)
            × KeyBound r quote signer options)
  unfolding enclave_with
  enclave_with-bound r none t signer options a d h ok = inl refl
  enclave_with-bound r (some quote) none signer options a d h ok = inr (inl refl)
  enclave_with-bound r (some quote) (some tee) signer options a d h ok =
      let (digest, found, judged) = bind-some (quote_digest c e quote) _ d h in
      elim (Bool-cases (text_eq digest tee)) [
        | inl same ↦
            let rest : after_digest c e r quote r.signed.core.runtime.enclave_measurement signer
                  options a
                ≡ some d =
              ground arith in
            let (m, measured, equal, bound) =
              after_digest-bound r quote r.signed.core.runtime.enclave_measurement signer options a
                d rest ok in
            inr (
              inr (
                quote,
                m,
                refl,
                found ∙ ap some ((text_eq_iff digest tee).0 same),
                measured,
                equal,
                bound,
              ))
        | inr other ↦ absurd (ground arith)
      ]

module _ (c : Crypto) (e : QuoteEncoders) (encode_core : RecordCoreV2 → Option Bytes)
    (encode_sth : SthCore → Option Bytes) (reader : AnchorReader) where
  -- With `requireHardware`, an accepted receipt has a quote that the reader's verifier accepted, no
  -- simulator's root on either side; and the quote is bound to the record and to its signer's keys,
  -- unless the record names no quote.
  pub verify_receipt_hardware :
      (r : ReceiptV2) (options : VerifyArgsV2) (v : VerdictV2)
      → verify_receipt c e encode_core encode_sth reader (some r) options ≡ some v
      → v.ok ≡ true
      → options.require_hardware ≡ true
      → IsVendorVerified r options
        × ((r.signed.core.runtime.tee_quote ≡ none)
            ⊎ IsEnclaveBound c e r (Map.get r.signed.signature.key_id r.key_directory) options)
  unfolding verdict_of lacks_hardware enclave_domain
  verify_receipt_hardware r options v h ok asked =
      let (b, s, i, w, a, n, reasons, b_is, s_is, i_is, w_is, a_is, n_is, is) =
        verdict-Stages c e encode_core encode_sth reader r options v h in
      let (b_ok, s_ok, i_ok, n_ok, a_ok, hardware, _) =
        accepted-parts c e encode_core encode_sth r options _ reasons
          (ap (λ x. x.ok) (sym is) ∙ ok) in
      let passed : is_pass a.0 ≡ true =
        required options.require_hardware (is_pass a.0) asked hardware in
      let vendor = attestation-pass c e encode_core encode_sth r options a a_is passed in
      (
        vendor,
        elim (enclave_with-bound c e r r.attestation.quote r.signed.core.runtime.tee_quote
            (Map.get r.signed.signature.key_id r.key_directory) options a.0 n n_is n_ok) [
              | inl no_quote ↦ cc vendor.2
              | inr (inl no_digest) ↦ inl no_digest
              | inr (inr bound) ↦ inr bound
            ],
      )
    where
      required : (p q : Bool) → p ≡ true → (p && not q) ≡ false → q ≡ true
      required p q h k = ground arith
