-- ===== src/Phala/Verify/Verdict.antt =====
-- `verifyReceiptV2` over the domains.
use cool_sdk.Sign.{◌>>=◌}
use cool_sdk.Prelude.{Bool, true, false, not, ◌&&◌, Option, none, some, List, [], ◌∷◌, ◌++◌, ltb}
use cool_sdk.Prelude.Map
use cool_sdk.Codec.{Bytes}
use cool_sdk.Sign.{Crypto}
use cool_sdk.Phala.Receipt.{
  KeyDirectory, SthCore, RecordCoreV2, ReceiptV2, core_of, record_subject_label,
}
use cool_sdk.Phala.Quote.{QuoteEncoders}
use cool_sdk.Phala.Verify.{
  Reason, hardware_required, witnesses_required, VerdictChecksV2, VerdictV2, VerifyArgsV2,
  AnchorReader, or_zero, is_pass, is_fail, is_pass_or_absent, kind_of, tee_label, malformed_verdict,
}
use cool_sdk.Phala.Verify.Domains.{
  binding_domain, signature_domain, inclusion_domain, witnesses_domain, attestation_domain,
}
use cool_sdk.Phala.Verify.Enclave.{enclave_domain, anchor_domain}

abbrev pub reason_if : Bool → Reason → List Reason
reason_if true reason = reason ∷ []
reason_if false reason = []

-- `ok` before the options are considered.
unfoldable pub accepted : VerdictChecksV2 → Bool
accepted checks =
    is_pass checks.binding
    && is_pass checks.signature
    && is_pass_or_absent checks.inclusion
    && not (is_fail checks.enclave)
    && not (is_fail checks.attestation)

unfoldable pub lacks_hardware : VerifyArgsV2 → VerdictChecksV2 → Bool
lacks_hardware options checks = options.require_hardware && not (is_pass checks.attestation)

unfoldable pub lacks_witnesses : VerifyArgsV2 → VerdictChecksV2 → Bool
lacks_witnesses options checks =
    ltb 0 (or_zero options.witness_threshold) && not (is_pass checks.witnesses)

unfoldable pub verdict_of : ReceiptV2 → VerifyArgsV2 → VerdictChecksV2 → List Reason → VerdictV2
verdict_of r options checks reasons = record {
  ok =
      accepted checks
      && not (lacks_hardware options checks)
      && not (lacks_witnesses options checks);
  subject = some (record {
    kind = kind_of r.signed.core.subject;
    subject = record_subject_label (core_of r.signed);
    issued_at = r.signed.core.time.issued_at;
    record_id = r.signed.core.record_id;
    key_id = r.signed.signature.key_id;
    tee = tee_label r checks.attestation;
  });
  checks = checks;
  reasons =
      reasons
      ++ reason_if (lacks_hardware options checks) hardware_required
      ++ reason_if (lacks_witnesses options checks) witnesses_required;
}

module _ (c : Crypto) (e : QuoteEncoders) (encode_core : RecordCoreV2 → Option Bytes)
    (encode_sth : SthCore → Option Bytes) (reader : AnchorReader) where
  unfoldable pub verify_well_formed : ReceiptV2 → VerifyArgsV2 → Option VerdictV2
  verify_well_formed r options = do
    let entry = Map.get r.signed.signature.key_id r.key_directory
    binding ← binding_domain c e encode_core encode_sth r
    signature ← signature_domain c e encode_core encode_sth r entry
    inclusion ← inclusion_domain c e encode_core encode_sth r
    witnesses ← witnesses_domain c e encode_core encode_sth r (or_zero options.witness_threshold)
    attestation ← attestation_domain c e encode_core encode_sth r options
    enclave ← enclave_domain c e r entry options attestation.0
    let anchor = anchor_domain reader r
    some (
        verdict_of r options
          (record {
            binding = binding.0;
            signature = signature.0;
            inclusion = inclusion.0;
            witnesses = witnesses;
            attestation = attestation.0;
            enclave = enclave.0;
            anchor = anchor.0;
          })
          (binding.1 ++ signature.1 ++ inclusion.1 ++ attestation.1 ++ enclave.1 ++ anchor.1))

  -- `verifyReceiptV2`, given the receipt that `validateReceiptV2Shape` finds, if it does.
  unfoldable pub verify_receipt : Option ReceiptV2 → VerifyArgsV2 → Option VerdictV2
  verify_receipt none options = some malformed_verdict
  verify_receipt (some r) options = verify_well_formed r options

-- `{ ...receipt.key_directory, ...trusted }`
unfoldable pub set_all : KeyDirectory → KeyDirectory → KeyDirectory
set_all directory [] = directory
set_all directory ((id, entry) ∷ trusted) = set_all (Map.set id entry directory) trusted

-- withTrustedKeys
unfoldable pub with_trusted_keys : ReceiptV2 → KeyDirectory → ReceiptV2
with_trusted_keys r trusted = record r { key_directory = set_all r.key_directory trusted }
