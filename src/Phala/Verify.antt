-- ===== src/Phala/Verify.antt =====
-- src/phala/verify.ts, `verifyReceiptV2`: the seven domains of a verdict. The details of a domain
-- are left out; the reasons are data, in the order in which they are pushed. The reader of a
-- timestamp proof and its check against the chain are parameters, and so are the encoders.
pub mod Domains
pub mod Enclave
pub mod Verdict
pub mod Accepts
pub mod Hardware
pub mod Bound
pub mod Quorum
pub mod Logged
use Prim.Native.String
use cool_sdk.Prelude.{
  ℕ, suc, String, Bool, true, false, not, ◌&&◌, ◌||◌, Option, none, some, List, [], ◌∷◌, ◌++◌, ltb,
  leb, ◌==◌, if◌then◌else◌, text_eq,
}
use cool_sdk.Prelude.Map
use cool_sdk.Codec.{Bytes, Text, bytes_equal}
use cool_sdk.Multihash.{multihash_digest}
use cool_sdk.Merkle.{leaf_hash, verify_inclusion}
use cool_sdk.Sign.{Crypto, SignatureBlock, DirectoryEntry, HybridVerifyResult, bind, hybrid_verify}
use cool_sdk.Phala.Receipt.{
  KeyDirectory, Inclusion, Witness, SthCore, Sth, TeeVendor, RuntimeMode, Measurement,
  QuoteEnvelope, RecordCoreV2, Subject, event, change, AnchorProof, ReceiptV2, sth_core, core_of,
  record_subject_label, binding_hash_of, record_signing_message, record_leaf_data,
}
use cool_sdk.Phala.Quote.{
  QuoteFault, QuoteVerification, QuoteEncoders, measurement_equals, check_quote_structure,
  is_simulated_root, enclave_report_data, quote_digest, simulated_quote_verifier,
}

pub data DomainStatusV2 : Type 0 where
  pass fail absent mock simulated pending : DomainStatusV2

-- What `reasons` receives.
pub data Reason : Type 0 where
  malformed_receipt binding_mismatch no_signing_key signature_failed : Reason
  sizes_differ index_out_of_range path_refused path_malformed no_sth_key sth_signature_failed :
      Reason
  quote_shape : QuoteFault → Reason
  quote_refused : Reason
  quote_swapped no_measurement measurement_differs other_key not_pinned unattested : Reason
  anchor_without_sth anchor_other_head anchor_other_size anchor_other_digest : Reason
  anchor_unreadable anchor_refused : Reason
  hardware_required witnesses_required : Reason

-- A domain's status, and the reasons that its check pushes.
abbrev pub Domain : Type 0
Domain = DomainStatusV2 × List Reason

abbrev pub fail_with : Reason → Domain
fail_with reason = (fail, reason ∷ [])

pub record VerdictChecksV2 : Type 0 where
  pub binding : DomainStatusV2
  pub signature : DomainStatusV2
  pub inclusion : DomainStatusV2
  pub witnesses : DomainStatusV2
  pub attestation : DomainStatusV2
  pub enclave : DomainStatusV2
  pub anchor : DomainStatusV2

pub data SubjectKind : Type 0 where
  evidence_subject change_subject : SubjectKind

pub record VerdictSubjectV2 : Type 0 where
  pub kind : SubjectKind
  pub subject : String
  pub issued_at : String
  pub record_id : String
  pub key_id : String
  pub tee : String

pub record VerdictV2 : Type 0 where
  pub ok : Bool
  pub subject : Option VerdictSubjectV2
  pub checks : VerdictChecksV2
  pub reasons : List Reason

-- `status` of the answer of `verifyAnchor`.
pub data AnchorStatus : Type 0 where
  confirmed refused unconfirmed : AnchorStatus

-- `Stamp` is a parsed timestamp; `block_headers` is in the answer of `verify_anchor`. A verifier of
-- quotes reports its answer.
pub record VerifyArgsV2 : Type 0 where
  pub witness_threshold : Option ℕ
  pub expected_measurement : Option Measurement
  pub require_hardware : Bool
  pub quote_verifier : Option (QuoteEnvelope → QuoteVerification)

pub record AnchorReader : Type 1 where
  pub Stamp : Type 0
  -- `parseProof(base64ToBytes(…))`: `none` is a throw.
  pub parse_proof : String → Option (Bytes × Stamp)
  pub verify_anchor : Bytes → Stamp → AnchorStatus

abbrev pub or_zero : Option ℕ → ℕ
or_zero none = 0
or_zero (some n) = n

abbrev pub is_pass : DomainStatusV2 → Bool
is_pass pass = true
is_pass _ = false

abbrev pub is_fail : DomainStatusV2 → Bool
is_fail fail = true
is_fail _ = false

abbrev pub is_pass_or_absent : DomainStatusV2 → Bool
is_pass_or_absent pass = true
is_pass_or_absent absent = true
is_pass_or_absent _ = false

abbrev pub vendor_text : TeeVendor → String
vendor_text TeeVendor.no_tee = "none"
vendor_text TeeVendor.intel_tdx = "intel-tdx"
vendor_text TeeVendor.amd_sev_snp = "amd-sev-snp"
vendor_text TeeVendor.nvidia_cc = "nvidia-cc"

abbrev pub mode_text : RuntimeMode → String
mode_text RuntimeMode.mock = "mock"
mode_text RuntimeMode.simulated = "simulated"
mode_text RuntimeMode.hardware = "hardware"

abbrev pub status_text : DomainStatusV2 → String
status_text pass = "pass"
status_text fail = "fail"
status_text absent = "absent"
status_text mock = "mock"
status_text simulated = "simulated"
status_text pending = "pending"

abbrev pub is_hardware : RuntimeMode → Bool
is_hardware RuntimeMode.hardware = true
is_hardware _ = false

abbrev pub kind_of : Subject → SubjectKind
kind_of (event e) = evidence_subject
kind_of (change c) = change_subject

-- `tee` of the verdict's subject: only a verified quote earns the word "hardware".
unfoldable pub tee_label : ReceiptV2 → DomainStatusV2 → String
tee_label r attestation =
    let runtime = r.signed.core.runtime in
    if is_hardware runtime.mode && not (is_pass attestation)
    then String.◌++◌ (vendor_text runtime.tee_vendor) (
        String.◌++◌ " · hardware quote NOT verified (attestation "
          (String.◌++◌ (status_text attestation) ")"))
    else String.◌++◌ (vendor_text runtime.tee_vendor) (String.◌++◌ " · " (mode_text runtime.mode))

-- `verifyReceiptV2` of what is no receipt.
abbrev pub malformed_verdict : VerdictV2
malformed_verdict = record {
  ok = false;
  subject = none;
  checks = record {
    binding = fail;
    signature = fail;
    inclusion = absent;
    witnesses = absent;
    attestation = absent;
    enclave = absent;
    anchor = absent;
  };
  reasons = malformed_receipt ∷ [];
}
