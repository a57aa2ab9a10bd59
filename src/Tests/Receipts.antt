-- ===== src/Tests/Receipts.antt =====
-- src/phala/verify.ts on a receipt whose encoders give one byte.
use cool_sdk.Prelude.{◌≡◌, refl, true, Option, none, some, [], ◌∷◌, ◌++◌, codes}
use cool_sdk.Codec.{Bytes, Text}
use cool_sdk.Sign.{SignatureBlock, DirectoryEntry}
use cool_sdk.Codec
use cool_sdk.Multihash
use cool_sdk.Merkle
use cool_sdk.Sign
use cool_sdk.Phala.Receipt
use cool_sdk.Phala.Quote
use cool_sdk.Phala.Verify
use cool_sdk.Phala.Verify.Domains
use cool_sdk.Phala.Verify.Enclave
use cool_sdk.Phala.Verify.Verdict
use cool_sdk.Phala.Quote.{QuoteVerification, QuoteEncoders}
use cool_sdk.Phala.Verify.{
  DomainStatusV2, pass, absent, change_subject, evidence_subject, VerdictV2, VerifyArgsV2,
  AnchorReader, refused,
}
use cool_sdk.Phala.Verify.Verdict.{verify_receipt}
use cool_sdk.Tests.Data.{schemes, zeros}
use cool_sdk.Tests.Signatures.{issuer_key}

abbrev pub one_byte : QuoteEncoders
one_byte = record {
  encode_entry = λ x. some (7 ∷ []);
  encode_measurement = λ x. some (7 ∷ []);
  encode_body = λ x. some (7 ∷ []);
  encode_quote = λ x. some (7 ∷ []);
}

abbrev pub core_byte : Receipt.RecordCoreV2 → Option Bytes
core_byte core = some (5 ∷ [])

abbrev pub head_byte : Receipt.SthCore → Option Bytes
head_byte core = some (6 ∷ [])

abbrev pub no_chain : AnchorReader
no_chain = record { Stamp = Unit; parse_proof = λ p. none; verify_anchor = λ d s. refused }

abbrev pub vendor_says_yes : Receipt.QuoteEnvelope → QuoteVerification
vendor_says_yes q = record {
  ok = true;
  root = Receipt.AttestationRoot.intel_dcap;
  tcb_status = "UpToDate";
}

abbrev pub register : Text
register = codes "hex:0000000000000000000000000000000000000000000000000000000000000000"

abbrev pub image : Receipt.Measurement
image = record {
  mrtd = register;
  rtmr0 = register;
  rtmr1 = register;
  rtmr2 = register;
  rtmr3 = register;
}

abbrev pub quote : Receipt.QuoteEnvelope
quote = record {
  format = Receipt.QuoteFormat.dstack_tdx_v4;
  root = Receipt.AttestationRoot.intel_dcap;
  body = record {
    vendor = Receipt.TeeVendor.intel_tdx;
    measurement = image;
    report_data =
        codes "mh:sha256:ca00000000000000000000000000000000000000000000000000000000000000";
    tcb_status = "UpToDate";
    app_id = "app";
    instance_id = "instance";
    issued_at = "2026-01-01T00:00:00Z";
  };
  signature = none;
  raw = some (codes "base64:AA==");
}

-- The issuer's signature of a message.
abbrev pub signed_by_issuer : Bytes → SignatureBlock
signed_by_issuer m = record {
  key_id = "issuer";
  ml_dsa = codes "base64:" ++ 1 ∷ 2 ∷ m;
  ed25519 = codes "base64:" ++ 3 ∷ 4 ∷ m;
}

abbrev pub co_signature : Receipt.Witness
co_signature = record {
  id = "issuer";
  external = true;
  ml_dsa = codes "base64:" ++ 1 ∷ 2 ∷ 6 ∷ [];
  ed25519 = codes "base64:" ++ 3 ∷ 4 ∷ 6 ∷ [];
}

abbrev pub head : Receipt.Sth
head = record {
  log_id = "log";
  tree_size = 1;
  root_hash = codes "mh:sha256:2900000000000000000000000000000000000000000000000000000000000000";
  timestamp = "2026-01-01T00:00:01Z";
  signature = signed_by_issuer (6 ∷ []);
  witnesses = co_signature ∷ [];
}

abbrev pub proof : Receipt.Inclusion
proof = record { leaf_index = 0; tree_size = 1; audit_path = [] }

abbrev pub run_event : Receipt.EvidenceSubject
run_event = record {
  event_type = "model.execution";
  application_id = "app";
  execution_id = "run";
  metadata_hash = [];
  metadata_salt = [];
  commitments = record {
    input = none;
    input_salt = none;
    output = none;
    output_salt = none;
    state = none;
    state_salt = none;
  };
  software = none;
}

abbrev pub core_with : Option Text → Receipt.RecordCoreV2
core_with tee_quote = record {
  record_id = "01";
  time = record { issued_at = "2026-01-01T00:00:00Z"; seq = 1 };
  subject = Receipt.event run_event;
  runtime = record {
    tee_vendor = Receipt.TeeVendor.intel_tdx;
    mode = Receipt.RuntimeMode.mock;
    enclave_measurement = some image;
    tee_quote = tee_quote;
    gpu = none;
  };
}

abbrev pub receipt_with : Option Text → Receipt.ReceiptV2
receipt_with tee_quote = record {
  signed = record { core = core_with tee_quote; signature = signed_by_issuer (5 ∷ 22 ∷ zeros 31) };
  binding_hash = codes "mh:sha256:1600000000000000000000000000000000000000000000000000000000000000";
  inclusion = some proof;
  sth = some head;
  attestation = record {
    mode = Receipt.RuntimeMode.hardware;
    note = "note";
    quote = some quote;
    expected_measurement = none;
    key_binding = none;
  };
  anchor = none;
  key_directory = ("issuer", issuer_key.directory_entry) ∷ [];
}

abbrev pub quote_name : Text
quote_name = codes "mh:sha256:1800000000000000000000000000000000000000000000000000000000000000"

abbrev pub bound_receipt : Receipt.ReceiptV2
bound_receipt = receipt_with (some quote_name)

abbrev pub stapled_receipt : Receipt.ReceiptV2
stapled_receipt = receipt_with none

abbrev pub strict : VerifyArgsV2
strict = record {
  witness_threshold = some 1;
  expected_measurement = some image;
  require_hardware = true;
  quote_verifier = some vendor_says_yes;
}

abbrev pub verdict_with : DomainStatusV2 → VerdictV2
verdict_with enclave = record {
  ok = true;
  subject = some (record {
    kind = evidence_subject;
    subject = "model.execution (app)";
    issued_at = "2026-01-01T00:00:00Z";
    record_id = "01";
    key_id = "issuer";
    tee = "intel-tdx · mock";
  });
  checks = record {
    binding = pass;
    signature = pass;
    inclusion = pass;
    witnesses = pass;
    attestation = pass;
    enclave = enclave;
    anchor = absent;
  };
  reasons = [];
}

pub bound_accepted :
    verify_receipt schemes one_byte core_byte head_byte no_chain (some bound_receipt) strict
    ≡ some (verdict_with pass)
unfolding verify_receipt Verdict.verify_well_formed Domains.binding_domain Receipt.binding_hash_of
    Domains.signature_domain Receipt.record_signing_message Multihash.multihash_digest
    Domains.inclusion_domain Domains.inclusion_with Domains.root_ok Receipt.record_leaf_data
    Domains.digests Merkle.verify_inclusion Codec.bytes_equal Merkle.leaf_hash
    Domains.witnesses_domain Domains.witnesses_with Codec.concat_bytes Codec.diff_from
    Codec.from_hex Codec.pairs Codec.to_hex Merkle.climb Merkle.root_from_inclusion_proof
    Multihash.is_multihash Multihash.mh_sha256 Quote.check_quote_structure Quote.enclave_report_data
    Quote.is_register Quote.measurement_equals Quote.quote_digest Receipt.core_of
    Receipt.record_subject_label Receipt.sth_core Domains.attestation_domain
    Domains.attestation_with Domains.count_independent Domains.is_independent Domains.quote_answer
    Domains.witness_signature Enclave.after_digest Enclave.after_key Enclave.after_measurement
    Enclave.anchor_domain Enclave.anchor_with Enclave.enclave_domain Enclave.enclave_with
    Verdict.accepted Verdict.lacks_hardware Verdict.lacks_witnesses Verdict.verdict_of
    Verify.tee_label Sign.from_base64_field Sign.hybrid_verify Sign.verify_ed25519
    Sign.verify_ml_dsa
bound_accepted = refl

pub stapled_accepted :
    verify_receipt schemes one_byte core_byte head_byte no_chain (some stapled_receipt) strict
    ≡ some (verdict_with absent)
unfolding verify_receipt Verdict.verify_well_formed Domains.binding_domain Receipt.binding_hash_of
    Domains.signature_domain Receipt.record_signing_message Multihash.multihash_digest
    Domains.inclusion_domain Domains.inclusion_with Domains.root_ok Receipt.record_leaf_data
    Domains.digests Merkle.verify_inclusion Codec.bytes_equal Merkle.leaf_hash
    Domains.witnesses_domain Domains.witnesses_with Codec.concat_bytes Codec.diff_from
    Codec.from_hex Codec.pairs Codec.to_hex Merkle.climb Merkle.root_from_inclusion_proof
    Multihash.is_multihash Multihash.mh_sha256 Quote.check_quote_structure Quote.enclave_report_data
    Quote.is_register Quote.measurement_equals Quote.quote_digest Receipt.core_of
    Receipt.record_subject_label Receipt.sth_core Domains.attestation_domain
    Domains.attestation_with Domains.count_independent Domains.is_independent Domains.quote_answer
    Domains.witness_signature Enclave.after_digest Enclave.after_key Enclave.after_measurement
    Enclave.anchor_domain Enclave.anchor_with Enclave.enclave_domain Enclave.enclave_with
    Verdict.accepted Verdict.lacks_hardware Verdict.lacks_witnesses Verdict.verdict_of
    Verify.tee_label Sign.from_base64_field Sign.hybrid_verify Sign.verify_ed25519
    Sign.verify_ml_dsa
stapled_accepted = refl
