-- ===== src/Phala/Receipt.antt =====
-- src/phala/types.ts, the envelope `cool.receipt.v2`, the log structures of src/types.ts, and the
-- bytes of src/phala/record.ts and src/record.ts that are hashed, signed and logged. A literal type
-- is a data type; hashes, salts, keys and signatures are texts by their code units.
use Prim.Native.String
use cool_sdk.Prelude.{ℕ, String, Bool, Option, none, some, List, ◌++◌}
use cool_sdk.Prelude.Map.{Map}
use cool_sdk.Codec.{Bytes, Text}
use cool_sdk.Multihash.{mh_sha256, multihash_digest}
use cool_sdk.Sign.{SignatureBlock, DirectoryEntry}

abbrev pub KeyDirectory : Type 0
KeyDirectory = Map DirectoryEntry

pub record RecordTime : Type 0 where
  pub issued_at : String
  pub seq : ℕ

pub record Inclusion : Type 0 where
  pub leaf_index : ℕ
  pub tree_size : ℕ
  pub audit_path : List Text

pub record Witness : Type 0 where
  pub id : String
  pub external : Bool
  pub ml_dsa : Text
  pub ed25519 : Text

pub record SthCore : Type 0 where
  pub log_id : String
  pub tree_size : ℕ
  pub root_hash : Text
  pub timestamp : String

pub record Sth : Type 0 where
  pub log_id : String
  pub tree_size : ℕ
  pub root_hash : Text
  pub timestamp : String
  pub signature : SignatureBlock
  pub witnesses : List Witness

pub data TeeVendor : Type 0 where
  no_tee intel_tdx amd_sev_snp nvidia_cc : TeeVendor

pub data RuntimeMode : Type 0 where
  mock simulated hardware : RuntimeMode

pub data AttestationRoot : Type 0 where
  intel_dcap amd_kds nvidia_nras cool_sim_root no_root : AttestationRoot

pub data QuoteFormat : Type 0 where
  dstack_tdx_v4 dstack_sevsnp_v1 nvidia_cc_v1 cool_sim_v1 : QuoteFormat

pub record Measurement : Type 0 where
  pub mrtd : Text
  pub rtmr0 : Text
  pub rtmr1 : Text
  pub rtmr2 : Text
  pub rtmr3 : Text

pub record QuoteBody : Type 0 where
  pub vendor : TeeVendor
  pub measurement : Measurement
  pub report_data : Text
  pub tcb_status : String
  pub app_id : String
  pub instance_id : String
  pub issued_at : String

pub record QuoteEnvelope : Type 0 where
  pub format : QuoteFormat
  pub root : AttestationRoot
  pub body : QuoteBody
  pub signature : Option SignatureBlock
  pub raw : Option Text

pub data GpuVerdict : Type 0 where
  verified unverified simulated : GpuVerdict

pub record GpuAttestationRef : Type 0 where
  pub gpu_model : String
  pub evidence_hash : Text
  pub verdict : GpuVerdict

pub record RuntimeBlockV2 : Type 0 where
  pub tee_vendor : TeeVendor
  pub mode : RuntimeMode
  pub enclave_measurement : Option Measurement
  pub tee_quote : Option Text
  pub gpu : Option GpuAttestationRef

pub record SoftwareIdentity : Type 0 where
  pub name : String
  pub version : String
  pub digest : Option Text

pub record EvidenceCommitments : Type 0 where
  pub input : Option Text
  pub input_salt : Option Text
  pub output : Option Text
  pub output_salt : Option Text
  pub state : Option Text
  pub state_salt : Option Text

-- The field `type` of the source is `event_type`.
pub record EvidenceSubject : Type 0 where
  pub event_type : String
  pub application_id : String
  pub execution_id : String
  pub metadata_hash : Text
  pub metadata_salt : Text
  pub commitments : EvidenceCommitments
  pub software : Option SoftwareIdentity

pub data ChangeKind : Type 0 where
  prompt model params policy dataset agent_permission tool : ChangeKind

pub record ChangeActor : Type 0 where
  pub id : String
  pub method : String

pub data ApprovalDecision : Type 0 where
  auto_approved approved rejected waived : ApprovalDecision

pub record ChangeApproval : Type 0 where
  pub policy_id : String
  pub decision : ApprovalDecision
  pub approvers : List String

-- The field `ref` of the source is `target`.
pub record ChangeSubject : Type 0 where
  pub kind : ChangeKind
  pub target : String
  pub environment : String
  pub before_hash : Option Text
  pub before_salt : Option Text
  pub after_hash : Text
  pub after_salt : Text
  pub diff_hash : Text
  pub actor : ChangeActor
  pub approval : Option ChangeApproval

-- What the two schemas do not share: `cool.evidence.v1` and `cool.change.v2`.
pub data Subject : Type 0 where
  event : EvidenceSubject → Subject
  change : ChangeSubject → Subject

pub record RecordCoreV2 : Type 0 where
  pub record_id : String
  pub time : RecordTime
  pub subject : Subject
  pub runtime : RuntimeBlockV2

pub record SignedRecordV2 : Type 0 where
  pub core : RecordCoreV2
  pub signature : SignatureBlock

pub record AttestationV2 : Type 0 where
  pub mode : RuntimeMode
  pub note : String
  pub quote : Option QuoteEnvelope
  pub expected_measurement : Option Measurement
  pub key_binding : Option Text

pub record AnchorProof : Type 0 where
  pub target : Text
  pub tree_size : ℕ
  pub proof : String
  pub calendars : List String
  pub submitted_at : String
  pub heights : List ℕ

-- The field `record` of the source is `signed`.
pub record ReceiptV2 : Type 0 where
  pub signed : SignedRecordV2
  pub binding_hash : Text
  pub inclusion : Option Inclusion
  pub sth : Option Sth
  pub attestation : AttestationV2
  pub anchor : Option AnchorProof
  pub key_directory : KeyDirectory

unfoldable pub sth_core : Sth → SthCore
sth_core sth = record {
  log_id = sth.log_id;
  tree_size = sth.tree_size;
  root_hash = sth.root_hash;
  timestamp = sth.timestamp;
}

-- coreOfV2
unfoldable pub core_of : SignedRecordV2 → RecordCoreV2
core_of r = r.core

-- signedRecordV2
unfoldable pub signed_record : RecordCoreV2 → SignatureBlock → SignedRecordV2
signed_record core signature = record { core = core; signature = signature }

abbrev pub kind_text : ChangeKind → String
kind_text prompt = "prompt"
kind_text model = "model"
kind_text params = "params"
kind_text policy = "policy"
kind_text dataset = "dataset"
kind_text agent_permission = "agent-permission"
kind_text tool = "tool"

abbrev pub label_of : Subject → String
label_of (event e) = String.◌++◌ e.event_type (String.◌++◌ " (" (String.◌++◌ e.application_id ")"))
label_of (change c) = String.◌++◌ (kind_text c.kind) (String.◌++◌ ": " c.target)

unfoldable pub record_subject_label : RecordCoreV2 → String
record_subject_label core = label_of core.subject

-- The canonical encoder is a library: `none` is a throw.
module _ (sha256 : Bytes → Bytes) (encode_core : RecordCoreV2 → Option Bytes) where
  -- bindingHashV2
  unfoldable pub binding_hash_of : RecordCoreV2 → Option Text
  binding_hash_of core = elim (encode_core core) [
    | none ↦ none
    | some bytes ↦ some (mh_sha256 sha256 bytes)
  ]

  -- recordSigningMessageV2
  unfoldable pub record_signing_message : RecordCoreV2 → Text → Option Bytes
  record_signing_message core binding =
      let digest = multihash_digest binding in
      elim (encode_core core) [
        | none ↦ none
        | some bytes ↦ elim digest [ none ↦ none | some d ↦ some (bytes ++ d) ]
      ]

-- recordLeafDataV2
unfoldable pub record_leaf_data : Text → Option Bytes
record_leaf_data binding = multihash_digest binding
