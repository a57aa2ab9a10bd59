-- ===== src/Phala/Compliance.antt =====
-- src/phala/compliance.ts: which obligations the receipts cover. A share is a fraction.
pub mod Gaps
use cool_sdk.Prelude.{
  ℕ, suc, String, Bool, true, false, not, ◌&&◌, Option, none, some, List, [], ◌∷◌, ltb, ◌==◌,
  if◌then◌else◌, map, length,
}
use cool_sdk.Phala.Receipt.{ChangeKind, Subject, event, change, ChangeApproval, ReceiptV2}

-- Of which records count, `counts`.
pub record Obligation : Type 0 where
  pub id : String
  pub regime : String
  pub clause : String
  pub requirement : String
  pub satisfied_by : String
  pub counts : ReceiptV2 → Bool

abbrev pub is_event : Subject → Bool
is_event (event e) = true
is_event (change ch) = false

unfoldable pub is_evidence : ReceiptV2 → Bool
is_evidence r = is_event r.signed.core.subject

unfoldable pub is_change : ReceiptV2 → Bool
is_change r = not (is_event r.signed.core.subject)

-- (approval?.approvers.length ?? 0) > 0
abbrev pub has_approvers : Option ChangeApproval → Bool
has_approvers none = false
has_approvers (some a) = ltb 0 (length a.approvers)

abbrev pub is_present {ℓ} : {A : Type ℓ} → Option A → Bool
is_present none = false
is_present (some a) = true

abbrev pub moves_accuracy : ChangeKind → Bool
moves_accuracy ChangeKind.model = true
moves_accuracy ChangeKind.params = true
moves_accuracy ChangeKind.dataset = true
moves_accuracy _ = false

abbrev pub of_change : (ChangeKind → Option ChangeApproval → Bool) → Subject → Bool
of_change test (event e) = false
of_change test (change ch) = test ch.kind ch.approval

unfoldable pub obligations : List Obligation
obligations =
    record {
      id = "eu-ai-act-12";
      regime = "EU AI Act";
      clause = "Article 12 — record-keeping";
      requirement =
          "High-risk systems automatically record events over their lifetime, to a standard that permits traceability.";
      satisfied_by = "every evidence record, sealed at the time of the event";
      counts = is_evidence;
    }
    ∷ record {
      id = "eu-ai-act-14";
      regime = "EU AI Act";
      clause = "Article 14 — human oversight";
      requirement = "Oversight measures are documented and traceable to a named person.";
      satisfied_by = "change.approval.approvers, inside the signature";
      counts = λ r.
          is_change r && of_change (λ kind approval. has_approvers approval) r.signed.core.subject;
    }
    ∷ record {
      id = "eu-ai-act-15";
      regime = "EU AI Act";
      clause = "Article 15 — accuracy and robustness";
      requirement = "Changes affecting accuracy are recorded with their provenance.";
      satisfied_by = "change records of kind model, params or dataset";
      counts = λ r. of_change (λ kind approval. moves_accuracy kind) r.signed.core.subject;
    }
    ∷ record {
      id = "dpdp-8";
      regime = "DPDP Rules 2025";
      clause = "Section 8 — reasonable security safeguards";
      requirement =
          "Personal data is protected during processing, with retained evidence of controls.";
      satisfied_by = "the TEE measurement inside the signed core; no plaintext in any record";
      counts = λ r. is_present r.signed.core.runtime.tee_quote;
    }
    ∷ record {
      id = "iso-42001-9";
      regime = "ISO/IEC 42001";
      clause = "Clause 9 — performance evaluation";
      requirement =
          "The AI management system is monitored, measured and evaluated with retained records.";
      satisfied_by = "transparency-log inclusion proofs across the estate";
      counts = λ r. is_present r.inclusion;
    }
    ∷ record {
      id = "rbi-dlg";
      regime = "RBI Digital Lending";
      clause = "Model governance";
      requirement = "The model version behind a credit decision is auditable after the fact.";
      satisfied_by = "software identity and metadata committed per evidence record";
      counts = is_evidence;
    }
    ∷ record {
      id = "soc2-cc7";
      regime = "SOC 2";
      clause = "CC7.2 — monitoring";
      requirement = "Changes to the system are logged and reviewed for anomalies.";
      satisfied_by = "change records with a policy decision attached";
      counts = λ r. of_change (λ kind approval. is_present approval) r.signed.core.subject;
    }
    ∷ []

pub record Coverage : Type 0 where
  pub obligation : Obligation
  pub records : ℕ
  pub share : ℕ × ℕ
  pub covered : Bool

-- receipts.filter(counts).length
unfoldable pub count_of : (ReceiptV2 → Bool) → List ReceiptV2 → ℕ
count_of counts [] = 0
count_of counts (r ∷ receipts) =
    let rest = count_of counts receipts in if counts r then suc rest else rest

abbrev pub share_of : ℕ → ℕ → ℕ × ℕ
share_of records total = if total == 0 then (0, 1) else (records, total)

unfoldable pub row : List ReceiptV2 → Obligation → Coverage
row receipts o =
    let records = count_of o.counts receipts in
    record {
      obligation = o;
      records = records;
      share = share_of records (length receipts);
      covered = ltb 0 records;
    }

unfoldable pub coverage_of : List Obligation → List ReceiptV2 → List Coverage
coverage_of os receipts = map (row receipts) os

unfoldable pub coverage : List ReceiptV2 → List Coverage
coverage receipts = coverage_of obligations receipts

unfoldable pub uncovered : List Coverage → List Coverage
uncovered [] = []
uncovered (r ∷ rows) = let rest = uncovered rows in if not r.covered then r ∷ rest else rest

unfoldable pub gaps : List ReceiptV2 → List Coverage
gaps receipts = uncovered (coverage receipts)
