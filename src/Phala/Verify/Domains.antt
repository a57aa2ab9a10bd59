-- ===== src/Phala/Verify/Domains.antt =====
-- The domains binding, signature, inclusion, witnesses and attestation.
use cool_sdk.Sign.{◌>>=◌}
use cool_sdk.Prelude.{
  ℕ, suc, Bool, true, false, not, ◌&&◌, ◌||◌, Option, none, some, List, [], ◌∷◌, leb, ◌==◌,
  if◌then◌else◌, text_eq,
}
use cool_sdk.Prelude.Map
use cool_sdk.Codec.{Bytes, Text}
use cool_sdk.Multihash.{multihash_digest}
use cool_sdk.Merkle.{leaf_hash, verify_inclusion}
use cool_sdk.Sign.{Crypto, SignatureBlock, DirectoryEntry, bind, hybrid_verify}
use cool_sdk.Phala.Receipt.{
  KeyDirectory, Inclusion, Witness, SthCore, Sth, QuoteEnvelope, RecordCoreV2, ReceiptV2, sth_core,
  core_of, binding_hash_of, record_signing_message, record_leaf_data,
}
use cool_sdk.Phala.Quote.{
  QuoteFault, QuoteVerification, QuoteEncoders, check_quote_structure, is_simulated_root,
  simulated_quote_verifier,
}
use cool_sdk.Phala.Verify.{
  pass, absent, mock, simulated, DomainStatusV2, binding_mismatch, no_signing_key, signature_failed,
  sizes_differ, index_out_of_range, path_refused, path_malformed, no_sth_key, sth_signature_failed,
  quote_shape, quote_refused, Domain, fail_with, VerifyArgsV2,
}

-- The digests of a path; `none` where one is malformed.
unfoldable pub digests : List Text → Option (List Bytes)
digests [] = some []
digests (h ∷ path) = elim (multihash_digest h) [
  | none ↦ none
  | some d ↦ elim (digests path) [ none ↦ none | some ds ↦ some (d ∷ ds) ]
]

unfoldable pub witness_signature : Witness → SignatureBlock
witness_signature w = record { key_id = w.id; ml_dsa = w.ml_dsa; ed25519 = w.ed25519 }

module _ (c : Crypto) (e : QuoteEncoders) (encode_core : RecordCoreV2 → Option Bytes)
    (encode_sth : SthCore → Option Bytes) where
  -- /* binding */
  unfoldable pub binding_domain : ReceiptV2 → Option Domain
  binding_domain r = do
    recomputed ← binding_hash_of c.sha256 encode_core (core_of r.signed)
    some (if text_eq recomputed r.binding_hash then (pass, []) else fail_with binding_mismatch)

  -- /* signature */
  unfoldable pub signature_domain : ReceiptV2 → Option DirectoryEntry → Option Domain
  signature_domain r none = some (fail_with no_signing_key)
  signature_domain r (some entry) = do
    message ← record_signing_message c.sha256 encode_core (core_of r.signed) r.binding_hash
    some (
        if (hybrid_verify c message r.signed.signature entry).ok
        then (pass, [])
        else fail_with signature_failed)

  -- The `try` block of `verifyInclusionDomain`; `none` is what it catches.
  unfoldable pub root_ok : ReceiptV2 → Inclusion → Sth → Option Bool
  root_ok r inc sth = do
    leaf ← record_leaf_data r.binding_hash
    path ← digests inc.audit_path
    root ← multihash_digest sth.root_hash
    some
        (verify_inclusion c.sha256 (leaf_hash c.sha256 leaf) inc.leaf_index sth.tree_size path root)

  abbrev pub sth_signature_domain : Sth → Option DirectoryEntry → Option Domain
  sth_signature_domain sth none = some (fail_with no_sth_key)
  sth_signature_domain sth (some entry) = do
    message ← encode_sth (sth_core sth)
    some (
        if (hybrid_verify c message sth.signature entry).ok
        then (pass, [])
        else fail_with sth_signature_failed)

  abbrev pub after_root : ReceiptV2 → Sth → Option Bool → Option Domain
  after_root r sth none = some (fail_with path_malformed)
  after_root r sth (some false) = some (fail_with path_refused)
  after_root r sth (some true) =
      sth_signature_domain sth (Map.get sth.signature.key_id r.key_directory)

  unfoldable pub inclusion_with : ReceiptV2 → Option Inclusion → Option Sth → Option Domain
  inclusion_with r (some inc) (some sth) =
      if not (inc.tree_size == sth.tree_size)
      then some (fail_with sizes_differ)
      else if leb sth.tree_size inc.leaf_index
      then some (fail_with index_out_of_range)
      else after_root r sth (root_ok r inc sth)
  inclusion_with r _ _ = some (absent, [])

  -- verifyInclusionDomain
  unfoldable pub inclusion_domain : ReceiptV2 → Option Domain
  inclusion_domain r = inclusion_with r r.inclusion r.sth

  -- An external co-signature that verifies.
  unfoldable pub is_independent : KeyDirectory → Bytes → Witness → Bool
  is_independent directory message w = w.external && (elim (Map.get w.id directory) [
    | none ↦ false
    | some entry ↦ (hybrid_verify c message (witness_signature w) entry).ok
  ])

  -- `external` after the loop of `verifyWitnessesDomain`.
  unfoldable pub count_independent : KeyDirectory → Bytes → List Witness → ℕ
  count_independent directory message [] = 0
  count_independent directory message (w ∷ ws) =
      let rest = count_independent directory message ws in
      if is_independent directory message w then suc rest else rest

  unfoldable pub witnesses_with : ReceiptV2 → Option Sth → ℕ → Option DomainStatusV2
  witnesses_with r none threshold = some absent
  witnesses_with r (some sth) threshold = do
    message ← encode_sth (sth_core sth)
    some (
        let external = count_independent r.key_directory message sth.witnesses in
        if leb threshold external && leb 1 external then pass else absent)

  -- verifyWitnessesDomain
  unfoldable pub witnesses_domain : ReceiptV2 → ℕ → Option DomainStatusV2
  witnesses_domain r threshold = witnesses_with r r.sth threshold

  -- The answer of the verifier that applies; `none` inside is that there is no verifier.
  unfoldable pub quote_answer :
      ReceiptV2
      → QuoteEnvelope
      → Option (QuoteEnvelope → QuoteVerification)
      → Option (Option QuoteVerification)
  quote_answer r quote (some verifier) = some (some (verifier quote))
  quote_answer r quote none =
      if is_simulated_root quote.root
      then bind (simulated_quote_verifier c e r.key_directory quote) (λ v. some (some v))
      else some none

  abbrev pub judge_answer : QuoteEnvelope → Option QuoteVerification → Domain
  judge_answer quote none = (absent, [])
  judge_answer quote (some v) =
      if not v.ok
      then fail_with quote_refused
      else if is_simulated_root quote.root || is_simulated_root v.root
      then (simulated, [])
      else (pass, [])

  abbrev pub judge_quote :
      ReceiptV2
      → QuoteEnvelope
      → Option (QuoteEnvelope → QuoteVerification)
      → Option QuoteFault
      → Option Domain
  judge_quote r quote verifier (some fault) = some (fail_with (quote_shape fault))
  judge_quote r quote verifier none = do
    answer ← quote_answer r quote verifier
    some (judge_answer quote answer)

  unfoldable pub attestation_with :
      ReceiptV2 → Option QuoteEnvelope → Option (QuoteEnvelope → QuoteVerification) → Option Domain
  attestation_with r none verifier = some (mock, [])
  attestation_with r (some quote) verifier =
      judge_quote r quote verifier (check_quote_structure quote)

  -- verifyAttestationDomain
  unfoldable pub attestation_domain : ReceiptV2 → VerifyArgsV2 → Option Domain
  attestation_domain r options = attestation_with r r.attestation.quote options.quote_verifier
