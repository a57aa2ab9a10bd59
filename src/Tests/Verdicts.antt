-- ===== src/Tests/Verdicts.antt =====
-- The theorems on src/phala/verify.ts, src/log-memory.ts and src/phala/witness.ts at the receipts
-- of Receipts.
use cool_sdk.Prelude.{
  ◌≡◌, ◌⊎◌, refl, true, false, not, ◌&&◌, none, some, List, [], ◌∷◌, ◌++◌, arith, get_elem?,
}
use cool_sdk.Prelude.Map
use cool_sdk.Codec
use cool_sdk.Codec.{Bytes, Text}
use cool_sdk.Multihash
use cool_sdk.Multihash.{multihash_digest}
use cool_sdk.Merkle.{leaf_hash, merkle_root, root_fuel}
use cool_sdk.Merkle.Sound.{Collision}
use cool_sdk.Sign
use cool_sdk.Sign.{Crypto, KeyPair}
use cool_sdk.Sign.Laws.{IsSound}
use cool_sdk.Phala.Receipt
use cool_sdk.Phala.Receipt.{record_leaf_data, ReceiptV2}
use cool_sdk.Phala.Verify.{pass, absent, is_pass, is_fail, is_pass_or_absent}
use cool_sdk.Phala.Verify.Domains
use cool_sdk.Phala.Verify.Domains.{inclusion_domain, is_independent, witnesses_domain}
use cool_sdk.Phala.Verify.Verdict.{lacks_witnesses}
use cool_sdk.Phala.Verify.Accepts.{IsBound, IsSigned, verify_receipt_authentic}
use cool_sdk.Phala.Verify.Hardware.{IsVendorVerified}
use cool_sdk.Phala.Verify.Bound.{IsEnclaveBound, verify_receipt_hardware}
use cool_sdk.Phala.Verify.Logged.{IsHeadSigned, verify_receipt-IsHeadSigned, verify_receipt_logged}
use cool_sdk.Phala.Verify.Quorum.{
  HasQuorum, repeated, verify_receipt-HasQuorum, witnesses_domain-repeated, verify_receipt_stapled,
}
use cool_sdk.Phala.Quote
use cool_sdk.Phala.Witness.{WitnessStatement, attach_witness, cosign, count_witnesses, is_attached}
use cool_sdk.Phala.Witness
use cool_sdk.Phala.Witness.Quorum.{count_witnesses-attach_witness}
use cool_sdk.Log.{new_log, append_all, inclusion_audit_path, build_sth}
use cool_sdk.Log.Grows.{append_all-IsLog, IsLog}
use cool_sdk.Log.Proves.{Carries, log_of, inclusion_domain-build_sth}
use cool_sdk.Tests.Data.{schemes, checksum, length-checksum, zeros}
use cool_sdk.Tests.Signatures.{issuer_key, schemes-IsSound, checksum_digests}
use cool_sdk.Tests.Receipts.{
  one_byte, core_byte, head_byte, no_chain, bound_receipt, stapled_receipt, strict, verdict_with,
  bound_accepted, stapled_accepted, head, proof, co_signature, quote, vendor_says_yes,
}

verify_receipt_authentic_example :
    IsBound schemes one_byte core_byte head_byte bound_receipt
    × IsSigned schemes one_byte core_byte head_byte bound_receipt
    × (is_pass_or_absent (verdict_with pass).checks.inclusion ≡ true)
    × (is_fail (verdict_with pass).checks.enclave ≡ false)
    × (is_fail (verdict_with pass).checks.attestation ≡ false)
verify_receipt_authentic_example =
    verify_receipt_authentic schemes one_byte core_byte head_byte no_chain bound_receipt strict
      (verdict_with pass) bound_accepted refl

verify_receipt_hardware_example :
    IsVendorVerified bound_receipt strict
    × ((bound_receipt.signed.core.runtime.tee_quote ≡ none)
        ⊎ IsEnclaveBound schemes one_byte bound_receipt
            (Map.get "issuer" bound_receipt.key_directory)
            strict)
verify_receipt_hardware_example =
    verify_receipt_hardware schemes one_byte core_byte head_byte no_chain bound_receipt strict
      (verdict_with pass) bound_accepted refl refl

abbrev logged_leaf : Bytes
logged_leaf = 22 ∷ zeros 31

head_rooted : multihash_digest head.root_hash ≡ some (merkle_root checksum ((41 ∷ zeros 31) ∷ []))
unfolding multihash_digest merkle_root root_fuel Codec.from_hex Codec.pairs
head_rooted = refl

verify_receipt-IsHeadSigned_example :
    IsHeadSigned schemes one_byte core_byte head_byte bound_receipt head
verify_receipt-IsHeadSigned_example =
    verify_receipt-IsHeadSigned schemes one_byte core_byte head_byte no_chain bound_receipt strict
      (verdict_with pass) proof head bound_accepted refl refl refl

verify_receipt_logged_example :
    IsHeadSigned schemes one_byte core_byte head_byte bound_receipt head
    × ((leaf : Bytes) × (record_leaf_data bound_receipt.binding_hash ≡ some leaf)
        × (Collision checksum
            ⊎ (get_elem? ((41 ∷ zeros 31) ∷ []) 0 ≡ some (leaf_hash checksum leaf))))
verify_receipt_logged_example =
    verify_receipt_logged schemes one_byte core_byte head_byte length-checksum no_chain
      bound_receipt strict (verdict_with pass) proof head ((41 ∷ zeros 31) ∷ []) bound_accepted refl
      refl refl head_rooted refl (omega arith) (refl, tt)

verify_receipt-HasQuorum_example : HasQuorum schemes one_byte core_byte head_byte bound_receipt 1
verify_receipt-HasQuorum_example =
    verify_receipt-HasQuorum schemes one_byte core_byte head_byte no_chain bound_receipt strict
      (verdict_with pass) 0 bound_accepted refl refl

abbrev padded_receipt : ReceiptV2
padded_receipt = record bound_receipt {
  sth = some (record head { witnesses = repeated 3 co_signature });
}

co_signature_good :
    is_independent schemes one_byte core_byte head_byte padded_receipt.key_directory
      (6 ∷ [])
      co_signature
    ≡ true
unfolding is_independent Domains.witness_signature Sign.hybrid_verify Sign.verify_ml_dsa
    Sign.verify_ed25519 Sign.from_base64_field Codec.bytes_equal Codec.diff_from
co_signature_good = refl

witnesses_domain-repeated_example :
    witnesses_domain schemes one_byte core_byte head_byte padded_receipt 3 ≡ some pass
witnesses_domain-repeated_example =
    witnesses_domain-repeated schemes one_byte core_byte head_byte padded_receipt
      (record head { witnesses = repeated 3 co_signature }) (6 ∷ []) co_signature 2 refl refl refl
      co_signature_good

stapled_verified : IsVendorVerified stapled_receipt strict
unfolding Quote.check_quote_structure Quote.is_register Multihash.is_multihash
stapled_verified = (quote, vendor_says_yes, refl, refl, refl, refl, refl, refl)

verify_receipt_stapled_example :
    ((verdict_with absent).checks.attestation ≡ pass)
    × ((verdict_with absent).checks.enclave ≡ absent)
    × ((verdict_with absent).ok ≡ (
        is_pass (verdict_with absent).checks.binding
        && is_pass (verdict_with absent).checks.signature
        && is_pass_or_absent (verdict_with absent).checks.inclusion
        && not (lacks_witnesses strict (verdict_with absent).checks)))
verify_receipt_stapled_example =
    verify_receipt_stapled schemes one_byte core_byte head_byte no_chain stapled_receipt strict
      (verdict_with absent) stapled_accepted refl stapled_verified

abbrev logged : List Bytes
logged = zeros 32 ∷ logged_leaf ∷ []

inclusion_domain-build_sth_example :
    (path : List Text) × (sth : Receipt.Sth) × (inclusion_audit_path schemes
        (log_of schemes one_byte core_byte head_byte "log" issuer_key logged)
        1
      ≡ some path)
    × (build_sth schemes head_byte
          (log_of schemes one_byte core_byte head_byte "log" issuer_key logged)
          "now"
        ≡ some sth)
    × ((r : ReceiptV2)
        → Carries schemes one_byte core_byte head_byte r 1 logged issuer_key logged_leaf path sth
        → inclusion_domain schemes one_byte core_byte head_byte r ≡ some (pass, []))
inclusion_domain-build_sth_example =
    inclusion_domain-build_sth schemes one_byte core_byte head_byte checksum_digests "log"
      issuer_key logged 1 logged_leaf "now" schemes-IsSound (λ core. (6 ∷ [], refl)) (omega arith)
      refl

append_all-IsLog_example :
    IsLog schemes head_byte (append_all schemes head_byte (new_log "log" issuer_key) logged)
    × ((append_all schemes head_byte (new_log "log" issuer_key) logged).leaves
        ≡ (new_log "log" issuer_key).leaves ++ logged)
    × ((append_all schemes head_byte (new_log "log" issuer_key) logged).log_key
        ≡ (new_log "log" issuer_key).log_key)
    × ((append_all schemes head_byte (new_log "log" issuer_key) logged).log_id
        ≡ (new_log "log" issuer_key).log_id)
unfolding new_log
append_all-IsLog_example = append_all-IsLog schemes head_byte logged (new_log "log" issuer_key) refl

abbrev observer_key : KeyPair
observer_key = record issuer_key { key_id = "observer" }

abbrev observed : WitnessStatement
observed = record {
  witness_id = "observer";
  log_id = "log";
  tree_size = 1;
  root_hash = head.root_hash;
  observed_at = head.timestamp;
  witness = record co_signature { id = "observer" };
  directory_entry = issuer_key.directory_entry;
}

observer-IsSound : IsSound schemes observer_key
observer-IsSound = record {
  atob-btoa = schemes-IsSound.atob-btoa;
  ml_dsa_pub = schemes-IsSound.ml_dsa_pub;
  ed25519_pub = schemes-IsSound.ed25519_pub;
  carries_ml_dsa = schemes-IsSound.carries_ml_dsa;
  carries_ed25519 = schemes-IsSound.carries_ed25519;
  ml_dsa_verify-sign = schemes-IsSound.ml_dsa_verify-sign;
  ed25519_verify-sign = schemes-IsSound.ed25519_verify-sign;
}

observed_by : cosign schemes head_byte head observer_key ≡ some observed
unfolding cosign Receipt.sth_core Sign.hybrid_sign Sign.to_base64_field Sign.to_base64
    Sign.binary_chunks
observed_by = refl

counted_before :
    count_witnesses schemes head_byte bound_receipt
    ≡ some (record { external = 1; self = 0; invalid = 0 })
unfolding count_witnesses Witness.count_with Witness.count_each Witness.count_one Witness.is_valid
    Receipt.sth_core Sign.hybrid_verify Sign.verify_ml_dsa Sign.verify_ed25519
    Sign.from_base64_field Codec.bytes_equal Codec.diff_from
counted_before = refl

count_witnesses-attach_witness_example :
    (after : ReceiptV2) × (n : Witness.WitnessCount) × (attach_witness bound_receipt observed
      ≡ some after)
    × (count_witnesses schemes head_byte after ≡ some n)
    × (n.external ≡ 2)
unfolding is_attached
count_witnesses-attach_witness_example =
    count_witnesses-attach_witness schemes head_byte bound_receipt head observer_key observed
      (record { external = 1; self = 0; invalid = 0 }) observer-IsSound refl refl observed_by
      counted_before
