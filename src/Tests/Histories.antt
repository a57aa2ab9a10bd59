-- ===== src/Tests/Histories.antt =====
-- src/phala/consistency.ts on two receipts of one log.
use cool_sdk.Prelude.{
  ◌≡◌, refl, true, Option, none, some, List, [], ◌∷◌, ◌++◌, All, codes, String, if◌then◌else◌,
}
use cool_sdk.Codec
use cool_sdk.Codec.{Bytes, Text}
use cool_sdk.Multihash
use cool_sdk.Merkle
use cool_sdk.Sign
use cool_sdk.Phala.Receipt
use cool_sdk.Phala.Consistency
use cool_sdk.Phala.Consistency.Check
use cool_sdk.Phala.Consistency.{ConsistencyOptions, ConsistencyResult, with_head}
use cool_sdk.Phala.Consistency.Check.{verify_log_consistency}
use cool_sdk.Phala.Consistency.History.{IsOfHistory, verify_log_consistency-IsOfHistory}
use cool_sdk.Tests.Data.{schemes}
use cool_sdk.Tests.Receipts.{head_byte, bound_receipt, head, proof}

abbrev root_of_two : Text
root_of_two = codes "mh:sha256:5000000000000000000000000000000000000000000000000000000000000000"

abbrev receipt_at_two : Text → Receipt.ReceiptV2
receipt_at_two root = record bound_receipt {
  inclusion = some (record proof { leaf_index = 1; tree_size = 2 });
  sth = some (record head { tree_size = 2; root_hash = root });
}

abbrev history : List Receipt.ReceiptV2
history = receipt_at_two root_of_two ∷ bound_receipt ∷ []

abbrev no_trust : ConsistencyOptions
no_trust = record { trusted_keys = none }

-- The reasons of a refusal.
abbrev refusal : Option ConsistencyResult → Option (List Consistency.ConsistencyReason)
refusal (some v) = if v.ok then none else some v.reasons
refusal none = none

abbrev consistent : ConsistencyResult
consistent = record {
  ok = true;
  log_id = some "log";
  heads =
      record {
        tree_size = 1;
        root_hash = head.root_hash;
        signature_ok = true;
        root_matches_leaves = true;
      }
      ∷ record {
        tree_size = 2;
        root_hash = root_of_two;
        signature_ok = true;
        root_matches_leaves = true;
      }
      ∷ [];
  pairs = record { before = 1; after = 2; proof_length = 1; ok = true } ∷ [];
  reasons = [];
}

history_answer : verify_log_consistency schemes head_byte history no_trust ≡ some consistent
unfolding verify_log_consistency Check.with_heads Check.with_log Check.with_leaves Check.result_of
    Check.check_pairs Check.check_pair Check.check_heads Check.check_head Check.root_matches
    Check.collect_leaves Consistency.head_entry Consistency.sort_sizes Consistency.insert_size
    Consistency.fill Consistency.max_size Consistency.head_by_size Consistency.fork
    Consistency.with_head Consistency.keys_of Consistency.put Consistency.at_key Consistency.failed
    Receipt.record_leaf_data Receipt.sth_core Multihash.multihash_digest Multihash.is_multihash
    Codec.from_hex Codec.pairs Codec.concat_bytes Codec.bytes_equal Codec.diff_from
    Sign.hybrid_verify Sign.verify_ed25519 Sign.verify_ml_dsa Sign.from_base64_field
    Merkle.leaf_hash Merkle.merkle_root Merkle.root_fuel Merkle.node_hash
    Merkle.largest_power_of_two_below Merkle.double_while Merkle.consistency_proof Merkle.subproof
    Merkle.verify_consistency Merkle.is_power_of_two Merkle.ascend Merkle.ascend_odd Merkle.climb
    Merkle.parent
history_answer = refl

-- Another root at size 2: a fork, which the one proof does not reach either.
forked :
    refusal
      (verify_log_consistency schemes head_byte (receipt_at_two head.root_hash ∷ history) no_trust)
    ≡ some
        (Consistency.equivocation 2 ∷ Consistency.root_differs 2 ∷ Consistency.proof_fails 1 2 ∷ [])
unfolding verify_log_consistency Check.with_heads Check.with_log Check.with_leaves Check.result_of
    Check.check_pairs Check.check_pair Check.check_heads Check.check_head Check.root_matches
    Check.collect_leaves Consistency.head_entry Consistency.sort_sizes Consistency.insert_size
    Consistency.fill Consistency.max_size Consistency.head_by_size Consistency.fork
    Consistency.with_head Consistency.keys_of Consistency.put Consistency.at_key Consistency.failed
    Receipt.record_leaf_data Receipt.sth_core Multihash.multihash_digest Multihash.is_multihash
    Codec.from_hex Codec.pairs Codec.concat_bytes Codec.bytes_equal Codec.diff_from
    Sign.hybrid_verify Sign.verify_ed25519 Sign.verify_ml_dsa Sign.from_base64_field
    Merkle.leaf_hash Merkle.merkle_root Merkle.root_fuel Merkle.node_hash
    Merkle.largest_power_of_two_below Merkle.double_while Merkle.consistency_proof Merkle.subproof
    Merkle.verify_consistency Merkle.is_power_of_two Merkle.ascend Merkle.ascend_odd Merkle.climb
    Merkle.parent
forked = refl

abbrev unsigned_twin : Receipt.ReceiptV2
unsigned_twin = record bound_receipt {
  sth = some (record head { signature = record head.signature { ml_dsa = [] } });
}

-- Of two receipts with one head, the second one's signature is not looked at.
twin_answer :
    verify_log_consistency schemes head_byte (history ++ unsigned_twin ∷ []) no_trust
    ≡ some consistent
unfolding verify_log_consistency Check.with_heads Check.with_log Check.with_leaves Check.result_of
    Check.check_pairs Check.check_pair Check.check_heads Check.check_head Check.root_matches
    Check.collect_leaves Consistency.head_entry Consistency.sort_sizes Consistency.insert_size
    Consistency.fill Consistency.max_size Consistency.head_by_size Consistency.fork
    Consistency.with_head Consistency.keys_of Consistency.put Consistency.at_key Consistency.failed
    Receipt.record_leaf_data Receipt.sth_core Multihash.multihash_digest Multihash.is_multihash
    Codec.from_hex Codec.pairs Codec.concat_bytes Codec.bytes_equal Codec.diff_from
    Sign.hybrid_verify Sign.verify_ed25519 Sign.verify_ml_dsa Sign.from_base64_field
    Merkle.leaf_hash Merkle.merkle_root Merkle.root_fuel Merkle.node_hash
    Merkle.largest_power_of_two_below Merkle.double_while Merkle.consistency_proof Merkle.subproof
    Merkle.verify_consistency Merkle.is_power_of_two Merkle.ascend Merkle.ascend_odd Merkle.climb
    Merkle.parent
twin_answer = refl

-- Two receipts of one size: refused, and no reason is given.
one_size :
    refusal (verify_log_consistency schemes head_byte (bound_receipt ∷ bound_receipt ∷ []) no_trust)
    ≡ some []
unfolding verify_log_consistency Check.with_heads Check.with_log Check.with_leaves Check.result_of
    Check.check_pairs Check.check_pair Check.check_heads Check.check_head Check.root_matches
    Check.collect_leaves Consistency.head_entry Consistency.sort_sizes Consistency.insert_size
    Consistency.fill Consistency.max_size Consistency.head_by_size Consistency.fork
    Consistency.with_head Consistency.keys_of Consistency.put Consistency.at_key Consistency.failed
    Receipt.record_leaf_data Receipt.sth_core Multihash.multihash_digest Multihash.is_multihash
    Codec.from_hex Codec.pairs Codec.concat_bytes Codec.bytes_equal Codec.diff_from
    Sign.hybrid_verify Sign.verify_ed25519 Sign.verify_ml_dsa Sign.from_base64_field
    Merkle.leaf_hash Merkle.merkle_root Merkle.root_fuel Merkle.node_hash
    Merkle.largest_power_of_two_below Merkle.double_while Merkle.consistency_proof Merkle.subproof
    Merkle.verify_consistency Merkle.is_power_of_two Merkle.ascend Merkle.ascend_odd Merkle.climb
    Merkle.parent
one_size = refl

verify_log_consistency-IsOfHistory_example :
    (log_id : String) × All (λ h. h.sth.log_id ≡ log_id) (with_head history)
    × ((leaves : List Bytes) × All
          (IsOfHistory schemes head_byte no_trust (with_head history) leaves)
          (with_head history))
verify_log_consistency-IsOfHistory_example =
    verify_log_consistency-IsOfHistory schemes head_byte no_trust history consistent history_answer
      refl
