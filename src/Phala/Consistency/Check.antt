-- ===== src/Phala/Consistency/Check.antt =====
-- `verifyLogConsistency`, over the loops of the parent.
use cool_sdk.Prelude.{
  ℕ, String, Bool, false, ◌⊎◌, inl, inr, Option, none, some, List, [], ◌∷◌, ◌++◌, length, take,
  every, if◌then◌else◌, text_eq, str_eq,
}
use cool_sdk.Codec.{Bytes, Text}
use cool_sdk.Multihash.{multihash_digest}
use cool_sdk.Merkle.{leaf_hash, merkle_root, consistency_proof, verify_consistency}
use cool_sdk.Sign.{Crypto, DirectoryEntry, hybrid_verify, ◌>>=◌}
use cool_sdk.Phala.Receipt.{SthCore, Sth, ReceiptV2, sth_core, record_leaf_data}
use cool_sdk.Phala.Consistency.{
  ConsistencyHead, ConsistencyPair, ConsistencyReason, ConsistencyResult, ConsistencyOptions,
  Headed, NumberMap, failed, with_head, claim, head_by_size, max_size, fill, sort_sizes, head_entry,
  reason_unless, all_ok, at_key, put, keys_of, too_few_heads, several_logs, leaf_missing,
  head_unsigned, root_differs, proof_fails,
}

module _ (c : Crypto) (encode_sth : SthCore → Option Bytes) where
  -- `leafByIndex`, with the reasons that its loop pushes.
  unfoldable pub collect_leaves :
      NumberMap Bytes → List Headed → Option (NumberMap Bytes × List ConsistencyReason)
  collect_leaves seen [] = some (seen, [])
  collect_leaves seen (h ∷ hs) = do
    let index = h.inclusion.leaf_index
    data_of ← record_leaf_data h.receipt.binding_hash
    let leaf = leaf_hash c.sha256 data_of
    rest ← collect_leaves (put index leaf seen) hs
    some (rest.0, claim index leaf (at_key index seen) ++ rest.1)

  abbrev pub signed_by : Sth → Option DirectoryEntry → Option Bool
  signed_by sth none = some false
  signed_by sth (some entry) = do
    message ← encode_sth (sth_core sth)
    some (hybrid_verify c message sth.signature entry).ok

  unfoldable pub root_matches : List Bytes → ℕ → Text → Bool
  root_matches leaves size root = elim (multihash_digest root) [
    | none ↦ false
    | some digest ↦ text_eq (merkle_root c.sha256 (take size leaves)) digest
  ]

  unfoldable pub check_head :
      ConsistencyOptions
      → List Bytes
      → ℕ
      → Headed
      → Option (ConsistencyHead × List ConsistencyReason)
  check_head options leaves size h = do
    signature_ok ← signed_by h.sth (head_entry options h)
    let matches = root_matches leaves size h.sth.root_hash
    some (
      record {
        tree_size = size;
        root_hash = h.sth.root_hash;
        signature_ok = signature_ok;
        root_matches_leaves = matches;
      },
      reason_unless signature_ok (head_unsigned size) ++ reason_unless matches (root_differs size),
    )

  unfoldable pub check_heads :
      ConsistencyOptions
      → List Bytes
      → NumberMap Headed
      → List ℕ
      → Option (List ConsistencyHead × List ConsistencyReason)
  check_heads options leaves by_size [] = some ([], [])
  check_heads options leaves by_size (size ∷ sizes) = do
    h ← at_key size by_size
    first ← check_head options leaves size h
    rest ← check_heads options leaves by_size sizes
    some (first.0 ∷ rest.0, first.1 ++ rest.1)

  -- `verifyConsistency` between the digests of two roots; false where one is malformed.
  abbrev pub proof_ok : ℕ → ℕ → List Bytes → Option Bytes → Option Bytes → Bool
  proof_ok m n proof (some first) (some second) = verify_consistency c.sha256 m n first second proof
  proof_ok m n proof _ _ = false

  unfoldable pub check_pair : List Bytes → ℕ → ℕ → Text → Text → ConsistencyPair
  check_pair leaves m n first second = elim (consistency_proof c.sha256 (take n leaves) m) [
    | none ↦ record { before = m; after = n; proof_length = 0; ok = false }
    | some proof ↦ record {
      before = m;
      after = n;
      proof_length = length proof;
      ok = proof_ok m n proof (multihash_digest first) (multihash_digest second);
    }
  ]

  -- The heads are those of `check_heads`: one per size, in order.
  unfoldable pub check_pairs :
      List Bytes → List ConsistencyHead → List ConsistencyPair × List ConsistencyReason
  check_pairs leaves [] = ([], [])
  check_pairs leaves (a ∷ []) = ([], [])
  check_pairs leaves (a ∷ b ∷ heads) =
      let pair = check_pair leaves a.tree_size b.tree_size a.root_hash b.root_hash in
      let rest = check_pairs leaves (b ∷ heads) in
      (pair ∷ rest.0, reason_unless pair.ok (proof_fails a.tree_size b.tree_size) ++ rest.1)

  unfoldable pub result_of :
      String → List ConsistencyReason → List Bytes → List ConsistencyHead → ConsistencyResult
  result_of log_id reasons leaves heads =
      let pairs = check_pairs leaves heads in
      record {
        ok = all_ok (reasons ++ pairs.1) heads pairs.0;
        log_id = some log_id;
        heads = heads;
        pairs = pairs.0;
        reasons = reasons ++ pairs.1;
      }

  -- From the loop over `headBySize` on.
  unfoldable pub with_leaves :
      ConsistencyOptions
      → String
      → List Headed
      → List ConsistencyReason
      → ℕ ⊎ List Bytes
      → Option ConsistencyResult
  with_leaves options log_id hs reasons (inl i) =
      some (failed (reasons ++ leaf_missing i (max_size hs) ∷ []) (some log_id))
  with_leaves options log_id hs reasons (inr leaves) = do
    let by_size = head_by_size [] hs
    checked ← check_heads options leaves by_size.0 (sort_sizes (keys_of by_size.0))
    some (result_of log_id ((reasons ++ by_size.1) ++ checked.1) leaves checked.0)

  -- From the first loop on.
  unfoldable pub with_log : ConsistencyOptions → String → List Headed → Option ConsistencyResult
  with_log options log_id hs =
      if every (λ h. str_eq h.sth.log_id log_id) hs
      then (do
        collected ← collect_leaves [] hs
        with_leaves options log_id hs collected.1 (fill collected.0 0 (max_size hs)))
      else some (failed (several_logs ∷ []) (some log_id))

  unfoldable pub with_heads : ConsistencyOptions → List Headed → Option ConsistencyResult
  with_heads options (h ∷ g ∷ hs) = with_log options h.sth.log_id (h ∷ g ∷ hs)
  with_heads options _ = some (failed (too_few_heads ∷ []) none)

  -- verifyLogConsistency
  unfoldable pub verify_log_consistency :
      List ReceiptV2 → ConsistencyOptions → Option ConsistencyResult
  verify_log_consistency receipts options = with_heads options (with_head receipts)
