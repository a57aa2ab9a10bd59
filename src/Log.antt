-- ===== src/Log.antt =====
-- src/log-memory.ts: the in-memory transparency log. `none` is a throw: of an index out of range,
-- of a digest that is not 32 bytes long, or of the canonical encoder, which is a parameter.
pub mod Grows
pub mod Proves
use cool_sdk.Sign.{◌>>=◌}
use cool_sdk.Prelude.{
  ℕ, suc, ◌+◌, String, Bool, false, Option, none, some, List, [], ◌∷◌, ◌++◌, length,
}
use cool_sdk.Codec.{Bytes, Text}
use cool_sdk.Multihash.{multihash_from_digest}
use cool_sdk.Merkle.{leaf_hash, merkle_root, inclusion_proof}
use cool_sdk.Sign.{Crypto, SignatureBlock, KeyPair, bind, hybrid_sign}
use cool_sdk.Phala.Receipt.{Witness, SthCore, Sth}

pub record MemoryLog : Type 0 where
  pub log_id : String
  pub log_key : KeyPair
  pub leaves : List Bytes
  pub leaf_hashes : List Bytes

pub record AppendResult : Type 0 where
  pub leaf_index : ℕ
  pub tree_size : ℕ

-- The constructor.
unfoldable pub new_log : String → KeyPair → MemoryLog
new_log log_id log_key = record {
  log_id = log_id;
  log_key = log_key;
  leaves = [];
  leaf_hashes = [];
}

unfoldable pub size : MemoryLog → ℕ
size log = length log.leaves

-- paths.map(multihashFromDigest)
unfoldable pub multihashes : List Bytes → Option (List Text)
multihashes [] = some []
multihashes (d ∷ path) = elim (multihash_from_digest d) [
  | none ↦ none
  | some mh ↦ elim (multihashes path) [ none ↦ none | some mhs ↦ some (mh ∷ mhs) ]
]

module _ (c : Crypto) where
  unfoldable pub append : MemoryLog → Bytes → MemoryLog × AppendResult
  append log leaf_data = (
    record log {
      leaves = log.leaves ++ leaf_data ∷ [];
      leaf_hashes = log.leaf_hashes ++ leaf_hash c.sha256 leaf_data ∷ [];
    },
    record { leaf_index = length log.leaves; tree_size = length (log.leaves ++ leaf_data ∷ []) },
  )

  unfoldable pub inclusion_audit_path : MemoryLog → ℕ → Option (List Text)
  inclusion_audit_path log leaf_index = do
    path ← inclusion_proof c.sha256 log.leaf_hashes leaf_index
    multihashes path

  unfoldable pub root_hash : MemoryLog → Option Text
  root_hash log = multihash_from_digest (merkle_root c.sha256 log.leaf_hashes)

  abbrev pub self_witness : SignatureBlock → Witness
  self_witness signature = record {
    id = "cool-self";
    external = false;
    ml_dsa = signature.ml_dsa;
    ed25519 = signature.ed25519;
  }

  abbrev pub signed_head : SthCore → SignatureBlock → Sth
  signed_head core signature = record {
    log_id = core.log_id;
    tree_size = core.tree_size;
    root_hash = core.root_hash;
    timestamp = core.timestamp;
    signature = signature;
    witnesses = self_witness signature ∷ [];
  }

  abbrev pub core_at : MemoryLog → Text → String → SthCore
  core_at log root timestamp = record {
    log_id = log.log_id;
    tree_size = length log.leaves;
    root_hash = root;
    timestamp = timestamp;
  }

  module _ (encode_sth : SthCore → Option Bytes) where
    -- buildSTH
    unfoldable pub build_sth : MemoryLog → String → Option Sth
    build_sth log timestamp = do
      root ← root_hash log
      message ← encode_sth (core_at log root timestamp)
      some (signed_head (core_at log root timestamp) (hybrid_sign c message log.log_key))

    -- Appends in a row.
    unfoldable pub append_all : MemoryLog → List Bytes → MemoryLog
    append_all log [] = log
    append_all log (leaf ∷ leaves) = append_all (append log leaf).0 leaves
