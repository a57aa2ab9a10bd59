-- ===== src/Phala/Witness.antt =====
-- src/phala/witness.ts: co-signatures of a tree head by independent witnesses. `none` is a throw;
-- the canonical encoder of heads is a parameter.
pub mod Quorum
use cool_sdk.Sign.{◌>>=◌}
use cool_sdk.Prelude.{
  ℕ, suc, String, Bool, true, false, not, ◌&&◌, ◌||◌, Option, none, some, List, [], ◌∷◌, ◌++◌, ◌==◌,
  if◌then◌else◌, some_of, str_eq, text_eq,
}
use cool_sdk.Prelude.Map
use cool_sdk.Codec.{Bytes, Text}
use cool_sdk.Sign.{
  Crypto, SignatureBlock, DirectoryEntry, KeyPair, bind, hybrid_sign, hybrid_verify,
}
use cool_sdk.Phala.Receipt.{KeyDirectory, Witness, SthCore, Sth, ReceiptV2, sth_core}

pub record WitnessStatement : Type 0 where
  pub witness_id : String
  pub log_id : String
  pub tree_size : ℕ
  pub root_hash : Text
  pub observed_at : String
  pub witness : Witness
  pub directory_entry : DirectoryEntry

pub record WitnessCount : Type 0 where
  pub external : ℕ
  pub self : ℕ
  pub invalid : ℕ

abbrev pub external_witness : String → SignatureBlock → Witness
external_witness id signature = record {
  id = id;
  external = true;
  ml_dsa = signature.ml_dsa;
  ed25519 = signature.ed25519;
}

-- The refusal of `attachWitness`: the statement is about another head.
unfoldable pub is_other_head : WitnessStatement → Sth → Bool
is_other_head s sth =
    not (str_eq s.log_id sth.log_id)
    || not (s.tree_size == sth.tree_size)
    || not (text_eq s.root_hash sth.root_hash)
    || not (str_eq s.observed_at sth.timestamp)

unfoldable pub is_attached : List Witness → String → Bool
is_attached witnesses id = some_of (λ w. str_eq w.id id) witnesses

abbrev pub attach_to : ReceiptV2 → WitnessStatement → Sth → ReceiptV2
attach_to r s sth = record r {
  sth = some (record sth {
    witnesses =
        if is_attached sth.witnesses s.witness_id
        then sth.witnesses
        else sth.witnesses ++ s.witness ∷ [];
  });
  key_directory = Map.set s.witness_id s.directory_entry r.key_directory;
}

-- attachWitness
unfoldable pub attach_witness : ReceiptV2 → WitnessStatement → Option ReceiptV2
attach_witness r s = elim r.sth [
  | none ↦ none
  | some sth ↦ if is_other_head s sth then none else some (attach_to r s sth)
]

abbrev pub count_external : WitnessCount → WitnessCount
count_external n = record n { external = suc n.external }

abbrev pub count_self : WitnessCount → WitnessCount
count_self n = record n { self = suc n.self }

abbrev pub count_invalid : WitnessCount → WitnessCount
count_invalid n = record n { invalid = suc n.invalid }

module _ (c : Crypto) (encode_sth : SthCore → Option Bytes) where
  unfoldable pub cosign : Sth → KeyPair → Option WitnessStatement
  cosign sth key = do
    message ← encode_sth (sth_core sth)
    some (record {
      witness_id = key.key_id;
      log_id = sth.log_id;
      tree_size = sth.tree_size;
      root_hash = sth.root_hash;
      observed_at = sth.timestamp;
      witness = external_witness key.key_id (hybrid_sign c message key);
      directory_entry = key.directory_entry;
    })

  -- A co-signature against the keys that the directory has under its id.
  unfoldable pub is_valid : Bytes → Witness → Option DirectoryEntry → Bool
  is_valid message w none = false
  is_valid message w (some entry) =
      (hybrid_verify c message (record { key_id = w.id; ml_dsa = w.ml_dsa; ed25519 = w.ed25519 })
        entry).ok

  -- One round of the loop of `countWitnesses`.
  unfoldable pub count_one : KeyDirectory → Bytes → Witness → WitnessCount → WitnessCount
  count_one directory message w n =
      if not w.external
      then count_self n
      else if is_valid message w (Map.get w.id directory)
      then count_external n
      else count_invalid n

  unfoldable pub count_each : KeyDirectory → Bytes → List Witness → WitnessCount
  count_each directory message [] = record { external = 0; self = 0; invalid = 0 }
  count_each directory message (w ∷ ws) =
      count_one directory message w (count_each directory message ws)

  unfoldable pub count_with : KeyDirectory → Option Sth → Option WitnessCount
  count_with directory none = some (record { external = 0; self = 0; invalid = 0 })
  count_with directory (some sth) = do
    message ← encode_sth (sth_core sth)
    some (count_each directory message sth.witnesses)

  unfoldable pub count_witnesses : ReceiptV2 → Option WitnessCount
  count_witnesses r = count_with r.key_directory r.sth
