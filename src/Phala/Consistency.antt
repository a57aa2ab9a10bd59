-- ===== src/Phala/Consistency.antt =====
-- src/phala/consistency.ts: the consistency of a log, checked from receipts alone. `none` is a
-- throw: of a binding hash that is not a multihash, or of the canonical encoder, a parameter.
pub mod Check
pub mod Maps
pub mod Leaves
pub mod Heads
pub mod History
use cool_sdk.Prelude.{
  ℕ, zero, suc, ◌+◌, String, Bool, true, false, not, ◌&&◌, ◌⊎◌, inl, inr, Option, none, some, List,
  [], ◌∷◌, ◌++◌, length, take, every, leb, ltb, ◌==◌, if◌then◌else◌, text_eq, str_eq,
}
use cool_sdk.Prelude.Map
use cool_sdk.Codec.{Bytes, Text}
use cool_sdk.Multihash.{multihash_digest}
use cool_sdk.Merkle.{leaf_hash, merkle_root, consistency_proof, verify_consistency}
use cool_sdk.Sign.{Crypto, DirectoryEntry, hybrid_verify, ◌>>=◌}
use cool_sdk.Phala.Receipt.{
  KeyDirectory, Inclusion, SthCore, Sth, ReceiptV2, sth_core, record_leaf_data,
}

pub record ConsistencyHead : Type 0 where
  pub tree_size : ℕ
  pub root_hash : Text
  pub signature_ok : Bool
  pub root_matches_leaves : Bool

-- The fields `from` and `to` of the source are `before` and `after`.
pub record ConsistencyPair : Type 0 where
  pub before : ℕ
  pub after : ℕ
  pub proof_length : ℕ
  pub ok : Bool

-- The texts of `reasons`, with the numbers that they name.
pub data ConsistencyReason : Type 0 where
  too_few_heads : ConsistencyReason
  several_logs : ConsistencyReason
  leaf_claimed_twice : ℕ → ConsistencyReason
  leaf_missing : ℕ → ℕ → ConsistencyReason
  equivocation : ℕ → ConsistencyReason
  head_unsigned : ℕ → ConsistencyReason
  root_differs : ℕ → ConsistencyReason
  proof_fails : ℕ → ℕ → ConsistencyReason

pub record ConsistencyResult : Type 0 where
  pub ok : Bool
  pub log_id : Option String
  pub heads : List ConsistencyHead
  pub pairs : List ConsistencyPair
  pub reasons : List ConsistencyReason

pub record ConsistencyOptions : Type 0 where
  pub trusted_keys : Option KeyDirectory

-- A receipt with the head and the inclusion that the filter `r.sth && r.inclusion` finds in it.
pub record Headed : Type 0 where
  pub receipt : ReceiptV2
  pub sth : Sth
  pub inclusion : Inclusion

-- A JavaScript `Map` with numbers for keys, in insertion order.
abbrev pub NumberMap {ℓ} : Type ℓ → Type ℓ
NumberMap V = List (ℕ × V)

module _ {ℓ} {V : Type ℓ} where
  unfoldable pub at_key : ℕ → NumberMap V → Option V
  at_key k [] = none
  at_key k ((j, v) ∷ m) = if j == k then some v else at_key k m

  unfoldable pub put : ℕ → V → NumberMap V → NumberMap V
  put k v [] = (k, v) ∷ []
  put k v ((j, w) ∷ m) = if j == k then (j, v) ∷ m else (j, w) ∷ put k v m

  unfoldable pub keys_of : NumberMap V → List ℕ
  keys_of [] = []
  keys_of ((k, v) ∷ m) = k ∷ keys_of m

-- fail
unfoldable pub failed : List ConsistencyReason → Option String → ConsistencyResult
failed reasons log_id = record {
  ok = false;
  log_id = log_id;
  heads = [];
  pairs = [];
  reasons = reasons;
}

abbrev pub headed : ReceiptV2 → Option Sth → Option Inclusion → List Headed
headed r (some sth) (some inc) = record { receipt = r; sth = sth; inclusion = inc } ∷ []
headed r _ _ = []

-- withHead
unfoldable pub with_head : List ReceiptV2 → List Headed
with_head [] = []
with_head (r ∷ receipts) = headed r r.sth r.inclusion ++ with_head receipts

-- A binding digest's leaf, against the one seen at its index.
abbrev pub claim : ℕ → Bytes → Option Bytes → List ConsistencyReason
claim index leaf none = []
claim index leaf (some seen) = if text_eq seen leaf then [] else leaf_claimed_twice index ∷ []

unfoldable pub fork : ℕ → Headed → Option Headed → List ConsistencyReason
fork size h none = []
fork size h (some prior) =
    if text_eq prior.sth.root_hash h.sth.root_hash then [] else equivocation size ∷ []

-- prior ?? r
abbrev pub or_prior : Option Headed → Headed → Headed
or_prior none h = h
or_prior (some prior) h = prior

-- `headBySize`, with the reasons that its loop pushes.
unfoldable pub head_by_size :
    NumberMap Headed → List Headed → NumberMap Headed × List ConsistencyReason
head_by_size seen [] = (seen, [])
head_by_size seen (h ∷ hs) =
    let size = h.sth.tree_size in
    let rest = head_by_size (put size (or_prior (at_key size seen) h) seen) hs in
    (rest.0, fork size h (at_key size seen) ++ rest.1)

-- Math.max
unfoldable pub max_size : List Headed → ℕ
max_size [] = 0
max_size (h ∷ hs) =
    let most = max_size hs in if leb most h.sth.tree_size then h.sth.tree_size else most

-- The leaves from index `i` on, `count` of them, or the first index without one.
unfoldable pub fill : NumberMap Bytes → ℕ → ℕ → ℕ ⊎ List Bytes
fill m i zero = inr []
fill m i (suc count) = elim (at_key i m) [
  | none ↦ inl i
  | some leaf ↦ elim (fill m (suc i) count) [ inl j ↦ inl j | inr leaves ↦ inr (leaf ∷ leaves) ]
]

unfoldable pub insert_size : ℕ → List ℕ → List ℕ
insert_size k [] = k ∷ []
insert_size k (j ∷ sizes) =
    let rest = insert_size k sizes in if ltb j k then j ∷ rest else k ∷ j ∷ sizes

-- sort((a, b) => a - b)
unfoldable pub sort_sizes : List ℕ → List ℕ
sort_sizes [] = []
sort_sizes (k ∷ sizes) = insert_size k (sort_sizes sizes)

-- options.trustedKeys?.[id] ?? r.key_directory[id]
unfoldable pub head_entry : ConsistencyOptions → Headed → Option DirectoryEntry
head_entry options h =
    let id = h.sth.signature.key_id in
    let own = Map.get id h.receipt.key_directory in
    elim options.trusted_keys [
      | none ↦ own
      | some trusted ↦ elim (Map.get id trusted) [ none ↦ own | some entry ↦ some entry ]
    ]

abbrev pub reason_unless : Bool → ConsistencyReason → List ConsistencyReason
reason_unless true reason = []
reason_unless false reason = reason ∷ []

abbrev pub all_ok : List ConsistencyReason → List ConsistencyHead → List ConsistencyPair → Bool
all_ok (_ ∷ _) heads pairs = false
all_ok [] heads pairs =
    leb 2 (length heads)
    && every (λ p. p.ok) pairs
    && every (λ h. h.signature_ok && h.root_matches_leaves) heads
