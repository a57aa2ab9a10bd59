-- ===== src/Log/Grows.antt =====
-- The log is the list of the leaves appended to it, with their hashes.
use cool_sdk.Prelude.{
  ◌≡◌, refl, ap, sym, ◌∙◌, Option, some, List, [], ◌∷◌, ◌++◌, map, append_assoc, append-nil, length,
  get_elem?,
}
use cool_sdk.Codec.{Bytes}
use cool_sdk.Merkle.{leaf_hash}
use cool_sdk.Sign.{Crypto}
use cool_sdk.Phala.Receipt.{SthCore}
use cool_sdk.Log.{MemoryLog, append, append_all}

map-append : {A B : Type 0} (f : A → B) (xs ys : List A) → map f (xs ++ ys) ≡ map f xs ++ map f ys
map-append f [] ys = refl
map-append f (x ∷ xs) ys = ap (λ r. f x ∷ r) (map-append f xs ys)

module _ (c : Crypto) (encode_sth : SthCore → Option Bytes) where
  -- Each leaf has its hash at its place.
  abbrev pub IsLog : MemoryLog → Type 0
  IsLog log = log.leaf_hashes ≡ map (leaf_hash c.sha256) log.leaves

  append-IsLog : (log : MemoryLog) (leaf : Bytes) → IsLog log → IsLog (append c log leaf).0
  unfolding append
  append-IsLog log leaf h =
      ap (λ hs. hs ++ leaf_hash c.sha256 leaf ∷ []) h
      ∙ sym (map-append (leaf_hash c.sha256) log.leaves (leaf ∷ []))

  -- What a log has kept is a beginning of what it keeps after any appends, in order; the hashes
  -- follow the leaves; and its key and id stay.
  pub append_all-IsLog :
      (leaves : List Bytes) (log : MemoryLog)
      → IsLog log
      → IsLog (append_all c encode_sth log leaves)
        × ((append_all c encode_sth log leaves).leaves ≡ log.leaves ++ leaves)
        × ((append_all c encode_sth log leaves).log_key ≡ log.log_key)
        × ((append_all c encode_sth log leaves).log_id ≡ log.log_id)
  unfolding append_all append
  append_all-IsLog [] log h = (h, sym (append-nil log.leaves), refl, refl)
  append_all-IsLog (leaf ∷ leaves) log h =
      let (kept, all, key, id) =
        append_all-IsLog leaves (append c log leaf).0 (append-IsLog log leaf h) in
      (kept, all ∙ append_assoc log.leaves (leaf ∷ []) leaves, key, id)

  get_elem?-end : (xs : List Bytes) (x : Bytes) → get_elem? (xs ++ x ∷ []) (length xs) ≡ some x
  get_elem?-end [] x = refl
  get_elem?-end (y ∷ xs) x = get_elem?-end xs x

  -- `append` answers with the place of the leaf and the number of leaves after it.
  pub append-get :
      (log : MemoryLog) (leaf : Bytes)
      → (get_elem? (append c log leaf).0.leaves (append c log leaf).1.leaf_index ≡ some leaf)
        × ((append c log leaf).1.tree_size ≡ length (append c log leaf).0.leaves)
  unfolding append
  append-get log leaf = (get_elem?-end log.leaves leaf, refl)
