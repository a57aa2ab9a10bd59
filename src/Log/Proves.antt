-- ===== src/Log/Proves.antt =====
-- What the log proves, `verifyReceiptV2` accepts.
use cool_sdk.Prelude.{
  ℕ, zero, suc, ◌-◌, ◌≤◌, ◌<◌, ◌≡◌, ◌⊎◌, inl, inr, refl, ap, sym, ◌∙◌, Bool, true, false, Option,
  none, some, List, [], ◌∷◌, ◌++◌, map, arith, length, take, drop, get_elem?, All, String, ◌==◌,
  leb, ltb, if◌then◌else◌,
}
use cool_sdk.Prelude.Map
use cool_sdk.Codec.{Bytes, Text, IsByte, to_hex}
use cool_sdk.Multihash.{multihash_prefix, multihash_from_digest, multihash_digest}
use cool_sdk.Multihash.RoundTrip.{multihash_digest-multihash_from_digest}
use cool_sdk.Merkle.{
  leaf_hash, node_hash, root_fuel, merkle_root, append_to, proof_fuel, inclusion_proof,
  verify_inclusion, largest_power_of_two_below,
}
use cool_sdk.Merkle.Power.{max_leaves}
use cool_sdk.Merkle.Complete.{verify_inclusion-inclusion_proof}
use cool_sdk.Sign.{Crypto, KeyPair, hybrid_sign, hybrid_verify}
use cool_sdk.Sign.Laws.{IsSound, hybrid_verify-hybrid_sign}
use cool_sdk.Sign.Object.Laws.{IsSha256}
use cool_sdk.Phala.Receipt.{SthCore, Sth, RecordCoreV2, ReceiptV2, sth_core, record_leaf_data}
use cool_sdk.Phala.Quote.{QuoteEncoders}
use cool_sdk.Phala.Verify.{pass}
use cool_sdk.Phala.Verify.Domains.{digests, inclusion_domain}
use cool_sdk.Phala.Verify.Logged.{inclusion_domain-pass}
use cool_sdk.Log.{
  MemoryLog, new_log, multihashes, inclusion_audit_path, root_hash, core_at, signed_head, build_sth,
  append_all,
}
use cool_sdk.Log.Grows.{append_all-IsLog}

-- A digest of SHA-256.
abbrev IsDigest : Bytes → Type 0
IsDigest h = (length h ≡ 32) × All IsByte h

multihash_from_digest-some :
    (d : Bytes)
    → IsDigest d
    → (mh : Text) × (multihash_from_digest d ≡ some mh) × (multihash_digest mh ≡ some d)
unfolding multihash_from_digest
multihash_from_digest-some d (size, bytes) =
    let made : multihash_from_digest d ≡ some (multihash_prefix ++ to_hex d) = rw size refl in
    (
      multihash_prefix ++ to_hex d,
      made,
      multihash_digest-multihash_from_digest d (multihash_prefix ++ to_hex d) bytes made,
    )

digests-multihashes :
    (path : List Bytes)
    → All IsDigest path
    → (mhs : List Text) × (multihashes path ≡ some mhs) × (digests mhs ≡ some path)
unfolding multihashes digests
digests-multihashes [] h = ([], refl, refl)
digests-multihashes (d ∷ path) (p, h) =
    let (mh, made, back) = multihash_from_digest-some d p in
    let (mhs, all, undone) = digests-multihashes path h in
    (mh ∷ mhs, rw (multihashes, made, all) refl, rw (digests, back, undone) refl)

All-take : (n : ℕ) (hs : List Bytes) → All IsDigest hs → All IsDigest (take n hs)
All-take zero hs h = tt
All-take (suc n) [] h = tt
All-take (suc n) (x ∷ hs) (p, h) = (p, All-take n hs h)

All-drop : (n : ℕ) (hs : List Bytes) → All IsDigest hs → All IsDigest (drop n hs)
All-drop zero hs h = h
All-drop (suc n) [] h = tt
All-drop (suc n) (x ∷ hs) (p, h) = All-drop n hs h

All-append : (xs ys : List Bytes) → All IsDigest xs → All IsDigest ys → All IsDigest (xs ++ ys)
All-append [] ys h k = k
All-append (x ∷ xs) ys (p, h) k = (p, All-append xs ys h k)

module _ (sha256 : Bytes → Bytes) (good : IsSha256 sha256) where
  hash-IsDigest : (x : Bytes) → IsDigest (sha256 x)
  hash-IsDigest x = (good.size x, good.bytes x)

  root_fuel-IsDigest :
      (fuel : ℕ) (hs : List Bytes)
      → length hs ≤ suc fuel
      → All IsDigest hs
      → IsDigest (root_fuel sha256 fuel hs)
  unfolding root_fuel node_hash
  root_fuel-IsDigest fuel [] fits h = hash-IsDigest []
  root_fuel-IsDigest fuel (x ∷ []) fits (p, h) = p
  root_fuel-IsDigest zero (x ∷ y ∷ xs) fits h = absurd (omega (arith, fits))
  root_fuel-IsDigest (suc fuel) (x ∷ y ∷ xs) fits h = hash-IsDigest _

  merkle_root-IsDigest : (hs : List Bytes) → All IsDigest hs → IsDigest (merkle_root sha256 hs)
  unfolding merkle_root
  merkle_root-IsDigest hs h = root_fuel-IsDigest (length hs) hs (omega arith) h

  append_to-IsDigest :
      (x : Bytes) (o : Option (List Bytes)) (path : List Bytes)
      → IsDigest x
      → ((q : List Bytes) → o ≡ some q → All IsDigest q)
      → append_to sha256 x o ≡ some path
      → All IsDigest path
  append_to-IsDigest x none path p h e = absurd (ground arith)
  append_to-IsDigest x (some q) path p h e =
      let is : q ++ x ∷ [] ≡ path = cc in rw (sym is) (All-append q (x ∷ []) (h q refl) (p, tt))

  proof_fuel-IsDigest :
      (fuel : ℕ) (hs : List Bytes) (m : ℕ) (path : List Bytes)
      → All IsDigest hs
      → proof_fuel sha256 fuel hs m ≡ some path
      → All IsDigest path
  unfolding proof_fuel
  proof_fuel-IsDigest zero hs m path h e = absurd (ground arith)
  proof_fuel-IsDigest (suc fuel) hs m path h e =
      let k = largest_power_of_two_below (length hs) in
      let left = proof_fuel sha256 fuel (take k hs) m in
      let right = proof_fuel sha256 fuel (drop k hs) (m - k) in
      elim (branches (leb (length hs) m) (length hs == 1) (ltb m k)
        (append_to sha256 (merkle_root sha256 (drop k hs)) left)
        (append_to sha256 (merkle_root sha256 (take k hs)) right) e) [
          | inl empty ↦ rw empty tt
          | inr (inl in_left) ↦
              append_to-IsDigest _ left path (merkle_root-IsDigest (drop k hs) (All-drop k hs h))
                (λ q f. proof_fuel-IsDigest fuel (take k hs) m q (All-take k hs h) f) in_left
          | inr (inr in_right) ↦
              append_to-IsDigest _ right path (merkle_root-IsDigest (take k hs) (All-take k hs h))
                (λ q f. proof_fuel-IsDigest fuel (drop k hs) (m - k) q (All-drop k hs h) f) in_right
        ]
    where
      branches :
          (a b t : Bool) (l r : Option (List Bytes))
          → (if a then none else if b then some [] else if t then l else r) ≡ some path
          → (path ≡ []) ⊎ (l ≡ some path) ⊎ (r ≡ some path)
      branches true b t l r h = absurd (ground arith)
      branches false true t l r h = inl (cc)
      branches false false true l r h = inr (inl h)
      branches false false false l r h = inr (inr h)

  inclusion_proof-IsDigest :
      (hs : List Bytes) (m : ℕ) (path : List Bytes)
      → All IsDigest hs
      → inclusion_proof sha256 hs m ≡ some path
      → All IsDigest path
  unfolding inclusion_proof
  inclusion_proof-IsDigest hs m path h e = proof_fuel-IsDigest (suc (length hs)) hs m path h e

  leaves-IsDigest : (leaves : List Bytes) → All IsDigest (map (leaf_hash sha256) leaves)
  unfolding leaf_hash
  leaves-IsDigest [] = tt
  leaves-IsDigest (leaf ∷ leaves) = (hash-IsDigest _, leaves-IsDigest leaves)

get_elem?-map :
    (f : Bytes → Bytes) (xs : List Bytes) (i : ℕ) (x : Bytes)
    → get_elem? xs i ≡ some x
    → get_elem? (map f xs) i ≡ some (f x)
get_elem?-map f [] i x h = absurd (ground arith)
get_elem?-map f (y ∷ xs) zero x h = let e : y ≡ x = cc in ap (λ z. some (f z)) e
get_elem?-map f (y ∷ xs) (suc i) x h = get_elem?-map f xs i x h

get_elem?-lt : (xs : List Bytes) (i : ℕ) (x : Bytes) → get_elem? xs i ≡ some x → i < length xs
get_elem?-lt [] i x h = absurd (ground arith)
get_elem?-lt (y ∷ xs) zero x h = omega arith
get_elem?-lt (y ∷ xs) (suc i) x h = omega (arith, get_elem?-lt xs i x h)

length-map : (f : Bytes → Bytes) (xs : List Bytes) → length (map f xs) ≡ length xs
length-map f [] = refl
length-map f (x ∷ xs) = omega (arith, length-map f xs)

hybrid_sign-key_id :
    (c : Crypto) (message : Bytes) (key : KeyPair) → (hybrid_sign c message key).key_id ≡ key.key_id
unfolding hybrid_sign
hybrid_sign-key_id c message key = refl

module _ (c : Crypto) (e : QuoteEncoders) (encode_core : RecordCoreV2 → Option Bytes)
    (encode_sth : SthCore → Option Bytes) where
  -- A log that has taken the leaves, from none.
  abbrev pub log_of : String → KeyPair → List Bytes → MemoryLog
  log_of id key leaves = append_all c encode_sth (new_log id key) leaves

  -- A receipt whose binding is a leaf, with a path and a head of the log and the log's keys.
  abbrev pub Carries : ReceiptV2 → ℕ → List Bytes → KeyPair → Bytes → List Text → Sth → Type 0
  Carries r i leaves key leaf path sth =
      (record_leaf_data r.binding_hash ≡ some leaf)
      × (r.inclusion
          ≡ some (record { leaf_index = i; tree_size = length leaves; audit_path = path }))
      × (r.sth ≡ some sth)
      × (Map.get key.key_id r.key_directory ≡ some key.directory_entry)

  -- A log of at most 2^30 leaves gives for each of its leaves an audit path, and a signed head; and
  -- the inclusion domain of a receipt that carries them passes. SHA-256 gives 32 bytes, the
  -- signatures of the log's key verify, and the encoder of heads does not throw.
  pub inclusion_domain-build_sth :
      IsSha256 c.sha256
      → (id : String) (key : KeyPair) (leaves : List Bytes) (i : ℕ) (leaf : Bytes) (time : String)
      → IsSound c key
      → ((core : SthCore) → (b : Bytes) × (encode_sth core ≡ some b))
      → length leaves ≤ max_leaves
      → get_elem? leaves i ≡ some leaf
      → (path : List Text) × (sth : Sth) × (inclusion_audit_path c (log_of id key leaves) i
          ≡ some path)
        × (build_sth c encode_sth (log_of id key leaves) time ≡ some sth)
        × ((r : ReceiptV2)
            → Carries r i leaves key leaf path sth
            → inclusion_domain c e encode_core encode_sth r ≡ some (pass, []))
  unfolding new_log inclusion_audit_path build_sth root_hash sth_core
  inclusion_domain-build_sth good id key leaves i leaf time sound encodes small at =
      let log = log_of id key leaves in
      let (hashed, kept, key_is, id_is) =
        append_all-IsLog c encode_sth leaves (new_log id key) refl in
      let hashes : log.leaf_hashes ≡ map (leaf_hash c.sha256) leaves =
        hashed ∙ ap (map (leaf_hash c.sha256)) kept in
      let n : length (map (leaf_hash c.sha256) leaves) ≡ length leaves =
        length-map (leaf_hash c.sha256) leaves in
      let sound_digests = leaves-IsDigest c.sha256 good leaves in
      let (path, proved, accepted) =
        verify_inclusion-inclusion_proof c.sha256 (map (leaf_hash c.sha256) leaves) i
          (leaf_hash c.sha256 leaf) (omega (arith, n, small))
          (get_elem?-map (leaf_hash c.sha256) leaves i leaf at) in
      let (texts, made, back) = digests-multihashes path (
        inclusion_proof-IsDigest c.sha256 good (map (leaf_hash c.sha256) leaves) i path
          sound_digests proved) in
      let (root, rooted, root_back) =
        multihash_from_digest-some (merkle_root c.sha256 (map (leaf_hash c.sha256) leaves))
          (merkle_root-IsDigest c.sha256 good _ sound_digests) in
      let core = core_at c log root time in
      let (message, encoded) = encodes core in
      let sth = signed_head c core (hybrid_sign c message log.log_key) in
      let built : build_sth c encode_sth log time ≡ some sth =
        rw (build_sth, root_hash, hashes, rooted, encoded) refl in
      let root_bytes = merkle_root c.sha256 (map (leaf_hash c.sha256) leaves) in
      let counted =
        ap (λ n. verify_inclusion c.sha256 (leaf_hash c.sha256 leaf) i n path root_bytes)
          (ap length kept ∙ sym n)
        ∙ accepted in
      let verified =
        ap (λ k. (hybrid_verify c message (hybrid_sign c message k) key.directory_entry).ok) key_is
        ∙ hybrid_verify-hybrid_sign c key message sound in
      let same_key = hybrid_sign-key_id c message log.log_key ∙ ap (λ k. k.key_id) key_is in
      (
        texts,
        sth,
        rw (inclusion_audit_path, hashes, proved, made) refl,
        built,
        λ r (bound, included, headed, listed).
            inclusion_domain-pass c e encode_core encode_sth r _ sth leaf
              (merkle_root c.sha256 (map (leaf_hash c.sha256) leaves)) message path
              key.directory_entry included headed (ap length (sym kept))
              (omega (arith, get_elem?-lt leaves i leaf at, ap length kept)) bound back root_back
              counted (ap (λ k. Map.get k r.key_directory) same_key ∙ listed) encoded verified,
      )
