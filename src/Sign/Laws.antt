-- ===== src/Sign/Laws.antt =====
-- A signature that `hybridSign` makes verifies, and verification needs both schemes.
use native.Mathlib.Nat.{le_refl}
use cool_sdk.Prelude.{
  ℕ, zero, suc, ◌≤◌, ◌≡◌, ◌↔◌, refl, ap, ◌∙◌, true, some, List, [], ◌∷◌, ◌++◌, arith, length, take,
  drop, length-drop, take-append-drop,
}
use cool_sdk.Codec.{Bytes, Text}
use cool_sdk.Sign.{
  Crypto, SignatureBlock, DirectoryEntry, KeyPair, chunk_size, binary_chunks, to_base64,
  to_base64_field, from_base64_field, hybrid_sign, hybrid_verify, verify_ml_dsa, verify_ed25519,
}

-- Enough rounds put all chunks together again.
pub binary_chunks_all :
    (rounds : ℕ) (bytes : Bytes) → length bytes ≤ rounds → binary_chunks rounds bytes ≡ bytes
unfolding binary_chunks
binary_chunks_all zero [] h = refl
binary_chunks_all zero (b ∷ bytes) h = absurd (omega arith)
binary_chunks_all (suc rounds) [] h = refl
binary_chunks_all (suc rounds) (b ∷ bytes) h =
    let rest = drop chunk_size (b ∷ bytes) in
    ap (λ r. take chunk_size (b ∷ bytes) ++ r)
      (binary_chunks_all rounds rest (omega (arith, length-drop chunk_size (b ∷ bytes))))
    ∙ take-append-drop chunk_size (b ∷ bytes)

-- What the model relies on of the libraries: base64 decodes what it encodes, and each scheme
-- accepts its own signatures under the public key of the pair.
pub record IsSound (c : Crypto) (key : KeyPair) : Type 0 where
  pub atob-btoa : (t : Text) → c.atob (c.btoa t) ≡ some t
  pub ml_dsa_pub : Bytes
  pub ed25519_pub : Bytes
  pub carries_ml_dsa : from_base64_field c key.directory_entry.ml_dsa_pub ≡ some ml_dsa_pub
  pub carries_ed25519 : from_base64_field c key.directory_entry.ed25519_pub ≡ some ed25519_pub
  pub ml_dsa_verify-sign :
      (m : Bytes) → c.ml_dsa_verify ml_dsa_pub m (c.ml_dsa_sign key.ml_dsa_secret m) ≡ some true
  pub ed25519_verify-sign :
      (m : Bytes) → c.ed25519_verify (c.ed25519_sign m key.ed25519_secret) m ed25519_pub ≡ some true

drop-append : (xs ys : List ℕ) → drop (length xs) (xs ++ ys) ≡ ys
drop-append [] ys = refl
drop-append (x ∷ xs) ys = drop-append xs ys

module _ (c : Crypto) where
  -- The `base64:` field of any bytes decodes to them, if `atob` undoes `btoa`.
  pub from_base64_field-to_base64_field :
      ((t : Text) → c.atob (c.btoa t) ≡ some t)
      → (bytes : Bytes) → from_base64_field c (to_base64_field c bytes) ≡ some bytes
  unfolding from_base64_field to_base64_field to_base64
  from_base64_field-to_base64_field law bytes =
      rw (law (binary_chunks (length bytes) bytes))
        (ap some (binary_chunks_all (length bytes) bytes (le_refl _)))

  -- A signature block made with a key pair verifies against the pair's directory entry, in both
  -- schemes, for every message.
  pub hybrid_verify-hybrid_sign :
      (key : KeyPair) (message : Bytes)
      → IsSound c key
      → (hybrid_verify c message (hybrid_sign c message key) key.directory_entry).ok ≡ true
  unfolding hybrid_verify hybrid_sign verify_ml_dsa verify_ed25519
  hybrid_verify-hybrid_sign key message s =
      let a =
        from_base64_field-to_base64_field s.atob-btoa (c.ml_dsa_sign key.ml_dsa_secret message) in
      let b =
        from_base64_field-to_base64_field s.atob-btoa (c.ed25519_sign message key.ed25519_secret) in
      rw
        (
          a,
          b,
          s.carries_ml_dsa,
          s.carries_ed25519,
          s.ml_dsa_verify-sign message,
          s.ed25519_verify-sign message,
        )
        refl

  -- A block verifies exactly when the ML-DSA verifier and the Ed25519 verifier each accept it; an
  -- error in one of them is a refusal.
  pub hybrid_verify-ok_iff :
      (message : Bytes) (signature : SignatureBlock) (entry : DirectoryEntry)
      → ((hybrid_verify c message signature entry).ok ≡ true) ↔ (
          (verify_ml_dsa c message signature entry ≡ some true)
          × (verify_ed25519 c message signature entry ≡ some true))
  unfolding hybrid_verify
  hybrid_verify-ok_iff message signature entry = ground arith
