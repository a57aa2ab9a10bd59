-- ===== src/Sign/Object/Laws.antt =====
-- Signed objects verify as they were made, and their digest binds their encoding.
use cool_sdk.Prelude.{
  ap, ◌≢◌, Bool-cases, String, ◌≡◌, ◌⊎◌, inl, inr, refl, sym, ◌∙◌, true, Option, some, none, [],
  ◌∷◌, ◌++◌, length, All, append-nil,
}
use cool_sdk.Codec.{Bytes, Text, IsByte, concat_bytes, bytes_equal}
use cool_sdk.Codec.Equal.{bytes_equal_iff}
use cool_sdk.Multihash.RoundTrip.{multihash_digest-mh_sha256, mh_sha256_injective}
use cool_sdk.Platform.Status.{CheckStatus}
use cool_sdk.Sign.{Crypto, DirectoryEntry, KeyPair, hybrid_sign, hybrid_verify}
use cool_sdk.Sign.Laws.{IsSound, hybrid_verify-hybrid_sign}
use cool_sdk.Sign.Object.{
  Signed, domain, sig_domain, digest_of_bytes, sig_message, same_key, same_ml_dsa, key_matches,
  digest_of, sign_object, check_signature, verify_signature, verify_integrity, IntegrityReport,
}

-- SHA-256 gives 32 bytes.
pub record IsSha256 (sha256 : Bytes → Bytes) : Type 0 where
  pub size : (x : Bytes) → length (sha256 x) ≡ 32
  pub bytes : (x : Bytes) → All IsByte (sha256 x)

module _ (c : Crypto) where
  concat_two : (a b : Bytes) → concat_bytes (a ∷ b ∷ []) ≡ a ++ b
  unfolding concat_bytes
  concat_two a b = rw append-nil refl

  same_prefix : (p a b : Bytes) → p ++ a ≡ p ++ b → a ≡ b
  same_prefix [] a b e = e
  same_prefix (x ∷ p) a b e = same_prefix p a b (cc)

  -- Where SHA-256 gives bytes, two bodies with one digest in a context are equal, or they collide:
  -- SHA-256 takes one value at the context's prefix before the one and before the other, and the
  -- two inputs differ.
  pub digest_of_bytes_binds :
      ((x : Bytes) → All IsByte (c.sha256 x))
      → (context : String) (a b : Bytes) → digest_of_bytes c context a ≡ digest_of_bytes c context b
      → (a ≡ b)
        ⊎ ((domain context ++ a ≢ domain context ++ b)
            × (c.sha256 (domain context ++ a) ≡ c.sha256 (domain context ++ b)))
  unfolding digest_of_bytes
  digest_of_bytes_binds bytes context a b e =
      let same = mh_sha256_injective c.sha256 bytes _ _ e in
      elim (Bool-cases (bytes_equal a b)) [
        | inl equal ↦ inl ((bytes_equal_iff a b).0 equal)
        | inr other ↦ inr (
          λ inputs. cc ((bytes_equal_iff a b).1 (same_prefix (domain context) a b inputs)),
          ap c.sha256 (sym (concat_two (domain context) a))
              ∙ same
              ∙ ap c.sha256 (concat_two (domain context) b),
        )
      ]

  same_key_self :
      (key : KeyPair)
      → IsSound c key
      → same_key c key.directory_entry key.directory_entry ≡ some true
  unfolding same_key same_ml_dsa
  same_key_self key s =
      rw (s.carries_ed25519, s.carries_ml_dsa)
        (rw
          (
            (bytes_equal_iff s.ed25519_pub s.ed25519_pub).1 refl,
            (bytes_equal_iff s.ml_dsa_pub s.ml_dsa_pub).1 refl,
          )
          refl)

  sig_message_of :
      IsSha256 c.sha256
      → (context : String) (b : Bytes)
      → sig_message c context (digest_of_bytes c context b)
        ≡ some (
            concat_bytes
              (sig_domain context ∷ c.sha256 (concat_bytes (domain context ∷ b ∷ [])) ∷ []))
  unfolding sig_message digest_of_bytes
  sig_message_of h context b =
      rw
        (multihash_digest-mh_sha256 c.sha256 (concat_bytes (domain context ∷ b ∷ [])) (h.size _)
          (h.bytes _))
        refl

  module _ {T : Type 0} (encode : T → Option Bytes) where
    digest_of_encoded :
        (context : String) (body : T) (b : Bytes)
        → encode body ≡ some b
        → digest_of c encode context body ≡ some (digest_of_bytes c context b)
    unfolding digest_of
    digest_of_encoded context body b e = rw e refl

    signed_as :
        (context : String) (body : T) (digest : Text) (message : Bytes) (key : KeyPair)
        → digest_of c encode context body ≡ some digest
        → sig_message c context digest ≡ some message
        → sign_object c encode context body key
          ≡ some (record {
            body = body;
            digest = digest;
            signature = hybrid_sign c message key;
            signer = key.directory_entry;
          })
    unfolding sign_object
    signed_as context body digest message key e f = rw (e, f) refl

    -- What `verifyIntegrity` says of a good object.
    abbrev pub IsVerified : Option IntegrityReport → Type 0
    IsVerified none = ⊥
    IsVerified (some r) =
        (r.integrity.status ≡ CheckStatus.pass) × (r.signature.status ≡ CheckStatus.pass)

    IsVerified-as :
        (context : String) (s : Signed T) (digest : Text) (message : Bytes) (entry : DirectoryEntry)
        → digest_of c encode context s.body ≡ some digest
        → s.digest ≡ digest
        → sig_message c context digest ≡ some message
        → same_key c entry s.signer ≡ some true
        → (hybrid_verify c message s.signature entry).ok ≡ true
        → IsVerified (verify_integrity c encode context s (some entry))
    unfolding verify_integrity verify_signature check_signature key_matches
    IsVerified-as context s digest message entry hashed same signs keys valid =
        rw (hashed, same)
          (rw ((bytes_equal_iff digest digest).1 refl, keys, signs, valid) (refl, refl))

    -- Every body that can be encoded can be signed, and the signed object verifies against the
    -- signer's entry.
    pub verify_integrity-sign_object :
        (context : String) (body : T) (b : Bytes) (key : KeyPair)
        → IsSha256 c.sha256
        → IsSound c key
        → encode body ≡ some b
        → (s : Signed T) × (sign_object c encode context body key ≡ some s)
          × IsVerified (verify_integrity c encode context s (some key.directory_entry))
    verify_integrity-sign_object context body b key h sound e =
        let digest = digest_of_bytes c context b in
        let message =
          concat_bytes
            (sig_domain context ∷ c.sha256 (concat_bytes (domain context ∷ b ∷ [])) ∷ []) in
        let s : Signed T = record {
          body = body;
          digest = digest;
          signature = hybrid_sign c message key;
          signer = key.directory_entry;
        } in
        let hashed : digest_of c encode context body ≡ some digest =
          digest_of_encoded context body b e in
        let signs = sig_message_of h context b in
        (
          s,
          signed_as context body digest message key hashed signs,
          IsVerified-as context s digest message key.directory_entry hashed refl signs
              (same_key_self key sound) (hybrid_verify-hybrid_sign c key message sound),
        )
