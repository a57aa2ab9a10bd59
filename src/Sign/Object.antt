-- ===== src/Sign/Object.antt =====
-- src/authz/signed.ts: objects with a digest, a hybrid signature and the signer's public keys.
-- `encode` is the canonical CBOR of the cleaned body; `none` is an error that it throws, and an
-- error that nothing catches makes the whole result `none`.
pub mod Laws
use cool_sdk.Sign.{◌>>=◌}
use cool_sdk.Prelude.{
  ℕ, String, Bool, true, false, ◌&&◌, Option, none, some, List, [], ◌∷◌, ◌++◌, if◌then◌else◌, codes,
  ◌==◌,
}
use cool_sdk.Prelude.Map
use cool_sdk.Codec.{Bytes, Text, concat_bytes, bytes_equal}
use cool_sdk.Multihash.{mh_sha256, multihash_digest}
use cool_sdk.Platform.Status.{CheckStatus, not_checked, Check, check}
use cool_sdk.Platform.Trust.{KeyPurpose, KeyRecord, TrustStore, TrustQuery, trust_get, evaluate}
use cool_sdk.Sign.{
  Crypto, SignatureBlock, DirectoryEntry, KeyPair, bind, from_base64_field, hybrid_sign,
  hybrid_verify,
}

pub record Signed {ℓ} (T : Type ℓ) : Type ℓ where
  pub body : T
  pub digest : Text
  pub signature : SignatureBlock
  pub signer : DirectoryEntry

pub record IntegrityReport : Type 0 where
  pub integrity : Check
  pub signature : Check

pub record TrustReport : Type 0 where
  pub integrity : Check
  pub signature : Check
  pub trusted : Check

-- `${context}\0` and `${context}.sig\0`, as UTF-8; the contexts are ASCII.
abbrev pub domain : String → Bytes
domain context = codes context ++ 0 ∷ []

abbrev pub sig_domain : String → Bytes
sig_domain context = codes context ++ codes ".sig" ++ 0 ∷ []

module _ (c : Crypto) where
  unfoldable pub digest_of_bytes : String → Bytes → Text
  digest_of_bytes context body = mh_sha256 c.sha256 (concat_bytes (domain context ∷ body ∷ []))

  unfoldable pub sig_message : String → Text → Option Bytes
  sig_message context digest = do
    d ← multihash_digest digest
    some (concat_bytes (sig_domain context ∷ d ∷ []))

  unfoldable pub same_ml_dsa : DirectoryEntry → DirectoryEntry → Option Bool
  same_ml_dsa a b = do
    z ← from_base64_field c a.ml_dsa_pub
    w ← from_base64_field c b.ml_dsa_pub
    some (bytes_equal z w)

  -- `sameKey`: the comparison is done in this order, and decoding may throw.
  unfoldable pub same_key : DirectoryEntry → DirectoryEntry → Option Bool
  same_key a b = do
    x ← from_base64_field c a.ed25519_pub
    y ← from_base64_field c b.ed25519_pub
    if bytes_equal x y then same_ml_dsa a b else some false

  -- No key is expected, or the carried key is the expected one.
  unfoldable pub key_matches : Option DirectoryEntry → DirectoryEntry → Option Bool
  key_matches none signer = some true
  key_matches (some expected) signer = same_key expected signer

  abbrev pub key_or : Option DirectoryEntry → DirectoryEntry → DirectoryEntry
  key_or none signer = signer
  key_or (some expected) signer = expected

  abbrev pub signature_check : Bool → Check
  signature_check true = check CheckStatus.pass "signature_valid"
  signature_check false = check CheckStatus.fail "signature_invalid"

  abbrev pub unverified : Check → IntegrityReport
  unverified integrity = record {
    integrity = integrity;
    signature = check not_checked "prerequisite_failed";
  }

  module _ {T : Type 0} (encode : T → Option Bytes) where
    unfoldable pub digest_of : String → T → Option Text
    digest_of context body = do b ← encode body; some (digest_of_bytes context b)

    unfoldable pub sign_object : String → T → KeyPair → Option (Signed T)
    sign_object context body key = do
      digest ← digest_of context body
      message ← sig_message context digest
      some (record {
        body = body;
        digest = digest;
        signature = hybrid_sign c message key;
        signer = key.directory_entry;
      })

    -- The call of `hybridVerify`, over the message of the digest.
    unfoldable pub check_signature :
        String → Signed T → Option DirectoryEntry → Option IntegrityReport
    check_signature context s expected = do
      message ← sig_message context s.digest
      some (record {
        integrity = check CheckStatus.pass "digest_matches";
        signature =
            signature_check (hybrid_verify c message s.signature (key_or expected s.signer)).ok;
      })

    -- Past the digest: the comparison of the keys, then the signature.
    unfoldable pub verify_signature :
        String → Signed T → Option DirectoryEntry → Option IntegrityReport
    verify_signature context s expected = do
      same ← key_matches expected s.signer
      if same
          then check_signature context s expected
          else some (record {
            integrity = check CheckStatus.pass "digest_matches";
            signature = check CheckStatus.fail "key_substitution";
          })

    abbrev pub after_digest :
        String → Signed T → Option DirectoryEntry → Option Text → Option IntegrityReport
    after_digest context s expected none = some (unverified (check CheckStatus.fail "malformed"))
    after_digest context s expected (some digest) =
        if bytes_equal digest s.digest
        then verify_signature context s expected
        else some (unverified (check CheckStatus.fail "digest_mismatch"))

    unfoldable pub verify_integrity :
        String → Signed T → Option DirectoryEntry → Option IntegrityReport
    verify_integrity context s expected = after_digest context s expected (digest_of context s.body)

    abbrev pub entry_of : Option (KeyRecord DirectoryEntry) → Option DirectoryEntry
    entry_of none = none
    entry_of (some k) = some k.entry

    abbrev pub trusted_check : CheckStatus → Check → Check
    trusted_check CheckStatus.pass trusted = trusted
    trusted_check _ trusted = check not_checked "prerequisite_failed"

    unfoldable pub verify_trusted :
        (String → Option ℕ)
        → String
        → Signed T
        → TrustStore DirectoryEntry
        → KeyPurpose
        → ℕ
        → Option TrustReport
    verify_trusted date_parse context s trust purpose now = do
      r ← verify_integrity context s (entry_of (trust_get trust s.signature.key_id))
      some (record {
        integrity = r.integrity;
        signature = r.signature;
        trusted = trusted_check r.signature.status (
            evaluate date_parse trust (record {
              key_id = s.signature.key_id;
              purpose = purpose;
              now = now;
              claimed_signed_at = none;
              proven_signed_before = none;
            }));
      })
