-- ===== src/Tests/Signatures.antt =====
-- src/sign.ts and src/authz/signed.ts with schemes whose signature is the key and the message.
use cool_sdk.Prelude.{◌≡◌, refl, some, [], ◌∷◌, ◌++◌, codes}
use cool_sdk.Codec.{Bytes}
use cool_sdk.Codec.Equal.{bytes_equal_iff}
use cool_sdk.Sign.{SignatureBlock, KeyPair, hybrid_sign, from_base64_field}
use cool_sdk.Sign.Laws.{IsSound}
use cool_sdk.Sign.Object.{Signed, sign_object, verify_integrity}
use cool_sdk.Sign.Object.Laws.{IsSha256, IsVerified, verify_integrity-sign_object}
use cool_sdk.Tests.Data.{schemes, checksum, length-checksum, checksum_bytes}

abbrev pub issuer_key : KeyPair
issuer_key = record {
  key_id = "issuer";
  ml_dsa_secret = 1 ∷ 2 ∷ [];
  ed25519_secret = 3 ∷ 4 ∷ [];
  directory_entry = record {
    ml_dsa_pub = codes "base64:" ++ 1 ∷ 2 ∷ [];
    ed25519_pub = codes "base64:" ++ 3 ∷ 4 ∷ [];
  };
}

pub schemes-IsSound : IsSound schemes issuer_key
unfolding from_base64_field
schemes-IsSound = record {
  atob-btoa = λ t. refl;
  ml_dsa_pub = 1 ∷ 2 ∷ [];
  ed25519_pub = 3 ∷ 4 ∷ [];
  carries_ml_dsa = refl;
  carries_ed25519 = refl;
  ml_dsa_verify-sign = λ m. rw ((bytes_equal_iff (1 ∷ 2 ∷ m) (1 ∷ 2 ∷ m)).1 refl) refl;
  ed25519_verify-sign = λ m. rw ((bytes_equal_iff (3 ∷ 4 ∷ m) (3 ∷ 4 ∷ m)).1 refl) refl;
}

pub checksum_digests : IsSha256 checksum
checksum_digests = record { size = length-checksum; bytes = checksum_bytes }

abbrev other_block : SignatureBlock
other_block = hybrid_sign schemes (8 ∷ []) issuer_key

verify_integrity-sign_object_example :
    (s : Signed Bytes) × (sign_object schemes (λ b. some b) "log" (5 ∷ 6 ∷ []) issuer_key ≡ some s)
    × IsVerified schemes
        (λ b. some b)
        (verify_integrity schemes (λ b. some b) "log" s (some issuer_key.directory_entry))
verify_integrity-sign_object_example =
    verify_integrity-sign_object schemes (λ b. some b) "log" (5 ∷ 6 ∷ []) (5 ∷ 6 ∷ []) issuer_key
      checksum_digests schemes-IsSound refl
