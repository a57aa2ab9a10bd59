-- ===== src/Sign.antt =====
-- src/sign.ts, the base64 part of src/codec.ts, and src/authz/signed.ts: hybrid signatures, and
-- signed objects. The signature schemes, SHA-256, `btoa`, `atob` and the canonical CBOR encoder
-- are libraries: they are the parameter `Crypto`.
pub mod Object
pub mod Laws
use cool_sdk.Prelude.{
  ℕ, zero, suc, ◌-◌, String, Bool, true, false, ◌&&◌, Option, none, some, List, [], ◌∷◌, ◌++◌,
  if◌then◌else◌, length, take, drop, codes, starts_with, leb,
}
use cool_sdk.Codec.{Bytes, Text}

pub record Crypto : Type 0 where
  pub sha256 : Bytes → Bytes
  -- `btoa` and `atob` on binary strings; `atob` throws on what is not base64.
  pub btoa : Text → Text
  pub atob : Text → Option Text
  -- public key, message, signature; `none` is a throw
  pub ml_dsa_verify : Bytes → Bytes → Bytes → Option Bool
  -- signature, message, public key
  pub ed25519_verify : Bytes → Bytes → Bytes → Option Bool
  -- secret key, message
  pub ml_dsa_sign : Bytes → Bytes → Bytes
  -- message, secret key
  pub ed25519_sign : Bytes → Bytes → Bytes

pub record SignatureBlock : Type 0 where
  pub key_id : String
  pub ml_dsa : Text
  pub ed25519 : Text

pub record DirectoryEntry : Type 0 where
  pub ml_dsa_pub : Text
  pub ed25519_pub : Text

pub record KeyPair : Type 0 where
  pub key_id : String
  pub ml_dsa_secret : Bytes
  pub ed25519_secret : Bytes
  pub directory_entry : DirectoryEntry

pub record HybridVerifyResult : Type 0 where
  pub ok : Bool
  pub ml_dsa_ok : Bool
  pub ed25519_ok : Bool

abbrev pub chunk_size : ℕ
chunk_size = 0x8000

-- The loop of `toBase64`: the characters of each chunk, which are those of the bytes. The fuel is
-- the number of rounds.
unfoldable pub binary_chunks : ℕ → Bytes → Text
binary_chunks zero bytes = []
binary_chunks (suc rounds) [] = []
binary_chunks (suc rounds) (b ∷ bytes) =
    take chunk_size (b ∷ bytes) ++ binary_chunks rounds (drop chunk_size (b ∷ bytes))

abbrev pub b64_field_prefix : Text
b64_field_prefix = codes "base64:"

-- The catch clauses: a throw is a failed verification.
abbrev pub caught : Option Bool → Bool
caught none = false
caught (some b) = b

abbrev pub bind {ℓ κ} : {A : Type ℓ} {B : Type κ} → Option A → (A → Option B) → Option B
bind none f = none
bind (some a) f = f a

infixl 5 ◌>>=◌
abbrev pub ◌>>=◌ {ℓ κ} : {A : Type ℓ} {B : Type κ} → Option A → (A → Option B) → Option B
m >>= f = bind m f

module _ (c : Crypto) where
  unfoldable pub to_base64 : Bytes → Text
  unfolding binary_chunks
  to_base64 bytes = c.btoa (binary_chunks (length bytes) bytes)

  abbrev pub from_base64 : Text → Option Bytes
  from_base64 b64 = c.atob b64

  unfoldable pub to_base64_field : Bytes → Text
  to_base64_field bytes = b64_field_prefix ++ to_base64 bytes

  unfoldable pub from_base64_field : Text → Option Bytes
  from_base64_field field =
      if starts_with field b64_field_prefix
      then from_base64 (drop (length b64_field_prefix) field)
      else none

  unfoldable pub hybrid_sign : Bytes → KeyPair → SignatureBlock
  hybrid_sign message key = record {
    key_id = key.key_id;
    ml_dsa = to_base64_field (c.ml_dsa_sign key.ml_dsa_secret message);
    ed25519 = to_base64_field (c.ed25519_sign message key.ed25519_secret);
  }

  unfoldable pub verify_ml_dsa : Bytes → SignatureBlock → DirectoryEntry → Option Bool
  verify_ml_dsa message signature entry = do
    key ← from_base64_field entry.ml_dsa_pub
    sig ← from_base64_field signature.ml_dsa
    c.ml_dsa_verify key message sig

  unfoldable pub verify_ed25519 : Bytes → SignatureBlock → DirectoryEntry → Option Bool
  verify_ed25519 message signature entry = do
    sig ← from_base64_field signature.ed25519
    key ← from_base64_field entry.ed25519_pub
    c.ed25519_verify sig message key

  unfoldable pub hybrid_verify : Bytes → SignatureBlock → DirectoryEntry → HybridVerifyResult
  hybrid_verify message signature entry =
      let ml_dsa_ok = caught (verify_ml_dsa message signature entry) in
      let ed25519_ok = caught (verify_ed25519 message signature entry) in
      record { ok = ml_dsa_ok && ed25519_ok; ml_dsa_ok = ml_dsa_ok; ed25519_ok = ed25519_ok }
