-- ===== src/Tests/Data.antt =====
-- Functions in place of the libraries: a checksum for SHA-256, and signatures that name their key.
use cool_sdk.Prelude.{ℕ, zero, suc, ◌+◌, ◌≡◌, refl, some, [], ◌∷◌, ◌++◌, arith, length, All, ◌%◌}
use cool_sdk.Codec.{Bytes, IsByte, bytes_equal}
use cool_sdk.Sign.{Crypto}

abbrev pub total : Bytes → ℕ
total [] = 7
total (b ∷ bytes) = (b + 3 + total bytes + total bytes) % 256

abbrev pub zeros : ℕ → Bytes
zeros zero = []
zeros (suc n) = 0 ∷ zeros n

abbrev pub checksum : Bytes → Bytes
checksum bytes = (total bytes % 256) ∷ zeros 31

pub length-checksum : (x : Bytes) → length (checksum x) ≡ 32
length-checksum x = refl

zeros_bytes : (n : ℕ) → All IsByte (zeros n)
zeros_bytes zero = tt
zeros_bytes (suc n) = (omega arith, zeros_bytes n)

pub checksum_bytes : (x : Bytes) → All IsByte (checksum x)
checksum_bytes x = (omega arith, zeros_bytes 31)

abbrev pub schemes : Crypto
schemes = record {
  sha256 = checksum;
  btoa = λ t. t;
  atob = λ t. some t;
  ml_dsa_verify = λ key m s. some (bytes_equal s (key ++ m));
  ed25519_verify = λ s m key. some (bytes_equal s (key ++ m));
  ml_dsa_sign = λ key m. key ++ m;
  ed25519_sign = λ m key. key ++ m;
}
