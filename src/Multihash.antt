-- ===== src/Multihash.antt =====
-- src/multihash.ts: digests as `mh:sha256:<hex>` texts.
pub mod RoundTrip
use cool_sdk.Prelude.{
  ℕ, ◌==◌, Bool, true, false, ◌&&◌, ◌||◌, Option, none, some, ◌++◌, leb, if◌then◌else◌, length,
  drop, every, codes, starts_with,
}
use cool_sdk.Codec.{Bytes, Text, to_hex, from_hex}

abbrev pub multihash_prefix : Text
multihash_prefix = codes "mh:sha256:"

-- The digest function is not part of the repository: it is a parameter.
unfoldable pub mh_sha256 : (Bytes → Bytes) → Bytes → Text
unfolding to_hex
mh_sha256 sha256 bytes = multihash_prefix ++ to_hex (sha256 bytes)

unfoldable pub multihash_from_digest : Bytes → Option Text
unfolding to_hex
multihash_from_digest digest =
    if length digest == 32 then some (multihash_prefix ++ to_hex digest) else none

-- One character of the class `[0-9a-f]`.
abbrev pub is_lower_hex : ℕ → Bool
is_lower_hex c = (leb b'0' c && leb c b'9') || (leb b'a' c && leb c b'f')

-- `/^mh:sha256:[0-9a-f]{64}$/`
unfoldable pub is_multihash : Text → Bool
is_multihash value =
    starts_with value multihash_prefix
    && (let digits = drop (length multihash_prefix) value in
        length digits == 64 && every is_lower_hex digits)

abbrev pub check_digest : Option Bytes → Option Bytes
check_digest none = none
check_digest (some digest) = if length digest == 32 then some digest else none

unfoldable pub multihash_digest : Text → Option Bytes
unfolding from_hex
multihash_digest mh =
    if starts_with mh multihash_prefix
    then check_digest (from_hex (drop (length multihash_prefix) mh))
    else none
