-- ===== src/Tests/Formats.antt =====
-- src/codec.ts and src/multihash.ts on short inputs.
use cool_sdk.Prelude.{◌≡◌, refl, true, some, [], ◌∷◌, codes}
use cool_sdk.Codec.{Text, to_hex, from_hex, pairs}
use cool_sdk.Multihash.{multihash_from_digest, is_multihash}
use cool_sdk.Tests.Data.{checksum}

decoded : from_hex (codes "aF10") ≡ some (175 ∷ 16 ∷ [])
unfolding from_hex pairs
decoded = refl

abbrev zero_multihash : Text
zero_multihash = codes "mh:sha256:0700000000000000000000000000000000000000000000000000000000000000"

encoded : multihash_from_digest (checksum []) ≡ some zero_multihash
unfolding multihash_from_digest to_hex
encoded = refl

accepted : is_multihash zero_multihash ≡ true
unfolding is_multihash
accepted = refl
