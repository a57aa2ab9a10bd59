-- ===== src/Multihash/RoundTrip.antt =====
-- A multihash text and its digest determine one another.
use cool_sdk.Prelude.{
  ℕ, ◌==◌, ◌≡◌, refl, ap, sym, ◌∙◌, prefix-append-drop, Bool, true, some, [], ◌∷◌, ◌++◌, arith,
  length, drop, every, starts_with, All, Bool-cases, inl, inr, ==_iff, map, ◌&&◌,
}
use cool_sdk.Codec.{Bytes, Text, IsByte, is_hex, to_hex, from_hex, pairs}
use cool_sdk.Codec.Hex.{from_hex-to_hex, to_hex-from_hex, length-to_hex, lower}
use cool_sdk.Multihash.{
  multihash_prefix, mh_sha256, multihash_from_digest, is_lower_hex, is_multihash, multihash_digest,
}

-- Decoding the multihash of 32 bytes gives the bytes back.
pub multihash_digest-multihash_from_digest :
    (digest : Bytes) (mh : Text)
    → All IsByte digest
    → multihash_from_digest digest ≡ some mh
    → multihash_digest mh ≡ some digest
unfolding multihash_from_digest multihash_digest
multihash_digest-multihash_from_digest digest mh h e = elim (Bool-cases (length digest == 32)) [
  | inl l ↦
      let same : multihash_prefix ++ to_hex digest ≡ mh = ground arith in
      rw (← same) (rw (from_hex-to_hex digest h) (rw l refl))
  | inr l ↦ absurd (ground arith)
]

lower_of_lower : (c : ℕ) → is_lower_hex c ≡ true → (is_hex c ≡ true) × (lower c ≡ c)
lower_of_lower c h = ground arith

both : (a b : Bool) → (a && b) ≡ true → (a ≡ true) × (b ≡ true)
both a b h = ground arith

every-lower : (s : Text) → every is_lower_hex s ≡ true → (every is_hex s ≡ true) × (map lower s ≡ s)
every-lower [] h = (refl, refl)
every-lower (c ∷ s) h =
    let (p, q) = both (is_lower_hex c) (every is_lower_hex s) h in
    let (x, same) = lower_of_lower c p in
    let (xs, sames) = every-lower s q in (rw x xs, cc (same, sames))

-- Every text that `isMultihash` accepts has a digest of 32 bytes, whose multihash it is.
pub is_multihash-multihash_digest :
    (mh : Text)
    → is_multihash mh ≡ true
    → (digest : Bytes) × (multihash_digest mh ≡ some digest)
      × (multihash_from_digest digest ≡ some mh)
unfolding is_multihash multihash_digest multihash_from_digest
is_multihash-multihash_digest mh h =
    let digits = drop (length multihash_prefix) mh in
    let (starts, h') = both (starts_with mh multihash_prefix) _ h in
    let (l, low) = both (length digits == 64) (every is_lower_hex digits) h' in
    let (hex, same) = every-lower digits low in
    let n : length digits ≡ 64 = (==_iff _ _).0 l in
    let accepted : from_hex digits ≡ some (pairs digits) = rw hex (rw n refl) in
    let (bytes, back) = to_hex-from_hex digits (pairs digits) accepted in
    let size : length (pairs digits) ≡ 32 =
      omega (arith, length-to_hex (pairs digits) bytes, ap length (back ∙ same), n) in
    (
      pairs digits,
      rw (starts, accepted, size) refl,
      rw (size, back, same, prefix-append-drop mh multihash_prefix starts) refl,
    )

module _ (sha256 : Bytes → Bytes) where
  -- The multihash of any bytes decodes to their digest.
  pub multihash_digest-mh_sha256 :
      (bytes : Bytes)
      → length (sha256 bytes) ≡ 32
      → All IsByte (sha256 bytes)
      → multihash_digest (mh_sha256 sha256 bytes) ≡ some (sha256 bytes)
  unfolding mh_sha256 multihash_digest
  multihash_digest-mh_sha256 bytes size h = rw (from_hex-to_hex (sha256 bytes) h) (rw size refl)

  -- The multihash determines the digest.
  pub mh_sha256_injective :
      ((x : Bytes) → All IsByte (sha256 x))
      → (a b : Bytes) → mh_sha256 sha256 a ≡ mh_sha256 sha256 b
      → sha256 a ≡ sha256 b
  unfolding mh_sha256
  mh_sha256_injective h a b e =
      let same = ap (λ t. from_hex (drop (length multihash_prefix) t)) e in
      cc (sym (from_hex-to_hex (sha256 a) (h a)) ∙ same ∙ from_hex-to_hex (sha256 b) (h b))
