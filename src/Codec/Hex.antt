-- ===== src/Codec/Hex.antt =====
-- `fromHex` and `toHex` are inverse to one another, up to the case of the digits.
use cool_sdk.Prelude.{
  ℕ, ◌+◌, ◌≡◌, refl, ap, true, [], ◌∷◌, some, arith, length, every, if◌then◌else◌, All, ◌<◌, ◌&&◌,
  Bool, leb, ◌%◌, ◌/◌, ◌*◌, ◌==◌, map, Bool-cases, inl, inr, ==_iff,
}
use cool_sdk.Codec.{
  Bytes, Text, IsByte, is_hex, hex_digit, hex_value, to_string_16, pad_start_2, to_hex, pairs,
  from_hex,
}

-- Two digits for each byte.
byte_digits :
    (b : ℕ) → IsByte b → pad_start_2 (to_string_16 b) ≡ hex_digit (b / 16) ∷ hex_digit (b % 16) ∷ []
byte_digits b h = ground arith

digit_value : (d : ℕ) → d < 16 → hex_value (hex_digit d) ≡ d
digit_value d h = ground arith

digit_is_hex : (d : ℕ) → d < 16 → is_hex (hex_digit d) ≡ true
digit_is_hex d h = ground arith

pub length-to_hex : (bytes : Bytes) → All IsByte bytes → length (to_hex bytes) ≡ length bytes * 2
unfolding to_hex
length-to_hex [] h = refl
length-to_hex (b ∷ bytes) (p, h) = rw (byte_digits b p) (omega (arith, length-to_hex bytes h))

pub every-to_hex : (bytes : Bytes) → All IsByte bytes → every is_hex (to_hex bytes) ≡ true
unfolding to_hex
every-to_hex [] h = refl
every-to_hex (b ∷ bytes) (p, h) = rw (byte_digits b p) (
    rw (digit_is_hex (b / 16) (omega arith))
      (rw (digit_is_hex (b % 16) (omega arith)) (every-to_hex bytes h)))

pairs-to_hex : (bytes : Bytes) → All IsByte bytes → pairs (to_hex bytes) ≡ bytes
unfolding to_hex pairs
pairs-to_hex [] h = refl
pairs-to_hex (b ∷ bytes) (p, h) = rw (byte_digits b p) (
    rw
      (digit_value (b / 16) (omega arith), digit_value (b % 16) (omega arith), pairs-to_hex bytes h)
      (ap (λ (c : ℕ). c ∷ bytes) (omega arith)))

-- Decoding what was encoded gives the bytes back.
pub from_hex-to_hex : (bytes : Bytes) → All IsByte bytes → from_hex (to_hex bytes) ≡ some bytes
unfolding from_hex
from_hex-to_hex bytes h = rw (every-to_hex bytes h) (
    rw ((==_iff (length (to_hex bytes) % 2) 0).1 (omega (arith, length-to_hex bytes h)))
      (ap some (pairs-to_hex bytes h)))

-- `c.toLowerCase()` of a digit.
abbrev pub lower : ℕ → ℕ
lower c = if leb b'A' c && leb c b'F' then c + 32 else c

value_bound : (c : ℕ) → is_hex c ≡ true → hex_value c < 16
value_bound c h = ground arith

digit-value : (c : ℕ) → is_hex c ≡ true → hex_digit (hex_value c) ≡ lower c
digit-value c h = ground arith

both : (a b : Bool) → (a && b) ≡ true → (a ≡ true) × (b ≡ true)
both a b h = ground arith

pairs-IsByte : (hex : Text) → every is_hex hex ≡ true → All IsByte (pairs hex)
unfolding pairs
pairs-IsByte [] h = tt
pairs-IsByte (c ∷ []) h = tt
pairs-IsByte (c ∷ d ∷ s) h =
    let (p, h') = both (is_hex c) (every is_hex (d ∷ s)) h in
    let (q, r) = both (is_hex d) (every is_hex s) h' in
    (omega (arith, value_bound c p, value_bound d q), pairs-IsByte s r)

to_hex-pairs :
    (hex : Text) → every is_hex hex ≡ true → length hex % 2 ≡ 0 → to_hex (pairs hex) ≡ map lower hex
unfolding pairs to_hex
to_hex-pairs [] h e = refl
to_hex-pairs (c ∷ []) h e = absurd (omega arith)
to_hex-pairs (c ∷ d ∷ s) h e =
    let (p, h') = both (is_hex c) (every is_hex (d ∷ s)) h in
    let (q, r) = both (is_hex d) (every is_hex s) h' in
    let vc = value_bound c p in
    let vd = value_bound d q in
    let high : (hex_value c * 16 + hex_value d) / 16 ≡ hex_value c = omega arith in
    let low : (hex_value c * 16 + hex_value d) % 16 ≡ hex_value d = omega arith in
    rw (byte_digits (hex_value c * 16 + hex_value d) (omega arith))
      (rw (high, low, digit-value c p, digit-value d q, to_hex-pairs s r (omega arith)) refl)

-- Whatever is accepted decodes to bytes, and encoding those gives the text in lower case.
pub to_hex-from_hex :
    (hex : Text) (bytes : Bytes)
    → from_hex hex ≡ some bytes
    → All IsByte bytes × (to_hex bytes ≡ map lower hex)
unfolding from_hex
to_hex-from_hex hex bytes e = elim (Bool-cases (every is_hex hex)) [
  | inl h ↦ elim (Bool-cases (length hex % 2 == 0)) [
    | inl l ↦
        let same : pairs hex ≡ bytes = ground arith in
        rw (← same) (pairs-IsByte hex h, to_hex-pairs hex h ((==_iff _ _).0 l))
    | inr l ↦ absurd (ground arith)
  ]
  | inr h ↦ absurd (ground arith)
]
