-- ===== src/Phala/Ulid/Shape.antt =====
-- When the factory returns an id, and of what characters.
use cool_sdk.Prelude.{
  ℕ, ◌≤◌, ◌≡◌, inl, inr, refl, ap, sym, ◌∙◌, Bool, true, false, ◌&&◌, none, some, [], ◌∷◌, ◌++◌,
  arith, ltb, ◌==◌, length, length-append, every, All, Bool-cases, Option-cases,
}
use cool_sdk.Prelude.Int.{pos, negsuc, eqb_ℤ}
use cool_sdk.Codec.{Bytes, Text}
use cool_sdk.Phala.Ulid.{max_time, encode_time, increment, UlidState, finish, advance, next_ulid}
use cool_sdk.Phala.Ulid.Digits.{
  IsDigit, every_last-carry, encode_digits-IsDigit, length-encode_digits,
}
use cool_sdk.Phala.Ulid.Order.{IsRandom, IsReady, time_text, advance-some}

append-IsDigit : (a b : Text) → All IsDigit a → All IsDigit b → All IsDigit (a ++ b)
append-IsDigit [] b h k = k
append-IsDigit (c ∷ a) b (d, h) k = (d, append-IsDigit a b h k)

-- The same reading as the last, with sixteen times the last digit.
abbrev pub is_exhausted : UlidState → ℕ → Bool
is_exhausted s n = eqb_ℤ (pos n) s.last_time && every (λ c. c == b'Z') s.last_random

increment-none : (r : Text) → IsRandom r → increment r ≡ none → every (λ c. c == b'Z') r ≡ true
unfolding increment
increment-none r (size, digits) h = every_last-carry r digits (ground arith)

exhausted :
    (s : UlidState) (n : ℕ)
    → IsReady s
    → eqb_ℤ (pos n) s.last_time ≡ true
    → increment s.last_random ≡ none
    → is_exhausted s n ≡ true
exhausted s n (inl (at, _)) same over = absurd (no_tick (ap (eqb_ℤ (pos n)) (sym at) ∙ same))
  where
    no_tick : eqb_ℤ (pos n) (negsuc 0) ≡ true → ⊥
    no_tick h = ground arith
exhausted s n (inr random) same over = rw (same, increment-none s.last_random random over) refl

advance-none :
    (s : UlidState) (n : ℕ) (bytes : Bytes)
    → IsReady s
    → is_exhausted s n ≡ false
    → (t : UlidState) × (advance s (pos n) bytes ≡ some t)
unfolding advance
advance-none s n bytes ready h = elim (Bool-cases (eqb_ℤ (pos n) s.last_time)) [
  | inl same ↦ elim (Option-cases (increment s.last_random)) [
    | inl over ↦ cc (exhausted s n ready same over)
    | inr (r, e) ↦ rw (same, e) (_, refl)
  ]
  | inr other ↦ rw other (_, refl)
]

finish-pos : (n : ℕ) (r : Text) → n ≤ max_time → finish (pos n) r ≡ some (time_text n ++ r)
unfolding encode_time
finish-pos n r h = elim (Bool-cases (ltb max_time n)) [
  | inl above ↦ absurd (ground arith)
  | inr below ↦ rw (finish, below) refl
]

-- A call at a reading from 0 to 2^48 - 1, with sixteen bytes drawn, returns an id unless it reads
-- the time of the last call and the last random part is sixteen times `Z`. The id has 26
-- characters, all of the alphabet, and the factory is left as a factory that can be called again.
pub next_ulid-IsDigit :
    (s : UlidState) (n : ℕ) (bytes : Bytes)
    → IsReady s
    → length bytes ≡ 16
    → n ≤ max_time
    → is_exhausted s n ≡ false
    → (t : UlidState) × (id : Text) × (next_ulid s (pos n) bytes ≡ (t, some id))
      × (length id ≡ 26)
      × All IsDigit id
      × IsReady t
unfolding next_ulid encode_time
next_ulid-IsDigit s n bytes ready drawn small fresh =
    let (t, e) = advance-none s n bytes ready fresh in
    let (at, random, _) = advance-some s t (pos n) bytes ready drawn e in
    let made : finish (pos n) t.last_random ≡ some (time_text n ++ t.last_random) =
      finish-pos n t.last_random small in
    (
      t,
      time_text n ++ t.last_random,
      rw (e, at, made) refl,
      omega (
        arith,
        length-append (time_text n) t.last_random,
        length-encode_digits 10 n [],
        random.0,
      ),
      append-IsDigit (time_text n) t.last_random (encode_digits-IsDigit 10 n [] tt) random.1,
      inr random,
    )
