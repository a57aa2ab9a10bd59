-- ===== src/Phala/Ulid.antt =====
-- src/phala/ulid.ts: the monotonic identifiers. The clock and the random source are readings that
-- a call is given; a clock reads an integer, and a throw returns `none`.
pub mod Digits
pub mod Order
pub mod Shape
use cool_sdk.Prelude.{
  ℕ, zero, suc, ◌/◌, ◌%◌, Bool, true, false, not, Option, none, some, List, [], ◌∷◌, ◌++◌, ltb, leb,
  ◌==◌, if◌then◌else◌, map, codes,
}
use cool_sdk.Prelude.Int.{ℤ, pos, negsuc, eqb_ℤ}
use cool_sdk.Codec.{Bytes, Text}

abbrev pub alphabet : Text
alphabet = codes "0123456789ABCDEFGHJKMNPQRSTVWXYZ"

abbrev pub max_time : ℕ
max_time = 281474976710655

-- text[i], where the source asserts that it is present
unfoldable pub char_at : Text → ℕ → ℕ
char_at [] i = 0
char_at (c ∷ text) zero = c
char_at (c ∷ text) (suc i) = char_at text i

-- The position after one that may be absent, which is 0.
abbrev pub one_later : ℕ → ℕ
one_later zero = 0
one_later (suc i) = suc (suc i)

-- text.indexOf(c) + 1
unfoldable pub index_after : Text → ℕ → ℕ
index_after [] c = 0
index_after (d ∷ text) c = if d == c then 1 else one_later (index_after text c)

-- The loop of `encodeTime`, for `rounds` characters.
unfoldable pub encode_digits : ℕ → ℕ → Text → Text
encode_digits zero value out = out
encode_digits (suc rounds) value out =
    encode_digits rounds (value / 32) (char_at alphabet (value % 32) ∷ out)

unfoldable pub encode_time : ℤ → Option Text
encode_time (negsuc n) = none
encode_time (pos ms) = if ltb max_time ms then none else some (encode_digits 10 ms [])

-- The characters of the bytes drawn; `b & 31` is `b % 32`.
unfoldable pub random_chars : Bytes → Text
random_chars bytes = map (λ b. char_at alphabet (b % 32)) bytes

-- One round of the loop of `increment`: the character, and whether the loop has come to it.
unfoldable pub carry_into : ℕ → Bool × Text → Bool × Text
carry_into c (false, rest) = (false, c ∷ rest)
carry_into c (true, rest) =
    if ltb (index_after alphabet c) 32
    then (false, char_at alphabet (index_after alphabet c) ∷ rest)
    else (true, char_at alphabet 0 ∷ rest)

-- The loop of `increment` from the last character on: whether it carries out of the text, and the
-- text that it leaves.
unfoldable pub carry : Text → Bool × Text
carry [] = (true, [])
carry (c ∷ chars) = carry_into c (carry chars)

unfoldable pub increment : Text → Option Text
increment chars = if (carry chars).0 then none else some (carry chars).1

pub record UlidState : Type 0 where
  pub last_time : ℤ
  pub last_random : Text

abbrev pub initial_state : UlidState
initial_state = record { last_time = negsuc 0; last_random = [] }

-- `encodeTime(time) + lastRandom`
abbrev pub finish : ℤ → Text → Option Text
finish time random = elim (encode_time time) [ none ↦ none | some t ↦ some (t ++ random) ]

-- The state that the clock's reading leads to; `none` is the throw of `increment`.
unfoldable pub advance : UlidState → ℤ → Bytes → Option UlidState
advance s time bytes =
    if eqb_ℤ time s.last_time
    then (elim (increment s.last_random) [
      | none ↦ none
      | some r ↦ some (record { last_time = s.last_time; last_random = r })
    ])
    else some (record { last_time = time; last_random = random_chars bytes })

abbrev pub emit : UlidState → Option UlidState → UlidState × Option Text
emit s none = (s, none)
emit s (some t) = (t, finish t.last_time t.last_random)

-- The factory's function: the state after the call, and the id unless it throws.
unfoldable pub next_ulid : UlidState → ℤ → Bytes → UlidState × Option Text
next_ulid s time bytes = emit s (advance s time bytes)

-- Calls in a row, each with the clock's reading and the bytes drawn, none of which throws.
unfoldable pub calls : UlidState → List (ℤ × Bytes) → Option (List Text)
calls s [] = some []
calls s ((time, bytes) ∷ readings) =
    let rest = calls (next_ulid s time bytes).0 readings in
    elim (next_ulid s time bytes).1 [
      | none ↦ none
      | some id ↦ elim rest [ none ↦ none | some ids ↦ some (id ∷ ids) ]
    ]
