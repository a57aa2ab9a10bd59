-- ===== src/Phala/Ulid/Digits.antt =====
-- The alphabet of the identifiers is in the order of its code units, so that texts over it are in
-- the order of the numbers that they stand for.
use cool_sdk.Prelude.{
  ℕ, zero, suc, ◌/◌, ◌%◌, ◌^◌, ◌+◌, ◌*◌, ◌<◌, ◌≤◌, ◌≡◌, ◌⊎◌, inl, inr, refl, ap, sym, Bool, true,
  false, ◌&&◌, [], ◌∷◌, arith, ltb, ltb→lt, ◌∙◌, ◌==◌, if◌then◌else◌, length, every, All,
  Bool-cases, text_lt,
}
use native.Mathlib.Numerals.{unary_clauses}
use cool_sdk.Codec.{Text}
use cool_sdk.Phala.Ulid.{
  alphabet, char_at, one_later, index_after, encode_digits, carry_into, carry,
}

abbrev ascending : Text → Bool
ascending [] = true
ascending (c ∷ []) = true
ascending (c ∷ d ∷ text) = ltb c d && ascending (d ∷ text)

ascending-tail :
    (c d : ℕ) (text : Text)
    → ascending (c ∷ d ∷ text) ≡ true
    → (c < d) × (ascending (d ∷ text) ≡ true)
ascending-tail c d text h = ground arith

char_at-ascending :
    (text : Text) (i j : ℕ)
    → ascending text ≡ true
    → i < j
    → j < length text
    → char_at text i < char_at text j
unfolding char_at
char_at-ascending [] i j h p q = absurd (omega arith)
char_at-ascending (c ∷ text) i zero h p q = absurd (omega arith)
char_at-ascending (c ∷ []) i (suc j) h p q = absurd (omega arith)
char_at-ascending (c ∷ d ∷ text) zero (suc zero) h p q = (ascending-tail c d text h).0
char_at-ascending (c ∷ d ∷ text) zero (suc (suc j)) h p q =
    let (first, rest) = ascending-tail c d text h in
    let next = char_at-ascending (d ∷ text) 0 (suc j) rest (omega arith) (omega (arith, q)) in
    omega (arith, first, next)
char_at-ascending (c ∷ d ∷ text) (suc i) (suc j) h p q =
    let (first, rest) = ascending-tail c d text h in
    char_at-ascending (d ∷ text) i j rest (omega arith) (omega (arith, q))

pub char_at_lt : (i j : ℕ) → i < j → j < 32 → char_at alphabet i < char_at alphabet j
char_at_lt i j p q = char_at-ascending alphabet i j refl p q

-- A character of the alphabet.
abbrev pub IsDigit : ℕ → Type 0
IsDigit c = 0 < index_after alphabet c

one_later-suc : (n i : ℕ) → one_later n ≡ suc i → (j : ℕ) × (n ≡ suc j) × (i ≡ suc j)
one_later-suc zero i h = absurd (omega (arith, h))
one_later-suc (suc j) i h = (j, refl, omega (arith, h))

char_at-index_after :
    (text : Text) (c i : ℕ) → index_after text c ≡ suc i → (char_at text i ≡ c) × (i < length text)
unfolding char_at index_after
char_at-index_after [] c i h = absurd (omega (arith, h))
char_at-index_after (d ∷ text) c i h = elim (Bool-cases (d == c)) [
  | inl same ↦ let e : i ≡ 0 = ground arith in rw e (ground arith, omega arith)
  | inr other ↦
      let (j, found, at) = one_later-suc (index_after text c) i (ground arith) in
      let (value, bound) = char_at-index_after text c j found in rw at (value, omega (arith, bound))
]

-- The next character of the alphabet is greater.
next_digit_lt :
    (c : ℕ)
    → IsDigit c
    → index_after alphabet c < 32
    → c < char_at alphabet (index_after alphabet c)
next_digit_lt c h p = split (index_after alphabet c) refl h p
  where
    split : (n : ℕ) → index_after alphabet c ≡ n → 0 < n → n < 32 → c < char_at alphabet n
    split zero e h p = absurd (omega arith)
    split (suc i) e h p =
        let (value, bound) = char_at-index_after alphabet c i e in
        rw (sym value) (char_at_lt i (suc i) (omega arith) p)

text_lt-∷ : (c : ℕ) (a b : Text) → text_lt (c ∷ a) (c ∷ b) ≡ text_lt a b
text_lt-∷ c a b = ground arith

-- One round keeps the texts in order.
text_lt-carry_into :
    (c : ℕ) (chars : Text) (p : Bool × Text)
    → IsDigit c
    → (p.0 ≡ false → text_lt chars p.1 ≡ true)
    → (carry_into c p).0 ≡ false
    → text_lt (c ∷ chars) (carry_into c p).1 ≡ true
unfolding carry_into
text_lt-carry_into c chars (false, rest) digit before h = text_lt-∷ c chars rest ∙ before refl
text_lt-carry_into c chars (true, rest) digit before h =
    elim (Bool-cases (ltb (index_after alphabet c) 32)) [
      | inl more ↦ let next = next_digit_lt c digit (ltb→lt _ _ more) in rw more (ground arith)
      | inr last ↦ absurd (ground arith)
    ]

-- Where the increment does not carry out, the text is greater in the order of texts.
pub text_lt-carry :
    (chars : Text)
    → All IsDigit chars
    → (carry chars).0 ≡ false
    → text_lt chars (carry chars).1 ≡ true
unfolding carry
text_lt-carry [] valid h = cc
text_lt-carry (c ∷ chars) (digit, valid) h =
    text_lt-carry_into c chars (carry chars) digit (text_lt-carry chars valid) h

length-carry_into : (c : ℕ) (p : Bool × Text) → length (carry_into c p).1 ≡ suc (length p.1)
unfolding carry_into
length-carry_into c (false, rest) = refl
length-carry_into c (true, rest) = ground arith

pub length-carry : (chars : Text) → length (carry chars).1 ≡ length chars
unfolding carry
length-carry [] = refl
length-carry (c ∷ chars) = omega (arith, length-carry_into c (carry chars), length-carry chars)

index_after-char_at :
    (text : Text) (i : ℕ) → i < length text → 0 < index_after text (char_at text i)
unfolding char_at index_after
index_after-char_at [] i h = absurd (omega arith)
index_after-char_at (d ∷ text) zero h = ground arith
index_after-char_at (d ∷ text) (suc i) h =
    positive (d == char_at text i) (index_after text (char_at text i))
      (index_after-char_at text i (omega (arith, h)))
  where
    positive : (t : Bool) (n : ℕ) → 0 < n → 0 < (if t then 1 else one_later n)
    positive true n p = omega arith
    positive false zero p = absurd (omega arith)
    positive false (suc n) p = omega arith

pub char_at-IsDigit : (i : ℕ) → i < 32 → IsDigit (char_at alphabet i)
char_at-IsDigit i h = index_after-char_at alphabet i h

carry_into-IsDigit :
    (c : ℕ) (p : Bool × Text) → IsDigit c → All IsDigit p.1 → All IsDigit (carry_into c p).1
unfolding carry_into
carry_into-IsDigit c (false, rest) digit valid = (digit, valid)
carry_into-IsDigit c (true, rest) digit valid =
    elim (Bool-cases (ltb (index_after alphabet c) 32)) [
      | inl more ↦ rw more (char_at-IsDigit (index_after alphabet c) (ltb→lt _ _ more), valid)
      | inr last ↦ rw last (char_at-IsDigit 0 (omega arith), valid)
    ]

pub carry-IsDigit : (chars : Text) → All IsDigit chars → All IsDigit (carry chars).1
unfolding carry
carry-IsDigit [] valid = tt
carry-IsDigit (c ∷ chars) (digit, valid) =
    carry_into-IsDigit c (carry chars) digit (carry-IsDigit chars valid)

last_digit : (c : ℕ) → IsDigit c → ltb (index_after alphabet c) 32 ≡ false → c ≡ b'Z'
unfolding char_at
last_digit c digit h = split (index_after alphabet c) refl digit h
  where
    split : (n : ℕ) → index_after alphabet c ≡ n → 0 < n → ltb n 32 ≡ false → c ≡ b'Z'
    split zero e p h = absurd (omega arith)
    split (suc i) e p h =
        let (value, bound) = char_at-index_after alphabet c i e in
        let last : i ≡ 31 = ground arith in sym value ∙ ap (char_at alphabet) last

every_last-carry_into :
    (c : ℕ) (p : Bool × Text) → IsDigit c → (carry_into c p).0 ≡ true → (c ≡ b'Z') × (p.0 ≡ true)
unfolding carry_into
every_last-carry_into c (false, rest) digit h = cc
every_last-carry_into c (true, rest) digit h = elim (Bool-cases (ltb (index_after alphabet c) 32)) [
  | inl more ↦ absurd (ground arith)
  | inr last ↦ (last_digit c digit last, refl)
]

-- The increment carries out of a text of the last digit only.
pub every_last-carry :
    (chars : Text)
    → All IsDigit chars
    → (carry chars).0 ≡ true
    → every (λ c. c == b'Z') chars ≡ true
unfolding carry
every_last-carry [] valid h = refl
every_last-carry (c ∷ chars) (digit, valid) h =
    let (last, rest) = every_last-carry_into c (carry chars) digit h in
    let more = every_last-carry chars valid rest in ground (arith, last)

text_lt-digit :
    (i j : ℕ) (x y : Text)
    → i < j
    → j < 32
    → text_lt (char_at alphabet i ∷ x) (char_at alphabet j ∷ y) ≡ true
text_lt-digit i j x y p q = let less = char_at_lt i j p q in ground arith

encode_digits-same :
    (rounds v : ℕ) (x y : Text)
    → text_lt x y ≡ true
    → text_lt (encode_digits rounds v x) (encode_digits rounds v y) ≡ true
unfolding encode_digits
encode_digits-same zero v x y h = h
encode_digits-same (suc rounds) v x y h =
    let c = char_at alphabet (v % 32) in
    encode_digits-same rounds (v / 32) (c ∷ x) (c ∷ y) (text_lt-∷ c x y ∙ h)

-- Texts of a fixed number of digits are in the order of the numbers.
pub text_lt-encode_digits :
    (rounds v w : ℕ) (x y : Text)
    → v < w
    → w < 32 ^ rounds
    → text_lt (encode_digits rounds v x) (encode_digits rounds w y) ≡ true
unfolding encode_digits
text_lt-encode_digits zero v w x y p q = absurd (omega arith)
text_lt-encode_digits (suc rounds) v w x y p q = elim (le_cases (v / 32) (w / 32) (omega arith)) [
  | inl less ↦
      text_lt-encode_digits rounds (v / 32) (w / 32) _ _ less
        (shrink w (32 ^ rounds) (simp unary_clauses at q))
  | inr same ↦ rw same (
      encode_digits-same rounds (w / 32) _ _
        (text_lt-digit (v % 32) (w % 32) x y (omega arith) (omega arith)))
]
  where
    shrink : (w power : ℕ) → w < power * 32 → w / 32 < power
    shrink w power h = omega arith

    le_cases : (a b : ℕ) → a ≤ b → (a < b) ⊎ (a ≡ b)
    le_cases a b h = ground arith

pub encode_digits-IsDigit :
    (rounds v : ℕ) (out : Text) → All IsDigit out → All IsDigit (encode_digits rounds v out)
unfolding encode_digits
encode_digits-IsDigit zero v out h = h
encode_digits-IsDigit (suc rounds) v out h =
    encode_digits-IsDigit rounds (v / 32) _ (char_at-IsDigit (v % 32) (omega arith), h)

pub length-encode_digits :
    (rounds v : ℕ) (out : Text) → length (encode_digits rounds v out) ≡ rounds + length out
unfolding encode_digits
length-encode_digits zero v out = omega arith
length-encode_digits (suc rounds) v out =
    omega (arith, length-encode_digits rounds (v / 32) (char_at alphabet (v % 32) ∷ out))
