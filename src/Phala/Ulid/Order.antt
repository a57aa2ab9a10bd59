-- ===== src/Phala/Ulid/Order.antt =====
-- The ids of one factory are well formed, and rise with a clock that does not run back.
use cool_sdk.Prelude.{
  ℕ, ◌<◌, ◌≤◌, ◌≡◌, ◌⊎◌, inl, inr, refl, ap, ap₂, subst, sym, ◌∙◌, true, false, Option, none, some,
  List, [], ◌∷◌, ◌++◌, arith, ltb, ◌==◌, length, map, All, Bool-cases, Option-cases, text_lt, ◌%◌,
}
use cool_sdk.Prelude.Int.{ℤ, pos, negsuc, eqb_ℤ, ltb_ℤ}
use cool_sdk.Codec.{Bytes, Text}
use cool_sdk.Phala.Ulid.{
  alphabet, char_at, max_time, encode_digits, encode_time, random_chars, carry, increment,
  UlidState, initial_state, finish, advance, next_ulid, calls,
}
use cool_sdk.Phala.Ulid.Digits.{
  IsDigit, char_at-IsDigit, text_lt-carry, length-carry, carry-IsDigit, text_lt-encode_digits,
  length-encode_digits,
}

-- The random part is sixteen characters of the alphabet.
abbrev pub IsRandom : Text → Type 0
IsRandom r = (length r ≡ 16) × All IsDigit r

-- Before the first call, or after one.
abbrev pub IsReady : UlidState → Type 0
IsReady s = (s.last_time ≡ negsuc 0) × (s.last_random ≡ []) ⊎ IsRandom s.last_random

random_chars-IsRandom : (bytes : Bytes) → length bytes ≡ 16 → IsRandom (random_chars bytes)
unfolding random_chars
random_chars-IsRandom bytes h = (length_map bytes ∙ h, digits bytes)
  where
    length_map : (bs : Bytes) → length (map (λ b. char_at alphabet (b % 32)) bs) ≡ length bs
    length_map [] = refl
    length_map (b ∷ bs) = omega (arith, length_map bs)

    digits : (bs : Bytes) → All IsDigit (map (λ b. char_at alphabet (b % 32)) bs)
    digits [] = tt
    digits (b ∷ bs) = (char_at-IsDigit (b % 32) (omega arith), digits bs)

increment-IsRandom :
    (r next : Text) → increment r ≡ some next → IsRandom r → IsRandom next × (text_lt r next ≡ true)
unfolding increment
increment-IsRandom r next h (size, digits) = elim (Bool-cases (carry r).0) [
  | inl over ↦ absurd (ground arith)
  | inr fits ↦
      let e : (carry r).1 ≡ next = ground arith in
      rw (sym e) ((length-carry r ∙ size, carry-IsDigit r digits), text_lt-carry r digits fits)
]

text_lt-append_same : (t x y : Text) → text_lt x y ≡ true → text_lt (t ++ x) (t ++ y) ≡ true
text_lt-append_same [] x y h = h
text_lt-append_same (c ∷ t) x y h = let e = text_lt-append_same t x y h in ground arith

text_lt-append :
    (a b x y : Text) → length a ≡ length b → text_lt a b ≡ true → text_lt (a ++ x) (b ++ y) ≡ true
text_lt-append [] [] x y e h = absurd (ground arith)
text_lt-append (c ∷ a) [] x y e h = absurd (omega (arith, e))
text_lt-append [] (d ∷ b) x y e h = absurd (omega (arith, e))
text_lt-append (c ∷ a) (d ∷ b) x y e h = elim (Bool-cases (c == d)) [
  | inl same ↦ let rest = text_lt-append a b x y (omega (arith, e)) (ground arith) in ground arith
  | inr other ↦ ground arith
]

-- The characters of a time in milliseconds.
abbrev pub time_text : ℕ → Text
time_text n = encode_digits 10 n []

length-time_text : (n m : ℕ) → length (time_text n) ≡ length (time_text m)
length-time_text n m = length-encode_digits 10 n [] ∙ sym (length-encode_digits 10 m [])

finish-some :
    (time : ℤ) (r id : Text)
    → finish time r ≡ some id
    → (n : ℕ) × (time ≡ pos n) × (n ≤ max_time) × (id ≡ time_text n ++ r)
unfolding encode_time
finish-some (negsuc n) r id h = absurd (ground arith)
finish-some (pos n) r id h = elim (Bool-cases (ltb max_time n)) [
  | inl above ↦ absurd (ground arith)
  | inr below ↦ (n, refl, ground arith, ground arith)
]

-- What a call makes of the state, when it does not throw before.
abbrev Advanced : UlidState → ℤ → UlidState → Type 0
Advanced s time t =
    (t.last_time ≡ time)
    × IsRandom t.last_random
    × ((eqb_ℤ time s.last_time ≡ true → text_lt s.last_random t.last_random ≡ true))

eqb_ℤ-same : (a b : ℤ) → eqb_ℤ a b ≡ true → b ≡ a
eqb_ℤ-same (pos a) (pos b) h = ap pos (ground arith)
eqb_ℤ-same (negsuc a) (negsuc b) h = ap negsuc (ground arith)
eqb_ℤ-same (pos a) (negsuc b) h = absurd (ground arith)
eqb_ℤ-same (negsuc a) (pos b) h = absurd (ground arith)

increment-IsReady :
    (s : UlidState) (r : Text)
    → increment s.last_random ≡ some r
    → IsReady s
    → IsRandom s.last_random
unfolding increment carry
increment-IsReady s r h (inr random) = random
increment-IsReady s r h (inl (time, none_yet)) = absurd (ground arith)

pub advance-some :
    (s t : UlidState) (time : ℤ) (bytes : Bytes)
    → IsReady s
    → length bytes ≡ 16
    → advance s time bytes ≡ some t
    → Advanced s time t
unfolding advance
advance-some s t time bytes ready drawn h = elim (Bool-cases (eqb_ℤ time s.last_time)) [
  | inl same ↦ elim (Option-cases (increment s.last_random)) [
    | inl over ↦ absurd (ground arith)
    | inr (r, e) ↦
        let (random, less) = increment-IsRandom s.last_random r e (increment-IsReady s r e ready) in
        let is : t ≡ record { last_time = s.last_time; last_random = r } = ground arith in
        rw is (eqb_ℤ-same time s.last_time same, random, λ again. less)
  ]
  | inr other ↦
      let is : t ≡ record { last_time = time; last_random = random_chars bytes } = ground arith in
      rw is (refl, random_chars-IsRandom bytes drawn, λ same. absurd (cc))
]

-- The state after a call that returned an id.
abbrev pub Issued : UlidState → Text → Type 0
Issued s id =
    (n : ℕ) × (s.last_time ≡ pos n)
    × (n ≤ max_time)
    × IsRandom s.last_random
    × (id ≡ time_text n ++ s.last_random)

next_ulid-Issued :
    (s t : UlidState) (time : ℤ) (bytes : Bytes) (id : Text)
    → IsReady s
    → length bytes ≡ 16
    → next_ulid s time bytes ≡ (t, some id)
    → Issued t id × Advanced s time t
unfolding next_ulid
next_ulid-Issued s t time bytes id ready drawn h = elim (Option-cases (advance s time bytes)) [
  | inl thrown ↦ absurd (ground arith)
  | inr (u, e) ↦
      let (at, random, again) = advance-some s u time bytes ready drawn e in
      let is : u ≡ t = ground arith in
      let (n, now, small, id_is) = finish-some u.last_time u.last_random id (ground arith) in
      rw (sym is) ((n, now, small, random, id_is), (at, random, again))
]

-- Ids at times that do not run back are in order, when their random parts are at equal times.
compare_ids :
    (n m : ℕ) (r t : Text)
    → ltb_ℤ (pos m) (pos n) ≡ false
    → (eqb_ℤ (pos m) (pos n) ≡ true → text_lt r t ≡ true)
    → m ≤ max_time
    → text_lt (time_text n ++ r) (time_text m ++ t) ≡ true
compare_ids n m r t h again below = elim (le_cases n m (ground arith)) [
  | inl less ↦
      text_lt-append (time_text n) (time_text m) r t (length-time_text n m)
        (text_lt-encode_digits 10 n m [] [] less (omega (arith, below)))
  | inr same ↦ rw same (text_lt-append_same (time_text m) r t (again (ground (arith, same))))
]
  where
    le_cases : (a b : ℕ) → a ≤ b → (a < b) ⊎ (a ≡ b)
    le_cases a b h = ground arith

-- A call that reads no earlier time returns a greater id.
next_ulid_later :
    (s t : UlidState) (time : ℤ) (bytes : Bytes) (a b : Text)
    → Issued s a
    → length bytes ≡ 16
    → ltb_ℤ time s.last_time ≡ false
    → next_ulid s time bytes ≡ (t, some b)
    → Issued t b × (text_lt a b ≡ true)
next_ulid_later s t time bytes a b (n, at, small, random, a_is) drawn later h =
    let ((m, now, below, next, b_is), (same, also, again)) =
      next_ulid-Issued s t time bytes b (inr random) drawn h in
    let reading : time ≡ pos m = sym same ∙ now in
    let less =
      compare_ids n m s.last_random t.last_random (order reading at later)
        (λ e. again (same_tick reading at e)) below in
    ((m, now, below, next, b_is), rw (a_is, b_is) less)
  where
    order : {u v x y : ℤ} → u ≡ v → x ≡ y → ltb_ℤ u x ≡ false → ltb_ℤ v y ≡ false
    order p q h = ap₂ ltb_ℤ (sym p) (sym q) ∙ h

    same_tick : {u v x y : ℤ} → u ≡ v → x ≡ y → eqb_ℤ v y ≡ true → eqb_ℤ u x ≡ true
    same_tick p q h = ap₂ eqb_ℤ p q ∙ h

-- Every id is less than the next.
abbrev pub Rising : List Text → Type 0
Rising [] = Unit
Rising (a ∷ []) = Unit
Rising (a ∷ b ∷ ids) = (text_lt a b ≡ true) × Rising (b ∷ ids)

-- Readings of a clock that does not run back, with sixteen bytes drawn at each.
abbrev pub IsClock : ℤ → List (ℤ × Bytes) → Type 0
IsClock last [] = Unit
IsClock last ((time, bytes) ∷ readings) =
    (ltb_ℤ time last ≡ false) × (length bytes ≡ 16) × IsClock time readings

first_call :
    (s : UlidState) (time : ℤ) (bytes : Bytes) (readings : List (ℤ × Bytes)) (ids : List Text)
    → calls s ((time, bytes) ∷ readings) ≡ some ids
    → (t : UlidState) × (id : Text) × (rest : List Text) × (next_ulid s time bytes ≡ (t, some id))
      × (calls t readings ≡ some rest)
      × (ids ≡ id ∷ rest)
unfolding calls
first_call s time bytes readings ids h = split (next_ulid s time bytes) refl h
  where
    split :
        (p : UlidState × Option Text)
        → next_ulid s time bytes ≡ p
        → (elim p.1 [
          | none ↦ none
          | some id ↦ elim (calls p.0 readings) [ none ↦ none | some rest ↦ some (id ∷ rest) ]
        ])
          ≡ some ids
        → (t : UlidState) × (id : Text) × (rest : List Text) × (next_ulid s time bytes
            ≡ (t, some id))
          × (calls t readings ≡ some rest)
          × (ids ≡ id ∷ rest)
    split (t, none) e h = absurd (ground arith)
    split (t, some id) e h = elim (Option-cases (calls t readings)) [
      | inl thrown ↦ absurd (ground arith)
      | inr (rest, r) ↦ (t, id, rest, e, r, ground arith)
    ]

follow :
    {time last : ℤ} (readings : List (ℤ × Bytes))
    → last ≡ time
    → IsClock time readings
    → IsClock last readings
follow readings at clock = subst (λ u. IsClock u readings) (sym at) clock

calls_later :
    (readings : List (ℤ × Bytes)) (s : UlidState) (a : Text) (ids : List Text)
    → Issued s a
    → IsClock s.last_time readings
    → calls s readings ≡ some ids
    → Rising (a ∷ ids)
unfolding calls
calls_later [] s a ids issued clock h = let e : ids ≡ [] = ground arith in rw e tt
calls_later ((time, bytes) ∷ readings) s a ids issued (later, drawn, clock) h =
    let (t, b, rest, call, more, e) = first_call s time bytes readings ids h in
    let (next, less) = next_ulid_later s t time bytes a b issued drawn later call in
    let at = (next_ulid-Issued s t time bytes b (inr issued.3) drawn call).1.0 in
    rw e (less, calls_later readings t b rest next (follow readings at clock) more)

-- From a fresh factory, over calls whose clock does not run back, each call with sixteen bytes of
-- randomness and none throwing: every id is less than the one after it, in the order of texts.
pub calls-Rising :
    (readings : List (ℤ × Bytes)) (ids : List Text)
    → IsClock (negsuc 0) readings
    → calls initial_state readings ≡ some ids
    → Rising ids
unfolding calls
calls-Rising [] ids clock h = let e : ids ≡ [] = ground arith in rw e tt
calls-Rising ((time, bytes) ∷ readings) ids (_, drawn, clock) h =
    let (t, a, rest, call, more, e) = first_call initial_state time bytes readings ids h in
    let (issued, (at, _, _)) =
      next_ulid-Issued initial_state t time bytes a (inl (refl, refl)) drawn call in
    rw e (calls_later readings t a rest issued (follow readings at clock) more)
