-- ===== src/Phala/Diff/Sides.antt =====
-- What a difference keeps is its two texts.
use cool_sdk.Prelude.{
  ℕ, zero, suc, ◌+◌, ◌-◌, ◌≤◌, ◌<◌, ◌≡◌, inl, inr, refl, ap, ap₂, sym, ◌∙◌, Bool, true, false, ◌&&◌,
  Option, none, some, List, [], ◌∷◌, ◌++◌, arith, ltb, if◌then◌else◌, append-nil, length, get_elem?,
  text_eq_iff, Bool-cases, ltb→lt,
}
use cool_sdk.Codec.{Text}
use cool_sdk.Phala.Diff.{
  LineKind, context, added, removed, DiffLine, split_lines, lines_before, same_line, count_while,
  head_test, head_of, tail_test, tail_of, or_empty, push_lines, diff_lines, line_diff,
}
use cool_sdk.Phala.Diff.Loop.{count_while-ran, count_while-bound}

abbrev pub in_before : LineKind → Bool
in_before added = false
in_before _ = true

abbrev pub in_after : LineKind → Bool
in_after removed = false
in_after _ = true

-- The texts of the lines that a side has.
unfoldable pub side : (LineKind → Bool) → List DiffLine → List Text
side has [] = []
side has (l ∷ lines) = let rest = side has lines in if has l.kind then l.text ∷ rest else rest

module _ (has : LineKind → Bool) where
  side-append : (xs ys : List DiffLine) → side has (xs ++ ys) ≡ side has xs ++ side has ys
  unfolding side
  side-append [] ys = refl
  side-append (l ∷ xs) ys = elim (Bool-cases (has l.kind)) [
    | inl on ↦ rw on (ap (λ r. l.text ∷ r) (side-append xs ys))
    | inr off ↦ rw off (side-append xs ys)
  ]

  side-four :
      (w x y z : List DiffLine)
      → side has (w ++ x ++ y ++ z) ≡ side has w ++ side has x ++ side has y ++ side has z
  side-four w x y z = rw (side-append (w ++ x ++ y) z, side-append (w ++ x) y, side-append w x) refl

-- `count` lines of a text from a line on.
abbrev range : List Text → ℕ → ℕ → List Text
range lines from zero = []
range lines from (suc count) = or_empty (get_elem? lines from) ∷ range lines (suc from) count

side-push_lines :
    (has : LineKind → Bool) (kind : LineKind) (lines : List Text) (from count : ℕ)
    → has kind ≡ true
    → side has (push_lines kind lines from count) ≡ range lines from count
unfolding side push_lines
side-push_lines has kind lines from zero on = refl
side-push_lines has kind lines from (suc count) on = rw on (
    ap (λ r. or_empty (get_elem? lines from) ∷ r)
      (side-push_lines has kind lines (suc from) count on))

side-push_none :
    (has : LineKind → Bool) (kind : LineKind) (lines : List Text) (from count : ℕ)
    → has kind ≡ false
    → side has (push_lines kind lines from count) ≡ []
unfolding side push_lines
side-push_none has kind lines from zero off = refl
side-push_none has kind lines from (suc count) off =
    rw off (side-push_none has kind lines (suc from) count off)

range-add :
    (lines : List Text) (from n m : ℕ)
    → range lines from n ++ range lines (from + n) m ≡ range lines from (n + m)
range-add lines from zero m =
    let e : from + 0 ≡ from = omega arith in
    let k : m ≡ 0 + m = omega arith in ap₂ (λ i n. range lines i n) e k
range-add lines from (suc n) m =
    let x = or_empty (get_elem? lines from) in
    let e : from + suc n ≡ suc from + n = omega arith in
    let k : suc (n + m) ≡ suc n + m = omega arith in
    ap (λ i. x ∷ (range lines (suc from) n ++ range lines i m)) e
    ∙ ap (λ r. x ∷ r) (range-add lines (suc from) n m)
    ∙ ap (range lines from) k

range-∷ :
    (x : Text) (lines : List Text) (from n : ℕ)
    → range (x ∷ lines) (suc from) n ≡ range lines from n
range-∷ x lines from zero = refl
range-∷ x lines from (suc n) =
    ap (λ r. or_empty (get_elem? lines from) ∷ r) (range-∷ x lines (suc from) n)

range_all : (lines : List Text) → range lines 0 (length lines) ≡ lines
range_all [] = refl
range_all (x ∷ lines) = ap (λ r. x ∷ r) (range-∷ x lines 0 (length lines) ∙ range_all lines)

range_same :
    (a b : List Text) (i j n : ℕ)
    → ((t : ℕ) → t < n → get_elem? a (i + t) ≡ get_elem? b (j + t))
    → range a i n ≡ range b j n
range_same a b i j zero h = refl
range_same a b i j (suc n) h =
    ap₂ (λ x r. or_empty x ∷ r) (at i j 0 (omega arith) (omega arith) (omega arith))
      (range_same a b (suc i) (suc j) n
        (λ t p. at (suc i + t) (suc j + t) (suc t) (omega arith) (omega arith) (omega (arith, p))))
  where
    at : (k l t : ℕ) → k ≡ i + t → l ≡ j + t → t < suc n → get_elem? a k ≡ get_elem? b l
    at k l t e f p = ap (get_elem? a) e ∙ h t p ∙ ap (get_elem? b) (sym f)

same_line-eq : (x y : Option Text) → same_line x y ≡ true → x ≡ y
same_line-eq (some x) (some y) h = ap some ((text_eq_iff x y).0 h)
same_line-eq none none h = refl
same_line-eq none (some y) h = cc h
same_line-eq (some x) none h = cc h

test_parts : (p q r : Bool) → (p && q && r) ≡ true → (p ≡ true) × (q ≡ true) × (r ≡ true)
test_parts p q r h = ground arith

-- The lines of both texts before `head` and in the last `tail` are equal, and the two parts do not
-- overlap in either.
abbrev pub IsCommon : List Text → List Text → ℕ → ℕ → Type 0
IsCommon a b head tail =
    (head + tail ≤ length a)
    × (head + tail ≤ length b)
    × ((i : ℕ) → i < head → get_elem? a i ≡ get_elem? b i)
    × ((t : ℕ) → t < tail → get_elem? a (length a - 1 - t) ≡ get_elem? b (length b - 1 - t))

head_test-parts :
    (a b : List Text) (i : ℕ)
    → head_test a b i ≡ true
    → (i < length a) × (i < length b) × (get_elem? a i ≡ get_elem? b i)
head_test-parts a b i h =
    let (in_a, in_b, same) =
      test_parts (ltb i (length a)) (ltb i (length b)) (same_line (get_elem? a i) (get_elem? b i))
        h in
    (ltb→lt _ _ in_a, ltb→lt _ _ in_b, same_line-eq _ _ same)

tail_test-parts :
    (a b : List Text) (head t : ℕ)
    → tail_test a b head t ≡ true
    → (t < length a - head)
      × (t < length b - head)
      × (get_elem? a (length a - 1 - t) ≡ get_elem? b (length b - 1 - t))
tail_test-parts a b head t h =
    let (in_a, in_b, same) =
      test_parts (ltb t (length a - head)) (ltb t (length b - head))
        (same_line (get_elem? a (length a - 1 - t)) (get_elem? b (length b - 1 - t))) h in
    (ltb→lt _ _ in_a, ltb→lt _ _ in_b, same_line-eq _ _ same)

head_of-tail_of-IsCommon :
    (a b : List Text) → IsCommon a b (head_of a b) (tail_of a b (head_of a b))
unfolding head_of tail_of
head_of-tail_of-IsCommon a b =
    let head = head_of a b in
    let tail = tail_of a b head in
    let in_a : head ≤ length a =
      bound (length a) (head_test a b) (λ j h. (head_test-parts a b j h).0) in
    let in_b : head ≤ length b =
      bound (length b) (head_test a b) (λ j h. (head_test-parts a b j h).1) in
    let rest_a : tail ≤ length a - head =
      bound (length a - head) (tail_test a b head) (λ j h. (tail_test-parts a b head j h).0) in
    let rest_b : tail ≤ length b - head =
      bound (length b - head) (tail_test a b head) (λ j h. (tail_test-parts a b head j h).1) in
    (
      omega (arith, in_a, rest_a),
      omega (arith, in_b, rest_b),
      λ i p.
          (head_test-parts a b i
            (count_while-ran (head_test a b) (length a) 0 i (omega arith) p)).2,
      λ t p.
          (tail_test-parts a b head t
            (count_while-ran (tail_test a b head) (length a) 0 t (omega arith) p)).2,
    )
  where
    bound :
        (n : ℕ) (test : ℕ → Bool)
        → ((j : ℕ) → test j ≡ true → j < n)
        → count_while (length a) test 0 ≤ n
    bound n test h = count_while-bound test n (length a) 0 h (omega arith)

range_join :
    (lines : List Text) (i j n m k : ℕ)
    → j ≡ i + n
    → k ≡ n + m
    → range lines i n ++ range lines j m ≡ range lines i k
range_join lines i j n m k e f =
    ap (λ j. range lines i n ++ range lines j m) e
    ∙ range-add lines i n m
    ∙ ap (range lines i) (sym f)

-- Three ranges that follow each other are the whole.
range_whole :
    (lines : List Text) (head tail : ℕ)
    → head + tail ≤ length lines
    → range lines 0 head
        ++ range lines head (length lines - tail - head)
        ++ range lines (length lines - tail) tail
      ≡ lines
range_whole lines head tail fits =
    let n = length lines in
    let up_to =
      range_join lines 0 head head (n - tail - head) (n - tail) (omega arith) (omega arith) in
    ap (λ r. r ++ range lines (n - tail) tail) up_to
    ∙ range_join lines 0 (n - tail) (n - tail) tail n (omega arith) (omega arith)
    ∙ range_all lines

common_tail :
    (a b : List Text) (head tail : ℕ)
    → IsCommon a b head tail
    → range b (length b - tail) tail ≡ range a (length a - tail) tail
common_tail a b head tail (in_a, in_b, first, last) =
    range_same b a (length b - tail) (length a - tail) tail (λ t p.
      from_end t (length b - tail + t) (length a - tail + t) (omega (arith, p)) (omega (arith, p))
        (omega (arith, p)))
  where
    from_end :
        (t i j : ℕ)
        → tail - 1 - t < tail
        → i ≡ length b - 1 - (tail - 1 - t)
        → j ≡ length a - 1 - (tail - 1 - t)
        → get_elem? b i ≡ get_elem? a j
    from_end t i j p e f =
        ap (get_elem? b) e ∙ sym (last (tail - 1 - t) p) ∙ ap (get_elem? a) (sym f)

-- In a difference of two lists of lines, the lines of each side are that side's list.
diff_lines-side :
    (a b : List Text) → (side in_before (diff_lines a b) ≡ a) × (side in_after (diff_lines a b) ≡ b)
unfolding diff_lines
diff_lines-side a b =
    let head = head_of a b in
    let tail = tail_of a b head in
    let common = head_of-tail_of-IsCommon a b in
    let (in_a, in_b, first, last) = common in
    let head_a = push_lines context a 0 head in
    let only_a = push_lines removed a head (length a - tail - head) in
    let only_b = push_lines added b head (length b - tail - head) in
    let tail_b = push_lines context b (length b - tail) tail in
    (
      rw
          (
            side-four in_before head_a only_a only_b tail_b,
            side-push_lines in_before context a 0 head refl,
            side-push_lines in_before removed a head (length a - tail - head) refl,
            side-push_none in_before added b head (length b - tail - head) refl,
            side-push_lines in_before context b (length b - tail) tail refl,
            append-nil (range a 0 head ++ range a head (length a - tail - head)),
            common_tail a b head tail common,
          )
          (range_whole a head tail in_a),
      rw
          (
            side-four in_after head_a only_a only_b tail_b,
            side-push_lines in_after context a 0 head refl,
            side-push_none in_after removed a head (length a - tail - head) refl,
            side-push_lines in_after added b head (length b - tail - head) refl,
            side-push_lines in_after context b (length b - tail) tail refl,
            append-nil (range a 0 head),
            range_same a b 0 0 head (λ t p. first (0 + t) (omega (arith, p))),
          )
          (range_whole b head tail in_b),
    )

-- The lines that a difference does not mark as added are those of the text before, and the lines
-- that it does not mark as removed are those of the text after, in order.
pub line_diff-side :
    (before after : Text)
    → (side in_before (line_diff before after) ≡ lines_before before)
      × (side in_after (line_diff before after) ≡ split_lines after)
unfolding line_diff
line_diff-side before after = diff_lines-side (lines_before before) (split_lines after)
