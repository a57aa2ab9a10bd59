-- ===== src/Phala/Diff/Render.antt =====
-- The text of a difference can be read back, its counts add up, and its loops end.
use cool_sdk.Prelude.{
  ℕ, Option, none, some, ◌⊎◌, text_eq_iff, ◌+◌, ◌-◌, ◌≤◌, ◌≡◌, ◌≢◌, inl, inr, refl, ap, ap₂, sym,
  ◌∙◌, Bool, false, ◌&&◌, List, [], ◌∷◌, ◌++◌, arith, ltb, ◌==◌, if◌then◌else◌, map, length,
  get_elem?, All, Bool-cases,
}
use cool_sdk.Codec.{Text}
use cool_sdk.Phala.Diff.{
  LineKind, context, added, removed, DiffLine, cons_first, split_lines, join_lines, lines_before,
  same_line, count_while, head_test, head_of, tail_test, tail_of, line_diff, sign_of, unified_diff,
  tally, count_kinds, diff_stat,
}
use cool_sdk.Phala.Diff.Loop.{count_while-stops, count_while-enough}
use cool_sdk.Phala.Diff.Sides.{in_before, in_after, side, line_diff-side}

-- One line of a difference's text, by its first character.
abbrev pub read_line : Text → DiffLine
read_line [] = record { kind = context; text = [] }
read_line (c ∷ text) = record {
  kind = if c == b'+' then added else if c == b'-' then removed else context;
  text = text;
}

-- A reader of the unified form.
unfoldable pub read_diff : Text → List DiffLine
read_diff text = map read_line (split_lines text)

abbrev OneLine : Text → Type 0
OneLine text = All (λ c. (c == 10) ≡ false) text

-- A text without a line break before a line break, or at the end.
split_lines-last : (line : Text) → OneLine line → split_lines line ≡ line ∷ []
unfolding split_lines
split_lines-last [] h = refl
split_lines-last (c ∷ line) (other, h) = rw (other, split_lines-last line h) refl

split_lines-first :
    (line rest : Text) → OneLine line → split_lines (line ++ 10 ∷ rest) ≡ line ∷ split_lines rest
unfolding split_lines
split_lines-first [] rest h = refl
split_lines-first (c ∷ line) rest (other, h) = rw (other, split_lines-first line rest h) refl

split_lines-join_lines :
    (first : Text) (lines : List Text)
    → All OneLine (first ∷ lines)
    → split_lines (join_lines (first ∷ lines)) ≡ first ∷ lines
unfolding join_lines
split_lines-join_lines first [] (one, _) = split_lines-last first one
split_lines-join_lines first (next ∷ lines) (one, rest) =
    split_lines-first first (join_lines (next ∷ lines)) one
    ∙ ap (λ r. first ∷ r) (split_lines-join_lines next lines rest)

split_lines-OneLine : (text : Text) → All OneLine (split_lines text)
unfolding split_lines
split_lines-OneLine [] = (tt, tt)
split_lines-OneLine (c ∷ text) = elim (Bool-cases (c == 10)) [
  | inl break ↦ rw break (tt, split_lines-OneLine text)
  | inr other ↦ rw other (longer c (split_lines text) other (split_lines-OneLine text))
]
  where
    longer :
        (c : ℕ) (lines : List Text)
        → (c == 10) ≡ false
        → All OneLine lines
        → All OneLine (cons_first c lines)
    longer c [] other h = ((other, tt), tt)
    longer c (line ∷ lines) other (one, h) = ((other, one), h)

lines_before-OneLine : (text : Text) → All OneLine (lines_before text)
lines_before-OneLine [] = tt
lines_before-OneLine (c ∷ text) = split_lines-OneLine (c ∷ text)

-- Each line stands on a side.
text-OneLine :
    (lines : List DiffLine)
    → All OneLine (side in_before lines)
    → All OneLine (side in_after lines)
    → All (λ l. OneLine l.text) lines
unfolding side
text-OneLine [] h k = tt
text-OneLine (l ∷ ls) h k =
    let (one, h', k') = on_a_side l.kind l.text (side in_before ls) (side in_after ls) h k in
    (one, text-OneLine ls h' k')
  where
    on_a_side :
        (kind : LineKind) (text : Text) (before after : List Text)
        → All OneLine (if in_before kind then text ∷ before else before)
        → All OneLine (if in_after kind then text ∷ after else after)
        → OneLine text × All OneLine before × All OneLine after
    on_a_side context text before after (one, h) (_, k) = (one, h, k)
    on_a_side added text before after h (one, k) = (one, h, k)
    on_a_side removed text before after (one, h) k = (one, h, k)

line_diff-OneLine : (before after : Text) → All (λ l. OneLine l.text) (line_diff before after)
line_diff-OneLine before after =
    let (b, a) = line_diff-side before after in
    text-OneLine (line_diff before after) (rw b (lines_before-OneLine before))
      (rw a (split_lines-OneLine after))

abbrev line_text : DiffLine → Text
line_text l = sign_of l.kind ∷ l.text

sign_of-OneLine : (kind : LineKind) → (sign_of kind == 10) ≡ false
sign_of-OneLine context = refl
sign_of-OneLine added = refl
sign_of-OneLine removed = refl

map-OneLine :
    (lines : List DiffLine) → All (λ l. OneLine l.text) lines → All OneLine (map line_text lines)
map-OneLine [] h = tt
map-OneLine (l ∷ lines) (one, h) = ((sign_of-OneLine l.kind, one), map-OneLine lines h)

read_line-line_text : (l : DiffLine) → read_line (line_text l) ≡ l
read_line-line_text l = by_kind l.kind l.text
  where
    by_kind :
        (kind : LineKind) (text : Text)
        → read_line (sign_of kind ∷ text) ≡ record { kind = kind; text = text }
    by_kind context text = refl
    by_kind added text = refl
    by_kind removed text = refl

map-read_line : (lines : List DiffLine) → map read_line (map line_text lines) ≡ lines
map-read_line [] = refl
map-read_line (l ∷ lines) = ap₂ (λ x xs. x ∷ xs) (read_line-line_text l) (map-read_line lines)

read_lines :
    (lines : List DiffLine)
    → lines ≢ []
    → All (λ l. OneLine l.text) lines
    → read_diff (join_lines (map line_text lines)) ≡ lines
unfolding read_diff
read_lines [] some_line h = absurd (some_line refl)
read_lines (l ∷ lines) some_line h =
    ap (map read_line)
      (split_lines-join_lines (line_text l) (map line_text lines) (map-OneLine (l ∷ lines) h))
    ∙ map-read_line (l ∷ lines)

split_lines-some : (text : Text) → split_lines text ≢ []
unfolding split_lines
split_lines-some [] h = cc
split_lines-some (c ∷ text) h = elim (Bool-cases (c == 10)) [
  | inl break ↦ cc
  | inr other ↦ some_lines (split_lines text) (ground arith)
]
  where
    some_lines : (lines : List Text) → cons_first c lines ≢ []
    some_lines [] e = cc
    some_lines (line ∷ lines) e = cc

line_diff-some : (before after : Text) → line_diff before after ≢ []
unfolding side
line_diff-some before after h =
    split_lines-some after (sym (line_diff-side before after).1 ∙ ap (side in_after) h)

-- The text that `unifiedDiff` writes reads back as the lines of `lineDiff`.
pub read_diff-unified_diff :
    (before after : Text) → read_diff (unified_diff before after) ≡ line_diff before after
unfolding unified_diff
read_diff-unified_diff before after =
    read_lines (line_diff before after) (line_diff-some before after)
      (line_diff-OneLine before after)

-- The loops of `lineDiff` end by themselves: on any more rounds of fuel than the text before has
-- lines they count the same. They end where they should: after the common lines of the beginning a
-- text has ended or the next lines differ, and so from the end, where the lines that the first loop
-- took count as ended.
pub head_of-tail_of-stops :
    (a b : List Text) (extra : ℕ)
    → (count_while (length a + extra) (head_test a b) 0 ≡ head_of a b)
      × (count_while (length a + extra) (tail_test a b (head_of a b)) 0 ≡ tail_of a b (head_of a b))
      × ((length a ≤ head_of a b)
          ⊎ (length b ≤ head_of a b)
          ⊎ (get_elem? a (head_of a b) ≢ get_elem? b (head_of a b)))
      × ((length a - head_of a b ≤ tail_of a b (head_of a b))
          ⊎ (length b - head_of a b ≤ tail_of a b (head_of a b))
          ⊎ (get_elem? a (length a - 1 - tail_of a b (head_of a b))
              ≢ get_elem? b (length b - 1 - tail_of a b (head_of a b))))
unfolding head_of tail_of
head_of-tail_of-stops a b extra =
    let head = head_of a b in
    let head_ends = λ (j : ℕ) (p : 0 + length a ≤ j).
      past j (length a) (ltb j (length b)) (same_line (get_elem? a j) (get_elem? b j))
        (omega (arith, p)) in
    let tail_ends = λ (j : ℕ) (p : 0 + length a ≤ j).
      past j (length a - head) (ltb j (length b - head))
        (same_line (get_elem? a (length a - 1 - j)) (get_elem? b (length b - 1 - j)))
        (omega (arith, p)) in
    (
      count_while-enough (head_test a b) (length a) extra 0 head_ends,
      count_while-enough (tail_test a b head) (length a) extra 0 tail_ends,
      stopped head (length a) (length b) (get_elem? a head) (get_elem? b head)
          (count_while-stops (head_test a b) (length a) 0 head_ends),
      stopped (tail_of a b head) (length a - head) (length b - head) _ _
          (count_while-stops (tail_test a b head) (length a) 0 tail_ends),
    )
  where
    past : (j n : ℕ) (q r : Bool) → n ≤ j → (ltb j n && q && r) ≡ false
    past j n q r h = ground arith

    differs : (x y : Option Text) → same_line x y ≡ false → x ≢ y
    differs none none h e = cc h
    differs none (some y) h e = cc e
    differs (some x) none h e = cc e
    differs (some x) (some y) h e = let same : x ≡ y = cc in cc (sym h ∙ (text_eq_iff x y).1 same)

    stopped :
        (i m n : ℕ) (x y : Option Text)
        → (ltb i m && ltb i n && same_line x y) ≡ false
        → (m ≤ i) ⊎ (n ≤ i) ⊎ (x ≢ y)
    stopped i m n x y h = elim (Bool-cases (ltb i m)) [
      | inr out ↦ inl (ground arith)
      | inl in_a ↦ elim (Bool-cases (ltb i n)) [
        | inr out ↦ inr (inl (ground arith))
        | inl in_b ↦ inr (inr (differs x y (ground arith)))
      ]
    ]

count_kinds-length :
    (lines : List DiffLine)
    → (count_kinds lines).0 + length (side in_before lines)
      ≡ (count_kinds lines).1 + length (side in_after lines)
unfolding count_kinds side
count_kinds-length [] = refl
count_kinds-length (l ∷ lines) =
    by_kind l.kind (count_kinds lines) l.text (side in_before lines) (side in_after lines)
      (count_kinds-length lines)
  where
    by_kind :
        (kind : LineKind) (n : ℕ × ℕ) (text : Text) (before after : List Text)
        → n.0 + length before ≡ n.1 + length after
        → (tally kind n).0 + length (if in_before kind then text ∷ before else before)
          ≡ (tally kind n).1 + length (if in_after kind then text ∷ after else after)
    by_kind context (a, r) text before after h = omega (arith, h)
    by_kind added (a, r) text before after h = omega (arith, h)
    by_kind removed (a, r) text before after h = omega (arith, h)

-- `diffStat` counts the lines that the text grows by: with the lines added the text before is as
-- long as the text after with the lines removed.
pub diff_stat-length :
    (before after : Text)
    → (diff_stat before after).0 + length (lines_before before)
      ≡ (diff_stat before after).1 + length (split_lines after)
unfolding diff_stat
diff_stat-length before after =
    let (b, a) = line_diff-side before after in
    rw (sym b, sym a) (count_kinds-length (line_diff before after))
