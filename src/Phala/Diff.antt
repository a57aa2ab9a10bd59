-- ===== src/Phala/Diff.antt =====
-- src/phala/diff.ts: the line difference whose text a change record commits to. A text is the list
-- of its code units.
pub mod Loop
pub mod Sides
pub mod Render
use cool_sdk.Prelude.{
  ℕ, zero, suc, ◌+◌, ◌-◌, Bool, true, false, ◌&&◌, Option, none, some, List, [], ◌∷◌, ◌++◌, ltb,
  ◌==◌, if◌then◌else◌, map, length, get_elem?, text_eq,
}
use cool_sdk.Codec.{Text}

pub data LineKind : Type 0 where
  context added removed : LineKind

pub record DiffLine : Type 0 where
  pub kind : LineKind
  pub text : Text

-- A character before the first line.
abbrev pub cons_first : ℕ → List Text → List Text
cons_first c [] = (c ∷ []) ∷ []
cons_first c (line ∷ lines) = (c ∷ line) ∷ lines

-- text.split("\n")
unfoldable pub split_lines : Text → List Text
split_lines [] = [] ∷ []
split_lines (c ∷ text) =
    let rest = split_lines text in if c == 10 then [] ∷ rest else cons_first c rest

-- lines.join("\n")
unfoldable pub join_lines : List Text → Text
join_lines [] = []
join_lines (line ∷ []) = line
join_lines (line ∷ next ∷ lines) = line ++ 10 ∷ join_lines (next ∷ lines)

abbrev pub lines_before : Text → List Text
lines_before [] = []
lines_before (c ∷ text) = split_lines (c ∷ text)

-- `while (test(i)) i++`, on fuel.
unfoldable pub count_while : ℕ → (ℕ → Bool) → ℕ → ℕ
count_while zero test i = i
count_while (suc fuel) test i =
    let rest = count_while fuel test (suc i) in if test i then rest else i

-- a[i] === b[j]; past their ends both are `undefined`, which is equal to itself.
abbrev pub same_line : Option Text → Option Text → Bool
same_line (some x) (some y) = text_eq x y
same_line none none = true
same_line _ _ = false

abbrev pub head_test : List Text → List Text → ℕ → Bool
head_test a b i = ltb i (length a) && ltb i (length b) && same_line (get_elem? a i) (get_elem? b i)

unfoldable pub head_of : List Text → List Text → ℕ
head_of a b = count_while (length a) (head_test a b) 0

abbrev pub tail_test : List Text → List Text → ℕ → ℕ → Bool
tail_test a b head t =
    ltb t (length a - head)
    && ltb t (length b - head)
    && same_line (get_elem? a (length a - 1 - t)) (get_elem? b (length b - 1 - t))

unfoldable pub tail_of : List Text → List Text → ℕ → ℕ
tail_of a b head = count_while (length a) (tail_test a b head) 0

-- text ?? ""
abbrev pub or_empty : Option Text → Text
or_empty none = []
or_empty (some text) = text

-- `for (let i = from; i < to; i++) out.push({ kind, text: lines[i] ?? "" })`, where `count` is
-- the number of rounds, to - from.
unfoldable pub push_lines : LineKind → List Text → ℕ → ℕ → List DiffLine
push_lines kind lines from zero = []
push_lines kind lines from (suc count) =
    record { kind = kind; text = or_empty (get_elem? lines from) }
    ∷ push_lines kind lines (suc from) count

unfoldable pub diff_lines : List Text → List Text → List DiffLine
diff_lines a b =
    let head = head_of a b in
    let tail = tail_of a b head in
    push_lines context a 0 head
    ++ push_lines removed a head (length a - tail - head)
    ++ push_lines added b head (length b - tail - head)
    ++ push_lines context b (length b - tail) tail

unfoldable pub line_diff : Text → Text → List DiffLine
line_diff before after = diff_lines (lines_before before) (split_lines after)

abbrev pub sign_of : LineKind → ℕ
sign_of context = b' '
sign_of added = b'+'
sign_of removed = b'-'

unfoldable pub unified_diff : Text → Text → Text
unified_diff before after = join_lines (map (λ l. sign_of l.kind ∷ l.text) (line_diff before after))

-- One round of the loop of `diffStat`: the lines added and the lines removed.
abbrev pub tally : LineKind → ℕ × ℕ → ℕ × ℕ
tally added (a, r) = (suc a, r)
tally removed (a, r) = (a, suc r)
tally context (a, r) = (a, r)

unfoldable pub count_kinds : List DiffLine → ℕ × ℕ
count_kinds [] = (0, 0)
count_kinds (l ∷ lines) = tally l.kind (count_kinds lines)

unfoldable pub diff_stat : Text → Text → ℕ × ℕ
diff_stat before after = count_kinds (line_diff before after)
