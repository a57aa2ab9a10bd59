-- ===== src/Tests/Ids.antt =====
-- src/phala/ulid.ts and src/phala/diff.ts at concrete inputs.
use cool_sdk.Prelude.{
  ◌≡◌, inl, refl, some, List, [], ◌∷◌, arith, length, codes, All, ◌+◌, ◌-◌, ◌≤◌, ◌⊎◌, ◌≢◌,
  get_elem?,
}
use cool_sdk.Prelude.Int.{ℤ, pos}
use cool_sdk.Codec.{Bytes, Text}
use cool_sdk.Phala.Ulid.{
  UlidState, initial_state, calls, next_ulid, encode_digits, random_chars, carry, carry_into,
  increment, advance, encode_time, char_at, index_after,
}
use cool_sdk.Phala.Ulid.Digits.{IsDigit}
use cool_sdk.Phala.Ulid.Order.{Rising, IsReady, calls-Rising}
use cool_sdk.Phala.Ulid.Shape.{next_ulid-IsDigit}
use cool_sdk.Phala.Diff.{
  count_while, push_lines, diff_lines, join_lines, line_diff, unified_diff, split_lines,
  lines_before, head_test, head_of, tail_test, tail_of,
}
use cool_sdk.Phala.Diff.Sides.{side, in_before, in_after, line_diff-side}
use cool_sdk.Phala.Diff.Render.{read_diff, read_diff-unified_diff, head_of-tail_of-stops}
use cool_sdk.Tests.Data.{zeros}

abbrev readings : List (ℤ × Bytes)
readings = (pos 33, zeros 16) ∷ (pos 33, zeros 16) ∷ (pos 64, zeros 16) ∷ []

abbrev three_ids : List Text
three_ids =
    codes "00000000110000000000000000"
    ∷ codes "00000000110000000000000001"
    ∷ codes "00000000200000000000000000"
    ∷ []

three_calls : calls initial_state readings ≡ some three_ids
unfolding calls next_ulid advance random_chars increment carry carry_into encode_time encode_digits
    char_at index_after
three_calls = refl

calls-Rising_example : Rising three_ids
calls-Rising_example =
    calls-Rising readings three_ids (refl, refl, (refl, refl, (refl, refl, tt))) three_calls

next_ulid-IsDigit_example :
    (t : UlidState) × (id : Text) × (next_ulid initial_state (pos 5) (zeros 16) ≡ (t, some id))
    × (length id ≡ 26)
    × All IsDigit id
    × IsReady t
next_ulid-IsDigit_example =
    next_ulid-IsDigit initial_state 5 (zeros 16) (inl (refl, refl)) refl (omega arith) refl

abbrev before : Text
before = codes "a\nb\nc"

abbrev after : Text
after = codes "a\nd\ne\nc"

line_diff-side_example :
    (side in_before (line_diff before after) ≡ lines_before before)
    × (side in_after (line_diff before after) ≡ split_lines after)
line_diff-side_example = line_diff-side before after

unified_run : unified_diff before after ≡ codes " a\n-b\n+d\n+e\n c"
unfolding unified_diff line_diff join_lines diff_lines push_lines head_of count_while split_lines
    tail_of
unified_run = refl

read_diff-unified_diff_example : read_diff (unified_diff before after) ≡ line_diff before after
read_diff-unified_diff_example = read_diff-unified_diff before after

abbrev one_changed : List Text
one_changed = codes "a" ∷ codes "b" ∷ codes "c" ∷ []

abbrev one_other : List Text
one_other = codes "a" ∷ codes "x" ∷ codes "c" ∷ []

head_of-tail_of-stops_example :
    (count_while (length one_changed + 5) (head_test one_changed one_other) 0
      ≡ head_of one_changed one_other)
    × (count_while
          (length one_changed + 5)
          (tail_test one_changed one_other (head_of one_changed one_other))
          0
        ≡ tail_of one_changed one_other (head_of one_changed one_other))
    × ((length one_changed ≤ head_of one_changed one_other)
        ⊎ (length one_other ≤ head_of one_changed one_other)
        ⊎ (get_elem? one_changed (head_of one_changed one_other)
            ≢ get_elem? one_other (head_of one_changed one_other)))
    × ((length one_changed - head_of one_changed one_other
          ≤ tail_of one_changed one_other (head_of one_changed one_other))
        ⊎ (length one_other - head_of one_changed one_other
            ≤ tail_of one_changed one_other (head_of one_changed one_other))
        ⊎ (get_elem? one_changed (
              length one_changed
              - 1
              - tail_of one_changed one_other (head_of one_changed one_other))
            ≢ get_elem? one_other (
                length one_other
                - 1
                - tail_of one_changed one_other (head_of one_changed one_other))))
head_of-tail_of-stops_example = head_of-tail_of-stops one_changed one_other 5
