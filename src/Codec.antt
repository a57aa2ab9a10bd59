-- ===== src/Codec.antt =====
-- src/codec.ts: the byte and string encodings. A `Uint8Array` is a list of numbers below 256, a
-- text that is encoded or decoded is the list of its code units, and a function that throws
-- returns `none`.
pub mod Hex
pub mod Equal
use Prim.Native.Nat.{bit_or, bit_xor}
use cool_sdk.Prelude.{
  ℕ, ◌+◌, ◌-◌, ◌*◌, ◌/◌, ◌%◌, ◌<◌, Bool, true, false, ◌&&◌, ◌||◌, Option, none, some, List, [], ◌∷◌,
  ◌++◌, ltb, leb, ◌==◌, if◌then◌else◌, length, drop, every, codes, starts_with,
}

abbrev pub Bytes : Type 0
Bytes = List ℕ

abbrev pub Text : Type 0
Text = List ℕ

abbrev pub IsByte : ℕ → Type 0
IsByte b = b < 256

-- One digit of `n.toString(16)`.
abbrev pub hex_digit : ℕ → ℕ
hex_digit d = if ltb d 10 then d + b'0' else d + 87

-- `b.toString(16)` of a byte.
abbrev pub to_string_16 : ℕ → Text
to_string_16 b = if ltb b 16 then hex_digit b ∷ [] else hex_digit (b / 16) ∷ hex_digit (b % 16) ∷ []

-- `text.padStart(2, "0")`.
abbrev pub pad_start_2 : Text → Text
pad_start_2 [] = b'0' ∷ b'0' ∷ []
pad_start_2 (c ∷ []) = b'0' ∷ c ∷ []
pad_start_2 (c ∷ d ∷ s) = c ∷ d ∷ s

unfoldable pub to_hex : Bytes → Text
to_hex [] = []
to_hex (b ∷ bytes) = pad_start_2 (to_string_16 b) ++ to_hex bytes

-- One character of the class `[0-9a-fA-F]`.
abbrev pub is_hex : ℕ → Bool
is_hex c = (leb b'0' c && leb c b'9') || (leb b'a' c && leb c b'f') || (leb b'A' c && leb c b'F')

-- `Number.parseInt(c, 16)` of one such character.
abbrev pub hex_value : ℕ → ℕ
hex_value c = if leb b'a' c then c - 87 else if leb b'A' c then c - 55 else c - b'0'

-- The loop of `fromHex`: one byte from each two characters.
unfoldable pub pairs : Text → Bytes
pairs [] = []
pairs (c ∷ []) = []
pairs (c ∷ d ∷ s) = (hex_value c * 16 + hex_value d) ∷ pairs s

unfoldable pub from_hex : Text → Option Bytes
unfolding pairs
from_hex hex = if every is_hex hex && (length hex % 2 == 0) then some (pairs hex) else none

unfoldable pub concat_bytes : List Bytes → Bytes
concat_bytes [] = []
concat_bytes (a ∷ arrays) = a ++ concat_bytes arrays

abbrev pub hex_field_prefix : Text
hex_field_prefix = codes "hex:"

unfoldable pub to_hex_field : Bytes → Text
unfolding to_hex
to_hex_field bytes = hex_field_prefix ++ to_hex bytes

unfoldable pub from_hex_field : Text → Option Bytes
unfolding from_hex
from_hex_field field =
    if starts_with field hex_field_prefix
    then from_hex (drop (length hex_field_prefix) field)
    else none

-- The loop of `bytesEqual`, over arrays of one length.
unfoldable pub diff_from : ℕ → Bytes → Bytes → ℕ
diff_from diff (a ∷ as') (b ∷ bs) = diff_from (bit_or diff (bit_xor a b)) as' bs
diff_from diff [] bs = diff
diff_from diff (a ∷ as') [] = diff

unfoldable pub bytes_equal : Bytes → Bytes → Bool
unfolding diff_from
bytes_equal a b = if length a == length b then diff_from 0 a b == 0 else false
