-- ===== src/Prelude/Text.antt =====
-- Text: equality of native strings, and `startsWith`, `endsWith("*")` and `slice(0, -1)` over
-- their code points.
use Prim.Native.Nat.{ℕ}
use Prim.Native.Char.{code}
use Prim.Native.String.{String}
use mathlib.Core.Bool.{Bool, true, false, ◌&&◌, ◌||◌}
use mathlib.Core.List.{List, [], ◌∷◌}
use text.Mathlib.Text.{◌==◌ as string_eq}
use mathlib.Core.List.{◌++◌}
use mathlib.Core.Path.{◌≡◌, refl}
use mathlib.Core.Logic.{◌↔◌}
use native.Mathlib.Omega.{arith}
use cool_sdk.Prelude.Tests.{◌==◌, ==_iff, ltb, if◌then◌else◌}
use cool_sdk.Prelude.Lists.{length, drop}

-- a === b
abbrev pub str_eq : String → String → Bool
str_eq a b = string_eq a b

abbrev pub codes : String → List ℕ
codes String.[] = []
codes (String.◌∷◌ c s) = code c ∷ codes s

-- xs.includes(a)
unfoldable pub includes : List String → String → Bool
includes [] a = false
includes (x ∷ xs) a = str_eq x a || includes xs a

-- text.startsWith(prefix)
abbrev pub starts_with : List ℕ → List ℕ → Bool
starts_with text [] = true
starts_with [] (p ∷ ps) = false
starts_with (t ∷ ts) (p ∷ ps) = (t == p) && starts_with ts ps

-- text.endsWith("*")
abbrev pub ends_star : List ℕ → Bool
ends_star [] = false
ends_star (c ∷ []) = c == b'*'
ends_star (c ∷ d ∷ s) = ends_star (d ∷ s)

-- text.slice(0, -1)
abbrev pub drop_last : List ℕ → List ℕ
drop_last [] = []
drop_last (c ∷ []) = []
drop_last (c ∷ d ∷ s) = c ∷ drop_last (d ∷ s)

-- A string is truthy unless it is empty.
abbrev pub truthy : String → Bool
truthy String.[] = false
truthy (String.◌∷◌ c s) = true

both : (a b : Bool) → (a && b) ≡ true → (a ≡ true) × (b ≡ true)
both a b k = ground arith

-- A text that starts with a prefix is the prefix and the rest.
pub prefix-append-drop :
    (text prefix : List ℕ)
    → starts_with text prefix ≡ true
    → prefix ++ drop (length prefix) text ≡ text
prefix-append-drop text [] h = refl
prefix-append-drop [] (p ∷ ps) h = cc
prefix-append-drop (t ∷ ts) (p ∷ ps) h =
    let (e, h') = both (t == p) (starts_with ts ps) h in
    cc (prefix-append-drop ts ps h', (==_iff t p).0 e)

pub starts_with-append : (prefix rest : List ℕ) → starts_with (prefix ++ rest) prefix ≡ true
starts_with-append [] rest = refl
starts_with-append (p ∷ ps) rest = rw ((==_iff p p).1 refl) (starts_with-append ps rest)

-- a < b of two texts, by their code units.
abbrev pub text_lt : List ℕ → List ℕ → Bool
text_lt a [] = false
text_lt [] (d ∷ b) = true
text_lt (c ∷ a) (d ∷ b) = let rest = text_lt a b in if c == d then rest else ltb c d

-- a === b of two texts, by their code units.
abbrev pub text_eq : List ℕ → List ℕ → Bool
text_eq [] [] = true
text_eq (c ∷ a) (d ∷ b) = (c == d) && text_eq a b
text_eq _ _ = false

pub text_eq_iff : (a b : List ℕ) → (text_eq a b ≡ true) ↔ (a ≡ b)
text_eq_iff [] [] = (λ h. refl, λ e. refl)
text_eq_iff (c ∷ a) [] = (λ h. cc, λ e. cc)
text_eq_iff [] (d ∷ b) = (λ h. cc, λ e. cc)
text_eq_iff (c ∷ a) (d ∷ b) =
    let (to, from) = text_eq_iff a b in
    (
      λ h. let (first, rest) = both (c == d) (text_eq a b) h in cc ((==_iff c d).0 first, to rest),
      λ e. let e0 : c ≡ d = cc in let e1 : a ≡ b = cc in rw ((==_iff c d).1 e0) (from e1),
    )
