-- ===== src/Prelude/Text.antt =====
-- Text that the program walks, as a list of code points (its bytes, if it is ASCII): the functions
-- of Go's `strings` and `bytes` packages that the sources call.
use Prim.Native.Nat.{ℕ, suc}
use Prim.Native.Char.{code}
use Prim.Native.String
use Prim.Native.String.{String}
use mathlib.Core.Path.{◌≡◌, refl}
use mathlib.Core.Bool.{Bool, true, false, ◌||◌, ◌&&◌}
use mathlib.Core.Option.{Option, none, some}
use mathlib.Core.List.{List, [], ◌∷◌, ◌++◌, reverse}
use native.Mathlib.Omega.{arith}
use webhook_mind.Prelude.Tests.{if◌then◌else◌, leb, ◌==◌}

abbrev pub codes : String → List ℕ
codes String.[] = []
codes (String.◌∷◌ c s) = code c ∷ codes s

-- `+` on strings.
infixr 65 ◌<>◌
abbrev pub ◌<>◌ : String → String → String
◌<>◌ = String.◌++◌

-- `bytes.Equal` and `==` on strings.
unfoldable pub bytes_equal : List ℕ → List ℕ → Bool
bytes_equal [] [] = true
bytes_equal [] (_ ∷ _) = false
bytes_equal (_ ∷ _) [] = false
bytes_equal (a ∷ s) (b ∷ t) = (a == b) && bytes_equal s t

pub bytes_equal_refl : (s : List ℕ) → bytes_equal s s ≡ true
unfolding bytes_equal
bytes_equal_refl [] = refl
bytes_equal_refl (a ∷ s) = ground (arith, bytes_equal_refl s)

pub eq_of_bytes_equal : (s t : List ℕ) → bytes_equal s t ≡ true → s ≡ t
unfolding bytes_equal
eq_of_bytes_equal [] [] h = refl
eq_of_bytes_equal [] (b ∷ t) h = ground arith
eq_of_bytes_equal (a ∷ s) [] h = ground arith
eq_of_bytes_equal (a ∷ s) (b ∷ t) h = ground (arith, eq_of_bytes_equal s t)

-- `HasPrefix s p`.
unfoldable pub has_prefix : List ℕ → List ℕ → Bool
has_prefix s [] = true
has_prefix [] (_ ∷ _) = false
has_prefix (a ∷ s) (b ∷ p) = (a == b) && has_prefix s p

-- `Index s p`, with `none` for -1.
unfoldable pub index : List ℕ → List ℕ → Option ℕ
unfolding has_prefix
index [] p = if has_prefix [] p then some 0 else none
index (a ∷ s) p =
    let rest : Option ℕ = elim (index s p) [ none ↦ none | some i ↦ some (suc i) ] in
    if has_prefix (a ∷ s) p then some 0 else rest

-- `IndexByte s c`, with `none` for -1.
unfoldable pub index_byte : List ℕ → ℕ → Option ℕ
index_byte [] c = none
index_byte (a ∷ s) c =
    let rest : Option ℕ = elim (index_byte s c) [ none ↦ none | some i ↦ some (suc i) ] in
    if a == c then some 0 else rest

-- The white space of `strings.TrimSpace`: ASCII space and controls, U+0085, U+00A0 and the other
-- space separators of Unicode.
unfoldable pub is_space : ℕ → Bool
is_space c =
    (leb 9 c && leb c 13)
    || (c == 32)
    || (c == 0x85)
    || (c == 0xA0)
    || (c == 0x1680)
    || (leb 0x2000 c && leb c 0x200A)
    || (c == 0x2028)
    || (c == 0x2029)
    || (c == 0x202F)
    || (c == 0x205F)
    || (c == 0x3000)

unfoldable pub trim_left : List ℕ → List ℕ
trim_left [] = []
trim_left (c ∷ s) = if is_space c then trim_left s else c ∷ s

unfoldable pub trim_space : List ℕ → List ℕ
unfolding trim_left is_space
trim_space s = reverse (trim_left (reverse (trim_left s)))

-- `Split s ","` for a separator of one code point; the field that is being read is an argument.
unfoldable pub split_from : ℕ → List ℕ → List ℕ → List (List ℕ)
split_from sep cur [] = cur ∷ []
split_from sep cur (c ∷ s) =
    let closed = cur ∷ split_from sep [] s in
    let longer = split_from sep (cur ++ c ∷ []) s in if c == sep then closed else longer

unfoldable pub split : ℕ → List ℕ → List (List ℕ)
unfolding split_from
split sep s = split_from sep [] s
