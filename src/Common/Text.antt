-- ===== src/Common/Text.antt =====
-- `trim` of the source's texts, the test `!text.trim()`, and numbers in a text.
use Prim.Native.Nat.{ℕ, zero, suc, ◌/◌, ◌%◌}
use Prim.Native.Char.{code}
use Prim.Native.String.{String, [], ◌∷◌, ◌++◌, char_at}
use mathlib.Core.Path.{◌≡◌, refl}
use mathlib.Core.Bool.{Bool, true, ◌&&◌, ◌||◌}
use operaia_lab.Common.Tests.{leb, ltb, ◌==◌, nat_same, if◌then◌else◌}

-- White space and line terminators, as ECMAScript lists them.
is_space : ℕ → Bool
is_space c =
    (leb 9 c && leb c 13)
    || c == 32
    || c == 0xa0
    || c == 0x1680
    || (leb 0x2000 c && leb c 0x200a)
    || c == 0x2028
    || c == 0x2029
    || c == 0x202f
    || c == 0x205f
    || c == 0x3000
    || c == 0xfeff

-- `!text.trim()`: nothing but white space.
unfoldable pub is_blank : String → Bool
unfolding is_space
is_blank [] = true
is_blank (c ∷ s) = is_space (code c) && is_blank s

unfoldable pub trim_start : String → String
unfolding is_space
trim_start [] = []
trim_start (c ∷ s) = if is_space (code c) then trim_start s else c ∷ s

unfoldable pub trim_end : String → String
unfolding is_blank
trim_end [] = []
trim_end (c ∷ s) = if is_blank (c ∷ s) then [] else c ∷ trim_end s

unfoldable pub trim : String → String
unfolding trim_start trim_end
trim s = trim_end (trim_start s)

trim_example : trim "  ab c  " ≡ "ab c"
unfolding trim
trim_example = refl

-- A number in a text. The fuel is at least the number of its digits.
abbrev digit : ℕ → String
digit n = char_at "0123456789" (n % 10) ∷ []

decimal_digits : ℕ → ℕ → String
decimal_digits zero n = digit n
decimal_digits (suc fuel) n =
    let rest = decimal_digits fuel (n / 10) in if ltb n 10 then digit n else rest ++ digit n

unfoldable pub decimal : ℕ → String
unfolding decimal_digits
decimal n = decimal_digits n n
