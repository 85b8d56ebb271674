-- ===== src/Prelude/Text.antt =====
-- Texts: equality and order, blank texts (Go's strings.TrimSpace(s) == ""), decimal numerals.
use Prim.Native.Nat.{ℕ, zero, suc, ◌/◌, ◌%◌}
use Prim.Native.Char.{code}
use Prim.Native.String.{String, ◌++◌, len, compare}
use mathlib.Core.Bool.{Bool, true, ◌&&◌, ◌||◌}
use text.Mathlib.Text.{is_lt}
use tejun.Prelude.Tests.{leb, nat_eq, ltb, if◌then◌else◌}
pub use text.Mathlib.Text.{◌==◌}
pub use text.Mathlib.TextEquality.{eq_iff}
pub use text.Mathlib.TextPositions.{eq_refl}

-- Joins two texts; `++` is kept for lists.
infixl 65 ◌+s◌
abbrev pub ◌+s◌ : String → String → String
s +s t = s ++ t

-- len(s), in bytes.
abbrev pub byte_length : String → ℕ
byte_length s = len s

-- The order of SQLite's BINARY collation on texts.
abbrev pub text_lt : String → String → Bool
text_lt s t = is_lt (compare s t)

-- Go's unicode.IsSpace.
unfoldable pub is_space : ℕ → Bool
is_space c =
    (leb 9 c && leb c 13)
    || nat_eq c 32
    || nat_eq c 133
    || nat_eq c 160
    || nat_eq c 0x1680
    || (leb 0x2000 c && leb c 0x200a)
    || nat_eq c 0x2028
    || nat_eq c 0x2029
    || nat_eq c 0x202f
    || nat_eq c 0x205f
    || nat_eq c 0x3000

-- strings.TrimSpace(s) == "": every character is a space.
unfoldable pub is_blank : String → Bool
unfolding is_space
is_blank String.[] = true
is_blank (String.◌∷◌ c s) = is_space (code c) && is_blank s

abbrev digit : ℕ → String
digit n =
    if nat_eq n 0
    then "0"
    else if nat_eq n 1
    then "1"
    else if nat_eq n 2
    then "2"
    else if nat_eq n 3
    then "3"
    else if nat_eq n 4
    then "4"
    else if nat_eq n 5
    then "5"
    else if nat_eq n 6
    then "6"
    else if nat_eq n 7
    then "7"
    else if nat_eq n 8
    then "8"
    else "9"

decimal_digits : ℕ → ℕ → String → String
decimal_digits zero n acc = acc
decimal_digits (suc f) n acc =
    let more = decimal_digits f (n / 10) (digit (n % 10) ++ acc) in
    if ltb n 10 then digit n ++ acc else more

-- fmt.Sprint of a number that is not negative: n + 1 rounds are enough, one for each digit.
unfoldable pub decimal : ℕ → String
unfolding decimal_digits
decimal n = decimal_digits (suc n) n ""
