-- ===== src/Prelude/Text.antt =====
-- Code points of a text, and the standard library's `str::parse::<usize>`.
use Prim.Native.Nat.{ℕ, ◌+◌, ◌-◌, ◌*◌}
use Prim.Native.Char.{code}
use Prim.Native.String.{String}
use mathlib.Core.Bool.{Bool, ◌&&◌}
use mathlib.Core.List.{List, [], ◌∷◌}
use mathlib.Core.Option.{Option, none, some}
use causm.Prelude.Tests.{leb, ◌==◌, if◌then◌else◌}
use causm.Prelude.Words.{u64_max}

abbrev pub codes : String → List ℕ
codes String.[] = []
codes (String.◌∷◌ c s) = code c ∷ codes s

abbrev pub is_digit : ℕ → Bool
is_digit c = leb b'0' c && leb c b'9'

-- the digits behind a sign; a value above `usize::MAX` is an error
unfoldable pub parse_digits : ℕ → List ℕ → Option ℕ
parse_digits acc [] = some acc
parse_digits acc (c ∷ cs) =
    if is_digit c && leb (acc * 10 + (c - b'0')) u64_max
    then parse_digits (acc * 10 + (c - b'0')) cs
    else none

-- An optional `+`, then at least one digit.
unfoldable pub parse_codes : List ℕ → Option ℕ
unfolding parse_digits
parse_codes [] = none
parse_codes (c ∷ []) = if is_digit c then some (c - b'0') else none
parse_codes (c ∷ d ∷ cs) =
    if c == b'+' then parse_digits 0 (d ∷ cs) else parse_digits 0 (c ∷ d ∷ cs)

unfoldable pub parse_usize : String → Option ℕ
unfolding parse_codes
parse_usize s = parse_codes (codes s)
