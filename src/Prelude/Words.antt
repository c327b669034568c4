-- ===== src/Prelude/Words.antt =====
-- `u64` arithmetic as the release build does it: `+` wraps, the saturating operations stop at the
-- ends of the range (`saturating_sub` is `-` on ℕ). `i64` values are integers that are only moved.
use Prim.Native.Nat.{ℕ, ◌+◌, ◌-◌, ◌%◌, ◌^◌, min}

-- `negsuc n` is -(n + 1).
pub data ℤ : Type 0 where
  pos : ℕ → ℤ
  negsuc : ℕ → ℤ

abbrev pub u64_max : ℕ
u64_max = 2 ^ 64 - 1

-- `a + b`
abbrev pub add64 : ℕ → ℕ → ℕ
add64 a b = (a + b) % 2 ^ 64

-- `a - b`
abbrev pub sub64 : ℕ → ℕ → ℕ
sub64 a b = (a + 2 ^ 64 - b) % 2 ^ 64

-- `a.saturating_add(b)`
abbrev pub saturating_add : ℕ → ℕ → ℕ
saturating_add a b = min (a + b) u64_max
