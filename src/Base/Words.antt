-- ===== src/Base/Words.antt =====
-- 64-bit integers as bit patterns, numbers below 2 ^ 64, with the wrap-around of Go.
use Prim.Native.Nat.{ℕ, ◌+◌, ◌-◌, ◌%◌, ◌^◌, ◌<◌}
use native.Mathlib.Decide.{dec_lt}

abbrev pub w64 : ℕ
w64 = 2 ^ 64

-- int64(n)
abbrev pub word : ℕ → ℕ
word n = n % w64

unfoldable pub add64 : ℕ → ℕ → ℕ
add64 a b = (a + b) % w64

unfoldable pub sub64 : ℕ → ℕ → ℕ
sub64 a b = (a + w64 - b % w64) % w64

-- The order of signed words is that of the patterns with the sign bit flipped.
abbrev pub signed : ℕ → ℕ
signed a = (a + 2 ^ 63) % w64

-- a < b on int64
abbrev pub lt64 : (a b : ℕ) → Dec (signed a < signed b)
lt64 a b = dec_lt (signed a) (signed b)
