-- ===== src/Shared/Int64.antt =====
-- Go's `int`, 64 bits wide, as the bit pattern below `2 ^ 64`; from `2 ^ 63` on it is negative.
use Prim.Native.Nat.{ℕ, ◌+◌, ◌*◌, ◌%◌, ◌^◌, ◌<◌}
use mathlib.Core.Bool.{Bool, ◌||◌}
use oficina_tech_ms_order_se.Shared.Tests.{leb, ◌==◌}

abbrev pub int_mod : ℕ
int_mod = 2 ^ 64

abbrev int_half : ℕ
int_half = 2 ^ 63

-- `a + b` and `a * b` wrap around.
abbrev pub add_int : ℕ → ℕ → ℕ
add_int a b = (a + b) % int_mod

abbrev pub mul_int : ℕ → ℕ → ℕ
mul_int a b = (a * b) % int_mod

-- `a <= 0` as Go reads it.
abbrev pub int_le_zero : ℕ → Bool
int_le_zero a = a == 0 || leb int_half a

-- The pattern is that of a positive `int`.
abbrev pub IsPositive : ℕ → Type 0
IsPositive a = (0 < a) × (a < int_half)
