-- ===== src/Prelude/Word.antt =====
-- `addr_t` and `size_t`: 64-bit unsigned words as native numbers, with their wrap-around.
use Prim.Native.Nat.{ℕ, ◌+◌, ◌-◌, ◌%◌, ◌^◌, ◌≤◌}
use mathlib.Core.Path.{◌≡◌}
use native.Mathlib.Omega.{arith}

abbrev pub word : ℕ
word = 2 ^ 64

-- the largest address, `UINTPTR_MAX`
abbrev pub max_addr : ℕ
max_addr = 2 ^ 64 - 1

unfoldable pub add64 : ℕ → ℕ → ℕ
add64 a b = (a + b) % word

unfoldable pub sub64 : ℕ → ℕ → ℕ
sub64 a b = (a + word - b) % word

-- The sum is exact where it does not wrap.
pub add64_exact : (a b : ℕ) → a + b ≤ max_addr → add64 a b ≡ a + b
unfolding add64
add64_exact a b h = omega arith

-- The difference is exact where it does not wrap.
pub sub64_exact : (a b : ℕ) → a ≤ max_addr → b ≤ a → sub64 a b ≡ a - b
unfolding sub64
sub64_exact a b h k = omega arith

pub ruleset words = (arith, add64_exact, sub64_exact)
