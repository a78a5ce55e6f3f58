-- ===== src/Prelude/Words.antt =====
-- Bits and words as native numbers, in the form that linear arithmetic reads.
use Prim.Native.Nat.{ℕ, ◌+◌, ◌-◌, ◌*◌, ◌/◌, ◌%◌, ◌^◌}
use mathlib.Core.Bool.{Bool}
use rtems_libbsdport.Prelude.Tests.{◌==◌}

-- Bit k of a word, as 0 or 1.
abbrev pub bit : ℕ → ℕ → ℕ
bit x k = x / 2 ^ k % 2

-- `x & (1 << k)` as a test.
abbrev pub is_set : ℕ → ℕ → Bool
is_set x k = bit x k == 1

-- `x | (1 << k)` and `x & ~(1 << k)`.
abbrev pub set_bit : ℕ → ℕ → ℕ
set_bit x k = x + (1 - bit x k) * 2 ^ k

abbrev pub clear_bit : ℕ → ℕ → ℕ
clear_bit x k = x - bit x k * 2 ^ k
