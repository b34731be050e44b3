-- ===== src/Prelude/Word.antt =====
-- 64-bit machine words. A word is its bit pattern, a number below 2 ^ 64; as an `int64` a pattern
-- from 2 ^ 63 on is negative. A conversion between `int64` and `uint64` keeps the pattern.
use Prim.Native.Nat.{ℕ, ◌+◌, ◌-◌, ◌^◌, ◌%◌, ◌<◌, ◌≤◌}
use mathlib.Core.Path.{◌≡◌}
use mathlib.Core.Bool.{Bool, not}
use native.Mathlib.Omega.{arith}
use kfuse.Prelude.Tests.{ltb, leb}

abbrev pub word_mod : ℕ
word_mod = 2 ^ 64

abbrev pub int_max : ℕ
int_max = 2 ^ 63 - 1

-- `a + b` and `a - b`, wrapping.
unfoldable pub add64 : ℕ → ℕ → ℕ
add64 a b = (a + b) % word_mod

unfoldable pub sub64 : ℕ → ℕ → ℕ
sub64 a b = (a + word_mod - b) % word_mod

-- `a < b` on `int64`: moving the patterns by 2 ^ 63 turns the signed order into the unsigned one.
unfoldable pub slt : ℕ → ℕ → Bool
slt a b = ltb ((a + 2 ^ 63) % word_mod) ((b + 2 ^ 63) % word_mod)

-- `a <= b` on `int64`.
unfoldable pub sle : ℕ → ℕ → Bool
unfolding slt
sle a b = not (slt b a)

-- The word for -1.
abbrev pub minus_one : ℕ
minus_one = word_mod - 1

pub add64_lt : (a b : ℕ) → a + b < word_mod → add64 a b ≡ a + b
unfolding add64
add64_lt a b h = omega arith

pub sub64_le : (a b : ℕ) → b ≤ a → a < word_mod → sub64 a b ≡ a - b
unfolding sub64
sub64_le a b h k = omega arith

pub slt_lt : (a b : ℕ) → a < 2 ^ 63 → b < 2 ^ 63 → slt a b ≡ ltb a b
unfolding slt
slt_lt a b h k = ground arith

pub sle_le : (a b : ℕ) → a < 2 ^ 63 → b < 2 ^ 63 → sle a b ≡ leb a b
unfolding sle
sle_le a b h k = ground arith
