-- ===== src/Prelude/Int.antt =====
-- Go's `int`, where the program only stores it and compares it with a constant.
use azldev.Prelude.Tests.{◌=?◌}
use Prim.Native.Nat.{ℕ}
use mathlib.Core.Bool.{Bool, false}

-- `negsuc n` is -(n + 1).
pub data ℤ : Type 0 where
  pos : ℕ → ℤ
  negsuc : ℕ → ℤ

-- i == n, for a constant n
abbrev pub is_pos : ℤ → ℕ → Bool
is_pos (pos m) n = m =? n
is_pos (negsuc m) n = false
