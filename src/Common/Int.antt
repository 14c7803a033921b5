-- ===== src/Common/Int.antt =====
-- Signed 64-bit integers as the integers that they stand for, and the casts that the program makes.
use Prim.Native.Nat.{ℕ, ◌-◌, ◌%◌, suc}
use mathlib.Core.List.{◌∷◌}
use http_nu.Common.Str.{Text, decimal}

-- `negsuc n` is -(n + 1).
pub data ℤ : Type 0 where
  pos : ℕ → ℤ
  negsuc : ℕ → ℤ

-- `v as u16`: the low sixteen bits.
abbrev pub as_u16 : ℤ → ℕ
as_u16 (pos n) = n % 65536
as_u16 (negsuc n) = 65535 - n % 65536

-- `i64::to_string`.
unfoldable pub int_text : ℤ → Text
unfolding decimal
int_text (pos n) = decimal n
int_text (negsuc n) = b'-' ∷ decimal (suc n)
