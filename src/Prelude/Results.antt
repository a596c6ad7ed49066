-- ===== src/Prelude/Results.antt =====
-- `Result<A, E>`, and the signed integers that the program compares.
use Prim.Native.Nat.{ℕ}
use mathlib.Core.Bool.{Bool, true, false}
use matrix_bridge_discord.Prelude.Tests.{leb}

pub data Result {ℓ κ} (E : Type ℓ) (A : Type κ) : Type (ℓ ⊔ κ) where
  ok : A → Result E A
  err : E → Result E A

-- `negsuc n` is -(n + 1).
pub data ℤ : Type 0 where
  pos : ℕ → ℤ
  negsuc : ℕ → ℤ

abbrev pub is_negative : ℤ → Bool
is_negative (pos n) = false
is_negative (negsuc n) = true

-- `n >= z` for a count `n`.
abbrev pub count_ge : ℕ → ℤ → Bool
count_ge n (pos m) = leb m n
count_ge n (negsuc m) = true
