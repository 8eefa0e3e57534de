-- ===== src/Base/Int.antt =====
-- Signed integers: the values of int32_t. `negsuc n` is -(n + 1).
use Prim.Native.Nat.{ℕ}
use mathlib.Core.Path.{◌≡◌}
use mathlib.Core.Bool.{Bool, true, false}
use native.Mathlib.Omega.{arith}
use gegelati.Base.Tests.{◌==◌}

pub data ℤ : Type 0 where
  pos : ℕ → ℤ
  negsuc : ℕ → ℤ

abbrev pub ==ℤ : ℤ → ℤ → Bool
==ℤ (pos m) (pos n) = m == n
==ℤ (negsuc m) (negsuc n) = m == n
==ℤ _ _ = false

pub ==ℤ_sound : (a b : ℤ) → ==ℤ a b ≡ true → a ≡ b
==ℤ_sound (pos m) (pos n) h = ground arith
==ℤ_sound (negsuc m) (negsuc n) h = ground arith
==ℤ_sound (pos m) (negsuc n) h = cc
==ℤ_sound (negsuc m) (pos n) h = cc
