-- ===== src/Base/Ints.antt =====
-- The values of a C `int`, over the native numbers: `negsuc n` is `-(n + 1)`.
use Prim.Native.Nat.{ℕ}
use mathlib.Core.Path.{◌≡◌, ap}
use mathlib.Core.Bool.{Bool, true, false, false≢true}
use ylem.Base.Tests.{◌==◌}
use native.Mathlib.Omega.{arith}

pub data ℤ : Type 0 where
  pos negsuc : ℕ → ℤ

infix 50 ◌==ℤ◌
abbrev pub ◌==ℤ◌ : ℤ → ℤ → Bool
pos a ==ℤ pos b = a == b
pos a ==ℤ negsuc b = false
negsuc a ==ℤ pos b = false
negsuc a ==ℤ negsuc b = a == b

pub ==ℤ-refl : (a : ℤ) → (a ==ℤ a) ≡ true
==ℤ-refl (pos a) = ground arith
==ℤ-refl (negsuc a) = ground arith

pub ==ℤ-eq : (a b : ℤ) → (a ==ℤ b) ≡ true → a ≡ b
==ℤ-eq (pos a) (pos b) h = ap pos (ground arith)
==ℤ-eq (pos a) (negsuc b) h = absurd (false≢true h)
==ℤ-eq (negsuc a) (pos b) h = absurd (false≢true h)
==ℤ-eq (negsuc a) (negsuc b) h = ap negsuc (ground arith)
