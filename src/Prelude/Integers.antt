-- ===== src/Prelude/Integers.antt =====
-- Whole numbers, over the native ℕ.
use Prim.Native.Nat.{ℕ, suc, ◌+◌, ◌-◌}
use mathlib.Core.Path.{◌≡◌}
use mathlib.Core.Bool.{Bool, true, false}
use native.Mathlib.Omega.{arith}
use biz_pilot_ai.Prelude.Tests.{ltb, leb, if◌then◌else◌}

-- `negsuc n` is −1 − n.
pub data ℤ : Type 0 where
  pos negsuc : ℕ → ℤ

-- The difference of two natural numbers.
abbrev pub minus : ℕ → ℕ → ℤ
minus a b = if leb b a then pos (a - b) else negsuc (b - suc a)

infixl 60 ◌+ℤ◌ ◌-ℤ◌
abbrev pub ◌+ℤ◌ : ℤ → ℤ → ℤ
pos a +ℤ pos b = pos (a + b)
pos a +ℤ negsuc b = minus a (suc b)
negsuc a +ℤ pos b = minus b (suc a)
negsuc a +ℤ negsuc b = negsuc (suc (a + b))

-- An integer less a natural number.
abbrev pub ◌-ℤ◌ : ℤ → ℕ → ℤ
pos a -ℤ b = minus a b
negsuc a -ℤ b = negsuc (a + b)

-- An integer below a natural number.
abbrev pub below : ℤ → ℕ → Bool
below (pos a) b = ltb a b
below (negsuc a) b = true

pub minus-minus : (a b c : ℕ) → minus a (b + c) ≡ minus a b -ℤ c
minus-minus a b c = ground arith

pub sub_sub : (z : ℤ) (b c : ℕ) → z -ℤ (b + c) ≡ z -ℤ b -ℤ c
sub_sub (pos a) b c = minus-minus a b c
sub_sub (negsuc a) b c = ground arith

pub sub_covered : (z : ℤ) (c : ℕ) → below z c ≡ false → (n : ℕ) × (z -ℤ c ≡ pos n)
sub_covered (pos a) c h = (a - c, ground arith)
sub_covered (negsuc a) c h = ground arith

pub sub_zero : (z : ℤ) → z -ℤ 0 ≡ z
sub_zero (pos a) = ground arith
sub_zero (negsuc a) = ground arith
