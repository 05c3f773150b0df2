-- ===== src/Prelude/Int.antt =====
-- Prelude.Int: Go's signed integers, as integers without bounds, over the native numbers.
use Prim.Native.Nat.{ℕ, suc, ◌+◌, ◌-◌, ◌*◌, ◌%◌, ◌^◌}
use mathlib.Core.Path.{◌≡◌}
use mathlib.Core.Logic.{◌↔◌}
use mathlib.Core.Bool.{Bool, true}
use native.Mathlib.Omega.{arith}
use flexitype.Prelude.Tests.{ltb, leb, ◌==◌, if◌then◌else◌}

-- `negsuc n` is -(n + 1).
pub data ℤ : Type 0 where
  pos : ℕ → ℤ
  negsuc : ℕ → ℤ

abbrev pub pos_part : ℤ → ℕ
pos_part (pos n) = n
pos_part (negsuc n) = 0

abbrev pub neg_part : ℤ → ℕ
neg_part (pos n) = 0
neg_part (negsuc n) = suc n

-- a - b, as an integer.
abbrev pub sub_ℕ : ℕ → ℕ → ℤ
sub_ℕ a b = if leb b a then pos (a - b) else negsuc (b - a - 1)

infixl 65 ◌+ℤ◌
infixl 70 ◌*ℤ◌
unfoldable pub ◌+ℤ◌ : ℤ → ℤ → ℤ
a +ℤ b = sub_ℕ (pos_part a + pos_part b) (neg_part a + neg_part b)

unfoldable pub ◌*ℤ◌ : ℤ → ℤ → ℤ
a *ℤ b =
    sub_ℕ (pos_part a * pos_part b + neg_part a * neg_part b)
      (pos_part a * neg_part b + neg_part a * pos_part b)

abbrev pub lt_ℤ : ℤ → ℤ → Bool
lt_ℤ a b = ltb (pos_part a + neg_part b) (pos_part b + neg_part a)

abbrev pub eq_ℤ : ℤ → ℤ → Bool
eq_ℤ a b = (pos_part a + neg_part b) == (pos_part b + neg_part a)

pub eq_ℤ_iff : (a b : ℤ) → (eq_ℤ a b ≡ true) ↔ (a ≡ b)
eq_ℤ_iff a b = ground arith

unfoldable pub neg_ℤ : ℤ → ℤ
neg_ℤ a = sub_ℕ (neg_part a) (pos_part a)

-- z mod n, for 0 < n; Go's wall clock rounds down.
unfoldable pub mod_ℤ : ℤ → ℕ → ℕ
mod_ℤ (pos m) n = m % n
mod_ℤ (negsuc m) n = n - 1 - m % n

-- An int64 of the value: two's complement.
unfoldable pub wrap64 : ℤ → ℤ
wrap64 z = let u = mod_ℤ z (2 ^ 64) in if ltb u (2 ^ 63) then pos u else negsuc (2 ^ 64 - 1 - u)

pub lt_ℤ_trans : (a b c : ℤ) → lt_ℤ a b ≡ true → lt_ℤ b c ≡ true → lt_ℤ a c ≡ true
lt_ℤ_trans a b c h k = ground arith

pub eq_ℤ_sym : (a b : ℤ) → eq_ℤ a b ≡ true → eq_ℤ b a ≡ true
eq_ℤ_sym a b h = ground arith

pub eq_ℤ_trans : (a b c : ℤ) → eq_ℤ a b ≡ true → eq_ℤ b c ≡ true → eq_ℤ a c ≡ true
eq_ℤ_trans a b c h k = ground arith
