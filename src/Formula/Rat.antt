-- ===== src/Formula/Rat.antt =====
-- Formula.Rat: what pkg/formula uses of math/big.Rat. A rational is a fraction that is not reduced, with its sign in the
-- numerator.
use Prim.Native.Nat.{◌^◌}
use flexitype.Prelude.{
  ℕ, ◌+◌, ◌-◌, ◌*◌, Bool, ◌&&◌, Option, none, some, [], ◌∷◌, ◌++◌, ◌==◌, if◌then◌else◌, length,
}
use flexitype.Prelude.Int.{ℤ, pos, pos_part, neg_part, ◌+ℤ◌, ◌*ℤ◌, neg_ℤ, lt_ℤ, eq_ℤ}
use flexitype.Bytes.{Bytes, is_digit, span}

pub record Rat : Type 0 where
  pub num : ℤ
  pub den : ℕ

abbrev pub of_count : ℕ → Rat
of_count n = record { num = pos n; den = 1 }

unfoldable pub add : Rat → Rat → Rat
unfolding ◌+ℤ◌ ◌*ℤ◌
add a b = record { num = a.num *ℤ pos b.den +ℤ b.num *ℤ pos a.den; den = a.den * b.den }

unfoldable pub negate : Rat → Rat
unfolding neg_ℤ
negate a = record a { num = neg_ℤ a.num }

unfoldable pub sub : Rat → Rat → Rat
unfolding add negate
sub a b = add a (negate b)

unfoldable pub mul : Rat → Rat → Rat
unfolding ◌*ℤ◌
mul a b = record { num = a.num *ℤ b.num; den = a.den * b.den }

-- Sign() == 0.
unfoldable pub is_zero : Rat → Bool
is_zero a = eq_ℤ a.num (pos 0)

-- The sign of the divisor moves to the numerator.
unfoldable pub quo : Rat → Rat → Rat
unfolding ◌*ℤ◌ neg_ℤ
quo a b = record {
  num = if lt_ℤ b.num (pos 0) then neg_ℤ (a.num *ℤ pos b.den) else a.num *ℤ pos b.den;
  den = a.den * (pos_part b.num + neg_part b.num);
}

-- Cmp < 0.
unfoldable pub less : Rat → Rat → Bool
unfolding ◌*ℤ◌
less a b = lt_ℤ (a.num *ℤ pos b.den) (b.num *ℤ pos a.den)

unfoldable pub digits_value : ℕ → Bytes → ℕ
digits_value acc [] = acc
digits_value acc (c ∷ cs) = digits_value (acc * 10 + (c - b'0')) cs

unfoldable pub scaled : Bytes → Bytes → Option Rat
unfolding digits_value
scaled whole fraction =
    if length whole + length fraction == 0
    then none
    else some
        (record { num = pos (digits_value 0 (whole ++ fraction)); den = 10 ^ length fraction })

unfoldable pub after_whole : Bytes → Bytes → Option Rat
unfolding scaled span
after_whole whole [] = scaled whole []
after_whole whole (c ∷ rest) =
    let (fraction, after) = span is_digit rest in
    if c == b'.' && length after == 0 then scaled whole fraction else none

-- SetString on a text of digits and dots: digits with at most one dot among them, and one digit at least.
unfoldable pub set_string : Bytes → Option Rat
unfolding after_whole span
set_string text = let (whole, rest) = span is_digit text in after_whole whole rest
