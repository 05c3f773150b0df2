-- ===== src/Domain/Values/Decimal.antt =====
-- Domain.Values.Decimal: decimals, kept as the text that decimalPattern accepts and compared as rationals.
pub mod Laws
use Prim.Native.Nat.{◌^◌}
use flexitype.Prelude.{
  ℕ, zero, suc, ◌+◌, ◌-◌, ◌*◌, ◌≡◌, Bool, true, false, ◌&&◌, ◌||◌, Option, none, some, List, [],
  ◌∷◌, ◌++◌, ◌==◌, ltb, if◌then◌else◌, length,
}
use flexitype.Prelude.Int.{ℤ, pos, sub_ℕ}
use flexitype.Bytes.{Bytes, is_digit, span}

-- magnitude / 10 ^ scale, with its sign.
pub record Decimal : Type 0 where
  pub negative : Bool
  pub magnitude : ℕ
  pub scale : ℕ

unfoldable pub digits_value : ℕ → Bytes → ℕ
digits_value acc [] = acc
digits_value acc (c ∷ cs) = digits_value (acc * 10 + (c - b'0')) cs

decimal : Bool → Bytes → Bytes → Decimal
unfolding digits_value
decimal negative whole fraction = record {
  negative = negative;
  magnitude = digits_value 0 (whole ++ fraction);
  scale = length fraction;
}

-- The fraction behind the whole digits, or the end.
decimal_fraction : Bool → Bytes → Bytes → Option Decimal
unfolding decimal span
decimal_fraction negative whole [] = some (decimal negative whole [])
decimal_fraction negative whole (c ∷ rest) =
    let (fraction, after) = span is_digit rest in
    if c == b'.' && ltb 0 (length fraction) && length after == 0
    then some (decimal negative whole fraction)
    else none

unsigned_decimal : Bool → Bytes → Option Decimal
unfolding decimal_fraction
unsigned_decimal negative s =
    let (whole, rest) = span is_digit s in
    if length whole == 0 then none else decimal_fraction negative whole rest

-- A text of the form [+-]?\d+(\.\d+)?, as the rational that it writes.
unfoldable pub parse_decimal : Bytes → Option Decimal
unfolding unsigned_decimal
parse_decimal [] = none
parse_decimal (c ∷ cs) =
    if c == b'-'
    then unsigned_decimal true cs
    else if c == b'+'
    then unsigned_decimal false cs
    else unsigned_decimal false (c ∷ cs)

signed : Bool → ℕ → ℤ
signed negative n = if negative then sub_ℕ 0 n else pos n

-- The numerator over the common denominator of two decimals.
unfoldable pub numerator : Decimal → Decimal → ℤ
unfolding signed
numerator d other = signed d.negative (d.magnitude * 10 ^ other.scale)
