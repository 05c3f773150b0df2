-- ===== src/Domain/Values/Float.antt =====
-- Domain.Values.Float: a float64 as its 64 bits, with the comparisons of Go (IEEE 754).
use Prim.Native.Nat.{◌^◌}
use flexitype.Prelude.{
  ℕ, ◌-◌, ◌%◌, ◌≡◌, Bool, true, false, ◌&&◌, not, arith, ltb, ◌==◌, if◌then◌else◌,
}
use flexitype.Prelude.Int.{ℤ, pos, negsuc, lt_ℤ, eq_ℤ}

-- The bits but the sign.
magnitude : ℕ → ℕ
magnitude bits = bits % 2 ^ 63

is_nan : ℕ → Bool
unfolding magnitude
is_nan bits = ltb 0x7ff0000000000000 (magnitude bits)

-- The place of a float that is a number: both zeros at 0.
place : ℕ → ℤ
unfolding magnitude
place bits =
    if ltb bits (2 ^ 63)
    then pos (magnitude bits)
    else if magnitude bits == 0
    then pos 0
    else negsuc (magnitude bits - 1)

unfoldable pub float_lt : ℕ → ℕ → Bool
unfolding is_nan place
float_lt a b = not (is_nan a) && not (is_nan b) && lt_ℤ (place a) (place b)

unfoldable pub float_eq : ℕ → ℕ → Bool
unfolding is_nan place
float_eq a b = not (is_nan a) && not (is_nan b) && eq_ℤ (place a) (place b)

pub float_eq_sym : (a b : ℕ) → float_eq a b ≡ true → float_eq b a ≡ true
float_eq_sym a b = unfold float_eq in go (is_nan a) (is_nan b) (place a) (place b)
  where
    go :
        (m n : Bool) (x y : ℤ)
        → (not m && not n && eq_ℤ x y) ≡ true
        → (not n && not m && eq_ℤ y x) ≡ true
    go m n x y h = ground arith

pub float_eq_trans : (a b c : ℕ) → float_eq a b ≡ true → float_eq b c ≡ true → float_eq a c ≡ true
float_eq_trans a b c =
    unfold float_eq in go (is_nan a) (is_nan b) (is_nan c) (place a) (place b) (place c)
  where
    go :
        (m n o : Bool) (x y z : ℤ)
        → (not m && not n && eq_ℤ x y) ≡ true
        → (not n && not o && eq_ℤ y z) ≡ true
        → (not m && not o && eq_ℤ x z) ≡ true
    go m n o x y z h k = ground arith

-- Of two floats one is below the other, or they are equal, or one is not a number.
pub float_eq_not_lt :
    (a b : ℕ) → float_eq a b ≡ true → (float_lt a b ≡ false) × (float_lt b a ≡ false)
float_eq_not_lt a b = unfold float_eq float_lt in go (is_nan a) (is_nan b) (place a) (place b)
  where
    go :
        (m n : Bool) (x y : ℤ)
        → (not m && not n && eq_ℤ x y) ≡ true
        → ((not m && not n && lt_ℤ x y) ≡ false) × ((not n && not m && lt_ℤ y x) ≡ false)
    go m n x y h = ground arith

pub float_lt_asym : (a b : ℕ) → float_lt a b ≡ true → float_lt b a ≡ false
float_lt_asym a b = unfold float_lt in go (is_nan a) (is_nan b) (place a) (place b)
  where
    go :
        (m n : Bool) (x y : ℤ)
        → (not m && not n && lt_ℤ x y) ≡ true
        → (not n && not m && lt_ℤ y x) ≡ false
    go m n x y h = ground arith
