-- ===== src/Domain/Values/Value/Compare.antt =====
-- Domain.Values.Value.Compare: the laws of Value.Compare, and when it succeeds.
use flexitype.Prelude.{ℕ, ◌≡◌, refl, Bool, true, false, ◌&&◌, sym, ◌∙◌, Option, none, some, arith}
use flexitype.Prelude.Int.{ℤ, eq_ℤ}
use flexitype.Domain.Errors.{Result, ok, err}
use flexitype.Domain.TypeDef.{is_some}
use flexitype.Domain.Values.DataType.{DataType, is_ordered, eq_type}
use flexitype.Domain.Values.Float.{float_lt, float_eq, float_eq_not_lt, float_lt_asym}
use flexitype.Domain.Values.Decimal.{Decimal, parse_decimal, numerator}
use flexitype.Domain.Values.Value.{
  Platform, Value, TimeKind, integer_value, float_value, decimal_value, time_value, quantity_value,
  data_type, has_type, equal, eq_decimal, eq_parsed, Order, less, same, greater, order, order_ℤ,
  compare, compare_parsed, compare_decimals, compare_times, eq_time_kind, time_type,
}

abbrev pub flip : Order → Order
flip less = greater
flip same = same
flip greater = less

order_ℤ-flip : (a b : ℤ) → order_ℤ b a ≡ flip (order_ℤ a b)
unfolding order_ℤ
order_ℤ-flip a b = ground arith

order_float-flip :
    (a b : ℕ) → order (float_lt b a) (float_lt a b) ≡ flip (order (float_lt a b) (float_lt b a))
order_float-flip a b = ground (arith, float_lt_asym a b, float_lt_asym b a)

parsed-flip :
    (d e : Option Decimal) (o : Order)
    → compare_parsed d e ≡ ok o
    → compare_parsed e d ≡ ok (flip o)
unfolding compare_parsed
parsed-flip (some d) (some e) o h = rw (order_ℤ-flip (numerator d e) (numerator e d)) (cc)
parsed-flip (some d) none o h = cc
parsed-flip none e o h = cc

times-flip :
    (b : Bool) (x y : ℤ) (o : Order)
    → compare_times b x y ≡ ok o
    → compare_times b y x ≡ ok (flip o)
unfolding compare_times
times-flip true x y o h = rw (order_ℤ-flip x y) (cc)
times-flip false x y o h = cc

kind_comm : (k l : TimeKind) → eq_time_kind k l ≡ eq_time_kind l k
unfolding eq_type
kind_comm k l = ground arith

-- Compare the other way round gives the opposite answer.
pub compare-flip : (v w : Value) (o : Order) → compare v w ≡ ok o → compare w v ≡ ok (flip o)
unfolding compare
compare-flip (integer_value a) (integer_value b) o h = ground arith
compare-flip (float_value a) (float_value b) o h = rw (order_float-flip a b) (cc)
compare-flip (quantity_value m u a) (quantity_value n x b) o h = rw (order_float-flip a b) (cc)
compare-flip (decimal_value a) (decimal_value b) o h =
    unfold compare_decimals in parsed-flip (parse_decimal a) (parse_decimal b) o h
compare-flip (time_value k a) (time_value l b) o h =
    rw (kind_comm l k) (times-flip (eq_time_kind k l) a b o h)
compare-flip _ _ o h = cc

equal_ℤ-same : (a b : ℤ) → eq_ℤ a b ≡ true → order_ℤ a b ≡ same
unfolding order_ℤ
equal_ℤ-same a b h = ground arith

float-same : (a b : ℕ) → float_eq a b ≡ true → order (float_lt a b) (float_lt b a) ≡ same
float-same a b h = ground (arith, float_eq_not_lt a b h)

parsed-same : (d e : Option Decimal) → eq_parsed d e ≡ true → compare_parsed d e ≡ ok same
unfolding eq_parsed compare_parsed
parsed-same (some d) (some e) h = rw (equal_ℤ-same (numerator d e) (numerator e d) h) refl
parsed-same (some d) none h = cc
parsed-same none e h = cc

time-same : (b : Bool) (x y : ℤ) → (b && eq_ℤ x y) ≡ true → compare_times b x y ≡ ok same
unfolding compare_times
time-same true x y h = rw (equal_ℤ-same x y h) refl
time-same false x y h = cc

ok_unique : {a b : Order} → (ok a) ≡ ok b → a ≡ b
ok_unique h = cc

-- Where two equal values can be compared, neither is less.
pub equal-compare :
    (p : Platform) (v w : Value) (o : Order) → equal p v w ≡ true → compare v w ≡ ok o → o ≡ same
unfolding compare equal
equal-compare p (integer_value a) (integer_value b) o e h = ground arith
equal-compare p (float_value a) (float_value b) o e h = ground (arith, float_eq_not_lt a b e)
equal-compare p (quantity_value m u a) (quantity_value n x b) o e h =
    ground (arith, float_eq_not_lt a b e)
equal-compare p (decimal_value a) (decimal_value b) o e h =
    let agree : compare_decimals a b ≡ ok same =
      unfold compare_decimals eq_decimal in parsed-same (parse_decimal a) (parse_decimal b) e in
    sym (ok_unique (sym agree ∙ h))
equal-compare p (time_value k a) (time_value l b) o e h =
    sym (ok_unique (sym (time-same (eq_time_kind k l) a b e) ∙ h))
equal-compare p v w o e h = cc

-- A decimal whose text is a number, or no decimal.
abbrev pub is_well_formed : Value → Bool
is_well_formed (decimal_value s) = is_some (parse_decimal s)
is_well_formed _ = true

abbrev pub compares_to : Result Order → Bool
compares_to (ok o) = true
compares_to (err e) = false

decimals_compare :
    (d e : Option Decimal)
    → is_some d ≡ true
    → is_some e ≡ true
    → compares_to (compare_parsed d e) ≡ true
unfolding compare_parsed
decimals_compare (some d) (some e) h k = refl
decimals_compare (some d) none h k = cc
decimals_compare none e h k = cc

times_compare : (b : Bool) (x y : ℤ) → b ≡ true → compares_to (compare_times b x y) ≡ true
unfolding compare_times
times_compare true x y h = refl
times_compare false x y h = cc

same_time_kind :
    (dt : DataType) (k l : TimeKind)
    → eq_type (time_type k) dt ≡ true
    → eq_type (time_type l) dt ≡ true
    → eq_time_kind k l ≡ true
unfolding eq_type
same_time_kind dt k l h j = ground arith

-- Two well-formed values of one type that is ordered can be compared.
pub compare_succeeds :
    (dt : DataType) (v w : Value)
    → is_ordered dt ≡ true
    → has_type dt v ≡ true
    → has_type dt w ≡ true
    → is_well_formed v ≡ true
    → is_well_formed w ≡ true
    → compares_to (compare v w) ≡ true
unfolding compare has_type data_type eq_type is_ordered
compare_succeeds dt (integer_value a) (integer_value b) o t u x y = refl
compare_succeeds dt (float_value a) (float_value b) o t u x y = refl
compare_succeeds dt (quantity_value m n a) (quantity_value k l b) o t u x y = refl
compare_succeeds dt (decimal_value a) (decimal_value b) o t u x y =
    unfold compare_decimals in decimals_compare (parse_decimal a) (parse_decimal b) x y
compare_succeeds dt (time_value k a) (time_value l b) o t u x y =
    times_compare (eq_time_kind k l) a b (same_time_kind dt k l t u)
compare_succeeds dt v w o t u x y = ground arith
