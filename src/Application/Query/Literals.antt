-- ===== src/Application/Query/Literals.antt =====
-- Application.Query.Literals: how application/query/binder.go turns the literals of a query into values. What the
-- standard library and pkg/ulid read of a text are arguments.
pub mod Typed
use Prim.Native.Nat.{◌^◌}
use flexitype.Prelude.{
  ℕ, Bool, true, false, ◌&&◌, ◌||◌, not, Option, none, some, List, [], ◌∷◌, ◌-◌, ◌==◌, ltb, leb,
  if◌then◌else◌,
}
use flexitype.Prelude.Int.{ℤ, pos, sub_ℕ}
use flexitype.Bytes.{Bytes, is_digit}
use flexitype.Domain.Errors.{Result, ok, err, new_validation, as_validation, ◌>>=◌}
use flexitype.Domain.Names.{Ulid, is_empty}
use flexitype.Domain.Values.DataType
use flexitype.Domain.Values.DataType.{DataType, eq_type}
use flexitype.Domain.Values.Value.{Value, integer_value}
use flexitype.Domain.Values.Decimal.{digits_value}
use flexitype.Domain.Values.Parse.{Decoders, parse_value, new_quantity_value}
use flexitype.Application.Unit.{Magnitudes, Family, to_base}
use flexitype.Application.Query.Bound.{Attr}
use flexitype.Fql.Ast.{Literal, LiteralKind, lit_string, lit_number, lit_bool, lit_ident}

pub record Texts : Type 0 where
  pub decoders : Decoders
  -- json.Marshal of a string.
  pub marshal_string : Bytes → Bytes
  pub parse_ulid : Bytes → Option Ulid
  pub magnitudes : Magnitudes

unfoldable pub all_digits : Bytes → Bool
unfolding is_digit
all_digits [] = true
all_digits (c ∷ cs) = is_digit c && all_digits cs

unfoldable pub int_digits : Bool → Bytes → Option ℤ
unfolding all_digits digits_value
int_digits negative s =
    let n = digits_value 0 s in
    if is_empty s || not (all_digits s)
    then none
    else if negative
    then if leb n (2 ^ 63) then some (sub_ℕ 0 n) else none
    else if ltb n (2 ^ 63)
    then some (pos n)
    else none

-- strconv.ParseInt(s, 10, 64).
unfoldable pub parse_int : Bytes → Option ℤ
unfolding int_digits
parse_int [] = none
parse_int (c ∷ cs) =
    if c == b'-'
    then int_digits true cs
    else if c == b'+'
    then int_digits false cs
    else int_digits false (c ∷ cs)

unfoldable pub whole_number : Option ℤ → Result Value
whole_number none = err (new_validation "expected a whole number")
whole_number (some n) = ok (integer_value n)

-- intLiteral.
unfoldable pub int_literal : Literal → Result Value
unfolding parse_int whole_number
int_literal lit = whole_number (parse_int lit.text)

-- The JSON that stands for a literal.
unfoldable pub raw_of : Texts → LiteralKind → Bytes → Bytes
raw_of texts lit_number text = text
raw_of texts lit_bool text = text
raw_of texts lit_string text = texts.marshal_string text
raw_of texts lit_ident text = texts.marshal_string text

-- coerce.
unfoldable pub coerce : Texts → DataType → Literal → Result Value
unfolding raw_of parse_value
coerce texts dt lit = as_validation (parse_value texts.decoders dt (raw_of texts lit.kind lit.text))

abbrev pub is_number : LiteralKind → Bool
is_number lit_number = true
is_number _ = false

-- With the unit families of the tenant, none where they are not configured.
abbrev pub Families : Type 0
Families = Option (Ulid → Result Family)

unfoldable pub in_family : Texts → (Ulid → Result Family) → Literal → Option Ulid → Result Value
unfolding to_base new_quantity_value
in_family texts families lit none = err (new_validation "invalid unit family")
in_family texts families lit (some id) = do
  family ← families id
  base ← as_validation (to_base texts.magnitudes family lit.text lit.unit)
  new_quantity_value lit.text lit.unit base

unfoldable pub with_families : Texts → Families → Bytes → Literal → Result Value
unfolding in_family
with_families texts none family_id lit =
    err (new_validation "unit families are not configured in this deployment")
with_families texts (some families) family_id lit =
    if is_empty family_id
    then err (new_validation "quantity attribute has no unit family")
    else in_family texts families lit (texts.parse_ulid family_id)

-- coerceQuantity.
unfoldable pub coerce_quantity : Texts → Families → Attr → Literal → Result Value
unfolding with_families
coerce_quantity texts families attr lit =
    if not (is_number lit.kind)
    then err (new_validation "quantity comparison expects a number with a unit")
    else if is_empty lit.unit
    then err (new_validation "quantity comparison requires a unit")
    else with_families texts families attr.fields.unit_family_id lit

-- coerceLiteral.
unfoldable pub coerce_literal : Texts → Families → Attr → Literal → Result Value
unfolding coerce_quantity coerce eq_type
coerce_literal texts families attr lit =
    if eq_type attr.data_type DataType.quantity
    then coerce_quantity texts families attr lit
    else if not (is_empty lit.unit)
    then err (new_validation "unit suffix is only valid on quantity attributes")
    else coerce texts attr.data_type lit

unfoldable pub coerce_all : Texts → Families → Attr → List Literal → Result (List Value)
unfolding coerce_literal
coerce_all texts families attr [] = ok []
coerce_all texts families attr (lit ∷ lits) = do
  v ← coerce_literal texts families attr lit
  rest ← coerce_all texts families attr lits
  ok (v ∷ rest)
