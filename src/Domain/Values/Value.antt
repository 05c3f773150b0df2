-- ===== src/Domain/Values/Value.antt =====
-- Domain.Values.Value: the tagged union of domain/valueobjects/value.go, its equality and its order.
pub mod Laws
pub mod Compare
use flexitype.Prelude.{
  ℕ, zero, suc, ◌+◌, ◌-◌, Bool, true, false, ◌&&◌, ◌||◌, not, Option, none, some, List, [], ◌∷◌,
  String, ◌==◌, leb, if◌then◌else◌,
}
use flexitype.Prelude.Int.{ℤ, pos, lt_ℤ, eq_ℤ}
use flexitype.Bytes.{Bytes, eq_bytes}
use flexitype.Domain.Errors.{Result, ok, err, plain_error}
use flexitype.Domain.Values.DataType
use flexitype.Domain.Values.DataType.{DataType, eq_type}
use flexitype.Domain.Values.Float.{float_lt, float_eq}
use flexitype.Domain.Values.Decimal.{Decimal, parse_decimal, numerator}

-- What the domain uses of encoding/json and regexp: the canonical form of a document, and whether a text
-- has a match of an expression, for an expression that compiles.
pub record Platform : Type 0 where
  pub canonical_json : Bytes → Option Bytes
  pub compile : Bytes → Option (Bytes → Bool)

pub record MediaMeta : Type 0 where
  pub object_key : Bytes
  pub mime : Bytes
  pub size : ℤ
  pub checksum : Bytes
  pub filename : Bytes

-- The types whose payload is a text that is compared as it is, and those whose payload is an instant.
pub data TextKind : Type 0 where
  string text enum url email : TextKind

pub data TimeKind : Type 0 where
  date time date_time : TimeKind

-- One constructor for each payload; `absent` is the zero Value. A float and the base magnitude of a
-- quantity are float64 bits.
pub data Value : Type 0 where
  absent : Value
  bool_value : Bool → Value
  text_value : TextKind → Bytes → Value
  integer_value : ℤ → Value
  float_value : ℕ → Value
  decimal_value : Bytes → Value
  time_value : TimeKind → ℤ → Value
  json_value : Bytes → Value
  media_value : MediaMeta → Value
  quantity_value : Bytes → Bytes → ℕ → Value

abbrev pub text_type : TextKind → DataType
text_type string = DataType.string
text_type text = DataType.text
text_type enum = DataType.enum
text_type url = DataType.url
text_type email = DataType.email

abbrev pub time_type : TimeKind → DataType
time_type date = DataType.date
time_type time = DataType.time
time_type date_time = DataType.date_time

-- Value.DataType; the zero Value has none.
unfoldable pub data_type : Value → Option DataType
data_type absent = none
data_type (bool_value b) = some DataType.bool
data_type (text_value kind s) = some (text_type kind)
data_type (integer_value i) = some DataType.integer
data_type (float_value f) = some DataType.float
data_type (decimal_value s) = some DataType.decimal
data_type (time_value kind t) = some (time_type kind)
data_type (json_value j) = some DataType.json
data_type (media_value m) = some DataType.media
data_type (quantity_value magnitude unit base) = some DataType.quantity

unfoldable pub is_zero : Value → Bool
is_zero absent = true
is_zero _ = false

-- v.DataType() == dt.
unfoldable pub has_type : DataType → Value → Bool
unfolding data_type
has_type dt v = elim (data_type v) [ none ↦ false | some vt ↦ eq_type vt dt ]

abbrev eq_text_kind : TextKind → TextKind → Bool
eq_text_kind a b = eq_type (text_type a) (text_type b)

abbrev eq_time_kind : TimeKind → TimeKind → Bool
eq_time_kind a b = eq_type (time_type a) (time_type b)

unfoldable pub eq_bool : Bool → Bool → Bool
eq_bool a b = if a then b else not b

-- bytes.Equal of the canonical encodings, which hold the fields.
eq_media : MediaMeta → MediaMeta → Bool
unfolding eq_bytes
eq_media a b =
    eq_bytes a.object_key b.object_key
    && eq_bytes a.mime b.mime
    && eq_ℤ a.size b.size
    && eq_bytes a.checksum b.checksum
    && eq_bytes a.filename b.filename

-- Compare of two decimals that parse.
eq_parsed : Option Decimal → Option Decimal → Bool
eq_parsed (some d) (some e) = eq_ℤ (numerator d e) (numerator e d)
eq_parsed _ _ = false

eq_decimal : Bytes → Bytes → Bool
unfolding eq_parsed
eq_decimal a b = eq_parsed (parse_decimal a) (parse_decimal b)

-- equalJSON: canonical forms where both documents are valid, else the bytes.
eq_canonical : Bytes → Bytes → Option Bytes → Option Bytes → Bool
eq_canonical a b (some c) (some d) = eq_bytes c d
eq_canonical a b _ _ = eq_bytes a b

unfoldable pub equal_json : Platform → Bytes → Bytes → Bool
unfolding eq_canonical
equal_json p a b = eq_canonical a b (p.canonical_json a) (p.canonical_json b)

-- Value.Equal.
unfoldable pub equal : Platform → Value → Value → Bool
unfolding equal_json eq_decimal eq_media
equal p absent absent = true
equal p (bool_value a) (bool_value b) = eq_bool a b
equal p (text_value k a) (text_value l b) = eq_text_kind k l && eq_bytes a b
equal p (integer_value a) (integer_value b) = eq_ℤ a b
equal p (float_value a) (float_value b) = float_eq a b
equal p (decimal_value a) (decimal_value b) = eq_decimal a b
equal p (time_value k a) (time_value l b) = eq_time_kind k l && eq_ℤ a b
equal p (json_value a) (json_value b) = equal_json p a b
equal p (media_value a) (media_value b) = eq_media a b
equal p (quantity_value m u a) (quantity_value n v b) = float_eq a b
equal p _ _ = false

-- What Compare returns: -1, 0 or 1.
pub data Order : Type 0 where
  less same greater : Order

-- compareOrdered, from the two tests that it makes.
abbrev pub order : Bool → Bool → Order
order below above = if below then less else if above then greater else same

order_ℤ : ℤ → ℤ → Order
order_ℤ a b = order (lt_ℤ a b) (lt_ℤ b a)

compare_parsed : Option Decimal → Option Decimal → Result Order
unfolding order_ℤ
compare_parsed (some d) (some e) = ok (order_ℤ (numerator d e) (numerator e d))
compare_parsed _ _ = err (plain_error "corrupt decimal")

compare_decimals : Bytes → Bytes → Result Order
unfolding compare_parsed
compare_decimals a b = compare_parsed (parse_decimal a) (parse_decimal b)

compare_times : Bool → ℤ → ℤ → Result Order
unfolding order_ℤ
compare_times same_kind a b =
    if same_kind then ok (order_ℤ a b) else err (plain_error "cannot compare")

-- Value.Compare.
unfoldable pub compare : Value → Value → Result Order
unfolding compare_decimals compare_times
compare (integer_value a) (integer_value b) = ok (order (lt_ℤ a b) (lt_ℤ b a))
compare (float_value a) (float_value b) = ok (order (float_lt a b) (float_lt b a))
compare (quantity_value m u a) (quantity_value n v b) = ok (order (float_lt a b) (float_lt b a))
compare (decimal_value a) (decimal_value b) = compare_decimals a b
compare (time_value k a) (time_value l b) = compare_times (eq_time_kind k l) a b
compare _ _ = err (plain_error "cannot compare")

-- Value.Text.
unfoldable pub text_of : Value → Bytes
text_of (text_value kind s) = s
text_of (decimal_value s) = s
text_of _ = []

-- Value.Media, on the values that a media constraint meets.
unfoldable pub media_of : Value → MediaMeta
media_of (media_value m) = m
media_of _ = record { object_key = []; mime = []; size = pos 0; checksum = []; filename = [] }

within : ℕ → ℕ → ℕ → Bool
within lo hi c = leb lo c && leb c hi

-- How many bytes the rune that begins with `c` takes, and 1 for a byte that begins none.
rune_width : ℕ → Bytes → ℕ
unfolding within
rune_width c (d ∷ e ∷ f ∷ _) =
    let follows = within 0x80 0xbf in
    if within 0xc2 0xdf c && follows d
    then 2
    else if (c == 0xe0 && within 0xa0 0xbf d
          || within 0xe1 0xec c && follows d
          || c == 0xed && within 0x80 0x9f d
          || within 0xee 0xef c && follows d)
        && follows e
    then 3
    else if (c == 0xf0 && within 0x90 0xbf d
          || within 0xf1 0xf3 c && follows d
          || c == 0xf4 && within 0x80 0x8f d)
        && follows e
        && follows f
    then 4
    else 1
rune_width c (d ∷ e ∷ []) =
    let follows = within 0x80 0xbf in
    if within 0xc2 0xdf c && follows d
    then 2
    else if (c == 0xe0 && within 0xa0 0xbf d
          || within 0xe1 0xec c && follows d
          || c == 0xed && within 0x80 0x9f d
          || within 0xee 0xef c && follows d)
        && follows e
    then 3
    else 1
rune_width c (d ∷ []) = if within 0xc2 0xdf c && within 0x80 0xbf d then 2 else 1
rune_width c [] = 1

-- utf8.RuneCountInString, `skip` bytes into a rune.
rune_count : ℕ → Bytes → ℕ
unfolding rune_width
rune_count skip [] = 0
rune_count zero (c ∷ cs) = suc (rune_count (rune_width c cs - 1) cs)
rune_count (suc skip) (c ∷ cs) = rune_count skip cs

-- Value.Length.
unfoldable pub length_of : Value → ℕ
unfolding rune_count text_of
length_of v = rune_count 0 (text_of v)
