-- ===== src/Domain/Values/Parse.antt =====
-- Domain.Values.Parse: ParseValue of domain/valueobjects/value.go and the constructors that check their text. What
-- encoding/json, strconv, time, net/url and net/mail read of a text is an argument.
pub mod Typed
use flexitype.Prelude.{
  ℕ, ◌≡◌, Bool, true, false, ◌&&◌, ◌||◌, not, Option, none, some, String, List, [], ◌∷◌, ◌==◌, ltb,
  if◌then◌else◌, length,
}
use flexitype.Prelude.Int.{ℤ, pos, lt_ℤ}
use flexitype.Bytes.{Bytes, eq_bytes}
use flexitype.Domain.Errors.{Result, ok, err, plain_error, ◌>>=◌}
use flexitype.Domain.Names.{is_empty}
use flexitype.Domain.Values.DataType
use flexitype.Domain.Values.DataType.{DataType}
use flexitype.Domain.Values.Value.{
  MediaMeta, Value, bool_value, text_value, integer_value, float_value, decimal_value, json_value,
  media_value, quantity_value, TextKind,
}
use flexitype.Domain.Values.Decimal.{parse_decimal}
use flexitype.Domain.Values.Dynamic.{Moment, new_date_value, new_time_value, new_date_time_value}
use flexitype.Domain.TypeDef.{is_some}

-- A document that decodes to an interface{}.
pub data Decoded : Type 0 where
  decoded_string : Bytes → Decoded
  decoded_number : Bytes → Decoded
  decoded_other : Decoded

-- What a decoder answers, none for an error: of encoding/json the first value of a text as a bool, a string, a
-- json.Number or an interface{}, the whole text compacted, and the payloads of media and quantities.
pub record Decoders : Type 0 where
  pub bool : Bytes → Option Bool
  pub string : Bytes → Option Bytes
  pub number : Bytes → Option Bytes
  pub any : Bytes → Option Decoded
  pub compact : Bytes → Option Bytes
  pub media : Bytes → Option MediaMeta
  pub quantity : Bytes → Option (Bytes × Bytes × ℕ)
  -- json.Number: Int64 and Float64.
  pub int64 : Bytes → Option ℤ
  pub float64 : Bytes → Option ℕ
  -- time.Parse with each of the three layouts.
  pub date : Bytes → Option Moment
  pub time : Bytes → Option Moment
  pub date_time : Bytes → Option Moment
  -- The scheme and the host of url.Parse, and the address of mail.ParseAddress.
  pub url : Bytes → Option (Bytes × Bytes)
  pub address : Bytes → Option Bytes

abbrev pub max_url_length : ℕ
max_url_length = 2048

abbrev pub max_email_length : ℕ
max_email_length = 320

abbrev pub max_decimal_length : ℕ
max_decimal_length = 40

-- An answer, or the error in its place.
unfoldable pub expect {ℓ} : {A : Type ℓ} → String → Option A → Result A
expect message none = err (plain_error message)
expect message (some a) = ok a

-- NewDecimalValue.
unfoldable pub new_decimal_value : Bytes → Result Value
new_decimal_value s =
    if ltb max_decimal_length (length s) || not (is_some (parse_decimal s))
    then err (plain_error "invalid decimal")
    else ok (decimal_value s)

-- The absolute URLs: those that parse with a scheme and a host.
unfoldable pub is_absolute : Option (Bytes × Bytes) → Bool
is_absolute none = false
is_absolute (some (scheme, host)) = not (is_empty scheme) && not (is_empty host)

-- NewURLValue.
unfoldable pub new_url_value : Decoders → Bytes → Result Value
unfolding is_absolute
new_url_value d s =
    if ltb max_url_length (length s)
    then err (plain_error "url exceeds 2048 characters")
    else if not (is_absolute (d.url s))
    then err (plain_error "invalid url: must be absolute")
    else ok (text_value TextKind.url s)

unfoldable pub is_whole_address : Bytes → Option Bytes → Bool
is_whole_address s none = false
is_whole_address s (some address) = eq_bytes address s

-- NewEmailValue.
unfoldable pub new_email_value : Decoders → Bytes → Result Value
unfolding is_whole_address
new_email_value d s =
    if ltb max_email_length (length s)
    then err (plain_error "email exceeds 320 characters")
    else if not (is_whole_address s (d.address s))
    then err (plain_error "invalid email")
    else ok (text_value TextKind.email s)

-- NewMediaValue, of the metadata.
unfoldable pub new_media_value : MediaMeta → Result Value
new_media_value m =
    if is_empty m.object_key
    then err (plain_error "media value requires an object_key")
    else if is_empty m.mime
    then err (plain_error "media value requires a mime type")
    else if lt_ℤ m.size (pos 0)
    then err (plain_error "media size must be non-negative")
    else ok (media_value m)

-- NewQuantityValue.
unfoldable pub new_quantity_value : Bytes → Bytes → ℕ → Result Value
new_quantity_value magnitude unit base =
    if is_empty magnitude
    then err (plain_error "quantity requires a magnitude")
    else if is_empty unit
    then err (plain_error "quantity requires a unit")
    else ok (quantity_value magnitude unit base)

-- jsonIsString.
unfoldable pub json_is_string : Bytes → Bool
json_is_string [] = false
json_is_string (c ∷ cs) =
    if c == b' ' || c == 9 || c == 10 || c == 13 then json_is_string cs else c == b'"'

-- A json.Number, but not from a quoted string.
unfoldable pub decode_number : Decoders → String → String → Bytes → Result Bytes
unfolding json_is_string expect
decode_number d quoted message raw =
    if json_is_string raw then err (plain_error quoted) else expect message (d.number raw)

unfoldable pub decode_string : Decoders → Bytes → Result Bytes
unfolding expect
decode_string d raw = expect "expected string" (d.string raw)

unfoldable pub decimal_of : Decoded → Result Value
unfolding new_decimal_value
decimal_of (decoded_string s) = new_decimal_value s
decimal_of (decoded_number s) = new_decimal_value s
decimal_of decoded_other = err (plain_error "expected decimal string or number")

unfoldable pub new_enum_value : Bytes → Result Value
new_enum_value s =
    if is_empty s
    then err (plain_error "enum value must not be empty")
    else ok (text_value TextKind.enum s)

-- ParseValue.
unfoldable pub parse_value : Decoders → DataType → Bytes → Result Value
unfolding expect decode_number decode_string decimal_of new_enum_value new_url_value new_email_value
    new_media_value new_quantity_value new_date_value new_time_value new_date_time_value
parse_value d DataType.bool raw = do b ← expect "expected boolean" (d.bool raw); ok (bool_value b)
parse_value d DataType.string raw = do s ← decode_string d raw; ok (text_value TextKind.string s)
parse_value d DataType.text raw = do s ← decode_string d raw; ok (text_value TextKind.text s)
parse_value d DataType.enum raw = do s ← decode_string d raw; new_enum_value s
parse_value d DataType.integer raw = do
  n ← decode_number d "expected integer, got a quoted string" "expected integer" raw
  i ← expect "expected integer" (d.int64 n)
  ok (integer_value i)
parse_value d DataType.float raw = do
  n ← decode_number d "expected number, got a quoted string" "expected number" raw
  f ← expect "expected number" (d.float64 n)
  ok (float_value f)
parse_value d DataType.decimal raw = do
  decoded ← expect "expected decimal" (d.any raw)
  decimal_of decoded
parse_value d DataType.date raw = do
  s ← decode_string d raw
  t ← expect "expected date" (d.date s)
  ok (new_date_value t)
parse_value d DataType.time raw = do
  s ← decode_string d raw
  t ← expect "expected time" (d.time s)
  ok (new_time_value t)
parse_value d DataType.date_time raw = do
  s ← decode_string d raw
  t ← expect "expected RFC 3339 datetime" (d.date_time s)
  ok (new_date_time_value t)
parse_value d DataType.url raw = do s ← decode_string d raw; new_url_value d s
parse_value d DataType.email raw = do s ← decode_string d raw; new_email_value d s
parse_value d DataType.json raw = do
  document ← expect "invalid json document" (d.compact raw)
  ok (json_value document)
parse_value d DataType.media raw = do
  m ← expect "decode media metadata" (d.media raw)
  new_media_value m
parse_value d DataType.quantity raw = do
  (magnitude, unit, base) ← expect "expected a quantity {magnitude, unit}" (d.quantity raw)
  new_quantity_value magnitude unit base
