-- ===== src/Domain/Values/Parse/Typed.antt =====
-- Domain.Values.Parse.Typed: what ParseValue of domain/valueobjects/value.go lets through.
use flexitype.Prelude.{◌≡◌, Bool, true, ◌&&◌, not, leb, arith, length}
use flexitype.Prelude.Int.{pos, lt_ℤ}
use flexitype.Bytes.{Bytes}
use flexitype.Domain.Errors.{ok}
use flexitype.Domain.Names.{is_empty}
use flexitype.Domain.TypeDef.{is_some}
use flexitype.Domain.Values.DataType.{DataType, eq_type, index}
use flexitype.Domain.Values.Value
use flexitype.Domain.Values.Value.{Value, has_type, data_type}
use flexitype.Domain.Values.Decimal.{parse_decimal}
use flexitype.Domain.Values.Dynamic.{new_date_value, new_time_value, new_date_time_value}
use flexitype.Domain.Values.Parse.{
  Decoders, parse_value, expect, decode_number, decode_string, decimal_of, new_enum_value,
  new_decimal_value, new_url_value, new_email_value, new_media_value, new_quantity_value,
  is_absolute, is_whole_address, max_url_length, max_email_length, max_decimal_length,
}

-- The payloads that the constructors let through.
unfoldable pub is_sound : Decoders → Value → Bool
is_sound d (Value.text_value Value.enum s) = not (is_empty s)
is_sound d (Value.text_value Value.url s) = leb (length s) max_url_length && is_absolute (d.url s)
is_sound d (Value.text_value Value.email s) =
    leb (length s) max_email_length && is_whole_address s (d.address s)
is_sound d (Value.decimal_value s) = leb (length s) max_decimal_length && is_some (parse_decimal s)
is_sound d (Value.media_value m) =
    not (is_empty m.object_key) && not (is_empty m.mime) && not (lt_ℤ m.size (pos 0))
is_sound d (Value.quantity_value magnitude unit base) =
    not (is_empty magnitude) && not (is_empty unit)
is_sound d _ = true

abbrev pub Parsed : Decoders → DataType → Value → Type 0
Parsed d dt v = (has_type dt v && is_sound d v) ≡ true

pub parse_value-IsSound :
    (d : Decoders) (dt : DataType) (raw : Bytes) (v : Value)
    → parse_value d dt raw ≡ ok v
    → (has_type dt v && is_sound d v) ≡ true
unfolding parse_value expect decode_number decode_string decimal_of new_enum_value new_decimal_value
    new_url_value new_email_value new_media_value new_quantity_value new_date_value new_time_value
    new_date_time_value is_sound has_type data_type eq_type index
parse_value-IsSound d dt raw v h = ground arith
