-- ===== src/Domain/Values/Dynamic.antt =====
-- Domain.Values.Dynamic: the values that are computed at evaluation time, and the defaults, of
-- domain/valueobjects/dynamic.go.
use flexitype.Prelude.{
  ℕ, ◌*◌, ◌-◌, ◌≡◌, Bool, true, false, ◌&&◌, not, Option, none, some, String, if◌then◌else◌, arith,
}
use flexitype.Prelude.Int.{ℤ, pos, neg_ℤ, mod_ℤ, wrap64, ◌+ℤ◌, ◌*ℤ◌, eq_ℤ}
use flexitype.Domain.Errors.{Result, ok, err, plain_error}
use flexitype.Domain.Values.DataType.{DataType, is_temporal, eq_type}
use flexitype.Domain.Values.Value.{Value, time_value, has_type, data_type, TimeKind}
use Prim.{tt}

-- A time.Time: nanoseconds from the epoch, and the offset of its location from UTC, in nanoseconds.
pub record Moment : Type 0 where
  pub instant : ℤ
  pub offset : ℤ

-- A kind that the source does not know is a string of its own.
pub data DynamicKind : Type 0 where
  now today relative_time : DynamicKind
  unknown_dynamic : String → DynamicKind

pub data RelativePeriod : Type 0 where
  unset seconds minutes hours days weeks : RelativePeriod
  unknown_period : String → RelativePeriod

-- periodDurations, in nanoseconds.
unfoldable pub period_duration : RelativePeriod → Option ℕ
period_duration seconds = some 1000000000
period_duration minutes = some 60000000000
period_duration hours = some 3600000000000
period_duration days = some 86400000000000
period_duration weeks = some 604800000000000
period_duration _ = none

pub record DynamicValue : Type 0 where
  pub kind : DynamicKind
  pub period : RelativePeriod
  pub amount : ℤ

abbrev has_no_unit : RelativePeriod → Bool
has_no_unit unset = true
has_no_unit _ = false

-- `now` and `today` take neither a period nor an amount.
plain_dynamic : RelativePeriod → ℤ → Result (Unit {0})
plain_dynamic period amount =
    if has_no_unit period && eq_ℤ amount (pos 0)
    then ok tt
    else err (plain_error "does not accept period or amount")

validate_period : Option ℕ → Result (Unit {0})
validate_period none = err (plain_error "unknown relative period")
validate_period (some duration) = ok tt

validate_kind : DynamicKind → RelativePeriod → ℤ → Result (Unit {0})
unfolding plain_dynamic validate_period period_duration
validate_kind now period amount = plain_dynamic period amount
validate_kind today period amount = plain_dynamic period amount
validate_kind relative_time period amount = validate_period (period_duration period)
validate_kind (unknown_dynamic k) period amount = err (plain_error "unknown dynamic value kind")

-- DynamicValue.Validate.
unfoldable pub validate_dynamic : DataType → DynamicValue → Result (Unit {0})
unfolding validate_kind
validate_dynamic dt d =
    if not (is_temporal dt)
    then err (plain_error "dynamic values require a temporal data type")
    else validate_kind d.kind d.period d.amount

-- t.Add(duration).
add_duration : ℤ → Moment → Moment
add_duration duration t = record t { instant = t.instant +ℤ duration }

shifted : ℤ → Moment → Option ℕ → Result Moment
unfolding add_duration
shifted amount t none = err (plain_error "unknown relative period")
shifted amount t (some duration) = ok (add_duration (wrap64 (amount *ℤ pos duration)) t)

-- The instant that a dynamic value stands for. time.Duration(d.Amount) * dur is an int64.
moment_of : DynamicValue → Moment → Result Moment
unfolding shifted period_duration
moment_of d t = elim d.kind [
  | now ↦ ok t
  | today ↦ ok t
  | relative_time ↦ shifted d.amount t (period_duration d.period)
  | unknown_dynamic k ↦ err (plain_error "unknown dynamic value kind")
]

abbrev pub day_ns : ℕ
day_ns = 86400000000000

-- What the wall clock of the location shows.
wall_clock : Moment → ℤ
wall_clock t = t.instant +ℤ t.offset

-- NewDateValue: midnight, UTC, of the day that the location shows.
unfoldable pub new_date_value : Moment → Value
unfolding wall_clock
new_date_value t =
    time_value TimeKind.date (wall_clock t +ℤ neg_ℤ (pos (mod_ℤ (wall_clock t) day_ns)))

-- time.Date(0, 1, 1, 0, 0, 0, 0, time.UTC), in nanoseconds from the epoch: 719528 days before it.
unfoldable pub year_zero : ℤ
year_zero = neg_ℤ (pos (719528 * day_ns))

-- NewTimeValue: the hour, the minute and the second that the location shows.
unfoldable pub new_time_value : Moment → Value
unfolding wall_clock year_zero
new_time_value t =
    let ns = mod_ℤ (wall_clock t) day_ns in
    time_value TimeKind.time (year_zero +ℤ pos (ns - mod_ℤ (pos ns) 1000000000))

-- NewDateTimeValue.
unfoldable pub new_date_time_value : Moment → Value
new_date_time_value t = time_value TimeKind.date_time t.instant

temporal : DataType → Moment → Result Value
unfolding new_date_value new_time_value new_date_time_value
temporal DataType.date t = ok (new_date_value t)
temporal DataType.time t = ok (new_time_value t)
temporal DataType.date_time t = ok (new_date_time_value t)
temporal _ t = err (plain_error "dynamic values require a temporal data type")

temporal_of : DataType → Result Moment → Result Value
unfolding temporal
temporal_of dt (ok t) = temporal dt t
temporal_of dt (err e) = err e

-- DynamicValue.Resolve.
unfoldable pub resolve_dynamic : DataType → Moment → DynamicValue → Result Value
unfolding temporal_of moment_of
resolve_dynamic dt t d = temporal_of dt (moment_of d t)

pub record Default : Type 0 where
  pub static : Option Value
  pub dynamic : Option DynamicValue

validate_sides : DataType → Option Value → Option DynamicValue → Result (Unit {0})
unfolding validate_dynamic
validate_sides dt (some v) (some d) =
    err (plain_error "default must be static or dynamic, not both")
validate_sides dt (some v) none =
    if has_type dt v
    then ok tt
    else err (plain_error "default value type does not match attribute type")
validate_sides dt none (some d) = validate_dynamic dt d
validate_sides dt none none = err (plain_error "default must set static or dynamic")

-- Default.Validate.
unfoldable pub validate_default : DataType → Default → Result (Unit {0})
unfolding validate_sides
validate_default dt d = validate_sides dt d.static d.dynamic

resolve_sides : DataType → Moment → Option Value → Option DynamicValue → Result Value
unfolding resolve_dynamic
resolve_sides dt t (some v) d = ok v
resolve_sides dt t none (some d) = resolve_dynamic dt t d
resolve_sides dt t none none = err (plain_error "empty default")

-- Default.Resolve.
unfoldable pub resolve_default : DataType → Moment → Default → Result Value
unfolding resolve_sides
resolve_default dt t d = resolve_sides dt t d.static d.dynamic

-- The result is a value of the type.
abbrev pub yields : DataType → Result Value → Bool
yields dt (ok v) = has_type dt v
yields dt (err e) = false

-- A dynamic value that is valid for a type resolves, at every moment, to a value of that type.
pub resolve_dynamic-yields :
    (dt : DataType) (t : Moment) (d : DynamicValue)
    → validate_dynamic dt d ≡ ok tt
    → yields dt (resolve_dynamic dt t d) ≡ true
unfolding validate_dynamic resolve_dynamic validate_kind moment_of temporal_of temporal
    plain_dynamic validate_period shifted new_date_value new_time_value new_date_time_value has_type
    data_type eq_type is_temporal
resolve_dynamic-yields dt t d h = ground arith

sides-yields :
    (dt : DataType) (t : Moment) (static : Option Value) (dynamic : Option DynamicValue)
    → validate_sides dt static dynamic ≡ ok tt
    → yields dt (resolve_sides dt t static dynamic) ≡ true
unfolding validate_sides resolve_sides has_type
sides-yields dt t (some v) (some d) h = cc
sides-yields dt t (some v) none h = ground arith
sides-yields dt t none (some d) h = resolve_dynamic-yields dt t d h
sides-yields dt t none none h = cc

-- A default that is valid for a type resolves, at every moment, to a value of that type.
pub resolve_default-yields :
    (dt : DataType) (t : Moment) (d : Default)
    → validate_default dt d ≡ ok tt
    → yields dt (resolve_default dt t d) ≡ true
unfolding validate_default resolve_default
resolve_default-yields dt t d h = sides-yields dt t d.static d.dynamic h
