-- ===== src/Domain/Dependency/Condition.antt =====
-- Domain.Dependency.Condition: domain/dependency/condition.go. A condition keeps every field of the struct, whatever
-- its kind; a string that the source does not know is a constructor of its own.
pub mod Safe
use Prim.{tt}
use flexitype.Prelude.{Bool, true, false, ◌&&◌, ◌||◌, not, Option, none, some, List, if◌then◌else◌}
use flexitype.Bytes.{Bytes}
use flexitype.Domain.Errors.{
  Result, ok, err, new_validation, plain_error, as_validation, ◌>>=◌, ◌>>◌,
}
use flexitype.Domain.Names.{is_empty}
use flexitype.Domain.TypeDef.{is_some}
use flexitype.Domain.Values.DataType.{DataType, is_textual, is_ordered, is_temporal}
use flexitype.Domain.Values.Value.{
  Platform, Value, data_type, is_zero, has_type, equal, Order, compare, text_of,
}
use flexitype.Domain.Values.Dynamic.{Moment, DynamicValue, validate_dynamic, resolve_dynamic}
use flexitype.Domain.Attribute.Constraint.{
  none_left, all_have_type, any_equal, anchored, is_less, is_greater,
}

pub data ConditionKind : Type 0 where
  equals in_set range pattern dynamic : ConditionKind
  unknown_condition : Bytes → ConditionKind

pub data DynamicOp : Type 0 where
  before after on_or_before on_or_after : DynamicOp
  unknown_op : Bytes → DynamicOp

-- The declared type of a fact that the caller supplies.
pub data ContextType : Type 0 where
  undeclared : ContextType
  declared : DataType → ContextType
  unknown_type : Bytes → ContextType

pub record Condition : Type 0 where
  pub kind : ConditionKind
  pub value : Option Value
  pub values : List Value
  pub min : Option Value
  pub max : Option Value
  pub min_exclusive : Bool
  pub max_exclusive : Bool
  pub pattern_text : Bytes
  pub pattern_substring : Bool
  pub dynamic_value : Option DynamicValue
  pub op : DynamicOp
  pub context_key : Bytes
  pub context_type : ContextType

abbrev pub is_declared : ContextType → Bool
is_declared undeclared = false
is_declared _ = true

-- The type that the operands are checked against, where there is a context key.
unfoldable pub context_subject : ContextType → Result DataType
context_subject undeclared = err (new_validation "a context condition requires context_type")
context_subject (unknown_type t) = err (new_validation "unknown context_type")
context_subject (declared dt) = ok dt

unfoldable pub subject_type : DataType → Condition → Result DataType
unfolding context_subject
subject_type source_type c =
    if not (is_empty c.context_key)
    then context_subject c.context_type
    else if is_declared c.context_type
    then err (new_validation "context_type requires context_key")
    else ok source_type

abbrev is_range : ConditionKind → Bool
is_range range = true
is_range _ = false

abbrev pub known_op : DynamicOp → Bool
known_op (unknown_op s) = false
known_op _ = true

validate_equals : DataType → Option Value → Result (Unit {0})
validate_equals dt none = err (new_validation "equals condition requires a value")
validate_equals dt (some v) =
    if has_type dt v
    then ok tt
    else err (new_validation "equals operand type must match the source attribute type")

validate_in : DataType → List Value → Result (Unit {0})
validate_in dt vs =
    if none_left vs
    then err (new_validation "in condition requires at least one value")
    else if all_have_type dt vs
    then ok tt
    else err (new_validation "in member type must match the source attribute type")

-- A bound that is there has the type.
unfoldable pub bound_fits : DataType → Option Value → Bool
bound_fits dt none = true
bound_fits dt (some v) = has_type dt v

unfoldable pub validate_range : DataType → Condition → Result (Unit {0})
unfolding bound_fits
validate_range dt c =
    if not (is_some c.min) && not (is_some c.max)
    then err (new_validation "range condition requires min and/or max")
    else if c.min_exclusive && not (is_some c.min)
    then err (new_validation "min_exclusive requires a min bound")
    else if c.max_exclusive && not (is_some c.max)
    then err (new_validation "max_exclusive requires a max bound")
    else if not (is_ordered dt)
    then err (new_validation "range condition requires an ordered source attribute")
    else if bound_fits dt c.min && bound_fits dt c.max
    then ok tt
    else err (new_validation "range bound type must match the source attribute type")

-- The expression as it is written is what has to compile here.
validate_pattern : DataType → Option (Bytes → Bool) → Result (Unit {0})
validate_pattern dt compiled =
    if not (is_textual dt)
    then err (new_validation "pattern condition requires a textual source attribute")
    else if is_some compiled
    then ok tt
    else err (new_validation "invalid pattern")

unfoldable pub validate_dynamic_value :
    DataType → DynamicOp → Option DynamicValue → Result (Unit {0})
unfolding validate_dynamic
validate_dynamic_value dt op none =
    if not (is_temporal dt)
    then err (new_validation "dynamic condition requires a temporal source attribute")
    else err (new_validation "dynamic condition requires a dynamic value")
validate_dynamic_value dt op (some d) =
    if not (is_temporal dt)
    then err (new_validation "dynamic condition requires a temporal source attribute")
    else as_validation (validate_dynamic dt d)
      >> (if known_op op then ok tt else err (new_validation "unknown dynamic operator"))

unfoldable pub validate_kind : Platform → DataType → Condition → Result (Unit {0})
unfolding validate_equals validate_in validate_range validate_pattern validate_dynamic_value
validate_kind p dt c = elim c.kind [
  | equals ↦ validate_equals dt c.value
  | in_set ↦ validate_in dt c.values
  | range ↦ validate_range dt c
  | pattern ↦ validate_pattern dt (p.compile c.pattern_text)
  | dynamic ↦ validate_dynamic_value dt c.op c.dynamic_value
  | unknown_condition s ↦ err (new_validation "unknown condition kind")
]

unfoldable pub validate_subject : Platform → Condition → DataType → Result (Unit {0})
unfolding validate_kind
validate_subject p c dt =
    if not (is_range c.kind) && (c.min_exclusive || c.max_exclusive)
    then err (new_validation "min_exclusive and max_exclusive apply to a range condition only")
    else validate_kind p dt c

-- Condition.Validate.
unfoldable pub validate_condition : Platform → DataType → Condition → Result (Unit {0})
unfolding subject_type validate_subject
validate_condition p source_type c = subject_type source_type c >>= validate_subject p c

-- One bound of a range: whether a value within it goes on to the next one.
unfoldable pub within_bound : (Order → Bool) → Bool → Value → Option Value → Result Bool
within_bound beyond exclusive v none = ok true
within_bound beyond exclusive v (some bound) = do
  o ← compare v bound
  ok (not (beyond o || exclusive && not (is_less o || is_greater o)))

-- A value that is beyond the first bound is not compared with the second.
unfoldable pub and_then : Bool → Result Bool → Result Bool
and_then true rest = rest
and_then false rest = ok false

unfoldable pub matches_range : Value → Condition → Result Bool
unfolding within_bound and_then
matches_range v c = do
  above ← within_bound is_less c.min_exclusive v c.min
  and_then above (within_bound is_greater c.max_exclusive v c.max)

unfoldable pub matches_pattern : Bytes → Option (Bytes → Bool) → Result Bool
matches_pattern text none = err (plain_error "error parsing regexp")
matches_pattern text (some match_string) = ok (match_string text)

unfoldable pub compares : DynamicOp → Order → Result Bool
compares before o = ok (is_less o)
compares after o = ok (is_greater o)
compares on_or_before o = ok (not (is_greater o))
compares on_or_after o = ok (not (is_less o))
compares (unknown_op s) o = err (plain_error "unknown dynamic operator")

-- The type of a value that is there; Resolve refuses a value that is not temporal.
unfoldable pub resolve_for : Option DataType → Moment → DynamicValue → Result Value
unfolding resolve_dynamic
resolve_for none t d = err (plain_error "dynamic values require a temporal data type")
resolve_for (some dt) t d = resolve_dynamic dt t d

unfoldable pub matches_dynamic : Value → Moment → DynamicOp → Option DynamicValue → Result Bool
unfolding resolve_for compares
matches_dynamic v t op none = ok false
matches_dynamic v t op (some d) = do
  at ← resolve_for (data_type v) t d
  o ← compare v at
  compares op o

unfoldable pub equals_value : Platform → Value → Option Value → Bool
equals_value p v none = false
equals_value p v (some w) = equal p v w

-- Condition.Matches, at the moment `t`.
unfoldable pub condition_matches : Platform → Moment → Value → Condition → Result Bool
unfolding equals_value any_equal matches_range matches_pattern anchored matches_dynamic
condition_matches p t v c = if is_zero v then ok false else elim c.kind [
  | equals ↦ ok (equals_value p v c.value)
  | in_set ↦ ok (any_equal p v c.values)
  | range ↦ matches_range v c
  | pattern ↦ matches_pattern (text_of v) (p.compile (anchored c.pattern_text c.pattern_substring))
  | dynamic ↦ matches_dynamic v t c.op c.dynamic_value
  | unknown_condition s ↦ err (plain_error "unknown condition kind")
]
