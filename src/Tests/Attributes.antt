-- ===== src/Tests/Attributes.antt =====
-- Tests.Attributes: values, constraints and an attribute with a default.
use Prim.{tt}
use flexitype.Prelude.{◌≡◌, refl, true, false, List, [], ◌∷◌, none, some}
use flexitype.Prelude.Int.{pos, negsuc}
use flexitype.Bytes.{codes, eq_bytes, is_digit}
use flexitype.Domain.Errors.{ok}
use flexitype.Domain.Names.{default_tenant, is_internal_name}
use flexitype.Domain.Values.DataType.{DataType, eq_type, is_ordered, is_temporal}
use flexitype.Domain.Values.Value.{
  Platform, Value, integer_value, decimal_value, equal, has_type, compare,
}
use flexitype.Domain.Values.Value.Laws.{equal_trans}
use flexitype.Domain.Values.Decimal.{parse_decimal, numerator}
use flexitype.Domain.Values.Dynamic.{
  Moment, Default, DynamicValue, relative_time, days, validate_dynamic, resolve_dynamic,
  validate_default, yields, resolve_dynamic-yields,
}
use flexitype.Domain.Attribute.Constraint.{
  Constraint, min_value, max_value, validate, kind, eq_kind,
}
use flexitype.Domain.Attribute.Computed.{Formulas}
use flexitype.Domain.Attribute.Definition.{
  Definition, Event, created, NewInput, UpdateInput, new, validate_rules, check_computed,
  default_for, validate_value,
}
use flexitype.Domain.Attribute.Definition.Rules.{
  Reachable, by_new, IsValid, Reachable-IsValid, static_default_passes,
}

-- Documents are canonical as they stand, and an expression matches itself.
abbrev pub plain : Platform
plain = record { canonical_json = λ d. some d; compile = λ e. some (eq_bytes e) }

abbrev pub no_formulas : Formulas
no_formulas = λ f. none

abbrev two : Value
two = decimal_value (codes "2")

abbrev two_tenths : Value
two_tenths = decimal_value (codes "2.0")

abbrev two_zero : Value
two_zero = decimal_value (codes "2.00")

abbrev up_to_ten : List Constraint
up_to_ten = min_value (integer_value (pos 1)) ∷ max_value (integer_value (pos 10)) ∷ []

valid_up_to_ten : validate plain DataType.integer up_to_ten ≡ ok tt
unfolding validate has_type eq_type is_ordered eq_kind kind
valid_up_to_ten = refl

abbrev five : Default
five = record { static = some (integer_value (pos 5)); dynamic = none }

abbrev noon : Moment
noon = record { instant = pos 43200000000000; offset = pos 0 }

valid_five : validate_default DataType.integer five ≡ ok tt
unfolding validate_default has_type eq_type
valid_five = refl

abbrev yesterday : DynamicValue
yesterday = record { kind = relative_time; period = days; amount = negsuc 0 }

valid_yesterday : validate_dynamic DataType.date yesterday ≡ ok tt
unfolding validate_dynamic is_temporal
valid_yesterday = refl

resolve_dynamic-yields_example :
    yields DataType.date (resolve_dynamic DataType.date noon yesterday) ≡ true
resolve_dynamic-yields_example = resolve_dynamic-yields DataType.date noon yesterday valid_yesterday

abbrev rating_fields : UpdateInput
rating_fields = record {
  display_name = codes "Rating";
  description = [];
  required = true;
  multi_valued = false;
  unique = false;
  localizable = false;
  scopable = false;
  unit_family_id = [];
  display_unit = [];
  computed = none;
  constraints = up_to_ten;
  default_value = some five;
  group = [];
  sort_order = pos 0;
  help_text = [];
}

abbrev pub rating : Definition
rating = record {
  id = 7;
  tenant_id = default_tenant;
  type_definition_id = 1;
  internal_name = codes "rating";
  data_type = DataType.integer;
  fields = rating_fields;
  version = 1;
  created_at = pos 0;
  updated_at = pos 0;
  archived_at = none;
}

abbrev rating_input : NewInput
rating_input = record {
  tenant_id = [];
  type_definition_id = some 1;
  internal_name = codes "rating";
  data_type = some DataType.integer;
  fields = rating_fields;
}

abbrev rating_events : List Event
rating_events =
    created 7 default_tenant 1 (codes "rating") (codes "Rating") DataType.integer true (pos 0) ∷ []

new-rating : new plain no_formulas 7 rating_input (pos 0) ≡ ok (rating, rating_events)
unfolding new is_internal_name validate_rules check_computed eq_type is_ordered has_type compare
new-rating = refl

Reachable-rating : Reachable plain no_formulas rating
Reachable-rating = by_new 7 rating_input (pos 0) rating rating_events new-rating

Reachable-IsValid_example : IsValid plain no_formulas rating
Reachable-IsValid_example = Reachable-IsValid plain no_formulas rating Reachable-rating

static_default_passes_example :
    (default_for noon rating ≡ ok (integer_value (pos 5)))
    × (validate_value plain rating (integer_value (pos 5)) ≡ ok tt)
static_default_passes_example =
    static_default_passes plain no_formulas rating (integer_value (pos 5)) five noon
      Reachable-rating refl refl refl

equal-two : equal plain two two_tenths ≡ true
unfolding equal parse_decimal is_digit numerator
equal-two = refl

equal_tenths : equal plain two_tenths two_zero ≡ true
unfolding equal parse_decimal is_digit numerator
equal_tenths = refl

equal_trans_example : equal plain two two_zero ≡ true
equal_trans_example = equal_trans plain two two_tenths two_zero equal-two equal_tenths
