-- ===== src/Tests/Dependencies.antt =====
-- Tests.Dependencies: two dependencies on one attribute.
use Prim.{tt}
use mathlib.Core.List.{Permᴰ}
use flexitype.Prelude.{◌≡◌, refl, true, false, List, [], ◌∷◌, none, some}
use flexitype.Prelude.Int.{pos}
use flexitype.Bytes.{is_digit, codes}
use flexitype.Domain.Errors.{ok}
use flexitype.Domain.Errors.Related.{Related}
use flexitype.Domain.Names.{Ulid, default_tenant}
use flexitype.Domain.Values.DataType
use flexitype.Domain.Values.DataType.{eq_type, is_ordered}
use flexitype.Domain.Values.Value.{
  decimal_value, less, same, compare, Value, integer_value, has_type, equal, is_zero,
}
use flexitype.Domain.Values.Dynamic.{Moment}
use flexitype.Domain.Attribute.Constraint.{anchored}
use flexitype.Domain.Dependency.Condition.Safe.{condition_answers, answers, bound_well_formed}
use flexitype.Domain.Values.Decimal.{parse_decimal, numerator}
use flexitype.Domain.Dependency.Condition.{
  range, validate_condition, condition_matches, Condition, equals, before, undeclared, declared,
}
use flexitype.Domain.Dependency.Rule.{Dependency, on_write, unspecified, Facts, matches_any}
use flexitype.Domain.Dependency.Effective.{EffectiveSchema, resolve}
use flexitype.Domain.Dependency.Effective.Order.{SameSchema, resolve-Perm}
use flexitype.Domain.Dependency.Effective.Meaning.{Means, matched_effects, resolve-Means}
use flexitype.Tests.Attributes.{plain, rating}

abbrev one : Value
one = integer_value (pos 1)

abbrev two : Value
two = integer_value (pos 2)

abbrev three : Value
three = integer_value (pos 3)

abbrev is_one : Condition
is_one = record {
  kind = equals;
  value = some one;
  values = [];
  min = none;
  max = none;
  min_exclusive = false;
  max_exclusive = false;
  pattern_text = [];
  pattern_substring = false;
  dynamic_value = none;
  op = before;
  context_key = [];
  context_type = undeclared;
}

abbrev tier_is_one : Condition
tier_is_one = record is_one { context_key = codes "tier"; context_type = declared DataType.integer }

abbrev small : Dependency
small = record {
  id = 20;
  tenant_id = default_tenant;
  source_id = 3;
  target_id = 7;
  conditions = is_one ∷ [];
  effect = record {
    allowed_values = one ∷ two ∷ [];
    constraints = [];
    required = some true;
    enforce = on_write;
  };
  description = [];
  version = 1;
  created_at = pos 0;
  updated_at = pos 0;
  archived_at = none;
}

abbrev at_least_two : Dependency
at_least_two = record small {
  id = 21;
  conditions = tier_is_one ∷ [];
  effect = record {
    allowed_values = two ∷ three ∷ [];
    constraints = [];
    required = some false;
    enforce = unspecified;
  };
}

abbrev noon : Moment
noon = record { instant = pos 43200000000000; offset = pos 0 }

abbrev tier_one : Facts
tier_one k = some one

abbrev sources : Ulid → List Value
sources = λ id. one ∷ []

abbrev both : List Dependency
both = small ∷ at_least_two ∷ []

abbrev schema : EffectiveSchema
schema = record {
  required = true;
  allowed_values = two ∷ [];
  constraints = rating.fields.constraints;
  restricted = true;
  required_by_dependency = true;
  required_enforcement = on_write;
}

resolve-both : resolve plain noon tier_one rating sources both ≡ ok schema
unfolding resolve is_zero equal has_type eq_type
resolve-both = refl

resolve-Means_example :
    Means plain true rating.fields.constraints
      (matched_effects plain noon tier_one 7 sources both)
      schema
resolve-Means_example = resolve-Means plain noon tier_one rating sources both schema resolve-both

resolve-Perm_example :
    Related
      (SameSchema plain)
      (resolve plain noon tier_one rating sources both)
      (resolve plain noon tier_one rating sources (at_least_two ∷ small ∷ []))
resolve-Perm_example =
    resolve-Perm plain noon tier_one rating sources both (at_least_two ∷ small ∷ [])
      (Permᴰ.swap refl refl)

one_fires : matches_any plain noon tier_one (is_one ∷ []) (one ∷ []) ≡ ok true
unfolding matches_any is_zero equal
one_fires = refl

abbrev ten : Value
ten = decimal_value (codes "10.0")

abbrev nine : Value
nine = decimal_value (codes "9")

-- Over nine, for a decimal attribute.
abbrev over_nine : Condition
over_nine = record is_one { kind = range; min = some nine; min_exclusive = true }

valid_over_nine : validate_condition plain DataType.decimal over_nine ≡ ok tt
unfolding validate_condition is_ordered has_type eq_type
valid_over_nine = refl

condition_answers_example : answers (condition_matches plain noon ten over_nine) ≡ true
unfolding has_type eq_type parse_decimal is_digit bound_well_formed anchored
condition_answers_example =
    condition_answers plain noon DataType.decimal ten over_nine refl valid_over_nine refl refl refl
      refl refl

compare-nine : compare nine ten ≡ ok less
unfolding compare parse_decimal is_digit numerator
compare-nine = refl

abbrev more_zeros : Value
more_zeros = decimal_value (codes "9.000")

equal-nine : equal plain nine more_zeros ≡ true
unfolding equal parse_decimal is_digit numerator
equal-nine = refl

compare-zeros : compare nine more_zeros ≡ ok same
unfolding compare parse_decimal is_digit numerator
compare-zeros = refl
