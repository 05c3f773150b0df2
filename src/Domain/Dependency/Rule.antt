-- ===== src/Domain/Dependency/Rule.antt =====
-- Domain.Dependency.Rule: the Dependency aggregate of domain/dependency/aggregate.go.
pub mod Matching
use Prim.{tt}
use flexitype.Prelude.{
  ℕ, ◌+◌, Bool, true, false, ◌&&◌, ◌||◌, not, Option, none, some, List, [], ◌∷◌, ◌==◌,
  if◌then◌else◌,
}
use flexitype.Prelude.Int.{ℤ}
use flexitype.Bytes.{Bytes}
use flexitype.Domain.Errors.{Error, Result, ok, err, new_validation, new_archived, ◌>>=◌, ◌>>◌}
use flexitype.Domain.Names.{Ulid, TenantId, is_empty, tenant_or_default}
use flexitype.Domain.TypeDef.{is_some}
use flexitype.Domain.Values.DataType.{DataType, eq_type}
use flexitype.Domain.Values.Value.{Platform, Value, absent, has_type}
use flexitype.Domain.Values.Dynamic.{Moment}
use flexitype.Domain.Attribute.Constraint.{Constraint, validate, none_left, all_have_type}
use flexitype.Domain.Attribute.Definition.{Definition}
use flexitype.Domain.Dependency.Condition.{
  Condition, ContextType, undeclared, declared, unknown_type, validate_condition, condition_matches,
}

pub data Enforcement : Type 0 where
  unspecified on_write on_read : Enforcement
  unknown_enforcement : Bytes → Enforcement

-- Enforcement.Valid.
abbrev pub is_valid : Enforcement → Bool
is_valid (unknown_enforcement s) = false
is_valid _ = true

-- Enforcement.Or of DefaultEnforcement.
abbrev pub or_default : Enforcement → Enforcement
or_default unspecified = on_read
or_default e = e

abbrev pub is_on_write : Enforcement → Bool
is_on_write on_write = true
is_on_write _ = false

abbrev pub is_unspecified : Enforcement → Bool
is_unspecified unspecified = true
is_unspecified _ = false

pub record Effect : Type 0 where
  pub allowed_values : List Value
  pub constraints : List Constraint
  pub required : Option Bool
  pub enforce : Enforcement

-- Effect.Enforcement.
abbrev pub enforcement : Effect → Enforcement
enforcement e = or_default e.enforce

abbrev pub demands : Option Bool → Bool
demands none = false
demands (some b) = b

-- Effect.DemandsValue.
abbrev pub demands_value : Effect → Bool
demands_value e = demands e.required

unfoldable pub is_empty_effect : Effect → Bool
is_empty_effect e =
    none_left e.allowed_values && none_left e.constraints && not (is_some e.required)

pub record Dependency : Type 0 where
  pub id : Ulid
  pub tenant_id : TenantId
  pub source_id : Ulid
  pub target_id : Ulid
  pub conditions : List Condition
  pub effect : Effect
  pub description : Bytes
  pub version : ℕ
  pub created_at : ℤ
  pub updated_at : ℤ
  pub archived_at : Option ℤ

pub data Event : Type 0 where
  created : Ulid → TenantId → Ulid → Ulid → ℤ → Event
  updated : Ulid → TenantId → Ulid → Ulid → ℕ → ℤ → Event
  archived : Ulid → TenantId → Ulid → Ulid → ℤ → Event

abbrev pub is_archived : Dependency → Bool
is_archived d = is_some d.archived_at

-- The facts of the caller, by key.
abbrev pub Facts : Type 0
Facts = Bytes → Option Value

-- A fact fits the declared type, or there is none.
unfoldable pub type_fits : ContextType → Value → Bool
type_fits undeclared v = true
type_fits (declared dt) v = has_type dt v
type_fits (unknown_type s) v = false

-- One condition of a dependency. A fact that is not there, has another type or cannot be compared is no match;
-- an error on a value of the source attribute is an error.
unfoldable pub fact_matches : Platform → Moment → Condition → Option Value → Result Bool
unfolding type_fits condition_matches
fact_matches p t c none = ok false
fact_matches p t c (some v) =
    if not (type_fits c.context_type v)
    then ok false
    else elim (condition_matches p t v c) [ ok b ↦ ok b | err e ↦ ok false ]

unfoldable pub subject_matches : Platform → Moment → Facts → Value → Condition → Result Bool
unfolding fact_matches condition_matches
subject_matches p t facts v c =
    if is_empty c.context_key
    then condition_matches p t v c
    else fact_matches p t c (facts c.context_key)

unfoldable pub continue : Bool → Result Bool → Result Bool
continue true rest = rest
continue false rest = ok false

-- Dependency.matches, of the conditions.
unfoldable pub conditions_match : Platform → Moment → Facts → Value → List Condition → Result Bool
unfolding subject_matches continue
conditions_match p t facts v [] = ok true
conditions_match p t facts v (c ∷ cs) =
    let rest = conditions_match p t facts v cs in
    subject_matches p t facts v c >>= λ b. continue b rest

unfoldable pub stop : Bool → Result Bool → Result Bool
stop true rest = ok true
stop false rest = rest

unfoldable pub some_matches : Platform → Moment → Facts → List Condition → List Value → Result Bool
unfolding conditions_match stop
some_matches p t facts cs [] = ok false
some_matches p t facts cs (v ∷ vs) =
    let rest = some_matches p t facts cs vs in conditions_match p t facts v cs >>= λ b. stop b rest

-- MatchesAnyWithContext.
unfoldable pub matches_any : Platform → Moment → Facts → List Condition → List Value → Result Bool
unfolding some_matches conditions_match
matches_any p t facts cs [] = conditions_match p t facts absent cs
matches_any p t facts cs (v ∷ vs) = some_matches p t facts cs (v ∷ vs)

validate_conditions : Platform → DataType → List Condition → Result (Unit {0})
unfolding validate_condition
validate_conditions p dt [] = ok tt
validate_conditions p dt (c ∷ cs) =
    let rest = validate_conditions p dt cs in validate_condition p dt c >> rest

-- The checks of validateRule on the effect.
unfoldable pub validate_effect : Platform → Definition → Effect → Result (Unit {0})
unfolding is_empty_effect validate all_have_type
validate_effect p target e =
    if not (is_valid e.enforce)
    then err (new_validation "enforce must be on_write or on_read")
    else if not (is_unspecified e.enforce) && not (demands_value e)
    then err (new_validation "enforce applies to an effect that requires a value")
    else if is_on_write (enforcement e) && demands_value e && is_some target.fields.computed
    then err (new_validation "a computed attribute cannot be required on write")
    else if is_empty_effect e
    then err (new_validation "effect must narrow values, add constraints or override required")
    else if not (all_have_type target.data_type e.allowed_values)
    then err (new_validation "allowed value type must match the target attribute type")
    else validate p target.data_type e.constraints

unfoldable pub validate_rule :
    Platform → Definition → Definition → List Condition → Effect → Result (Unit {0})
unfolding validate_conditions validate_effect
validate_rule p source target conditions effect =
    if none_left conditions
    then err (new_validation "at least one condition is required")
    else validate_conditions p source.data_type conditions >> validate_effect p target effect

pub record NewInput : Type 0 where
  pub tenant_id : TenantId
  pub source : Option Definition
  pub target : Option Definition
  pub conditions : List Condition
  pub effect : Effect
  pub description : Bytes

create : Ulid → NewInput → ℤ → Ulid → Ulid → Dependency × List Event
create id input now source_id target_id =
    let tenant = tenant_or_default input.tenant_id in
    (
      record {
        id = id;
        tenant_id = tenant;
        source_id = source_id;
        target_id = target_id;
        conditions = input.conditions;
        effect = input.effect;
        description = input.description;
        version = 1;
        created_at = now;
        updated_at = now;
        archived_at = none;
      },
      created id tenant source_id target_id now ∷ [],
    )

new_between :
    Platform
    → Ulid
    → NewInput
    → ℤ
    → Option Definition
    → Option Definition
    → Result (Dependency × List Event)
unfolding create validate_rule
new_between p id input now (some source) (some target) =
    if source.id == target.id
    then err (new_validation "source and target attributes must differ")
    else validate_rule p source target input.conditions input.effect
      >> ok (create id input now source.id target.id)
new_between p id input now _ _ = err (new_validation "source and target attributes are required")

-- New; `id` is the fresh identifier.
unfoldable pub new : Platform → Ulid → NewInput → ℤ → Result (Dependency × List Event)
unfolding new_between
new p id input now = new_between p id input now input.source input.target

pub record UpdateInput : Type 0 where
  pub conditions : List Condition
  pub effect : Effect
  pub description : Bytes

update_between :
    Platform
    → UpdateInput
    → ℤ
    → Dependency
    → Option Definition
    → Option Definition
    → Result (Dependency × List Event)
unfolding validate_rule
update_between p input now d (some source) (some target) =
    let d' = record d {
      conditions = input.conditions;
      effect = input.effect;
      description = input.description;
      version = d.version + 1;
      updated_at = now;
    } in
    if not (source.id == d.source_id) || not (target.id == d.target_id)
    then err (new_validation "source and target must match the dependency's attributes")
    else validate_rule p source target input.conditions input.effect
      >> ok (d', updated d.id d.tenant_id d.source_id d.target_id d'.version now ∷ [])
update_between p input now d _ _ =
    err (new_validation "source and target must match the dependency's attributes")

unfoldable pub update :
    Platform
    → Option Definition
    → Option Definition
    → UpdateInput
    → ℤ
    → Dependency
    → Result (Dependency × List Event)
unfolding update_between
update p source target input now d =
    if is_archived d
    then err (new_archived "dependency")
    else update_between p input now d source target

unfoldable pub archive : ℤ → Dependency → Result (Dependency × List Event)
archive now d =
    if is_archived d
    then err (new_archived "dependency")
    else ok (
      record d { archived_at = some now; updated_at = now },
      archived d.id d.tenant_id d.source_id d.target_id now ∷ [],
    )
