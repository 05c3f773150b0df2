-- ===== src/Domain/Attribute/Definition.antt =====
-- Domain.Attribute.Definition: the aggregate of domain/attribute/aggregate.go. A method on the pointer returns the new
-- state and the events; where it returns an error it has changed nothing.
pub mod Rules
use Prim.{tt}
use flexitype.Prelude.{
  ℕ, ◌+◌, Bool, true, false, ◌&&◌, ◌||◌, not, Option, none, some, List, [], ◌∷◌, if◌then◌else◌,
}
use flexitype.Prelude.Int.{ℤ}
use flexitype.Bytes.{Bytes}
use flexitype.Domain.Errors.{
  Error, Result, ok, err, new_validation, new_archived, as_validation, ◌>>=◌, ◌>>◌,
}
use flexitype.Domain.Names.{Ulid, TenantId, is_empty, tenant_or_default, is_internal_name}
use flexitype.Domain.TypeDef.{is_some}
use flexitype.Domain.Values.DataType
use flexitype.Domain.Values.DataType.{DataType, eq_type}
use flexitype.Domain.Values.Value.{Platform, Value, absent, is_zero, has_type}
use flexitype.Domain.Values.Dynamic.{Moment, Default, validate_default, resolve_default}
use flexitype.Domain.Attribute.Constraint.{Constraint, kind, kind_one_of, eq_kind, validate, check}
use flexitype.Domain.Attribute.Computed.{Computed, Formulas, validate_computed}

-- What an author may change.
pub record UpdateInput : Type 0 where
  pub display_name : Bytes
  pub description : Bytes
  pub required : Bool
  pub multi_valued : Bool
  pub unique : Bool
  pub localizable : Bool
  pub scopable : Bool
  pub unit_family_id : Bytes
  pub display_unit : Bytes
  pub computed : Option Computed
  pub constraints : List Constraint
  pub default_value : Option Default
  pub group : Bytes
  pub sort_order : ℤ
  pub help_text : Bytes

-- The fields of the aggregate, those that Update sets in one record.
pub record Definition : Type 0 where
  pub id : Ulid
  pub tenant_id : TenantId
  pub type_definition_id : Ulid
  pub internal_name : Bytes
  pub data_type : DataType
  pub fields : UpdateInput
  pub version : ℕ
  pub created_at : ℤ
  pub updated_at : ℤ
  pub archived_at : Option ℤ

-- No type definition stands for the zero identifier, and no data type for a string that ParseDataType refuses.
pub record NewInput : Type 0 where
  pub tenant_id : TenantId
  pub type_definition_id : Option Ulid
  pub internal_name : Bytes
  pub data_type : Option DataType
  pub fields : UpdateInput

pub data Event : Type 0 where
  created : Ulid → TenantId → Ulid → Bytes → Bytes → DataType → Bool → ℤ → Event
  updated : Ulid → TenantId → Ulid → Bytes → Bool → ℕ → ℤ → Event
  archived : Ulid → TenantId → Ulid → ℤ → Event
  restored : Ulid → TenantId → Ulid → ℤ → Event

abbrev pub is_archived : Definition → Bool
is_archived a = is_some a.archived_at

unfoldable pub has_one_of : List Constraint → Bool
unfolding eq_kind kind
has_one_of [] = false
has_one_of (c ∷ cs) = eq_kind (kind c) kind_one_of || has_one_of cs

unfoldable pub check_static : Platform → List Constraint → Option Value → Result (Unit {0})
unfolding check
check_static p cs none = ok tt
check_static p cs (some v) = elim (check p v cs) [
  | ok u ↦ ok tt
  | err e ↦ err (new_validation "default value violates constraints")
]

unfoldable pub validate_default_rule :
    Platform → DataType → List Constraint → Option Default → Result (Unit {0})
unfolding validate_default check_static
validate_default_rule p dt cs none = ok tt
validate_default_rule p dt cs (some d) =
    as_validation (validate_default dt d) >> check_static p cs d.static

-- validateRules, of the data type and the fields.
unfoldable pub validate_rules : Platform → DataType → UpdateInput → Result (Unit {0})
unfolding validate validate_default_rule has_one_of
validate_rules p dt f =
    if f.multi_valued && f.unique
    then err (new_validation "an attribute cannot be both multi-valued and unique")
    else if f.multi_valued && is_some f.computed
    then err (new_validation "a computed attribute cannot be multi-valued")
    else if eq_type dt DataType.enum && not (has_one_of f.constraints)
    then err (new_validation "enum attributes require a one_of constraint")
    else validate p dt f.constraints >> validate_default_rule p dt f.constraints f.default_value

unfoldable pub check_computed : Formulas → Option Computed → Result (Unit {0})
unfolding validate_computed
check_computed formulas none = ok tt
check_computed formulas (some c) = do refs ← validate_computed formulas c; ok tt

create : Ulid → TenantId → Ulid → DataType → NewInput → ℤ → Definition × List Event
create id tenant type_id dt input now = (
  record {
    id = id;
    tenant_id = tenant;
    type_definition_id = type_id;
    internal_name = input.internal_name;
    data_type = dt;
    fields = input.fields;
    version = 1;
    created_at = now;
    updated_at = now;
    archived_at = none;
  },
  created id tenant type_id input.internal_name input.fields.display_name dt input.fields.required
        now
      ∷ [],
)

new_typed :
    Platform
    → Formulas
    → Ulid
    → TenantId
    → Ulid
    → NewInput
    → ℤ
    → Option DataType
    → Result (Definition × List Event)
unfolding create validate_rules check_computed
new_typed p formulas id tenant type_id input now none = err (new_validation "unknown data type")
new_typed p formulas id tenant type_id input now (some dt) =
    validate_rules p dt input.fields
    >> check_computed formulas input.fields.computed
    >> ok (create id tenant type_id dt input now)

new_of_type :
    Platform → Formulas → Ulid → NewInput → ℤ → Option Ulid → Result (Definition × List Event)
unfolding new_typed
new_of_type p formulas id input now none = err (new_validation "type definition ID is required")
new_of_type p formulas id input now (some type_id) =
    if not (is_internal_name input.internal_name)
    then err (new_validation "internal name must be snake_case")
    else if is_empty input.fields.display_name
    then err (new_validation "display name is required")
    else new_typed p formulas id (tenant_or_default input.tenant_id) type_id input now
        input.data_type

-- New; `id` is the fresh identifier.
unfoldable pub new : Platform → Formulas → Ulid → NewInput → ℤ → Result (Definition × List Event)
unfolding new_of_type
new p formulas id input now = new_of_type p formulas id input now input.type_definition_id

unfoldable pub update :
    Platform → Formulas → UpdateInput → ℤ → Definition → Result (Definition × List Event)
unfolding validate_rules check_computed
update p formulas input now a =
    let a' = record a { fields = input; version = a.version + 1; updated_at = now } in
    if is_archived a
    then err (new_archived "attribute_definition")
    else if is_empty input.display_name
    then err (new_validation "display name is required")
    else validate_rules p a.data_type input
      >> check_computed formulas input.computed
      >> ok (
        a',
        updated a.id a.tenant_id a.type_definition_id input.display_name input.required a'.version
              now
            ∷ [],
      )

unfoldable pub archive : ℤ → Definition → Result (Definition × List Event)
archive now a =
    if is_archived a
    then err (new_archived "attribute_definition")
    else ok (
      record a { archived_at = some now; updated_at = now },
      archived a.id a.tenant_id a.type_definition_id now ∷ [],
    )

unfoldable pub restore : ℤ → Definition → Result (Definition × List Event)
restore now a =
    if is_archived a
    then ok (
      record a { archived_at = none; updated_at = now },
      restored a.id a.tenant_id a.type_definition_id now ∷ [],
    )
    else err (new_validation "attribute definition is not archived")

-- ValidateValue.
unfoldable pub validate_value : Platform → Definition → Value → Result (Unit {0})
unfolding check
validate_value p a v =
    if is_archived a
    then err (new_archived "attribute_definition")
    else if is_zero v
    then if a.fields.required then err (new_validation "value is required") else ok tt
    else if not (has_type a.data_type v)
    then err (new_validation "value type does not match attribute type")
    else check p v a.fields.constraints

-- DefaultFor.
unfoldable pub default_for : Moment → Definition → Result Value
unfolding resolve_default
default_for t a = elim a.fields.default_value [
  | none ↦ ok absent
  | some d ↦ resolve_default a.data_type t d
]
