-- ===== src/Domain/AttributeValue.antt =====
-- Domain.AttributeValue: the AttributeValue aggregate of domain/value/aggregate.go. A method on the pointer returns the new
-- state and the events; where it returns an error it has changed nothing.
pub mod Pinned
use Prim.{tt}
use flexitype.Prelude.{
  ℕ, Bool, true, false, ◌&&◌, not, Option, none, some, List, [], ◌∷◌, ◌==◌, if◌then◌else◌,
}
use flexitype.Prelude.Int.{ℤ}
use flexitype.Bytes.{Bytes}
use flexitype.Domain.Errors.{Error, Result, ok, err, new_validation, new_archived, ◌>>=◌, ◌>>◌}
use flexitype.Domain.Names.{Ulid, TenantId, EntityId, is_empty}
use flexitype.Domain.TypeDef.{is_some}
use flexitype.Domain.Values.Value.{Platform, Value, is_zero, equal}
use flexitype.Domain.Attribute.Definition.{Definition, validate_value}

pub record Scope : Type 0 where
  pub locale : Bytes
  pub channel : Bytes

pub record AttributeValue : Type 0 where
  pub id : Ulid
  pub tenant_id : TenantId
  pub type_definition_id : Ulid
  pub attribute_definition_id : Ulid
  pub entity_id : EntityId
  pub scope : Scope
  pub value : Value
  pub definition_version : ℕ
  pub created_at : ℤ
  pub updated_at : ℤ
  pub archived_at : Option ℤ

-- `set` and `updated` carry the value; `updated` and `removed` the one before.
pub data Event : Type 0 where
  set : Ulid → TenantId → Ulid → Ulid → EntityId → Scope → Value → ℕ → ℤ → Event
  updated : Ulid → TenantId → Ulid → Ulid → EntityId → Value → Value → ℕ → ℤ → Event
  removed : Ulid → TenantId → Ulid → Ulid → EntityId → Value → ℤ → Event

abbrev pub is_archived : AttributeValue → Bool
is_archived av = is_some av.archived_at

unfoldable pub create :
    Ulid → Definition → Ulid → EntityId → Scope → Value → ℤ → AttributeValue × List Event
create id def entity_type entity_id scope v now = (
  record {
    id = id;
    tenant_id = def.tenant_id;
    type_definition_id = entity_type;
    attribute_definition_id = def.id;
    entity_id = entity_id;
    scope = scope;
    value = v;
    definition_version = def.version;
    created_at = now;
    updated_at = now;
    archived_at = none;
  },
  set id def.tenant_id entity_type def.id entity_id scope v def.version now ∷ [],
)

new_of_type :
    Platform
    → Ulid
    → Definition
    → Option Ulid
    → EntityId
    → Scope
    → Value
    → ℤ
    → Result (AttributeValue × List Event)
unfolding create validate_value
new_of_type p id def none entity_id scope v now = err (new_validation "entity type is required")
new_of_type p id def (some entity_type) entity_id scope v now =
    if is_zero v
    then err (new_validation "value is required")
    else validate_value p def v >> ok (create id def entity_type entity_id scope v now)

-- New; `id` is the fresh identifier, and no entity type stands for the zero one.
unfoldable pub new :
    Platform
    → Ulid
    → Definition
    → Option Ulid
    → EntityId
    → Scope
    → Value
    → ℤ
    → Result (AttributeValue × List Event)
unfolding new_of_type
new p id def entity_type entity_id scope v now =
    if is_empty entity_id
    then err (new_validation "entity ID is required")
    else new_of_type p id def entity_type entity_id scope v now

-- UpdateValue.
unfoldable pub update_value :
    Platform → Definition → Value → ℤ → AttributeValue → Result (AttributeValue × List Event)
unfolding validate_value equal
update_value p def v now av =
    let av' = record av { value = v; definition_version = def.version; updated_at = now } in
    if is_archived av
    then err (new_archived "attribute_value")
    else if not (def.id == av.attribute_definition_id)
    then err (new_validation "definition does not match the stored value's attribute")
    else if is_zero v
    then err (new_validation "value is required")
    else validate_value p def v
      >> (if equal p av.value v && av.definition_version == def.version
          then ok (av, [])
          else ok (
            av',
            updated av.id av.tenant_id av.type_definition_id av.attribute_definition_id av.entity_id
                  av.value v def.version now
                ∷ [],
          ))

-- Remove.
unfoldable pub remove : ℤ → AttributeValue → Result (AttributeValue × List Event)
remove now av =
    if is_archived av
    then err (new_archived "attribute_value")
    else ok (
      record av { archived_at = some now; updated_at = now },
      removed av.id av.tenant_id av.type_definition_id av.attribute_definition_id av.entity_id
            av.value now
          ∷ [],
    )
