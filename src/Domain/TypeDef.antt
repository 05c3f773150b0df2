-- ===== src/Domain/TypeDef.antt =====
-- Domain.TypeDef: the TypeDefinition aggregate of domain/typedef/aggregate.go with its events. A method on the
-- pointer returns the new state and the events; where it returns an error it has changed nothing.
pub mod Histories
use flexitype.Prelude.{
  ℕ, ◌+◌, Bool, true, false, ◌&&◌, not, Option, none, some, List, [], ◌∷◌, ◌==◌, if◌then◌else◌,
}
use flexitype.Prelude.Int.{ℤ}
use flexitype.Bytes.{Bytes, eq_bytes}
use flexitype.Domain.Errors.{Error, Result, ok, err, new_validation, new_archived, ◌>>=◌}
use flexitype.Domain.Names.{Ulid, TenantId, is_empty, tenant_or_default, is_internal_name}

pub data Kind : Type 0 where
  entity relationship_attributes : Kind

abbrev pub is_entity : Kind → Bool
is_entity entity = true
is_entity relationship_attributes = false

pub record TypeDefinition : Type 0 where
  pub id : Ulid
  pub tenant_id : TenantId
  pub kind : Kind
  pub internal_name : Bytes
  pub display_name : Bytes
  pub description : Bytes
  pub extends_id : Option Ulid
  pub version : ℕ
  pub created_at : ℤ
  pub updated_at : ℤ
  pub archived_at : Option ℤ

-- The events of domain/typedef/events.go. Each also carries the id and the tenant of the aggregate.
pub data Event : Type 0 where
  created : Ulid → TenantId → Bytes → Bytes → Option Ulid → ℤ → Event
  updated : Ulid → TenantId → Bytes → Bytes → ℕ → ℤ → Event
  archived : Ulid → TenantId → ℤ → Event
  restored : Ulid → TenantId → ℤ → Event

abbrev pub is_some {ℓ} : {A : Type ℓ} → Option A → Bool
is_some none = false
is_some (some a) = true

abbrev pub is_archived : TypeDefinition → Bool
is_archived t = is_some t.archived_at

pub record NewInput : Type 0 where
  pub tenant_id : TenantId
  pub internal_name : Bytes
  pub display_name : Bytes
  pub description : Bytes
  pub extends : Option TypeDefinition

-- The checks on the type that is extended, and its id.
check_extends : TenantId → Option TypeDefinition → Result (Option Ulid)
check_extends tenant none = ok none
check_extends tenant (some base) =
    if not (is_entity base.kind)
    then err (new_validation "only entity types can be extended")
    else if not (eq_bytes base.tenant_id tenant)
    then err (new_validation "a type can only extend a type in the same tenant")
    else if is_archived base
    then err (new_validation "cannot extend an archived type")
    else ok (some base.id)

create : Ulid → TenantId → NewInput → ℤ → Option Ulid → TypeDefinition × List Event
create id tenant input now extends_id = (
  record {
    id = id;
    tenant_id = tenant;
    kind = entity;
    internal_name = input.internal_name;
    display_name = input.display_name;
    description = input.description;
    extends_id = extends_id;
    version = 1;
    created_at = now;
    updated_at = now;
    archived_at = none;
  },
  created id tenant input.internal_name input.display_name extends_id now ∷ [],
)

-- New; `id` is the fresh identifier.
unfoldable pub new : Ulid → NewInput → ℤ → Result (TypeDefinition × List Event)
unfolding check_extends create
new id input now =
    let tenant = tenant_or_default input.tenant_id in
    if not (is_internal_name input.internal_name)
    then err (new_validation "internal name must be snake_case")
    else if is_empty input.display_name
    then err (new_validation "display name is required")
    else do
      extends_id ← check_extends tenant input.extends
      ok (create id tenant input now extends_id)

-- NewAttributeSet.
unfoldable pub new_attribute_set :
    Ulid → TenantId → Bytes → Bytes → ℤ → Result (TypeDefinition × List Event)
unfolding new
new_attribute_set id tenant internal_name display_name now = do
  (t, events) ←
      new id
        (record {
          tenant_id = tenant;
          internal_name = internal_name;
          display_name = display_name;
          description = [];
          extends = none;
        })
        now
  ok (record t { kind = relationship_attributes }, events)

unfoldable pub update : Bytes → Bytes → ℤ → TypeDefinition → Result (TypeDefinition × List Event)
update display_name description now t =
    let t' = record t {
      display_name = display_name;
      description = description;
      version = t.version + 1;
      updated_at = now;
    } in
    if is_archived t
    then err (new_archived "type_definition")
    else if is_empty display_name
    then err (new_validation "display name is required")
    else if eq_bytes t.display_name display_name && eq_bytes t.description description
    then ok (t, [])
    else ok (t', updated t.id t.tenant_id display_name description t'.version now ∷ [])

unfoldable pub archive : ℤ → TypeDefinition → Result (TypeDefinition × List Event)
archive now t =
    if is_archived t
    then err (new_archived "type_definition")
    else ok
        (record t { archived_at = some now; updated_at = now }, archived t.id t.tenant_id now ∷ [])

unfoldable pub restore : ℤ → TypeDefinition → Result (TypeDefinition × List Event)
restore now t =
    if is_archived t
    then ok (record t { archived_at = none; updated_at = now }, restored t.id t.tenant_id now ∷ [])
    else err (new_validation "type definition is not archived")
