-- ===== src/Domain/Relationship/Link.antt =====
-- Domain.Relationship.Link: the Relationship aggregate of domain/relationship/relationship.go.
pub mod Pairs
use Prim.{tt}
use flexitype.Prelude.{
  ℕ, Bool, true, false, ◌&&◌, ◌||◌, not, Option, none, some, List, [], ◌∷◌, ◌==◌, ltb,
  if◌then◌else◌,
}
use flexitype.Prelude.Int.{ℤ, pos, lt_ℤ}
use flexitype.Bytes.{Bytes, eq_bytes}
use flexitype.Domain.Errors.{Error, Result, ok, err, new_validation, new_archived, ◌>>=◌, ◌>>◌}
use flexitype.Domain.Names.{Ulid, TenantId, EntityId, is_empty}
use flexitype.Domain.TypeDef.{is_some}
use flexitype.Domain.Relationship.Definition
use flexitype.Domain.Relationship.Definition.{
  VersionPolicy, latest, pinned, is_symmetric_kind, int_ptr_eq,
}

pub record Relationship : Type 0 where
  pub id : Ulid
  pub tenant_id : TenantId
  pub definition_id : Ulid
  pub parent_entity : EntityId
  pub child_entity : EntityId
  pub parent_version : Option ℤ
  pub child_version : Option ℤ
  pub created_at : ℤ
  pub updated_at : ℤ
  pub archived_at : Option ℤ

pub record LinkInput : Type 0 where
  pub parent_entity : EntityId
  pub child_entity : EntityId
  pub parent_version : Option ℤ
  pub child_version : Option ℤ

pub data Event : Type 0 where
  linked : Ulid → TenantId → Ulid → EntityId → EntityId → Option ℤ → Option ℤ → ℤ → Event
  re_pinned : Ulid → TenantId → Ulid → Option ℤ → Option ℤ → ℤ → Event
  unlinked : Ulid → TenantId → Ulid → EntityId → EntityId → ℤ → Event

abbrev pub is_archived : Relationship → Bool
is_archived r = is_some r.archived_at

-- `<` on strings.
unfoldable pub lt_bytes : Bytes → Bytes → Bool
lt_bytes a [] = false
lt_bytes [] (d ∷ ds) = true
lt_bytes (c ∷ cs) (d ∷ ds) =
    let rest = lt_bytes cs ds in if ltb c d then true else if ltb d c then false else rest

unfoldable pub check_pin : VersionPolicy → Option ℤ → Result (Unit {0})
check_pin pinned none = err (new_validation "side must pin a type version")
check_pin pinned (some pin) =
    if lt_ℤ pin (pos 1) then err (new_validation "version pin must be at least 1") else ok tt
check_pin latest none = ok tt
check_pin latest (some pin) = err (new_validation "side follows the latest version and cannot pin")

-- The canonical order of a symmetric pair.
unfoldable pub ordered_pair : Bool → EntityId → EntityId → EntityId × EntityId
unfolding lt_bytes
ordered_pair symmetric a b = if symmetric && lt_bytes b a then (b, a) else (a, b)

create :
    Ulid → Definition.Definition → LinkInput → ℤ → EntityId × EntityId → Relationship × List Event
create id d input now ends = (
  record {
    id = id;
    tenant_id = d.tenant_id;
    definition_id = d.id;
    parent_entity = ends.0;
    child_entity = ends.1;
    parent_version = input.parent_version;
    child_version = input.child_version;
    created_at = now;
    updated_at = now;
    archived_at = none;
  },
  linked id d.tenant_id d.id ends.0 ends.1 input.parent_version input.child_version now ∷ [],
)

-- Link under a definition.
unfoldable pub link_under :
    Ulid → LinkInput → ℤ → Definition.Definition → Result (Relationship × List Event)
unfolding check_pin ordered_pair create eq_bytes
link_under id input now d =
    if Definition.is_archived d
    then err (new_archived "relationship_definition")
    else if is_empty input.parent_entity || is_empty input.child_entity
    then err (new_validation "parent and child entity IDs are required")
    else if eq_bytes input.parent_entity input.child_entity && d.parent_type_id == d.child_type_id
    then err (new_validation "an entity cannot relate to itself")
    else check_pin d.parent_version_policy input.parent_version
      >> check_pin d.child_version_policy input.child_version
      >> ok (
          create id d input now
            (ordered_pair (is_symmetric_kind d.kind) input.parent_entity input.child_entity))

-- Link; `id` is the fresh identifier.
unfoldable pub link :
    Ulid → Option Definition.Definition → LinkInput → ℤ → Result (Relationship × List Event)
unfolding link_under
link id none input now = err (new_validation "relationship definition is required")
link id (some d) input now = link_under id input now d

re_pin_under :
    Option ℤ
    → Option ℤ
    → ℤ
    → Relationship
    → Definition.Definition
    → Result (Relationship × List Event)
unfolding check_pin int_ptr_eq
re_pin_under parent child now r d =
    let r' = record r { parent_version = parent; child_version = child; updated_at = now } in
    if not (d.id == r.definition_id)
    then err (new_validation "definition does not match the relationship")
    else check_pin d.parent_version_policy parent
      >> check_pin d.child_version_policy child
      >> (if int_ptr_eq r.parent_version parent && int_ptr_eq r.child_version child
          then ok (r, [])
          else ok (r', re_pinned r.id r.tenant_id r.definition_id parent child now ∷ []))

unfoldable pub re_pin :
    Option Definition.Definition
    → Option ℤ
    → Option ℤ
    → ℤ
    → Relationship
    → Result (Relationship × List Event)
unfolding re_pin_under
re_pin d parent child now r = if is_archived r then err (new_archived "relationship") else elim d [
  | none ↦ err (new_validation "definition does not match the relationship")
  | some e ↦ re_pin_under parent child now r e
]

unfoldable pub unlink : ℤ → Relationship → Result (Relationship × List Event)
unlink now r =
    if is_archived r
    then err (new_archived "relationship")
    else ok (
      record r { archived_at = some now; updated_at = now },
      unlinked r.id r.tenant_id r.definition_id r.parent_entity r.child_entity now ∷ [],
    )
