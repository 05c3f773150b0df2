-- ===== src/Domain/Relationship/Definition.antt =====
-- Domain.Relationship.Definition: domain/relationship/definition.go. A method on the pointer returns the new state and
-- the events; where it returns an error it has changed nothing.
pub mod Rules
use Prim.{tt}
use flexitype.Prelude.{
  ℕ, ◌+◌, Bool, true, false, ◌&&◌, ◌||◌, not, Option, none, some, List, [], ◌∷◌, ◌==◌,
  if◌then◌else◌,
}
use flexitype.Prelude.Int.{ℤ, eq_ℤ}
use flexitype.Bytes.{Bytes, eq_bytes}
use flexitype.Domain.Errors.{Error, Result, ok, err, new_validation, new_archived, ◌>>=◌, ◌>>◌}
use flexitype.Domain.Names.{Ulid, TenantId, is_empty, tenant_or_default, is_internal_name}
use flexitype.Domain.TypeDef
use flexitype.Domain.TypeDef.{TypeDefinition, is_some, is_entity}

pub data VersionPolicy : Type 0 where
  latest pinned : VersionPolicy

pub data Kind : Type 0 where
  directed symmetric : Kind

-- What an input holds in place of a policy or a kind: nothing, one, or a string that is none.
pub data Given {ℓ} (A : Type ℓ) : Type ℓ where
  unset : Given A
  given : A → Given A
  unknown : Bytes → Given A

abbrev pub is_pinned : VersionPolicy → Bool
is_pinned pinned = true
is_pinned latest = false

abbrev pub is_symmetric_kind : Kind → Bool
is_symmetric_kind symmetric = true
is_symmetric_kind directed = false

abbrev eq_relation_kind : Kind → Kind → Bool
eq_relation_kind a b =
    if is_symmetric_kind a then is_symmetric_kind b else not (is_symmetric_kind b)

abbrev eq_policy : VersionPolicy → VersionPolicy → Bool
eq_policy a b = if is_pinned a then is_pinned b else not (is_pinned b)

-- intPtrEq.
unfoldable pub int_ptr_eq : Option ℤ → Option ℤ → Bool
int_ptr_eq none none = true
int_ptr_eq (some a) (some b) = eq_ℤ a b
int_ptr_eq _ _ = false

-- What both inputs carry beside the policies.
pub record Fields : Type 0 where
  pub display_name : Bytes
  pub description : Bytes
  pub parent_label : Bytes
  pub child_label : Bytes
  pub min_children : Option ℤ
  pub max_children : Option ℤ
  pub min_parents : Option ℤ
  pub max_parents : Option ℤ

pub record Definition : Type 0 where
  pub id : Ulid
  pub tenant_id : TenantId
  pub internal_name : Bytes
  pub kind : Kind
  pub parent_type_id : Ulid
  pub child_type_id : Ulid
  pub attribute_set_id : Ulid
  pub extends_id : Option Ulid
  pub fields : Fields
  pub parent_version_policy : VersionPolicy
  pub child_version_policy : VersionPolicy
  pub version : ℕ
  pub created_at : ℤ
  pub updated_at : ℤ
  pub archived_at : Option ℤ

pub data Event : Type 0 where
  created : Ulid → TenantId → Bytes → Ulid → Ulid → ℤ → Event
  updated : Ulid → TenantId → ℕ → ℤ → Event
  archived : Ulid → TenantId → ℤ → Event
  restored : Ulid → TenantId → ℤ → Event

abbrev pub is_archived : Definition → Bool
is_archived d = is_some d.archived_at

pub record NewInput : Type 0 where
  pub tenant_id : TenantId
  pub internal_name : Bytes
  pub kind : Given Kind
  pub parent_type : Option TypeDefinition
  pub child_type : Option TypeDefinition
  pub attribute_set : Option TypeDefinition
  pub extends : Option Definition
  pub parent_version_policy : Given VersionPolicy
  pub child_version_policy : Given VersionPolicy
  pub fields : Fields

-- The value that an input stands for, with the one that it has when it is not set.
unfoldable pub settle {ℓ} : {A : Type ℓ} → A → Given A → Error → Result A
settle default unset e = ok default
settle default (given a) e = ok a
settle default (unknown s) e = err e

unfoldable pub settle_policies :
    VersionPolicy
    → VersionPolicy
    → Given VersionPolicy
    → Given VersionPolicy
    → Result (VersionPolicy × VersionPolicy)
unfolding settle
settle_policies parent_default child_default parent child = do
  p ← settle parent_default parent (new_validation "version policies must be latest or pinned")
  c ← settle child_default child (new_validation "version policies must be latest or pinned")
  ok (p, c)

-- What a symmetric definition may not have.
unfoldable pub check_symmetric : Kind → VersionPolicy × VersionPolicy → Fields → Result (Unit {0})
check_symmetric kind policies f =
    if not (is_symmetric_kind kind)
    then ok tt
    else if is_pinned policies.0 || is_pinned policies.1
    then err (new_validation "symmetric relationships cannot pin versions")
    else if not (is_empty f.parent_label) || not (is_empty f.child_label)
    then err (new_validation "symmetric relationships do not take side labels")
    else if is_some f.min_parents || is_some f.max_parents
    then err (new_validation "symmetric relationships take min_children/max_children only")
    else ok tt

-- The checks on the definition that is extended, and its id.
unfoldable pub check_extends : Kind → Ulid → Ulid → Option Definition → Result (Option Ulid)
check_extends kind parent_id child_id none = ok none
check_extends kind parent_id child_id (some base) =
    if is_archived base
    then err (new_validation "cannot extend an archived relationship definition")
    else if not (eq_relation_kind base.kind kind)
    then err
        (new_validation "an extending relationship definition must have the same kind as its base")
    else if not (base.parent_type_id == parent_id) || not (base.child_type_id == child_id)
    then err (
        new_validation
          "an extending relationship definition must connect the same types as its base")
    else ok (some base.id)

-- The checks on the endpoints and the attribute set.
unfoldable pub check_types : TypeDefinition → TypeDefinition → Option TypeDefinition → Result Ulid
check_types parent child attribute_set =
    if not (is_entity parent.kind) || not (is_entity child.kind)
    then err (new_validation "relationship endpoints must be entity types")
    else if TypeDef.is_archived parent || TypeDef.is_archived child
    then err (new_validation "relationship endpoints must not be archived")
    else elim attribute_set [
      | none ↦ err (new_validation "a relationship definition requires its attribute-set type")
      | some t ↦
          if is_entity t.kind
          then err (new_validation "a relationship definition requires its attribute-set type")
          else ok t.id
    ]

unfoldable pub create :
    Ulid
    → NewInput
    → ℤ
    → Ulid
    → Ulid
    → Ulid
    → Kind
    → VersionPolicy × VersionPolicy
    → Option Ulid
    → Definition × List Event
create id input now parent_id child_id set_id kind policies extends_id =
    let tenant = tenant_or_default input.tenant_id in
    (
      record {
        id = id;
        tenant_id = tenant;
        internal_name = input.internal_name;
        kind = kind;
        parent_type_id = parent_id;
        child_type_id = child_id;
        attribute_set_id = set_id;
        extends_id = extends_id;
        fields = input.fields;
        parent_version_policy = policies.0;
        child_version_policy = policies.1;
        version = 1;
        created_at = now;
        updated_at = now;
        archived_at = none;
      },
      created id tenant input.internal_name parent_id child_id now ∷ [],
    )

-- The end of NewDefinition, from the extended definition on.
unfoldable pub new_extending :
    Ulid
    → NewInput
    → ℤ
    → Ulid
    → Ulid
    → Ulid
    → Kind
    → VersionPolicy × VersionPolicy
    → Result (Definition × List Event)
unfolding check_extends create
new_extending id input now parent_id child_id set_id kind policies =
    check_extends kind parent_id child_id input.extends >>= λ extends_id.
    ok (create id input now parent_id child_id set_id kind policies extends_id)

unfoldable pub new_checked :
    Ulid
    → NewInput
    → ℤ
    → Ulid
    → Ulid
    → Ulid
    → Kind
    → VersionPolicy × VersionPolicy
    → Result (Definition × List Event)
unfolding check_symmetric new_extending
new_checked id input now parent_id child_id set_id kind policies =
    check_symmetric kind policies input.fields
    >> new_extending id input now parent_id child_id set_id kind policies

unfoldable pub new_of_kind :
    Ulid → NewInput → ℤ → Ulid → Ulid → Ulid → Kind → Result (Definition × List Event)
unfolding settle_policies new_checked
new_of_kind id input now parent_id child_id set_id kind =
    settle_policies latest latest input.parent_version_policy input.child_version_policy
    >>= new_checked id input now parent_id child_id set_id kind

unfoldable pub new_with :
    Ulid → NewInput → ℤ → Ulid → Ulid → Ulid → Result (Definition × List Event)
unfolding settle new_of_kind
new_with id input now parent_id child_id set_id =
    settle directed input.kind (new_validation "relationship kind must be directed or symmetric")
    >>= new_of_kind id input now parent_id child_id set_id

-- NewDefinition from the endpoints on.
unfoldable pub new_between :
    Ulid
    → NewInput
    → ℤ
    → Option TypeDefinition
    → Option TypeDefinition
    → Result (Definition × List Event)
unfolding check_types new_with
new_between id input now (some parent) (some child) =
    check_types parent child input.attribute_set >>= new_with id input now parent.id child.id
new_between id input now _ _ = err (new_validation "parent and child types are required")

-- NewDefinition; `id` is the fresh identifier.
unfoldable pub new : Ulid → NewInput → ℤ → Result (Definition × List Event)
unfolding new_between
new id input now =
    if not (is_internal_name input.internal_name)
    then err (new_validation "internal name must be snake_case")
    else if is_empty input.fields.display_name
    then err (new_validation "display name is required")
    else new_between id input now input.parent_type input.child_type

unfoldable pub same_fields : Fields → Fields → Bool
unfolding eq_bytes int_ptr_eq
same_fields f g =
    eq_bytes f.display_name g.display_name
    && eq_bytes f.description g.description
    && eq_bytes f.parent_label g.parent_label
    && eq_bytes f.child_label g.child_label
    && int_ptr_eq f.min_children g.min_children
    && int_ptr_eq f.max_children g.max_children
    && int_ptr_eq f.min_parents g.min_parents
    && int_ptr_eq f.max_parents g.max_parents

-- The change that Update makes, or none where nothing differs.
unfoldable pub changed :
    Fields → ℤ → Definition → VersionPolicy × VersionPolicy → Definition × List Event
unfolding same_fields
changed f now d policies =
    let d' = record d {
      fields = f;
      parent_version_policy = policies.0;
      child_version_policy = policies.1;
      version = d.version + 1;
      updated_at = now;
    } in
    if same_fields d.fields f
      && eq_policy d.parent_version_policy policies.0
      && eq_policy d.child_version_policy policies.1
    then (d, [])
    else (d', updated d.id d.tenant_id d'.version now ∷ [])

unfoldable pub update_checked :
    Fields → ℤ → Definition → VersionPolicy × VersionPolicy → Result (Definition × List Event)
unfolding check_symmetric changed
update_checked f now d policies = check_symmetric d.kind policies f >> ok (changed f now d policies)

unfoldable pub update :
    Fields
    → Given VersionPolicy
    → Given VersionPolicy
    → ℤ
    → Definition
    → Result (Definition × List Event)
unfolding settle_policies update_checked
update f parent child now d =
    if is_archived d
    then err (new_archived "relationship_definition")
    else if is_empty f.display_name
    then err (new_validation "display name is required")
    else settle_policies d.parent_version_policy d.child_version_policy parent child
      >>= update_checked f now d

unfoldable pub archive : ℤ → Definition → Result (Definition × List Event)
archive now d =
    if is_archived d
    then err (new_archived "relationship_definition")
    else ok
        (record d { archived_at = some now; updated_at = now }, archived d.id d.tenant_id now ∷ [])

unfoldable pub restore : ℤ → Definition → Result (Definition × List Event)
restore now d =
    if is_archived d
    then ok (record d { archived_at = none; updated_at = now }, restored d.id d.tenant_id now ∷ [])
    else err (new_validation "relationship definition is not archived")
