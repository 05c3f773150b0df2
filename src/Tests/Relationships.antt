-- ===== src/Tests/Relationships.antt =====
-- Tests.Relationships: a symmetric relationship between products.
use flexitype.Prelude.{◌≡◌, refl, [], ◌∷◌, none, some}
use flexitype.Prelude.Int.{pos}
use flexitype.Bytes.{codes}
use flexitype.Domain.Errors.{ok}
use flexitype.Domain.Errors.Outcomes.{WhenOk}
use flexitype.Domain.Names.{default_tenant, is_internal_name}
use flexitype.Domain.TypeDef
use flexitype.Domain.TypeDef.{TypeDefinition}
use flexitype.Domain.Relationship.Definition.{
  Definition, Fields, NewInput, created, new, given, unset, symmetric, latest,
}
use flexitype.Domain.Relationship.Definition.Rules.{by_new, IsSided, Reachable-IsSided}
use flexitype.Domain.Relationship.Link.{LinkInput, link_under}
use flexitype.Domain.Relationship.Link.Pairs.{
  MakesLinkOf, swap_ends, link_under-swap_ends, link_under-IsLinkOf,
}
use flexitype.Tests.TypeDefs.{product}

abbrev compatible_fields : Fields
compatible_fields = record {
  display_name = codes "Compatible";
  description = [];
  parent_label = [];
  child_label = [];
  min_children = none;
  max_children = some (pos 5);
  min_parents = none;
  max_parents = none;
}

abbrev compatible_set : TypeDefinition
compatible_set = record product { id = 2; kind = TypeDef.relationship_attributes }

abbrev compatible_input : NewInput
compatible_input = record {
  tenant_id = [];
  internal_name = codes "compatible";
  kind = given symmetric;
  parent_type = some product;
  child_type = some product;
  attribute_set = some compatible_set;
  extends = none;
  parent_version_policy = unset;
  child_version_policy = unset;
  fields = compatible_fields;
}

abbrev pub compatible : Definition
compatible = record {
  id = 30;
  tenant_id = default_tenant;
  internal_name = codes "compatible";
  kind = symmetric;
  parent_type_id = 1;
  child_type_id = 1;
  attribute_set_id = 2;
  extends_id = none;
  fields = compatible_fields;
  parent_version_policy = latest;
  child_version_policy = latest;
  version = 1;
  created_at = pos 0;
  updated_at = pos 0;
  archived_at = none;
}

new-compatible :
    new 30 compatible_input (pos 0)
    ≡ ok (compatible, created 30 default_tenant (codes "compatible") 1 1 (pos 0) ∷ [])
unfolding new is_internal_name
new-compatible = refl

Reachable-IsSided_example : IsSided compatible
Reachable-IsSided_example = Reachable-IsSided compatible (
    by_new 30 compatible_input (pos 0) compatible
      (created 30 default_tenant (codes "compatible") 1 1 (pos 0) ∷ []) new-compatible)

abbrev pair : LinkInput
pair = record {
  parent_entity = codes "sku-2";
  child_entity = codes "sku-1";
  parent_version = none;
  child_version = none;
}

link_under-swap_ends_example :
    link_under 40 (swap_ends pair) (pos 1) compatible ≡ link_under 40 pair (pos 1) compatible
link_under-swap_ends_example = link_under-swap_ends 40 pair (pos 1) compatible refl

link_under-IsLinkOf_example :
    WhenOk (MakesLinkOf compatible) (link_under 40 pair (pos 1) compatible)
link_under-IsLinkOf_example = link_under-IsLinkOf 40 pair (pos 1) compatible
