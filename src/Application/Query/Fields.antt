-- ===== src/Application/Query/Fields.antt =====
-- Application.Query.Fields: the conditions on a field or on the type, as application/query/binder.go binds them.
pub mod Linked
use flexitype.Prelude.{
  ℕ, suc, Bool, true, false, ◌&&◌, ◌||◌, not, Option, none, some, List, [], ◌∷◌, ◌++◌, ◌==◌, ltb,
  if◌then◌else◌,
}
use flexitype.Bytes.{Bytes, eq_bytes}
use flexitype.Keyed
use flexitype.Keyed.{Keyed, get, put}
use flexitype.Outcome.{Outcome}
use flexitype.Domain.Errors.{Error, Result, ok, err, new_validation, ◌>>=◌}
use flexitype.Domain.Names.{Ulid}
use flexitype.Domain.TypeDef.{TypeDefinition}
use flexitype.Domain.Values.DataType.{is_textual, is_ordered}
use flexitype.Domain.Values.Value.{Value}
use flexitype.Domain.Relationship.Definition.{is_symmetric_kind}
use flexitype.Application.Access.{Access, reads_everything}
use flexitype.Application.Hierarchy.{descendants, ids}
use flexitype.Application.Query.Bound.{
  Attr, RelDef, BoundNode, BoundNodes, bound_logical, bound_not, bound_compare, bound_in,
  bound_range, bound_has, bound_string_match, bound_type, bound_matches, bound_traversal, no_bound,
  bound,
}
use flexitype.Application.Query.Scope.{
  Schema, Scope, Attrs, scope_for, link_attrs_for, traversal_scope, max_traversal_depth,
}
use flexitype.Application.Query.Literals.{Texts, Families, int_literal, coerce_literal, coerce_all}
use flexitype.Fql.Ast.{
  Node, Nodes, logical, negated, comparison, in_values, in_range, has, string_match, matches,
  traversal, no_nodes, node, AggFunc, func_none, func_min, func_max, func_count, func_length,
  FieldScope, scope_entity, scope_link, scope_type, Field, Literal, CompareOp, cmp_eq, cmp_neq,
  cmp_gt, cmp_gte, cmp_lt, cmp_lte, cmp_isa, Direction, dir_child, dir_parent, dir_any,
}
use flexitype.Fql.Query.{parse}

-- binder.
pub record Binder : Type 0 where
  pub search_index : Bool
  pub access : Access
  pub schema : Schema
  pub texts : Texts
  pub families : Families
  pub types_by_name : Keyed TypeDefinition

abbrev pub is_type_field : FieldScope → Bool
is_type_field scope_type = true
is_type_field _ = false

abbrev pub is_none : AggFunc → Bool
is_none func_none = true
is_none _ = false

abbrev pub is_any : Direction → Bool
is_any dir_any = true
is_any _ = false

-- An attribute that a field names, and whether it lives on the link.
unfoldable pub found : Bool → Option Attr → Result (Attr × Bool)
found link none = err (new_validation "unknown attribute")
found link (some a) = ok (a, link)

unfoldable pub resolve_link : Bytes → Option Attrs → Result (Attr × Bool)
unfolding found get
resolve_link name none = err (new_validation "link is only valid inside a relationship traversal")
resolve_link name (some link_attrs) = found true (get name link_attrs)

unfoldable pub resolve_entity : Bytes → Scope → Result (Attr × Bool)
unfolding found get Keyed.has
resolve_entity name s =
    if Keyed.has name s.ambiguous
    then err (new_validation "declared on both endpoints of this relationship")
    else found false (get name s.attrs)

-- resolveField.
unfoldable pub resolve_field : Field → Scope → Result (Attr × Bool)
unfolding resolve_link resolve_entity
resolve_field f s = elim f.scope [
  | scope_link ↦ resolve_link f.name s.link_attrs
  | scope_entity ↦ resolve_entity f.name s
  | scope_type ↦ resolve_entity f.name s
]

-- The operators that order.
unfoldable pub is_ordering : CompareOp → Bool
unfolding eq_bytes
is_ordering op =
    eq_bytes op cmp_gt || eq_bytes op cmp_gte || eq_bytes op cmp_lt || eq_bytes op cmp_lte

-- The value that a comparison through an aggregate takes.
unfoldable pub compared : Texts → Families → Attr → AggFunc → CompareOp → Literal → Result Value
unfolding int_literal coerce_literal is_textual is_ordered is_ordering
compared texts families attr func_length op lit =
    if not (is_textual attr.data_type)
    then err (new_validation "length() requires a textual attribute")
    else int_literal lit
compared texts families attr func_count op lit = int_literal lit
compared texts families attr func_min op lit =
    if not (is_ordered attr.data_type)
    then err (new_validation "min() requires an ordered attribute")
    else coerce_literal texts families attr lit
compared texts families attr func_max op lit =
    if not (is_ordered attr.data_type)
    then err (new_validation "max() requires an ordered attribute")
    else coerce_literal texts families attr lit
compared texts families attr func_none op lit =
    if is_ordering op && not (is_ordered attr.data_type)
    then err (new_validation "the type does not support ordering comparisons")
    else coerce_literal texts families attr lit

-- bindCompare.
unfoldable pub bind_compare :
    Binder → Scope → AggFunc → Field → CompareOp → Literal → Result BoundNode
unfolding resolve_field compared eq_bytes
bind_compare b s func field op lit = do
  (attr, link) ← resolve_field field s
  if eq_bytes op cmp_isa then err (new_validation "isa applies to the type field only") else do
    v ← compared b.texts b.families attr func op lit
    ok (bound_compare attr link func op v)

-- bindIn.
unfoldable pub bind_in : Binder → Scope → AggFunc → Field → List Literal → Result BoundNode
unfolding resolve_field coerce_all
bind_in b s func field lits = do
  (attr, link) ← resolve_field field s
  if not (is_none func)
      then err (new_validation "in does not combine with an aggregate")
      else do values ← coerce_all b.texts b.families attr lits; ok (bound_in attr link values)

-- bindRange.
unfoldable pub bind_range : Binder → Scope → AggFunc → Field → Literal → Literal → Result BoundNode
unfolding resolve_field coerce_literal is_ordered
bind_range b s func field low high = do
  (attr, link) ← resolve_field field s
  if not (is_none func)
      then err (new_validation "range does not combine with an aggregate")
      else if not (is_ordered attr.data_type)
      then err (new_validation "range() requires an ordered attribute")
      else do
        lo ← coerce_literal b.texts b.families attr low
        hi ← coerce_literal b.texts b.families attr high
        ok (bound_range attr link lo hi)

-- lookupType.
unfoldable pub named_type : Option TypeDefinition → Result TypeDefinition
named_type none = err (new_validation "unknown type")
named_type (some t) = ok t

unfoldable pub lookup_type : Keyed TypeDefinition → Literal → Result TypeDefinition
unfolding named_type get
lookup_type types_by_name lit = named_type (get lit.text types_by_name)

-- The identifiers of a type and of its descendants, read again from the repository.
unfoldable pub subtypes_of : Schema → Ulid → Result BoundNode
unfolding descendants ids
subtypes_of schema id = do
  root ← schema.types.get id
  below ← descendants schema.types root
  ok (bound_type (id ∷ ids below) false)

-- bindTypeCompare.
unfoldable pub bind_type_compare : Binder → AggFunc → CompareOp → Literal → Result BoundNode
unfolding lookup_type subtypes_of eq_bytes
bind_type_compare b func op lit =
    if not (is_none func)
    then err (new_validation "aggregate functions do not apply to the type field")
    else do
      t ← lookup_type b.types_by_name lit
      if eq_bytes op cmp_eq || eq_bytes op cmp_neq
          then ok (bound_type (t.id ∷ []) (eq_bytes op cmp_neq))
          else if eq_bytes op cmp_isa
          then subtypes_of b.schema t.id
          else err (new_validation "the type field supports =, != and isa")

unfoldable pub type_ids : Keyed TypeDefinition → List Literal → Result (List Ulid)
unfolding lookup_type
type_ids types_by_name [] = ok []
type_ids types_by_name (lit ∷ lits) = do
  t ← lookup_type types_by_name lit
  rest ← type_ids types_by_name lits
  ok (t.id ∷ rest)

-- bindTypeIn.
unfoldable pub bind_type_in : Binder → List Literal → Result BoundNode
unfolding type_ids
bind_type_in b lits = do found ← type_ids b.types_by_name lits; ok (bound_type found false)

unfoldable pub bind_has : Scope → Field → Result BoundNode
unfolding resolve_field
bind_has s field = do (attr, link) ← resolve_field field s; ok (bound_has attr link)
