-- ===== src/Application/Query/Binder/Shape.antt =====
-- Application.Query.Binder.Shape: what the compiler and the principal rely on in a tree that
-- application/query/binder.go has bound.
use flexitype.Prelude.{
  ◌≤◌, ℕ, zero, suc, ◌≡◌, Bool, true, false, ◌&&◌, ◌||◌, not, Option, none, some, List, [], ◌∷◌,
  arith,
}
use flexitype.Bytes.{Bytes, eq_bytes}
use flexitype.Domain.Values.DataType.{DataType, is_textual, is_ordered}
use flexitype.Domain.Values.Value.{Value, has_type}
use flexitype.Domain.Relationship.Definition.{is_symmetric_kind}
use flexitype.Application.Access.{Access, can_read, level, perm_none}
use flexitype.Application.Query.Bound.{
  crossings, crossings_all, Attr, BoundNode, BoundNodes, bound_logical, bound_not, bound_compare,
  bound_in, bound_range, bound_has, bound_string_match, bound_type, bound_matches, bound_traversal,
  no_bound, bound,
}
use flexitype.Application.Query.Scope.{is_visible}
use flexitype.Application.Query.Literals.Typed.{all_typed}
use flexitype.Application.Query.Fields.{is_any, is_ordering, type_ids}
use flexitype.Fql.Ast.{
  AggFunc, func_none, func_min, func_max, func_count, func_length, CompareOp, cmp_isa,
}

-- The aggregate, the operator and the value of a comparison fit the attribute.
unfoldable pub fits : Attr → AggFunc → CompareOp → Value → Bool
unfolding is_ordering has_type
fits attr func_length op v = is_textual attr.data_type && has_type DataType.integer v
fits attr func_count op v = has_type DataType.integer v
fits attr func_min op v = is_ordered attr.data_type && has_type attr.data_type v
fits attr func_max op v = is_ordered attr.data_type && has_type attr.data_type v
fits attr func_none op v =
    (not (is_ordering op) || is_ordered attr.data_type) && has_type attr.data_type v

unfoldable pub all_readable : Access → List Bytes → Bool
unfolding can_read
all_readable access [] = true
all_readable access (n ∷ ns) = can_read access n && all_readable access ns

-- A full-text search is over readable names, or it is over everything and the attribute `name` has not the level "none".
unfoldable pub searches : Access → Bytes → Option (List Bytes) → Bool
unfolding all_readable level
searches access name none = access.admin || not (eq_bytes (level access name) perm_none)
searches access name (some names) = all_readable access names

-- What the compiler and the principal rely on, with an attribute `name`, for a tree below which `left` traversals may nest.
unfoldable mutual
  pub is_bound : Access → Bytes → ℕ → BoundNode → Bool
  is_bound access name left (bound_logical op exprs) = are_bound access name left exprs
  is_bound access name left (bound_not expr) = is_bound access name left expr
  is_bound access name left (bound_compare attr link func op value) =
      is_visible access attr && not (eq_bytes op cmp_isa) && fits attr func op value
  is_bound access name left (bound_in attr link values) =
      is_visible access attr && all_typed attr.data_type values
  is_bound access name left (bound_range attr link lo hi) =
      is_visible access attr
      && is_ordered attr.data_type
      && has_type attr.data_type lo
      && has_type attr.data_type hi
  is_bound access name left (bound_has attr link) = is_visible access attr
  is_bound access name left (bound_string_match attr link kind value) =
      is_visible access attr && is_textual attr.data_type
  is_bound access name left (bound_type type_ids negate) = true
  is_bound access name left (bound_matches query names) = searches access name names
  is_bound access name zero (bound_traversal def direction inner) = false
  is_bound access name (suc left) (bound_traversal def direction inner) =
      (not (is_symmetric_kind def.kind) || is_any direction) && is_bound access name left inner

  pub are_bound : Access → Bytes → ℕ → BoundNodes → Bool
  are_bound access name left no_bound = true
  are_bound access name left (bound n ns) =
      is_bound access name left n && are_bound access name left ns

-- Traversals nest at most as deep as a bound tree allows.
mutual
  unfolding is_bound crossings

  pub crossings-IsBound :
      (access : Access) (name : Bytes) (left : ℕ) (n : BoundNode)
      → is_bound access name left n ≡ true
      → crossings n ≤ left
  crossings-IsBound access name left (bound_logical op exprs) h =
      crossings_all-AreBound access name left exprs h
  crossings-IsBound access name left (bound_not expr) h = crossings-IsBound access name left expr h
  crossings-IsBound access name left (bound_compare attr link func op value) h = omega arith
  crossings-IsBound access name left (bound_in attr link values) h = omega arith
  crossings-IsBound access name left (bound_range attr link lo hi) h = omega arith
  crossings-IsBound access name left (bound_has attr link) h = omega arith
  crossings-IsBound access name left (bound_string_match attr link kind value) h = omega arith
  crossings-IsBound access name left (bound_type type_ids negate) h = omega arith
  crossings-IsBound access name left (bound_matches query names) h = omega arith
  crossings-IsBound access name zero (bound_traversal def direction inner) h = cc
  crossings-IsBound access name (suc left) (bound_traversal def direction inner) h =
      ground (arith, crossings-IsBound access name left inner)

  crossings_all-AreBound :
      (access : Access) (name : Bytes) (left : ℕ) (ns : BoundNodes)
      → are_bound access name left ns ≡ true
      → crossings_all ns ≤ left
  crossings_all-AreBound access name left no_bound h = omega arith
  crossings_all-AreBound access name left (bound n ns) h =
      ground
        (arith, crossings-IsBound access name left n, crossings_all-AreBound access name left ns)
