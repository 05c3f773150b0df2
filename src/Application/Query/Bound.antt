-- ===== src/Application/Query/Bound.antt =====
-- Application.Query.Bound: the bound nodes of application/query/bound.go. A list inside a node is a type of its own.
use Prim.Native.Nat.{max}
use flexitype.Prelude.{ℕ, suc, Bool, Option, List}
use flexitype.Bytes.{Bytes}
use flexitype.Domain.Names.{Ulid}
use flexitype.Domain.Values.Value.{Value}
use flexitype.Domain.Attribute.Definition as Attribute
use flexitype.Domain.Relationship.Definition as Relationship
use flexitype.Fql.Ast.{LogicalOp, CompareOp, AggFunc, StringMatchKind, Direction}

-- A Snapshot is a copy of the fields of its definition.
abbrev pub Attr : Type 0
Attr = Attribute.Definition

abbrev pub RelDef : Type 0
RelDef = Relationship.Definition

mutual
  pub data BoundNode : Type 0 where
    bound_logical : LogicalOp → BoundNodes → BoundNode
    bound_not : BoundNode → BoundNode
    bound_compare : Attr → Bool → AggFunc → CompareOp → Value → BoundNode
    bound_in : Attr → Bool → List Value → BoundNode
    bound_range : Attr → Bool → Value → Value → BoundNode
    bound_has : Attr → Bool → BoundNode
    bound_string_match : Attr → Bool → StringMatchKind → Bytes → BoundNode
    bound_type : List Ulid → Bool → BoundNode
    -- The names to search in; none where the principal reads everything.
    bound_matches : Bytes → Option (List Bytes) → BoundNode
    bound_traversal : RelDef → Direction → BoundNode → BoundNode

  pub data BoundNodes : Type 0 where
    no_bound : BoundNodes
    bound : BoundNode → BoundNodes → BoundNodes

-- How deep traversals nest.
unfoldable mutual
  pub crossings : BoundNode → ℕ
  crossings (bound_logical op exprs) = crossings_all exprs
  crossings (bound_not expr) = crossings expr
  crossings (bound_traversal def direction inner) = suc (crossings inner)
  crossings (bound_compare attr link func op value) = 0
  crossings (bound_in attr link values) = 0
  crossings (bound_range attr link lo hi) = 0
  crossings (bound_has attr link) = 0
  crossings (bound_string_match attr link kind value) = 0
  crossings (bound_type type_ids negate) = 0
  crossings (bound_matches query attrs) = 0

  pub crossings_all : BoundNodes → ℕ
  crossings_all no_bound = 0
  crossings_all (bound n ns) = max (crossings n) (crossings_all ns)
