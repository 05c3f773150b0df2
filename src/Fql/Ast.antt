-- ===== src/Fql/Ast.antt =====
-- Fql.Ast: the nodes of pkg/fql/ast.go. A list inside a node is a type of its own, `Nodes`.
use Prim.Native.Nat.{max}
use flexitype.Prelude.{ℕ, suc, List}
use flexitype.Bytes.{Bytes, codes}

pub data LogicalOp : Type 0 where
  op_and op_or : LogicalOp

-- A string in the source, and the text of an operator token.
abbrev pub CompareOp : Type 0
CompareOp = Bytes

abbrev pub cmp_eq : CompareOp
cmp_eq = codes "="

abbrev pub cmp_neq : CompareOp
cmp_neq = codes "!="

abbrev pub cmp_gt : CompareOp
cmp_gt = codes ">"

abbrev pub cmp_gte : CompareOp
cmp_gte = codes ">="

abbrev pub cmp_lt : CompareOp
cmp_lt = codes "<"

abbrev pub cmp_lte : CompareOp
cmp_lte = codes "<="

abbrev pub cmp_isa : CompareOp
cmp_isa = codes "isa"

pub data AggFunc : Type 0 where
  func_none func_min func_max func_count func_length : AggFunc

pub data FieldScope : Type 0 where
  scope_entity scope_link scope_type : FieldScope

pub record Field : Type 0 where
  pub scope : FieldScope
  pub name : Bytes
  pub pos : ℕ

pub data LiteralKind : Type 0 where
  lit_string lit_number lit_bool lit_ident : LiteralKind

pub record Literal : Type 0 where
  pub kind : LiteralKind
  pub text : Bytes
  pub unit : Bytes
  pub pos : ℕ

pub data StringMatchKind : Type 0 where
  match_contains match_icontains match_iequals : StringMatchKind

pub data Direction : Type 0 where
  dir_child dir_parent dir_any : Direction

mutual
  pub data Node : Type 0 where
    logical : LogicalOp → Nodes → ℕ → Node
    negated : Node → ℕ → Node
    comparison : AggFunc → Field → CompareOp → Literal → ℕ → Node
    in_values : AggFunc → Field → List Literal → ℕ → Node
    in_range : AggFunc → Field → Literal → Literal → ℕ → Node
    has : Field → ℕ → Node
    string_match : StringMatchKind → Field → Literal → ℕ → Node
    matches : Bytes → ℕ → Node
    traversal : Direction → Bytes → Node → ℕ → Node

  pub data Nodes : Type 0 where
    no_nodes : Nodes
    node : Node → Nodes → Nodes

-- Node.Position.
unfoldable pub position : Node → ℕ
position (logical op exprs pos) = pos
position (negated expr pos) = pos
position (comparison func field op literal pos) = pos
position (in_values func field values pos) = pos
position (in_range func field lo hi pos) = pos
position (has field pos) = pos
position (string_match kind field value pos) = pos
position (matches query pos) = pos
position (traversal direction relationship inner pos) = pos

-- How deep negations and traversals nest: what a recursive walk over the tree descends.
unfoldable mutual
  pub nesting : Node → ℕ
  nesting (logical op exprs pos) = nesting_all exprs
  nesting (negated expr pos) = suc (nesting expr)
  nesting (traversal direction relationship inner pos) = suc (nesting inner)
  nesting (comparison func field op literal pos) = 0
  nesting (in_values func field values pos) = 0
  nesting (in_range func field lo hi pos) = 0
  nesting (has field pos) = 0
  nesting (string_match kind field value pos) = 0
  nesting (matches query pos) = 0

  pub nesting_all : Nodes → ℕ
  nesting_all no_nodes = 0
  nesting_all (node n ns) = max (nesting n) (nesting_all ns)
