-- ===== src/Formula/Ast.antt =====
-- Formula.Ast: the trees of pkg/formula/formula.go, its tokens and errors, and the names that a formula reads.
use flexitype.Prelude.{
  ℕ, Bool, true, false, ◌||◌, Option, none, some, List, [], ◌∷◌, ◌++◌, if◌then◌else◌,
}
use flexitype.Bytes.{Bytes, codes, eq_bytes}

pub data Aggregate : Type 0 where
  sum count avg min max : Aggregate

-- The lookup `aggregates`.
unfoldable pub aggregate_of : Bytes → Option Aggregate
unfolding eq_bytes
aggregate_of name =
    if eq_bytes name (codes "sum")
    then some sum
    else if eq_bytes name (codes "count")
    then some count
    else if eq_bytes name (codes "avg")
    then some avg
    else if eq_bytes name (codes "min")
    then some min
    else if eq_bytes name (codes "max")
    then some max
    else none

unfoldable pub is_count : Aggregate → Bool
is_count count = true
is_count _ = false

-- numNode keeps the bits of its float64 beside its text; the operator of a binNode is its byte.
pub data Node : Type 0 where
  num : ℕ → Bytes → Node
  ref : Bytes → Node
  agg : Aggregate → Bytes → Node
  bin : ℕ → Node → Node → Node
  neg : Node → Node

pub data Token : Type 0 where
  eof lparen rparen : Token
  number ident : Bytes → Token
  operator invalid : ℕ → Token

pub data Error : Type 0 where
  unexpected : Token → Error
  unexpected_operator : ℕ → Error
  invalid_number : Bytes → Error
  expected_close : Error
  expects_open expects_name nested_aggregate : Aggregate → Error
  expected_close_after : Aggregate → Bytes → Error

-- The three lists of names, each without repetition and in the order of the first reading. The source keeps
-- beside each list a set of the same names, `seen`, and asks that set.
pub record Refs : Type 0 where
  pub refs : List Bytes
  pub scalar_refs : List Bytes
  pub numeric_refs : List Bytes

unfoldable pub seen : Bytes → List Bytes → Bool
seen name [] = false
seen name (x ∷ xs) = eq_bytes name x || seen name xs

unfoldable pub add_new : Bytes → List Bytes → List Bytes
add_new name names = if seen name names then names else names ++ name ∷ []

unfoldable pub record_ref : Bytes → Bool → Refs → Refs
record_ref name bare r = record r {
  refs = add_new name r.refs;
  scalar_refs = if bare then add_new name r.scalar_refs else r.scalar_refs;
}

unfoldable pub record_numeric_ref : Bytes → Refs → Refs
record_numeric_ref name r = record r { numeric_refs = add_new name r.numeric_refs }

-- What the parser records for a call, and for a name that it reads bare.
unfoldable pub record_call : Aggregate → Bytes → Refs → Refs
record_call fn name r =
    let r' = record_ref name false r in if is_count fn then r' else record_numeric_ref name r'

unfoldable pub record_bare : Bytes → Refs → Refs
record_bare name r = record_numeric_ref name (record_ref name true r)
