-- ===== src/Fql/Parser.antt =====
-- Fql.Parser: the grammar of pkg/fql/parser.go. A call spends fuel before it calls another part of the
-- grammar.
pub mod Safe
use flexitype.Prelude.{ℕ, zero, suc, ◌*◌, String, if◌then◌else◌}
use flexitype.Bytes.{Bytes, codes, eq_bytes, to_lower}
use flexitype.Fql.Token.{eq_kind, ident, string, lparen, rparen, lbrace, rbrace, comma, expected}
use flexitype.Fql.Ast.{
  Node, Nodes, LogicalOp, AggFunc, Field, StringMatchKind, Direction, op_and, op_or, match_contains,
  match_icontains, match_iequals, dir_child, dir_parent, dir_any, logical, negated, comparison,
  in_values, in_range, has, string_match, matches, traversal, no_nodes, node, position,
}
use flexitype.Fql.Reader.{
  Parser, pure, raise, spent, ◌>>=◌, ◌>>◌, peek, next, keyword, expect, display_token, nested,
}
use flexitype.Fql.Terms.{parse_field, parse_operand, parse_compare_op, parse_literal, parse_values}

abbrev pub max_query_len : ℕ
max_query_len = 16 * 1024

-- `parsePrimary`'s switch on the lower-case word.
pub data Form : Type 0 where
  traversal_form : Direction → Form
  range_form has_form matches_form other_form : Form
  match_form : StringMatchKind → Form

unfoldable pub form_of : Bytes → Form
form_of w =
    if eq_bytes w (codes "child")
    then traversal_form dir_child
    else if eq_bytes w (codes "parent")
    then traversal_form dir_parent
    else if eq_bytes w (codes "linked")
    then traversal_form dir_any
    else if eq_bytes w (codes "range")
    then range_form
    else if eq_bytes w (codes "has")
    then has_form
    else if eq_bytes w (codes "contains")
    then match_form match_contains
    else if eq_bytes w (codes "icontains")
    then match_form match_icontains
    else if eq_bytes w (codes "iequals")
    then match_form match_iequals
    else if eq_bytes w (codes "matches")
    then matches_form
    else other_form

unfoldable pub after_direction : Direction → String
after_direction dir_child = "'(' after child"
after_direction dir_parent = "'(' after parent"
after_direction dir_any = "'(' after linked"

unfoldable pub after_match : StringMatchKind → String
after_match match_contains = "'(' after contains"
after_match match_icontains = "'(' after icontains"
after_match match_iequals = "'(' after iequals"

-- parseRange: range "(" operand "," literal "," literal ")".
unfoldable pub parse_range : Parser Node
parse_range = do
  kw ← next
  expect lparen "'(' after range"
  (func, field) ← parse_operand
  expect comma "','"
  lo ← parse_literal
  expect comma "','"
  hi ← parse_literal
  expect rparen "')'"
  pure (in_range func field lo hi kw.pos)

-- parseHas: has "(" field ")".
unfoldable pub parse_has : Parser Node
parse_has = do
  kw ← next
  expect lparen "'(' after has"
  field ← parse_field
  expect rparen "')'"
  pure (has field kw.pos)

-- parseStringMatch: contains "(" field "," literal ")".
unfoldable pub parse_string_match : StringMatchKind → Parser Node
unfolding after_match
parse_string_match kind = do
  kw ← next
  expect lparen (after_match kind)
  field ← parse_field
  expect comma "','"
  value ← parse_literal
  expect rparen "')'"
  pure (string_match kind field value kw.pos)

-- parseMatches: matches "(" string ")".
unfoldable pub parse_matches : Parser Node
parse_matches = do
  kw ← next
  expect lparen "'(' after matches"
  q ← expect string "a quoted search string"
  expect rparen "')'"
  pure (matches q.text kw.pos)

-- parseComparisonOrIn: operand (op literal | in "(" literals ")").
unfoldable pub rest_of_in : ℕ → ℕ → AggFunc → Field → Parser Node
rest_of_in fuel pos func field = do
  next
  expect lparen "'(' after in"
  values ← parse_values fuel
  expect rparen "')'"
  pure (in_values func field values pos)

unfoldable pub rest_of_comparison : ℕ → AggFunc → Field → Parser Node
rest_of_comparison pos func field = do
  cmp ← parse_compare_op
  lit ← parse_literal
  pure (comparison func field cmp lit pos)

unfoldable pub parse_comparison_or_in : ℕ → Parser Node
unfolding rest_of_in rest_of_comparison
parse_comparison_or_in fuel = do
  start ← peek
  (func, field) ← parse_operand
  is_in ← keyword (codes "in")
  if is_in then rest_of_in fuel start.pos func field else rest_of_comparison start.pos func field

-- The other words of `parsePrimary`.
unfoldable pub parse_simple : ℕ → Form → Parser Node
unfolding parse_range parse_has parse_string_match parse_matches parse_comparison_or_in
parse_simple fuel range_form = parse_range
parse_simple fuel has_form = parse_has
parse_simple fuel matches_form = parse_matches
parse_simple fuel (match_form kind) = parse_string_match kind
parse_simple fuel _ = parse_comparison_or_in fuel

-- An `and` or `or` over one expression is that expression.
unfoldable pub joined : LogicalOp → Node → Nodes → Node
joined operator left no_nodes = left
joined operator left rest = logical operator (node left rest) (position left)

unfoldable mutual
  pub parse_or : ℕ → Parser Node
  parse_or zero = spent
  parse_or (suc fuel) = do
    t ← peek
    nested t.pos do left ← parse_and fuel; rest ← parse_or_rest fuel; pure (joined op_or left rest)

  -- The loop `for p.keyword("or")`.
  pub parse_or_rest : ℕ → Parser Nodes
  parse_or_rest zero = spent
  parse_or_rest (suc fuel) = do
    more ← keyword (codes "or")
    let round = do next; right ← parse_and fuel; rest ← parse_or_rest fuel; pure (node right rest)
    if more then round else pure no_nodes

  pub parse_and : ℕ → Parser Node
  parse_and zero = spent
  parse_and (suc fuel) = do
    left ← parse_unary fuel
    rest ← parse_and_rest fuel
    pure (joined op_and left rest)

  -- The loop `for p.keyword("and")`.
  pub parse_and_rest : ℕ → Parser Nodes
  parse_and_rest zero = spent
  parse_and_rest (suc fuel) = do
    more ← keyword (codes "and")
    let round = do
      next
      right ← parse_unary fuel
      rest ← parse_and_rest fuel
      pure (node right rest)
    if more then round else pure no_nodes

  pub parse_unary : ℕ → Parser Node
  parse_unary zero = spent
  parse_unary (suc fuel) = do
    is_not ← keyword (codes "not")
    t ← peek
    let negation = nested t.pos do kw ← next; inner ← parse_unary fuel; pure (negated inner kw.pos)
    let primary = parse_primary fuel
    if is_not then negation else primary

  pub parse_primary : ℕ → Parser Node
  parse_primary zero = spent
  parse_primary (suc fuel) = do
    t ← peek
    let group = do next; inner ← parse_or fuel; expect rparen "')'"; pure inner
    let form = parse_form fuel (form_of (to_lower t.text))
    if eq_kind t.kind lparen
        then group
        else if eq_kind t.kind ident
        then form
        else raise t.pos (expected "a condition" (display_token t))

  -- The switch of `parsePrimary`, with `parseTraversal`:
  -- (child|parent|linked) "(" ident ")" "{" expr "}".
  pub parse_form : ℕ → Form → Parser Node
  parse_form zero form = spent
  parse_form (suc fuel) (traversal_form direction) = do
    kw ← next
    expect lparen (after_direction direction)
    rel ← expect ident "a relationship name"
    expect rparen "')'"
    expect lbrace "'{' opening the traversal expression"
    inner ← parse_or fuel
    expect rbrace "'}'"
    pure (traversal direction rel.text inner kw.pos)
  parse_form (suc fuel) form = parse_simple fuel form
