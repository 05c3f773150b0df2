-- ===== src/Fql/Terms.antt =====
-- Fql.Terms: fields, operands, operators and literals, from pkg/fql/parser.go.
pub mod Safe
use flexitype.Prelude.{
  ℕ, zero, suc, Bool, false, ◌&&◌, ◌||◌, not, Option, none, some, List, [], ◌∷◌, if◌then◌else◌,
}
use flexitype.Bytes.{Bytes, codes, eq_bytes, equal_fold, to_lower}
use flexitype.Fql.Token.{
  TokenKind, Token, eq_kind, ident, string, number, lparen, rparen, comma, dot, op, expected,
}
use flexitype.Fql.Ast.{
  CompareOp, AggFunc, Field, Literal, LiteralKind, cmp_eq, cmp_neq, cmp_gt, cmp_gte, cmp_lt,
  cmp_lte, cmp_isa, func_none, func_min, func_max, func_count, func_length, scope_entity,
  scope_link, scope_type, lit_string, lit_number, lit_bool, lit_ident,
}
use flexitype.Fql.Reader.{
  Parser, pure, raise, spent, ◌>>=◌, ◌>>◌, peek, next, peek_second, expect, display_token,
}

-- parseField: ident | "link" "." ident | "type".
unfoldable pub link_field : Token → Parser Field
unfolding expect
link_field t = do
  u ← peek
  if eq_kind u.kind dot
      then (do
        next
        attr ← expect ident "a link attribute name"
        pure (record { scope = scope_link; name = attr.text; pos = t.pos }))
      else pure (record { scope = scope_entity; name = t.text; pos = t.pos })

unfoldable pub field_of : Token → Parser Field
unfolding link_field
field_of t =
    if equal_fold t.text (codes "type")
    then pure (record { scope = scope_type; name = codes "type"; pos = t.pos })
    else if equal_fold t.text (codes "link")
    then link_field t
    else pure (record { scope = scope_entity; name = t.text; pos = t.pos })

unfoldable pub parse_field : Parser Field
unfolding expect field_of
parse_field = do t ← expect ident "an attribute name"; field_of t

-- The functions of an operand, by their lower-case names; `func_none` for any other word.
unfoldable pub func_of : Bytes → AggFunc
func_of w =
    if eq_bytes w (codes "min")
    then func_min
    else if eq_bytes w (codes "max")
    then func_max
    else if eq_bytes w (codes "count")
    then func_count
    else if eq_bytes w (codes "length")
    then func_length
    else func_none

-- parseOperand: [func "("] field [")"].
unfoldable pub call_operand : AggFunc → Parser (AggFunc × Field)
unfolding parse_field
call_operand func = do next; next; field ← parse_field; expect rparen "')'"; pure (func, field)

unfoldable pub plain_operand : Parser (AggFunc × Field)
unfolding parse_field
plain_operand = do field ← parse_field; pure (func_none, field)

unfoldable pub operand_of : AggFunc → Parser (AggFunc × Field)
unfolding call_operand plain_operand
operand_of func_none = plain_operand
operand_of func = do
  u ← peek_second
  if eq_kind u.kind lparen then call_operand func else plain_operand

unfoldable pub parse_operand : Parser (AggFunc × Field)
unfolding operand_of func_of
parse_operand = do
  t ← peek
  if eq_kind t.kind ident then operand_of (func_of (to_lower t.text)) else plain_operand

unfoldable pub one_of_words : Bytes → List Bytes → Bool
one_of_words w [] = false
one_of_words w (v ∷ vs) = eq_bytes w v || one_of_words w vs

-- unitStopWords.
unfoldable pub is_unit_stop_word : Bytes → Bool
unfolding one_of_words
is_unit_stop_word w = one_of_words w (
    codes "and"
    ∷ codes "or"
    ∷ codes "not"
    ∷ codes "in"
    ∷ codes "eq"
    ∷ codes "neq"
    ∷ codes "gt"
    ∷ codes "gte"
    ∷ codes "lt"
    ∷ codes "lte"
    ∷ codes "isa"
    ∷ [])

-- wordOps.
unfoldable pub word_op : Bytes → Option CompareOp
word_op w =
    if eq_bytes w (codes "eq")
    then some cmp_eq
    else if eq_bytes w (codes "neq")
    then some cmp_neq
    else if eq_bytes w (codes "gt")
    then some cmp_gt
    else if eq_bytes w (codes "gte")
    then some cmp_gte
    else if eq_bytes w (codes "lt")
    then some cmp_lt
    else if eq_bytes w (codes "lte")
    then some cmp_lte
    else if eq_bytes w (codes "isa")
    then some cmp_isa
    else none

-- parseCompareOp.
unfoldable pub bad_compare_op : Token → Parser CompareOp
unfolding display_token
bad_compare_op t = raise t.pos (expected "a comparison operator" (display_token t))

unfoldable pub named_op : Token → Option CompareOp → Parser CompareOp
unfolding bad_compare_op
named_op t none = bad_compare_op t
named_op t (some cmp) = do next; pure cmp

unfoldable pub compare_op_of : Token → Parser CompareOp
unfolding named_op word_op
compare_op_of t =
    if eq_kind t.kind op
    then (do next; pure t.text)
    else if eq_kind t.kind ident
    then named_op t (word_op (to_lower t.text))
    else bad_compare_op t

unfoldable pub parse_compare_op : Parser CompareOp
unfolding compare_op_of
parse_compare_op = do t ← peek; compare_op_of t

-- parseLiteral.
unfoldable pub unit_suffix : Parser Bytes
unfolding is_unit_stop_word
unit_suffix = do
  u ← peek
  if eq_kind u.kind ident && not (is_unit_stop_word (to_lower u.text))
      then (do next; pure u.text)
      else pure []

abbrev pub literal : LiteralKind → Bytes → Bytes → Token → Literal
literal kind text unit t = record { kind = kind; text = text; unit = unit; pos = t.pos }

unfoldable pub ident_literal : Token → Literal
ident_literal t =
    if equal_fold t.text (codes "true") || equal_fold t.text (codes "false")
    then literal lit_bool (to_lower t.text) [] t
    else literal lit_ident t.text [] t

unfoldable pub literal_of : TokenKind → Token → Parser Literal
unfolding unit_suffix ident_literal display_token
literal_of string t = do next; pure (literal lit_string t.text [] t)
literal_of number t = do next; unit ← unit_suffix; pure (literal lit_number t.text unit t)
literal_of ident t = do next; pure (ident_literal t)
literal_of _ t = raise t.pos (expected "a value" (display_token t))

unfoldable pub parse_literal : Parser Literal
unfolding literal_of
parse_literal = do t ← peek; literal_of t.kind t

-- The loop of `in (v1, v2, ...)`.
unfoldable pub parse_values : ℕ → Parser (List Literal)
unfolding parse_literal
parse_values zero = spent
parse_values (suc fuel) = do
  lit ← parse_literal
  t ← peek
  let more = do next; rest ← parse_values fuel; pure (lit ∷ rest)
  if eq_kind t.kind comma then more else pure (lit ∷ [])
