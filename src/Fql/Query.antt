-- ===== src/Fql/Query.antt =====
-- Fql.Query: `Parse` of pkg/fql/parser.go.
pub mod Bounds
use flexitype.Prelude.{ℕ, ◌+◌, ◌*◌, ◌≡◌, List, ltb, if◌then◌else◌, length}
use flexitype.Bytes.{Bytes, is_blank}
use flexitype.Outcome.{Outcome, failed, bind}
use flexitype.Fql.Token.{
  TokenKind, Token, Error, errorf, eq_kind, eof, empty_query, query_too_long, unexpected,
}
use flexitype.Fql.Lexer.{lex}
use flexitype.Fql.Ast.{Node}
use flexitype.Fql.Reader.{Parser, State, pure, raise, peek, ◌>>=◌}
use flexitype.Fql.Parser.{parse_or, max_query_len}

-- The expression, and the test that the end follows it.
unfoldable pub parse_all : ℕ → Parser Node
parse_all fuel = do
  tree ← parse_or fuel
  t ← peek
  if eq_kind t.kind eof then pure tree else raise t.pos (unexpected t.text)

-- Six calls for each token, and six for the start, are enough fuel.
unfoldable pub parse_tokens : List Token → Outcome Error Node
unfolding parse_all
parse_tokens ts =
    bind (parse_all (6 * length ts + 6) (record { tokens = ts; depth = 0 }))
      λ (tree, s). Outcome.ok tree

unfoldable pub parse : Bytes → Outcome Error Node
unfolding parse_tokens
parse input =
    if is_blank input
    then failed (errorf 0 empty_query)
    else if ltb max_query_len (length input)
    then failed (errorf 0 query_too_long)
    else bind (lex input) parse_tokens
