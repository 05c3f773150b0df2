-- ===== src/Tests/Queries.antt =====
-- Tests.Queries: pkg/fql on a few queries.
use flexitype.Prelude.{◌≡◌, ◌↔◌, ◌≢◌, refl, ◌<◌, List, [], ◌∷◌}
use flexitype.Bytes.{Bytes, codes, is_space, is_digit, is_letter, to_lower, is_blank, equal_fold}
use flexitype.Outcome.{ok, failed, out_of_fuel, panicked}
use flexitype.Fql.Token.{Token, errorf, eof, ident, op, number, string, unterminated_string}
use flexitype.Fql.Lexer.{lex}
use flexitype.Fql.Lexer.Tokens.{Lexes}
use flexitype.Fql.Lexer.Exact.{lex_iff}
use flexitype.Fql.Ast.{
  Node, nesting, position, lit_number, lit_ident, func_none, scope_entity, op_or, logical, negated,
  comparison, cmp_eq, cmp_gt, node, no_nodes,
}
use flexitype.Fql.Reader.{max_parse_depth, nested, keyword, expect, peek, next, ◌>>=◌}
use flexitype.Fql.Terms.{parse_operand, parse_compare_op, parse_literal}
use flexitype.Fql.Parser.{parse_or, parse_simple, joined, form_of}
use flexitype.Fql.Query.{parse}
use flexitype.Fql.Query.Bounds.{nesting-parse, parse_total}

abbrev short : Bytes
short = codes "not a > 5 kg or b = x"

abbrev short_tree : Node
short_tree =
    logical op_or
      (node
        (negated
          (comparison func_none (record { scope = scope_entity; name = codes "a"; pos = 4 }) cmp_gt
            (record { kind = lit_number; text = codes "5"; unit = codes "kg"; pos = 8 }) 4)
          0)
        (node
          (comparison func_none (record { scope = scope_entity; name = codes "b"; pos = 16 }) cmp_eq
            (record { kind = lit_ident; text = codes "x"; unit = []; pos = 20 }) 16)
          no_nodes))
      0

parse-short : parse short ≡ ok short_tree
unfolding parse lex is_space is_digit is_letter parse_or keyword nested expect parse_operand
    parse_compare_op parse_literal parse_simple joined form_of position is_blank to_lower equal_fold
    peek next ◌>>=◌
parse-short = refl

nesting-parse_example : nesting short_tree < max_parse_depth
nesting-parse_example = nesting-parse short parse-short

abbrev unclosed : Bytes
unclosed = codes "a = 'x"

parse-unclosed : parse unclosed ≡ failed (errorf 4 unterminated_string)
unfolding parse lex is_space is_digit is_letter is_blank
parse-unclosed = refl

lex-unclosed : lex unclosed ≡ failed (errorf 4 unterminated_string)
unfolding lex is_space is_digit is_letter
lex-unclosed = refl

abbrev two_words : List Token
two_words =
    record { kind = ident; text = codes "a"; pos = 0 }
    ∷ record { kind = op; text = codes ">="; pos = 2 }
    ∷ record { kind = eof; text = []; pos = 4 }
    ∷ []

lex-two_words : lex (codes "a >=") ≡ ok two_words
unfolding lex is_space is_digit is_letter
lex-two_words = refl

lex_iff_example : (lex (codes "a >=") ≡ ok two_words) ↔ Lexes 0 (codes "a >=") two_words
lex_iff_example = lex_iff (codes "a >=") two_words

parse_total_example : (parse short ≢ out_of_fuel) × (parse short ≢ panicked)
parse_total_example = parse_total short

lex_sample :
    lex (codes "a>=-1.5 'x\\'y'")
    ≡ ok (
        record { kind = ident; text = codes "a"; pos = 0 }
        ∷ record { kind = op; text = codes ">="; pos = 1 }
        ∷ record { kind = number; text = codes "-1.5"; pos = 3 }
        ∷ record { kind = string; text = codes "x'y"; pos = 8 }
        ∷ record { kind = eof; text = []; pos = 14 }
        ∷ [])
unfolding lex is_space is_digit is_letter
lex_sample = refl
