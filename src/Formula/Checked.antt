-- ===== src/Formula/Checked.antt =====
-- Formula.Checked: the formula parser as Computed.Validate of domain/attribute/computed.go calls it.
use flexitype.Prelude.{ℕ, ◌≡◌, refl, false, Option, none, some, List, [], ◌∷◌, ◌++◌}
use flexitype.Bytes.{Bytes}
use flexitype.Outcome.{Outcome, ok}
use flexitype.Domain.Errors.{Result}
use flexitype.Domain.Names.{is_empty}
use flexitype.Domain.Attribute.Computed.{Formulas, Computed, computed_formula, validate_computed}
use flexitype.Formula.Ast.{
  Error, Aggregate, sum, count, avg, min, max, Node, num, ref, agg, bin, neg,
}
use flexitype.Formula.Lexer.Printed.{IsNumber, IsName}
use flexitype.Formula.Parser.{Expr, parse}
use flexitype.Formula.Names.{reads, distinct}
use flexitype.Formula.Parse.Operands.{word, print, IsWritable}
use flexitype.Formula.Parse.RoundTrip.{parse-print}

refs_of : Outcome Error Expr → Option (List Bytes)
refs_of (ok e) = some e.names.refs
refs_of _ = none

-- formula.Parse and Refs.
unfoldable pub formulas : (Bytes → Option ℕ) → Formulas
unfolding refs_of
formulas parse_float src = refs_of (parse parse_float src)

starts_text : (text rest : Bytes) → is_empty text ≡ false → is_empty (text ++ rest) ≡ false
starts_text [] rest h = cc
starts_text (c ∷ cs) rest h = refl

number_text : (text : Bytes) → IsNumber text → is_empty text ≡ false
number_text [] h = absurd h
number_text (c ∷ cs) h = refl

name_text : (text : Bytes) → IsName text → is_empty text ≡ false
name_text [] h = absurd h
name_text (c ∷ cs) h = refl

word_text : (fn : Aggregate) → is_empty (word fn) ≡ false
unfolding word
word_text sum = refl
word_text count = refl
word_text avg = refl
word_text min = refl
word_text max = refl

not_empty :
    (parse_float : Bytes → Option ℕ) (x : Node)
    → IsWritable parse_float x
    → is_empty (print x) ≡ false
unfolding print
not_empty parse_float (num f text) w = number_text text w.0
not_empty parse_float (ref name) w = name_text name w
not_empty parse_float (agg fn name) w =
    starts_text (word fn) (b'(' ∷ (name ++ b')' ∷ [])) (word_text fn)
not_empty parse_float (bin c x y) w = refl
not_empty parse_float (neg x) w = refl

-- A computed attribute whose formula is the text of a tree is valid, and depends on the names that the tree reads,
-- each once and in the order of the first reading.
pub validate_computed-print :
    (parse_float : Bytes → Option ℕ) (x : Node) (spec : Computed)
    → IsWritable parse_float x
    → spec.kind ≡ computed_formula
    → spec.formula ≡ print x
    → validate_computed (formulas parse_float) spec ≡ Result.ok (distinct (reads x))
unfolding validate_computed formulas
validate_computed-print parse_float x spec w k f =
    rw (k, f, not_empty parse_float x w, parse-print parse_float x w)
