-- ===== src/Tests/Formulas.antt =====
-- Tests.Formulas: runs of the formula parser and its evaluators, and the theorems about them at concrete inputs.
use Prim.{tt}
use flexitype.Prelude.{
  ℕ, ◌+◌, ◌-◌, ◌*◌, ◌≡◌, refl, ◌↔◌, Option, none, some, [], ◌∷◌, arith, if◌then◌else◌,
}
use flexitype.Bytes.{Bytes, codes, eq_bytes}
use flexitype.Outcome.{ok, failed}
use flexitype.Domain.Attribute.Computed.{Computed, computed_formula}
use flexitype.Formula.Ast.{
  sum, Node, num, ref, agg, bin, neg, seen, invalid, unexpected, aggregate_of, record_call,
  is_count, record_numeric_ref, record_ref, add_new, record_bare,
}
use flexitype.Formula.Lexer.{
  next, peek_is_lparen, is_operator, starts_name, is_name_byte, is_number_byte,
}
use flexitype.Formula.Parser.{Expr, parse, parse_expr, parse_name, parse_number, is_some, close}
use flexitype.Formula.Parse.{parse-NamesOf, NamesOf}
use flexitype.Formula.Names.{reads, reads_bare, reads_numbers, distinct}
use flexitype.Formula.Names.Each.{Each, Each-both, Each-one}
use flexitype.Formula.Parse.Operands.{print, IsWritable}
use flexitype.Formula.Parse.RoundTrip.{parse-print}
use flexitype.Formula.Eval.{Floats, Inputs, RatInputs, eval, eval_rat}
use flexitype.Formula.Eval.Needs.{eval-reads-refs, Alike}
use flexitype.Formula.Eval.Defined.{eval-IsDefined_iff, IsDefined, HasOne, HasSome, divides}
use flexitype.Formula.Rat.{of_count}

-- Every number stands for 2.
abbrev two : Bytes → Option ℕ
two text = some 2

-- Whole numbers as bits.
abbrev whole : Floats
whole = record {
  add = λ a b. a + b;
  sub = λ a b. a - b;
  mul = λ a b. a * b;
  div = λ a b. a - b;
  negate = λ a. a;
  of_int = λ n. n;
}

abbrev price : Bytes
price = codes "price"

abbrev lines : Bytes
lines = codes "lines"

-- (price*-(2+sum(lines)))
abbrev tree : Node
tree = bin b'*' (ref price) (neg (bin b'+' (num 2 (codes "2")) (agg sum lines)))

abbrev source : Bytes
source = codes "price * -(2 + sum(lines))"

abbrev expr : Expr
expr = record {
  root = tree;
  names = record {
    refs = price ∷ lines ∷ [];
    scalar_refs = price ∷ [];
    numeric_refs = price ∷ lines ∷ [];
  };
}

parse_source : parse two source ≡ ok expr
unfolding parse parse_expr next parse_name aggregate_of parse_number peek_is_lparen is_some close
    record_call is_count record_numeric_ref record_ref add_new seen record_bare
parse_source = refl

print-tree : print tree ≡ codes "(price*-(2+sum(lines)))"
unfolding print
print-tree = refl

-- An unknown character ends no formula.
parse_hash : parse two (codes "price # qty") ≡ failed (unexpected (invalid b'#'))
unfolding parse parse_expr next parse_name aggregate_of
parse_hash = refl

-- An aggregate's name with no parenthesis behind it is a name.
parse_count :
    parse two (codes "count * 2")
    ≡ ok (record {
      root = bin b'*' (ref (codes "count")) (num 2 (codes "2"));
      names = record {
        refs = codes "count" ∷ [];
        scalar_refs = codes "count" ∷ [];
        numeric_refs = codes "count" ∷ [];
      };
    })
unfolding parse parse_expr next parse_name aggregate_of parse_number peek_is_lparen is_some close
    record_call is_count record_numeric_ref record_ref add_new seen record_bare
parse_count = refl

abbrev inputs : Inputs
inputs name = if eq_bytes name price then 3 ∷ [] else 4 ∷ 5 ∷ []

eval-tree : eval whole tree inputs none ≡ some 33
unfolding eval eq_bytes
eval-tree = refl

abbrev rat_inputs : RatInputs
rat_inputs name = some (of_count 3) ∷ []

parse-NamesOf_example : NamesOf expr
parse-NamesOf_example = parse-NamesOf two source parse_source

tree-IsWritable : IsWritable two tree
unfolding is_operator starts_name is_name_byte is_number_byte
tree-IsWritable = ground arith

parse-print_example :
    parse two (print tree)
    ≡ ok (record {
      root = tree;
      names = record {
        refs = distinct (reads tree);
        scalar_refs = distinct (reads_bare tree);
        numeric_refs = distinct (reads_numbers tree);
      };
    })
unfolding print
parse-print_example = parse-print two tree tree-IsWritable

-- Two maps that differ only where the formula does not look.
abbrev other_inputs : Inputs
other_inputs name = if eq_bytes name (codes "note") then [] else inputs name

same_inputs : Each (Alike inputs other_inputs) (price ∷ lines ∷ [])
unfolding eq_bytes
same_inputs =
    Each-both (Alike inputs other_inputs) (price ∷ []) (lines ∷ [])
      (Each-one (Alike inputs other_inputs) price refl)
      (Each-one (Alike inputs other_inputs) lines refl)

eval-reads-refs_example :
    (eval whole tree inputs none ≡ eval whole tree other_inputs none)
    × (eval_rat tree rat_inputs none ≡ eval_rat tree rat_inputs none)
eval-reads-refs_example =
    eval-reads-refs whole two source none none inputs other_inputs rat_inputs rat_inputs
      parse_source (λ n s. tt) same_inputs (λ n s. refl)

eval-IsDefined_iff_example :
    IsDefined (eval whole tree inputs none)
    ↔ (Each (HasOne inputs) (price ∷ []) × Each (HasSome inputs) (price ∷ lines ∷ []))
unfolding divides
eval-IsDefined_iff_example = eval-IsDefined_iff whole inputs none two source parse_source refl

abbrev spec : Computed
spec = record { kind = computed_formula; formula = codes "(price*-(2+sum(lines)))"; rollup = none }
