-- ===== src/Formula/Parse.antt =====
-- Formula.Parse: what Parse promises of every formula.
pub mod Operands
pub mod Groups
pub mod RoundTrip
use Prim.{tt}
use flexitype.Prelude.{
  ℕ, suc, ◌+◌, ◌*◌, ◌≡◌, refl, sym, ap, ◌∙◌, ◌≢◌, ◌≤◌, Option, List, [], arith, length,
}
use flexitype.Bytes.{Bytes}
use flexitype.Outcome.{
  ok, out_of_fuel, panicked, Ensures, holds, rejected, Ensures-bind, Ensures-ok, Ensures-weaken,
  Ensures-out_of_fuel, Ensures-panicked,
}
use flexitype.Formula.Ast.{Node, Refs, Token, eof}
use flexitype.Formula.Lexer.{State, next}
use flexitype.Formula.Lexer.Progress.{size, next-Shrinks}
use flexitype.Formula.Parser.{Expr, start, finish, parse}
use flexitype.Formula.Parser.Reads.{noted, Any, next-names, parse_expr-Reads}
use flexitype.Formula.Names.{
  reads, reads_bare, reads_numbers, distinct, record_all, noted-record_all, add_all-nil,
}

abbrev pub none_yet : Refs
none_yet = record { refs = []; scalar_refs = []; numeric_refs = [] }

finish-Ensures :
    (root : Node) (rest : Bytes) (t : Token) (names : Refs)
    → noted root none_yet ≡ names
    → Ensures Any
        (λ (e : Expr). noted e.root none_yet ≡ e.names)
        (finish root (record { rest = rest; tok = t; names = names }))
unfolding finish
finish-Ensures root rest eof names h = holds h
finish-Ensures root rest _ names h = rejected tt

start-Shrinks : (src : Bytes) → size (start src) ≤ length src
unfolding start
start-Shrinks src = next-Shrinks (record { rest = src; tok = eof; names = none_yet })

start-names : (src : Bytes) → (start src).names ≡ none_yet
unfolding start
start-names src = next-names (record { rest = src; tok = eof; names = none_yet })

-- The names of a tree, each once, in the order of the first reading.
abbrev pub NamesOf : Expr → Type 0
NamesOf e =
    (e.names.refs ≡ distinct (reads e.root))
    × (e.names.scalar_refs ≡ distinct (reads_bare e.root))
    × (e.names.numeric_refs ≡ distinct (reads_numbers e.root))

pub NamesOf-noted : (e : Expr) → noted e.root none_yet ≡ e.names → NamesOf e
NamesOf-noted e h =
    let all : e.names ≡ record_all e.root none_yet = sym h ∙ noted-record_all e.root none_yet in
    unfold record_all in
    (
      ap (λ r. r.refs) all ∙ add_all-nil (reads e.root),
      ap (λ r. r.scalar_refs) all ∙ add_all-nil (reads_bare e.root),
      ap (λ r. r.numeric_refs) all ∙ add_all-nil (reads_numbers e.root),
    )

module _ (parse_float : Bytes → Option ℕ) (src : Bytes) where
  parse-Ensures : Ensures Any NamesOf (parse parse_float src)
  unfolding parse
  parse-Ensures =
      Ensures-bind
        (parse_expr-Reads parse_float (3 * length src + 3) (length src) (start src)
          (start-Shrinks src) (omega arith))
        λ (root, s) q.
          Ensures-weaken
            (finish-Ensures root s.rest s.tok s.names
              (ap (noted root) (sym (start-names src)) ∙ q.1))
            NamesOf-noted

  -- Parsing a formula ends on every text, with a tree or an error: the fuel of the model is enough, whatever
  -- the texts of numbers stand for.
  pub formula_total : (parse parse_float src ≢ out_of_fuel) × (parse parse_float src ≢ panicked)
  formula_total = (Ensures-out_of_fuel parse-Ensures, Ensures-panicked parse-Ensures)

  -- Where a formula parses, Refs lists the names that its tree reads, each once and in the order of the first
  -- reading; ScalarRefs those that it reads outside an aggregate; NumericRefs those that it reads bare or
  -- folds by an aggregate other than count.
  pub parse-NamesOf : {e : Expr} → parse parse_float src ≡ ok e → NamesOf e
  parse-NamesOf h = Ensures-ok parse-Ensures h
