-- ===== src/Formula/Parser.antt =====
-- Formula.Parser: Parse of pkg/formula/formula.go. strconv.ParseFloat is an argument; the root of a formula that
-- parses is never nil.
pub mod Reads
use flexitype.Prelude.{
  ℕ, zero, suc, ◌+◌, ◌*◌, Bool, true, false, ◌&&◌, ◌||◌, not, Option, none, some, List, [], ◌∷◌,
  ◌==◌, if◌then◌else◌, length,
}
use flexitype.Bytes.{Bytes}
use flexitype.Outcome.{Outcome, ok, failed, out_of_fuel, bind}
use flexitype.Formula.Ast.{
  Aggregate, aggregate_of, Node, num, ref, agg, bin, neg, Token, eof, lparen, rparen, number, ident,
  operator, invalid, Error, unexpected, unexpected_operator, invalid_number, expected_close,
  expects_open, expects_name, nested_aggregate, expected_close_after, Refs, record_call,
  record_bare,
}
use flexitype.Formula.Lexer.{State, next, peek_is_lparen}

abbrev pub Parsed : Type 0
Parsed = Outcome Error (Node × State)

pub record Expr : Type 0 where
  pub root : Node
  pub names : Refs

unfoldable pub is_some : Option Aggregate → Bool
is_some none = false
is_some (some fn) = true

-- `)` ends a group.
unfoldable pub close : Node → State → Parsed
close inner s = elim s.tok [ rparen ↦ ok (inner, next s) | _ ↦ failed expected_close ]

-- parseCall from the name on: the name is recorded, then `)` is read.
unfoldable pub close_call : Aggregate → Bytes → State → Parsed
close_call fn name s = elim s.tok [
  | rparen ↦ ok (agg fn name, next s)
  | _ ↦ failed (expected_close_after fn name)
]

unfoldable pub call_name : Aggregate → State → Parsed
unfolding close_call
call_name fn s = elim s.tok [
  | ident name ↦
      if is_some (aggregate_of name) && peek_is_lparen s
      then failed (nested_aggregate fn)
      else close_call fn name (next (record s { names = record_call fn name s.names }))
  | _ ↦ failed (expects_name fn)
]

unfoldable pub opened_call : Aggregate → State → Parsed
unfolding call_name
opened_call fn s = elim s.tok [ lparen ↦ call_name fn (next s) | _ ↦ failed (expects_open fn) ]

-- parseCall: aggregate "(" name ")".
unfoldable pub parse_call : Aggregate → State → Parsed
unfolding opened_call
parse_call fn s = opened_call fn (next s)

unfoldable pub parse_ref : Bytes → State → Parsed
parse_ref name s = ok (ref name, next (record s { names = record_bare name s.names }))

-- An aggregate's name is a call where `(` follows it.
unfoldable pub parse_name : Bytes → State → Parsed
unfolding parse_call parse_ref
parse_name name s = elim (aggregate_of name) [
  | none ↦ parse_ref name s
  | some fn ↦ if peek_is_lparen s then parse_call fn s else parse_ref name s
]

-- The formula ends where the expression does.
unfoldable pub finish : Node → State → Outcome Error Expr
finish root s = elim s.tok [
  | eof ↦ ok (record { root = root; names = s.names })
  | t ↦ failed (unexpected t)
]

-- A parser at the first token.
unfoldable pub start : Bytes → State
start src = next (record {
  rest = src;
  tok = eof;
  names = record { refs = []; scalar_refs = []; numeric_refs = [] };
})

module _ (parse_float : Bytes → Option ℕ) where
  unfoldable pub parse_number : Bytes → State → Parsed
  parse_number text s = elim (parse_float text) [
    | none ↦ failed (invalid_number text)
    | some f ↦ ok (num f text, next s)
  ]

  unfoldable mutual
    pub parse_expr : ℕ → State → Parsed
    parse_expr zero s = out_of_fuel
    parse_expr (suc fuel) s = bind (parse_term fuel s) λ (left, s'). expr_rest fuel left s'

    -- The loop on `+` and `-`.
    pub expr_rest : ℕ → Node → State → Parsed
    expr_rest zero left s = out_of_fuel
    expr_rest (suc fuel) left s = elim s.tok [
      | operator c ↦
          let more =
            bind (parse_term fuel (next s)) λ (right, s'). expr_rest fuel (bin c left right) s' in
          if c == b'+' || c == b'-' then more else ok (left, s)
      | _ ↦ ok (left, s)
    ]

    pub parse_term : ℕ → State → Parsed
    parse_term zero s = out_of_fuel
    parse_term (suc fuel) s = bind (parse_factor fuel s) λ (left, s'). term_rest fuel left s'

    -- The loop on `*` and `/`.
    pub term_rest : ℕ → Node → State → Parsed
    term_rest zero left s = out_of_fuel
    term_rest (suc fuel) left s = elim s.tok [
      | operator c ↦
          let more =
            bind (parse_factor fuel (next s)) λ (right, s'). term_rest fuel (bin c left right) s' in
          if c == b'*' || c == b'/' then more else ok (left, s)
      | _ ↦ ok (left, s)
    ]

    pub parse_factor : ℕ → State → Parsed
    parse_factor zero s = out_of_fuel
    parse_factor (suc fuel) s = elim s.tok [
      | operator c ↦
          let minus = bind (parse_factor fuel (next s)) λ (inner, s'). ok (neg inner, s') in
          if c == b'-' then minus else failed (unexpected_operator c)
      | number text ↦ parse_number text s
      | ident name ↦ parse_name name s
      | lparen ↦ bind (parse_expr fuel (next s)) λ (inner, s'). close inner s'
      | t ↦ failed (unexpected t)
    ]

  -- Parse. Three rounds of fuel for each byte are enough.
  unfoldable pub parse : Bytes → Outcome Error Expr
  unfolding finish start
  parse src = bind (parse_expr (3 * length src + 3) (start src)) λ (root, s). finish root s
