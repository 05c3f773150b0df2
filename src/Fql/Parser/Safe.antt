-- ===== src/Fql/Parser/Safe.antt =====
-- Fql.Parser.Safe: the grammar is safe, within its fuel, and its trees are no deeper than the limit.
use Prim.Native.Nat.{max}
use flexitype.Prelude.{ℕ, zero, suc, ◌+◌, ◌*◌, ◌≤◌, ◌<◌, ◌≡◌, refl, ◌≢◌, true, List, arith}
use flexitype.Bytes.{codes, to_lower}
use flexitype.Fql.Token.{Token, eq_kind, eof, ident, string, lparen, rparen, lbrace, rbrace, comma}
use flexitype.Fql.Ast.{
  Node, Nodes, LogicalOp, AggFunc, Field, StringMatchKind, no_nodes, node, nesting, nesting_all,
}
use flexitype.Fql.Reader.{Parser, max_parse_depth}
use flexitype.Fql.Reader.Safe.{
  Safe, Any, Head-NotAtEnd, Safe-pure, Safe-raise, Safe-if, Safe-weaken, Safe-bind, Safe-pre,
  peek-Safe, peek_keeping-Safe, next-Safe, next_inside-Safe, keyword-Safe, expect-Safe, nested-Safe,
}
use flexitype.Fql.Terms.Safe.{
  parse_field-Reads, parse_operand-Reads, parse_compare_op-Reads, parse_literal-Reads,
  parse_values-Reads,
}
use flexitype.Fql.Parser.{
  Form, traversal_form, range_form, has_form, matches_form, match_form, form_of, parse_range,
  parse_has, parse_string_match, parse_matches, rest_of_in, rest_of_comparison,
  parse_comparison_or_in, parse_simple, joined, parse_or, parse_or_rest, parse_and, parse_and_rest,
  parse_unary, parse_primary, parse_form,
}

-- A tree that leaves room for `d` levels above it.
abbrev pub Fits : ℕ → Node → Type 0
Fits d tree = nesting tree + d ≤ max_parse_depth

abbrev pub FitsAll : ℕ → Nodes → Type 0
FitsAll d trees = nesting_all trees + d ≤ max_parse_depth

-- A parser of a tree that fits at depth `d`, and consumes a token.
abbrev Grows : ℕ → ℕ → ℕ → (List Token → Type 0) → Parser Node → Type 0
Grows n d l H m = Safe n d l H 1 (Fits d) (λ _. Any) m

module _ {n d l : ℕ} (room : d ≤ max_parse_depth) {H : List Token → Type 0} where
  parse_range-Grows : Grows n d l H parse_range
  unfolding parse_range nesting
  parse_range-Grows =
      Safe-weaken
        (Safe-bind next-Safe λ _ _ _ _. Safe-bind (expect-Safe lparen _ (λ e. cc)) λ _ _ _ _.
          Safe-bind parse_operand-Reads λ _ _ _ _.
            Safe-bind (expect-Safe comma _ (λ e. cc)) λ _ _ _ _.
              Safe-bind parse_literal-Reads λ _ _ _ _.
                Safe-bind (expect-Safe comma _ (λ e. cc)) λ _ _ _ _.
                  Safe-bind parse_literal-Reads λ _ _ _ _.
                    Safe-bind (expect-Safe rparen _ (λ e. cc))
                      λ _ _ _ _. Safe-pure {P = Fits d} _ (omega arith))
        (omega arith) (λ _ h. h)

  parse_has-Grows : Grows n d l H parse_has
  unfolding parse_has nesting
  parse_has-Grows =
      Safe-weaken
        (Safe-bind next-Safe λ _ _ _ _. Safe-bind (expect-Safe lparen _ (λ e. cc)) λ _ _ _ _.
          Safe-bind parse_field-Reads λ _ _ _ _.
            Safe-bind (expect-Safe rparen _ (λ e. cc))
              λ _ _ _ _. Safe-pure {P = Fits d} _ (omega arith))
        (omega arith) (λ _ h. h)

  parse_string_match-Grows : (kind : StringMatchKind) → Grows n d l H (parse_string_match kind)
  unfolding parse_string_match nesting
  parse_string_match-Grows kind =
      Safe-weaken
        (Safe-bind next-Safe λ _ _ _ _. Safe-bind (expect-Safe lparen _ (λ e. cc)) λ _ _ _ _.
          Safe-bind parse_field-Reads λ _ _ _ _.
            Safe-bind (expect-Safe comma _ (λ e. cc)) λ _ _ _ _.
              Safe-bind parse_literal-Reads λ _ _ _ _.
                Safe-bind (expect-Safe rparen _ (λ e. cc))
                  λ _ _ _ _. Safe-pure {P = Fits d} _ (omega arith))
        (omega arith) (λ _ h. h)

  parse_matches-Grows : Grows n d l H parse_matches
  unfolding parse_matches nesting
  parse_matches-Grows =
      Safe-weaken
        (Safe-bind next-Safe λ _ _ _ _. Safe-bind (expect-Safe lparen _ (λ e. cc)) λ _ _ _ _.
          Safe-bind (expect-Safe string _ (λ e. cc)) λ _ _ _ _.
            Safe-bind (expect-Safe rparen _ (λ e. cc))
              λ _ _ _ _. Safe-pure {P = Fits d} _ (omega arith))
        (omega arith) (λ _ h. h)

module _ {n d l : ℕ} (room : d ≤ max_parse_depth) {H : List Token → Type 0} (fuel : ℕ)
    (enough : l < fuel) where
  rest_of_in-Grows :
      (pos : ℕ) (func : AggFunc) (field : Field) → Grows n d l H (rest_of_in fuel pos func field)
  unfolding rest_of_in nesting
  rest_of_in-Grows pos func field =
      Safe-weaken
        (Safe-bind next-Safe λ _ le _ _. Safe-bind (expect-Safe lparen _ (λ e. cc)) λ l₂ le₂ _ _.
          Safe-bind (parse_values-Reads n d l₂ fuel (omega arith)) λ _ _ _ _.
            Safe-bind (expect-Safe rparen _ (λ e. cc))
              λ _ _ _ _. Safe-pure {P = Fits d} _ (omega arith))
        (omega arith) (λ _ h. h)

  rest_of_comparison-Grows :
      (pos : ℕ) (func : AggFunc) (field : Field) → Grows n d l H (rest_of_comparison pos func field)
  unfolding rest_of_comparison nesting
  rest_of_comparison-Grows pos func field =
      Safe-weaken
        (Safe-bind parse_compare_op-Reads λ _ _ _ _.
          Safe-bind parse_literal-Reads λ _ _ _ _. Safe-pure {P = Fits d} _ (omega arith))
        (omega arith) (λ _ h. h)

module _ {n d l : ℕ} (room : d ≤ max_parse_depth) {H : List Token → Type 0} (fuel : ℕ)
    (enough : l < fuel) where
  parse_comparison_or_in-Grows : Grows n d l H (parse_comparison_or_in fuel)
  unfolding parse_comparison_or_in
  parse_comparison_or_in-Grows =
      Safe-weaken
        (Safe-bind peek-Safe λ _ le start _. Safe-bind parse_operand-Reads λ _ le₂ o _.
          Safe-bind (keyword-Safe (codes "in")) λ _ le₃ is_in _.
            Safe-if is_in (λ _. rest_of_in-Grows room fuel (omega arith) start.pos o.0 o.1)
              (λ _. rest_of_comparison-Grows room fuel (omega arith) start.pos o.0 o.1))
        (omega arith) (λ _ h. h)

  parse_simple-Grows : (form : Form) → Grows n d l H (parse_simple fuel form)
  unfolding parse_simple
  parse_simple-Grows range_form = parse_range-Grows room
  parse_simple-Grows has_form = parse_has-Grows room
  parse_simple-Grows matches_form = parse_matches-Grows room
  parse_simple-Grows (match_form kind) = parse_string_match-Grows room kind
  parse_simple-Grows _ = parse_comparison_or_in-Grows

nesting-joined :
    (operator : LogicalOp) (left : Node) (rest : Nodes)
    → nesting (joined operator left rest) ≡ max (nesting left) (nesting_all rest)
unfolding joined nesting
nesting-joined operator left no_nodes = omega arith
nesting-joined operator left (node right rest) = refl

at_lparen : (t : Token) → eq_kind t.kind lparen ≡ true → t.kind ≢ eof
at_lparen t e k = ground arith

-- One induction on the fuel. A call on `l` tokens needs six times as much, and the call's rank.
mutual
  unfolding parse_or nesting

  pub parse_or-Grows :
      (n d l fuel : ℕ) {H : List Token → Type 0}
      → 6 * l + 5 < fuel
      → Safe n d l H 1 (Fits (suc d)) (λ _. Any) (parse_or fuel)
  parse_or-Grows n d l zero h = absurd (omega arith)
  parse_or-Grows n d l (suc fuel) h = Safe-bind peek-Safe λ l₁ le t p. nested-Safe t.pos _ p λ room.
      Safe-bind (parse_and-Grows n (suc d) l₁ fuel (omega arith) (omega arith)) λ l₂ le₂ left fl.
        Safe-bind (parse_or_rest-Grows n (suc d) l₂ fuel (omega arith) (omega arith)) λ _ _ rest fr.
          Safe-pure {P = Fits (suc d)} _ (omega (arith, nesting-joined LogicalOp.op_or left rest))

  parse_or_rest-Grows :
      (n d l fuel : ℕ) {H : List Token → Type 0}
      → d ≤ max_parse_depth
      → 6 * l + 5 < fuel
      → Safe n d l H 0 (FitsAll d) (λ _. Any) (parse_or_rest fuel)
  parse_or_rest-Grows n d l zero room h = absurd (omega arith)
  parse_or_rest-Grows n d l (suc fuel) room h =
      Safe-bind (keyword-Safe (codes "or")) λ l₁ le more _.
        Safe-if more
          (λ e.
            Safe-weaken {j = 0}
              (Safe-bind (Safe-pre next_inside-Safe (λ ts g. g e)) λ l₂ le₂ _ _.
                Safe-bind (parse_and-Grows n d l₂ fuel room (omega arith)) λ l₃ le₃ right fr.
                  Safe-bind (parse_or_rest-Grows n d l₃ fuel room (omega arith))
                    λ _ _ rest fs. Safe-pure {P = FitsAll d} _ (omega arith))
              (omega arith) (λ _ f. f))
          (λ _. Safe-pure _ (omega arith))

  parse_and-Grows :
      (n d l fuel : ℕ) {H : List Token → Type 0}
      → d ≤ max_parse_depth
      → 6 * l + 4 < fuel
      → Grows n d l H (parse_and fuel)
  parse_and-Grows n d l zero room h = absurd (omega arith)
  parse_and-Grows n d l (suc fuel) room h =
      Safe-bind (parse_unary-Grows n d l fuel room (omega arith)) λ l₂ le₂ left fl.
        Safe-bind (parse_and_rest-Grows n d l₂ fuel room (omega arith)) λ _ _ rest fr.
          Safe-pure {P = Fits d} _ (omega (arith, nesting-joined LogicalOp.op_and left rest))

  parse_and_rest-Grows :
      (n d l fuel : ℕ) {H : List Token → Type 0}
      → d ≤ max_parse_depth
      → 6 * l + 4 < fuel
      → Safe n d l H 0 (FitsAll d) (λ _. Any) (parse_and_rest fuel)
  parse_and_rest-Grows n d l zero room h = absurd (omega arith)
  parse_and_rest-Grows n d l (suc fuel) room h =
      Safe-bind (keyword-Safe (codes "and")) λ l₁ le more _.
        Safe-if more
          (λ e.
            Safe-weaken {j = 0}
              (Safe-bind (Safe-pre next_inside-Safe (λ ts g. g e)) λ l₂ le₂ _ _.
                Safe-bind (parse_unary-Grows n d l₂ fuel room (omega arith)) λ l₃ le₃ right fr.
                  Safe-bind (parse_and_rest-Grows n d l₃ fuel room (omega arith))
                    λ _ _ rest fs. Safe-pure {P = FitsAll d} _ (omega arith))
              (omega arith) (λ _ f. f))
          (λ _. Safe-pure _ (omega arith))

  parse_unary-Grows :
      (n d l fuel : ℕ) {H : List Token → Type 0}
      → d ≤ max_parse_depth
      → 6 * l + 3 < fuel
      → Grows n d l H (parse_unary fuel)
  parse_unary-Grows n d l zero room h = absurd (omega arith)
  parse_unary-Grows n d l (suc fuel) room h =
      Safe-bind (keyword-Safe (codes "not")) λ l₁ le is_not _.
        Safe-bind peek_keeping-Safe λ l₂ le₂ t p.
          Safe-if is_not
            (λ e.
              Safe-weaken {j = 1}
                (nested-Safe {P = Fits d} t.pos _ p λ deeper.
                  Safe-bind (Safe-pre next_inside-Safe (λ ts g. g e)) λ l₃ le₃ _ _.
                    Safe-bind (parse_unary-Grows n (suc d) l₃ fuel (omega arith) (omega arith))
                      λ _ _ inner f. Safe-pure {P = Fits d} _ (omega arith))
                (omega arith) (λ _ f. f))
            (λ _. parse_primary-Grows n d l₂ fuel room (omega arith))

  parse_primary-Grows :
      (n d l fuel : ℕ) {H : List Token → Type 0}
      → d ≤ max_parse_depth
      → 6 * l + 2 < fuel
      → Grows n d l H (parse_primary fuel)
  parse_primary-Grows n d l zero room h = absurd (omega arith)
  parse_primary-Grows n d l (suc fuel) room h = Safe-bind peek-Safe λ l₁ le t p.
      Safe-if (eq_kind t.kind lparen)
        (λ e.
          Safe-weaken {j = 1}
            (Safe-bind (Safe-pre next_inside-Safe (Head-NotAtEnd t (at_lparen t e))) λ l₂ le₂ _ _.
              Safe-bind (parse_or-Grows n d l₂ fuel (omega arith)) λ _ _ inner f.
                Safe-bind (expect-Safe rparen _ (λ e. cc))
                  λ _ _ _ _. Safe-pure {P = Fits d} _ (omega arith))
            (omega arith) (λ _ f. f))
        (λ _.
          Safe-if (eq_kind t.kind ident)
            (λ _. parse_form-Grows n d l₁ fuel (form_of (to_lower t.text)) room (omega arith))
            (λ _. Safe-raise t.pos _ p))

  parse_form-Grows :
      (n d l fuel : ℕ) {H : List Token → Type 0} (form : Form)
      → d ≤ max_parse_depth
      → 6 * l + 1 < fuel
      → Grows n d l H (parse_form fuel form)
  parse_form-Grows n d l zero form room h = absurd (omega arith)
  parse_form-Grows n d l (suc fuel) (traversal_form direction) room h =
      Safe-weaken {j = 1}
        (Safe-bind next-Safe λ l₁ le _ _. Safe-bind (expect-Safe lparen _ (λ e. cc)) λ l₂ le₂ _ _.
          Safe-bind (expect-Safe ident _ (λ e. cc)) λ l₃ le₃ _ _.
            Safe-bind (expect-Safe rparen _ (λ e. cc)) λ l₄ le₄ _ _.
              Safe-bind (expect-Safe lbrace _ (λ e. cc)) λ l₅ le₅ _ _.
                Safe-bind (parse_or-Grows n d l₅ fuel (omega arith)) λ _ _ inner f.
                  Safe-bind (expect-Safe rbrace _ (λ e. cc))
                    λ _ _ _ _. Safe-pure {P = Fits d} _ (omega arith))
        (omega arith) (λ _ f. f)
  parse_form-Grows n d l (suc fuel) form room h = parse_simple-Grows room fuel (omega arith) form
