-- ===== src/Fql/Terms/Safe.antt =====
-- Fql.Terms.Safe: the parsers of fields, operands, operators and literals are safe.
use flexitype.Prelude.{
  ℕ, zero, suc, ◌≤◌, ◌<◌, ◌≡◌, refl, ◌≢◌, true, ◌&&◌, not, List, arith, Option, none, some,
}
use flexitype.Bytes.{codes, equal_fold, to_lower}
use flexitype.Fql.Token.{
  TokenKind, Token, eq_kind, eof, ident, string, number, lparen, rparen, comma, dot, op,
}
use flexitype.Fql.Ast.{AggFunc, CompareOp, func_none}
use flexitype.Fql.Reader.{Parser}
use flexitype.Fql.Reader.Safe.{
  Safe, Any, Head, NotAtEnd, Head-NotAtEnd, Safe-pure, Safe-raise, Safe-if, Safe-weaken, Safe-bind,
  Safe-pre, peek-Safe, next-Safe, next_inside-Safe, peek_second-Safe, expect-Safe,
}
use flexitype.Fql.Terms.{
  link_field, field_of, parse_field, call_operand, plain_operand, operand_of, func_of,
  parse_operand, bad_compare_op, named_op, parse_compare_op, unit_suffix, is_unit_stop_word,
  literal_of, parse_literal, parse_values,
}

-- Any value, behind at least `k` tokens.
abbrev pub Reads : {A : Type 0} → ℕ → ℕ → ℕ → (List Token → Type 0) → ℕ → Parser A → Type 0
Reads n d l H k m = Safe n d l H k (λ _. Unit) (λ _. Any) m

module _ {n d l : ℕ} {H : List Token → Type 0} where
  link_field-Reads : (t : Token) → Reads n d l H 0 (link_field t)
  unfolding link_field
  link_field-Reads t = Safe-bind peek-Safe λ _ _ u p.
      Safe-if (eq_kind u.kind dot)
        (λ _.
          Safe-weaken {j = 0}
            (Safe-bind next-Safe
              λ _ _ _ _. Safe-bind (expect-Safe ident _ (λ e. cc)) λ _ _ _ _. Safe-pure _ tt)
            (omega arith) (λ _ h. h))
        (λ _. Safe-pure _ tt)

  field_of-Reads : (t : Token) → Reads n d l H 0 (field_of t)
  unfolding field_of
  field_of-Reads t =
      Safe-if (equal_fold t.text (codes "type")) (λ _. Safe-pure _ tt)
        (λ _.
          Safe-if (equal_fold t.text (codes "link")) (λ _. link_field-Reads t)
            (λ _. Safe-pure _ tt))

module _ {n d l : ℕ} {H : List Token → Type 0} where
  pub parse_field-Reads : Reads n d l H 1 parse_field
  unfolding parse_field
  parse_field-Reads = Safe-bind (expect-Safe ident _ (λ e. cc)) λ _ _ t _. field_of-Reads t

module _ {n d l : ℕ} {H : List Token → Type 0} where
  call_operand-Reads : (func : AggFunc) → Reads n d l H 1 (call_operand func)
  unfolding call_operand
  call_operand-Reads func =
      Safe-weaken
        (Safe-bind next-Safe λ _ _ _ _. Safe-bind next-Safe λ _ _ _ _.
          Safe-bind parse_field-Reads
            λ _ _ _ _. Safe-bind (expect-Safe rparen _ (λ e. cc)) λ _ _ _ _. Safe-pure _ tt)
        (omega arith) (λ _ h. h)

  plain_operand-Reads : Reads n d l H 1 plain_operand
  unfolding plain_operand
  plain_operand-Reads = Safe-bind parse_field-Reads λ _ _ _ _. Safe-pure _ tt

module _ {n d l : ℕ} where
  operand_of-Reads : (func : AggFunc) → Reads n d l NotAtEnd 1 (operand_of func)
  unfolding operand_of
  operand_of-Reads func_none = plain_operand-Reads
  operand_of-Reads func = Safe-bind peek_second-Safe λ _ _ u _.
      Safe-if (eq_kind u.kind lparen) (λ _. call_operand-Reads _) (λ _. plain_operand-Reads)

at_ident : (t : Token) → eq_kind t.kind ident ≡ true → t.kind ≢ eof
at_ident t e k = ground arith

at_op : (t : Token) → eq_kind t.kind op ≡ true → t.kind ≢ eof
at_op t e k = ground arith

module _ {n d l : ℕ} {H : List Token → Type 0} where
  pub parse_operand-Reads : Reads n d l H 1 parse_operand
  unfolding parse_operand
  parse_operand-Reads = Safe-bind peek-Safe λ _ _ t _.
      Safe-if (eq_kind t.kind ident)
        (λ e.
          Safe-pre (operand_of-Reads (func_of (to_lower t.text))) (Head-NotAtEnd t (at_ident t e)))
        (λ _. plain_operand-Reads)

  bad_compare_op-Reads : (t : Token) → t.pos ≤ n → Reads n d l H 1 (bad_compare_op t)
  unfolding bad_compare_op
  bad_compare_op-Reads t p = Safe-raise t.pos _ p

module _ {n d l : ℕ} where
  named_op-Reads :
      (t : Token) (o : Option CompareOp) → t.pos ≤ n → Reads n d l NotAtEnd 1 (named_op t o)
  unfolding named_op
  named_op-Reads t none p = bad_compare_op-Reads t p
  named_op-Reads t (some cmp) p = Safe-bind next_inside-Safe λ _ _ _ _. Safe-pure _ tt

module _ {n d l : ℕ} {H : List Token → Type 0} where
  pub parse_compare_op-Reads : Reads n d l H 1 parse_compare_op
  unfolding parse_compare_op
  parse_compare_op-Reads = Safe-bind peek-Safe λ _ _ t p.
      Safe-if (eq_kind t.kind op)
        (λ e.
          Safe-bind (Safe-pre next_inside-Safe (Head-NotAtEnd t (at_op t e)))
            λ _ _ _ _. Safe-pure _ tt)
        (λ _.
          Safe-if (eq_kind t.kind ident)
            (λ e. Safe-pre (named_op-Reads t _ p) (Head-NotAtEnd t (at_ident t e)))
            (λ _. bad_compare_op-Reads t p))

  unit_suffix-Reads : Reads n d l H 0 unit_suffix
  unfolding unit_suffix
  unit_suffix-Reads = Safe-bind peek-Safe λ _ _ u _.
      Safe-if (eq_kind u.kind ident && not (is_unit_stop_word (to_lower u.text)))
        (λ _. Safe-bind next-Safe λ _ _ _ _. Safe-pure _ tt) (λ _. Safe-pure _ tt)

module _ {n d l : ℕ} where
  literal_of-Reads :
      (t : Token) (kind : TokenKind)
      → t.pos ≤ n
      → t.kind ≡ kind
      → Reads n d l (Head t) 1 (literal_of kind t)
  unfolding literal_of
  literal_of-Reads t string p e =
      Safe-bind (Safe-pre next_inside-Safe (Head-NotAtEnd t (λ k. cc))) λ _ _ _ _. Safe-pure _ tt
  literal_of-Reads t number p e =
      Safe-bind (Safe-pre next_inside-Safe (Head-NotAtEnd t (λ k. cc)))
        λ _ _ _ _. Safe-bind unit_suffix-Reads λ _ _ _ _. Safe-pure _ tt
  literal_of-Reads t ident p e =
      Safe-bind (Safe-pre next_inside-Safe (Head-NotAtEnd t (λ k. cc))) λ _ _ _ _. Safe-pure _ tt
  literal_of-Reads t _ p e = Safe-raise t.pos _ p

module _ {n d l : ℕ} {H : List Token → Type 0} where
  pub parse_literal-Reads : Reads n d l H 1 parse_literal
  unfolding parse_literal
  parse_literal-Reads = Safe-bind peek-Safe λ _ _ t p. literal_of-Reads t t.kind p refl

-- Each literal takes a token, so fuel above the number of tokens is enough.
pub parse_values-Reads :
    (n d l fuel : ℕ) {H : List Token → Type 0} → l < fuel → Reads n d l H 1 (parse_values fuel)
unfolding parse_values
parse_values-Reads n d l zero h = absurd (omega arith)
parse_values-Reads n d l (suc fuel) h = Safe-bind parse_literal-Reads λ l' le lit _.
    Safe-bind peek-Safe λ l'' le' t _.
      Safe-if (eq_kind t.kind comma)
        (λ _.
          Safe-weaken {j = 0}
            (Safe-bind next-Safe λ m le'' _ _.
              Safe-bind (parse_values-Reads n d m fuel (omega arith)) λ _ _ _ _. Safe-pure _ tt)
            (omega arith) (λ _ u. u))
        (λ _. Safe-pure _ tt)
