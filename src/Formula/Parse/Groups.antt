-- ===== src/Formula/Parse/Groups.antt =====
-- Formula.Parse.Groups: an operation in parentheses is read back where its operands are.
use flexitype.Prelude.{
  ℕ, suc, ◌≡◌, refl, ap, ◌∙◌, true, false, ◌||◌, Option, [], ◌∷◌, ◌++◌, ◌==◌, arith, Bool-cases,
  inl, inr,
}
use mathlib.Core.List.{append_assoc}
use flexitype.Bytes.{Bytes}
use flexitype.Outcome.{ok, bind}
use flexitype.Formula.Ast.{Node, bin, Refs}
use flexitype.Formula.Lexer.{State, next, is_operator}
use flexitype.Formula.Lexer.Printed.{at, ends, at-operator}
use flexitype.Formula.Parser.{
  Parsed, close, parse_expr, expr_rest, parse_term, term_rest, parse_factor,
}
use flexitype.Formula.Parser.Reads.{noted}
use flexitype.Formula.Parse.Operands.{print, IsReadBack, term-close, expr-close, then_ok}

module _ (parse_float : Bytes → Option ℕ) where
  -- What a loop does behind the operand on the right of `c`.
  abbrev term_on : ℕ → ℕ → Node → Node × State → Parsed
  term_on k c left q = term_rest parse_float k (bin c left q.0) q.1

  abbrev expr_on : ℕ → ℕ → Node → Node × State → Parsed
  expr_on k c left q = expr_rest parse_float k (bin c left q.0) q.1

  module _ (k c : ℕ) (op : is_operator c ≡ true) (left : Node) (s : Bytes) (r : Refs) where
    term-more :
        (c == b'*' || c == b'/') ≡ true
        → term_rest parse_float (suc k) left (at (c ∷ s) r)
          ≡ bind (parse_factor parse_float k (at s r)) (term_on k c left)
    unfolding term_rest
    term-more m = rw (at-operator r c s op, m) (unfold next in refl)

    term-stop :
        (c == b'*' || c == b'/') ≡ false
        → term_rest parse_float (suc k) left (at (c ∷ s) r) ≡ ok (left, at (c ∷ s) r)
    unfolding term_rest
    term-stop m = rw (at-operator r c s op, m)

    expr-more :
        (c == b'+' || c == b'-') ≡ true
        → expr_rest parse_float (suc k) left (at (c ∷ s) r)
          ≡ bind (parse_term parse_float k (at s r)) (expr_on k c left)
    unfolding expr_rest
    expr-more m = rw (at-operator r c s op, m) (unfold next in refl)

  module _ (k : ℕ) (s : Bytes) (r : Refs) where
    pub term-first :
        {left : Node} {t : State}
        → parse_factor parse_float k (at s r) ≡ ok (left, t)
        → parse_term parse_float (suc k) (at s r) ≡ term_rest parse_float k left t
    unfolding parse_term
    term-first e = then_ok (λ (q : Node × State). term_rest parse_float k q.0 q.1) e

    pub expr-first :
        {left : Node} {t : State}
        → parse_term parse_float k (at s r) ≡ ok (left, t)
        → parse_expr parse_float (suc k) (at s r) ≡ expr_rest parse_float k left t
    unfolding parse_expr
    expr-first e = then_ok (λ (q : Node × State). expr_rest parse_float k q.0 q.1) e

    group :
        {inner : Node} {t : State}
        → parse_expr parse_float k (at s r) ≡ ok (inner, t)
        → parse_factor parse_float (suc k) (at (b'(' ∷ s) r) ≡ close inner t
    unfolding parse_factor next
    group e = then_ok (λ (q : Node × State). close q.0 q.1) e

  close_lem :
      (inner : Node) (s : Bytes) (r : Refs) → close inner (at (b')' ∷ s) r) ≡ ok (inner, at s r)
  unfolding close next
  close_lem inner s r = refl

  module _ (x y : Node) (k : ℕ) (hx : IsReadBack parse_float x (suc (suc k)))
      (hy : IsReadBack parse_float y (suc k)) (c : ℕ) (op : is_operator c ≡ true) (rest : Bytes)
      (r : Refs) where
    abbrev tail : Bytes
    tail = b')' ∷ rest

    abbrev closed : State
    closed = at tail (noted y (noted x r))

    abbrev whole : Bytes
    whole = print x ++ (c ∷ (print y ++ tail))

    left_read :
        parse_factor parse_float (suc (suc k)) (at whole r)
        ≡ ok (x, at (c ∷ (print y ++ tail)) (noted x r))
    left_read = hx (c ∷ (print y ++ tail)) r (unfold ends in ground arith)

    right_read :
        parse_factor parse_float (suc k) (at (print y ++ tail) (noted x r)) ≡ ok (y, closed)
    right_read = hy tail (noted x r) (unfold ends is_operator in refl)

    product :
        (c == b'*' || c == b'/') ≡ true
        → parse_expr parse_float (suc (suc (suc (suc k)))) (at whole r) ≡ ok (bin c x y, closed)
    product m =
        expr-first (suc (suc (suc k))) whole r (
          term-first (suc (suc k)) whole r left_read
          ∙ term-more (suc k) c op x (print y ++ tail) (noted x r) m
          ∙ then_ok (term_on (suc k) c x) right_read
          ∙ term-close parse_float k (bin c x y) rest (noted y (noted x r)))
        ∙ expr-close parse_float (suc (suc k)) (bin c x y) rest (noted y (noted x r))

    summand :
        (c == b'*' || c == b'/') ≡ false
        → parse_expr parse_float (suc (suc (suc (suc k)))) (at whole r) ≡ ok (bin c x y, closed)
    summand m =
        expr-first (suc (suc (suc k))) whole r (
          term-first (suc (suc k)) whole r left_read
          ∙ term-stop (suc k) c op x (print y ++ tail) (noted x r) m)
        ∙ expr-more (suc (suc k)) c op x (print y ++ tail) (noted x r)
            (unfold is_operator in ground arith)
        ∙ then_ok (expr_on (suc (suc k)) c x) (
            term-first (suc k) (print y ++ tail) (noted x r) right_read
            ∙ term-close parse_float k y rest (noted y (noted x r)))
        ∙ expr-close parse_float (suc k) (bin c x y) rest (noted y (noted x r))

    bin_read :
        parse_factor parse_float (suc (suc (suc (suc (suc k))))) (at (b'(' ∷ whole) r)
        ≡ ok (bin c x y, at rest (noted y (noted x r)))
    bin_read =
        group (suc (suc (suc (suc k)))) whole r
          (elim (Bool-cases (c == b'*' || c == b'/')) [ inl m ↦ product m | inr m ↦ summand m ])
        ∙ close_lem (bin c x y) rest (noted y (noted x r))

  pub bin-IsReadBack :
      (x y : Node) (k : ℕ)
      → IsReadBack parse_float x (suc (suc k))
      → IsReadBack parse_float y (suc k)
      → (c : ℕ) → is_operator c ≡ true
      → IsReadBack parse_float (bin c x y) (suc (suc (suc (suc (suc k)))))
  unfolding print noted
  bin-IsReadBack x y k hx hy c op rest r e =
      ap (λ s. parse_factor parse_float (suc (suc (suc (suc (suc k))))) (at (b'(' ∷ s) r)) shape
      ∙ bin_read x y k hx hy c op rest r
    where
      shape :
          (print x ++ (c ∷ (print y ++ b')' ∷ []))) ++ rest
          ≡ print x ++ (c ∷ (print y ++ b')' ∷ rest))
      shape = simp append_assoc
