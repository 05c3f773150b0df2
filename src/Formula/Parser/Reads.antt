-- ===== src/Formula/Parser/Reads.antt =====
-- Formula.Parser.Reads: each function of the parser ends with the fuel it is given, uses up bytes, and records the
-- names of the tree that it returns.
use Prim.{tt}
use flexitype.Prelude.{
  ℕ, zero, suc, ◌+◌, ◌*◌, ◌≤◌, ◌<◌, ◌≡◌, subst, refl, sym, ap, ◌∙◌, ◌&&◌, ◌||◌, if◌then◌else◌,
  Option, none, some, ◌==◌, arith, length,
}
use flexitype.Bytes.{Bytes}
use flexitype.Outcome.{
  ok, failed, Ensures, holds, rejected, Ensures-bind, Ensures-if, Ensures-weaken,
}
use flexitype.Formula.Ast.{
  Aggregate, aggregate_of, Node, num, ref, agg, bin, neg, Token, lparen, rparen, number, ident,
  operator, Error, invalid_number, Refs, record_call, record_bare,
}
use flexitype.Formula.Lexer.{State, next, peek_is_lparen}
use flexitype.Formula.Lexer.Progress.{size, weight, next-Shrinks}
use flexitype.Formula.Parser.{
  Parsed, close, close_call, call_name, opened_call, parse_call, parse_ref, parse_name,
  parse_number, parse_expr, expr_rest, parse_term, term_rest, parse_factor, is_some,
}

-- What reading a tree, from left to right, records.
unfoldable pub noted : Node → Refs → Refs
noted (num f text) r = r
noted (ref name) r = record_bare name r
noted (agg fn name) r = record_call fn name r
noted (bin c x y) r = noted y (noted x r)
noted (neg x) r = noted x r

abbrev pub Any : Error → Type 0
Any e = Unit {0}

-- A tree read from a state that had recorded `r`, with at most `m` bytes left.
abbrev pub Reads : ℕ → Refs → Node × State → Type 0
Reads m r q = (size q.1 ≤ m) × (noted q.0 r ≡ q.1.names)

abbrev ReadsFrom : ℕ → Refs → Node × State → Type 0
ReadsFrom m r q = (suc (size q.1) ≤ m) × (noted q.0 r ≡ q.1.names)

pub next-names : (s : State) → (next s).names ≡ s.names
unfolding next
next-names s = refl

close-Reads :
    (m : ℕ) (r : Refs) (inner : Node) (rest : Bytes) (t : Token) (names : Refs)
    → length rest + weight t ≤ m
    → noted inner r ≡ names
    → Ensures Any (Reads m r) (close inner (record { rest = rest; tok = t; names = names }))
unfolding close
close-Reads m r inner rest rparen names h e =
    let s : State = record { rest = rest; tok = rparen; names = names } in
    holds (omega (arith, next-Shrinks s), e ∙ sym (next-names s))
close-Reads m r inner rest _ names h e = rejected tt

-- A token was read as the tree `e`, and the parser went on to the next.
leaf-Reads :
    (m : ℕ) (r : Refs) (e : Node) (s : State)
    → suc (length s.rest) ≤ m
    → noted e r ≡ s.names
    → Ensures Any (ReadsFrom m r) (ok (e, next s))
leaf-Reads m r e s h k = holds (omega (arith, next-Shrinks s), k ∙ sym (next-names s))

close_call-Reads :
    (m : ℕ) (fn : Aggregate) (name rest : Bytes) (t : Token) (r names : Refs)
    → length rest + weight t < m
    → record_call fn name r ≡ names
    → Ensures Any
        (ReadsFrom m r)
        (close_call fn name (record { rest = rest; tok = t; names = names }))
unfolding close_call
close_call-Reads m fn name rest rparen r names h e =
    leaf-Reads m r (agg fn name) (record { rest = rest; tok = rparen; names = names }) (omega arith)
      (unfold noted in e)
close_call-Reads m fn name rest _ r names h e = rejected tt

call_name-Reads :
    (m : ℕ) (fn : Aggregate) (rest : Bytes) (t : Token) (names : Refs)
    → length rest + weight t < m
    → Ensures Any
        (ReadsFrom m names)
        (call_name fn (record { rest = rest; tok = t; names = names }))
unfolding call_name
call_name-Reads m fn rest (ident name) names h =
    let s : State = record { rest = rest; tok = ident name; names = record_call fn name names } in
    Ensures-if
      (is_some (aggregate_of name)
        && peek_is_lparen (record { rest = rest; tok = ident name; names = names }))
      (λ _. rejected tt)
      (λ _.
        close_call-Reads m fn name (next s).rest (next s).tok names (next s).names
          (omega (arith, next-Shrinks s)) (sym (next-names s)))
call_name-Reads m fn rest _ names h = rejected tt

opened_call-Reads :
    (m : ℕ) (fn : Aggregate) (rest : Bytes) (t : Token) (names : Refs)
    → length rest + weight t < m
    → Ensures Any
        (ReadsFrom m names)
        (opened_call fn (record { rest = rest; tok = t; names = names }))
unfolding opened_call
opened_call-Reads m fn rest lparen names h =
    let s : State = record { rest = rest; tok = lparen; names = names } in
    subst (λ r. Ensures Any (ReadsFrom m r) (call_name fn (next s))) (next-names s)
      (call_name-Reads m fn (next s).rest (next s).tok (next s).names
        (omega (arith, next-Shrinks s)))
opened_call-Reads m fn rest _ names h = rejected tt

parse_call-Reads :
    (m : ℕ) (fn : Aggregate) (s : State)
    → suc (length s.rest) ≤ m
    → Ensures Any (ReadsFrom m s.names) (parse_call fn s)
unfolding parse_call
parse_call-Reads m fn s h =
    subst (λ r. Ensures Any (ReadsFrom m r) (parse_call fn s)) (next-names s)
      (opened_call-Reads m fn (next s).rest (next s).tok (next s).names
        (omega (arith, next-Shrinks s)))

parse_ref-Reads :
    (m : ℕ) (name : Bytes) (s : State)
    → suc (length s.rest) ≤ m
    → Ensures Any (ReadsFrom m s.names) (parse_ref name s)
unfolding parse_ref
parse_ref-Reads m name s h =
    leaf-Reads m s.names (ref name) (record s { names = record_bare name s.names }) h
      (unfold noted in refl)

parse_name-Reads :
    (m : ℕ) (name : Bytes) (s : State)
    → suc (length s.rest) ≤ m
    → Ensures Any (ReadsFrom m s.names) (parse_name name s)
unfolding parse_name
parse_name-Reads m name s h =
    elim (aggregate_of name)
      as (λ o. Ensures Any (ReadsFrom m s.names) (elim o [
        | none ↦ parse_ref name s
        | some fn ↦ if peek_is_lparen s then parse_call fn s else parse_ref name s
      ])) [
        | none ↦ parse_ref-Reads m name s h
        | some fn ↦
            Ensures-if (peek_is_lparen s) (λ _. parse_call-Reads m fn s h)
              (λ _. parse_ref-Reads m name s h)
      ]

shrunk :
    (m : ℕ) (r : Refs) (n : ℕ) {p : Parsed}
    → n ≤ m
    → Ensures Any (Reads n r) p
    → Ensures Any (Reads m r) p
shrunk m r n h v = Ensures-weaken v λ (e, s) q. (omega (arith, q.0), q.1)

grown :
    (m : ℕ) (r : Refs) (n : ℕ) {p : Parsed}
    → n < m
    → Ensures Any (Reads n r) p
    → Ensures Any (ReadsFrom m r) p
grown m r n h v = Ensures-weaken v λ (e, s) q. (omega (arith, q.0), q.1)

module _ (parse_float : Bytes → Option ℕ) where
  parse_number-Reads :
      (m : ℕ) (text : Bytes) (s : State)
      → suc (length s.rest) ≤ m
      → Ensures Any (ReadsFrom m s.names) (parse_number parse_float text s)
  unfolding parse_number
  parse_number-Reads m text s h =
      elim (parse_float text)
        as (λ o.
          Ensures Any (ReadsFrom m s.names)
            (elim o [ none ↦ failed (invalid_number text) | some f ↦ ok (num f text, next s) ])) [
              | none ↦ rejected tt
              | some f ↦ leaf-Reads m s.names (num f text) s h (unfold noted in refl)
            ]

  mutual
    unfolding parse_expr expr_rest parse_term term_rest parse_factor noted

    pub parse_expr-Reads :
        (fuel m : ℕ) (s : State)
        → size s ≤ m
        → 3 * m + 3 ≤ fuel
        → Ensures Any (ReadsFrom m s.names) (parse_expr parse_float fuel s)
    parse_expr-Reads zero m s h f = absurd (omega arith)
    parse_expr-Reads (suc fuel) m s h f =
        Ensures-bind (parse_term-Reads fuel m s h (omega arith)) λ (left, s') q.
          grown m s.names (size s') q.0 (
            expr_rest-Reads fuel (size s') s.names left s'.rest s'.tok s'.names (omega arith) q.1
              (omega (arith, q.0)))

    expr_rest-Reads :
        (fuel m : ℕ) (r : Refs) (left : Node) (rest : Bytes) (t : Token) (names : Refs)
        → length rest + weight t ≤ m
        → noted left r ≡ names
        → 3 * m + 1 ≤ fuel
        → Ensures Any
            (Reads m r)
            (expr_rest parse_float fuel left (record { rest = rest; tok = t; names = names }))
    expr_rest-Reads zero m r left rest t names h e f = absurd (omega arith)
    expr_rest-Reads (suc fuel) m r left rest (operator c) names h e f =
        let s : State = record { rest = rest; tok = operator c; names = names } in
        Ensures-if (c == b'+' || c == b'-')
          (λ _.
            Ensures-bind
              (parse_term-Reads fuel (length rest) (next s) (next-Shrinks s) (omega arith))
              λ (right, s') q. shrunk m r (size s') (omega (arith, q.0)) (
                expr_rest-Reads fuel (size s') r (bin c left right) s'.rest s'.tok s'.names
                  (omega arith) (ap (noted right) (e ∙ sym (next-names s)) ∙ q.1)
                  (omega (arith, q.0))))
          (λ _. holds (h, e))
    expr_rest-Reads (suc fuel) m r left rest _ names h e f = holds (h, e)

    parse_term-Reads :
        (fuel m : ℕ) (s : State)
        → size s ≤ m
        → 3 * m + 2 ≤ fuel
        → Ensures Any (ReadsFrom m s.names) (parse_term parse_float fuel s)
    parse_term-Reads zero m s h f = absurd (omega arith)
    parse_term-Reads (suc fuel) m s h f =
        Ensures-bind (parse_factor-Reads fuel m s.rest s.tok s.names h (omega arith))
          λ (left, s') q. grown m s.names (size s') q.0 (
            term_rest-Reads fuel (size s') s.names left s'.rest s'.tok s'.names (omega arith) q.1
              (omega (arith, q.0)))

    term_rest-Reads :
        (fuel m : ℕ) (r : Refs) (left : Node) (rest : Bytes) (t : Token) (names : Refs)
        → length rest + weight t ≤ m
        → noted left r ≡ names
        → 3 * m + 1 ≤ fuel
        → Ensures Any
            (Reads m r)
            (term_rest parse_float fuel left (record { rest = rest; tok = t; names = names }))
    term_rest-Reads zero m r left rest t names h e f = absurd (omega arith)
    term_rest-Reads (suc fuel) m r left rest (operator c) names h e f =
        let s : State = record { rest = rest; tok = operator c; names = names } in
        Ensures-if (c == b'*' || c == b'/')
          (λ _.
            Ensures-bind
              (parse_factor-Reads fuel (length rest) (next s).rest (next s).tok (next s).names
                (next-Shrinks s) (omega arith))
              λ (right, s') q. shrunk m r (size s') (omega (arith, q.0)) (
                term_rest-Reads fuel (size s') r (bin c left right) s'.rest s'.tok s'.names
                  (omega arith) (ap (noted right) (e ∙ sym (next-names s)) ∙ q.1)
                  (omega (arith, q.0))))
          (λ _. holds (h, e))
    term_rest-Reads (suc fuel) m r left rest _ names h e f = holds (h, e)

    parse_factor-Reads :
        (fuel m : ℕ) (rest : Bytes) (t : Token) (names : Refs)
        → length rest + weight t ≤ m
        → 3 * m + 1 ≤ fuel
        → Ensures Any
            (ReadsFrom m names)
            (parse_factor parse_float fuel (record { rest = rest; tok = t; names = names }))
    parse_factor-Reads zero m rest t names h f = absurd (omega arith)
    parse_factor-Reads (suc fuel) m rest (operator c) names h f =
        let s : State = record { rest = rest; tok = operator c; names = names } in
        Ensures-if (c == b'-')
          (λ _.
            Ensures-bind
              (parse_factor-Reads fuel (length rest) (next s).rest (next s).tok (next s).names
                (next-Shrinks s) (omega arith))
              λ (inner, s') q.
                holds (omega (arith, q.0), ap (noted inner) (sym (next-names s)) ∙ q.1))
          (λ _. rejected tt)
    parse_factor-Reads (suc fuel) m rest (number text) names h f =
        parse_number-Reads m text (record { rest = rest; tok = number text; names = names })
          (omega arith)
    parse_factor-Reads (suc fuel) m rest (ident name) names h f =
        parse_name-Reads m name (record { rest = rest; tok = ident name; names = names })
          (omega arith)
    parse_factor-Reads (suc fuel) m rest lparen names h f =
        let s : State = record { rest = rest; tok = lparen; names = names } in
        Ensures-bind (parse_expr-Reads fuel (length rest) (next s) (next-Shrinks s) (omega arith))
          λ (inner, s') q. grown m names (size s') (omega (arith, q.0)) (
            close-Reads (size s') names inner s'.rest s'.tok s'.names (omega arith)
              (ap (noted inner) (sym (next-names s)) ∙ q.1))
    parse_factor-Reads (suc fuel) m rest _ names h f = rejected tt
