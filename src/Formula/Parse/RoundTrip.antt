-- ===== src/Formula/Parse/RoundTrip.antt =====
-- Formula.Parse.RoundTrip: a tree written out with parentheses round each operation parses back to itself.
use flexitype.Prelude.{
  ℕ, zero, suc, ◌+◌, ◌-◌, ◌*◌, ◌≤◌, ◌≡◌, subst, refl, sym, ap, ◌∙◌, Option, [], ◌∷◌, ◌++◌, arith,
  length, length-append,
}
use mathlib.Core.List.{append-nil}
use flexitype.Bytes.{Bytes}
use flexitype.Outcome.{ok}
use flexitype.Formula.Ast.{Node, num, ref, agg, bin, neg, Refs}
use flexitype.Formula.Lexer.{State, next}
use flexitype.Formula.Lexer.Printed.{at, ends}
use flexitype.Formula.Parser.{Expr, parse_expr, expr_rest, term_rest, finish, start, parse}
use flexitype.Formula.Parser.Reads.{noted}
use flexitype.Formula.Parse.Operands.{
  print, IsWritable, IsReadBack, num-IsReadBack, ref-IsReadBack, agg-IsReadBack, neg-IsReadBack,
  then_ok,
}
use flexitype.Formula.Parse.{none_yet, NamesOf-noted}
use flexitype.Formula.Parse.Groups.{bin-IsReadBack, term-first, expr-first}
use flexitype.Formula.Names.{reads, reads_bare, reads_numbers, distinct}

cost : Node → ℕ
cost (num f text) = 1
cost (ref name) = 1
cost (agg fn name) = 1
cost (bin c x y) = cost x + cost y + 5
cost (neg x) = cost x + 1

cost-pos : (x : Node) → 1 ≤ cost x
unfolding cost
cost-pos (num f text) = omega arith
cost-pos (ref name) = omega arith
cost-pos (agg fn name) = omega arith
cost-pos (bin c x y) = omega arith
cost-pos (neg x) = omega arith

finish_end : (x : Node) (r : Refs) → finish x (at [] r) ≡ ok (record { root = x; names = r })
unfolding finish next
finish_end x r = refl

abbrev written : Node → Expr
written x = record {
  root = x;
  names = record {
    refs = distinct (reads x);
    scalar_refs = distinct (reads_bare x);
    numeric_refs = distinct (reads_numbers x);
  };
}

names_eq : (x : Node) → ◌≡◌ {A = Expr} (record { root = x; names = noted x none_yet }) (written x)
names_eq x =
    let (all, bare, numbers) = NamesOf-noted (record { root = x; names = noted x none_yet }) refl in
    λ i. record {
      root = x;
      names = record { refs = all i; scalar_refs = bare i; numeric_refs = numbers i };
    }

module _ (parse_float : Bytes → Option ℕ) where
  -- Fuel above a bound is a successor.
  spend {ℓ} :
      {n : ℕ} (P : ℕ → Type ℓ) → ((k : ℕ) → n ≤ k → P (suc k)) → (fuel : ℕ) → suc n ≤ fuel → P fuel
  spend P h zero e = absurd (omega arith)
  spend P h (suc k) e = h k (omega arith)

  written-IsReadBack :
      (x : Node)
      → IsWritable parse_float x
      → (fuel : ℕ) → cost x ≤ fuel
      → IsReadBack parse_float x fuel
  unfolding cost
  written-IsReadBack (num f text) w fuel h =
      spend (IsReadBack parse_float (num f text)) (λ k _. num-IsReadBack parse_float f text k w)
        fuel h
  written-IsReadBack (ref name) w fuel h =
      spend (IsReadBack parse_float (ref name)) (λ k _. ref-IsReadBack parse_float name k w) fuel h
  written-IsReadBack (agg fn name) w fuel h =
      spend (IsReadBack parse_float (agg fn name)) (λ k _. agg-IsReadBack parse_float fn name k w)
        fuel h
  written-IsReadBack (neg x) w fuel h =
      subst (IsReadBack parse_float (neg x)) (omega arith)
        (neg-IsReadBack parse_float x (fuel - 1) (written-IsReadBack x w (fuel - 1) (omega arith)))
  written-IsReadBack (bin c x y) (op, wx, wy) fuel h =
      subst (IsReadBack parse_float (bin c x y)) (omega arith) (
        bin-IsReadBack parse_float x y (fuel - 5)
          (written-IsReadBack x wx (suc (suc (fuel - 5))) (omega (arith, cost-pos y)))
          (written-IsReadBack y wy (suc (fuel - 5)) (omega (arith, cost-pos x))) c op)

  cost-print : (x : Node) → IsWritable parse_float x → cost x ≤ 3 * length (print x) + 1
  unfolding cost print
  cost-print (num f text) w = omega arith
  cost-print (ref name) w = omega arith
  cost-print (agg fn name) w = omega arith
  cost-print (bin c x y) (op, wx, wy) = omega (
    arith,
    cost-print x wx,
    cost-print y wy,
    length-append (print x) (c ∷ (print y ++ b')' ∷ [])),
    length-append (print y) (b')' ∷ []),
  )
  cost-print (neg x) w = omega (arith, cost-print x w)

  term-end :
      (k : ℕ) (left : Node) (r : Refs)
      → 1 ≤ k
      → term_rest parse_float k left (at [] r) ≡ ok (left, at [] r)
  unfolding term_rest next
  term-end zero left r h = absurd (omega arith)
  term-end (suc k) left r h = refl

  expr-end :
      (k : ℕ) (left : Node) (r : Refs)
      → expr_rest parse_float (suc k) left (at [] r) ≡ ok (left, at [] r)
  unfolding expr_rest next
  expr-end k left r = refl

  whole_read :
      (x : Node) (k : ℕ) (r : Refs)
      → IsWritable parse_float x
      → cost x ≤ k
      → parse_expr parse_float (suc (suc k)) (at (print x) r) ≡ ok (x, at [] (noted x r))
  whole_read x k r w h =
      ap (λ s. parse_expr parse_float (suc (suc k)) (at s r)) (sym (append-nil (print x)))
      ∙ expr-first parse_float (suc k) (print x ++ []) r (
          term-first parse_float k (print x ++ []) r
            (written-IsReadBack x w k h [] r (unfold ends in refl))
          ∙ term-end k x (noted x r) (omega (arith, cost-pos x)))
      ∙ expr-end k x (noted x r)

  -- A tree that can be written parses back, from its text, to itself with the names that it reads.
  pub parse-print :
      (x : Node)
      → IsWritable parse_float x
      → parse parse_float (print x)
        ≡ ok (record {
          root = x;
          names = record {
            refs = distinct (reads x);
            scalar_refs = distinct (reads_bare x);
            numeric_refs = distinct (reads_numbers x);
          };
        })
  unfolding parse start finish
  parse-print x w =
      let fuel : 3 * length (print x) + 3 ≡ suc (suc (3 * length (print x) + 1)) = omega arith in
      then_ok (λ (q : Node × State). finish q.0 q.1)
        (subst (λ k. parse_expr parse_float k (start (print x)) ≡ ok (x, at [] (noted x none_yet)))
          (sym fuel) (whole_read x (3 * length (print x) + 1) none_yet w (cost-print x w)))
      ∙ finish_end x (noted x none_yet)
      ∙ ap ok (names_eq x)
