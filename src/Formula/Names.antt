-- ===== src/Formula/Names.antt =====
-- Formula.Names: which names a tree reads, in its own words, and that the parser records them.
pub mod Each
use flexitype.Prelude.{
  ℕ, suc, ◌+◌, ◌*◌, ◌≡◌, refl, sym, ap, ◌∙◌, ◌≢◌, Bool, true, false, ◌&&◌, ◌||◌, not, Option, none,
  some, List, [], ◌∷◌, ◌++◌, if◌then◌else◌, arith, length, Bool-cases, inl, inr,
}
use mathlib.Core.List.{append_assoc, append-nil, filter}
use flexitype.Bytes.{Bytes, eq_bytes, eq_bytes→eq, eq_bytes_refl}
use flexitype.Outcome.{
  Outcome, ok, failed, out_of_fuel, panicked, bind, Ensures, holds, rejected, Ensures-bind,
  Ensures-ok, Ensures-out_of_fuel, Ensures-panicked,
}
use flexitype.Formula.Ast.{
  Aggregate, count, is_count, Node, num, ref, agg, bin, neg, Refs, Token, eof, seen, add_new,
  record_ref, record_numeric_ref, record_call, record_bare,
}
use flexitype.Formula.Lexer.{State}
use flexitype.Formula.Lexer.Progress.{size, weight, next-Shrinks}
use flexitype.Formula.Parser.{Expr, start, finish, parse, parse_expr}
use flexitype.Formula.Parser.Reads.{noted, Any, Reads, parse_expr-Reads}

-- The names that a tree reads; those that it reads bare; those whose values it takes as numbers.
unfoldable pub reads : Node → List Bytes
reads (num f text) = []
reads (ref name) = name ∷ []
reads (agg fn name) = name ∷ []
reads (bin c x y) = reads x ++ reads y
reads (neg x) = reads x

unfoldable pub reads_bare : Node → List Bytes
reads_bare (num f text) = []
reads_bare (ref name) = name ∷ []
reads_bare (agg fn name) = []
reads_bare (bin c x y) = reads_bare x ++ reads_bare y
reads_bare (neg x) = reads_bare x

unfoldable pub reads_numbers : Node → List Bytes
reads_numbers (num f text) = []
reads_numbers (ref name) = name ∷ []
reads_numbers (agg fn name) = if is_count fn then [] else name ∷ []
reads_numbers (bin c x y) = reads_numbers x ++ reads_numbers y
reads_numbers (neg x) = reads_numbers x

-- The first of each name.
unfoldable pub without : Bytes → List Bytes → List Bytes
without name [] = []
without name (x ∷ xs) = if eq_bytes x name then without name xs else x ∷ without name xs

unfoldable pub distinct : List Bytes → List Bytes
unfolding without
distinct [] = []
distinct (x ∷ xs) = x ∷ without x (distinct xs)

unfoldable pub add_all : List Bytes → List Bytes → List Bytes
add_all names [] = names
add_all names (x ∷ xs) = add_all (add_new x names) xs

add_all-append :
    (names xs ys : List Bytes) → add_all names (xs ++ ys) ≡ add_all (add_all names xs) ys
unfolding add_all
add_all-append names [] ys = refl
add_all-append names (x ∷ xs) ys = add_all-append (add_new x names) xs ys

unfoldable pub record_all : Node → Refs → Refs
record_all e r = record {
  refs = add_all r.refs (reads e);
  scalar_refs = add_all r.scalar_refs (reads_bare e);
  numeric_refs = add_all r.numeric_refs (reads_numbers e);
}

pub noted-record_all : (e : Node) (r : Refs) → noted e r ≡ record_all e r
unfolding noted record_all add_all reads reads_bare reads_numbers record_call record_bare record_ref
    record_numeric_ref is_count
noted-record_all (num f text) r = refl
noted-record_all (ref name) r = refl
noted-record_all (agg count name) r = refl
noted-record_all (agg _ name) r = refl
noted-record_all (bin c x y) r =
    rw (noted-record_all x r, noted-record_all y) (unfold record_all in simp add_all-append)
noted-record_all (neg x) r = noted-record_all x r

fresh : List Bytes → List Bytes → List Bytes
fresh names [] = []
fresh names (x ∷ xs) = if seen x names then fresh names xs else x ∷ fresh names xs

seen-append :
    (x y : Bytes) (names : List Bytes) → seen x (names ++ y ∷ []) ≡ (seen x names || eq_bytes x y)
unfolding seen
seen-append x y [] = ground arith
seen-append x y (n ∷ names) = ground (arith, seen-append x y names)

seen_eq : (x y : Bytes) (names : List Bytes) → eq_bytes x y ≡ true → seen x names ≡ seen y names
seen_eq x y names e = ap (λ z. seen z names) (eq_bytes→eq x y e)

fresh-add :
    (x : Bytes) (names xs : List Bytes) → fresh (names ++ x ∷ []) xs ≡ fresh names (without x xs)
unfolding fresh without
fresh-add x names [] = refl
fresh-add x names (y ∷ ys) = ground (arith, seen-append y x names, fresh-add x names ys)

fresh-without :
    (x : Bytes) (names xs : List Bytes)
    → seen x names ≡ true
    → fresh names (without x xs) ≡ fresh names xs
unfolding fresh without
fresh-without x names [] h = refl
fresh-without x names (y ∷ ys) h = ground (arith, seen_eq y x names, fresh-without x names ys)

add_all-distinct : (names xs : List Bytes) → add_all names xs ≡ names ++ fresh names (distinct xs)
unfolding add_all distinct fresh add_new
add_all-distinct names [] = sym (append-nil names)
add_all-distinct names (x ∷ xs) = elim (Bool-cases (seen x names)) [
  | inl old ↦ rw (old, fresh-without x names (distinct xs) old) (add_all-distinct names xs)
  | inr new ↦
      rw (new, add_all-distinct (names ++ x ∷ []) xs, fresh-add x names (distinct xs))
        (append_assoc names (x ∷ []) (fresh names (without x (distinct xs))))
]

fresh-nil : (xs : List Bytes) → fresh [] xs ≡ xs
unfolding fresh seen
fresh-nil [] = refl
fresh-nil (x ∷ xs) = ap (λ ys. x ∷ ys) (fresh-nil xs)

pub add_all-nil : (xs : List Bytes) → add_all [] xs ≡ distinct xs
add_all-nil xs = add_all-distinct [] xs ∙ fresh-nil (distinct xs)
