-- ===== src/Formula/Parse/Operands.antt =====
-- Formula.Parse.Operands: the text of a tree, and that the parser reads back a number, a name, a call and a negation.
use flexitype.Prelude.{
  ℕ, suc, ◌≡◌, refl, ap, ◌∙◌, Bool, true, false, ◌&&◌, Option, none, some, [], ◌∷◌, ◌++◌,
  if◌then◌else◌,
}
use mathlib.Core.List.{append_assoc}
use flexitype.Bytes.{Bytes, codes}
use flexitype.Outcome.{Outcome, ok, failed, bind}
use flexitype.Formula.Ast.{
  Aggregate, sum, count, avg, min, max, aggregate_of, Node, num, ref, agg, bin, neg, ident,
  nested_aggregate, Refs, record_call, record_bare,
}
use flexitype.Formula.Lexer.{State, next, peek_is_lparen, is_operator}
use flexitype.Formula.Lexer.Printed.{
  at, ends, IsNumber, IsName, name_ends, at-number, at-name, at-operator, no_call,
}
use flexitype.Formula.Parser.{
  close_call, call_name, parse_call, parse_ref, parse_name, parse_number, expr_rest, term_rest,
  parse_factor, is_some,
}
use flexitype.Formula.Parser.Reads.{noted}

unfoldable pub word : Aggregate → Bytes
word sum = codes "sum"
word count = codes "count"
word avg = codes "avg"
word min = codes "min"
word max = codes "max"

-- The text of a tree.
unfoldable pub print : Node → Bytes
unfolding word
print (num f text) = text
print (ref name) = name
print (agg fn name) = word fn ++ (b'(' ∷ (name ++ b')' ∷ []))
print (bin c x y) = b'(' ∷ (print x ++ (c ∷ (print y ++ b')' ∷ [])))
print (neg x) = b'-' ∷ print x

-- The trees that have a text: numbers that stand for their floats, names, and the four operators.
abbrev pub IsWritable : (Bytes → Option ℕ) → Node → Type 0
IsWritable parse_float (num f text) = IsNumber text × (parse_float text ≡ some f)
IsWritable parse_float (ref name) = IsName name
IsWritable parse_float (agg fn name) = IsName name
IsWritable parse_float (bin c x y) =
    (is_operator c ≡ true) × IsWritable parse_float x × IsWritable parse_float y
IsWritable parse_float (neg x) = IsWritable parse_float x

-- A part that succeeds hands its result on.
pub then_ok {ℓ κ} :
    {E : Type 0} {A : Type ℓ} {B : Type κ} {m : Outcome E A} (f : A → Outcome E B) {a : A}
    → m ≡ ok a
    → bind m f ≡ f a
then_ok f e = ap (λ m. bind m f) e

module _ (parse_float : Bytes → Option ℕ) where
  -- The operand `x`, written before `rest`, is read with the fuel, and `rest` is left.
  abbrev pub IsReadBack : Node → ℕ → Type 0
  IsReadBack x fuel =
      (rest : Bytes) (r : Refs)
      → ends rest ≡ true
      → parse_factor parse_float fuel (at (print x ++ rest) r) ≡ ok (x, at rest (noted x r))

  parse_number-some :
      (f : ℕ) (text : Bytes) (s : State)
      → parse_float text ≡ some f
      → parse_number parse_float text s ≡ ok (num f text, next s)
  unfolding parse_number
  parse_number-some f text s p = rw (p, parse_number)

  pub num-IsReadBack :
      (f : ℕ) (text : Bytes) (k : ℕ)
      → IsWritable parse_float (num f text)
      → IsReadBack (num f text) (suc k)
  unfolding print noted
  num-IsReadBack f text k (n, p) rest r e =
      rw (at-number r text rest n e) (unfold parse_factor next in parse_number-some f text _ p)

  parse_ref-lem :
      (o : Option Aggregate) (name rest : Bytes) (r : Refs)
      → ends rest ≡ true
      → (elim o [
        | none ↦ parse_ref name (record { rest = rest; tok = ident name; names = r })
        | some fn ↦
            if peek_is_lparen (record { rest = rest; tok = ident name; names = r })
            then parse_call fn (record { rest = rest; tok = ident name; names = r })
            else parse_ref name (record { rest = rest; tok = ident name; names = r })
      ])
        ≡ ok (ref name, at rest (record_bare name r))
  unfolding parse_ref
  parse_ref-lem none name rest r e = unfold next in refl
  parse_ref-lem (some fn) name rest r e = rw (no_call r (ident name) rest e) (unfold next in refl)

  pub ref-IsReadBack : (name : Bytes) (k : ℕ) → IsName name → IsReadBack (ref name) (suc k)
  unfolding print noted
  ref-IsReadBack name k n rest r e =
      rw (at-name r name rest n (name_ends rest e))
        (unfold parse_factor parse_name in parse_ref-lem (aggregate_of name) name rest r e)

  word-call :
      (fn : Aggregate) (k : ℕ) (s : Bytes) (r : Refs)
      → parse_factor parse_float (suc k) (at (word fn ++ b'(' ∷ s) r) ≡ call_name fn (at s r)
  unfolding word parse_factor parse_name parse_call next aggregate_of peek_is_lparen
  word-call sum k s r = refl
  word-call count k s r = refl
  word-call avg k s r = refl
  word-call min k s r = refl
  word-call max k s r = refl

  -- A call: the word, the parenthesis and the name.
  call_name-lem :
      (fn : Aggregate) (name rest : Bytes) (r : Refs)
      → IsName name
      → call_name fn (at (name ++ b')' ∷ rest) r)
        ≡ ok (agg fn name, at rest (record_call fn name r))
  unfolding is_operator call_name is_some
  call_name-lem fn name rest r n =
      rw (at-name r name (b')' ∷ rest) n (name_ends (b')' ∷ rest) (unfold ends in refl)))
        (guarded (is_some (aggregate_of name)))
    where
      guarded :
          (b : Bool)
          → (if b && peek_is_lparen (record { rest = b')' ∷ rest; tok = ident name; names = r })
              then failed (nested_aggregate fn)
              else close_call fn name (
                  next (record {
                    rest = b')' ∷ rest;
                    tok = ident name;
                    names = record_call fn name r;
                  })))
            ≡ ok (agg fn name, at rest (record_call fn name r))
      guarded true =
          rw (no_call r (ident name) (b')' ∷ rest) (unfold ends in refl))
            (unfold next close_call in refl)
      guarded false = unfold next close_call in refl

  pub agg-IsReadBack :
      (fn : Aggregate) (name : Bytes) (k : ℕ) → IsName name → IsReadBack (agg fn name) (suc k)
  unfolding print noted
  agg-IsReadBack fn name k n rest r e =
      ap (λ s. parse_factor parse_float (suc k) (at s r)) (shape fn name rest)
      ∙ word-call fn k (name ++ b')' ∷ rest) r
      ∙ call_name-lem fn name rest r n
    where
      shape :
          (fn : Aggregate) (name rest : Bytes)
          → (word fn ++ (b'(' ∷ (name ++ b')' ∷ []))) ++ rest
            ≡ word fn ++ (b'(' ∷ (name ++ (b')' ∷ rest)))
      shape fn name rest = simp append_assoc

  pub neg-IsReadBack : (x : Node) (k : ℕ) → IsReadBack x k → IsReadBack (neg x) (suc k)
  unfolding print noted
  neg-IsReadBack x k h rest r e =
      rw (at-operator r b'-' (print x ++ rest) (unfold is_operator in refl))
        (unfold parse_factor next in then_ok (λ (q : Node × State). ok (neg q.0, q.1)) (h rest r e))

  -- A loop stops at the parenthesis.
  pub term-close :
      (k : ℕ) (left : Node) (s : Bytes) (r : Refs)
      → term_rest parse_float (suc k) left (at (b')' ∷ s) r) ≡ ok (left, at (b')' ∷ s) r)
  unfolding term_rest next
  term-close k left s r = refl

  pub expr-close :
      (k : ℕ) (left : Node) (s : Bytes) (r : Refs)
      → expr_rest parse_float (suc k) left (at (b')' ∷ s) r) ≡ ok (left, at (b')' ∷ s) r)
  unfolding expr_rest next
  expr-close k left s r = refl
