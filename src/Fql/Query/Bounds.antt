-- ===== src/Fql/Query/Bounds.antt =====
-- Fql.Query.Bounds: what `parse` promises of every query.
use flexitype.Prelude.{
  ℕ, suc, ◌+◌, ◌*◌, ◌≤◌, ◌<◌, ◌≡◌, refl, ◌≢◌, inl, inr, List, [], ◌∷◌, arith, length, ltb,
  Bool-cases,
}
use flexitype.Bytes.{Bytes, is_blank}
use flexitype.Outcome.{
  ok, failed, out_of_fuel, panicked, Ensures, holds, rejected, Ensures-bind, Ensures-if, Ensures-ok,
  Ensures-failed, Ensures-out_of_fuel, Ensures-panicked, Ensures-errors,
}
use flexitype.Fql.Token.{Token, Error, eq_kind, eof, errorf, empty_query, query_too_long}
use flexitype.Fql.Ast.{Node, nesting}
use flexitype.Fql.Reader.{max_parse_depth}
use flexitype.Fql.Reader.Safe.{
  Safe, Any, IsEnded, Safe-bind, Safe-if, Safe-pure, Safe-raise, peek-Safe,
}
use flexitype.Fql.Lexer.Tokens.{IsLexed, lex-Ensures}
use flexitype.Fql.Parser.{max_query_len}
use flexitype.Fql.Parser.Safe.{Fits, parse_or-Grows}
use flexitype.Fql.Query.{parse_all, parse_tokens, parse}

IsLexed-IsEnded :
    (whole : Bytes) (lo : ℕ) (ts : List Token) → IsLexed whole lo ts → IsEnded (length whole) ts
IsLexed-IsEnded whole lo [] l = l
IsLexed-IsEnded whole lo (t ∷ []) l = (omega (arith, l.1), inl l.0)
IsLexed-IsEnded whole lo (t ∷ u ∷ ts) l =
    (omega (arith, l.2), inr (IsLexed-IsEnded whole (suc t.pos) (u ∷ ts) l.4))

parse_all-Safe :
    (n l fuel : ℕ) → 6 * l + 5 < fuel → Safe n 0 l Any 1 (Fits 1) (λ _. Any) (parse_all fuel)
unfolding parse_all
parse_all-Safe n l fuel h = Safe-bind (parse_or-Grows n 0 l fuel h) λ _ _ tree f.
    Safe-bind peek-Safe
      λ _ _ t p. Safe-if (eq_kind t.kind eof) (λ _. Safe-pure _ f) (λ _. Safe-raise t.pos _ p)

parse_tokens-Ensures :
    (n : ℕ) (ts : List Token) → IsEnded n ts → Ensures (λ e. e.pos ≤ n) (Fits 1) (parse_tokens ts)
unfolding parse_tokens
parse_tokens-Ensures n ts v =
    Ensures-bind
      ((parse_all-Safe n (length ts) (6 * length ts + 6) (omega arith)).run
        (record { tokens = ts; depth = 0 }) v (omega arith) refl tt)
      λ (tree, s) q. holds q.0

parse-Ensures : (input : Bytes) → Ensures (λ e. e.pos ≤ length input) (Fits 1) (parse input)
unfolding parse
parse-Ensures input =
    Ensures-if (is_blank input) (λ _. rejected (omega arith))
      (λ _.
        Ensures-if (ltb max_query_len (length input)) (λ _. rejected (omega arith))
          (λ _.
            Ensures-bind (Ensures-errors (lex-Ensures input) (λ e w. omega (arith, w.1)))
              λ ts l. parse_tokens-Ensures (length input) ts (IsLexed-IsEnded input 0 ts l)))

-- Parsing ends on every query, with a tree or an error: it never indexes past the last token, and the fuel
-- of the model is enough.
pub parse_total : (input : Bytes) → (parse input ≢ out_of_fuel) × (parse input ≢ panicked)
parse_total input =
    (Ensures-out_of_fuel (parse-Ensures input), Ensures-panicked (parse-Ensures input))

-- Negations and traversals nest less than 128 deep in the tree of every query that is accepted.
pub nesting-parse :
    (input : Bytes) {tree : Node} → parse input ≡ ok tree → nesting tree < max_parse_depth
nesting-parse input e = omega (arith, Ensures-ok (parse-Ensures input) e)

-- Every error of a query points into the query, or at its end.
pub parse_error_within : (input : Bytes) {e : Error} → parse input ≡ failed e → e.pos ≤ length input
parse_error_within input e = Ensures-failed (parse-Ensures input) e

-- A query longer than 16 KiB is refused, with an error at position 0, whatever it says.
pub parse_too_long :
    (input : Bytes)
    → max_query_len < length input
    → (e : Error) × (parse input ≡ failed e) × (e.pos ≡ 0)
unfolding parse
parse_too_long input h = elim (Bool-cases (is_blank input)) [
  | inl b ↦ (errorf 0 empty_query, rw b, refl)
  | inr b ↦ (errorf 0 query_too_long, rw b (ground arith), refl)
]
