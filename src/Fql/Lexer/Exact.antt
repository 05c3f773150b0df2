-- ===== src/Fql/Lexer/Exact.antt =====
-- Fql.Lexer.Exact: the inputs that `lex` of pkg/fql/lexer.go accepts, and what it returns on them.
use flexitype.Prelude.{
  ℕ, zero, suc, ◌+◌, ◌<◌, ◌≡◌, ◌↔◌, refl, none, sym, ap, subst, true, List, [], ◌∷◌, ◌++◌, arith,
  length, length-append, All,
}
use flexitype.Bytes.{Bytes, is_space}
use flexitype.Outcome.{ok}
use flexitype.Fql.Token.{Token}
use flexitype.Fql.Lexer.{Round, lex_loop, lex, push, scan}
use flexitype.Fql.Lexer.Tokens.{Lexes, lex-Lexes}
use flexitype.Fql.Lexer.Inner.{scan_head, read_round}
use flexitype.Fql.Lexer.Found.{Lexeme-Found}

lex_loop-round :
    (fuel i : ℕ) (input : Bytes) (r : Round) (ts : List Token)
    → scan_head i input ≡ ok r
    → lex_loop fuel r.at r.rest ≡ ok ts
    → lex_loop (suc fuel) i input ≡ ok (push r.token ts)
unfolding lex_loop scan_head
lex_loop-round fuel i [] r ts h e = cc
lex_loop-round fuel i (c ∷ rest) r ts h e = rw (h, e) refl

skip-Found :
    (spaces rest : Bytes) (fuel i : ℕ) (ts : List Token)
    → All (λ c. is_space c ≡ true) spaces
    → length (spaces ++ rest) < fuel
    → ((left : ℕ) → length rest < left → lex_loop left (i + length spaces) rest ≡ ok ts)
    → lex_loop fuel i (spaces ++ rest) ≡ ok ts
skip-Found [] rest fuel i ts a f h =
    subst (λ (at : ℕ). lex_loop fuel at rest ≡ ok ts) {x = i + 0} {y = i} (omega arith) (h fuel f)
skip-Found (c ∷ spaces) rest zero i ts a f h = absurd (omega arith)
skip-Found (c ∷ spaces) rest (suc fuel) i ts (space, a) f h =
    lex_loop-round fuel i (c ∷ (spaces ++ rest))
      (record { token = none; at = i + 1; rest = spaces ++ rest }) ts
      (unfold scan_head scan in rw space refl)
      (skip-Found spaces rest fuel (i + 1) ts a (omega arith) λ left l.
        subst (λ (at : ℕ). lex_loop left at rest ≡ ok ts) {x = i + length (c ∷ spaces)}
          {y = i + 1 + length spaces} (omega arith) (h left l))

lex_loop-Found :
    {i : ℕ} {input : Bytes} {ts : List Token}
    → Lexes i input ts
    → (fuel : ℕ) → length input < fuel
    → lex_loop fuel i input ≡ ok ts
unfolding lex_loop
lex_loop-Found Lexes.done zero f = absurd (omega arith)
lex_loop-Found Lexes.done (suc fuel) f = refl
lex_loop-Found {i} {input} {ts} (Lexes.skip spaces rest e m a l) fuel f =
    subst (λ (v : Bytes). lex_loop fuel i v ≡ ok ts) e
      (skip-Found spaces rest fuel i ts a (omega (arith, ap length e)) λ left s.
        subst (λ (at : ℕ). lex_loop left at rest ≡ ok ts) (sym m) (lex_loop-Found l left s))
lex_loop-Found (Lexes.read t consumed rest e m n p form l) zero f = absurd (omega arith)
lex_loop-Found {i} {input} (Lexes.read {ts} t consumed rest e m n p form l) (suc fuel) f =
    let behind : lex_loop fuel (i + length consumed) rest ≡ ok ts =
      subst (λ (at : ℕ). lex_loop fuel at rest ≡ ok ts) (sym m)
        (lex_loop-Found l fuel (omega (arith, ap length e, length-append consumed rest))) in
    let found : lex_loop (suc fuel) i (consumed ++ rest)
        ≡ ok (record { kind = t.kind; text = t.text; pos = i } ∷ ts) =
      lex_loop-round fuel i (consumed ++ rest)
        (read_round t.kind t.text i (i + length consumed) rest) ts
        (Lexeme-Found i t.kind consumed t.text rest form) behind in
    subst (λ (v : Bytes). lex_loop (suc fuel) i v ≡ ok (t ∷ ts)) e
      (subst
        (λ (q : ℕ).
          lex_loop (suc fuel) i (consumed ++ rest)
          ≡ ok (record { kind = t.kind; text = t.text; pos = q } ∷ ts))
        (sym p) found)

-- lex returns a list of tokens exactly if the input is made of these tokens and of white space by the lexical grammar: from
-- the start of the input, each token stands at its position, its bytes have the form of its kind and its text is theirs,
-- for a string literal what they write with the escapes undone; a word or a number does not go on behind its bytes, nor
-- does a dot follow a number, and `<` and `>` stand alone where no `=` follows; all other bytes are white space, and the
-- end token stands behind the last.
pub lex_iff : (input : Bytes) (ts : List Token) → (lex input ≡ ok ts) ↔ Lexes 0 input ts
unfolding lex
lex_iff input ts = (lex-Lexes input, λ l. lex_loop-Found l (length input + 1) (omega arith))
