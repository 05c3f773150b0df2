-- ===== src/Fql/Lexer/Tokens.antt =====
-- Fql.Lexer.Tokens: what `lex` returns, on every input.
use flexitype.Prelude.{
  ℕ, zero, suc, ◌+◌, ◌≤◌, ◌<◌, ◌≡◌, refl, ap, ◌∙◌, ◌≢◌, ◌⊎◌, inl, inr, true, Option, none, some,
  List, [], ◌∷◌, ◌++◌, arith, length, length-append, take, drop, take-length, drop-length, All,
}
use mathlib.Core.List.{append_assoc}
use flexitype.Bytes.{Bytes, is_space}
use flexitype.Outcome.{
  ok, failed, out_of_fuel, panicked, Ensures, holds, Ensures-bind, Ensures-ok, Ensures-out_of_fuel,
  Ensures-panicked, Ensures-failed, Ensures-errors,
}
use flexitype.Fql.Token.{Token, Error, eof, string}
use flexitype.Fql.Lexer.{lex_loop, lex, push}
use flexitype.Fql.Lexer.Grammar.{Lexeme}
use flexitype.Fql.Lexer.Reads.{Within, TokenOf}
use flexitype.Fql.Lexer.Rounds.{scan-Reads}

-- The text of a token that is no string literal is the text of the input at its position.
abbrev pub IsText : Bytes → Token → Type 0
IsText whole t = (t.kind ≡ string) ⊎ (take (length t.text) (drop t.pos whole) ≡ t.text)

-- The tokens stand in the order of the input, none before `lo`: each starts behind the start of the one
-- before it and lies inside the input, and the last, and only the last, is the end, at the input's length.
abbrev pub IsLexed : Bytes → ℕ → List Token → Type 0
IsLexed whole lo [] = ⊥
IsLexed whole lo (t ∷ []) = (t.kind ≡ eof) × (t.pos ≡ length whole) × (lo ≤ t.pos)
IsLexed whole lo (t ∷ u ∷ ts) =
    (t.kind ≢ eof)
    × (lo ≤ t.pos)
    × (t.pos + length t.text ≤ length whole)
    × IsText whole t
    × IsLexed whole (suc t.pos) (u ∷ ts)

IsLexed-lower :
    (whole : Bytes) {lo hi : ℕ} (ts : List Token)
    → lo ≤ hi
    → IsLexed whole hi ts
    → IsLexed whole lo ts
IsLexed-lower whole [] h l = l
IsLexed-lower whole (t ∷ []) h l = (l.0, l.1, omega arith)
IsLexed-lower whole (t ∷ u ∷ ts) h l = (l.0, omega arith, l.2, l.3, l.4)

push-IsLexed :
    (whole : Bytes) (i at : ℕ) (before consumed rest : Bytes) (o : Option Token) (ts : List Token)
    → before ++ (consumed ++ rest) ≡ whole
    → length before ≡ i
    → i + length consumed ≡ at
    → 0 < length consumed
    → TokenOf i consumed rest o
    → IsLexed whole at ts
    → IsLexed whole i (push o ts)
push-IsLexed whole i at before consumed rest none ts e n m p h l =
    IsLexed-lower whole ts (omega arith) l
push-IsLexed whole i at before consumed rest (some t) [] e n m p h l = absurd l
push-IsLexed whole i at before consumed rest (some t) (u ∷ ts) e n m p h l = (
  h.1,
  omega (arith, h.0),
  omega (arith, ap length e, length-append before (consumed ++ rest), length-append consumed rest),
  slice h.2,
  IsLexed-lower whole (u ∷ ts) (omega (arith, h.0)) l,
)
  where
    slice : (t.kind ≡ string) ⊎ (t.text ≡ consumed) → IsText whole t
    slice (inl s) = inl s
    slice (inr s) =
        inr
          (rw (s, h.0, ← e, drop-length before (consumed ++ rest) i n) (take-length consumed rest))

-- From position `i` behind `before`, the loop ends within its fuel.
lex_loop-IsLexed :
    (whole : Bytes) (fuel i : ℕ) (before input : Bytes)
    → before ++ input ≡ whole
    → length before ≡ i
    → length input < fuel
    → Ensures (Within 0 (length whole)) (IsLexed whole i) (lex_loop fuel i input)
unfolding lex_loop
lex_loop-IsLexed whole zero i before input e n f = absurd (omega arith)
lex_loop-IsLexed whole (suc fuel) i before [] e n f =
    holds (refl, omega (arith, ap length e, length-append before []), omega arith)
lex_loop-IsLexed whole (suc fuel) i before (c ∷ rest) e n f =
    Ensures-bind
      (Ensures-errors (scan-Reads i c rest)
        (λ err w. omega (arith, w.0, w.1, ap length e, length-append before (c ∷ rest))))
      λ r read.
        Ensures-bind
          (lex_loop-IsLexed whole fuel r.at (before ++ read.consumed) r.rest
            (append_assoc before read.consumed r.rest
              ∙ ap (λ (s : Bytes). before ++ s) read.splits
              ∙ e)
            (omega (arith, length-append before read.consumed, read.moves))
            (omega
              (arith, length-append read.consumed r.rest, ap length read.splits, read.nonempty)))
          λ ts l. holds (
            push-IsLexed whole i r.at before read.consumed r.rest r.token ts (rw read.splits e) n
              read.moves read.nonempty read.token_of l)

-- The input from position `i` on is made of white space and of the tokens, in their order, with the end behind them.
pub data Lexes : ℕ → Bytes → List Token → Type 0 where
  done : {i : ℕ} → Lexes i [] (record { kind = eof; text = []; pos = i } ∷ [])
  skip :
      {i at : ℕ} {input : Bytes} {ts : List Token} (spaces rest : Bytes)
      → spaces ++ rest ≡ input
      → i + length spaces ≡ at
      → All (λ c. is_space c ≡ true) spaces
      → Lexes at rest ts
      → Lexes i input ts
  read :
      {i at : ℕ} {input : Bytes} {ts : List Token} (t : Token) (consumed rest : Bytes)
      → consumed ++ rest ≡ input
      → i + length consumed ≡ at
      → 0 < length consumed
      → t.pos ≡ i
      → Lexeme t.kind consumed t.text rest
      → Lexes at rest ts
      → Lexes i input (t ∷ ts)

push-Lexes :
    (i at : ℕ) (input rest consumed : Bytes) (o : Option Token) (ts : List Token)
    → consumed ++ rest ≡ input
    → i + length consumed ≡ at
    → 0 < length consumed
    → TokenOf i consumed rest o
    → Lexes at rest ts
    → Lexes i input (push o ts)
push-Lexes i at input rest consumed none ts e m p h l = skip consumed rest e m h l
push-Lexes i at input rest consumed (some t) ts e m p h l = read t consumed rest e m p h.0 h.4 l

lex_loop-Lexes :
    (fuel i : ℕ) (input : Bytes)
    → length input < fuel
    → Ensures (λ _. Unit {0}) (Lexes i input) (lex_loop fuel i input)
unfolding lex_loop
lex_loop-Lexes zero i input f = absurd (omega arith)
lex_loop-Lexes (suc fuel) i [] f = holds done
lex_loop-Lexes (suc fuel) i (c ∷ rest) f =
    Ensures-bind (Ensures-errors (scan-Reads i c rest) (λ _ _. tt)) λ r read.
      Ensures-bind
        (lex_loop-Lexes fuel r.at r.rest
          (omega (arith, length-append read.consumed r.rest, ap length read.splits, read.nonempty)))
        λ ts l. holds (
          push-Lexes i r.at (c ∷ rest) r.rest read.consumed r.token ts read.splits read.moves
            read.nonempty read.token_of l)

-- The tokens that lex returns follow the lexical grammar.
pub lex-Lexes : (input : Bytes) {ts : List Token} → lex input ≡ ok ts → Lexes 0 input ts
unfolding lex
lex-Lexes input e = Ensures-ok (lex_loop-Lexes (length input + 1) 0 input (omega arith)) e

pub lex-Ensures : (input : Bytes) → Ensures (Within 0 (length input)) (IsLexed input 0) (lex input)
unfolding lex
lex-Ensures input = lex_loop-IsLexed input (length input + 1) 0 [] input refl refl (omega arith)

-- On every input `lex` ends with a list of tokens or an error: the rounds of the model are enough.
pub lex_ends : (input : Bytes) → (lex input ≢ out_of_fuel) × (lex input ≢ panicked)
lex_ends input = (Ensures-out_of_fuel (lex-Ensures input), Ensures-panicked (lex-Ensures input))

-- The tokens that `lex` returns stand in the order of the input, each behind the start of the one before it
-- and inside the input; a token that is no string literal has the text of the input at its position; and the
-- last token, and only the last, is the end of the input, at the input's length.
pub lex-IsLexed : (input : Bytes) {ts : List Token} → lex input ≡ ok ts → IsLexed input 0 ts
lex-IsLexed input e = Ensures-ok (lex-Ensures input) e

-- An error of `lex` points into the input or at its end.
pub lex_error_within : (input : Bytes) {e : Error} → lex input ≡ failed e → e.pos ≤ length input
lex_error_within input e = omega (arith, (Ensures-failed (lex-Ensures input) e).1)
