-- ===== src/Fql/Lexer/Reads.antt =====
-- Fql.Lexer.Reads: what one round of the loop in `lex` of pkg/fql/lexer.go reads.
use flexitype.Prelude.{
  ℕ, ◌+◌, ◌≤◌, ◌<◌, ◌≡◌, refl, ap, ◌≢◌, ◌⊎◌, inr, true, Option, none, some, [], ◌∷◌, ◌++◌, arith,
  length, length-append, drop, All,
}
use flexitype.Bytes.{Bytes, is_space}
use flexitype.Outcome.{Outcome, Ensures}
use flexitype.Fql.Token.{TokenKind, Token, Error, eof, string}
use flexitype.Fql.Lexer.{Round, head_is, is_byte}
use flexitype.Fql.Lexer.Grammar.{Lexeme}

-- What a round consumed: white space, or a token that starts at `i`.
abbrev pub TokenOf : ℕ → Bytes → Bytes → Option Token → Type 0
TokenOf i consumed rest none = All (λ c. is_space c ≡ true) consumed
TokenOf i consumed rest (some t) =
    (t.pos ≡ i)
    × (t.kind ≢ eof)
    × ((t.kind ≡ string) ⊎ (t.text ≡ consumed))
    × (length t.text ≤ length consumed)
    × Lexeme t.kind consumed t.text rest

-- A round at `i` with the input `input` consumed a non-empty prefix, and its token is read off it.
pub record Reads (i : ℕ) (input : Bytes) (r : Round) : Type 0 where
  pub consumed : Bytes
  pub splits : consumed ++ r.rest ≡ input
  pub moves : i + length consumed ≡ r.at
  pub nonempty : 0 < length consumed
  pub token_of : TokenOf i consumed r.rest r.token

-- An error stands at or behind `i`, and not behind the end of the `n` bytes from there.
abbrev pub Within : ℕ → ℕ → Error → Type 0
Within i n e = (i ≤ e.pos) × (e.pos ≤ i + n)

abbrev pub Good : ℕ → Bytes → Outcome Error Round → Type 0
Good i input = Ensures (Within i (length input)) (Reads i input)

pub head_is-drop : (b : ℕ) (rest : Bytes) → head_is (is_byte b) rest ≡ true → b ∷ drop 1 rest ≡ rest
unfolding head_is
head_is-drop b [] h = cc
head_is-drop b (c ∷ rest) h = ground arith

-- A round that read `consumed` and stands at `at`.
module _ (i at : ℕ) (consumed rest : Bytes) {input : Bytes} (splits : consumed ++ rest ≡ input)
    (moves : i + length consumed ≡ at) (nonempty : 0 < length consumed) where
  pub emit-Reads :
      (kind : TokenKind)
      → kind ≢ eof
      → Lexeme kind consumed consumed rest
      → Reads i input (record {
        token = some (record { kind = kind; text = consumed; pos = i });
        at = at;
        rest = rest;
      })
  emit-Reads kind ne form = record {
    consumed = consumed;
    splits = splits;
    moves = moves;
    nonempty = nonempty;
    token_of = (refl, ne, inr refl, omega arith, form);
  }

  pub end-Within : at ≤ i + length input
  end-Within = omega (arith, length-append consumed rest, ap length splits)
