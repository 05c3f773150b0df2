-- ===== src/Fql/Lexer.antt =====
-- Fql.Lexer: `lex` of pkg/fql/lexer.go.
-- `i` is the byte position, and the list beside it is `input[i:]`. One call of `scan` is one round of
-- the outer loop: it gives the token of the round, if any, and the position and input that it leaves.
pub mod Grammar
pub mod Strings
pub mod Reads
pub mod Numbers
pub mod Rounds
pub mod Tokens
pub mod Inner
pub mod Found
pub mod Exact
use flexitype.Prelude.{
  ℕ, zero, suc, ◌+◌, ◌≡◌, refl, Bool, true, false, ◌&&◌, ◌||◌, Option, none, some, List, [], ◌∷◌,
  ◌++◌, ◌==◌, if◌then◌else◌, length, drop,
}
use flexitype.Bytes.{Bytes, codes, is_space, is_digit, is_letter, span}
use flexitype.Outcome.{Outcome, ok, failed, out_of_fuel, bind}
use flexitype.Fql.Token.{
  TokenKind, Token, Error, Message, errorf, eof, ident, string, number, lparen, rparen, lbrace,
  rbrace, comma, dot, op, unexpected_bang, unterminated_string, point_needs_digit, one_point_only,
  unexpected_character,
}

pub record Round : Type 0 where
  pub token : Option Token
  pub at : ℕ
  pub rest : Bytes

abbrev emit : TokenKind → Bytes → ℕ → ℕ → Bytes → Outcome Error Round
emit kind text start at rest = ok (record {
  token = some (record { kind = kind; text = text; pos = start });
  at = at;
  rest = rest;
})

-- The first byte of what is left is `c`.
unfoldable pub head_is : (ℕ → Bool) → Bytes → Bool
head_is p [] = false
head_is p (c ∷ cs) = p c

abbrev pub is_byte : ℕ → ℕ → Bool
is_byte c b = b == c

write : ℕ → Option (Bytes × ℕ × Bytes) → Option (Bytes × ℕ × Bytes)
write b none = none
write b (some (text, j, r)) = some (b ∷ text, j, r)

-- The body of a string literal behind its quote: the text, and what follows the closing quote.
pub scan_string : ℕ → ℕ → Bytes → Option (Bytes × ℕ × Bytes)
unfolding write
scan_string quote i [] = none
scan_string quote i (c ∷ []) = if c == quote then some ([], i + 1, []) else none
scan_string quote i (c ∷ d ∷ rest) =
    let escaped = scan_string quote (i + 2) rest in
    let plain = scan_string quote (i + 1) (d ∷ rest) in
    if c == b'\\'
    then write d escaped
    else if c == quote
    then some ([], i + 1, d ∷ rest)
    else write c plain

close_string : ℕ → Option (Bytes × ℕ × Bytes) → Outcome Error Round
close_string start none = failed (errorf start unterminated_string)
close_string start (some (text, at, rest)) = emit string text start at rest

-- A further dot behind a number is an error.
pub end_number : ℕ → Bytes → ℕ → Bytes → Outcome Error Round
unfolding head_is
end_number start text at rest =
    if head_is (is_byte b'.') rest
    then failed (errorf at one_point_only)
    else emit number text start at rest

-- The fraction behind the dot at `at - 1`, where `whole` is the text before the dot.
scan_fraction : ℕ → Bytes → ℕ → Bytes → Outcome Error Round
unfolding end_number span
scan_fraction start whole at rest =
    let (digits, after) = span is_digit rest in
    if head_is is_digit rest
    then end_number start (whole ++ (b'.' ∷ digits)) (at + length digits) after
    else failed (errorf at point_needs_digit)

-- The digits that follow the first byte `c` of a number.
pub scan_number : ℕ → ℕ → Bytes → Outcome Error Round
unfolding scan_fraction
scan_number start c rest =
    let (digits, after) = span is_digit rest in
    let at = start + 1 + length digits in
    if head_is (is_byte b'.') after
    then scan_fraction start (c ∷ digits) (at + 1) (drop 1 after)
    else end_number start (c ∷ digits) at after

is_word_byte : ℕ → Bool
is_word_byte c = is_letter c || is_digit c || c == b'_'

pub scan_word : ℕ → Bytes → Outcome Error Round
unfolding is_word_byte span
scan_word start input =
    let (word, after) = span is_word_byte input in emit ident word start (start + length word) after

-- `>` or `<`, with an `=` behind it or not.
scan_order : ℕ → ℕ → Bytes → Outcome Error Round
unfolding head_is
scan_order start c rest =
    if head_is (is_byte b'=') rest
    then emit op (c ∷ b'=' ∷ []) start (start + 2) (drop 1 rest)
    else emit op (c ∷ []) start (start + 1) rest

scan_bang : ℕ → Bytes → Outcome Error Round
unfolding head_is
scan_bang start rest =
    if head_is (is_byte b'=') rest
    then emit op (b'!' ∷ b'=' ∷ []) start (start + 2) (drop 1 rest)
    else failed (errorf start unexpected_bang)

-- The cases of one byte each.
pub punctuation : ℕ → Option TokenKind
punctuation c =
    if c == b'('
    then some lparen
    else if c == b')'
    then some rparen
    else if c == b'{'
    then some lbrace
    else if c == b'}'
    then some rbrace
    else if c == b','
    then some comma
    else if c == b'.'
    then some dot
    else if c == b'='
    then some op
    else none

pub starts_number : ℕ → Bytes → Bool
unfolding head_is
starts_number c rest = is_digit c || c == b'-' && head_is is_digit rest

-- The cases that read more than one byte.
scan_long : ℕ → ℕ → Bytes → Outcome Error Round
unfolding scan_bang scan_order scan_string close_string scan_number scan_word starts_number
scan_long i c rest =
    if c == b'!'
    then scan_bang i rest
    else if c == b'>' || c == b'<'
    then scan_order i c rest
    else if c == b'"' || c == b'\''
    then close_string i (scan_string c (i + 1) rest)
    else if starts_number c rest
    then scan_number i c rest
    else if is_letter c || c == b'_'
    then scan_word i (c ∷ rest)
    else failed (errorf i (unexpected_character c))

scan_punctuation : ℕ → ℕ → Bytes → Option TokenKind → Outcome Error Round
unfolding scan_long
scan_punctuation i c rest none = scan_long i c rest
scan_punctuation i c rest (some kind) = emit kind (c ∷ []) i (i + 1) rest

pub scan : ℕ → ℕ → Bytes → Outcome Error Round
unfolding scan_punctuation punctuation
scan i c rest =
    if is_space c
    then ok (record { token = none; at = i + 1; rest = rest })
    else scan_punctuation i c rest (punctuation c)

abbrev pub push : Option Token → List Token → List Token
push none ts = ts
push (some t) ts = t ∷ ts

-- The outer loop. Each round reads at least one byte, so `length input + 1` rounds are enough.
pub lex_loop : ℕ → ℕ → Bytes → Outcome Error (List Token)
unfolding scan
lex_loop zero i input = out_of_fuel
lex_loop (suc fuel) i [] = ok (record { kind = eof; text = []; pos = i } ∷ [])
lex_loop (suc fuel) i (c ∷ rest) =
    bind (scan i c rest) λ r. bind (lex_loop fuel r.at r.rest) λ ts. ok (push r.token ts)

unfoldable pub lex : Bytes → Outcome Error (List Token)
unfolding lex_loop
lex input = lex_loop (length input + 1) 0 input
