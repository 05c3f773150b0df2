-- ===== src/Formula/Lexer.antt =====
-- Formula.Lexer: parser.next and parser.peekIsLParen of pkg/formula/formula.go. The bytes behind `pos` are kept in
-- place of the position.
pub mod Printed
pub mod Progress
use flexitype.Prelude.{ℕ, Bool, true, false, ◌||◌, List, [], ◌∷◌, ◌==◌, if◌then◌else◌}
use flexitype.Bytes.{Bytes, is_space, is_digit, is_letter, span}
use flexitype.Formula.Ast.{Token, eof, lparen, rparen, number, ident, operator, invalid, Refs}

pub record State : Type 0 where
  pub rest : Bytes
  pub tok : Token
  pub names : Refs

unfoldable pub is_operator : ℕ → Bool
is_operator c = c == b'+' || c == b'-' || c == b'*' || c == b'/'

unfoldable pub is_number_byte : ℕ → Bool
unfolding is_digit
is_number_byte c = is_digit c || c == b'.'

unfoldable pub starts_name : ℕ → Bool
unfolding is_letter
starts_name c = is_letter c || c == b'_'

unfoldable pub is_name_byte : ℕ → Bool
unfolding is_letter is_digit
is_name_byte c = is_letter c || is_digit c || c == b'_'

-- The longest run of bytes with `p`, as a token.
unfoldable pub scan_run : (Bytes → Token) → (ℕ → Bool) → Bytes → Token × Bytes
unfolding span
scan_run make p s = let (text, rest) = span p s in (make text, rest)

-- The switch of `next`.
unfoldable pub scan : Bytes → Token × Bytes
unfolding is_operator is_number_byte starts_name is_name_byte scan_run
scan [] = (eof, [])
scan (c ∷ cs) =
    if c == b'('
    then (lparen, cs)
    else if c == b')'
    then (rparen, cs)
    else if is_operator c
    then (operator c, cs)
    else if is_number_byte c
    then scan_run number is_number_byte (c ∷ cs)
    else if starts_name c
    then scan_run ident is_name_byte (c ∷ cs)
    else (invalid c, cs)

unfoldable pub skip_space : Bytes → Bytes
unfolding span is_space
skip_space s = (span is_space s).1

unfoldable pub next : State → State
unfolding scan skip_space
next s = let (t, rest) = scan (skip_space s.rest) in record s { tok = t; rest = rest }

unfoldable pub starts_call : Bytes → Bool
starts_call [] = false
starts_call (c ∷ cs) = c == b'('

unfoldable pub peek_is_lparen : State → Bool
unfolding starts_call skip_space
peek_is_lparen s = starts_call (skip_space s.rest)
