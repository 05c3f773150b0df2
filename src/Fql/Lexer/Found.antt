-- ===== src/Fql/Lexer/Found.antt =====
-- Fql.Lexer.Found: what `lex` of pkg/fql/lexer.go reads where a token of the grammar stands.
use flexitype.Prelude.{
  ℕ, suc, ◌+◌, ◌≡◌, refl, ap, inl, inr, true, false, ◌||◌, some, [], ◌∷◌, ◌++◌, arith, ◌==◌, ==_iff,
  Bool-cases, length,
}
use flexitype.Bytes.{Bytes, codes, eq_bytes, eq_bytes→eq, is_space, is_digit, is_letter}
use flexitype.Outcome.{ok}
use flexitype.Fql.Token.{
  TokenKind, eof, ident, string, number, lparen, rparen, lbrace, rbrace, comma, dot, op,
}
use flexitype.Fql.Lexer.{
  head_is, is_byte, scan_string, close_string, scan_order, scan_bang, punctuation, scan_long,
  scan_punctuation, scan, write,
}
use flexitype.Fql.Lexer.Grammar.{StringBody, StringLiteral, is_operator, Lexeme}
use flexitype.Fql.Lexer.Inner.{read_round, scan_head, Found, number-Found, word-Found}

scan_string-plain :
    (quote i c : ℕ) (rest : Bytes)
    → (c == quote || c == b'\\') ≡ false
    → scan_string quote i (c ∷ rest) ≡ write c (scan_string quote (i + 1) rest)
unfolding scan_string write
scan_string-plain quote i c [] h = ground arith
scan_string-plain quote i c (d ∷ rest) h = ground arith

scan_string-closed :
    (quote i : ℕ) (rest : Bytes)
    → (quote == b'\\') ≡ false
    → scan_string quote i (quote ∷ rest) ≡ some ([], i + 1, rest)
unfolding scan_string
scan_string-closed quote i [] h = ground arith
scan_string-closed quote i (d ∷ rest) h = ground arith

scan_string-Found :
    (quote i : ℕ) (rest : Bytes) {body text : Bytes}
    → StringBody quote body text
    → (quote == b'\\') ≡ false
    → scan_string quote i (body ++ rest) ≡ some (text, i + length body, rest)
unfolding scan_string write
scan_string-Found quote i rest StringBody.closed q = scan_string-closed quote i rest q
scan_string-Found quote i rest (StringBody.escaped {c} {body} {text} b) q =
    rw (scan_string-Found quote (i + 2) rest b q) (
      ap (λ (at : ℕ). some (c ∷ text, at, rest)) {x = i + 2 + length body}
        {y = i + suc (suc (length body))} (omega arith))
scan_string-Found quote i rest (StringBody.plain {c} {body} {text} h b) q =
    rw (scan_string-plain quote i c (body ++ rest) h, scan_string-Found quote (i + 1) rest b q)
      (ap (λ (at : ℕ). some (c ∷ text, at, rest)) {x = i + 1 + length body}
        {y = i + suc (length body)} (omega arith))

string-Found :
    (i : ℕ) (rest : Bytes) {consumed text : Bytes}
    → StringLiteral consumed text
    → Found i string consumed text rest
unfolding Found scan_head scan scan_punctuation scan_long punctuation is_space is_digit is_letter
    close_string
string-Found i rest (StringLiteral.double_quoted {body} {text} b) =
    rw (scan_string-Found b'"' (i + 1) rest b refl) (
      ap (λ (at : ℕ). ok (read_round string text i at rest)) {x = i + 1 + length body}
        {y = i + suc (length body)} (omega arith))
string-Found i rest (StringLiteral.single_quoted {body} {text} b) =
    rw (scan_string-Found b'\'' (i + 1) rest b refl) (
      ap (λ (at : ℕ). ok (read_round string text i at rest)) {x = i + 1 + length body}
        {y = i + suc (length body)} (omega arith))

mark-Found :
    (i mark : ℕ) (kind : TokenKind) (consumed text rest : Bytes)
    → is_space mark ≡ false
    → punctuation mark ≡ some kind
    → (consumed ≡ mark ∷ []) × (text ≡ consumed)
    → Found i kind consumed text rest
unfolding Found scan_head scan scan_punctuation
mark-Found i mark kind consumed text rest s p (e, t) = rw (t, e, s, p) refl

same-Found :
    (i : ℕ) (kind : TokenKind) (consumed text rest mark : Bytes)
    → text ≡ consumed
    → eq_bytes consumed mark ≡ true
    → Found i kind mark mark rest
    → Found i kind consumed text rest
same-Found i kind consumed text rest mark t e f = let m = eq_bytes→eq consumed mark e in rw (t, m) f

order-Found :
    (i : ℕ) (c : ℕ) (rest : Bytes)
    → (c == b'<' || c == b'>') ≡ true
    → head_is (is_byte b'=') rest ≡ false
    → Found i op (c ∷ []) (c ∷ []) rest
unfolding Found scan_head scan scan_punctuation scan_long punctuation is_space scan_order
order-Found i c rest h e = elim (Bool-cases (c == b'<')) [
  | inl l ↦ rw ((==_iff c b'<').0 l, e) refl
  | inr l ↦ rw ((==_iff c b'>').0 (ground arith), e) refl
]

operator-Found :
    (i : ℕ) (consumed text rest : Bytes)
    → is_operator consumed rest ≡ true
    → text ≡ consumed
    → Found i op consumed text rest
unfolding Found scan_head scan scan_punctuation scan_long punctuation is_space scan_order scan_bang
    is_operator head_is
operator-Found i consumed text rest h t =
    let is_mark = same-Found i op consumed text rest in
    elim (Bool-cases (eq_bytes consumed (codes "="))) [
      | inl e ↦ is_mark (codes "=") t e refl
      | inr e1 ↦ elim (Bool-cases (eq_bytes consumed (codes "!="))) [
        | inl e ↦ is_mark (codes "!=") t e refl
        | inr e2 ↦ elim (Bool-cases (eq_bytes consumed (codes "<="))) [
          | inl e ↦ is_mark (codes "<=") t e refl
          | inr e3 ↦ elim (Bool-cases (eq_bytes consumed (codes ">="))) [
            | inl e ↦ is_mark (codes ">=") t e refl
            | inr e4 ↦ elim (Bool-cases (eq_bytes consumed (codes "<"))) [
              | inl e ↦ is_mark (codes "<") t e (order-Found i b'<' rest refl (ground arith))
              | inr e5 ↦
                  is_mark (codes ">") t (ground arith) (order-Found i b'>' rest refl (ground arith))
            ]
          ]
        ]
      ]
    ]

-- A round reads the token that stands there.
pub Lexeme-Found :
    (i : ℕ) (kind : TokenKind) (consumed text rest : Bytes)
    → Lexeme kind consumed text rest
    → scan_head i (consumed ++ rest) ≡ ok (read_round kind text i (i + length consumed) rest)
unfolding Found punctuation is_space
Lexeme-Found i eof consumed text rest h = absurd h
Lexeme-Found i lparen consumed text rest h = mark-Found i b'(' lparen consumed text rest refl refl h
Lexeme-Found i rparen consumed text rest h = mark-Found i b')' rparen consumed text rest refl refl h
Lexeme-Found i lbrace consumed text rest h = mark-Found i b'{' lbrace consumed text rest refl refl h
Lexeme-Found i rbrace consumed text rest h = mark-Found i b'}' rbrace consumed text rest refl refl h
Lexeme-Found i comma consumed text rest h = mark-Found i b',' comma consumed text rest refl refl h
Lexeme-Found i dot consumed text rest h = mark-Found i b'.' dot consumed text rest refl refl h
Lexeme-Found i op consumed text rest (h, t) = operator-Found i consumed text rest h t
Lexeme-Found i number consumed text rest ((form, ends), t) = rw t (number-Found i rest form ends)
Lexeme-Found i ident consumed text rest ((form, ends), t) = rw t (word-Found i rest form ends)
Lexeme-Found i string consumed text rest h = string-Found i rest h
