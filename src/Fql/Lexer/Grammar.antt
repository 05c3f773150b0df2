-- ===== src/Fql/Lexer/Grammar.antt =====
-- Fql.Lexer.Grammar: the lexical grammar of the query language, beside `lex` of pkg/fql/lexer.go.
use flexitype.Prelude.{
  ℕ, ◌<◌, ◌≡◌, refl, Bool, true, false, ◌&&◌, ◌||◌, not, [], ◌∷◌, ◌++◌, ◌==◌, length, All, arith,
  Bool-cases, inl, inr,
}
use flexitype.Bytes.{Bytes, codes, eq_bytes, is_digit, is_letter, span}
use flexitype.Fql.Token.{
  TokenKind, eof, ident, string, number, lparen, rparen, lbrace, rbrace, comma, dot, op,
}
use flexitype.Fql.Lexer.{head_is, is_byte}

-- One digit at least.
abbrev pub Digits : Bytes → Type 0
Digits ds = (0 < length ds) × All (λ c. is_digit c ≡ true) ds

pub data Whole : Bytes → Type 0 where
  unsigned : {ds : Bytes} → Digits ds → Whole ds
  minus : {ds : Bytes} → Digits ds → Whole (b'-' ∷ ds)

pub data Number : Bytes → Type 0 where
  integer : {w : Bytes} → Whole w → Number w
  decimal : (w ds : Bytes) → Whole w → Digits ds → Number (w ++ b'.' ∷ ds)

abbrev pub in_word : ℕ → Bool
in_word c = is_letter c || is_digit c || c == b'_'

pub data Word : Bytes → Type 0 where
  word :
      {c : ℕ} {cs : Bytes}
      → (is_letter c || c == b'_') ≡ true
      → All (λ b. in_word b ≡ true) cs
      → Word (c ∷ cs)

-- The bytes behind an opening quote, the closing one included, and the text that they write.
pub data StringBody (quote : ℕ) : Bytes → Bytes → Type 0 where
  closed : StringBody quote (quote ∷ []) []
  escaped :
      {c : ℕ} {body text : Bytes}
      → StringBody quote body text
      → StringBody quote (b'\\' ∷ c ∷ body) (c ∷ text)
  plain :
      {c : ℕ} {body text : Bytes}
      → (c == quote || c == b'\\') ≡ false
      → StringBody quote body text
      → StringBody quote (c ∷ body) (c ∷ text)

pub data StringLiteral : Bytes → Bytes → Type 0 where
  double_quoted : {body text : Bytes} → StringBody b'"' body text → StringLiteral (b'"' ∷ body) text
  single_quoted :
      {body text : Bytes} → StringBody b'\'' body text → StringLiteral (b'\'' ∷ body) text

-- `<` and `>` stand alone only where no `=` follows.
unfoldable pub is_operator : Bytes → Bytes → Bool
unfolding eq_bytes head_is
is_operator c rest =
    eq_bytes c (codes "=")
    || eq_bytes c (codes "!=")
    || eq_bytes c (codes "<=")
    || eq_bytes c (codes ">=")
    || (eq_bytes c (codes "<") || eq_bytes c (codes ">")) && not (head_is (is_byte b'=') rest)

-- The bytes `consumed`, which `rest` follows, are a token of the kind with the text: they have the form that the kind
-- asks for, and a word or a number does not go on in `rest`.
abbrev pub Lexeme : TokenKind → Bytes → Bytes → Bytes → Type 0
Lexeme eof consumed text rest = ⊥
Lexeme lparen consumed text rest = (consumed ≡ codes "(") × (text ≡ consumed)
Lexeme rparen consumed text rest = (consumed ≡ codes ")") × (text ≡ consumed)
Lexeme lbrace consumed text rest = (consumed ≡ codes "{") × (text ≡ consumed)
Lexeme rbrace consumed text rest = (consumed ≡ codes "}") × (text ≡ consumed)
Lexeme comma consumed text rest = (consumed ≡ codes ",") × (text ≡ consumed)
Lexeme dot consumed text rest = (consumed ≡ codes ".") × (text ≡ consumed)
Lexeme op consumed text rest = (is_operator consumed rest ≡ true) × (text ≡ consumed)
Lexeme number consumed text rest =
    (Number consumed × (head_is (λ c. is_digit c || c == b'.') rest ≡ false)) × (text ≡ consumed)
Lexeme ident consumed text rest =
    (Word consumed × (head_is in_word rest ≡ false)) × (text ≡ consumed)
Lexeme string consumed text rest = StringLiteral consumed text

-- What `span` takes has the property, and what it leaves does not start with it.
pub span-All : (p : ℕ → Bool) (cs : Bytes) → All (λ c. p c ≡ true) (span p cs).0
unfolding span
span-All p [] = tt
span-All p (c ∷ cs) = elim (Bool-cases (p c)) [ inl e ↦ rw e (e, span-All p cs) | inr e ↦ rw e tt ]

pub span_leaves : (p : ℕ → Bool) (cs : Bytes) → head_is p (span p cs).1 ≡ false
unfolding span head_is
span_leaves p [] = refl
span_leaves p (c ∷ cs) = ground (arith, span_leaves p cs)

pub span_takes : (p : ℕ → Bool) (cs : Bytes) → head_is p cs ≡ true → 0 < length (span p cs).0
unfolding span head_is
span_takes p [] h = cc
span_takes p (c ∷ cs) h = ground arith
