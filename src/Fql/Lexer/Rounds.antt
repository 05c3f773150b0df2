-- ===== src/Fql/Lexer/Rounds.antt =====
-- Fql.Lexer.Rounds: what one round of the loop in `lex` reads.
use flexitype.Prelude.{
  ℕ, ◌+◌, ◌≡◌, refl, ap, ◌≢◌, inl, inr, true, false, ◌||◌, Option, none, some, [], ◌∷◌, arith,
  if◌then◌else◌, ◌==◌, ==_iff, Bool-cases, length, drop,
}
use flexitype.Bytes.{Bytes, eq_bytes, is_space, is_letter, span, span-append}
use flexitype.Outcome.{Ensures, holds, rejected, Ensures-if}
use flexitype.Fql.Token.{TokenKind, eof, ident, lparen, rparen, lbrace, rbrace, comma, dot, op}
use flexitype.Fql.Lexer.{
  head_is, is_byte, close_string, is_word_byte, scan_word, scan_order, scan_bang, punctuation,
  starts_number, scan_long, scan_punctuation, scan,
}
use flexitype.Fql.Lexer.Grammar.{Word, in_word, is_operator, Lexeme, span-All, span_leaves}
use flexitype.Fql.Lexer.Reads.{Within, Reads, Good, head_is-drop, emit-Reads}
use flexitype.Fql.Lexer.Numbers.{scan_number-Good}
use flexitype.Fql.Lexer.Strings.{BodyOf, literal, scan_string-BodyOf}

close_string-Good :
    (i c : ℕ) (rest : Bytes) (o : Option (Bytes × ℕ × Bytes))
    → (c == b'"' || c == b'\'') ≡ true
    → BodyOf c (i + 1) rest o
    → Good i (c ∷ rest) (close_string i o)
unfolding close_string
close_string-Good i c rest none q b = rejected (omega arith)
close_string-Good i c rest (some (text, at, after)) q b = holds (record {
  consumed = c ∷ b.body;
  splits = ap (λ (r : Bytes). c ∷ r) b.splits;
  moves = omega (arith, b.moves);
  nonempty = omega arith;
  token_of = (refl, (λ e. cc), inl refl, omega (arith, b.longer), literal c q b.body_of);
})

long_operator :
    (c : ℕ) (rest : Bytes)
    → (c == b'>' || c == b'<') ≡ true
    → is_operator (c ∷ b'=' ∷ []) rest ≡ true
unfolding is_operator eq_bytes
long_operator c rest h = ground arith

short_operator :
    (c : ℕ) (rest : Bytes)
    → (c == b'>' || c == b'<') ≡ true
    → head_is (is_byte b'=') rest ≡ false
    → is_operator (c ∷ []) rest ≡ true
unfolding is_operator eq_bytes
short_operator c rest h e = ground arith

word_starts : (c : ℕ) → (is_letter c || c == b'_') ≡ true → is_word_byte c ≡ true
unfolding is_word_byte
word_starts c h = ground arith

scan_word-Good :
    (i c : ℕ) (rest : Bytes)
    → (is_letter c || c == b'_') ≡ true
    → Good i (c ∷ rest) (scan_word i (c ∷ rest))
unfolding scan_word span
scan_word-Good i c rest h = rw (word_starts c h) (
    holds (
      emit-Reads i _ (c ∷ (span is_word_byte rest).0) (span is_word_byte rest).1
        (ap (λ (r : Bytes). c ∷ r) (span-append is_word_byte rest)) refl (omega arith) ident
        (λ e. cc)
        (unfold is_word_byte in
          ((Word.word h (span-All in_word rest), span_leaves in_word rest), refl))))

scan_order-Good :
    (i c : ℕ) (rest : Bytes)
    → (c == b'>' || c == b'<') ≡ true
    → Good i (c ∷ rest) (scan_order i c rest)
unfolding scan_order
scan_order-Good i c rest o =
    Ensures-if (head_is (is_byte b'=') rest)
      (λ h. holds (
        emit-Reads i _ (c ∷ b'=' ∷ []) _ (ap (λ (r : Bytes). c ∷ r) (head_is-drop b'=' rest h))
          (omega arith) (omega arith) op (λ e. cc) (long_operator c (drop 1 rest) o, refl)))
      (λ h. holds (
        emit-Reads i _ (c ∷ []) rest refl (omega arith) (omega arith) op (λ e. cc)
          (short_operator c rest o h, refl)))

scan_bang-Good : (i : ℕ) (rest : Bytes) → Good i (b'!' ∷ rest) (scan_bang i rest)
unfolding scan_bang
scan_bang-Good i rest =
    Ensures-if (head_is (is_byte b'=') rest)
      (λ h. holds (
        emit-Reads i _ (b'!' ∷ b'=' ∷ []) _
          (ap (λ (r : Bytes). b'!' ∷ r) (head_is-drop b'=' rest h)) (omega arith) (omega arith) op
          (λ e. cc) (unfold is_operator eq_bytes in (refl, refl))))
      (λ _. rejected (omega arith))

scan_long-Good : (i c : ℕ) (rest : Bytes) → Good i (c ∷ rest) (scan_long i c rest)
unfolding scan_long
scan_long-Good i c rest =
    Ensures-if (c == b'!') (λ h. rw ((==_iff c b'!').0 h) (scan_bang-Good i rest))
      (λ _. Ensures-if (c == b'>' || c == b'<') (scan_order-Good i c rest) (λ _.
        Ensures-if (c == b'"' || c == b'\'')
          (λ q. close_string-Good i c rest _ q (scan_string-BodyOf c (i + 1) rest))
          (λ _. Ensures-if (starts_number c rest) (scan_number-Good i c rest) (λ _.
            Ensures-if (is_letter c || c == b'_') (scan_word-Good i c rest)
              (λ _. rejected (omega arith))))))

-- The kind, if there is one, is that of the single byte.
abbrev OfByte : ℕ → Bytes → Option TokenKind → Type 0
OfByte c rest none = Unit
OfByte c rest (some kind) = (kind ≢ eof) × Lexeme kind (c ∷ []) (c ∷ []) rest

OfByte-if :
    (c mark : ℕ) (rest : Bytes) (kind : TokenKind) (others : Option TokenKind)
    → kind ≢ eof
    → Lexeme kind (mark ∷ []) (mark ∷ []) rest
    → OfByte c rest others
    → OfByte c rest (if c == mark then some kind else others)
OfByte-if c mark rest kind others ne form h = elim (Bool-cases (c == mark)) [
  | inl e ↦ rw (e, (==_iff c mark).0 e) (ne, form)
  | inr e ↦ rw e h
]

punctuation-OfByte : (c : ℕ) (rest : Bytes) → OfByte c rest (punctuation c)
unfolding punctuation is_operator eq_bytes
punctuation-OfByte c rest =
    OfByte-if c b'(' rest lparen _ (λ e. cc) (refl, refl)
      (OfByte-if c b')' rest rparen _ (λ e. cc) (refl, refl)
        (OfByte-if c b'{' rest lbrace _ (λ e. cc) (refl, refl)
          (OfByte-if c b'}' rest rbrace _ (λ e. cc) (refl, refl)
            (OfByte-if c b',' rest comma _ (λ e. cc) (refl, refl)
              (OfByte-if c b'.' rest dot _ (λ e. cc) (refl, refl)
                (OfByte-if c b'=' rest op _ (λ e. cc) (refl, refl) tt))))))

scan_punctuation-Good :
    (i c : ℕ) (rest : Bytes) (o : Option TokenKind)
    → OfByte c rest o
    → Good i (c ∷ rest) (scan_punctuation i c rest o)
unfolding scan_punctuation
scan_punctuation-Good i c rest none h = scan_long-Good i c rest
scan_punctuation-Good i c rest (some kind) (ne, form) =
    holds (emit-Reads i _ (c ∷ []) rest refl (omega arith) (omega arith) kind ne form)

-- One round reads at least one byte, and its token, if any, is what it read.
pub scan-Reads :
    (i c : ℕ) (rest : Bytes)
    → Ensures (Within i (length (c ∷ rest))) (Reads i (c ∷ rest)) (scan i c rest)
unfolding scan
scan-Reads i c rest =
    Ensures-if (is_space c)
      (λ space. holds (record {
        consumed = c ∷ [];
        splits = refl;
        moves = omega arith;
        nonempty = omega arith;
        token_of = (space, tt);
      }))
      (λ _. scan_punctuation-Good i c rest _ (punctuation-OfByte c rest))
