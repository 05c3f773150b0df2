-- ===== src/Fql/Lexer/Inner.antt =====
-- Fql.Lexer.Inner: the words and the numbers of the grammar, as `lex` of pkg/fql/lexer.go reads them.
use flexitype.Prelude.{
  ℕ, ◌+◌, ◌≡◌, refl, sym, ap, ◌∙◌, subst, Bool, true, false, ◌||◌, none, some, [], ◌∷◌, ◌++◌, arith,
  if◌then◌else◌, ◌==◌, length, length-append, All,
}
use mathlib.Core.List.{append_assoc}
use flexitype.Bytes.{Bytes, is_space, is_digit, is_letter, span}
use flexitype.Outcome.{Outcome, ok, failed, out_of_fuel}
use flexitype.Fql.Token.{TokenKind, Error, errorf, unexpected_character, ident, number}
use flexitype.Fql.Lexer.{
  Round, head_is, is_byte, end_number, scan_fraction, scan_number, is_word_byte, scan_word,
  punctuation, starts_number, scan_long, scan_punctuation, scan,
}
use flexitype.Fql.Lexer.Grammar.{Digits, Whole, Number, Word, in_word}

-- The round that reads the token.
abbrev pub read_round : TokenKind → Bytes → ℕ → ℕ → Bytes → Round
read_round kind text i at rest = record {
  token = some (record { kind = kind; text = text; pos = i });
  at = at;
  rest = rest;
}

-- The round that starts where the input does.
unfoldable pub scan_head : ℕ → Bytes → Outcome Error Round
scan_head i [] = out_of_fuel
scan_head i (c ∷ rest) = scan i c rest

unfoldable pub Found : ℕ → TokenKind → Bytes → Bytes → Bytes → Type 0
Found i kind consumed text rest =
    scan_head i (consumed ++ rest) ≡ ok (read_round kind text i (i + length consumed) rest)

span-stops :
    (p : ℕ → Bool) (cs rest : Bytes)
    → All (λ c. p c ≡ true) cs
    → head_is p rest ≡ false
    → span p (cs ++ rest) ≡ (cs, rest)
unfolding span head_is
span-stops p [] [] a h = refl
span-stops p [] (d ∷ rest) a h = rw h refl
span-stops p (c ∷ cs) rest a h = rw (a.0, span-stops p cs rest a.1 h) refl

-- The first byte of a word or a number.
abbrev is_inner : ℕ → Bool
is_inner c = is_digit c || is_letter c || c == b'_' || c == b'-'

inner-punctuation : (c : ℕ) → is_inner c ≡ true → punctuation c ≡ none
unfolding punctuation is_digit is_letter
inner-punctuation c h = ground arith

-- A round on such a byte reads a number or a word.
scan-inner :
    (i c : ℕ) (rest : Bytes)
    → is_inner c ≡ true
    → scan i c rest ≡ (
        if starts_number c rest
        then scan_number i c rest
        else if is_letter c || c == b'_'
        then scan_word i (c ∷ rest)
        else failed (errorf i (unexpected_character c)))
unfolding scan scan_punctuation scan_long
scan-inner i c rest h =
    let space : is_space c ≡ false = unfold is_space is_digit is_letter in ground arith in
    let bang : (c == b'!') ≡ false = unfold is_digit is_letter in ground arith in
    let order : (c == b'>' || c == b'<') ≡ false = unfold is_digit is_letter in ground arith in
    let quote : (c == b'"' || c == b'\'') ≡ false = unfold is_digit is_letter in ground arith in
    rw (space, inner-punctuation c h, bang, order, quote) refl

scan-word :
    (i c : ℕ) (cs rest : Bytes)
    → (is_letter c || c == b'_') ≡ true
    → All (λ b. in_word b ≡ true) cs
    → head_is in_word rest ≡ false
    → scan i c (cs ++ rest) ≡ ok (read_round ident (c ∷ cs) i (i + length (c ∷ cs)) rest)
unfolding scan_word is_word_byte
scan-word i c cs rest h a e =
    let digits : starts_number c (cs ++ rest) ≡ false =
      unfold starts_number is_digit is_letter in ground arith in
    scan-inner i c (cs ++ rest) (ground arith)
    ∙ rw (digits, h, span-stops in_word (c ∷ cs) rest (ground arith, a) e) refl

-- A number starts with a byte, and goes on with digits.
record Start (w : Bytes) : Type 0 where
  first : ℕ
  others : Bytes
  splits : w ≡ first ∷ others
  digits : All (λ c. is_digit c ≡ true) others
  starts : (rest : Bytes) → starts_number first (others ++ rest) ≡ true

Whole-Start : {w : Bytes} → Whole w → Start w
unfolding starts_number head_is is_digit
Whole-Start (Whole.unsigned {ds = []} (n, a)) = absurd (omega arith)
Whole-Start (Whole.unsigned {ds = c ∷ cs} (n, a)) = record {
  first = c;
  others = cs;
  splits = refl;
  digits = a.1;
  starts = λ rest. rw a.0 refl;
}
Whole-Start (Whole.minus {ds = []} (n, a)) = absurd (omega arith)
Whole-Start (Whole.minus {ds = c ∷ cs} (n, a)) = record {
  first = b'-';
  others = c ∷ cs;
  splits = refl;
  digits = a;
  starts = λ rest. rw a.0 refl;
}

digits_end :
    (rest : Bytes)
    → head_is (λ c. is_digit c || c == b'.') rest ≡ false
    → (head_is is_digit rest ≡ false) × (head_is (is_byte b'.') rest ≡ false)
unfolding head_is
digits_end [] h = (refl, refl)
digits_end (c ∷ rest) h = (ground arith, ground arith)

scan_number-Found :
    (i c : ℕ) (cs rest : Bytes)
    → All (λ b. is_digit b ≡ true) cs
    → head_is (λ b. is_digit b || b == b'.') rest ≡ false
    → scan_number i c (cs ++ rest) ≡ ok (read_round number (c ∷ cs) i (i + 1 + length cs) rest)
unfolding scan_number end_number
scan_number-Found i c cs rest a h =
    rw (span-stops is_digit cs rest a (digits_end rest h).0, (digits_end rest h).1) refl

scan_fraction-Found :
    (i c : ℕ) (cs ds rest : Bytes)
    → All (λ b. is_digit b ≡ true) cs
    → Digits ds
    → head_is (λ b. is_digit b || b == b'.') rest ≡ false
    → scan_number i c (cs ++ b'.' ∷ (ds ++ rest))
      ≡ ok (read_round number (c ∷ (cs ++ b'.' ∷ ds)) i (i + 1 + length cs + 1 + length ds) rest)
unfolding scan_number scan_fraction end_number head_is is_digit
scan_fraction-Found i c cs [] rest a d h = absurd (omega (arith, d.0))
scan_fraction-Found i c cs (b ∷ ds) rest a d h =
    rw
      (
        span-stops is_digit cs (b'.' ∷ (b ∷ ds) ++ rest) a refl,
        span-stops is_digit (b ∷ ds) rest d.1 (digits_end rest h).0,
        d.1.0,
        (digits_end rest h).1,
      )
      refl

scan-number :
    (i c : ℕ) (rest : Bytes) → starts_number c rest ≡ true → scan i c rest ≡ scan_number i c rest
scan-number i c rest h = scan-inner i c rest (unfold starts_number in ground arith) ∙ rw h refl

pub number-Found :
    (i : ℕ) (rest : Bytes) {w : Bytes}
    → Number w
    → head_is (λ b. is_digit b || b == b'.') rest ≡ false
    → Found i number w w rest
unfolding Found scan_head
number-Found i rest (Number.integer {w} form) h =
    let s = Whole-Start form in
    subst (λ v. Found i number v v rest) (sym s.splits)
      (scan-number i s.first (s.others ++ rest) (s.starts rest)
        ∙ scan_number-Found i s.first s.others rest s.digits h
        ∙ ap (λ (at : ℕ). ok (read_round number (s.first ∷ s.others) i at rest)) (omega arith))
number-Found i rest (Number.decimal w ds form frac) h =
    let s = Whole-Start form in
    subst (λ v. Found i number (v ++ b'.' ∷ ds) (v ++ b'.' ∷ ds) rest) (sym s.splits)
      (rw (append_assoc s.others (b'.' ∷ ds) rest) (
        scan-number i s.first (s.others ++ b'.' ∷ (ds ++ rest)) (s.starts (b'.' ∷ (ds ++ rest)))
        ∙ scan_fraction-Found i s.first s.others ds rest s.digits frac h
        ∙ ap (λ (at : ℕ). ok (read_round number (s.first ∷ (s.others ++ b'.' ∷ ds)) i at rest))
            (omega (arith, length-append s.others (b'.' ∷ ds)))))

pub word-Found :
    (i : ℕ) (rest : Bytes) {w : Bytes}
    → Word w
    → head_is in_word rest ≡ false
    → Found i ident w w rest
unfolding Found scan_head
word-Found i rest (Word.word {c} {cs} h a) e = scan-word i c cs rest h a e
