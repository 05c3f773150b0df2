-- ===== src/Fql/Lexer/Strings.antt =====
-- Fql.Lexer.Strings: the string literals that `lex` of pkg/fql/lexer.go reads.
use flexitype.Prelude.{
  ℕ, ◌+◌, ◌<◌, ◌≡◌, refl, sym, subst, true, ◌||◌, Option, none, some, [], ◌∷◌, ◌++◌, ◌==◌, ==_iff,
  inl, inr, arith, Bool-cases, length, length-append,
}
use mathlib.Core.List.{append_assoc}
use flexitype.Bytes.{Bytes}
use flexitype.Fql.Lexer.{scan_string, write}
use flexitype.Fql.Lexer.Grammar.{StringBody, StringLiteral}

pub record Body (quote i : ℕ) (input text : Bytes) (at : ℕ) (rest : Bytes) : Type 0 where
  pub body : Bytes
  pub splits : body ++ rest ≡ input
  pub moves : i + length body ≡ at
  pub longer : length text < length body
  pub body_of : StringBody quote body text

abbrev pub BodyOf : ℕ → ℕ → Bytes → Option (Bytes × ℕ × Bytes) → Type 0
BodyOf quote i input none = Unit
BodyOf quote i input (some (text, at, rest)) = Body quote i input text at rest

write-BodyOf :
    (quote i d : ℕ) (before rest : Bytes) (o : Option (Bytes × ℕ × Bytes))
    → 0 < length before
    → ((body text : Bytes)
        → StringBody quote body text
        → StringBody quote (before ++ body) (d ∷ text))
    → BodyOf quote (i + length before) rest o
    → BodyOf quote i (before ++ rest) (write d o)
unfolding write
write-BodyOf quote i d before rest none h grow b = tt
write-BodyOf quote i d before rest (some (text, at, after)) h grow b = record {
  body = before ++ b.body;
  splits = simp (append_assoc, b.splits);
  moves = omega (arith, length-append before b.body, b.moves);
  longer = omega (arith, length-append before b.body, b.longer);
  body_of = grow b.body text b.body_of;
}

closed-Body :
    (quote i c : ℕ) (rest : Bytes) → (c == quote) ≡ true → Body quote i (c ∷ rest) [] (i + 1) rest
closed-Body quote i c rest h = rw ((==_iff c quote).0 h) (record {
  body = quote ∷ [];
  splits = refl;
  moves = omega arith;
  longer = omega arith;
  body_of = StringBody.closed;
})

pub scan_string-BodyOf :
    (quote i : ℕ) (input : Bytes) → BodyOf quote i input (scan_string quote i input)
unfolding scan_string
scan_string-BodyOf quote i [] = tt
scan_string-BodyOf quote i (c ∷ []) = elim (Bool-cases (c == quote)) [
  | inl h ↦ rw h (closed-Body quote i c [] h)
  | inr h ↦ rw h tt
]
scan_string-BodyOf quote i (c ∷ d ∷ rest) = elim (Bool-cases (c == b'\\')) [
  | inl h ↦
      rw (h, (==_iff c b'\\').0 h)
        (write-BodyOf quote i d (b'\\' ∷ d ∷ []) rest _ (omega arith) (λ _ _. StringBody.escaped)
          (scan_string-BodyOf quote (i + 2) rest))
  | inr h ↦ rw h (elim (Bool-cases (c == quote)) [
    | inl e ↦ rw e (closed-Body quote i c (d ∷ rest) e)
    | inr e ↦ rw e (
        write-BodyOf quote i c (c ∷ []) (d ∷ rest) _ (omega arith)
          (λ _ _. StringBody.plain (rw (e, h) refl)) (scan_string-BodyOf quote (i + 1) (d ∷ rest)))
  ])
]

pub literal :
    (c : ℕ) {body text : Bytes}
    → (c == b'"' || c == b'\'') ≡ true
    → StringBody c body text
    → StringLiteral (c ∷ body) text
literal c {body} {text} q b = elim (Bool-cases (c == b'"')) [
  | inl e ↦
      subst (λ (k : ℕ). StringBody k body text → StringLiteral (k ∷ body) text)
        (sym ((==_iff c b'"').0 e)) StringLiteral.double_quoted b
  | inr e ↦
      subst (λ (k : ℕ). StringBody k body text → StringLiteral (k ∷ body) text)
        (sym ((==_iff c b'\'').0 (ground arith))) StringLiteral.single_quoted b
]
