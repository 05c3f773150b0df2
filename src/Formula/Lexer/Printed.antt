-- ===== src/Formula/Lexer/Printed.antt =====
-- Formula.Lexer.Printed: the token of a text that stands before an operator, a parenthesis or the end.
use flexitype.Prelude.{ℕ, ◌≡◌, refl, Bool, true, false, ◌||◌, [], ◌∷◌, ◌++◌, ◌==◌, arith, All}
use flexitype.Bytes.{Bytes, span, is_space, is_digit, is_letter}
use flexitype.Formula.Ast.{Token, eof, number, ident, operator, Refs}
use flexitype.Formula.Lexer.{
  State, next, scan, scan_run, skip_space, peek_is_lparen, starts_call, is_number_byte,
  is_name_byte, is_operator, starts_name,
}

-- The parser at the next token of a text.
abbrev pub at : Bytes → Refs → State
at s r = next (record { rest = s; tok = eof; names = r })

-- No number and no name goes on here.
unfoldable pub ends : Bytes → Bool
ends [] = true
ends (c ∷ cs) = is_operator c || c == b')'

abbrev pub IsNumber : Bytes → Type 0
IsNumber [] = ⊥
IsNumber (c ∷ cs) = (is_number_byte c ≡ true) × All (λ b. is_number_byte b ≡ true) cs

abbrev pub IsName : Bytes → Type 0
IsName [] = ⊥
IsName (c ∷ cs) = (starts_name c ≡ true) × All (λ b. is_name_byte b ≡ true) cs

span-All :
    (p : ℕ → Bool) (text rest : Bytes)
    → All (λ c. p c ≡ true) text
    → span p rest ≡ ([], rest)
    → span p (text ++ rest) ≡ (text, rest)
unfolding span
span-All p [] rest h e = e
span-All p (c ∷ cs) rest h e = let (now, later) = h in rw (span-All p cs rest later e, now)

module _ (rest : Bytes) (e : ends rest ≡ true) where
  number_ends : span is_number_byte rest ≡ ([], rest)
  number_ends = go rest e
    where
      go : (s : Bytes) → ends s ≡ true → span is_number_byte s ≡ ([], s)
      go [] h = unfold span in refl
      go (c ∷ cs) h = unfold span ends is_operator is_number_byte is_digit in ground arith

  pub name_ends : span is_name_byte rest ≡ ([], rest)
  name_ends = go rest e
    where
      go : (s : Bytes) → ends s ≡ true → span is_name_byte s ≡ ([], s)
      go [] h = unfold span in refl
      go (c ∷ cs) h = unfold span ends is_operator is_name_byte is_letter is_digit in ground arith

  space_ends : skip_space rest ≡ rest
  space_ends = go rest e
    where
      go : (s : Bytes) → ends s ≡ true → skip_space s ≡ s
      go [] h = unfold skip_space span in refl
      go (c ∷ cs) h = unfold skip_space span ends is_operator is_space in ground arith

not_space : (c : ℕ) (cs : Bytes) → is_space c ≡ false → skip_space (c ∷ cs) ≡ c ∷ cs
unfolding skip_space span
not_space c cs h = ground arith

number-byte :
    (c : ℕ)
    → is_number_byte c ≡ true
    → (is_space c ≡ false) × (is_operator c ≡ false) × ((c == b'(') ≡ false) × ((c == b')') ≡ false)
unfolding is_number_byte is_space is_operator is_digit
number-byte c h = ground arith

name-start :
    (c : ℕ)
    → starts_name c ≡ true
    → (is_space c ≡ false)
      × (is_operator c ≡ false)
      × ((c == b'(') ≡ false)
      × ((c == b')') ≡ false)
      × (is_number_byte c ≡ false)
      × (is_name_byte c ≡ true)
unfolding starts_name is_space is_operator is_digit is_letter is_number_byte is_name_byte
name-start c h = ground arith

operator-byte :
    (c : ℕ)
    → is_operator c ≡ true
    → (is_space c ≡ false) × ((c == b'(') ≡ false) × ((c == b')') ≡ false)
unfolding is_operator is_space
operator-byte c h = ground arith

module _ (r : Refs) where
  pub at-number :
      (text rest : Bytes)
      → IsNumber text
      → ends rest ≡ true
      → at (text ++ rest) r ≡ record { rest = rest; tok = number text; names = r }
  at-number [] rest n e = absurd n
  at-number (c ∷ cs) rest (h, hs) e =
      let (space, op, open_, close_) = number-byte c h in
      unfold next scan scan_run span in
      rw (
        not_space c (cs ++ rest) space,
        open_,
        close_,
        op,
        h,
        span-All is_number_byte cs rest hs (number_ends rest e),
      )

  pub at-name :
      (text rest : Bytes)
      → IsName text
      → span is_name_byte rest ≡ ([], rest)
      → at (text ++ rest) r ≡ record { rest = rest; tok = ident text; names = r }
  at-name [] rest n e = absurd n
  at-name (c ∷ cs) rest (h, hs) e =
      let (space, op, open_, close_, digit, part) = name-start c h in
      unfold next scan scan_run in
      rw (
        not_space c (cs ++ rest) space,
        open_,
        close_,
        op,
        digit,
        h,
        span-All is_name_byte (c ∷ cs) rest (part, hs) e,
      )

  pub at-operator :
      (c : ℕ) (rest : Bytes)
      → is_operator c ≡ true
      → at (c ∷ rest) r ≡ record { rest = rest; tok = operator c; names = r }
  at-operator c rest h =
      let (space, open_, close_) = operator-byte c h in
      unfold next scan in rw (not_space c rest space, open_, close_, h)

  -- A name at the end of an operand is no call.
  pub no_call :
      (t : Token) (rest : Bytes)
      → ends rest ≡ true
      → peek_is_lparen (record { rest = rest; tok = t; names = r }) ≡ false
  no_call t rest e = unfold peek_is_lparen in rw (space_ends rest e) (go rest e)
    where
      go : (s : Bytes) → ends s ≡ true → starts_call s ≡ false
      go [] h = unfold starts_call in refl
      go (c ∷ cs) h = unfold starts_call ends is_operator in ground arith
