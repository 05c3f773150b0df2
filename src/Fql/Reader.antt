-- ===== src/Fql/Reader.antt =====
-- Fql.Reader: the parser's state and its tokens, from pkg/fql/parser.go. The state is what is left of the
-- tokens, `p.tokens[p.pos:]`, and the depth.
pub mod Safe
use flexitype.Prelude.{ℕ, zero, suc, ◌+◌, String, Bool, ◌&&◌, List, [], ◌∷◌, ltb, if◌then◌else◌}
use flexitype.Bytes.{Bytes, codes, equal_fold}
use flexitype.Outcome.{Outcome, ok, failed, panicked, out_of_fuel, bind}
use flexitype.Fql.Token.{
  TokenKind, Token, Error, Message, errorf, eq_kind, eof, ident, nesting_too_deep, expected,
}

abbrev pub max_parse_depth : ℕ
max_parse_depth = 128

pub record State : Type 0 where
  pub tokens : List Token
  pub depth : ℕ

abbrev pub Parser {ℓ} : Type ℓ → Type ℓ
Parser A = State → Outcome Error (A × State)

abbrev pub pure {ℓ} : {A : Type ℓ} → A → Parser A
pure a s = ok (a, s)

abbrev pub raise {ℓ} : {A : Type ℓ} → ℕ → Message → Parser A
raise pos message s = failed (errorf pos message)

abbrev pub spent {ℓ} : {A : Type ℓ} → Parser A
spent s = out_of_fuel

module _ {ℓ κ} {A : Type ℓ} {B : Type κ} where
  infixl 1 ◌>>=◌ ◌>>◌
  unfoldable pub ◌>>=◌ : Parser A → (A → Parser B) → Parser B
  ◌>>=◌ p f s = bind (p s) λ (a, s'). f a s'

  abbrev pub ◌>>◌ : Parser A → Parser B → Parser B
  p >> q = p >>= λ _. q

-- p.tokens[p.pos], which panics past the last token.
unfoldable pub peek : Parser Token
peek s = elim s.tokens [ [] ↦ panicked | t ∷ ts ↦ ok (t, s) ]

-- The end is never passed.
unfoldable pub next : Parser Token
next s = elim s.tokens [
  | [] ↦ panicked
  | t ∷ ts ↦ ok (t, if eq_kind t.kind eof then s else record s { tokens = ts })
]

-- p.tokens[p.pos+1].
unfoldable pub peek_second : Parser Token
peek_second s = elim s.tokens [
  | [] ↦ panicked
  | t ∷ ts ↦ elim ts [ [] ↦ panicked | u ∷ us ↦ ok (u, s) ]
]

unfoldable pub enter : ℕ → Parser (Unit {0})
enter pos s =
    if ltb max_parse_depth (s.depth + 1)
    then failed (errorf pos nesting_too_deep)
    else ok (tt, record s { depth = s.depth + 1 })

unfoldable pub leave : Parser (Unit {0})
leave s = elim s.depth [ zero ↦ ok (tt, s) | suc d ↦ ok (tt, record s { depth = d }) ]

-- `if err := p.enter(pos); err != nil { return err }; defer p.leave()` around a body.
unfoldable pub nested {ℓ} : {A : Type ℓ} → ℕ → Parser A → Parser A
unfolding enter leave
nested pos body = do enter pos; a ← body; leave; pure a

unfoldable pub keyword : Bytes → Parser Bool
keyword word = do t ← peek; pure (eq_kind t.kind ident && equal_fold t.text word)

unfoldable pub display_token : Token → Bytes
display_token t = if eq_kind t.kind eof then codes "end of query" else t.text

unfoldable pub expect : TokenKind → String → Parser Token
unfolding display_token
expect kind what = do
  t ← peek
  if eq_kind t.kind kind then next else raise t.pos (expected what (display_token t))
