-- ===== src/Fql/Token.antt =====
-- Fql.Token: pkg/fql/token.go.
use flexitype.Prelude.{ℕ, String, Bool, true, false}
use flexitype.Bytes.{Bytes}

pub data TokenKind : Type 0 where
  eof ident string number lparen rparen lbrace rbrace comma dot op : TokenKind

pub record Token : Type 0 where
  pub kind : TokenKind
  pub text : Bytes
  pub pos : ℕ

abbrev pub eq_kind : TokenKind → TokenKind → Bool
eq_kind eof eof = true
eq_kind ident ident = true
eq_kind string string = true
eq_kind number number = true
eq_kind lparen lparen = true
eq_kind rparen rparen = true
eq_kind lbrace lbrace = true
eq_kind rbrace rbrace = true
eq_kind comma comma = true
eq_kind dot dot = true
eq_kind op op = true
eq_kind _ _ = false

-- The format strings of `errorf`, each with its arguments.
pub data Message : Type 0 where
  empty_query query_too_long : Message
  unexpected_bang unterminated_string : Message
  point_needs_digit one_point_only : Message
  unexpected_character : ℕ → Message
  unexpected : Bytes → Message
  nesting_too_deep : Message
  expected : String → Bytes → Message

pub record Error : Type 0 where
  pub pos : ℕ
  pub message : Message

abbrev pub errorf : ℕ → Message → Error
errorf pos message = record { pos = pos; message = message }
