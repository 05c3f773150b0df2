-- ===== src/Formula/Lexer/Progress.antt =====
-- Formula.Lexer.Progress: every token but the end uses up a byte.
use flexitype.Prelude.{ℕ, ◌+◌, ◌≤◌, ◌≡◌, Bool, true, [], ◌∷◌, arith, length}
use flexitype.Bytes.{Bytes, span, is_space}
use flexitype.Formula.Ast.{Token, eof}
use flexitype.Formula.Lexer.{
  State, next, scan, scan_run, skip_space, is_number_byte, is_name_byte, starts_name,
}

abbrev pub weight : Token → ℕ
weight eof = 0
weight _ = 1

-- The bytes that are left, and the token in hand.
abbrev pub size : State → ℕ
size s = length s.rest + weight s.tok

span-length : (p : ℕ → Bool) (s : Bytes) → length (span p s).1 ≤ length s
unfolding span
span-length p [] = omega arith
span-length p (c ∷ cs) = ground (arith, span-length p cs)

span-shorter :
    (p : ℕ → Bool) (c : ℕ) (cs : Bytes) → p c ≡ true → length (span p (c ∷ cs)).1 ≤ length cs
unfolding span
span-shorter p c cs h = ground (arith, span-length p cs)

starts_name-name : (c : ℕ) → starts_name c ≡ true → is_name_byte c ≡ true
unfolding starts_name is_name_byte
starts_name-name c h = ground arith

scan-Shrinks : (s : Bytes) → length (scan s).1 + weight (scan s).0 ≤ length s
unfolding scan scan_run
scan-Shrinks [] = omega arith
scan-Shrinks (c ∷ cs) =
    ground
      (arith, span-shorter is_number_byte c cs, span-shorter is_name_byte c cs, starts_name-name c)

pub next-Shrinks : (s : State) → size (next s) ≤ length s.rest
unfolding next skip_space
next-Shrinks s = omega (arith, scan-Shrinks (skip_space s.rest), span-length is_space s.rest)
