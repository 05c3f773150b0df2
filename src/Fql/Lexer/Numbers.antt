-- ===== src/Fql/Lexer/Numbers.antt =====
-- Fql.Lexer.Numbers: the numbers that `lex` of pkg/fql/lexer.go reads.
use flexitype.Prelude.{
  ℕ, ◌+◌, ◌<◌, ◌≡◌, refl, sym, ap, subst, inl, inr, true, false, ◌||◌, [], ◌∷◌, ◌++◌, arith, ◌==◌,
  ==_iff, Bool-cases, length, length-append, drop,
}
use mathlib.Core.List.{append_assoc}
use flexitype.Bytes.{Bytes, is_digit, span, span-append}
use flexitype.Outcome.{holds, rejected, Ensures-if}
use flexitype.Fql.Token.{number}
use flexitype.Fql.Lexer.{head_is, is_byte, end_number, scan_fraction, scan_number, starts_number}
use flexitype.Fql.Lexer.Grammar.{Whole, Number, span-All, span_leaves, span_takes}
use flexitype.Fql.Lexer.Reads.{Good, head_is-drop, emit-Reads, end-Within}

ends_number :
    (rest : Bytes)
    → head_is is_digit rest ≡ false
    → head_is (is_byte b'.') rest ≡ false
    → head_is (λ c. is_digit c || c == b'.') rest ≡ false
unfolding head_is
ends_number [] h p = refl
ends_number (c ∷ rest) h p = ground arith

end_number-Good :
    (i at : ℕ) (consumed rest : Bytes) {input : Bytes} (splits : consumed ++ rest ≡ input)
    (moves : i + length consumed ≡ at) (nonempty : 0 < length consumed)
    → Number consumed
    → head_is is_digit rest ≡ false
    → Good i input (end_number i consumed at rest)
unfolding end_number
end_number-Good i at consumed rest splits moves nonempty form ends =
    Ensures-if (head_is (is_byte b'.') rest)
      (λ _. rejected (omega (arith, end-Within i at consumed rest splits moves nonempty)))
      (λ point. holds (
        emit-Reads i at consumed rest splits moves nonempty number (λ e. cc)
          ((form, ends_number rest ends point), refl)))

-- The digits behind a dot, where `before` ends with the dot.
scan_fraction-Good :
    (i c : ℕ) (whole rest : Bytes) {input : Bytes}
    → Whole (c ∷ whole)
    → (c ∷ whole) ++ b'.' ∷ rest ≡ input
    → Good i input (scan_fraction i (c ∷ whole) (i + length (c ∷ whole) + 1) rest)
unfolding scan_fraction
scan_fraction-Good i c whole rest {input} form splits =
    Ensures-if (head_is is_digit rest)
      (λ h.
        end_number-Good i (i + length (c ∷ whole) + 1 + length (span is_digit rest).0)
          ((c ∷ whole) ++ (b'.' ∷ (span is_digit rest).0)) (span is_digit rest).1
          (simp (append_assoc, span-append) splits)
          (omega (arith, length-append whole (b'.' ∷ (span is_digit rest).0))) (omega arith)
          (Number.decimal (c ∷ whole) (span is_digit rest).0 form
            (span_takes is_digit rest h, span-All is_digit rest))
          (span_leaves is_digit rest))
      (λ _. rejected (omega (arith, length-append whole (b'.' ∷ rest), ap length splits)))

starts_number-Whole :
    (c : ℕ) (rest : Bytes) → starts_number c rest ≡ true → Whole (c ∷ (span is_digit rest).0)
unfolding starts_number
starts_number-Whole c rest h = elim (Bool-cases (is_digit c)) [
  | inl e ↦ Whole.unsigned (omega arith, (e, span-All is_digit rest))
  | inr e ↦
      subst (λ (k : ℕ). Whole (k ∷ (span is_digit rest).0)) (sym ((==_iff c b'-').0 (ground arith)))
        (Whole.minus (span_takes is_digit rest (ground arith), span-All is_digit rest))
]

pub scan_number-Good :
    (i c : ℕ) (rest : Bytes)
    → starts_number c rest ≡ true
    → Good i (c ∷ rest) (scan_number i c rest)
unfolding scan_number
scan_number-Good i c rest starts =
    let digits = (span is_digit rest).0 in
    let after = (span is_digit rest).1 in
    Ensures-if (head_is (is_byte b'.') after)
      (λ h.
        subst (λ (at : ℕ). Good i (c ∷ rest) (scan_fraction i (c ∷ digits) (at + 1) (drop 1 after)))
          {x = i + length (c ∷ digits)} {y = i + 1 + length digits} (omega arith)
          (scan_fraction-Good i c digits (drop 1 after) (starts_number-Whole c rest starts)
            (simp (head_is-drop _ after h, span-append))))
      (λ _.
        end_number-Good i _ (c ∷ digits) after (simp span-append) (omega arith) (omega arith)
          (Number.integer (starts_number-Whole c rest starts)) (span_leaves is_digit rest))
